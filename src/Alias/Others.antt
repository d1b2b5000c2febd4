-- ===== src/Alias/Others.antt =====
-- Nothing else in the directory changes, and an alias is written as a whole or not at all.
use better_steam_tools_ameth.Base.{
  ◌+◌, ◌≡◌, refl, ap, ◌∙◌, true, false, not, ◌&&◌, some, ◌∷◌, ◌++◌, arith, inl, inr, if◌then◌else◌,
  length, length-append, Bool-cases, Option-cases,
}
use better_steam_tools_ameth.Base.Text.{Bytes, bytes_eq, bytes_eq→eq}
use better_steam_tools_ameth.Base.Keyed.{text_key, get, put, erase, get-put, get-erase}
use better_steam_tools_ameth.Alias.{
  Node, Directory, Calls, temp_path_for, remove_temp, write_bytes_via_temp, temp_suffix, regular,
}

-- the temporary file is another file
alias_apart : (alias tag : Bytes) → bytes_eq alias (temp_path_for alias tag) ≡ false
unfolding temp_path_for
alias_apart alias tag = elim (Bool-cases (bytes_eq alias (temp_path_for alias tag))) [
  | inl e ↦
      let same = ap length (bytes_eq→eq alias (temp_path_for alias tag) e) in
      let long : length (temp_path_for alias tag)
          ≡ length alias + length ((b'.' ∷ tag) ++ temp_suffix) =
        length-append alias ((b'.' ∷ tag) ++ temp_suffix) in
      let rest = length-append (b'.' ∷ tag) temp_suffix in absurd (omega arith)
  | inr e ↦ e
]

put_apart :
    (name other : Bytes) (node : Node) (d : Directory)
    → bytes_eq name other ≡ false
    → get name (put other node d) ≡ get name d
put_apart name other node d apart = get-put name other node d ∙ rw apart refl

erase_apart :
    (name other : Bytes) (d : Directory)
    → bytes_eq name other ≡ false
    → get name (erase other d) ≡ get name d
erase_apart name other d apart = get-erase name other d ∙ rw apart refl

get-remove_temp :
    (calls : Calls) (name tmp : Bytes) (d : Directory)
    → bytes_eq name tmp ≡ false
    → get name (remove_temp calls tmp d) ≡ get name d
unfolding remove_temp
get-remove_temp calls name tmp d apart = ground (arith, get-erase name tmp d)

module _ (calls : Calls) (bytes alias tag : Bytes) (dir : Directory) where
  abbrev tmp : Bytes
  tmp = temp_path_for alias tag

  -- a name other than that of the temporary file: as it was, but for an alias that is written
  pub get-write_bytes_via_temp :
      (name : Bytes)
      → bytes_eq name tmp ≡ false
      → get name (write_bytes_via_temp calls bytes alias tag dir).0 ≡ (
          if bytes_eq name alias && not (write_bytes_via_temp calls bytes alias tag dir).1
          then some (regular bytes calls.now true)
          else get name dir)
  unfolding write_bytes_via_temp
  get-write_bytes_via_temp name apart = elim (Bool-cases calls.opens) [
    | inl opened ↦ elim (Option-cases calls.written_only) [
      | inl e ↦
          let full = put tmp (regular bytes calls.now true) dir in
          let filled = put_apart name tmp (regular bytes calls.now true) dir apart in
          elim (Bool-cases calls.renames) [
            | inl moved ↦
                let placed = get-put name alias (regular bytes calls.now true) (erase tmp full) in
                let gone = erase_apart name tmp full apart in rw (opened, e, moved) (ground arith)
            | inr kept ↦
                let removed = get-remove_temp calls name tmp full apart in
                rw (opened, e, kept) (ground arith)
          ]
      | inr (part, e) ↦
          let half = put tmp (regular part calls.now true) dir in
          let filled = put_apart name tmp (regular part calls.now true) dir apart in
          let removed = get-remove_temp calls name tmp half apart in rw (opened, e) (ground arith)
    ]
    | inr closed ↦
        let removed = get-remove_temp calls name tmp dir apart in rw closed (ground arith)
  ]
