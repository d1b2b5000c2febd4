-- ===== src/LuaConfig/Timed.antt =====
-- No file is newer than the counter.
use better_steam_tools_ameth.Base.{
  ℕ, ◌+◌, ◌%◌, ◌^◌, ◌≤◌, ◌<◌, ◌≡◌, refl, sym, ap, ◌∙◌, subst, Bool, false, ◌&&◌, none, some, List,
  [], ◌∷◌, arith, inl, inr, Bool-cases, Option-cases,
}
use better_steam_tools_ameth.Base.Text.{Bytes, bytes_eq}
use better_steam_tools_ameth.Base.Keyed.{
  number_key, text_key, same_self, get, put, erase, names, get-put, get-erase, has-get,
}
use better_steam_tools_ameth.LuaConfig.{
  Pins, ManifestOverride, ConfigState, ConfigOp, is_unnamed, rebuild_manifest_override, apply_ops,
}
use better_steam_tools_ameth.LuaConfig.Files.{
  unload_file, unload_pins, rebuild_all, forget_sequence, is_loaded, commit,
}
use better_steam_tools_ameth.LuaConfig.Newest.{IsActive, pin_of}
use better_steam_tools_ameth.LuaConfig.Commit.{begun}
use better_steam_tools_ameth.LuaConfig.Active.{unpinned, commit-IsActive}
use better_steam_tools_ameth.LuaConfig.Wins.{
  last_pin, own_pin, apply_ops-own_pin, apply_ops_times, best_override_newest,
}

unfoldable pub IsTimed : Pins → Type 0
IsTimed p = (f : Bytes) (m : ℕ) → get f p.parse_sequence ≡ some m → m ≤ p.next_sequence

-- the same times and the same counter
record Timed (p q : Pins) : Type 0 where
  times : p.parse_sequence ≡ q.parse_sequence
  next : p.next_sequence ≡ q.next_sequence

rebuild_all-Timed : (ids : List ℕ) (p : Pins) → Timed (rebuild_all ids p) p
unfolding rebuild_all rebuild_manifest_override
rebuild_all-Timed [] p = record { times = refl; next = refl }
rebuild_all-Timed (id ∷ ids) p =
    let rest = rebuild_all-Timed ids (rebuild_manifest_override id p) in
    record { times = rest.times; next = rest.next }

unload_pins-Timed : (file : Bytes) (p : Pins) → Timed (unload_pins file p) p
unfolding unload_pins
unload_pins-Timed file p = elim (Option-cases (get file p.file_overrides)) [
  | inl e ↦ rw (e, unload_pins) (record { times = refl; next = refl })
  | inr (pins, e) ↦
      let all =
        rebuild_all-Timed (names pins)
          (record p { file_overrides = erase file p.file_overrides }) in
      rw (e, unload_pins) (record { times = all.times; next = all.next })
]

-- a removal forgets the time of the file, and no other
unload_file_time :
    (file f : Bytes) (s : ConfigState) (m : ℕ)
    → get f (unload_file file s).pins.parse_sequence ≡ some m
    → get f s.pins.parse_sequence ≡ some m
unfolding unload_file is_loaded forget_sequence
unload_file_time file f s m h = elim (Bool-cases (is_loaded file s)) [
  | inl e ↦
      let h' = (rw e at h) in
      let all = unload_pins-Timed file s.pins in
      let same = ap (get f) all.times in
      ground (arith, get-erase f file (unload_pins file s.pins).parse_sequence)
  | inr e ↦ (rw e at h)
]

unload_file_next :
    (file : Bytes) (s : ConfigState)
    → (unload_file file s).pins.next_sequence ≡ s.pins.next_sequence
unfolding unload_file is_loaded forget_sequence
unload_file_next file s = elim (Bool-cases (is_loaded file s)) [
  | inl e ↦ rw e (unload_pins-Timed file s.pins).next
  | inr e ↦ rw e refl
]

commit_goes :
    (file : Bytes) (mtime : ℕ) (incomplete : Bool) (ops : List ConfigOp) (s : ConfigState)
    → (incomplete && is_loaded file s) ≡ false
    → commit file mtime incomplete ops s
      ≡ apply_ops file ops (begun file mtime (unload_file file s))
unfolding commit
commit_goes file mtime incomplete ops s go = rw go refl

begun-own_pin :
    (x : ℕ) (file : Bytes) (mtime : ℕ) (s : ConfigState)
    → own_pin x file (begun file mtime (unload_file file s)).pins ≡ none
unfolding get
begun-own_pin x file mtime s =
    let gone = unpinned file s in
    let nothing : get file (unload_file file s).pins.file_overrides ≡ none =
      ground (arith, has-get file (unload_file file s).pins.file_overrides) in
    rw nothing refl

get_apart :
    (f file : Bytes) (n : ℕ) (seqs : List (Bytes × ℕ))
    → bytes_eq f file ≡ false
    → get f (put file n seqs) ≡ get f seqs
get_apart f file n seqs apart = get-put f file n seqs ∙ rw apart refl

-- If a file with a name is committed and not held back as a broken-off run of a loaded file, in
-- a state in which the pins in force are those that a rebuild finds, no file is newer than the
-- counter and the counter plus one is below 2^64, then the pin that the operations set last for
-- a depot is the one in force.
pub commit-last_pin :
    (file : Bytes) (mtime : ℕ) (incomplete : Bool) (ops : List ConfigOp) (s : ConfigState) (x : ℕ)
    (pin : ManifestOverride)
    → is_unnamed file ≡ false
    → (incomplete && is_loaded file s) ≡ false
    → IsActive s.pins
    → IsTimed s.pins
    → s.pins.next_sequence + 1 < 2 ^ 64
    → last_pin x ops none ≡ some pin
    → get x (commit file mtime incomplete ops s).pins.manifest_overrides ≡ some pin
unfolding IsTimed
commit-last_pin file mtime incomplete ops s x pin named go a t room last =
    let u = unload_file file s in
    let b = begun file mtime u in
    let after = apply_ops file ops b in
    let n = (u.pins.next_sequence + 1) % 2 ^ 64 in
    let next = unload_file_next file s in
    let done = commit-IsActive file mtime incomplete ops s named a in
    let same = commit_goes file mtime incomplete ops s go in
    let active = subst (λ c. IsActive c.pins) same done in
    let times = apply_ops_times file ops b named in
    let mine =
      apply_ops-own_pin x file ops b named
      ∙ ap (last_pin x ops) (begun-own_pin x file mtime s)
      ∙ last in
    let time : get file after.pins.parse_sequence ≡ some n =
      ap (get file) times
      ∙ ground (arith, get-put file file n u.pins.parse_sequence, same_self file) in
    let found =
      best_override_newest x file n pin after.pins.parse_sequence
        (λ f m apart h.
          let h' = sym (ap (get f) times) ∙ h in
          let older =
            unload_file_time file f s m
              (sym (get_apart f file n u.pins.parse_sequence apart) ∙ h') in
          let bound = t f m older in omega arith)
        after.pins.file_overrides none active.mapped mine time tt in
    ap (λ c. get x c.pins.manifest_overrides) same ∙ active.active x ∙ ap pin_of found
