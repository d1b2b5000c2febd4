-- ===== src/LuaConfig/Loads.antt =====
-- Whether a file counts as loaded.
use better_steam_tools_ameth.Base.{
  ℕ, ◌≡◌, refl, sym, ap, ◌∙◌, Bool, true, false, ◌||◌, List, [], ◌∷◌, arith, inl, inr, Bool-cases,
  Option-cases,
}
use better_steam_tools_ameth.Base.Text.{Bytes}
use better_steam_tools_ameth.Base.Keyed.{
  number_key, text_key, same_self, member, get, has, put, erase, has-put, has-get, has-erase,
  erase_absent, erase-put, names,
}
use better_steam_tools_ameth.LuaConfig.{
  Depots, Pins, ManifestOverride, ConfigState, ConfigOp, op_app_id, op_token, op_cd_key, op_process,
  op_denuvo, op_eticket_url, op_manifest, op_stat, or_else, is_unnamed, add_app_id, set_manifest_id,
  rebuild_manifest_override, apply_op, apply_ops,
}
use better_steam_tools_ameth.LuaConfig.Files.{
  rebuild_all, unload_pins, unload_file, is_loaded, forget_sequence, forget_mtime, unload_depots,
}
use better_steam_tools_ameth.LuaConfig.Count.{given}
use better_steam_tools_ameth.LuaConfig.Given.{add_app_id_files}

-- whether an operation makes its file count as loaded
abbrev pub op_loads : ConfigOp → Bool
op_loads (op_app_id depot key) = true
op_loads (op_manifest depot pin) = true
op_loads (op_token app token) = false
op_loads (op_cd_key app key) = false
op_loads (op_process name app) = false
op_loads (op_denuvo app) = false
op_loads (op_eticket_url url) = false
op_loads (op_stat app steam_id) = false

unfoldable pub loads : List ConfigOp → Bool
loads [] = false
loads (op ∷ ops) = op_loads op || loads ops

pub member-given-has :
    (x : ℕ) (file : Bytes) (files : List (Bytes × List ℕ))
    → member x (given file files) ≡ true
    → has file files ≡ true
unfolding member
member-given-has x file files m = elim (Option-cases (get file files)) [
  | inl e ↦ let m' = (rw e at m) in absurd (ground arith)
  | inr (ids, e) ↦ ground (arith, has-get file files)
]

add_app_id-has :
    (file : Bytes) (depot : ℕ) (key : Bytes) (d : Depots)
    → is_unnamed file ≡ false
    → has file (add_app_id file depot key d).file_depots ≡ true
add_app_id-has file depot key d named =
    let files = add_app_id_files file depot key d named in
    let ids = depot ∷ given file d.file_depots in
    elim (Bool-cases (member depot (given file d.file_depots))) [
      | inl known ↦ let there = member-given-has depot file d.file_depots known in ground arith
      | inr fresh ↦ ground (arith, has-put file file ids d.file_depots, same_self file)
    ]

pub set_manifest_id_files :
    (file : Bytes) (depot : ℕ) (pin : ManifestOverride) (p : Pins)
    → is_unnamed file ≡ false
    → (set_manifest_id file depot pin p).file_overrides
      ≡ put file (put depot pin (or_else (get file p.file_overrides) [])) p.file_overrides
unfolding set_manifest_id rebuild_manifest_override
set_manifest_id_files file depot pin p named = rw named refl

-- an operation makes its file loaded or leaves that as it is
apply_op-is_loaded :
    (file : Bytes) (op : ConfigOp) (s : ConfigState)
    → is_unnamed file ≡ false
    → is_loaded file (apply_op file op s) ≡ (op_loads op || is_loaded file s)
unfolding apply_op is_loaded
apply_op-is_loaded file (op_app_id depot key) s named =
    let there = add_app_id-has file depot key s.depots named in ground arith
apply_op-is_loaded file (op_manifest depot pin) s named =
    let files = set_manifest_id_files file depot pin s.pins named in
    let pins = put depot pin (or_else (get file s.pins.file_overrides) []) in
    let there = ap (has file) files in
    ground (arith, has-put file file pins s.pins.file_overrides, same_self file)
apply_op-is_loaded file (op_token app token) s named = refl
apply_op-is_loaded file (op_cd_key app key) s named = refl
apply_op-is_loaded file (op_process name app) s named = refl
apply_op-is_loaded file (op_denuvo app) s named = refl
apply_op-is_loaded file (op_eticket_url url) s named = refl
apply_op-is_loaded file (op_stat app steam_id) s named = refl

pub apply_ops-is_loaded :
    (file : Bytes) (ops : List ConfigOp) (s : ConfigState)
    → is_unnamed file ≡ false
    → is_loaded file (apply_ops file ops s) ≡ (loads ops || is_loaded file s)
unfolding apply_ops loads
apply_ops-is_loaded file [] s named = refl
apply_ops-is_loaded file (op ∷ ops) s named =
    let first = apply_op-is_loaded file op s named in
    ground (arith, apply_ops-is_loaded file ops (apply_op file op s) named)

-- the pins that the other files give
apply_op_others :
    (file : Bytes) (op : ConfigOp) (s : ConfigState)
    → is_unnamed file ≡ false
    → erase file (apply_op file op s).pins.file_overrides ≡ erase file s.pins.file_overrides
unfolding apply_op
apply_op_others file (op_app_id depot key) s named = refl
apply_op_others file (op_manifest depot pin) s named =
    ap (erase file) (set_manifest_id_files file depot pin s.pins named)
    ∙ erase-put file (put depot pin (or_else (get file s.pins.file_overrides) []))
        s.pins.file_overrides
apply_op_others file (op_token app token) s named = refl
apply_op_others file (op_cd_key app key) s named = refl
apply_op_others file (op_process name app) s named = refl
apply_op_others file (op_denuvo app) s named = refl
apply_op_others file (op_eticket_url url) s named = refl
apply_op_others file (op_stat app steam_id) s named = refl

pub apply_ops_others :
    (file : Bytes) (ops : List ConfigOp) (s : ConfigState)
    → is_unnamed file ≡ false
    → erase file (apply_ops file ops s).pins.file_overrides ≡ erase file s.pins.file_overrides
unfolding apply_ops
apply_ops_others file [] s named = refl
apply_ops_others file (op ∷ ops) s named =
    apply_ops_others file ops (apply_op file op s) named ∙ apply_op_others file op s named

rebuild_all_files :
    (ids : List ℕ) (p : Pins) → (rebuild_all ids p).file_overrides ≡ p.file_overrides
unfolding rebuild_all rebuild_manifest_override
rebuild_all_files [] p = refl
rebuild_all_files (id ∷ ids) p = rebuild_all_files ids (rebuild_manifest_override id p)

pub unload_pins_files :
    (file : Bytes) (p : Pins) → (unload_pins file p).file_overrides ≡ erase file p.file_overrides
unfolding unload_pins
unload_pins_files file p = elim (Option-cases (get file p.file_overrides)) [
  | inl e ↦
      let gone : has file p.file_overrides ≡ false =
        ground (arith, has-get file p.file_overrides) in
      rw (e, unload_pins) (sym (erase_absent file p.file_overrides gone))
  | inr (pins, e) ↦
      rw (e, unload_pins)
        (rebuild_all_files (names pins) (record p { file_overrides = erase file p.file_overrides }))
]

pub unload_file_pins :
    (file : Bytes) (s : ConfigState)
    → (unload_file file s).pins.file_overrides ≡ erase file s.pins.file_overrides
unfolding unload_file is_loaded forget_sequence
unload_file_pins file s = elim (Bool-cases (is_loaded file s)) [
  | inl e ↦ rw e (unload_pins_files file s.pins)
  | inr e ↦ rw e (sym (erase_absent file s.pins.file_overrides (ground arith)))
]

-- once unloaded, a file does not count as loaded
pub unload_file-is_loaded :
    (file : Bytes) (s : ConfigState)
    → (unload_depots file s.depots).file_depots ≡ erase file s.depots.file_depots
    → is_loaded file (unload_file file s) ≡ false
unfolding unload_file is_loaded forget_mtime
unload_file-is_loaded file s gone =
    let depots = ap (has file) gone in
    let pins = ap (has file) (unload_pins_files file s.pins) in
    elim (Bool-cases (is_loaded file s)) [
      | inl e ↦ rw e (
          ground (
            arith,
            has-erase file file s.depots.file_depots,
            has-erase file file s.pins.file_overrides,
            same_self file,
          ))
      | inr e ↦ rw e e
    ]
