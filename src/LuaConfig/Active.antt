-- ===== src/LuaConfig/Active.antt =====
-- The active pins through commits and removals of files.
use better_steam_tools_ameth.Base.{
  ℕ, ◌+◌, ◌%◌, ◌^◌, ◌≡◌, refl, ap, ◌∙◌, Bool, false, ◌&&◌, none, some, List, [], ◌∷◌, arith, inl,
  inr, Bool-cases,
}
use better_steam_tools_ameth.Base.Text.{Bytes}
use better_steam_tools_ameth.Base.Keyed.{
  number_key, text_key, same_self, has, put, erase, get-put, get-erase, has-erase,
}
use better_steam_tools_ameth.LuaConfig.{
  ConfigState, ConfigOp, op_app_id, op_token, op_cd_key, op_process, op_denuvo, op_eticket_url,
  op_manifest, op_stat, is_unnamed, apply_op, apply_ops,
}
use better_steam_tools_ameth.LuaConfig.Files.{
  System, Lua, unload_file, unload_pins, forget_sequence, is_loaded, commit, parse_file,
}
use better_steam_tools_ameth.LuaConfig.Newest.{
  IsActive, unload_pins-IsActive, set_manifest_id-IsActive, other_times-IsActive,
}
use better_steam_tools_ameth.LuaConfig.Loads.{unload_file_pins, unload_pins_files}
use better_steam_tools_ameth.LuaConfig.Commit.{begun}
use better_steam_tools_ameth.LuaConfig.History.{
  FileCall, parse, unload, removals, additions, run_call, run_calls, IsNamed, AllNamed,
}

apply_op-IsActive :
    (file : Bytes) (op : ConfigOp) (s : ConfigState)
    → is_unnamed file ≡ false
    → IsActive s.pins
    → IsActive (apply_op file op s).pins
unfolding apply_op
apply_op-IsActive file (op_app_id depot key) s named a = a
apply_op-IsActive file (op_manifest depot pin) s named a =
    set_manifest_id-IsActive file depot pin s.pins named a
apply_op-IsActive file (op_token app token) s named a = a
apply_op-IsActive file (op_cd_key app key) s named a = a
apply_op-IsActive file (op_process name app) s named a = a
apply_op-IsActive file (op_denuvo app) s named a = a
apply_op-IsActive file (op_eticket_url url) s named a = a
apply_op-IsActive file (op_stat app steam_id) s named a = a

apply_ops-IsActive :
    (file : Bytes) (ops : List ConfigOp) (s : ConfigState)
    → is_unnamed file ≡ false
    → IsActive s.pins
    → IsActive (apply_ops file ops s).pins
unfolding apply_ops
apply_ops-IsActive file [] s named a = a
apply_ops-IsActive file (op ∷ ops) s named a =
    apply_ops-IsActive file ops (apply_op file op s) named (apply_op-IsActive file op s named a)

erased : {V : Type 0} (file : Bytes) (m : List (Bytes × V)) → has file (erase file m) ≡ false
erased file m = ground (arith, has-erase file file m, same_self file)

-- no pin of the file is left
pub unpinned :
    (file : Bytes) (s : ConfigState) → has file (unload_file file s).pins.file_overrides ≡ false
unpinned file s = ap (has file) (unload_file_pins file s) ∙ erased file s.pins.file_overrides

unload_file-IsActive :
    (file : Bytes) (s : ConfigState) → IsActive s.pins → IsActive (unload_file file s).pins
unfolding unload_file is_loaded forget_sequence
unload_file-IsActive file s a = elim (Bool-cases (is_loaded file s)) [
  | inl e ↦
      let u = unload_pins file s.pins in
      let gone =
        ap (has file) (unload_pins_files file s.pins) ∙ erased file s.pins.file_overrides in
      rw e (
        other_times-IsActive file u (erase file u.parse_sequence) u.next_sequence gone
          (λ f apart. get-erase f file u.parse_sequence ∙ rw apart refl)
          (unload_pins-IsActive file s.pins a))
  | inr e ↦ rw e a
]

pub commit-IsActive :
    (file : Bytes) (mtime : ℕ) (incomplete : Bool) (ops : List ConfigOp) (s : ConfigState)
    → is_unnamed file ≡ false
    → IsActive s.pins
    → IsActive (commit file mtime incomplete ops s).pins
unfolding commit
commit-IsActive file mtime incomplete ops s named a =
    elim (Bool-cases (incomplete && is_loaded file s)) [
      | inl held ↦ rw held a
      | inr go ↦
          let u = unload_file file s in
          let n = (u.pins.next_sequence + 1) % 2 ^ 64 in
          rw go (
            apply_ops-IsActive file ops (begun file mtime u) named (
              other_times-IsActive file u.pins (put file n u.pins.parse_sequence) n
                (unpinned file s)
                (λ f apart. get-put f file n u.pins.parse_sequence ∙ rw apart refl)
                (unload_file-IsActive file s a)))
    ]

run_call-IsActive :
    {G : Type 0} (lua : Lua G) (call : FileCall) (s : System G)
    → IsNamed call
    → IsActive s.config.pins
    → IsActive (run_call lua call s).config.pins
unfolding run_call IsNamed parse_file
run_call-IsActive lua (parse file none) s named a = a
run_call-IsActive lua (parse file (some script)) s named a =
    commit-IsActive file script.mtime _ _ s.config named a
run_call-IsActive lua (unload file) s named a = unload_file-IsActive file s.config a
run_call-IsActive lua removals s named a = a
run_call-IsActive lua additions s named a = a

-- If for every depot the pin in force is the one that a search of all files for the newest
-- finds, and no file has two entries among the pins, this stays so after any calls that parse
-- files with a name, unload files or take the queues.
pub run_calls-IsActive :
    {G : Type 0} (lua : Lua G) (calls : List FileCall) (s : System G)
    → AllNamed calls
    → IsActive s.config.pins
    → IsActive (run_calls lua calls s).config.pins
unfolding run_calls AllNamed
run_calls-IsActive lua [] s named a = a
run_calls-IsActive lua (call ∷ calls) s named a =
    run_calls-IsActive lua calls (run_call lua call s) named.1
      (run_call-IsActive lua call s named.0 a)
