-- ===== src/LuaConfig/Keys.antt =====
-- The table of the depot keys stays a map.
use better_steam_tools_ameth.Base.{
  ℕ, Bool, not, ◌&&◌, ◌||◌, none, some, List, [], ◌∷◌, inl, inr, ◌==◌, Bool-cases, Option-cases,
}
use better_steam_tools_ameth.Base.Text.{Bytes}
use better_steam_tools_ameth.Base.Keyed.{
  number_key, text_key, member, get, has, IsMap, put-IsMap, erase-IsMap,
}
use better_steam_tools_ameth.LuaConfig.{
  Depots, ConfigState, ConfigOp, op_app_id, op_token, op_cd_key, op_process, op_denuvo,
  op_eticket_url, op_manifest, op_stat, or_else, is_unnamed, pred_32, store_key, count_depot,
  add_app_id, apply_op, apply_ops,
}
use better_steam_tools_ameth.LuaConfig.Files.{
  System, Lua, drop_depot, drop_depots, unload_depots, unload_file, is_loaded, forget_mtime, commit,
  parse_file,
}
use better_steam_tools_ameth.LuaConfig.Commit.{begun}
use better_steam_tools_ameth.LuaConfig.History.{
  FileCall, parse, unload, removals, additions, run_call,
}

abbrev pub IsKeyed : Depots → Type 0
IsKeyed d = IsMap d.depot_keys

store_key-IsMap :
    (depot : ℕ) (key : Bytes) (keys : List (ℕ × Bytes))
    → IsMap keys
    → IsMap (store_key depot key keys)
unfolding store_key
store_key-IsMap depot key keys m =
    elim (Bool-cases (not (is_unnamed key) || not (has depot keys))) [
      | inl e ↦ rw e (put-IsMap depot key keys m)
      | inr e ↦ rw e m
    ]

add_app_id-IsKeyed :
    (file : Bytes) (depot : ℕ) (key : Bytes) (d : Depots)
    → IsKeyed d
    → IsKeyed (add_app_id file depot key d)
unfolding add_app_id count_depot
add_app_id-IsKeyed file depot key d m =
    let keyed = store_key-IsMap depot key d.depot_keys m in
    elim (Bool-cases (is_unnamed file)) [
      | inl e ↦ rw e keyed
      | inr e ↦ elim (Bool-cases (member depot (or_else (get file d.file_depots) []))) [
        | inl known ↦ rw (e, known) keyed
        | inr fresh ↦ rw (e, fresh) keyed
      ]
    ]

drop_depot-IsKeyed : (id : ℕ) (d : Depots) → IsKeyed d → IsKeyed (drop_depot id d)
unfolding drop_depot
drop_depot-IsKeyed id d m = elim (Bool-cases (pred_32 (or_else (get id d.ref_count) 0) == 0)) [
  | inl e ↦ rw e (erase-IsMap id d.depot_keys m)
  | inr e ↦ rw e m
]

drop_depots-IsKeyed : (ids : List ℕ) (d : Depots) → IsKeyed d → IsKeyed (drop_depots ids d)
unfolding drop_depots
drop_depots-IsKeyed [] d m = m
drop_depots-IsKeyed (id ∷ ids) d m =
    drop_depots-IsKeyed ids (drop_depot id d) (drop_depot-IsKeyed id d m)

unload_depots-IsKeyed : (file : Bytes) (d : Depots) → IsKeyed d → IsKeyed (unload_depots file d)
unfolding unload_depots
unload_depots-IsKeyed file d m = elim (Option-cases (get file d.file_depots)) [
  | inl e ↦ rw (e, unload_depots) m
  | inr (ids, e) ↦ rw (e, unload_depots) (drop_depots-IsKeyed ids d m)
]

unload_file-IsKeyed :
    (file : Bytes) (s : ConfigState) → IsKeyed s.depots → IsKeyed (unload_file file s).depots
unfolding unload_file is_loaded forget_mtime
unload_file-IsKeyed file s m = elim (Bool-cases (is_loaded file s)) [
  | inl e ↦ rw e (unload_depots-IsKeyed file s.depots m)
  | inr e ↦ rw e m
]

apply_op-IsKeyed :
    (file : Bytes) (op : ConfigOp) (s : ConfigState)
    → IsKeyed s.depots
    → IsKeyed (apply_op file op s).depots
unfolding apply_op
apply_op-IsKeyed file (op_app_id depot key) s m = add_app_id-IsKeyed file depot key s.depots m
apply_op-IsKeyed file (op_manifest depot pin) s m = m
apply_op-IsKeyed file (op_token app token) s m = m
apply_op-IsKeyed file (op_cd_key app key) s m = m
apply_op-IsKeyed file (op_process name app) s m = m
apply_op-IsKeyed file (op_denuvo app) s m = m
apply_op-IsKeyed file (op_eticket_url url) s m = m
apply_op-IsKeyed file (op_stat app steam_id) s m = m

apply_ops-IsKeyed :
    (file : Bytes) (ops : List ConfigOp) (s : ConfigState)
    → IsKeyed s.depots
    → IsKeyed (apply_ops file ops s).depots
unfolding apply_ops
apply_ops-IsKeyed file [] s m = m
apply_ops-IsKeyed file (op ∷ ops) s m =
    apply_ops-IsKeyed file ops (apply_op file op s) (apply_op-IsKeyed file op s m)

commit-IsKeyed :
    (file : Bytes) (mtime : ℕ) (incomplete : Bool) (ops : List ConfigOp) (s : ConfigState)
    → IsKeyed s.depots
    → IsKeyed (commit file mtime incomplete ops s).depots
unfolding commit
commit-IsKeyed file mtime incomplete ops s m = elim (Bool-cases (incomplete && is_loaded file s)) [
  | inl held ↦ rw held m
  | inr go ↦ rw go (
      apply_ops-IsKeyed file ops (begun file mtime (unload_file file s))
        (unload_file-IsKeyed file s m))
]

pub run_call-IsKeyed :
    {G : Type 0} (lua : Lua G) (call : FileCall) (s : System G)
    → IsKeyed s.config.depots
    → IsKeyed (run_call lua call s).config.depots
unfolding run_call parse_file
run_call-IsKeyed lua (parse file none) s m = m
run_call-IsKeyed lua (parse file (some script)) s m =
    commit-IsKeyed file script.mtime _ _ s.config m
run_call-IsKeyed lua (unload file) s m = unload_file-IsKeyed file s.config m
run_call-IsKeyed lua removals s m = m
run_call-IsKeyed lua additions s m = m
