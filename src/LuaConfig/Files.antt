-- ===== src/LuaConfig/Files.antt =====
-- `UnloadFileLocked`, `UnloadFile`, the two queues, and `ParseFile` with its commit. The Lua
-- interpreter is a parameter: whether a chunk can be loaded, and what running it does.
use better_steam_tools_ameth.Base.{
  ℕ, ◌+◌, ◌%◌, ◌^◌, Bool, true, false, not, ◌&&◌, ◌||◌, Option, none, some, List, [], ◌∷◌, ◌++◌,
  ◌==◌, if◌then◌else◌,
}
use better_steam_tools_ameth.Base.Text.{Bytes}
use better_steam_tools_ameth.Base.Keyed.{number_key, text_key, get, has, put, erase, names}
use better_steam_tools_ameth.LuaConfig.{
  Depots, Pins, ConfigState, ConfigOp, pred_32, or_else, apply_ops, rebuild_manifest_override,
  is_unnamed, on_depots,
}

-- one round of the loop over the depots of the file
unfoldable pub drop_depot : ℕ → Depots → Depots
unfolding pred_32
drop_depot id d =
    let count = pred_32 (or_else (get id d.ref_count) 0) in
    if count == 0
    then record {
      depot_keys = erase id d.depot_keys;
      file_depots = d.file_depots;
      ref_count = erase id d.ref_count;
      file_mtime = d.file_mtime;
      purchase_time = erase id d.purchase_time;
      pending_removals = d.pending_removals ++ (id ∷ []);
      pending_additions = d.pending_additions;
    }
    else record {
      depot_keys = d.depot_keys;
      file_depots = d.file_depots;
      ref_count = put id count d.ref_count;
      file_mtime = d.file_mtime;
      purchase_time = d.purchase_time;
      pending_removals = d.pending_removals;
      pending_additions = d.pending_additions;
    }

unfoldable pub drop_depots : List ℕ → Depots → Depots
drop_depots [] d = d
drop_depots (id ∷ ids) d = drop_depots ids (drop_depot id d)

-- the depots of the file, where it has given any
unfoldable pub unload_depots : Bytes → Depots → Depots
unfolding drop_depots drop_depot
unload_depots file d = elim (get file d.file_depots) [
  | none ↦ d
  | some ids ↦
      let dropped = drop_depots ids d in
      record dropped { file_depots = erase file dropped.file_depots }
]

unfoldable pub rebuild_all : List ℕ → Pins → Pins
unfolding rebuild_manifest_override
rebuild_all [] p = p
rebuild_all (depot ∷ depots) p = rebuild_all depots (rebuild_manifest_override depot p)

-- the pins of the file, where it has given any
unfoldable pub unload_pins : Bytes → Pins → Pins
unfolding rebuild_all
unload_pins file p = elim (get file p.file_overrides) [
  | none ↦ p
  | some overrides ↦
      rebuild_all (names overrides) (record p { file_overrides = erase file p.file_overrides })
]

-- whether the file has given a depot or a pin
unfoldable pub is_loaded : Bytes → ConfigState → Bool
is_loaded file s = has file s.depots.file_depots || has file s.pins.file_overrides

unfoldable pub forget_mtime : Bytes → Depots → Depots
forget_mtime file d = record d { file_mtime = erase file d.file_mtime }

unfoldable pub forget_sequence : Bytes → Pins → Pins
forget_sequence file p = record p { parse_sequence = erase file p.parse_sequence }

-- `UnloadFileLocked` without its counts for the log
unfoldable pub unload_file : Bytes → ConfigState → ConfigState
unfolding is_loaded unload_depots unload_pins forget_mtime forget_sequence
unload_file file s = if not (is_loaded file s) then s else record {
  depots = forget_mtime file (unload_depots file s.depots);
  pins = forget_sequence file (unload_pins file s.pins);
  tables = s.tables;
}

-- `TakePendingRemovals` and `TakePendingAdditions`
unfoldable pub take_pending_removals : ConfigState → ConfigState × List ℕ
take_pending_removals s =
    (on_depots (λ d. record d { pending_removals = [] }) s, s.depots.pending_removals)

unfoldable pub take_pending_additions : ConfigState → ConfigState × List ℕ
take_pending_additions s =
    (on_depots (λ d. record d { pending_additions = [] }) s, s.depots.pending_additions)

-- what `luaL_loadstring` answers
pub data Loaded : Type 0 where
  load_ok load_syntax load_error : Loaded

-- the interpreter with its globals `G`: a run ends with the globals and what was recorded, whether
-- it raised an error or not
pub record Lua (G : Type 0) : Type 0 where
  pub load : Bytes → Loaded
  pub pcall : G → Bytes → G × List ConfigOp
  pub has_code_func : G → Bool
  pub has_code_func_ex : G → Bool

-- the chunk with the next line behind it
unfoldable pub extend_chunk : Bytes → Bytes → Bytes
extend_chunk chunk line = if is_unnamed chunk then line else chunk ++ (b'\n' ∷ line)

module _ {G : Type 0} (lua : Lua G) where
  -- the loop over the lines: the globals, what was recorded, and the chunk that is left
  unfoldable pub run_lines : G → Bytes → List Bytes → G × (List ConfigOp × Bytes)
  unfolding extend_chunk
  run_lines globals chunk [] = (globals, ([], chunk))
  run_lines globals chunk (line ∷ lines) =
      let text = extend_chunk chunk line in
      elim (lua.load text) [
        | load_ok ↦
            let (next, ops) = lua.pcall globals text in
            let (last, (later, left)) = run_lines next [] lines in (last, (ops ++ later, left))
        | load_syntax ↦ run_lines globals text lines
        | load_error ↦ run_lines globals [] lines
      ]

-- a file that could be opened: its lines, whether reading broke off, and its time
pub record Script : Type 0 where
  pub lines : List Bytes
  pub bad : Bool
  pub mtime : ℕ

abbrev pub has_no_line : List Bytes → Bool
has_no_line [] = true
has_no_line (line ∷ lines) = false

-- the commit of `ParseFile`
unfoldable pub commit : Bytes → ℕ → Bool → List ConfigOp → ConfigState → ConfigState
unfolding unload_file is_loaded
commit file mtime incomplete ops s =
    if incomplete && is_loaded file s
    then s
    else let u = unload_file file s in
      let sequence = (u.pins.next_sequence + 1) % 2 ^ 64 in
      apply_ops file ops (record {
        depots = record u.depots { file_mtime = put file mtime u.depots.file_mtime };
        pins = record u.pins {
          parse_sequence = put file sequence u.pins.parse_sequence;
          next_sequence = sequence;
        };
        tables = u.tables;
      })

-- the interpreter's globals, the two flags, and the state under the lock
pub record System (G : Type 0) : Type 0 where
  pub globals : G
  pub has_manifest_code_func : Bool
  pub has_manifest_code_func_ex : Bool
  pub config : ConfigState

unfoldable pub parse_file : {G : Type 0} → Lua G → Bytes → Option Script → System G → System G
unfolding run_lines commit
parse_file lua file none s = s
parse_file lua file (some script) s =
    let (globals, (ops, chunk)) = run_lines lua s.globals [] script.lines in
    let incomplete = has_no_line script.lines || not (is_unnamed chunk) || script.bad in
    record {
      globals = globals;
      has_manifest_code_func = lua.has_code_func globals;
      has_manifest_code_func_ex = lua.has_code_func_ex globals;
      config = commit file script.mtime incomplete ops s.config;
    }
