-- ===== src/LuaConfig/History.antt =====
-- The configuration as what the files have given: for every file the operations of its last run
-- that was committed, without a memory of the order or of the counts.
use better_steam_tools_ameth.Base.{
  ℕ, ◌≡◌, Bool, false, not, ◌&&◌, ◌||◌, Option, none, some, List, [], ◌∷◌, if◌then◌else◌,
}
use better_steam_tools_ameth.Base.Text.{Bytes}
use better_steam_tools_ameth.Base.Keyed.{number_key, text_key, get, put, erase}
use better_steam_tools_ameth.LuaConfig.{ConfigOp, or_else, is_unnamed}
use better_steam_tools_ameth.LuaConfig.Files.{
  System, Lua, Script, run_lines, has_no_line, unload_file, parse_file, take_pending_removals,
  take_pending_additions,
}
use better_steam_tools_ameth.LuaConfig.Given.{gives}
use better_steam_tools_ameth.LuaConfig.Loads.{loads}

-- the calls from outside
pub data FileCall : Type 0 where
  parse : Bytes → Option Script → FileCall
  unload : Bytes → FileCall
  removals additions : FileCall

module _ {G : Type 0} (lua : Lua G) where
  unfoldable pub run_call : FileCall → System G → System G
  unfolding parse_file unload_file take_pending_removals take_pending_additions
  run_call (parse file script) s = parse_file lua file script s
  run_call (unload file) s = record s { config = unload_file file s.config }
  run_call removals s = record s { config = (take_pending_removals s.config).0 }
  run_call additions s = record s { config = (take_pending_additions s.config).0 }

  unfoldable pub run_calls : List FileCall → System G → System G
  unfolding run_call
  run_calls [] s = s
  run_calls (call ∷ calls) s = run_calls calls (run_call call s)

-- the specification: the interpreter, and what each file has given
pub record Given (G : Type 0) : Type 0 where
  pub interpreter : G
  pub by_file : List (Bytes × List ConfigOp)

abbrev pub ops_of : Bytes → List (Bytes × List ConfigOp) → List ConfigOp
ops_of file by_file = or_else (get file by_file) []

module _ {G : Type 0} (lua : Lua G) where
  -- a run is taken as a whole, or not at all where it broke off and the file has given something
  unfoldable pub note_call : FileCall → Given G → Given G
  unfolding run_lines loads
  note_call (parse file none) m = m
  note_call (parse file (some script)) m =
      let (globals, (ops, chunk)) = run_lines lua m.interpreter [] script.lines in
      let incomplete = has_no_line script.lines || not (is_unnamed chunk) || script.bad in
      record {
        interpreter = globals;
        by_file =
            if incomplete && loads (ops_of file m.by_file)
            then m.by_file
            else put file ops m.by_file;
      }
  note_call (unload file) m = record m { by_file = erase file m.by_file }
  note_call removals m = m
  note_call additions m = m

  unfoldable pub note_calls : List FileCall → Given G → Given G
  unfolding note_call
  note_calls [] m = m
  note_calls (call ∷ calls) m = note_calls calls (note_call call m)

-- whether some file gives the depot
unfoldable pub any_gives : ℕ → List (Bytes × List ConfigOp) → Bool
unfolding gives
any_gives x [] = false
any_gives x ((file, ops) ∷ files) = gives x ops || any_gives x files

-- a file that is parsed has a name
unfoldable pub IsNamed : FileCall → Type 0
IsNamed (parse file script) = is_unnamed file ≡ false
IsNamed (unload file) = Unit
IsNamed removals = Unit
IsNamed additions = Unit

unfoldable pub AllNamed : List FileCall → Type 0
unfolding IsNamed
AllNamed [] = Unit
AllNamed (call ∷ calls) = IsNamed call × AllNamed calls
