-- ===== src/Tests/Lua.antt =====
-- The configuration of the Lua files and the package that the client sees at concrete inputs.
use better_steam_tools_ameth.Base.{
  length, ◌+◌, ◌<◌, ◌^◌, subst, sym, ◌++◌, map, ℕ, ◌≡◌, refl, Bool, true, false, not, ◌&&◌, ◌||◌,
  Option, none, some, List, [], ◌∷◌, ◌==◌, arith, ltb, if◌then◌else◌,
}
use better_steam_tools_ameth.Base.Int.{pos}
use better_steam_tools_ameth.Base.Text.{Bytes, bytes_eq, codes}
use better_steam_tools_ameth.Base.Keyed.{
  put, IsDistinct, names, number_key, text_key, member, get, has,
}
use better_steam_tools_ameth.Bridge.Hex.{to_hex, AllBytes}
use better_steam_tools_ameth.LuaConfig.{
  apply_ops, add_app_id, count_depot, store_key, stamp_purchase, ConfigOp, op_app_id, op_manifest,
  apply_op,
}
use better_steam_tools_ameth.LuaConfig.Files.{
  parse_file, run_lines, extend_chunk, unload_file, Lua, load_ok, Script, commit, is_loaded,
}
use better_steam_tools_ameth.LuaConfig.Count.{one_if}
use better_steam_tools_ameth.LuaConfig.Given.{gives}
use better_steam_tools_ameth.LuaConfig.History.{
  run_call, FileCall, parse, unload, run_calls, note_calls, any_gives, AllNamed, IsNamed,
}
use better_steam_tools_ameth.LuaConfig.Pinned.{IsNewest, empty-IsActive, run_calls-IsNewest}
use better_steam_tools_ameth.LuaConfig.Wins.{last_pin}
use better_steam_tools_ameth.LuaConfig.Timed.{IsTimed, commit-last_pin}
use better_steam_tools_ameth.LuaConfig.Whole.{
  empty_config, empty-Represents, started, run_calls_configured,
}
use better_steam_tools_ameth.LuaConfig.Commit.{Passage, commit-Passage}
use better_steam_tools_ameth.LuaConfig.Refines.{Represents-Fits}
use better_steam_tools_ameth.LuaConfig.Consistent.{IsConsistent, Fits}
use better_steam_tools_ameth.LuaConfig.Script.{LuaValue, integer, text, setmanifestid, lua_call}
use better_steam_tools_ameth.LuaConfig.Script.Recorded.{RecordsInRange, lua_call-RecordsInRange}
use better_steam_tools_ameth.LuaConfig.Query.{get_decryption_key}
use better_steam_tools_ameth.LuaConfig.Query.Key.{get_decryption_key-op_app_id}
use better_steam_tools_ameth.Mirrors.{lower}
use better_steam_tools_ameth.LuaConfig.Reload.{
  add_dirs, merge_watch_dirs, scan_all, reload_calls, reload_directories, ordered_files,
  tracked_files, unload_stale, parse_each, each_once,
}
use better_steam_tools_ameth.LuaConfig.Reload.Watched.{named_by, merge_watch_dirs-IsDistinct}
use better_steam_tools_ameth.LuaConfig.Reload.Stale.{reload_directories_missing}
use better_steam_tools_ameth.Package.{
  has_depot, is_owned, try_init_fake_license_once, inject_configured_depots, get_all_depot_ids,
}
use better_steam_tools_ameth.Package.Vector.{copies}
use better_steam_tools_ameth.Package.Synced.{
  Event, changed, asked, notified, happen, happens, notes, AllPlain, IsPlain,
}
use better_steam_tools_ameth.Package.Whole.{first, happens-notified}
use better_steam_tools_ameth.Package.Ownership.{
  AppOwnership, License, check_app_ownership, owned_depots,
}
use better_steam_tools_ameth.Package.Ownership.Answer.{check_app_ownership_answer}
use better_steam_tools_ameth.Package.Ownership.Owned.{owned_depots-licensed, licensed, IsRising}

-- an interpreter that knows one statement
abbrev interpreter : Lua Unit
interpreter = record {
  load = λ chunk. load_ok;
  pcall = λ globals chunk.
      (globals, if bytes_eq chunk (codes "addappid(5)") then op_app_id 5 [] ∷ [] else []);
  has_code_func = λ globals. false;
  has_code_func_ex = λ globals. false;
}

abbrev one_line : Script
one_line = record { lines = codes "addappid(5)" ∷ []; bad = false; mtime = 7 }

abbrev no_line : Script
no_line = record { lines = []; bad = false; mtime = 8 }

-- two files give the depot, one of them goes, and the other is emptied by a writer
abbrev calls : List FileCall
calls =
    parse (codes "a.lua") (some one_line)
    ∷ parse (codes "b.lua") (some one_line)
    ∷ unload (codes "a.lua")
    ∷ parse (codes "b.lua") (some no_line)
    ∷ []

calls-AllNamed : AllNamed calls
unfolding AllNamed IsNamed
calls-AllNamed = (refl, (refl, (tt, (refl, tt))))

run_calls_configured_example :
    has 5 (run_calls interpreter calls (started tt)).config.depots.depot_keys
    ≡ any_gives 5 (note_calls interpreter calls (record { interpreter = tt; by_file = [] })).by_file
run_calls_configured_example =
    run_calls_configured interpreter tt calls 5 calls-AllNamed (omega arith)

run_calls-IsNewest_example :
    IsNewest 5
      (run_calls interpreter calls (started tt)).config.pins.parse_sequence
      (run_calls interpreter calls (started tt)).config.pins.file_overrides
      (get 5 (run_calls interpreter calls (started tt)).config.pins.manifest_overrides)
run_calls-IsNewest_example = run_calls-IsNewest interpreter tt calls 5 calls-AllNamed

empty-IsTimed : IsTimed empty_config.pins
unfolding IsTimed get
empty-IsTimed f m e = absurd (ground arith)

abbrev pins : List ConfigOp
pins =
    op_manifest 5 (record { gid = 1; size = 0 })
    ∷ op_app_id 5 []
    ∷ op_manifest 5 (record { gid = 2; size = 0 })
    ∷ []

pins_last : last_pin 5 pins none ≡ some (record { gid = 2; size = 0 })
unfolding last_pin
pins_last = refl

commit-last_pin_example :
    get 5 (commit (codes "a.lua") 7 false pins empty_config).pins.manifest_overrides
    ≡ some (record { gid = 2; size = 0 })
commit-last_pin_example =
    commit-last_pin (codes "a.lua") 7 false pins empty_config 5 (record { gid = 2; size = 0 }) refl
      refl empty-IsActive empty-IsTimed (omega arith) pins_last

-- two packages of one licence each
abbrev packages : License → Option (List ℕ)
packages license = if license.package_id == 1 then some (7 ∷ 0 ∷ 3 ∷ []) else some (3 ∷ [])

abbrev licenses : List License
licenses =
    record { package_id = 1; access_token = 0 } ∷ record { package_id = 2; access_token = 0 } ∷ []

owned_depots-licensed_example :
    ((x : ℕ)
      → member x (owned_depots packages licenses) ≡ (not (x == 0) && licensed x packages licenses))
    × IsRising (owned_depots packages licenses)
owned_depots-licensed_example = owned_depots-licensed packages licenses

owned : owned_depots packages licenses ≡ 3 ∷ 7 ∷ []
unfolding owned_depots
owned = refl

-- the client held 9 by itself, and a file that gives 5 comes after the injection
abbrev events : List Event
events = asked (some (9 ∷ [], true)) ∷ changed (codes "a.lua") (some one_line) ∷ []

events-AllPlain : AllPlain 5 events
unfolding AllPlain IsPlain copies
events-AllPlain = (refl, (refl, tt))

abbrev all_room : List ℕ → ℕ → Bool
all_room vector n = true

events_injected : (happens interpreter all_room true events (first tt)).is_injected ≡ true
unfolding happens happen try_init_fake_license_once inject_configured_depots get_all_depot_ids names
events_injected = refl

happens-notified_example :
    copies 5
      (happen interpreter all_room true notified
        (happens interpreter all_room true events (first tt))).app_ids
    ≡ one_if
        (any_gives 5 (notes interpreter events (record { interpreter = tt; by_file = [] })).by_file)
happens-notified_example =
    happens-notified interpreter all_room true tt events 5 (λ v n. refl) events-AllPlain
      (omega arith) events_injected

abbrev answered : AppOwnership
answered = record {
  package_id = 77;
  release_state = 0;
  owns_license = false;
  free_license = true;
  exist_in_package_nums = 2;
}

check_app_ownership_answer_example :
    let (answer, (own, c)) = check_app_ownership 5 true answered empty_config in
    (answer ≡ (true || has_depot 5 false empty_config))
    × ((x : ℕ) → has_depot x false c ≡ has_depot x false empty_config)
    × ((x : ℕ)
        → is_owned x c ≡ (
            is_owned x empty_config
            || (x == 5
                && has_depot 5 false empty_config
                && true
                && ltb 1 answered.exist_in_package_nums)))
check_app_ownership_answer_example = check_app_ownership_answer 5 true answered empty_config

abbrev spelled : LuaValue → Bytes
spelled v = codes "5"

lua_call_example :
    RecordsInRange (lua_call spelled setmanifestid (integer (pos 5) ∷ text (codes "12") ∷ []))
lua_call_example =
    lua_call-RecordsInRange spelled setmanifestid (integer (pos 5) ∷ text (codes "12") ∷ [])

abbrev key : Bytes
key =
    1 ∷ 2 ∷ 3 ∷ 4 ∷ 5 ∷ 6 ∷ 7 ∷ 8 ∷ 1 ∷ 2 ∷ 3 ∷ 4 ∷ 5 ∷ 6 ∷ 7 ∷ 8 ∷ 1 ∷ 2 ∷ 3 ∷ 4 ∷ 5 ∷ 6 ∷ 7 ∷ 8
    ∷ 1 ∷ 2 ∷ 3 ∷ 4 ∷ 5 ∷ 6 ∷ 7 ∷ 8 ∷ []

key-AllBytes : AllBytes key
key-AllBytes = ground arith

get_decryption_key-op_app_id_example :
    get_decryption_key 5 (apply_op (codes "a.lua") (op_app_id 5 (to_hex key)) empty_config) ≡ key
get_decryption_key-op_app_id_example =
    get_decryption_key-op_app_id (codes "a.lua") 5 key empty_config key-AllBytes refl

empty-IsConsistent : IsConsistent empty_config.depots
empty-IsConsistent = (empty-Represents 1 (omega arith)).consistent

empty-Fits : Fits (codes "a.lua") empty_config.depots
empty-Fits = Represents-Fits (codes "a.lua") empty_config [] 0 (empty-Represents 1 (omega arith))

empty-is_loaded : (true && is_loaded (codes "a.lua") empty_config) ≡ false
unfolding is_loaded has
empty-is_loaded = refl

commit-Passage_example :
    Passage
      (codes "a.lua")
      (λ x. gives x pins)
      empty_config.depots
      (commit (codes "a.lua") 7 true pins empty_config).depots
commit-Passage_example =
    commit-Passage (codes "a.lua") empty_config 7 true pins empty-IsConsistent empty-Fits refl
      empty-is_loaded

-- "lua" and "LUA" are one directory
abbrev canonical : Bytes → Bytes
canonical dir = map lower dir

merge_watch_dirs-IsDistinct_example :
    IsDistinct (
      map canonical (merge_watch_dirs canonical (codes "lua" ∷ codes "LUA" ∷ []) (codes "default")))
    × ((k : Bytes)
        → member k (
            map canonical
              (merge_watch_dirs canonical (codes "lua" ∷ codes "LUA" ∷ []) (codes "default")))
          ≡ named_by canonical k ((codes "lua" ∷ codes "LUA" ∷ []) ++ (codes "default" ∷ [])))
merge_watch_dirs-IsDistinct_example =
    merge_watch_dirs-IsDistinct canonical (codes "lua" ∷ codes "LUA" ∷ []) (codes "default")

merged :
    merge_watch_dirs canonical (codes "lua" ∷ codes "LUA" ∷ []) (codes "default")
    ≡ codes "lua" ∷ codes "default" ∷ []
unfolding merge_watch_dirs add_dirs member bytes_eq
merged = refl

-- the scan finds one file, which cannot be opened, and the file that was parsed is not among them
abbrev found : Bytes → List Bytes
found dir = codes "b.lua" ∷ []

abbrev no_script : Bytes → Option Script
no_script file = none

abbrev first_calls : List FileCall
first_calls = parse (codes "a.lua") (some one_line) ∷ []

first_calls-AllNamed : AllNamed first_calls
unfolding AllNamed IsNamed
first_calls-AllNamed = (refl, tt)

not_found : member (codes "a.lua") (scan_all found (codes "lua" ∷ [])) ≡ false
unfolding member scan_all bytes_eq
not_found = refl

abbrev second_calls : List FileCall
second_calls = unload (codes "a.lua") ∷ parse (codes "b.lua") none ∷ []

planned :
    reload_calls found no_script
      (codes "lua" ∷ [])
      (run_calls interpreter first_calls (started tt)).config
    ≡ second_calls
unfolding reload_calls ordered_files tracked_files unload_stale parse_each each_once scan_all member
    names bytes_eq run_calls run_call parse_file run_lines extend_chunk commit unload_file is_loaded
    has apply_ops apply_op add_app_id count_depot store_key stamp_purchase put get
planned = refl

second_calls-AllNamed : AllNamed second_calls
unfolding AllNamed IsNamed
second_calls-AllNamed = (tt, (refl, tt))

reload_directories_missing_example :
    is_loaded
      (codes "a.lua")
      (reload_directories interpreter found no_script
        (codes "lua" ∷ [])
        true
        (run_calls interpreter first_calls (started tt))).config
    ≡ false
reload_directories_missing_example =
    reload_directories_missing interpreter found no_script (codes "lua" ∷ []) (codes "a.lua")
      not_found tt first_calls true first_calls-AllNamed
      (subst AllNamed (sym planned) second_calls-AllNamed)
      (subst (λ l. 1 + length l < 2 ^ 32) (sym planned) (omega arith))
