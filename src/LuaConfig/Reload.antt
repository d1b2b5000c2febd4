-- ===== src/LuaConfig/Reload.antt =====
-- `MergeWatchDirs`, `ParseDirectory` and `ReloadDirectories`. The scan of a directory and the
-- canonical path of one are parameters.
pub mod Watched
pub mod Stale
use better_steam_tools_ameth.Base.{
  ℕ, Bool, true, false, not, ◌||◌, Option, none, some, List, [], ◌∷◌, ◌++◌, if◌then◌else◌,
}
use better_steam_tools_ameth.Base.Text.{Bytes}
use better_steam_tools_ameth.Base.Keyed.{text_key, member, names}
use better_steam_tools_ameth.LuaConfig.{ConfigState, is_unnamed, on_depots}
use better_steam_tools_ameth.LuaConfig.Files.{System, Lua, Script, parse_file, unload_file}
use better_steam_tools_ameth.LuaConfig.History.{FileCall, parse, unload, run_calls}

-- the lambda `add` on the directories in turn: those whose canonical path has been seen are left out
unfoldable pub add_dirs : (Bytes → Bytes) → List Bytes → List Bytes → List Bytes
add_dirs key seen [] = []
add_dirs key seen (dir ∷ dirs) =
    let skipped = add_dirs key seen dirs in
    let added = add_dirs key (key dir ∷ seen) dirs in
    if is_unnamed dir then skipped else if member (key dir) seen then skipped else dir ∷ added

unfoldable pub merge_watch_dirs : (Bytes → Bytes) → List Bytes → Bytes → List Bytes
unfolding add_dirs
merge_watch_dirs key configured default_dir = add_dirs key [] (configured ++ (default_dir ∷ []))

-- the names of a list, each once, in the order of their first places
unfoldable pub each_once : List Bytes → List Bytes → List Bytes
each_once seen [] = []
each_once seen (file ∷ files) =
    let skipped = each_once seen files in
    let added = each_once (file ∷ seen) files in if member file seen then skipped else file ∷ added

-- the files of the directories in turn
unfoldable pub scan_all : (Bytes → List Bytes) → List Bytes → List Bytes
scan_all collect [] = []
scan_all collect (dir ∷ dirs) = collect dir ++ scan_all collect dirs

unfoldable pub ordered_files : (Bytes → List Bytes) → List Bytes → List Bytes
unfolding each_once scan_all
ordered_files collect dirs = each_once [] (scan_all collect dirs)

-- the files that have given a depot or a pin
unfoldable pub tracked_files : ConfigState → List Bytes
unfolding each_once
tracked_files c = each_once [] (names c.depots.file_depots ++ names c.pins.file_overrides)

-- the tracked files that are no longer there
unfoldable pub unload_stale : List Bytes → List Bytes → List FileCall
unload_stale active [] = []
unload_stale active (file ∷ files) =
    let rest = unload_stale active files in if member file active then rest else unload file ∷ rest

unfoldable pub parse_each : (Bytes → Option Script) → List Bytes → List FileCall
parse_each read [] = []
parse_each read (file ∷ files) = parse file (read file) ∷ parse_each read files

unfoldable pub clear_additions : {G : Type 0} → System G → System G
clear_additions s = record s {
  config = on_depots (λ d. record d { pending_additions = [] }) s.config;
}

-- the calls of `ReloadDirectories`: `collect` scans a directory and `read` opens a file
unfoldable pub reload_calls :
    (Bytes → List Bytes) → (Bytes → Option Script) → List Bytes → ConfigState → List FileCall
unfolding ordered_files tracked_files unload_stale parse_each
reload_calls collect read dirs c =
    let ordered = ordered_files collect dirs in
    unload_stale ordered (tracked_files c) ++ parse_each read ordered

unfoldable pub reload_directories :
    {G : Type 0}
    → Lua G
    → (Bytes → List Bytes)
    → (Bytes → Option Script)
    → List Bytes
    → Bool
    → System G
    → System G
unfolding reload_calls run_calls clear_additions
reload_directories lua collect read dirs clear s =
    let after = run_calls lua (reload_calls collect read dirs s.config) s in
    if clear then clear_additions after else after

unfoldable pub parse_directory :
    {G : Type 0}
    → Lua G
    → (Bytes → List Bytes)
    → (Bytes → Option Script)
    → Bytes
    → System G
    → System G
unfolding parse_each run_calls clear_additions
parse_directory lua collect read dir s =
    clear_additions (run_calls lua (parse_each read (collect dir)) s)
