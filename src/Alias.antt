-- ===== src/Alias.antt =====
-- Utils/Config/CompatAliasLogic.cpp: copies of the library and its settings under the names that other
-- tools look for. A directory maps names to what stands there; the success of each call of the file
-- system is a parameter.
pub mod Others
pub mod Untouched
use better_steam_tools_ameth.Base.{
  ℕ, ◌+◌, ◌-◌, Bool, true, false, not, ◌&&◌, ◌||◌, Option, none, some, List, [], ◌∷◌, ◌++◌, ◌==◌,
  ltb, leb, if◌then◌else◌, length, take, drop, map,
}
use better_steam_tools_ameth.Base.Text.{Bytes, bytes_eq, starts_with, find, codes}
use better_steam_tools_ameth.Base.Keyed.{text_key, get, put, erase, is_some}
use better_steam_tools_ameth.Numbers.{decimal}

-- what stands under a name: a file with its contents, its time and whether it can be read, a link to
-- a file or to nothing, or something else
pub data Node : Type 0 where
  regular : Bytes → ℕ → Bool → Node
  link : Option Bytes → Node
  special : Node

abbrev pub Directory : Type 0
Directory = List (Bytes × Node)

pub data Decision : Type 0 where
  disabled source_missing create refresh up_to_date foreign : Decision

unfoldable pub decide : Bool → Bool → Bool → Bool → Bool → Decision
decide enabled source_present alias_present alias_is_ours alias_matches =
    if not enabled
    then disabled
    else if not source_present
    then source_missing
    else if not alias_present
    then create
    else if not alias_is_ours
    then foreign
    else if alias_matches
    then up_to_date
    else refresh

abbrev pub should_write_alias : Decision → Bool
should_write_alias create = true
should_write_alias refresh = true
should_write_alias disabled = false
should_write_alias source_missing = false
should_write_alias up_to_date = false
should_write_alias foreign = false

abbrev pub marker : Bytes
marker = codes "amethysttool.toml"

abbrev pub temp_suffix : Bytes
temp_suffix = codes ".amethyst-tmp"

abbrev pub toml_alias_header : Bytes
toml_alias_header =
    codes
      "# AmethystTool compatibility alias -- generated from amethysttool.toml.\n# Only read by external tools (e.g. LuaTools Validator); AmethystTool\n# itself always reads amethysttool.toml. Safe to delete.\n"

abbrev pub source_dll : Bytes
source_dll = codes "AmethystTool.dll"

abbrev pub alias_dll : Bytes
alias_dll = codes "OpenSteamTool.dll"

abbrev pub source_toml : Bytes
source_toml = codes "amethysttool.toml"

abbrev pub alias_toml : Bytes
alias_toml = codes "opensteamtool.toml"

-- 256 MiB
abbrev pub max_inspect_bytes : ℕ
max_inspect_bytes = 268435456

pub data ReadOut : Type 0 where
  absent : ReadOut
  read_ok : Bytes → ReadOut
  unreadable : ReadOut

-- `ReadFileCapped`, with links followed or not
unfoldable pub capped : Bytes → ReadOut
capped bytes = if ltb max_inspect_bytes (length bytes) then unreadable else read_ok bytes

unfoldable pub read_node : Bool → Option Node → ReadOut
unfolding capped
read_node follow none = absent
read_node follow (some (regular bytes time true)) = capped bytes
read_node follow (some (regular bytes time false)) = unreadable
read_node true (some (link (some bytes))) = capped bytes
read_node true (some (link none)) = absent
read_node false (some (link target)) = unreadable
read_node follow (some special) = unreadable

unfoldable pub looks_like_amethyst_dll : Bytes → Bool
looks_like_amethyst_dll bytes = is_some (find marker bytes)

unfoldable pub is_generated_toml_alias : Bytes → Bool
is_generated_toml_alias contents = starts_with toml_alias_header contents

abbrev pub build_toml_alias : Bytes → Bytes
build_toml_alias source = toml_alias_header ++ source

-- the part that `InspectDll` and `InspectToml` share: the contents to write, and how an alias of ours
-- is told
unfoldable pub inspect : (Bytes → Bytes) → (Bytes → Bool) → ReadOut → ReadOut → Decision × Bytes
unfolding decide
inspect build ours (read_ok source) absent = (decide true true false false false, build source)
inspect build ours (read_ok source) unreadable = (decide true true true false false, build source)
inspect build ours (read_ok source) (read_ok bytes) =
    (decide true true true (ours bytes) (ours bytes && bytes_eq bytes (build source)), build source)
inspect build ours absent alias = (decide true false false false false, [])
inspect build ours unreadable alias = (decide true false false false false, [])

unfoldable pub inspect_dll : Directory → Decision × Bytes
unfolding inspect read_node looks_like_amethyst_dll
inspect_dll dir =
    inspect (λ source. source) looks_like_amethyst_dll (read_node true (get source_dll dir))
      (read_node false (get alias_dll dir))

unfoldable pub inspect_toml : Directory → Decision × Bytes
unfolding inspect read_node is_generated_toml_alias
inspect_toml dir =
    inspect build_toml_alias is_generated_toml_alias (read_node true (get source_toml dir))
      (read_node false (get alias_toml dir))

-- what the calls of the file system do while one alias is written: the file opens or not, what of it
-- is written if not all, whether it is renamed, and whether a left-over can be removed
pub record Calls : Type 0 where
  pub opens : Bool
  pub written_only : Option Bytes
  pub renames : Bool
  pub removes : Bool
  pub now : ℕ

-- "<alias>.<tag>.amethyst-tmp"
unfoldable pub temp_path_for : Bytes → Bytes → Bytes
temp_path_for alias tag = alias ++ ((b'.' ∷ tag) ++ temp_suffix)

unfoldable pub remove_temp : Calls → Bytes → Directory → Directory
remove_temp calls tmp dir = if calls.removes then erase tmp dir else dir

-- `WriteBytesViaTemp` with `CommitTemp`: the directory, and whether it failed
unfoldable pub write_bytes_via_temp : Calls → Bytes → Bytes → Bytes → Directory → Directory × Bool
unfolding temp_path_for remove_temp
write_bytes_via_temp calls bytes alias tag dir =
    let tmp = temp_path_for alias tag in
    if not calls.opens then (remove_temp calls tmp dir, true) else elim calls.written_only [
      | some part ↦ (remove_temp calls tmp (put tmp (regular part calls.now true) dir), true)
      | none ↦
          let full = put tmp (regular bytes calls.now true) dir in
          if calls.renames
          then (put alias (regular bytes calls.now true) (erase tmp full), false)
          else (remove_temp calls tmp full, true)
    ]

-- one alias of `Apply`
unfoldable pub apply_alias : Calls → Bytes → Bytes → Decision × Bytes → Directory → Directory
unfolding write_bytes_via_temp
apply_alias calls alias tag (decision, payload) dir =
    if should_write_alias decision
    then (write_bytes_via_temp calls payload alias tag dir).0
    else dir

-- `IsTempName`
unfoldable pub is_temp_name : Bytes → Bytes → Bool
is_temp_name name alias =
    leb (length alias + length temp_suffix) (length name)
    && starts_with (alias ++ (b'.' ∷ [])) name
    && bytes_eq (drop (length name - length temp_suffix) name) temp_suffix

-- whether `RemoveStaleTemps` removes an entry
unfoldable pub is_stale : ℕ → ℕ → Bytes → Node → Bool
unfolding is_temp_name
is_stale now min_age name (regular bytes time readable) =
    (is_temp_name name alias_dll || is_temp_name name alias_toml) && leb (time + min_age) now
is_stale now min_age name (link target) = false
is_stale now min_age name special = false

-- the loop over the entries; `removes` tells whether an entry can be removed
unfoldable pub remove_stale_temps : (Bytes → Bool) → ℕ → ℕ → Directory → Directory
unfolding is_stale
remove_stale_temps removes now min_age [] = []
remove_stale_temps removes now min_age ((name, node) ∷ dir) =
    let rest = remove_stale_temps removes now min_age dir in
    if is_stale now min_age name node && removes name then rest else (name, node) ∷ rest

-- `kStaleTempAge` in seconds
abbrev pub stale_temp_age : ℕ
stale_temp_age = 600

-- `Apply`, with the calls for the one alias and for the other
unfoldable pub apply_aliases : Bool → (Bytes → Bool) → Calls → Calls → Bytes → Directory → Directory
unfolding remove_stale_temps apply_alias inspect_dll inspect_toml
apply_aliases enabled removes for_dll for_toml tag dir =
    if not enabled
    then dir
    else let swept = remove_stale_temps removes for_dll.now stale_temp_age dir in
      let with_dll = apply_alias for_dll alias_dll tag (inspect_dll swept) swept in
      apply_alias for_toml alias_toml tag (inspect_toml with_dll) with_dll
