-- ===== src/Tests/Alias.antt =====
-- The aliases of the library and its settings at concrete inputs.
use better_steam_tools_ameth.Base.{◌≡◌, refl, true, false, none, some, [], ◌∷◌}
use better_steam_tools_ameth.Base.Text.{bytes_eq, starts_with, codes}
use better_steam_tools_ameth.Base.Keyed.{text_key, get, put, erase}
use better_steam_tools_ameth.Alias.{
  Directory, Calls, regular, alias_toml, source_toml, build_toml_alias, apply_aliases, read_node,
  capped, is_generated_toml_alias, temp_path_for, is_temp_name, remove_stale_temps, is_stale,
  apply_alias, inspect_dll, inspect_toml, inspect, decide, write_bytes_via_temp,
}
use better_steam_tools_ameth.Alias.Untouched.{may_change, may_write, get-apply_aliases}

abbrev calls_work : Calls
calls_work = record {
  opens = true;
  written_only = none;
  renames = true;
  removes = true;
  now = 1000;
}

-- settings, and a file that someone else has put under the name of the alias
abbrev foreign_dir : Directory
foreign_dir =
    (source_toml, regular (codes "a = 1") 5 true)
    ∷ (alias_toml, regular (codes "theirs") 5 true)
    ∷ []

not_ours : may_change (codes "1") foreign_dir alias_toml ≡ false
unfolding may_change may_write read_node capped is_generated_toml_alias starts_with bytes_eq
    temp_path_for is_temp_name get
not_ours = refl

get-apply_aliases_example :
    get alias_toml (apply_aliases true (λ name. true) calls_work calls_work (codes "1") foreign_dir)
    ≡ get alias_toml foreign_dir
get-apply_aliases_example =
    get-apply_aliases true (λ name. true) calls_work calls_work (codes "1") foreign_dir alias_toml
      not_ours

-- without it the alias is written
written :
    get alias_toml (
      apply_aliases true
        (λ name. true)
        calls_work
        calls_work
        (codes "1")
        ((source_toml, regular (codes "a = 1") 5 true) ∷ []))
    ≡ some (regular (build_toml_alias (codes "a = 1")) 1000 true)
unfolding apply_aliases remove_stale_temps is_stale is_temp_name apply_alias inspect_dll
    inspect_toml inspect decide read_node capped write_bytes_via_temp temp_path_for starts_with
    bytes_eq get put erase
written = refl
