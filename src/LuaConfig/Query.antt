-- ===== src/LuaConfig/Query.antt =====
-- The queries of the configuration that the hooks ask.
pub mod Key
use better_steam_tools_ameth.Base.{
  ℕ, ◌+◌, ◌-◌, ◌%◌, ◌^◌, Bool, true, false, not, ◌&&◌, Option, none, some, List, [], ◌∷◌, ◌==◌,
  if◌then◌else◌, map,
}
use better_steam_tools_ameth.Base.Int.{ℤ, pos, negsuc}
use better_steam_tools_ameth.Base.Text.{Bytes}
use better_steam_tools_ameth.Base.Keyed.{number_key, text_key, member, get, has}
use better_steam_tools_ameth.Numbers.{parse_uint64}
use better_steam_tools_ameth.Mirrors.{lower}
use better_steam_tools_ameth.LuaConfig.{ConfigState, ManifestOverride, or_else}
use better_steam_tools_ameth.LuaConfig.Script.{
  LuaValue, integer, float, text, other, parse_hex_byte, c_string,
}

-- `k_uAppIdInvalid` is 0
unfoldable pub get_app_id_for_process : Bytes → ConfigState → ℕ
get_app_id_for_process image c = or_else (get (map lower image) c.tables.process_names) 0

unfoldable pub is_forced_denuvo : ℕ → ConfigState → Bool
is_forced_denuvo app c = member app c.tables.forced_denuvo

unfoldable pub get_access_token : ℕ → ConfigState → ℕ
get_access_token app c = or_else (get app c.tables.access_tokens) 0

unfoldable pub get_legacy_cd_key : ℕ → ConfigState → Option Bytes
get_legacy_cd_key app c = get app c.tables.legacy_cd_keys

unfoldable pub get_purchase_time : ℕ → ConfigState → ℕ
get_purchase_time app c = or_else (get app c.depots.purchase_time) 0

-- `fetched` is the answer of the server of the statistics, asked only without an entry
unfoldable pub get_stat_steam_id : Option ℕ → ℕ → ConfigState → ℕ
get_stat_steam_id fetched app c = elim (get app c.tables.stat_steam_ids) [
  | none ↦ or_else fetched 76561198028121353
  | some id ↦ id
]

unfoldable pub has_manifest_override : ℕ → ConfigState → Bool
has_manifest_override depot c = has depot c.pins.manifest_overrides

-- the loop of `GetDecryptionKey`: two digits a byte
unfoldable pub key_bytes : Bytes → Bytes
unfolding parse_hex_byte
key_bytes [] = []
key_bytes (a ∷ []) = parse_hex_byte (a ∷ []) ∷ []
key_bytes (a ∷ b ∷ rest) = parse_hex_byte (a ∷ b ∷ []) ∷ key_bytes rest

unfoldable pub get_decryption_key : ℕ → ConfigState → Bytes
unfolding key_bytes
get_decryption_key depot c = elim (get depot c.depots.depot_keys) [
  | none ↦ []
  | some key ↦ key_bytes key
]

-- a code as a uint64: a negative integer wraps round
unfoldable pub as_code : ℤ → ℕ
as_code (pos n) = n % 2 ^ 64
as_code (negsuc n) = 2 ^ 64 - 1 - n % 2 ^ 64

-- what `CallManifestFetchCode` and `CallManifestFetchCodeEx` make of a call: none where it raised an
-- error. `spell` is Lua's text of a number that is no integer
unfoldable pub code_of : Bytes → Option LuaValue → Option ℕ
unfolding c_string as_code
code_of spell none = none
code_of spell (some (integer z)) = some (as_code z)
code_of spell (some float) = parse_uint64 (c_string spell)
code_of spell (some (text s)) = parse_uint64 (c_string s)
code_of spell (some other) = none

-- the flag comes first: without the function nothing is called
unfoldable pub call_manifest_fetch_code : Bool → Bytes → Option LuaValue → Option ℕ
unfolding code_of
call_manifest_fetch_code has_code_func spell result =
    if has_code_func then code_of spell result else none
