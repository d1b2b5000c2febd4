-- ===== src/LuaConfig/Script.antt =====
-- The functions that a script can call: `lua_addappid`, `lua_addtoken`, `lua_setlegacycdkey`,
-- `lua_addprocess`, `lua_forcedenuvo`, `lua_seteticketurl`, `lua_setManifestid`, `lua_setStat`, and
-- the check of `lua_setAppticket` and `lua_setEticket`. Lua's own text of a number is a parameter.
pub mod Recorded
use better_steam_tools_ameth.Base.{
  ℕ, ◌+◌, ◌^◌, ◌≤◌, Bool, true, false, not, ◌&&◌, ◌||◌, Option, none, some, List, [], ◌∷◌, ◌==◌,
  ltb, leb, if◌then◌else◌, length, map,
}
use better_steam_tools_ameth.Base.Int.{ℤ, pos, negsuc}
use better_steam_tools_ameth.Base.Text.{Bytes}
use better_steam_tools_ameth.Numbers.{parse_uint64, parse_hex_uint8}
use better_steam_tools_ameth.Mirrors.{lower}
use better_steam_tools_ameth.LuaConfig.{
  ConfigOp, op_app_id, op_token, op_cd_key, op_process, op_denuvo, op_eticket_url, op_manifest,
  op_stat,
}

-- an argument: an integer, another number, a text, or a value of another kind
pub data LuaValue : Type 0 where
  integer : ℤ → LuaValue
  float : LuaValue
  text : Bytes → LuaValue
  other : LuaValue

-- what a call does: it raises an error, does nothing, or applies an operation
pub data Ran : Type 0 where
  raises : Ran
  nothing : Ran
  records : ConfigOp → Ran

-- an argument that is checked: without it the call raises an error
abbrev pub need {ℓ} : {A : Type ℓ} → Option A → (A → Ran) → Ran
need none use_it = raises
need (some a) use_it = use_it a

-- the names that `Initialize` registers for these functions
pub data ScriptFunction : Type 0 where
  addappid addtoken setlegacycdkey addprocess forcedenuvo seteticketurl setmanifestid :
      ScriptFunction
  setstat : ScriptFunction

-- the text up to the first 0
unfoldable pub c_string : Bytes → Bytes
c_string [] = []
c_string (c ∷ cs) = let rest = c_string cs in if c == 0 then [] else c ∷ rest

-- `lua_isinteger` and the range of a uint32
unfoldable pub as_uint32 : LuaValue → Option ℕ
as_uint32 (integer (pos n)) = if ltb n (2 ^ 32) then some n else none
as_uint32 (integer (negsuc n)) = none
as_uint32 float = none
as_uint32 (text s) = none
as_uint32 other = none

-- `lua_tolstring`, where `lua_isstring` holds; `spell` is Lua's text of a number
abbrev pub as_text : (LuaValue → Bytes) → LuaValue → Option Bytes
as_text spell (integer z) = some (spell (integer z))
as_text spell float = some (spell float)
as_text spell (text s) = some s
as_text spell other = none

module _ (spell : LuaValue → Bytes) where
  -- `lua_tostring` as a C string
  unfoldable pub to_string : LuaValue → Option Bytes
  unfolding c_string
  to_string v = elim (as_text spell v) [ none ↦ none | some s ↦ some (c_string s) ]

  -- a decimal number below 2^64 as a text
  unfoldable pub to_uint64 : LuaValue → Option ℕ
  unfolding to_string parse_uint64
  to_uint64 v = elim (to_string v) [ none ↦ none | some s ↦ parse_uint64 s ]

  unfoldable pub kept_key : Bytes → Bytes
  kept_key key = if length key == 64 then key else []

  unfoldable pub lua_add_app_id : List LuaValue → Ran
  unfolding as_uint32 to_string kept_key
  lua_add_app_id [] = raises
  lua_add_app_id (id ∷ []) = need (as_uint32 id) (λ n. records (op_app_id n []))
  lua_add_app_id (id ∷ second ∷ []) = need (as_uint32 id) (λ n. records (op_app_id n []))
  lua_add_app_id (id ∷ second ∷ key ∷ rest) =
      need (as_uint32 id) (λ n. need (to_string key) (λ k. records (op_app_id n (kept_key k))))

  unfoldable pub lua_add_token : List LuaValue → Ran
  unfolding as_uint32 to_uint64
  lua_add_token [] = raises
  lua_add_token (id ∷ []) = need (as_uint32 id) (λ n. nothing)
  lua_add_token (id ∷ token ∷ rest) =
      need (as_uint32 id) (λ n. need (to_uint64 token) (λ t. records (op_token n t)))

  unfoldable pub lua_set_legacy_cd_key : List LuaValue → Ran
  unfolding as_uint32 to_string
  lua_set_legacy_cd_key [] = raises
  lua_set_legacy_cd_key (id ∷ []) = raises
  lua_set_legacy_cd_key (id ∷ key ∷ rest) =
      need (as_uint32 id) (λ n. need (to_string key) (λ k. records (op_cd_key n k)))

  unfoldable pub lua_add_process : List LuaValue → Ran
  unfolding as_uint32 to_string
  lua_add_process [] = raises
  lua_add_process (id ∷ []) = raises
  lua_add_process (id ∷ name ∷ rest) = need (to_string name) (λ s.
      need (as_uint32 id) (λ n. if n == 0 then raises else records (op_process (map lower s) n)))

  unfoldable pub lua_force_denuvo : List LuaValue → Ran
  unfolding as_uint32
  lua_force_denuvo [] = raises
  lua_force_denuvo (id ∷ rest) =
      need (as_uint32 id) (λ n. if n == 0 then raises else records (op_denuvo n))

  unfoldable pub lua_set_eticket_url : List LuaValue → Ran
  unfolding to_string
  lua_set_eticket_url [] = raises
  lua_set_eticket_url (url ∷ rest) = need (to_string url) (λ u. records (op_eticket_url u))

  -- the size of a pin is always 0
  unfoldable pub lua_set_manifest_id : List LuaValue → Ran
  unfolding as_uint32 to_uint64
  lua_set_manifest_id [] = raises
  lua_set_manifest_id (id ∷ []) = raises
  lua_set_manifest_id (id ∷ gid ∷ rest) =
      need (as_uint32 id)
        (λ n. need (to_uint64 gid) (λ g. records (op_manifest n (record { gid = g; size = 0 }))))

  unfoldable pub lua_set_stat : List LuaValue → Ran
  unfolding as_uint32 to_uint64
  lua_set_stat [] = raises
  lua_set_stat (id ∷ []) = raises
  lua_set_stat (id ∷ steam_id ∷ rest) =
      need (as_uint32 id) (λ n. need (to_uint64 steam_id) (λ s. records (op_stat n s)))

  -- the functions that a script finds, by name
  unfoldable pub lua_call : ScriptFunction → List LuaValue → Ran
  unfolding lua_add_app_id lua_add_token lua_set_legacy_cd_key lua_add_process lua_force_denuvo
      lua_set_eticket_url lua_set_manifest_id lua_set_stat
  lua_call addappid args = lua_add_app_id args
  lua_call addtoken args = lua_add_token args
  lua_call setlegacycdkey args = lua_set_legacy_cd_key args
  lua_call addprocess args = lua_add_process args
  lua_call forcedenuvo args = lua_force_denuvo args
  lua_call seteticketurl args = lua_set_eticket_url args
  lua_call setmanifestid args = lua_set_manifest_id args
  lua_call setstat args = lua_set_stat args

-- `ParseHexByte`
unfoldable pub parse_hex_byte : Bytes → ℕ
unfolding parse_hex_uint8
parse_hex_byte s = elim (parse_hex_uint8 s) [ none ↦ 0 | some b ↦ b ]

-- the loop of `lua_setAppticket` and `lua_setEticket`: two digits a byte, a lone last one as its
-- upper half
unfoldable pub ticket_bytes : Bytes → Bytes
unfolding parse_hex_byte
ticket_bytes [] = []
ticket_bytes (a ∷ []) = parse_hex_byte (c_string (a ∷ b'0' ∷ [])) ∷ []
ticket_bytes (a ∷ b ∷ rest) = parse_hex_byte (c_string (a ∷ b ∷ [])) ∷ ticket_bytes rest

unfoldable pub lua_set_ticket : (LuaValue → Bytes) → List LuaValue → Option (ℕ × Bytes)
unfolding as_uint32 ticket_bytes
lua_set_ticket spell [] = none
lua_set_ticket spell (id ∷ []) = none
lua_set_ticket spell (id ∷ hex ∷ rest) = elim (as_text spell hex) [
  | none ↦ none
  | some s ↦ elim (as_uint32 id) [ none ↦ none | some n ↦ some (n, ticket_bytes s) ]
]
