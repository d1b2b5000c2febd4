-- ===== src/Presence.antt =====
-- Hook/RichPresenceLogic.h and .cpp: which game drives the rich presence, the flag of a status,
-- and the reader of Steam's binary key values.
pub mod Flag
pub mod Stream
pub mod Rounds
use better_steam_tools_ameth.Base.{
  ℕ, zero, suc, ◌+◌, ◌-◌, ◌*◌, ◌/◌, ◌%◌, ◌^◌, Bool, true, false, not, ◌&&◌, ◌||◌, Option, none,
  some, List, [], ◌∷◌, ◌==◌, if◌then◌else◌, length,
}
use better_steam_tools_ameth.Base.Text.{Bytes}

unfoldable pub app_id_from_game_id : ℕ → ℕ
app_id_from_game_id game_id = game_id % 2 ^ 32

unfoldable pub should_track_app_id : ℕ → Bool → Bool → Bool
should_track_app_id app_id is_lua_game is_online_fix =
    not (app_id == 0) && not is_online_fix && is_lua_game

pub data TrackAction : Type 0 where
  unchanged inject_game inject_clear defer_to_server : TrackAction

unfoldable pub decide_track_action : ℕ → ℕ → ℕ → TrackAction
decide_track_action playing_app_id new_tracked topmost =
    if playing_app_id == new_tracked
    then unchanged
    else if not (new_tracked == 0)
    then inject_game
    else if topmost == 0
    then inject_clear
    else defer_to_server

unfoldable pub should_capture_rp_upload : ℕ → ℕ → Bool
should_capture_rp_upload local_steam_id playing_app_id =
    not (local_steam_id == 0) && not (playing_app_id == 0)

unfoldable pub should_inject_rich_presence : ℕ → Bool
should_inject_rich_presence playing_app_id = not (playing_app_id == 0)

abbrev pub status_flag_rich_presence : ℕ
status_flag_rich_presence = 0x1000

-- `flags & ~0x1000`
unfoldable pub without_bit : ℕ → ℕ
without_bit flags = flags - flags / status_flag_rich_presence % 2 * status_flag_rich_presence

-- `flags | 0x1000`
unfoldable pub with_bit : ℕ → ℕ
unfolding without_bit
with_bit flags = without_bit flags + status_flag_rich_presence

unfoldable pub with_rich_presence_flag : ℕ → ℕ → Bool → ℕ
unfolding with_bit without_bit
with_rich_presence_flag status_flags app_id has_kvs =
    if app_id == 0 || has_kvs then with_bit status_flags else without_bit status_flags

-- the bytes up to the next zero, and those behind it; none if there is no zero
unfoldable pub read_cstr : Bytes → Option (Bytes × Bytes)
read_cstr [] = none
read_cstr (c ∷ cs) = elim (c == 0) [
  | true ↦ some ([], cs)
  | false ↦ elim (read_cstr cs) [ none ↦ none | some (s, rest) ↦ some (c ∷ s, rest) ]
]

abbrev pub KvList : Type 0
KvList = List (Bytes × Bytes)

-- the loop of `ExtractStringKVs`; each round reads a byte, so the length is enough fuel
unfoldable pub extract_from : ℕ → Bytes → ℕ → KvList
unfolding read_cstr
extract_from zero bytes depth = []
extract_from (suc fuel) [] depth = []
extract_from (suc fuel) (type ∷ bytes) depth = elim (type == 0x08) [
  | true ↦ elim (depth == 0) [ true ↦ [] | false ↦ extract_from fuel bytes (depth - 1) ]
  | false ↦ elim (type == 0x00) [
    | true ↦ elim (read_cstr bytes) [
      | none ↦ []
      | some (name, rest) ↦ extract_from fuel rest (depth + 1)
    ]
    | false ↦ elim (type == 0x01) [
      | true ↦ elim (read_cstr bytes) [
        | none ↦ []
        | some (key, tail) ↦ elim (read_cstr tail) [
          | none ↦ []
          | some (value, rest) ↦ (key, value) ∷ extract_from fuel rest depth
        ]
      ]
      | false ↦ []
    ]
  ]
]

unfoldable pub extract_string_kvs : Bytes → KvList
unfolding extract_from
extract_string_kvs bytes = extract_from (length bytes) bytes 0
