-- ===== src/Tests/Presence.antt =====
-- Rich presence at concrete inputs.
use better_steam_tools_ameth.Base.{◌≡◌, refl, List, [], ◌∷◌, ◌++◌, arith}
use better_steam_tools_ameth.Base.Text.{codes}
use better_steam_tools_ameth.Base.Find.{absent}
use better_steam_tools_ameth.Presence.{
  extract_from, extract_string_kvs, decide_track_action, defer_to_server,
}
use better_steam_tools_ameth.Presence.Stream.{
  Token, open_struct, string_kv, close_struct, write_tokens, pairs, IsNested,
  extract_string_kvs-written,
}
use better_steam_tools_ameth.Presence.Rounds.{extract_string_kvs_enough}

abbrev tokens : List Token
tokens = open_struct (codes "RP") ∷ string_kv (codes "k") (codes "v") ∷ close_struct ∷ []

tokens-IsNested : IsNested 0 tokens
unfolding absent
tokens-IsNested = (refl, (refl, refl, refl))

extract_string_kvs-written_example :
    extract_string_kvs (write_tokens tokens ++ (8 ∷ 9 ∷ [])) ≡ pairs tokens
extract_string_kvs-written_example = extract_string_kvs-written tokens (9 ∷ []) tokens-IsNested

extract_string_kvs_enough_example :
    extract_from 100 (1 ∷ b'k' ∷ 0 ∷ b'v' ∷ 0 ∷ 8 ∷ []) 0
    ≡ extract_string_kvs (1 ∷ b'k' ∷ 0 ∷ b'v' ∷ 0 ∷ 8 ∷ [])
extract_string_kvs_enough_example =
    extract_string_kvs_enough 100 (1 ∷ b'k' ∷ 0 ∷ b'v' ∷ 0 ∷ 8 ∷ []) (omega arith)

-- an owned game on top of the stack is left to the server
owned_on_top : decide_track_action 7 0 9 ≡ defer_to_server
unfolding decide_track_action
owned_on_top = refl
