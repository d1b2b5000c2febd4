-- ===== src/LuaConfig/Query/Key.antt =====
-- The key of a depot reaches the client as the script wrote it.
use better_steam_tools_ameth.Base.{
  ℕ, ◌+◌, ◌*◌, ◌/◌, ◌%◌, ◌^◌, ◌<◌, ◌≡◌, refl, ap, ◌∙◌, false, some, List, [], ◌∷◌, length, arith,
  inl, inr, Bool-cases,
}
use better_steam_tools_ameth.Base.Text.{Bytes}
use better_steam_tools_ameth.Base.Keyed.{number_key, text_key, member, get, get-put, same_self}
use better_steam_tools_ameth.Numbers.{
  parse_hex_uint8, parse_hex, parse_strict, strip_hex_prefix, digit_value, is_digit,
}
use better_steam_tools_ameth.Numbers.Exact.{parse_strict-is_number, is_number, value, all_digits}
use better_steam_tools_ameth.Bridge.Hex.{lower_digit, to_hex, AllBytes}
use better_steam_tools_ameth.LuaConfig.{
  Depots, ConfigState, is_unnamed, or_else, store_key, add_app_id, count_depot, apply_op, op_app_id,
}
use better_steam_tools_ameth.LuaConfig.Script.{parse_hex_byte}
use better_steam_tools_ameth.LuaConfig.Query.{key_bytes, get_decryption_key}

digit_value-lower_digit : (d : ℕ) → d < 16 → digit_value (lower_digit d) ≡ d
unfolding digit_value lower_digit
digit_value-lower_digit d h = ground arith

no_prefix : (c d : ℕ) → d < 16 → strip_hex_prefix (c ∷ lower_digit d ∷ []) ≡ c ∷ lower_digit d ∷ []
unfolding strip_hex_prefix lower_digit
no_prefix c d h = ground arith

parse_hex_uint8-lower_digit :
    (h l : ℕ)
    → h < 16
    → l < 16
    → parse_hex_uint8 (lower_digit h ∷ lower_digit l ∷ []) ≡ some (h * 16 + l)
unfolding parse_hex_uint8 parse_hex is_number all_digits value is_digit
parse_hex_uint8-lower_digit h l hl ll =
    let exact = parse_strict-is_number 16 (2 ^ 8) (lower_digit h ∷ lower_digit l ∷ []) in
    let dh = digit_value-lower_digit h hl in
    let dl = digit_value-lower_digit l ll in
    let exact' = (rw (dh, dl) at exact) in
    ap (parse_strict 16 (2 ^ 8)) (no_prefix (lower_digit h) l ll) ∙ ground arith

-- two digits make a byte again
parse_hex_byte-lower_digit :
    (h l : ℕ) → h < 16 → l < 16 → parse_hex_byte (lower_digit h ∷ lower_digit l ∷ []) ≡ h * 16 + l
unfolding parse_hex_byte
parse_hex_byte-lower_digit h l hl ll =
    rw (parse_hex_uint8-lower_digit h l hl ll, parse_hex_byte) refl

key_bytes-to_hex : (bytes : Bytes) → AllBytes bytes → key_bytes (to_hex bytes) ≡ bytes
unfolding key_bytes to_hex
key_bytes-to_hex [] h = refl
key_bytes-to_hex (b ∷ bytes) h =
    let byte = parse_hex_byte-lower_digit (b / 16) (b % 16) (omega arith) (omega arith) in
    let same : b / 16 * 16 + b % 16 ≡ b = omega arith in
    rw (byte, same, key_bytes-to_hex bytes h.1) refl

add_app_id_keys :
    (file : Bytes) (depot : ℕ) (key : Bytes) (d : Depots)
    → (add_app_id file depot key d).depot_keys ≡ store_key depot key d.depot_keys
unfolding add_app_id count_depot
add_app_id_keys file depot key d = elim (Bool-cases (is_unnamed file)) [
  | inl e ↦ rw e refl
  | inr e ↦ elim (Bool-cases (member depot (or_else (get file d.file_depots) []))) [
    | inl known ↦ rw (e, known) refl
    | inr fresh ↦ rw (e, fresh) refl
  ]
]

store_key-get :
    (depot : ℕ) (key : Bytes) (keys : List (ℕ × Bytes))
    → is_unnamed key ≡ false
    → get depot (store_key depot key keys) ≡ some key
unfolding store_key
store_key-get depot key keys named =
    rw named (ground (arith, get-put depot depot key keys, same_self depot))

to_hex-is_unnamed : (bytes : Bytes) → length bytes ≡ 32 → is_unnamed (to_hex bytes) ≡ false
unfolding to_hex
to_hex-is_unnamed [] n = absurd (omega arith)
to_hex-is_unnamed (b ∷ bytes) n = refl

-- If a script gives a depot a key that is the lower-case hexadecimal text of 32 bytes, the key
-- of the depot is then these bytes, whatever was configured before.
pub get_decryption_key-op_app_id :
    (file : Bytes) (depot : ℕ) (bytes : Bytes) (c : ConfigState)
    → AllBytes bytes
    → length bytes ≡ 32
    → get_decryption_key depot (apply_op file (op_app_id depot (to_hex bytes)) c) ≡ bytes
unfolding apply_op get_decryption_key
get_decryption_key-op_app_id file depot bytes c all n =
    let stored =
      ap (get depot) (add_app_id_keys file depot (to_hex bytes) c.depots)
      ∙ store_key-get depot (to_hex bytes) c.depots.depot_keys (to_hex-is_unnamed bytes n) in
    rw (stored, get_decryption_key) (key_bytes-to_hex bytes all)
