-- ===== src/Bridge/Hex.antt =====
-- Hexadecimal text is read back, and the length of what is read is known.
use better_steam_tools_ameth.Base.{
  ℕ, ◌+◌, ◌-◌, ◌*◌, ◌/◌, ◌%◌, ◌<◌, ◌≡◌, ◌≢◌, refl, some, [], ◌∷◌, arith, ltb, if◌then◌else◌, length,
}
use better_steam_tools_ameth.Base.Text.{Bytes}
use better_steam_tools_ameth.Bridge.{hex_nibble, hex_pairs, hex_to_bytes}

-- a digit in lower case
unfoldable pub lower_digit : ℕ → ℕ
lower_digit d = if ltb d 10 then b'0' + d else b'a' + (d - 10)

unfoldable pub to_hex : Bytes → Bytes
unfolding lower_digit
to_hex [] = []
to_hex (b ∷ bytes) = lower_digit (b / 16) ∷ lower_digit (b % 16) ∷ to_hex bytes

abbrev pub AllBytes : Bytes → Type 0
AllBytes [] = Unit
AllBytes (b ∷ bytes) = (b < 256) × AllBytes bytes

hex_nibble-lower_digit : (d : ℕ) → d < 16 → hex_nibble (lower_digit d) ≡ some d
unfolding hex_nibble lower_digit
hex_nibble-lower_digit d h = ground arith

hex_pairs-to_hex : (bytes : Bytes) → AllBytes bytes → hex_pairs (to_hex bytes) ≡ some bytes
unfolding hex_pairs to_hex
hex_pairs-to_hex [] h = refl
hex_pairs-to_hex (b ∷ bytes) h =
    let e : b / 16 * 16 + b % 16 ≡ b = omega arith in
    rw
      (
        hex_nibble-lower_digit (b / 16) (omega arith),
        hex_nibble-lower_digit (b % 16) (omega arith),
        hex_pairs-to_hex bytes h.1,
        e,
      )
      refl

length-to_hex : (bytes : Bytes) → length (to_hex bytes) ≡ 2 * length bytes
unfolding to_hex
length-to_hex [] = refl
length-to_hex (b ∷ bytes) = omega (arith, length-to_hex bytes)

-- Every non-empty list of bytes is read back from its text in lower-case hexadecimal.
hex_to_bytes-to_hex :
    (bytes : Bytes) → AllBytes bytes → bytes ≢ [] → hex_to_bytes (to_hex bytes) ≡ some bytes
unfolding hex_to_bytes
hex_to_bytes-to_hex [] h ne = absurd (ne refl)
hex_to_bytes-to_hex (b ∷ bytes) h ne =
    let even : length (to_hex (b ∷ bytes)) % 2 ≡ 0 = omega (arith, length-to_hex (b ∷ bytes)) in
    rw (even, hex_pairs-to_hex (b ∷ bytes) h) (unfold to_hex in refl)
