-- ===== src/Patterns/Signature.antt =====
-- Signatures are read back.
use better_steam_tools_ameth.Base.{
  ℕ, ◌+◌, ◌-◌, ◌*◌, ◌/◌, ◌%◌, ◌<◌, ◌≡◌, ◌∙◌, ◌≢◌, refl, ap, false, ◌||◌, Option, none, some, [],
  ◌∷◌, ◌++◌, arith, ◌==◌, ltb, if◌then◌else◌,
}
use better_steam_tools_ameth.Base.Text.{Bytes}
use better_steam_tools_ameth.Patterns.{nib, Sig, push, parse_places, parse_sig}

-- the digits that the trackers write
unfoldable pub hex_digit : ℕ → ℕ
hex_digit d = if ltb d 10 then b'0' + d else b'A' + (d - 10)

unfoldable pub write_place : Option ℕ → Bytes
unfolding hex_digit
write_place none = b'?' ∷ b'?' ∷ []
write_place (some c) = hex_digit (c / 16) ∷ hex_digit (c % 16) ∷ []

-- "48 8B ?? 05", with a separator behind each place
unfoldable pub write_sig : Sig → Bytes
unfolding write_place
write_sig [] = []
write_sig (place ∷ sig) = write_place place ++ (b' ' ∷ write_sig sig)

abbrev pub AllBytes : Sig → Type 0
AllBytes [] = Unit
AllBytes (none ∷ sig) = AllBytes sig
AllBytes (some c ∷ sig) = (c < 256) × AllBytes sig

nib-hex_digit : (d : ℕ) → d < 16 → nib (hex_digit d) ≡ some d
unfolding nib hex_digit
nib-hex_digit d h = ground arith

hex_digit_plain :
    (d : ℕ)
    → d < 16
    → ((hex_digit d == b' ' || hex_digit d == b'\t' || hex_digit d == b',') ≡ false)
      × ((hex_digit d == b'?') ≡ false)
      × ((hex_digit d == 0) ≡ false)
unfolding hex_digit
hex_digit_plain d h = (ground arith, ground arith, ground arith)

parse_places-separator : (cs : Bytes) → parse_places (b' ' ∷ cs) ≡ parse_places cs
unfolding parse_places
parse_places-separator [] = refl
parse_places-separator (c ∷ cs) = refl

parse_places_wild : (cs : Bytes) → parse_places (b'?' ∷ b'?' ∷ cs) ≡ push none (parse_places cs)
unfolding parse_places
parse_places_wild cs = refl

parse_places_byte :
    (c : ℕ) (cs : Bytes)
    → c < 256
    → parse_places (hex_digit (c / 16) ∷ hex_digit (c % 16) ∷ cs) ≡ push (some c) (parse_places cs)
unfolding parse_places
parse_places_byte c cs h =
    let hi = nib-hex_digit (c / 16) (omega arith) in
    let lo = nib-hex_digit (c % 16) (omega arith) in
    let (plain, known, ends) = hex_digit_plain (c / 16) (omega arith) in
    let e : c / 16 * 16 + c % 16 ≡ c = omega arith in rw (ends, plain, known, hi, lo, e) refl

parse_places-write_sig : (sig : Sig) → AllBytes sig → parse_places (write_sig sig) ≡ some sig
unfolding write_sig
parse_places-write_sig [] h = unfold parse_places in refl
parse_places-write_sig (none ∷ sig) h =
    let rest = parse_places-separator (write_sig sig) ∙ parse_places-write_sig sig h in
    parse_places_wild (b' ' ∷ write_sig sig) ∙ ap (push none) rest
parse_places-write_sig (some c ∷ sig) h =
    let rest = parse_places-separator (write_sig sig) ∙ parse_places-write_sig sig h.1 in
    parse_places_byte c (b' ' ∷ write_sig sig) h.0 ∙ ap (push (some c)) rest

-- Every signature of at least one place, each a byte or a wildcard, is read back from the text of
-- its places in upper-case hexadecimal with "??" for a wildcard.
pub parse_sig-write_sig :
    (sig : Sig) → AllBytes sig → sig ≢ [] → parse_sig (write_sig sig) ≡ some sig
unfolding parse_sig
parse_sig-write_sig [] h ne = absurd (ne refl)
parse_sig-write_sig (place ∷ sig) h ne = rw (parse_places-write_sig (place ∷ sig) h, parse_sig) refl
