-- ===== src/Numbers.antt =====
-- OSTPlatform/Numbers.cpp, with `std::from_chars` and `std::to_string` of the standard library,
-- which Utils/SteamMetadata/ManifestDonorLogic.cpp and Utils/Tokeer/TokeerParsing.cpp use too.
pub mod Exact
pub mod Decimal
use better_steam_tools_ameth.Base.{
  ℕ, zero, suc, ◌+◌, ◌-◌, ◌*◌, ◌/◌, ◌%◌, ◌^◌, Bool, true, false, ◌&&◌, ◌||◌, Option, none, some, [],
  ◌∷◌, ◌==◌, ltb, leb, if◌then◌else◌, length, take, drop,
}
use better_steam_tools_ameth.Base.Text.{Bytes}

-- the value of a digit or letter, 36 for any other byte
unfoldable pub digit_value : ℕ → ℕ
digit_value c =
    if leb b'0' c && leb c b'9'
    then c - b'0'
    else if leb b'a' c && leb c b'z'
    then c - b'a' + 10
    else if leb b'A' c && leb c b'Z'
    then c - b'A' + 10
    else 36

unfoldable pub is_digit : ℕ → ℕ → Bool
unfolding digit_value
is_digit base c = ltb (digit_value c) base

-- the run of digits at the front: its value on top of `v`, and what follows it
unfoldable pub read_digits : ℕ → ℕ → Bytes → ℕ × Bytes
unfolding is_digit
read_digits base v [] = (v, [])
read_digits base v (c ∷ cs) =
    let rest = read_digits base (v * base + digit_value c) cs in
    if is_digit base c then rest else (v, c ∷ cs)

pub data FromChars : Type 0 where
  parsed : ℕ → Bytes → FromChars
  invalid : FromChars
  out_of_range : FromChars

-- `std::from_chars` into an unsigned type of `limit` values
unfoldable pub from_chars : ℕ → ℕ → Bytes → FromChars
unfolding read_digits
from_chars base limit [] = invalid
from_chars base limit (c ∷ cs) =
    if is_digit base c
    then (let (v, rest) = read_digits base (digit_value c) cs in
        if ltb v limit then parsed v rest else out_of_range)
    else invalid

-- the whole text was read
abbrev pub whole : FromChars → Option ℕ
whole (parsed v []) = some v
whole (parsed v (c ∷ cs)) = none
whole invalid = none
whole out_of_range = none

-- `ParseStrict<T>` of a text; from_chars refuses the empty one too
unfoldable pub parse_strict : ℕ → ℕ → Bytes → Option ℕ
unfolding from_chars
parse_strict base limit [] = none
parse_strict base limit (c ∷ cs) = whole (from_chars base limit (c ∷ cs))

pub record TextSlice : Type 0 where
  pub offset : ℕ
  pub count : ℕ

unfoldable pub apply_slice : Bytes → TextSlice → Option Bytes
apply_slice value slice =
    if ltb (length value) slice.offset
    then none
    else some (take slice.count (drop slice.offset value))

unfoldable pub parse_slice : ℕ → ℕ → Bytes → TextSlice → Option ℕ
unfolding parse_strict apply_slice
parse_slice base limit value slice = elim (apply_slice value slice) [
  | none ↦ none
  | some sliced ↦ parse_strict base limit sliced
]

unfoldable pub strip_hex_prefix : Bytes → Bytes
strip_hex_prefix (z ∷ x ∷ rest) =
    if z == b'0' && (x == b'x' || x == b'X') then rest else z ∷ x ∷ rest
strip_hex_prefix value = value

unfoldable pub parse_hex : ℕ → Bytes → Option ℕ
unfolding parse_strict strip_hex_prefix
parse_hex limit value = parse_strict 16 limit (strip_hex_prefix value)

unfoldable pub parse_uint64 : Bytes → Option ℕ
unfolding parse_strict
parse_uint64 = parse_strict 10 (2 ^ 64)

unfoldable pub parse_uint32 : Bytes → Option ℕ
unfolding parse_strict
parse_uint32 = parse_strict 10 (2 ^ 32)

unfoldable pub parse_hex_uint64 : Bytes → Option ℕ
unfolding parse_hex
parse_hex_uint64 = parse_hex (2 ^ 64)

unfoldable pub parse_hex_uint8 : Bytes → Option ℕ
unfolding parse_hex
parse_hex_uint8 = parse_hex (2 ^ 8)

-- the loop of `std::to_string`: the digits of `n` in front of those written so far
unfoldable pub decimal_onto : ℕ → ℕ → Bytes → Bytes
decimal_onto zero n out = out
decimal_onto (suc fuel) n out =
    let rest = decimal_onto fuel (n / 10) ((b'0' + n % 10) ∷ out) in
    if ltb n 10 then (b'0' + n) ∷ out else rest

-- `std::to_string`, and `{}` of `std::format`
unfoldable pub decimal : ℕ → Bytes
unfolding decimal_onto
decimal n = decimal_onto (suc n) n []
