-- ===== src/Numbers/Exact.antt =====
-- `ParseStrict` accepts exactly the non-empty texts of digits whose value fits the type.
use better_steam_tools_ameth.Base.{
  ℕ, ◌+◌, ◌*◌, ◌≡◌, refl, Bool, true, false, ◌&&◌, none, some, [], ◌∷◌, ltb, if◌then◌else◌, arith,
  inl, inr, Bool-cases,
}
use better_steam_tools_ameth.Base.Text.{Bytes}
use better_steam_tools_ameth.Numbers.{
  digit_value, is_digit, read_digits, FromChars, parsed, whole, parse_strict,
}

unfoldable pub all_digits : ℕ → Bytes → Bool
all_digits base [] = true
all_digits base (c ∷ cs) = is_digit base c && all_digits base cs

-- the number that a text of digits stands for, on top of `v`
unfoldable pub value : ℕ → ℕ → Bytes → ℕ
value base v [] = v
value base v (c ∷ cs) = value base (v * base + digit_value c) cs

unfoldable pub is_number : ℕ → ℕ → Bytes → Bool
unfolding all_digits value
is_number base limit [] = false
is_number base limit (c ∷ cs) = all_digits base (c ∷ cs) && ltb (value base 0 (c ∷ cs)) limit

whole_digits :
    (base limit v : ℕ) (s : Bytes)
    → (let (v', rest) = read_digits base v s in
        whole (if ltb v' limit then parsed v' rest else FromChars.out_of_range))
      ≡ (if all_digits base s && ltb (value base v s) limit then some (value base v s) else none)
unfolding read_digits all_digits value
whole_digits base limit v [] = ground arith
whole_digits base limit v (c ∷ cs) = elim (Bool-cases (is_digit base c)) [
  | inl d ↦ rw d (whole_digits base limit (v * base + digit_value c) cs)
  | inr n ↦ rw n (ground arith)
]

-- For every base, type and text the strict parser returns the number that the text stands for if
-- the text is one or more digits of the base and the number fits the type, and nothing otherwise.
pub parse_strict-is_number :
    (base limit : ℕ) (s : Bytes)
    → parse_strict base limit s ≡ (if is_number base limit s then some (value base 0 s) else none)
unfolding parse_strict is_number all_digits value
parse_strict-is_number base limit [] = refl
parse_strict-is_number base limit (c ∷ cs) = elim (Bool-cases (is_digit base c)) [
  | inl d ↦
      let e : 0 * base + digit_value c ≡ digit_value c = omega arith in
      rw (d, e) (whole_digits base limit (digit_value c) cs)
  | inr n ↦ rw n refl
]
