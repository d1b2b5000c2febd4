-- ===== src/Numbers/Decimal.antt =====
-- Reading back the decimal text of a number.
use better_steam_tools_ameth.Base.{
  ℕ, zero, suc, ◌+◌, ◌*◌, ◌/◌, ◌%◌, ◌<◌, ◌≡◌, ◌≢◌, refl, true, none, some, [], ◌∷◌, ltb,
  if◌then◌else◌, arith, inl, inr, Bool-cases, ◌∙◌, ap,
}
use better_steam_tools_ameth.Base.Text.{Bytes}
use better_steam_tools_ameth.Numbers.{digit_value, is_digit, parse_strict, decimal_onto, decimal}
use better_steam_tools_ameth.Numbers.Exact.{all_digits, value, is_number, parse_strict-is_number}

digit_value-digit : (d : ℕ) → d < 10 → digit_value (b'0' + d) ≡ d
unfolding digit_value
digit_value-digit d h = ground arith

value-digit :
    (v d : ℕ) (out : Bytes) → d < 10 → value 10 v ((b'0' + d) ∷ out) ≡ value 10 (v * 10 + d) out
unfolding value
value-digit v d out h = ap (λ k. value 10 (v * 10 + k) out) (digit_value-digit d h)

value-decimal_onto :
    (fuel n : ℕ) (out : Bytes) → n < fuel → value 10 0 (decimal_onto fuel n out) ≡ value 10 n out
unfolding decimal_onto
value-decimal_onto zero n out h = elim h [ ]
value-decimal_onto (suc fuel) n out h = elim (Bool-cases (ltb n 10)) [
  | inl small ↦
      let e : 0 * 10 + n ≡ n = omega arith in
      rw small (value-digit 0 n out (ground arith) ∙ ap (λ k. value 10 k out) e)
  | inr large ↦
      let e : n / 10 * 10 + n % 10 ≡ n = omega arith in
      rw large (
        value-decimal_onto fuel (n / 10) ((b'0' + n % 10) ∷ out) (ground arith)
        ∙ value-digit (n / 10) (n % 10) out (omega arith)
        ∙ ap (λ k. value 10 k out) e)
]

all_digits-decimal_onto :
    (fuel n : ℕ) (out : Bytes)
    → all_digits 10 out ≡ true
    → all_digits 10 (decimal_onto fuel n out) ≡ true
unfolding all_digits decimal_onto is_digit
all_digits-decimal_onto zero n out h = h
all_digits-decimal_onto (suc fuel) n out h = elim (Bool-cases (ltb n 10)) [
  | inl small ↦ rw (small, digit_value-digit n (ground arith)) (ground arith)
  | inr large ↦ rw large (
      all_digits-decimal_onto fuel (n / 10) ((b'0' + n % 10) ∷ out)
        (rw (digit_value-digit (n % 10) (omega arith)) (ground arith)))
]

decimal_onto-ne-nil : (fuel n c : ℕ) (out : Bytes) → decimal_onto fuel n (c ∷ out) ≢ []
unfolding decimal_onto
decimal_onto-ne-nil zero n c out h = cc
decimal_onto-ne-nil (suc fuel) n c out h =
    ground (arith, decimal_onto-ne-nil fuel (n / 10) (b'0' + n % 10) (c ∷ out))

decimal-ne-nil : (n : ℕ) → decimal n ≢ []
unfolding decimal decimal_onto
decimal-ne-nil n h = ground (arith, decimal_onto-ne-nil n (n / 10) (b'0' + n % 10) [])

pub all_digits-decimal : (n : ℕ) → all_digits 10 (decimal n) ≡ true
unfolding decimal
all_digits-decimal n = all_digits-decimal_onto (suc n) n [] (unfold all_digits in refl)

value-decimal : (n : ℕ) → value 10 0 (decimal n) ≡ n
unfolding decimal
value-decimal n = value-decimal_onto (suc n) n [] (omega arith) ∙ unfold value in refl

is_number-digits :
    (limit : ℕ) (s : Bytes)
    → s ≢ []
    → all_digits 10 s ≡ true
    → is_number 10 limit s ≡ ltb (value 10 0 s) limit
unfolding is_number
is_number-digits limit [] ne h = absurd (ne refl)
is_number-digits limit (c ∷ cs) ne h = rw h refl

-- The strict decimal parser reads the decimal text of every number back if the number fits the
-- type, and refuses it if it does not.
pub parse_strict-decimal :
    (limit n : ℕ) → parse_strict 10 limit (decimal n) ≡ (if ltb n limit then some n else none)
parse_strict-decimal limit n =
    parse_strict-is_number 10 limit (decimal n)
    ∙ rw (
      is_number-digits limit (decimal n) (decimal-ne-nil n) (all_digits-decimal n),
      value-decimal n,
    )

-- Different numbers have different texts.
decimal-injective : (m n : ℕ) → decimal m ≡ decimal n → m ≡ n
decimal-injective m n h = cc (value-decimal m, value-decimal n)
