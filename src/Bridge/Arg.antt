-- ===== src/Bridge/Arg.antt =====
-- The argument that names an application can only be a number.
use better_steam_tools_ameth.Base.{
  ℕ, ◌<◌, ◌^◌, ◌≡◌, ◌≢◌, true, some, [], arith, inl, inr, Option-cases, ◌∷◌, ◌∙◌, Bool-cases,
}
use better_steam_tools_ameth.Base.Text.{Bytes}
use better_steam_tools_ameth.Numbers.{parse_strict}
use better_steam_tools_ameth.Numbers.Exact.{all_digits, value, is_number, parse_strict-is_number}
use better_steam_tools_ameth.Bridge.{one_app, parse_refresh_achievements_arg}

is_number-digits :
    (limit : ℕ) (s : Bytes)
    → is_number 10 limit s ≡ true
    → (all_digits 10 s ≡ true) × (value 10 0 s < limit)
unfolding is_number
is_number-digits limit [] h = absurd (ground arith)
is_number-digits limit (c ∷ cs) h = (ground arith, ground arith)

parse_strict-digits :
    (limit : ℕ) (s : Bytes) (n : ℕ)
    → parse_strict 10 limit s ≡ some n
    → (all_digits 10 s ≡ true) × (value 10 0 s ≡ n) × (n < limit)
parse_strict-digits limit s n h =
    let parsed = parse_strict-is_number 10 limit s in
    elim (Bool-cases (is_number 10 limit s)) [
      | inl e ↦
          let (digits, small) = is_number-digits limit s e in
          let same : value 10 0 s ≡ n = ground arith in (digits, same, omega arith)
      | inr e ↦ absurd (ground arith)
    ]

-- An argument is taken as an application only if it is made of decimal digits and stands for that
-- number, which is neither zero nor too large for 32 bits.
parse_refresh_achievements_arg-one_app :
    (arg : Bytes) (app_id : ℕ)
    → parse_refresh_achievements_arg arg ≡ some (one_app app_id)
    → (all_digits 10 arg ≡ true) × (value 10 0 arg ≡ app_id) × (app_id ≢ 0) × (app_id < 2 ^ 32)
unfolding parse_refresh_achievements_arg
parse_refresh_achievements_arg-one_app arg app_id h =
    elim (Option-cases (parse_strict 10 (2 ^ 32) arg)) [
      | inl e ↦ absurd (ground arith)
      | inr (n, e) ↦
          let (digits, same, small) = parse_strict-digits (2 ^ 32) arg n e in
          let named : n ≡ app_id = ground arith in
          (digits, same ∙ named, λ z. ground arith, ground arith)
    ]
