-- ===== src/Presence/Rounds.antt =====
-- The loop of `ExtractStringKVs` ends: every round takes a byte away.
use better_steam_tools_ameth.Base.{
  ℕ, zero, suc, ◌+◌, ◌-◌, ◌≤◌, ◌<◌, ◌≡◌, refl, some, [], ◌∷◌, arith, inl, inr, length, Option-cases,
}
use better_steam_tools_ameth.Base.Text.{Bytes}
use better_steam_tools_ameth.Presence.{read_cstr, extract_from, extract_string_kvs}

read_cstr-short :
    (bytes : Bytes) {s rest : Bytes} → read_cstr bytes ≡ some (s, rest) → length rest < length bytes
unfolding read_cstr
read_cstr-short [] h = cc
read_cstr-short (c ∷ cs) {s} {rest} h = elim (Option-cases (read_cstr cs)) [
  | inl e ↦ ground arith
  | inr ((s', rest'), e) ↦ let l = read_cstr-short cs e in ground arith
]

extract_from_enough :
    (fuel fuel' : ℕ) (bytes : Bytes) (depth : ℕ)
    → length bytes ≤ fuel
    → length bytes ≤ fuel'
    → extract_from fuel bytes depth ≡ extract_from fuel' bytes depth
unfolding extract_from
extract_from_enough zero zero [] depth l l' = refl
extract_from_enough zero (suc fuel') [] depth l l' = refl
extract_from_enough (suc fuel) zero [] depth l l' = refl
extract_from_enough (suc fuel) (suc fuel') [] depth l l' = refl
extract_from_enough zero fuel' (c ∷ bytes) depth l l' = absurd (omega arith)
extract_from_enough (suc fuel) zero (c ∷ bytes) depth l l' = absurd (omega arith)
extract_from_enough (suc fuel) (suc fuel') (c ∷ bytes) depth l l' =
    elim (Option-cases (read_cstr bytes)) [
      | inl e ↦
          ground
            (arith, extract_from_enough fuel fuel' bytes (depth - 1) (omega arith) (omega arith))
      | inr ((s, rest), e) ↦
          let shorter = read_cstr-short bytes e in
          elim (Option-cases (read_cstr rest)) [
            | inl e' ↦ ground (
              arith,
              extract_from_enough fuel fuel' bytes (depth - 1) (omega arith) (omega arith),
              extract_from_enough fuel fuel' rest (depth + 1) (omega arith) (omega arith),
            )
            | inr ((s', rest'), e') ↦
                let shorter' = read_cstr-short rest e' in
                ground (
                  arith,
                  extract_from_enough fuel fuel' bytes (depth - 1) (omega arith) (omega arith),
                  extract_from_enough fuel fuel' rest (depth + 1) (omega arith) (omega arith),
                  extract_from_enough fuel fuel' rest' depth (omega arith) (omega arith),
                )
          ]
    ]

-- The loop ends within as many rounds as there are bytes: any larger number gives the same list.
pub extract_string_kvs_enough :
    (fuel : ℕ) (bytes : Bytes)
    → length bytes ≤ fuel
    → extract_from fuel bytes 0 ≡ extract_string_kvs bytes
unfolding extract_string_kvs
extract_string_kvs_enough fuel bytes l =
    extract_from_enough fuel (length bytes) bytes 0 l (omega arith)
