-- ===== src/Template/Reference.antt =====
-- `ReplaceAll` reads the text once from left to right: what it writes is not read again.
use better_steam_tools_ameth.Base.{
  ℕ, zero, suc, ◌+◌, ◌-◌, ◌<◌, ◌≡◌, refl, none, some, [], ◌∷◌, ◌++◌, arith, inl, inr, if◌then◌else◌,
  Option-cases, length, take, drop, append_assoc, length-append, length-drop, length-take,
  take-append-add, drop-append-add,
}
use better_steam_tools_ameth.Base.Text.{Bytes, starts_with, find, find-le}
use better_steam_tools_ameth.Base.Find.{find_from-append}
use better_steam_tools_ameth.Template.{replace, replace_from, replace_all}

-- the reference: one pass, with the number of bytes of a match that are still to be passed over
unfoldable pub one_pass : Bytes → Bytes → ℕ → Bytes → Bytes
one_pass from to skip [] = []
one_pass from to (suc skip) (c ∷ cs) = one_pass from to skip cs
one_pass from to zero (c ∷ cs) =
    if starts_with from (c ∷ cs)
    then to ++ one_pass from to (length from - 1) cs
    else c ∷ one_pass from to 0 cs

pub one_pass-skip :
    (from to : Bytes) (n : ℕ) (text : Bytes)
    → one_pass from to n text ≡ one_pass from to 0 (drop n text)
unfolding one_pass
one_pass-skip from to zero text = refl
one_pass-skip from to (suc n) [] = refl
one_pass-skip from to (suc n) (c ∷ cs) = one_pass-skip from to n cs

one_pass-none :
    (p : ℕ) (from to text : Bytes)
    → find (p ∷ from) text ≡ none
    → one_pass (p ∷ from) to 0 text ≡ text
unfolding one_pass find
one_pass-none p from to [] h = refl
one_pass-none p from to (c ∷ cs) h = ground (arith, one_pass-none p from to cs)

one_pass-some :
    (p : ℕ) (from to text : Bytes) (k : ℕ)
    → find (p ∷ from) text ≡ some k
    → one_pass (p ∷ from) to 0 text
      ≡ take k text ++ (to ++ one_pass (p ∷ from) to 0 (drop (k + suc (length from)) text))
unfolding one_pass find
one_pass-some p from to [] k h = unfold starts_with in ground arith
one_pass-some p from to (c ∷ cs) zero h =
    let e : 0 + suc (length from) ≡ suc (length from) = omega arith in
    let e' : suc (length from) - 1 ≡ length from = omega arith in
    rw e (ground (arith, one_pass-skip (p ∷ from) to (length from) cs))
one_pass-some p from to (c ∷ cs) (suc k) h =
    let e : suc k + suc (length from) ≡ suc (k + suc (length from)) = omega arith in
    rw e (ground (arith, one_pass-some p from to cs k))

-- one round, on the part of the text that is still to be read
replace-append :
    (done rest to : Bytes) (k n : ℕ)
    → replace (done ++ rest) (length done + k) n to
      ≡ (done ++ (take k rest ++ to)) ++ drop (k + n) rest
unfolding replace
replace-append done rest to k n =
    let e : length done + k + n ≡ length done + (k + n) = omega arith in
    rw (take-append-add k done rest, e, drop-append-add (k + n) done rest) (simp append_assoc)

replace_from-one_pass :
    (fuel p : ℕ) (from to done rest : Bytes)
    → length rest < fuel
    → replace_from fuel (p ∷ from) to (done ++ rest) (length done)
      ≡ done ++ one_pass (p ∷ from) to 0 rest
unfolding replace_from
replace_from-one_pass zero p from to done rest h = elim h [ ]
replace_from-one_pass (suc fuel) p from to done rest h =
    elim (Option-cases (find (p ∷ from) rest)) [
      | inl e ↦
          rw (find_from-append (p ∷ from) done rest, e, replace_from)
            (rw (one_pass-none p from to rest e))
      | inr (k, e) ↦
          let fits = find-le (p ∷ from) rest k e in
          let done' = done ++ (take k rest ++ to) in
          let rest' = drop (k + suc (length from)) rest in
          let size : length done + k + length to ≡ length done' = omega (
            arith,
            length-append done (take k rest ++ to),
            length-append (take k rest) to,
            length-take k rest,
          ) in
          let loop =
            replace_from-one_pass fuel p from to done' rest'
              (omega (arith, length-drop (k + suc (length from)) rest)) in
          rw (find_from-append (p ∷ from) done rest, e, replace_from)
            (rw
              (
                replace-append done rest to k (suc (length from)),
                size,
                loop,
                one_pass-some p from to rest k e,
              )
              (simp append_assoc))
    ]

-- For every placeholder that is not empty, `ReplaceAll` ends and is the single pass from left to
-- right: every occurrence that does not overlap an earlier one is replaced, and the text that was
-- put in is not searched.
pub replace_all-one_pass :
    (text from to : Bytes) → 0 < length from → replace_all text from to ≡ one_pass from to 0 text
replace_all-one_pass text [] to h = elim h [ ]
replace_all-one_pass text (p ∷ from) to h =
    unfold replace_all in replace_from-one_pass (suc (length text)) p from to [] text (omega arith)
