-- ===== src/Patterns/Scan.antt =====
-- The scan of a module finds the first place that matches, place by place.
use better_steam_tools_ameth.Base.{
  ℕ, zero, suc, ◌+◌, ◌-◌, ◌≤◌, ◌<◌, ◌≡◌, ◌⊎◌, refl, length-drop, get_or-drop, true, false, Option,
  none, some, [], ◌∷◌, arith, inl, inr, ◌==◌, ltb, Bool-cases, length, drop, get_or,
}
use better_steam_tools_ameth.Base.Text.{Bytes}
use better_steam_tools_ameth.Patterns.{Sig, sig_matches, scan_from, scan_module}

-- a place of the signature is a wildcard, or the byte that stands there
abbrev Accepts : Option ℕ → ℕ → Type 0
Accepts place c = (place ≡ none) ⊎ (place ≡ some c)

-- the signature lies in the image at `k`, and each of its places accepts its byte
pub record MatchesAt (sig : Sig) (image : Bytes) (k : ℕ) : Type 0 where
  pub fits : k + length sig ≤ length image
  pub agrees : (i : ℕ) → i < length sig → Accepts (get_or sig i none) (get_or image (k + i) 0)

-- the result is the first match, or there is none
abbrev pub IsFirstIn : Sig → Bytes → Option ℕ → Type 0
IsFirstIn sig image none = (j : ℕ) → ¬ MatchesAt sig image j
IsFirstIn sig image (some k) = MatchesAt sig image k × ((j : ℕ) → j < k → ¬ MatchesAt sig image j)

sig_matches-le :
    (sig : Sig) (bytes : Bytes) → sig_matches sig bytes ≡ true → length sig ≤ length bytes
unfolding sig_matches
sig_matches-le [] bytes h = omega arith
sig_matches-le (place ∷ sig) [] h = cc
sig_matches-le (none ∷ sig) (b ∷ bytes) h = omega (arith, sig_matches-le sig bytes h)
sig_matches-le (some c ∷ sig) (b ∷ bytes) h = ground (arith, sig_matches-le sig bytes)

sig_matches_sound :
    (sig : Sig) (bytes : Bytes)
    → sig_matches sig bytes ≡ true
    → (i : ℕ) → i < length sig
    → Accepts (get_or sig i none) (get_or bytes i 0)
unfolding sig_matches
sig_matches_sound [] bytes h i lt = elim lt [ ]
sig_matches_sound (place ∷ sig) [] h i lt = cc
sig_matches_sound (none ∷ sig) (b ∷ bytes) h zero lt = inl refl
sig_matches_sound (none ∷ sig) (b ∷ bytes) h (suc i) lt =
    sig_matches_sound sig bytes h i (omega arith)
sig_matches_sound (some c ∷ sig) (b ∷ bytes) h zero lt = inr (ground arith)
sig_matches_sound (some c ∷ sig) (b ∷ bytes) h (suc i) lt =
    sig_matches_sound sig bytes (ground arith) i (omega arith)

sig_matches_complete :
    (sig : Sig) (bytes : Bytes)
    → length sig ≤ length bytes
    → ((i : ℕ) → i < length sig → Accepts (get_or sig i none) (get_or bytes i 0))
    → sig_matches sig bytes ≡ true
unfolding sig_matches
sig_matches_complete [] bytes le a = refl
sig_matches_complete (place ∷ sig) [] le a = absurd (omega arith)
sig_matches_complete (none ∷ sig) (b ∷ bytes) le a =
    sig_matches_complete sig bytes (omega arith) (λ i lt. a (suc i) (omega arith))
sig_matches_complete (some c ∷ sig) (b ∷ bytes) le a =
    let rest = sig_matches_complete sig bytes (omega arith) (λ i lt. a (suc i) (omega arith)) in
    elim (a 0 (omega arith)) [ inl e ↦ cc | inr e ↦ ground arith ]

module _ (sig : Sig) (image : Bytes) where
  matched :
      (k : ℕ) → k ≤ length image → sig_matches sig (drop k image) ≡ true → MatchesAt sig image k
  matched k le h = record {
    fits = omega (arith, sig_matches-le sig (drop k image) h, length-drop k image);
    agrees = λ i lt. rw (get_or-drop k i image 0) at (sig_matches_sound sig (drop k image) h i lt);
  }

  unmatched : (k : ℕ) → sig_matches sig (drop k image) ≡ false → ¬ MatchesAt sig image k
  unmatched k miss m =
      let fits = m.fits in
      let hit =
        sig_matches_complete sig (drop k image) (omega (arith, length-drop k image))
          (λ i lt. rw (get_or-drop k i image 0) (m.agrees i lt)) in
      cc

  -- nothing matches before `i`
  NoneBefore : ℕ → Type 0
  NoneBefore i = (j : ℕ) → j < i → ¬ MatchesAt sig image j

  NoneBefore-next :
      (i : ℕ) → NoneBefore i → sig_matches sig (drop i image) ≡ false → NoneBefore (i + 1)
  unfolding NoneBefore
  NoneBefore-next i before miss j lt m = elim (Bool-cases (j == i)) [
    | inl e ↦ let same : j ≡ i = ground arith in unmatched i miss (rw same at m)
    | inr apart ↦ before j (ground arith) m
  ]

  scan_from-IsFirstIn :
      (rounds i : ℕ)
      → i + rounds ≡ length image - length sig + 1
      → length sig ≤ length image
      → NoneBefore i
      → IsFirstIn sig image (scan_from rounds sig image i)
  unfolding scan_from NoneBefore
  scan_from-IsFirstIn zero i total fits before =
      λ j m. let inside = m.fits in before j (omega arith) m
  scan_from-IsFirstIn (suc rounds) i total fits before =
      elim (Bool-cases (sig_matches sig (drop i image))) [
        | inl hit ↦ rw hit (matched i (omega arith) hit, before)
        | inr miss ↦
            rw miss (
              scan_from-IsFirstIn rounds (i + 1) (omega arith) fits (NoneBefore-next i before miss))
      ]

  -- Whatever the signature and the image: the scan of a module returns the first place at which the
  -- signature lies whole in the image with every place of it that is no wildcard equal to its byte,
  -- and nothing if there is no such place.
  pub scan_module-IsFirstIn : IsFirstIn sig image (scan_module sig image)
  unfolding NoneBefore
  scan_module-IsFirstIn = elim (Bool-cases (ltb (length image) (length sig))) [
    | inl short ↦
        unfold scan_module in rw short (λ j m. let inside = m.fits in absurd (ground arith))
    | inr fits ↦
        unfold scan_module in
        rw fits (
          scan_from-IsFirstIn (suc (length image - length sig)) 0 (omega arith) (ground arith)
            (λ j lt. elim lt [ ]))
  ]
