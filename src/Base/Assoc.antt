-- ===== src/Base/Assoc.antt =====
-- Hash maps as association lists, and hash sets as lists of their members.
use Prim.Native.Nat.{ℕ}
use mathlib.Core.Path.{◌≡◌, refl, sym, subst, subst₂}
use mathlib.Core.Logic.{◌≢◌, inl, inr}
use mathlib.Core.Bool.{Bool, true, false, ◌||◌}
use mathlib.Core.List.{List, [], ◌∷◌}
use mathlib.Core.Option.{Option, none, some}
use native.Mathlib.Omega.{arith}
use better_steam_tools_ameth.Base.Tests.{◌==◌, if◌then◌else◌, Bool-cases}

-- `count(key) != 0`
unfoldable pub contains : ℕ → List ℕ → Bool
contains key [] = false
contains key (x ∷ xs) = key == x || contains key xs

module _ {ℓ} {V : Type ℓ} where
  -- `find(key)`
  unfoldable pub lookup : ℕ → List (ℕ × V) → Option V
  lookup key [] = none
  lookup key ((k, v) ∷ m) = if key == k then some v else lookup key m

  -- the keys, as the loop over the entries meets them
  unfoldable pub keys : List (ℕ × V) → List ℕ
  keys [] = []
  keys ((k, v) ∷ m) = k ∷ keys m

  -- no key stands in two entries
  abbrev pub IsMap : List (ℕ × V) → Type 0
  IsMap [] = Unit
  IsMap ((k, v) ∷ m) = (contains k (keys m) ≡ false) × IsMap m

  contains-keys_of_lookup :
      (key : ℕ) (m : List (ℕ × V)) (v : V) → lookup key m ≡ some v → contains key (keys m) ≡ true
  unfolding contains lookup keys
  contains-keys_of_lookup key [] v h = cc
  contains-keys_of_lookup key ((k, w) ∷ m) v h = ground (arith, contains-keys_of_lookup key m v)

  pub lookup_of_contains-keys :
      (key : ℕ) (m : List (ℕ × V))
      → contains key (keys m) ≡ true
      → (v : V) × (lookup key m ≡ some v)
  unfolding contains lookup keys
  lookup_of_contains-keys key [] h = cc
  lookup_of_contains-keys key ((k, w) ∷ m) h = elim (Bool-cases (key == k)) [
    | inl e ↦ (w, rw e refl)
    | inr e ↦ rw e (lookup_of_contains-keys key m (rw e at h))
  ]

  -- a property of every entry, by the loop over the entries, and by key
  abbrev pub AllEntries {κ} : (ℕ → V → Type κ) → List (ℕ × V) → Type κ
  AllEntries P [] = Unit
  AllEntries P ((k, v) ∷ m) = P k v × AllEntries P m

  pub AllEntries-lookup {κ} :
      (P : ℕ → V → Type κ) (m : List (ℕ × V)) {key : ℕ} {v : V}
      → AllEntries P m
      → lookup key m ≡ some v
      → P key v
  unfolding lookup
  AllEntries-lookup P [] a h = absurd (unfold lookup in cc)
  AllEntries-lookup P ((k, w) ∷ m) {key} {v} a h = elim (Bool-cases (key == k)) [
    | inl e ↦
        let same_key : key ≡ k = ground arith in
        let same_value : w ≡ v = ground arith in subst₂ P (sym same_key) same_value a.0
    | inr e ↦ AllEntries-lookup P m a.1 (rw e at h)
  ]

  not-lookup_of_fresh :
      (key : ℕ) (m : List (ℕ × V)) (v : V) → contains key (keys m) ≡ false → lookup key m ≢ some v
  not-lookup_of_fresh key m v h e = let c = contains-keys_of_lookup key m v e in cc

  pub AllEntries-of_lookup {κ} :
      (P : ℕ → V → Type κ) (m : List (ℕ × V))
      → IsMap m
      → ((key : ℕ) (v : V) → lookup key m ≡ some v → P key v)
      → AllEntries P m
  AllEntries-of_lookup P [] h all = tt
  AllEntries-of_lookup P ((k, w) ∷ m) h all = (
    all k w (unfold lookup in ground arith),
    AllEntries-of_lookup P m h.1 (λ key v e. all key v (elim (Bool-cases (key == k)) [
      | inl same ↦
          let eq : key ≡ k = ground arith in
          absurd (not-lookup_of_fresh k m v h.0 (subst (λ n. lookup n m ≡ some v) eq e))
      | inr other ↦ unfold lookup in rw other e
    ])),
  )
