-- ===== src/Base/Keyed.antt =====
-- Hash maps and hash sets over any type with a lawful equality, in the order of their entries.
use Prim.Native.Nat.{ℕ}
use mathlib.Core.Path.{◌≡◌, refl, sym, ap, subst, ◌∙◌}
use mathlib.Core.Logic.{◌↔◌, inl, inr}
use mathlib.Core.Bool.{Bool, true, false, not, ◌||◌, ◌&&◌}
use mathlib.Core.List.{List, [], ◌∷◌}
use mathlib.Core.Option.{Option, none, some}
use native.Mathlib.Omega.{arith}
use better_steam_tools_ameth.Base.Tests.{◌==◌ as nat_beq, ==_iff, if◌then◌else◌, Bool-cases}
use better_steam_tools_ameth.Base.Text.{Bytes, bytes_eq, bytes_eq→eq, bytes_eq_self}

-- a key of a hash map
pub record Key {ℓ} (K : Type ℓ) : Type ℓ where
  pub same : K → K → Bool
  pub same_iff : (a b : K) → (same a b ≡ true) ↔ (a ≡ b)

pub bytes_eq_iff : (s t : Bytes) → (bytes_eq s t ≡ true) ↔ (s ≡ t)
bytes_eq_iff s t = (bytes_eq→eq s t, λ e. subst (λ u. bytes_eq s u ≡ true) e (bytes_eq_self s))

instance abbrev pub number_key : Key ℕ
number_key = record { same = nat_beq; same_iff = ==_iff }

instance abbrev pub text_key : Key Bytes
text_key = record { same = bytes_eq; same_iff = bytes_eq_iff }

-- whether there is a value
abbrev pub is_some {ℓ} : {V : Type ℓ} → Option V → Bool
is_some none = false
is_some (some v) = true

module _ {ℓ} {K : Type ℓ} ⦃k : Key K⦄ where
  pub same_self : (a : K) → k.same a a ≡ true
  same_self a = (k.same_iff a a).1 refl

  pub same_right : (a b c : K) → k.same b c ≡ true → k.same a b ≡ k.same a c
  same_right a b c e = ap (λ x. k.same a x) ((k.same_iff b c).0 e)

  pub same_apart : (a b c : K) → k.same b c ≡ false → k.same a c ≡ true → k.same a b ≡ false
  same_apart a b c e h = elim (Bool-cases (k.same a b)) [
    | inl h' ↦
        let left = (k.same_iff a b).0 h' in
        let right = (k.same_iff a c).0 h in
        let t = (k.same_iff b c).1 (sym left ∙ right) in absurd (ground arith)
    | inr h' ↦ h'
  ]

  pub same_flip : (a b : K) → k.same a b ≡ k.same b a
  same_flip a b = elim (Bool-cases (k.same a b)) [
    | inl e ↦ e ∙ sym ((k.same_iff b a).1 (sym ((k.same_iff a b).0 e)))
    | inr e ↦ e ∙ sym (same_apart b a b e (same_self b))
  ]

  -- `count(a) != 0` of a set
  unfoldable pub member : K → List K → Bool
  member a [] = false
  member a (x ∷ xs) = k.same a x || member a xs

  -- `insert(a)` of a set
  unfoldable pub insert : K → List K → List K
  insert a xs = if member a xs then xs else a ∷ xs

  -- no member twice
  abbrev pub IsDistinct : List K → Type 0
  IsDistinct [] = Unit
  IsDistinct (x ∷ xs) = (member x xs ≡ false) × IsDistinct xs

  pub member-insert : (a b : K) (xs : List K) → member b (insert a xs) ≡ (k.same b a || member b xs)
  unfolding insert member
  member-insert a b xs = elim (Bool-cases (member a xs)) [
    | inl old ↦ elim (Bool-cases (k.same b a)) [
      | inl e ↦
          let eq = (k.same_iff b a).0 e in
          rw (old, e) (subst (λ c. member c xs ≡ true) (sym eq) old)
      | inr e ↦ rw (old, e) refl
    ]
    | inr new ↦ rw new refl
  ]

  pub insert-IsDistinct : (a : K) (xs : List K) → IsDistinct xs → IsDistinct (insert a xs)
  unfolding insert
  insert-IsDistinct a xs h = elim (Bool-cases (member a xs)) [
    | inl old ↦ rw old h
    | inr new ↦ rw new (new, h)
  ]

  module _ {κ} {V : Type κ} where
    -- `find(a)`
    unfoldable pub get : K → List (K × V) → Option V
    get a [] = none
    get a ((b, v) ∷ m) = if k.same a b then some v else get a m

    -- `contains(a)`
    unfoldable pub has : K → List (K × V) → Bool
    has a [] = false
    has a ((b, v) ∷ m) = k.same a b || has a m

    -- `m[a] = v`
    unfoldable pub put : K → V → List (K × V) → List (K × V)
    put a v [] = (a, v) ∷ []
    put a v ((b, w) ∷ m) = if k.same a b then (b, v) ∷ m else (b, w) ∷ put a v m

    -- `erase(a)`
    unfoldable pub erase : K → List (K × V) → List (K × V)
    erase a [] = []
    erase a ((b, w) ∷ m) = let rest = erase a m in if k.same a b then rest else (b, w) ∷ rest

    unfoldable pub names : List (K × V) → List K
    names [] = []
    names ((b, w) ∷ m) = b ∷ names m

    pub get-put :
        (a b : K) (v : V) (m : List (K × V))
        → get a (put b v m) ≡ (if k.same a b then some v else get a m)
    unfolding get put
    get-put a b v [] = refl
    get-put a b v ((c, w) ∷ m) = elim (Bool-cases (k.same b c)) [
      | inl e ↦ ground (arith, same_right a b c e)
      | inr e ↦ ground (arith, get-put a b v m, same_apart a b c e)
    ]

    pub has-put : (a b : K) (v : V) (m : List (K × V)) → has a (put b v m) ≡ (k.same a b || has a m)
    unfolding has put
    has-put a b v [] = refl
    has-put a b v ((c, w) ∷ m) = elim (Bool-cases (k.same b c)) [
      | inl e ↦ ground (arith, same_right a b c e)
      | inr e ↦ ground (arith, has-put a b v m)
    ]

    pub get-erase :
        (a b : K) (m : List (K × V)) → get a (erase b m) ≡ (if k.same a b then none else get a m)
    unfolding get erase
    get-erase a b [] = ground arith
    get-erase a b ((c, w) ∷ m) = elim (Bool-cases (k.same b c)) [
      | inl e ↦ ground (arith, get-erase a b m, same_right a b c e)
      | inr e ↦ ground (arith, get-erase a b m, same_apart a b c e)
    ]

    pub has-erase : (a b : K) (m : List (K × V)) → has a (erase b m) ≡ (not (k.same a b) && has a m)
    unfolding has erase
    has-erase a b [] = ground arith
    has-erase a b ((c, w) ∷ m) = elim (Bool-cases (k.same b c)) [
      | inl e ↦ ground (arith, has-erase a b m, same_right a b c e)
      | inr e ↦ ground (arith, has-erase a b m, same_apart a b c e)
    ]

    pub has-get : (a : K) (m : List (K × V)) → has a m ≡ is_some (get a m)
    unfolding has get
    has-get a [] = refl
    has-get a ((c, w) ∷ m) = ground (arith, has-get a m)

    -- every key stands in one entry
    abbrev pub IsMap : List (K × V) → Type 0
    IsMap [] = Unit
    IsMap ((b, w) ∷ m) = (has b m ≡ false) × IsMap m

    pub put-IsMap : (a : K) (v : V) (m : List (K × V)) → IsMap m → IsMap (put a v m)
    unfolding put
    put-IsMap a v [] h = (unfold has in refl, tt)
    put-IsMap a v ((c, w) ∷ m) h = elim (Bool-cases (k.same a c)) [
      | inl e ↦ rw e h
      | inr e ↦ rw e (ground (arith, has-put c a v m, same_flip c a), put-IsMap a v m h.1)
    ]

    pub erase-IsMap : (a : K) (m : List (K × V)) → IsMap m → IsMap (erase a m)
    unfolding erase
    erase-IsMap a [] h = tt
    erase-IsMap a ((c, w) ∷ m) h = elim (Bool-cases (k.same a c)) [
      | inl e ↦ rw e (erase-IsMap a m h.1)
      | inr e ↦ rw e (ground (arith, has-erase c a m), erase-IsMap a m h.1)
    ]

    pub erase_absent : (a : K) (m : List (K × V)) → has a m ≡ false → erase a m ≡ m
    unfolding erase has
    erase_absent a [] h = refl
    erase_absent a ((c, w) ∷ m) h = ground (arith, erase_absent a m)

    pub erase-put : (a : K) (v : V) (m : List (K × V)) → erase a (put a v m) ≡ erase a m
    unfolding erase put
    erase-put a v [] = ground (arith, same_self a)
    erase-put a v ((c, w) ∷ m) = ground (arith, erase-put a v m)
