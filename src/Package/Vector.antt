-- ===== src/Package/Vector.antt =====
-- Removal by the last element takes one copy of an id away.
use better_steam_tools_ameth.Base.{
  ℕ, ◌+◌, ◌≤◌, ◌≡◌, refl, sym, ap, subst, true, false, not, ◌&&◌, List, [], ◌∷◌, ◌++◌, arith, inl,
  inr, ◌==◌, if◌then◌else◌, Bool-cases,
}
use better_steam_tools_ameth.Base.Keyed.{number_key, member, names, has, IsMap}
use better_steam_tools_ameth.LuaConfig.Count.{one_if}
use better_steam_tools_ameth.Package.{
  last_of, before_last, fast_remove, find_and_fast_remove, remove_all,
}

-- how often an id stands in the vector
unfoldable pub copies : ℕ → List ℕ → ℕ
copies x [] = 0
copies x (y ∷ ys) = one_if (x == y) + copies x ys

pub copies-append : (x : ℕ) (xs ys : List ℕ) → copies x (xs ++ ys) ≡ copies x xs + copies x ys
unfolding copies
copies-append x [] ys = omega arith
copies-append x (y ∷ xs) ys = omega (arith, copies-append x xs ys)

pub member-copies : (x : ℕ) (xs : List ℕ) → member x xs ≡ not (copies x xs == 0)
unfolding member copies
member-copies x [] = refl
member-copies x (y ∷ xs) = ground (arith, member-copies x xs)

copies_last :
    (x y : ℕ) (ys : List ℕ)
    → one_if (x == last_of y ys) + copies x (before_last y ys) ≡ copies x (y ∷ ys)
unfolding copies last_of before_last
copies_last x y [] = refl
copies_last x y (z ∷ ys) = omega (arith, copies_last x z ys)

fast_remove-copies :
    (x y : ℕ) (ys : List ℕ) → copies x (fast_remove (y ∷ ys)) + one_if (x == y) ≡ copies x (y ∷ ys)
unfolding copies fast_remove
fast_remove-copies x y [] = omega arith
fast_remove-copies x y (z ∷ ys) = omega (arith, copies_last x z ys)

find_and_fast_remove-copies :
    (x id : ℕ) (vector : List ℕ)
    → copies x (find_and_fast_remove id vector) + one_if (x == id && member id vector)
      ≡ copies x vector
unfolding copies find_and_fast_remove member
find_and_fast_remove-copies x id [] = ground arith
find_and_fast_remove-copies x id (y ∷ vector) = elim (Bool-cases (y == id)) [
  | inl e ↦
      let same : y ≡ id = ground arith in
      let here : id == y ≡ true = ground arith in
      let xs = ap (λ i. x == i) same in
      let gone = fast_remove-copies x y vector in rw (e, here) (ground arith)
  | inr e ↦
      let apart : id == y ≡ false = ground arith in
      let rest = find_and_fast_remove-copies x id vector in rw (e, apart) (ground arith)
]

-- each id of a list is taken away once
pub remove_all-copies :
    (x : ℕ) (ids vector : List ℕ)
    → copies x vector ≤ 1
    → copies x (remove_all ids vector) ≡ (if member x ids then 0 else copies x vector)
unfolding remove_all member
remove_all-copies x [] vector h = refl
remove_all-copies x (id ∷ ids) vector h =
    let one = find_and_fast_remove-copies x id vector in
    let there = member-copies x vector in
    let rest = remove_all-copies x ids (find_and_fast_remove id vector) in
    elim (Bool-cases (x == id)) [
      | inl e ↦
          let same : x ≡ id = ground arith in
          let m = ap (λ y. member y vector) same in
          let small : copies x (find_and_fast_remove id vector) ≤ 1 = ground arith in
          let rest' = rest small in ground arith
      | inr e ↦
          let small : copies x (find_and_fast_remove id vector) ≤ 1 = ground arith in
          let rest' = rest small in ground arith
    ]

-- the keys of a map stand in its list once each
pub copies-names :
    {V : Type 0} (x : ℕ) (m : List (ℕ × V)) → IsMap m → copies x (names m) ≡ one_if (has x m)
unfolding copies names has
copies-names x [] h = refl
copies-names x ((y, v) ∷ m) h = elim (Bool-cases (x == y)) [
  | inl e ↦
      let same : x ≡ y = ground arith in
      let gone = subst (λ z. has z m ≡ false) (sym same) h.0 in
      let rest = copies-names x m h.1 in ground arith
  | inr e ↦ let rest = copies-names x m h.1 in ground arith
]
