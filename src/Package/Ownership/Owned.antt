-- ===== src/Package/Ownership/Owned.antt =====
-- Which depots the licences give.
use better_steam_tools_ameth.Base.{
  ℕ, ◌≡◌, ◌<◌, refl, ap, Bool, false, not, ◌&&◌, ◌||◌, Option, none, some, List, [], ◌∷◌, arith,
  inl, inr, ◌==◌, ltb, Bool-cases, Option-cases,
}
use better_steam_tools_ameth.Base.Keyed.{number_key, member}
use better_steam_tools_ameth.Package.Ownership.{License, insert_sorted, add_depots, owned_depots}

member-insert_sorted :
    (x id : ℕ) (xs : List ℕ) → member x (insert_sorted id xs) ≡ (x == id || member x xs)
unfolding member insert_sorted
member-insert_sorted x id [] = refl
member-insert_sorted x id (y ∷ ys) = ground (arith, member-insert_sorted x id ys)

member-add_depots :
    (x : ℕ) (ids owned : List ℕ)
    → member x (add_depots ids owned) ≡ ((member x ids && not (x == 0)) || member x owned)
unfolding member add_depots
member-add_depots x [] owned = refl
member-add_depots x (id ∷ ids) owned =
    let rest = member-add_depots x ids owned in
    elim (Bool-cases (not (id == 0))) [
      | inl e ↦
          let all = member-insert_sorted x id (add_depots ids owned) in
          rw e (elim (Bool-cases (x == id)) [
            | inl same ↦
                let eq : x ≡ id = ground arith in let zero = ap (λ y. y == 0) eq in ground arith
            | inr apart ↦ ground arith
          ])
      | inr e ↦ rw e (elim (Bool-cases (x == id)) [
        | inl same ↦
            let eq : x ≡ id = ground arith in let zero = ap (λ y. y == 0) eq in ground arith
        | inr apart ↦ ground arith
      ])
    ]

-- whether a licence resolves to a package with the depot
unfoldable pub licensed : ℕ → (License → Option (List ℕ)) → List License → Bool
licensed x info [] = false
licensed x info (license ∷ licenses) = elim (info license) [
  | none ↦ licensed x info licenses
  | some ids ↦ member x ids || licensed x info licenses
]

-- rising, so that no depot stands twice
unfoldable pub IsAbove : ℕ → List ℕ → Type 0
IsAbove x [] = Unit
IsAbove x (y ∷ ys) = x < y

unfoldable pub IsRising : List ℕ → Type 0
unfolding IsAbove
IsRising [] = Unit
IsRising (x ∷ xs) = IsAbove x xs × IsRising xs

insert_sorted-IsAbove :
    (x id : ℕ) (xs : List ℕ) → x < id → IsAbove x xs → IsAbove x (insert_sorted id xs)
unfolding insert_sorted IsAbove
insert_sorted-IsAbove x id [] l h = l
insert_sorted-IsAbove x id (y ∷ ys) l h = ground arith

insert_sorted-IsRising : (id : ℕ) (xs : List ℕ) → IsRising xs → IsRising (insert_sorted id xs)
unfolding insert_sorted IsRising
insert_sorted-IsRising id [] h = (unfold IsAbove in tt, tt)
insert_sorted-IsRising id (x ∷ xs) h = elim (Bool-cases (ltb id x)) [
  | inl less ↦ rw less (unfold IsAbove in ground arith, h)
  | inr more ↦ elim (Bool-cases (id == x)) [
    | inl same ↦ rw (more, same) h
    | inr apart ↦
        rw (more, apart)
          (insert_sorted-IsAbove x id xs (ground arith) h.0, insert_sorted-IsRising id xs h.1)
  ]
]

add_depots-IsRising : (ids owned : List ℕ) → IsRising owned → IsRising (add_depots ids owned)
unfolding add_depots
add_depots-IsRising [] owned h = h
add_depots-IsRising (id ∷ ids) owned h =
    let rest = add_depots-IsRising ids owned h in
    elim (Bool-cases (not (id == 0))) [
      | inl e ↦ rw e (insert_sorted-IsRising id (add_depots ids owned) rest)
      | inr e ↦ rw e rest
    ]

-- The depots of a list of licences are those other than 0 of the packages that the licences
-- resolve to, in strictly rising order.
pub owned_depots-licensed :
    (info : License → Option (List ℕ)) (licenses : List License)
    → ((x : ℕ) → member x (owned_depots info licenses) ≡ (not (x == 0) && licensed x info licenses))
      × IsRising (owned_depots info licenses)
unfolding owned_depots licensed
owned_depots-licensed info [] = (λ x. unfold member in ground arith, unfold IsRising in tt)
owned_depots-licensed info (license ∷ licenses) =
    let (set, rising) = owned_depots-licensed info licenses in
    elim (Option-cases (info license)) [
      | inl e ↦ rw (e, owned_depots, licensed) (set, rising)
      | inr (ids, e) ↦
          rw (e, owned_depots, licensed)
            (
              λ x.
                  let all = member-add_depots x ids (owned_depots info licenses) in
                  let before = set x in ground arith,
              add_depots-IsRising ids (owned_depots info licenses) rising,
            )
    ]
