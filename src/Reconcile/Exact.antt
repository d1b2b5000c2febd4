-- ===== src/Reconcile/Exact.antt =====
-- The plan holds exactly the queued ids whose presence is not what the configuration wants.
use better_steam_tools_ameth.Base.{
  ℕ, ◌≡◌, refl, sym, ap, ◌∙◌, subst, Bool, true, not, ◌&&◌, ◌||◌, List, [], ◌∷◌, ◌++◌, arith, inl,
  inr, ◌==◌, Bool-cases,
}
use better_steam_tools_ameth.Base.Assoc.{contains}
use better_steam_tools_ameth.Reconcile.{touched, plan_for, reconcile}

contains-touched : (id : ℕ) (ids : List ℕ) → contains id (touched ids) ≡ contains id ids
unfolding contains touched
contains-touched id [] = refl
contains-touched id (x ∷ ids) = elim (Bool-cases (contains x (touched ids))) [
  | inl e ↦ elim (Bool-cases (id == x)) [
    | inl same ↦
        let eq : id ≡ x = ground arith in
        let seen = subst (λ n. contains n (touched ids) ≡ true) (sym eq) e in
        ground (arith, contains-touched id ids)
    | inr other ↦ ground (arith, contains-touched id ids)
  ]
  | inr e ↦ ground (arith, contains-touched id ids)
]

contains-append :
    (id : ℕ) (xs ys : List ℕ) → contains id (xs ++ ys) ≡ (contains id xs || contains id ys)
unfolding contains
contains-append id [] ys = refl
contains-append id (x ∷ xs) ys = ground (arith, contains-append id xs ys)

module _ (wanted present : ℕ → Bool) where
  plan_for-contains :
      (id : ℕ) (ids : List ℕ)
      → (contains id (plan_for wanted present ids).additions
          ≡ (contains id ids && wanted id && not (present id)))
        × (contains id (plan_for wanted present ids).removals
            ≡ (contains id ids && not (wanted id) && present id))
  unfolding contains plan_for
  plan_for-contains id [] = (refl, refl)
  plan_for-contains id (x ∷ ids) = elim (Bool-cases (id == x)) [
    | inl same ↦
        let eq : id ≡ x = ground arith in
        let (added, removed) = plan_for-contains id ids in
        let w = ap wanted eq in let p = ap present eq in (ground arith, ground arith)
    | inr other ↦ let (added, removed) = plan_for-contains id ids in (ground arith, ground arith)
  ]

  -- An id is added exactly if one of the queues names it, the configuration wants it and the vector
  -- does not hold it, and removed exactly if one of the queues names it, the configuration does not
  -- want it and the vector holds it.
  pub reconcile-contains :
      (queued_removals queued_additions : List ℕ) (id : ℕ)
      → (contains id (reconcile queued_removals queued_additions wanted present).additions ≡ (
          (contains id queued_removals || contains id queued_additions)
          && wanted id
          && not (present id)))
        × (contains id (reconcile queued_removals queued_additions wanted present).removals ≡ (
            (contains id queued_removals || contains id queued_additions)
            && not (wanted id)
            && present id))
  unfolding reconcile
  reconcile-contains queued_removals queued_additions id =
      let ids = queued_removals ++ queued_additions in
      let both = contains-touched id ids ∙ contains-append id queued_removals queued_additions in
      let (added, removed) = plan_for-contains id (touched ids) in
      (
        added ∙ ap (λ b. b && wanted id && not (present id)) both,
        removed ∙ ap (λ b. b && not (wanted id) && present id) both,
      )
