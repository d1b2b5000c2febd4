-- ===== src/Package/Notify.antt =====
-- A notification brings the vector in step with the configuration.
use better_steam_tools_ameth.Base.{
  ℕ, ◌≤◌, ◌≡◌, ◌⊎◌, refl, ap, ◌∙◌, Bool, true, false, not, ◌&&◌, List, [], ◌∷◌, ◌++◌, arith, inl,
  inr, ◌==◌, if◌then◌else◌, length, Bool-cases,
}
use better_steam_tools_ameth.Base.Assoc.{contains}
use better_steam_tools_ameth.Base.Keyed.{number_key, member}
use better_steam_tools_ameth.LuaConfig.Count.{one_if}
use better_steam_tools_ameth.LuaConfig.Consistent.{queued}
use better_steam_tools_ameth.Reconcile.{touched, plan_for, reconcile}
use better_steam_tools_ameth.Reconcile.Exact.{reconcile-contains}
use better_steam_tools_ameth.Package.{
  Client, has_depot, remove_all, notify_license_changed, plan_of, grown, is_none_queued,
}
use better_steam_tools_ameth.Package.Vector.{
  copies, copies-append, member-copies, remove_all-copies,
}

contains-member : (x : ℕ) (xs : List ℕ) → contains x xs ≡ member x xs
unfolding contains member
contains-member x [] = refl
contains-member x (y ∷ xs) = ground (arith, contains-member x xs)

copies-touched : (x : ℕ) (ids : List ℕ) → copies x (touched ids) ≡ one_if (contains x ids)
unfolding copies touched contains
copies-touched x [] = refl
copies-touched x (y ∷ ids) = elim (Bool-cases (x == y)) [
  | inl e ↦
      let same : x ≡ y = ground arith in
      let there = ap (λ z. contains z (touched ids)) same in
      let listed = contains-member x (touched ids) in
      let counted = member-copies x (touched ids) in let rest = copies-touched x ids in ground arith
  | inr e ↦ let rest = copies-touched x ids in ground arith
]

module _ (wanted present : ℕ → Bool) where
  plan_for-copies :
      (x : ℕ) (ids : List ℕ)
      → copies x (plan_for wanted present ids).additions
        ≡ (if wanted x && not (present x) then copies x ids else 0)
  unfolding copies plan_for
  plan_for-copies x [] = ground arith
  plan_for-copies x (y ∷ ids) = elim (Bool-cases (x == y)) [
    | inl e ↦
        let same : x ≡ y = ground arith in
        let w = ap wanted same in
        let p = ap present same in let rest = plan_for-copies x ids in ground arith
    | inr e ↦ let rest = plan_for-copies x ids in ground arith
  ]

  -- an id is added at most once
  reconcile-copies :
      (queued_removals queued_additions : List ℕ) (x : ℕ)
      → copies x (reconcile queued_removals queued_additions wanted present).additions
        ≡ one_if (contains x (reconcile queued_removals queued_additions wanted present).additions)
  unfolding reconcile
  reconcile-copies queued_removals queued_additions x =
      let all = plan_for-copies x (touched (queued_removals ++ queued_additions)) in
      let once = copies-touched x (queued_removals ++ queued_additions) in
      let plan = reconcile queued_removals queued_additions wanted present in
      let listed = contains-member x plan.additions in
      let counted = member-copies x plan.additions in ground arith

none_queued-member : (x : ℕ) (xs : List ℕ) → is_none_queued xs ≡ true → member x xs ≡ false
unfolding member
none_queued-member x [] h = refl
none_queued-member x (y ∷ ys) h = absurd (ground arith)

-- at the id, what the vector holds is what is configured, or a change of it is queued
pub record IsSynced (x : ℕ) (c : Client) : Type 0 where
  pub once : copies x c.app_ids ≤ 1
  pub told : (member x c.app_ids ≡ has_depot x false c.config) ⊎ (queued x c.config.depots ≡ true)

module _ (grow : List ℕ → ℕ → Bool) (mark : Bool)
    (room : (v : List ℕ) (n : ℕ) → grow v n ≡ true) where
  grown_all : (vector additions : List ℕ) → grown grow vector additions ≡ additions
  unfolding grown
  grown_all vector [] = refl
  grown_all vector (id ∷ ids) = rw (room vector (length (id ∷ ids))) refl

  -- a notification with something queued
  notify_vector :
      (c : Client)
      → c.is_injected ≡ true
      → (is_none_queued c.config.depots.pending_removals
          && is_none_queued c.config.depots.pending_additions)
        ≡ false
      → (notify_license_changed grow mark c).0.app_ids
        ≡ remove_all (plan_of c).removals c.app_ids ++ (plan_of c).additions
  unfolding notify_license_changed
  notify_vector c ready busy =
      let all = grown_all (remove_all (plan_of c).removals c.app_ids) (plan_of c).additions in
      rw (ready, busy, all) refl

  notify_quiet :
      (c : Client)
      → c.is_injected ≡ true
      → (is_none_queued c.config.depots.pending_removals
          && is_none_queued c.config.depots.pending_additions)
        ≡ true
      → (notify_license_changed grow mark c).0 ≡ c
  unfolding notify_license_changed
  notify_quiet c ready quiet = rw (ready, quiet) refl

  planned :
      (x : ℕ) (c : Client)
      → copies x c.app_ids ≤ 1
      → copies x (remove_all (plan_of c).removals c.app_ids ++ (plan_of c).additions) ≡ (
          if queued x c.config.depots
          then one_if (has_depot x false c.config)
          else copies x c.app_ids)
  unfolding plan_of
  planned x c once =
      let plan = plan_of c in
      let d = c.config.depots in
      let wanted : ℕ → Bool = λ id. has_depot id false c.config in
      let present : ℕ → Bool = λ id. member id c.app_ids in
      let (added, gone) =
        reconcile-contains wanted present d.pending_removals d.pending_additions x in
      let one = reconcile-copies wanted present d.pending_removals d.pending_additions x in
      let vector = remove_all-copies x plan.removals c.app_ids once in
      let both = copies-append x (remove_all plan.removals c.app_ids) plan.additions in
      let listed = contains-member x plan.removals in
      let removals = contains-member x d.pending_removals in
      let additions = contains-member x d.pending_additions in
      let here = member-copies x c.app_ids in ground arith

  pub notify_license_changed_exact :
      (x : ℕ) (c : Client)
      → c.is_injected ≡ true
      → IsSynced x c
      → copies x (notify_license_changed grow mark c).0.app_ids
        ≡ one_if (has_depot x false c.config)
  notify_license_changed_exact x c ready s =
      let d = c.config.depots in
      let here = member-copies x c.app_ids in
      let once = s.once in
      elim (Bool-cases (is_none_queued d.pending_removals && is_none_queued d.pending_additions)) [
        | inl quiet ↦
            let still = notify_quiet c ready quiet in
            let none_gone = none_queued-member x d.pending_removals in
            let none_new = none_queued-member x d.pending_additions in
            let same = ap (λ k. copies x k.app_ids) still in
            elim s.told [ inl told ↦ ground arith | inr waits ↦ absurd (ground arith) ]
        | inr busy ↦
            let vector = ap (copies x) (notify_vector c ready busy) ∙ planned x c s.once in
            elim s.told [ inl same ↦ ground arith | inr waits ↦ ground arith ]
      ]
