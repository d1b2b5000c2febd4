-- ===== src/Manifests/Flight/Guarded.antt =====
-- The guard of the fetches: one thread at a time for each manifest.
use better_steam_tools_ameth.Base.{
  ℕ, ◌≡◌, ◌≢◌, sym, ap, ◌∙◌, refl, true, false, not, arith, inl, inr, if◌then◌else◌, Bool-cases,
}
use better_steam_tools_ameth.Base.Text.{Bytes, bytes_eq, bytes_eq→eq}
use better_steam_tools_ameth.Manifests.{
  FetchResult, update, exists, Disk, Cache, Call, key_of, dest_of, heed, take_slot, release, settle,
}
use better_steam_tools_ameth.Manifests.Flight.{
  outside, absent, due, holding, fetching, leaving, World, at, Step, enters, heeds, takes,
  looks_again, settles, releases, Reachable, here, after,
}
use better_steam_tools_ameth.Manifests.Flight.Scope.{
  is_inside, IsGuarded, stays, enters_scope, leaves_scope,
}

heed-in_flight :
    (call : Call) (now : ℕ) (cache : Cache) (key : Bytes)
    → (heed call now cache).0.in_flight key ≡ cache.in_flight key
unfolding heed
heed-in_flight call now cache key = ground arith

settle-in_flight :
    (call : Call) (disk : Disk) (now : ℕ) (answer : FetchResult) (cache : Cache) (key : Bytes)
    → (settle call disk now answer cache).0.in_flight key ≡ cache.in_flight key
unfolding settle
settle-in_flight call disk now answer cache key = ground arith

-- a slot is acquired if it was free, and only this slot changes
take_slot_effect :
    (taken key : Bytes) (cache : Cache)
    → ((take_slot taken cache).1 ≡ not (cache.in_flight taken))
      × ((take_slot taken cache).0.in_flight key
          ≡ (if bytes_eq key taken then true else cache.in_flight key))
unfolding take_slot update
take_slot_effect taken key cache = elim (Bool-cases (bytes_eq key taken)) [
  | inl e ↦ let same = ap cache.in_flight (bytes_eq→eq key taken e) in (ground arith, ground arith)
  | inr apart ↦ (ground arith, ground arith)
]

release-in_flight :
    (freed key : Bytes) (cache : Cache)
    → (release freed cache).in_flight key
      ≡ (if bytes_eq key freed then false else cache.in_flight key)
unfolding release update
release-in_flight freed key cache = refl

module _ (key : Bytes) (v : World) (g : IsGuarded key v) (thread : ℕ) (call : Call) where
  takes-IsGuarded :
      v.phase thread ≡ due call
      → IsGuarded key (record {
        cache = (take_slot (key_of call) v.cache).0;
        phase =
            at v.phase thread
              (if (take_slot (key_of call) v.cache).1 then holding call else outside);
      })
  takes-IsGuarded phase =
      let (acquired, flight) = take_slot_effect (key_of call) key v.cache in
      let was = ap (is_inside key) phase in
      let new = if (take_slot (key_of call) v.cache).1 then holding call else outside in
      let inside : is_inside key new
          ≡ (if not (v.cache.in_flight (key_of call)) then bytes_eq key (key_of call) else false) =
        elim (Bool-cases (v.cache.in_flight (key_of call))) [
          | inl busy ↦ rw (acquired, busy) refl
          | inr free ↦ rw (acquired, free) refl
        ] in
      let w : World = record {
        cache = (take_slot (key_of call) v.cache).0;
        phase = at v.phase thread new;
      } in
      elim (Bool-cases (bytes_eq key (key_of call))) [
        | inl mine ↦
            let same = ap v.cache.in_flight (bytes_eq→eq key (key_of call) mine) in
            elim (Bool-cases (v.cache.in_flight (key_of call))) [
              | inl busy ↦ stays key v w thread new refl (ground arith) (ground arith) g
              | inr free ↦
                  enters_scope key v w thread new refl (ground arith) (ground arith) (ground arith)
                    g
            ]
        | inr other ↦ stays key v w thread new refl (ground arith) (ground arith) g
      ]

  releases-IsGuarded :
      v.phase thread ≡ leaving call
      → IsGuarded key
          (record { cache = release (key_of call) v.cache; phase = at v.phase thread outside })
  releases-IsGuarded phase =
      let flight = release-in_flight (key_of call) key v.cache in
      let was = ap (is_inside key) phase in
      let w : World = record {
        cache = release (key_of call) v.cache;
        phase = at v.phase thread outside;
      } in
      elim (Bool-cases (bytes_eq key (key_of call))) [
        | inl mine ↦
            leaves_scope key v w thread outside refl refl (was ∙ mine) (flight ∙ rw mine refl) g
        | inr other ↦
            stays key v w thread outside refl (sym (was ∙ other)) (flight ∙ rw other refl) g
      ]

Step-IsGuarded : (key : Bytes) {v w : World} → IsGuarded key v → Step v w → IsGuarded key w
Step-IsGuarded key {v} {w} g (enters thread call phase usable gone) =
    stays key v w thread (absent call) refl (sym (ap (is_inside key) phase)) refl g
Step-IsGuarded key {v} {w} g (heeds thread call now phase) =
    let new = if (heed call now v.cache).1 then due call else outside in
    let was = ap (is_inside key) phase in
    stays key v w thread new refl (ground arith) (heed-in_flight call now v.cache key) g
Step-IsGuarded key {v} g (takes thread call phase) = takes-IsGuarded key v g thread call phase
Step-IsGuarded key {v} {w} g (looks_again thread call phase) =
    let new = if exists (v.cache.files (dest_of call)) then leaving call else fetching call in
    let was = ap (is_inside key) phase in stays key v w thread new refl (ground arith) refl g
Step-IsGuarded key {v} {w} g (settles thread call disk now answer phase) =
    stays key v w thread (leaving call) refl (sym (ap (is_inside key) phase))
      (settle-in_flight call disk now answer v.cache key) g
Step-IsGuarded key {v} g (releases thread call phase) = releases-IsGuarded key v g thread call phase

-- no call is running, and no slot is taken
unfoldable pub IsIdle : World → Type 0
IsIdle w =
    ((thread : ℕ) → w.phase thread ≡ outside) × ((key : Bytes) → w.cache.in_flight key ≡ false)

IsIdle-IsGuarded : (w : World) → IsIdle w → (key : Bytes) → IsGuarded key w
unfolding IsIdle
IsIdle-IsGuarded w (out, free) key =
    let nobody : (t : ℕ) → is_inside key (w.phase t) ≢ true =
      λ t i. let e = ap (is_inside key) (out t) in cc in
    record {
      alone = λ a b ia ib. absurd (nobody a ia);
      slot = (λ e. let none_taken = free key in cc, λ there. absurd (nobody there.0 there.1));
    }

-- From a state in which no call runs, whatever calls the threads make and however their steps mix:
-- for each manifest at most one thread is between the taking of its slot and its release, where the
-- second look at the disk and the fetch stand, and the slot is taken exactly while there is one.
pub Reachable-IsGuarded :
    {start w : World} → IsIdle start → Reachable start w → (key : Bytes) → IsGuarded key w
Reachable-IsGuarded {start} idle here key = IsIdle-IsGuarded start idle key
Reachable-IsGuarded idle (after r s) key = Step-IsGuarded key (Reachable-IsGuarded idle r key) s
