-- ===== src/Patterns/Job/Safe.antt =====
-- A cached file that is overwritten never gains an entry that could hook a wrong place.
use better_steam_tools_ameth.Base.{
  ℕ, ◌<◌, ap, ◌++◌, ◌≡◌, ◌≢◌, ◌⊎◌, refl, sym, subst, ◌∙◌, Bool, true, false, not, ◌||◌, Option,
  some, List, [], ◌∷◌, arith, inl, inr, ◌==◌, Bool-cases, Option-cases,
}
use better_steam_tools_ameth.Base.Text.{Bytes, bytes_eq}
use better_steam_tools_ameth.Base.Assoc.{contains, lookup, keys, lookup_of_contains-keys}
use better_steam_tools_ameth.Refresh.{PatternEntry, EntryMap}
use better_steam_tools_ameth.Refresh.Replace.{same_entry→eq}
use better_steam_tools_ameth.Refresh.Improvement.{Improves, replace→Improves}
use better_steam_tools_ameth.Patterns.{fnv1a_hash, lookup_entry, lookup_in_map}
use better_steam_tools_ameth.Patterns.Job.{
  Env, RevalidationJob, is_spoiled, is_found, probe, image_size, replaces, run,
}

-- an entry that today's cache has so, or that has no address, or one inside the module
abbrev pub Harmless : Option Bytes → EntryMap → ℕ → PatternEntry → Type 0
Harmless image cached key entry =
    (lookup key cached ≡ some entry) ⊎ (entry.rva ≡ 0) ⊎ (entry.rva < image_size image)

lookup_entry-in_image :
    (image : Option Bytes) (entry : PatternEntry)
    → is_found (lookup_entry image entry true) ≡ true
    → (entry.rva ≡ 0) ⊎ (entry.rva < image_size image)
unfolding lookup_entry
lookup_entry-in_image image entry h = elim (Bool-cases (entry.rva == 0)) [
  | inl zero_rva ↦ inl (ground arith)
  | inr rva ↦ inr (ground arith)
]

is_spoiled-eq-false :
    (cached remote : EntryMap) (key : ℕ) (entry : PatternEntry)
    → is_spoiled cached remote key ≡ false
    → lookup key remote ≡ some entry
    → lookup key cached ≡ some entry
unfolding is_spoiled
is_spoiled-eq-false cached remote key entry h e = elim (Option-cases (lookup key cached)) [
  | inl l ↦ absurd (ground arith)
  | inr (old, l) ↦ ground (arith, same_entry→eq old entry)
]

lookup_in_map-entry :
    (image : Option Bytes) (map : EntryMap) (name : Bytes) (mode : Bool) (entry : PatternEntry)
    → lookup (fnv1a_hash name) map ≡ some entry
    → lookup_in_map image map name mode ≡ lookup_entry image entry mode
unfolding lookup_in_map
lookup_in_map-entry image map name mode entry e = rw (e, lookup_in_map) refl

-- one missing function whose key is the entry's
probed-Harmless :
    (image : Option Bytes) (cached remote : EntryMap) (name : Bytes) (entry : PatternEntry)
    → lookup (fnv1a_hash name) remote ≡ some entry
    → (is_found (lookup_in_map image remote name true)
        || not (is_spoiled cached remote (fnv1a_hash name)))
      ≡ true
    → Harmless image cached (fnv1a_hash name) entry
probed-Harmless image cached remote name entry e h =
    elim (Bool-cases (is_found (lookup_in_map image remote name true))) [
      | inl found ↦ inr (
          lookup_entry-in_image image entry
            (rw (lookup_in_map-entry image remote name true entry e) at found))
      | inr lost ↦ inl (is_spoiled-eq-false cached remote (fnv1a_hash name) entry (ground arith) e)
    ]

module _ (image : Option Bytes) (cached remote : EntryMap) where
  probe-Harmless :
      (missing : List Bytes) (key : ℕ) (entry : PatternEntry)
      → (probe image cached remote missing).unresolvable ≡ 0
      → contains key (probe image cached remote missing).missing_keys ≡ true
      → lookup key remote ≡ some entry
      → Harmless image cached key entry
  unfolding probe contains
  probe-Harmless [] key entry h c e = cc
  probe-Harmless (name ∷ names) key entry h c e = elim (Bool-cases (key == fnv1a_hash name)) [
    | inl same ↦
        let eq : key ≡ fnv1a_hash name = ground arith in
        let e' = subst (λ k. lookup k remote ≡ some entry) eq e in
        subst (λ k. Harmless image cached k entry) (sym eq)
          (probed-Harmless image cached remote name entry e' (ground arith))
    | inr other ↦ probe-Harmless names key entry (ground arith) (ground arith) e
  ]

-- the new body is an improvement of the old one, by what the probe counted
abbrev Improved : Env → RevalidationJob → Bytes → Type 0
Improved env job body =
    Improves job.cached_map (env.parse body)
      (probe env.image job.cached_map (env.parse body) job.missing).missing_keys
      (not (bytes_eq body job.cached_body))
      (probe env.image job.cached_map (env.parse body) job.missing).resolved
      (probe env.image job.cached_map (env.parse body) job.missing).unresolvable
      (image_size env.image)

replaces→Improved :
    (env : Env) (job : RevalidationJob) (body : Bytes)
    → replaces env job body ≡ true
    → Improved env job body
unfolding replaces
replaces→Improved env job body h =
    let p = probe env.image job.cached_map (env.parse body) job.missing in
    replace→Improves job.cached_map (env.parse body) p.missing_keys
      (not (bytes_eq body job.cached_body)) p.resolved p.unresolvable (image_size env.image)
      (ground arith)

run-body :
    (env : Env) (job : RevalidationJob) (stamp : Option ℕ)
    → (run env job stamp).body ≢ job.cached_body
    → replaces env job (run env job stamp).body ≡ true
unfolding run
run-body env job stamp ne = ground arith

-- one of the missing functions is found at an address of the module
abbrev pub Helped : Option Bytes → EntryMap → List Bytes → Type 0
Helped image map missing =
    (before : List Bytes) × (name : Bytes) × (after : List Bytes) × (address : ℕ) × (missing
      ≡ before ++ (name ∷ after))
    × (lookup_in_map image map name true ≡ some address)

probe-Helped :
    (image : Option Bytes) (cached remote : EntryMap) (missing : List Bytes)
    → (probe image cached remote missing).resolved ≢ 0
    → Helped image remote missing
unfolding probe
probe-Helped image cached remote [] h = absurd (h refl)
probe-Helped image cached remote (name ∷ names) h =
    elim (Option-cases (lookup_in_map image remote name true)) [
      | inr (address, e) ↦ ([], name, names, address, refl, e)
      | inl lost ↦
          let (before, other, after, address, split, e) =
            probe-Helped image cached remote names (λ none_found. h (ground arith)) in
          (name ∷ before, other, after, address, ap (◌∷◌ name) split, e)
    ]

-- what an overwritten cache file promises, where `body` is what it holds
pub record IsSafe (env : Env) (job : RevalidationJob) (body : Bytes) : Type 0 where
  -- every entry is today's, or has no address, or one inside the module
  harmless :
      (key : ℕ) (entry : PatternEntry)
      → lookup key (env.parse body) ≡ some entry
      → Harmless env.image job.cached_map key entry
  -- every function that is in the cache and not missing is found where it is found today
  unmoved :
      (name : Bytes) (mode : Bool) (entry : PatternEntry)
      → contains
          (fnv1a_hash name)
          (probe env.image job.cached_map (env.parse body) job.missing).missing_keys
        ≡ false
      → lookup (fnv1a_hash name) job.cached_map ≡ some entry
      → lookup_in_map env.image (env.parse body) name mode
        ≡ lookup_in_map env.image job.cached_map name mode
  -- at least one missing function is found now
  helps : Helped env.image (env.parse body) job.missing

Improved-Harmless :
    (env : Env) (job : RevalidationJob) (body : Bytes) (key : ℕ) (entry : PatternEntry)
    → Improved env job body
    → lookup key (env.parse body) ≡ some entry
    → Harmless env.image job.cached_map key entry
Improved-Harmless env job body key entry better e =
    let missing_keys = (probe env.image job.cached_map (env.parse body) job.missing).missing_keys in
    elim (Bool-cases (contains key missing_keys)) [
      | inl m ↦
          probe-Harmless env.image job.cached_map (env.parse body) job.missing key entry
            better.all_resolvable m e
      | inr m ↦ elim (Bool-cases (contains key (keys job.cached_map))) [
        | inl old ↦
            let (today, l) = lookup_of_contains-keys key job.cached_map old in
            let same = better.kept key today l m in inl (cc)
        | inr new ↦ inr (better.in_image key entry e new m)
      ]
    ]

-- If a revalidation changes the cache file, whatever the mirrors sent: no entry of the new file has
-- an address outside the module unless the old file had the same entry, every function that works
-- today is found where it is found today, and a function that is missing today is found.
pub run-IsSafe :
    (env : Env) (job : RevalidationJob) (stamp : Option ℕ)
    → (run env job stamp).body ≢ job.cached_body
    → IsSafe env job (run env job stamp).body
run-IsSafe env job stamp ne =
    let body = (run env job stamp).body in
    let better = replaces→Improved env job body (run-body env job stamp ne) in
    record {
      harmless = λ key entry e. Improved-Harmless env job body key entry better e;
      unmoved = λ name mode entry m l.
          lookup_in_map-entry env.image (env.parse body) name mode entry
            (better.kept (fnv1a_hash name) entry l m)
          ∙ sym (lookup_in_map-entry env.image job.cached_map name mode entry l);
      helps = probe-Helped env.image job.cached_map (env.parse body) job.missing better.resolves;
    }
