-- ===== src/Patterns/Job/Throttle.antt =====
-- Over any number of launches the mirrors are asked at most once in the interval.
use better_steam_tools_ameth.Base.{
  Bool, false, ℕ, ◌+◌, ◌≤◌, ◌≡◌, ◌⊎◌, true, Option, some, List, [], ◌∷◌, arith, inl, inr,
  if◌then◌else◌, Bool-cases,
}
use better_steam_tools_ameth.Refresh.{should_revalidate, min_revalidate_interval}
use better_steam_tools_ameth.Patterns.Job.{Env, RevalidationJob, age, inputs, run}

-- an attempt to ask the mirrors: its time, and whether the launch could read the stamp
pub record Attempt : Type 0 where
  pub time : ℕ
  pub stamp_read : Bool

-- one launch after the other, each with its own job; the requests that were made
unfoldable pub launches : Option ℕ → List (Env × RevalidationJob) → List Attempt
launches stamp [] = []
launches stamp ((env, job) ∷ later) =
    let out = run env job stamp in
    let rest = launches out.stamp later in
    if out.asked then record { time = env.now; stamp_read = env.stamp_readable } ∷ rest else rest

-- the clock does not run backwards from `t` on
abbrev pub IsForward : ℕ → List (Env × RevalidationJob) → Type 0
IsForward t [] = Unit
IsForward t ((env, job) ∷ later) = (t ≤ env.now) × IsForward env.now later

abbrev pub IsSpacedFrom : ℕ → List Attempt → Type 0
IsSpacedFrom t [] = Unit
IsSpacedFrom t (r ∷ rs) =
    ((r.stamp_read ≡ false) ⊎ (t + min_revalidate_interval ≤ r.time)) × IsSpacedFrom r.time rs

-- each request but the first is at least the interval behind the one before, or is made by a launch
-- that could not read the stamp
abbrev pub IsSpaced : List Attempt → Type 0
IsSpaced [] = Unit
IsSpaced (r ∷ rs) = IsSpacedFrom r.time rs

run-stamp_asked :
    (env : Env) (job : RevalidationJob) (stamp : Option ℕ)
    → (run env job stamp).asked ≡ true
    → (run env job stamp).stamp ≡ some env.now
unfolding run
run-stamp_asked env job stamp h = ground arith

run-stamp_quiet :
    (env : Env) (job : RevalidationJob) (stamp : Option ℕ)
    → (run env job stamp).asked ≡ false
    → ((run env job stamp).stamp ≡ stamp) ⊎ ((run env job stamp).stamp ≡ some env.now)
unfolding run
run-stamp_quiet env job stamp h = ground arith

run-asked :
    (env : Env) (job : RevalidationJob) (stamped : ℕ)
    → stamped ≤ env.now
    → env.stamp_readable ≡ true
    → (run env job (some stamped)).asked ≡ true
    → stamped + min_revalidate_interval ≤ env.now
unfolding run should_revalidate inputs age
run-asked env job stamped le readable h = ground arith

spaced :
    (env : Env) (job : RevalidationJob) (last stamped : ℕ)
    → last ≤ stamped
    → stamped ≤ env.now
    → (run env job (some stamped)).asked ≡ true
    → (env.stamp_readable ≡ false) ⊎ (last + min_revalidate_interval ≤ env.now)
spaced env job last stamped ge le asked = elim (Bool-cases env.stamp_readable) [
  | inl readable ↦ let far = run-asked env job stamped le readable asked in inr (omega arith)
  | inr lost ↦ inl lost
]

launches-IsSpacedFrom :
    (last stamped : ℕ) (later : List (Env × RevalidationJob)) (t : ℕ)
    → last ≤ stamped
    → stamped ≤ t
    → IsForward t later
    → IsSpacedFrom last (launches (some stamped) later)
unfolding launches
launches-IsSpacedFrom last stamped [] t ge le f = tt
launches-IsSpacedFrom last stamped ((env, job) ∷ later) t ge le f =
    elim (Bool-cases (run env job (some stamped)).asked) [
      | inl a ↦
          let far = spaced env job last stamped ge (omega arith) a in
          rw (run-stamp_asked env job (some stamped) a, a)
            (
              far,
              launches-IsSpacedFrom env.now env.now later env.now (omega arith) (omega arith) f.1,
            )
      | inr a ↦ elim (run-stamp_quiet env job (some stamped) a) [
        | inl same ↦
            rw (same, a) (launches-IsSpacedFrom last stamped later env.now ge (omega arith) f.1)
        | inr new ↦
            rw (new, a)
              (launches-IsSpacedFrom last env.now later env.now (omega arith) (omega arith) f.1)
      ]
    ]

-- Whatever stamp there is at first and whatever job each launch has, as long as the clock does not
-- run backwards: a request to the mirrors is made at least 24 hours after the request before it,
-- unless the launch that makes it cannot read the stamp.
pub launches-IsSpaced :
    (stamp : Option ℕ) (later : List (Env × RevalidationJob)) (t : ℕ)
    → IsForward t later
    → IsSpaced (launches stamp later)
unfolding launches
launches-IsSpaced stamp [] t f = tt
launches-IsSpaced stamp ((env, job) ∷ later) t f = elim (Bool-cases (run env job stamp).asked) [
  | inl a ↦
      rw (run-stamp_asked env job stamp a, a)
        (launches-IsSpacedFrom env.now env.now later env.now (omega arith) (omega arith) f.1)
  | inr a ↦ rw a (launches-IsSpaced (run env job stamp).stamp later env.now f.1)
]
