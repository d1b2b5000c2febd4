-- ===== src/LuaConfig/Pinned.antt =====
-- The pin in force, told by the files alone: no other file that pins the depot was parsed later.
use better_steam_tools_ameth.Base.{
  ℕ, ◌≤◌, ◌≡◌, ◌⊎◌, ◌∙◌, refl, sym, ap, false, Option, none, some, List, [], ◌∷◌, arith, inl, inr,
  ltb, Bool-cases, Option-cases,
}
use better_steam_tools_ameth.Base.Text.{Bytes, bytes_eq, bytes_eq→eq, bytes_eq_self}
use better_steam_tools_ameth.Base.Keyed.{number_key, text_key, get, has, IsMap, has-get}
use better_steam_tools_ameth.LuaConfig.{ManifestOverride, or_else, better, best_override}
use better_steam_tools_ameth.LuaConfig.Files.{Lua}
use better_steam_tools_ameth.LuaConfig.Newest.{pin_of, IsActive}
use better_steam_tools_ameth.LuaConfig.History.{FileCall, run_calls, AllNamed}
use better_steam_tools_ameth.LuaConfig.Whole.{empty_config, started}
use better_steam_tools_ameth.LuaConfig.Active.{run_calls-IsActive}

-- the tables that a rebuild reads
abbrev pub Times : Type 0
Times = List (Bytes × ℕ)

abbrev pub Overrides : Type 0
Overrides = List (Bytes × List (ℕ × ManifestOverride))

-- the file was parsed as the one of this number, and gives the depot this pin
pub record Pinning (depot : ℕ) (times : Times) (overrides : Overrides) (file : Bytes) (number : ℕ)
    (pin : ManifestOverride) : Type 0 where
  pub timed : get file times ≡ some number
  pub given : get depot (or_else (get file overrides) []) ≡ some pin

-- none if no file gives the depot a pin; else the pin of a file that was parsed no earlier than any
-- other that gives one
abbrev pub IsNewest : ℕ → Times → Overrides → Option ManifestOverride → Type 0
IsNewest depot times overrides none =
    (file : Bytes) (number : ℕ) (pin : ManifestOverride)
    → ¬ Pinning depot times overrides file number pin
IsNewest depot times overrides (some pin) =
    (file : Bytes) × (number : ℕ) × Pinning depot times overrides file number pin
    × ((other : Bytes) (before : ℕ) (old : ManifestOverride)
        → Pinning depot times overrides other before old
        → before ≤ number)

-- the best so far has at least this number
abbrev AtLeast : ℕ → Option (ℕ × ManifestOverride) → Type 0
AtLeast n none = ⊥
AtLeast n (some (number, pin)) = n ≤ number

better-AtLeast :
    (n : ℕ) (pin : Option ManifestOverride) (number : Option ℕ)
    (best : Option (ℕ × ManifestOverride))
    → AtLeast n best
    → AtLeast n (better pin number best)
better-AtLeast n none number best h = h
better-AtLeast n (some pin) none best h = h
better-AtLeast n (some pin) (some number) none h = absurd h
better-AtLeast n (some pin) (some number) (some (b, old)) h = elim (Bool-cases (ltb b number)) [
  | inl e ↦ rw e (ground arith)
  | inr e ↦ rw e h
]

better_new :
    (pin : ManifestOverride) (number : ℕ) (best : Option (ℕ × ManifestOverride))
    → AtLeast number (better (some pin) (some number) best)
better_new pin number none = omega arith
better_new pin number (some (b, old)) = elim (Bool-cases (ltb b number)) [
  | inl e ↦ rw e (omega arith)
  | inr e ↦ rw e (ground arith)
]

better_origin :
    (given : Option ManifestOverride) (timed : Option ℕ) (best : Option (ℕ × ManifestOverride))
    → (better given timed best ≡ best)
      ⊎ ((pin : ManifestOverride) × (number : ℕ) × (given ≡ some pin)
          × (timed ≡ some number)
          × (better given timed best ≡ some (number, pin)))
better_origin none timed best = inl refl
better_origin (some pin) none best = inl refl
better_origin (some pin) (some number) none = inr (pin, number, refl, refl, refl)
better_origin (some pin) (some number) (some (b, old)) = elim (Bool-cases (ltb b number)) [
  | inl e ↦ rw e (inr (pin, number, refl, refl, refl))
  | inr e ↦ rw e (inl refl)
]

module _ (depot : ℕ) (times : Times) where
  best_override_keeps :
      (n : ℕ) (overrides : Overrides) (best : Option (ℕ × ManifestOverride))
      → AtLeast n best
      → AtLeast n (best_override depot times overrides best)
  unfolding best_override
  best_override_keeps n [] best h = h
  best_override_keeps n ((f, pins) ∷ overrides) best h =
      best_override_keeps n overrides (better (get depot pins) (get f times) best)
        (better-AtLeast n (get depot pins) (get f times) best h)

  -- the loop ends no lower than any file that gives a pin
  best_override_above :
      (overrides : Overrides) (best : Option (ℕ × ManifestOverride)) (file : Bytes) (number : ℕ)
      (pin : ManifestOverride)
      → Pinning depot times overrides file number pin
      → AtLeast number (best_override depot times overrides best)
  unfolding best_override get
  best_override_above [] best file number pin p = let given = p.given in cc
  best_override_above ((f, pins) ∷ overrides) best file number pin p =
      elim (Bool-cases (bytes_eq file f)) [
        | inl e ↦
            let same = bytes_eq→eq file f e in
            let given : get depot pins ≡ some pin = (rw e at p.given) in
            let timed : get f times ≡ some number = sym (ap (λ g. get g times) same) ∙ p.timed in
            rw (given, timed) (best_override_keeps number overrides _ (better_new pin number best))
        | inr apart ↦
            let rest : Pinning depot times overrides file number pin = record {
              timed = p.timed;
              given = (rw apart at p.given);
            } in
            best_override_above overrides (better (get depot pins) (get f times) best) file number
              pin rest
      ]

  abbrev Origin : Overrides → Option (ℕ × ManifestOverride) → Type 0
  Origin overrides result =
      (file : Bytes) × (number : ℕ) × (pin : ManifestOverride) × Pinning depot times overrides file
        number pin
      × (result ≡ some (number, pin))

  in_front :
      (f : Bytes) (pins : List (ℕ × ManifestOverride)) (overrides : Overrides) (number : ℕ)
      (pin : ManifestOverride)
      → get f times ≡ some number
      → get depot pins ≡ some pin
      → Pinning depot times ((f, pins) ∷ overrides) f number pin
  unfolding get
  in_front f pins overrides number pin timed given = record {
    timed = timed;
    given = rw (bytes_eq_self f) given;
  }

  -- what a further file in front does not hide
  behind :
      (f : Bytes) (pins : List (ℕ × ManifestOverride)) (overrides : Overrides) (file : Bytes)
      (number : ℕ) (pin : ManifestOverride)
      → has f overrides ≡ false
      → Pinning depot times overrides file number pin
      → Pinning depot times ((f, pins) ∷ overrides) file number pin
  unfolding get
  behind f pins overrides file number pin new p = elim (Bool-cases (bytes_eq file f)) [
    | inl e ↦
        let same = bytes_eq→eq file f e in
        let gone : has file overrides ≡ false = ap (λ g. has g overrides) same ∙ new in
        let given = p.given in
        let missing : get file overrides ≡ none = ground (arith, has-get file overrides) in
        let none_given = (rw missing at given) in absurd (cc)
    | inr apart ↦ record { timed = p.timed; given = rw apart p.given }
  ]

  best_override-Origin :
      (overrides : Overrides) (best : Option (ℕ × ManifestOverride))
      → IsMap overrides
      → (best_override depot times overrides best ≡ best)
        ⊎ Origin overrides (best_override depot times overrides best)
  unfolding best_override
  best_override-Origin [] best mapped = inl refl
  best_override-Origin ((f, pins) ∷ overrides) best mapped =
      elim (best_override-Origin overrides (better (get depot pins) (get f times) best) mapped.1) [
        | inl e ↦ elim (better_origin (get depot pins) (get f times) best) [
          | inl same ↦ inl (e ∙ same)
          | inr (pin, number, given, timed, new) ↦
              inr (f, number, pin, in_front f pins overrides number pin timed given, e ∙ new)
        ]
        | inr (file, number, pin, p, e) ↦
            inr (file, number, pin, behind f pins overrides file number pin mapped.0 p, e)
      ]

  loop-IsNewest :
      (overrides : Overrides)
      → IsMap overrides
      → IsNewest depot times overrides (pin_of (best_override depot times overrides none))
  loop-IsNewest overrides mapped = elim (Option-cases (best_override depot times overrides none)) [
    | inl e ↦ rw e (λ file number pin p.
        let above = best_override_above overrides none file number pin p in (rw e at above))
    | inr ((n, found), e) ↦ elim (best_override-Origin overrides none mapped) [
      | inl bare ↦ absurd (cc)
      | inr (file, number, pin, p, o) ↦ rw o (
        file,
        number,
        p,
        λ other before old q.
            let above = best_override_above overrides none other before old q in (rw o at above),
      )
    ]
  ]

pub empty-IsActive : IsActive empty_config.pins
unfolding get best_override
empty-IsActive = record { active = λ depot. refl; mapped = tt }

-- From an empty configuration, after any calls that parse files with a name, unload files or take
-- the queues: a depot for which no file with a parse number holds a pin has none in force, and any
-- other has the pin of such a file, whose parse number is at least that of every other.
pub run_calls-IsNewest :
    {G : Type 0} (lua : Lua G) (globals : G) (calls : List FileCall) (depot : ℕ)
    → AllNamed calls
    → IsNewest depot
        (run_calls lua calls (started globals)).config.pins.parse_sequence
        (run_calls lua calls (started globals)).config.pins.file_overrides
        (get depot (run_calls lua calls (started globals)).config.pins.manifest_overrides)
run_calls-IsNewest lua globals calls depot named =
    let a = run_calls-IsActive lua calls (started globals) named empty-IsActive in
    let pins = (run_calls lua calls (started globals)).config.pins in
    rw (a.active depot) (loop-IsNewest depot pins.parse_sequence pins.file_overrides a.mapped)
