-- ===== src/Packet/Latch.antt =====
-- The layout is latched by two packets that agree, and by nothing else.
use better_steam_tools_ameth.Base.{
  ℕ, zero, suc, ◌+◌, ◌%◌, ◌≤◌, ◌<◌, ◌≡◌, ◌≢◌, ◌⊎◌, refl, sym, subst, ◌↔◌, List, [], ◌∷◌, arith, inl,
  inr, ◌==◌, ltb, if◌then◌else◌, Bool-cases, length,
}
use better_steam_tools_ameth.Packet.{
  ensure_packet_layout, Gate, LayoutResolver, unresolved, disabled_state, max_attempts,
}

abbrev pub fresh : Gate
fresh = record { state = unresolved; resolver = record { attempts = 0; agreed = unresolved } }

-- the gate after the packets, the newest first
unfoldable pub after : List ℕ → Gate
after [] = fresh
after (mask ∷ masks) = (ensure_packet_layout (after masks) mask).0

-- the packet matches the layout at `off`, and no other
abbrev pub Only : ℕ → ℕ → Type 0
Only off mask = ((mask % 4 ≡ 1) × (off ≡ 0x08)) ⊎ ((mask % 4 ≡ 2) × (off ≡ 0x10))

-- the newest packets match nothing, and the one before them matches `off` alone
abbrev pub LastOnly : ℕ → List ℕ → Type 0
LastOnly off [] = ⊥
LastOnly off (mask ∷ masks) = Only off mask ⊎ ((mask % 4 ≡ 0) × LastOnly off masks)

-- two informative packets in a row matched `off` alone
abbrev pub Confirmed : ℕ → List ℕ → Type 0
Confirmed off [] = ⊥
Confirmed off (mask ∷ masks) = (Only off mask × LastOnly off masks) ⊎ Confirmed off masks

below_four : (k : ℕ) → k < 4 → (k ≡ 0) ⊎ (k ≡ 1) ⊎ (k ≡ 2) ⊎ (k ≡ 3)
below_four zero h = inl refl
below_four (suc zero) h = inr (inl refl)
below_four (suc (suc zero)) h = inr (inr (inl refl))
below_four (suc (suc (suc zero))) h = inr (inr (inr refl))
below_four (suc (suc (suc (suc k)))) h = absurd (omega arith)

-- what the gate does for each of the four values of the masked word, as long as it is undecided
module _ (g : Gate) (mask : ℕ) (open_state : g.state ≡ unresolved) where
  abbrev counted : LayoutResolver
  counted = record { attempts = g.resolver.attempts + 1; agreed = g.resolver.agreed }

  step_none :
      g.resolver.attempts < max_attempts
      → mask % 4 ≡ 0
      → (ensure_packet_layout g mask).0 ≡ record { state = unresolved; resolver = counted }
  unfolding ensure_packet_layout
  step_none room e = rw e (ground arith)

  step_both :
      g.resolver.attempts < max_attempts
      → mask % 4 ≡ 3
      → (ensure_packet_layout g mask).0
        ≡ record { state = unresolved; resolver = record counted { agreed = unresolved } }
  unfolding ensure_packet_layout
  step_both room e = rw e (ground arith)

  step_one :
      (off : ℕ)
      → g.resolver.attempts < max_attempts
      → Only off mask
      → (ensure_packet_layout g mask).0 ≡ record {
        state = if g.resolver.agreed == off then off else unresolved;
        resolver = record counted { agreed = off };
      }
  unfolding ensure_packet_layout
  step_one off room (inl (e, o)) = rw (e, o) (ground arith)
  step_one off room (inr (e, o)) = rw (e, o) (ground arith)

  step_late :
      g.resolver.attempts ≡ max_attempts → (ensure_packet_layout g mask).0.state ≡ disabled_state
  unfolding ensure_packet_layout
  step_late full = ground arith

step_decided : (g : Gate) (mask : ℕ) → g.state ≢ unresolved → (ensure_packet_layout g mask).0 ≡ g
unfolding ensure_packet_layout
step_decided g mask ne = elim (Bool-cases (g.state == disabled_state)) [
  | inl d ↦ ground arith
  | inr r ↦ ground arith
]

-- the gate is undecided: every packet was counted, no two agree, and the agreement is that of the
-- last informative packet
record IsOpen (masks : List ℕ) (g : Gate) : Type 0 where
  state_is : g.state ≡ unresolved
  counts : g.resolver.attempts ≡ length masks
  bounded : length masks ≤ max_attempts
  standing : (off : ℕ) → off ≢ unresolved → g.resolver.agreed ≡ off → LastOnly off masks
  tracked : (off : ℕ) → LastOnly off masks → g.resolver.agreed ≡ off
  none_confirmed : (off : ℕ) → ¬ Confirmed off masks

abbrev Inv : List ℕ → Gate → Type 0
Inv masks g =
    IsOpen masks g
    ⊎ ((g.state ≡ disabled_state) × (max_attempts < length masks))
    ⊎ ((g.state ≢ unresolved) × (g.state ≢ disabled_state) × Confirmed g.state masks)

fresh-IsOpen : IsOpen [] fresh
fresh-IsOpen = record {
  state_is = refl;
  counts = refl;
  bounded = omega arith;
  standing = λ off ne e. absurd (ne (sym e));
  tracked = λ off l. absurd l;
  none_confirmed = λ off c. c;
}

Only-residue :
    (off mask : ℕ)
    → Only off mask
    → (mask % 4 ≢ 0) × (mask % 4 ≢ 3) × (off ≢ unresolved) × (off ≢ disabled_state)
Only-residue off mask (inl (e, o)) =
    (λ h. omega arith, λ h. omega arith, λ h. omega arith, λ h. omega arith)
Only-residue off mask (inr (e, o)) =
    (λ h. omega arith, λ h. omega arith, λ h. omega arith, λ h. omega arith)

Only-unique : (off off' mask : ℕ) → Only off mask → Only off' mask → off ≡ off'
Only-unique off off' mask (inl (e, o)) (inl (e', o')) = omega arith
Only-unique off off' mask (inl (e, o)) (inr (e', o')) = absurd (omega arith)
Only-unique off off' mask (inr (e, o)) (inl (e', o')) = absurd (omega arith)
Only-unique off off' mask (inr (e, o)) (inr (e', o')) = omega arith

module _ (g : Gate) (mask : ℕ) (masks : List ℕ) (o : IsOpen masks g) where
  open-none :
      length masks < max_attempts
      → mask % 4 ≡ 0
      → Inv (mask ∷ masks) (ensure_packet_layout g mask).0
  open-none room e =
      let counts = o.counts in
      rw (step_none g mask o.state_is (omega arith) e) (
        inl (record {
          state_is = refl;
          counts = omega arith;
          bounded = omega arith;
          standing = λ off ne e'. inr (e, o.standing off ne e');
          tracked = λ off l. elim l [
            | inl only ↦ absurd ((Only-residue off mask only).0 e)
            | inr (z, l') ↦ o.tracked off l'
          ];
          none_confirmed = λ off c. elim c [
            | inl (only, l) ↦ (Only-residue off mask only).0 e
            | inr c' ↦ o.none_confirmed off c'
          ];
        }))

  open-both :
      length masks < max_attempts
      → mask % 4 ≡ 3
      → Inv (mask ∷ masks) (ensure_packet_layout g mask).0
  open-both room e =
      let counts = o.counts in
      rw (step_both g mask o.state_is (omega arith) e) (
        inl (record {
          state_is = refl;
          counts = omega arith;
          bounded = omega arith;
          standing = λ off ne e'. absurd (ne (sym e'));
          tracked = λ off l. elim l [
            | inl only ↦ absurd ((Only-residue off mask only).1 e)
            | inr (z, l') ↦ absurd (omega arith)
          ];
          none_confirmed = λ off c. elim c [
            | inl (only, l) ↦ (Only-residue off mask only).1 e
            | inr c' ↦ o.none_confirmed off c'
          ];
        }))

  open-one :
      (off : ℕ)
      → length masks < max_attempts
      → Only off mask
      → Inv (mask ∷ masks) (ensure_packet_layout g mask).0
  open-one off room only =
      let counts = o.counts in
      let facts = Only-residue off mask only in
      let step = step_one g mask o.state_is off (omega arith) only in
      elim (Bool-cases (g.resolver.agreed == off)) [
        | inl e ↦
            let agreed : g.resolver.agreed ≡ off = ground arith in
            rw (step, e) (inr (inr (facts.2, facts.3, inl (only, o.standing off facts.2 agreed))))
        | inr e ↦
            rw (step, e)
              (inl (record {
                state_is = refl;
                counts = omega arith;
                bounded = omega arith;
                standing = λ off' ne e'. inl (subst (λ k. Only k mask) e' only);
                tracked = λ off' l. elim l [
                  | inl only' ↦ Only-unique off off' mask only only'
                  | inr (z, l') ↦ absurd (facts.0 z)
                ];
                none_confirmed = λ off' c. elim c [
                  | inl (only', l) ↦
                      let same = Only-unique off off' mask only only' in
                      let agreed = o.tracked off' l in absurd (ground arith)
                  | inr c' ↦ o.none_confirmed off' c'
                ];
              }))
      ]

  open-Inv : Inv (mask ∷ masks) (ensure_packet_layout g mask).0
  open-Inv = elim (Bool-cases (ltb (length masks) max_attempts)) [
    | inr full ↦
        let counts = o.counts in
        let bounded = o.bounded in
        inr (inl (step_late g mask o.state_is (ground arith), ground arith))
    | inl room ↦
        let lt : length masks < max_attempts = ground arith in
        elim (below_four (mask % 4) (omega arith)) [
          | inl e ↦ open-none lt e
          | inr (inl e) ↦ open-one 0x08 lt (inl (e, refl))
          | inr (inr (inl e)) ↦ open-one 0x10 lt (inr (e, refl))
          | inr (inr (inr e)) ↦ open-both lt e
        ]
  ]

decided-Inv :
    (g : Gate) (mask : ℕ) (masks : List ℕ)
    → g.state ≢ unresolved
    → ((g.state ≡ disabled_state) × (max_attempts < length masks))
      ⊎ ((g.state ≢ unresolved) × (g.state ≢ disabled_state) × Confirmed g.state masks)
    → Inv (mask ∷ masks) (ensure_packet_layout g mask).0
decided-Inv g mask masks ne (inl (d, l)) =
    subst (λ k. Inv (mask ∷ masks) k) (sym (step_decided g mask ne)) (inr (inl (d, omega arith)))
decided-Inv g mask masks ne (inr (u, d, c)) =
    subst (λ k. Inv (mask ∷ masks) k) (sym (step_decided g mask ne)) (inr (inr (u, d, inr c)))

after-Inv : (masks : List ℕ) → Inv masks (after masks)
unfolding after
after-Inv [] = inl fresh-IsOpen
after-Inv (mask ∷ masks) = elim (after-Inv masks) [
  | inl o ↦ open-Inv (after masks) mask masks o
  | inr (inl (d, l)) ↦ decided-Inv (after masks) mask masks (λ e. omega arith) (inl (d, l))
  | inr (inr (u, d, c)) ↦ decided-Inv (after masks) mask masks u (inr (u, d, c))
]

-- The layout in use is always one that two informative packets in a row matched alone.
pub after-Confirmed :
    (masks : List ℕ)
    → (after masks).state ≢ unresolved
    → (after masks).state ≢ disabled_state
    → Confirmed (after masks).state masks
after-Confirmed masks u d = elim (after-Inv masks) [
  | inl o ↦ absurd (u o.state_is)
  | inr (inl (e, l)) ↦ absurd (d e)
  | inr (inr (u', d', c)) ↦ c
]

-- Over any 512 packets, masks of what each of them matched: the gate is decided exactly if two
-- informative packets in a row matched the same layout alone, and it is never disabled.
pub after_decided :
    (masks : List ℕ)
    → length masks ≤ max_attempts
    → ((after masks).state ≢ disabled_state)
      × (((after masks).state ≢ unresolved) ↔ ((off : ℕ) × Confirmed off masks))
after_decided masks short = elim (after-Inv masks) [
  | inl o ↦
      let state_is = o.state_is in
      (λ e. omega arith, (λ ne. absurd (ne state_is), λ (off, c) e. o.none_confirmed off c))
  | inr (inl (d, l)) ↦ absurd (omega arith)
  | inr (inr (u, d, c)) ↦ (d, (λ ne. ((after masks).state, c), λ h. u))
]
