-- ===== src/Manifests/Flight/Scope.antt =====
-- Which threads are in the scope of the guard of a manifest, before and after one thread moves.
use better_steam_tools_ameth.Base.{
  ◌↔◌, ℕ, ◌≡◌, ◌≢◌, sym, ap, ◌∙◌, refl, Bool, true, false, arith, inl, inr, ◌==◌, Bool-cases,
}
use better_steam_tools_ameth.Base.Text.{Bytes, bytes_eq}
use better_steam_tools_ameth.Manifests.{key_of}
use better_steam_tools_ameth.Manifests.Flight.{
  Phase, outside, absent, due, holding, fetching, leaving, World, at,
}

-- the thread is in the scope of a guard that has acquired this key
abbrev pub is_inside : Bytes → Phase → Bool
is_inside key outside = false
is_inside key (absent call) = false
is_inside key (due call) = false
is_inside key (holding call) = bytes_eq key (key_of call)
is_inside key (fetching call) = bytes_eq key (key_of call)
is_inside key (leaving call) = bytes_eq key (key_of call)

-- for one manifest: no two threads are inside, and the slot is taken exactly while one is
pub record IsGuarded (key : Bytes) (w : World) : Type 0 where
  pub alone :
      (a b : ℕ) → is_inside key (w.phase a) ≡ true → is_inside key (w.phase b) ≡ true → a ≡ b
  pub slot :
      (w.cache.in_flight key ≡ true) ↔ ((thread : ℕ) × (is_inside key (w.phase thread) ≡ true))

eq_self : (n : ℕ) → n == n ≡ true
eq_self n = ground arith

module _ (key : Bytes) (v w : World) (thread : ℕ) (new : Phase)
    (moved : w.phase ≡ at v.phase thread new) where
  phase_moved : w.phase thread ≡ new
  phase_moved = ap (λ f. f thread) moved ∙ rw (eq_self thread) refl

  phase_other : (other : ℕ) → other == thread ≡ false → w.phase other ≡ v.phase other
  phase_other other apart = ap (λ f. f other) moved ∙ rw apart refl

  inside_now : is_inside key (w.phase thread) ≡ is_inside key new
  inside_now = ap (is_inside key) phase_moved

  inside_other :
      (other : ℕ)
      → other == thread ≡ false
      → is_inside key (w.phase other) ≡ is_inside key (v.phase other)
  inside_other other apart = ap (is_inside key) (phase_other other apart)

  as_before :
      is_inside key new ≡ is_inside key (v.phase thread)
      → (t : ℕ) → is_inside key (w.phase t) ≡ is_inside key (v.phase t)
  as_before same t = elim (Bool-cases (t == thread)) [
    | inl e ↦ let eq : t ≡ thread = ground arith in rw eq (inside_now ∙ same)
    | inr apart ↦ inside_other t apart
  ]

  -- a thread that neither enters nor leaves the scope of the guard
  pub stays :
      is_inside key new ≡ is_inside key (v.phase thread)
      → w.cache.in_flight key ≡ v.cache.in_flight key
      → IsGuarded key v
      → IsGuarded key w
  stays same slot g =
      let before = as_before same in
      record {
        alone = λ a b ia ib. g.alone a b (sym (before a) ∙ ia) (sym (before b) ∙ ib);
        slot = (
          λ e. let (t, i) = g.slot.0 (sym slot ∙ e) in (t, before t ∙ i),
          λ there. slot ∙ g.slot.1 (there.0, sym (before there.0) ∙ there.1),
        );
      }

  -- the only thread inside is the one that has moved
  only_mover :
      ((other : ℕ) → is_inside key (v.phase other) ≡ true → other ≡ thread)
      → (t : ℕ) → is_inside key (w.phase t) ≡ true
      → t ≡ thread
  only_mover only t i = elim (Bool-cases (t == thread)) [
    | inl e ↦ ground arith
    | inr apart ↦ only t (sym (inside_other t apart) ∙ i)
  ]

  -- a thread enters where none was
  pub enters_scope :
      is_inside key new ≡ true
      → w.cache.in_flight key ≡ true
      → v.cache.in_flight key ≡ false
      → IsGuarded key v
      → IsGuarded key w
  enters_scope inside taken free g =
      let only = only_mover λ other i. let busy = g.slot.1 (other, i) in cc in
      record {
        alone = λ a b ia ib. only a ia ∙ sym (only b ib);
        slot = (λ _. (thread, inside_now ∙ inside), λ _. taken);
      }

  -- the thread that was inside leaves
  pub leaves_scope :
      is_inside key new ≡ false
      → is_inside key (v.phase thread) ≡ true
      → w.cache.in_flight key ≡ false
      → IsGuarded key v
      → IsGuarded key w
  leaves_scope gone inside free g =
      let nobody : (t : ℕ) → is_inside key (w.phase t) ≢ true = λ t i.
        let e = only_mover (λ other io. g.alone other thread io inside) t i in
        let there = ap (λ u. is_inside key (w.phase u)) e in let now = inside_now in cc in
      record {
        alone = λ a b ia ib. absurd (nobody a ia);
        slot = (λ e. cc, λ there. absurd (nobody there.0 there.1));
      }
