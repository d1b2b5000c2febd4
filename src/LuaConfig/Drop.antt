-- ===== src/LuaConfig/Drop.antt =====
-- What the loop of `UnloadFileLocked` over the depots of a file changes.
use better_steam_tools_ameth.Base.{
  ℕ, ◌+◌, ◌^◌, ◌≤◌, ◌<◌, ◌≡◌, sym, subst, true, false, not, ◌&&◌, ◌||◌, List, [], ◌∷◌, ◌++◌, arith,
  inl, inr, ◌==◌, Bool-cases,
}
use better_steam_tools_ameth.Base.Keyed.{
  number_key, text_key, same_self, member, get, has, IsDistinct, get-erase, get-put, has-erase,
}
use better_steam_tools_ameth.LuaConfig.{Depots, or_else, pred_32}
use better_steam_tools_ameth.LuaConfig.Files.{drop_depot, drop_depots}
use better_steam_tools_ameth.LuaConfig.Count.{one_if}

abbrev pub count_of : ℕ → Depots → ℕ
count_of id d = or_else (get id d.ref_count) 0

pub member-append : (x y : ℕ) (xs : List ℕ) → member x (xs ++ (y ∷ [])) ≡ (member x xs || x == y)
unfolding member
member-append x y [] = ground arith
member-append x y (z ∷ xs) = ground (arith, member-append x y xs)

-- the change that dropping the depots makes, seen at one id
pub record Dropped (ids : List ℕ) (before after : Depots) (x : ℕ) : Type 0 where
  pub count : count_of x after + one_if (member x ids) ≡ count_of x before
  pub keys :
      has x after.depot_keys
      ≡ (has x before.depot_keys && not (member x ids && count_of x before == 1))
  pub removals :
      member x after.pending_removals
      ≡ (member x before.pending_removals || (member x ids && count_of x before == 1))

pred_32-minus : (n : ℕ) → 1 ≤ n → n < 2 ^ 32 → pred_32 n + 1 ≡ n
unfolding pred_32
pred_32-minus n l h = omega arith

step_count :
    (id x : ℕ) (d : Depots)
    → 1 ≤ count_of id d
    → count_of id d < 2 ^ 32
    → count_of x (drop_depot id d) + one_if (x == id) ≡ count_of x d
unfolding drop_depot
step_count id x d l h =
    let less = pred_32-minus (count_of id d) l h in
    ground (arith, get-erase x id d.ref_count, get-put x id (pred_32 (count_of id d)) d.ref_count)

step_keys :
    (id x : ℕ) (d : Depots)
    → 1 ≤ count_of id d
    → count_of id d < 2 ^ 32
    → has x (drop_depot id d).depot_keys
      ≡ (has x d.depot_keys && not (x == id && count_of x d == 1))
unfolding drop_depot
step_keys id x d l h =
    let less = pred_32-minus (count_of id d) l h in ground (arith, has-erase x id d.depot_keys)

step_removals :
    (id x : ℕ) (d : Depots)
    → 1 ≤ count_of id d
    → count_of id d < 2 ^ 32
    → member x (drop_depot id d).pending_removals
      ≡ (member x d.pending_removals || (x == id && count_of x d == 1))
unfolding drop_depot
step_removals id x d l h =
    let less = pred_32-minus (count_of id d) l h in
    ground (arith, member-append x id d.pending_removals)

-- every depot of the list is counted, and no count has reached the end of its word
pub record IsCounted (ids : List ℕ) (d : Depots) : Type 0 where
  pub counted : (x : ℕ) → member x ids ≡ true → 1 ≤ count_of x d
  pub small : (x : ℕ) → count_of x d < 2 ^ 32

step-IsCounted :
    (id : ℕ) (ids : List ℕ) (d : Depots)
    → IsDistinct (id ∷ ids)
    → IsCounted (id ∷ ids) d
    → IsCounted ids (drop_depot id d)
unfolding member
step-IsCounted id ids d (fresh, rest) c =
    let l = c.counted id (ground arith) in
    let h = c.small id in
    record {
      counted = λ x m.
          let before = c.counted x (ground arith) in
          let step = step_count id x d l h in
          elim (Bool-cases (x == id)) [
            | inl e ↦
                let same : x ≡ id = ground arith in
                let m' = subst (λ y. member y ids ≡ true) same m in absurd (cc)
            | inr e ↦ ground arith
          ];
      small = λ x. let step = step_count id x d l h in let before = c.small x in omega arith;
    }

pub drop_depots-Dropped :
    (ids : List ℕ) (d : Depots) (x : ℕ)
    → IsDistinct ids
    → IsCounted ids d
    → Dropped ids d (drop_depots ids d) x
unfolding drop_depots member
drop_depots-Dropped [] d x h c = record {
  count = ground arith;
  keys = ground arith;
  removals = ground arith;
}
drop_depots-Dropped (id ∷ ids) d x h c =
    let l = c.counted id (ground (arith, same_self id)) in
    let s = c.small id in
    let step = step_count id x d l s in
    let keys_step = step_keys id x d l s in
    let removals_step = step_removals id x d l s in
    let rest = drop_depots-Dropped ids (drop_depot id d) x h.1 (step-IsCounted id ids d h c) in
    let rest_count = rest.count in
    let rest_keys = rest.keys in
    let rest_removals = rest.removals in
    elim (Bool-cases (x == id)) [
      | inl e ↦
          let same : x ≡ id = ground arith in
          let fresh = subst (λ y. member y ids ≡ false) (sym same) h.0 in
          record { count = ground arith; keys = ground arith; removals = ground arith }
      | inr e ↦ record { count = ground arith; keys = ground arith; removals = ground arith }
    ]
