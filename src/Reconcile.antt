-- ===== src/Reconcile.antt =====
-- Hook/PackageReconcileLogic.h: which ids are added to and removed from the injected package. The
-- order of the hash set is that of the insertions here; what is shown does not depend on it.
pub mod Exact
use better_steam_tools_ameth.Base.{
  ℕ, Bool, true, false, not, ◌&&◌, List, [], ◌∷◌, ◌++◌, if◌then◌else◌,
}
use better_steam_tools_ameth.Base.Assoc.{contains}

pub record Plan : Type 0 where
  pub additions : List ℕ
  pub removals : List ℕ

-- the ids of a list, each once
unfoldable pub touched : List ℕ → List ℕ
touched [] = []
touched (id ∷ ids) = let rest = touched ids in if contains id rest then rest else id ∷ rest

-- the test of two Booleans for difference
abbrev pub differs : Bool → Bool → Bool
differs true b = not b
differs false b = b

-- the loop over the touched ids
unfoldable pub plan_for : (ℕ → Bool) → (ℕ → Bool) → List ℕ → Plan
plan_for wanted present [] = record { additions = []; removals = [] }
plan_for wanted present (id ∷ ids) =
    let rest = plan_for wanted present ids in
    if differs (wanted id) (present id)
    then (if wanted id
        then record { additions = id ∷ rest.additions; removals = rest.removals }
        else record { additions = rest.additions; removals = id ∷ rest.removals })
    else rest

unfoldable pub reconcile : List ℕ → List ℕ → (ℕ → Bool) → (ℕ → Bool) → Plan
unfolding touched plan_for
reconcile queued_removals queued_additions wanted present =
    plan_for wanted present (touched (queued_removals ++ queued_additions))
