-- ===== src/Package.antt =====
-- Hook/Hooks_Package.cpp and the vector of Steam/Structs.h: the package that the client sees is kept
-- in step with the configuration. Steam's own functions are parameters: whether the vector can be
-- grown, whether the licence can be marked, and what a package resolves to.
pub mod Vector
pub mod Notify
pub mod Synced
pub mod Step
pub mod Whole
pub mod Ownership
use better_steam_tools_ameth.Base.{
  ℕ, ◌+◌, Bool, true, false, not, ◌&&◌, ◌||◌, Option, none, some, List, [], ◌∷◌, ◌++◌, ◌==◌, ltb,
  if◌then◌else◌, length,
}
use better_steam_tools_ameth.Base.Keyed.{number_key, member, insert, has, names}
use better_steam_tools_ameth.LuaConfig.{ConfigState, on_tables}
use better_steam_tools_ameth.LuaConfig.Files.{take_pending_removals, take_pending_additions}
use better_steam_tools_ameth.Reconcile.{Plan, reconcile}

-- the last element, and those before it
unfoldable pub last_of : ℕ → List ℕ → ℕ
last_of x [] = x
last_of x (y ∷ ys) = last_of y ys

unfoldable pub before_last : ℕ → List ℕ → List ℕ
before_last x [] = []
before_last x (y ∷ ys) = x ∷ before_last y ys

-- the elements from the one that is removed on: the last takes its place, unless it is the last
unfoldable pub fast_remove : List ℕ → List ℕ
unfolding last_of before_last
fast_remove [] = []
fast_remove (x ∷ []) = []
fast_remove (x ∷ y ∷ ys) = last_of y ys ∷ before_last y ys

-- `FindAndFastRemove`
unfoldable pub find_and_fast_remove : ℕ → List ℕ → List ℕ
unfolding fast_remove
find_and_fast_remove id [] = []
find_and_fast_remove id (x ∷ xs) =
    let rest = find_and_fast_remove id xs in if x == id then fast_remove (x ∷ xs) else x ∷ rest

-- the queries of the configuration that the hook asks
unfoldable pub is_owned : ℕ → ConfigState → Bool
is_owned id c = member id c.tables.owned_app_ids

unfoldable pub has_depot : ℕ → Bool → ConfigState → Bool
unfolding is_owned
has_depot id exclude_owned c =
    has id c.depots.depot_keys && (not exclude_owned || not (is_owned id c))

unfoldable pub mark_owned : ℕ → ConfigState → ConfigState
mark_owned id c = on_tables (λ t. record t { owned_app_ids = insert id t.owned_app_ids }) c

unfoldable pub get_all_depot_ids : ConfigState → List ℕ
get_all_depot_ids c = names c.depots.depot_keys

-- the injected package, once it is published, and the configuration
pub record Client : Type 0 where
  pub app_ids : List ℕ
  pub is_injected : Bool
  pub config : ConfigState

-- what a notification sends on
pub data Effect : Type 0 where
  cancel_removal : ℕ → Effect
  queue_removal : ℕ → Effect
  license_changed : Effect

unfoldable pub remove_all : List ℕ → List ℕ → List ℕ
unfolding find_and_fast_remove
remove_all [] vector = vector
remove_all (id ∷ ids) vector = remove_all ids (find_and_fast_remove id vector)

unfoldable pub each : (ℕ → Effect) → List ℕ → List Effect
each f [] = []
each f (id ∷ ids) = f id ∷ each f ids

abbrev pub is_none_queued : List ℕ → Bool
is_none_queued [] = true
is_none_queued (id ∷ ids) = false

-- the plan of a notification and the state with the queues taken
unfoldable pub plan_of : Client → Plan
unfolding reconcile has_depot
plan_of c =
    reconcile c.config.depots.pending_removals c.config.depots.pending_additions
      (λ id. has_depot id false c.config) (λ id. member id c.app_ids)

unfoldable pub drained : ConfigState → ConfigState
unfolding take_pending_removals take_pending_additions
drained c = (take_pending_additions (take_pending_removals c).0).0

-- the additions, where there is room: `grow vector n` tells if the vector has got `n` more places
-- at its end
unfoldable pub grown : (List ℕ → ℕ → Bool) → List ℕ → List ℕ → List ℕ
grown grow vector additions =
    if is_none_queued additions
    then []
    else if grow vector (length additions)
    then additions
    else []

-- `mark` tells if the licence was marked as changed
module _ (grow : List ℕ → ℕ → Bool) (mark : Bool) where
  -- `InjectConfiguredDepots` on a package that is available or not
  unfoldable pub inject_configured_depots : Bool → Client → Option (List ℕ)
  unfolding get_all_depot_ids
  inject_configured_depots available c =
      let ids = get_all_depot_ids c.config in
      if not available
      then none
      else if is_none_queued ids
      then some c.app_ids
      else if not (grow c.app_ids (length ids))
      then none
      else some (c.app_ids ++ ids)

  -- `TryInitFakeLicenseOnce`: `package` is what `GetPackageInfo` answers, if it can be called: a
  -- vector and whether the package is available
  unfoldable pub try_init_fake_license_once : Option (List ℕ × Bool) → Client → Client
  unfolding inject_configured_depots
  try_init_fake_license_once none c = c
  try_init_fake_license_once (some (vector, available)) c =
      if c.is_injected
      then c
      else elim (inject_configured_depots available (record c { app_ids = vector })) [
        | none ↦ c
        | some filled ↦ record { app_ids = filled; is_injected = true; config = c.config }
      ]

  -- `NotifyLicenseChanged`
  unfoldable pub notify_license_changed : Client → Client × List Effect
  unfolding plan_of drained remove_all grown each
  notify_license_changed c =
      let d = c.config.depots in
      if not c.is_injected
      then (c, [])
      else if is_none_queued d.pending_removals && is_none_queued d.pending_additions
      then (c, [])
      else let plan = plan_of c in
        let removed = remove_all plan.removals c.app_ids in
        let added = grown grow removed plan.additions in
        let after : Client = record {
          app_ids = removed ++ added;
          is_injected = true;
          config = drained c.config;
        } in
        (
          after,
          each cancel_removal added
              ++ (if mark then license_changed ∷ each queue_removal plan.removals else []),
        )
