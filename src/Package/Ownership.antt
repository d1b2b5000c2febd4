-- ===== src/Package/Ownership.antt =====
-- `CheckAppOwnership` of Hook/Hooks_Package.cpp and the depots that the licences give.
pub mod Answer
pub mod Owned
use better_steam_tools_ameth.Base.{
  ℕ, Bool, true, false, not, ◌&&◌, Option, none, some, List, [], ◌∷◌, ◌++◌, ◌==◌, ltb,
  if◌then◌else◌,
}
use better_steam_tools_ameth.LuaConfig.{ConfigState}
use better_steam_tools_ameth.Package.{has_depot, mark_owned}

-- the fields of `AppOwnership` that the hook reads and writes; 4 is `Released`
pub record AppOwnership : Type 0 where
  pub package_id : ℕ
  pub release_state : ℕ
  pub owns_license : Bool
  pub free_license : Bool
  pub exist_in_package_nums : ℕ

-- `kInjectedPackageId`
abbrev pub injected_package : ℕ
injected_package = 0

abbrev pub released : ℕ
released = 4

-- the hook behind the client's own answer `result` with what it has written to `own`
unfoldable pub check_app_ownership :
    ℕ → Bool → AppOwnership → ConfigState → Bool × (AppOwnership × ConfigState)
unfolding has_depot mark_owned
check_app_ownership app result own c =
    if not (has_depot app false c)
    then (result, (own, c))
    else if result && ltb 1 own.exist_in_package_nums
    then (result, (record own { release_state = released }, mark_owned app c))
    else (
      true,
      (
        record own {
          package_id = injected_package;
          release_state = released;
          owns_license = true;
          free_license = false;
        },
        c,
      ),
    )

-- a licence: its package and the token to ask for it
pub record License : Type 0 where
  pub package_id : ℕ
  pub access_token : ℕ

-- `std::sort` and `std::unique`
unfoldable pub insert_sorted : ℕ → List ℕ → List ℕ
insert_sorted id [] = id ∷ []
insert_sorted id (x ∷ xs) =
    let rest = insert_sorted id xs in
    if ltb id x then id ∷ x ∷ xs else if id == x then x ∷ xs else x ∷ rest

-- the depots of a package that are not 0, into the set
unfoldable pub add_depots : List ℕ → List ℕ → List ℕ
unfolding insert_sorted
add_depots [] owned = owned
add_depots (id ∷ ids) owned =
    let rest = add_depots ids owned in if not (id == 0) then insert_sorted id rest else rest

-- `DumpOwnedDepots`: `info` is `GetPackageInfo`, with the depots of the package
unfoldable pub owned_depots : (License → Option (List ℕ)) → List License → List ℕ
unfolding add_depots
owned_depots info [] = []
owned_depots info (license ∷ licenses) =
    let rest = owned_depots info licenses in
    elim (info license) [ none ↦ rest | some ids ↦ add_depots ids rest ]
