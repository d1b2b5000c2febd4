-- ===== src/Package/Ownership/Answer.antt =====
-- What the client is told about an application.
use better_steam_tools_ameth.Base.{
  ℕ, ◌≡◌, refl, Bool, false, ◌&&◌, ◌||◌, arith, inl, inr, ◌==◌, ltb, Bool-cases,
}
use better_steam_tools_ameth.Base.Keyed.{number_key, member-insert}
use better_steam_tools_ameth.LuaConfig.{ConfigState}
use better_steam_tools_ameth.Package.{has_depot, is_owned, mark_owned}
use better_steam_tools_ameth.Package.Ownership.{AppOwnership, check_app_ownership}

-- The question for an application is answered with yes exactly if the client itself says yes or
-- the application is configured. It does not change what is configured, and of all applications
-- only the one asked becomes an owned one, and this exactly if it is configured, the client says
-- yes and it is in more than one package.
pub check_app_ownership_answer :
    (app : ℕ) (result : Bool) (own : AppOwnership) (c : ConfigState)
    → let (answer, (own', c')) = check_app_ownership app result own c in
      (answer ≡ (result || has_depot app false c))
      × ((x : ℕ) → has_depot x false c' ≡ has_depot x false c)
      × ((x : ℕ)
          → is_owned x c' ≡ (
              is_owned x c
              || (x == app && has_depot app false c && result && ltb 1 own.exist_in_package_nums)))
unfolding check_app_ownership has_depot is_owned mark_owned
check_app_ownership_answer app result own c = elim (Bool-cases (has_depot app false c)) [
  | inl e ↦ elim (Bool-cases (result && ltb 1 own.exist_in_package_nums)) [
    | inl mine ↦
        rw (e, mine)
          (
            ground arith,
            λ x. refl,
            λ x. (let all = member-insert app x c.tables.owned_app_ids in ground arith),
          )
    | inr other ↦ rw (e, other) (ground arith, λ x. refl, λ x. ground arith)
  ]
  | inr e ↦ rw e (ground arith, λ x. refl, λ x. ground arith)
]
