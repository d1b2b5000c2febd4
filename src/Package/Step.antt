-- ===== src/Package/Step.antt =====
-- Each event keeps the package in step, or a change is queued.
use better_steam_tools_ameth.Base.{
  ℕ, ◌≡◌, ◌⊎◌, refl, sym, ap, subst, Bool, true, false, ◌&&◌, Option, none, some, List, [], ◌∷◌,
  ◌++◌, arith, inl, inr, if◌then◌else◌, Bool-cases, Option-cases,
}
use better_steam_tools_ameth.Base.Text.{Bytes}
use better_steam_tools_ameth.Base.Keyed.{number_key, has, names}
use better_steam_tools_ameth.LuaConfig.{ConfigState, ConfigOp, is_unnamed}
use better_steam_tools_ameth.LuaConfig.Files.{commit, is_loaded}
use better_steam_tools_ameth.LuaConfig.Consistent.{IsConsistent, Notifies, Fits}
use better_steam_tools_ameth.LuaConfig.Commit.{commit-Passage}
use better_steam_tools_ameth.LuaConfig.Refines.{commit_held}
use better_steam_tools_ameth.LuaConfig.Keys.{IsKeyed}
use better_steam_tools_ameth.Package.{
  Client, has_depot, try_init_fake_license_once, inject_configured_depots, get_all_depot_ids,
  notify_license_changed, drained, is_none_queued,
}
use better_steam_tools_ameth.Package.Vector.{copies, copies-append, copies-names, member-copies}
use better_steam_tools_ameth.Package.Notify.{IsSynced}
use better_steam_tools_ameth.Package.Synced.{asked, IsPlain}

pub commit-Notifies :
    (file : Bytes) (mtime : ℕ) (incomplete : Bool) (ops : List ConfigOp) (s : ConfigState) (x : ℕ)
    → is_unnamed file ≡ false
    → IsConsistent s.depots
    → Fits file s.depots
    → Notifies s.depots (commit file mtime incomplete ops s).depots x
commit-Notifies file mtime incomplete ops s x named c f =
    elim (Bool-cases (incomplete && is_loaded file s)) [
      | inl held ↦
          subst (λ t. Notifies s.depots t.depots x)
            (sym (commit_held file mtime incomplete ops s held))
            (record { told = inl refl; waits = λ q. q })
      | inr go ↦ (commit-Passage file s mtime incomplete ops c f named go).notifies x
    ]

-- a change of the configuration that is queued keeps a package in step
pub Notifies-IsSynced :
    (x : ℕ) (vector : List ℕ) (b : Bool) (s t : ConfigState)
    → Notifies s.depots t.depots x
    → IsSynced x (record { app_ids = vector; is_injected = b; config = s })
    → IsSynced x (record { app_ids = vector; is_injected = b; config = t })
unfolding has_depot
Notifies-IsSynced x vector b s t n i = record {
  once = i.once;
  told = elim i.told [
    | inl same ↦ elim n.told [ inl kept ↦ inl (ground arith) | inr q ↦ inr q ]
    | inr q ↦ inr (n.waits q)
  ];
}

-- the package as injected from a plain vector
injected-IsSynced :
    (x : ℕ) (vector : List ℕ) (s : ConfigState)
    → IsKeyed s.depots
    → copies x vector ≡ 0
    → IsSynced x
        (record { app_ids = vector ++ get_all_depot_ids s; is_injected = true; config = s })
unfolding has_depot get_all_depot_ids
injected-IsSynced x vector s keyed plain =
    let both = copies-append x vector (names s.depots.depot_keys) in
    let all = copies-names x s.depots.depot_keys keyed in
    let there = member-copies x (vector ++ names s.depots.depot_keys) in
    record { once = ground arith; told = inl (ground arith) }

either : {A : Type 0} (b : Bool) (a : A) → (if b then a else a) ≡ a
either true a = refl
either false a = refl

-- nothing is configured
empty_all :
    (x : ℕ) (keys : List (ℕ × Bytes)) → is_none_queued (names keys) ≡ true → has x keys ≡ false
unfolding has names
empty_all x [] e = refl
empty_all x ((y, key) ∷ keys) e = absurd (ground arith)

module _ (grow : List ℕ → ℕ → Bool) (mark : Bool) where
  inject-IsSynced :
      (x : ℕ) (vector filled : List ℕ) (available : Bool) (c : Client)
      → IsKeyed c.config.depots
      → copies x vector ≡ 0
      → inject_configured_depots grow mark available (record c { app_ids = vector }) ≡ some filled
      → IsSynced x (record { app_ids = filled; is_injected = true; config = c.config })
  unfolding inject_configured_depots get_all_depot_ids has_depot
  inject-IsSynced x vector filled available c keyed plain h =
      let all = names c.config.depots.depot_keys in
      elim (Bool-cases (is_none_queued all)) [
        | inl empty ↦
            let same : vector ≡ filled = ground arith in
            let nothing = empty_all x c.config.depots.depot_keys empty in
            let there = member-copies x vector in
            subst (λ v. IsSynced x (record { app_ids = v; is_injected = true; config = c.config }))
              same (record { once = ground arith; told = inl (ground arith) })
        | inr some_id ↦
            let same : vector ++ all ≡ filled = ground arith in
            subst (λ v. IsSynced x (record { app_ids = v; is_injected = true; config = c.config }))
              same (injected-IsSynced x vector c.config keyed plain)
      ]

  -- the three ways of asking
  data Asked (vector : List ℕ) (available : Bool) (c : Client) : Type 0 where
    as_before :
        try_init_fake_license_once grow mark (some (vector, available)) c ≡ c
        → Asked vector available c
    filled_with :
        (filled : List ℕ)
        → inject_configured_depots grow mark available (record c { app_ids = vector }) ≡ some filled
        → try_init_fake_license_once grow mark (some (vector, available)) c
          ≡ record { app_ids = filled; is_injected = true; config = c.config }
        → Asked vector available c

  asks : (vector : List ℕ) (available : Bool) (c : Client) → Asked vector available c
  asks vector available c = elim (Bool-cases c.is_injected) [
    | inl ready ↦ as_before (unfold try_init_fake_license_once in rw ready refl)
    | inr fresh ↦
        elim (Option-cases
          (inject_configured_depots grow mark available (record c { app_ids = vector }))) [
            | inl e ↦ as_before (unfold try_init_fake_license_once in rw e (either c.is_injected c))
            | inr (filled, e) ↦
                filled_with filled e (unfold try_init_fake_license_once in rw (fresh, e) refl)
          ]
  ]

  pub asked-IsSynced :
      (x : ℕ) (info : Option (List ℕ × Bool)) (c : Client)
      → IsPlain x (asked info)
      → IsKeyed c.config.depots
      → (c.is_injected ≡ false) ⊎ IsSynced x c
      → ((try_init_fake_license_once grow mark info c).is_injected ≡ false)
        ⊎ IsSynced x (try_init_fake_license_once grow mark info c)
  unfolding IsPlain try_init_fake_license_once
  asked-IsSynced x none c plain keyed s = s
  asked-IsSynced x (some (vector, available)) c plain keyed s = elim (asks vector available c) [
    | as_before e ↦ subst (λ d. (d.is_injected ≡ false) ⊎ IsSynced x d) (sym e) s
    | filled_with filled h e ↦
        subst (λ d. (d.is_injected ≡ false) ⊎ IsSynced x d) (sym e)
          (inr (inject-IsSynced x vector filled available c keyed plain h))
  ]

  pub asked_config :
      (info : Option (List ℕ × Bool)) (c : Client)
      → (try_init_fake_license_once grow mark info c).config ≡ c.config
  unfolding try_init_fake_license_once
  asked_config none c = refl
  asked_config (some (vector, available)) c = elim (asks vector available c) [
    | as_before e ↦ ap (λ d. d.config) e
    | filled_with filled h e ↦ ap (λ d. d.config) e
  ]

  -- a notification leaves the configuration, or takes both queues
  pub notify_config :
      (c : Client)
      → ((notify_license_changed grow mark c).0.config ≡ c.config)
        ⊎ ((notify_license_changed grow mark c).0.config ≡ drained c.config)
  unfolding notify_license_changed
  notify_config c = elim (Bool-cases c.is_injected) [
    | inl ready ↦
        elim (Bool-cases (
          is_none_queued c.config.depots.pending_removals
          && is_none_queued c.config.depots.pending_additions)) [
            | inl quiet ↦ inl (rw (ready, quiet) refl)
            | inr busy ↦ inr (rw (ready, busy) refl)
          ]
    | inr early ↦ inl (rw early refl)
  ]
