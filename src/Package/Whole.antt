-- ===== src/Package/Whole.antt =====
-- Any sequence of events: the client sees what the files give.
use better_steam_tools_ameth.Base.{
  ℕ, ◌+◌, ◌^◌, ◌<◌, ◌≡◌, ◌⊎◌, refl, sym, ap, ◌∙◌, subst, Bool, true, false, none, some, List, [],
  ◌∷◌, arith, inl, inr, length, Bool-cases,
}
use better_steam_tools_ameth.Base.Keyed.{number_key, has}
use better_steam_tools_ameth.LuaConfig.Files.{Lua, parse_file}
use better_steam_tools_ameth.LuaConfig.Count.{one_if}
use better_steam_tools_ameth.LuaConfig.Consistent.{Notifies}
use better_steam_tools_ameth.LuaConfig.Commit.{unload_file-Passage}
use better_steam_tools_ameth.LuaConfig.History.{
  FileCall, parse, unload, run_call, note_call, Given, any_gives, IsNamed,
}
use better_steam_tools_ameth.LuaConfig.Refines.{Represents, Represents-Fits, waiting-Represents}
use better_steam_tools_ameth.LuaConfig.Calls.{
  run_call-Agrees, drained-Represents, Represents-configured, Agrees,
}
use better_steam_tools_ameth.LuaConfig.Keys.{IsKeyed, run_call-IsKeyed}
use better_steam_tools_ameth.Package.{Client, has_depot, notify_license_changed, drained}
use better_steam_tools_ameth.Package.Vector.{copies, member-copies}
use better_steam_tools_ameth.Package.Notify.{IsSynced, notify_license_changed_exact}
use better_steam_tools_ameth.Package.Synced.{
  Event, changed, gone, asked, notified, World, client, happen, note, IsPlain, happens, notes,
  AllPlain,
}
use better_steam_tools_ameth.LuaConfig.Whole.{started, empty-Represents}
use better_steam_tools_ameth.Package.Step.{
  commit-Notifies, Notifies-IsSynced, asked-IsSynced, asked_config, notify_config,
}

-- the configuration is what the files have given, and the package is in step with it
pub record InStep {G : Type 0} (x : ℕ) (w : World G) (m : Given G) (left : ℕ) : Type 0 where
  pub interpreter : w.system.globals ≡ m.interpreter
  pub represents : Represents w.system.config m.by_file left
  pub keyed : IsKeyed w.system.config.depots
  synced : (w.is_injected ≡ false) ⊎ IsSynced x (client w)

module _ {G : Type 0} (lua : Lua G) (grow : List ℕ → ℕ → Bool) (mark : Bool)
    (room : (v : List ℕ) (n : ℕ) → grow v n ≡ true) where
  -- a change of the files
  called-InStep :
      (x : ℕ) (call : FileCall) (w : World G) (m : Given G) (left : ℕ)
      → IsNamed call
      → Notifies w.system.config.depots (run_call lua call w.system).config.depots x
      → InStep x w m (left + 1)
      → InStep x (record w { system = run_call lua call w.system }) (note_call lua call m) left
  called-InStep x call w m left named n i =
      let next = run_call-Agrees lua call w.system m.by_file left named i.represents in
      let next' =
        subst
          (λ g.
            Agrees (run_call lua call w.system)
              (note_call lua call (record { interpreter = g; by_file = m.by_file })) left)
          i.interpreter next in
      record {
        interpreter = next'.interpreter;
        represents = next'.represents;
        keyed = run_call-IsKeyed lua call w.system i.keyed;
        synced = elim i.synced [
          | inl early ↦ inl early
          | inr s ↦ inr (
              Notifies-IsSynced x w.app_ids w.is_injected w.system.config
                (run_call lua call w.system).config n s)
        ];
      }

  notified-IsSynced :
      (x : ℕ) (c : Client)
      → IsSynced x c
      → c.is_injected ≡ true
      → IsSynced x (notify_license_changed grow mark c).0
  unfolding has_depot
  notified-IsSynced x c s ready =
      let exact = notify_license_changed_exact grow mark room x c ready s in
      let after = (notify_license_changed grow mark c).0 in
      let there = member-copies x after.app_ids in
      let keys : has x after.config.depots.depot_keys ≡ has x c.config.depots.depot_keys =
        elim (notify_config grow mark c) [
          | inl e ↦ ap (λ d. has x d.depots.depot_keys) e
          | inr e ↦ ap (λ d. has x d.depots.depot_keys) e ∙ unfold drained in refl
        ] in
      record { once = ground arith; told = inl (ground arith) }

  notify_early : (c : Client) → c.is_injected ≡ false → (notify_license_changed grow mark c).0 ≡ c
  unfolding notify_license_changed
  notify_early c early = rw early refl

  notified-Represents :
      (w : World G) (m : Given G) (left : ℕ)
      → Represents w.system.config m.by_file (left + 1)
      → Represents (notify_license_changed grow mark (client w)).0.config m.by_file left
  notified-Represents w m left r =
      let less = waiting-Represents w.system.config m.by_file left r in
      elim (notify_config grow mark (client w)) [
        | inl e ↦ subst (λ c. Represents c m.by_file left) (sym e) less
        | inr e ↦
            subst (λ c. Represents c m.by_file left) (sym e)
              (unfold drained in drained-Represents w.system.config [] [] m.by_file left less)
      ]

  happen-InStep :
      (x : ℕ) (event : Event) (w : World G) (m : Given G) (left : ℕ)
      → IsPlain x event
      → InStep x w m (left + 1)
      → InStep x (happen lua grow mark event w) (note lua event m) left
  unfolding happen note IsPlain IsNamed
  happen-InStep x (changed file none) w m left plain i =
      called-InStep x (parse file none) w m left plain
        (unfold run_call parse_file in record { told = inl refl; waits = λ q. q }) i
  happen-InStep x (changed file (some script)) w m left plain i =
      called-InStep x (parse file (some script)) w m left plain
        (commit-Notifies file script.mtime _ _ w.system.config x plain i.represents.consistent
          (Represents-Fits file w.system.config m.by_file left i.represents))
        i
  happen-InStep x (gone file) w m left plain i =
      called-InStep x (unload file) w m left tt
        ((unload_file-Passage file w.system.config i.represents.consistent
            (Represents-Fits file w.system.config m.by_file left i.represents)).notifies
          x)
        i
  happen-InStep x (asked info) w m left plain i =
      let config = asked_config grow mark info (client w) in
      record {
        interpreter = i.interpreter;
        represents =
            subst (λ c. Represents c m.by_file left) (sym config)
              (waiting-Represents w.system.config m.by_file left i.represents);
        keyed = subst (λ c. IsKeyed c.depots) (sym config) i.keyed;
        synced = asked-IsSynced grow mark x info (client w) plain i.keyed i.synced;
      }
  happen-InStep x notified w m left plain i =
      let c = (notify_license_changed grow mark (client w)).0 in
      record {
        interpreter = i.interpreter;
        represents = notified-Represents w m left i.represents;
        keyed = elim (notify_config grow mark (client w)) [
          | inl e ↦ subst (λ c. IsKeyed c.depots) (sym e) i.keyed
          | inr e ↦ subst (λ c. IsKeyed c.depots) (sym e) (unfold drained in i.keyed)
        ];
        synced = elim (Bool-cases w.is_injected) [
          | inl ready ↦ elim i.synced [
            | inl early ↦ absurd (ground arith)
            | inr s ↦ inr (notified-IsSynced x (client w) s ready)
          ]
          | inr early ↦ inl (ap (λ c. c.is_injected) (notify_early (client w) early) ∙ early)
        ];
      }

  happens-InStep :
      (x : ℕ) (events : List Event) (w : World G) (m : Given G) (left : ℕ)
      → AllPlain x events
      → InStep x w m (length events + left)
      → InStep x (happens lua grow mark events w) (notes lua events m) left
  unfolding happens notes AllPlain
  happens-InStep x [] w m left plain i = subst (InStep x w m) (omega arith) i
  happens-InStep x (event ∷ events) w m left plain i =
      happens-InStep x events (happen lua grow mark event w) (note lua event m) left plain.1 (
        happen-InStep x event w m (length events + left) plain.0
          (subst (InStep x w m) (omega arith) i))

abbrev pub first : {G : Type 0} → G → World G
first globals = record { system = started globals; app_ids = []; is_injected = false }

-- From the start, with no file and no package published, let fewer than 2^32 events happen:
-- files change or go, the client asks and its package can be read or not, and notifications. If
-- every file that changes has a name, no package that the client reads holds the id by itself,
-- the vector can always be grown, and a package is published in the end, then one more
-- notification leaves the id in the published vector once if some file gives it by the
-- operations of its last run that was taken, and else not at all. A run is taken as a whole,
-- unless it broke off and the run taken before it had given a depot or a pin.
pub happens-notified :
    {G : Type 0} (lua : Lua G) (grow : List ℕ → ℕ → Bool) (mark : Bool) (globals : G)
    (events : List Event) (x : ℕ)
    → ((v : List ℕ) (n : ℕ) → grow v n ≡ true)
    → AllPlain x events
    → length events < 2 ^ 32
    → (happens lua grow mark events (first globals)).is_injected ≡ true
    → copies x
        (happen lua grow mark notified (happens lua grow mark events (first globals))).app_ids
      ≡ one_if
          (any_gives x (notes lua events (record { interpreter = globals; by_file = [] })).by_file)
unfolding happen has_depot
happens-notified lua grow mark globals events x room plain few ready =
    let w = happens lua grow mark events (first globals) in
    let m = notes lua events (record { interpreter = globals; by_file = [] }) in
    let start : InStep x (first globals) (record { interpreter = globals; by_file = [] })
        (length events + 0) =
      record {
        interpreter = refl;
        represents = empty-Represents (length events + 0) (omega arith);
        keyed = tt;
        synced = inl refl;
      } in
    let i =
      happens-InStep lua grow mark room x events (first globals)
        (record { interpreter = globals; by_file = [] }) 0 plain start in
    let given = Represents-configured x w.system.config m.by_file 0 i.represents in
    elim i.synced [
      | inl early ↦ absurd (ground arith)
      | inr s ↦
          let exact = notify_license_changed_exact grow mark room x (client w) ready s in
          ground arith
    ]
