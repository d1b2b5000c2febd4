-- ===== src/LuaConfig/Grow.antt =====
-- What `addappid` changes while a file is committed.
use better_steam_tools_ameth.Base.{
  ℕ, ◌+◌, ◌^◌, ◌≤◌, ◌<◌, ◌≡◌, sym, ap, ◌∙◌, subst, true, false, ◌||◌, List, ◌∷◌, arith, inl, inr,
  ◌==◌, Bool-cases, Option-cases,
}
use better_steam_tools_ameth.Base.Text.{Bytes}
use better_steam_tools_ameth.Base.Keyed.{
  number_key, text_key, member, get, has, put, erase, IsMap, IsDistinct, get-put, has-put,
  put-IsMap,
}
use better_steam_tools_ameth.LuaConfig.{
  Depots, is_unnamed, succ_32, store_key, count_depot, add_app_id,
}
use better_steam_tools_ameth.LuaConfig.Count.{
  one_if, providers, given, providers-put, providers-erase, providers-le, AllDistinct,
  AllDistinct-get, put-AllDistinct,
}
use better_steam_tools_ameth.LuaConfig.Drop.{count_of, member-append}
use better_steam_tools_ameth.LuaConfig.Consistent.{IsConsistent, Notifies, Fits}

-- what the file gives is a set
given-IsDistinct :
    (file : Bytes) (files : List (Bytes × List ℕ))
    → AllDistinct files
    → IsDistinct (given file files)
given-IsDistinct file files h = elim (Option-cases (get file files)) [
  | inl e ↦ rw e tt
  | inr (ids, e) ↦ rw e (AllDistinct-get file files h e)
]

store_key-has :
    (x depot : ℕ) (key : Bytes) (keys : List (ℕ × Bytes))
    → has x (store_key depot key keys) ≡ (x == depot || has x keys)
unfolding store_key
store_key-has x depot key keys = elim (Bool-cases (x == depot)) [
  | inl e ↦
      let same : x ≡ depot = ground arith in
      let there = ap (λ y. has y keys) same in ground (arith, has-put x depot key keys)
  | inr e ↦ ground (arith, has-put x depot key keys)
]

-- a depot that the file gives has its key already
pub given-providers :
    (x : ℕ) (file : Bytes) (files : List (Bytes × List ℕ))
    → IsMap files
    → member x (given file files) ≡ true
    → 1 ≤ providers x files
given-providers x file files m e =
    let split = providers-erase x file files m in let split' = (rw e at split) in omega arith

module _ (file : Bytes) (depot : ℕ) (key : Bytes) (d : Depots) (c : IsConsistent d)
    (f : Fits file d) where
  abbrev keyed : Depots
  keyed = record d { depot_keys = store_key depot key d.depot_keys }

  abbrev old : List ℕ
  old = given file d.file_depots

  abbrev grown : Depots
  grown = count_depot file depot old keyed

  module _ (fresh : member depot old ≡ false) where
    more :
        (x : ℕ)
        → providers x (put file (depot ∷ old) d.file_depots)
          ≡ providers x d.file_depots + one_if (x == depot)
    more x =
        let change = providers-put x file (depot ∷ old) d.file_depots in
        elim (Bool-cases (x == depot)) [
          | inl e ↦
              let same : x ≡ depot = ground arith in
              let fresh' = subst (λ y. member y old ≡ false) (sym same) fresh in
              unfold member in ground arith
          | inr e ↦ unfold member in ground arith
        ]

    room : providers depot d.file_depots + 1 < 2 ^ 32
    unfolding Fits
    room =
        let split = providers-erase depot file d.file_depots c.mapped in
        let split' = (rw fresh at split) in
        let bound = providers-le depot (erase file d.file_depots) in omega arith

    next : succ_32 (count_of depot d) ≡ providers depot d.file_depots + 1
    unfolding succ_32
    next = let count = c.counts depot in let room' = room in omega arith

    grown_count : (x : ℕ) → count_of x grown ≡ providers x d.file_depots + one_if (x == depot)
    unfolding count_depot
    grown_count x =
        let get' = get-put x depot (succ_32 (count_of depot d)) d.ref_count in
        let count = c.counts x in
        elim (Bool-cases (x == depot)) [
          | inl e ↦
              let same : x ≡ depot = ground arith in
              let there = ap (λ y. providers y d.file_depots) same in ground (arith, next)
          | inr e ↦ ground arith
        ]

    grown-IsConsistent : IsConsistent grown
    unfolding count_depot
    grown-IsConsistent = record {
      counts = λ x. grown_count x ∙ sym (more x);
      kept = λ x.
          let kept' = c.kept x in
          let more' = more x in ground (arith, store_key-has x depot key d.depot_keys);
      mapped = put-IsMap file (depot ∷ old) d.file_depots c.mapped;
      distinct =
          put-AllDistinct file (depot ∷ old) d.file_depots
            (fresh, given-IsDistinct file d.file_depots c.distinct) c.distinct;
    }

    grown-Notifies : (x : ℕ) → Notifies d grown x
    unfolding count_depot
    grown-Notifies x =
        let keys = store_key-has x depot key d.depot_keys in
        let next' = next in
        let kept' = c.kept depot in
        let append = member-append x depot d.pending_additions in
        elim (Bool-cases (x == depot)) [
          | inl e ↦
              let same : x ≡ depot = ground arith in
              let there = ap (λ y. has y d.depot_keys) same in
              record {
                told = elim (Bool-cases (providers depot d.file_depots == 0)) [
                  | inl z ↦ inr (ground arith)
                  | inr z ↦ inl (ground arith)
                ];
                waits = λ w. ground arith;
              }
          | inr e ↦ record { told = inl (ground arith); waits = λ w. ground arith }
        ]

  module _ (known : member depot old ≡ true) where
    keyed_keys : (x : ℕ) → has x keyed.depot_keys ≡ has x d.depot_keys
    keyed_keys x =
        let some_file = given-providers depot file d.file_depots c.mapped known in
        let kept' = c.kept depot in
        let keys = store_key-has x depot key d.depot_keys in
        elim (Bool-cases (x == depot)) [
          | inl e ↦
              let same : x ≡ depot = ground arith in
              let there = ap (λ y. has y d.depot_keys) same in ground arith
          | inr e ↦ ground arith
        ]

    keyed-IsConsistent : IsConsistent keyed
    keyed-IsConsistent = record {
      counts = c.counts;
      kept = λ x. keyed_keys x ∙ c.kept x;
      mapped = c.mapped;
      distinct = c.distinct;
    }

  module _ (named : is_unnamed file ≡ false) where
    pub add_app_id-IsConsistent : IsConsistent (add_app_id file depot key d)
    unfolding add_app_id
    add_app_id-IsConsistent = elim (Bool-cases (member depot old)) [
      | inl known ↦ rw (named, known) (keyed-IsConsistent known)
      | inr fresh ↦ rw (named, fresh) (grown-IsConsistent fresh)
    ]

    pub add_app_id-Notifies : (x : ℕ) → Notifies d (add_app_id file depot key d) x
    unfolding add_app_id
    add_app_id-Notifies x = elim (Bool-cases (member depot old)) [
      | inl known ↦ rw (named, known) (record { told = inl (keyed_keys known x); waits = λ w. w })
      | inr fresh ↦ rw (named, fresh) (grown-Notifies fresh x)
    ]
