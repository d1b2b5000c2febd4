-- ===== src/LuaConfig/Calls.antt =====
-- Any sequence of calls from outside: what is configured is what the files have given.
use better_steam_tools_ameth.Base.{
  ℕ, ◌+◌, ◌≤◌, ◌≡◌, refl, sym, ap, ◌∙◌, subst, true, false, not, ◌||◌, none, some, List, [], ◌∷◌,
  arith, inl, inr, ◌==◌, length, Bool-cases, Option-cases,
}
use better_steam_tools_ameth.Base.Text.{Bytes, bytes_eq, bytes_eq→eq}
use better_steam_tools_ameth.Base.Keyed.{
  number_key, text_key, same_self, member, get, has, IsMap, has-get,
}
use better_steam_tools_ameth.LuaConfig.{ConfigState, ConfigOp, is_unnamed, on_depots}
use better_steam_tools_ameth.LuaConfig.Files.{
  System, Lua, run_lines, has_no_line, is_loaded, parse_file,
}
use better_steam_tools_ameth.LuaConfig.Count.{given, providers}
use better_steam_tools_ameth.LuaConfig.Given.{gives}
use better_steam_tools_ameth.LuaConfig.Loads.{member-given-has}
use better_steam_tools_ameth.LuaConfig.Grow.{given-providers}
use better_steam_tools_ameth.LuaConfig.History.{
  FileCall, parse, unload, removals, additions, run_call, run_calls, note_call, note_calls, Given,
  ops_of, any_gives, AllNamed, IsNamed,
}
use better_steam_tools_ameth.LuaConfig.Refines.{
  Represents, waiting-Represents, unload_file-Represents, commit-Represents,
}

-- the system and the specification have the same interpreter and the same contributions
pub record Agrees {G : Type 0} (s : System G) (m : Given G) (left : ℕ) : Type 0 where
  pub interpreter : s.globals ≡ m.interpreter
  pub represents : Represents s.config m.by_file left

-- the queues have no part in it
pub drained-Represents :
    (s : ConfigState) (gone added : List ℕ) (by_file : List (Bytes × List ConfigOp)) (left : ℕ)
    → Represents s by_file left
    → Represents
        (on_depots (λ d. record d { pending_removals = gone; pending_additions = added }) s)
        by_file
        left
unfolding is_loaded
drained-Represents s gone added by_file left r =
    let c = r.consistent in
    record {
      consistent = record {
        counts = c.counts;
        kept = c.kept;
        mapped = c.mapped;
        distinct = c.distinct;
      };
      same_given = r.same_given;
      same_loaded = r.same_loaded;
      mapped = r.mapped;
      room = r.room;
    }

module _ {G : Type 0} (lua : Lua G) where
  pub run_call-Agrees :
      (call : FileCall) (s : System G) (by_file : List (Bytes × List ConfigOp)) (left : ℕ)
      → IsNamed call
      → Represents s.config by_file (left + 1)
      → Agrees
          (run_call lua call s)
          (note_call lua call (record { interpreter = s.globals; by_file = by_file }))
          left
  unfolding run_call note_call IsNamed parse_file
  run_call-Agrees (parse file none) s by_file left named r = record {
    interpreter = refl;
    represents = waiting-Represents s.config by_file left r;
  }
  run_call-Agrees (parse file (some script)) s by_file left named r =
      let out = run_lines lua s.globals [] script.lines in
      let incomplete = has_no_line script.lines || not (is_unnamed out.1.1) || script.bad in
      record {
        interpreter = refl;
        represents =
            commit-Represents file s.config by_file left r script.mtime incomplete out.1.0 named;
      }
  run_call-Agrees (unload file) s by_file left named r = record {
    interpreter = refl;
    represents = unload_file-Represents file s.config by_file left r;
  }
  run_call-Agrees removals s by_file left named r = record {
    interpreter = refl;
    represents =
        drained-Represents s.config [] s.config.depots.pending_additions by_file left
          (waiting-Represents s.config by_file left r);
  }
  run_call-Agrees additions s by_file left named r = record {
    interpreter = refl;
    represents =
        drained-Represents s.config s.config.depots.pending_removals [] by_file left
          (waiting-Represents s.config by_file left r);
  }

  pub run_calls-Agrees :
      (calls : List FileCall) (s : System G) (by_file : List (Bytes × List ConfigOp)) (left : ℕ)
      → AllNamed calls
      → Represents s.config by_file (length calls + left)
      → Agrees
          (run_calls lua calls s)
          (note_calls lua calls (record { interpreter = s.globals; by_file = by_file }))
          left
  unfolding run_calls note_calls AllNamed
  run_calls-Agrees [] s by_file left named r = record {
    interpreter = refl;
    represents = subst (Represents s.config by_file) (omega arith) r;
  }
  run_calls-Agrees (call ∷ calls) s by_file left named r =
      let first =
        run_call-Agrees call s by_file (length calls + left) named.0
          (subst (Represents s.config by_file) (omega arith) r) in
      let s' = run_call lua call s in
      let m' = note_call lua call (record { interpreter = s.globals; by_file = by_file }) in
      let rest = run_calls-Agrees calls s' m'.by_file left named.1 first.represents in
      subst
        (λ g.
          Agrees (run_calls lua calls s')
            (note_calls lua calls (record { interpreter = g; by_file = m'.by_file })) left)
        first.interpreter rest

-- an entry behind another name
tail_get :
    {V : Type 0} (other file : Bytes) (v : V) (m : List (Bytes × V))
    → has file m ≡ false
    → has other m ≡ true
    → get other ((file, v) ∷ m) ≡ get other m
unfolding get
tail_get other file v m gone there = elim (Bool-cases (bytes_eq other file)) [
  | inl e ↦ let same = ap (λ f. has f m) (bytes_eq→eq other file e) in absurd (ground arith)
  | inr e ↦ rw e refl
]

gives-has :
    (x : ℕ) (file : Bytes) (by_file : List (Bytes × List ConfigOp))
    → gives x (ops_of file by_file) ≡ true
    → has file by_file ≡ true
unfolding gives
gives-has x file by_file h = elim (Option-cases (get file by_file)) [
  | inl e ↦ let h' = (rw e at h) in absurd (ground arith)
  | inr (ops, e) ↦ ground (arith, has-get file by_file)
]

-- a depot that is given is given by some file
providers_some :
    (x : ℕ) (files : List (Bytes × List ℕ))
    → IsMap files
    → 1 ≤ providers x files
    → (file : Bytes) × (member x (given file files) ≡ true)
unfolding providers get
providers_some x [] h p = absurd (omega arith)
providers_some x ((file, ids) ∷ files) h p = elim (Bool-cases (member x ids)) [
  | inl m ↦ (file, let self : bytes_eq file file ≡ true = same_self file in rw self m)
  | inr m ↦
      let p' = (rw m at p) in
      let (other, m') = providers_some x files h.1 (omega arith) in
      let same = tail_get other file ids files h.0 (member-given-has x other files m') in
      (other, rw same m')
]

any_gives_some :
    (x : ℕ) (by_file : List (Bytes × List ConfigOp))
    → IsMap by_file
    → any_gives x by_file ≡ true
    → (file : Bytes) × (gives x (ops_of file by_file) ≡ true)
unfolding any_gives get
any_gives_some x [] h p = absurd (ground arith)
any_gives_some x ((file, ops) ∷ by_file) h p = elim (Bool-cases (gives x ops)) [
  | inl m ↦ (file, let self : bytes_eq file file ≡ true = same_self file in rw self m)
  | inr m ↦
      let (other, m') = any_gives_some x by_file h.1 (ground arith) in
      let same = tail_get other file ops by_file h.0 (gives-has x other by_file m') in
      (other, rw same m')
]

gives-any_gives :
    (x : ℕ) (file : Bytes) (by_file : List (Bytes × List ConfigOp))
    → gives x (ops_of file by_file) ≡ true
    → any_gives x by_file ≡ true
unfolding any_gives gives get
gives-any_gives x file [] h = h
gives-any_gives x file ((f, ops) ∷ by_file) h = elim (Bool-cases (bytes_eq file f)) [
  | inl e ↦ let h' = (rw e at h) in ground arith
  | inr e ↦ let h' = (rw e at h) in ground (arith, gives-any_gives x file by_file)
]

-- what is configured is what some file gives
pub Represents-configured :
    (x : ℕ) (s : ConfigState) (by_file : List (Bytes × List ConfigOp)) (left : ℕ)
    → Represents s by_file left
    → has x s.depots.depot_keys ≡ any_gives x by_file
Represents-configured x s by_file left r =
    let c = r.consistent in
    let kept = c.kept x in
    elim (Bool-cases (any_gives x by_file)) [
      | inl e ↦
          let (file, g) = any_gives_some x by_file r.mapped e in
          let m = r.same_given file x ∙ g in
          let p = given-providers x file s.depots.file_depots c.mapped m in ground arith
      | inr e ↦ elim (Bool-cases (providers x s.depots.file_depots == 0)) [
        | inl z ↦ ground arith
        | inr z ↦
            let (file, m) = providers_some x s.depots.file_depots c.mapped (ground arith) in
            let g = gives-any_gives x file by_file (sym (r.same_given file x) ∙ m) in
            absurd (ground arith)
      ]
    ]
