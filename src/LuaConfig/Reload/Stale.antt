-- ===== src/LuaConfig/Reload/Stale.antt =====
-- After a reload no file is loaded that is no longer there.
use better_steam_tools_ameth.Base.{
  ◌+◌, ◌^◌, ◌≡◌, ◌<◌, refl, ap, ◌∙◌, subst, Bool, true, false, not, ◌&&◌, ◌||◌, Option, none, some,
  List, [], ◌∷◌, ◌++◌, arith, inl, inr, if◌then◌else◌, Bool-cases, length,
}
use better_steam_tools_ameth.Base.Text.{Bytes, bytes_eq, bytes_eq→eq}
use better_steam_tools_ameth.Base.Keyed.{
  text_key, member, get, has, put, erase, names, get-put, get-erase,
}
use better_steam_tools_ameth.LuaConfig.{ConfigState, ConfigOp, or_else}
use better_steam_tools_ameth.LuaConfig.Files.{System, Lua, Script, run_lines, is_loaded}
use better_steam_tools_ameth.LuaConfig.Loads.{loads}
use better_steam_tools_ameth.LuaConfig.History.{
  FileCall, parse, unload, run_calls, note_call, note_calls, Given, ops_of, AllNamed,
}
use better_steam_tools_ameth.LuaConfig.Refines.{Represents}
use better_steam_tools_ameth.LuaConfig.Calls.{run_calls-Agrees}
use better_steam_tools_ameth.LuaConfig.Whole.{started, empty-Represents}
use better_steam_tools_ameth.LuaConfig.Reload.{
  each_once, scan_all, ordered_files, tracked_files, unload_stale, parse_each, reload_calls,
  reload_directories, clear_additions,
}

member-each_once :
    (file : Bytes) (seen files : List Bytes)
    → (member file (each_once seen files) || member file seen)
      ≡ (member file files || member file seen)
unfolding each_once member
member-each_once file seen [] = refl
member-each_once file seen (f ∷ files) =
    let skipped = member-each_once file seen files in
    let added = member-each_once file (f ∷ seen) files in
    elim (Bool-cases (member f seen)) [
      | inl old ↦ rw old (elim (Bool-cases (bytes_eq file f)) [
        | inl same ↦ let there = ap (λ j. member j seen) (bytes_eq→eq file f same) in ground arith
        | inr apart ↦ ground arith
      ])
      | inr new ↦ rw new (ground arith)
    ]

has_apart :
    (file f : Bytes) (active : List Bytes)
    → member f active ≡ true
    → member file active ≡ false
    → bytes_eq file f ≡ false
has_apart file f active there gone = elim (Bool-cases (bytes_eq file f)) [
  | inl e ↦ let same = ap (λ g. member g active) (bytes_eq→eq file f e) in absurd (ground arith)
  | inr e ↦ e
]

-- whether the file has given something, as the specification has it
abbrev counts : {G : Type 0} → Bytes → Given G → Bool
counts file m = loads (ops_of file m.by_file)

either_same :
    {A : Type 0} (b : Bool) (x y z : A) (f : A → List ConfigOp)
    → f x ≡ f z
    → f y ≡ f z
    → f (if b then x else y) ≡ f z
either_same true x y z f l r = l
either_same false x y z f l r = r

loads-erase :
    (file f : Bytes) (by_file : List (Bytes × List ConfigOp))
    → loads (ops_of file (erase f by_file)) ≡ (loads (ops_of file by_file) && not (bytes_eq file f))
loads-erase file f by_file = elim (Bool-cases (bytes_eq file f)) [
  | inl e ↦
      let gone : get file (erase f by_file) ≡ none = get-erase file f by_file ∙ rw e refl in
      rw (gone, e) (unfold loads in ground arith)
  | inr e ↦
      let kept : get file (erase f by_file) ≡ get file by_file =
        get-erase file f by_file ∙ rw e refl in
      rw (kept, e) (ground arith)
]

module _ {G : Type 0} (lua : Lua G) (file : Bytes) where
  -- the stale files go, and with them what they have given
  note-unload_stale :
      (active files : List Bytes) (m : Given G)
      → member file active ≡ false
      → counts file (note_calls lua (unload_stale active files) m)
        ≡ (counts file m && not (member file files))
  unfolding note_calls note_call unload_stale member
  note-unload_stale active [] m gone = ground arith
  note-unload_stale active (f ∷ files) m gone = elim (Bool-cases (member f active)) [
    | inl there ↦
        let apart = has_apart file f active there gone in
        rw there (note-unload_stale active files m gone ∙ ground arith)
    | inr stale ↦
        let next = note_call lua (unload f) m in
        let rest = note-unload_stale active files next gone in
        let erased = loads-erase file f m.by_file in rw stale (rest ∙ ground arith)
  ]

  -- a run of another file
  note-parse :
      (f : Bytes) (script : Option Script) (m : Given G)
      → bytes_eq file f ≡ false
      → ops_of file (note_call lua (parse f script) m).by_file ≡ ops_of file m.by_file
  unfolding note_call
  note-parse f none m apart = refl
  note-parse f (some script) m apart =
      let out = run_lines lua m.interpreter [] script.lines in
      let put_same : ops_of file (put f out.1.0 m.by_file) ≡ ops_of file m.by_file =
        ap (λ o. or_else o []) {y = get file m.by_file}
          (get-put file f out.1.0 m.by_file ∙ rw apart refl) in
      either_same _ m.by_file (put f out.1.0 m.by_file) m.by_file (ops_of file) refl put_same

  note-parse_each :
      (read : Bytes → Option Script) (files : List Bytes) (m : Given G)
      → member file files ≡ false
      → ops_of file (note_calls lua (parse_each read files) m).by_file ≡ ops_of file m.by_file
  unfolding note_calls parse_each member
  note-parse_each read [] m gone = refl
  note-parse_each read (f ∷ files) m gone =
      note-parse_each read files (note_call lua (parse f (read f)) m) (ground arith)
      ∙ note-parse f (read f) m (ground arith)

  note_calls-append :
      (xs ys : List FileCall) (m : Given G)
      → note_calls lua (xs ++ ys) m ≡ note_calls lua ys (note_calls lua xs m)
  unfolding note_calls
  note_calls-append [] ys m = refl
  note_calls-append (x ∷ xs) ys m = note_calls-append xs ys (note_call lua x m)

member-append :
    (x : Bytes) (xs ys : List Bytes) → member x (xs ++ ys) ≡ (member x xs || member x ys)
unfolding member
member-append x [] ys = refl
member-append x (y ∷ xs) ys = ground (arith, member-append x xs ys)

member-names : {V : Type 0} (x : Bytes) (m : List (Bytes × V)) → member x (names m) ≡ has x m
unfolding member names has
member-names x [] = refl
member-names x ((y, v) ∷ m) = ap (λ b. bytes_eq x y || b) (member-names x m)

-- the tracked files are those that are loaded
tracked-is_loaded :
    (file : Bytes) (c : ConfigState) → member file (tracked_files c) ≡ is_loaded file c
unfolding tracked_files is_loaded
tracked-is_loaded file c =
    let all =
      member-each_once file [] (names c.depots.file_depots ++ names c.pins.file_overrides) in
    let both = member-append file (names c.depots.file_depots) (names c.pins.file_overrides) in
    let depots = member-names file c.depots.file_depots in
    let pins = member-names file c.pins.file_overrides in
    let none_seen : member file [] ≡ false = unfold member in refl in ground arith

cleared-is_loaded :
    {G : Type 0} (file : Bytes) (clear : Bool) (s : System G)
    → is_loaded file (if clear then clear_additions s else s).config ≡ is_loaded file s.config
unfolding clear_additions is_loaded
cleared-is_loaded file true s = refl
cleared-is_loaded file false s = refl

module _ {G : Type 0} (lua : Lua G) (collect : Bytes → List Bytes) (read : Bytes → Option Script)
    (dirs : List Bytes) (file : Bytes) (missing : member file (scan_all collect dirs) ≡ false) where
  not_ordered : member file (ordered_files collect dirs) ≡ false
  unfolding ordered_files
  not_ordered =
      let all = member-each_once file [] (scan_all collect dirs) in
      let none_seen : member file [] ≡ false = unfold member in refl in ground arith

  reload_calls-counts :
      (c : ConfigState) (m : Given G)
      → is_loaded file c ≡ counts file m
      → counts file (note_calls lua (reload_calls collect read dirs c) m) ≡ false
  unfolding reload_calls
  reload_calls-counts c m same =
      let ordered = ordered_files collect dirs in
      let stale = unload_stale ordered (tracked_files c) in
      let whole = ap (counts file) (note_calls-append lua file stale (parse_each read ordered) m) in
      let parsed =
        ap loads (note-parse_each lua file read ordered (note_calls lua stale m) not_ordered) in
      let gone = note-unload_stale lua file ordered (tracked_files c) m not_ordered in
      let tracked = tracked-is_loaded file c in ground arith

  -- From the start, after any calls that parse files with a name, unload files or take the queues,
  -- let the directories be scanned anew, with fewer than 2^32 calls in all and names for all files
  -- found. A file that the scan does not find has then given no depot and no pin that still counts.
  pub reload_directories_missing :
      (globals : G) (calls : List FileCall) (clear : Bool)
      → AllNamed calls
      → AllNamed (reload_calls collect read dirs (run_calls lua calls (started globals)).config)
      → length calls
          + length (reload_calls collect read dirs (run_calls lua calls (started globals)).config)
        < 2 ^ 32
      → is_loaded file
          (reload_directories lua collect read dirs clear
            (run_calls lua calls (started globals))).config
        ≡ false
  unfolding reload_directories
  reload_directories_missing globals calls clear named again few =
      let s = run_calls lua calls (started globals) in
      let more = reload_calls collect read dirs s.config in
      let m = note_calls lua calls (record { interpreter = globals; by_file = [] }) in
      let before =
        run_calls-Agrees lua calls (started globals) [] (length more) named
          (empty-Represents (length calls + length more) few) in
      let after =
        run_calls-Agrees lua more s m.by_file 0 again
          (subst (Represents s.config m.by_file) (omega arith) before.represents) in
      let loaded = before.represents.same_loaded file in
      let none_left =
        reload_calls-counts s.config (record { interpreter = s.globals; by_file = m.by_file })
          loaded in
      cleared-is_loaded file clear (run_calls lua more s)
      ∙ after.represents.same_loaded file
      ∙ none_left
