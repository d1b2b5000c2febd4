-- ===== src/LuaConfig/Refines.antt =====
-- Any sequence of calls leaves the configuration that the specification names.
use better_steam_tools_ameth.Base.{
  ℕ, ◌+◌, ◌^◌, ◌≤◌, ◌<◌, ◌≡◌, refl, sym, ap, ◌∙◌, subst, Bool, true, false, ◌&&◌, List, [], ◌∷◌,
  arith, inl, inr, if◌then◌else◌, length, Bool-cases,
}
use better_steam_tools_ameth.Base.Text.{Bytes, bytes_eq, bytes_eq→eq}
use better_steam_tools_ameth.Base.Keyed.{
  number_key, text_key, member, get, has, put, erase, IsMap, get-put, get-erase, erase_absent,
  has-get, put-IsMap, erase-IsMap,
}
use better_steam_tools_ameth.LuaConfig.{ConfigState, ConfigOp, or_else, is_unnamed}
use better_steam_tools_ameth.LuaConfig.Files.{unload_file, is_loaded, commit}
use better_steam_tools_ameth.LuaConfig.Count.{given}
use better_steam_tools_ameth.LuaConfig.Consistent.{IsConsistent, Fits, unload_depots_files}
use better_steam_tools_ameth.LuaConfig.Given.{gives}
use better_steam_tools_ameth.LuaConfig.Commit.{
  Passage, commit-Passage, unload_file-Passage, begun, erase-erase,
}
use better_steam_tools_ameth.LuaConfig.Loads.{
  loads, apply_ops-is_loaded, apply_ops_others, unload_file_pins, unload_file-is_loaded,
}
use better_steam_tools_ameth.LuaConfig.History.{ops_of}

-- the state and what the files have given say the same, with room for `left` more files
pub record Represents (s : ConfigState) (by_file : List (Bytes × List ConfigOp)) (left : ℕ)
    : Type 0 where
  pub consistent : IsConsistent s.depots
  pub same_given :
      (file : Bytes) (x : ℕ)
      → member x (given file s.depots.file_depots) ≡ gives x (ops_of file by_file)
  pub same_loaded : (file : Bytes) → is_loaded file s ≡ loads (ops_of file by_file)
  pub mapped : IsMap by_file
  pub room : length s.depots.file_depots + left < 2 ^ 32

get_apart :
    {V : Type 0} (f file : Bytes) (a b : List (Bytes × V))
    → bytes_eq f file ≡ false
    → erase file a ≡ erase file b
    → get f a ≡ get f b
get_apart f file a b e same =
    let same' = ap (get f) same in ground (arith, get-erase f file a, get-erase f file b)

length-erase-le :
    {V : Type 0} (file : Bytes) (m : List (Bytes × V)) → length (erase file m) ≤ length m
unfolding erase
length-erase-le file [] = omega arith
length-erase-le file ((f, v) ∷ m) = ground (arith, length-erase-le file m)

length-erase-ge :
    {V : Type 0} (file : Bytes) (m : List (Bytes × V))
    → IsMap m
    → length m ≤ length (erase file m) + 1
unfolding erase
length-erase-ge file [] h = omega arith
length-erase-ge file ((f, v) ∷ m) h = elim (Bool-cases (bytes_eq file f)) [
  | inl e ↦
      let gone = subst (λ g. has g m ≡ false) (sym (bytes_eq→eq file f e)) h.0 in
      let same = ap length (erase_absent file m gone) in ground arith
  | inr e ↦ ground (arith, length-erase-ge file m h.1)
]

module _ (file : Bytes) (ops : List ConfigOp) (s t : ConfigState)
    (before after : List (Bytes × List ConfigOp)) (left : ℕ) where
  abbrev Entry : Type 0
  Entry = (f : Bytes) → ops_of f after ≡ (if bytes_eq f file then ops else ops_of f before)

  here : (f : Bytes) → bytes_eq f file ≡ true → Entry → ops_of f after ≡ ops
  here f e entry = (rw e at (entry f))

  elsewhere : (f : Bytes) → bytes_eq f file ≡ false → Entry → ops_of f after ≡ ops_of f before
  elsewhere f e entry = (rw e at (entry f))

  -- a passage of the depots of one file is one of its entries
  Passage-Represents :
      Represents s before (left + 1)
      → Passage file (λ x. gives x ops) s.depots t.depots
      → is_loaded file t ≡ loads ops
      → erase file t.pins.file_overrides ≡ erase file s.pins.file_overrides
      → Entry
      → IsMap after
      → Represents t after left
  unfolding is_loaded
  Passage-Represents r p l o entry m = record {
    consistent = p.consistent;
    same_given = λ f x. elim (Bool-cases (bytes_eq f file)) [
      | inl e ↦
          ap (λ g. member x (given g t.depots.file_depots)) (bytes_eq→eq f file e)
          ∙ p.gives_now x
          ∙ ap (gives x) (sym (here f e entry))
      | inr e ↦
          ap (λ ids. member x (or_else ids []))
            (get_apart f file t.depots.file_depots s.depots.file_depots e p.others)
          ∙ r.same_given f x
          ∙ ap (gives x) (sym (elsewhere f e entry))
    ];
    same_loaded = λ f. elim (Bool-cases (bytes_eq f file)) [
      | inl e ↦ ap (λ g. is_loaded g t) (bytes_eq→eq f file e) ∙ l ∙ ap loads (sym (here f e entry))
      | inr e ↦
          let depots = get_apart f file t.depots.file_depots s.depots.file_depots e p.others in
          let pins = get_apart f file t.pins.file_overrides s.pins.file_overrides e o in
          let before_loaded = r.same_loaded f in
          let same = ap loads (elsewhere f e entry) in
          ground (
            arith,
            has-get f t.depots.file_depots,
            has-get f s.depots.file_depots,
            has-get f t.pins.file_overrides,
            has-get f s.pins.file_overrides,
          )
    ];
    mapped = m;
    room =
        let fits = r.room in
        let one = length-erase-ge file t.depots.file_depots p.consistent.mapped in
        let less = length-erase-le file s.depots.file_depots in
        let same = ap length p.others in omega arith;
  }

pub waiting-Represents :
    (s : ConfigState) (by_file : List (Bytes × List ConfigOp)) (left : ℕ)
    → Represents s by_file (left + 1)
    → Represents s by_file left
waiting-Represents s by_file left r = record {
  consistent = r.consistent;
  same_given = r.same_given;
  same_loaded = r.same_loaded;
  mapped = r.mapped;
  room = let fits = r.room in omega arith;
}

-- there is room for the file
pub Represents-Fits :
    (file : Bytes) (s : ConfigState) (by_file : List (Bytes × List ConfigOp)) (left : ℕ)
    → Represents s by_file (left + 1)
    → Fits file s.depots
unfolding Fits
Represents-Fits file s by_file left r =
    let fits = r.room in let less = length-erase-le file s.depots.file_depots in omega arith

-- a run that broke off leaves a file that has given something as it was
pub commit_held :
    (file : Bytes) (mtime : ℕ) (incomplete : Bool) (ops : List ConfigOp) (s : ConfigState)
    → (incomplete && is_loaded file s) ≡ true
    → commit file mtime incomplete ops s ≡ s
unfolding commit
commit_held file mtime incomplete ops s held = rw held refl

module _ (file : Bytes) (s : ConfigState) (by_file : List (Bytes × List ConfigOp)) (left : ℕ)
    (r : Represents s by_file (left + 1)) where
  fits : Fits file s.depots
  fits = Represents-Fits file s by_file left r

  pins : erase file (unload_file file s).pins.file_overrides ≡ erase file s.pins.file_overrides
  pins = ap (erase file) (unload_file_pins file s) ∙ erase-erase file s.pins.file_overrides

  pub unload_file-Represents : Represents (unload_file file s) (erase file by_file) left
  unload_file-Represents =
      Passage-Represents file [] s (unload_file file s) by_file (erase file by_file) left r
        (unfold gives in unload_file-Passage file s r.consistent fits)
        (unfold loads in
          unload_file-is_loaded file s (unload_depots_files file s.depots r.consistent fits))
        pins (λ f. ground (arith, get-erase f file by_file)) (erase-IsMap file by_file r.mapped)

  commit-is_loaded :
      (mtime : ℕ) (incomplete : Bool) (ops : List ConfigOp)
      → is_unnamed file ≡ false
      → (incomplete && is_loaded file s) ≡ false
      → is_loaded file (commit file mtime incomplete ops s) ≡ loads ops
  unfolding commit is_loaded
  commit-is_loaded mtime incomplete ops named go =
      let gone =
        unload_file-is_loaded file s (unload_depots_files file s.depots r.consistent fits) in
      let all = apply_ops-is_loaded file ops (begun file mtime (unload_file file s)) named in
      rw go (all ∙ ground arith)

  commit_others :
      (mtime : ℕ) (incomplete : Bool) (ops : List ConfigOp)
      → is_unnamed file ≡ false
      → (incomplete && is_loaded file s) ≡ false
      → erase file (commit file mtime incomplete ops s).pins.file_overrides
        ≡ erase file s.pins.file_overrides
  unfolding commit
  commit_others mtime incomplete ops named go =
      rw go (apply_ops_others file ops (begun file mtime (unload_file file s)) named ∙ pins)

  pub commit-Represents :
      (mtime : ℕ) (incomplete : Bool) (ops : List ConfigOp)
      → is_unnamed file ≡ false
      → Represents
          (commit file mtime incomplete ops s)
          (if incomplete && loads (ops_of file by_file) then by_file else put file ops by_file)
          left
  commit-Represents mtime incomplete ops named =
      let same = r.same_loaded file in
      elim (Bool-cases (incomplete && loads (ops_of file by_file))) [
        | inl held ↦
            let held' : (incomplete && is_loaded file s) ≡ true = ground arith in
            rw held (
              subst (λ t. Represents t by_file left)
                (sym (commit_held file mtime incomplete ops s held'))
                (waiting-Represents s by_file left r))
        | inr go ↦
            let go' : (incomplete && is_loaded file s) ≡ false = ground arith in
            rw go (
              Passage-Represents file ops s (commit file mtime incomplete ops s) by_file
                (put file ops by_file) left r
                (commit-Passage file s mtime incomplete ops r.consistent fits named go')
                (commit-is_loaded mtime incomplete ops named go')
                (commit_others mtime incomplete ops named go')
                (λ f. ground (arith, get-put f file ops by_file))
                (put-IsMap file ops by_file r.mapped))
      ]
