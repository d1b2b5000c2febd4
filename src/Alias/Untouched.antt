-- ===== src/Alias/Untouched.antt =====
-- Files that are not ours stay as they are.
use better_steam_tools_ameth.Base.{
  ℕ, ◌≡◌, refl, ap, ◌∙◌, subst, Bool, true, false, ◌&&◌, ◌||◌, [], ◌∷◌, arith, inl, inr, Bool-cases,
}
use better_steam_tools_ameth.Base.Text.{Bytes, bytes_eq, bytes_eq→eq}
use better_steam_tools_ameth.Base.Keyed.{text_key, get}
use better_steam_tools_ameth.Alias.{
  Node, Directory, Decision, ReadOut, absent, read_ok, unreadable, decide, should_write_alias,
  Calls, temp_path_for, apply_alias, apply_aliases, inspect, read_node, is_stale, is_temp_name,
  remove_stale_temps, stale_temp_age, alias_dll, alias_toml, source_dll, source_toml,
  build_toml_alias, inspect_dll, inspect_toml, looks_like_amethyst_dll, is_generated_toml_alias,
  regular, link, special,
}
use better_steam_tools_ameth.Alias.Others.{get-write_bytes_via_temp}

is_stale-temp :
    (now min_age : ℕ) (name : Bytes) (node : Node)
    → (is_temp_name name alias_dll || is_temp_name name alias_toml) ≡ false
    → is_stale now min_age name node ≡ false
unfolding is_stale
is_stale-temp now min_age name (regular bytes time readable) h = ground arith
is_stale-temp now min_age name (link target) h = refl
is_stale-temp now min_age name special h = refl

-- the sweep takes temporary files only
get-remove_stale_temps :
    (removes : Bytes → Bool) (now min_age : ℕ) (name : Bytes) (dir : Directory)
    → (is_temp_name name alias_dll || is_temp_name name alias_toml) ≡ false
    → get name (remove_stale_temps removes now min_age dir) ≡ get name dir
unfolding remove_stale_temps get
get-remove_stale_temps removes now min_age name [] h = refl
get-remove_stale_temps removes now min_age name ((other, node) ∷ dir) h =
    let rest = get-remove_stale_temps removes now min_age name dir h in
    elim (Bool-cases (bytes_eq name other)) [
      | inl e ↦
          let kept =
            subst (λ o. is_stale now min_age o node ≡ false) (bytes_eq→eq name other e)
              (is_stale-temp now min_age name node h) in
          rw kept (ground arith)
      | inr e ↦ elim (Bool-cases (is_stale now min_age other node && removes other)) [
        | inl swept ↦ rw (swept, e) rest
        | inr kept ↦ rw (kept, e) rest
      ]
    ]

-- whether an alias may be written over: nothing is there, or a file of ours
unfoldable pub may_write : (Bytes → Bool) → ReadOut → Bool
may_write ours absent = true
may_write ours (read_ok bytes) = ours bytes
may_write ours unreadable = false

inspect-may_write :
    (build : Bytes → Bytes) (ours : Bytes → Bool) (source alias : ReadOut)
    → may_write ours alias ≡ false
    → should_write_alias (inspect build ours source alias).0 ≡ false
unfolding inspect may_write decide
inspect-may_write build ours (read_ok s) absent h = absurd (ground arith)
inspect-may_write build ours (read_ok s) (read_ok b) h = rw h refl
inspect-may_write build ours (read_ok s) unreadable h = refl
inspect-may_write build ours absent alias h = refl
inspect-may_write build ours unreadable alias h = refl

module _ (calls : Calls) (alias tag : Bytes) (plan : Decision × Bytes) (dir : Directory) where
  get-apply_alias :
      (name : Bytes)
      → bytes_eq name alias ≡ false
      → bytes_eq name (temp_path_for alias tag) ≡ false
      → get name (apply_alias calls alias tag plan dir) ≡ get name dir
  unfolding apply_alias
  get-apply_alias name other apart = elim (Bool-cases (should_write_alias plan.0)) [
    | inl e ↦
        rw e
          (let all = get-write_bytes_via_temp calls plan.1 alias tag dir name apart in ground arith)
    | inr e ↦ rw e refl
  ]

  apply_alias_not : should_write_alias plan.0 ≡ false → apply_alias calls alias tag plan dir ≡ dir
  unfolding apply_alias
  apply_alias_not e = rw e refl

-- whether a call may change what stands under a name: an alias where nothing or a file of ours
-- stands, and temporary files
unfoldable pub may_change : Bytes → Directory → Bytes → Bool
unfolding may_write
may_change tag dir name =
    (bytes_eq name alias_dll
      && may_write looks_like_amethyst_dll (read_node false (get alias_dll dir)))
    || (bytes_eq name alias_toml
        && may_write is_generated_toml_alias (read_node false (get alias_toml dir)))
    || bytes_eq name (temp_path_for alias_dll tag)
    || bytes_eq name (temp_path_for alias_toml tag)
    || is_temp_name name alias_dll
    || is_temp_name name alias_toml

-- one alias: another name stays, and so does the alias itself if it may not be written over
apply_alias_kept :
    (calls : Calls) (alias tag : Bytes) (plan : Decision × Bytes) (dir : Directory) (name : Bytes)
    → bytes_eq name (temp_path_for alias tag) ≡ false
    → (bytes_eq name alias && should_write_alias plan.0) ≡ false
    → get name (apply_alias calls alias tag plan dir) ≡ get name dir
apply_alias_kept calls alias tag plan dir name apart h = elim (Bool-cases (bytes_eq name alias)) [
  | inl e ↦ ap (get name) (apply_alias_not calls alias tag plan dir (ground arith))
  | inr e ↦ get-apply_alias calls alias tag plan dir name e apart
]

-- an alias that stands as it stood is not written over
plan_kept :
    (build : Bytes → Bytes) (ours : Bytes → Bool) (source : ReadOut) (alias name : Bytes)
    (before now : Directory)
    → (bytes_eq name alias && may_write ours (read_node false (get alias before))) ≡ false
    → get name now ≡ get name before
    → (bytes_eq name alias
        && should_write_alias (inspect build ours source (read_node false (get alias now))).0)
      ≡ false
plan_kept build ours source alias name before now h same = elim (Bool-cases (bytes_eq name alias)) [
  | inl e ↦
      let eq = bytes_eq→eq name alias e in
      let same' : get alias now ≡ get alias before =
        subst (λ n. get n now ≡ get n before) eq same in
      let not_ours : may_write ours (read_node false (get alias now)) ≡ false =
        rw same' (ground arith) in
      let no = inspect-may_write build ours source (read_node false (get alias now)) not_ours in
      ground arith
  | inr e ↦ ground arith
]

-- Whatever the calls of the file system do, what stands under a name is as before, unless the name is
-- one of the two aliases and nothing or a file of ours stands there, or is that of a temporary file of
-- an alias.
pub get-apply_aliases :
    (enabled : Bool) (removes : Bytes → Bool) (for_dll for_toml : Calls) (tag : Bytes)
    (dir : Directory) (name : Bytes)
    → may_change tag dir name ≡ false
    → get name (apply_aliases enabled removes for_dll for_toml tag dir) ≡ get name dir
unfolding apply_aliases may_change inspect_dll inspect_toml
get-apply_aliases enabled removes for_dll for_toml tag dir name h = elim (Bool-cases enabled) [
  | inl e ↦
      let s = remove_stale_temps removes for_dll.now stale_temp_age dir in
      let d = apply_alias for_dll alias_dll tag (inspect_dll s) s in
      let kept_s =
        get-remove_stale_temps removes for_dll.now stale_temp_age name dir (ground arith) in
      let plan_d =
        plan_kept (λ source. source) looks_like_amethyst_dll (read_node true (get source_dll s))
          alias_dll name dir s (ground arith) kept_s in
      let kept_d =
        apply_alias_kept for_dll alias_dll tag (inspect_dll s) s name (ground arith) plan_d
        ∙ kept_s in
      let plan_t =
        plan_kept build_toml_alias is_generated_toml_alias (read_node true (get source_toml d))
          alias_toml name dir d (ground arith) kept_d in
      rw e (
        apply_alias_kept for_toml alias_toml tag (inspect_toml d) d name (ground arith) plan_t
        ∙ kept_d)
  | inr e ↦ rw e refl
]
