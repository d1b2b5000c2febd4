-- ===== src/LuaConfig/Reload/Watched.antt =====
-- Every directory is watched once.
use better_steam_tools_ameth.Base.{
  ◌≡◌, refl, ap, Bool, true, false, not, ◌&&◌, ◌||◌, List, [], ◌∷◌, ◌++◌, arith, inl, inr,
  Bool-cases, map,
}
use better_steam_tools_ameth.Base.Text.{Bytes, bytes_eq, bytes_eq→eq}
use better_steam_tools_ameth.Base.Keyed.{text_key, member, same_self, IsDistinct}
use better_steam_tools_ameth.LuaConfig.{is_unnamed}
use better_steam_tools_ameth.LuaConfig.Reload.{add_dirs, merge_watch_dirs}

module _ (key : Bytes → Bytes) where
  -- whether a directory that is not empty has the canonical path
  unfoldable pub named_by : Bytes → List Bytes → Bool
  named_by k [] = false
  named_by k (dir ∷ dirs) = (not (is_unnamed dir) && bytes_eq k (key dir)) || named_by k dirs

  member-add_dirs :
      (k : Bytes) (seen dirs : List Bytes)
      → (member k (map key (add_dirs key seen dirs)) || member k seen)
        ≡ (named_by k dirs || member k seen)
  unfolding add_dirs member named_by
  member-add_dirs k seen [] = refl
  member-add_dirs k seen (dir ∷ dirs) =
      let skipped = member-add_dirs k seen dirs in
      let added = member-add_dirs k (key dir ∷ seen) dirs in
      elim (Bool-cases (is_unnamed dir)) [
        | inl e ↦ rw e (ground arith)
        | inr e ↦ elim (Bool-cases (member (key dir) seen)) [
          | inl old ↦
              rw (e, old)
                (elim (Bool-cases (bytes_eq k (key dir))) [
                  | inl same ↦
                      let there = ap (λ j. member j seen) (bytes_eq→eq k (key dir) same) in
                      ground arith
                  | inr apart ↦ ground arith
                ])
          | inr new ↦ rw (e, new) (ground arith)
        ]
      ]

  -- none of those seen, and none twice
  add_dirs_fresh :
      (k : Bytes) (seen dirs : List Bytes)
      → member k seen ≡ true
      → member k (map key (add_dirs key seen dirs)) ≡ false
  unfolding add_dirs member
  add_dirs_fresh k seen [] m = refl
  add_dirs_fresh k seen (dir ∷ dirs) m =
      let skipped = add_dirs_fresh k seen dirs m in
      let added = add_dirs_fresh k (key dir ∷ seen) dirs (ground arith) in
      elim (Bool-cases (is_unnamed dir)) [
        | inl e ↦ rw e skipped
        | inr e ↦ elim (Bool-cases (member (key dir) seen)) [
          | inl old ↦ rw (e, old) skipped
          | inr new ↦
              rw (e, new)
                (elim (Bool-cases (bytes_eq k (key dir))) [
                  | inl same ↦
                      let there = ap (λ j. member j seen) (bytes_eq→eq k (key dir) same) in
                      absurd (ground arith)
                  | inr apart ↦ ground arith
                ])
        ]
      ]

  add_dirs-IsDistinct : (seen dirs : List Bytes) → IsDistinct (map key (add_dirs key seen dirs))
  unfolding add_dirs
  add_dirs-IsDistinct seen [] = tt
  add_dirs-IsDistinct seen (dir ∷ dirs) = elim (Bool-cases (is_unnamed dir)) [
    | inl e ↦ rw e (add_dirs-IsDistinct seen dirs)
    | inr e ↦ elim (Bool-cases (member (key dir) seen)) [
      | inl old ↦ rw (e, old) (add_dirs-IsDistinct seen dirs)
      | inr new ↦
          let self : member (key dir) (key dir ∷ seen) ≡ true =
            unfold member in ground (arith, same_self (key dir)) in
          rw (e, new)
            (
              add_dirs_fresh (key dir) (key dir ∷ seen) dirs self,
              add_dirs-IsDistinct (key dir ∷ seen) dirs,
            )
    ]
  ]

  -- The directories to watch have different canonical paths, and these are the canonical paths of
  -- the configured ones and the default one that are not empty.
  pub merge_watch_dirs-IsDistinct :
      (configured : List Bytes) (default_dir : Bytes)
      → IsDistinct (map key (merge_watch_dirs key configured default_dir))
        × ((k : Bytes)
            → member k (map key (merge_watch_dirs key configured default_dir))
              ≡ named_by k (configured ++ (default_dir ∷ [])))
  unfolding merge_watch_dirs
  merge_watch_dirs-IsDistinct configured default_dir =
      let dirs = configured ++ (default_dir ∷ []) in
      (
        add_dirs-IsDistinct [] dirs,
        λ k. let all = member-add_dirs k [] dirs in unfold member in ground arith,
      )
