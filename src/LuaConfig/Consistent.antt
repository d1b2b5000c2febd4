-- ===== src/LuaConfig/Consistent.antt =====
-- A depot is configured exactly as long as a loaded file gives it, and every change of that is
-- queued.
use better_steam_tools_ameth.Base.{
  ℕ, ◌+◌, ◌^◌, ◌<◌, ◌≡◌, ◌⊎◌, refl, sym, ap, ◌∙◌, subst, Bool, true, false, not, ◌&&◌, ◌||◌, some,
  List, [], ◌∷◌, arith, inl, inr, ◌==◌, length, Bool-cases, Option-cases,
}
use better_steam_tools_ameth.Base.Text.{Bytes}
use better_steam_tools_ameth.Base.Keyed.{
  number_key, text_key, same_self, member, get, has, erase, IsMap, has-get, has-erase, erase_absent,
  erase-IsMap,
}
use better_steam_tools_ameth.LuaConfig.{Depots}
use better_steam_tools_ameth.LuaConfig.Files.{drop_depot, drop_depots, unload_depots}
use better_steam_tools_ameth.LuaConfig.Count.{
  providers, given, providers-erase, providers-le, AllDistinct, AllDistinct-get, erase-AllDistinct,
}
use better_steam_tools_ameth.LuaConfig.Drop.{count_of, Dropped, IsCounted, drop_depots-Dropped}

pub record IsConsistent (d : Depots) : Type 0 where
  -- the count of a depot is the number of the files that give it
  pub counts : (x : ℕ) → count_of x d ≡ providers x d.file_depots
  -- it is configured exactly if there is one
  pub kept : (x : ℕ) → has x d.depot_keys ≡ not (providers x d.file_depots == 0)
  pub mapped : IsMap d.file_depots
  pub distinct : AllDistinct d.file_depots

abbrev pub queued : ℕ → Depots → Bool
queued x d = member x d.pending_removals || member x d.pending_additions

-- from one state to the next: what is configured changes only for queued ids, and none leaves the
-- queues
pub record Notifies (before after : Depots) (x : ℕ) : Type 0 where
  pub told : (has x after.depot_keys ≡ has x before.depot_keys) ⊎ (queued x after ≡ true)
  pub waits : queued x before ≡ true → queued x after ≡ true

-- one more file fits the counters
unfoldable pub Fits : Bytes → Depots → Type 0
Fits file d = length (erase file d.file_depots) + 1 < 2 ^ 32

providers-small :
    (x : ℕ) (file : Bytes) (d : Depots)
    → IsMap d.file_depots
    → Fits file d
    → providers x d.file_depots < 2 ^ 32
unfolding Fits
providers-small x file d m f =
    let bound = providers-le x (erase file d.file_depots) in
    let split = providers-erase x file d.file_depots m in
    elim (Bool-cases (member x (given file d.file_depots))) [
      | inl e ↦ let split' = (rw e at split) in omega arith
      | inr e ↦ let split' = (rw e at split) in omega arith
    ]

drop_depots_files : (ids : List ℕ) (d : Depots) → (drop_depots ids d).file_depots ≡ d.file_depots
unfolding drop_depots drop_depot
drop_depots_files [] d = refl
drop_depots_files (id ∷ ids) d = drop_depots_files ids (drop_depot id d) ∙ ground arith

drop_depots_additions :
    (ids : List ℕ) (d : Depots) → (drop_depots ids d).pending_additions ≡ d.pending_additions
unfolding drop_depots drop_depot
drop_depots_additions [] d = refl
drop_depots_additions (id ∷ ids) d = drop_depots_additions ids (drop_depot id d) ∙ ground arith

given-IsCounted :
    (file : Bytes) (d : Depots) (ids : List ℕ)
    → IsConsistent d
    → Fits file d
    → get file d.file_depots ≡ some ids
    → IsCounted ids d
given-IsCounted file d ids c f e = record {
  counted = λ x m.
      let split = providers-erase x file d.file_depots c.mapped in
      let count = c.counts x in let split' = (rw (e, m) at split) in omega arith;
  small =
      λ x. let small = providers-small x file d c.mapped f in let count = c.counts x in omega arith;
}

module _ (file : Bytes) (d : Depots) (ids : List ℕ) (c : IsConsistent d) (f : Fits file d)
    (e : get file d.file_depots ≡ some ids) where
  dropped : (x : ℕ) → Dropped ids d (drop_depots ids d) x
  dropped x =
      drop_depots-Dropped ids d x (AllDistinct-get file d.file_depots c.distinct e)
        (given-IsCounted file d ids c f e)

  abbrev left : Depots
  left = record (drop_depots ids d) { file_depots = erase file (drop_depots ids d).file_depots }

  left_files : left.file_depots ≡ erase file d.file_depots
  left_files = ap (erase file) (drop_depots_files ids d)

  left_count : (x : ℕ) → count_of x left ≡ providers x (erase file d.file_depots)
  left_count x =
      let change = (dropped x).count in
      let split = providers-erase x file d.file_depots c.mapped in
      let split' = (rw e at split) in let count = c.counts x in omega arith

  left_keys : (x : ℕ) → has x left.depot_keys ≡ not (providers x (erase file d.file_depots) == 0)
  left_keys x =
      let change = (dropped x).keys in
      let split = providers-erase x file d.file_depots c.mapped in
      let split' = (rw e at split) in let count = c.counts x in let kept = c.kept x in ground arith

  left-IsConsistent : IsConsistent left
  left-IsConsistent = record {
    counts = λ x. left_count x ∙ sym (ap (providers x) left_files);
    kept = λ x. left_keys x ∙ sym (ap (λ fs. not (providers x fs == 0)) left_files);
    mapped = subst IsMap (sym left_files) (erase-IsMap file d.file_depots c.mapped);
    distinct = subst AllDistinct (sym left_files) (erase-AllDistinct file d.file_depots c.distinct);
  }

  left-Notifies : (x : ℕ) → Notifies d left x
  left-Notifies x =
      let keys = (dropped x).keys in
      let removals = (dropped x).removals in
      let additions = drop_depots_additions ids d in
      let added = ap (member x) additions in
      record {
        told = elim (Bool-cases (member x ids && count_of x d == 1)) [
          | inl e ↦ inr (ground arith)
          | inr e ↦ inl (ground arith)
        ];
        waits = λ w. ground arith;
      }

module _ (file : Bytes) (d : Depots) (c : IsConsistent d) (f : Fits file d) where
  pub unload_depots-IsConsistent : IsConsistent (unload_depots file d)
  unfolding unload_depots
  unload_depots-IsConsistent = elim (Option-cases (get file d.file_depots)) [
    | inl e ↦ rw (e, unload_depots) c
    | inr (ids, e) ↦ rw (e, unload_depots) (left-IsConsistent file d ids c f e)
  ]

  pub unload_depots-Notifies : (x : ℕ) → Notifies d (unload_depots file d) x
  unfolding unload_depots
  unload_depots-Notifies x = elim (Option-cases (get file d.file_depots)) [
    | inl e ↦ rw (e, unload_depots) (record { told = inl refl; waits = λ w. w })
    | inr (ids, e) ↦ rw (e, unload_depots) (left-Notifies file d ids c f e x)
  ]

  -- the file gives nothing any more, and the others what they gave
  pub unload_depots_files : (unload_depots file d).file_depots ≡ erase file d.file_depots
  unfolding unload_depots
  unload_depots_files = elim (Option-cases (get file d.file_depots)) [
    | inl e ↦
        let gone : has file d.file_depots ≡ false = ground (arith, has-get file d.file_depots) in
        rw (e, unload_depots) (sym (erase_absent file d.file_depots gone))
    | inr (ids, e) ↦ rw (e, unload_depots) (left_files file d ids c f e)
  ]

  pub unload_depots-Fits : Fits file (unload_depots file d)
  unfolding Fits
  unload_depots-Fits =
      let gone : has file (erase file d.file_depots) ≡ false =
        ground (arith, has-erase file file d.file_depots, same_self file) in
      subst (λ fs. length (erase file fs) + 1 < 2 ^ 32) (sym unload_depots_files)
        (subst (λ fs. length fs + 1 < 2 ^ 32)
          (sym (erase_absent file (erase file d.file_depots) gone)) f)
