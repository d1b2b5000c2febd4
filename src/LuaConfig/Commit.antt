-- ===== src/LuaConfig/Commit.antt =====
-- What the commit of a file makes of the depots: the new contribution in place of the old one.
use better_steam_tools_ameth.Base.{
  ℕ, ◌+◌, ◌%◌, ◌^◌, ◌<◌, ◌≡◌, refl, sym, ap, ◌∙◌, subst, Bool, false, ◌&&◌, ◌||◌, none, List, [],
  ◌∷◌, arith, inl, inr, length, Bool-cases,
}
use better_steam_tools_ameth.Base.Text.{Bytes}
use better_steam_tools_ameth.Base.Keyed.{
  number_key, text_key, same_self, member, get, put, erase, has-get, has-erase, erase_absent,
  get-erase,
}
use better_steam_tools_ameth.LuaConfig.{
  Depots, ConfigState, ConfigOp, is_unnamed, apply_op, apply_ops,
}
use better_steam_tools_ameth.LuaConfig.Files.{
  unload_file, unload_depots, forget_mtime, is_loaded, commit,
}
use better_steam_tools_ameth.LuaConfig.Count.{given}
use better_steam_tools_ameth.LuaConfig.Consistent.{
  IsConsistent, Notifies, Fits, unload_depots-IsConsistent, unload_depots-Notifies,
  unload_depots_files, unload_depots-Fits,
}
use better_steam_tools_ameth.LuaConfig.Given.{apply_op-Step, gives, op_gives}

Notifies-trans : (a b c : Depots) (x : ℕ) → Notifies a b x → Notifies b c x → Notifies a c x
Notifies-trans a b c x m n = record {
  told = elim n.told [
    | inl later ↦ elim m.told [ inl first ↦ inl (later ∙ first) | inr q ↦ inr (n.waits q) ]
    | inr q ↦ inr q
  ];
  waits = λ q. n.waits (m.waits q);
}

-- from one state to the next: one more commit or removal of the file
pub record Passage (file : Bytes) (ids : ℕ → Bool) (before after : Depots) : Type 0 where
  pub consistent : IsConsistent after
  pub notifies : (x : ℕ) → Notifies before after x
  pub gives_now : (x : ℕ) → member x (given file after.file_depots) ≡ ids x
  pub others : erase file after.file_depots ≡ erase file before.file_depots
  pub fits : Fits file after

-- as the file gives `ids` first, so it gives them and those of the operations in the end
apply_ops-Passage :
    (file : Bytes) (ops : List ConfigOp) (s : ConfigState) (start : Depots) (ids : ℕ → Bool)
    → is_unnamed file ≡ false
    → Passage file ids start s.depots
    → Passage file (λ x. gives x ops || ids x) start (apply_ops file ops s).depots
unfolding apply_ops gives Fits
apply_ops-Passage file [] s start ids named p = p
apply_ops-Passage file (op ∷ ops) s start ids named p =
    let step = apply_op-Step file op s named in
    let next = apply_op file op s in
    let p' : Passage file (λ x. op_gives x op || ids x) start next.depots = record {
      consistent = step.consistent p.consistent p.fits;
      notifies = λ x.
          Notifies-trans start s.depots next.depots x (p.notifies x)
            (step.notifies p.consistent p.fits x);
      gives_now = λ x. step.gives_more x ∙ ap (λ b. op_gives x op || b) (p.gives_now x);
      others = step.others ∙ p.others;
      fits = subst (λ fs. length fs + 1 < 2 ^ 32) (sym step.others) p.fits;
    } in
    let rest = apply_ops-Passage file ops next start (λ x. op_gives x op || ids x) named p' in
    record {
      consistent = rest.consistent;
      notifies = rest.notifies;
      gives_now = λ x. let now = rest.gives_now x in ground arith;
      others = rest.others;
      fits = rest.fits;
    }

-- an emptied file gives nothing
given-erase :
    (x : ℕ) (file : Bytes) (files : List (Bytes × List ℕ))
    → member x (given file (erase file files)) ≡ false
given-erase x file files =
    let gone : get file (erase file files) ≡ none =
      ground (arith, get-erase file file files, same_self file) in
    rw gone (unfold member in refl)

pub erase-erase :
    {V : Type 0} (file : Bytes) (files : List (Bytes × V))
    → erase file (erase file files) ≡ erase file files
erase-erase file files =
    erase_absent file (erase file files) (ground (arith, has-erase file file files, same_self file))

module _ (file : Bytes) (s : ConfigState) (c : IsConsistent s.depots) (f : Fits file s.depots) where
  -- `Fits`, `counts` and the rest do not see the times
  forgotten-Passage :
      Passage file (λ x. false) s.depots (forget_mtime file (unload_depots file s.depots))
  unfolding forget_mtime Fits
  forgotten-Passage =
      let u = unload_depots-IsConsistent file s.depots c f in
      let files = unload_depots_files file s.depots c f in
      record {
        consistent = record {
          counts = u.counts;
          kept = u.kept;
          mapped = u.mapped;
          distinct = u.distinct;
        };
        notifies = λ x.
            let n = unload_depots-Notifies file s.depots c f x in
            record { told = n.told; waits = n.waits };
        gives_now = λ x.
            ap (λ fs. member x (given file fs)) files ∙ given-erase x file s.depots.file_depots;
        others = ap (erase file) files ∙ erase-erase file s.depots.file_depots;
        fits = unload_depots-Fits file s.depots c f;
      }

  pub unload_file-Passage : Passage file (λ x. false) s.depots (unload_file file s).depots
  unfolding unload_file is_loaded
  unload_file-Passage = elim (Bool-cases (is_loaded file s)) [
    | inl e ↦ rw e forgotten-Passage
    | inr e ↦ rw e (record {
      consistent = c;
      notifies = λ x. record { told = inl refl; waits = λ q. q };
      gives_now = λ x.
          let gone : get file s.depots.file_depots ≡ none =
            ground (arith, has-get file s.depots.file_depots) in
          rw gone (unfold member in refl);
      others = refl;
      fits = f;
    })
  ]

-- the state of a commit once the file is unloaded
abbrev pub begun : Bytes → ℕ → ConfigState → ConfigState
begun file mtime u =
    let sequence = (u.pins.next_sequence + 1) % 2 ^ 64 in
    record {
      depots = record u.depots { file_mtime = put file mtime u.depots.file_mtime };
      pins = record u.pins {
        parse_sequence = put file sequence u.pins.parse_sequence;
        next_sequence = sequence;
      };
      tables = u.tables;
    }

begun-Passage :
    (file : Bytes) (mtime : ℕ) (start : Depots) (u : ConfigState)
    → Passage file (λ x. false) start u.depots
    → Passage file (λ x. false) start (begun file mtime u).depots
unfolding Fits
begun-Passage file mtime start u p =
    let c = p.consistent in
    record {
      consistent = record {
        counts = c.counts;
        kept = c.kept;
        mapped = c.mapped;
        distinct = c.distinct;
      };
      notifies = λ x. let n = p.notifies x in record { told = n.told; waits = n.waits };
      gives_now = p.gives_now;
      others = p.others;
      fits = p.fits;
    }

-- If the counts of the depots are right, there is room for one more file in a 32-bit count, the
-- file has a name and its run is not held back, then its commit keeps the counts right, queues
-- every depot whose being configured has changed and takes none from the queues, makes the file
-- give exactly the depots that the operations name, changes nothing of what the other files
-- give, and leaves room for the file. The counts are right if the count of each depot is the
-- number of the files that give it, it is configured exactly if there is one, and no file stands
-- twice or gives a depot twice.
pub commit-Passage :
    (file : Bytes) (s : ConfigState) (mtime : ℕ) (incomplete : Bool) (ops : List ConfigOp)
    → IsConsistent s.depots
    → Fits file s.depots
    → is_unnamed file ≡ false
    → (incomplete && is_loaded file s) ≡ false
    → Passage file (λ x. gives x ops) s.depots (commit file mtime incomplete ops s).depots
unfolding commit
commit-Passage file s mtime incomplete ops c f named go =
    let u = unload_file file s in
    let b = begun-Passage file mtime s.depots u (unload_file-Passage file s c f) in
    let p = apply_ops-Passage file ops (begun file mtime u) s.depots (λ x. false) named b in
    rw go (record {
      consistent = p.consistent;
      notifies = p.notifies;
      gives_now = λ x. let now = p.gives_now x in ground arith;
      others = p.others;
      fits = p.fits;
    })
