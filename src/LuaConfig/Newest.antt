-- ===== src/LuaConfig/Newest.antt =====
-- The active pin of a depot is the pin of the newest file that gives one.
use better_steam_tools_ameth.Base.{
  ℕ, ◌≡◌, refl, sym, ap, ◌∙◌, subst, true, false, ◌||◌, Option, none, some, List, [], ◌∷◌, arith,
  inl, inr, ◌==◌, if◌then◌else◌, Bool-cases, Option-cases,
}
use better_steam_tools_ameth.Base.Text.{Bytes, bytes_eq, bytes_eq→eq}
use better_steam_tools_ameth.Base.Keyed.{
  number_key, text_key, same_self, member, get, has, put, erase, names, IsMap, get-put, get-erase,
  has-get, erase_absent, put-IsMap, erase-IsMap,
}
use better_steam_tools_ameth.LuaConfig.{
  Pins, ManifestOverride, or_else, is_unnamed, better, best_override, rebuild_manifest_override,
  set_manifest_id,
}
use better_steam_tools_ameth.LuaConfig.Files.{rebuild_all, unload_pins}

abbrev pub pin_of : Option (ℕ × ManifestOverride) → Option ManifestOverride
pin_of none = none
pin_of (some (seq, pin)) = some pin

-- the pin that the loop over the files finds
abbrev pub newest : ℕ → Pins → Option ManifestOverride
newest depot p = pin_of (best_override depot p.parse_sequence p.file_overrides none)

-- every active pin is the one that a rebuild would find
pub record IsActive (p : Pins) : Type 0 where
  pub active : (depot : ℕ) → get depot p.manifest_overrides ≡ newest depot p
  pub mapped : IsMap p.file_overrides

rebuild_get :
    (x depot : ℕ) (p : Pins)
    → get x (rebuild_manifest_override depot p).manifest_overrides
      ≡ (if x == depot then newest depot p else get x p.manifest_overrides)
unfolding rebuild_manifest_override
rebuild_get x depot p =
    elim (Option-cases (best_override depot p.parse_sequence p.file_overrides none)) [
      | inl e ↦ rw e (get-erase x depot p.manifest_overrides)
      | inr ((seq, pin), e) ↦ rw e (get-put x depot pin p.manifest_overrides)
    ]

-- what a rebuild reads
best_override-erase :
    (x : ℕ) (file : Bytes) (seqs : List (Bytes × ℕ))
    (files : List (Bytes × List (ℕ × ManifestOverride))) (best : Option (ℕ × ManifestOverride))
    → IsMap files
    → get x (or_else (get file files) []) ≡ none
    → best_override x seqs (erase file files) best ≡ best_override x seqs files best
unfolding best_override erase get
best_override-erase x file seqs [] best h g = refl
best_override-erase x file seqs ((f, pins) ∷ files) best h g = elim (Bool-cases (bytes_eq file f)) [
  | inl e ↦
      let gone = subst (λ g. has g files ≡ false) (sym (bytes_eq→eq file f e)) h.0 in
      let same = erase_absent file files gone in
      let skip : get x pins ≡ none = (rw e at g) in rw (e, same, skip) refl
  | inr e ↦
      let g' = (rw e at g) in
      rw e (best_override-erase x file seqs files (better (get x pins) (get f seqs) best) h.1 g')
]

best_override-put :
    (x : ℕ) (file : Bytes) (pins : List (ℕ × ManifestOverride)) (seqs : List (Bytes × ℕ))
    (files : List (Bytes × List (ℕ × ManifestOverride))) (best : Option (ℕ × ManifestOverride))
    → get x pins ≡ get x (or_else (get file files) [])
    → best_override x seqs (put file pins files) best ≡ best_override x seqs files best
unfolding best_override put get
best_override-put x file pins seqs [] best g = let skip : get x pins ≡ none = g in rw skip refl
best_override-put x file pins seqs ((f, old) ∷ files) best g = elim (Bool-cases (bytes_eq file f)) [
  | inl e ↦ let same : get x pins ≡ get x old = (rw e at g) in rw (e, best_override, same) refl
  | inr e ↦
      let g' = (rw e at g) in
      rw e (best_override-put x file pins seqs files (better (get x old) (get f seqs) best) g')
]

-- the times of files that pin nothing have no part in it
best_override_other_times :
    (x : ℕ) (seqs seqs' : List (Bytes × ℕ)) (files : List (Bytes × List (ℕ × ManifestOverride)))
    (best : Option (ℕ × ManifestOverride))
    → ((f : Bytes) → has f files ≡ true → get f seqs' ≡ get f seqs)
    → best_override x seqs' files best ≡ best_override x seqs files best
unfolding best_override has
best_override_other_times x seqs seqs' [] best h = refl
best_override_other_times x seqs seqs' ((f, pins) ∷ files) best h =
    let same = h f (ground (arith, same_self f)) in
    rw same (
      best_override_other_times x seqs seqs' files (better (get x pins) (get f seqs) best)
        (λ g there. h g (ground arith)))

newest-rebuild :
    (x depot : ℕ) (p : Pins) → newest x (rebuild_manifest_override depot p) ≡ newest x p
unfolding rebuild_manifest_override
newest-rebuild x depot p = refl

-- the loop over the depots of the file that went
get-rebuild_all :
    (x : ℕ) (ids : List ℕ) (p : Pins)
    → get x (rebuild_all ids p).manifest_overrides
      ≡ (if member x ids then newest x p else get x p.manifest_overrides)
unfolding rebuild_all member
get-rebuild_all x [] p = refl
get-rebuild_all x (id ∷ ids) p =
    let first = rebuild_get x id p in
    let same = newest-rebuild x id p in
    let rest = get-rebuild_all x ids (rebuild_manifest_override id p) in
    elim (Bool-cases (x == id)) [
      | inl e ↦ let eq : x ≡ id = ground arith in let n = ap (λ y. newest y p) eq in ground arith
      | inr e ↦ ground arith
    ]

member-names : (x : ℕ) (pins : List (ℕ × ManifestOverride)) → member x (names pins) ≡ has x pins
unfolding member names has
member-names x [] = refl
member-names x ((y, pin) ∷ pins) = ap (λ b. x == y || b) (member-names x pins)

-- the same of what a rebuild reads
record Same (p q : Pins) : Type 0 where
  same_files : p.file_overrides ≡ q.file_overrides
  same_times : p.parse_sequence ≡ q.parse_sequence

rebuild_all-Same : (ids : List ℕ) (p : Pins) → Same (rebuild_all ids p) p
unfolding rebuild_all rebuild_manifest_override
rebuild_all-Same [] p = record { same_files = refl; same_times = refl }
rebuild_all-Same (id ∷ ids) p =
    let rest = rebuild_all-Same ids (rebuild_manifest_override id p) in
    record { same_files = rest.same_files; same_times = rest.same_times }

Same-newest : (x : ℕ) (p q : Pins) → Same p q → newest x p ≡ newest x q
Same-newest x p q s = rw (s.same_files, s.same_times) refl

module _ (file : Bytes) (p : Pins) (pins : List (ℕ × ManifestOverride)) (a : IsActive p)
    (e : get file p.file_overrides ≡ some pins) where
  abbrev emptied : Pins
  emptied = record p { file_overrides = erase file p.file_overrides }

  abbrev rebuilt : Pins
  rebuilt = rebuild_all (names pins) emptied

  -- a depot that the file does not pin keeps its pin
  untouched : (x : ℕ) → has x pins ≡ false → newest x emptied ≡ newest x p
  untouched x gone =
      let skip : get x (or_else (get file p.file_overrides) []) ≡ none =
        rw e (ground (arith, has-get x pins)) in
      ap pin_of (best_override-erase x file p.parse_sequence p.file_overrides none a.mapped skip)

  rebuilt-IsActive : IsActive rebuilt
  rebuilt-IsActive =
      let same = rebuild_all-Same (names pins) emptied in
      record {
        active = λ x.
            let now = get-rebuild_all x (names pins) emptied in
            let found = Same-newest x rebuilt emptied same in
            let named = member-names x pins in
            let before = a.active x in
            elim (Bool-cases (has x pins)) [
              | inl h ↦ ground arith
              | inr h ↦ let kept = untouched x h in ground arith
            ];
        mapped = subst IsMap (sym same.same_files) (erase-IsMap file p.file_overrides a.mapped);
      }

pub unload_pins-IsActive : (file : Bytes) (p : Pins) → IsActive p → IsActive (unload_pins file p)
unfolding unload_pins
unload_pins-IsActive file p a = elim (Option-cases (get file p.file_overrides)) [
  | inl e ↦ rw (e, unload_pins) a
  | inr (pins, e) ↦ rw (e, unload_pins) (rebuilt-IsActive file p pins a e)
]

module _ (file : Bytes) (depot : ℕ) (pin : ManifestOverride) (p : Pins) (a : IsActive p) where
  abbrev own : List (ℕ × ManifestOverride)
  own = or_else (get file p.file_overrides) []

  abbrev pinned : Pins
  pinned = record p { file_overrides = put file (put depot pin own) p.file_overrides }

  pinned_apart : (x : ℕ) → x == depot ≡ false → newest x pinned ≡ newest x p
  pinned_apart x apart =
      let same : get x (put depot pin own) ≡ get x own = ground (arith, get-put x depot pin own) in
      ap pin_of
        (best_override-put x file (put depot pin own) p.parse_sequence p.file_overrides none same)

  pinned-IsActive : IsActive (rebuild_manifest_override depot pinned)
  unfolding rebuild_manifest_override
  pinned-IsActive = record {
    active = λ x.
        let now = rebuild_get x depot pinned in
        let before = a.active x in
        elim (Bool-cases (x == depot)) [
          | inl h ↦
              let eq : x ≡ depot = ground arith in
              let n = ap (λ y. newest y pinned) eq in ground arith
          | inr h ↦ let kept = pinned_apart x h in ground arith
        ];
    mapped = put-IsMap file (put depot pin own) p.file_overrides a.mapped;
  }

pub set_manifest_id-IsActive :
    (file : Bytes) (depot : ℕ) (pin : ManifestOverride) (p : Pins)
    → is_unnamed file ≡ false
    → IsActive p
    → IsActive (set_manifest_id file depot pin p)
unfolding set_manifest_id
set_manifest_id-IsActive file depot pin p named a = rw named (pinned-IsActive file depot pin p a)

has_apart :
    {V : Type 0} (f file : Bytes) (m : List (Bytes × V))
    → has f m ≡ true
    → has file m ≡ false
    → bytes_eq f file ≡ false
has_apart f file m there gone = elim (Bool-cases (bytes_eq f file)) [
  | inl e ↦ let same = ap (λ g. has g m) (bytes_eq→eq f file e) in absurd (ground arith)
  | inr e ↦ e
]

-- another time for a file that pins nothing
pub other_times-IsActive :
    (file : Bytes) (p : Pins) (seqs : List (Bytes × ℕ)) (n : ℕ)
    → has file p.file_overrides ≡ false
    → ((f : Bytes) → bytes_eq f file ≡ false → get f seqs ≡ get f p.parse_sequence)
    → IsActive p
    → IsActive (record p { parse_sequence = seqs; next_sequence = n })
other_times-IsActive file p seqs n gone same a = record {
  active = λ x.
      a.active x
      ∙ ap pin_of (
          sym (
            best_override_other_times x p.parse_sequence seqs p.file_overrides none
              (λ f there. same f (has_apart f file p.file_overrides there gone))));
  mapped = a.mapped;
}
