-- ===== src/Refresh/Improvement.antt =====
-- The replacement of the cached file, decided exactly.
use better_steam_tools_ameth.Base.{
  ℕ, ◌≡◌, ◌≢◌, ◌↔◌, refl, subst, sym, Bool, true, false, some, List, [], ◌∷◌, arith, inl, inr, ◌==◌,
  Bool-cases,
}
use better_steam_tools_ameth.Base.Assoc.{
  contains, lookup, keys, IsMap, AllEntries-lookup, AllEntries-of_lookup,
}
use better_steam_tools_ameth.Refresh.{
  PatternEntry, EntryMap, keeps_keys, should_replace_keys, keeps_working, new_in_image,
  entries_are_consistent, should_replace_cache, is_nil,
}
use better_steam_tools_ameth.Refresh.Replace.{
  Kept, InImage, keeps_working→Kept, keeps_working_of_Kept, new_in_image→InImage,
  new_in_image_of_InImage,
}

keeps_keys→contains :
    (candidate_keys existing_keys : List ℕ) (key : ℕ)
    → keeps_keys candidate_keys existing_keys ≡ true
    → contains key existing_keys ≡ true
    → contains key candidate_keys ≡ true
unfolding keeps_keys contains
keeps_keys→contains candidate_keys [] key h c = cc
keeps_keys→contains candidate_keys (k ∷ ks) key h c = elim (Bool-cases (key == k)) [
  | inl same ↦
      let e : key ≡ k = ground arith in
      subst (λ n. contains n candidate_keys ≡ true) (sym e) (ground arith)
  | inr other ↦ keeps_keys→contains candidate_keys ks key (ground arith) (ground arith)
]

keeps_keys_of_contains :
    (candidate_keys existing_keys : List ℕ)
    → ((key : ℕ) → contains key existing_keys ≡ true → contains key candidate_keys ≡ true)
    → keeps_keys candidate_keys existing_keys ≡ true
unfolding keeps_keys
keeps_keys_of_contains candidate_keys [] all = refl
keeps_keys_of_contains candidate_keys (k ∷ ks) all =
    let here = all k (unfold contains in ground arith) in
    rw here (
      keeps_keys_of_contains candidate_keys ks (λ key c. all key (unfold contains in ground arith)))

-- what makes a downloaded file an improvement of the cached one
pub record Improves (existing candidate : EntryMap) (missing : List ℕ) (body_differs : Bool)
    (resolved unresolvable image_size : ℕ) : Type 0 where
  pub differs : body_differs ≡ true
  pub resolves : resolved ≢ 0
  pub all_resolvable : unresolvable ≡ 0
  -- it has an entry at all
  pub nonempty : keys candidate ≢ []
  -- it has every function that the cached file has
  same_keys : (key : ℕ) → contains key (keys existing) ≡ true → contains key (keys candidate) ≡ true
  -- every function that is not missing keeps its entry
  pub kept :
      (key : ℕ) (entry : PatternEntry)
      → lookup key existing ≡ some entry
      → Kept candidate missing key entry
  -- what it adds beside the missing functions lies in the module
  pub in_image :
      (key : ℕ) (entry : PatternEntry)
      → lookup key candidate ≡ some entry
      → InImage existing missing image_size key entry

module _ (existing candidate : EntryMap) (missing : List ℕ) (body_differs : Bool)
    (resolved unresolvable image_size : ℕ) where
  is_nil-ne : (ks : List ℕ) → is_nil ks ≡ false → ks ≢ []
  is_nil-ne [] h = λ e. cc
  is_nil-ne (k ∷ ks) h = λ e. cc

  is_nil_of_ne : (ks : List ℕ) → ks ≢ [] → is_nil ks ≡ false
  is_nil_of_ne [] h = absurd (h refl)
  is_nil_of_ne (k ∷ ks) h = refl

  pub replace→Improves :
      should_replace_cache existing candidate missing body_differs resolved unresolvable image_size
        ≡ true
      → Improves existing candidate missing body_differs resolved unresolvable image_size
  unfolding should_replace_cache entries_are_consistent should_replace_keys
  replace→Improves h =
      let working : keeps_working candidate missing existing ≡ true = ground arith in
      let added : new_in_image existing missing image_size candidate ≡ true = ground arith in
      let all_keys : keeps_keys (keys candidate) (keys existing) ≡ true = ground arith in
      let some_entry : is_nil (keys candidate) ≡ false = ground arith in
      record {
        differs = ground arith;
        resolves = λ e. ground arith;
        all_resolvable = ground arith;
        nonempty = is_nil-ne (keys candidate) some_entry;
        same_keys = λ key. keeps_keys→contains (keys candidate) (keys existing) key all_keys;
        kept = λ key entry.
            AllEntries-lookup (Kept candidate missing) existing
              (keeps_working→Kept candidate missing existing working);
        in_image = λ key entry.
            AllEntries-lookup (InImage existing missing image_size) candidate
              (new_in_image→InImage existing missing image_size candidate added);
      }

  replace_of_Improves :
      IsMap existing
      → IsMap candidate
      → Improves existing candidate missing body_differs resolved unresolvable image_size
      → should_replace_cache existing candidate missing body_differs resolved unresolvable
          image_size
        ≡ true
  unfolding should_replace_cache entries_are_consistent should_replace_keys
  replace_of_Improves mapped mapped' better =
      let working =
        keeps_working_of_Kept candidate missing existing
          (AllEntries-of_lookup (Kept candidate missing) existing mapped better.kept) in
      let added = new_in_image_of_InImage existing missing image_size candidate (
        AllEntries-of_lookup (InImage existing missing image_size) candidate mapped'
          better.in_image) in
      let all_keys = keeps_keys_of_contains (keys candidate) (keys existing) better.same_keys in
      let some_entry = is_nil_of_ne (keys candidate) better.nonempty in
      let differs = better.differs in
      let resolves : (resolved == 0) ≡ false = let r = better.resolves in ground arith in
      let all_resolvable = better.all_resolvable in ground arith

  -- The cached file is replaced exactly if the downloaded one improves it: it differs, has entries,
  -- resolves a missing function and breaks none, keeps every function of the cached file and the
  -- entry of each that is not missing, and what it adds beside the missing functions has an address
  -- inside the module or none. Both files are maps, with one entry for each key.
  pub should_replace_cache-Improves :
      IsMap existing
      → IsMap candidate
      → (should_replace_cache existing candidate missing body_differs resolved unresolvable
            image_size
          ≡ true)
        ↔ Improves existing candidate missing body_differs resolved unresolvable image_size
  should_replace_cache-Improves mapped mapped' =
      (replace→Improves, replace_of_Improves mapped mapped')
