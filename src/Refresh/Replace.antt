-- ===== src/Refresh/Replace.antt =====
-- What a replacement of the cached pattern file guarantees.
use better_steam_tools_ameth.Base.{
  ℕ, ◌<◌, ◌≡◌, ◌⊎◌, refl, true, false, ◌||◌, some, List, [], ◌∷◌, arith, inl, inr, Bool-cases,
  Option-cases,
}
use better_steam_tools_ameth.Base.Text.{bytes_eq→eq, bytes_eq_self}
use better_steam_tools_ameth.Base.Assoc.{contains, lookup, keys, AllEntries}
use better_steam_tools_ameth.Refresh.{
  PatternEntry, EntryMap, same_entry, keeps_working, new_in_image,
}

pub same_entry→eq : (a b : PatternEntry) → same_entry a b ≡ true → a ≡ b
unfolding same_entry
same_entry→eq a b h = ground (arith, bytes_eq→eq a.name b.name, bytes_eq→eq a.sig b.sig)

same_entry_self : (a : PatternEntry) → same_entry a a ≡ true
unfolding same_entry
same_entry_self a = ground (arith, bytes_eq_self a.name, bytes_eq_self a.sig)

-- an entry of a function that works today stands in the candidate unchanged
abbrev pub Kept : EntryMap → List ℕ → ℕ → PatternEntry → Type 0
Kept candidate missing key entry = contains key missing ≡ false → lookup key candidate ≡ some entry

-- an entry that the cache does not have, of a function that is not missing, stays in the image
abbrev pub InImage : EntryMap → List ℕ → ℕ → ℕ → PatternEntry → Type 0
InImage existing missing image_size key entry =
    contains key (keys existing) ≡ false
    → contains key missing ≡ false
    → (entry.rva ≡ 0) ⊎ (entry.rva < image_size)

module _ (candidate : EntryMap) (missing : List ℕ) where
  pub keeps_working→Kept :
      (existing : EntryMap)
      → keeps_working candidate missing existing ≡ true
      → AllEntries (Kept candidate missing) existing
  unfolding keeps_working
  keeps_working→Kept [] h = tt
  keeps_working→Kept ((key, entry) ∷ existing) h = elim (Bool-cases (contains key missing)) [
    | inl m ↦ ((λ n. absurd cc), keeps_working→Kept existing (rw m at h))
    | inr m ↦ elim (Option-cases (lookup key candidate)) [
      | inl l ↦ absurd (ground arith)
      | inr (found, l) ↦ (
        λ _. ground (arith, same_entry→eq entry found),
        keeps_working→Kept existing (ground arith),
      )
    ]
  ]

  pub keeps_working_of_Kept :
      (existing : EntryMap)
      → AllEntries (Kept candidate missing) existing
      → keeps_working candidate missing existing ≡ true
  unfolding keeps_working
  keeps_working_of_Kept [] a = refl
  keeps_working_of_Kept ((key, entry) ∷ existing) a = elim (Bool-cases (contains key missing)) [
    | inl m ↦ rw m (keeps_working_of_Kept existing a.1)
    | inr m ↦
        let found = a.0 m in
        ground (arith, same_entry_self entry, keeps_working_of_Kept existing a.1)
  ]

module _ (existing : EntryMap) (missing : List ℕ) (image_size : ℕ) where
  pub new_in_image→InImage :
      (candidate : EntryMap)
      → new_in_image existing missing image_size candidate ≡ true
      → AllEntries (InImage existing missing image_size) candidate
  unfolding new_in_image
  new_in_image→InImage [] h = tt
  new_in_image→InImage ((key, entry) ∷ candidate) h =
      ((λ a b. ground arith), new_in_image→InImage candidate (ground arith))

  pub new_in_image_of_InImage :
      (candidate : EntryMap)
      → AllEntries (InImage existing missing image_size) candidate
      → new_in_image existing missing image_size candidate ≡ true
  unfolding new_in_image
  new_in_image_of_InImage [] a = refl
  new_in_image_of_InImage ((key, entry) ∷ candidate) a =
      elim (Bool-cases (contains key (keys existing) || contains key missing)) [
        | inl o ↦ rw o (new_in_image_of_InImage candidate a.1)
        | inr o ↦
            let small = a.0 (ground arith) (ground arith) in
            ground (arith, new_in_image_of_InImage candidate a.1)
      ]
