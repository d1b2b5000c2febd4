-- ===== src/Refresh.antt =====
-- Utils/SteamMetadata/PatternRefreshLogic.h: when a cached pattern file is checked again, and when
-- a downloaded one may replace it.
pub mod Replace
pub mod Improvement
use better_steam_tools_ameth.Base.{
  ℕ, ◌*◌, Bool, true, false, not, ◌&&◌, ◌||◌, Option, none, some, List, [], ◌∷◌, ◌++◌, ◌==◌, ltb,
  if◌then◌else◌,
}
use better_steam_tools_ameth.Base.Text.{Bytes, codes, bytes_eq}
use better_steam_tools_ameth.Base.Int.{ℤ, pos, negsuc}
use better_steam_tools_ameth.Base.Assoc.{contains, lookup, keys}

pub record PatternEntry : Type 0 where
  pub name : Bytes
  pub rva : ℕ
  pub sig : Bytes

abbrev pub EntryMap : Type 0
EntryMap = List (ℕ × PatternEntry)

unfoldable pub same_entry : PatternEntry → PatternEntry → Bool
same_entry a b = a.rva == b.rva && bytes_eq a.name b.name && bytes_eq a.sig b.sig

pub data Decision : Type 0 where
  disabled not_from_cache cache_fallback no_required_misses throttled revalidate : Decision

pub record RevalidateInputs : Type 0 where
  pub enabled : Bool
  pub from_cache : Bool
  pub cache_fallback : Bool
  pub required_misses : ℕ
  pub since_last_attempt : Option ℤ

-- 24 hours, in seconds
abbrev pub min_revalidate_interval : ℕ
min_revalidate_interval = 24 * 3600

-- an age of zero or more, below the interval
abbrev pub is_recent : Option ℤ → ℕ → Bool
is_recent none min_interval = false
is_recent (some (pos s)) min_interval = ltb s min_interval
is_recent (some (negsuc s)) min_interval = false

unfoldable pub should_revalidate : RevalidateInputs → ℕ → Decision
should_revalidate inputs min_interval =
    if not inputs.enabled
    then disabled
    else if not inputs.from_cache
    then not_from_cache
    else if inputs.cache_fallback
    then cache_fallback
    else if inputs.required_misses == 0
    then no_required_misses
    else if is_recent inputs.since_last_attempt min_interval
    then throttled
    else revalidate

-- the loop over the keys of the cached file
unfoldable pub keeps_keys : List ℕ → List ℕ → Bool
keeps_keys candidate_keys [] = true
keeps_keys candidate_keys (key ∷ existing_keys) =
    let rest = keeps_keys candidate_keys existing_keys in
    if contains key candidate_keys then rest else false

abbrev pub is_nil {ℓ} : {A : Type ℓ} → List A → Bool
is_nil [] = true
is_nil (x ∷ xs) = false

-- the overload on sets of keys
unfoldable pub should_replace_keys : List ℕ → List ℕ → Bool → ℕ → Bool
should_replace_keys existing_keys candidate_keys body_differs resolved =
    if not body_differs || is_nil candidate_keys || resolved == 0
    then false
    else keeps_keys candidate_keys existing_keys

abbrev pub is_rva_within_image : ℕ → ℕ → Bool
is_rva_within_image rva image_size = not (rva == 0) && ltb rva image_size

-- the first loop of `EntriesAreConsistent`
unfoldable pub keeps_working : EntryMap → List ℕ → EntryMap → Bool
keeps_working candidate missing [] = true
keeps_working candidate missing ((key, entry) ∷ existing) =
    let rest = keeps_working candidate missing existing in
    if contains key missing then rest else elim (lookup key candidate) [
      | none ↦ false
      | some found ↦ if same_entry entry found then rest else false
    ]

-- the second loop of `EntriesAreConsistent`
unfoldable pub new_in_image : EntryMap → List ℕ → ℕ → EntryMap → Bool
new_in_image existing missing image_size [] = true
new_in_image existing missing image_size ((key, entry) ∷ candidate) =
    let rest = new_in_image existing missing image_size candidate in
    if contains key (keys existing) || contains key missing
    then rest
    else if not (entry.rva == 0) && not (is_rva_within_image entry.rva image_size)
    then false
    else rest

unfoldable pub entries_are_consistent : EntryMap → EntryMap → List ℕ → ℕ → Bool
entries_are_consistent existing candidate missing image_size =
    if keeps_working candidate missing existing
    then new_in_image existing missing image_size candidate
    else false

unfoldable pub should_replace_cache : EntryMap → EntryMap → List ℕ → Bool → ℕ → ℕ → ℕ → Bool
should_replace_cache existing candidate missing body_differs resolved unresolvable image_size =
    if not (unresolvable == 0)
    then false
    else if not (entries_are_consistent existing candidate missing image_size)
    then false
    else should_replace_keys (keys existing) (keys candidate) body_differs resolved

unfoldable pub stamp_file_name : Bytes → Bytes
stamp_file_name sha256 = (sha256 ++ codes ".toml") ++ codes ".checked"
