-- ===== src/Tests/Refresh.antt =====
-- The replacement of a cached pattern file at a concrete pair of files.
use better_steam_tools_ameth.Base.{◌≡◌, ◌↔◌, refl, true, [], ◌∷◌}
use better_steam_tools_ameth.Base.Text.{codes, bytes_eq}
use better_steam_tools_ameth.Base.Assoc.{contains, keys, lookup, IsMap}
use better_steam_tools_ameth.Refresh.{
  PatternEntry, EntryMap, should_replace_cache, should_replace_keys, keeps_keys,
  entries_are_consistent, keeps_working, same_entry, new_in_image,
}
use better_steam_tools_ameth.Refresh.Improvement.{Improves, should_replace_cache-Improves}

abbrev kept : PatternEntry
kept = record { name = codes "A"; rva = 0x10; sig = [] }

abbrev repaired : PatternEntry
repaired = record { name = codes "B"; rva = 0x20; sig = [] }

abbrev existing : EntryMap
existing = (1, kept) ∷ []

abbrev candidate : EntryMap
candidate = (1, kept) ∷ (2, repaired) ∷ []

existing-IsMap : IsMap existing
unfolding contains keys
existing-IsMap = (refl, tt)

candidate-IsMap : IsMap candidate
unfolding contains keys
candidate-IsMap = (refl, (refl, tt))

should_replace_cache-Improves_example :
    (should_replace_cache existing candidate (2 ∷ []) true 1 0 0x100 ≡ true)
    ↔ Improves existing candidate (2 ∷ []) true 1 0 0x100
should_replace_cache-Improves_example =
    should_replace_cache-Improves existing candidate (2 ∷ []) true 1 0 0x100 existing-IsMap
      candidate-IsMap

replaced : should_replace_cache existing candidate (2 ∷ []) true 1 0 0x100 ≡ true
unfolding should_replace_cache entries_are_consistent keeps_working contains lookup same_entry
    bytes_eq new_in_image keys should_replace_keys keeps_keys
replaced = refl
