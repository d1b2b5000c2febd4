-- ===== src/Tests/Patterns.antt =====
-- Signatures, scans and revalidations at concrete inputs.
use better_steam_tools_ameth.Base.{◌≡◌, ◌≢◌, refl, true, false, none, some, [], ◌∷◌, arith}
use better_steam_tools_ameth.Base.Text.{codes, bytes_eq}
use better_steam_tools_ameth.Base.Assoc.{contains, keys, lookup}
use better_steam_tools_ameth.Refresh.{
  PatternEntry, should_revalidate, entries_are_consistent, keeps_working, new_in_image,
  should_replace_cache, should_replace_keys, keeps_keys,
}
use better_steam_tools_ameth.Patterns.{
  parse_sig, scan_module, fnv1a_hash, Sig, fnv_from, char_bits, lookup_in_map, lookup_entry,
}
use better_steam_tools_ameth.Patterns.Signature.{write_sig, parse_sig-write_sig}
use better_steam_tools_ameth.Patterns.Scan.{IsFirstIn, scan_module-IsFirstIn}
use better_steam_tools_ameth.Patterns.Job.{Env, RevalidationJob, run, inputs, replaces, probe}
use better_steam_tools_ameth.Patterns.Job.Throttle.{launches, IsSpaced, launches-IsSpaced}
use better_steam_tools_ameth.Patterns.Job.Safe.{IsSafe, run-IsSafe}

abbrev sig : Sig
sig = some 0x48 ∷ none ∷ some 0x05 ∷ []

parse_sig-write_sig_example : parse_sig (write_sig sig) ≡ some sig
parse_sig-write_sig_example = parse_sig-write_sig sig (omega arith, (omega arith, tt)) (λ e. cc)

scan_module_example :
    IsFirstIn sig (0x48 ∷ 0x48 ∷ 1 ∷ 0x05 ∷ []) (scan_module sig (0x48 ∷ 0x48 ∷ 1 ∷ 0x05 ∷ []))
scan_module_example = scan_module-IsFirstIn sig (0x48 ∷ 0x48 ∷ 1 ∷ 0x05 ∷ [])

abbrev repaired : PatternEntry
repaired = record { name = codes "f"; rva = 2; sig = [] }

-- the mirrors have a body with an entry for the missing function
abbrev launch : Env
launch = record {
  enabled = true;
  now = 100000;
  stamp_readable = true;
  stamp_writable = true;
  stamp_touched = true;
  remote = some (1 ∷ []);
  parse = λ body. (fnv1a_hash (codes "f"), repaired) ∷ [];
  image = some (codes "image");
  file_writable = true;
}

abbrev next_launch : Env
next_launch = record launch { now = 150000 }

abbrev job : RevalidationJob
job = record {
  from_cache = true;
  cache_fallback = false;
  cached_body = [];
  cached_map = [];
  missing = codes "f" ∷ [];
}

run-job : (run launch job none).body ≡ 1 ∷ []
unfolding run should_revalidate inputs replaces entries_are_consistent keeps_working new_in_image
    contains keys probe lookup_in_map lookup fnv1a_hash fnv_from lookup_entry should_replace_cache
    should_replace_keys bytes_eq keeps_keys char_bits
run-job = refl

job_changed : (run launch job none).body ≢ []
job_changed = λ e. cc run-job

run-IsSafe_example : IsSafe launch job (run launch job none).body
run-IsSafe_example = run-IsSafe launch job none job_changed

launches-IsSpaced_example : IsSpaced (launches none ((launch, job) ∷ (next_launch, job) ∷ []))
launches-IsSpaced_example =
    launches-IsSpaced none ((launch, job) ∷ (next_launch, job) ∷ []) 0
      (omega arith, (omega arith, tt))
