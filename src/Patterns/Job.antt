-- ===== src/Patterns/Job.antt =====
-- `Revalidate` of Utils/SteamMetadata/PatternLoader.cpp. The TOML parser, the answer of the mirrors,
-- the image of the module and the success of the two file writes are parameters.
pub mod Throttle
pub mod Safe
use better_steam_tools_ameth.Base.{
  ℕ, zero, suc, ◌+◌, ◌-◌, Bool, true, false, not, ◌&&◌, ◌||◌, Option, none, some, List, [], ◌∷◌,
  ◌==◌, leb, if◌then◌else◌, length,
}
use better_steam_tools_ameth.Base.Text.{Bytes, bytes_eq}
use better_steam_tools_ameth.Base.Int.{ℤ, pos, negsuc}
use better_steam_tools_ameth.Base.Assoc.{lookup}
use better_steam_tools_ameth.Refresh.{
  PatternEntry, EntryMap, RevalidateInputs, Decision, revalidate, should_revalidate,
  min_revalidate_interval, entries_are_consistent, should_replace_cache, same_entry,
}
use better_steam_tools_ameth.Patterns.{fnv1a_hash, lookup_in_map}

pub record RevalidationJob : Type 0 where
  pub from_cache : Bool
  pub cache_fallback : Bool
  pub cached_body : Bytes
  pub cached_map : EntryMap
  pub missing : List Bytes

pub record Env : Type 0 where
  pub enabled : Bool
  -- the clock, in whole seconds
  pub now : ℕ
  -- `last_write_time` gives the time of the stamp
  pub stamp_readable : Bool
  -- `TouchStamp` succeeds
  pub stamp_writable : Bool
  -- where it fails, it has still given the file a new time
  pub stamp_touched : Bool
  -- the body that `FetchRemoteOnly` returns
  pub remote : Option Bytes
  -- `ParsePatternString`
  pub parse : Bytes → EntryMap
  -- `GetModuleImage`
  pub image : Option Bytes
  -- `ReplaceCacheFile` succeeds
  pub file_writable : Bool

-- the age of a stamp that was written at `stamped`, negative if that lies in the future
unfoldable pub age : ℕ → ℕ → ℤ
age now stamped = if leb stamped now then pos (now - stamped) else negsuc (stamped - now - 1)

abbrev pub since : ℕ → Option ℕ → Option ℤ
since now none = none
since now (some stamped) = some (age now stamped)

unfoldable pub inputs : Env → RevalidationJob → Option ℕ → RevalidateInputs
inputs env job stamp = record {
  enabled = env.enabled;
  from_cache = job.from_cache;
  cache_fallback = job.cache_fallback;
  required_misses = length job.missing;
  since_last_attempt = if env.stamp_readable then since env.now stamp else none;
}

abbrev pub is_revalidate : Decision → Bool
is_revalidate revalidate = true
is_revalidate _ = false

-- the loop over the missing functions: their keys, and how many the candidate resolves and spoils
pub record Probe : Type 0 where
  pub missing_keys : List ℕ
  pub resolved : ℕ
  pub unresolvable : ℕ

-- an entry of the candidate that cannot be resolved, and that the cache does not have so
unfoldable pub is_spoiled : EntryMap → EntryMap → ℕ → Bool
is_spoiled cached remote key = elim (lookup key remote) [
  | none ↦ false
  | some cand ↦ elim (lookup key cached) [ none ↦ true | some old ↦ not (same_entry old cand) ]
]

abbrev pub is_found : Option ℕ → Bool
is_found none = false
is_found (some a) = true

unfoldable pub probe : Option Bytes → EntryMap → EntryMap → List Bytes → Probe
probe image cached remote [] = record { missing_keys = []; resolved = 0; unresolvable = 0 }
probe image cached remote (name ∷ names) =
    let rest = probe image cached remote names in
    let key = fnv1a_hash name in
    let keys = key ∷ rest.missing_keys in
    if is_found (lookup_in_map image remote name true)
    then record {
      missing_keys = keys;
      resolved = rest.resolved + 1;
      unresolvable = rest.unresolvable;
    }
    else if is_spoiled cached remote key
    then record {
      missing_keys = keys;
      resolved = rest.resolved;
      unresolvable = rest.unresolvable + 1;
    }
    else record { missing_keys = keys; resolved = rest.resolved; unresolvable = rest.unresolvable }

abbrev pub image_size : Option Bytes → ℕ
image_size none = 0
image_size (some bytes) = length bytes

-- whether the network was asked, the stamp, and the body of the cache file
pub record Outcome : Type 0 where
  pub asked : Bool
  pub stamp : Option ℕ
  pub body : Bytes

-- what follows a successful download
unfoldable pub replaces : Env → RevalidationJob → Bytes → Bool
replaces env job body =
    let remote_map = env.parse body in
    let p = probe env.image job.cached_map remote_map job.missing in
    let size = image_size env.image in
    if not (entries_are_consistent job.cached_map remote_map p.missing_keys size)
    then false
    else if not (
        should_replace_cache job.cached_map remote_map p.missing_keys
          (not (bytes_eq body job.cached_body)) p.resolved p.unresolvable size)
    then false
    else env.file_writable

unfoldable pub run : Env → RevalidationJob → Option ℕ → Outcome
run env job stamp =
    if not (is_revalidate (should_revalidate (inputs env job stamp) min_revalidate_interval))
    then record { asked = false; stamp = stamp; body = job.cached_body }
    else if not env.stamp_writable
    then record {
      asked = false;
      stamp = if env.stamp_touched then some env.now else stamp;
      body = job.cached_body;
    }
    else elim env.remote [
      | none ↦ record { asked = true; stamp = some env.now; body = job.cached_body }
      | some body ↦ record {
        asked = true;
        stamp = some env.now;
        body = if replaces env job body then body else job.cached_body;
      }
    ]
