-- ===== src/Tests/Manifests.antt =====
-- The cache of manifests at concrete calls.
use better_steam_tools_ameth.Base.{◌≡◌, refl, true, false, none, some, [], ◌∷◌, if◌then◌else◌}
use better_steam_tools_ameth.Base.Text.{Bytes, bytes_eq, codes}
use better_steam_tools_ameth.Manifests.{
  FetchResult, Files, is_usable, exists, Disk, write_atomic, temporary, Cache, Call, ensure_cached,
  heed, take_slot, settle, key_of, dest_of, url_of, looks_like_manifest,
}
use better_steam_tools_ameth.Manifests.Cached.{write_atomic-whole, IsSound, ensure_cached-IsSound}
use better_steam_tools_ameth.Manifests.Flight.{
  outside, absent, due, holding, fetching, leaving, World, at, enters, heeds, takes, looks_again,
  settles, Reachable, here, after,
}
use better_steam_tools_ameth.Manifests.Flight.Scope.{IsGuarded}
use better_steam_tools_ameth.Manifests.Flight.Guarded.{IsIdle, Reachable-IsGuarded}
use better_steam_tools_ameth.Manifests.Whole.{IsWhole, Reachable-IsWhole}

abbrev no_files : Files
no_files = λ path. none

abbrev healthy : Disk
healthy = record {
  thread = 7;
  opens = true;
  writes = true;
  partial = [];
  moves = true;
  removes = true;
}

abbrev full : Disk
full = record healthy { writes = false; partial = 1 ∷ [] }

write_atomic-whole_example :
    ((write_atomic full (codes "d") (codes "new") (λ path. some (codes "old"))).0 (codes "d")
      ≡ (elim (write_atomic full (codes "d") (codes "new") (λ path. some (codes "old"))).1 [
        | true ↦ some (codes "new")
        | false ↦ some (codes "old")
      ]))
    × ((path : Bytes)
        → bytes_eq path (codes "d") ≡ false
        → bytes_eq path (temporary (codes "d") 7) ≡ false
        → (write_atomic full (codes "d") (codes "new") (λ path. some (codes "old"))).0 path
          ≡ some (codes "old"))
write_atomic-whole_example =
    write_atomic-whole full (codes "d") (codes "new") (λ path. some (codes "old"))

abbrev cold : Cache
cold = record { files = no_files; negative = λ key. none; in_flight = λ key. false }

abbrev call : Call
call = record {
  depot = 10;
  gid = 20;
  cache_dir = codes "c/";
  archive_base_url = codes "a";
  has_fetcher = true;
  bypass_negative_cache = false;
}

-- the archive does not have it
abbrev missing : Bytes → FetchResult
missing url = record { body = []; status = 404; ok = true }

abbrev manifest : Bytes
manifest =
    0xD0 ∷ 0x17 ∷ 0xF6 ∷ 0x71 ∷ 0 ∷ 0 ∷ 0 ∷ 0 ∷ 0 ∷ 0 ∷ 0 ∷ 0 ∷ 0xAB ∷ 0x15 ∷ 0xC4 ∷ 0x32 ∷ []

abbrev archived : Bytes → FetchResult
archived url = record { body = manifest; status = 200; ok = true }

ensure_cached-IsSound_example :
    IsSound call
      (archived (url_of call))
      cold
      (ensure_cached call archived healthy 5 6 cold).0
      (ensure_cached call archived healthy 5 6 cold).1.0
      (ensure_cached call archived healthy 5 6 cold).1.1.0
      (ensure_cached call archived healthy 5 6 cold).1.1.1
ensure_cached-IsSound_example = ensure_cached-IsSound call archived healthy 5 6 cold

reports_missing : (ensure_cached call missing healthy 5 6 cold).1.1.0 ≡ true
unfolding ensure_cached
reports_missing = refl

caches : (ensure_cached call archived healthy 5 6 cold).1.0 ≡ true
unfolding ensure_cached write_atomic looks_like_manifest bytes_eq
caches = refl

abbrev idle : World
idle = record { cache = cold; phase = λ thread. outside }

idle-IsIdle : IsIdle idle
unfolding IsIdle
idle-IsIdle = (λ thread. refl, λ key. refl)

-- the thread 3 calls `EnsureCached`, up to the answer of the archive
abbrev entered : World
entered = record idle { phase = at idle.phase 3 (absent call) }

abbrev heeded : World
heeded = record {
  cache = (heed call 5 cold).0;
  phase = at entered.phase 3 (if (heed call 5 cold).1 then due call else outside);
}

abbrev busy : World
busy = record {
  cache = (take_slot (key_of call) heeded.cache).0;
  phase =
      at heeded.phase 3
        (if (take_slot (key_of call) heeded.cache).1 then holding call else outside);
}

abbrev asking : World
asking = record busy {
  phase =
      at busy.phase 3
        (if exists (busy.cache.files (dest_of call)) then leaving call else fetching call);
}

abbrev done : World
done = record {
  cache = (settle call healthy 6 (archived (url_of call)) asking.cache).0;
  phase = at asking.phase 3 (leaving call);
}

usable : is_usable call ≡ true
unfolding is_usable
usable = refl

heeded_phase : heeded.phase 3 ≡ due call
unfolding heed
heeded_phase = refl

busy_phase : busy.phase 3 ≡ holding call
unfolding heed take_slot
busy_phase = refl

asking_phase : asking.phase 3 ≡ fetching call
unfolding heed take_slot
asking_phase = refl

asking-Reachable : Reachable idle asking
asking-Reachable =
    let entered_r = after here (enters 3 call refl usable refl) in
    let heeded_r = after entered_r (heeds 3 call 5 refl) in
    let busy_r = after heeded_r (takes 3 call heeded_phase) in
    after busy_r (looks_again 3 call busy_phase)

done-Reachable : Reachable idle done
done-Reachable =
    after asking-Reachable (settles 3 call healthy 6 (archived (url_of call)) asking_phase)

Reachable-IsGuarded_example : IsGuarded (key_of call) asking
Reachable-IsGuarded_example = Reachable-IsGuarded idle-IsIdle asking-Reachable (key_of call)

Reachable-IsWhole_example :
    IsWhole (idle.cache.files (dest_of call)) (done.cache.files (dest_of call))
Reachable-IsWhole_example = Reachable-IsWhole done-Reachable call
