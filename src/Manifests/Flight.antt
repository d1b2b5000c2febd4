-- ===== src/Manifests/Flight.antt =====
-- Several calls of `EnsureCached` at once, each on a thread of its own. A step is one access to the
-- shared state: a look at the disk, a section under one of the two locks, or the work on an answer.
-- The steps of the threads mix in any order.
pub mod Scope
pub mod Guarded
use better_steam_tools_ameth.Base.{ℕ, ◌≡◌, true, false, ◌==◌, if◌then◌else◌}
use better_steam_tools_ameth.Manifests.{
  FetchResult, exists, Disk, Cache, Call, is_usable, key_of, dest_of, heed, take_slot, release,
  settle,
}

-- how far a thread has come in `EnsureCached`
pub data Phase : Type 0 where
  outside : Phase
  -- the file was not on the disk
  absent : Call → Phase
  -- the negative cache lets the call pass
  due : Call → Phase
  -- it owns the slot, and has not looked at the disk again
  holding : Call → Phase
  -- it waits for the archive
  fetching : Call → Phase
  -- its result is known, and the guard is still there
  leaving : Call → Phase

pub record World : Type 0 where
  pub cache : Cache
  pub phase : ℕ → Phase

abbrev pub at : (ℕ → Phase) → ℕ → Phase → ℕ → Phase
at phase thread new = λ other. if other == thread then new else phase other

pub data Step (w : World) : World → Type 0 where
  -- a call that returns at its first checks changes nothing, and stays outside
  enters :
      (thread : ℕ) (call : Call)
      → w.phase thread ≡ outside
      → is_usable call ≡ true
      → exists (w.cache.files (dest_of call)) ≡ false
      → Step w (record w { phase = at w.phase thread (absent call) })
  heeds :
      (thread : ℕ) (call : Call) (now : ℕ)
      → w.phase thread ≡ absent call
      → Step w (record {
        cache = (heed call now w.cache).0;
        phase = at w.phase thread (if (heed call now w.cache).1 then due call else outside);
      })
  takes :
      (thread : ℕ) (call : Call)
      → w.phase thread ≡ due call
      → Step w (record {
        cache = (take_slot (key_of call) w.cache).0;
        phase =
            at w.phase thread
              (if (take_slot (key_of call) w.cache).1 then holding call else outside);
      })
  looks_again :
      (thread : ℕ) (call : Call)
      → w.phase thread ≡ holding call
      → Step w (record w {
        phase =
            at w.phase thread
              (if exists (w.cache.files (dest_of call)) then leaving call else fetching call);
      })
  settles :
      (thread : ℕ) (call : Call) (disk : Disk) (now : ℕ) (answer : FetchResult)
      → w.phase thread ≡ fetching call
      → Step w (record {
        cache = (settle call disk now answer w.cache).0;
        phase = at w.phase thread (leaving call);
      })
  releases :
      (thread : ℕ) (call : Call)
      → w.phase thread ≡ leaving call
      → Step w (record { cache = release (key_of call) w.cache; phase = at w.phase thread outside })

pub data Reachable (start : World) : World → Type 0 where
  here : Reachable start start
  after : {v w : World} → Reachable start v → Step v w → Reachable start w
