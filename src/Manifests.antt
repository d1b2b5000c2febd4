-- ===== src/Manifests.antt =====
-- Utils/SteamMetadata/ManifestCacheLogic.cpp and .h: the cache of manifests on the disk. The file
-- system is a function from paths to contents; the answer of the archive and the success of each
-- call of the file system are parameters. Times are whole seconds of the steady clock.
pub mod Cached
pub mod Flight
pub mod Whole
use better_steam_tools_ameth.Base.{
  List, ℕ, ◌-◌, ◌*◌, Bool, true, false, not, ◌&&◌, ◌||◌, Option, none, some, [], ◌∷◌, ◌++◌, ◌==◌,
  ltb, if◌then◌else◌, length, take, drop,
}
use better_steam_tools_ameth.Base.Text.{Bytes, bytes_eq, codes}
use better_steam_tools_ameth.Numbers.{decimal}

-- `FetchResult`
pub record FetchResult : Type 0 where
  pub body : Bytes
  pub status : ℕ
  pub ok : Bool

-- kPayloadMagic, kEofMagic and kMinBodyBytes
abbrev pub payload_magic : Bytes
payload_magic = 0xD0 ∷ 0x17 ∷ 0xF6 ∷ 0x71 ∷ []

abbrev pub eof_magic : Bytes
eof_magic = 0xAB ∷ 0x15 ∷ 0xC4 ∷ 0x32 ∷ []

abbrev pub min_body_bytes : ℕ
min_body_bytes = 16

-- `LooksLikeManifest`
unfoldable pub looks_like_manifest : Bytes → Bool
looks_like_manifest body =
    if ltb (length body) min_body_bytes
    then false
    else bytes_eq (take 4 body) payload_magic && bytes_eq (drop (length body - 4) body) eof_magic

-- a map from byte strings, and the map with one key set
abbrev pub Table {ℓ} : Type ℓ → Type ℓ
Table A = Bytes → A

unfoldable pub update {ℓ} : {A : Type ℓ} → Table A → Bytes → A → Table A
update table key value = λ other. if bytes_eq other key then value else table other

-- the files that exist, with their contents
abbrev pub Files : Type 0
Files = Table (Option Bytes)

abbrev pub exists : Option Bytes → Bool
exists none = false
exists (some body) = true

-- what the file system does with the calls of one `WriteAtomic`, and the number of the thread
pub record Disk : Type 0 where
  pub thread : ℕ
  pub opens : Bool
  pub writes : Bool
  -- what a failed write leaves in the file
  pub partial : Bytes
  pub moves : Bool
  pub removes : Bool

unfoldable pub temporary : Bytes → ℕ → Bytes
temporary dest thread = dest ++ (codes "." ++ (decimal thread ++ codes ".tmp"))

-- `fs::remove`, which may fail
unfoldable pub remove : Disk → Bytes → Files → Files
unfolding update
remove disk path files = if disk.removes then update files path none else files

-- `WriteAtomic`
unfoldable pub write_atomic : Disk → Bytes → Bytes → Files → Files × Bool
unfolding temporary remove update
write_atomic disk dest body files =
    let tmp = temporary dest disk.thread in
    let written = update files tmp (some body) in
    if not disk.opens
    then (files, false)
    else if not disk.writes
    then (remove disk tmp (update files tmp (some disk.partial)), false)
    else if not disk.moves
    then (remove disk tmp written, false)
    else (update (update written tmp none) dest (some body), true)

-- the disk, g_negCache with the time of each entry, and g_inFlight
pub record Cache : Type 0 where
  pub files : Files
  pub negative : Table (Option ℕ)
  pub in_flight : Table Bool

-- the arguments of `EnsureCached`; `cache_dir` carries the separator that is put behind it, or is
-- empty
pub record Call : Type 0 where
  pub depot : ℕ
  pub gid : ℕ
  pub cache_dir : Bytes
  pub archive_base_url : Bytes
  pub has_fetcher : Bool
  pub bypass_negative_cache : Bool

unfoldable pub key_of : Call → Bytes
key_of call = decimal call.depot ++ (codes "_" ++ decimal call.gid)

unfoldable pub dest_of : Call → Bytes
unfolding key_of
dest_of call = call.cache_dir ++ (key_of call ++ codes ".manifest")

unfoldable pub url_of : Call → Bytes
url_of call =
    call.archive_base_url
    ++ (codes "/m/" ++ (decimal call.depot ++ (codes "/" ++ decimal call.gid)))

abbrev pub is_empty : Bytes → Bool
is_empty [] = true
is_empty (c ∷ cs) = false

-- kNegativeTtl, ten minutes
abbrev pub negative_ttl : ℕ
negative_ttl = 10 * 60

abbrev pub is_fresh : Option ℕ → ℕ → Bool
is_fresh none now = false
is_fresh (some at) now = ltb (now - at) negative_ttl

-- the first check of `EnsureCached`
unfoldable pub is_usable : Call → Bool
is_usable call = not (
    call.depot == 0
    || call.gid == 0
    || is_empty call.cache_dir
    || is_empty call.archive_base_url
    || not call.has_fetcher)

-- the negative cache, under its lock: whether the call goes on
unfoldable pub heed : Call → ℕ → Cache → Cache × Bool
unfolding key_of update
heed call now cache =
    let key = key_of call in
    if call.bypass_negative_cache
    then (cache, true)
    else if is_fresh (cache.negative key) now
    then (cache, false)
    else (record cache { negative = update cache.negative key none }, true)

-- the constructor of `InFlightGuard`: whether it has acquired the slot
unfoldable pub take_slot : Bytes → Cache → Cache × Bool
unfolding update
take_slot key cache =
    if cache.in_flight key
    then (cache, false)
    else (record cache { in_flight = update cache.in_flight key true }, true)

-- the destructor of the guard
unfoldable pub release : Bytes → Cache → Cache
unfolding update
release key cache = record cache { in_flight = update cache.in_flight key false }

-- what follows the answer of the archive, up to the end of the guard's scope: the result, and
-- `outNotArchived`
unfoldable pub settle : Call → Disk → ℕ → FetchResult → Cache → Cache × (Bool × Bool)
unfolding key_of dest_of update write_atomic
settle call disk now resp cache =
    let not_archived = resp.ok && resp.status == 404 in
    if not resp.ok || not (resp.status == 200)
    then (
      if not_archived
          then record cache { negative = update cache.negative (key_of call) (some now) }
          else cache,
      (false, not_archived),
    )
    else if not (looks_like_manifest resp.body)
    then (cache, (false, false))
    else let (files, ok) = write_atomic disk (dest_of call) resp.body cache.files in
      (record cache { files = files }, (ok, false))

-- `EnsureCached` without a second caller, from the time `now`, with the answer at the time `later`:
-- the result, `outNotArchived`, and the addresses it asked for
unfoldable pub ensure_cached :
    Call → (Bytes → FetchResult) → Disk → ℕ → ℕ → Cache → Cache × (Bool × (Bool × List Bytes))
unfolding is_usable heed take_slot settle release url_of
ensure_cached call fetch disk now later cache =
    let key = key_of call in
    let dest = dest_of call in
    let (heeded, goes_on) = heed call now cache in
    let (taken, acquired) = take_slot key heeded in
    let (settled, (ok, not_archived)) = settle call disk later (fetch (url_of call)) taken in
    if not (is_usable call)
    then (cache, (false, (false, [])))
    else if exists (cache.files dest)
    then (cache, (true, (false, [])))
    else if not goes_on
    then (heeded, (false, (false, [])))
    else if not acquired
    then (taken, (false, (false, [])))
    else if exists (taken.files dest)
    then (release key taken, (true, (false, [])))
    else (release key settled, (ok, (not_archived, url_of call ∷ [])))
