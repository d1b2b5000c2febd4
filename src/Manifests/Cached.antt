-- ===== src/Manifests/Cached.antt =====
-- One call of `EnsureCached`: what it asks, what it leaves on the disk, and what it returns.
use better_steam_tools_ameth.Base.{
  refl, ap, ◌∙◌, ◌+◌, ◌<◌, Bool, sym, [], ◌∷◌, ◌≢◌, ◌||◌, ◌⊎◌, ◌↔◌, not, List, inl, inr, ℕ, ◌<◌,
  ◌≡◌, ap, true, false, some, ◌++◌, inl, inr, arith, length, length-append, Bool-cases,
}
use better_steam_tools_ameth.Base.Text.{Bytes, bytes_eq, bytes_eq→eq, bytes_eq_self, codes}
use better_steam_tools_ameth.Numbers.{decimal}
use better_steam_tools_ameth.Manifests.{
  negative_ttl, Table, looks_like_manifest, Call, is_empty, is_fresh, exists, key_of, dest_of,
  url_of, ensure_cached, FetchResult, Cache, update, Files, Disk, temporary, remove, write_atomic,
}

bytes_eq_longer : (s t : Bytes) → length s < length t → bytes_eq s t ≡ false
bytes_eq_longer s t h = elim (Bool-cases (bytes_eq s t)) [
  | inl e ↦ let same = ap (λ l. length l) (bytes_eq→eq s t e) in absurd (omega arith)
  | inr e ↦ e
]

dest-temporary : (dest : Bytes) (thread : ℕ) → bytes_eq dest (temporary dest thread) ≡ false
unfolding temporary
dest-temporary dest thread =
    bytes_eq_longer dest (temporary dest thread)
      (omega (arith, length-append dest (codes "." ++ (decimal thread ++ codes ".tmp"))))

-- What `write_atomic` leaves at its target is all of the new contents if it succeeds and the old
-- contents if it does not, and no other path but the temporary one changes.
pub write_atomic-whole :
    (disk : Disk) (dest body : Bytes) (files : Files)
    → ((write_atomic disk dest body files).0 dest
        ≡ (elim (write_atomic disk dest body files).1 [ true ↦ some body | false ↦ files dest ]))
      × ((path : Bytes)
          → bytes_eq path dest ≡ false
          → bytes_eq path (temporary dest disk.thread) ≡ false
          → (write_atomic disk dest body files).0 path ≡ files path)
unfolding write_atomic remove update
write_atomic-whole disk dest body files =
    let other = dest-temporary dest disk.thread in
    let self = bytes_eq_self dest in (ground arith, λ path ne ne'. ground arith)

List-cases {ℓ} : {A : Type ℓ} (xs : List A) → (xs ≡ []) ⊎ (xs ≢ [])
List-cases [] = inl refl
List-cases (x ∷ xs) = inr (λ e. cc)

-- a call that has to ask the archive: its arguments are usable, the file is not there, no recent
-- 404 stands against it, and no other call is on it
pub record IsNeeded (call : Call) (now : ℕ) (cache : Cache) : Type 0 where
  depot_given : call.depot ≢ 0
  gid_given : call.gid ≢ 0
  dir_given : is_empty call.cache_dir ≡ false
  url_given : is_empty call.archive_base_url ≡ false
  fetcher_given : call.has_fetcher ≡ true
  pub absent : exists (cache.files (dest_of call)) ≡ false
  due : (call.bypass_negative_cache || not (is_fresh (cache.negative (key_of call)) now)) ≡ true
  pub free : cache.in_flight (key_of call) ≡ false

module _ (call : Call) (fetch : Bytes → FetchResult) (disk : Disk) (now later : ℕ)
    (cache : Cache) where
  asked→IsNeeded :
      (ensure_cached call fetch disk now later cache).1.1.1 ≢ [] → IsNeeded call now cache
  unfolding ensure_cached
  asked→IsNeeded h = record {
    depot_given = λ e. ground arith;
    gid_given = λ e. ground arith;
    dir_given = ground arith;
    url_given = ground arith;
    fetcher_given = ground arith;
    absent = ground arith;
    due = ground arith;
    free = ground arith;
  }

  asked_of_IsNeeded :
      IsNeeded call now cache
      → (ensure_cached call fetch disk now later cache).1.1.1 ≡ url_of call ∷ []
  unfolding ensure_cached
  asked_of_IsNeeded n =
      let depot_given = n.depot_given in
      let gid_given = n.gid_given in
      let dir_given = n.dir_given in
      let url_given = n.url_given in
      let fetcher_given = n.fetcher_given in
      let absent = n.absent in let due = n.due in let free = n.free in ground arith

  -- The archive is asked exactly if the call needs it: all its arguments are usable, the file is not
  -- there, no 404 of the last ten minutes stands against it or the call ignores those, and no other
  -- call is on the same manifest. It is asked once, for the address of the manifest.
  ensure_cached_asks :
      ((ensure_cached call fetch disk now later cache).1.1.1 ≢ [] → IsNeeded call now cache)
      × (IsNeeded call now cache
          → (ensure_cached call fetch disk now later cache).1.1.1 ≡ url_of call ∷ [])
  ensure_cached_asks = (asked→IsNeeded, asked_of_IsNeeded)

asked-cases :
    (call : Call) (fetch : Bytes → FetchResult) (disk : Disk) (now later : ℕ) (cache : Cache)
    → ((ensure_cached call fetch disk now later cache).1.1.1 ≡ []) ⊎ IsNeeded call now cache
asked-cases call fetch disk now later cache =
    elim (List-cases (ensure_cached call fetch disk now later cache).1.1.1) [
      | inl e ↦ inl e
      | inr ne ↦ inr (asked→IsNeeded call fetch disk now later cache ne)
    ]

-- what a call leaves behind and reports
pub record IsSound (call : Call) (answer : FetchResult) (cache after : Cache)
    (ok not_archived : Bool) (asked : List Bytes) : Type 0 where
  -- a call that succeeds leaves the file there
  pub present : ok ≡ true → exists (after.files (dest_of call)) ≡ true
  -- a file that was there is as it was, and a new one is the answer of the archive
  pub valid :
      (after.files (dest_of call) ≡ cache.files (dest_of call))
      ⊎ ((exists (cache.files (dest_of call)) ≡ false)
          × (after.files (dest_of call) ≡ some answer.body)
          × (looks_like_manifest answer.body ≡ true)
          × (answer.status ≡ 200)
          × (answer.ok ≡ true))
  -- it is reported as missing exactly if the archive was asked and has answered 404
  pub missing : (not_archived ≡ true) ↔ ((asked ≢ []) × (answer.ok ≡ true) × (answer.status ≡ 404))
  -- no manifest stays marked as being fetched
  pub released : (key : Bytes) → after.in_flight key ≡ cache.in_flight key

pub write_atomic-cases :
    (disk : Disk) (dest body : Bytes) (files : Files)
    → (((write_atomic disk dest body files).1 ≡ true)
        × ((write_atomic disk dest body files).0 dest ≡ some body))
      ⊎ (((write_atomic disk dest body files).1 ≡ false)
          × ((write_atomic disk dest body files).0 dest ≡ files dest))
write_atomic-cases disk dest body files =
    let whole = (write_atomic-whole disk dest body files).0 in
    elim (Bool-cases (write_atomic disk dest body files).1) [
      | inl e ↦ inl (e, (rw e at whole))
      | inr e ↦ inr (e, (rw e at whole))
    ]

taken_back :
    (table : Table Bool) (key other : Bytes)
    → table key ≡ false
    → update (update table key true) key false other ≡ table other
unfolding update
taken_back table key other h = elim (Bool-cases (bytes_eq other key)) [
  | inl e ↦ let same = bytes_eq→eq other key e in rw (e, same) (sym h)
  | inr e ↦ rw (e) refl
]

module _ (call : Call) (fetch : Bytes → FetchResult) (disk : Disk) (now later : ℕ)
    (cache : Cache) where
  present_lem :
      (ensure_cached call fetch disk now later cache).1.0 ≡ true
      → exists ((ensure_cached call fetch disk now later cache).0.files (dest_of call)) ≡ true
  unfolding ensure_cached
  present_lem h =
      ground (arith, write_atomic-cases disk (dest_of call) (fetch (url_of call)).body cache.files)

  missing_lem : ((ensure_cached call fetch disk now later cache).1.1.0 ≡ true) ↔ (
      ((ensure_cached call fetch disk now later cache).1.1.1 ≢ [])
      × ((fetch (url_of call)).ok ≡ true)
      × ((fetch (url_of call)).status ≡ 404))
  unfolding ensure_cached
  missing_lem = ground arith

  released_lem :
      (key : Bytes)
      → (ensure_cached call fetch disk now later cache).0.in_flight key ≡ cache.in_flight key
  unfolding ensure_cached
  released_lem key = ground (arith, taken_back cache.in_flight (key_of call) key)

  valid_lem :
      ((ensure_cached call fetch disk now later cache).0.files (dest_of call)
        ≡ cache.files (dest_of call))
      ⊎ ((exists (cache.files (dest_of call)) ≡ false)
          × ((ensure_cached call fetch disk now later cache).0.files (dest_of call)
              ≡ some (fetch (url_of call)).body)
          × (looks_like_manifest (fetch (url_of call)).body ≡ true)
          × ((fetch (url_of call)).status ≡ 200)
          × ((fetch (url_of call)).ok ≡ true))
  unfolding ensure_cached
  valid_lem =
      ground (arith, write_atomic-cases disk (dest_of call) (fetch (url_of call)).body cache.files)

  -- A call that succeeds leaves the file on the disk. What stands at its path is what stood there or,
  -- where nothing stood there, an answer with status 200 that looks like a manifest. It reports the
  -- manifest as missing exactly if it asked the archive and the answer was a 404, and it leaves no
  -- manifest marked as being fetched that was not marked before.
  pub ensure_cached-IsSound :
      IsSound call
        (fetch (url_of call))
        cache
        (ensure_cached call fetch disk now later cache).0
        (ensure_cached call fetch disk now later cache).1.0
        (ensure_cached call fetch disk now later cache).1.1.0
        (ensure_cached call fetch disk now later cache).1.1.1
  ensure_cached-IsSound = record {
    present = present_lem;
    valid = valid_lem;
    missing = missing_lem;
    released = released_lem;
  }

  noted :
      (ensure_cached call fetch disk now later cache).1.1.0 ≡ true
      → (ensure_cached call fetch disk now later cache).0.negative (key_of call) ≡ some later
  unfolding ensure_cached update
  noted h = ground (arith, bytes_eq_self (key_of call))

  -- After a 404 no call for the same manifest that heeds such answers asks the archive again for ten
  -- minutes.
  ensure_cached_quiet :
      (again : Call) (fetch' : Bytes → FetchResult) (disk' : Disk) (now' later' : ℕ)
      → (ensure_cached call fetch disk now later cache).1.1.0 ≡ true
      → key_of again ≡ key_of call
      → again.bypass_negative_cache ≡ false
      → now' < later + negative_ttl
      → (ensure_cached again fetch' disk' now' later'
          (ensure_cached call fetch disk now later cache).0).1.1.1
        ≡ []
  ensure_cached_quiet again fetch' disk' now' later' missing same heeds soon =
      let after = (ensure_cached call fetch disk now later cache).0 in
      let n = noted missing in
      elim (asked-cases again fetch' disk' now' later' after) [
        | inl e ↦ e
        | inr needed ↦
            let due = needed.due in
            let stamp : after.negative (key_of again) ≡ some later = ap after.negative same ∙ n in
            absurd (ground arith)
      ]
