-- ===== src/Manifests/Whole.antt =====
-- No order of calls, and no failing write, leaves a broken manifest in the cache.
use better_steam_tools_ameth.Base.{
  ℕ, ◌≡◌, ◌⊎◌, refl, sym, ap, ◌∙◌, true, false, Option, some, [], ◌∷◌, ◌++◌, inl, inr, arith,
  Bool-cases,
}
use better_steam_tools_ameth.Base.Text.{Bytes, bytes_eq, bytes_eq→eq, codes}
use better_steam_tools_ameth.Numbers.{decimal}
use better_steam_tools_ameth.Manifests.{
  FetchResult, looks_like_manifest, Files, Disk, temporary, write_atomic, Cache, Call, key_of,
  dest_of, heed, take_slot, release, settle,
}
use better_steam_tools_ameth.Manifests.Cached.{write_atomic-whole, write_atomic-cases}
use better_steam_tools_ameth.Manifests.Flight.{
  World, Step, enters, heeds, takes, looks_again, settles, releases, Reachable, here, after,
}

-- the last byte, or the default
last_or : ℕ → Bytes → ℕ
last_or d [] = d
last_or d (c ∷ cs) = last_or c cs

last_or-append : (d : ℕ) (xs ys : Bytes) → last_or d (xs ++ ys) ≡ last_or (last_or d xs) ys
unfolding last_or
last_or-append d [] ys = refl
last_or-append d (x ∷ xs) ys = last_or-append x xs ys

last_or-dest_of : (call : Call) → last_or 0 (dest_of call) ≡ b't'
unfolding last_or dest_of
last_or-dest_of call =
    last_or-append 0 call.cache_dir (key_of call ++ codes ".manifest")
    ∙ last_or-append (last_or 0 call.cache_dir) (key_of call) (codes ".manifest")

last_or-temporary : (dest : Bytes) (thread : ℕ) → last_or 0 (temporary dest thread) ≡ b'p'
unfolding last_or temporary
last_or-temporary dest thread =
    last_or-append 0 dest (codes "." ++ (decimal thread ++ codes ".tmp"))
    ∙ last_or-append b'.' (decimal thread) (codes ".tmp")

dest_of-temporary :
    (call : Call) (dest : Bytes) (thread : ℕ)
    → bytes_eq (dest_of call) (temporary dest thread) ≡ false
dest_of-temporary call dest thread =
    elim (Bool-cases (bytes_eq (dest_of call) (temporary dest thread))) [
      | inl e ↦
          let same = ap (last_or 0) (bytes_eq→eq (dest_of call) (temporary dest thread) e) in
          let t = last_or-dest_of call in
          let p = last_or-temporary dest thread in absurd (omega arith)
      | inr e ↦ e
    ]

-- there is what was there at first, or a body that looks like a manifest
abbrev pub IsWhole : Option Bytes → Option Bytes → Type 0
IsWhole first now =
    (now ≡ first) ⊎ ((body : Bytes) × (now ≡ some body) × (looks_like_manifest body ≡ true))

settle-files :
    (call : Call) (disk : Disk) (now : ℕ) (answer : FetchResult) (cache : Cache)
    → ((settle call disk now answer cache).0.files ≡ cache.files)
      ⊎ ((looks_like_manifest answer.body ≡ true)
          × ((settle call disk now answer cache).0.files
              ≡ (write_atomic disk (dest_of call) answer.body cache.files).0))
unfolding settle
settle-files call disk now answer cache = ground arith

IsWhole-eq : {first now now' : Option Bytes} → now' ≡ now → IsWhole first now → IsWhole first now'
IsWhole-eq same (inl e) = inl (same ∙ e)
IsWhole-eq same (inr (body, e, good)) = inr (body, same ∙ e, good)

write_atomic-IsWhole :
    (disk : Disk) (writer reader : Call) (body : Bytes) (first : Option Bytes) (files : Files)
    → looks_like_manifest body ≡ true
    → IsWhole first (files (dest_of reader))
    → IsWhole first ((write_atomic disk (dest_of writer) body files).0 (dest_of reader))
write_atomic-IsWhole disk writer reader body first files good whole =
    let files' = (write_atomic disk (dest_of writer) body files).0 in
    let other = (write_atomic-whole disk (dest_of writer) body files).1 in
    elim (Bool-cases (bytes_eq (dest_of reader) (dest_of writer))) [
      | inl e ↦
          let same = bytes_eq→eq (dest_of reader) (dest_of writer) e in
          elim (write_atomic-cases disk (dest_of writer) body files) [
            | inl (ok, new) ↦ inr (body, ap files' same ∙ new, good)
            | inr (failed, old) ↦ IsWhole-eq (ap files' same ∙ old ∙ sym (ap files same)) whole
          ]
      | inr ne ↦
          IsWhole-eq
            (other (dest_of reader) ne (dest_of-temporary reader (dest_of writer) disk.thread))
            whole
    ]

heed-files : (call : Call) (now : ℕ) (cache : Cache) → (heed call now cache).0.files ≡ cache.files
unfolding heed
heed-files call now cache = ground arith

take_slot-files : (key : Bytes) (cache : Cache) → (take_slot key cache).0.files ≡ cache.files
unfolding take_slot
take_slot-files key cache = ground arith

release-files : (key : Bytes) (cache : Cache) → (release key cache).files ≡ cache.files
unfolding release
release-files key cache = refl

module _ (reader : Call) (first : Option Bytes) where
  Step-IsWhole :
      {v w : World}
      → IsWhole first (v.cache.files (dest_of reader))
      → Step v w
      → IsWhole first (w.cache.files (dest_of reader))
  Step-IsWhole {v} whole (enters thread call phase usable gone) = whole
  Step-IsWhole {v} whole (heeds thread call now phase) =
      IsWhole-eq (ap (λ fs. fs (dest_of reader)) (heed-files call now v.cache)) whole
  Step-IsWhole {v} whole (takes thread call phase) =
      IsWhole-eq (ap (λ fs. fs (dest_of reader)) (take_slot-files (key_of call) v.cache)) whole
  Step-IsWhole {v} whole (looks_again thread call phase) = whole
  Step-IsWhole {v} whole (settles thread call disk now answer phase) =
      elim (settle-files call disk now answer v.cache) [
        | inl same ↦ IsWhole-eq (ap (λ fs. fs (dest_of reader)) same) whole
        | inr (good, written) ↦
            IsWhole-eq (ap (λ fs. fs (dest_of reader)) written)
              (write_atomic-IsWhole disk call reader answer.body first v.cache.files good whole)
      ]
  Step-IsWhole {v} whole (releases thread call phase) =
      IsWhole-eq (ap (λ fs. fs (dest_of reader)) (release-files (key_of call) v.cache)) whole

-- Whatever the calls, their order, the answers of the archive and the calls of the file system that
-- fail: at the path of any manifest stands what stood there at first, or a whole body that looks
-- like a manifest, at every moment between two steps.
pub Reachable-IsWhole :
    {start w : World}
    → Reachable start w
    → (reader : Call)
    → IsWhole (start.cache.files (dest_of reader)) (w.cache.files (dest_of reader))
Reachable-IsWhole here reader = inl refl
Reachable-IsWhole {start} (after r s) reader =
    Step-IsWhole reader (start.cache.files (dest_of reader)) (Reachable-IsWhole r reader) s
