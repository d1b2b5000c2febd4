-- ===== src/Mirrors/Fetch/Cache.antt =====
-- The cache comes first, and a result is never empty.
use better_steam_tools_ameth.Base.{
  ◌≡◌, ◌≢◌, ◌⊎◌, ◌↔◌, ◌∙◌, ap, if◌then◌else◌, refl, Bool, true, false, not, ◌&&◌, Option, none,
  some, List, [], ◌∷◌, arith, inl, inr, Bool-cases, Option-cases,
}
use better_steam_tools_ameth.Base.Text.{Bytes}
use better_steam_tools_ameth.Mirrors.Fetch.{
  HttpResult, Request, Env, Outcome, is_empty, walk, no_answer, readable, conclude, mirror_urls,
  fetch, failed,
}
use better_steam_tools_ameth.Mirrors.Fetch.Chain.{hit, StopsAt, walk-StopsAt}

readable-eq-some :
    (file : Option Bytes) (opens : Bool) (body : Bytes)
    → readable file opens ≡ some body
    → (file ≡ some body) × (body ≢ [])
readable-eq-some none opens body h = cc
readable-eq-some (some []) opens body h = cc
readable-eq-some (some (c ∷ cs)) opens body h = ground arith

-- what an outcome may be, beside the file that was there before
pub record IsSound (env : Env) (urls : List Bytes) (file : Option Bytes) (out : Outcome)
    : Type 0 where
  -- a successful result has a body
  pub nonempty : out.result.ok ≡ true → out.result.body ≢ []
  -- what is said to come from the cache is what the cache holds, and the cache stays
  pub cached : out.result.from_cache ≡ true → (file ≡ some out.result.body) × (out.file ≡ file)
  -- the cache is left alone, or it was opened and holds what the write of the downloaded body leaves
  pub kept :
      (out.file ≡ file)
      ⊎ ((out.file ≡ some (env.stored out.result.body))
          × (env.opens_write ≡ true)
          × (out.result.ok ≡ true)
          × (out.result.from_cache ≡ false))
  -- what was downloaded is the answer of the first mirror that answered 200
  pub downloaded :
      out.result.ok ≡ true
      → out.result.from_cache ≡ false
      → (url : Bytes) × StopsAt env.http urls out.requests url
        × (out.result.body ≡ (env.http url).body)

pub is_empty-ne : (s : Bytes) → is_empty s ≡ false → s ≢ []
is_empty-ne [] h = λ e. cc
is_empty-ne (c ∷ cs) h = λ e. cc

module _ (env : Env) (urls : List Bytes) (file : Option Bytes) where
  -- the outcome when the last answer is taken
  written : Bytes → HttpResult → Outcome
  written sha256 answer = record {
    result = record (failed sha256) { ok = true; body = answer.body };
    requests = (walk env.http no_answer urls).0;
    file = if env.opens_write then some (env.stored answer.body) else file;
  }

  written-IsSound :
      (sha256 : Bytes) (answer : HttpResult)
      → answer ≡ (walk env.http no_answer urls).1
      → hit answer ≡ true
      → is_empty answer.body ≡ false
      → IsSound env urls file (written sha256 answer)
  unfolding written
  written-IsSound sha256 answer e h ne =
      let (url, s, a) = walk-StopsAt env.http no_answer urls refl (rw e at h) in
      record {
        nonempty = λ _. is_empty-ne answer.body ne;
        cached = λ c. cc;
        kept = elim (Bool-cases env.opens_write) [
          | inl o ↦ rw o (inr (refl, refl, refl, refl))
          | inr o ↦ rw o (inl refl)
        ];
        downloaded = λ _ _. (url, s, ap (λ r. r.body) (e ∙ a));
      }

  conclude-IsSound :
      (sha256 : Bytes) (answer : HttpResult)
      → answer ≡ (walk env.http no_answer urls).1
      → IsSound env urls file (conclude env sha256 file (walk env.http no_answer urls).0 answer)
  unfolding conclude
  conclude-IsSound sha256 answer e = elim (Bool-cases (hit answer && not (is_empty answer.body))) [
    | inl h ↦ rw h (unfold written in written-IsSound sha256 answer e (ground arith) (ground arith))
    | inr h ↦ rw h (elim (Option-cases (readable file env.opens_again)) [
      | inl r ↦
          rw (r, conclude)
            (record { nonempty = λ o. cc; cached = λ c. cc; kept = inl refl; downloaded = λ o. cc })
      | inr (body, r) ↦
          let (same, ne) = readable-eq-some file env.opens_again body r in
          rw (r, conclude)
            (record {
              nonempty = λ _. ne;
              cached = λ _. (same, refl);
              kept = inl refl;
              downloaded = λ _ c. cc;
            })
    ])
  ]

nil_of_empty : (s : Bytes) → is_empty s ≡ true → s ≡ []
nil_of_empty [] h = refl
nil_of_empty (c ∷ cs) h = cc

walk-nil :
    (http : Bytes → HttpResult) (last : HttpResult) (urls : List Bytes)
    → urls ≡ []
    → (walk http last urls).0 ≡ []
unfolding walk
walk-nil http last [] e = refl
walk-nil http last (u ∷ us) e = cc

walk_nil :
    (http : Bytes → HttpResult) (last : HttpResult) (urls : List Bytes)
    → (walk http last urls).0 ≡ []
    → urls ≡ []
unfolding walk
walk_nil http last [] e = refl
walk_nil http last (u ∷ us) e = ground arith

conclude-requests :
    (env : Env) (sha256 : Bytes) (file : Option Bytes) (requests : List Bytes) (answer : HttpResult)
    → (conclude env sha256 file requests answer).requests ≡ requests
unfolding conclude
conclude-requests env sha256 file requests answer = ground arith

unreadable :
    (file : Option Bytes) (opens : Bool)
    → readable file opens ≡ none
    → (file ≡ none) ⊎ (file ≡ some []) ⊎ (opens ≡ false)
unreadable none opens h = inl refl
unreadable (some []) opens h = inr (inl refl)
unreadable (some (c ∷ cs)) opens h = inr (inr (ground arith))

readable_not :
    (file : Option Bytes) (opens : Bool) (body : Bytes)
    → readable file opens ≡ some body
    → ¬ ((file ≡ none) ⊎ (file ≡ some []) ⊎ (opens ≡ false))
readable_not none opens body h = cc
readable_not (some []) opens body h = cc
readable_not (some (c ∷ cs)) opens body h = λ bad. ground arith

module _ (env : Env) (request : Request) (file : Option Bytes) where
  abbrev urls : List Bytes
  urls = mirror_urls env request (env.sha256_of request.dll_path)

  -- Whatever the mirrors answer and the cache file holds: a successful result has a body; one that
  -- is said to come from the cache is the content of the cache file, which stays; any other is the
  -- answer of the first mirror that answered 200, with every mirror before it asked in order and
  -- none after it; and the cache file is left with its old content unless a body was downloaded and
  -- the file could be opened, and then with what the unchecked write of that body leaves.
  pub fetch-IsSound :
      IsSound env
        (mirror_urls env request (env.sha256_of request.dll_path))
        file
        (fetch env request file)
  unfolding fetch
  fetch-IsSound = elim (Bool-cases (is_empty (env.sha256_of request.dll_path))) [
    | inl h ↦
        rw h
          (record { nonempty = λ o. cc; cached = λ c. cc; kept = inl refl; downloaded = λ o. cc })
    | inr h ↦ rw h (elim (Option-cases (readable file env.opens_first)) [
      | inl r ↦
          rw (r, fetch)
            (conclude-IsSound env urls file (env.sha256_of request.dll_path)
              (walk env.http no_answer urls).1 refl)
      | inr (body, r) ↦
          let (same, ne) = readable-eq-some file env.opens_first body r in
          rw (r, fetch)
            (record {
              nonempty = λ _. ne;
              cached = λ _. (same, refl);
              kept = inl refl;
              downloaded = λ _ c. cc;
            })
    ])
  ]

  -- A mirror is asked exactly if the hash is known, there is a mirror, and the cache file is
  -- missing, is empty, or cannot be opened at first.
  pub fetch_offline : ((fetch env request file).requests ≢ []) ↔ (
      (env.sha256_of request.dll_path ≢ [])
      × ((file ≡ none) ⊎ (file ≡ some []) ⊎ (env.opens_first ≡ false))
      × (mirror_urls env request (env.sha256_of request.dll_path) ≢ []))
  unfolding fetch
  fetch_offline = elim (Bool-cases (is_empty (env.sha256_of request.dll_path))) [
    | inl h ↦ rw h (λ ne. absurd (ne refl), λ t. absurd (t.0 (nil_of_empty _ h)))
    | inr h ↦ rw h (elim (Option-cases (readable file env.opens_first)) [
      | inl r ↦
          rw (r, fetch, conclude-requests)
            (
              λ ne. (
                is_empty-ne _ h,
                unreadable file env.opens_first r,
                λ e. ne (walk-nil env.http no_answer urls e),
              ),
              λ t e. t.2 (walk_nil env.http no_answer urls e),
            )
      | inr (body, r) ↦
          rw (r, fetch)
            (λ ne. absurd (ne refl), λ t. absurd (readable_not file env.opens_first body r t.1))
    ])
  ]
