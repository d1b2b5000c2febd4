-- ===== src/Mirrors/Fetch/Chain.antt =====
-- The walk over the mirrors stops at the first one that answers 200.
use better_steam_tools_ameth.Base.{
  ◌≡◌, refl, ap, Bool, true, false, List, [], ◌∷◌, ◌++◌, arith, inl, inr, Bool-cases,
}
use better_steam_tools_ameth.Base.Text.{Bytes}
use better_steam_tools_ameth.Mirrors.{is_mirror_hit}
use better_steam_tools_ameth.Mirrors.Fetch.{HttpResult, walk}

abbrev pub hit : HttpResult → Bool
hit answer = is_mirror_hit answer.ok answer.status

abbrev pub AllMiss : (Bytes → HttpResult) → List Bytes → Type 0
AllMiss http [] = Unit
AllMiss http (url ∷ urls) = (hit (http url) ≡ false) × AllMiss http urls

-- the chain was asked up to `url`, which is the first to answer 200
pub record StopsAt (http : Bytes → HttpResult) (urls requests : List Bytes) (url : Bytes)
    : Type 0 where
  pub before : List Bytes
  pub after : List Bytes
  pub splits : urls ≡ before ++ (url ∷ after)
  pub asked : requests ≡ before ++ (url ∷ [])
  missed : AllMiss http before
  pub answered : hit (http url) ≡ true

module _ (http : Bytes → HttpResult) where
  pub walk-StopsAt :
      (last : HttpResult) (urls : List Bytes)
      → hit last ≡ false
      → hit (walk http last urls).1 ≡ true
      → (url : Bytes) × StopsAt http urls (walk http last urls).0 url
        × ((walk http last urls).1 ≡ http url)
  unfolding walk
  walk-StopsAt last [] miss h = cc
  walk-StopsAt last (u ∷ us) miss h = elim (Bool-cases (hit (http u))) [
    | inl e ↦ (
      u,
      record {
        before = [];
        after = us;
        splits = refl;
        asked = rw e refl;
        missed = tt;
        answered = e;
      },
      rw e refl,
    )
    | inr e ↦
        let (url, s, a) = walk-StopsAt (http u) us e (rw e at h) in
        (
          url,
          record {
            before = u ∷ s.before;
            after = s.after;
            splits = ap (◌∷◌ u) s.splits;
            asked = rw e (ap (◌∷◌ u) s.asked);
            missed = (e, s.missed);
            answered = s.answered;
          },
          rw e a,
        )
  ]

  walk-AllMiss :
      (last : HttpResult) (urls : List Bytes)
      → hit (walk http last urls).1 ≡ false
      → AllMiss http urls × ((walk http last urls).0 ≡ urls)
  unfolding walk
  walk-AllMiss last [] h = (tt, refl)
  walk-AllMiss last (u ∷ us) h = elim (Bool-cases (hit (http u))) [
    | inl e ↦ absurd (ground arith)
    | inr e ↦ let (m, a) = walk-AllMiss (http u) us (rw e at h) in ((e, m), rw e (ap (◌∷◌ u) a))
  ]
