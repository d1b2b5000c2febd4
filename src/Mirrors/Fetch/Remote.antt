-- ===== src/Mirrors/Fetch/Remote.antt =====
-- `FetchRemoteOnly` with the https requirement.
use better_steam_tools_ameth.Base.{
  ◌≡◌, refl, ap, Bool, true, false, not, ◌&&◌, List, [], ◌∷◌, inl, inr, Bool-cases, if◌then◌else◌,
  map,
}
use better_steam_tools_ameth.Base.Text.{Bytes, codes, starts_with}
use better_steam_tools_ameth.Mirrors.{is_https_url, lower}
use better_steam_tools_ameth.Mirrors.Https.{is_https_url-starts_with}
use better_steam_tools_ameth.Mirrors.Fetch.{
  HttpResult, Request, Env, is_empty, mirror_urls, walk_remote, fetch_remote_only,
}
use better_steam_tools_ameth.Mirrors.Fetch.Chain.{hit}

abbrev pub usable : (Bytes → HttpResult) → Bytes → Bool
usable http url = hit (http url) && not (is_empty (http url).body)

-- the reference: the addresses that may be asked, up to the first usable answer
unfoldable pub allowed : Bool → List Bytes → List Bytes
allowed require_https [] = []
allowed require_https (url ∷ urls) =
    let rest = allowed require_https urls in
    if require_https && not (is_https_url url) then rest else url ∷ rest

unfoldable pub first_usable : (Bytes → HttpResult) → List Bytes → Bool × Bytes
first_usable http [] = (false, [])
first_usable http (url ∷ urls) =
    let rest = first_usable http urls in if usable http url then (true, (http url).body) else rest

unfoldable pub asked : (Bytes → HttpResult) → List Bytes → List Bytes
asked http [] = []
asked http (url ∷ urls) =
    let rest = asked http urls in if usable http url then url ∷ [] else url ∷ rest

walk_remote-allowed :
    (http : Bytes → HttpResult) (require_https : Bool) (last : Bytes) (urls : List Bytes)
    → ((walk_remote http require_https last urls).0 ≡ asked http (allowed require_https urls))
      × ((walk_remote http require_https last urls).1.ok
          ≡ (first_usable http (allowed require_https urls)).0)
      × ((walk_remote http require_https last urls).1.body
          ≡ (first_usable http (allowed require_https urls)).1)
unfolding walk_remote allowed first_usable asked
walk_remote-allowed http require_https last [] = (refl, refl, refl)
walk_remote-allowed http require_https last (url ∷ urls) =
    elim (Bool-cases (require_https && not (is_https_url url))) [
      | inl s ↦ rw s (walk_remote-allowed http require_https last urls)
      | inr s ↦ rw s (elim (Bool-cases (usable http url)) [
        | inl u ↦ rw u (refl, refl, refl)
        | inr u ↦ rw u (
            let (a, b, c) = walk_remote-allowed http require_https url urls in
            (ap (◌∷◌ url) a, b, c))
      ])
    ]

abbrev pub AllHttps : List Bytes → Type 0
AllHttps [] = Unit
AllHttps (url ∷ urls) = (starts_with (codes "https://") (map lower url) ≡ true) × AllHttps urls

asked-AllHttps :
    (http : Bytes → HttpResult) (urls : List Bytes) → AllHttps (asked http (allowed true urls))
unfolding asked allowed
asked-AllHttps http [] = tt
asked-AllHttps http (url ∷ urls) = elim (Bool-cases (is_https_url url)) [
  | inr s ↦ rw s (asked-AllHttps http urls)
  | inl s ↦
      let secure = rw (is_https_url-starts_with url) at s in
      rw s (elim (Bool-cases (usable http url)) [
        | inl u ↦ rw u (secure, tt)
        | inr u ↦ rw u (secure, asked-AllHttps http urls)
      ])
]

-- With the https requirement every address that is asked has the scheme "https://" in any case of
-- its letters, the addresses are asked in the order of the chain up to the first that answers 200
-- with a body, and that body is the result; there is a result exactly if such an answer exists.
pub fetch_remote_only-https :
    (env : Env) (request : Request) (sha256 : Bytes)
    → is_empty sha256 ≡ false
    → AllHttps (fetch_remote_only env request sha256 true).0
      × ((fetch_remote_only env request sha256 true).0
          ≡ asked env.http (allowed true (mirror_urls env request sha256)))
      × ((fetch_remote_only env request sha256 true).1.ok
          ≡ (first_usable env.http (allowed true (mirror_urls env request sha256))).0)
      × ((fetch_remote_only env request sha256 true).1.body
          ≡ (first_usable env.http (allowed true (mirror_urls env request sha256))).1)
unfolding fetch_remote_only
fetch_remote_only-https env request sha256 ne =
    let urls = mirror_urls env request sha256 in
    let (a, b, c) = walk_remote-allowed env.http true [] urls in
    rw ne (rw a (asked-AllHttps env.http urls), a, b, c)
