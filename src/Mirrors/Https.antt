-- ===== src/Mirrors/Https.antt =====
-- The scheme test of the revalidation.
use better_steam_tools_ameth.Base.{
  ◌≡◌, refl, true, false, [], ◌∷◌, map, arith, inl, inr, Bool-cases, length, ltb, ◌==◌,
}
use better_steam_tools_ameth.Base.Text.{Bytes, codes, starts_with, length-starts_with}
use better_steam_tools_ameth.Mirrors.{lower, matches_scheme, is_https_url}

length-map-lower : (url : Bytes) → length (map lower url) ≡ length url
length-map-lower [] = refl
length-map-lower (c ∷ cs) = omega (arith, length-map-lower cs)

matches_scheme-starts_with :
    (scheme url : Bytes) → matches_scheme scheme url ≡ starts_with scheme (map lower url)
unfolding matches_scheme starts_with
matches_scheme-starts_with [] url = refl
matches_scheme-starts_with (s ∷ scheme) [] = refl
matches_scheme-starts_with (s ∷ scheme) (c ∷ url) = elim (Bool-cases (lower c == s)) [
  | inl e ↦
      let e' : (s == lower c) ≡ true = ground arith in
      rw (e, e') (matches_scheme-starts_with scheme url)
  | inr e ↦ let e' : (s == lower c) ≡ false = ground arith in rw (e, e') refl
]

starts_with-short :
    (p text : Bytes) → ltb (length text) (length p) ≡ true → starts_with p text ≡ false
starts_with-short p text h = elim (Bool-cases (starts_with p text)) [
  | inl e ↦ absurd (ground (arith, length-starts_with p text e))
  | inr e ↦ e
]

-- An address passes exactly if it begins with "https://" once its ASCII letters are in lower case.
pub is_https_url-starts_with :
    (url : Bytes) → is_https_url url ≡ starts_with (codes "https://") (map lower url)
is_https_url-starts_with url = elim (Bool-cases (ltb (length url) (length (codes "https://")))) [
  | inl short ↦
      unfold is_https_url in
      rw short (
        rw (starts_with-short (codes "https://") (map lower url) (rw (length-map-lower url) short)))
  | inr long ↦ unfold is_https_url in rw long (matches_scheme-starts_with (codes "https://") url)
]
