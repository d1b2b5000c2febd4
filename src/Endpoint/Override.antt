-- ===== src/Endpoint/Override.antt =====
-- The user's own template is filled, and nothing of the provider enters it.
use better_steam_tools_ameth.Base.{
  ℕ, ◌≡◌, refl, ap, true, false, Option, List, [], ◌∷◌, ◌++◌, arith,
}
use better_steam_tools_ameth.Base.Text.{Bytes, codes, starts_with}
use better_steam_tools_ameth.Base.Find.{absent}
use better_steam_tools_ameth.Numbers.{decimal, is_digit, digit_value}
use better_steam_tools_ameth.Numbers.Exact.{all_digits}
use better_steam_tools_ameth.Numbers.Decimal.{all_digits-decimal}
use better_steam_tools_ameth.Template.Fill.{
  Slot, first, second, third, Piece, same, IsClean, render, fill, replace_all-fill,
}
use better_steam_tools_ameth.Endpoint.{override_url, is_unset, build}

-- the numbers of a request
unfoldable pub number_name : Slot → Bytes
number_name first = codes "appid}"
number_name second = codes "depotid}"
number_name third = codes "gid}"

number_name-closed : (s : Slot) → absent b'{' (number_name s) ≡ true
unfolding number_name absent
number_name-closed first = refl
number_name-closed second = refl
number_name-closed third = refl

number_name-apart :
    (s t : Slot) (rest : Bytes)
    → same s t ≡ false
    → starts_with (b'{' ∷ number_name s) (b'{' ∷ (number_name t ++ rest)) ≡ false
unfolding number_name starts_with
number_name-apart first first rest h = cc
number_name-apart first second rest h = refl
number_name-apart first third rest h = refl
number_name-apart second first rest h = refl
number_name-apart second second rest h = cc
number_name-apart second third rest h = refl
number_name-apart third first rest h = refl
number_name-apart third second rest h = refl
number_name-apart third third rest h = cc

digits-plain : (s : Bytes) → all_digits 10 s ≡ true → absent b'{' s ≡ true
unfolding all_digits absent is_digit digit_value
digits-plain [] h = refl
digits-plain (c ∷ cs) h = ground (arith, digits-plain cs)

-- For a template of the user that is plain text without an opening brace and any number of the three
-- placeholders, in any order: the address has each number in its place and all else unchanged, is
-- not cut, and depends on nothing of the provider.
build-fill :
    (printf : Bytes → List ℕ → Option Bytes) (buffer template : Bytes) (template_ex : Option Bytes)
    (ps : List Piece) (app_id depot_id gid : ℕ)
    → IsClean ps
    → is_unset (render number_name ps) ≡ false
    → build printf buffer (render number_name ps) template template_ex app_id depot_id gid
      ≡ record {
        url = fill (decimal app_id) (decimal depot_id) (decimal gid) ps;
        shape = override_url;
        truncated = false;
      }
unfolding build
build-fill printf buffer template template_ex ps app_id depot_id gid clean given =
    let filled =
      replace_all-fill number_name number_name-closed number_name-apart (decimal app_id)
        (decimal depot_id) (decimal gid) ps
        (digits-plain (decimal app_id) (all_digits-decimal app_id))
        (digits-plain (decimal depot_id) (all_digits-decimal depot_id)) clean in
    rw (given) (
      unfold number_name in
      ap (λ u. record { url = u; shape = override_url; truncated = false }) filled)
