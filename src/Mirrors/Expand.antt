-- ===== src/Mirrors/Expand.antt =====
-- The addresses that a template gives.
use better_steam_tools_ameth.Base.{◌≡◌, refl, true, false, List, ◌∷◌, ◌++◌}
use better_steam_tools_ameth.Base.Text.{Bytes, codes, starts_with}
use better_steam_tools_ameth.Base.Find.{absent}
use better_steam_tools_ameth.Template.Fill.{
  Slot, first, second, third, Piece, same, IsClean, render, fill, replace_all-fill,
}
use better_steam_tools_ameth.Mirrors.{expand_template}

unfoldable pub placeholder : Slot → Bytes
placeholder first = codes "channel}"
placeholder second = codes "component}"
placeholder third = codes "sha256}"

placeholder-closed : (s : Slot) → absent b'{' (placeholder s) ≡ true
unfolding placeholder absent
placeholder-closed first = refl
placeholder-closed second = refl
placeholder-closed third = refl

placeholder-apart :
    (s t : Slot) (rest : Bytes)
    → same s t ≡ false
    → starts_with (b'{' ∷ placeholder s) (b'{' ∷ (placeholder t ++ rest)) ≡ false
unfolding placeholder starts_with
placeholder-apart first first rest h = cc
placeholder-apart first second rest h = refl
placeholder-apart first third rest h = refl
placeholder-apart second first rest h = refl
placeholder-apart second second rest h = cc
placeholder-apart second third rest h = refl
placeholder-apart third first rest h = refl
placeholder-apart third second rest h = refl
placeholder-apart third third rest h = cc

-- A template is plain text without an opening brace and any number of the three placeholders, in
-- any order. If the channel and the component hold no opening brace, its expansion has the value
-- of each placeholder in its place and all else unchanged.
expand_template-fill :
    (ps : List Piece) (channel component sha256 : Bytes)
    → absent b'{' channel ≡ true
    → absent b'{' component ≡ true
    → IsClean ps
    → expand_template (render placeholder ps) channel component sha256
      ≡ fill channel component sha256 ps
unfolding expand_template
expand_template-fill ps channel component sha256 h k c =
    unfold placeholder in
    replace_all-fill placeholder placeholder-closed placeholder-apart channel component sha256 ps h
      k c
