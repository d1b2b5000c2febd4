-- ===== src/Template/Fill.antt =====
-- Templates as pieces: plain text, and three placeholders that are replaced one after the other.
use better_steam_tools_ameth.Base.{
  suc, ◌-◌, ◌≡◌, ◌∙◌, refl, ap, Bool, true, false, List, [], ◌∷◌, ◌++◌, arith, if◌then◌else◌, inl,
  inr, Bool-cases, length, drop-length-append,
}
use better_steam_tools_ameth.Base.Text.{Bytes, starts_with, starts_with-append}
use better_steam_tools_ameth.Base.Find.{absent}
use better_steam_tools_ameth.Template.{replace_all}
use better_steam_tools_ameth.Template.Reference.{one_pass, one_pass-skip, replace_all-one_pass}

pub data Slot : Type 0 where
  first second third : Slot

pub data Piece : Type 0 where
  text : Bytes → Piece
  slot : Slot → Piece

abbrev pub same : Slot → Slot → Bool
same first first = true
same second second = true
same third third = true
same _ _ = false

same→eq : (s t : Slot) → same s t ≡ true → s ≡ t
same→eq s t h = ground arith

-- no plain text holds an opening brace
abbrev pub IsClean : List Piece → Type 0
IsClean [] = Unit
IsClean (text s ∷ ps) = (absent b'{' s ≡ true) × IsClean ps
IsClean (slot t ∷ ps) = IsClean ps

abbrev pub token : (Slot → Bytes) → Slot → Bytes
token name s = b'{' ∷ name s

-- the template, where `name` is what follows the brace of each placeholder
unfoldable pub render : (Slot → Bytes) → List Piece → Bytes
render name [] = []
render name (text s ∷ ps) = s ++ render name ps
render name (slot t ∷ ps) = token name t ++ render name ps

unfoldable pub assign : Slot → Bytes → List Piece → List Piece
assign s v [] = []
assign s v (text u ∷ ps) = text u ∷ assign s v ps
assign s v (slot t ∷ ps) = (if same s t then text v else slot t) ∷ assign s v ps

-- every placeholder has its value, and the plain text is as it was
unfoldable pub fill : Bytes → Bytes → Bytes → List Piece → Bytes
fill a b c [] = []
fill a b c (text u ∷ ps) = u ++ fill a b c ps
fill a b c (slot first ∷ ps) = a ++ fill a b c ps
fill a b c (slot second ∷ ps) = b ++ fill a b c ps
fill a b c (slot third ∷ ps) = c ++ fill a b c ps

one_pass-text :
    (f to s rest : Bytes)
    → absent b'{' s ≡ true
    → one_pass (b'{' ∷ f) to 0 (s ++ rest) ≡ s ++ one_pass (b'{' ∷ f) to 0 rest
unfolding absent one_pass starts_with
one_pass-text f to [] rest h = refl
one_pass-text f to (c ∷ cs) rest h = ground (arith, one_pass-text f to cs rest)

-- the placeholders: each is a brace and a name with no brace, and none begins another
module _ (name : Slot → Bytes) (closed : (s : Slot) → absent b'{' (name s) ≡ true)
    (apart : (s t : Slot) (rest : Bytes)
      → same s t ≡ false
      → starts_with (b'{' ∷ name s) (b'{' ∷ (name t ++ rest)) ≡ false) where
  one_pass_self :
      (s : Slot) (v rest : Bytes)
      → one_pass (token name s) v 0 (token name s ++ rest) ≡ v ++ one_pass (token name s) v 0 rest
  unfolding one_pass
  one_pass_self s v rest =
      let e : suc (length (name s)) - 1 ≡ length (name s) = omega arith in
      rw (
        starts_with-append (token name s) rest,
        e,
        one_pass-skip (token name s) v (length (name s)) (name s ++ rest),
        drop-length-append (name s) rest,
      )

  one_pass-other :
      (s t : Slot) (v rest : Bytes)
      → same s t ≡ false
      → one_pass (token name s) v 0 (token name t ++ rest)
        ≡ token name t ++ one_pass (token name s) v 0 rest
  unfolding one_pass
  one_pass-other s t v rest h =
      rw (apart s t rest h, one_pass-text (name s) v (name t) rest (closed t))

  one_pass-render :
      (s : Slot) (v : Bytes) (ps : List Piece)
      → IsClean ps
      → one_pass (token name s) v 0 (render name ps) ≡ render name (assign s v ps)
  unfolding render assign
  one_pass-render s v [] c = unfold one_pass in refl
  one_pass-render s v (text u ∷ ps) c =
      one_pass-text (name s) v u (render name ps) c.0
      ∙ ap (λ r. u ++ r) (one_pass-render s v ps c.1)
  one_pass-render s v (slot t ∷ ps) c = elim (Bool-cases (same s t)) [
    | inl e ↦ rw e (
        rw (← same→eq s t e)
          (one_pass_self s v (render name ps) ∙ ap (λ r. v ++ r) (one_pass-render s v ps c)))
    | inr e ↦ rw e (
        one_pass-other s t v (render name ps) e
        ∙ ap (λ r. token name t ++ r) (one_pass-render s v ps c))
  ]

  assign-IsClean :
      (s : Slot) (v : Bytes) (ps : List Piece)
      → absent b'{' v ≡ true
      → IsClean ps
      → IsClean (assign s v ps)
  unfolding assign
  assign-IsClean s v [] h c = tt
  assign-IsClean s v (text u ∷ ps) h c = (c.0, assign-IsClean s v ps h c.1)
  assign-IsClean s v (slot t ∷ ps) h c = elim (Bool-cases (same s t)) [
    | inl e ↦ rw e (h, assign-IsClean s v ps h c)
    | inr e ↦ rw e (assign-IsClean s v ps h c)
  ]

  replace_all-render :
      (s : Slot) (v : Bytes) (ps : List Piece)
      → IsClean ps
      → replace_all (render name ps) (token name s) v ≡ render name (assign s v ps)
  replace_all-render s v ps c =
      replace_all-one_pass (render name ps) (token name s) v (omega arith)
      ∙ one_pass-render s v ps c

  module _ (a b c : Bytes) where
    render-fill :
        (ps : List Piece)
        → render name (assign third c (assign second b (assign first a ps))) ≡ fill a b c ps
    unfolding render assign fill
    render-fill [] = refl
    render-fill (text u ∷ ps) = ap (λ r. u ++ r) (render-fill ps)
    render-fill (slot first ∷ ps) = ap (λ r. a ++ r) (render-fill ps)
    render-fill (slot second ∷ ps) = ap (λ r. b ++ r) (render-fill ps)
    render-fill (slot third ∷ ps) = ap (λ r. c ++ r) (render-fill ps)

    -- replacing the three placeholders in turn fills the template
    pub replace_all-fill :
        (ps : List Piece)
        → absent b'{' a ≡ true
        → absent b'{' b ≡ true
        → IsClean ps
        → replace_all
            (replace_all (replace_all (render name ps) (token name first) a) (token name second) b)
            (token name third)
            c
          ≡ fill a b c ps
    replace_all-fill ps ha hb clean =
        let clean' = assign-IsClean first a ps ha clean in
        rw
          (
            replace_all-render first a ps clean,
            replace_all-render second b (assign first a ps) clean',
            replace_all-render third c (assign second b (assign first a ps))
                (assign-IsClean second b (assign first a ps) hb clean'),
          )
          (render-fill ps)
