-- ===== src/LuaConfig/Count.antt =====
-- How many files give a depot.
use better_steam_tools_ameth.Base.{
  ℕ, ◌+◌, ◌≤◌, ◌≡◌, refl, sym, subst, Bool, true, false, some, List, [], ◌∷◌, arith, inl, inr,
  length, Bool-cases,
}
use better_steam_tools_ameth.Base.Text.{Bytes, bytes_eq, bytes_eq→eq}
use better_steam_tools_ameth.Base.Keyed.{
  number_key, text_key, member, get, put, erase, erase_absent, IsMap, IsDistinct,
}
use better_steam_tools_ameth.LuaConfig.{or_else}

abbrev pub one_if : Bool → ℕ
one_if true = 1
one_if false = 0

unfoldable pub providers : ℕ → List (Bytes × List ℕ) → ℕ
providers id [] = 0
providers id ((file, ids) ∷ files) = one_if (member id ids) + providers id files

-- what a file gives
abbrev pub given : Bytes → List (Bytes × List ℕ) → List ℕ
given file files = or_else (get file files) []

pub providers-put :
    (id : ℕ) (file : Bytes) (ids : List ℕ) (files : List (Bytes × List ℕ))
    → providers id (put file ids files) + one_if (member id (given file files))
      ≡ providers id files + one_if (member id ids)
unfolding providers put get
providers-put id file ids [] = unfold member in omega arith
providers-put id file ids ((other, old) ∷ files) = elim (Bool-cases (bytes_eq file other)) [
  | inl e ↦ rw e (omega arith)
  | inr e ↦ rw e (omega (arith, providers-put id file ids files))
]

pub providers-erase :
    (id : ℕ) (file : Bytes) (files : List (Bytes × List ℕ))
    → IsMap files
    → providers id (erase file files) + one_if (member id (given file files)) ≡ providers id files
unfolding providers erase get
providers-erase id file [] h = unfold member in refl
providers-erase id file ((other, old) ∷ files) h = elim (Bool-cases (bytes_eq file other)) [
  | inl e ↦
      let same = bytes_eq→eq file other e in
      let gone = subst (λ f. erase f files ≡ files) (sym same) (erase_absent other files h.0) in
      rw (e, gone) (omega arith)
  | inr e ↦ rw e (omega (arith, providers-erase id file files h.1))
]

pub providers-le : (id : ℕ) (files : List (Bytes × List ℕ)) → providers id files ≤ length files
unfolding providers
providers-le id [] = omega arith
providers-le id ((file, ids) ∷ files) = elim (Bool-cases (member id ids)) [
  | inl e ↦ rw e (omega (arith, providers-le id files))
  | inr e ↦ rw e (omega (arith, providers-le id files))
]

-- every list is a set
abbrev pub AllDistinct : List (Bytes × List ℕ) → Type 0
AllDistinct [] = Unit
AllDistinct ((file, ids) ∷ files) = IsDistinct ids × AllDistinct files

pub AllDistinct-get :
    (file : Bytes) (files : List (Bytes × List ℕ)) {ids : List ℕ}
    → AllDistinct files
    → get file files ≡ some ids
    → IsDistinct ids
unfolding get
AllDistinct-get file [] h e = absurd (unfold get in cc)
AllDistinct-get file ((other, old) ∷ files) {ids} h e = elim (Bool-cases (bytes_eq file other)) [
  | inl s ↦ let same : old ≡ ids = ground arith in subst (λ l. IsDistinct l) same h.0
  | inr s ↦ AllDistinct-get file files h.1 (ground arith)
]

pub put-AllDistinct :
    (file : Bytes) (ids : List ℕ) (files : List (Bytes × List ℕ))
    → IsDistinct ids
    → AllDistinct files
    → AllDistinct (put file ids files)
unfolding put
put-AllDistinct file ids [] d h = (d, tt)
put-AllDistinct file ids ((other, old) ∷ files) d h = elim (Bool-cases (bytes_eq file other)) [
  | inl s ↦ rw s (d, h.1)
  | inr s ↦ rw s (h.0, put-AllDistinct file ids files d h.1)
]

pub erase-AllDistinct :
    (file : Bytes) (files : List (Bytes × List ℕ))
    → AllDistinct files
    → AllDistinct (erase file files)
unfolding erase
erase-AllDistinct file [] h = tt
erase-AllDistinct file ((other, old) ∷ files) h = elim (Bool-cases (bytes_eq file other)) [
  | inl s ↦ rw s (erase-AllDistinct file files h.1)
  | inr s ↦ rw s (h.0, erase-AllDistinct file files h.1)
]
