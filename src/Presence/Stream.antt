-- ===== src/Presence/Stream.antt =====
-- The reader of key values gives back what a writer of the format has written.
use better_steam_tools_ameth.Base.{
  ℕ, zero, suc, ◌-◌, ◌<◌, ◌≡◌, refl, sym, ap, ◌∙◌, subst, true, false, some, List, [], ◌∷◌, ◌++◌,
  append_assoc, arith, ◌==◌, length, length-append,
}
use better_steam_tools_ameth.Base.Text.{Bytes}
use better_steam_tools_ameth.Base.Find.{absent}
use better_steam_tools_ameth.Presence.{read_cstr, KvList, extract_from, extract_string_kvs}

-- what a stream is made of
pub data Token : Type 0 where
  open_struct : Bytes → Token
  string_kv : Bytes → Bytes → Token
  close_struct : Token

unfoldable pub write_token : Token → Bytes
write_token (open_struct name) = 0 ∷ (name ++ (0 ∷ []))
write_token (string_kv key value) = 1 ∷ (key ++ (0 ∷ (value ++ (0 ∷ []))))
write_token close_struct = 8 ∷ []

unfoldable pub write_tokens : List Token → Bytes
unfolding write_token
write_tokens [] = []
write_tokens (t ∷ ts) = write_token t ++ write_tokens ts

-- the string key values, at any depth
abbrev pub pairs : List Token → KvList
pairs [] = []
pairs (string_kv key value ∷ ts) = (key, value) ∷ pairs ts
pairs (open_struct name ∷ ts) = pairs ts
pairs (close_struct ∷ ts) = pairs ts

-- no string holds a zero byte, every end closes a struct that is open, and `depth` of them are open
-- at first and none at last
abbrev pub IsNested : ℕ → List Token → Type 0
IsNested depth [] = depth ≡ 0
IsNested depth (open_struct name ∷ ts) = (absent 0 name ≡ true) × IsNested (suc depth) ts
IsNested depth (string_kv key value ∷ ts) =
    (absent 0 key ≡ true) × (absent 0 value ≡ true) × IsNested depth ts
IsNested zero (close_struct ∷ ts) = ⊥
IsNested (suc depth) (close_struct ∷ ts) = IsNested depth ts

read_cstr_written :
    (s rest : Bytes) → absent 0 s ≡ true → read_cstr (s ++ (0 ∷ rest)) ≡ some (s, rest)
unfolding read_cstr absent
read_cstr_written [] rest h = refl
read_cstr_written (c ∷ cs) rest h =
    let other : (c == 0) ≡ false = ground arith in ground (arith, read_cstr_written cs rest)

step_open :
    (fuel depth : ℕ) (bytes rest name : Bytes)
    → read_cstr bytes ≡ some (name, rest)
    → extract_from (suc fuel) (0 ∷ bytes) depth ≡ extract_from fuel rest (suc depth)
unfolding extract_from
step_open fuel depth bytes rest name h = ground arith

step_string :
    (fuel depth : ℕ) (bytes tail rest key value : Bytes)
    → read_cstr bytes ≡ some (key, tail)
    → read_cstr tail ≡ some (value, rest)
    → extract_from (suc fuel) (1 ∷ bytes) depth ≡ (key, value) ∷ extract_from fuel rest depth
unfolding extract_from
step_string fuel depth bytes tail rest key value h h' = ground arith

step_close :
    (fuel depth : ℕ) (rest : Bytes)
    → extract_from (suc fuel) (8 ∷ rest) (suc depth) ≡ extract_from fuel rest depth
unfolding extract_from
step_close fuel depth rest = let e : suc depth - 1 ≡ depth = omega arith in ground arith

step_end : (fuel : ℕ) (rest : Bytes) → extract_from (suc fuel) (8 ∷ rest) 0 ≡ []
unfolding extract_from
step_end fuel rest = refl

write_tokens-append :
    (t : Token) (ts : List Token) (rest : Bytes)
    → write_tokens (t ∷ ts) ++ rest ≡ write_token t ++ (write_tokens ts ++ rest)
unfolding write_tokens
write_tokens-append t ts rest = append_assoc (write_token t) (write_tokens ts) rest

write_tokens-short :
    (t : Token) (ts : List Token) (fuel : ℕ)
    → length (write_tokens (t ∷ ts)) < suc fuel
    → length (write_tokens ts) < fuel
unfolding write_tokens
write_tokens-short (open_struct name) ts fuel l =
    omega (arith, length-append (name ++ (0 ∷ [])) (write_tokens ts))
write_tokens-short (string_kv key value) ts fuel l =
    omega (arith, length-append (key ++ (0 ∷ (value ++ (0 ∷ [])))) (write_tokens ts))
write_tokens-short close_struct ts fuel l = omega arith

step_token :
    (t : Token) (fuel depth : ℕ) (more : Bytes) (ts : List Token)
    → IsNested depth (t ∷ ts)
    → ((after : ℕ) → IsNested after ts → extract_from fuel more after ≡ pairs ts)
    → extract_from (suc fuel) (write_token t ++ more) depth ≡ pairs (t ∷ ts)
unfolding write_token
step_token (open_struct name) fuel depth more ts (clean, h) later =
    ap (λ bs. extract_from (suc fuel) (0 ∷ bs) depth) (append_assoc name (0 ∷ []) more)
    ∙ step_open fuel depth (name ++ (0 ∷ more)) more name (read_cstr_written name more clean)
    ∙ later (suc depth) h
step_token (string_kv key value) fuel depth more ts (clean, clean', h) later =
    let tail = value ++ (0 ∷ more) in
    ap (λ bs. extract_from (suc fuel) (1 ∷ bs) depth)
      (append_assoc key (0 ∷ (value ++ (0 ∷ []))) more)
    ∙ ap (λ bs. extract_from (suc fuel) (1 ∷ (key ++ (0 ∷ bs))) depth)
        (append_assoc value (0 ∷ []) more)
    ∙ step_string fuel depth (key ++ (0 ∷ tail)) tail more key value
        (read_cstr_written key tail clean) (read_cstr_written value more clean')
    ∙ ap (λ kvs. (key, value) ∷ kvs) (later depth h)
step_token close_struct fuel zero more ts h later = elim h [ ]
step_token close_struct fuel (suc depth) more ts h later =
    step_close fuel depth more ∙ later depth h

extract_from_tokens :
    (ts : List Token) (fuel depth : ℕ) (rest : Bytes)
    → IsNested depth ts
    → length (write_tokens ts) < fuel
    → extract_from fuel (write_tokens ts ++ (8 ∷ rest)) depth ≡ pairs ts
extract_from_tokens [] zero depth rest h l = absurd (omega arith)
extract_from_tokens [] (suc fuel) depth rest h l =
    unfold write_tokens in
    subst (λ d. extract_from (suc fuel) (8 ∷ rest) d ≡ []) (sym h) (step_end fuel rest)
extract_from_tokens (t ∷ ts) zero depth rest h l = absurd (omega arith)
extract_from_tokens (t ∷ ts) (suc fuel) depth rest h l =
    ap (λ bs. extract_from (suc fuel) bs depth) (write_tokens-append t ts (8 ∷ rest))
    ∙ step_token t fuel depth (write_tokens ts ++ (8 ∷ rest)) ts h
        (λ d h'. extract_from_tokens ts fuel d rest h' (write_tokens-short t ts fuel l))

-- Every stream of structs and string key values, nested to any depth and ended by the second of its
-- two end markers, is read as the list of its string key values in order, whatever follows it.
pub extract_string_kvs-written :
    (ts : List Token) (rest : Bytes)
    → IsNested 0 ts
    → extract_string_kvs (write_tokens ts ++ (8 ∷ rest)) ≡ pairs ts
unfolding extract_string_kvs
extract_string_kvs-written ts rest h =
    extract_from_tokens ts (length (write_tokens ts ++ (8 ∷ rest))) 0 rest h
      (omega (arith, length-append (write_tokens ts) (8 ∷ rest)))
