-- ===== src/Bridge/Json.antt =====
-- The readers of flat JSON: what `JsonString` returns, and when `JsonTrue` holds.
use mathlib.Core.Option
use better_steam_tools_ameth.Base.{
  ℕ, zero, suc, ◌+◌, ◌-◌, ◌≤◌, ◌<◌, ◌≡◌, refl, ap, ◌∙◌, Bool, true, false, ◌||◌, Option, none, some,
  [], ◌∷◌, ◌++◌, arith, inl, inr, ◌==◌, leb, if◌then◌else◌, length, drop, length-append,
  length-drop, drop-length-append, take-length-append, Bool-cases, Option-cases,
}
use better_steam_tools_ameth.Base.Text.{Bytes, codes, find, find_from, starts_with, find-le}
use better_steam_tools_ameth.Base.Find.{absent, find-byte, substr}
use better_steam_tools_ameth.Bridge.{
  find_first_of, find_first_of_from, is_delimiter, is_past, quoted, json_string, is_other,
  same_position, json_true,
}

drop-nil : (xs : Bytes) (n : ℕ) → xs ≡ [] → xs ≡ drop n xs
drop-nil [] zero h = refl
drop-nil [] (suc n) h = refl
drop-nil (x ∷ xs) n h = cc

drop_add : (a b : ℕ) (xs : Bytes) → drop (a + b) xs ≡ drop b (drop a xs)
drop_add zero b xs = let e : 0 + b ≡ b = omega arith in rw e refl
drop_add (suc a) b [] = let e : suc a + b ≡ suc (a + b) = omega arith in rw e (drop-nil [] b refl)
drop_add (suc a) b (x ∷ xs) =
    let e : suc a + b ≡ suc (a + b) = omega arith in rw e (drop_add a b xs)

-- a search that starts where `xs ++ (c ∷ ys)` stands, and what stands behind the find
find_from_at :
    (c : ℕ) (text : Bytes) (pos : ℕ) (xs ys : Bytes)
    → drop pos text ≡ xs ++ (c ∷ ys)
    → absent c xs ≡ true
    → find_from (c ∷ []) text pos ≡ some (pos + length xs)
unfolding find_from
find_from_at c text pos xs ys at clean =
    let room : pos ≤ length text =
      omega (arith, length-drop pos text, ap (λ l. length l) at, length-append xs (c ∷ ys)) in
    let found = find-byte c xs ys clean in
    let here : leb pos (length text) ≡ true = ground arith in rw (here, at, found) refl

behind :
    (c : ℕ) (text : Bytes) (pos : ℕ) (xs ys : Bytes)
    → drop pos text ≡ xs ++ (c ∷ ys)
    → drop (pos + length xs + 1) text ≡ ys
behind c text pos xs ys at =
    let e : pos + length xs + 1 ≡ pos + (length xs + 1) = omega arith in
    rw
      (
        e,
        drop_add pos (length xs + 1) text,
        at,
        drop_add (length xs) 1 (xs ++ (c ∷ ys)),
        drop-length-append xs (c ∷ ys),
      )
      refl

cut :
    (text : Bytes) (pos : ℕ) (xs ys : Bytes)
    → drop pos text ≡ xs ++ ys
    → substr text pos (length xs) ≡ xs
unfolding substr
cut text pos xs ys at = rw (at, take-length-append xs ys) refl

find_first_of_beyond :
    (inside : ℕ → Bool) (xs : Bytes) (c : ℕ) (ys : Bytes) (k : ℕ)
    → find_first_of inside xs ≡ none
    → inside c ≡ false
    → find_first_of inside (xs ++ (c ∷ ys)) ≡ some k
    → length xs < k
unfolding find_first_of
find_first_of_beyond inside [] c ys k clean plain h = ground arith
find_first_of_beyond inside (x ∷ xs) c ys zero clean plain h = ground arith
find_first_of_beyond inside (x ∷ xs) c ys (suc k) clean plain h =
    ground (arith, find_first_of_beyond inside xs c ys k)

no_delimiter_before :
    (text : Bytes) (pos : ℕ) (xs ys : Bytes)
    → drop pos text ≡ xs ++ (b'"' ∷ ys)
    → find_first_of is_delimiter xs ≡ none
    → is_past (find_first_of_from is_delimiter text pos) (pos + length xs) ≡ false
unfolding find_first_of_from
no_delimiter_before text pos xs ys at clean =
    elim (Option-cases (find_first_of is_delimiter (xs ++ (b'"' ∷ ys)))) [
      | inl e ↦ rw at (ground arith)
      | inr (k, e) ↦
          let far = find_first_of_beyond is_delimiter xs b'"' ys k clean refl e in
          rw at (ground arith)
    ]

-- Where the quoted key is found in the body at first, and behind it stand a colon and a string with
-- no colon, delimiter or quote out of place between them, `JsonString` returns the string: all
-- bytes up to the next quote, delimiters included.
pub json_string-value :
    (body key pre gap space val post : Bytes)
    → find (quoted key) body ≡ some (length pre)
    → body ≡ pre ++ (quoted key ++ (gap ++ (b':' ∷ (space ++ (b'"' ∷ (val ++ (b'"' ∷ post)))))))
    → absent b':' gap ≡ true
    → absent b'"' space ≡ true
    → find_first_of is_delimiter space ≡ none
    → absent b'"' val ≡ true
    → json_string body key ≡ some val
unfolding json_string
json_string-value body key pre gap space val post found shape no_colon no_quote no_delimiter
      closed =
    let t2 = val ++ (b'"' ∷ post) in
    let t1 = space ++ (b'"' ∷ t2) in
    let t0 = gap ++ (b':' ∷ t1) in
    let start = length pre + length (quoted key) in
    let at0 : drop start body ≡ t0 =
      drop_add (length pre) (length (quoted key)) body
      ∙ ap (λ b. drop (length (quoted key)) (drop (length pre) b)) shape
      ∙ ap (drop (length (quoted key))) (drop-length-append pre (quoted key ++ t0))
      ∙ drop-length-append (quoted key) t0 in
    let colon = start + length gap in
    let at1 = behind b':' body start gap t1 at0 in
    let q1 = colon + 1 + length space in
    let at2 = behind b'"' body (colon + 1) space t2 at1 in
    let q2 = q1 + 1 + length val in
    let found_colon = find_from_at b':' body start gap t1 at0 no_colon in
    let found_q1 = find_from_at b'"' body (colon + 1) space t2 at1 no_quote in
    let found_q2 = find_from_at b'"' body (q1 + 1) val post at2 closed in
    let clear = no_delimiter_before body (colon + 1) space t2 at1 no_delimiter in
    let count : q2 - q1 - 1 ≡ length val = omega arith in
    rw (found, found_colon, found_q1, clear, found_q2, count, json_string)
      (ap some (cut body (q1 + 1) val (b'"' ∷ post) at2))

-- the text behind its blanks
unfoldable pub skip_blanks : Bytes → Bytes
skip_blanks [] = []
skip_blanks (c ∷ cs) = if is_other c then c ∷ cs else skip_blanks cs

abbrev pub is_at_end : Bytes → Bool
is_at_end [] = true
is_at_end (c ∷ cs) = false

same_position-map :
    (shift : ℕ → ℕ) (a b : Option ℕ)
    → ((m n : ℕ) → (shift m == shift n) ≡ (m == n))
    → same_position (Option.map shift a) (Option.map shift b) ≡ same_position a b
same_position-map shift none none same = refl
same_position-map shift none (some b) same = refl
same_position-map shift (some a) none same = refl
same_position-map shift (some a) (some b) same = same a b

true_at :
    (text : Bytes)
    → same_position (find (codes "true") text) (find_first_of is_other text)
      ≡ (starts_with (codes "true") (skip_blanks text) || is_at_end (skip_blanks text))
unfolding find find_first_of skip_blanks starts_with
true_at [] = refl
true_at (c ∷ cs) = elim (Bool-cases (is_other c)) [
  | inl other ↦ ground arith
  | inr blank ↦
      let shifted =
        same_position-map suc (find (codes "true") cs) (find_first_of is_other cs)
          (λ m n. ground arith) in
      ground (arith, true_at cs)
]

find_from-le :
    (needle text : Bytes) (pos n : ℕ)
    → find_from needle text pos ≡ some n
    → n + length needle ≤ length text
unfolding find_from
find_from-le needle text pos n h = elim (Option-cases (find needle (drop pos text))) [
  | inl e ↦ absurd (ground arith)
  | inr (k, e) ↦
      let fits = find-le needle (drop pos text) k e in
      let left = length-drop pos text in ground arith
]

true_from :
    (body : Bytes) (pos : ℕ)
    → pos ≤ length body
    → same_position (find_from (codes "true") body pos) (find_first_of_from is_other body pos) ≡ (
        starts_with (codes "true") (skip_blanks (drop pos body))
        || is_at_end (skip_blanks (drop pos body)))
unfolding find_from find_first_of_from
true_from body pos fits =
    let here : leb pos (length body) ≡ true = ground arith in
    rw here (
      same_position-map (λ k. pos + k) (find (codes "true") (drop pos body))
        (find_first_of is_other (drop pos body)) (λ m n. ground arith)
      ∙ true_at (drop pos body))

-- Where the quoted key and a colon behind it are found, `JsonTrue` holds exactly if the text behind
-- the colon and its blanks starts with "true", or ends there.
json_true-value :
    (body key : Bytes) (k colon : ℕ)
    → find (quoted key) body ≡ some k
    → find_from (b':' ∷ []) body (k + length (quoted key)) ≡ some colon
    → json_true body key ≡ (
        starts_with (codes "true") (skip_blanks (drop (colon + 1) body))
        || is_at_end (skip_blanks (drop (colon + 1) body)))
unfolding json_true
json_true-value body key k colon found found_colon =
    rw (found, found_colon, json_true)
      (true_from body (colon + 1)
        (find_from-le (b':' ∷ []) body (k + length (quoted key)) colon found_colon))
