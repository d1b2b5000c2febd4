-- ===== src/Search/Occurrence.antt =====
-- `Find` returns the first occurrence of the pattern, and misses none.
use better_steam_tools_ameth.Base.{
  ℕ, zero, suc, ◌+◌, ◌-◌, ◌≤◌, ◌<◌, ◌≡◌, refl, subst, arith, inl, inr, true, ◌&&◌, ◌||◌, ◌==◌, leb,
  ltb, Option, none, some, Bool-cases, length, get_or,
}
use better_steam_tools_ameth.Base.Text.{Bytes}
use better_steam_tools_ameth.Search.Skip.{skip_table-pos, skip_table-le, skip_table-le-length}
use better_steam_tools_ameth.Search.{skip_table, match_back, scan, find}

-- the pattern stands in `bytes` at position `k`
pub record Occurs (bytes pattern : Bytes) (k : ℕ) : Type 0 where
  pub fits : k + length pattern ≤ length bytes
  pub agrees : (j : ℕ) → j < length pattern → get_or bytes (k + j) 0 ≡ get_or pattern j 0

-- the result is the first occurrence, or there is none
abbrev pub IsFirst : Bytes → Bytes → Option ℕ → Type 0
IsFirst bytes pattern none = (j : ℕ) → ¬ Occurs bytes pattern j
IsFirst bytes pattern (some k) =
    Occurs bytes pattern k × ((j : ℕ) → j < k → ¬ Occurs bytes pattern j)

match_back_zero :
    (bytes pattern : Bytes) (offset i : ℕ)
    → match_back bytes pattern offset i ≡ 0
    → (j : ℕ) → j < i
    → get_or bytes (offset + j) 0 ≡ get_or pattern j 0
unfolding match_back
match_back_zero bytes pattern offset zero h j lt = elim lt [ ]
match_back_zero bytes pattern offset (suc i) h j lt = elim (Bool-cases (j == i)) [
  | inl same ↦ ground arith
  | inr other ↦ match_back_zero bytes pattern offset i (ground arith) j (ground arith)
]

match_back_nonzero :
    (bytes pattern : Bytes) (offset i : ℕ)
    → ((j : ℕ) → j < i → get_or bytes (offset + j) 0 ≡ get_or pattern j 0)
    → match_back bytes pattern offset i ≡ 0
unfolding match_back
match_back_nonzero bytes pattern offset zero h = refl
match_back_nonzero bytes pattern offset (suc i) h =
    ground (arith, h i, match_back_nonzero bytes pattern offset i (λ j lt. h j (omega arith)))

module _ (bytes pattern : Bytes) (pos : 0 < length pattern) where
  -- the test of the outer loop decides an occurrence
  abbrev Hit : ℕ → Type 0
  Hit offset =
      (get_or bytes (offset + length pattern - 1) 0 == get_or pattern (length pattern - 1) 0
        && match_back bytes pattern offset (length pattern - 1) == 0)
      ≡ true

  Hit-Occurs :
      (offset : ℕ)
      → offset + length pattern ≤ length bytes
      → Hit offset
      → Occurs bytes pattern offset
  Hit-Occurs offset fits hit = record {
    fits = fits;
    agrees = λ j lt. elim (Bool-cases (j == length pattern - 1)) [
      | inl last ↦
          let e : j ≡ length pattern - 1 = ground arith in
          let e' : offset + (length pattern - 1) ≡ offset + length pattern - 1 = omega arith in
          rw (e, e') (ground arith)
      | inr inner ↦
          match_back_zero bytes pattern offset (length pattern - 1) (ground arith) j (ground arith)
    ];
  }

  Occurs-Hit : (offset : ℕ) → Occurs bytes pattern offset → Hit offset
  Occurs-Hit offset o =
      let e : offset + (length pattern - 1) ≡ offset + length pattern - 1 = omega arith in
      let last = rw e at (o.agrees (length pattern - 1) (omega arith)) in
      ground (
        arith,
        last,
        match_back_nonzero bytes pattern offset (length pattern - 1)
            (λ j lt. o.agrees j (omega arith)),
      )

  -- no occurrence starts inside a skip
  skip_none :
      (offset d : ℕ)
      → 0 < d
      → d < skip_table pattern (get_or bytes (offset + length pattern - 1) 0)
      → ¬ Occurs bytes pattern (offset + d)
  skip_none offset d dpos lt o =
      let tail = get_or bytes (offset + length pattern - 1) 0 in
      let short = skip_table-le-length pattern tail pos in
      let j = length pattern - 1 - d in
      let e : offset + d + (length pattern - 1 - d) ≡ offset + length pattern - 1 = omega arith in
      let same = rw e at (o.agrees (length pattern - 1 - d) (omega arith)) in
      let le = rw (← same) at (skip_table-le pattern (length pattern - 1 - d) (omega arith)) in
      omega arith

  abbrev NoneBefore : ℕ → Type 0
  NoneBefore offset = (j : ℕ) → j < offset → ¬ Occurs bytes pattern j

  NoneBefore-skip :
      (offset : ℕ)
      → NoneBefore offset
      → ¬ Occurs bytes pattern offset
      → NoneBefore (offset + skip_table pattern (get_or bytes (offset + length pattern - 1) 0))
  NoneBefore-skip offset before here j lt o = elim (Bool-cases (ltb j offset)) [
    | inl earlier ↦ before j (ground arith) o
    | inr later ↦ elim (Bool-cases (j == offset)) [
      | inl same ↦
          let e : j ≡ offset = ground arith in here (subst (λ k. Occurs bytes pattern k) e o)
      | inr other ↦
          let e : j ≡ offset + (j - offset) = ground arith in
          skip_none offset (j - offset) (ground arith) (ground arith)
            (subst (λ k. Occurs bytes pattern k) e o)
    ]
  ]

  scan-IsFirst :
      (fuel offset : ℕ)
      → length bytes < offset + fuel
      → length pattern ≤ length bytes
      → NoneBefore offset
      → IsFirst bytes pattern (scan fuel (skip_table pattern) bytes pattern offset)
  unfolding scan
  scan-IsFirst zero offset m fits before = λ j o. before j (let f = o.fits in omega arith) o
  scan-IsFirst (suc fuel) offset m fits before =
      elim (Bool-cases (leb offset (length bytes - length pattern))) [
        | inr done ↦ rw done (λ j o. before j (let f = o.fits in ground arith) o)
        | inl more ↦
            elim (Bool-cases (
              get_or bytes (offset + length pattern - 1) 0 == get_or pattern (length pattern - 1) 0
              && match_back bytes pattern offset (length pattern - 1) == 0)) [
                | inl hit ↦ rw (more, hit) (Hit-Occurs offset (ground arith) hit, before)
                | inr miss ↦
                    rw (more, miss)
                      (scan-IsFirst fuel
                        (offset + skip_table pattern (get_or bytes (offset + length pattern - 1) 0))
                        (let p =
                            skip_table-pos pattern (get_or bytes (offset + length pattern - 1) 0) in
                          omega arith)
                        fits
                        (NoneBefore-skip offset before (λ o. let hit = Occurs-Hit offset o in cc)))
              ]
      ]

-- For every pattern that is not empty, `Find` returns the first position at which the pattern
-- occurs, and nothing exactly when it occurs nowhere: no skip passes over an occurrence.
pub find-IsFirst :
    (bytes pattern : Bytes) → 0 < length pattern → IsFirst bytes pattern (find bytes pattern)
unfolding find
find-IsFirst bytes pattern pos =
    elim (Bool-cases (length pattern == 0 || ltb (length bytes) (length pattern))) [
      | inl short ↦ rw short (λ j o. let f = o.fits in ground arith)
      | inr fits ↦ rw fits (
          scan-IsFirst bytes pattern pos (suc (length bytes)) 0 (omega arith) (ground arith)
            (λ j lt. elim lt [ ]))
    ]
