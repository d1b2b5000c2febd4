-- ===== src/Search/Skip.antt =====
-- The skip table never jumps over a place where a byte of the pattern could still match.
use better_steam_tools_ameth.Base.{
  ℕ, zero, suc, ◌+◌, ◌-◌, ◌≤◌, ◌<◌, [], ◌∷◌, arith, inl, inr, ltb, leb, Bool-cases, length, get_or,
}
use better_steam_tools_ameth.Base.Text.{Bytes}
use better_steam_tools_ameth.Search.{Table, store, full_skip, fill_skip, skip_table}

-- every entry is at least the distance that the loop will still write
abbrev Above : ℕ → ℕ → Table → Type 0
Above size i t = (d : ℕ) → size ≤ i + t d

store-Above :
    (size i c : ℕ) (t : Table) → Above size i t → Above size (i + 1) (store t c (size - 1 - i))
unfolding store
store-Above size i c t h d = ground (arith, h d)

fill_skip-le :
    (size i c : ℕ) (cs : Bytes) (t : Table) → Above size i t → fill_skip size i cs t c ≤ t c
unfolding fill_skip
fill_skip-le size i c [] t h = omega arith
fill_skip-le size i c (x ∷ cs) t h = ground (
  arith,
  h c,
  fill_skip-le size (i + 1) c cs (store t x (size - 1 - i)) (store-Above size i x t h),
)

fill_skip-get_or :
    (size i j : ℕ) (cs : Bytes) (t : Table)
    → Above size i t
    → j < length cs
    → i + j + 1 < size
    → fill_skip size i cs t (get_or cs j 0) ≤ size - 1 - (i + j)
unfolding fill_skip
fill_skip-get_or size i j [] t h lt r = elim lt [ ]
fill_skip-get_or size i zero (x ∷ cs) t h lt r =
    ground
      (arith, fill_skip-le size (i + 1) x cs (store t x (size - 1 - i)) (store-Above size i x t h))
fill_skip-get_or size i (suc j) (x ∷ cs) t h lt r = ground (
  arith,
  fill_skip-get_or size (i + 1) j cs (store t x (size - 1 - i)) (store-Above size i x t h),
)

fill_skip-pos :
    (size i c : ℕ) (cs : Bytes) (t : Table) → ((d : ℕ) → 0 < t d) → 0 < fill_skip size i cs t c
unfolding fill_skip
fill_skip-pos size i c [] t h = h c
fill_skip-pos size i c (x ∷ cs) t h = elim (Bool-cases (ltb (i + 1) size)) [
  | inl more ↦ rw more (
      fill_skip-pos size (i + 1) c cs (store t x (size - 1 - i))
        (λ d. unfold store in ground (arith, h d)))
  | inr done ↦ rw done (h c)
]

full_skip-Above : (size : ℕ) → Above size 0 (full_skip size)
unfolding full_skip
full_skip-Above size d = ground arith

full_skip-pos : (size d : ℕ) → 0 < full_skip size d
unfolding full_skip
full_skip-pos size d = ground arith

pub skip_table-pos : (pattern : Bytes) (c : ℕ) → 0 < skip_table pattern c
skip_table-pos pattern c = elim (Bool-cases (leb (length pattern) 1)) [
  | inl short ↦ unfold skip_table in rw short (full_skip-pos (length pattern) c)
  | inr long ↦
      unfold skip_table in
      rw long (
        fill_skip-pos (length pattern) 0 c pattern (full_skip (length pattern))
          (full_skip-pos (length pattern)))
]

-- A byte of the pattern, but for the last, is never skipped past.
pub skip_table-le :
    (pattern : Bytes) (j : ℕ)
    → j + 1 < length pattern
    → skip_table pattern (get_or pattern j 0) ≤ length pattern - 1 - j
skip_table-le pattern j h = elim (Bool-cases (leb (length pattern) 1)) [
  | inl short ↦ absurd (ground arith)
  | inr long ↦
      unfold skip_table in
      rw long (
        omega (
          arith,
          fill_skip-get_or (length pattern) 0 j pattern (full_skip (length pattern))
              (full_skip-Above (length pattern)) (omega arith) (omega arith),
        ))
]

pub skip_table-le-length :
    (pattern : Bytes) (c : ℕ) → 0 < length pattern → skip_table pattern c ≤ length pattern
skip_table-le-length pattern c h = elim (Bool-cases (leb (length pattern) 1)) [
  | inl short ↦ unfold skip_table in rw short (ground arith)
  | inr long ↦
      unfold skip_table in
      rw long (
        ground (
          arith,
          fill_skip-le (length pattern) 0 c pattern (full_skip (length pattern))
              (full_skip-Above (length pattern)),
        ))
]
