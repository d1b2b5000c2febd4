-- ===== src/Search/File/Chunks.antt =====
-- The overlapping chunks of a file hold every occurrence that lies in the range.
use mathlib.Core.Option
use better_steam_tools_ameth.Base.{
  ℕ, zero, suc, ◌+◌, ◌-◌, ◌^◌, ◌≤◌, ◌<◌, ◌≡◌, ◌∙◌, sym, refl, subst, arith, inl, inr, true, Option,
  none, some, ◌≢◌, ltb, ◌==◌, false, if◌then◌else◌, Bool-cases, Option-cases, length, get_or, take,
  drop, length-take, length-drop, get_or-take, get_or-drop,
}
use better_steam_tools_ameth.Base.Text.{Bytes}
use better_steam_tools_ameth.Search.{find}
use better_steam_tools_ameth.Search.Occurrence.{Occurs, IsFirst, find-IsFirst}
use better_steam_tools_ameth.Search.File.{FileIo, read_len, chunks}

-- the first occurrence that lies in [lo, hi)
abbrev pub IsFirstIn : Bytes → Bytes → ℕ → ℕ → Option ℕ → Type 0
IsFirstIn bytes pattern lo hi none =
    (j : ℕ) → lo ≤ j → j + length pattern ≤ hi → ¬ Occurs bytes pattern j
IsFirstIn bytes pattern lo hi (some k) =
    (lo ≤ k)
    × (k + length pattern ≤ hi)
    × Occurs bytes pattern k
    × ((j : ℕ) → lo ≤ j → j < k → ¬ Occurs bytes pattern j)

abbrev pub or_else : Option ℕ → Option ℕ → Option ℕ
or_else (some a) b = some a
or_else none b = b

-- the file holds `bytes`, and every read succeeds and is not short
pub record Reads (io : FileIo) (bytes : Bytes) : Type 0 where
  pub opens : io.opened ≡ true
  pub sized : io.file_size ≡ some (length bytes)
  pub waits : io.events ≡ true
  pub issues : (start len : ℕ) → io.issue start len ≡ true
  pub completes : (start len : ℕ) → io.complete start len ≡ some (take len (drop start bytes))

slice_get :
    (bytes : Bytes) (start len j : ℕ)
    → j < len
    → get_or (take len (drop start bytes)) j 0 ≡ get_or bytes (start + j) 0
slice_get bytes start len j h =
    get_or-take len j (drop start bytes) 0 h ∙ get_or-drop start j bytes 0

length-slice :
    (bytes : Bytes) (start len : ℕ)
    → start + len ≤ length bytes
    → length (take len (drop start bytes)) ≡ len
length-slice bytes start len h =
    omega (arith, length-take len (drop start bytes), length-drop start bytes)

module _ (bytes pattern : Bytes) (start len : ℕ) (fits : start + len ≤ length bytes) where
  Occurs-of_slice :
      (k : ℕ) → Occurs (take len (drop start bytes)) pattern k → Occurs bytes pattern (start + k)
  Occurs-of_slice k o =
      let f = rw (length-slice bytes start len fits) at o.fits in
      record {
        fits = omega arith;
        agrees = λ j lt.
            let e : start + (k + j) ≡ start + k + j = omega arith in
            rw (← e) (sym (slice_get bytes start len (k + j) (omega arith)) ∙ o.agrees j lt);
      }

  Occurs-slice :
      (k : ℕ)
      → k + length pattern ≤ len
      → Occurs bytes pattern (start + k)
      → Occurs (take len (drop start bytes)) pattern k
  Occurs-slice k h o = record {
    fits = rw (length-slice bytes start len fits) h;
    agrees = λ j lt.
        let e : start + (k + j) ≡ start + k + j = omega arith in
        slice_get bytes start len (k + j) (omega arith) ∙ rw e (o.agrees j lt);
  }

-- what the scan of one chunk says of the whole range
slice-IsFirstIn :
    (bytes pattern : Bytes) (lo hi start len : ℕ) (r : Option ℕ)
    → start + len ≤ length bytes
    → start + len ≤ hi
    → lo ≤ start
    → ((j : ℕ) → lo ≤ j → j < start → ¬ Occurs bytes pattern j)
    → IsFirst (take len (drop start bytes)) pattern r
    → r ≢ none
    → IsFirstIn bytes pattern lo hi (Option.map (λ k. start + k) r)
slice-IsFirstIn bytes pattern lo hi start len none fits in_range le before first ne =
    absurd (ne refl)
slice-IsFirstIn bytes pattern lo hi start len (some k) fits in_range le before (o, first) ne =
    let f = rw (length-slice bytes start len fits) at o.fits in
    (
      omega arith,
      omega arith,
      Occurs-of_slice bytes pattern start len fits k o,
      λ j ge lt o'. elim (Bool-cases (ltb j start)) [
        | inl earlier ↦ before j ge (ground arith) o'
        | inr later ↦
            let e : j ≡ start + (j - start) = ground arith in
            first (j - start) (ground arith) (
              Occurs-slice bytes pattern start len fits (j - start) (ground arith)
                (subst (λ i. Occurs bytes pattern i) e o'))
      ],
    )

-- nothing starts in a chunk that the scan found empty, up to where the next chunk begins
slice_none :
    (bytes pattern : Bytes) (lo start len : ℕ)
    → start + len ≤ length bytes
    → ((j : ℕ) → lo ≤ j → j < start → ¬ Occurs bytes pattern j)
    → IsFirst (take len (drop start bytes)) pattern none
    → (j : ℕ) → lo ≤ j
    → j + length pattern ≤ start + len
    → ¬ Occurs bytes pattern j
slice_none bytes pattern lo start len fits before first j ge le o =
    elim (Bool-cases (ltb j start)) [
      | inl earlier ↦ before j ge (ground arith) o
      | inr later ↦
          let e : j ≡ start + (j - start) = ground arith in
          first (j - start) (
            Occurs-slice bytes pattern start len fits (j - start) (ground arith)
              (subst (λ i. Occurs bytes pattern i) e o))
    ]

module _ (io : FileIo) (bytes pattern : Bytes) (reads : Reads io bytes) (pos : 0 < length pattern)
    (chunk lo hi : ℕ) (room : length pattern ≤ chunk) (word : chunk < 2 ^ 32)
    (inside : hi ≤ length bytes) where
  read_len-bounds :
      (start : ℕ)
      → start < hi
      → (0 < read_len chunk hi start)
        × (start + read_len chunk hi start ≤ hi)
        × (start + read_len chunk hi start < hi → read_len chunk hi start ≡ chunk)
  unfolding read_len
  read_len-bounds start lt = (omega arith, omega arith, λ h. omega arith)

  -- one round, with the answers of the reads put in
  chunks_step :
      (fuel start : ℕ)
      → start < hi
      → chunks io pattern chunk hi (suc fuel) start
        ≡ or_else
            (Option.map
              (λ k. start + k)
              (find (take (read_len chunk hi start) (drop start bytes)) pattern))
            (if ltb (start + read_len chunk hi start) hi
              then chunks io pattern chunk hi fuel (start + (chunk - (length pattern - 1)))
              else none)
  unfolding chunks
  chunks_step fuel start lt =
      let len = read_len chunk hi start in
      let next = start + (chunk - (length pattern - 1)) in
      let (some_read, in_range, full) = read_len-bounds start lt in
      let size = length-slice bytes start len (omega arith) in
      let ne : (len == 0) ≡ false = ground arith in
      rw (reads.completes start len, chunks)
        (rw (size, reads.issues next (read_len chunk hi next), ne) (ground arith))

  pub chunks-IsFirstIn :
      (fuel start : ℕ)
      → hi < start + fuel
      → lo ≤ start
      → start < hi
      → ((j : ℕ) → lo ≤ j → j < start → ¬ Occurs bytes pattern j)
      → IsFirstIn bytes pattern lo hi (chunks io pattern chunk hi fuel start)
  chunks-IsFirstIn zero start m le lt before = absurd (omega arith)
  chunks-IsFirstIn (suc fuel) start m le lt before =
      let len = read_len chunk hi start in
      let next = start + (chunk - (length pattern - 1)) in
      let (some_read, in_range, full) = read_len-bounds start lt in
      let found = find-IsFirst (take len (drop start bytes)) pattern pos in
      rw (chunks_step fuel start lt)
        (elim (Option-cases (find (take len (drop start bytes)) pattern)) [
          | inr (k, e) ↦ rw e (
              slice-IsFirstIn bytes pattern lo hi start len (some k) (omega arith) in_range le
                before (rw e at found) (λ h. cc))
          | inl e ↦
              let empty =
                slice_none bytes pattern lo start len (omega arith) before (rw e at found) in
              rw e (elim (Bool-cases (ltb (start + len) hi)) [
                | inl more ↦
                    let whole = full (ground arith) in
                    rw more (
                      chunks-IsFirstIn fuel next (omega arith) (omega arith) (ground arith)
                        (λ j ge before_next. empty j ge (omega arith)))
                | inr done ↦ rw done (λ j ge h. empty j ge (ground arith))
              ])
        ])
