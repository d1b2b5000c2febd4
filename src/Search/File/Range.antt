-- ===== src/Search/File/Range.antt =====
-- `FindInFileRange` as a whole: the early returns, and the first match of the range.
use better_steam_tools_ameth.Base.{
  ℕ, suc, ◌+◌, ◌-◌, ◌^◌, ◌<◌, ◌≡◌, arith, inl, inr, true, false, ◌||◌, none, leb, ◌==◌, Bool-cases,
  length, min, max,
}
use better_steam_tools_ameth.Base.Text.{Bytes}
use better_steam_tools_ameth.Search.File.Chunks.{IsFirstIn, Reads, chunks-IsFirstIn}
use better_steam_tools_ameth.Search.File.{FileIo, read_len, chunks, find_in_file_range}

-- the end of the range, clamped to the file
abbrev pub range_end : Bytes → ℕ → ℕ → ℕ
range_end bytes offset size = offset + min size (length bytes - offset)

module _ (io : FileIo) (bytes pattern : Bytes) (chunk_bytes : ℕ) (reads : Reads io bytes) where
  -- the early returns are taken when no pattern fits into the range
  early :
      (offset size : ℕ)
      → 0 < length pattern
      → (size == 0 || length bytes == 0 || leb (length bytes) offset) ≡ true
      → IsFirstIn bytes pattern offset (range_end bytes offset size) none
  early offset size pos h j ge le o = ground arith

  early_none :
      (offset size : ℕ)
      → (size == 0 || length bytes == 0 || leb (length bytes) offset) ≡ true
      → find_in_file_range io offset size pattern chunk_bytes ≡ none
  unfolding find_in_file_range
  early_none offset size h = let opens = reads.opens in let sized = reads.sized in ground arith

  late :
      (offset size : ℕ)
      → 0 < length pattern
      → (size == 0 || length bytes == 0 || leb (length bytes) offset) ≡ false
      → find_in_file_range io offset size pattern chunk_bytes
        ≡ chunks io pattern
            (max chunk_bytes (length pattern))
            (range_end bytes offset size)
            (suc (length bytes))
            offset
  unfolding find_in_file_range
  late offset size pos h =
      let chunk = max chunk_bytes (length pattern) in
      let started = reads.issues offset (read_len chunk (range_end bytes offset size) offset) in
      let opens = reads.opens in let waits = reads.waits in let sized = reads.sized in ground arith

  -- If the file can be read, `FindInFileRange` returns the first position at which the pattern lies
  -- inside the range, and nothing exactly when it lies there nowhere. The range is clamped to the
  -- file, and the sizes of the pattern and of a chunk fit the 32 bits that one read takes.
  pub find_in_file_range-IsFirstIn :
      (offset size : ℕ)
      → 0 < length pattern
      → length pattern < 2 ^ 32
      → chunk_bytes < 2 ^ 32
      → IsFirstIn bytes pattern offset
          (range_end bytes offset size)
          (find_in_file_range io offset size pattern chunk_bytes)
  find_in_file_range-IsFirstIn offset size pos word word' =
      elim (Bool-cases (size == 0 || length bytes == 0 || leb (length bytes) offset)) [
        | inl none_left ↦ rw (early_none offset size none_left) (early offset size pos none_left)
        | inr some_left ↦ rw (late offset size pos some_left) (
            chunks-IsFirstIn io bytes pattern reads pos (max chunk_bytes (length pattern)) offset
              (range_end bytes offset size) (omega arith) (omega arith) (ground arith)
              (suc (length bytes)) offset (omega arith) (omega arith) (ground arith)
              (λ j ge lt. absurd (omega arith)))
      ]
