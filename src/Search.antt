-- ===== src/Search.antt =====
-- OSTPlatform/Windows/ByteSearch.cpp: the Boyer-Moore-Horspool scanner.
pub mod Skip
pub mod Occurrence
pub mod File
use better_steam_tools_ameth.Base.{
  ℕ, zero, suc, ◌+◌, ◌-◌, ◌&&◌, ◌||◌, Option, none, some, [], ◌∷◌, ◌==◌, ltb, leb, if◌then◌else◌,
  length, get_or,
}
use better_steam_tools_ameth.Base.Text.{Bytes}

-- an array that is indexed by a byte
abbrev pub Table : Type 0
Table = ℕ → ℕ

unfoldable pub store : Table → ℕ → ℕ → Table
store t c v d = if c == d then v else t d

-- the loop of the constructor: the pattern's bytes from position `i` on
unfoldable pub fill_skip : ℕ → ℕ → Bytes → Table → Table
unfolding store
fill_skip size i [] t = t
fill_skip size i (c ∷ cs) t =
    if ltb (i + 1) size then fill_skip size (i + 1) cs (store t c (size - 1 - i)) else t

-- `skip_.fill(patternSize == 0 ? 1 : patternSize)`
unfoldable pub full_skip : ℕ → Table
full_skip size d = if size == 0 then 1 else size

unfoldable pub skip_table : Bytes → Table
unfolding full_skip fill_skip
skip_table pattern =
    if leb (length pattern) 1
    then full_skip (length pattern)
    else fill_skip (length pattern) 0 pattern (full_skip (length pattern))

-- the inner `while`: what is left of `i` when the bytes differ, or 0
unfoldable pub match_back : Bytes → Bytes → ℕ → ℕ → ℕ
match_back bytes pattern offset zero = 0
match_back bytes pattern offset (suc i) =
    let rest = match_back bytes pattern offset i in
    if get_or bytes (offset + i) 0 == get_or pattern i 0 then rest else suc i

-- the outer `while`
unfoldable pub scan : ℕ → Table → Bytes → Bytes → ℕ → Option ℕ
unfolding match_back
scan zero skip bytes pattern offset = none
scan (suc fuel) skip bytes pattern offset =
    let size = length pattern in
    let tail = get_or bytes (offset + size - 1) 0 in
    let rest = scan fuel skip bytes pattern (offset + skip tail) in
    if leb offset (length bytes - size)
    then (if tail == get_or pattern (size - 1) 0 && match_back bytes pattern offset (size - 1) == 0
        then some offset
        else rest)
    else none

-- `FixedPatternScanner(pattern).Find(bytes)`
unfoldable pub find : Bytes → Bytes → Option ℕ
unfolding skip_table scan
find bytes pattern =
    let size = length pattern in
    if size == 0 || ltb (length bytes) size
    then none
    else scan (suc (length bytes)) (skip_table pattern) bytes pattern 0
