-- ===== src/Search/File.antt =====
-- OSTPlatform/Windows/ByteSearch.cpp, `FindInFileRange` and `FindInFile`. The operating system is a
-- parameter: what opening the file, its size, starting a read and finishing a read answer.
pub mod Chunks
pub mod Range
use better_steam_tools_ameth.Base.{
  ℕ, zero, suc, ◌+◌, ◌-◌, ◌%◌, ◌^◌, Bool, true, false, not, ◌&&◌, ◌||◌, Option, none, some, [], ◌∷◌,
  ◌==◌, ltb, leb, if◌then◌else◌, length, min, max,
}
use better_steam_tools_ameth.Base.Text.{Bytes}
use better_steam_tools_ameth.Search.{find}

pub record FileIo : Type 0 where
  -- `CreateFileW` gave a handle
  pub opened : Bool
  -- `GetFileSizeEx`; none is its failure
  pub file_size : Option ℕ
  -- both events were created
  pub events : Bool
  -- `ReadFile` at an offset, for a length: it started
  pub issue : ℕ → ℕ → Bool
  -- `GetOverlappedResult`: the bytes of that read, none at the end of the file, or an error
  pub complete : ℕ → ℕ → Option Bytes

-- the length of the read at `start`, as the DWORD that `ReadFile` takes
unfoldable pub read_len : ℕ → ℕ → ℕ → ℕ
read_len chunk range_end start = min chunk (range_end - start) % 2 ^ 32

-- the loop; the read at `start` is in flight
unfoldable pub chunks : FileIo → Bytes → ℕ → ℕ → ℕ → ℕ → Option ℕ
chunks io pattern chunk range_end zero start = none
chunks io pattern chunk range_end (suc fuel) start =
    let next = start + (chunk - (length pattern - 1)) in
    let rest = chunks io pattern chunk range_end fuel next in
    elim (io.complete start (read_len chunk range_end start)) [
      | none ↦ none
      | some got ↦
          let more = ltb (start + length got) range_end in
          if length got == 0
          then none
          else if more && not (io.issue next (read_len chunk range_end next))
          then none
          else elim (find got pattern) [
            | some found ↦ some (start + found)
            | none ↦ if more then rest else none
          ]
    ]

unfoldable pub find_in_file_range : FileIo → ℕ → ℕ → Bytes → ℕ → Option ℕ
find_in_file_range io offset size pattern chunk_bytes =
    if length pattern == 0 || size == 0
    then none
    else if not io.opened
    then none
    else elim io.file_size [
      | none ↦ none
      | some file_size ↦
          if file_size == 0 || leb file_size offset
          then none
          else let range_end = offset + min size (file_size - offset) in
            let chunk = max chunk_bytes (length pattern) in
            if not io.events || not (io.issue offset (read_len chunk range_end offset))
            then none
            else chunks io pattern chunk range_end (suc file_size) offset
    ]

unfoldable pub find_in_file : FileIo → Bytes → ℕ → Option ℕ
find_in_file io pattern chunk_bytes = find_in_file_range io 0 (2 ^ 64 - 1) pattern chunk_bytes
