-- ===== src/Tests/Search.antt =====
-- The byte search at concrete inputs.
use better_steam_tools_ameth.Base.{◌≡◌, refl, true, none, some, arith, take, drop, length}
use better_steam_tools_ameth.Base.Text.{Bytes, codes}
use better_steam_tools_ameth.Search.{
  skip_table, store, full_skip, fill_skip, match_back, scan, find,
}
use better_steam_tools_ameth.Search.Occurrence.{IsFirst, find-IsFirst}
use better_steam_tools_ameth.Search.File.{FileIo, read_len, chunks, find_in_file_range}
use better_steam_tools_ameth.Search.File.Chunks.{IsFirstIn, Reads}
use better_steam_tools_ameth.Search.File.Range.{range_end, find_in_file_range-IsFirstIn}

program : Unit {0}
unfolding skip_table store full_skip fill_skip match_back scan find read_len chunks
    find_in_file_range
program = tt

abbrev hay : Bytes
hay = codes "abracadabra, abracadabra"

abbrev needle : Bytes
needle = codes "dabra"

abbrev disk : FileIo
disk = record {
  opened = true;
  file_size = some (length hay);
  events = true;
  issue = λ start len. true;
  complete = λ start len. some (take len (drop start hay));
}

disk-Reads : Reads disk hay
disk-Reads = record {
  opens = refl;
  sized = refl;
  waits = refl;
  issues = λ start len. refl;
  completes = λ start len. refl;
}

found_first : find hay needle ≡ some 6
unfolding program
found_first = refl

-- the second occurrence, over chunks of eight bytes
found_later : find_in_file_range disk 7 100 needle 8 ≡ some 19
unfolding program
found_later = refl

-- the range ends inside the occurrence
cut_short : find_in_file_range disk 7 16 needle 8 ≡ none
unfolding program
cut_short = refl

find-IsFirst_example : IsFirst hay needle (find hay needle)
find-IsFirst_example = find-IsFirst hay needle (omega arith)

find_in_file_range_example :
    IsFirstIn hay needle 7 (range_end hay 7 100) (find_in_file_range disk 7 100 needle 8)
find_in_file_range_example =
    find_in_file_range-IsFirstIn disk hay needle 8 disk-Reads 7 100 (omega arith) (omega arith)
      (omega arith)
