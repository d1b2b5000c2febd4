-- ===== src/Tests/Numbers.antt =====
-- Numbers, and the lines of the list of wanted manifests, at concrete inputs.
use better_steam_tools_ameth.Base.{
  ◌≡◌, refl, none, some, ◌^◌, ◌%◌, ◌&&◌, not, ◌==◌, ltb, if◌then◌else◌,
}
use better_steam_tools_ameth.Base.Text.{codes, find_from}
use better_steam_tools_ameth.Base.Find.{substr}
use better_steam_tools_ameth.Numbers.{
  parse_strict, parse_slice, parse_uint32, parse_hex_uint8, parse_hex_uint64, decimal,
}
use better_steam_tools_ameth.Numbers.Exact.{value, is_number, parse_strict-is_number}
use better_steam_tools_ameth.Donor.{field, wanted_entry, parse_wanted_line}
use better_steam_tools_ameth.Donor.Lines.{wanted_line, parse_wanted_line-wanted_line}

program : Unit {0}
unfolding parse_uint32 parse_slice parse_hex_uint8 parse_hex_uint64 decimal field wanted_entry
    parse_wanted_line wanted_line find_from substr
program = tt

largest : parse_uint32 (codes "4294967295") ≡ some 4294967295
unfolding program
largest = refl

too_large : parse_uint32 (codes "4294967296") ≡ none
unfolding program
too_large = refl

junk : parse_uint32 (codes "12abc") ≡ none
unfolding program
junk = refl

hex_prefix : parse_hex_uint8 (codes "0xfF") ≡ some 255
unfolding program
hex_prefix = refl

hex_prefix_alone : parse_hex_uint8 (codes "0x") ≡ none
unfolding program
hex_prefix_alone = refl

wanted :
    parse_wanted_line (codes "0:731:55") ≡ some (record { app_id = 0; depot_id = 731; gid = 55 })
unfolding program
wanted = refl

-- a depot that is a multiple of 2^32 passes the test for zero and is then cut to depot 0
wanted_depot_zero :
    parse_wanted_line (codes "10:4294967296:55")
    ≡ some (record { app_id = 10; depot_id = 0; gid = 55 })
unfolding program
wanted_depot_zero = refl

parse_strict-is_number_example :
    parse_strict 16 256 (codes "fF")
    ≡ (if is_number 16 256 (codes "fF") then some (value 16 0 (codes "fF")) else none)
parse_strict-is_number_example = parse_strict-is_number 16 256 (codes "fF")

parse_wanted_line_example : parse_wanted_line (wanted_line 480 481 77) ≡ (
    if ltb 480 (2 ^ 64) && ltb 481 (2 ^ 64) && ltb 77 (2 ^ 64) && not (481 == 0) && not (77 == 0)
    then some (record { app_id = 480 % 2 ^ 32; depot_id = 481 % 2 ^ 32; gid = 77 })
    else none)
parse_wanted_line_example = parse_wanted_line-wanted_line 480 481 77
