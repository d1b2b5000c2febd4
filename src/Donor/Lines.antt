-- ===== src/Donor/Lines.antt =====
-- A line "app:depot:gid" with decimal fields.
use better_steam_tools_ameth.Base.{
  ℕ, ◌+◌, ◌-◌, ◌%◌, ◌^◌, ◌≡◌, ◌∙◌, refl, true, false, not, ◌&&◌, none, some, [], ◌∷◌, ◌++◌, ◌==◌,
  ltb, if◌then◌else◌, arith, length, drop, length-append, append_assoc, drop-length-append,
}
use better_steam_tools_ameth.Base.Text.{Bytes, find, find_from}
use better_steam_tools_ameth.Base.Find.{absent, find-byte, find_from-byte, substr, substr-middle}
use better_steam_tools_ameth.Numbers.{digit_value, is_digit, decimal}
use better_steam_tools_ameth.Numbers.Exact.{all_digits}
use better_steam_tools_ameth.Numbers.Decimal.{all_digits-decimal, parse_strict-decimal}
use better_steam_tools_ameth.Donor.{field, wanted_entry, parse_wanted_line}

absent_of_digits :
    (c : ℕ) (s : Bytes) → is_digit 10 c ≡ false → all_digits 10 s ≡ true → absent c s ≡ true
unfolding absent all_digits
absent_of_digits c [] n h = refl
absent_of_digits c (x ∷ xs) n h = ground (arith, absent_of_digits c xs)

-- the line that a server writes for an entry
unfoldable pub wanted_line : ℕ → ℕ → ℕ → Bytes
wanted_line app depot gid = decimal app ++ (b':' ∷ (decimal depot ++ (b':' ∷ decimal gid)))

-- what follows the second colon
drop_second :
    (a d g : Bytes) → drop (length a + 1 + length d + 1) (a ++ (b':' ∷ (d ++ (b':' ∷ g)))) ≡ g
drop_second a d g =
    let colon : Bytes = b':' ∷ [] in
    let pre = a ++ (colon ++ (d ++ colon)) in
    let whole : pre ++ g ≡ a ++ (b':' ∷ (d ++ (b':' ∷ g))) = simp append_assoc in
    let size : length pre ≡ length a + 1 + length d + 1 =
      omega (arith, length-append a (colon ++ (d ++ colon)), length-append d colon) in
    rw (whole, size) at (drop-length-append pre g)

-- a line with two colons is cut at them
parse_wanted_line-cut :
    (a d g : Bytes)
    → absent b':' a ≡ true
    → absent b':' d ≡ true
    → parse_wanted_line (a ++ (b':' ∷ (d ++ (b':' ∷ g)))) ≡ wanted_entry a d g
unfolding parse_wanted_line
parse_wanted_line-cut a d g ha hd =
    let colon : Bytes = b':' ∷ [] in
    let pre = a ++ colon in
    let line = a ++ (b':' ∷ (d ++ (b':' ∷ g))) in
    let whole : pre ++ (d ++ (b':' ∷ g)) ≡ line = append_assoc a colon (d ++ (b':' ∷ g)) in
    let size : length pre ≡ length a + 1 = length-append a colon in
    let first : find colon line ≡ some (length a) = find-byte b':' a (d ++ (b':' ∷ g)) ha in
    let second : find_from colon line (length a + 1) ≡ some (length a + 1 + length d) =
      rw (whole, size) at (find_from-byte b':' pre d g hd) in
    let app : substr line 0 (length a) ≡ a = substr-middle [] a (b':' ∷ (d ++ (b':' ∷ g))) in
    let depot : substr line (length a + 1) (length d) ≡ d =
      rw (whole, size) at (substr-middle pre d (b':' ∷ g)) in
    let gid : drop (length a + 1 + length d + 1) line ≡ g = drop_second a d g in
    let e : length a + 1 + length d - length a - 1 ≡ length d = omega arith in
    rw (first, parse_wanted_line) (rw (second, parse_wanted_line) (rw (app, e, depot, gid) refl))

-- The line of three numbers of 64 bits is read back if neither the depot nor the manifest id is
-- zero, with the app and the depot cut to 32 bits; any other line of three numbers is refused.
pub parse_wanted_line-wanted_line :
    (app depot gid : ℕ)
    → parse_wanted_line (wanted_line app depot gid) ≡ (
        if ltb app (2 ^ 64)
          && ltb depot (2 ^ 64)
          && ltb gid (2 ^ 64)
          && not (depot == 0)
          && not (gid == 0)
        then some (record { app_id = app % 2 ^ 32; depot_id = depot % 2 ^ 32; gid = gid })
        else none)
unfolding wanted_line is_digit digit_value
parse_wanted_line-wanted_line app depot gid =
    parse_wanted_line-cut (decimal app) (decimal depot) (decimal gid)
      (absent_of_digits b':' (decimal app) refl (all_digits-decimal app))
      (absent_of_digits b':' (decimal depot) refl (all_digits-decimal depot))
    ∙ unfold wanted_entry field in
      ground (
        arith,
        parse_strict-decimal (2 ^ 64) app,
        parse_strict-decimal (2 ^ 64) depot,
        parse_strict-decimal (2 ^ 64) gid,
      )
