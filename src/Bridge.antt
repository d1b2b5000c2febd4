-- ===== src/Bridge.antt =====
-- Utils/Tokeer/TokeerParsing.h and .cpp: the hexadecimal and flat JSON texts of the code server, and
-- the argument of an address that refreshes achievements.
pub mod Hex
pub mod Json
pub mod Arg
use mathlib.Core.Option
use better_steam_tools_ameth.Base.{
  suc, ℕ, ◌+◌, ◌-◌, ◌*◌, ◌%◌, ◌^◌, Bool, true, false, not, ◌&&◌, ◌||◌, Option, none, some, [], ◌∷◌,
  ◌++◌, ◌==◌, ltb, leb, if◌then◌else◌, length, drop,
}
use better_steam_tools_ameth.Base.Text.{Bytes, codes, find, find_from, bytes_eq}
use better_steam_tools_ameth.Base.Find.{substr}
use better_steam_tools_ameth.Numbers.{parse_strict}

-- `HexNibble`; none is -1
unfoldable pub hex_nibble : ℕ → Option ℕ
hex_nibble c =
    if leb b'0' c && leb c b'9'
    then some (c - b'0')
    else if leb b'a' c && leb c b'f'
    then some (c - b'a' + 10)
    else if leb b'A' c && leb c b'F'
    then some (c - b'A' + 10)
    else none

abbrev pub push_pair : Option ℕ → Option ℕ → Option Bytes → Option Bytes
push_pair (some hi) (some lo) (some out) = some ((hi * 16 + lo) ∷ out)
push_pair _ _ _ = none

-- the loop of `HexToBytes`, which reads two digits a round; an odd rest cannot occur
unfoldable pub hex_pairs : Bytes → Option Bytes
hex_pairs [] = some []
hex_pairs (a ∷ []) = none
hex_pairs (a ∷ b ∷ hex) = push_pair (hex_nibble a) (hex_nibble b) (hex_pairs hex)

abbrev pub is_blank_text : Bytes → Bool
is_blank_text [] = true
is_blank_text (c ∷ cs) = false

unfoldable pub hex_to_bytes : Bytes → Option Bytes
unfolding hex_pairs hex_nibble
hex_to_bytes hex = if is_blank_text hex || not (length hex % 2 == 0) then none else hex_pairs hex

-- `find_first_of`, from the start
unfoldable pub find_first_of : (ℕ → Bool) → Bytes → Option ℕ
find_first_of inside [] = none
find_first_of inside (c ∷ cs) =
    if inside c then some 0 else Option.map suc (find_first_of inside cs)

-- with a start position
unfoldable pub find_first_of_from : (ℕ → Bool) → Bytes → ℕ → Option ℕ
find_first_of_from inside text pos =
    if leb pos (length text)
    then Option.map (λ k. pos + k) (find_first_of inside (drop pos text))
    else none

abbrev pub is_delimiter : ℕ → Bool
is_delimiter c = c == b',' || c == b'}'

abbrev pub is_past : Option ℕ → ℕ → Bool
is_past none q = false
is_past (some delim) q = ltb delim q

unfoldable pub quoted : Bytes → Bytes
quoted key = b'"' ∷ (key ++ (b'"' ∷ []))

-- `JsonString`; where it fails, `out` stays as it was
unfoldable pub json_string : Bytes → Bytes → Option Bytes
json_string body key = elim (find (quoted key) body) [
  | none ↦ none
  | some k ↦ elim (find_from (b':' ∷ []) body (k + length (quoted key))) [
    | none ↦ none
    | some colon ↦ elim (find_from (b'"' ∷ []) body (colon + 1)) [
      | none ↦ none
      | some q1 ↦
          if is_past (find_first_of_from is_delimiter body (colon + 1)) q1
          then none
          else elim (find_from (b'"' ∷ []) body (q1 + 1)) [
            | none ↦ none
            | some q2 ↦ some (substr body (q1 + 1) (q2 - q1 - 1))
          ]
    ]
  ]
]

-- a byte that " \t" does not hold
abbrev pub is_other : ℕ → Bool
is_other c = not (c == b' ' || c == b'\t')

-- the comparison of two positions, `npos` included
abbrev pub same_position : Option ℕ → Option ℕ → Bool
same_position none none = true
same_position none (some b) = false
same_position (some a) none = false
same_position (some a) (some b) = a == b

unfoldable pub json_true : Bytes → Bytes → Bool
json_true body key = elim (find (quoted key) body) [
  | none ↦ false
  | some k ↦ elim (find_from (b':' ∷ []) body (k + length (quoted key))) [
    | none ↦ false
    | some colon ↦
        same_position (find_from (codes "true") body (colon + 1))
          (find_first_of_from is_other body (colon + 1))
  ]
]

pub data RefreshTarget : Type 0 where
  all_apps : RefreshTarget
  one_app : ℕ → RefreshTarget

-- `ParseRefreshAchievementsArg`
unfoldable pub parse_refresh_achievements_arg : Bytes → Option RefreshTarget
parse_refresh_achievements_arg arg =
    if is_blank_text arg || bytes_eq arg (codes "all")
    then some all_apps
    else elim (parse_strict 10 (2 ^ 32) arg) [
      | none ↦ none
      | some app_id ↦ if app_id == 0 then none else some (one_app app_id)
    ]
