-- ===== src/Tests/Bridge.antt =====
-- The texts of the code server at concrete inputs.
use better_steam_tools_ameth.Base.{◌+◌, ◌≡◌, refl, true, some, none, [], ◌∷◌, ◌++◌, length}
use better_steam_tools_ameth.Base.Text.{Bytes, bytes_eq, codes, starts_with, find, find_from}
use better_steam_tools_ameth.Base.Find.{absent}
use better_steam_tools_ameth.Numbers.{parse_strict, from_chars, read_digits, is_digit, digit_value}
use better_steam_tools_ameth.Bridge.{
  json_string, json_true, quoted, find_first_of, find_first_of_from, is_delimiter,
  parse_refresh_achievements_arg, one_app,
}
use better_steam_tools_ameth.Bridge.Json.{json_string-value}

abbrev reply : Bytes
reply = b'{' ∷ b'"' ∷ b'k' ∷ b'"' ∷ b':' ∷ b' ' ∷ b'"' ∷ b'a' ∷ b',' ∷ b'b' ∷ b'"' ∷ b'}' ∷ []

reply_key : find (quoted (codes "k")) reply ≡ some 1
unfolding find quoted starts_with
reply_key = refl

reply_shape :
    reply
    ≡ (b'{' ∷ [])
      ++ (quoted (codes "k")
          ++ ([] ++ (b':' ∷ (codes " " ++ (b'"' ∷ (codes "a,b" ++ (b'"' ∷ codes "}")))))))
unfolding quoted
reply_shape = refl

absent_gap : absent b':' [] ≡ true
unfolding absent
absent_gap = refl

absent_space : absent b'"' (codes " ") ≡ true
unfolding absent
absent_space = refl

no_delimiter : find_first_of is_delimiter (codes " ") ≡ none
unfolding find_first_of
no_delimiter = refl

absent_val : absent b'"' (codes "a,b") ≡ true
unfolding absent
absent_val = refl

json_string-value_example : json_string reply (codes "k") ≡ some (codes "a,b")
json_string-value_example =
    json_string-value reply (codes "k") (b'{' ∷ []) [] (codes " ") (codes "a,b") (codes "}")
      reply_key reply_shape absent_gap absent_space no_delimiter absent_val

-- a reply that breaks off behind the colon
abbrev broken : Bytes
broken = b'{' ∷ b'"' ∷ b'k' ∷ b'"' ∷ b':' ∷ b' ' ∷ []

broken_key : find (quoted (codes "k")) broken ≡ some 1
unfolding find quoted starts_with
broken_key = refl

broken_colon : find_from (b':' ∷ []) broken (1 + length (quoted (codes "k"))) ≡ some 4
unfolding find_from quoted find starts_with
broken_colon = refl

broken_is_true : json_true broken (codes "k") ≡ true
unfolding json_true quoted find find_from find_first_of_from find_first_of starts_with
broken_is_true = refl

argument : parse_refresh_achievements_arg (codes "480") ≡ some (one_app 480)
unfolding parse_refresh_achievements_arg parse_strict from_chars read_digits is_digit digit_value
    bytes_eq
argument = refl
