-- ===== src/Base/Find.antt =====
-- Searching for one byte, and cutting a text where it was found.
use Prim.Native.Nat.{ℕ, ◌+◌}
use mathlib.Core.Path.{◌≡◌, refl}
use mathlib.Core.Bool.{Bool, true, not, ◌&&◌}
use mathlib.Core.List.{[], ◌∷◌, ◌++◌}
use mathlib.Core.Option
use mathlib.Core.Option.{none, some}
use native.Mathlib.Omega.{arith}
use better_steam_tools_ameth.Base.Tests.{◌==◌}
use better_steam_tools_ameth.Base.Lists.{
  length, take, drop, length-append, drop-length-append, take-length-append,
}
use better_steam_tools_ameth.Base.Text.{Bytes, starts_with, find, find_from}

unfoldable pub absent : ℕ → Bytes → Bool
absent c [] = true
absent c (x ∷ xs) = not (c == x) && absent c xs

absent-append : (c : ℕ) (xs ys : Bytes) → absent c (xs ++ ys) ≡ (absent c xs && absent c ys)
unfolding absent
absent-append c [] ys = refl
absent-append c (x ∷ xs) ys = ground (arith, absent-append c xs ys)

pub find-byte :
    (c : ℕ) (xs ys : Bytes) → absent c xs ≡ true → find (c ∷ []) (xs ++ (c ∷ ys)) ≡ some (length xs)
unfolding absent find starts_with
find-byte c [] ys h = ground arith
find-byte c (x ∷ xs) ys h = ground (arith, find-byte c xs ys)

find-byte_none : (c : ℕ) (xs : Bytes) → absent c xs ≡ true → find (c ∷ []) xs ≡ none
unfolding absent find starts_with
find-byte_none c [] h = refl
find-byte_none c (x ∷ xs) h = ground (arith, find-byte_none c xs)

pub find_from-byte :
    (c : ℕ) (pre xs ys : Bytes)
    → absent c xs ≡ true
    → find_from (c ∷ []) (pre ++ (xs ++ (c ∷ ys))) (length pre) ≡ some (length pre + length xs)
unfolding find_from
find_from-byte c pre xs ys h =
    rw (drop-length-append pre (xs ++ (c ∷ ys)), find-byte c xs ys h)
      (ground (arith, length-append pre (xs ++ (c ∷ ys))))

-- `substr(pos, count)`
unfoldable pub substr : Bytes → ℕ → ℕ → Bytes
substr text pos count = take count (drop pos text)

pub substr-middle : (pre xs ys : Bytes) → substr (pre ++ (xs ++ ys)) (length pre) (length xs) ≡ xs
unfolding substr
substr-middle pre xs ys = rw (drop-length-append pre (xs ++ ys), take-length-append xs ys)

pub find_from-append :
    (needle done rest : Bytes)
    → find_from needle (done ++ rest) (length done)
      ≡ Option.map (λ k. length done + k) (find needle rest)
unfolding find_from
find_from-append needle done rest =
    rw (drop-length-append done rest) (ground (arith, length-append done rest))
