-- ===== src/Base/Text.antt =====
-- Byte strings, and the operations of `std::string` that the program uses.
use Prim.Native.Char.{code}
use Prim.Native.String.{String}
use Prim.Native.Nat.{ℕ, zero, suc, ◌+◌, ◌≤◌, ◌<◌}
use mathlib.Core.Path.{◌≡◌, refl}
use mathlib.Core.Bool.{Bool, true, false, ◌&&◌}
use mathlib.Core.List.{List, [], ◌∷◌, ◌++◌}
use mathlib.Core.Option.{Option, none, some}
use mathlib.Core.Option
use native.Mathlib.Omega.{arith}
use better_steam_tools_ameth.Base.Tests.{◌==◌, leb, if◌then◌else◌}
use better_steam_tools_ameth.Base.Lists.{length, drop}

abbrev pub Bytes : Type 0
Bytes = List ℕ

-- the bytes of an ASCII literal
abbrev pub codes : String → Bytes
codes String.[] = []
codes (String.◌∷◌ c s) = code c ∷ codes s

-- `operator==` on strings
unfoldable pub bytes_eq : Bytes → Bytes → Bool
bytes_eq [] [] = true
bytes_eq [] (d ∷ t) = false
bytes_eq (c ∷ s) [] = false
bytes_eq (c ∷ s) (d ∷ t) = if c == d then bytes_eq s t else false

pub bytes_eq→eq : (s t : Bytes) → bytes_eq s t ≡ true → s ≡ t
unfolding bytes_eq
bytes_eq→eq [] [] h = refl
bytes_eq→eq [] (d ∷ t) h = cc
bytes_eq→eq (c ∷ s) [] h = cc
bytes_eq→eq (c ∷ s) (d ∷ t) h = ground (arith, bytes_eq→eq s t)

pub bytes_eq_self : (s : Bytes) → bytes_eq s s ≡ true
unfolding bytes_eq
bytes_eq_self [] = refl
bytes_eq_self (c ∷ s) = ground (arith, bytes_eq_self s)

unfoldable pub starts_with : Bytes → Bytes → Bool
starts_with [] text = true
starts_with (p ∷ ps) [] = false
starts_with (p ∷ ps) (c ∷ cs) = p == c && starts_with ps cs

pub starts_with-append : (p text : Bytes) → starts_with p (p ++ text) ≡ true
unfolding starts_with
starts_with-append [] text = refl
starts_with-append (p ∷ ps) text = ground (arith, starts_with-append ps text)

starts_with-split : (p text : Bytes) → starts_with p text ≡ true → text ≡ p ++ drop (length p) text
unfolding starts_with
starts_with-split [] text h = refl
starts_with-split (p ∷ ps) [] h = ground arith
starts_with-split (p ∷ ps) (c ∷ cs) h = ground (arith, starts_with-split ps cs)

-- `find`: the first position from which the needle can be read
unfoldable pub find : Bytes → Bytes → Option ℕ
unfolding starts_with
find needle [] = if starts_with needle [] then some 0 else none
find needle (c ∷ cs) =
    if starts_with needle (c ∷ cs) then some 0 else Option.map suc (find needle cs)

-- `find` with a start position; none is `npos`
unfoldable pub find_from : Bytes → Bytes → ℕ → Option ℕ
unfolding find
find_from needle text pos =
    if leb pos (length text) then Option.map (λ k. pos + k) (find needle (drop pos text)) else none

find-starts_with :
    (needle text : Bytes) (k : ℕ)
    → find needle text ≡ some k
    → starts_with needle (drop k text) ≡ true
unfolding find
find-starts_with needle [] zero h = ground arith
find-starts_with needle [] (suc k) h = ground arith
find-starts_with needle (c ∷ cs) zero h = ground arith
find-starts_with needle (c ∷ cs) (suc k) h = ground (arith, find-starts_with needle cs k)

find_first :
    (needle text : Bytes) (k j : ℕ)
    → find needle text ≡ some k
    → j < k
    → starts_with needle (drop j text) ≡ false
unfolding find
find_first needle [] k j h lt = ground arith
find_first needle (c ∷ cs) zero j h lt = elim lt [ ]
find_first needle (c ∷ cs) (suc k) zero h lt = ground arith
find_first needle (c ∷ cs) (suc k) (suc j) h lt = ground (arith, find_first needle cs k j)

find-none :
    (needle text : Bytes) (j : ℕ)
    → find needle text ≡ none
    → j ≤ length text
    → starts_with needle (drop j text) ≡ false
unfolding find
find-none needle [] zero h le = ground arith
find-none needle [] (suc j) h le = ground arith
find-none needle (c ∷ cs) zero h le = ground arith
find-none needle (c ∷ cs) (suc j) h le = ground (arith, find-none needle cs j)

pub length-starts_with : (p text : Bytes) → starts_with p text ≡ true → length p ≤ length text
unfolding starts_with
length-starts_with [] text h = omega arith
length-starts_with (p ∷ ps) [] h = ground arith
length-starts_with (p ∷ ps) (c ∷ cs) h = ground (arith, length-starts_with ps cs)

pub find-le :
    (needle text : Bytes) (k : ℕ) → find needle text ≡ some k → k + length needle ≤ length text
unfolding find
find-le [] [] k h = ground arith
find-le (n ∷ ns) [] k h = unfold starts_with in ground arith
find-le needle (c ∷ cs) zero h = ground (arith, length-starts_with needle (c ∷ cs))
find-le needle (c ∷ cs) (suc k) h = ground (arith, find-le needle cs k)
