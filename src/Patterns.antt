-- ===== src/Patterns.antt =====
-- Utils/SteamMetadata/PatternLoader.cpp: signatures, the scan of a module, the lookup of a function
-- and the revalidation of the cached file; Utils/Support/FnvHash.h. An address is an offset from
-- the start of the module.
pub mod Signature
pub mod Scan
pub mod Job
use Prim.Native.Nat.{bit_xor}
use better_steam_tools_ameth.Base.{
  ℕ, zero, suc, ◌+◌, ◌-◌, ◌*◌, ◌%◌, ◌^◌, Bool, true, false, not, ◌&&◌, ◌||◌, Option, none, some,
  List, [], ◌∷◌, ◌++◌, ◌==◌, ltb, leb, if◌then◌else◌, length, drop,
}
use better_steam_tools_ameth.Base.Text.{Bytes}
use better_steam_tools_ameth.Base.Assoc.{lookup}
use better_steam_tools_ameth.Refresh.{PatternEntry, EntryMap, is_rva_within_image, is_nil}

-- `static_cast<uint32_t>` of a char, which is signed
unfoldable pub char_bits : ℕ → ℕ
char_bits c = if ltb c 128 then c else c + 0xFFFFFF00

-- `Fnv1aHash` of a name with no zero byte, from a running hash
unfoldable pub fnv_from : ℕ → Bytes → ℕ
fnv_from hash [] = hash
fnv_from hash (c ∷ cs) = fnv_from (bit_xor hash (char_bits c) * 0x01000193 % 2 ^ 32) cs

unfoldable pub fnv1a_hash : Bytes → ℕ
fnv1a_hash = fnv_from 0x811c9dc5

-- the lambda `nib`; none is -1
unfoldable pub nib : ℕ → Option ℕ
nib c =
    if leb b'0' c && leb c b'9'
    then some (c - b'0')
    else if leb b'a' c && leb c b'f'
    then some (c - b'a' + 10)
    else if leb b'A' c && leb c b'F'
    then some (c - b'A' + 10)
    else none

-- one place of a signature: none is a wildcard, whose mask is 0
abbrev pub Sig : Type 0
Sig = List (Option ℕ)

abbrev pub is_separator : ℕ → Bool
is_separator c = c == b' ' || c == b'\t' || c == b','

abbrev pub push : Option ℕ → Option Sig → Option Sig
push place none = none
push place (some sig) = some (place ∷ sig)

-- a byte of two digits in front of what follows
abbrev pub push_byte : Option ℕ → Option ℕ → Option Sig → Option Sig
push_byte (some h) (some l) rest = push (some (h * 16 + l)) rest
push_byte _ _ rest = none

-- the loop of `ParseSig`, which stops at a zero byte, and in which an empty signature is still
-- accepted
unfoldable pub parse_places : Bytes → Option Sig
unfolding nib
parse_places [] = some []
parse_places (a ∷ []) = if a == 0 || is_separator a then some [] else none
parse_places (a ∷ b ∷ cs) =
    let skipped = parse_places (b ∷ cs) in
    let rest = parse_places cs in
    if a == 0
    then some []
    else if is_separator a
    then skipped
    else if a == b'?' && b == b'?'
    then push none rest
    else push_byte (nib a) (nib b) rest

unfoldable pub parse_sig : Bytes → Option Sig
parse_sig text = elim (parse_places text) [
  | none ↦ none
  | some sig ↦ if is_nil sig then none else some sig
]

-- the inner loop of `ScanModule`, on the bytes from one place on
unfoldable pub sig_matches : Sig → Bytes → Bool
sig_matches [] bytes = true
sig_matches (place ∷ sig) [] = false
sig_matches (none ∷ sig) (b ∷ bytes) = sig_matches sig bytes
sig_matches (some c ∷ sig) (b ∷ bytes) = if b == c then sig_matches sig bytes else false

-- the outer loop: `rounds` is how many places are left
unfoldable pub scan_from : ℕ → Sig → Bytes → ℕ → Option ℕ
unfolding sig_matches
scan_from zero sig image i = none
scan_from (suc rounds) sig image i =
    let rest = scan_from rounds sig image (i + 1) in
    if sig_matches sig (drop i image) then some i else rest

unfoldable pub scan_module : Sig → Bytes → Option ℕ
unfolding scan_from
scan_module sig image =
    if ltb (length image) (length sig)
    then none
    else scan_from (suc (length image - length sig)) sig image 0

-- `LookupInMap`, on the entry that was found; `image` is none if the module cannot be read
unfoldable pub lookup_entry : Option Bytes → PatternEntry → Bool → Option ℕ
unfolding parse_sig scan_module
lookup_entry image entry require_in_image =
    if not (entry.rva == 0)
    then (if require_in_image
        then elim image [
          | none ↦ none
          | some bytes ↦
              if is_rva_within_image entry.rva (length bytes) then some entry.rva else none
        ]
        else some entry.rva)
    else if is_nil entry.sig
    then none
    else elim (parse_sig entry.sig) [
      | none ↦ none
      | some sig ↦ elim image [ none ↦ none | some bytes ↦ scan_module sig bytes ]
    ]

unfoldable pub lookup_in_map : Option Bytes → EntryMap → Bytes → Bool → Option ℕ
lookup_in_map image map name require_in_image = elim (lookup (fnv1a_hash name) map) [
  | none ↦ none
  | some entry ↦ lookup_entry image entry require_in_image
]
