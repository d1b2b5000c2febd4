-- ===== src/LuaConfig/Script/Recorded.antt =====
-- What a script can record is in range.
use better_steam_tools_ameth.Base.{
  ℕ, ◌^◌, ◌<◌, ◌≡◌, refl, true, not, ◌||◌, Option, none, some, List, [], ◌∷◌, ◌==◌, if◌then◌else◌,
  length, map, arith, inl, inr, Bool-cases, Option-cases,
}
use better_steam_tools_ameth.Base.Int.{pos, negsuc}
use better_steam_tools_ameth.Base.Text.{Bytes}
use better_steam_tools_ameth.Numbers.{parse_uint64}
use better_steam_tools_ameth.Numbers.Exact.{parse_strict-is_number, is_number}
use better_steam_tools_ameth.Mirrors.{lower}
use better_steam_tools_ameth.LuaConfig.{
  ConfigOp, op_app_id, op_token, op_cd_key, op_process, op_denuvo, op_eticket_url, op_manifest,
  op_stat,
}
use better_steam_tools_ameth.LuaConfig.Script.{
  LuaValue, integer, float, text, other, Ran, raises, nothing, records, ScriptFunction, need,
  as_uint32, to_string, to_uint64, kept_key, lua_call, addappid, addtoken, setlegacycdkey,
  addprocess, forcedenuvo, seteticketurl, setmanifestid, setstat, lua_add_app_id, lua_add_token,
  lua_set_legacy_cd_key, lua_add_process, lua_force_denuvo, lua_set_eticket_url,
  lua_set_manifest_id, lua_set_stat,
}

-- ids and numbers fit their types, a key is empty or has 64 characters, a process name is in lower
-- case, a pin has no size
unfoldable pub IsInRange : ConfigOp → Type 0
IsInRange (op_app_id n key) = (n < 2 ^ 32) × ((length key == 0 || length key == 64) ≡ true)
IsInRange (op_token n token) = (n < 2 ^ 32) × (token < 2 ^ 64)
IsInRange (op_cd_key n key) = n < 2 ^ 32
IsInRange (op_process name n) = (n < 2 ^ 32) × (not (n == 0) ≡ true) × (map lower name ≡ name)
IsInRange (op_denuvo n) = (n < 2 ^ 32) × (not (n == 0) ≡ true)
IsInRange (op_eticket_url url) = Unit
IsInRange (op_manifest n pin) = (n < 2 ^ 32) × (pin.gid < 2 ^ 64) × (pin.size ≡ 0)
IsInRange (op_stat n steam_id) = (n < 2 ^ 32) × (steam_id < 2 ^ 64)

unfoldable pub RecordsInRange : Ran → Type 0
unfolding IsInRange
RecordsInRange raises = Unit
RecordsInRange nothing = Unit
RecordsInRange (records op) = IsInRange op

as_uint32-lt : (v : LuaValue) (n : ℕ) → as_uint32 v ≡ some n → n < 2 ^ 32
unfolding as_uint32
as_uint32-lt (integer (pos m)) n e = ground arith
as_uint32-lt (integer (negsuc m)) n e = absurd (ground arith)
as_uint32-lt float n e = absurd (ground arith)
as_uint32-lt (text s) n e = absurd (ground arith)
as_uint32-lt other n e = absurd (ground arith)

parse_uint64-lt : (s : Bytes) (n : ℕ) → parse_uint64 s ≡ some n → n < 2 ^ 64
unfolding parse_uint64 is_number
parse_uint64-lt [] n e = let exact = parse_strict-is_number 10 (2 ^ 64) [] in absurd (ground arith)
parse_uint64-lt (c ∷ cs) n e =
    let exact = parse_strict-is_number 10 (2 ^ 64) (c ∷ cs) in ground arith

map-lower-lower : (s : Bytes) → map lower (map lower s) ≡ map lower s
map-lower-lower [] = refl
map-lower-lower (c ∷ cs) =
    let same : lower (lower c) ≡ lower c = ground arith in rw (same, map-lower-lower cs) refl

need-RecordsInRange :
    {A : Type 0} (o : Option A) (k : A → Ran)
    → ((a : A) → o ≡ some a → RecordsInRange (k a))
    → RecordsInRange (need o k)
unfolding RecordsInRange
need-RecordsInRange none k h = tt
need-RecordsInRange (some a) k h = h a refl

some_id :
    (n : ℕ) (op : ConfigOp)
    → (not (n == 0) ≡ true → IsInRange op)
    → RecordsInRange (if n == 0 then raises else records op)
unfolding RecordsInRange
some_id n op h = elim (Bool-cases (n == 0)) [ inl e ↦ rw e tt | inr e ↦ rw e (h (ground arith)) ]

kept_key-length :
    (spell : LuaValue → Bytes) (key : Bytes)
    → (length (kept_key spell key) == 0 || length (kept_key spell key) == 64) ≡ true
unfolding kept_key
kept_key-length spell key = ground arith

module _ (spell : LuaValue → Bytes) where
  to_uint64-lt : (v : LuaValue) (n : ℕ) → to_uint64 spell v ≡ some n → n < 2 ^ 64
  unfolding to_uint64
  to_uint64-lt v n e = elim (Option-cases (to_string spell v)) [
    | inl none_in ↦ let e' = (rw (none_in, to_uint64) at e) in absurd (ground arith)
    | inr (s, some_in) ↦ let e' = (rw (some_in, to_uint64) at e) in parse_uint64-lt s n e'
  ]

  -- an id, and a second argument
  with_number :
      (id v : LuaValue) (op : ℕ → ℕ → ConfigOp)
      → ((n m : ℕ) → n < 2 ^ 32 → m < 2 ^ 64 → IsInRange (op n m))
      → RecordsInRange (need (as_uint32 id) (λ n. need (to_uint64 spell v) (λ m. records (op n m))))
  unfolding RecordsInRange
  with_number id v op h = need-RecordsInRange (as_uint32 id) _ (λ n e.
      need-RecordsInRange (to_uint64 spell v) _
        (λ m f. h n m (as_uint32-lt id n e) (to_uint64-lt v m f)))

  with_text :
      (id v : LuaValue) (op : ℕ → Bytes → ConfigOp)
      → ((n : ℕ) (s : Bytes) → n < 2 ^ 32 → IsInRange (op n s))
      → RecordsInRange (need (as_uint32 id) (λ n. need (to_string spell v) (λ s. records (op n s))))
  unfolding RecordsInRange
  with_text id v op h =
      need-RecordsInRange (as_uint32 id) _
        (λ n e. need-RecordsInRange (to_string spell v) _ (λ s f. h n s (as_uint32-lt id n e)))

  lua_add_app_id-RecordsInRange :
      (args : List LuaValue) → RecordsInRange (lua_add_app_id spell args)
  unfolding lua_add_app_id RecordsInRange IsInRange
  lua_add_app_id-RecordsInRange [] = tt
  lua_add_app_id-RecordsInRange (id ∷ []) =
      need-RecordsInRange (as_uint32 id) _ (λ n e. (as_uint32-lt id n e, refl))
  lua_add_app_id-RecordsInRange (id ∷ second ∷ []) =
      need-RecordsInRange (as_uint32 id) _ (λ n e. (as_uint32-lt id n e, refl))
  lua_add_app_id-RecordsInRange (id ∷ second ∷ key ∷ rest) =
      with_text id key (λ n k. op_app_id n (kept_key spell k))
        (λ n k l. (l, kept_key-length spell k))

  lua_add_token-RecordsInRange : (args : List LuaValue) → RecordsInRange (lua_add_token spell args)
  unfolding lua_add_token RecordsInRange IsInRange
  lua_add_token-RecordsInRange [] = tt
  lua_add_token-RecordsInRange (id ∷ []) = need-RecordsInRange (as_uint32 id) _ (λ n e. tt)
  lua_add_token-RecordsInRange (id ∷ token ∷ rest) =
      with_number id token op_token (λ n t l m. (l, m))

  lua_add_process-RecordsInRange :
      (args : List LuaValue) → RecordsInRange (lua_add_process spell args)
  unfolding lua_add_process RecordsInRange IsInRange
  lua_add_process-RecordsInRange [] = tt
  lua_add_process-RecordsInRange (id ∷ []) = tt
  lua_add_process-RecordsInRange (id ∷ name ∷ rest) =
      need-RecordsInRange (to_string spell name) _ (λ s e.
        need-RecordsInRange (as_uint32 id) _ (λ n f.
          some_id n (op_process (map lower s) n)
            (λ z. (as_uint32-lt id n f, z, map-lower-lower s))))

  -- Whatever values a script passes to one of the eight functions that record an operation, the
  -- operation has ids below 2^32, which are not 0 for a process or a forced id, numbers below
  -- 2^64, a key of a depot that is empty or has 64 characters, a process name that is in lower
  -- case, and a pin of size 0.
  pub lua_call-RecordsInRange :
      (f : ScriptFunction) (args : List LuaValue) → RecordsInRange (lua_call spell f args)
  unfolding lua_call RecordsInRange IsInRange lua_set_legacy_cd_key lua_force_denuvo
      lua_set_eticket_url lua_set_manifest_id lua_set_stat
  lua_call-RecordsInRange addappid args = lua_add_app_id-RecordsInRange args
  lua_call-RecordsInRange addtoken args = lua_add_token-RecordsInRange args
  lua_call-RecordsInRange setlegacycdkey [] = tt
  lua_call-RecordsInRange setlegacycdkey (id ∷ []) = tt
  lua_call-RecordsInRange setlegacycdkey (id ∷ key ∷ rest) = with_text id key op_cd_key (λ n k l. l)
  lua_call-RecordsInRange addprocess args = lua_add_process-RecordsInRange args
  lua_call-RecordsInRange forcedenuvo [] = tt
  lua_call-RecordsInRange forcedenuvo (id ∷ rest) =
      need-RecordsInRange (as_uint32 id) _
        (λ n f. some_id n (op_denuvo n) (λ z. (as_uint32-lt id n f, z)))
  lua_call-RecordsInRange seteticketurl [] = tt
  lua_call-RecordsInRange seteticketurl (url ∷ rest) =
      need-RecordsInRange (to_string spell url) _ (λ u e. tt)
  lua_call-RecordsInRange setmanifestid [] = tt
  lua_call-RecordsInRange setmanifestid (id ∷ []) = tt
  lua_call-RecordsInRange setmanifestid (id ∷ gid ∷ rest) =
      with_number id gid (λ n g. op_manifest n (record { gid = g; size = 0 }))
        (λ n g l m. (l, m, refl))
  lua_call-RecordsInRange setstat [] = tt
  lua_call-RecordsInRange setstat (id ∷ []) = tt
  lua_call-RecordsInRange setstat (id ∷ steam_id ∷ rest) =
      with_number id steam_id op_stat (λ n t l m. (l, m))
