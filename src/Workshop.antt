-- ===== src/Workshop.antt =====
-- Utils/SteamMetadata/UgcLogic.h and .cpp: the result in the callback of a workshop call. A result
-- is its 32-bit word, of which only small values matter.
pub mod Patch
use better_steam_tools_ameth.Base.{
  ℕ, Bool, true, false, not, ◌&&◌, ◌||◌, Option, none, some, List, [], ◌∷◌, ◌==◌, ltb,
  if◌then◌else◌, length, drop,
}
use better_steam_tools_ameth.Base.Text.{Bytes}
use better_steam_tools_ameth.Base.Assoc.{contains}
use better_steam_tools_ameth.Packet.{read_u32}

abbrev pub eresult_ok : ℕ
eresult_ok = 1

-- Fail, InvalidParam, InvalidState, AccessDenied, InsufficientPrivilege
abbrev pub overridden_results : List ℕ
overridden_results = 2 ∷ 8 ∷ 11 ∷ 15 ∷ 24 ∷ []

unfoldable pub should_override_ugc_result : ℕ → ℕ → Bool → Bool
unfolding contains
should_override_ugc_result app_id original_result is_lua_managed =
    if not is_lua_managed || app_id == 0 then false else contains original_result overridden_results

-- the cases of `IsEResultLeadingCallback`
abbrev pub leading_callbacks : List ℕ
leading_callbacks =
    1307 ∷ 1309 ∷ 1311 ∷ 1312 ∷ 1313 ∷ 1314 ∷ 1315 ∷ 1316 ∷ 1317 ∷ 1318 ∷ 1319 ∷ 1320 ∷ 1324 ∷ 1325
    ∷ 1326 ∷ 1327 ∷ 1328 ∷ 1331 ∷ 3403 ∷ 3404 ∷ 3410 ∷ 3411 ∷ 3412 ∷ 3413 ∷ 3414 ∷ 3415 ∷ 3416
    ∷ 3417 ∷ []

unfoldable pub is_eresult_leading_callback : ℕ → Bool
unfolding contains
is_eresult_leading_callback callback_id = contains callback_id leading_callbacks

-- the callback afterwards, and the original result if it was rewritten
unfoldable pub try_override_callback : ℕ → Bool → ℕ → Bytes → Bytes × Option ℕ
unfolding is_eresult_leading_callback should_override_ugc_result read_u32
try_override_callback app_id is_lua_managed callback_id callback =
    let original = read_u32 callback 0 in
    if not (is_eresult_leading_callback callback_id)
    then (callback, none)
    else if ltb (length callback) 4
    then (callback, none)
    else if not (should_override_ugc_result app_id original is_lua_managed)
    then (callback, none)
    else (eresult_ok ∷ 0 ∷ 0 ∷ 0 ∷ drop 4 callback, some original)
