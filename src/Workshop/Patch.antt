-- ===== src/Workshop/Patch.antt =====
-- What the rewriting of a callback changes, and when.
use better_steam_tools_ameth.Base.{ℕ, ◌≡◌, Bool, none, arith, length, drop, length-drop}
use better_steam_tools_ameth.Base.Text.{Bytes}
use better_steam_tools_ameth.Workshop.{try_override_callback}

-- The size of a callback and all bytes behind the first four stay as they are, whatever it is. If
-- nothing is reported as rewritten the whole callback stays as it is.
try_override_callback-behind :
    (app_id : ℕ) (is_lua_managed : Bool) (callback_id : ℕ) (callback : Bytes)
    → (length (try_override_callback app_id is_lua_managed callback_id callback).0
        ≡ length callback)
      × (drop 4 (try_override_callback app_id is_lua_managed callback_id callback).0
          ≡ drop 4 callback)
      × ((try_override_callback app_id is_lua_managed callback_id callback).1 ≡ none
          → (try_override_callback app_id is_lua_managed callback_id callback).0 ≡ callback)
unfolding try_override_callback
try_override_callback-behind app_id is_lua_managed callback_id callback =
    let rest = length-drop 4 callback in (ground arith, ground arith, λ h. ground arith)
