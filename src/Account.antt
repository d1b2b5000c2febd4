-- ===== src/Account.antt =====
-- Utils/Tickets/ForgeBaseCache.h: the slot that remembers for which account a ticket was resolved.
pub mod History
use better_steam_tools_ameth.Base.{
  ℕ, ◌%◌, ◌^◌, Bool, true, false, not, ◌&&◌, ◌||◌, Option, none, some, ◌==◌, if◌then◌else◌,
}

unfoldable pub ticket_belongs_to_account : ℕ → ℕ → Bool
ticket_belongs_to_account ticket_steam_id active_account_id =
    if active_account_id == 0 then true else ticket_steam_id % 2 ^ 32 == active_account_id

-- `AccountKeyedCache<T>`
pub record AccountKeyedCache {ℓ} (T : Type ℓ) : Type ℓ where
  pub valid : Bool
  pub account_id : ℕ
  pub held : T

module _ {ℓ} {T : Type ℓ} where
  -- `Lookup`; where it fails, `out` stays as it was
  unfoldable pub lookup_account : AccountKeyedCache T → ℕ → Option T
  lookup_account slot account_id =
      if not slot.valid || account_id == 0 || not (account_id == slot.account_id)
      then none
      else some slot.held

  unfoldable pub store : AccountKeyedCache T → ℕ → T → AccountKeyedCache T × Bool
  store slot account_id value =
      if account_id == 0
      then (slot, false)
      else (record { valid = true; account_id = account_id; held = value }, true)

  -- `Invalidate`, where `empty` is `T{}`
  unfoldable pub invalidate : T → AccountKeyedCache T → AccountKeyedCache T × Bool
  invalidate empty slot = (record { valid = false; account_id = 0; held = empty }, slot.valid)

  unfoldable pub invalidate_if_account_changed :
      T → AccountKeyedCache T → ℕ → AccountKeyedCache T × Bool
  unfolding invalidate
  invalidate_if_account_changed empty slot account_id =
      if slot.valid && not (slot.account_id == account_id)
      then invalidate empty slot
      else (slot, false)
