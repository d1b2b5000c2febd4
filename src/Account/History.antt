-- ===== src/Account/History.antt =====
-- What a lookup finds is the last value stored for the same account.
use better_steam_tools_ameth.Base.{
  ℕ, ◌≡◌, false, Option, none, some, List, [], ◌∷◌, arith, ◌==◌, if◌then◌else◌,
}
use better_steam_tools_ameth.Account.{
  AccountKeyedCache, lookup_account, store, invalidate, invalidate_if_account_changed,
}

pub data Operation {ℓ} (T : Type ℓ) : Type ℓ where
  stores : ℕ → T → Operation T
  invalidates : Operation T
  account_changes : ℕ → Operation T

module _ {ℓ} {T : Type ℓ} (empty : T) where
  -- the slot after the operations, the newest first
  unfoldable pub slot_after : List (Operation T) → AccountKeyedCache T
  slot_after [] = record { valid = false; account_id = 0; held = empty }
  slot_after (stores account_id value ∷ ops) = (store (slot_after ops) account_id value).0
  slot_after (invalidates ∷ ops) = (invalidate empty (slot_after ops)).0
  slot_after (account_changes account_id ∷ ops) =
      (invalidate_if_account_changed empty (slot_after ops) account_id).0

  -- what the operations, the newest first, leave for an account: the last value that was stored, if
  -- it was stored for this account, nothing was dropped since, and every change was to this account
  unfoldable pub left_for : ℕ → List (Operation T) → Option T
  left_for account_id [] = none
  left_for account_id (stores other value ∷ ops) =
      let before = left_for account_id ops in
      if other == 0 then before else if account_id == other then some value else none
  left_for account_id (invalidates ∷ ops) = none
  left_for account_id (account_changes other ∷ ops) =
      let before = left_for account_id ops in if account_id == other then before else none

  -- After any operations a lookup finds nothing for the account 0, and for every other account the
  -- last value that was stored for it, if since then no other account was stored, nothing was
  -- dropped and the account did not change.
  pub lookup_account-left_for :
      (ops : List (Operation T)) (account_id : ℕ)
      → lookup_account (slot_after ops) account_id
        ≡ (if account_id == 0 then none else left_for account_id ops)
  unfolding lookup_account slot_after store invalidate invalidate_if_account_changed left_for
  lookup_account-left_for [] account_id = ground arith
  lookup_account-left_for (stores other value ∷ ops) account_id =
      ground (arith, lookup_account-left_for ops account_id)
  lookup_account-left_for (invalidates ∷ ops) account_id = ground arith
  lookup_account-left_for (account_changes other ∷ ops) account_id =
      ground (arith, lookup_account-left_for ops account_id)
