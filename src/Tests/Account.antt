-- ===== src/Tests/Account.antt =====
-- The reconciliation of the package, the slot of the ticket and the address of a manifest at
-- concrete inputs.
use better_steam_tools_ameth.Base.{
  false, true, ℕ, ◌≡◌, refl, none, List, [], ◌∷◌, ◌==◌, if◌then◌else◌,
}
use better_steam_tools_ameth.Base.Assoc.{contains}
use better_steam_tools_ameth.Base.Text.{codes}
use better_steam_tools_ameth.Base.Find.{absent}
use better_steam_tools_ameth.Template.Fill.{Piece, text, slot, first, third, IsClean, render}
use better_steam_tools_ameth.Endpoint.{is_unset}
use better_steam_tools_ameth.Endpoint.Override.{number_name}
use better_steam_tools_ameth.Reconcile.{reconcile, plan_for, touched}
use better_steam_tools_ameth.Account.{lookup_account, ticket_belongs_to_account}
use better_steam_tools_ameth.Account.History.{
  Operation, stores, invalidates, account_changes, slot_after, left_for, lookup_account-left_for,
}

plan :
    reconcile (6 ∷ []) (5 ∷ 5 ∷ []) (λ id. id == 5) (λ id. id == 6)
    ≡ record { additions = 5 ∷ []; removals = 6 ∷ [] }
unfolding reconcile plan_for touched contains
plan = refl

abbrev operations : List (Operation ℕ)
operations = account_changes 7 ∷ stores 7 70 ∷ invalidates ∷ stores 8 80 ∷ []

lookup_account-left_for_example :
    lookup_account (slot_after 0 operations) 7 ≡ (if 7 == 0 then none else left_for 0 7 operations)
lookup_account-left_for_example = lookup_account-left_for 0 operations 7

-- the low half of the SteamID is the account
low_half : ticket_belongs_to_account 0x110000100000007 7 ≡ true
unfolding ticket_belongs_to_account
low_half = refl

abbrev pieces : List Piece
pieces = text (codes "https://h/") ∷ slot third ∷ text (codes "?a=") ∷ slot first ∷ []

pieces-IsClean : IsClean pieces
unfolding absent
pieces-IsClean = (refl, (refl, tt))

pieces_given : is_unset (render number_name pieces) ≡ false
unfolding render
pieces_given = refl
