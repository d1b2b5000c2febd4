-- ===== src/Donor.antt =====
-- Utils/SteamMetadata/ManifestDonorLogic.h and .cpp: the gates of the donor, and the lines of the
-- list of wanted manifests.
pub mod Lines
use better_steam_tools_ameth.Base.{
  ℕ, zero, suc, ◌+◌, ◌-◌, ◌%◌, ◌^◌, Bool, true, false, not, ◌&&◌, ◌||◌, Option, none, some, [], ◌∷◌,
  ◌==◌, if◌then◌else◌, drop, length,
}
use better_steam_tools_ameth.Base.Text.{Bytes, find, find_from}
use better_steam_tools_ameth.Base.Find.{substr}
use better_steam_tools_ameth.Numbers.{parse_strict}

unfoldable pub should_start_donor : Bool → Bool
should_start_donor donate_enabled = donate_enabled

unfoldable pub should_track_sent_request : Bool → Bool → Bool
should_track_sent_request have_job donate_enabled = have_job && donate_enabled

unfoldable pub should_submit_captured_code : ℕ → ℕ → ℕ → Bool → Bool
should_submit_captured_code depot_id gid code donate_enabled =
    not (depot_id == 0) && not (gid == 0) && not (code == 0) && donate_enabled

pub record WantedEntry : Type 0 where
  pub app_id : ℕ
  pub depot_id : ℕ
  pub gid : ℕ

-- the lambda `field`: a whole text as an unsigned 64-bit number
unfoldable pub field : Bytes → Option ℕ
field s = parse_strict 10 (2 ^ 64) s

-- the three fields in order, then the test for zero and the casts to 32 bits
unfoldable pub wanted_entry : Bytes → Bytes → Bytes → Option WantedEntry
wanted_entry app_text depot_text gid_text = elim (field app_text) [
  | none ↦ none
  | some app ↦ elim (field depot_text) [
    | none ↦ none
    | some depot ↦ elim (field gid_text) [
      | none ↦ none
      | some gid ↦
          if depot == 0 || gid == 0
          then none
          else some (record { app_id = app % 2 ^ 32; depot_id = depot % 2 ^ 32; gid = gid })
    ]
  ]
]

unfoldable pub parse_wanted_line : Bytes → Option WantedEntry
parse_wanted_line line = elim (find (b':' ∷ []) line) [
  | none ↦ none
  | some c1 ↦ elim (find_from (b':' ∷ []) line (c1 + 1)) [
    | none ↦ none
    | some c2 ↦
        wanted_entry (substr line 0 c1) (substr line (c1 + 1) (c2 - c1 - 1)) (drop (c2 + 1) line)
  ]
]
