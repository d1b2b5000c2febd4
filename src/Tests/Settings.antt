-- ===== src/Tests/Settings.antt =====
-- The callbacks of the workshop and the table of the donations at concrete inputs.
use better_steam_tools_ameth.Base.{◌≡◌, refl, true, none, some, [], ◌∷◌, arith}
use better_steam_tools_ameth.Base.Text.{Bytes}
use better_steam_tools_ameth.Base.Int.{pos}
use better_steam_tools_ameth.Workshop.{try_override_callback}
use better_steam_tools_ameth.Donate.{DonateSettings, DonateTable, apply}
use better_steam_tools_ameth.Donate.Range.{IsInRange, apply-IsInRange}

-- access denied
abbrev callback : Bytes
callback = 15 ∷ 0 ∷ 0 ∷ 0 ∷ 9 ∷ []

denied : (try_override_callback 480 true 1313 callback).1 ≡ some 15
unfolding try_override_callback
denied = refl

-- 0 seconds between two cycles
abbrev table : DonateTable
table = record { bool_at = λ key. none; string_at = λ key. none; int_at = λ key. some (pos 0) }

abbrev defaults : DonateSettings
defaults = record {
  enabled = true;
  url = [];
  interval_secs = 30;
  max_mints_per_cycle = 25;
  min_mint_interval_ms = 2000;
  max_mints_per_session = 0;
  wanted_refresh_secs = 300;
}

defaults-IsInRange : IsInRange defaults
defaults-IsInRange = record {
  interval = (omega arith, omega arith);
  per_cycle = (omega arith, omega arith);
  between = omega arith;
  per_session = omega arith;
  refresh = (omega arith, omega arith);
}

apply-IsInRange_example : IsInRange (apply table defaults).0
apply-IsInRange_example = apply-IsInRange table defaults defaults-IsInRange
