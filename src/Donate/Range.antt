-- ===== src/Donate/Range.antt =====
-- No table brings a setting out of its range.
use better_steam_tools_ameth.Base.{ℕ, ◌≤◌, Option, none, some, arith}
use better_steam_tools_ameth.Base.Text.{Bytes, codes}
use better_steam_tools_ameth.Base.Int.{ℤ, pos, negsuc}
use better_steam_tools_ameth.Donate.{DonateSettings, DonateTable, read_clamped, apply}

pub record IsInRange (s : DonateSettings) : Type 0 where
  pub interval : (30 ≤ s.interval_secs) × (s.interval_secs ≤ 86400)
  pub per_cycle : (1 ≤ s.max_mints_per_cycle) × (s.max_mints_per_cycle ≤ 500)
  pub between : s.min_mint_interval_ms ≤ 60000
  pub per_session : s.max_mints_per_session ≤ 100000
  pub refresh : (30 ≤ s.wanted_refresh_secs) × (s.wanted_refresh_secs ≤ 86400)

read_clamped-range :
    (key : Bytes) (found : Option ℤ) (lo hi field : ℕ)
    → lo ≤ field
    → field ≤ hi
    → (lo ≤ (read_clamped key found lo hi field).0) × ((read_clamped key found lo hi field).0 ≤ hi)
unfolding read_clamped
read_clamped-range key none lo hi field l h = (l, h)
read_clamped-range key (some (negsuc v)) lo hi field l h = (l, h)
read_clamped-range key (some (pos v)) lo hi field l h = (ground arith, ground arith)

-- If the settings are in their ranges they are so after any table, whatever numbers it holds.
pub apply-IsInRange :
    (table : DonateTable) (out : DonateSettings) → IsInRange out → IsInRange (apply table out).0
unfolding apply
apply-IsInRange table out r = record {
  interval =
      read_clamped-range (codes "interval_secs") (table.int_at (codes "interval_secs")) 30 86400
        out.interval_secs r.interval.0 r.interval.1;
  per_cycle =
      read_clamped-range (codes "max_mints_per_cycle") (table.int_at (codes "max_mints_per_cycle"))
        1 500 out.max_mints_per_cycle r.per_cycle.0 r.per_cycle.1;
  between =
      (read_clamped-range (codes "min_mint_interval_ms")
        (table.int_at (codes "min_mint_interval_ms")) 0 60000 out.min_mint_interval_ms (omega arith)
        r.between).1;
  per_session =
      (read_clamped-range (codes "max_mints_per_session")
        (table.int_at (codes "max_mints_per_session")) 0 100000 out.max_mints_per_session
        (omega arith) r.per_session).1;
  refresh =
      read_clamped-range (codes "wanted_refresh_secs") (table.int_at (codes "wanted_refresh_secs"))
        30 86400 out.wanted_refresh_secs r.refresh.0 r.refresh.1;
}
