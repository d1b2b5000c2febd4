-- ===== src/Donate.antt =====
-- Utils/Config/DonateConfigLogic.cpp: the table of the donations. What the TOML library finds under
-- a key is a parameter.
pub mod Range
use better_steam_tools_ameth.Base.{
  ℕ, Bool, true, false, ◌||◌, Option, none, some, List, [], ◌∷◌, ◌++◌, ltb, if◌then◌else◌,
}
use better_steam_tools_ameth.Base.Text.{Bytes, codes}
use better_steam_tools_ameth.Base.Int.{ℤ, pos, negsuc}

pub record DonateSettings : Type 0 where
  pub enabled : Bool
  pub url : Bytes
  pub interval_secs : ℕ
  pub max_mints_per_cycle : ℕ
  pub min_mint_interval_ms : ℕ
  pub max_mints_per_session : ℕ
  pub wanted_refresh_secs : ℕ

pub record RangeViolation : Type 0 where
  pub key : Bytes
  pub value : ℤ
  pub lo : ℕ
  pub hi : ℕ
  pub kept : ℕ

-- the typed lookups of the table
pub record DonateTable : Type 0 where
  pub bool_at : Bytes → Option Bool
  pub string_at : Bytes → Option Bytes
  pub int_at : Bytes → Option ℤ

abbrev pub or_else {ℓ} : {A : Type ℓ} → Option A → A → A
or_else none a = a
or_else (some b) a = b

-- the lambda `readClamped`: the field afterwards, and the violation if there is one
unfoldable pub read_clamped : Bytes → Option ℤ → ℕ → ℕ → ℕ → ℕ × List RangeViolation
read_clamped key none lo hi field = (field, [])
read_clamped key (some (negsuc v)) lo hi field =
    (field, record { key = key; value = negsuc v; lo = lo; hi = hi; kept = field } ∷ [])
read_clamped key (some (pos v)) lo hi field =
    if ltb v lo || ltb hi v
    then (field, record { key = key; value = pos v; lo = lo; hi = hi; kept = field } ∷ [])
    else (v, [])

unfoldable pub apply : DonateTable → DonateSettings → DonateSettings × List RangeViolation
unfolding read_clamped
apply table out =
    let read : Bytes → ℕ → ℕ → ℕ → ℕ × List RangeViolation =
      λ key. read_clamped key (table.int_at key) in
    let (interval, a) = read (codes "interval_secs") 30 86400 out.interval_secs in
    let (per_cycle, b) = read (codes "max_mints_per_cycle") 1 500 out.max_mints_per_cycle in
    let (between, c) = read (codes "min_mint_interval_ms") 0 60000 out.min_mint_interval_ms in
    let (per_session, d) =
      read (codes "max_mints_per_session") 0 100000 out.max_mints_per_session in
    let (refresh, e) = read (codes "wanted_refresh_secs") 30 86400 out.wanted_refresh_secs in
    (
      record {
        enabled = or_else (table.bool_at (codes "enabled")) out.enabled;
        url = or_else (table.string_at (codes "url")) out.url;
        interval_secs = interval;
        max_mints_per_cycle = per_cycle;
        min_mint_interval_ms = between;
        max_mints_per_session = per_session;
        wanted_refresh_secs = refresh;
      },
      a ++ (b ++ (c ++ (d ++ e))),
    )
