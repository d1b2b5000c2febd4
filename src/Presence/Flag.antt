-- ===== src/Presence/Flag.antt =====
-- The flag of a status is set or cleared, and nothing else changes.
use better_steam_tools_ameth.Base.{
  ℕ, ◌/◌, ◌%◌, ◌<◌, ◌≡◌, Bool, ◌||◌, ◌==◌, ◌^◌, if◌then◌else◌, arith, inl, inr, Bool-cases,
}
use better_steam_tools_ameth.Presence.{with_rich_presence_flag, without_bit, with_bit}

without_bit_bits :
    (flags : ℕ)
    → (without_bit flags % 4096 ≡ flags % 4096)
      × (without_bit flags / 4096 % 2 ≡ 0)
      × (without_bit flags / 8192 ≡ flags / 8192)
unfolding without_bit
without_bit_bits flags = (omega arith, omega arith, omega arith)

with_bit_bits :
    (flags : ℕ)
    → (with_bit flags % 4096 ≡ flags % 4096)
      × (with_bit flags / 4096 % 2 ≡ 1)
      × (with_bit flags / 8192 ≡ flags / 8192)
unfolding with_bit without_bit
with_bit_bits flags = (omega arith, omega arith, omega arith)

-- The bit of the rich presence is set if no game is tracked or there are key values, and cleared
-- otherwise; the twelve bits below it and all bits above it stay as they are, and the word stays
-- below 2^32.
with_rich_presence_flag_bits :
    (flags app_id : ℕ) (has_kvs : Bool)
    → flags < 2 ^ 32
    → (with_rich_presence_flag flags app_id has_kvs % 4096 ≡ flags % 4096)
      × (with_rich_presence_flag flags app_id has_kvs / 4096 % 2
          ≡ (if app_id == 0 || has_kvs then 1 else 0))
      × (with_rich_presence_flag flags app_id has_kvs / 8192 ≡ flags / 8192)
      × (with_rich_presence_flag flags app_id has_kvs < 2 ^ 32)
unfolding with_rich_presence_flag
with_rich_presence_flag_bits flags app_id has_kvs small =
    let (low, one, high) = with_bit_bits flags in
    let (low', cleared, high') = without_bit_bits flags in
    elim (Bool-cases (app_id == 0 || has_kvs)) [
      | inl e ↦ rw (e) (low, one, high, omega arith)
      | inr e ↦ rw (e) (low', cleared, high', omega arith)
    ]
