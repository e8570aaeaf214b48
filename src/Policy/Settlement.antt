-- ===== src/Policy/Settlement.antt =====
-- Settlement timing windows (packages/domain/src/policy/settlement-cycle.ts).
pub mod Walks
pub mod Windows
use settlement_ops.Base.{
  Bool, Option, div_floor, false, if◌then◌else◌, leb, leb_ℤ, ltb_ℤ, magnitude, none, pos, some, ℕ,
  ℤ, ◌&&◌, ◌*◌, ◌+ℤ◌, ◌-ℤ◌,
}
use settlement_ops.Policy.Calendar.{
  hour_of_day, midnight, ms_per_day, ms_per_hour, next_day, previous_day, walk,
}

abbrev pub settlement_cycle_business_days : ℕ
settlement_cycle_business_days = 2

abbrev pub settlement_cutoff_hour_ist : ℕ
settlement_cutoff_hour_ist = 18

abbrev pub ist_offset_minutes : ℕ
ist_offset_minutes = 330

abbrev pub refund_netting_max_cycles : ℕ
refund_netting_max_cycles = 2

abbrev pub bank_credit_expected_lag_hours : ℕ
bank_credit_expected_lag_hours = 24

abbrev pub bank_credit_lateness_tolerance_hours : ℕ
bank_credit_lateness_tolerance_hours = 72

abbrev pub adjustment_accrual_window_business_days : ℕ
adjustment_accrual_window_business_days = settlement_cycle_business_days

unfoldable pub to_ist : ℤ → ℤ
to_ist at = at +ℤ pos (ist_offset_minutes * 60000)

-- Three days hold a business day, so this fuel is enough for a walk over `n` of them.
abbrev pub walk_fuel : ℕ → ℕ
walk_fuel n = 3 * n

abbrev walked : ℤ → Option ℤ → ℤ
walked cursor none = cursor
walked cursor (some c) = c

-- The day from which the cycle is counted: the next one after the evening cutoff.
unfoldable pub cycle_start : ℤ → ℤ
unfolding to_ist
cycle_start captured_at =
    let ist = to_ist captured_at in
    let cursor = midnight ist in
    if leb settlement_cutoff_hour_ist (hour_of_day ist) then next_day cursor else cursor

unfoldable pub expected_settlement_date : ℤ → ℤ
unfolding cycle_start
expected_settlement_date captured_at =
    let start = cycle_start captured_at in
    walked start (
      walk next_day (walk_fuel settlement_cycle_business_days) settlement_cycle_business_days start)

unfoldable pub business_days_before : ℤ → ℕ → ℤ
business_days_before from days = walked from (walk previous_day (walk_fuel days) days from)

-- `Math.abs(Math.floor(difference / day))`.
unfoldable pub days_between : ℤ → ℤ → ℕ
days_between a b = magnitude (div_floor (a -ℤ b) ms_per_day)

-- `delta >= 0 && delta <= 24` in hours, compared in milliseconds.
unfoldable pub bank_credit_within_expected_lag : ℤ → ℤ → Bool
bank_credit_within_expected_lag settlement_at credited_at =
    let delta = credited_at -ℤ settlement_at in
    leb_ℤ (pos 0) delta && leb_ℤ delta (pos (bank_credit_expected_lag_hours * ms_per_hour))

-- `hoursBetween(expected, observed) <= 72`, compared in milliseconds.
unfoldable pub within_bank_credit_lateness_tolerance : ℤ → ℤ → Bool
within_bank_credit_lateness_tolerance expected observed =
    leb (magnitude (expected -ℤ observed)) (bank_credit_lateness_tolerance_hours * ms_per_hour)

unfoldable pub adjustment_can_explain_settlement : ℤ → ℤ → Bool
adjustment_can_explain_settlement adjustment_at settlement_at =
    if ltb_ℤ settlement_at adjustment_at
    then false
    else leb_ℤ (business_days_before settlement_at adjustment_accrual_window_business_days)
        adjustment_at
