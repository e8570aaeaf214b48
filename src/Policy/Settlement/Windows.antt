-- ===== src/Policy/Settlement/Windows.antt =====
-- The settlement date, the accrual window, and the tolerances on lateness.
use settlement_ops.Base.{
  arith, int_laws, neg_part, pos, pos_part, suc, true, zero, ℕ, ℤ, ◌*◌, ◌+ℤ◌, ◌+◌, ◌↔◌, ◌≡◌, ◌≤ℤ◌,
  ◌≤◌, ◌⊎◌,
}
use settlement_ops.Policy.Calendar.{is_business_day, ms_per_day, next_day, previous_day}
use settlement_ops.Policy.Settlement.{
  adjustment_can_explain_settlement, business_days_before, cycle_start, expected_settlement_date,
}
use settlement_ops.Policy.Settlement.Walks.{
  business_days, next_day-Cycles, previous_day-Cycles, steps, walk-ends, walk_lands,
}

-- `expectedSettlementDate` is the second business day after the day of the cycle's start.
pub expected_settlement_date_lem :
    (captured_at : ℤ)
    → let start = cycle_start captured_at in
      let date = expected_settlement_date captured_at in
      (k : ℕ) × (date ≡ steps next_day k start)
      × (business_days next_day k start ≡ 2)
      × (k ≤ 6)
      × (is_business_day date ≡ true)
unfolding expected_settlement_date
expected_settlement_date_lem captured_at =
    let start = cycle_start captured_at in
    let (c, e) = walk-ends next_day next_day-Cycles 2 6 start (omega arith) in
    let (k, at_c, met, small, last) = walk_lands next_day 6 2 start c e in
    rw e (k, at_c, met, small, ground arith)

-- `businessDaysBefore` goes back over exactly `n` business days, and for n > 0 ends on one.
pub business_days_before_lem :
    (from : ℤ) (n : ℕ)
    → let date = business_days_before from n in
      (k : ℕ) × (date ≡ steps previous_day k from)
      × (business_days previous_day k from ≡ n)
      × (k ≤ 3 * n)
      × ((n ≡ 0) ⊎ (is_business_day date ≡ true))
unfolding business_days_before
business_days_before_lem from n =
    let (c, e) = walk-ends previous_day previous_day-Cycles n (3 * n) from (omega arith) in
    let (k, at_c, met, small, last) = walk_lands previous_day (3 * n) n from c e in
    rw e (k, at_c, met, small, ground arith)

business_days-le : (step : ℤ → ℤ) (k : ℕ) (at : ℤ) → business_days step k at ≤ k
unfolding business_days
business_days-le step zero at = omega arith
business_days-le step (suc k) at = ground (arith, business_days-le step k (step at))

steps_back :
    (k : ℕ) (at : ℤ)
    → pos_part (steps previous_day k at) + neg_part at + k * ms_per_day
      ≡ neg_part (steps previous_day k at) + pos_part at
unfolding steps
steps_back zero at = omega arith
steps_back (suc k) at = omega (int_laws, steps_back k (previous_day at))

window_start_bounds :
    (s : ℤ)
    → let w = business_days_before s 2 in
      (w +ℤ pos (2 * ms_per_day) ≤ℤ s) × (s ≤ℤ w +ℤ pos (6 * ms_per_day))
window_start_bounds s =
    let (k, at_w, met, small, last) = business_days_before_lem s 2 in
    let enough : 2 ≤ k = omega (arith, business_days-le previous_day k s) in
    rw at_w (
      omega (int_laws, steps_back k s, enough, small),
      omega (int_laws, steps_back k s, enough, small),
    )

pub adjustment_can_explain_iff :
    (a s : ℤ)
    → (adjustment_can_explain_settlement a s ≡ true) ↔ ((a ≤ℤ s) × (business_days_before s 2 ≤ℤ a))
unfolding adjustment_can_explain_settlement
adjustment_can_explain_iff a s = ground arith

-- The window of an adjustment: never after the settlement, always within the two days (48 hours)
-- before it, and never more than six days before it.
pub adjustment_window :
    (adjustment_at settlement_at : ℤ)
    → let explains = adjustment_can_explain_settlement adjustment_at settlement_at in
      (explains ≡ true
        → (adjustment_at ≤ℤ settlement_at)
          × (settlement_at ≤ℤ adjustment_at +ℤ pos (6 * ms_per_day)))
      × (adjustment_at ≤ℤ settlement_at
          → settlement_at ≤ℤ adjustment_at +ℤ pos (2 * ms_per_day)
          → explains ≡ true)
adjustment_window a s = (
  (λ e.
      let (before, recent) = (adjustment_can_explain_iff a s).0 e in
      (before, omega (int_laws, window_start_bounds s, recent))),
  λ before recent.
      let in_window : business_days_before s 2 ≤ℤ a =
        omega (int_laws, window_start_bounds s, recent) in
      (adjustment_can_explain_iff a s).1 (before, in_window),
)
