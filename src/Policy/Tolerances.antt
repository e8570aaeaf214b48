-- ===== src/Policy/Tolerances.antt =====
-- Amount tolerances (packages/domain/src/policy/tolerances.ts).
use settlement_ops.Base.{
  Bool, arith, false, if◌then◌else◌, leb, ltb, magnitude, max, min, pos, true, ℕ, ℤ, ◌*◌, ◌<◌, ◌↔◌,
  ◌≡◌, ◌≤◌,
}

abbrev pub rounding_tolerance_per_record : ℕ
rounding_tolerance_per_record = 2

abbrev pub rounding_tolerance_cap : ℕ
rounding_tolerance_cap = 100

abbrev pub amount_match_tolerance : ℕ
amount_match_tolerance = 0

abbrev pub settlement_date_tolerance_days : ℕ
settlement_date_tolerance_days = 1

abbrev pub near_duplicate_window_seconds : ℕ
near_duplicate_window_seconds = 60

unfoldable pub within_amount_match_tolerance : ℤ → Bool
within_amount_match_tolerance variance = leb (magnitude variance) amount_match_tolerance

unfoldable pub rounding_tolerance_for : ℕ → ℕ
rounding_tolerance_for line_count =
    let scaled = rounding_tolerance_per_record * max 1 line_count in
    if ltb rounding_tolerance_cap scaled then rounding_tolerance_cap else scaled

unfoldable pub within_rounding_tolerance : ℤ → ℕ → Bool
unfolding rounding_tolerance_for
within_rounding_tolerance variance line_count =
    leb (magnitude variance) (rounding_tolerance_for line_count)

-- Outside the rounding path only equal amounts agree.
pub within_amount_match_tolerance_iff :
    (v : ℤ) → (within_amount_match_tolerance v ≡ true) ↔ (v ≡ pos 0)
unfolding within_amount_match_tolerance
within_amount_match_tolerance_iff v = ground arith

-- The allowance grows by two minor units a record, from one record on, and stops at the cap.
pub rounding_tolerance_bounds :
    (n k : ℕ)
    → n ≤ k
    → (rounding_tolerance_for n ≤ rounding_tolerance_for k)
      × (rounding_tolerance_for k ≤ 100)
      × (2 ≤ rounding_tolerance_for n)
      × (rounding_tolerance_for n ≡ min 100 (2 * max 1 n))
unfolding rounding_tolerance_for
rounding_tolerance_bounds n k h = ground arith

-- No number of records makes a variance above 100 minor units, of either sign, a rounding matter.
pub over_cap_refused : (v : ℤ) (n : ℕ) → 100 < magnitude v → within_rounding_tolerance v n ≡ false
unfolding within_rounding_tolerance
over_cap_refused v n h = ground arith

pub within_cap : (v : ℤ) (n : ℕ) → within_rounding_tolerance v n ≡ true → magnitude v ≤ 100
unfolding within_rounding_tolerance
within_cap v n h = ground arith
