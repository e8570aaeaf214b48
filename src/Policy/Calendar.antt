-- ===== src/Policy/Calendar.antt =====
-- Business days (packages/domain/src/policy/settlement-cycle.ts). An instant is the integer of
-- milliseconds that `Date.getTime` gives; days begin at midnight UTC.
use settlement_ops.Base.{
  Bool, Option, arith, div_floor, false, mod_floor, negsuc, none, not, pos, refl, some, suc, true,
  zero, ℕ, ℤ, ◌%◌, ◌&&◌, ◌*ℤ◌, ◌+ℤ◌, ◌+◌, ◌-ℤ◌, ◌/◌, ◌<◌, ◌==◌, ◌≡◌,
}

abbrev pub ms_per_hour : ℕ
ms_per_hour = 3600000

abbrev pub ms_per_day : ℕ
ms_per_day = 86400000

-- The number of the day, counted from 1970-01-01, a Thursday.
unfoldable pub day_number : ℤ → ℤ
day_number at = div_floor at ms_per_day

-- `getUTCDay`: 0 is Sunday.
unfoldable pub weekday : ℤ → ℕ
unfolding day_number
weekday at = mod_floor (day_number at +ℤ pos 4) 7

-- `getUTCHours`.
unfoldable pub hour_of_day : ℤ → ℕ
hour_of_day at = mod_floor at ms_per_day / ms_per_hour

-- `Date.UTC(year, month, date)` of an instant: the midnight before it.
unfoldable pub midnight : ℤ → ℤ
unfolding day_number
midnight at = day_number at *ℤ pos ms_per_day

unfoldable pub is_business_day : ℤ → Bool
is_business_day at = not (weekday at == 0) && not (weekday at == 6)

abbrev pub next_day : ℤ → ℤ
next_day at = at +ℤ pos ms_per_day

abbrev pub previous_day : ℤ → ℤ
previous_day at = at -ℤ pos ms_per_day

-- The loops of `expectedSettlementDate` and `businessDaysBefore`: a day at a time until `remaining`
-- business days are met. `none` means that the fuel ran out.
unfoldable pub walk : (ℤ → ℤ) → ℕ → ℕ → ℤ → Option ℤ
walk step zero zero cursor = some cursor
walk step (suc fuel) zero cursor = some cursor
walk step zero (suc remaining) cursor = none
walk step (suc fuel) (suc remaining) cursor = elim (is_business_day (step cursor)) [
  | true ↦ walk step fuel remaining (step cursor)
  | false ↦ walk step fuel (suc remaining) (step cursor)
]

pub weekday-lt : (at : ℤ) → weekday at < 7
unfolding weekday
weekday-lt at = ground arith

pub weekday-next : (at : ℤ) → weekday (next_day at) ≡ (weekday at + 1) % 7
unfolding weekday ◌+ℤ◌
weekday-next at = ground arith

pub weekday-previous : (at : ℤ) → weekday (previous_day at) ≡ (weekday at + 6) % 7
unfolding weekday ◌-ℤ◌ ◌+ℤ◌
weekday-previous at = ground arith

-- The sample dates of the tests: 2026-01-01 is a Thursday, 1969-12-31 a Wednesday.
weekday_samples : (weekday (pos 1767225600000) ≡ 4) × (weekday (negsuc 0) ≡ 3)
unfolding weekday ◌+ℤ◌
weekday_samples = (refl, refl)
