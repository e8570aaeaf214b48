-- ===== src/Policy/Rounding.antt =====
-- Integer rounding, half away from zero (packages/domain/src/policy/rounding.ts).
use settlement_ops.Base.{
  *ℤ_pos, Option, arith, eq_ℤ, eq_ℤ_iff, if◌then◌else◌, leb, ltb_ℤ, magnitude, neg, none, pos, some,
  ℕ, ℤ, ◌%◌, ◌*ℤ◌, ◌*◌, ◌+◌, ◌/◌, ◌<◌, ◌↔◌, ◌≡◌, ◌≤ℤ◌, ◌≤◌,
}

-- `remainder * 2n >= absDenominator ? quotient + 1n : quotient` on magnitudes.
unfoldable pub round_half_up : ℕ → ℕ → ℕ
round_half_up m d = let q = m / d in if leb d (m % d * 2) then q + 1 else q

-- `none` stands for the error that a zero denominator throws.
unfoldable pub mul_div_half_up : ℤ → ℤ → ℤ → Option ℤ
mul_div_half_up amount numerator denominator =
    if eq_ℤ denominator (pos 0)
    then none
    else (let product = amount *ℤ numerator in
        let rounded = round_half_up (magnitude product) (magnitude denominator) in
        some (if ltb_ℤ product (pos 0) then neg (pos rounded) else pos rounded))

abbrev pub bps_denominator : ℕ
bps_denominator = 10000

-- The denominator is a constant that is not zero, so the call never throws and its result is
-- taken from the `some`; `applyBasisPoints` in the source.
unfoldable pub apply_basis_points : ℤ → ℕ → ℤ
apply_basis_points amount_minor bps =
    elim (mul_div_half_up amount_minor (pos bps) (pos bps_denominator)) [
      | some r ↦ r
      | none ↦ pos 0
    ]

-- The error of rounding is at most half a divisor, on either side, and a half goes up.
pub round_half_up_bounds :
    (m d : ℕ)
    → 0 < d
    → (round_half_up m d * d * 2 ≤ m * 2 + d) × (m * 2 < round_half_up m d * d * 2 + d)
unfolding round_half_up
round_half_up_bounds m d h = grind arith

-- The rounded quotient is the integer part of m / d + 1/2.
pub round_half_up-eq : (m d : ℕ) → 0 < d → round_half_up m d ≡ (m * 2 + d) / (d * 2)
unfolding round_half_up
round_half_up-eq m d h = grind (arith, round_half_up_bounds m d h)

pub round_half_up_mono : (m k d : ℕ) → 0 < d → m ≤ k → round_half_up m d ≤ round_half_up k d
round_half_up_mono m k d h le =
    grind (arith, round_half_up_bounds m d h, round_half_up_bounds k d h)

-- Throwing is for a zero denominator only.
pub mul_div_half_up-none_iff : (a n d : ℤ) → (mul_div_half_up a n d ≡ none) ↔ (d ≡ pos 0)
unfolding mul_div_half_up
mul_div_half_up-none_iff a n d = ground (arith, eq_ℤ_iff d (pos 0))

product_magnitude : (a : ℤ) (b : ℕ) → magnitude (a *ℤ pos b) ≡ magnitude a * b
unfolding ◌*ℤ◌
product_magnitude a b = ground arith

-- A rate keeps the sign and rounds the magnitude.
pub magnitude-apply_basis_points :
    (a : ℤ) (b : ℕ)
    → magnitude (apply_basis_points a b) ≡ round_half_up (magnitude a * b) bps_denominator
unfolding apply_basis_points mul_div_half_up neg
magnitude-apply_basis_points a b = rw (product_magnitude a b) (ground arith)

pub apply_basis_points-pos :
    (a b : ℕ) → apply_basis_points (pos a) b ≡ pos (round_half_up (a * b) bps_denominator)
unfolding apply_basis_points mul_div_half_up
apply_basis_points-pos a b = rw (*ℤ_pos a b) (ground arith)

round_half_up-le : (a b : ℕ) → b ≤ 10000 → round_half_up (a * b) 10000 ≤ a
round_half_up-le a b h = grind (arith, round_half_up_bounds (a * b) 10000 (omega arith))

-- For an amount that is not negative a rate is not negative, grows with the amount, is at most the
-- amount while the rate is at most 100 %, and lies within half a minor unit of the exact value.
pub apply_basis_points_bounds :
    (a k b : ℕ)
    → a ≤ k
    → b ≤ 10000
    → let r = apply_basis_points (pos a) b in
      (pos 0 ≤ℤ r)
      × (r ≤ℤ apply_basis_points (pos k) b)
      × (r ≤ℤ pos a)
      × (magnitude r * 20000 ≤ a * b * 2 + 10000)
      × (a * b * 2 < magnitude r * 20000 + 10000)
apply_basis_points_bounds a k b ak hb = rw (apply_basis_points-pos a b) (
    rw (apply_basis_points-pos k b) (
      grind (
        arith,
        round_half_up_bounds (a * b) 10000 (omega arith),
        round_half_up-le a b hb,
        round_half_up_mono (a * b) (k * b) 10000 (omega arith),
      )))
