-- ===== src/Policy/Settlement/Walks.antt =====
-- The walks over business days end, and where they end.
use settlement_ops.Base.{
  Bool-cases, arith, false, if◌then◌else◌, inl, inr, none, refl, some, suc, sym, true, zero, ℕ, ℤ,
  ◌*◌, ◌+◌, ◌≡◌, ◌≤◌, ◌⊎◌,
}
use settlement_ops.Policy.Calendar.{
  is_business_day, next_day, previous_day, walk, weekday-lt, weekday-next, weekday-previous,
}

-- Where a week stands after a step of either walk.
abbrev pub Cycles : (ℤ → ℤ) → Type 0
Cycles step =
    (at : ℤ)
    → (is_business_day (step at) ≡ true)
      ⊎ (is_business_day (step (step at)) ≡ true)
      ⊎ (is_business_day (step (step (step at))) ≡ true)

pub next_day-Cycles : Cycles next_day
unfolding is_business_day
next_day-Cycles at = ground (
  arith,
  weekday-lt at,
  weekday-next at,
  weekday-next (next_day at),
  weekday-next (next_day (next_day at)),
)

pub previous_day-Cycles : Cycles previous_day
unfolding is_business_day
previous_day-Cycles at = ground (
  arith,
  weekday-lt at,
  weekday-previous at,
  weekday-previous (previous_day at),
  weekday-previous (previous_day (previous_day at)),
)

none-ne-some : {c : ℤ} → none ≡ some c → ⊥
none-ne-some e = cc

some-injective : {a b : ℤ} → some a ≡ some b → a ≡ b
some-injective e = cc

-- The number of business days among the `k` days that follow `at` in the walk's direction.
unfoldable pub business_days : (ℤ → ℤ) → ℕ → ℤ → ℕ
business_days step zero at = 0
business_days step (suc k) at =
    let rest = business_days step k (step at) in
    if is_business_day (step at) then rest + 1 else rest

unfoldable pub steps : (ℤ → ℤ) → ℕ → ℤ → ℤ
steps step zero at = at
steps step (suc k) at = steps step k (step at)

module _ (step : ℤ → ℤ) (fuel n : ℕ) (at : ℤ) where
  walk_open :
      is_business_day (step at) ≡ true
      → walk step (suc fuel) (suc n) at ≡ walk step fuel n (step at)
  unfolding walk
  walk_open h = rw (h, walk)

  walk_closed :
      is_business_day (step at) ≡ false
      → walk step (suc fuel) (suc n) at ≡ walk step fuel (suc n) (step at)
  unfolding walk
  walk_closed h = rw (h, walk)

-- A walk that ends has met exactly the business days that it was to meet, the last step on one.
pub walk_lands :
    (step : ℤ → ℤ) (fuel n : ℕ) (at c : ℤ)
    → walk step fuel n at ≡ some c
    → (k : ℕ) × (c ≡ steps step k at)
      × (business_days step k at ≡ n)
      × (k ≤ fuel)
      × (((n ≡ 0) × (k ≡ 0)) ⊎ (is_business_day c ≡ true))
unfolding walk business_days steps
walk_lands step zero zero at c h = (0, sym (some-injective h), refl, omega arith, inl (refl, refl))
walk_lands step (suc f) zero at c h =
    (0, sym (some-injective h), refl, omega arith, inl (refl, refl))
walk_lands step zero (suc n) at c h = absurd (none-ne-some h)
walk_lands step (suc f) (suc n) at c h = elim (Bool-cases (is_business_day (step at))) [
  | inl open_day ↦
      let (k, at_c, met, small, last) =
        walk_lands step f n (step at) c (rw (walk_open step f n at open_day) at h) in
      let landed : is_business_day c ≡ true = elim last [
        | inl none_left ↦ rw (at_c, none_left.1) open_day
        | inr day ↦ day
      ] in
      (suc k, at_c, rw open_day (omega arith), omega arith, inr landed)
  | inr closed ↦
      let (k, at_c, met, small, last) =
        walk_lands step f (suc n) (step at) c (rw (walk_closed step f n at closed) at h) in
      (suc k, at_c, rw closed met, omega arith, ground arith)
]

module _ (step : ℤ → ℤ) (cycles : Cycles step) where
  walk_done : (fuel : ℕ) (at : ℤ) → walk step fuel zero at ≡ some at
  unfolding walk
  walk_done zero at = refl
  walk_done (suc fuel) at = refl

  -- Three days of fuel for each business day are enough.
  pub walk-ends : (n fuel : ℕ) (at : ℤ) → 3 * n ≤ fuel → (c : ℤ) × (walk step fuel n at ≡ some c)
  walk-ends zero fuel at h = (at, walk_done fuel at)
  walk-ends (suc n) zero at h = absurd (omega arith)
  walk-ends (suc n) (suc zero) at h = absurd (omega arith)
  walk-ends (suc n) (suc (suc zero)) at h = absurd (omega arith)
  walk-ends (suc n) (suc (suc (suc f))) at h = elim (Bool-cases (is_business_day (step at))) [
    | inl day ↦
        rw (walk_open step (suc (suc f)) n at day)
          (walk-ends n (suc (suc f)) (step at) (omega arith))
    | inr off ↦ elim (Bool-cases (is_business_day (step (step at)))) [
      | inl day ↦
          rw (walk_closed step (suc (suc f)) n at off, walk_open step (suc f) n (step at) day)
            (walk-ends n (suc f) (step (step at)) (omega arith))
      | inr off' ↦
          let day : is_business_day (step (step (step at))) ≡ true = ground (arith, cycles at) in
          rw
            (
              walk_closed step (suc (suc f)) n at off,
              walk_closed step (suc f) n (step at) off',
              walk_open step f n (step (step at)) day,
            )
            (walk-ends n f (step (step (step at))) (omega arith))
    ]
  ]
