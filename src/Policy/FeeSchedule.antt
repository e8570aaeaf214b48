-- ===== src/Policy/FeeSchedule.antt =====
-- The effective-dated fee schedules (packages/domain/src/policy/fee-schedule.ts).
use settlement_ops.Base.{
  All, Bool-cases, List, Option, String, [], arith, first, if◌then◌else◌, inl, inr, leb_ℤ, ltb_ℤ,
  none, pos, some, str_eq, ℕ, ℤ, ◌&&◌, ◌∷◌, ◌≡◌, ◌≤ℤ◌,
}

pub data PaymentMethod : Type 0 where
  card netbanking upi wallet : PaymentMethod

pub record FeeScheduleVersion : Type 0 where
  pub id : String
  pub effective_from : ℤ
  pub fee_rate_bps : PaymentMethod → ℕ
  pub tax_on_fee_bps : ℕ

abbrev pub gst_bps : ℕ
gst_bps = 1800

abbrev pub rates : ℕ → PaymentMethod → ℕ
rates card_bps card = card_bps
rates card_bps netbanking = 190
rates card_bps upi = 0
rates card_bps wallet = 200

-- 2026-01-01T00:00:00Z
abbrev pub schedule_v1 : FeeScheduleVersion
schedule_v1 = record {
  id = "fee-schedule-v1";
  effective_from = pos 1767225600000;
  fee_rate_bps = rates 250;
  tax_on_fee_bps = gst_bps;
}

-- 2026-04-01T00:00:00Z
abbrev pub schedule_v2 : FeeScheduleVersion
schedule_v2 = record {
  id = "fee-schedule-v2";
  effective_from = pos 1775001600000;
  fee_rate_bps = rates 230;
  tax_on_fee_bps = gst_bps;
}

abbrev pub fee_schedules : List FeeScheduleVersion
fee_schedules = schedule_v1 ∷ schedule_v2 ∷ []

-- The body of the loop: the schedule replaces what is selected if it is in force and later.
select_schedule : ℤ → Option FeeScheduleVersion → FeeScheduleVersion → Option FeeScheduleVersion
select_schedule at none schedule = if leb_ℤ schedule.effective_from at then some schedule else none
select_schedule at (some selected) schedule =
    if leb_ℤ schedule.effective_from at && ltb_ℤ selected.effective_from schedule.effective_from
    then some schedule
    else some selected

unfoldable pub schedule_from :
    ℤ → Option FeeScheduleVersion → List FeeScheduleVersion → Option FeeScheduleVersion
unfolding select_schedule
schedule_from at selected [] = selected
schedule_from at selected (s ∷ rest) = schedule_from at (select_schedule at selected s) rest

unfoldable pub schedule_at : ℤ → Option FeeScheduleVersion
unfolding schedule_from
schedule_at at = schedule_from at none fee_schedules

unfoldable pub schedule_by_id : String → Option FeeScheduleVersion
schedule_by_id id = first (λ s. str_eq s.id id) fee_schedules

-- What the loop may return: nothing while no schedule is in force, else one of the list that is in
-- force and that no other schedule in force follows.
abbrev pub InForce : ℤ → FeeScheduleVersion → Type 0
InForce at s = s.effective_from ≤ℤ at

abbrev pub IsLatest : ℤ → List FeeScheduleVersion → FeeScheduleVersion → Type 0
IsLatest at l s = InForce at s × All (λ t. InForce at t → t.effective_from ≤ℤ s.effective_from) l

none-ne-some : {s : FeeScheduleVersion} → none ≡ some s → ⊥
none-ne-some e = cc

schedule_from-keeps :
    (at : ℤ) (seen : FeeScheduleVersion) (l : List FeeScheduleVersion) (s : FeeScheduleVersion)
    → InForce at seen
    → schedule_from at (some seen) l ≡ some s
    → (seen.effective_from ≤ℤ s.effective_from) × IsLatest at l s
unfolding schedule_from
schedule_from-keeps at seen [] s h e =
    let same_start : seen.effective_from ≡ s.effective_from = cc in
    rw (← same_start) (omega arith, (h, tt))
schedule_from-keeps at seen (t ∷ l) s h e =
    elim (Bool-cases (leb_ℤ t.effective_from at && ltb_ℤ seen.effective_from t.effective_from)) [
      | inl later ↦
          let (t_le, (s_in, rest)) = schedule_from-keeps at t l s (ground arith) (rw later at e) in
          (ground arith, (s_in, ((λ _. t_le), rest)))
      | inr not_later ↦
          let (seen_le, (s_in, rest)) = schedule_from-keeps at seen l s h (rw not_later at e) in
          (seen_le, (s_in, ((λ t_in. ground arith), rest)))
    ]

-- What the selection loop returns over any list of schedules is in force, and no schedule in force
-- takes effect after it.
pub schedule_from-IsLatest :
    (at : ℤ) (l : List FeeScheduleVersion) (s : FeeScheduleVersion)
    → schedule_from at none l ≡ some s
    → IsLatest at l s
unfolding schedule_from
schedule_from-IsLatest at [] s e = absurd (none-ne-some e)
schedule_from-IsLatest at (t ∷ l) s e = elim (Bool-cases (leb_ℤ t.effective_from at)) [
  | inl in_force ↦
      let (t_le, (s_in, rest)) = schedule_from-keeps at t l s (ground arith) (rw in_force at e) in
      (s_in, ((λ _. t_le), rest))
  | inr not_yet ↦
      let (s_in, rest) = schedule_from-IsLatest at l s (rw not_yet at e) in
      (s_in, ((λ t_in. absurd (ground arith)), rest))
]

-- The rate in force at an instant, by the two boundaries.
pub schedule_at_cases :
    (at : ℤ)
    → schedule_at at ≡ (
        if ltb_ℤ at (pos 1767225600000)
        then none
        else if ltb_ℤ at (pos 1775001600000)
        then some schedule_v1
        else some schedule_v2)
unfolding schedule_at
schedule_at_cases at = ground arith
