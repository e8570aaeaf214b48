-- ===== src/Verifier/Variance.antt =====
-- The verifier's variance is the matcher's discrepancy.
use settlement_ops.Base.{
  List, Result-cases, [], ap₂, arith, err, inl, inr, int_laws, magnitude, map, none, ok, pos, some,
  sym, ℤ, ◌+ℤ◌, ◌-ℤ◌, ◌∙◌, ◌∷◌, ◌≡◌, ◌≤◌,
}
use settlement_ops.Money.{Money}
use settlement_ops.Money.Laws.{amounts, total}
use settlement_ops.Reconciliation.ExpectedNet.{ExpectedNetError, expected_net_from_records}
use settlement_ops.Reconciliation.ExpectedNet.Laws.{expected_net_sound, net_spec}
use settlement_ops.Reconciliation.Unit.{ReconciliationUnit, reconciled}
use settlement_ops.Reconciliation.Checks.{payment_lines}
use settlement_ops.Reconciliation.Matcher.{observed_input, reconcile_unit}
use settlement_ops.Verifier.Support.{settled_minor, sum_minor, variance}
use settlement_ops.Reconciliation.Matcher.Soundness.{
  reconciled-IsSubstantiated, reconciled-breakdown,
}
use settlement_ops.Money.Breakdown.{AmountBreakdown}

sum_minor-eq : (acc : ℤ) (ms : List Money) → sum_minor acc ms ≡ acc +ℤ total (amounts ms)
unfolding sum_minor
sum_minor-eq acc [] = omega int_laws
sum_minor-eq acc (m ∷ ms) = rw (sum_minor-eq (acc +ℤ m.amount_minor) ms) (omega int_laws)

zero_add_ℤ : (x : ℤ) → pos 0 +ℤ x ≡ x
zero_add_ℤ x = omega int_laws

variance_of_ok :
    (unit : ReconciliationUnit) (b : AmountBreakdown)
    → expected_net_from_records (observed_input unit) ≡ ok b
    → variance unit ≡ some (b.expected_net_minor -ℤ settled_minor unit)
unfolding variance
variance_of_ok unit b h = rw (h, variance)

variance_of_err :
    (unit : ReconciliationUnit) (e : ExpectedNetError)
    → expected_net_from_records (observed_input unit) ≡ err e
    → variance unit ≡ none
unfolding variance
variance_of_err unit e h = rw (h, variance)

settled_minor-eq :
    (unit : ReconciliationUnit)
    → settled_minor unit ≡ total (amounts (map (λ l. l.amount) (payment_lines unit)))
unfolding settled_minor
settled_minor-eq unit =
    sum_minor-eq (pos 0) (map (λ l. l.amount) (payment_lines unit)) ∙ zero_add_ℤ _

some-injective : (a b : ℤ) → some a ≡ some b → a ≡ b
some-injective a b e = cc

none-ne-some : (a : ℤ) → none ≡ some a → ⊥
none-ne-some a e = cc

-- A variance that is computed is the expected net of the sign convention less the total of the
-- payment's settlement lines.
pub variance-eq :
    (unit : ReconciliationUnit) (d : ℤ)
    → variance unit ≡ some d
    → d
      ≡ net_spec (observed_input unit) -ℤ total (amounts (map (λ l. l.amount) (payment_lines unit)))
variance-eq unit d h = elim (Result-cases (expected_net_from_records (observed_input unit))) [
  | inl (b, found) ↦
      some-injective _ _ (sym h ∙ variance_of_ok unit b found)
      ∙ ap₂ (λ x y. x -ℤ y) (expected_net_sound (observed_input unit) b found).3
          (settled_minor-eq unit)
  | inr (e, no_net) ↦ absurd (none-ne-some d (sym (variance_of_err unit e no_net) ∙ h))
]

-- The matcher and the verifier agree: a unit that the matcher reconciles has a variance, and it is
-- one that rounding may explain.
pub reconciled-variance :
    (unit : ReconciliationUnit)
    → (reconcile_unit unit).outcome ≡ reconciled
    → (d : ℤ) × (variance unit ≡ some d) × (magnitude d ≤ 100)
reconciled-variance unit h =
    let (b, found) = reconciled-breakdown unit h in
    let d = b.expected_net_minor -ℤ settled_minor unit in
    let some_d : variance unit ≡ some d = variance_of_ok unit b found in
    let bound = (reconciled-IsSubstantiated unit h).conserves in
    (d, some_d, rw (variance-eq unit d some_d) (omega (arith, bound)))
