-- ===== src/Tests/Amounts.antt =====
-- Money, rates and tolerances at sample amounts.
use settlement_ops.Base.{
  List, [], any, includes, negsuc, none, ok, pos, refl, some, ◌+ℤ◌, ◌-ℤ◌, ◌∷◌, ◌≡◌,
}
use settlement_ops.Money.{Money, is_currency}
use settlement_ops.Money.Breakdown.{AmountBreakdown, build_breakdown}
use settlement_ops.Money.Codec.{MoneyDto, decode_money, encode-decode, encode_money, integer}
use settlement_ops.Policy.FeeSchedule.{fee_schedules, schedule_from, schedule_v2}
use settlement_ops.Tests.Samples.{rupees, sample_breakdown_input}

abbrev three : List Money
three = rupees (pos 700) ∷ rupees (negsuc 199) ∷ rupees (pos 1) ∷ []

abbrev sample_breakdown : AmountBreakdown
sample_breakdown = record {
  gross_minor = pos 1000000;
  fee_minor = pos 25000;
  tax_minor = pos 4500;
  refund_minor = pos 0;
  adjustment_minor = negsuc 499;
  expected_net_minor = pos 970000;
  currency = "INR";
}

sample_built : build_breakdown sample_breakdown_input ≡ ok sample_breakdown
unfolding build_breakdown ◌+ℤ◌ ◌-ℤ◌
sample_built = refl

abbrev sample_dto : MoneyDto
sample_dto = record { dto_amount = integer (negsuc 41); dto_currency = "INR" }

sample_encoded : encode_money (rupees (negsuc 41)) ≡ ok sample_dto
unfolding encode_money
sample_encoded = refl

sample_decoded : decode_money sample_dto ≡ ok (rupees (negsuc 41))
unfolding decode_money is_currency any includes
sample_decoded = refl

encode-decode_example : encode_money (rupees (negsuc 41)) ≡ ok sample_dto
encode-decode_example = encode-decode sample_dto (rupees (negsuc 41)) sample_decoded

second_in_force : schedule_from (pos 1775001600000) none fee_schedules ≡ some schedule_v2
unfolding schedule_from
second_in_force = refl
