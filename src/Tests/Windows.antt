-- ===== src/Tests/Windows.antt =====
-- Settlement windows and lineage at sample instants.
use settlement_ops.Base.{some, true, ℕ, ◌≡◌, ◌≤◌}
use settlement_ops.Policy.Calendar.{is_business_day, next_day}
use settlement_ops.Policy.Settlement.{cycle_start, expected_settlement_date}
use settlement_ops.Policy.Settlement.Walks.{business_days, steps}
use settlement_ops.Policy.Settlement.Windows.{expected_settlement_date_lem}
use settlement_ops.Records.Lineage.{LineageInput}
use settlement_ops.Tests.Samples.{monday}

expected_settlement_date_lem_example :
    let start = cycle_start monday in
    let date = expected_settlement_date monday in
    (k : ℕ) × (date ≡ steps next_day k start)
    × (business_days next_day k start ≡ 2)
    × (k ≤ 6)
    × (is_business_day date ≡ true)
expected_settlement_date_lem_example = expected_settlement_date_lem monday

abbrev sample_lineage_input : LineageInput
sample_lineage_input = record {
  source_system = "gateway";
  source_record_id = "p";
  observed_at = some monday;
  ingested_at = some monday;
  schema_version = "1";
}
