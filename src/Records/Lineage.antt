-- ===== src/Records/Lineage.antt =====
-- Source lineage (packages/domain/src/lineage/source-record.ts).
use settlement_ops.Base.{
  Option, Result, String, arith, err, fail_if, ltb_ℤ, none, ok, some, str_eq, str_eq_iff, ℤ, ◌>>=◌,
  ◌>>◌, ◌↔◌, ◌≡◌, ◌≢◌, ◌≤ℤ◌,
}
use settlement_ops.Records.{RecordBase, SourceLineage}
use Prim.Native.String.{◌++◌ as ◌<>◌}

-- A lineage as it arrives: a `Date` may be invalid, and its time is then no number.
pub record LineageInput : Type 0 where
  pub source_system : String
  pub source_record_id : String
  pub observed_at : Option ℤ
  pub ingested_at : Option ℤ
  pub schema_version : String

pub data LineageField : Type 0 where
  source_system_field source_record_id_field schema_version_field : LineageField

pub data TimestampFault : Type 0 where
  observed_invalid ingested_invalid ingested_precedes_observed : TimestampFault

pub data LineageError : Type 0 where
  missing_field : LineageField → LineageError
  impossible_timestamp : TimestampFault → LineageError

valid_time : Option ℤ → TimestampFault → Result LineageError ℤ
valid_time none fault = err (impossible_timestamp fault)
valid_time (some t) fault = ok t

-- `String.prototype.trim` is the runtime's; `trim` stands for it.
module _ (trim : String → String) where
  unfoldable pub build_lineage : LineageInput → Result LineageError SourceLineage
  unfolding valid_time
  build_lineage input = do
    fail_if (str_eq (trim input.source_system) "") (missing_field source_system_field)
    fail_if (str_eq (trim input.source_record_id) "") (missing_field source_record_id_field)
    fail_if (str_eq (trim input.schema_version) "") (missing_field schema_version_field)
    observed ← valid_time input.observed_at observed_invalid
    ingested ← valid_time input.ingested_at ingested_invalid
    fail_if (ltb_ℤ ingested observed) (impossible_timestamp ingested_precedes_observed)
    ok (record {
      source_system = input.source_system;
      source_record_id = input.source_record_id;
      observed_at = observed;
      ingested_at = ingested;
      schema_version = input.schema_version;
    })

  -- A lineage is built exactly when its three texts are not blank and it has two valid times, the
  -- ingestion not before the observation; it then holds what was given.
  pub build_lineage-ok_iff :
      (i : LineageInput) (l : SourceLineage)
      → (build_lineage i ≡ ok l) ↔ (
          (trim i.source_system ≢ "")
          × (trim i.source_record_id ≢ "")
          × (trim i.schema_version ≢ "")
          × (i.observed_at ≡ some l.observed_at)
          × (i.ingested_at ≡ some l.ingested_at)
          × (l.observed_at ≤ℤ l.ingested_at)
          × (l.source_system ≡ i.source_system)
          × (l.source_record_id ≡ i.source_record_id)
          × (l.schema_version ≡ i.schema_version))
  unfolding build_lineage
  build_lineage-ok_iff i l = ground (
    arith,
    str_eq_iff (trim i.source_system) "",
    str_eq_iff (trim i.source_record_id) "",
    str_eq_iff (trim i.schema_version) "",
  )

-- The identity by which a redelivery is recognised.
unfoldable pub duplicate_key : RecordBase → String
duplicate_key r =
    ◌<>◌ r.scope.merchant_id
      (◌<>◌ "::" (◌<>◌ r.lineage.source_system (◌<>◌ "::" r.lineage.source_record_id)))
