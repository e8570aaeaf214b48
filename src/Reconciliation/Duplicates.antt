-- ===== src/Reconciliation/Duplicates.antt =====
-- Duplicate detection (packages/domain/src/reconciliation/duplicate-detection.ts).
pub mod Groups
use settlement_ops.Base.{
  Bool, List, Option, String, [], eq_ℤ, false, if◌then◌else◌, keep, leb_ℤ, length, ltb, map, none,
  pos, some, str_eq, true, ℕ, ℤ, ◌&&◌, ◌*◌, ◌++◌, ◌-ℤ◌, ◌∷◌,
}
use settlement_ops.Policy.Tolerances.{near_duplicate_window_seconds}
use settlement_ops.Records.{FinancialRecord, base_of, of_payment, of_refund}
use settlement_ops.Records.Lineage.{duplicate_key}

pub data NearKind : Type 0 where
  near_refund near_payment : NearKind

abbrev near_kind_eq : NearKind → NearKind → Bool
near_kind_eq near_refund near_refund = true
near_kind_eq near_payment near_payment = true
near_kind_eq _ _ = false

-- The text `KIND::payment::amount` of `nearKey`, by its parts: the kind is one of two words and the
-- amount is printed last and has no colon, so equal texts have equal parts.
pub record NearKey : Type 0 where
  pub kind : NearKind
  pub payment_id : String
  pub amount_minor : ℤ

unfoldable pub near_key_eq : NearKey → NearKey → Bool
near_key_eq a b =
    near_kind_eq a.kind b.kind
    && (str_eq a.payment_id b.payment_id && eq_ℤ a.amount_minor b.amount_minor)

pub data GroupKey : Type 0 where
  exact_source_id : String → GroupKey
  near_duplicate : NearKey → GroupKey

-- `key` and `detection` of the source's group: the constructor is the detection.
pub record DuplicateGroup : Type 0 where
  pub key : GroupKey
  pub ids : List String

-- A `Map` from keys to lists, in the order in which the keys were first set.
module _ {K V : Type 0} (eq : K → K → Bool) where
  unfoldable pub push_to : K → V → List (K × List V) → List (K × List V)
  push_to k v [] = (k, v ∷ []) ∷ []
  push_to k v ((j, vs) ∷ m) = if eq j k then (j, vs ++ (v ∷ [])) ∷ m else (j, vs) ∷ push_to k v m

  -- The loop that files each value under its key, if it has one.
  unfoldable pub group_from : (V → Option K) → List (K × List V) → List V → List (K × List V)
  unfolding push_to
  group_from key m [] = m
  group_from key m (v ∷ vs) = group_from key (elim (key v) [ none ↦ m | some k ↦ push_to k v m ]) vs

unfoldable pub find_exact_duplicates : List FinancialRecord → List DuplicateGroup
unfolding group_from duplicate_key
find_exact_duplicates records =
    map (λ e. record { key = exact_source_id e.0; ids = map (λ r. (base_of r).id) e.1 })
      (keep (λ e. ltb 1 (length e.1))
        (group_from str_eq (λ r. some (duplicate_key (base_of r))) [] records))

unfoldable pub near_key : FinancialRecord → Option NearKey
near_key (of_refund r) =
    some (record {
      kind = near_refund;
      payment_id = r.payment_id;
      amount_minor = r.amount.amount_minor;
    })
near_key (of_payment r) = some (record {
  kind = near_payment;
  payment_id = r.payment_id;
  amount_minor = r.amount.amount_minor;
})
near_key _ = none

abbrev pub observed : FinancialRecord → ℤ
observed r = (base_of r).lineage.observed_at

-- The stable sort by the time of observation.
unfoldable pub insert_by_time : FinancialRecord → List FinancialRecord → List FinancialRecord
insert_by_time r [] = r ∷ []
insert_by_time r (x ∷ xs) =
    if leb_ℤ (observed r) (observed x) then r ∷ x ∷ xs else x ∷ insert_by_time r xs

unfoldable pub sort_by_time : List FinancialRecord → List FinancialRecord
unfolding insert_by_time
sort_by_time [] = []
sort_by_time (x ∷ xs) = insert_by_time x (sort_by_time xs)

abbrev pub near_window_ms : ℕ
near_window_ms = near_duplicate_window_seconds * 1000

-- The loop over the sorted candidates: the first is the anchor, and a later one joins while it is
-- within the window of the anchor.
unfoldable pub cluster_from : ℤ → List FinancialRecord → List String
cluster_from anchor [] = []
cluster_from anchor (r ∷ rest) =
    let later = cluster_from anchor rest in
    if leb_ℤ (observed r -ℤ anchor) (pos near_window_ms) then (base_of r).id ∷ later else later

unfoldable pub cluster : List FinancialRecord → List String
unfolding cluster_from
cluster [] = []
cluster (r ∷ rest) = (base_of r).id ∷ cluster_from (observed r) rest

near_groups : List (NearKey × List FinancialRecord) → List DuplicateGroup
unfolding cluster sort_by_time
near_groups [] = []
near_groups ((key, candidates) ∷ m) =
    let rest = near_groups m in
    let ids = cluster (sort_by_time candidates) in
    if ltb (length candidates) 2
    then rest
    else if ltb 1 (length ids)
    then record { key = near_duplicate key; ids = ids } ∷ rest
    else rest

unfoldable pub find_near_duplicates : List FinancialRecord → List DuplicateGroup
unfolding near_groups group_from near_key near_key_eq
find_near_duplicates records = near_groups (group_from near_key_eq near_key [] records)

unfoldable pub detect_duplicates : List FinancialRecord → List DuplicateGroup
unfolding find_exact_duplicates find_near_duplicates
detect_duplicates records = find_exact_duplicates records ++ find_near_duplicates records
