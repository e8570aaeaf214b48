-- ===== src/Workflow/Investigation/Table.antt =====
-- The table of investigations keeps one active run for each case.
use settlement_ops.Base.{
  Bool, Bool-cases, List, Option, String, [], any, ap, arith, false, inl, inr, keep, keep-nil_iff,
  length, refl, str_eq, str_eq_iff, subst, suc, true, ℤ, ◌&&◌, ◌∷◌, ◌≡◌, ◌≤◌,
}
use settlement_ops.Workflow.Investigation.{
  InvestigationRow, RunInput, RunStatus, finish_run_row, finished, is_active, is_running, new_run,
  start_run,
}

-- No case has two running investigations.
pub record IsSingle (runs : List InvestigationRow) : Type 0 where
  pub single : (case_id : String) → length (keep (is_active case_id) runs) ≤ 1

none_kept :
    (case_id : String) (runs : List InvestigationRow)
    → any (is_active case_id) runs ≡ false
    → length (keep (is_active case_id) runs) ≡ 0
none_kept case_id runs h = ap length ((keep-nil_iff (is_active case_id) runs).1 h)

other_case :
    (case_id other : String) (row : InvestigationRow)
    → row.case_id ≡ case_id
    → str_eq case_id other ≡ false
    → is_active other row ≡ false
other_case case_id other row at apart = rw (at, apart) refl

length-keep-cons :
    (p : InvestigationRow → Bool) (row : InvestigationRow) (runs : List InvestigationRow)
    → length (keep p (row ∷ runs)) ≤ suc (length (keep p runs))
unfolding keep
length-keep-cons p row runs = ground arith

length-keep-skip :
    (p : InvestigationRow → Bool) (row : InvestigationRow) (runs : List InvestigationRow)
    → p row ≡ false
    → length (keep p (row ∷ runs)) ≡ length (keep p runs)
unfolding keep
length-keep-skip p row runs h = rw h refl

add-IsSingle :
    (row : InvestigationRow) (runs : List InvestigationRow)
    → any (is_active row.case_id) runs ≡ false
    → IsSingle runs
    → IsSingle (row ∷ runs)
add-IsSingle row runs none_active h = record {
  single = λ other. elim (Bool-cases (str_eq row.case_id other)) [
    | inl same ↦
        let at : row.case_id ≡ other = (str_eq_iff row.case_id other).0 same in
        let empty : length (keep (is_active other) runs) ≡ 0 =
          none_kept other runs (subst (λ c. any (is_active c) runs ≡ false) at none_active) in
        omega (arith, empty, length-keep-cons (is_active other) row runs)
    | inr apart ↦ omega (
      arith,
      length-keep-skip (is_active other) row runs (other_case row.case_id other row refl apart),
      h.single other,
    )
  ];
}

-- `start` keeps the table single, whoever starts a run of what case.
pub start_run-IsSingle :
    (merchant : String) (input : RunInput) (runs : List InvestigationRow)
    → IsSingle runs
    → IsSingle (start_run merchant input runs).0
unfolding start_run
start_run-IsSingle merchant input runs h = elim (Bool-cases (any (is_active input.case_id) runs)) [
  | inl active ↦ rw (active, start_run) h
  | inr free ↦ rw (free, start_run) (add-IsSingle (new_run merchant input) runs free h)
]

finished_less :
    (now : ℤ) (merchant id : String) (status : RunStatus) (code : Option String) (case_id : String)
    (row : InvestigationRow)
    → is_running status ≡ false
    → is_active case_id row ≡ false
    → is_active case_id (finished now merchant id status code row) ≡ false
finished_less now merchant id status code case_id row h inactive =
    elim (Bool-cases (str_eq row.id id && str_eq row.merchant_id merchant)) [
      | inl hit ↦ rw hit (right_false (str_eq row.case_id case_id) h)
      | inr miss ↦ rw miss inactive
    ]
  where
    right_false : (a : Bool) {b : Bool} → b ≡ false → (a && b) ≡ false
    right_false a e = ground arith

length-keep-finished :
    (now : ℤ) (merchant id : String) (status : RunStatus) (code : Option String) (case_id : String)
    (runs : List InvestigationRow)
    → is_running status ≡ false
    → length (keep (is_active case_id) (finish_run_row now merchant id status code runs))
      ≤ length (keep (is_active case_id) runs)
unfolding keep finish_run_row
length-keep-finished now merchant id status code case_id [] h = omega arith
length-keep-finished now merchant id status code case_id (row ∷ runs) h =
    elim (Bool-cases (is_active case_id row)) [
      | inl active ↦ omega (
        arith,
        length-keep-cons (is_active case_id) (finished now merchant id status code row)
            (finish_run_row now merchant id status code runs),
        length-keep-finished now merchant id status code case_id runs h,
        kept active,
      )
      | inr inactive ↦ omega (
        arith,
        length-keep-skip (is_active case_id) (finished now merchant id status code row)
            (finish_run_row now merchant id status code runs)
            (finished_less now merchant id status code case_id row h inactive),
        length-keep-skip (is_active case_id) row runs inactive,
        length-keep-finished now merchant id status code case_id runs h,
      )
    ]
  where
    kept :
        is_active case_id row ≡ true
        → length (keep (is_active case_id) (row ∷ runs))
          ≡ suc (length (keep (is_active case_id) runs))
    kept active = rw (active, keep) refl

-- `finish` keeps the table single, since it never sets a run to RUNNING.
pub finish_run_row-IsSingle :
    (now : ℤ) (merchant id : String) (status : RunStatus) (code : Option String)
    (runs : List InvestigationRow)
    → is_running status ≡ false
    → IsSingle runs
    → IsSingle (finish_run_row now merchant id status code runs)
finish_run_row-IsSingle now merchant id status code runs h s = record {
  single = λ case_id.
      omega
        (arith, length-keep-finished now merchant id status code case_id runs h, s.single case_id);
}
