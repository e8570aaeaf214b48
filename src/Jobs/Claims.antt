-- ===== src/Jobs/Claims.antt =====
-- Which job a worker is given.
use settlement_ops.Base.{
  All, All-map-of, Bool, Bool-cases, List, Memᴰ, Option, Option-cases, String, [], and-eq-true, any,
  any-false-All, ap, arith, false, inl, inr, leb, leb→le, ltb, map, none, refl, some, str_eq,
  str_eq_iff, subst, sym, true, true-ne-false, ℕ, ◌&&◌, ◌+◌, ◌∙◌, ◌∷◌, ◌≡◌, ◌≤◌,
}
use settlement_ops.Jobs.{
  Job, JobRow, JobStatus, at_id, claim_job, claimed, earlier, has_job_id, is_claimable, is_pending,
  job_abandoned, job_claimed, job_failed, job_pending, job_succeeded, oldest,
}
use settlement_ops.Jobs.Rows.{oldest-any, oldest-cases}

-- A row that a worker may be given.
pub record Waits (now : ℕ) (job_types : List String) (locked : String → Bool) (row : JobRow)
    : Type 0 where
  pub pending : row.status ≡ job_pending
  pub wanted : any (str_eq row.job_type) job_types ≡ true
  pub available : row.available_at ≤ now
  pub unlocked : locked row.id ≡ false

-- The job of a row, with one attempt more.
pub record IsJobOf (row : JobRow) (job : Job) : Type 0 where
  pub same_id : job.id ≡ row.id
  pub same_merchant : job.merchant_id ≡ row.merchant_id
  pub same_type : job.job_type ≡ row.job_type
  pub same_payload : job.payload ≡ row.payload
  pub same_correlation : job.correlation_id ≡ row.correlation_id
  pub counted : job.attempts ≡ row.attempts + 1

-- The answer to a claim: nothing where no row waits, else the job of a row of the table that waits
-- and that no row that waits is older than.
abbrev pub IsGiven : ℕ → List String → (String → Bool) → List JobRow → Option Job → Type 0
IsGiven now job_types locked rows none = All (λ r. ¬ Waits now job_types locked r) rows
IsGiven now job_types locked rows (some job) =
    (row : JobRow) × Memᴰ row rows
    × IsJobOf row job
    × Waits now job_types locked row
    × All (λ r. Waits now job_types locked r → row.created_at ≤ r.created_at) rows

is_pending-eq : (status : JobStatus) → is_pending status ≡ true → status ≡ job_pending
is_pending-eq job_pending h = refl
is_pending-eq job_claimed h = absurd (true-ne-false (sym h))
is_pending-eq job_succeeded h = absurd (true-ne-false (sym h))
is_pending-eq job_failed h = absurd (true-ne-false (sym h))
is_pending-eq job_abandoned h = absurd (true-ne-false (sym h))

claimable-Waits :
    (now : ℕ) (job_types : List String) (locked : String → Bool) (row : JobRow)
    → is_claimable now job_types locked row ≡ true
    → Waits now job_types locked row
claimable-Waits now job_types locked row h =
    let (pending, rest) = and-eq-true (is_pending row.status) _ h in
    let (wanted, last) = and-eq-true (any (str_eq row.job_type) job_types) _ rest in
    let (available, free) = and-eq-true (leb row.available_at now) _ last in
    record {
      pending = is_pending-eq row.status pending;
      wanted = wanted;
      available = leb→le row.available_at now available;
      unlocked = ground arith;
    }

Waits-claimable :
    (now : ℕ) (job_types : List String) (locked : String → Bool) (row : JobRow)
    → Waits now job_types locked row
    → is_claimable now job_types locked row ≡ true
Waits-claimable now job_types locked row h =
    let available = h.available in rw (ap is_pending h.pending, h.wanted, h.unlocked) (ground arith)

oldest-none : (p : JobRow → Bool) (rows : List JobRow) → oldest p rows ≡ none → any p rows ≡ false
unfolding oldest any
oldest-none p [] h = refl
oldest-none p (row ∷ rows) h = elim (Bool-cases (p row)) [
  | inl hit ↦ absurd (some-ne-none (rw (hit, oldest) at h))
  | inr miss ↦ rw miss (oldest-none p rows (rw (miss, oldest) at h))
]
  where
    some-ne-none : {r : JobRow} → some r ≡ none → ⊥
    some-ne-none e = cc

oldest-holds :
    (p : JobRow → Bool) (rows : List JobRow) (out : JobRow)
    → oldest p rows ≡ some out
    → p out ≡ true
unfolding oldest
oldest-holds p [] out h = cc
oldest-holds p (row ∷ rows) out h = elim (oldest-cases p row rows out h) [
  | inl (hit, same) ↦ subst (λ r. p r ≡ true) same hit
  | inr rest ↦ oldest-holds p rows out rest
]

oldest-Mem :
    (p : JobRow → Bool) (rows : List JobRow) (out : JobRow)
    → oldest p rows ≡ some out
    → Memᴰ out rows
unfolding oldest
oldest-Mem p [] out h = cc
oldest-Mem p (row ∷ rows) out h = elim (oldest-cases p row rows out h) [
  | inl (hit, same) ↦ subst (λ r. Memᴰ r (row ∷ rows)) same (Memᴰ.head refl)
  | inr rest ↦ Memᴰ.tail (oldest-Mem p rows out rest)
]

none_first :
    (p : JobRow → Bool) (at : ℕ) (rows : List JobRow)
    → any p rows ≡ false
    → All (λ r. p r ≡ true → at ≤ r.created_at) rows
unfolding any
none_first p at [] h = tt
none_first p at (row ∷ rows) h =
    ((λ e. absurd (true-ne-false (ground arith))), none_first p at rows (ground arith))

All-later :
    (p : JobRow → Bool) (at before : ℕ) (rows : List JobRow)
    → before ≤ at
    → All (λ r. p r ≡ true → at ≤ r.created_at) rows
    → All (λ r. p r ≡ true → before ≤ r.created_at) rows
All-later p at before [] h all = tt
All-later p at before (row ∷ rows) h all =
    ((λ e. omega (arith, h, all.0 e)), All-later p at before rows h all.1)

oldest-first :
    (p : JobRow → Bool) (rows : List JobRow) (out : JobRow)
    → oldest p rows ≡ some out
    → All (λ r. p r ≡ true → out.created_at ≤ r.created_at) rows
unfolding oldest
oldest-first p [] out h = tt
oldest-first p (row ∷ rows) out h = elim (Bool-cases (p row)) [
  | inr miss ↦ (
    (λ e. absurd (true-ne-false (sym e ∙ miss))),
    oldest-first p rows out (rw (miss, oldest) at h),
  )
  | inl hit ↦ from (λ o k. oldest-first p rows o k) (oldest p rows) refl (rw (hit, oldest) at h)
]
  where
    some-injective : {a b : JobRow} → some a ≡ some b → a ≡ b
    some-injective e = cc

    from :
        ((o : JobRow)
          → oldest p rows ≡ some o
          → All (λ r. p r ≡ true → o.created_at ≤ r.created_at) rows)
        → (rest : Option JobRow) → oldest p rows ≡ rest
        → some (earlier row rest) ≡ some out
        → All (λ r. p r ≡ true → out.created_at ≤ r.created_at) (row ∷ rows)
    from again none at e =
        let same = ap (λ r. r.created_at) (some-injective e) in
        ((λ h. omega (arith, same)), none_first p out.created_at rows (oldest-none p rows at))
    from again (some other) at e = elim (Bool-cases (ltb other.created_at row.created_at)) [
      | inl before ↦
          let same = ap (λ r. r.created_at) (some-injective (rw before at e)) in
          ((λ h. ground arith), again out (at ∙ (rw before at e)))
      | inr later ↦
          let same = ap (λ r. r.created_at) (some-injective (rw later at e)) in
          (
            (λ h. omega (arith, same)),
            All-later p other.created_at out.created_at rows (ground arith) (again other at),
          )
    ]

-- A worker is given a job of the table that waits, is of a type it asked for, is available and is
-- locked by no other, with one attempt more, and no such job is older. It is given nothing only where
-- there is no such job.
pub claim_job-IsGiven :
    (now : ℕ) (job_types : List String) (locked : String → Bool) (rows : List JobRow)
    → IsGiven now job_types locked rows (claim_job now job_types locked rows).1
unfolding claim_job
claim_job-IsGiven now job_types locked rows =
    let p = is_claimable now job_types locked in
    elim (Option-cases (oldest p rows)) [
      | inl empty ↦
          rw (empty, claim_job)
            (All-map-of (λ r. p r ≡ false) (λ r. ¬ Waits now job_types locked r)
              (λ r not_p waits.
                true-ne-false (sym (Waits-claimable now job_types locked r waits) ∙ not_p))
              rows (any-false-All p rows (oldest-none p rows empty)))
      | inr (row, found) ↦
          rw (found, claim_job)
            (
              row,
              oldest-Mem p rows row found,
              record {
                same_id = refl;
                same_merchant = refl;
                same_type = refl;
                same_payload = refl;
                same_correlation = refl;
                counted = refl;
              },
              claimable-Waits now job_types locked row (oldest-holds p rows row found),
              All-map-of (λ r. p r ≡ true → row.created_at ≤ r.created_at)
                  (λ r. Waits now job_types locked r → row.created_at ≤ r.created_at)
                  (λ r before waits. before (Waits-claimable now job_types locked r waits)) rows
                  (oldest-first p rows row found),
            )
    ]

none_waits :
    (now : ℕ) (id : String) (rows : List JobRow)
    → any (λ r. has_job_id id r && is_pending r.status) (map (at_id id (claimed now)) rows) ≡ false
unfolding any
none_waits now id [] = refl
none_waits now id (row ∷ rows) = elim (Bool-cases (has_job_id id row)) [
  | inl hit ↦ rw (hit, hit) (none_waits now id rows)
  | inr miss ↦ rw (miss, miss) (none_waits now id rows)
]

-- A claim that gives a job is that of the oldest row.
given_row :
    (now : ℕ) (job_types : List String) (locked : String → Bool) (rows : List JobRow) (job : Job)
    → (claim_job now job_types locked rows).1 ≡ some job
    → (row : JobRow) × (oldest (is_claimable now job_types locked) rows ≡ some row)
      × (row.id ≡ job.id)
      × ((claim_job now job_types locked rows).0 ≡ map (at_id row.id (claimed now)) rows)
unfolding claim_job
given_row now job_types locked rows job h =
    elim (Option-cases (oldest (is_claimable now job_types locked) rows)) [
      | inl empty ↦ absurd (none-ne-some (rw (empty, claim_job) at h))
      | inr (row, found) ↦ (
        row,
        found,
        ap (λ j. j.id) (some-injective (rw (found, claim_job) at h)),
        rw (found, claim_job) refl,
      )
    ]
  where
    none-ne-some : {j : Job} → none ≡ some j → ⊥
    none-ne-some e = cc

    some-injective : {a b : Job} → some a ≡ some b → a ≡ b
    some-injective e = cc

-- Two workers that claim one after the other, at any times, for any types of job and with any rows
-- locked, are never given the same job.
pub claim_job-apart :
    (now later : ℕ) (types others : List String) (locked held : String → Bool) (rows : List JobRow)
    (one two : Job)
    → (claim_job now types locked rows).1 ≡ some one
    → (claim_job later others held (claim_job now types locked rows).0).1 ≡ some two
    → ¬ (one.id ≡ two.id)
claim_job-apart now later types others locked held rows one two first_claim second_claim same =
    let (row, found, row_id, after) = given_row now types locked rows one first_claim in
    let (other, found', other_id, rest) =
      given_row later others held (claim_job now types locked rows).0 two second_claim in
    let waits =
      (and-eq-true (is_pending other.status) _ (
        oldest-holds (is_claimable later others held) (claim_job now types locked rows).0 other
          found')).0 in
    let of_row = (str_eq_iff other.id row.id).1 (other_id ∙ (sym same ∙ sym row_id)) in
    true-ne-false (
      sym (
        oldest-any (is_claimable later others held)
          (λ r. has_job_id row.id r && is_pending r.status) (map (at_id row.id (claimed now)) rows)
          other (subst (λ l. oldest (is_claimable later others held) l ≡ some other) after found')
          (rw (of_row, waits) refl))
      ∙ none_waits now row.id rows)
