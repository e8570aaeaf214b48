-- ===== src/Jobs/Rows.antt =====
-- What one statement does to one job, and which job is the oldest.
use settlement_ops.Base.{
  All, Bool, Bool-cases, List, Option, String, [], and-eq-true, any, ap, arith, false, inl, inr,
  leb, ltb, map, none, refl, some, str_eq_iff, sym, true, true-ne-false, ℕ, ◌+◌, ◌∙◌, ◌∷◌, ◌≡◌, ◌≤◌,
  ◌⊎◌,
}
use settlement_ops.Jobs.{
  JobRow, JobStatus, at_id, beaten, claimed, completed, earlier, failed, given_up, has_job_id,
  is_claimable, is_given_up, is_lost, is_pending, is_requeued, job_abandoned, job_claimed,
  job_failed, job_pending, job_succeeded, max_attempts, oldest, requeued,
}

abbrev waiting : JobStatus → ℕ
waiting job_pending = 1
waiting _ = 0

abbrev is_coded : JobStatus → Option String → Bool
is_coded job_abandoned none = false
is_coded _ _ = true

-- A job that waits has an attempt left, and one that was given up has a failure code.
pub record IsSoundJob (row : JobRow) : Type 0 where
  pub counted : row.attempts + waiting row.status ≤ max_attempts
  pub coded : is_coded row.status row.failure_code ≡ true

pub map-AllSoundJob :
    (P : JobRow → Type 0) (f : JobRow → JobRow) (rows : List JobRow)
    → ((row : JobRow) → IsSoundJob row → P row → IsSoundJob (f row))
    → All IsSoundJob rows
    → All P rows
    → All IsSoundJob (map f rows)
map-AllSoundJob P f [] each sound given = tt
map-AllSoundJob P f (row ∷ rows) each sound given =
    (each row sound.0 given.0, map-AllSoundJob P f rows each sound.1 given.1)

All-every : (rows : List JobRow) → All (λ row. Unit {0}) rows
All-every [] = tt
All-every (row ∷ rows) = (tt, All-every rows)

pub map-IsSoundJob :
    (f : JobRow → JobRow) (rows : List JobRow)
    → ((row : JobRow) → IsSoundJob row → IsSoundJob (f row))
    → All IsSoundJob rows
    → All IsSoundJob (map f rows)
map-IsSoundJob f rows each sound =
    map-AllSoundJob (λ row. Unit {0}) f rows (λ row s t. each row s) sound (All-every rows)

-- No two jobs share an id.
abbrev pub AllDistinct : List JobRow → Type 0
AllDistinct [] = Unit
AllDistinct (row ∷ rows) = (any (has_job_id row.id) rows ≡ false) × AllDistinct rows

any-map :
    (id : String) (f : JobRow → JobRow) (rows : List JobRow)
    → ((row : JobRow) → (f row).id ≡ row.id)
    → any (has_job_id id) (map f rows) ≡ any (has_job_id id) rows
unfolding any
any-map id f [] same = refl
any-map id f (row ∷ rows) same = rw (same row, any-map id f rows same) refl

pub map-AllDistinct :
    (f : JobRow → JobRow) (rows : List JobRow)
    → ((row : JobRow) → (f row).id ≡ row.id)
    → AllDistinct rows
    → AllDistinct (map f rows)
map-AllDistinct f [] same apart = tt
map-AllDistinct f (row ∷ rows) same apart = (
  ap (λ id. any (has_job_id id) (map f rows)) (same row) ∙ (any-map row.id f rows same ∙ apart.0),
  map-AllDistinct f rows same apart.1,
)

-- The oldest row is one of the rows, with the test.
pub oldest-cases :
    (p : JobRow → Bool) (row : JobRow) (rows : List JobRow) (out : JobRow)
    → oldest p (row ∷ rows) ≡ some out
    → ((p row ≡ true) × (row ≡ out)) ⊎ (oldest p rows ≡ some out)
unfolding oldest
oldest-cases p row rows out h = elim (Bool-cases (p row)) [
  | inr miss ↦ inr (rw (miss, oldest) at h)
  | inl hit ↦ from hit (oldest p rows) refl (rw (hit, oldest) at h)
]
  where
    some-injective : {a b : JobRow} → some a ≡ some b → a ≡ b
    some-injective e = cc

    from :
        p row ≡ true
        → (rest : Option JobRow) → oldest p rows ≡ rest
        → some (earlier row rest) ≡ some out
        → ((p row ≡ true) × (row ≡ out)) ⊎ (oldest p rows ≡ some out)
    from hit none at e = inl (hit, some-injective e)
    from hit (some other) at e = elim (Bool-cases (ltb other.created_at row.created_at)) [
      | inl before ↦ inr (at ∙ (rw before at e))
      | inr later ↦ inl (hit, some-injective (rw later at e))
    ]

pub oldest-any :
    (p q : JobRow → Bool) (rows : List JobRow) (out : JobRow)
    → oldest p rows ≡ some out
    → q out ≡ true
    → any q rows ≡ true
unfolding any oldest
oldest-any p q [] out h holds = cc
oldest-any p q (row ∷ rows) out h holds = elim (oldest-cases p row rows out h) [
  | inl (hit, same) ↦ rw (ap q same ∙ holds) refl
  | inr rest ↦ let found = oldest-any p q rows out rest holds in ground arith
]

-- All rows of the id of the oldest row have the test.
pub oldest-only :
    (p : JobRow → Bool) (rows : List JobRow) (out : JobRow)
    → AllDistinct rows
    → oldest p rows ≡ some out
    → All (λ row. has_job_id out.id row ≡ true → p row ≡ true) rows
unfolding any
oldest-only p [] out apart h = tt
oldest-only p (row ∷ rows) out apart h = elim (oldest-cases p row rows out h) [
  | inl (hit, same) ↦
      (λ e. hit, none_other rows (ap (λ r. any (has_job_id r.id) rows) (sym same) ∙ apart.0))
  | inr rest ↦ (
    λ e.
        absurd
          (true-ne-false (sym (oldest-any p (has_job_id row.id) rows out rest (flip e)) ∙ apart.0)),
    oldest-only p rows out apart.1 rest,
  )
]
  where
    flip : has_job_id out.id row ≡ true → has_job_id row.id out ≡ true
    flip e = (str_eq_iff out.id row.id).1 (sym ((str_eq_iff row.id out.id).0 e))

    none_other :
        (others : List JobRow)
        → any (has_job_id out.id) others ≡ false
        → All (λ r. has_job_id out.id r ≡ true → p r ≡ true) others
    none_other [] h = tt
    none_other (r ∷ others) h =
        ((λ e. absurd (true-ne-false (ground arith))), none_other others (ground arith))

pub claimed-IsSoundJob :
    (now : ℕ) (job_types : List String) (locked : String → Bool) (id : String) (row : JobRow)
    → IsSoundJob row
    → (has_job_id id row ≡ true → is_claimable now job_types locked row ≡ true)
    → IsSoundJob (at_id id (claimed now) row)
claimed-IsSoundJob now job_types locked id row sound given = elim (Bool-cases (has_job_id id row)) [
  | inr miss ↦ rw miss sound
  | inl hit ↦ rw hit (record {
    counted =
        open_one row.status (and-eq-true (is_pending row.status) _ (given hit)).0 sound.counted;
    coded = refl;
  })
]
  where
    open_one :
        (status : JobStatus)
        → is_pending status ≡ true
        → row.attempts + waiting status ≤ max_attempts
        → row.attempts + 1 + 0 ≤ max_attempts
    open_one job_pending h few = omega (arith, few)
    open_one job_claimed h few = absurd (true-ne-false (sym h))
    open_one job_succeeded h few = absurd (true-ne-false (sym h))
    open_one job_failed h few = absurd (true-ne-false (sym h))
    open_one job_abandoned h few = absurd (true-ne-false (sym h))

pub failed-IsSoundJob :
    (now : ℕ) (id : String) (attempts : ℕ) (code : String) (row : JobRow)
    → IsSoundJob row
    → (has_job_id id row ≡ true → row.attempts ≤ attempts)
    → IsSoundJob (at_id id (failed now attempts code) row)
failed-IsSoundJob now id attempts code row sound given = elim (Bool-cases (has_job_id id row)) [
  | inr miss ↦ rw miss sound
  | inl hit ↦
      let few = given hit in
      elim (Bool-cases (leb max_attempts attempts)) [
        | inl last ↦
            rw (hit, last) (record { counted = omega (arith, sound.counted); coded = refl })
        | inr more ↦ rw (hit, more) (record { counted = ground arith; coded = refl })
      ]
]

pub completed-IsSoundJob :
    (now : ℕ) (id : String) (row : JobRow)
    → IsSoundJob row
    → IsSoundJob (at_id id (completed now) row)
completed-IsSoundJob now id row sound = elim (Bool-cases (has_job_id id row)) [
  | inr miss ↦ rw miss sound
  | inl hit ↦ rw hit (record { counted = omega (arith, sound.counted); coded = refl })
]

pub beaten-IsSoundJob :
    (now : ℕ) (id : String) (row : JobRow) → IsSoundJob row → IsSoundJob (at_id id (beaten now) row)
beaten-IsSoundJob now id row sound = elim (Bool-cases (has_job_id id row)) [
  | inr miss ↦ rw miss sound
  | inl hit ↦ rw hit (record { counted = sound.counted; coded = sound.coded })
]

pub requeued-IsSoundJob :
    (now stale_seconds : ℕ) (row : JobRow)
    → IsSoundJob row
    → IsSoundJob (requeued now stale_seconds row)
requeued-IsSoundJob now stale_seconds row sound =
    elim (Bool-cases (is_requeued now stale_seconds row)) [
      | inr miss ↦ rw miss sound
      | inl hit ↦
          let few =
            (and-eq-true (is_lost now stale_seconds row) (ltb row.attempts max_attempts) hit).1 in
          rw hit (record { counted = ground arith; coded = refl })
    ]

pub given_up-IsSoundJob :
    (now stale_seconds : ℕ) (row : JobRow)
    → IsSoundJob row
    → IsSoundJob (given_up now stale_seconds row)
given_up-IsSoundJob now stale_seconds row sound =
    elim (Bool-cases (is_given_up now stale_seconds row)) [
      | inr miss ↦ rw miss sound
      | inl hit ↦ rw hit (record { counted = omega (arith, sound.counted); coded = refl })
    ]
