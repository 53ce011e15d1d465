-- ===== src/Outbox/Admission/Atomic.antt =====
-- The promises of `admit` (better_hermes_hindsight/outbox.py): all of a turn durably or nothing, and
-- the same turn again without a change.
use better_hermes_hindsight.Common.{
  ℕ, ◌+◌, ◌≡◌, refl, ◌≢◌, true, false, List, [], ◌∷◌, Option, none, some, length, All, arith,
  Bool-cases, Option-cases, inl, inr, sym, subst, ◌∙◌, ap,
}
use better_hermes_hindsight.Retention.Segment.{RetainedSegment}
use better_hermes_hindsight.Outbox.Types.{
  Settings, SqliteOutbox, OutboxRow, AdmissionResult, AdmissionStatus, accepted, Failure,
}
use better_hermes_hindsight.Outbox.Table.{IsTable}
use better_hermes_hindsight.Outbox.Validate.{validate_candidates}
use better_hermes_hindsight.Outbox.Validate.Laws.{validate_candidates-Validated}
use better_hermes_hindsight.Outbox.Admission.{
  classify, holds_segment, insert_new, duplicate_result, admit_in_transaction, run_admission, admit,
}
use better_hermes_hindsight.Outbox.Admission.Laws.{Stored}
use better_hermes_hindsight.Outbox.Admission.Outcome.{
  WithinCapacity, Durable, admit_in_transaction_lem,
}

-- An admission that is not accepted leaves the outbox as it was.
pub admit_refused :
    (box : SqliteOutbox) (fault : Option Failure) (timestamp : ℕ) (segments : List RetainedSegment)
    → accepted (admit box fault timestamp segments).0.status ≡ false
    → (admit box fault timestamp segments).1 ≡ box
unfolding admit run_admission
admit_refused box fault timestamp segments h = ground arith

admit_open :
    (box : SqliteOutbox) (fault : Option Failure) (timestamp : ℕ)
    (segments candidates : List RetainedSegment) (repeated : ℕ)
    → validate_candidates box.settings segments ≡ some (candidates, repeated)
    → box.closed ≡ false
    → admit box fault timestamp segments ≡ run_admission box fault timestamp candidates repeated
unfolding admit
admit_open box fault timestamp segments candidates repeated valid opened = ground arith

fault_refused :
    (box : SqliteOutbox) (f : Failure) (timestamp : ℕ) (candidates : List RetainedSegment)
    (repeated : ℕ)
    → accepted (run_admission box (some f) timestamp candidates repeated).0.status ≡ false
unfolding run_admission
fault_refused box f timestamp candidates repeated = ground arith

-- What an accepted admission of `segments` means.
pub record Accepted (box box' : SqliteOutbox) (segments : List RetainedSegment)
    (result : AdmissionResult) : Type 0 where
  pub candidates : List RetainedSegment
  pub repeated : ℕ
  pub valid : validate_candidates box.settings segments ≡ some (candidates, repeated)
  pub durable : Durable box.settings box.rows box'.rows candidates result
  pub opened : box.closed ≡ false
  pub unchanged : (box'.settings ≡ box.settings) × (box'.closed ≡ box.closed)

module _ (box : SqliteOutbox) (timestamp : ℕ) (segments : List RetainedSegment)
    (table : IsTable box.rows) (within : WithinCapacity box.settings box.rows) where
  run_admission-Accepted :
      (candidates : List RetainedSegment) (repeated : ℕ)
      → validate_candidates box.settings segments ≡ some (candidates, repeated)
      → box.closed ≡ false
      → accepted (run_admission box none timestamp candidates repeated).0.status ≡ true
      → Accepted box
          (run_admission box none timestamp candidates repeated).1
          segments
          (run_admission box none timestamp candidates repeated).0
  unfolding run_admission
  run_admission-Accepted candidates repeated valid opened h =
      let v = validate_candidates-Validated box.settings segments valid in
      let (result, rows', e, reaches, durable) =
        admit_in_transaction_lem box.settings box.rows timestamp candidates table repeated within
          v.distinct in
      let ok : accepted result.status ≡ true = rw (e, run_admission) at h in
      rw (e, ok, run_admission)
        (record {
          candidates = candidates;
          repeated = repeated;
          valid = valid;
          durable = durable ok;
          opened = opened;
          unchanged = (refl, refl);
        })

  admit_cases :
      (fault : Option Failure)
      → accepted (admit box fault timestamp segments).0.status ≡ true
      → Accepted box
          (admit box fault timestamp segments).1
          segments
          (admit box fault timestamp segments).0
  unfolding admit
  admit_cases fault h = elim (Option-cases (validate_candidates box.settings segments)) [
    | inl invalid ↦ cc (rw (invalid, admit) at h)
    | inr ((candidates, repeated), valid) ↦ elim (Bool-cases box.closed) [
      | inl shut ↦ cc (rw (valid, shut, admit) at h)
      | inr opened ↦ elim (Option-cases fault) [
        | inr (f, raised) ↦ cc (
          fault_refused box f timestamp candidates repeated,
          rw (admit_open box fault timestamp segments candidates repeated valid opened, raised) at
              h,
        )
        | inl calm ↦
            rw (admit_open box fault timestamp segments candidates repeated valid opened, calm)
              (run_admission-Accepted candidates repeated valid opened (
                rw (admit_open box fault timestamp segments candidates repeated valid opened, calm)
                  at h))
      ]
    ]
  ]

-- On a table with unique keys that is within its capacity, an accepted admission has validated the
-- segments to candidates, and every candidate is stored with exactly its values. Every row stored
-- before is stored as it was, the keys are unique, the table is within its capacity, and it has grown
-- by the number of insertions reported.
pub admit-Accepted :
    (box : SqliteOutbox) (fault : Option Failure) (timestamp : ℕ) (segments : List RetainedSegment)
    → IsTable box.rows
    → WithinCapacity box.settings box.rows
    → accepted (admit box fault timestamp segments).0.status ≡ true
    → Accepted box
        (admit box fault timestamp segments).1
        segments
        (admit box fault timestamp segments).0
admit-Accepted box fault timestamp segments table within h =
    admit_cases box timestamp segments table within fault h

holds_segment_of :
    (settings : Settings) (rows : List OutboxRow) (segment : RetainedSegment)
    (s : Stored settings rows segment)
    → holds_segment settings s.row segment ≡ true
unfolding holds_segment
holds_segment_of settings rows segment s = ground (arith, s.values)

-- Stored candidates are all duplicates.
classify-Stored :
    (settings : Settings) (rows : List OutboxRow) (candidates : List RetainedSegment)
    (duplicates : ℕ)
    → All (Stored settings rows) candidates
    → classify settings rows candidates duplicates ≡ some ([], length candidates + duplicates)
unfolding classify
classify-Stored settings rows [] duplicates stored = ap (λ n. some ([], n)) (omega arith)
classify-Stored settings rows (segment ∷ candidates) duplicates stored =
    rw (stored.0.found, holds_segment_of settings rows segment stored.0, classify)
      (classify-Stored settings rows candidates (duplicates + 1) stored.1
        ∙ ap (λ n. some ([], n)) (omega arith))

-- An outbox that stores every candidate answers a repeated admission without a change.
admit-Stored :
    (box : SqliteOutbox) (timestamp : ℕ) (segments candidates : List RetainedSegment) (repeated : ℕ)
    → validate_candidates box.settings segments ≡ some (candidates, repeated)
    → box.closed ≡ false
    → All (Stored box.settings box.rows) candidates
    → length candidates + repeated ≡ length segments
    → admit box none timestamp segments ≡ (duplicate_result (length segments), box)
unfolding run_admission admit_in_transaction insert_new
admit-Stored box timestamp segments candidates repeated valid opened stored counted =
    admit_open box none timestamp segments candidates repeated valid opened
    ∙ rw (
      classify-Stored box.settings box.rows candidates repeated stored,
      counted,
      run_admission,
      admit_in_transaction,
    )

-- After an accepted admission the same segments, admitted again without a fault, are reported as
-- duplicates, one for each segment handed in, and change nothing.
pub admit_again :
    (box : SqliteOutbox) (fault : Option Failure) (timestamp later : ℕ)
    (segments : List RetainedSegment)
    → IsTable box.rows
    → WithinCapacity box.settings box.rows
    → accepted (admit box fault timestamp segments).0.status ≡ true
    → let box' = (admit box fault timestamp segments).1 in
      admit box' none later segments ≡ (duplicate_result (length segments), box')
admit_again box fault timestamp later segments table within h =
    let a = admit-Accepted box fault timestamp segments table within h in
    let box' = (admit box fault timestamp segments).1 in
    let same_settings : box'.settings ≡ box.settings = a.unchanged.0 in
    admit-Stored box' later segments a.candidates a.repeated
      (subst (λ s. validate_candidates s segments ≡ some (a.candidates, a.repeated))
        (sym same_settings) a.valid)
      (a.unchanged.1 ∙ a.opened)
      (subst (λ s. All (Stored s box'.rows) a.candidates) (sym same_settings) a.durable.stored)
      (validate_candidates-Validated box.settings segments a.valid).counted

-- On a table with unique keys that is within its capacity, an open outbox whose statements raise
-- nothing never reports a local failure: the primary key refuses no insertion.
pub admit_healthy :
    (box : SqliteOutbox) (timestamp : ℕ) (segments : List RetainedSegment)
    → IsTable box.rows
    → WithinCapacity box.settings box.rows
    → box.closed ≡ false
    → (admit box none timestamp segments).0.status ≢ AdmissionStatus.local_failure
unfolding admit run_admission
admit_healthy box timestamp segments table within opened =
    elim (Option-cases (validate_candidates box.settings segments)) [
      | inl invalid ↦ rw (invalid, admit) (λ e. cc)
      | inr ((candidates, repeated), valid) ↦
          let v = validate_candidates-Validated box.settings segments valid in
          let (result, rows', e, reaches, durable) =
            admit_in_transaction_lem box.settings box.rows timestamp candidates table repeated
              within v.distinct in
          rw
            (
              admit_open box none timestamp segments candidates repeated valid opened,
              run_admission,
              e,
            )
            reaches
    ]
