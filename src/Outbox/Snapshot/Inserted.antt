-- ===== src/Outbox/Snapshot/Inserted.antt =====
-- The rows that an admission of better_hermes_hindsight/outbox.py inserts are not corrupt.
use better_hermes_hindsight.Common.{
  ℕ, ap, ◌+◌, ◌≡◌, true, false, List, [], ◌∷◌, ◌++◌, Option, none, some, map, arith, All,
  All-append, Bool-cases, Option-cases, inl, inr, subst,
}
use better_hermes_hindsight.Retention.Segment.{RetainedSegment}
use better_hermes_hindsight.Outbox.Types.{
  Settings, SqliteOutbox, OutboxRow, Failure, find_row, new_row, AdmissionResult,
}
use better_hermes_hindsight.Outbox.Validate.{valid_segment, validate_candidates}
use better_hermes_hindsight.Outbox.Validate.Laws.{validate_candidates-Validated}
use better_hermes_hindsight.Outbox.Admission.{
  classify, holds_segment, insert_new, insert_rows, over_capacity, new_row_of, admit_in_transaction,
  run_admission, admit,
}
use better_hermes_hindsight.Outbox.Snapshot.{is_corrupt}
use better_hermes_hindsight.Outbox.Snapshot.Counts.{Clean}

-- Only valid segments are inserted.
abbrev Valid : Settings → List RetainedSegment → Type 0
Valid settings = All (λ segment. valid_segment settings segment ≡ true)

new_of : Option (List RetainedSegment × ℕ) → List RetainedSegment
new_of none = []
new_of (some (new, count)) = new

classify-Valid :
    (settings : Settings) (rows : List OutboxRow) (candidates : List RetainedSegment)
    (duplicates : ℕ) {new : List RetainedSegment} {count : ℕ}
    → Valid settings candidates
    → classify settings rows candidates duplicates ≡ some (new, count)
    → Valid settings new
unfolding classify new_of
classify-Valid settings rows [] duplicates valid h =
    let e : [] ≡ _ = ap (λ o. new_of o) h in subst (Valid settings) e tt
classify-Valid settings rows (segment ∷ candidates) duplicates {new} {count} valid h =
    elim (Option-cases (find_row segment.document_id rows)) [
      | inl absent ↦ elim (Option-cases (classify settings rows candidates duplicates)) [
        | inl conflict ↦ cc (rw (absent, conflict, classify) at h)
        | inr ((rest, n), classified) ↦
            let pair = rw (absent, classified, classify) at h in
            let e : segment ∷ rest ≡ new = ap new_of pair in
            subst (Valid settings) e
              (valid.0, classify-Valid settings rows candidates duplicates valid.1 classified)
      ]
      | inr (row, present) ↦ elim (Bool-cases (holds_segment settings row segment)) [
        | inl same ↦
            classify-Valid settings rows candidates (duplicates + 1) valid.1
              (rw (present, same, classify) at h)
        | inr differs ↦ cc (rw (present, differs, classify) at h)
      ]
    ]

new_row_clean :
    (settings : Settings) (timestamp : ℕ) (segment : RetainedSegment)
    → valid_segment settings segment ≡ true
    → is_corrupt (new_row_of settings timestamp segment) ≡ false
unfolding valid_segment new_row is_corrupt
new_row_clean settings timestamp segment valid = ground (arith, valid)

new_rows-Clean :
    (settings : Settings) (timestamp : ℕ) (new : List RetainedSegment)
    → Valid settings new
    → Clean (map (new_row_of settings timestamp) new)
new_rows-Clean settings timestamp [] valid = tt
new_rows-Clean settings timestamp (segment ∷ new) valid = (
  new_row_clean settings timestamp segment valid.0,
  new_rows-Clean settings timestamp new valid.1,
)

some_injective : {x y : List OutboxRow} → some x ≡ some y → x ≡ y
some_injective h = cc

insert_rows-Clean :
    (rows more : List OutboxRow) {rows' : List OutboxRow}
    → Clean rows
    → Clean more
    → insert_rows rows more ≡ some rows'
    → Clean rows'
unfolding insert_rows
insert_rows-Clean rows [] clean fresh h = let e : rows ≡ _ = some_injective h in subst Clean e clean
insert_rows-Clean rows (row ∷ more) clean fresh h =
    elim (Option-cases (find_row row.document_id rows)) [
      | inl absent ↦
          insert_rows-Clean (rows ++ row ∷ []) more
            (All-append (λ r. is_corrupt r ≡ false) rows (row ∷ []) clean (fresh.0, tt)) fresh.1
            (rw (absent, insert_rows) at h)
      | inr (stored, present) ↦ cc (rw (present, insert_rows) at h)
    ]

insert_new-Clean :
    (settings : Settings) (rows : List OutboxRow) (timestamp : ℕ) (new : List RetainedSegment)
    (duplicates : ℕ) {result : AdmissionResult} {rows' : List OutboxRow}
    → Clean rows
    → Valid settings new
    → insert_new settings rows timestamp new duplicates ≡ some (result, rows')
    → Clean rows'
unfolding insert_new
insert_new-Clean settings rows timestamp [] duplicates {result} {rows'} clean valid h =
    let e : rows ≡ rows' = cc in subst Clean e clean
insert_new-Clean settings rows timestamp (segment ∷ more) duplicates {result} {rows'} clean valid
      h =
    let new = segment ∷ more in
    let fresh = new_rows-Clean settings timestamp new valid in
    elim (Bool-cases (over_capacity settings rows new)) [
      | inl full ↦ let e : rows ≡ rows' = cc (rw full at h) in subst Clean e clean
      | inr fits ↦
          elim (Option-cases (insert_rows rows (map (new_row_of settings timestamp) new))) [
            | inl clash ↦ cc (rw (fits, clash) at h)
            | inr (inserted, stored) ↦
                let e : inserted ≡ rows' = cc (rw (fits, stored) at h) in
                subst Clean e (
                  insert_rows-Clean rows (map (new_row_of settings timestamp) new) clean fresh
                    stored)
          ]
    ]

transaction-Clean :
    (settings : Settings) (rows : List OutboxRow) (timestamp : ℕ)
    (candidates : List RetainedSegment) (repeated : ℕ) {result : AdmissionResult}
    {rows' : List OutboxRow}
    → Clean rows
    → Valid settings candidates
    → admit_in_transaction settings rows timestamp candidates repeated ≡ some (result, rows')
    → Clean rows'
unfolding admit_in_transaction
transaction-Clean settings rows timestamp candidates repeated {result} {rows'} clean valid h =
    elim (Option-cases (classify settings rows candidates repeated)) [
      | inl conflict ↦
          let e : rows ≡ rows' = cc (rw (conflict, admit_in_transaction) at h) in
          subst Clean e clean
      | inr ((new, duplicates), classified) ↦
          insert_new-Clean settings rows timestamp new duplicates clean
            (classify-Valid settings rows candidates repeated valid classified)
            (rw (classified, admit_in_transaction) at h)
    ]

run_admission-Clean :
    (box : SqliteOutbox) (fault : Option Failure) (timestamp : ℕ)
    (candidates : List RetainedSegment) (repeated : ℕ)
    → Clean box.rows
    → Valid box.settings candidates
    → Clean (run_admission box fault timestamp candidates repeated).1.rows
unfolding run_admission
run_admission-Clean box (some fault) timestamp candidates repeated clean valid = clean
run_admission-Clean box none timestamp candidates repeated clean valid =
    elim (Option-cases (admit_in_transaction box.settings box.rows timestamp candidates repeated)) [
      | inl failed ↦ rw (failed, run_admission) clean
      | inr ((result, rows), admitted) ↦
          let inserted =
            transaction-Clean box.settings box.rows timestamp candidates repeated clean valid
              admitted in
          rw (admitted, run_admission) (ground (arith, clean, inserted))
    ]

pub admit-Clean :
    (box : SqliteOutbox) (fault : Option Failure) (timestamp : ℕ) (segments : List RetainedSegment)
    → Clean box.rows
    → Clean (admit box fault timestamp segments).1.rows
unfolding admit
admit-Clean box fault timestamp segments clean =
    elim (Option-cases (validate_candidates box.settings segments)) [
      | inl invalid ↦ rw (invalid, admit) clean
      | inr ((candidates, repeated), validated) ↦
          let valid = (validate_candidates-Validated box.settings segments validated).valid in
          let inserted = run_admission-Clean box fault timestamp candidates repeated clean valid in
          rw (validated, admit) (ground (arith, clean, inserted))
    ]
