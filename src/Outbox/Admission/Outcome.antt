-- ===== src/Outbox/Admission/Outcome.antt =====
-- What `admit` (better_hermes_hindsight/outbox.py) promises: all of a turn durably, or nothing.
use mathlib.Core.List.{append-nil}
use better_hermes_hindsight.Common.{
  ℕ, suc, ◌+◌, ◌≤◌, ◌≡◌, refl, ◌≢◌, true, false, List, [], ◌∷◌, ◌++◌, some, map, Text, length, All,
  arith, Bool-cases, Option-cases, inl, inr, subst, total, total-append, length-append, ap,
}
use better_hermes_hindsight.Retention.Segment.{RetainedSegment}
use better_hermes_hindsight.Outbox.Types.{
  Settings, OutboxRow, find_row, new_row, row_bytes, AdmissionResult, AdmissionStatus, accepted,
}
use better_hermes_hindsight.Outbox.Table.{IsTable, logical_bytes, find_row-append}
use better_hermes_hindsight.Outbox.Validate.Laws.{Distinct}
use better_hermes_hindsight.Outbox.Admission.{
  classify, new_row_of, segment_bytes, insert_new, over_capacity, refusal, admitted_result,
  duplicate_result, admit_in_transaction,
}
use better_hermes_hindsight.Outbox.Admission.Laws.{
  Stored, Classified, classify-Classified, insert_rows_lem, insert_rows-IsTable,
}

-- The configured bounds on the rows and the logical bytes.
pub record WithinCapacity (settings : Settings) (rows : List OutboxRow) : Type 0 where
  pub rows_fit : length rows ≤ settings.max_pending_rows
  pub bytes_fit : logical_bytes rows ≤ settings.max_pending_bytes

-- What an accepted admission of `candidates` did to the table.
pub record Durable (settings : Settings) (rows rows' : List OutboxRow)
    (candidates : List RetainedSegment) (result : AdmissionResult) : Type 0 where
  pub stored : All (Stored settings rows') candidates
  pub kept :
      (id : Text) (row : OutboxRow) → find_row id rows ≡ some row → find_row id rows' ≡ some row
  pub table : IsTable rows'
  pub within : WithinCapacity settings rows'
  pub grown : length rows' ≡ length rows + result.inserted_count

module _ (settings : Settings) (timestamp : ℕ) where
  length-new_rows :
      (new : List RetainedSegment) → length (map (new_row_of settings timestamp) new) ≡ length new
  length-new_rows [] = refl
  length-new_rows (segment ∷ new) = ap suc (length-new_rows new)

  bytes_new_rows :
      (new : List RetainedSegment)
      → logical_bytes (map (new_row_of settings timestamp) new) ≡ total segment_bytes new
  unfolding total new_row
  bytes_new_rows [] = refl
  bytes_new_rows (segment ∷ new) = omega (arith, bytes_new_rows new)

module _ (settings : Settings) (rows : List OutboxRow) (timestamp : ℕ)
    (candidates : List RetainedSegment) (table : IsTable rows) where
  abbrev extended : List RetainedSegment → List OutboxRow
  extended new = rows ++ map (new_row_of settings timestamp) new

  extended-kept :
      (new : List RetainedSegment) (id : Text) (row : OutboxRow)
      → find_row id rows ≡ some row
      → find_row id (extended new) ≡ some row
  extended-kept new id row stored =
      ground (arith, find_row-append id rows (map (new_row_of settings timestamp) new))

  -- An insertion that passes the capacity check.
  insert_new-Durable :
      (segment : RetainedSegment) (new : List RetainedSegment) (duplicates count : ℕ)
      → Classified settings rows candidates (segment ∷ new) duplicates count
      → over_capacity settings rows (segment ∷ new) ≡ false
      → (insert_new settings rows timestamp (segment ∷ new) count
          ≡ some (admitted_result (suc (length new)) count, extended (segment ∷ new)))
        × Durable settings rows
            (extended (segment ∷ new))
            candidates
            (admitted_result (suc (length new)) count)
  unfolding insert_new
  insert_new-Durable segment new duplicates count c fits =
      let inserted = insert_rows_lem settings timestamp rows (segment ∷ new) c.absent c.distinct in
      let rows_length = length-append rows (map (new_row_of settings timestamp) (segment ∷ new)) in
      let new_length = length-new_rows settings timestamp (segment ∷ new) in
      (
        rw (fits, inserted),
        record {
          stored = c.stored timestamp;
          kept = extended-kept (segment ∷ new);
          table = insert_rows-IsTable rows _ table inserted;
          within = record {
            rows_fit = ground (arith, rows_length, new_length);
            bytes_fit = ground (
              arith,
              total-append row_bytes rows (map (new_row_of settings timestamp) (segment ∷ new)),
              bytes_new_rows settings timestamp (segment ∷ new),
            );
          };
          grown = omega (arith, rows_length, new_length);
        },
      )

  -- The part behind the first loop never meets the primary key, and what it accepts is durable.
  insert_new_lem :
      (new : List RetainedSegment) (duplicates count : ℕ)
      → WithinCapacity settings rows
      → Classified settings rows candidates new duplicates count
      → (result : AdmissionResult) × (rows' : List OutboxRow) × (insert_new settings rows timestamp
            new count
          ≡ some (result, rows'))
        × (result.status ≢ AdmissionStatus.local_failure)
        × (accepted result.status ≡ true → Durable settings rows rows' candidates result)
  unfolding insert_new
  insert_new_lem [] duplicates count within c = (
    duplicate_result count,
    rows,
    refl,
    λ e. cc,
    λ h. record {
      stored =
          subst (λ l. All (Stored settings l) candidates) (append-nil rows) (c.stored timestamp);
      kept = λ id row stored. stored;
      table = table;
      within = within;
      grown = omega arith;
    },
  )
  insert_new_lem (segment ∷ new) duplicates count within c =
      elim (Bool-cases (over_capacity settings rows (segment ∷ new))) [
        | inl over ↦ (
          refusal AdmissionStatus.capacity_exceeded,
          rows,
          rw (over, insert_new),
          λ e. cc,
          λ h. cc,
        )
        | inr fits ↦
            let (inserted, durable) = insert_new-Durable segment new duplicates count c fits in
            (
              admitted_result (suc (length new)) count,
              extended (segment ∷ new),
              inserted,
              λ e. cc,
              λ h. durable,
            )
      ]

  pub admit_in_transaction_lem :
      (repeated : ℕ)
      → WithinCapacity settings rows
      → Distinct candidates
      → (result : AdmissionResult) × (rows' : List OutboxRow) × (admit_in_transaction settings rows
            timestamp candidates repeated
          ≡ some (result, rows'))
        × (result.status ≢ AdmissionStatus.local_failure)
        × (accepted result.status ≡ true → Durable settings rows rows' candidates result)
  unfolding admit_in_transaction
  admit_in_transaction_lem repeated within distinct =
      elim (Option-cases (classify settings rows candidates repeated)) [
        | inl conflict ↦ (
          refusal AdmissionStatus.conflict,
          rows,
          rw (conflict, admit_in_transaction),
          λ e. cc,
          λ h. cc,
        )
        | inr ((new, count), classified) ↦
            let c = classify-Classified settings rows candidates repeated distinct classified in
            let (result, rows', e, reaches, durable) = insert_new_lem new repeated count within c in
            (result, rows', rw (classified, admit_in_transaction) e, reaches, durable)
      ]
