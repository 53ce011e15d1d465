-- ===== src/Outbox/Admission.antt =====
-- `admit` and `_admit_in_transaction` of better_hermes_hindsight/outbox.py.
pub mod Laws
pub mod Outcome
pub mod Atomic
use better_hermes_hindsight.Common.{
  ℕ, ◌+◌, Bool, true, false, ◌&&◌, ◌||◌, List, [], ◌∷◌, ◌++◌, Option, none, some, map,
  if◌then◌else◌, ltb, Text, length, utf8_length, total,
}
use better_hermes_hindsight.Retention.Segment.{RetainedSegment}
use better_hermes_hindsight.Outbox.Types.{
  Settings, SqliteOutbox, OutboxRow, AdmissionResult, AdmissionStatus, accepted, Failure,
  is_contention, find_row, row_immutable_values, segment_immutable_values, same_values, new_row,
  outbox_row_accounting_allowance_bytes,
}
use better_hermes_hindsight.Outbox.Table.{logical_bytes}
use better_hermes_hindsight.Outbox.Validate.{fingerprint, validate_candidates}

-- Whether a stored row has the values of a segment that is handed in again.
unfoldable pub holds_segment : Settings → OutboxRow → RetainedSegment → Bool
holds_segment settings row segment =
    same_values (row_immutable_values row)
      (segment_immutable_values segment (fingerprint settings segment))

-- The first loop: the segments that are not stored yet and the number of duplicates, or `none` where
-- a stored document has other values.
unfoldable pub classify :
    Settings → List OutboxRow → List RetainedSegment → ℕ → Option (List RetainedSegment × ℕ)
unfolding holds_segment
classify settings rows [] duplicates = some ([], duplicates)
classify settings rows (segment ∷ segments) duplicates =
    let fresh = classify settings rows segments duplicates in
    let again = classify settings rows segments (duplicates + 1) in
    elim (find_row segment.document_id rows) [
      | none ↦ elim fresh [ none ↦ none | some (new, count) ↦ some (segment ∷ new, count) ]
      | some row ↦ if holds_segment settings row segment then again else none
    ]

-- `executemany("INSERT ...")`; `none` where the primary key refuses a row.
unfoldable pub insert_rows : List OutboxRow → List OutboxRow → Option (List OutboxRow)
insert_rows rows [] = some rows
insert_rows rows (row ∷ more) =
    let rest = insert_rows (rows ++ row ∷ []) more in
    elim (find_row row.document_id rows) [ none ↦ rest | some _ ↦ none ]

abbrev pub new_row_of : Settings → ℕ → RetainedSegment → OutboxRow
new_row_of settings timestamp segment = new_row (fingerprint settings segment) timestamp segment

-- The logical bytes that a segment will count for.
abbrev pub segment_bytes : RetainedSegment → ℕ
segment_bytes segment = utf8_length segment.content + outbox_row_accounting_allowance_bytes

abbrev pub over_capacity : Settings → List OutboxRow → List RetainedSegment → Bool
over_capacity settings rows new =
    ltb settings.max_pending_rows (length rows + length new)
    || ltb settings.max_pending_bytes (logical_bytes rows + total segment_bytes new)

abbrev pub refusal : AdmissionStatus → AdmissionResult
refusal status = record { status = status; inserted_count = 0; duplicate_count = 0 }

abbrev pub duplicate_result : ℕ → AdmissionResult
duplicate_result duplicates = record {
  status = AdmissionStatus.duplicate;
  inserted_count = 0;
  duplicate_count = duplicates;
}

abbrev pub admitted_result : ℕ → ℕ → AdmissionResult
admitted_result inserted duplicates = record {
  status = AdmissionStatus.admitted;
  inserted_count = inserted;
  duplicate_count = duplicates;
}

-- The second part: the capacity check and the insertion.
unfoldable pub insert_new :
    Settings
    → List OutboxRow
    → ℕ
    → List RetainedSegment
    → ℕ
    → Option (AdmissionResult × List OutboxRow)
insert_new settings rows timestamp [] duplicates = some (duplicate_result duplicates, rows)
insert_new settings rows timestamp (segment ∷ more) duplicates =
    let new = segment ∷ more in
    if over_capacity settings rows new
    then some (refusal AdmissionStatus.capacity_exceeded, rows)
    else elim (insert_rows rows (map (new_row_of settings timestamp) new)) [
      | none ↦ none
      | some rows' ↦ some (admitted_result (length new) duplicates, rows')
    ]

-- `none` where the insertion raises `sqlite3.IntegrityError`.
unfoldable pub admit_in_transaction :
    Settings
    → List OutboxRow
    → ℕ
    → List RetainedSegment
    → ℕ
    → Option (AdmissionResult × List OutboxRow)
unfolding insert_new classify insert_rows
admit_in_transaction settings rows timestamp candidates repeated =
    elim (classify settings rows candidates repeated) [
      | none ↦ some (refusal AdmissionStatus.conflict, rows)
      | some (new, duplicates) ↦ insert_new settings rows timestamp new duplicates
    ]

-- The transaction at `timestamp`: a statement that raises `fault`, or the commit or rollback of what
-- the transaction did.
unfoldable pub run_admission :
    SqliteOutbox → Option Failure → ℕ → List RetainedSegment → ℕ → AdmissionResult × SqliteOutbox
unfolding admit_in_transaction
run_admission box (some fault) timestamp candidates repeated = (
  refusal
      (if is_contention fault then AdmissionStatus.contended else AdmissionStatus.local_failure),
  box,
)
run_admission box none timestamp candidates repeated =
    elim (admit_in_transaction box.settings box.rows timestamp candidates repeated) [
      | none ↦ (refusal AdmissionStatus.local_failure, box)
      | some (result, rows) ↦
          (result, if accepted result.status then record box { rows = rows } else box)
    ]

unfoldable pub admit :
    SqliteOutbox → Option Failure → ℕ → List RetainedSegment → AdmissionResult × SqliteOutbox
admit box fault timestamp segments = elim (validate_candidates box.settings segments) [
  | none ↦ (refusal AdmissionStatus.invalid, box)
  | some (candidates, repeated) ↦
      if box.closed
      then (refusal AdmissionStatus.local_failure, box)
      else run_admission box fault timestamp candidates repeated
]
