-- ===== src/Outbox/Snapshot.antt =====
-- The read-only view of an outbox in better_hermes_hindsight/outbox.py: `inspect_outbox` with its
-- aggregate query, and the probe of the sender's lock.

pub mod Counts
mod Examples
pub mod Inserted
pub mod Clean
use Prim.Native.Nat.{compare, Ordering}
use better_hermes_hindsight.Common.{
  ℕ, zero, ◌+◌, ◌%◌, Bool, true, false, ◌&&◌, ◌||◌, not, List, [], ◌∷◌, Option, none, some, ◌==◌,
  if◌then◌else◌, ltb, is_some, Text, codes, same, count_if, keep, text_compare, length, min,
}
use better_hermes_hindsight.Outbox.Types.{
  Settings, SqliteOutbox, OutboxRow, is_pending, is_sending, OutboxFailureCategory, category_value,
  Failure,
}
use better_hermes_hindsight.Outbox.Order.{lex}
use better_hermes_hindsight.Outbox.Lock.{Flock}
use better_hermes_hindsight.Outbox.Table.{logical_bytes}
use better_hermes_hindsight.Outbox.Claims.{matches}

pub data SenderOwnership : Type 0 where
  held free unavailable : SenderOwnership

-- Of the inspection of an existing outbox; `none` in `last_error_category` is `None`.
pub record OutboxInspection : Type 0 where
  pub ready : Bool
  pub mismatch_count : ℕ
  pub pending_count : ℕ
  pub retry_count : ℕ
  pub sending_count : ℕ
  pub logical_queued_bytes : ℕ
  pub oldest_created_at : Option ℕ
  pub last_error_category : Option OutboxFailureCategory
  pub max_attempt_count : ℕ
  pub next_retry_at : Option ℕ
  pub timeout_errors : ℕ
  pub failed_errors : ℕ
  pub unconfirmed_errors : ℕ
  pub sender_ownership : SenderOwnership

abbrev pub is_mismatch : Settings → OutboxRow → Bool
is_mismatch settings row = not (matches settings row)

abbrev pub in_sending : Settings → OutboxRow → Bool
in_sending settings row = matches settings row && is_sending row.state

abbrev pub is_retry : Settings → OutboxRow → Bool
is_retry settings row = matches settings row && is_pending row.state && ltb 0 row.attempt_count

abbrev pub is_first_attempt : Settings → OutboxRow → Bool
is_first_attempt settings row =
    matches settings row && is_pending row.state && row.attempt_count == 0

-- `last_error_category = ...`
abbrev pub has_category : OutboxFailureCategory → OutboxRow → Bool
has_category category row = elim row.last_error_category [
  | none ↦ false
  | some value ↦ same value (category_value category)
]

-- The lookup in the failure categories.
unfoldable pub category_named : Text → Option OutboxFailureCategory
category_named value =
    if same value (category_value OutboxFailureCategory.retain_timeout)
    then some OutboxFailureCategory.retain_timeout
    else if same value (category_value OutboxFailureCategory.retain_failed)
    then some OutboxFailureCategory.retain_failed
    else if same value (category_value OutboxFailureCategory.retain_unconfirmed)
    then some OutboxFailureCategory.retain_unconfirmed
    else none

-- The test of the query for a row that no writer of the outbox leaves. The types of the columns
-- hold of every row of the model.
abbrev known_category : Option Text → Bool
known_category none = true
known_category (some value) = is_some (category_named value)

unfoldable pub is_corrupt : OutboxRow → Bool
unfolding category_named
is_corrupt row =
    not (ltb row.segment_index row.segment_count) || not (known_category row.last_error_category)

-- `MIN` and `MAX`
unfoldable pub smallest : (OutboxRow → ℕ) → List OutboxRow → Option ℕ
smallest f [] = none
smallest f (row ∷ rows) = elim (smallest f rows) [
  | none ↦ some (f row)
  | some t ↦ some (min (f row) t)
]

unfoldable pub most_attempts : List OutboxRow → ℕ
most_attempts [] = 0
most_attempts (row ∷ rows) =
    let rest = most_attempts rows in if ltb rest row.attempt_count then row.attempt_count else rest

-- `ORDER BY updated_at DESC, created_at DESC, document_id DESC LIMIT 1`
unfoldable pub error_compare : OutboxRow → OutboxRow → Ordering
error_compare a b =
    lex (compare a.updated_at b.updated_at)
      (lex (compare a.created_at b.created_at) (text_compare a.document_id b.document_id))

abbrev pub error_after : OutboxRow → OutboxRow → Bool
error_after a b = elim (error_compare a b) [ Ordering.gt ↦ true | _ ↦ false ]

unfoldable pub latest_from : OutboxRow → List OutboxRow → OutboxRow
latest_from best [] = best
latest_from best (row ∷ rows) = latest_from (if error_after row best then row else best) rows

unfoldable pub latest_error : List OutboxRow → Option Text
unfolding latest_from
latest_error [] = none
latest_error (row ∷ rows) = (latest_from row rows).last_error_category

abbrev pub failed_row : OutboxRow → Bool
failed_row row = is_some row.last_error_category

-- The aggregates of the query, by its columns.
unfoldable pub aggregates : Settings → List OutboxRow → OutboxInspection
aggregates settings rows = record {
  ready = true;
  mismatch_count = count_if (is_mismatch settings) rows;
  pending_count = count_if (is_first_attempt settings) rows;
  retry_count = count_if (is_retry settings) rows;
  sending_count = count_if (in_sending settings) rows;
  logical_queued_bytes = logical_bytes rows;
  oldest_created_at = smallest (λ row. row.created_at) rows;
  last_error_category = none;
  max_attempt_count = most_attempts rows;
  next_retry_at = smallest (λ row. row.next_attempt_at) (keep (is_retry settings) rows);
  timeout_errors = count_if (has_category OutboxFailureCategory.retain_timeout) rows;
  failed_errors = count_if (has_category OutboxFailureCategory.retain_failed) rows;
  unconfirmed_errors = count_if (has_category OutboxFailureCategory.retain_unconfirmed) rows;
  sender_ownership = SenderOwnership.free;
}

-- What the connection answers: whether it is read-only, its version, whether the schema is the one
-- expected, and an exception of a statement.
pub record SnapshotView : Type 0 where
  pub query_only : Bool
  pub version : ℕ
  pub schema_valid : Bool
  pub fault : Option Failure

abbrev pub readable : SnapshotView → Bool
readable view =
    view.query_only && view.version == 1 && view.schema_valid && not (is_some view.fault)

abbrev typed_last_error : OutboxInspection → Option OutboxFailureCategory → Option OutboxInspection
typed_last_error inspection none = none
typed_last_error inspection (some category) =
    some (record inspection { last_error_category = some category })

abbrev with_last_error : OutboxInspection → Option Text → Option OutboxInspection
with_last_error inspection none = some inspection
with_last_error inspection (some value) = typed_last_error inspection (category_named value)

-- `none` where the source raises.
unfoldable pub read_status_snapshot :
    Settings → SnapshotView → List OutboxRow → Option OutboxInspection
unfolding aggregates category_named
read_status_snapshot settings view rows =
    let found = aggregates settings rows in
    let counted =
      found.mismatch_count + found.sending_count + found.retry_count + found.pending_count in
    if readable view && count_if is_corrupt rows == 0 && counted == length rows
    then with_last_error found (latest_error (keep failed_row rows))
    else none

-- What the file system answers for one path: no entry, a regular file inside the home, or an error.
pub data FileAnswer : Type 0 where
  absent refused : FileAnswer
  sized : ℕ → FileAnswer

-- What the probe of the lock meets: an answer for its path, the descriptor of `os.open`, the lock,
-- and whether to unlock raises.
pub record ProbeView : Type 0 where
  pub inside_home : Bool
  pub lock_file : FileAnswer
  pub opens : Bool
  pub flock : Flock
  pub unlock_raises : Bool

unfoldable pub probe_lock : Flock → Bool → SenderOwnership
probe_lock Flock.raised unlock_raises = SenderOwnership.unavailable
probe_lock Flock.held unlock_raises = SenderOwnership.held
probe_lock Flock.granted unlock_raises =
    if unlock_raises then SenderOwnership.unavailable else SenderOwnership.free

abbrev probe_file : ProbeView → FileAnswer → SenderOwnership
probe_file view FileAnswer.absent = SenderOwnership.free
probe_file view FileAnswer.refused = SenderOwnership.unavailable
probe_file view (FileAnswer.sized n) =
    if view.opens then probe_lock view.flock view.unlock_raises else SenderOwnership.unavailable

unfoldable pub probe_sender_ownership : ProbeView → SenderOwnership
unfolding probe_lock
probe_sender_ownership view =
    if view.inside_home then probe_file view view.lock_file else SenderOwnership.unavailable

pub record Files : Type 0 where
  pub inside_home : Bool
  pub database : FileAnswer
  pub wal : FileAnswer
  pub shm : FileAnswer
  pub journal : FileAnswer

abbrev is_absent : FileAnswer → Bool
is_absent FileAnswer.absent = true
is_absent _ = false

abbrev is_refused : FileAnswer → Bool
is_refused FileAnswer.refused = true
is_refused _ = false

-- Whole regions of shared memory, of 32768 bytes each, and at least one.
abbrev whole_regions : FileAnswer → Bool
whole_regions (FileAnswer.sized n) = not (ltb n 32768) && n % 32768 == 0
whole_regions _ = true

-- The database is at rest, or its write-ahead log and its shared memory stand beside it.
unfoldable pub consistent_files : Files → Bool
consistent_files files =
    not (is_refused files.database)
    && not (is_refused files.wal)
    && not (is_refused files.shm)
    && is_absent files.journal
    && (if is_absent files.wal
        then is_absent files.shm
        else not (is_absent files.shm) && whole_regions files.shm)

abbrev uninitialized : OutboxInspection
uninitialized = record {
  ready = false;
  mismatch_count = 0;
  pending_count = 0;
  retry_count = 0;
  sending_count = 0;
  logical_queued_bytes = 0;
  oldest_created_at = none;
  last_error_category = none;
  max_attempt_count = 0;
  next_retry_at = none;
  timeout_errors = 0;
  failed_errors = 0;
  unconfirmed_errors = 0;
  sender_ownership = SenderOwnership.free;
}

-- `none` is `OutboxReadError`.
unfoldable pub inspect_outbox :
    Settings → Files → SnapshotView → ProbeView → List OutboxRow → Option OutboxInspection
unfolding consistent_files probe_sender_ownership read_status_snapshot
inspect_outbox settings files view probe rows =
    if not files.inside_home
    then none
    else if is_absent files.database
    then some uninitialized
    else if not (consistent_files files)
    then none
    else elim (read_status_snapshot settings view rows) [
      | none ↦ none
      | some found ↦ some (record found { sender_ownership = probe_sender_ownership probe })
    ]
