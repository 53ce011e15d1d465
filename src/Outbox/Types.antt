-- ===== src/Outbox/Types.antt =====
-- The data of better_hermes_hindsight/outbox.py: statuses, rows, results, and what one `SQLiteOutbox`
-- keeps. Times are whole ticks of the float clock; the table is the list of its rows.
use better_hermes_hindsight.Common.{
  ℕ, ◌+◌, Bool, true, false, ◌||◌, List, [], ◌∷◌, Option, none, some, ◌==◌, if◌then◌else◌, Text,
  codes, same, utf8_length, ◌%◌, holds, ℕ_discrete,
}
use better_hermes_hindsight.Retention.Segment.{RetainedSegment}

pub data AdmissionStatus : Type 0 where
  admitted duplicate capacity_exceeded conflict contended local_failure invalid : AdmissionStatus

pub data ProfileLockStatus : Type 0 where
  acquired contended local_failure : ProfileLockStatus

pub data OutboxClaimStatus : Type 0 where
  claimed empty local_failure : OutboxClaimStatus

pub data OutboxTransitionStatus : Type 0 where
  applied local_failure : OutboxTransitionStatus

pub data OutboxFailureCategory : Type 0 where
  retain_timeout retain_failed retain_unconfirmed : OutboxFailureCategory

abbrev pub category_value : OutboxFailureCategory → Text
category_value OutboxFailureCategory.retain_timeout = codes "retain_timeout"
category_value OutboxFailureCategory.retain_failed = codes "retain_failed"
category_value OutboxFailureCategory.retain_unconfirmed = codes "retain_unconfirmed"

pub record AdmissionResult : Type 0 where
  pub status : AdmissionStatus
  pub inserted_count : ℕ
  pub duplicate_count : ℕ

abbrev pub accepted : AdmissionStatus → Bool
accepted AdmissionStatus.admitted = true
accepted AdmissionStatus.duplicate = true
accepted _ = false

pub data RowState : Type 0 where
  pending sending : RowState

abbrev pub is_pending : RowState → Bool
is_pending RowState.pending = true
is_pending RowState.sending = false

abbrev pub is_sending : RowState → Bool
is_sending RowState.pending = false
is_sending RowState.sending = true

pub record OutboxRow : Type 0 where
  pub document_id : Text
  pub payload_hash : Text
  pub payload_schema : Text
  pub source_sha256 : Text
  pub segment_index : ℕ
  pub segment_count : ℕ
  pub content : Text
  pub destination_fingerprint : Text
  pub state : RowState
  pub attempt_count : ℕ
  pub next_attempt_at : ℕ
  pub last_error_category : Option Text
  pub created_at : ℕ
  pub updated_at : ℕ

pub record OutboxClaimResult : Type 0 where
  pub status : OutboxClaimStatus
  pub row : Option OutboxRow

pub record OutboxTransitionResult : Type 0 where
  pub status : OutboxTransitionStatus
  pub affected_count : ℕ

abbrev pub legacy_payload_schema_version : Text
legacy_payload_schema_version = codes "better-hindsight-turn-v1"

abbrev pub payload_schema_version : Text
payload_schema_version = codes "better-hindsight-turn-v2"

abbrev pub multimodal_payload_schema : Text
multimodal_payload_schema = codes "better-hindsight-multimodal-v1"

abbrev pub outbox_row_accounting_allowance_bytes : ℕ
outbox_row_accounting_allowance_bytes = 1024

-- What the constructor copies from the configuration, and the external functions: `sha256` of a
-- text's UTF-8 bytes, the acceptance test of `decode_envelope`, and the largest finite time.
pub record Settings : Type 0 where
  pub destination_fingerprint : Text
  pub legacy_destination_fingerprint : Text
  pub multimodal_destination_fingerprint : Text
  pub payload_schema : Text
  pub multimodal_enabled : Bool
  pub retain_enabled : Bool
  pub max_pending_rows : ℕ
  pub max_pending_bytes : ℕ
  pub retry_initial_seconds : ℕ
  pub retry_max_seconds : ℕ
  pub segment_max_bytes : ℕ
  pub multimodal_max_encoded_bytes : ℕ
  pub lock_token : ℕ
  pub lock_device : ℕ
  pub lock_inode : ℕ
  pub max_finite_time : ℕ
  pub sha256 : Text → Text
  pub decodes_envelope : Text → Bool

pub record SqliteOutbox : Type 0 where
  pub settings : Settings
  pub rows : List OutboxRow
  pub closed : Bool

-- A Python value that is handed over as a time.
pub data WallTime : Type 0 where
  wrong_type negative not_finite : WallTime
  at : ℕ → WallTime

abbrev pub valid_wall_time : WallTime → Option ℕ
valid_wall_time (WallTime.at t) = some t
valid_wall_time _ = none

-- An exception that a statement of the transaction raises: SQLite's own, with its result code
-- where it has one, or another.
pub data Failure : Type 0 where
  sqlite : Option ℕ → Failure
  other : Failure

-- `_is_contention`: SQLITE_BUSY is 5 and SQLITE_LOCKED is 6, in the low byte of the code.
unfoldable pub is_contention : Failure → Bool
is_contention (Failure.sqlite (some code)) =
    let primary = code % 256 in primary == 5 || primary == 6
is_contention _ = false

-- The values of a row that no transition changes, as `_segment_immutable_values` lists them.
pub record Immutable : Type 0 where
  pub payload_hash : Text
  pub payload_schema : Text
  pub source_sha256 : Text
  pub segment_index : ℕ
  pub segment_count : ℕ
  pub content : Text
  pub destination_fingerprint : Text

unfoldable pub segment_immutable_values : RetainedSegment → Text → Immutable
segment_immutable_values segment fingerprint = record {
  payload_hash = segment.payload_hash;
  payload_schema = segment.payload_schema;
  source_sha256 = segment.source_sha256;
  segment_index = segment.segment_index;
  segment_count = segment.segment_count;
  content = segment.content;
  destination_fingerprint = fingerprint;
}

-- The columns that the admission query selects.
abbrev pub row_immutable_values : OutboxRow → Immutable
row_immutable_values row = record {
  payload_hash = row.payload_hash;
  payload_schema = row.payload_schema;
  source_sha256 = row.source_sha256;
  segment_index = row.segment_index;
  segment_count = row.segment_count;
  content = row.content;
  destination_fingerprint = row.destination_fingerprint;
}

-- `SELECT ... WHERE document_id = ?`
unfoldable pub find_row : Text → List OutboxRow → Option OutboxRow
find_row id [] = none
find_row id (row ∷ rows) = if same row.document_id id then some row else find_row id rows

unfoldable pub Immutable-discrete : Discrete Immutable
unfolding ℕ_discrete
Immutable-discrete = hlevel ℕ_discrete

-- `a == b` on such tuples.
abbrev pub same_values : Immutable → Immutable → Bool
same_values a b = holds (Immutable-discrete a b)

-- The logical bytes that a row counts for.
abbrev pub row_bytes : OutboxRow → ℕ
row_bytes row = utf8_length row.content + outbox_row_accounting_allowance_bytes

-- The row that an insertion of `segment` at `timestamp` writes.
unfoldable pub new_row : Text → ℕ → RetainedSegment → OutboxRow
new_row fingerprint timestamp segment = record {
  document_id = segment.document_id;
  payload_hash = segment.payload_hash;
  payload_schema = segment.payload_schema;
  source_sha256 = segment.source_sha256;
  segment_index = segment.segment_index;
  segment_count = segment.segment_count;
  content = segment.content;
  destination_fingerprint = fingerprint;
  state = RowState.pending;
  attempt_count = 0;
  next_attempt_at = timestamp;
  last_error_category = none;
  created_at = timestamp;
  updated_at = timestamp;
}
