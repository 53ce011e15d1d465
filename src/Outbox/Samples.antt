-- ===== src/Outbox/Samples.antt =====
-- A small outbox of better_hermes_hindsight/outbox.py, for the examples.
use better_hermes_hindsight.Common.{
  ℕ, zero, suc, ◌≡◌, refl, true, false, [], ◌∷◌, none, some, Text, text_dec, arith, codes,
  ℕ_discrete, keep, count_if,
}
use better_hermes_hindsight.Common.{utf8_length, total}
use better_hermes_hindsight.Common.Dict.{get, put}
use better_hermes_hindsight.Json.{canonical_json}
use better_hermes_hindsight.Retention.Segment.{
  RetainedSegment, derive_segment_payload_hash, segment_record,
}
use better_hermes_hindsight.Outbox.Types.{
  Settings, SqliteOutbox, OutboxRow, RowState, find_row, payload_schema_version, Immutable-discrete,
  new_row, segment_immutable_values,
}
use better_hermes_hindsight.Outbox.Order.{first_row, row_compare}
use better_hermes_hindsight.Outbox.Lock.{
  Stat, LockView, ProfileLockOwner, owner_descriptor, AcquireView, Flock, release,
  revalidate_profile_lock_identity,
}
use better_hermes_hindsight.Outbox.Table.{IsTable, update_where, delete_where}
use better_hermes_hindsight.Outbox.Validate.{
  valid_segment, validate_candidates, fingerprint, collect, sorted_values, complete_turn,
  same_segment, numbered_from, all_same_source, joined,
}
use better_hermes_hindsight.Outbox.Admission.{admit, run_admission, admit_in_transaction}
use better_hermes_hindsight.Outbox.Admission.Outcome.{WithinCapacity}
use better_hermes_hindsight.Outbox.Claims.{
  Env, matches, recover_sending, claim_due, claim_record, complete_claim, reschedule_claim,
  retry_delay_seconds, valid_claim_guard,
}
use better_hermes_hindsight.Outbox.Lifecycle.{IsSound}

-- A hash of 64 zeros for every text.
abbrev pub zeros : ℕ → Text
zeros zero = []
zeros (suc n) = b'0' ∷ zeros n

abbrev pub hash : Text
hash = zeros 64

abbrev pub settings : Settings
settings = record {
  destination_fingerprint = codes "bank";
  legacy_destination_fingerprint = codes "old bank";
  multimodal_destination_fingerprint = codes "files";
  payload_schema = payload_schema_version;
  multimodal_enabled = false;
  retain_enabled = true;
  max_pending_rows = 3;
  max_pending_bytes = 5000;
  retry_initial_seconds = 5;
  retry_max_seconds = 60;
  segment_max_bytes = 100;
  multimodal_max_encoded_bytes = 100;
  lock_token = 7;
  lock_device = 1;
  lock_inode = 2;
  max_finite_time = 1000000;
  sha256 = λ s. hash;
  decodes_envelope = λ s. false;
}

abbrev pub segment : RetainedSegment
segment = record {
  document_id =
      codes
        "better-hindsight-turn-v2:0000000000000000000000000000000000000000000000000000000000000000";
  payload_hash = hash;
  payload_schema = payload_schema_version;
  source_sha256 = hash;
  segment_index = 0;
  segment_count = 1;
  content = codes "hello";
}

abbrev pub fresh : SqliteOutbox
fresh = record { settings = settings; rows = []; closed = false }

abbrev pub stored_row : OutboxRow
stored_row = record {
  document_id = segment.document_id;
  payload_hash = hash;
  payload_schema = payload_schema_version;
  source_sha256 = hash;
  segment_index = 0;
  segment_count = 1;
  content = codes "hello";
  destination_fingerprint = codes "bank";
  state = RowState.pending;
  attempt_count = 0;
  next_attempt_at = 10;
  last_error_category = none;
  created_at = 10;
  updated_at = 10;
}

abbrev pub one_row : SqliteOutbox
one_row = record { settings = settings; rows = stored_row ∷ []; closed = false }

abbrev pub lock_status : Stat
lock_status = record { is_regular = true; device = 1; inode = 2; user = 1000; mode = 384 }

abbrev pub view : LockView
view = record {
  posix = true;
  effective_user = 1000;
  inside_home = true;
  path_status = some lock_status;
  descriptor_status = some lock_status;
}

abbrev pub owner : ProfileLockOwner
owner = record { descriptor = some 3; token = 7 }

abbrev pub calm : Env
calm = record { fault = none; before = view; after = view }

abbrev pub sending_row : OutboxRow
sending_row = record stored_row { state = RowState.sending; attempt_count = 1; updated_at = 20 }

abbrev pub in_flight : SqliteOutbox
in_flight = record { settings = settings; rows = sending_row ∷ []; closed = false }

abbrev pub attempt : AcquireView
attempt = record { opened = some 3; before = view; flock = Flock.granted; after = view }

-- The definitions that the examples run.
unfoldable pub program : Unit {0}
unfolding text_dec Immutable-discrete ℕ_discrete admit run_admission admit_in_transaction
    validate_candidates collect sorted_values complete_turn numbered_from all_same_source joined
    valid_segment derive_segment_payload_hash canonical_json segment_record fingerprint same_segment
    new_row segment_immutable_values find_row claim_due claim_record complete_claim reschedule_claim
    recover_sending retry_delay_seconds owner_descriptor first_row row_compare matches update_where
    delete_where keep count_if utf8_length total get put release valid_claim_guard
    revalidate_profile_lock_identity
program = tt

pub one_row-IsTable : IsTable one_row.rows
unfolding program
one_row-IsTable = (refl, tt)

one_row-WithinCapacity : WithinCapacity settings one_row.rows
unfolding program
one_row-WithinCapacity = omega arith

pub one_row-IsSound : IsSound one_row
one_row-IsSound = record { table = one_row-IsTable; within = one_row-WithinCapacity }

pub stored_found : find_row stored_row.document_id one_row.rows ≡ some stored_row
unfolding program
stored_found = refl
