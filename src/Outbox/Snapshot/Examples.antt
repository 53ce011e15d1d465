-- ===== src/Outbox/Snapshot/Examples.antt =====
-- The status of a small outbox: concrete inputs, and instances of the theorems about it.
use better_hermes_hindsight.Common.{◌≡◌, refl, true, false, [], ◌∷◌, none, some, codes, ◌*◌}
use better_hermes_hindsight.Outbox.Types.{OutboxRow, SqliteOutbox, OutboxFailureCategory, WallTime}
use better_hermes_hindsight.Outbox.Lock.{Flock}
use better_hermes_hindsight.Outbox.Samples.{
  program, settings, segment, fresh, stored_row, sending_row, owner, calm,
}
use better_hermes_hindsight.Outbox.Admission.{admit}
use better_hermes_hindsight.Outbox.Claims.{claim_due}
use better_hermes_hindsight.Outbox.Lifecycle.{Step}
use better_hermes_hindsight.Outbox.Lifecycle.Runs.{Run, done, then_run}
use better_hermes_hindsight.Outbox.Snapshot.{
  OutboxInspection, SnapshotView, read_status_snapshot, aggregates, is_corrupt, category_named,
  smallest, most_attempts, latest_error, latest_from, error_compare, inspect_outbox, Files,
  FileAnswer, ProbeView, SenderOwnership, consistent_files, probe_sender_ownership, probe_lock,
}
use better_hermes_hindsight.Outbox.Snapshot.Counts.{Accounts}
use better_hermes_hindsight.Outbox.Snapshot.Clean.{Run-Accounts}

reads : Unit {0}
unfolding program read_status_snapshot aggregates is_corrupt category_named smallest most_attempts
    latest_error latest_from error_compare inspect_outbox consistent_files probe_sender_ownership
    probe_lock
reads = tt

abbrev connection : SnapshotView
connection = record { query_only = true; version = 1; schema_valid = true; fault = none }

abbrev files : Files
files = record {
  inside_home = true;
  database = FileAnswer.sized 4096;
  wal = FileAnswer.sized 0;
  shm = FileAnswer.sized 32768;
  journal = FileAnswer.absent;
}

abbrev probe : ProbeView
probe = record {
  inside_home = true;
  lock_file = FileAnswer.sized 0;
  opens = true;
  flock = Flock.held;
  unlock_raises = false;
}

abbrev tried : OutboxRow
tried = record stored_row {
  document_id = codes "b";
  attempt_count = 2;
  next_attempt_at = 30;
  last_error_category = some (codes "retain_failed");
  updated_at = 25;
  created_at = 9;
}

abbrev foreign : OutboxRow
foreign = record stored_row { document_id = codes "c"; destination_fingerprint = codes "other" }

abbrev found : OutboxInspection
found = record {
  ready = true;
  mismatch_count = 1;
  pending_count = 0;
  retry_count = 1;
  sending_count = 1;
  logical_queued_bytes = 3 * 1029;
  oldest_created_at = some 9;
  last_error_category = some OutboxFailureCategory.retain_failed;
  max_attempt_count = 2;
  next_retry_at = some 30;
  timeout_errors = 0;
  failed_errors = 1;
  unconfirmed_errors = 0;
  sender_ownership = SenderOwnership.held;
}

inspects :
    inspect_outbox settings files connection probe (sending_row ∷ tried ∷ foreign ∷ []) ≡ some found
unfolding reads
inspects = refl

refuses_journal :
    inspect_outbox settings (record files { journal = FileAnswer.sized 9 }) connection probe []
    ≡ none
unfolding reads
refuses_journal = refl

refuses_partial_region :
    inspect_outbox settings (record files { shm = FileAnswer.sized 40000 }) connection probe []
    ≡ none
unfolding reads
refuses_partial_region = refl

abbrev admitted : SqliteOutbox
admitted = (admit fresh none 10 (segment ∷ [])).1

abbrev admit_then_claim : Run fresh (claim_due admitted owner (WallTime.at 20) calm).1
admit_then_claim =
    then_run (Step.admits fresh none 10 (segment ∷ []))
      (then_run (Step.claims admitted owner (WallTime.at 20) calm) (done _))

Run-Accounts_example :
    (found : OutboxInspection) × (read_status_snapshot settings connection
        (claim_due admitted owner (WallTime.at 20) calm).1.rows
      ≡ some found)
    × Accounts settings (claim_due admitted owner (WallTime.at 20) calm).1.rows found
Run-Accounts_example = Run-Accounts settings connection admit_then_claim refl refl
