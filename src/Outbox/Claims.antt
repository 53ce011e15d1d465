-- ===== src/Outbox/Claims.antt =====
-- The owner-only transitions of `SQLiteOutbox` in better_hermes_hindsight/outbox.py: recovery, claim,
-- completion, rescheduling, and the next retry deadline. Each is one transaction: a failing
-- statement rolls it back.
pub mod Retry
pub mod Claim
pub mod Finish
use better_hermes_hindsight.Common.{
  ℕ, zero, suc, ◌+◌, ◌-◌, ◌*◌, Bool, true, false, ◌&&◌, ◌||◌, not, List, [], ◌∷◌, Option, none,
  some, if◌then◌else◌, ltb, leb, ◌==◌, is_some, Text, same, non_empty, keep, count_if, min,
}
use better_hermes_hindsight.Outbox.Types.{
  Settings, SqliteOutbox, OutboxRow, RowState, is_pending, is_sending, OutboxClaimResult,
  OutboxClaimStatus, OutboxTransitionResult, OutboxTransitionStatus, OutboxFailureCategory,
  category_value, WallTime, valid_wall_time, Failure, legacy_payload_schema_version,
  multimodal_payload_schema,
}
use better_hermes_hindsight.Outbox.Order.{first_row}
use better_hermes_hindsight.Outbox.Lock.{LockView, ProfileLockOwner, owner_descriptor}
use better_hermes_hindsight.Outbox.Table.{update_where, delete_where, at_key}

-- What one transaction meets: an exception of a statement that it executes, and the lock file
-- before the first statement and after the last.
pub record Env : Type 0 where
  pub fault : Option Failure
  pub before : LockView
  pub after : LockView

abbrev pub owns : Settings → LockView → ProfileLockOwner → Bool
owns settings view owner = is_some (owner_descriptor settings view owner)

-- The checks before the transaction, and a transaction that raises nothing.
abbrev pub may_run : SqliteOutbox → ProfileLockOwner → Env → Bool
may_run box owner env =
    not (box.closed || not (owns box.settings env.before owner)) && not (is_some env.fault)

abbrev pub transition_failed : OutboxTransitionResult
transition_failed = record { status = OutboxTransitionStatus.local_failure; affected_count = 0 }

abbrev pub transition_applied : ℕ → OutboxTransitionResult
transition_applied n = record { status = OutboxTransitionStatus.applied; affected_count = n }

abbrev pub recovered : ℕ → OutboxRow → OutboxRow
recovered now row = record row { state = RowState.pending; next_attempt_at = now; updated_at = now }

unfoldable pub recover_sending :
    SqliteOutbox → ProfileLockOwner → WallTime → Env → OutboxTransitionResult × SqliteOutbox
recover_sending box owner now env = elim (valid_wall_time now) [
  | none ↦ (transition_failed, box)
  | some t ↦
      if may_run box owner env && owns box.settings env.after owner
      then (
        transition_applied (count_if (λ row. is_sending row.state) box.rows),
        record box { rows = update_where (λ row. is_sending row.state) (recovered t) box.rows },
      )
      else (transition_failed, box)
]

-- The destinations and schemas that the queries accept together.
unfoldable pub matches : Settings → OutboxRow → Bool
matches settings row =
    same row.destination_fingerprint settings.destination_fingerprint
      && same row.payload_schema settings.payload_schema
    || same row.destination_fingerprint settings.legacy_destination_fingerprint
      && same row.payload_schema legacy_payload_schema_version
    || same row.destination_fingerprint (
        if settings.multimodal_enabled && settings.retain_enabled
        then settings.multimodal_destination_fingerprint
        else [])
      && same row.payload_schema multimodal_payload_schema

abbrev pub is_due : Settings → ℕ → OutboxRow → Bool
is_due settings now row =
    is_pending row.state && leb row.next_attempt_at now && matches settings row

-- The guard of the claiming update, beside the key.
abbrev pub still_due : OutboxRow → ℕ → OutboxRow → Bool
still_due record' now row =
    is_pending row.state
    && row.attempt_count == record'.attempt_count
    && leb row.next_attempt_at now
    && same row.destination_fingerprint record'.destination_fingerprint
    && same row.payload_schema record'.payload_schema

abbrev pub sent : ℕ → OutboxRow → OutboxRow
sent now row = record row {
  state = RowState.sending;
  attempt_count = row.attempt_count + 1;
  updated_at = now;
}

abbrev pub claim_failed : OutboxClaimResult
claim_failed = record { status = OutboxClaimStatus.local_failure; row = none }

-- The guarded update and its check, once the query has returned a record.
unfoldable pub claim_record :
    SqliteOutbox → ProfileLockOwner → ℕ → Env → OutboxRow → OutboxClaimResult × SqliteOutbox
claim_record box owner now env found =
    let guard = at_key found.document_id (still_due found now) in
    if count_if guard box.rows == 1 && owns box.settings env.after owner
    then (
      record { status = OutboxClaimStatus.claimed; row = some (sent now found) },
      record box { rows = update_where guard (sent now) box.rows },
    )
    else (claim_failed, box)

unfoldable pub claim_due :
    SqliteOutbox → ProfileLockOwner → WallTime → Env → OutboxClaimResult × SqliteOutbox
claim_due box owner now env = elim (valid_wall_time now) [
  | none ↦ (claim_failed, box)
  | some t ↦
      if may_run box owner env
      then elim (first_row (keep (is_due box.settings t) box.rows)) [
        | none ↦ (record { status = OutboxClaimStatus.empty; row = none }, box)
        | some found ↦ claim_record box owner t env found
      ]
      else (claim_failed, box)
]

unfoldable pub valid_claim_guard : Text → ℕ → Bool
valid_claim_guard document_id attempt_count = non_empty document_id && ltb 0 attempt_count

-- `WHERE document_id=? AND state='sending' AND attempt_count=?`
abbrev pub claimed_attempt : ℕ → OutboxRow → Bool
claimed_attempt attempt_count row = is_sending row.state && row.attempt_count == attempt_count

unfoldable pub complete_claim :
    SqliteOutbox → ProfileLockOwner → Text → ℕ → Env → OutboxTransitionResult × SqliteOutbox
unfolding valid_claim_guard
complete_claim box owner document_id attempt_count env =
    let guard = at_key document_id (claimed_attempt attempt_count) in
    if valid_claim_guard document_id attempt_count
      && may_run box owner env
      && count_if guard box.rows == 1
      && owns box.settings env.after owner
    then (transition_applied 1, record box { rows = delete_where guard box.rows })
    else (transition_failed, box)

-- The doubling loop of `_retry_delay_seconds`, on the rounds that remain.
double_until : ℕ → ℕ → ℕ → ℕ
double_until zero maximum delay = delay
double_until (suc remaining) maximum delay =
    let next = double_until remaining maximum (min (delay * 2) maximum) in
    if ltb delay maximum then next else delay

unfoldable pub retry_delay_seconds : ℕ → ℕ → ℕ → ℕ
unfolding double_until
retry_delay_seconds attempt_count initial maximum =
    if leb initial 0 || leb maximum initial
    then initial
    else double_until (attempt_count - 1) maximum initial

abbrev pub rescheduled : ℕ → OutboxFailureCategory → ℕ → OutboxRow → OutboxRow
rescheduled next category now row = record row {
  state = RowState.pending;
  next_attempt_at = next;
  last_error_category = some (category_value category);
  updated_at = now;
}

unfoldable pub reschedule_claim :
    SqliteOutbox
    → ProfileLockOwner
    → Text
    → ℕ
    → OutboxFailureCategory
    → WallTime
    → Env
    → OutboxTransitionResult × SqliteOutbox
unfolding valid_claim_guard
reschedule_claim box owner document_id attempt_count category completed_at env =
    elim (valid_wall_time completed_at) [
      | none ↦ (transition_failed, box)
      | some t ↦
          let guard = at_key document_id (claimed_attempt attempt_count) in
          let next =
            t
            + retry_delay_seconds attempt_count box.settings.retry_initial_seconds
                box.settings.retry_max_seconds in
          if valid_claim_guard document_id attempt_count
            && leb next box.settings.max_finite_time
            && may_run box owner env
            && count_if guard box.rows == 1
            && owns box.settings env.after owner
          then (
            transition_applied 1,
            record box { rows = update_where guard (rescheduled next category t) box.rows },
          )
          else (transition_failed, box)
    ]

-- `SELECT MIN(next_attempt_at)` over the matching pending rows.
unfoldable pub earliest : List OutboxRow → Option ℕ
earliest [] = none
earliest (row ∷ rows) = elim (earliest rows) [
  | none ↦ some row.next_attempt_at
  | some t ↦ some (min row.next_attempt_at t)
]

-- `none` is `OutboxReadError`.
unfoldable pub next_matching_retry_deadline : SqliteOutbox → Option Failure → Option (Option ℕ)
unfolding earliest
next_matching_retry_deadline box fault =
    if box.closed || is_some fault
    then none
    else some (earliest (keep (λ row. is_pending row.state && matches box.settings row) box.rows))
