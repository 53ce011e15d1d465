-- ===== src/Outbox/Claims/Finish.antt =====
-- What `complete_claim` and `reschedule_claim` of better_hermes_hindsight/outbox.py do to the table.
use better_hermes_hindsight.Common.{
  ℕ, ◌+◌, ◌≤◌, ◌≡◌, refl, ◌≢◌, true, false, none, some, if◌then◌else◌, Text, same, arith,
  Option-cases, inl, inr, count_if, ◌==◌, ◌∙◌,
}
use better_hermes_hindsight.Outbox.Types.{
  SqliteOutbox, OutboxRow, RowState, find_row, OutboxTransitionStatus, WallTime,
  OutboxFailureCategory,
}
use better_hermes_hindsight.Outbox.Lock.{ProfileLockOwner}
use better_hermes_hindsight.Outbox.Table.{
  IsTable, find_row-update_self, find_row-update_others, find_row-delete_key, count_at_key, at_key,
  passes, delete_where, update_where,
}
use better_hermes_hindsight.Outbox.Claims.{
  Env, complete_claim, reschedule_claim, claimed_attempt, retry_delay_seconds, rescheduled,
  transition_failed,
}

-- The row of `id` is in flight with this attempt.
pub record InFlight (box : SqliteOutbox) (id : Text) (attempt : ℕ) (row : OutboxRow) : Type 0 where
  pub stored : find_row id box.rows ≡ some row
  pub in_sending : row.state ≡ RowState.sending
  pub attempts : row.attempt_count ≡ attempt

InFlight-of_count :
    (box : SqliteOutbox) (id : Text) (attempt : ℕ)
    → IsTable box.rows
    → (count_if (at_key id (claimed_attempt attempt)) box.rows == 1) ≡ true
    → (row : OutboxRow) × InFlight box id attempt row
InFlight-of_count box id attempt table one = elim (Option-cases (find_row id box.rows)) [
  | inl absent ↦ absurd (ground (arith, count_at_key id (claimed_attempt attempt) box.rows table))
  | inr (row, stored) ↦ (
    row,
    record {
      stored = stored;
      in_sending = ground (arith, count_at_key id (claimed_attempt attempt) box.rows table);
      attempts = ground (arith, count_at_key id (claimed_attempt attempt) box.rows table);
    },
  )
]

complete_claim_runs :
    (box : SqliteOutbox) (owner : ProfileLockOwner) (id : Text) (attempt : ℕ) (env : Env)
    → (complete_claim box owner id attempt env).0.status ≡ OutboxTransitionStatus.applied
    → ((count_if (at_key id (claimed_attempt attempt)) box.rows == 1) ≡ true)
      × ((complete_claim box owner id attempt env).1.rows
          ≡ delete_where (at_key id (claimed_attempt attempt)) box.rows)
unfolding complete_claim
complete_claim_runs box owner id attempt env h = ground arith

claimed_attempt_of :
    (box : SqliteOutbox) (id : Text) (attempt : ℕ) (row : OutboxRow)
    → InFlight box id attempt row
    → claimed_attempt attempt row ≡ true
claimed_attempt_of box id attempt row f = ground (arith, f.in_sending, f.attempts)

-- On a table with unique keys, a completion that is applied had its row in flight with that very
-- attempt; it deletes this row and leaves every other.
pub complete_claim-applied :
    (box : SqliteOutbox) (owner : ProfileLockOwner) (id : Text) (attempt : ℕ) (env : Env)
    → IsTable box.rows
    → (complete_claim box owner id attempt env).0.status ≡ OutboxTransitionStatus.applied
    → (row : OutboxRow) × InFlight box id attempt row
      × ((j : Text)
          → find_row j (complete_claim box owner id attempt env).1.rows
            ≡ (if same j id then none else find_row j box.rows))
complete_claim-applied box owner id attempt env table h =
    let (one, rows) = complete_claim_runs box owner id attempt env h in
    let (row, flight) = InFlight-of_count box id attempt table one in
    (
      row,
      flight,
      λ j. rw rows (
          find_row-delete_key id (claimed_attempt attempt) j box.rows table flight.stored
            (claimed_attempt_of box id attempt row flight)),
    )

-- A completion or a rescheduling whose attempt is not the one in flight fails and changes nothing:
-- the row is missing, is pending again, or has been claimed once more.
pub stale_attempt_refused :
    (box : SqliteOutbox) (owner : ProfileLockOwner) (id : Text) (attempt : ℕ)
    (category : OutboxFailureCategory) (completed_at : WallTime) (env : Env)
    → IsTable box.rows
    → passes (claimed_attempt attempt) (find_row id box.rows) ≡ false
    → (complete_claim box owner id attempt env ≡ (transition_failed, box))
      × (reschedule_claim box owner id attempt category completed_at env ≡ (transition_failed, box))
unfolding complete_claim reschedule_claim
stale_attempt_refused box owner id attempt category completed_at env table stale =
    let none_counted : count_if (at_key id (claimed_attempt attempt)) box.rows ≡ 0 =
      count_at_key id (claimed_attempt attempt) box.rows table ∙ rw stale in
    (ground (arith, none_counted), ground (arith, none_counted))

-- The time at which a failed attempt is due again.
abbrev pub due_again : SqliteOutbox → ℕ → ℕ → ℕ
due_again box attempt t =
    t
    + retry_delay_seconds attempt box.settings.retry_initial_seconds box.settings.retry_max_seconds

reschedule_claim_runs :
    (box : SqliteOutbox) (owner : ProfileLockOwner) (id : Text) (attempt : ℕ)
    (category : OutboxFailureCategory) (t : ℕ) (env : Env)
    → (reschedule_claim box owner id attempt category (WallTime.at t) env).0.status
      ≡ OutboxTransitionStatus.applied
    → ((count_if (at_key id (claimed_attempt attempt)) box.rows == 1) ≡ true)
      × (due_again box attempt t ≤ box.settings.max_finite_time)
      × ((reschedule_claim box owner id attempt category (WallTime.at t) env).1.rows
          ≡ update_where
              (at_key id (claimed_attempt attempt))
              (rescheduled (due_again box attempt t) category t)
              box.rows)
unfolding reschedule_claim
reschedule_claim_runs box owner id attempt category t env h = ground arith

-- On a table with unique keys, a rescheduling that is applied had its row in flight with that very
-- attempt; the row becomes pending again with its attempts kept, due after the retry delay, with the
-- category recorded, and every other row is left.
pub reschedule_claim-applied :
    (box : SqliteOutbox) (owner : ProfileLockOwner) (id : Text) (attempt : ℕ)
    (category : OutboxFailureCategory) (t : ℕ) (env : Env)
    → IsTable box.rows
    → (reschedule_claim box owner id attempt category (WallTime.at t) env).0.status
      ≡ OutboxTransitionStatus.applied
    → let box' = (reschedule_claim box owner id attempt category (WallTime.at t) env).1 in
      (row : OutboxRow) × InFlight box id attempt row
      × (find_row id box'.rows ≡ some (rescheduled (due_again box attempt t) category t row))
      × ((j : Text) → j ≢ id → find_row j box'.rows ≡ find_row j box.rows)
reschedule_claim-applied box owner id attempt category t env table h =
    let (one, finite, rows) = reschedule_claim_runs box owner id attempt category t env h in
    let (row, flight) = InFlight-of_count box id attempt table one in
    let next = rescheduled (due_again box attempt t) category t in
    (
      row,
      flight,
      rw rows (
          find_row-update_self id (claimed_attempt attempt) next (λ r. refl) box.rows flight.stored
            (claimed_attempt_of box id attempt row flight)),
      λ j other.
          rw rows
            (find_row-update_others id (claimed_attempt attempt) next (λ r. refl) j box.rows other),
    )
