-- ===== src/Outbox/Lifecycle.antt =====
-- Runs of the outbox of better_hermes_hindsight/outbox.py: any sequence of admissions, recoveries,
-- claims, completions, reschedulings and closings, by any owner, at any times and under any faults.
pub mod Runs
use better_hermes_hindsight.Common.{
  ℕ, zero, suc, ◌+◌, ◌≤◌, ◌≡◌, refl, ◌≢◌, Bool, true, false, ◌&&◌, List, [], ◌∷◌, ◌++◌, Option,
  none, some, map, if◌then◌else◌, ◌==◌, Text, same, text_dec, length, All, arith, Bool-cases,
  Option-cases, inl, inr, ◌⊎◌, sym, subst, ◌∙◌, keep, ap, is_some, holds,
}
use better_hermes_hindsight.Retention.Segment.{RetainedSegment}
use better_hermes_hindsight.Outbox.Types.{
  Settings, SqliteOutbox, OutboxRow, RowState, find_row, Failure, accepted, WallTime,
  OutboxFailureCategory, OutboxTransitionStatus, row_immutable_values, OutboxClaimStatus,
  is_sending, valid_wall_time,
}
use better_hermes_hindsight.Outbox.Order.{first_row}
use better_hermes_hindsight.Outbox.Lock.{ProfileLockOwner}
use better_hermes_hindsight.Outbox.Table.{
  IsTable, update_where, delete_where, update_where-IsTable, delete_where-IsTable,
  update_where_usage, delete_where_usage, find_row-update_where, updated, KeepsKey, logical_bytes,
  at_key,
}
use better_hermes_hindsight.Outbox.Admission.{admit}
use better_hermes_hindsight.Outbox.Admission.Outcome.{WithinCapacity}
use better_hermes_hindsight.Outbox.Admission.Atomic.{admit_refused, admit-Accepted}
use better_hermes_hindsight.Outbox.Claims.{
  Env, recover_sending, claim_due, claim_record, complete_claim, reschedule_claim, recovered, sent,
  rescheduled, claimed_attempt, is_due, still_due,
}
use better_hermes_hindsight.Outbox.Claims.Finish.{complete_claim-applied, InFlight, due_again}

-- `SQLiteOutbox.close`
unfoldable pub close : SqliteOutbox → SqliteOutbox
close box = if box.closed then box else record box { closed = true }

pub data Step : SqliteOutbox → SqliteOutbox → Type 0 where
  admits :
      (box : SqliteOutbox) (fault : Option Failure) (timestamp : ℕ)
      (segments : List RetainedSegment)
      → Step box (admit box fault timestamp segments).1
  recovers :
      (box : SqliteOutbox) (owner : ProfileLockOwner) (now : WallTime) (env : Env)
      → Step box (recover_sending box owner now env).1
  claims :
      (box : SqliteOutbox) (owner : ProfileLockOwner) (now : WallTime) (env : Env)
      → Step box (claim_due box owner now env).1
  completes :
      (box : SqliteOutbox) (owner : ProfileLockOwner) (id : Text) (attempt : ℕ) (env : Env)
      → Step box (complete_claim box owner id attempt env).1
  reschedules :
      (box : SqliteOutbox) (owner : ProfileLockOwner) (id : Text) (attempt : ℕ)
      (category : OutboxFailureCategory) (completed_at : WallTime) (env : Env)
      → Step box (reschedule_claim box owner id attempt category completed_at env).1
  closes : (box : SqliteOutbox) → Step box (close box)

-- The keys are unique and the capacity is respected.
pub record IsSound (box : SqliteOutbox) : Type 0 where
  pub table : IsTable box.rows
  pub within : WithinCapacity box.settings box.rows

-- What a statement of a transition does to the rows.
data Change : List OutboxRow → List OutboxRow → Type 0 where
  nothing : (rows : List OutboxRow) → Change rows rows
  update :
      (p : OutboxRow → Bool) (f : OutboxRow → OutboxRow) (rows : List OutboxRow)
      → KeepsKey f
      → ((row : OutboxRow) → row_immutable_values (f row) ≡ row_immutable_values row)
      → ((row : OutboxRow) → row.attempt_count ≤ (f row).attempt_count)
      → Change rows (update_where p f rows)

Change-of :
    (rows rows' : List OutboxRow) (p : OutboxRow → Bool) (f : OutboxRow → OutboxRow)
    → KeepsKey f
    → ((row : OutboxRow) → row_immutable_values (f row) ≡ row_immutable_values row)
    → ((row : OutboxRow) → row.attempt_count ≤ (f row).attempt_count)
    → (rows' ≡ rows) ⊎ (rows' ≡ update_where p f rows)
    → Change rows rows'
Change-of rows rows' p f key values attempts (inl e) = subst (Change rows) (sym e) (nothing rows)
Change-of rows rows' p f key values attempts (inr e) =
    subst (Change rows) (sym e) (update p f rows key values attempts)

recover_sending-Change :
    (box : SqliteOutbox) (owner : ProfileLockOwner) (now : WallTime) (env : Env)
    → Change box.rows (recover_sending box owner now env).1.rows
unfolding recover_sending
recover_sending-Change box owner (WallTime.at t) env =
    Change-of box.rows _ (λ row. is_sending row.state) (recovered t) (λ row. refl) (λ row. refl)
      (λ row. omega arith) (ground arith)
recover_sending-Change box owner _ env = nothing box.rows

reschedule_claim-Change :
    (box : SqliteOutbox) (owner : ProfileLockOwner) (id : Text) (attempt : ℕ)
    (category : OutboxFailureCategory) (completed_at : WallTime) (env : Env)
    → Change box.rows (reschedule_claim box owner id attempt category completed_at env).1.rows
unfolding reschedule_claim
reschedule_claim-Change box owner id attempt category (WallTime.at t) env =
    Change-of box.rows _ (at_key id (claimed_attempt attempt))
      (rescheduled (due_again box attempt t) category t) (λ row. refl) (λ row. refl)
      (λ row. omega arith) (ground arith)
reschedule_claim-Change box owner id attempt category _ env = nothing box.rows

claim_due-Change :
    (box : SqliteOutbox) (owner : ProfileLockOwner) (now : WallTime) (env : Env)
    → Change box.rows (claim_due box owner now env).1.rows
unfolding claim_due claim_record
claim_due-Change box owner (WallTime.at t) env =
    elim (Option-cases (first_row (keep (is_due box.settings t) box.rows))) [
      | inl none_due ↦
          let same_rows : (claim_due box owner (WallTime.at t) env).1.rows ≡ box.rows =
            ground (arith, none_due) in
          subst (Change box.rows) (sym same_rows) (nothing box.rows)
      | inr (found, is_first) ↦
          Change-of box.rows _ (at_key found.document_id (still_due found t)) (sent t) (λ row. refl)
            (λ row. refl) (λ row. omega arith) (ground (arith, is_first))
    ]
claim_due-Change box owner _ env = nothing box.rows

Change-IsSound :
    {rows rows' : List OutboxRow} (settings : Settings)
    → Change rows rows'
    → IsTable rows × WithinCapacity settings rows
    → IsTable rows' × WithinCapacity settings rows'
Change-IsSound settings (nothing rows) h = h
Change-IsSound settings (update p f rows key values attempts) h =
    let (count, bytes) = update_where_usage p f (λ row. ap (λ v. v.content) (values row)) rows in
    (
      update_where-IsTable p f key rows h.0,
      record {
        rows_fit = omega (arith, h.1.rows_fit, count);
        bytes_fit = omega (arith, h.1.bytes_fit, bytes);
      },
    )

-- The row `row` is still there: under its key, with its immutable values, and with no fewer attempts.
pub record Kept (row : OutboxRow) (rows : List OutboxRow) : Type 0 where
  pub now : OutboxRow
  pub found : find_row row.document_id rows ≡ some now
  pub values : row_immutable_values now ≡ row_immutable_values row
  pub attempts : row.attempt_count ≤ now.attempt_count

Change-Kept :
    {rows rows' : List OutboxRow} (row : OutboxRow)
    → Change rows rows'
    → find_row row.document_id rows ≡ some row
    → Kept row rows'
Change-Kept row (nothing rows) stored = record {
  now = row;
  found = stored;
  values = refl;
  attempts = omega arith;
}
Change-Kept row (update p f rows key values attempts) stored = record {
  now = if p row then f row else row;
  found = find_row-update_where p f key row.document_id rows ∙ rw stored;
  values = ground (arith, values row);
  attempts = ground (arith, attempts row);
}
