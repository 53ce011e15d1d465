-- ===== src/Outbox/Snapshot/Clean.antt =====
-- No operation of better_hermes_hindsight/outbox.py leaves a row that the status query of the same file
-- takes for corrupt.
use better_hermes_hindsight.Common.{
  ℕ, ◌≡◌, refl, Bool, true, false, List, [], ◌∷◌, some, Text, arith, text_dec, ℕ_discrete, keep,
  All-keep, Option-cases, inl, inr, sym, subst, not,
}
use better_hermes_hindsight.Outbox.Types.{
  Settings, SqliteOutbox, OutboxRow, OutboxFailureCategory, category_value, WallTime, is_sending,
}
use better_hermes_hindsight.Outbox.Order.{first_row}
use better_hermes_hindsight.Outbox.Lock.{ProfileLockOwner}
use better_hermes_hindsight.Outbox.Table.{update_where, delete_where, at_key}
use better_hermes_hindsight.Outbox.Claims.{
  Env, recover_sending, claim_due, claim_record, complete_claim, reschedule_claim, recovered, sent,
  rescheduled, is_due, still_due, claimed_attempt,
}
use better_hermes_hindsight.Outbox.Claims.Finish.{due_again}
use better_hermes_hindsight.Outbox.Lifecycle.{
  Step, admits, recovers, claims, completes, reschedules, closes,
}
use better_hermes_hindsight.Outbox.Lifecycle.Runs.{
  Run, done, then_run, complete_claim_rows, close_rows,
}
use better_hermes_hindsight.Outbox.Snapshot.{
  is_corrupt, category_named, OutboxInspection, SnapshotView, readable, read_status_snapshot,
}
use better_hermes_hindsight.Outbox.Snapshot.Counts.{Clean, Accounts, read_status_snapshot-Accounts}
use better_hermes_hindsight.Outbox.Snapshot.Inserted.{admit-Clean}

update_where-Clean :
    (p : OutboxRow → Bool) (f : OutboxRow → OutboxRow) (rows : List OutboxRow)
    → ((row : OutboxRow) → is_corrupt row ≡ false → is_corrupt (f row) ≡ false)
    → Clean rows
    → Clean (update_where p f rows)
unfolding update_where
update_where-Clean p f [] keeps clean = tt
update_where-Clean p f (row ∷ rows) keeps clean =
    (ground (arith, keeps row, clean.0), update_where-Clean p f rows keeps clean.1)

known_value :
    (category : OutboxFailureCategory) → category_named (category_value category) ≡ some category
unfolding category_named text_dec ℕ_discrete
known_value OutboxFailureCategory.retain_timeout = refl
known_value OutboxFailureCategory.retain_failed = refl
known_value OutboxFailureCategory.retain_unconfirmed = refl

rescheduled_clean :
    (next now : ℕ) (category : OutboxFailureCategory) (row : OutboxRow)
    → is_corrupt row ≡ false
    → is_corrupt (rescheduled next category now row) ≡ false
unfolding is_corrupt
rescheduled_clean next now category row clean = ground (arith, clean, known_value category)

recover_sending-Clean :
    (box : SqliteOutbox) (owner : ProfileLockOwner) (now : WallTime) (env : Env)
    → Clean box.rows
    → Clean (recover_sending box owner now env).1.rows
unfolding recover_sending is_corrupt
recover_sending-Clean box owner (WallTime.at t) env clean = ground (
  arith,
  clean,
  update_where-Clean (λ row. is_sending row.state) (recovered t) box.rows (λ row h. h) clean,
)
recover_sending-Clean box owner _ env clean = clean

claim_due-Clean :
    (box : SqliteOutbox) (owner : ProfileLockOwner) (now : WallTime) (env : Env)
    → Clean box.rows
    → Clean (claim_due box owner now env).1.rows
unfolding claim_due claim_record is_corrupt
claim_due-Clean box owner (WallTime.at t) env clean =
    elim (Option-cases (first_row (keep (is_due box.settings t) box.rows))) [
      | inl nothing ↦ ground (arith, clean, nothing)
      | inr (found, first) ↦ ground (
        arith,
        clean,
        first,
        update_where-Clean (at_key found.document_id (still_due found t)) (sent t) box.rows
            (λ row h. h) clean,
      )
    ]
claim_due-Clean box owner _ env clean = clean

complete_claim-Clean :
    (box : SqliteOutbox) (owner : ProfileLockOwner) (id : Text) (attempt : ℕ) (env : Env)
    → Clean box.rows
    → Clean (complete_claim box owner id attempt env).1.rows
unfolding delete_where
complete_claim-Clean box owner id attempt env clean =
    elim (complete_claim_rows box owner id attempt env) [
      | inl (unchanged, _) ↦ subst (λ b. Clean b.rows) (sym unchanged) clean
      | inr (_, rows, _) ↦ subst Clean (sym rows) (
          All-keep (λ row. is_corrupt row ≡ false)
            (λ row. not (at_key id (claimed_attempt attempt) row)) box.rows clean)
    ]

reschedule_claim-Clean :
    (box : SqliteOutbox) (owner : ProfileLockOwner) (id : Text) (attempt : ℕ)
    (category : OutboxFailureCategory) (completed_at : WallTime) (env : Env)
    → Clean box.rows
    → Clean (reschedule_claim box owner id attempt category completed_at env).1.rows
unfolding reschedule_claim
reschedule_claim-Clean box owner id attempt category (WallTime.at t) env clean = ground (
  arith,
  clean,
  update_where-Clean (at_key id (claimed_attempt attempt))
      (rescheduled (due_again box attempt t) category t) box.rows
      (rescheduled_clean (due_again box attempt t) t category) clean,
)
reschedule_claim-Clean box owner id attempt category _ env clean = clean

Step-Clean : {box box' : SqliteOutbox} → Step box box' → Clean box.rows → Clean box'.rows
Step-Clean (admits box fault timestamp segments) clean =
    admit-Clean box fault timestamp segments clean
Step-Clean (recovers box owner now env) clean = recover_sending-Clean box owner now env clean
Step-Clean (claims box owner now env) clean = claim_due-Clean box owner now env clean
Step-Clean (completes box owner id attempt env) clean =
    complete_claim-Clean box owner id attempt env clean
Step-Clean (reschedules box owner id attempt category completed_at env) clean =
    reschedule_claim-Clean box owner id attempt category completed_at env clean
Step-Clean (closes box) clean = subst Clean (sym (close_rows box).0) clean

Run-Clean : {box box' : SqliteOutbox} → Run box box' → Clean box.rows → Clean box'.rows
Run-Clean (done box) clean = clean
Run-Clean (then_run step run) clean = Run-Clean run (Step-Clean step clean)

-- Whatever operations an outbox goes through from an empty table, the status query can be read, by a
-- connection that is itself readable, and it accounts for the rows: no operation leaves a row that
-- the query takes for corrupt.
pub Run-Accounts :
    {box box' : SqliteOutbox} (settings : Settings) (view : SnapshotView)
    → Run box box'
    → box.rows ≡ []
    → readable view ≡ true
    → (found : OutboxInspection) × (read_status_snapshot settings view box'.rows ≡ some found)
      × Accounts settings box'.rows found
Run-Accounts {box} {box'} settings view run empty can_read =
    read_status_snapshot-Accounts settings view box'.rows can_read
      (Run-Clean run (subst Clean (sym empty) tt))
