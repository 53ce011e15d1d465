-- ===== src/Outbox/Lifecycle/Runs.antt =====
-- What holds along every run of the outbox of better_hermes_hindsight/outbox.py.
use better_hermes_hindsight.Common.{
  ℕ, ◌≡◌, refl, List, Option, some, Text, text_dec, arith, Bool-cases, inl, inr, ◌⊎◌, sym, subst,
  ◌∙◌,
}
use better_hermes_hindsight.Retention.Segment.{RetainedSegment}
use better_hermes_hindsight.Outbox.Types.{
  SqliteOutbox, OutboxRow, find_row, Failure, accepted, WallTime, OutboxFailureCategory,
  OutboxTransitionStatus,
}
use better_hermes_hindsight.Outbox.Lock.{ProfileLockOwner}
use better_hermes_hindsight.Outbox.Table.{
  IsTable, delete_where, delete_where-IsTable, delete_where_usage, at_key, find_row-In,
}
use better_hermes_hindsight.Outbox.Admission.{admit}
use better_hermes_hindsight.Outbox.Admission.Outcome.{WithinCapacity}
use better_hermes_hindsight.Outbox.Admission.Atomic.{admit_refused, admit-Accepted}
use better_hermes_hindsight.Outbox.Claims.{
  Env, recover_sending, claim_due, claim_record, complete_claim, reschedule_claim, claimed_attempt,
}
use better_hermes_hindsight.Outbox.Claims.Finish.{complete_claim-applied}
use better_hermes_hindsight.Outbox.Lifecycle.{
  Step, admits, recovers, claims, completes, reschedules, closes, close, IsSound, Change, nothing,
  Change-IsSound, Kept, Change-Kept, recover_sending-Change, claim_due-Change,
  reschedule_claim-Change,
}

-- A step that leaves the settings, from what it does to the rows.
IsSound-of_Change :
    {box : SqliteOutbox} (box' : SqliteOutbox)
    → box'.settings ≡ box.settings
    → Change box.rows box'.rows
    → IsSound box
    → IsSound box'
IsSound-of_Change {box} box' same_settings change sound =
    let (table, within) = Change-IsSound box.settings change (sound.table, sound.within) in
    record {
      table = table;
      within = subst (λ s. WithinCapacity s box'.rows) (sym same_settings) within;
    }

recover_sending_settings :
    (box : SqliteOutbox) (owner : ProfileLockOwner) (now : WallTime) (env : Env)
    → (recover_sending box owner now env).1.settings ≡ box.settings
unfolding recover_sending
recover_sending_settings box owner now env = ground arith

claim_due_settings :
    (box : SqliteOutbox) (owner : ProfileLockOwner) (now : WallTime) (env : Env)
    → (claim_due box owner now env).1.settings ≡ box.settings
unfolding claim_due claim_record
claim_due_settings box owner now env = ground arith

reschedule_claim_settings :
    (box : SqliteOutbox) (owner : ProfileLockOwner) (id : Text) (attempt : ℕ)
    (category : OutboxFailureCategory) (completed_at : WallTime) (env : Env)
    → (reschedule_claim box owner id attempt category completed_at env).1.settings ≡ box.settings
unfolding reschedule_claim
reschedule_claim_settings box owner id attempt category completed_at env = ground arith

pub complete_claim_rows :
    (box : SqliteOutbox) (owner : ProfileLockOwner) (id : Text) (attempt : ℕ) (env : Env)
    → let box' = (complete_claim box owner id attempt env).1 in
      (box' ≡ box)
        × ((complete_claim box owner id attempt env).0.status
            ≡ OutboxTransitionStatus.local_failure)
      ⊎ (box'.settings ≡ box.settings)
        × (box'.rows ≡ delete_where (at_key id (claimed_attempt attempt)) box.rows)
        × ((complete_claim box owner id attempt env).0.status ≡ OutboxTransitionStatus.applied)
unfolding complete_claim
complete_claim_rows box owner id attempt env = ground arith

complete_claim-IsSound :
    (box : SqliteOutbox) (owner : ProfileLockOwner) (id : Text) (attempt : ℕ) (env : Env)
    → IsSound box
    → IsSound (complete_claim box owner id attempt env).1
complete_claim-IsSound box owner id attempt env sound =
    elim (complete_claim_rows box owner id attempt env) [
      | inl (unchanged, _) ↦ subst IsSound (sym unchanged) sound
      | inr (same_settings, rows, _) ↦
          let guard = at_key id (claimed_attempt attempt) in
          let (count, bytes) = delete_where_usage guard box.rows in
          record {
            table = subst IsTable (sym rows) (delete_where-IsTable guard box.rows sound.table);
            within =
                rw (same_settings, rows)
                  (record {
                    rows_fit = omega (arith, sound.within.rows_fit, count);
                    bytes_fit = omega (arith, sound.within.bytes_fit, bytes);
                  });
          }
    ]

admit-IsSound :
    (box : SqliteOutbox) (fault : Option Failure) (timestamp : ℕ) (segments : List RetainedSegment)
    → IsSound box
    → IsSound (admit box fault timestamp segments).1
admit-IsSound box fault timestamp segments sound =
    elim (Bool-cases (accepted (admit box fault timestamp segments).0.status)) [
      | inr refused ↦ subst IsSound (sym (admit_refused box fault timestamp segments refused)) sound
      | inl taken ↦
          let a = admit-Accepted box fault timestamp segments sound.table sound.within taken in
          record {
            table = a.durable.table;
            within =
                subst (λ s. WithinCapacity s (admit box fault timestamp segments).1.rows)
                  (sym a.unchanged.0) a.durable.within;
          }
    ]

pub close_rows :
    (box : SqliteOutbox) → ((close box).rows ≡ box.rows) × ((close box).settings ≡ box.settings)
unfolding close
close_rows box = ground arith

-- Every operation keeps the keys unique and the table within its capacity.
pub Step-IsSound : {box box' : SqliteOutbox} → Step box box' → IsSound box → IsSound box'
Step-IsSound (admits box fault timestamp segments) sound =
    admit-IsSound box fault timestamp segments sound
Step-IsSound (recovers box owner now env) sound =
    IsSound-of_Change _ (recover_sending_settings box owner now env)
      (recover_sending-Change box owner now env) sound
Step-IsSound (claims box owner now env) sound =
    IsSound-of_Change _ (claim_due_settings box owner now env) (claim_due-Change box owner now env)
      sound
Step-IsSound (completes box owner id attempt env) sound =
    complete_claim-IsSound box owner id attempt env sound
Step-IsSound (reschedules box owner id attempt category completed_at env) sound =
    IsSound-of_Change _ (reschedule_claim_settings box owner id attempt category completed_at env)
      (reschedule_claim-Change box owner id attempt category completed_at env) sound
Step-IsSound (closes box) sound =
    IsSound-of_Change _ (close_rows box).1
      (subst (Change box.rows) (sym (close_rows box).0) (nothing box.rows)) sound

-- A run, from its first state on.
pub data Run : SqliteOutbox → SqliteOutbox → Type 0 where
  done : (box : SqliteOutbox) → Run box box
  then_run : {box box' box'' : SqliteOutbox} → Step box box' → Run box' box'' → Run box box''

-- Along every run the keys stay unique and the table stays within its configured capacity.
pub Run-IsSound : {box box' : SqliteOutbox} → Run box box' → IsSound box → IsSound box'
Run-IsSound (done box) sound = sound
Run-IsSound (then_run step run) sound = Run-IsSound run (Step-IsSound step sound)

-- The step is an applied completion of the document `id`.
abbrev pub Confirms : {box box' : SqliteOutbox} → Text → Step box box' → Type 0
Confirms id (completes box owner document_id attempt env) =
    (document_id ≡ id)
    × ((complete_claim box owner document_id attempt env).0.status ≡ OutboxTransitionStatus.applied)
Confirms id _ = ⊥

abbrev pub Confirmed : {box box' : SqliteOutbox} → Text → Run box box' → Type 0
Confirmed id (done box) = ⊥
Confirmed id (then_run step run) = Confirms id step ⊎ Confirmed id run

module _ (row : OutboxRow) where
  Kept-unchanged :
      (rows rows' : List OutboxRow)
      → rows' ≡ rows
      → find_row row.document_id rows ≡ some row
      → Kept row rows'
  Kept-unchanged rows rows' e stored = record {
    now = row;
    found = subst (λ r. find_row row.document_id r ≡ some row) (sym e) stored;
    values = refl;
    attempts = omega arith;
  }

  completes-Kept :
      (box : SqliteOutbox) (owner : ProfileLockOwner) (id : Text) (attempt : ℕ) (env : Env)
      → IsSound box
      → find_row row.document_id box.rows ≡ some row
      → Kept row (complete_claim box owner id attempt env).1.rows
        ⊎ (id ≡ row.document_id)
          × ((complete_claim box owner id attempt env).0.status ≡ OutboxTransitionStatus.applied)
  completes-Kept box owner id attempt env sound stored =
      elim (complete_claim_rows box owner id attempt env) [
        | inl (unchanged, _) ↦ inl (
            subst (λ b. Kept row b.rows) (sym unchanged)
              (Kept-unchanged box.rows box.rows refl stored))
        | inr (_, _, applied) ↦ elim (text_dec id row.document_id) [
          | yes e ↦ inr (e, applied)
          | no other ↦
              let (_, _, others) =
                complete_claim-applied box owner id attempt env sound.table applied in
              inl (record {
                now = row;
                found =
                    others row.document_id ∙ (ground (arith, stored, text_dec row.document_id id));
                values = refl;
                attempts = omega arith;
              })
        ]
      ]

  admits-Kept :
      (box : SqliteOutbox) (fault : Option Failure) (timestamp : ℕ)
      (segments : List RetainedSegment)
      → IsSound box
      → find_row row.document_id box.rows ≡ some row
      → Kept row (admit box fault timestamp segments).1.rows
  admits-Kept box fault timestamp segments sound stored =
      elim (Bool-cases (accepted (admit box fault timestamp segments).0.status)) [
        | inr refused ↦
            subst (λ b. Kept row b.rows) (sym (admit_refused box fault timestamp segments refused))
              (Kept-unchanged box.rows box.rows refl stored)
        | inl taken ↦
            let a = admit-Accepted box fault timestamp segments sound.table sound.within taken in
            record {
              now = row;
              found = a.durable.kept row.document_id row stored;
              values = refl;
              attempts = omega arith;
            }
      ]

-- A stored row outlives every step but the applied completion of its document.
pub Step-Kept :
    {box box' : SqliteOutbox} (row : OutboxRow) (step : Step box box')
    → IsSound box
    → find_row row.document_id box.rows ≡ some row
    → Kept row box'.rows ⊎ Confirms row.document_id step
Step-Kept row (admits box fault timestamp segments) sound stored =
    inl (admits-Kept row box fault timestamp segments sound stored)
Step-Kept row (recovers box owner now env) sound stored =
    inl (Change-Kept row (recover_sending-Change box owner now env) stored)
Step-Kept row (claims box owner now env) sound stored =
    inl (Change-Kept row (claim_due-Change box owner now env) stored)
Step-Kept row (completes box owner id attempt env) sound stored =
    completes-Kept row box owner id attempt env sound stored
Step-Kept row (reschedules box owner id attempt category completed_at env) sound stored = inl (
    Change-Kept row (reschedule_claim-Change box owner id attempt category completed_at env) stored)
Step-Kept row (closes box) sound stored =
    inl (Kept-unchanged row box.rows _ (close_rows box).0 stored)

pub Kept-trans :
    (row : OutboxRow) (rows rows' : List OutboxRow) (k : Kept row rows)
    → Kept k.now rows'
    → Kept row rows'
Kept-trans row rows rows' k later =
    let named = (find_row-In row.document_id rows k.found).1 in
    record {
      now = later.now;
      found = subst (λ id. find_row id rows' ≡ some later.now) named later.found;
      values = later.values ∙ k.values;
      attempts = omega (arith, k.attempts, later.attempts);
    }

-- No row is lost: along every run from a sound outbox, a stored row is still stored at the end, with
-- its immutable values and no fewer attempts, unless a completion of its document was applied.
pub Run-Kept :
    {box box' : SqliteOutbox} (row : OutboxRow) (run : Run box box')
    → IsSound box
    → find_row row.document_id box.rows ≡ some row
    → Kept row box'.rows ⊎ Confirmed row.document_id run
Run-Kept row (done box) sound stored = inl (Kept-unchanged row box.rows box.rows refl stored)
Run-Kept row (then_run {box' = middle} {box'' = last} step run) sound stored =
    elim (Step-Kept row step sound stored) [
      | inr confirmed ↦ inr (inl confirmed)
      | inl k ↦
          let named = (find_row-In row.document_id middle.rows k.found).1 in
          let again : find_row k.now.document_id middle.rows ≡ some k.now =
            subst (λ id. find_row id middle.rows ≡ some k.now) (sym named) k.found in
          elim (Run-Kept k.now run (Step-IsSound step sound) again) [
            | inl later ↦ inl (Kept-trans row middle.rows last.rows k later)
            | inr confirmed ↦ inr (inr (subst (λ id. Confirmed id run) named confirmed))
          ]
    ]
