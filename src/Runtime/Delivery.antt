-- ===== src/Runtime/Delivery.antt =====
-- A turn that the runtime of better_hermes_hindsight/runtime.py has admitted, until its delivery.
use better_hermes_hindsight.Common.{
  ℕ, ◌≡◌, refl, Bool, true, List, [], ◌∷◌, Option, some, arith, All, ◌⊎◌, sym, subst,
}
use better_hermes_hindsight.Retention.Segment.{RetainedSegment}
use better_hermes_hindsight.Outbox.Types.{
  OutboxRow, Failure, AdmissionResult, accepted, find_row, Settings, row_immutable_values,
  segment_immutable_values,
}
use better_hermes_hindsight.Outbox.Admission.{admit}
use better_hermes_hindsight.Outbox.Lifecycle.{IsSound, Kept, admits}
use better_hermes_hindsight.Outbox.Lifecycle.Runs.{Step-IsSound}
use better_hermes_hindsight.Outbox.Admission.Atomic.{admit-Accepted}
use better_hermes_hindsight.Outbox.Admission.Laws.{Stored}
use better_hermes_hindsight.Outbox.Table.{find_row-In}
use better_hermes_hindsight.Outbox.Validate.{fingerprint, validate_candidates}
use better_hermes_hindsight.Sender.{OutboxSender, Moment, wake}
use better_hermes_hindsight.Sender.Loop.{run}
use better_hermes_hindsight.Sender.Runs.{Delivered, run-Kept}
use better_hermes_hindsight.Runtime.Operations.{
  ProcessRuntime, Built, TurnOutcome, admit_turn, admit_through, admit_block, admit_and_wake,
  begin_operation, finish_operation,
}

-- What an accepted answer says of the runtime.
accepted_turn :
    (answers_capacity : Bool) (fault : Option Failure) (timestamp : ℕ)
    (segments : List RetainedSegment) (r : ProcessRuntime) (s : OutboxSender)
    (result : AdmissionResult)
    → r.sender ≡ some s
    → (admit_through answers_capacity fault timestamp (Built.built segments) r).0
      ≡ TurnOutcome.answered result
    → accepted result.status ≡ true
    → let (answer, box) = admit s.outbox fault timestamp segments in
      (accepted answer.status ≡ true)
      × ((admit_through answers_capacity fault timestamp (Built.built segments) r).1.sender
          ≡ some (wake (record s { outbox = box })))
unfolding admit_through begin_operation admit_block admit_and_wake finish_operation wake
accepted_turn answers_capacity fault timestamp segments r s result same_sender answer taken =
    (ground arith, ground arith)

-- The segment is under its key in the outbox, with its values and no fewer attempts, or it was handed
-- to the client and confirmed.
pub record SafeKept (settings : Settings) (after : OutboxSender) (segment : RetainedSegment)
    : Type 0 where
  pub row : OutboxRow
  pub key : row.document_id ≡ segment.document_id
  pub values :
      row_immutable_values row ≡ segment_immutable_values segment (fingerprint settings segment)
  pub kept_or_delivered : Kept row after.outbox.rows ⊎ Delivered row after.trace

SafeKept-Stored :
    (s : OutboxSender) (moments : List Moment) (settings : Settings)
    (candidates : List RetainedSegment)
    → IsSound s.outbox
    → All (Stored settings s.outbox.rows) candidates
    → All (SafeKept settings (run moments s)) candidates
SafeKept-Stored s moments settings [] sound stored = tt
SafeKept-Stored s moments settings (segment ∷ candidates) sound (now, later) =
    let named = (find_row-In segment.document_id s.outbox.rows now.found).1 in
    (
      record {
        row = now.row;
        key = named;
        values = now.values;
        kept_or_delivered =
            run-Kept moments s now.row sound
              (subst (λ id. find_row id s.outbox.rows ≡ some now.row) (sym named) now.found);
      },
      SafeKept-Stored s moments settings candidates sound later,
    )

-- From admission to delivery: where the runtime answers a turn with an accepted status, its sender is woken,
-- and whatever moments the sender then meets, every distinct segment of the turn is still in the
-- outbox with its values, or was handed to the client and confirmed. The outbox is sound at first.
pub admit_turn-SafeKept :
    (fault : Option Failure) (timestamp : ℕ) (segments : List RetainedSegment) (r : ProcessRuntime)
    (s : OutboxSender) (result : AdmissionResult) (moments : List Moment)
    → r.sender ≡ some s
    → IsSound s.outbox
    → (admit_turn fault timestamp (Built.built segments) r).0 ≡ TurnOutcome.answered result
    → accepted result.status ≡ true
    → (s' : OutboxSender) × (candidates : List RetainedSegment) × (repeated : ℕ) × ((admit_turn
          fault timestamp
          (Built.built segments)
          r).1.sender
        ≡ some s')
      × (s'.wake_set ≡ true)
      × (validate_candidates s.outbox.settings segments ≡ some (candidates, repeated))
      × All (SafeKept s.outbox.settings (run moments s')) candidates
unfolding wake
admit_turn-SafeKept fault timestamp segments r s result moments same_sender sound answer taken =
    let (ok, woken) =
      accepted_turn true fault timestamp segments r s result same_sender answer taken in
    let a = admit-Accepted s.outbox fault timestamp segments sound.table sound.within ok in
    let s' = wake (record s { outbox = (admit s.outbox fault timestamp segments).1 }) in
    (
      s',
      a.candidates,
      a.repeated,
      woken,
      refl,
      a.valid,
      SafeKept-Stored s' moments s.outbox.settings a.candidates
          (Step-IsSound (admits s.outbox fault timestamp segments) sound) a.durable.stored,
    )
