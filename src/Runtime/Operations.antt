-- ===== src/Runtime/Operations.antt =====
-- `ProcessRuntime` of better_hermes_hindsight/runtime.py: what it keeps, and its operations while it
-- accepts them.
use better_hermes_hindsight.Common.{
  ℕ, ◌+◌, ◌-◌, Bool, true, false, ◌&&◌, ◌||◌, not, List, Option, none, some, if◌then◌else◌,
}
use better_hermes_hindsight.Retention.Segment.{RetainedSegment}
use better_hermes_hindsight.Outbox.Types.{Failure, AdmissionResult, AdmissionStatus, accepted}
use better_hermes_hindsight.Outbox.Admission.{admit}
use better_hermes_hindsight.Sender.{OutboxSender, wake}
use better_hermes_hindsight.Runtime.Runner.{AsyncRunner, Answer, Result, run_call}

-- The sender holds the outbox that the runtime holds too; `has_outbox` says that the runtime's own
-- reference is not `None`. A client-only runtime has no sender.
pub record ProcessRuntime : Type 0 where
  pub runner : AsyncRunner
  pub sender : Option OutboxSender
  pub has_outbox : Bool
  pub active_calls : ℕ
  pub closed : Bool
  pub client_closed : Bool
  pub finalizing : Bool

abbrev pub accepting_operations : ProcessRuntime → Bool
accepting_operations r = not r.finalizing && not r.closed

-- `none` is `RuntimeFinalizedError`.
unfoldable pub begin_operation : ProcessRuntime → Option ProcessRuntime
begin_operation r =
    if r.finalizing || r.closed then none else some (record r { active_calls = r.active_calls + 1 })

unfoldable pub finish_operation : ProcessRuntime → ProcessRuntime
finish_operation r = record r { active_calls = r.active_calls - 1 }

-- `none` is `RuntimeFinalizedError`; the client's operation is the answer.
unfoldable pub call {ℓ} :
    {A : Type ℓ}
    → Bool
    → Option ℕ
    → ℕ
    → Answer A
    → ProcessRuntime
    → Option (Result A) × ProcessRuntime
unfolding begin_operation finish_operation
call in_owning_loop timeout token answer r = elim (begin_operation r) [
  | none ↦ (none, r)
  | some begun ↦
      let (result, runner) = run_call in_owning_loop timeout token answer begun.runner in
      (some result, finish_operation (record begun { runner = runner }))
]

-- What `build_retained_segments` or `build_multimodal_segment` does: it returns segments, raises
-- `RetentionCapacityError`, or raises another error.
pub data Built : Type 0 where
  built : List RetainedSegment → Built
  over_capacity construction_error : Built

-- What an admission through the runtime does.
pub data TurnOutcome : Type 0 where
  runtime_finalized construction_raised : TurnOutcome
  answered : AdmissionResult → TurnOutcome

abbrev only_status : AdmissionStatus → AdmissionResult
only_status status = record { status = status; inserted_count = 0; duplicate_count = 0 }

-- The admission of built segments, and the wake of the sender.
unfoldable pub admit_and_wake :
    Option Failure
    → ℕ
    → List RetainedSegment
    → ProcessRuntime
    → OutboxSender
    → TurnOutcome × ProcessRuntime
admit_and_wake fault timestamp segments r s =
    let (result, box) = admit s.outbox fault timestamp segments in
    let moved = record s { outbox = box } in
    (
      TurnOutcome.answered result,
      record r { sender = some (if accepted result.status then wake moved else moved) },
    )

-- The `try` block of `admit_turn`. The flag says that a capacity error is answered rather than
-- raised, as `admit_turn` does and `admit_multimodal` does not.
unfoldable pub admit_block :
    Bool
    → Option Failure
    → ℕ
    → Built
    → ProcessRuntime
    → Option OutboxSender
    → TurnOutcome × ProcessRuntime
admit_block answers_capacity fault timestamp turn r none =
    (TurnOutcome.answered (only_status AdmissionStatus.invalid), r)
admit_block answers_capacity fault timestamp (Built.built segments) r (some s) =
    admit_and_wake fault timestamp segments r s
admit_block answers_capacity fault timestamp Built.over_capacity r (some s) =
    if answers_capacity
    then (TurnOutcome.answered (only_status AdmissionStatus.capacity_exceeded), r)
    else (TurnOutcome.construction_raised, r)
admit_block answers_capacity fault timestamp Built.construction_error r (some s) =
    (TurnOutcome.construction_raised, r)

abbrev outbox_sender : ProcessRuntime → Option OutboxSender
outbox_sender r = if r.has_outbox then r.sender else none

unfoldable pub admit_through :
    Bool → Option Failure → ℕ → Built → ProcessRuntime → TurnOutcome × ProcessRuntime
admit_through answers_capacity fault timestamp turn r = elim (begin_operation r) [
  | none ↦ (TurnOutcome.runtime_finalized, r)
  | some begun ↦
      let (outcome, later) =
        admit_block answers_capacity fault timestamp turn begun (outbox_sender begun) in
      (outcome, finish_operation later)
]

abbrev pub admit_turn : Option Failure → ℕ → Built → ProcessRuntime → TurnOutcome × ProcessRuntime
admit_turn = admit_through true

abbrev pub admit_multimodal :
    Option Failure → ℕ → Built → ProcessRuntime → TurnOutcome × ProcessRuntime
admit_multimodal = admit_through false
