-- ===== src/Runtime/Examples.antt =====
-- A small runtime: what it does on concrete inputs, and instances of the theorems about it.
use better_hermes_hindsight.Common.{
  ℕ, ◌≡◌, refl, Bool, List, [], ◌∷◌, some, none, true, false, arith, All,
}
use better_hermes_hindsight.Retention.Segment.{RetainedSegment}
use better_hermes_hindsight.Outbox.Types.{AdmissionResult, AdmissionStatus}
use better_hermes_hindsight.Outbox.Samples.{settings, segment, fresh}
use better_hermes_hindsight.Outbox.Lifecycle.{IsSound, close}
use better_hermes_hindsight.Outbox.Validate.{validate_candidates}
use better_hermes_hindsight.Sender.{OutboxSender}
use better_hermes_hindsight.Sender.Loop.{run}
use better_hermes_hindsight.Sender.Samples.{good, late, idle, sends}
use better_hermes_hindsight.Runtime.Runner.{
  AsyncRunner, Answer, Result, RunnerError, Event, happen, settled, run_call, await_call,
  publish_unsettled, complete, shutdown,
}
use better_hermes_hindsight.Runtime.Settlement.{happen-settled}
use better_hermes_hindsight.Runtime.Operations.{
  ProcessRuntime, Built, TurnOutcome, admit_turn, admit_multimodal, admit_through, admit_block,
  admit_and_wake, begin_operation, finish_operation, call,
}
use better_hermes_hindsight.Runtime.Finalize.{
  FinalizeView, Outcome, RuntimeError, finalize_runtime, settle_down, close_all, close_client,
  after_close, close_runner, after_shutdown,
}
use better_hermes_hindsight.Runtime.Shutdown.{Finalized, finalize_runtime-Finalized}
use better_hermes_hindsight.Runtime.Process.{
  Process, acquire, Acquired, close_handle, require_runtime, finalize_process_runtime,
  begin_finalizing, end_finalizing,
}
use better_hermes_hindsight.Runtime.Renewal.{Renews, finalize_process_runtime-Renews}
use better_hermes_hindsight.Runtime.Delivery.{SafeKept, admit_turn-SafeKept}

abbrev runner : AsyncRunner
runner = record { shut = false; loop_alive = true; done_calls = []; unsettled_tokens = [] }

abbrev runtime : ProcessRuntime
runtime = record {
  runner = runner;
  sender = some (record idle { outbox = fresh });
  has_outbox = true;
  active_calls = 0;
  closed = false;
  client_closed = false;
  finalizing = false;
}

abbrev view : FinalizeView
view = record {
  in_owning_loop = false;
  finished_calls = 1;
  moments = good ∷ good ∷ good ∷ [];
  events = [];
  closed_late = false;
  outbox_raises = false;
  time_left = true;
  token = 9;
  client_close = Answer.returns tt;
  loop_ends = true;
}

runs : Unit {0}
unfolding sends happen run_call await_call publish_unsettled complete shutdown admit_through
    admit_block admit_and_wake begin_operation finish_operation call finalize_runtime settle_down
    close_all close_client after_close close_runner after_shutdown close acquire
    finalize_process_runtime begin_finalizing end_finalizing close_handle require_runtime
runs = tt

abbrev calls_done : List Event
calls_done = Event.completes 2 ∷ Event.publishes 1 ∷ Event.publishes 2 ∷ Event.completes 1 ∷ []

settles_all : settled (happen calls_done runner) ≡ true
unfolding runs
settles_all = refl

happen-settled_example : settled (happen calls_done runner) ≡ true
happen-settled_example = happen-settled calls_done runner refl (refl, (refl, tt))

abbrev slow : Answer Bool
slow = Answer.exceeds false

-- A call that outlives its deadline keeps the next one out.
refuses_next :
    let (first, later) = call false (some 5) 1 slow runtime in
    (call false (some 5) 2 (Answer.returns true) later).0
    ≡ some (Result.failed RunnerError.unsettled)
unfolding runs
refuses_next = refl

abbrev two_copies : Built
two_copies = Built.built (segment ∷ segment ∷ [])

abbrev taken : AdmissionResult
taken = record { status = AdmissionStatus.admitted; inserted_count = 1; duplicate_count = 1 }

admits_turn : (admit_turn none 10 two_copies runtime).0 ≡ TurnOutcome.answered taken
unfolding runs
admits_turn = refl

raises_capacity :
    (admit_multimodal none 10 Built.over_capacity runtime).0 ≡ TurnOutcome.construction_raised
unfolding runs
raises_capacity = refl

fresh-IsSound : IsSound fresh
unfolding runs
fresh-IsSound = record {
  table = tt;
  within = record { rows_fit = omega arith; bytes_fit = omega arith };
}

admit_turn-SafeKept_example :
    (s' : OutboxSender) × (candidates : List RetainedSegment) × (repeated : ℕ) × ((admit_turn none
        10 two_copies runtime).1.sender
      ≡ some s')
    × (s'.wake_set ≡ true)
    × (validate_candidates settings (segment ∷ segment ∷ []) ≡ some (candidates, repeated))
    × All (SafeKept settings (run (good ∷ late ∷ good ∷ []) s')) candidates
admit_turn-SafeKept_example =
    admit_turn-SafeKept none 10 (segment ∷ segment ∷ []) runtime (record idle { outbox = fresh })
      taken (good ∷ late ∷ good ∷ []) refl fresh-IsSound admits_turn refl

finalizes : (finalize_runtime view runtime).0 ≡ Outcome.returned true
unfolding runs
finalizes = refl

-- An active call that does not finish in time stops the finalization.
times_out :
    (finalize_runtime view (record runtime { active_calls = 2 })).0
    ≡ Outcome.raised RuntimeError.sender_stop
unfolding runs
times_out = refl

finalize_runtime-Finalized_example :
    Finalized (finalize_runtime view runtime).0 runtime (finalize_runtime view runtime).1
finalize_runtime-Finalized_example = finalize_runtime-Finalized view runtime

abbrev same_bool : Bool → Bool → Bool
same_bool true true = true
same_bool false false = true
same_bool _ _ = false

abbrev process : Process Bool
process = record {
  active_config = some true;
  active_runtime = some (0, runtime);
  active_finalizing = false;
  runtimes_made = 1;
}

refuses_other :
    (acquire same_bool false (some runtime) process).0
    ≡ Acquired.acquire_raised RuntimeError.configuration_conflict
unfolding runs
refuses_other = refl

closes_handle : require_runtime (close_handle (record { runtime = 0; closed = false })) ≡ none
unfolding runs
closes_handle = refl

finalize_process_runtime-Renews_example :
    Renews same_bool
      (finalize_process_runtime view process).0
      view
      false
      runtime
      process
      (finalize_process_runtime view process).1
finalize_process_runtime-Renews_example =
    finalize_process_runtime-Renews same_bool view view false runtime process 0 runtime refl refl
