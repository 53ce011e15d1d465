-- ===== src/Runtime/Finalize.antt =====
-- `ProcessRuntime.finalize` of better_hermes_hindsight/runtime.py: the sender, the active calls, the
-- outbox, the client and the runner are closed in this order.
use better_hermes_hindsight.Common.{
  ℕ, ◌-◌, Bool, true, false, ◌||◌, not, List, Option, none, some, if◌then◌else◌, ◌==◌,
}
use better_hermes_hindsight.Outbox.Lifecycle.{close}
use better_hermes_hindsight.Sender.{OutboxSender, Moment, request_stop, wake, join_thread}
use better_hermes_hindsight.Sender.Loop.{run}
use better_hermes_hindsight.Runtime.Runner.{
  RunnerError, Answer, Result, run_call, shutdown, settled, Event, happen,
}
use better_hermes_hindsight.Runtime.Operations.{ProcessRuntime}

pub data RuntimeError : Type 0 where
  reentrancy finalized handle_closed configuration_conflict sender_stop other_error : RuntimeError

pub data Outcome : Type 0 where
  returned : Bool → Outcome
  raised : RuntimeError → Outcome

-- What one finalization meets before its deadline: the moments of the sender and the active calls
-- that finish, the unsettled calls that complete, with an earlier close of the client among them
-- or not, an error of `outbox.close`, whether time is left for the client, what its `close` does,
-- and whether the thread of the loop ends.
pub record FinalizeView : Type 0 where
  pub in_owning_loop : Bool
  pub finished_calls : ℕ
  pub moments : List Moment
  pub events : List Event
  pub closed_late : Bool
  pub outbox_raises : Bool
  pub time_left : Bool
  pub token : ℕ
  pub client_close : Answer (Unit {0})
  pub loop_ends : Bool

abbrev pub over_some : (OutboxSender → OutboxSender) → Option OutboxSender → Option OutboxSender
over_some f none = none
over_some f (some s) = some (f s)

abbrev pub over_sender : (OutboxSender → OutboxSender) → ProcessRuntime → ProcessRuntime
over_sender f r = record r { sender = over_some f r.sender }

-- What the shutdown of the runner, the last step, leads to. The flag says that an earlier step has raised.
unfoldable pub after_shutdown : Bool → Result Bool → ProcessRuntime → Outcome × ProcessRuntime
after_shutdown failure (Result.failed RunnerError.sender_stop) r =
    (Outcome.raised RuntimeError.sender_stop, r)
after_shutdown failure (Result.failed _) r =
    (Outcome.raised RuntimeError.other_error, record r { closed = true })
after_shutdown failure (Result.returned _) r = (
  if failure then Outcome.raised RuntimeError.other_error else Outcome.returned true,
  record r { closed = true },
)

unfoldable pub close_runner : FinalizeView → Bool → ProcessRuntime → Outcome × ProcessRuntime
unfolding after_shutdown
close_runner view failure r =
    let (result, runner) = shutdown false view.loop_ends r.runner in
    after_shutdown failure result (record r { runner = runner })

-- What the call of `_close_client` leads to.
unfoldable pub after_close :
    FinalizeView → Bool → Result (Unit {0}) → ProcessRuntime → Outcome × ProcessRuntime
unfolding close_runner
after_close view failure (Result.returned _) r =
    close_runner view failure (record r { client_closed = true })
after_close view failure (Result.failed RunnerError.timed_out) r =
    (Outcome.raised RuntimeError.sender_stop, r)
after_close view failure (Result.failed RunnerError.unsettled) r =
    (Outcome.raised RuntimeError.sender_stop, r)
after_close view failure (Result.failed _) r = close_runner view true r

-- The deadline of the call, the time that is left, is above zero.
unfoldable pub close_client : FinalizeView → Bool → ProcessRuntime → Outcome × ProcessRuntime
unfolding after_close
close_client view failure r =
    if r.client_closed
    then close_runner view failure r
    else if not view.time_left
    then (Outcome.raised RuntimeError.sender_stop, r)
    else let (result, runner) = run_call false none view.token view.client_close r.runner in
      after_close view failure result (record r { runner = runner })

abbrev pub close_outbox : OutboxSender → OutboxSender
close_outbox s = record s { outbox = close s.outbox }

unfoldable pub close_all : FinalizeView → ProcessRuntime → Outcome × ProcessRuntime
unfolding close_client
close_all view r =
    if not r.has_outbox
    then close_client view false r
    else if view.outbox_raises
    then close_client view true r
    else close_client view false (record (over_sender close_outbox r) { has_outbox = false })

-- The runtime once no call is active, or the deadline has come.
unfoldable pub settle_down : FinalizeView → ProcessRuntime → ProcessRuntime
settle_down view r = record (over_sender (run view.moments) r) {
  active_calls = r.active_calls - view.finished_calls;
  runner = happen view.events r.runner;
  client_closed = r.client_closed || view.closed_late;
}

abbrev pub sender_joined : Option OutboxSender → Bool
sender_joined none = true
sender_joined (some s) = join_thread s

abbrev pub stop_sender : OutboxSender → OutboxSender
stop_sender s = wake (request_stop s)

unfoldable pub finalize_runtime : FinalizeView → ProcessRuntime → Outcome × ProcessRuntime
unfolding close_all settle_down
finalize_runtime view r =
    if view.in_owning_loop
    then (Outcome.raised RuntimeError.reentrancy, r)
    else if r.closed
    then (Outcome.returned false, r)
    else let quiet = settle_down view (over_sender stop_sender (record r { finalizing = true })) in
      if not (quiet.active_calls == 0)
        || not (sender_joined quiet.sender)
        || not (settled quiet.runner)
      then (Outcome.raised RuntimeError.sender_stop, quiet)
      else close_all view quiet
