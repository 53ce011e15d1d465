-- ===== src/Runtime/Runner.antt =====
-- `AsyncRunner` of better_hermes_hindsight/runtime.py: which calls it takes, and the calls that have
-- outlived their deadline.
use better_hermes_hindsight.Common.{
  ℕ, Bool, true, false, ◌&&◌, ◌||◌, not, List, [], ◌∷◌, Option, none, some, ◌==◌, if◌then◌else◌,
  keep,
}

-- The errors that `run` and `shutdown` raise; `operation_raised` is the operation's own.
pub data RunnerError : Type 0 where
  reentrancy invalid_deadline closed unsettled timed_out operation_raised interrupted : RunnerError
  sender_stop : RunnerError

-- What the scheduled call does: it returns, raises, or exceeds the deadline, or its wait is broken
-- off by another exception, such as `KeyboardInterrupt`. The last two say whether the call is done
-- when the wait after its cancellation is over.
pub data Answer {ℓ} (A : Type ℓ) : Type ℓ where
  returns : A → Answer A
  raises : Answer A
  exceeds : Bool → Answer A
  interrupts : Bool → Answer A

pub data Result {ℓ} (A : Type ℓ) : Type ℓ where
  returned : A → Result A
  failed : RunnerError → Result A

-- `loop_alive` says that the thread of the loop runs. A call is known by its token.
pub record AsyncRunner : Type 0 where
  pub shut : Bool
  pub loop_alive : Bool
  pub done_calls : List ℕ
  pub unsettled_tokens : List ℕ

abbrev pub has_token : ℕ → List ℕ → Bool
has_token token [] = false
has_token token (t ∷ tokens) = t == token || has_token token tokens

abbrev pub no_tokens : List ℕ → Bool
no_tokens [] = true
no_tokens (t ∷ tokens) = false

-- `_publish_unsettled`
unfoldable pub publish_unsettled : ℕ → AsyncRunner → AsyncRunner
publish_unsettled token r =
    if has_token token r.done_calls
    then r
    else record r { unsettled_tokens = token ∷ r.unsettled_tokens }

-- `_complete`: the call is done, and its token is discarded.
unfoldable pub complete : ℕ → AsyncRunner → AsyncRunner
complete token r = record r {
  done_calls = token ∷ r.done_calls;
  unsettled_tokens = keep (λ t. not (t == token)) r.unsettled_tokens;
}

-- `wait_for_settlement(timeout=0.0)`
abbrev pub settled : AsyncRunner → Bool
settled r = no_tokens r.unsettled_tokens

-- The part of `run` after the call is scheduled.
unfoldable pub await_call {ℓ} : {A : Type ℓ} → ℕ → Answer A → AsyncRunner → Result A × AsyncRunner
unfolding publish_unsettled complete
await_call token (Answer.returns a) r = (Result.returned a, complete token r)
await_call token Answer.raises r = (Result.failed RunnerError.operation_raised, complete token r)
await_call token (Answer.exceeds true) r =
    (Result.failed RunnerError.timed_out, publish_unsettled token (complete token r))
await_call token (Answer.exceeds false) r =
    (Result.failed RunnerError.timed_out, publish_unsettled token r)
await_call token (Answer.interrupts true) r =
    (Result.failed RunnerError.interrupted, publish_unsettled token (complete token r))
await_call token (Answer.interrupts false) r =
    (Result.failed RunnerError.interrupted, publish_unsettled token r)

unfoldable pub run_call {ℓ} :
    {A : Type ℓ} → Bool → Option ℕ → ℕ → Answer A → AsyncRunner → Result A × AsyncRunner
run_call in_owning_loop timeout token answer r =
    if in_owning_loop
    then (Result.failed RunnerError.reentrancy, r)
    else if elim timeout [ none ↦ false | some t ↦ t == 0 ]
    then (Result.failed RunnerError.invalid_deadline, r)
    else if r.shut || not r.loop_alive
    then (Result.failed RunnerError.closed, r)
    else if not (settled r)
    then (Result.failed RunnerError.unsettled, r)
    else await_call token answer r

-- `shutdown`, with whether the thread of the loop ends in time.
unfoldable pub shutdown : Bool → Bool → AsyncRunner → Result Bool × AsyncRunner
shutdown in_owning_loop ends r =
    if in_owning_loop
    then (Result.failed RunnerError.reentrancy, r)
    else if r.shut && not r.loop_alive
    then (Result.returned false, r)
    else if not (settled r)
    then (Result.failed RunnerError.unsettled, r)
    else if ends
    then (Result.returned true, record r { shut = true; loop_alive = false })
    else (Result.failed RunnerError.sender_stop, record r { shut = true })

-- One thread publishes a call as unsettled, or the loop completes one.
pub data Event : Type 0 where
  publishes completes : ℕ → Event

unfoldable pub happen : List Event → AsyncRunner → AsyncRunner
unfolding publish_unsettled complete
happen [] r = r
happen (Event.publishes token ∷ later) r = happen later (publish_unsettled token r)
happen (Event.completes token ∷ later) r = happen later (complete token r)
