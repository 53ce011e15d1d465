-- ===== src/Sender.antt =====
-- `OutboxSender` of better_hermes_hindsight/runtime.py: what the sender keeps, where its thread is,
-- and what it does to the world.
pub mod Deliver
pub mod Loop
pub mod Moves
pub mod Runs
pub mod Ownership
pub mod Handed
pub mod Stop
pub mod Samples
mod Examples
use better_hermes_hindsight.Common.{
  ℕ, Bool, true, false, ◌||◌, not, List, [], ◌∷◌, Option, none, some, if◌then◌else◌, Text, codes,
  same, non_empty, ◌&&◌,
}
use better_hermes_hindsight.Json.{JsonValue, JsonFields}
use better_hermes_hindsight.Retention.Segment.{RetainedSegment}
use better_hermes_hindsight.Outbox.Types.{
  SqliteOutbox, OutboxRow, WallTime, Failure, OutboxFailureCategory,
}
use better_hermes_hindsight.Outbox.Lock.{AcquireView, ProfileLockOwner}
use better_hermes_hindsight.Outbox.Admission.{admit}
use better_hermes_hindsight.Outbox.Claims.{Env}

-- `RetainSegment` of better_hermes_hindsight/client.py.
pub record RetainSegment : Type 0 where
  pub content : Text
  pub document_id : Text
  pub payload_schema : Text
  pub source_sha256 : Text
  pub segment_index : ℕ
  pub segment_count : ℕ
  pub timestamp : Option Text

-- What `self._runner.run(lambda: self._client.retain_segment(segment), ...)` does: it returns a
-- confirmation, returns something else, or raises one of the errors that `_deliver_claim` names.
pub data ClientResponse : Type 0 where
  confirmed unconfirmed unsettled timed_out cancelled unexpected_error : ClientResponse
  client_error : Text → ClientResponse

-- What the thread has done: the segments it handed to the client with the response, its telemetry,
-- its bounded waits, and where it takes and releases the profile lock.
pub data SenderAction : Type 0 where
  retained : RetainSegment → ClientResponse → SenderAction
  loop_event : Text → SenderAction
  attempted : ℕ → Text → Text → ℕ → SenderAction
  waited : ℕ → SenderAction
  acquired released : ProfileLockOwner → SenderAction

-- Where the thread is: at the head of the loop of `_run`; at the head of the loop of
-- `_run_as_owner`; in one of the two waits for settlement; or past the end of `_run`.
pub data Place : Type 0 where
  seeking ended : Place
  owning settling : ProfileLockOwner → Place
  draining : ProfileLockOwner → OutboxRow → OutboxFailureCategory → Text → Place

-- `loads` is `json.loads`, `none` where it raises; `zoned` says that `datetime.fromisoformat` reads
-- the text and finds a zone in it. The newest action stands first in the trace.
pub record OutboxSender : Type 0 where
  pub outbox : SqliteOutbox
  pub poll_interval : ℕ
  pub retry_initial : ℕ
  pub retry_max : ℕ
  pub loads : Text → Option JsonValue
  pub zoned : Text → Bool
  pub started : Bool
  pub stop_requested : Bool
  pub wake_set : Bool
  pub place : Place
  pub trace : List SenderAction

-- `SQLiteOutbox.admit`, called by another thread.
pub record Arrival : Type 0 where
  pub fault : Option Failure
  pub timestamp : ℕ
  pub segments : List RetainedSegment

-- What one turn of a loop meets: the admissions of other threads before it and during the call of the
-- client, the requests to stop before each check of `_stopping`, and what each call answers.
pub record Moment : Type 0 where
  pub arrivals : List Arrival
  pub meanwhile : List Arrival
  pub stop_first : Bool
  pub stop_second : Bool
  pub stop_third : Bool
  pub stop_last : Bool
  pub lock : AcquireView
  pub settled : Bool
  pub now : WallTime
  pub env : Env
  pub deadline_fault : Option Failure
  pub wait_from : ℕ
  pub response : ClientResponse
  pub completed_at : WallTime
  pub finish : Env

unfoldable pub admit_all : List Arrival → SqliteOutbox → SqliteOutbox
admit_all [] box = box
admit_all (a ∷ later) box = admit_all later (admit box a.fault a.timestamp a.segments).1

abbrev pub receive : List Arrival → OutboxSender → OutboxSender
receive arrivals s = record s { outbox = admit_all arrivals s.outbox }

abbrev pub did : SenderAction → OutboxSender → OutboxSender
did action s = record s { trace = action ∷ s.trace }

unfoldable pub start : OutboxSender → OutboxSender
start s = if s.started then s else record s { started = true }

unfoldable pub wake : OutboxSender → OutboxSender
wake s = record s { wake_set = true }

unfoldable pub request_stop : OutboxSender → OutboxSender
request_stop s = record s { stop_requested = true; wake_set = true }

-- `request_stop` of another thread, where it comes.
unfoldable pub hear : Bool → OutboxSender → OutboxSender
unfolding request_stop
hear stop s = if stop then request_stop s else s

abbrev is_ended : Place → Bool
is_ended Place.ended = true
is_ended _ = false

-- `join`: whether the thread is not alive when the wait is over.
unfoldable pub join_thread : OutboxSender → Bool
join_thread s = not s.started || is_ended s.place

-- `value.get(key)` on an object.
unfoldable pub get_field : Text → JsonFields → Option JsonValue
get_field key JsonFields.no_fields = none
get_field key (JsonFields.field name value fields) =
    if same name key then some value else get_field key fields

abbrev pub is_text : Text → Option JsonValue → Bool
is_text t (some (JsonValue.text u)) = same u t
is_text t _ = false

abbrev zoned_text : (Text → Bool) → Option JsonValue → Option Text
zoned_text zoned (some (JsonValue.text t)) = if non_empty t && zoned t then some t else none
zoned_text zoned _ = none

-- `retained_event_timestamp` of better_hermes_hindsight/retention.py.
unfoldable pub retained_event_timestamp :
    (Text → Option JsonValue) → (Text → Bool) → Text → Option Text
unfolding get_field
retained_event_timestamp loads zoned content = elim (loads content) [
  | some (JsonValue.object fields) ↦
      if is_text (codes "better-hindsight-retained-event-v2")
        (get_field (codes "record_schema") fields)
      then zoned_text zoned (get_field (codes "occurred_at") fields)
      else none
  | _ ↦ none
]
