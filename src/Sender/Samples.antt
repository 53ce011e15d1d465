-- ===== src/Sender/Samples.antt =====
-- A sender of better_hermes_hindsight/runtime.py over a small outbox, for the examples.
use better_hermes_hindsight.Common.{[], none, true, false}
use better_hermes_hindsight.Outbox.Types.{WallTime}
use better_hermes_hindsight.Outbox.Samples.{one_row, calm, attempt, program}
use better_hermes_hindsight.Sender.{
  ClientResponse, Place, OutboxSender, Moment, request_stop, start, wake, join_thread,
}
use better_hermes_hindsight.Outbox.Lock.{try_acquire_profile_lock}
use better_hermes_hindsight.Outbox.Claims.{next_matching_retry_deadline, earliest}
use better_hermes_hindsight.Sender.{hear, admit_all, retained_event_timestamp, get_field}
use better_hermes_hindsight.Sender.Deliver.{
  deliver_claim, respond, finish_delivery, fail_delivery, after_transition, leave, pause,
  retain_segment_of,
}
use better_hermes_hindsight.Sender.Ownership.{lock_held}
use better_hermes_hindsight.Sender.Loop.{
  run, thread_turn, seek_turn, after_acquisition, begin_owning, owner_turn, claim_turn, after_claim,
  wait_deadline, after_deadline, settle_turn,
}
use better_hermes_hindsight.Sender.Handed.{handed}

-- A moment at which every call succeeds.
abbrev pub good : Moment
good = record {
  arrivals = [];
  meanwhile = [];
  stop_first = false;
  stop_second = false;
  stop_third = false;
  stop_last = false;
  lock = attempt;
  settled = true;
  now = WallTime.at 20;
  env = calm;
  deadline_fault = none;
  wait_from = 20;
  response = ClientResponse.confirmed;
  completed_at = WallTime.at 21;
  finish = calm;
}

abbrev pub late : Moment
late = record good { response = ClientResponse.timed_out }

abbrev pub idle : OutboxSender
idle = record {
  outbox = one_row;
  poll_interval = 5;
  retry_initial = 5;
  retry_max = 60;
  loads = λ t. none;
  zoned = λ t. false;
  started = true;
  stop_requested = false;
  wake_set = true;
  place = Place.seeking;
  trace = [];
}

-- The definitions that the examples run.
unfoldable pub sends : Unit {0}
unfolding program run thread_turn seek_turn after_acquisition begin_owning owner_turn claim_turn
    after_claim deliver_claim respond finish_delivery fail_delivery after_transition leave pause
    hear admit_all retain_segment_of retained_event_timestamp try_acquire_profile_lock wait_deadline
    after_deadline next_matching_retry_deadline earliest request_stop handed get_field lock_held
    start wake join_thread settle_turn
sends = tt
