-- ===== src/Sender/Stop.antt =====
-- The end of the sender thread of better_hermes_hindsight/runtime.py, once a stop is requested.
use better_hermes_hindsight.Common.{
  ℕ, ◌-◌, ◌+◌, ◌≤◌, ◌≡◌, refl, List, [], ◌∷◌, ◌∙◌, arith, true, length, All,
}
use better_hermes_hindsight.Sender.{Place, OutboxSender, Moment, receive, hear, request_stop}
use better_hermes_hindsight.Sender.Deliver.{pause, leave, after_transition, fail_delivery}
use better_hermes_hindsight.Sender.Loop.{
  seek_turn, owner_turn, settle_turn, turn_at, thread_turn, run,
}
use better_hermes_hindsight.Sender.Handed.{handed, handed-turn_at}

-- The turns that a stopped thread has before it.
abbrev pub turns_left : Place → ℕ
turns_left Place.ended = 0
turns_left Place.seeking = 1
turns_left (Place.owning owner) = 2
turns_left (Place.settling owner) = 3
turns_left (Place.draining owner row category reason) = 3

-- What one turn of a stopped thread does, where the runner has settled.
record Ebbs (s s' : OutboxSender) : Type 0 where
  stopped : s'.stop_requested ≡ true
  nearer : turns_left s'.place ≤ turns_left s.place - 1
  quiet : handed s'.trace ≡ handed s.trace

Ebbs-turn_at :
    (place : Place) (s : OutboxSender) (m : Moment)
    → s.place ≡ place
    → s.stop_requested ≡ true
    → m.settled ≡ true
    → Ebbs s (turn_at place s m)
unfolding seek_turn owner_turn settle_turn fail_delivery after_transition leave pause hear
    request_stop handed
Ebbs-turn_at Place.seeking s m here stopped settled = record {
  stopped = ground arith;
  nearer = ground arith;
  quiet = ground arith;
}
Ebbs-turn_at Place.ended s m here stopped settled = record {
  stopped = ground arith;
  nearer = ground arith;
  quiet = refl;
}
Ebbs-turn_at (Place.owning owner) s m here stopped settled = record {
  stopped = ground arith;
  nearer = ground arith;
  quiet = ground arith;
}
Ebbs-turn_at (Place.settling owner) s m here stopped settled = record {
  stopped = ground arith;
  nearer = ground arith;
  quiet = ground arith;
}
Ebbs-turn_at (Place.draining owner row category reason) s m here stopped settled = record {
  stopped = ground arith;
  nearer = ground arith;
  quiet = ground arith;
}

Ebbs-thread_turn :
    (s : OutboxSender) (m : Moment)
    → s.stop_requested ≡ true
    → m.settled ≡ true
    → Ebbs s (thread_turn s m)
unfolding thread_turn
Ebbs-thread_turn s m stopped settled =
    let e = Ebbs-turn_at s.place (receive m.arrivals s) m refl stopped settled in
    record { stopped = e.stopped; nearer = e.nearer; quiet = e.quiet }

run_stopped_within :
    (moments : List Moment) (s : OutboxSender)
    → s.stop_requested ≡ true
    → All (λ m. m.settled ≡ true) moments
    → turns_left s.place ≤ length moments
    → (turns_left (run moments s).place ≡ 0) × (handed (run moments s).trace ≡ handed s.trace)
unfolding run
run_stopped_within [] s stopped settled enough = (omega arith, refl)
run_stopped_within (m ∷ later) s stopped (now, settled) enough =
    let e = Ebbs-thread_turn s m stopped now in
    let (ended, quiet) =
      run_stopped_within later (thread_turn s m) e.stopped settled
        (omega (arith, e.nearer, enough)) in
    (ended, quiet ∙ e.quiet)

turns_left_zero : (place : Place) → turns_left place ≡ 0 → place ≡ Place.ended
turns_left_zero Place.ended h = refl
turns_left_zero Place.seeking h = absurd (omega arith)
turns_left_zero (Place.owning owner) h = absurd (omega arith)
turns_left_zero (Place.settling owner) h = absurd (omega arith)
turns_left_zero (Place.draining owner row category reason) h = absurd (omega arith)

turns_left_bound : (place : Place) → turns_left place ≤ 3
turns_left_bound place = ground arith

run_stopped :
    (moments : List Moment) (s : OutboxSender)
    → All (λ m. m.settled ≡ true) moments
    → 3 ≤ length moments
    → ((run moments (request_stop s)).place ≡ Place.ended)
      × (handed (run moments (request_stop s)).trace ≡ handed s.trace)
unfolding request_stop
run_stopped moments s settled enough =
    let (ended, quiet) =
      run_stopped_within moments (request_stop s) refl settled
        (omega (arith, turns_left_bound s.place, enough)) in
    (turns_left_zero (run moments (request_stop s)).place ended, quiet)

-- Stopping ends the thread. Where the request comes in the course of a turn, after its last check of
-- `_stopping`, that turn is done to its end and hands at most one segment to the client; then three turns
-- at which the runner has settled lead the thread past the end of `_run`, wherever it was, and hand over none.
pub run-request_stop :
    (m : Moment) (moments : List Moment) (s : OutboxSender)
    → All (λ n. n.settled ≡ true) moments
    → 3 ≤ length moments
    → let stopping = request_stop (thread_turn s m) in
      ((run moments stopping).place ≡ Place.ended)
      × (handed (run moments stopping).trace ≡ handed (thread_turn s m).trace)
      × (length (handed (thread_turn s m).trace) ≤ length (handed s.trace) + 1)
unfolding thread_turn
run-request_stop m moments s settled enough =
    let (ended, quiet) = run_stopped moments (thread_turn s m) settled enough in
    (ended, quiet, handed-turn_at s.place (receive m.arrivals s) m)
