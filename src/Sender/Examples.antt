-- ===== src/Sender/Examples.antt =====
-- A sender over a small outbox: what it does on concrete inputs, and instances of the theorems
-- about it.
use better_hermes_hindsight.Common.{
  ◌≡◌, refl, [], ◌∷◌, some, true, false, ◌⊎◌, arith, codes, length, ◌+◌, ◌≤◌,
}
use better_hermes_hindsight.Outbox.Types.{OutboxRow}
use better_hermes_hindsight.Outbox.Samples.{fresh, stored_row, one_row-IsSound, stored_found}
use better_hermes_hindsight.Outbox.Lifecycle.{Kept}
use better_hermes_hindsight.Sender.{Place, request_stop, start, wake, join_thread}
use better_hermes_hindsight.Json.{JsonValue, JsonFields}
use better_hermes_hindsight.Sender.{retained_event_timestamp}
use better_hermes_hindsight.Sender.Loop.{run, thread_turn}
use better_hermes_hindsight.Sender.Runs.{run-Kept, Delivered}
use better_hermes_hindsight.Sender.Moves.{Moves, world}
use better_hermes_hindsight.Sender.Moves.Turns.{run-Moves}
use better_hermes_hindsight.Sender.Ownership.{HoldsLock, run-HoldsLock}
use better_hermes_hindsight.Sender.Stop.{run-request_stop}
use better_hermes_hindsight.Sender.Handed.{handed}
use better_hermes_hindsight.Sender.Samples.{good, late, idle, sends}

delivers_one : (run (good ∷ good ∷ []) idle).outbox ≡ fresh
unfolding sends
delivers_one = refl

-- A call that times out is waited for, and its row is due again after the delay.
abbrev late_row : OutboxRow
late_row = record stored_row {
  attempt_count = 1;
  next_attempt_at = 26;
  last_error_category = some (codes "retain_timeout");
  updated_at = 21;
}

times_out : (run (good ∷ late ∷ late ∷ []) idle).outbox.rows ≡ late_row ∷ []
unfolding sends
times_out = refl

reads_time :
    retained_event_timestamp
      (λ t. some (
        JsonValue.object (
          JsonFields.field (codes "occurred_at") (JsonValue.text (codes "now")) (
            JsonFields.field
              (codes "record_schema")
              (JsonValue.text (codes "better-hindsight-retained-event-v2"))
              JsonFields.no_fields))))
      (λ t. true)
      []
    ≡ some (codes "now")
unfolding sends
reads_time = refl

starts_once : start (start (record idle { started = false })) ≡ start idle
unfolding sends
starts_once = refl

joins : join_thread (run (good ∷ good ∷ good ∷ []) (request_stop (wake idle))) ≡ true
unfolding sends
joins = refl

run-Moves_example : Moves (world idle) (world (run (good ∷ late ∷ late ∷ []) idle))
run-Moves_example = run-Moves (good ∷ late ∷ late ∷ []) idle

run-Kept_example :
    Kept stored_row (run (good ∷ good ∷ []) idle).outbox.rows
    ⊎ Delivered stored_row (run (good ∷ good ∷ []) idle).trace
run-Kept_example = run-Kept (good ∷ good ∷ []) idle stored_row one_row-IsSound stored_found

idle-HoldsLock : HoldsLock idle
unfolding sends
idle-HoldsLock = refl

run-HoldsLock_example : HoldsLock (run (good ∷ late ∷ late ∷ []) idle)
run-HoldsLock_example = run-HoldsLock (good ∷ late ∷ late ∷ []) idle idle-HoldsLock

run-request_stop_example :
    let stopping = request_stop (thread_turn (run (good ∷ []) idle) late) in
    ((run (late ∷ late ∷ late ∷ []) stopping).place ≡ Place.ended)
    × (handed (run (late ∷ late ∷ late ∷ []) stopping).trace
        ≡ handed (thread_turn (run (good ∷ []) idle) late).trace)
    × (length (handed (thread_turn (run (good ∷ []) idle) late).trace)
        ≤ length (handed (run (good ∷ []) idle).trace) + 1)
run-request_stop_example =
    run-request_stop late (late ∷ late ∷ late ∷ []) (run (good ∷ []) idle)
      (refl, (refl, (refl, tt))) (omega arith)
