-- ===== src/Watchdog/Examples.antt =====
-- The watchdog on a few events, and instances of the theorems about it.
use better_hermes_hindsight.Common.{
  ◌*◌, ◌≤◌, ◌≡◌, refl, true, List, [], ◌∷◌, none, some, leb, Text, codes, keep, any, length,
  count_if, text_dec, ℕ_discrete, utf8_length, text_compare,
}
use better_hermes_hindsight.Json.{
  canonical_json, canonical_fields, canonical_items, quoted, escape, escape_char, decimal,
}
use better_hermes_hindsight.Watchdog.State.{
  Value, Document, WatchdogState, Rate, Thresholds, validate_thresholds, read_state, known_outcomes,
  document_of, recall_timeout_rate_elevated, new_retention_failure, empty_state,
}
use better_hermes_hindsight.Watchdog.Evaluate.{
  Event, Notice, Evaluation, see_event, see_events, holds_now, is_new, notice, same_reasons,
  conclude, evaluate_watchdog,
}
use better_hermes_hindsight.Watchdog.Quiet.{evaluate_watchdog-quiet}
use better_hermes_hindsight.Watchdog.Transitions.{
  evaluate_watchdog-silent, evaluate_watchdog-bounded,
}

-- One fifth, in exact arithmetic.
abbrev rate : Rate
rate = record { in_range = true; reached = λ count samples. leb samples (5 * count) }

abbrev thresholds : Thresholds
thresholds = record {
  minimum_recall_samples = some 2;
  recall_error_rate = rate;
  recall_timeout_rate = rate;
  recall_window = some 3;
}

abbrev fine : Value
fine = Value.text (codes "ok")

abbrev recall : Text → Event
recall outcome = record {
  event = Value.text (codes "better_hindsight.recall");
  outcome = Value.text outcome;
  category = Value.other;
}

abbrev attempt : Event
attempt = record {
  event = Value.text (codes "better_hindsight.sender_attempt");
  outcome = Value.text (codes "retry");
  category = Value.text (codes "retain_timeout");
}

abbrev timeouts : List Event
timeouts = recall (codes "success") ∷ (recall (codes "timeout") ∷ [])

abbrev elevated_state : WatchdogState
elevated_state = record {
  active_reasons = recall_timeout_rate_elevated ∷ [];
  outcomes = codes "success" ∷ (codes "timeout" ∷ []);
}

watchdog : Unit {0}
unfolding text_dec ℕ_discrete keep any count_if utf8_length text_compare canonical_json
    canonical_fields canonical_items quoted escape escape_char decimal validate_thresholds
    read_state known_outcomes see_event see_events holds_now is_new notice same_reasons conclude
    evaluate_watchdog
watchdog = tt

alerts :
    evaluate_watchdog thresholds fine fine timeouts Document.unreadable
    ≡ Evaluation.evaluated
        (some (Notice.alert (recall_timeout_rate_elevated ∷ []) []))
        elevated_state
unfolding watchdog
alerts = refl

recovers :
    evaluate_watchdog thresholds fine fine
      (recall (codes "empty") ∷ (recall (codes "empty") ∷ (recall (codes "success") ∷ [])))
      (document_of elevated_state)
    ≡ Evaluation.evaluated (some Notice.recovered) (record {
      active_reasons = [];
      outcomes = codes "empty" ∷ (codes "empty" ∷ (codes "success" ∷ []));
    })
unfolding watchdog
recovers = refl

-- A new failure is told once more, although no lasting reason holds.
tells_new_failures :
    evaluate_watchdog thresholds fine fine (attempt ∷ []) Document.unreadable
    ≡ Evaluation.evaluated (some (Notice.alert (new_retention_failure ∷ []) [])) empty_state
unfolding watchdog
tells_new_failures = refl

-- A list among the outcomes of the state file ends every evaluation, and the file stays as it is.
fails_on_nested_list :
    evaluate_watchdog thresholds fine fine []
      (Document.object (some []) (some (Value.unhashable ∷ [])))
    ≡ Evaluation.failed
unfolding watchdog
fails_on_nested_list = refl

evaluate_watchdog-quiet_example :
    evaluate_watchdog thresholds fine fine [] (document_of elevated_state)
    ≡ Evaluation.evaluated none elevated_state
unfolding watchdog
evaluate_watchdog-quiet_example =
    evaluate_watchdog-quiet thresholds fine fine timeouts Document.unreadable
      (some (Notice.alert (recall_timeout_rate_elevated ∷ []) [])) elevated_state refl

evaluate_watchdog-silent_example :
    recall_timeout_rate_elevated ∷ [] ≡ recall_timeout_rate_elevated ∷ []
unfolding watchdog
evaluate_watchdog-silent_example =
    evaluate_watchdog-silent thresholds fine fine [] (document_of elevated_state) elevated_state
      none elevated_state refl refl refl

evaluate_watchdog-bounded_example : length elevated_state.outcomes ≤ 3
unfolding watchdog
evaluate_watchdog-bounded_example =
    evaluate_watchdog-bounded thresholds fine fine timeouts Document.unreadable empty_state
      (some (Notice.alert (recall_timeout_rate_elevated ∷ []) [])) elevated_state refl refl 3 refl
