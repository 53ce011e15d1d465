-- ===== src/Watchdog/Evaluate.antt =====
-- `evaluate_watchdog` of better_hermes_hindsight/watchdog.py.
use better_hermes_hindsight.Common.{
  ℕ, ◌-◌, Bool, true, false, ◌&&◌, ◌||◌, not, List, [], ◌∷◌, ◌++◌, Option, none, some,
  if◌then◌else◌, leb, Text, codes, same, keep, length, drop, count_if,
}
use better_hermes_hindsight.Watchdog.State.{
  Value, is_text, listed, in_set, timeout_outcome, recall_error_outcomes, recall_outcomes,
  retention_failures, adapter_contract_failures, lifecycle_failures, sender_loop_failures, Reason,
  reason_order, local_status_degraded, new_retention_failure, new_adapter_contract_failure,
  new_sender_loop_failure, new_client_lifecycle_failure, recall_timeout_rate_elevated,
  recall_error_rate_elevated, e2e_failed, WatchdogState, Document, read_state, writable, Rate,
  Thresholds, validate_thresholds,
}

-- What the evaluation reads of an event; a missing field is `None`.
pub record Event : Type 0 where
  pub event : Value
  pub outcome : Value
  pub category : Value

-- What the loop over the events keeps.
pub record Seen : Type 0 where
  pub outcomes : List Text
  pub retention_failure : Bool
  pub adapter_contract_failure : Bool
  pub sender_loop_failure : Bool
  pub client_lifecycle_failure : Bool

abbrev pub nothing_seen : List Text → Seen
nothing_seen outcomes = record {
  outcomes = outcomes;
  retention_failure = false;
  adapter_contract_failure = false;
  sender_loop_failure = false;
  client_lifecycle_failure = false;
}

-- `event_name == name and outcome in names`
abbrev pub event_in : Event → Text → List Text → Option Bool
event_in event name names =
    if is_text name event.event then in_set event.outcome names else some false

abbrev pub or_in_set : Option Bool → Value → List Text → Option Bool
or_in_set none value names = none
or_in_set (some true) value names = some true
or_in_set (some false) value names = in_set value names

-- The test of a sender attempt looks at the outcome and at the category.
abbrev pub attempt_failed : Event → Option Bool
attempt_failed event =
    if is_text (codes "better_hindsight.sender_attempt") event.event
    then or_in_set (in_set event.outcome retention_failures) event.category retention_failures
    else some false

abbrev pub text_of : Value → Text
text_of (Value.text t) = t
text_of Value.other = []
text_of Value.unhashable = []

-- The first test that holds decides, and one that raises ends the evaluation.
abbrev pub first_of : Option Bool → Option Seen → Option Seen → Option Seen
first_of none found otherwise = none
first_of (some true) found otherwise = found
first_of (some false) found otherwise = otherwise

unfoldable pub see_event : Seen → Event → Option Seen
see_event seen event =
    first_of (event_in event (codes "better_hindsight.recall") recall_outcomes)
      (some (record seen { outcomes = seen.outcomes ++ (text_of event.outcome ∷ []) }))
      (first_of (attempt_failed event) (some (record seen { retention_failure = true })) (
        first_of (event_in event (codes "better_hindsight.http_request") adapter_contract_failures)
          (some (record seen { adapter_contract_failure = true }))
          (first_of (event_in event (codes "better_hindsight.sender_loop") sender_loop_failures)
            (some (record seen { sender_loop_failure = true }))
            (first_of
              (event_in event (codes "better_hindsight.client_lifecycle") lifecycle_failures)
              (some (record seen { client_lifecycle_failure = true })) (some seen)))))

unfoldable pub see_events : Seen → List Event → Option Seen
unfolding see_event
see_events seen [] = some seen
see_events seen (event ∷ rest) = elim (see_event seen event) [
  | none ↦ none
  | some seen' ↦ see_events seen' rest
]

-- `outcomes[-window:]`
abbrev pub last_outcomes : ℕ → List Text → List Text
last_outcomes window outcomes = drop (length outcomes - window) outcomes

-- Whether the rate is reached by enough samples.
abbrev pub elevated : ℕ → Rate → (Text → Bool) → List Text → Bool
elevated minimum rate p outcomes =
    leb minimum (length outcomes) && rate.reached (count_if p outcomes) (length outcomes)

-- Whether a reason that lasts holds now.
unfoldable pub holds_now : Thresholds → ℕ → Value → Value → List Text → Reason → Bool
holds_now thresholds minimum status canary outcomes reason =
    if same reason local_status_degraded
    then not (is_text (codes "ok") status)
    else if same reason recall_timeout_rate_elevated
    then elevated minimum thresholds.recall_timeout_rate (λ o. same o timeout_outcome) outcomes
    else if same reason recall_error_rate_elevated
    then elevated minimum thresholds.recall_error_rate (λ o. listed o recall_error_outcomes)
        outcomes
    else if same reason e2e_failed
    then not (is_text (codes "ok") canary)
    else false

-- Whether a reason is one of the new events.
unfoldable pub is_new : Seen → Reason → Bool
is_new seen reason =
    (seen.retention_failure && same reason new_retention_failure)
    || (seen.adapter_contract_failure && same reason new_adapter_contract_failure)
    || (seen.sender_loop_failure && same reason new_sender_loop_failure)
    || (seen.client_lifecycle_failure && same reason new_client_lifecycle_failure)

abbrev pub any_new : Seen → Bool
any_new seen =
    seen.retention_failure || seen.adapter_contract_failure || seen.sender_loop_failure
    || seen.client_lifecycle_failure

-- An alert with its reasons and those that were resolved, or a recovery.
pub data Notice : Type 0 where
  alert : List Reason → List Reason → Notice
  recovered : Notice

unfoldable pub same_reasons : List Reason → List Reason → Bool
same_reasons [] [] = true
same_reasons (r ∷ rs) (q ∷ qs) = same r q && same_reasons rs qs
same_reasons [] (_ ∷ _) = false
same_reasons (_ ∷ _) [] = false

abbrev is_nil : List Reason → Bool
is_nil [] = true
is_nil (_ ∷ _) = false

-- What is told of the reasons before, those that last, and all of them, `new` where an event is one.
unfoldable pub notice : List Reason → List Reason → List Reason → Bool → Option Notice
unfolding same_reasons
notice previous persistent ordered new =
    if is_nil ordered
    then if is_nil previous then none else some Notice.recovered
    else if not new && same_reasons persistent previous
    then none
    else some (Notice.alert ordered (keep (λ r. not (listed r persistent)) previous))

-- Any exception, with the state file as it was, or the answer with the state that is written.
pub data Evaluation : Type 0 where
  failed : Evaluation
  evaluated : Option Notice → WatchdogState → Evaluation

-- The evaluation, once the events are seen.
unfoldable pub conclude : Thresholds → ℕ → ℕ → Value → Value → List Reason → Seen → Evaluation
unfolding holds_now is_new notice
conclude thresholds minimum window status canary previous seen =
    let outcomes = last_outcomes window seen.outcomes in
    let now = holds_now thresholds minimum status canary outcomes in
    let persistent = keep now reason_order in
    let ordered = keep (λ r. now r || is_new seen r) reason_order in
    let state : WatchdogState = record { active_reasons = persistent; outcomes = outcomes } in
    if writable state
    then Evaluation.evaluated (notice previous persistent ordered (any_new seen)) state
    else Evaluation.failed

unfoldable pub evaluate_watchdog : Thresholds → Value → Value → List Event → Document → Evaluation
unfolding see_events conclude
evaluate_watchdog thresholds status canary events document = elim (validate_thresholds thresholds) [
  | none ↦ Evaluation.failed
  | some (minimum, window) ↦ elim (read_state document) [
    | none ↦ Evaluation.failed
    | some previous ↦ elim (see_events (nothing_seen previous.outcomes) events) [
      | none ↦ Evaluation.failed
      | some seen ↦ conclude thresholds minimum window status canary previous.active_reasons seen
    ]
  ]
]
