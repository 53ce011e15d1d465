-- ===== src/Watchdog/State.antt =====
-- The state file and the thresholds of better_hermes_hindsight/watchdog.py.
use better_hermes_hindsight.Common.{
  ℕ, Bool, false, ◌&&◌, List, [], ◌∷◌, Option, none, some, if◌then◌else◌, leb, ltb, Text, codes,
  same, keep, any, map, utf8_length,
}
use better_hermes_hindsight.Json.{JsonValue, JsonItems, JsonFields, canonical_json}

-- A value of a JSON document: a string, another hashable value or a missing one, or a list or an object,
-- which a set cannot be asked for.
pub data Value : Type 0 where
  text : Text → Value
  other unhashable : Value

-- `value == name`
abbrev pub is_text : Text → Value → Bool
is_text name (Value.text t) = same t name
is_text name Value.other = false
is_text name Value.unhashable = false

abbrev pub listed : Text → List Text → Bool
listed t names = any (λ n. same n t) names

-- `value in names`, of a frozenset. `none` is `TypeError`.
abbrev pub in_set : Value → List Text → Option Bool
in_set (Value.text t) names = some (listed t names)
in_set Value.other names = some false
in_set Value.unhashable names = none

abbrev pub timeout_outcome : Text
timeout_outcome = codes "timeout"

abbrev pub recall_error_outcomes : List Text
recall_error_outcomes =
    codes "client_error" ∷ (codes "format_error" ∷ (codes "response_invalid" ∷ []))

abbrev pub recall_outcomes : List Text
recall_outcomes =
    codes "client_error"
    ∷ (codes "format_error"
        ∷ (codes "empty" ∷ (codes "response_invalid" ∷ (codes "success" ∷ (timeout_outcome ∷ [])))))

abbrev pub retention_failures : List Text
retention_failures =
    codes "retain_failed" ∷ (codes "retain_timeout" ∷ (codes "retain_unconfirmed" ∷ []))

abbrev pub adapter_contract_failures : List Text
adapter_contract_failures =
    codes "authentication_failed"
    ∷ (codes "client_status"
        ∷ (codes "endpoint_not_found"
            ∷ (codes "malformed_json"
                ∷ (codes "non_json"
                    ∷ (codes "redirect"
                        ∷ (codes "response_oversized"
                            ∷ (codes "schema_invalid"
                                ∷ (codes "session_closed" ∷ (codes "unexpected_status" ∷ [])))))))))

abbrev pub lifecycle_failures : List Text
lifecycle_failures = codes "close_failed" ∷ (codes "initialization_failed" ∷ [])

abbrev pub sender_loop_failures : List Text
sender_loop_failures =
    codes "claim_failed"
    ∷ (codes "ownership_unavailable"
        ∷ (codes "recovery_failed"
            ∷ (codes "retry_deadline_failed" ∷ (codes "transition_failed" ∷ []))))

-- A reason is told by its name.
abbrev pub Reason : Type 0
Reason = Text

abbrev pub local_status_degraded : Reason
local_status_degraded = codes "local_status_degraded"

abbrev pub new_retention_failure : Reason
new_retention_failure = codes "new_retention_failure"

abbrev pub new_adapter_contract_failure : Reason
new_adapter_contract_failure = codes "new_adapter_contract_failure"

abbrev pub new_sender_loop_failure : Reason
new_sender_loop_failure = codes "new_sender_loop_failure"

abbrev pub new_client_lifecycle_failure : Reason
new_client_lifecycle_failure = codes "new_client_lifecycle_failure"

abbrev pub recall_timeout_rate_elevated : Reason
recall_timeout_rate_elevated = codes "recall_timeout_rate_elevated"

abbrev pub recall_error_rate_elevated : Reason
recall_error_rate_elevated = codes "recall_error_rate_elevated"

abbrev pub e2e_failed : Reason
e2e_failed = codes "e2e_failed"

abbrev pub reason_order : List Reason
reason_order =
    local_status_degraded
    ∷ (new_retention_failure
        ∷ (new_adapter_contract_failure
            ∷ (new_sender_loop_failure
                ∷ (new_client_lifecycle_failure
                    ∷ (recall_timeout_rate_elevated
                        ∷ (recall_error_rate_elevated ∷ (e2e_failed ∷ [])))))))

pub record WatchdogState : Type 0 where
  pub active_reasons : List Reason
  pub outcomes : List Text

abbrev pub empty_state : WatchdogState
empty_state = record { active_reasons = []; outcomes = [] }

-- What the state file holds: nothing that is read as one JSON object of at most 8192 bytes, or the lists of
-- such an object, where its fields are lists.
pub data Document : Type 0 where
  unreadable : Document
  object : Option (List Value) → Option (List Value) → Document

-- The outcomes of a list that are known ones. `none` is `TypeError`.
unfoldable pub known_outcomes : List Value → Option (List Text)
known_outcomes [] = some []
known_outcomes (v ∷ vs) =
    let rest = known_outcomes vs in
    elim v [
      | Value.text t ↦ elim rest [
        | none ↦ none
        | some known ↦ some (if listed t recall_outcomes then t ∷ known else known)
      ]
      | Value.other ↦ rest
      | Value.unhashable ↦ none
    ]

-- `[reason for reason in _REASON_ORDER if reason in reasons]`
abbrev pub known_reasons : List Value → List Reason
known_reasons values = keep (λ r. any (is_text r) values) reason_order

unfoldable pub read_state : Document → Option WatchdogState
unfolding known_outcomes
read_state Document.unreadable = some empty_state
read_state (Document.object (some reasons) (some values)) = elim (known_outcomes values) [
  | none ↦ none
  | some known ↦ some (record { active_reasons = known_reasons reasons; outcomes = known })
]
read_state (Document.object (some reasons) none) = some empty_state
read_state (Document.object none values) = some empty_state

abbrev pub max_state_bytes : ℕ
max_state_bytes = 8192

abbrev texts : List Text → JsonItems
texts [] = JsonItems.no_items
texts (t ∷ ts) = JsonItems.item (JsonValue.text t) (texts ts)

-- What `_write_state` encodes.
abbrev pub encoded_state : WatchdogState → Text
encoded_state state = canonical_json (
    JsonValue.object (
      JsonFields.field (codes "active_reasons") (JsonValue.array (texts state.active_reasons)) (
        JsonFields.field (codes "recall_outcomes") (JsonValue.array (texts state.outcomes))
          (JsonFields.field (codes "version") (JsonValue.number 1) JsonFields.no_fields))))

-- What is read again of it.
abbrev pub document_of : WatchdogState → Document
document_of state =
    Document.object (some (map Value.text state.active_reasons))
      (some (map Value.text state.outcomes))

-- Whether the state is within its bound: a larger one is not written.
abbrev pub writable : WatchdogState → Bool
writable state = leb (utf8_length (encoded_state state)) max_state_bytes

-- A rate: whether it is a finite number in (0, 1], and whether `count / samples >= rate` holds in the
-- floating-point arithmetic.
pub record Rate : Type 0 where
  pub in_range : Bool
  pub reached : ℕ → ℕ → Bool

-- A number of samples is `none` where it is not an integer or is negative.
pub record Thresholds : Type 0 where
  pub minimum_recall_samples : Option ℕ
  pub recall_error_rate : Rate
  pub recall_timeout_rate : Rate
  pub recall_window : Option ℕ

-- The minimum and the window, where the thresholds are valid. `none` is `ValueError`.
unfoldable pub validate_thresholds : Thresholds → Option (ℕ × ℕ)
validate_thresholds thresholds = elim thresholds.minimum_recall_samples [
  | none ↦ none
  | some minimum ↦ elim thresholds.recall_window [
    | none ↦ none
    | some window ↦
        if ltb 0 minimum
          && ltb 0 window
          && leb minimum window
          && thresholds.recall_error_rate.in_range
          && thresholds.recall_timeout_rate.in_range
        then some (minimum, window)
        else none
  ]
]
