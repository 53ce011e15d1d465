-- ===== src/Watchdog/Quiet.antt =====
-- The watchdog of better_hermes_hindsight/watchdog.py is silent while nothing changes.
use better_hermes_hindsight.Common.{
  ℕ, zero, suc, ◌-◌, ◌≡◌, refl, ap, subst, ◌∙◌, Bool, true, false, ◌&&◌, ◌||◌, List, [], ◌∷◌,
  Option, none, some, Text, same, keep, any, map, length, drop, arith, All, In, Bool-cases,
  Option-cases, inl, inr,
}
use better_hermes_hindsight.Watchdog.State.{
  Value, is_text, listed, recall_outcomes, Reason, reason_order, WatchdogState, Document,
  known_outcomes, known_reasons, read_state, document_of, writable, Thresholds, validate_thresholds,
}
use better_hermes_hindsight.Watchdog.Evaluate.{
  Event, Seen, nothing_seen, see_events, last_outcomes, holds_now, is_new, Notice, same_reasons,
  notice, Evaluation, conclude, evaluate_watchdog,
}
use better_hermes_hindsight.Watchdog.Known.{
  AllKnown, SeenKnown, StateKnown, see_events-Known, read_state-Known,
}

module _ {A : Type 0} where
  keep-ext :
      (p q : A → Bool) (xs : List A) → ((x : A) → In x xs → p x ≡ q x) → keep p xs ≡ keep q xs
  unfolding keep
  keep-ext p q [] f = refl
  keep-ext p q (x ∷ xs) f = rw (f x (inl refl), keep-ext p q xs (λ y m. f y (inr m))) refl

  length-drop : (n : ℕ) (xs : List A) → length (drop n xs) ≡ length xs - n
  length-drop zero xs = omega arith
  length-drop (suc n) [] = omega arith
  length-drop (suc n) (x ∷ xs) = length-drop n xs ∙ omega arith

  All-drop : (P : A → Type 0) (n : ℕ) (xs : List A) → All P xs → All P (drop n xs)
  All-drop P zero xs h = h
  All-drop P (suc n) [] h = h
  All-drop P (suc n) (x ∷ xs) h = All-drop P n xs h.1

any-kept :
    (p : Reason → Bool) (r : Reason) (xs : List Reason)
    → any (λ v. is_text r v) (map Value.text (keep p xs)) ≡ (p r && any (λ q. same q r) xs)
unfolding any keep
any-kept p r [] = ground arith
any-kept p r (x ∷ xs) = elim (Bool-cases (same x r)) [
  | inl e ↦ let here : p x ≡ p r = ap p (ground arith) in ground (arith, here, e, any-kept p r xs)
  | inr e ↦ ground (arith, e, any-kept p r xs)
]

any-In : (r : Reason) (xs : List Reason) → In r xs → any (λ q. same q r) xs ≡ true
unfolding any
any-In r [] m = absurd m
any-In r (x ∷ xs) (inl e) = ground (arith, e)
any-In r (x ∷ xs) (inr m) = ground (arith, any-In r xs m)

-- The reasons that were written are read again.
known_reasons_lem :
    (p : Reason → Bool) → known_reasons (map Value.text (keep p reason_order)) ≡ keep p reason_order
known_reasons_lem p =
    keep-ext (λ r. any (is_text r) (map Value.text (keep p reason_order))) p reason_order
      (λ r m. any-kept p r reason_order ∙ rw (any-In r reason_order m) (ground arith))

known_outcomes_lem :
    (outcomes : List Text)
    → AllKnown outcomes
    → known_outcomes (map Value.text outcomes) ≡ some outcomes
unfolding known_outcomes
known_outcomes_lem [] h = refl
known_outcomes_lem (t ∷ ts) h = rw (known_outcomes_lem ts h.1, h.0) refl

read_state-document_of :
    (p : Reason → Bool) (outcomes : List Text)
    → AllKnown outcomes
    → read_state (
        Document.object
          (some (map Value.text (keep p reason_order)))
          (some (map Value.text outcomes)))
      ≡ some (record { active_reasons = keep p reason_order; outcomes = outcomes })
unfolding read_state
read_state-document_of p outcomes h =
    rw (read_state, known_outcomes_lem outcomes h, known_reasons_lem p) refl

last_outcomes_twice :
    (window : ℕ) (outcomes : List Text)
    → last_outcomes window (last_outcomes window outcomes) ≡ last_outcomes window outcomes
last_outcomes_twice window outcomes =
    let short : length (last_outcomes window outcomes) - window ≡ 0 =
      rw (length-drop (length outcomes - window) outcomes) (omega arith) in
    rw short refl

same_reasons_refl : (rs : List Reason) → same_reasons rs rs ≡ true
unfolding same_reasons
same_reasons_refl [] = refl
same_reasons_refl (r ∷ rs) = ground (arith, same_reasons_refl rs)

notice_same : (rs : List Reason) → notice rs rs rs false ≡ none
unfolding notice
notice_same [] = refl
notice_same (r ∷ rs) = rw (same_reasons_refl (r ∷ rs)) refl

-- Nothing is new where no event is seen.
is_new-nothing : (outcomes : List Text) (r : Reason) → is_new (nothing_seen outcomes) r ≡ false
unfolding is_new
is_new-nothing outcomes r = refl

-- The state that is concluded, from the outcomes that are left.
abbrev concluded : Thresholds → ℕ → Value → Value → List Text → WatchdogState
concluded thresholds minimum status canary outcomes = record {
  active_reasons = keep (holds_now thresholds minimum status canary outcomes) reason_order;
  outcomes = outcomes;
}

conclude_again :
    (thresholds : Thresholds) (minimum window : ℕ) (status canary : Value) (seen : List Text)
    → let state = concluded thresholds minimum status canary (last_outcomes window seen) in
      writable state ≡ true
      → conclude thresholds minimum window status canary state.active_reasons
          (nothing_seen state.outcomes)
        ≡ Evaluation.evaluated none state
unfolding conclude
conclude_again thresholds minimum window status canary seen fits =
    let outcomes = last_outcomes window seen in
    let now = holds_now thresholds minimum status canary outcomes in
    let ordered : keep (λ r. now r || is_new (nothing_seen outcomes) r) reason_order
        ≡ keep now reason_order =
      keep-ext (λ r. now r || is_new (nothing_seen outcomes) r) now reason_order
        (λ r m. rw (is_new-nothing outcomes r) (ground arith)) in
    rw (last_outcomes_twice window seen, fits, ordered, notice_same (keep now reason_order)) refl

evaluate_again :
    (thresholds : Thresholds) (minimum window : ℕ) (status canary : Value) (previous : List Reason)
    (seen : Seen) {told : Option Notice} {state : WatchdogState}
    → validate_thresholds thresholds ≡ some (minimum, window)
    → AllKnown seen.outcomes
    → conclude thresholds minimum window status canary previous seen
      ≡ Evaluation.evaluated told state
    → evaluate_watchdog thresholds status canary [] (document_of state)
      ≡ Evaluation.evaluated none state
unfolding conclude evaluate_watchdog see_events
evaluate_again thresholds minimum window status canary previous seen {told} {state} valid known e =
    let outcomes = last_outcomes window seen.outcomes in
    let written = concluded thresholds minimum status canary outcomes in
    let now = holds_now thresholds minimum status canary outcomes in
    elim (Bool-cases (writable written)) [
      | inr too_large ↦ let e' = rw too_large at e in cc
      | inl fits ↦
          let e' = rw fits at e in
          let is_written : written ≡ state = ground arith in
          let read = read_state-document_of now outcomes (
            All-drop (λ t. listed t recall_outcomes ≡ true) (length seen.outcomes - window)
              seen.outcomes known) in
          subst
            (λ s.
              evaluate_watchdog thresholds status canary [] (document_of s)
              ≡ Evaluation.evaluated none s)
            is_written
            (rw (evaluate_watchdog, valid, read)
              (conclude_again thresholds minimum window status canary seen.outcomes fits))
    ]

-- After an evaluation has written its state, another one with the same status and the same result of the
-- canary, and without a new event, tells nothing and writes the same state again, whatever the thresholds,
-- the events and the state file before were. In particular an alert is not repeated.
pub evaluate_watchdog-quiet :
    (thresholds : Thresholds) (status canary : Value) (events : List Event) (document : Document)
    (told : Option Notice) (state : WatchdogState)
    → evaluate_watchdog thresholds status canary events document ≡ Evaluation.evaluated told state
    → evaluate_watchdog thresholds status canary [] (document_of state)
      ≡ Evaluation.evaluated none state
unfolding evaluate_watchdog
evaluate_watchdog-quiet thresholds status canary events document told state e =
    elim (Option-cases (validate_thresholds thresholds)) [
      | inl invalid ↦ let e' = rw (evaluate_watchdog, invalid) at e in cc
      | inr ((minimum, window), valid) ↦ elim (Option-cases (read_state document)) [
        | inl broken ↦ let e' = rw (evaluate_watchdog, valid, broken) at e in cc
        | inr (previous, read) ↦
            elim (Option-cases (see_events (nothing_seen previous.outcomes) events)) [
              | inl raised ↦ let e' = rw (evaluate_watchdog, valid, read, raised) at e in cc
              | inr (seen, saw) ↦
                  let e' = rw (evaluate_watchdog, valid, read, saw) at e in
                  let known = subst SeenKnown saw (
                    see_events-Known (nothing_seen previous.outcomes) events
                      (subst StateKnown read (read_state-Known document))) in
                  evaluate_again thresholds minimum window status canary previous.active_reasons
                    seen valid known e'
            ]
      ]
    ]
