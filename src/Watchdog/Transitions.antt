-- ===== src/Watchdog/Transitions.antt =====
-- What the watchdog of better_hermes_hindsight/watchdog.py tells, and how much it keeps.
use better_hermes_hindsight.Common.{
  ℕ, zero, suc, ◌-◌, ◌≤◌, ◌≡◌, refl, subst, ◌∙◌, Bool, true, ◌&&◌, ◌||◌, not, List, [], ◌∷◌, Option,
  none, some, keep, length, drop, arith, Bool-cases, Option-cases, inl, inr,
}
use better_hermes_hindsight.Watchdog.State.{
  Value, Reason, reason_order, WatchdogState, Document, read_state, writable, Thresholds,
  validate_thresholds,
}
use better_hermes_hindsight.Watchdog.Evaluate.{
  Event, Seen, nothing_seen, see_events, last_outcomes, holds_now, is_new, any_new, Notice,
  same_reasons, notice, Evaluation, conclude, evaluate_watchdog,
}

kept_of_either :
    {A : Type 0} (p q : A → Bool) (xs : List A) → keep (λ x. p x || q x) xs ≡ [] → keep p xs ≡ []
unfolding keep
kept_of_either p q [] e = refl
kept_of_either p q (x ∷ xs) e = elim (Bool-cases (p x)) [
  | inl h ↦ let e' = rw h at e in cc
  | inr h ↦ elim (Bool-cases (q x)) [
    | inl k ↦ let e' = rw (h, k) at e in cc
    | inr k ↦ let e' = rw (h, k) at e in rw h (kept_of_either p q xs e')
  ]
]

eq_of_same_reasons : (rs qs : List Reason) → same_reasons rs qs ≡ true → rs ≡ qs
unfolding same_reasons
eq_of_same_reasons [] [] e = refl
eq_of_same_reasons [] (q ∷ qs) e = cc
eq_of_same_reasons (r ∷ rs) [] e = cc
eq_of_same_reasons (r ∷ rs) (q ∷ qs) e = ground (arith, e, eq_of_same_reasons rs qs)

-- Where nothing is told, the reasons are those of before, and nothing is new.
notice-none :
    (previous persistent ordered : List Reason) (new : Bool)
    → (ordered ≡ [] → persistent ≡ [])
    → notice previous persistent ordered new ≡ none
    → persistent ≡ previous
unfolding notice
notice-none [] persistent [] new nil e = nil refl
notice-none (p ∷ ps) persistent [] new nil e = cc
notice-none previous persistent (o ∷ os) new nil e =
    elim (Bool-cases (not new && same_reasons persistent previous)) [
      | inl h ↦ eq_of_same_reasons persistent previous (ground (arith, h))
      | inr h ↦ let e' = rw h at e in cc
    ]

length-drop : {A : Type 0} (n : ℕ) (xs : List A) → length (drop n xs) ≡ length xs - n
length-drop zero xs = omega arith
length-drop (suc n) [] = omega arith
length-drop (suc n) (x ∷ xs) = length-drop n xs ∙ omega arith

module _ (thresholds : Thresholds) (minimum window : ℕ) (status canary : Value)
    (previous : List Reason) (seen : Seen) {told : Option Notice} {state : WatchdogState}
    (e : conclude thresholds minimum window status canary previous seen
      ≡ Evaluation.evaluated told state) where
  abbrev now : Reason → Bool
  now = holds_now thresholds minimum status canary (last_outcomes window seen.outcomes)

  abbrev written : WatchdogState
  written = record {
    active_reasons = keep now reason_order;
    outcomes = last_outcomes window seen.outcomes;
  }

  concluded :
      (written ≡ state)
      × (notice previous
            (keep now reason_order)
            (keep (λ r. now r || is_new seen r) reason_order)
            (any_new seen)
          ≡ told)
  unfolding conclude
  concluded = elim (Bool-cases (writable written)) [
    | inr too_large ↦ let e' = rw too_large at e in cc
    | inl fits ↦ let e' = rw fits at e in (ground arith, ground arith)
  ]

  conclude-bounded : length state.outcomes ≤ window
  conclude-bounded =
      subst (λ s. length s.outcomes ≤ window) concluded.0
        (rw (length-drop (length seen.outcomes - window) seen.outcomes) (omega arith))

  conclude-silent : told ≡ none → state.active_reasons ≡ previous
  conclude-silent silent =
      subst (λ s. s.active_reasons ≡ previous) concluded.0
        (notice-none previous (keep now reason_order)
          (keep (λ r. now r || is_new seen r) reason_order) (any_new seen)
          (kept_of_either now (is_new seen) reason_order) (concluded.1 ∙ silent))

-- An evaluation that writes its state has seen the events of valid thresholds.
module _ (thresholds : Thresholds) (status canary : Value) (events : List Event)
    (document : Document) (previous : WatchdogState) (told : Option Notice) (state : WatchdogState)
    (read : read_state document ≡ some previous)
    (e : evaluate_watchdog thresholds status canary events document
      ≡ Evaluation.evaluated told state) where
  evaluated_lem :
      (minimum : ℕ) × (window : ℕ) × (seen : Seen) × (validate_thresholds thresholds
        ≡ some (minimum, window))
      × (conclude thresholds minimum window status canary previous.active_reasons seen
          ≡ Evaluation.evaluated told state)
  unfolding evaluate_watchdog
  evaluated_lem = elim (Option-cases (validate_thresholds thresholds)) [
    | inl invalid ↦ let e' = rw (evaluate_watchdog, invalid) at e in cc
    | inr ((minimum, window), valid) ↦
        elim (Option-cases (see_events (nothing_seen previous.outcomes) events)) [
          | inl raised ↦ let e' = rw (evaluate_watchdog, valid, read, raised) at e in cc
          | inr (seen, saw) ↦
              let e' = rw (evaluate_watchdog, valid, read, saw) at e in
              (minimum, window, seen, valid, e')
        ]
  ]

  -- Every change of the lasting reasons is told: an evaluation that tells nothing writes the reasons that
  -- it read from the state file.
  pub evaluate_watchdog-silent : told ≡ none → state.active_reasons ≡ previous.active_reasons
  evaluate_watchdog-silent silent =
      let (minimum, window, seen, valid, concludes) = evaluated_lem in
      conclude-silent thresholds minimum window status canary previous.active_reasons seen concludes
        silent

  -- However many events there were, no more outcomes of recalls are written than the window has.
  pub evaluate_watchdog-bounded :
      (window : ℕ) → thresholds.recall_window ≡ some window → length state.outcomes ≤ window
  unfolding validate_thresholds
  evaluate_watchdog-bounded window given =
      let (minimum, window', seen, valid, concludes) = evaluated_lem in
      let same_window : window' ≡ window = ground (arith, valid, given) in
      subst (λ w. length state.outcomes ≤ w) same_window
        (conclude-bounded thresholds minimum window' status canary previous.active_reasons seen
          concludes)
