-- ===== src/Watchdog/Known.antt =====
-- The outcomes that better_hermes_hindsight/watchdog.py keeps are known ones.
use better_hermes_hindsight.Common.{
  ◌≡◌, refl, subst, Bool, true, false, List, [], ◌∷◌, Option, none, some, if◌then◌else◌, Text,
  arith, All, All-append, Bool-cases, Option-cases, inl, inr, codes,
}
use better_hermes_hindsight.Watchdog.State.{
  Value, is_text, listed, in_set, adapter_contract_failures, lifecycle_failures,
  sender_loop_failures, recall_outcomes, WatchdogState, Document, known_outcomes, known_reasons,
  read_state,
}
use better_hermes_hindsight.Watchdog.Evaluate.{
  Event, Seen, event_in, first_of, text_of, attempt_failed, see_event, see_events,
}

-- Every outcome is one of the known ones.
abbrev pub AllKnown : List Text → Type 0
AllKnown outcomes = All (λ t. listed t recall_outcomes ≡ true) outcomes

abbrev pub SeenKnown : Option Seen → Type 0
SeenKnown none = Unit
SeenKnown (some seen) = AllKnown seen.outcomes

first_of-Known :
    (test : Option Bool) (found otherwise : Option Seen)
    → (test ≡ some true → SeenKnown found)
    → SeenKnown otherwise
    → SeenKnown (first_of test found otherwise)
first_of-Known none found otherwise f o = tt
first_of-Known (some true) found otherwise f o = f refl
first_of-Known (some false) found otherwise f o = o

known_outcome :
    (event : Event)
    → event_in event (codes "better_hindsight.recall") recall_outcomes ≡ some true
    → listed (text_of event.outcome) recall_outcomes ≡ true
known_outcome event e =
    known event.outcome (is_text (codes "better_hindsight.recall") event.event) e
  where
    known :
        (outcome : Value) (of_recall : Bool)
        → (if of_recall then in_set outcome recall_outcomes else some false) ≡ some true
        → listed (text_of outcome) recall_outcomes ≡ true
    known (Value.text t) true e = ground arith
    known Value.other true e = cc
    known Value.unhashable true e = cc
    known outcome false e = cc

see_event-Known :
    (seen : Seen) (event : Event) → AllKnown seen.outcomes → SeenKnown (see_event seen event)
unfolding see_event
see_event-Known seen event h =
    let test = λ (name : Text) (names : List Text). event_in event name names in
    first_of-Known (test (codes "better_hindsight.recall") recall_outcomes) _ _
      (λ e.
        All-append (λ t. listed t recall_outcomes ≡ true) seen.outcomes (text_of event.outcome ∷ [])
          h (known_outcome event e, tt))
      (first_of-Known (attempt_failed event) _ _ (λ _. h)
        (first_of-Known (test (codes "better_hindsight.http_request") adapter_contract_failures) _ _
          (λ _. h)
          (first_of-Known (test (codes "better_hindsight.sender_loop") sender_loop_failures) _ _
            (λ _. h)
            (first_of-Known (test (codes "better_hindsight.client_lifecycle") lifecycle_failures) _
              _ (λ _. h) h))))

pub see_events-Known :
    (seen : Seen) (events : List Event)
    → AllKnown seen.outcomes
    → SeenKnown (see_events seen events)
unfolding see_events
see_events-Known seen [] h = h
see_events-Known seen (event ∷ rest) h = elim (Option-cases (see_event seen event)) [
  | inl e ↦ rw (e, see_events) tt
  | inr (seen', e) ↦
      rw (e, see_events)
        (see_events-Known seen' rest (subst SeenKnown e (see_event-Known seen event h)))
]

abbrev pub ListKnown : Option (List Text) → Type 0
ListKnown none = Unit
ListKnown (some known) = AllKnown known

known_outcomes-Known : (values : List Value) → ListKnown (known_outcomes values)
unfolding known_outcomes
known_outcomes-Known [] = tt
known_outcomes-Known (Value.other ∷ vs) = known_outcomes-Known vs
known_outcomes-Known (Value.unhashable ∷ vs) = tt
known_outcomes-Known (Value.text t ∷ vs) = with_text (known_outcomes vs) (known_outcomes-Known vs)
  where
    with_text :
        (rest : Option (List Text))
        → ListKnown rest
        → ListKnown (elim rest [
          | none ↦ none
          | some known ↦ some (if listed t recall_outcomes then t ∷ known else known)
        ])
    with_text none h = tt
    with_text (some known) h = elim (Bool-cases (listed t recall_outcomes)) [
      | inl e ↦ rw e (e, h)
      | inr e ↦ rw e h
    ]

abbrev pub StateKnown : Option WatchdogState → Type 0
StateKnown none = Unit
StateKnown (some state) = AllKnown state.outcomes

pub read_state-Known : (document : Document) → StateKnown (read_state document)
unfolding read_state
read_state-Known Document.unreadable = tt
read_state-Known (Document.object none values) = tt
read_state-Known (Document.object (some reasons) none) = tt
read_state-Known (Document.object (some reasons) (some values)) =
    with_list (known_outcomes values) (known_outcomes-Known values)
  where
    with_list :
        (known : Option (List Text))
        → ListKnown known
        → StateKnown (elim known [
          | none ↦ none
          | some outcomes ↦
              some (record { active_reasons = known_reasons reasons; outcomes = outcomes })
        ])
    with_list none h = tt
    with_list (some outcomes) h = h
