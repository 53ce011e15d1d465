-- ===== src/PlanMailbox/Consume.antt =====
-- `consume` of `InMemoryPlanMailbox` (better_hermes_hindsight/plan_mailbox.py).
use better_hermes_hindsight.Common.{
  ℕ, ◌+◌, Bool, true, ◌&&◌, not, List, [], ◌∷◌, Option, none, some, if◌then◌else◌, ltb, Text, same,
  text_dec, non_empty, keep, ◌==◌, length,
}
use better_hermes_hindsight.Common.Dict.{Dict, get, put, pop}
use better_hermes_hindsight.PlanMailbox.State.{
  RecallPlan, StoredPlan, HomeState, plan_max_age, MailboxError, ok, Outcome, turn_dec, same_turn,
  purge_expired, resolve_active_session, with_home, refused,
}

-- A turn with its stored plan.
abbrev pub Candidate : Type 0
Candidate = Text × StoredPlan

-- `redirected_turn_id is None or turn_id == redirected_turn_id`
abbrev pub reached : Option Text → Text → Bool
reached none turn_id = true
reached (some redirected) turn_id = same turn_id redirected

-- The tests of a candidate before its digest is compared.
abbrev pub fits : Text → ℕ → Option Text → Candidate → Bool
fits session_id query_length redirected (turn_id, plan) =
    same plan.session_id session_id
    && plan.query_length == query_length
    && reached redirected turn_id

-- The current turn is closed: its plan is taken out, and a late worker of it finds it closed.
unfoldable pub close_turn : HomeState → Text → Text → ℕ → HomeState
close_turn state session_id turn_id now = record state {
  current_turns = pop text_dec session_id state.current_turns;
  plans = pop text_dec turn_id state.plans;
  closed_turns = put turn_dec (session_id, turn_id) (now + plan_max_age) state.closed_turns;
  redirects = keep (λ e. not (same_turn e.1 (session_id, turn_id))) state.redirects;
}

abbrev pub one_candidate : Text → Option StoredPlan → List Candidate
one_candidate turn_id none = []
one_candidate turn_id (some plan) = (turn_id, plan) ∷ []

-- The candidates, and the state without the current turn.
unfoldable pub candidates : HomeState → Text → ℕ → Option Text → ℕ → HomeState × List Candidate
unfolding close_turn
candidates state session_id query_length redirected now =
    elim (get text_dec session_id state.current_turns) [
      | none ↦ (state, keep (fits session_id query_length redirected) state.plans)
      | some (turn_id, token) ↦ (
        close_turn state session_id turn_id now,
        keep (fits session_id query_length redirected)
            (one_candidate turn_id (get text_dec turn_id state.plans)),
      )
    ]

unfoldable pub newest_from : Candidate → List Candidate → Candidate
newest_from best [] = best
newest_from best (next ∷ rest) =
    newest_from (if ltb best.1.sequence next.1.sequence then next else best) rest

-- `max(matches, key=lambda item: item[1].sequence)`
unfoldable pub newest : List Candidate → Option Candidate
unfolding newest_from
newest [] = none
newest (first ∷ rest) = some (newest_from first rest)

unfoldable pub pop_all : List Candidate → Dict Text StoredPlan → Dict Text StoredPlan
pop_all [] plans = plans
pop_all ((turn_id, _) ∷ rest) plans = pop_all rest (pop text_dec turn_id plans)

-- A plan that was published, as the provider gets it.
abbrev pub published : Candidate → Option RecallPlan
published (turn_id, plan) = elim plan.action [
  | none ↦ none
  | some action ↦ some (record {
    mode = plan.mode;
    action = action;
    rewritten_query = plan.rewritten_query;
    turn_id = turn_id;
  })
]

-- The end of `consume`: the matches are taken out, and the newest is returned with the evaluation that
-- `on_evaluation` is told of.
unfoldable pub take_newest : HomeState → List Candidate → Outcome (Option RecallPlan × Option Text)
unfolding newest pop_all
take_newest state matches = elim (newest matches) [
  | none ↦ (ok (none, none), some state)
  | some best ↦ (
    ok (published best, best.1.evaluation_id),
    some (record state { plans = pop_all matches state.plans }),
  )
]

-- `consume` behind the purge, once the session is resolved.
unfoldable pub consume_resolved :
    (Text → Text)
    → Text
    → ℕ
    → HomeState
    → Text
    → Option Text
    → Outcome (Option RecallPlan × Option Text)
unfolding candidates take_newest
consume_resolved digest source_query now state session_id redirected =
    let (state', found) = candidates state session_id (length source_query) redirected now in
    take_newest state' (keep (λ c. same c.1.query_digest (digest source_query)) found)

-- `consume` behind the purge.
unfoldable pub consume_in :
    (Text → Text) → Text → Text → ℕ → HomeState → Outcome (Option RecallPlan × Option Text)
unfolding consume_resolved
consume_in digest source_query session_id now state =
    let (state', resolved) = resolve_active_session state session_id in
    elim resolved [
      | none ↦ (ok (none, none), some state')
      | some (effective, redirected) ↦
          consume_resolved digest source_query now state' effective redirected
    ]

-- The plan, and the evaluation identifier that is handed to `on_evaluation`.
unfoldable pub consume :
    (Text → Text) → Text → Text → ℕ → Option HomeState → Outcome (Option RecallPlan × Option Text)
unfolding consume_in
consume digest source_query session_id now slot =
    if non_empty source_query && non_empty session_id
    then with_home slot (none, none)
        (λ state. consume_in digest source_query session_id now (purge_expired state now))
    else refused MailboxError.value_error slot
