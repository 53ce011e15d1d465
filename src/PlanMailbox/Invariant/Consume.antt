-- ===== src/PlanMailbox/Invariant/Consume.antt =====
-- `consume` keeps the invariant of better_hermes_hindsight/plan_mailbox.py.
use better_hermes_hindsight.Common.{
  ℕ, ◌+◌, ◌≤◌, not, List, [], ◌∷◌, Option, none, some, Text, same, text_dec, keep, All, arith,
  Option-cases, inl, inr, length,
}
use better_hermes_hindsight.Common.Dict.{
  Dict, get, pop, IsDict, put-IsDict, pop-IsDict, keep-IsDict, All-pop,
}
use better_hermes_hindsight.PlanMailbox.State.{
  plan_max_age, StoredPlan, HomeState, turn_dec, purge_expired, resolve_active_session, same_turn,
}
use better_hermes_hindsight.PlanMailbox.Consume.{
  consume, consume_in, consume_resolved, candidates, close_turn, take_newest, newest, pop_all,
  Candidate,
}
use better_hermes_hindsight.PlanMailbox.Invariant.{
  IsHome, IsSlot, purge_expired-IsHome, with_redirects, with_plans,
}

pub resolve_active_session-IsHome :
    (state : HomeState) (session_id : Text)
    → IsHome state
    → IsHome (resolve_active_session state session_id).0
unfolding resolve_active_session
resolve_active_session-IsHome state session_id h =
    let used_up =
      with_redirects state h (pop text_dec session_id state.redirects)
        (pop-IsDict text_dec session_id state.redirects h.redirects) in
    elim (Option-cases (get text_dec session_id state.redirects)) [
      | inl e ↦ rw e (ground arith)
      | inr (target, e) ↦ rw e (ground (arith, used_up))
    ]

pub close_turn-IsHome :
    (state : HomeState) (session_id turn_id : Text) (now : ℕ)
    → IsHome state
    → IsHome (close_turn state session_id turn_id now)
unfolding close_turn
close_turn-IsHome state session_id turn_id now h = record {
  activations = h.activations;
  closed_turns =
      put-IsDict turn_dec (session_id, turn_id) (now + plan_max_age) state.closed_turns
        h.closed_turns;
  current_turns = pop-IsDict text_dec session_id state.current_turns h.current_turns;
  plans = pop-IsDict text_dec turn_id state.plans h.plans;
  redirects =
      keep-IsDict text_dec (λ e. not (same_turn e.1 (session_id, turn_id))) state.redirects
        h.redirects;
  bounded = All-pop text_dec (λ e. e.1.sequence ≤ state.sequence) turn_id state.plans h.bounded;
}

candidates-IsHome :
    (state : HomeState) (session_id : Text) (query_length : ℕ) (redirected : Option Text) (now : ℕ)
    → IsHome state
    → IsHome (candidates state session_id query_length redirected now).0
unfolding candidates
candidates-IsHome state session_id query_length redirected now h =
    elim (Option-cases (get text_dec session_id state.current_turns)) [
      | inl e ↦ rw (e, candidates) h
      | inr (turn, e) ↦ rw (e, candidates) (close_turn-IsHome state session_id turn.0 now h)
    ]

pub pop_all-IsDict :
    (found : List Candidate) (plans : Dict Text StoredPlan)
    → IsDict text_dec plans
    → IsDict text_dec (pop_all found plans)
unfolding pop_all
pop_all-IsDict [] plans h = h
pop_all-IsDict (c ∷ rest) plans h =
    pop_all-IsDict rest (pop text_dec c.0 plans) (pop-IsDict text_dec c.0 plans h)

pub All-pop_all :
    (P : Text × StoredPlan → Type 0) (found : List Candidate) (plans : Dict Text StoredPlan)
    → All P plans
    → All P (pop_all found plans)
unfolding pop_all
All-pop_all P [] plans h = h
All-pop_all P (c ∷ rest) plans h =
    All-pop_all P rest (pop text_dec c.0 plans) (All-pop text_dec P c.0 plans h)

take_newest-IsSlot :
    (state : HomeState) (found : List Candidate) → IsHome state → IsSlot (take_newest state found).1
unfolding take_newest
take_newest-IsSlot state found h =
    let left =
      with_plans state h (pop_all found state.plans) (pop_all-IsDict found state.plans h.plans)
        (All-pop_all (λ e. e.1.sequence ≤ state.sequence) found state.plans h.bounded) in
    elim (Option-cases (newest found)) [
      | inl e ↦ rw (e, IsSlot) h
      | inr (best, e) ↦ rw (e, IsSlot) left
    ]

consume_resolved-IsSlot :
    (digest : Text → Text) (source_query : Text) (now : ℕ) (state : HomeState) (session_id : Text)
    (redirected : Option Text)
    → IsHome state
    → IsSlot (consume_resolved digest source_query now state session_id redirected).1
unfolding consume_resolved
consume_resolved-IsSlot digest source_query now state session_id redirected h =
    let step = candidates state session_id (length source_query) redirected now in
    take_newest-IsSlot step.0 (keep (λ c. same c.1.query_digest (digest source_query)) step.1)
      (candidates-IsHome state session_id (length source_query) redirected now h)

consume_in-IsSlot :
    (digest : Text → Text) (source_query session_id : Text) (now : ℕ) (state : HomeState)
    → IsHome state
    → IsSlot (consume_in digest source_query session_id now state).1
unfolding consume_in
consume_in-IsSlot digest source_query session_id now state h =
    let step = resolve_active_session state session_id in
    let step-IsHome : IsHome step.0 = resolve_active_session-IsHome state session_id h in
    elim (Option-cases step.1) [
      | inl e ↦ rw (e, consume_in) step-IsHome
      | inr (to, e) ↦
          rw (e, consume_in)
            (consume_resolved-IsSlot digest source_query now step.0 to.0 to.1 step-IsHome)
    ]

pub consume-IsSlot :
    (digest : Text → Text) (source_query session_id : Text) (now : ℕ) (slot : Option HomeState)
    → IsSlot slot
    → IsSlot (consume digest source_query session_id now slot).1
unfolding consume
consume-IsSlot digest source_query session_id now none h = ground arith
consume-IsSlot digest source_query session_id now (some state) h = ground (
  arith,
  consume_in-IsSlot digest source_query session_id now (purge_expired state now)
      (purge_expired-IsHome state now h),
)
