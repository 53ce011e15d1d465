-- ===== src/PlanMailbox/Ownership/Consume.antt =====
-- `consume` of better_hermes_hindsight/plan_mailbox.py keeps what is stored owned.
use better_hermes_hindsight.Common.{
  ℕ, ◌+◌, ◌≡◌, List, Option, some, Option-cases, inl, inr, Text, same, text_dec, keep, arith,
  length,
}
use better_hermes_hindsight.Common.Dict.{get, pop, All-put, All-pop}
use better_hermes_hindsight.PlanMailbox.State.{
  HomeState, purge_expired, is_active_in, turn_dec, resolve_active_session, plan_max_age,
}
use better_hermes_hindsight.PlanMailbox.Consume.{
  consume, consume_in, consume_resolved, candidates, close_turn, take_newest, newest, pop_all,
  Candidate,
}
use better_hermes_hindsight.PlanMailbox.Ownership.{
  Active, IsOwned, IsOwnedSlot, purge_expired-IsOwned,
}
use better_hermes_hindsight.PlanMailbox.Invariant.Consume.{All-pop_all}
use better_hermes_hindsight.PlanMailbox.Ownership.Plans.{with_plans}

-- A request is resolved to an active session.
pub resolved-Active :
    (state : HomeState) (session_id : Text) (to : Text × Option Text)
    → (resolve_active_session state session_id).1 ≡ some to
    → Active (resolve_active_session state session_id).0 to.0
unfolding resolve_active_session is_active_in
resolved-Active state session_id to e =
    elim (Option-cases (get text_dec session_id state.redirects)) [
      | inl none_left ↦ ground arith
      | inr (target, found) ↦ ground arith
    ]

pub resolved-IsOwned :
    (state : HomeState) (session_id : Text)
    → IsOwned state
    → IsOwned (resolve_active_session state session_id).0
unfolding resolve_active_session is_active_in
resolved-IsOwned state session_id h =
    let used_up : IsOwned (record state { redirects = pop text_dec session_id state.redirects }) =
      record { plans = h.plans; current_turns = h.current_turns; closed_turns = h.closed_turns } in
    ground arith

close_turn-IsOwned :
    (state : HomeState) (session_id turn_id : Text) (now : ℕ)
    → Active state session_id
    → IsOwned state
    → IsOwned (close_turn state session_id turn_id now)
unfolding close_turn is_active_in
close_turn-IsOwned state session_id turn_id now active h = record {
  plans = All-pop text_dec (λ e. Active state e.1.session_id) turn_id state.plans h.plans;
  current_turns =
      All-pop text_dec (λ e. Active state e.0) session_id state.current_turns h.current_turns;
  closed_turns =
      All-put turn_dec (λ e. Active state e.0.0) (session_id, turn_id) (now + plan_max_age)
        state.closed_turns active h.closed_turns;
}

candidates-IsOwned :
    (state : HomeState) (session_id : Text) (query_length : ℕ) (redirected : Option Text) (now : ℕ)
    → Active state session_id
    → IsOwned state
    → IsOwned (candidates state session_id query_length redirected now).0
unfolding candidates
candidates-IsOwned state session_id query_length redirected now active h =
    elim (Option-cases (get text_dec session_id state.current_turns)) [
      | inl e ↦ rw (e, candidates) h
      | inr (turn, e) ↦ rw (e, candidates) (close_turn-IsOwned state session_id turn.0 now active h)
    ]

take_newest-IsOwnedSlot :
    (state : HomeState) (found : List Candidate)
    → IsOwned state
    → IsOwnedSlot (take_newest state found).1
unfolding take_newest
take_newest-IsOwnedSlot state found h = elim (Option-cases (newest found)) [
  | inl e ↦ rw (e, IsOwnedSlot) h
  | inr (best, e) ↦
      rw (e, IsOwnedSlot)
        (with_plans state (pop_all found state.plans) state.sequence h
          (All-pop_all (λ e. Active state e.1.session_id) found state.plans h.plans))
]

consume_resolved-IsOwnedSlot :
    (digest : Text → Text) (source_query : Text) (now : ℕ) (state : HomeState) (session_id : Text)
    (redirected : Option Text)
    → Active state session_id
    → IsOwned state
    → IsOwnedSlot (consume_resolved digest source_query now state session_id redirected).1
unfolding consume_resolved
consume_resolved-IsOwnedSlot digest source_query now state session_id redirected active h =
    let step = candidates state session_id (length source_query) redirected now in
    take_newest-IsOwnedSlot step.0 (keep (λ c. same c.1.query_digest (digest source_query)) step.1)
      (candidates-IsOwned state session_id (length source_query) redirected now active h)

consume_in-IsOwnedSlot :
    (digest : Text → Text) (source_query session_id : Text) (now : ℕ) (state : HomeState)
    → IsOwned state
    → IsOwnedSlot (consume_in digest source_query session_id now state).1
unfolding consume_in
consume_in-IsOwnedSlot digest source_query session_id now state h =
    let step = resolve_active_session state session_id in
    let step-IsOwned : IsOwned step.0 = resolved-IsOwned state session_id h in
    elim (Option-cases step.1) [
      | inl e ↦ rw (e, consume_in) step-IsOwned
      | inr (to, e) ↦
          rw (e, consume_in)
            (consume_resolved-IsOwnedSlot digest source_query now step.0 to.0 to.1
              (resolved-Active state session_id to e) step-IsOwned)
    ]

pub consume-IsOwnedSlot :
    (digest : Text → Text) (source_query session_id : Text) (now : ℕ) (state : HomeState)
    → IsOwned state
    → IsOwnedSlot (consume digest source_query session_id now (some state)).1
unfolding consume
consume-IsOwnedSlot digest source_query session_id now state h = ground (
  arith,
  h,
  consume_in-IsOwnedSlot digest source_query session_id now (purge_expired state now)
      (purge_expired-IsOwned state now h),
)
