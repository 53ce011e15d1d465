-- ===== src/PlanMailbox/Invariant/Turns.antt =====
-- Turns and their plans keep the invariant of better_hermes_hindsight/plan_mailbox.py.
use better_hermes_hindsight.Common.{
  ℕ, ◌+◌, ◌≤◌, ◌≡◌, refl, true, false, ◌&&◌, ◌||◌, not, Option, none, some, if◌then◌else◌, Text,
  same, text_dec, keep, All-map, arith, map, Option-cases, inl, inr,
}
use better_hermes_hindsight.Common.Dict.{
  get, put, pop, put-IsDict, pop-IsDict, keep-IsDict, All-put, All-pop, All-get, map-IsDict,
}
use better_hermes_hindsight.PlanMailbox.State.{
  PlanMode, PlanAction, StoredPlan, HomeState, purge_expired, clear_session, same_token,
}
use better_hermes_hindsight.PlanMailbox.Turns.{
  begin_turn, open_turn, adopt_parent, start_turn, reserve, Request, finalize, publish_plan, cancel,
  cancel_plan, clear_session_plans, purge_stale, reservation, cancelled, drop_stale_redirects,
  names_neither,
}
use better_hermes_hindsight.PlanMailbox.Invariant.{
  IsHome, IsSlot, purge_expired-IsHome, clear_session-IsHome, drop_empty_home-IsSlot, drop_if,
  with_activations, with_redirects, with_current_turns, with_plans,
}

start_turn-IsHome :
    (state : HomeState) (session_id turn_id owner_token : Text)
    → IsHome state
    → IsHome (start_turn state session_id turn_id owner_token)
unfolding start_turn
start_turn-IsHome state session_id turn_id owner_token h =
    let cleared = clear_session state session_id false in
    let cleared-IsHome : IsHome cleared = clear_session-IsHome state session_id false h in
    with_current_turns cleared cleared-IsHome
      (put text_dec session_id (turn_id, owner_token) cleared.current_turns)
      (put-IsDict text_dec session_id (turn_id, owner_token) cleared.current_turns
        cleared-IsHome.current_turns)

adopt_parent-IsHome :
    (state : HomeState) (session_id turn_id parent : Text)
    → IsHome state
    → IsHome (adopt_parent state session_id turn_id parent)
unfolding adopt_parent
adopt_parent-IsHome state session_id turn_id parent h =
    let neither = names_neither parent session_id in
    let kept = keep (λ e. neither e.0 && neither e.1.0) state.redirects in
    let redirects = put text_dec parent (session_id, turn_id) kept in
    let redirected-IsHome : IsHome (record state { redirects = redirects }) =
      with_redirects state h redirects (
        put-IsDict text_dec parent (session_id, turn_id) kept
          (keep-IsDict text_dec (λ e. neither e.0 && neither e.1.0) state.redirects h.redirects)) in
    let moved = map (λ e. (e.0, if same e.1 parent then session_id else e.1)) state.activations in
    clear_session-IsHome (record state { redirects = redirects; activations = moved }) parent true
      (with_activations (record state { redirects = redirects }) redirected-IsHome moved
        (map-IsDict text_dec (λ v. if same v parent then session_id else v) state.activations
          h.activations))

open_turn-IsSlot :
    (state : HomeState) (session_id turn_id parent owner_token : Text)
    → IsHome state
    → IsSlot (open_turn state session_id turn_id parent owner_token).1
unfolding open_turn
open_turn-IsSlot state session_id turn_id parent owner_token h =
    let state' = drop_stale_redirects state session_id turn_id in
    let kept-IsHome : IsHome state' = with_redirects state h state'.redirects (
      keep-IsDict text_dec (λ e. not (same e.1.0 session_id) || same e.1.1 turn_id) state.redirects
        h.redirects) in
    ground (
      arith,
      start_turn-IsHome state' session_id turn_id owner_token kept-IsHome,
      start_turn-IsHome (adopt_parent state' session_id turn_id parent) session_id turn_id
          owner_token (adopt_parent-IsHome state' session_id turn_id parent kept-IsHome),
    )

pub begin_turn-IsSlot :
    (session_id turn_id parent owner_token : Text) (now : ℕ) (slot : Option HomeState)
    → IsSlot slot
    → IsSlot (begin_turn session_id turn_id parent owner_token now slot).1
unfolding begin_turn
begin_turn-IsSlot session_id turn_id parent owner_token now none h = ground arith
begin_turn-IsSlot session_id turn_id parent owner_token now (some state) h = ground (
  arith,
  open_turn-IsSlot (purge_expired state now) session_id turn_id parent owner_token
      (purge_expired-IsHome state now h),
)

-- A plan with the next sequence number is added.
add_plan-IsHome :
    (state : HomeState) (turn_id : Text) (plan : StoredPlan)
    → IsHome state
    → plan.sequence ≡ state.sequence + 1
    → IsHome (record state {
      sequence = state.sequence + 1;
      plans = put text_dec turn_id plan state.plans;
    })
add_plan-IsHome state turn_id plan h e = record {
  activations = h.activations;
  closed_turns = h.closed_turns;
  current_turns = h.current_turns;
  plans = put-IsDict text_dec turn_id plan state.plans h.plans;
  redirects = h.redirects;
  bounded =
      All-put text_dec (λ e. e.1.sequence ≤ state.sequence + 1) turn_id plan state.plans
        (omega arith)
        (All-map (λ e. e.1.sequence ≤ state.sequence) (λ e. e.1.sequence ≤ state.sequence + 1)
          state.plans (λ e le. omega arith) h.bounded);
}

pub reserve-IsSlot :
    (digest : Text → Text) (request : Request) (now : ℕ) (slot : Option HomeState)
    → IsSlot slot
    → IsSlot (reserve digest request now slot).1
unfolding reserve
reserve-IsSlot digest request now none h = ground arith
reserve-IsSlot digest request now (some state) h =
    let purged = purge_expired state now in
    let purged-IsHome : IsHome purged = purge_expired-IsHome state now h in
    ground (
      arith,
      purged-IsHome,
      add_plan-IsHome purged request.turn_id (reservation digest request now (purged.sequence + 1))
          purged-IsHome refl,
    )

-- A stored plan is changed; its number stays.
change_plan-IsHome :
    (state : HomeState) (turn_id : Text) (plan plan' : StoredPlan)
    → IsHome state
    → get text_dec turn_id state.plans ≡ some plan
    → plan'.sequence ≡ plan.sequence
    → IsHome (record state { plans = put text_dec turn_id plan' state.plans })
change_plan-IsHome state turn_id plan plan' h found e =
    let bound =
      All-get text_dec (λ e. e.1.sequence ≤ state.sequence) turn_id state.plans h.bounded found in
    with_plans state h (put text_dec turn_id plan' state.plans)
      (put-IsDict text_dec turn_id plan' state.plans h.plans)
      (All-put text_dec (λ e. e.1.sequence ≤ state.sequence) turn_id plan' state.plans (omega arith)
        h.bounded)

publish_plan-IsSlot :
    (state : HomeState) (now : ℕ) (turn_id : Text) (mode : PlanMode) (action : PlanAction)
    (rewritten_query owner_token : Option Text)
    → IsHome state
    → IsSlot (publish_plan state now turn_id mode action rewritten_query owner_token).1
unfolding publish_plan
publish_plan-IsSlot state now turn_id mode action rewritten_query owner_token h =
    elim (Option-cases (get text_dec turn_id state.plans)) [
      | inl e ↦ rw (e, IsSlot) h
      | inr (plan, e) ↦
          rw (e, IsSlot)
            (ground (
              arith,
              change_plan-IsHome state turn_id plan
                  (record plan { action = some action; rewritten_query = rewritten_query }) h e
                  refl,
            ))
    ]

pub finalize-IsSlot :
    (turn_id : Text) (mode : PlanMode) (action : PlanAction)
    (rewritten_query owner_token : Option Text) (now : ℕ) (slot : Option HomeState)
    → IsSlot slot
    → IsSlot (finalize turn_id mode action rewritten_query owner_token now slot).1
unfolding finalize
finalize-IsSlot turn_id mode action rewritten_query owner_token now none h = ground arith
finalize-IsSlot turn_id mode action rewritten_query owner_token now (some state) h = ground (
  arith,
  publish_plan-IsSlot (purge_expired state now) now turn_id mode action rewritten_query owner_token
      (purge_expired-IsHome state now h),
)

cancelled-IsHome :
    (state : HomeState) (turn_id : Text) (plan : StoredPlan)
    → IsHome state
    → get text_dec turn_id state.plans ≡ some plan
    → IsHome (cancelled state turn_id plan)
cancelled-IsHome state turn_id plan h found =
    let empty = record plan { action = none; rewritten_query = none; publish_before = some 0 } in
    let gone : IsHome (record state { plans = pop text_dec turn_id state.plans }) =
      with_plans state h (pop text_dec turn_id state.plans)
        (pop-IsDict text_dec turn_id state.plans h.plans)
        (All-pop text_dec (λ e. e.1.sequence ≤ state.sequence) turn_id state.plans h.bounded) in
    elim plan.evaluation_id
      as (λ o. IsHome (record state {
        plans = elim o [
          | none ↦ pop text_dec turn_id state.plans
          | some _ ↦ put text_dec turn_id empty state.plans
        ];
      })) [ none ↦ gone | some _ ↦ change_plan-IsHome state turn_id plan empty h found refl ]

cancel_plan-IsSlot :
    (state : HomeState) (turn_id : Text) (owner_token : Option Text)
    → IsHome state
    → IsSlot (cancel_plan state turn_id owner_token)
unfolding cancel_plan
cancel_plan-IsSlot state turn_id owner_token h =
    elim (Option-cases (get text_dec turn_id state.plans)) [
      | inl e ↦ rw (e, IsSlot) (drop_empty_home-IsSlot state h)
      | inr (plan, e) ↦
          rw (e, IsSlot)
            (drop_if (same_token plan.owner_token owner_token) (cancelled state turn_id plan) state
              (cancelled-IsHome state turn_id plan h e) h)
    ]

pub cancel-IsSlot :
    (turn_id : Text) (owner_token : Option Text) (slot : Option HomeState)
    → IsSlot slot
    → IsSlot (cancel turn_id owner_token slot).1
unfolding cancel
cancel-IsSlot turn_id owner_token none h = ground arith
cancel-IsSlot turn_id owner_token (some state) h =
    ground (arith, cancel_plan-IsSlot state turn_id owner_token h)

pub clear_session_plans-IsSlot :
    (session_id : Text) (slot : Option HomeState)
    → IsSlot slot
    → IsSlot (clear_session_plans session_id slot).1
unfolding clear_session_plans
clear_session_plans-IsSlot session_id none h = ground arith
clear_session_plans-IsSlot session_id (some state) h = ground (
  arith,
  drop_empty_home-IsSlot (clear_session state session_id true)
      (clear_session-IsHome state session_id true h),
)

pub purge_stale-IsSlot :
    (now : ℕ) (slot : Option HomeState) → IsSlot slot → IsSlot (purge_stale now slot).1
unfolding purge_stale
purge_stale-IsSlot now none h = tt
purge_stale-IsSlot now (some state) h =
    drop_empty_home-IsSlot (purge_expired state now) (purge_expired-IsHome state now h)
