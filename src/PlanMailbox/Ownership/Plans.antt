-- ===== src/PlanMailbox/Ownership/Plans.antt =====
-- Plans of better_hermes_hindsight/plan_mailbox.py stay owned.
use better_hermes_hindsight.Common.{
  ℕ, ◌+◌, ◌≡◌, refl, sym, subst, true, Option, none, some, Option-cases, inl, inr, if◌then◌else◌,
  Text, text_dec, All, arith,
}
use better_hermes_hindsight.Common.Dict.{Dict, get, put, pop, All-put, All-pop, All-get}
use better_hermes_hindsight.PlanMailbox.State.{
  PlanMode, PlanAction, StoredPlan, HomeState, purge_expired, clear_session, is_active_in,
  same_token,
}
use better_hermes_hindsight.PlanMailbox.Turns.{
  reserve, Request, reservation, finalize, publish_plan, cancel, cancel_plan, cancelled,
  clear_session_plans, purge_stale, is_active,
}
use better_hermes_hindsight.PlanMailbox.Ownership.{
  Active, IsOwned, IsOwnedSlot, purge_expired-IsOwned, clear_session-IsOwned,
  drop_empty_home-IsOwnedSlot,
}

-- Only the plans differ, and the new ones belong to active sessions.
pub with_plans :
    (state : HomeState) (plans : Dict Text StoredPlan) (sequence : ℕ)
    → IsOwned state
    → All (λ e. Active state e.1.session_id) plans
    → IsOwned (record state { plans = plans; sequence = sequence })
unfolding is_active_in
with_plans state plans sequence h all = record {
  plans = all;
  current_turns = h.current_turns;
  closed_turns = h.closed_turns;
}

pub reserve-IsOwnedSlot :
    (digest : Text → Text) (request : Request) (now : ℕ) (state : HomeState)
    → IsOwned state
    → IsOwnedSlot (reserve digest request now (some state)).1
unfolding reserve
reserve-IsOwnedSlot digest request now state h =
    let purged = purge_expired state now in
    let purged-IsOwned : IsOwned purged = purge_expired-IsOwned state now h in
    let plan = reservation digest request now (purged.sequence + 1) in
    let added : (Active purged request.session_id
        → IsOwned (record purged {
          plans = put text_dec request.turn_id plan purged.plans;
          sequence = purged.sequence + 1;
        })) =
      λ active.
        with_plans purged (put text_dec request.turn_id plan purged.plans) (purged.sequence + 1)
          purged-IsOwned
          (All-put text_dec (λ e. Active purged e.1.session_id) request.turn_id plan purged.plans
            active purged-IsOwned.plans) in
    ground (arith, h, purged-IsOwned, added)

-- A stored plan is changed, but not its session.
change_plan-IsOwned :
    (state : HomeState) (turn_id : Text) (plan plan' : StoredPlan)
    → get text_dec turn_id state.plans ≡ some plan
    → plan'.session_id ≡ plan.session_id
    → IsOwned state
    → IsOwned (record state { plans = put text_dec turn_id plan' state.plans })
change_plan-IsOwned state turn_id plan plan' found e h =
    let active =
      All-get text_dec (λ e. Active state e.1.session_id) turn_id state.plans h.plans found in
    with_plans state (put text_dec turn_id plan' state.plans) state.sequence h (
      All-put text_dec (λ e. Active state e.1.session_id) turn_id plan' state.plans
        (subst (λ s. Active state s) (sym e) active) h.plans)

publish_plan-IsOwnedSlot :
    (state : HomeState) (now : ℕ) (turn_id : Text) (mode : PlanMode) (action : PlanAction)
    (rewritten_query owner_token : Option Text)
    → IsOwned state
    → IsOwnedSlot (publish_plan state now turn_id mode action rewritten_query owner_token).1
unfolding publish_plan
publish_plan-IsOwnedSlot state now turn_id mode action rewritten_query owner_token h =
    elim (Option-cases (get text_dec turn_id state.plans)) [
      | inl e ↦ rw (e, IsOwnedSlot) h
      | inr (plan, e) ↦
          rw (e, IsOwnedSlot)
            (ground (
              arith,
              h,
              change_plan-IsOwned state turn_id plan
                  (record plan { action = some action; rewritten_query = rewritten_query }) e refl
                  h,
            ))
    ]

pub finalize-IsOwnedSlot :
    (turn_id : Text) (mode : PlanMode) (action : PlanAction)
    (rewritten_query owner_token : Option Text) (now : ℕ) (state : HomeState)
    → IsOwned state
    → IsOwnedSlot (finalize turn_id mode action rewritten_query owner_token now (some state)).1
unfolding finalize
finalize-IsOwnedSlot turn_id mode action rewritten_query owner_token now state h = ground (
  arith,
  h,
  publish_plan-IsOwnedSlot (purge_expired state now) now turn_id mode action rewritten_query
      owner_token (purge_expired-IsOwned state now h),
)

cancelled-IsOwned :
    (state : HomeState) (turn_id : Text) (plan : StoredPlan)
    → get text_dec turn_id state.plans ≡ some plan
    → IsOwned state
    → IsOwned (cancelled state turn_id plan)
cancelled-IsOwned state turn_id plan found h =
    let empty = record plan { action = none; rewritten_query = none; publish_before = some 0 } in
    elim plan.evaluation_id
      as (λ o. IsOwned (record state {
        plans = elim o [
          | none ↦ pop text_dec turn_id state.plans
          | some _ ↦ put text_dec turn_id empty state.plans
        ];
      })) [
        | none ↦
            with_plans state (pop text_dec turn_id state.plans) state.sequence h
              (All-pop text_dec (λ e. Active state e.1.session_id) turn_id state.plans h.plans)
        | some _ ↦ change_plan-IsOwned state turn_id plan empty found refl h
      ]

cancel_plan-IsOwnedSlot :
    (state : HomeState) (turn_id : Text) (owner_token : Option Text)
    → IsOwned state
    → IsOwnedSlot (cancel_plan state turn_id owner_token)
unfolding cancel_plan
cancel_plan-IsOwnedSlot state turn_id owner_token h =
    elim (Option-cases (get text_dec turn_id state.plans)) [
      | inl e ↦ rw (e, IsOwnedSlot) (drop_empty_home-IsOwnedSlot state h)
      | inr (plan, e) ↦
          rw (e, IsOwnedSlot)
            (drop_empty_home-IsOwnedSlot
              (if same_token plan.owner_token owner_token
                then cancelled state turn_id plan
                else state)
              (ground (arith, h, cancelled-IsOwned state turn_id plan e h)))
    ]

pub cancel-IsOwnedSlot :
    (turn_id : Text) (owner_token : Option Text) (state : HomeState)
    → IsOwned state
    → IsOwnedSlot (cancel turn_id owner_token (some state)).1
unfolding cancel
cancel-IsOwnedSlot turn_id owner_token state h =
    ground (arith, h, cancel_plan-IsOwnedSlot state turn_id owner_token h)

pub clear_session_plans-IsOwnedSlot :
    (session_id : Text) (state : HomeState)
    → IsOwned state
    → IsOwnedSlot (clear_session_plans session_id (some state)).1
unfolding clear_session_plans
clear_session_plans-IsOwnedSlot session_id state h = ground (
  arith,
  h,
  drop_empty_home-IsOwnedSlot (clear_session state session_id true)
      (clear_session-IsOwned state session_id h),
)

pub purge_stale-IsOwnedSlot :
    (now : ℕ) (state : HomeState) → IsOwned state → IsOwnedSlot (purge_stale now (some state)).1
unfolding purge_stale
purge_stale-IsOwnedSlot now state h =
    drop_empty_home-IsOwnedSlot (purge_expired state now) (purge_expired-IsOwned state now h)

pub is_active-IsOwnedSlot :
    (session_id : Text) (now : ℕ) (state : HomeState)
    → IsOwned state
    → IsOwnedSlot (is_active session_id now (some state)).1
unfolding is_active
is_active-IsOwnedSlot session_id now state h = ground (arith, h, purge_expired-IsOwned state now h)
