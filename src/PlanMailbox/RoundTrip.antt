-- ===== src/PlanMailbox/RoundTrip.antt =====
-- A plan's way through better_hermes_hindsight/plan_mailbox.py: reserved, published, consumed.
use better_hermes_hindsight.Common.{
  ℕ, ◌+◌, ◌<◌, ◌≡◌, refl, sym, subst, ◌∙◌, ap, Bool, true, ◌&&◌, not, Option, none, some, Text,
  same, text_dec, keep, arith, non_empty, length, leb, ltb, holds,
}
use better_hermes_hindsight.Common.Dict.{get, put, get-put, get-keep, only_if}
use better_hermes_hindsight.PlanMailbox.State.{
  PlanMode, PlanAction, StoredPlan, HomeState, purge_expired, ok, is_active_in, plan_max_age,
  valid_action, mode_dec, same_mode, same_token,
}
use better_hermes_hindsight.PlanMailbox.Turns.{
  reserve, Request, reservation, finalize, publish_plan, may_reserve, publish_limit, valid_timeout,
  publishable, in_time,
}
use better_hermes_hindsight.PlanMailbox.Consume.{
  consume, consume_resolved, candidates, take_newest, newest, newest_from, published, fits,
}
use better_hermes_hindsight.PlanMailbox.Invariant.{IsHome, IsSlot, purge_expired-IsHome}
use better_hermes_hindsight.PlanMailbox.Invariant.Turns.{reserve-IsSlot, finalize-IsSlot}
use better_hermes_hindsight.PlanMailbox.Ownership.{Active}
use better_hermes_hindsight.PlanMailbox.Fencing.{consume-Active}

-- A turn is open to its worker: it is the current one of an active session, and has this plan or none.
pub record IsOpen (session_id turn_id token : Text) (plan : Option StoredPlan) (state : HomeState)
    : Type 0 where
  pub home : IsHome state
  pub active : Active state session_id
  pub current : get text_dec session_id state.current_turns ≡ some (turn_id, token)
  pub found : get text_dec turn_id state.plans ≡ plan

-- The purge keeps a plan that has not expired.
live : Option StoredPlan → ℕ → Bool
live none now = true
live (some plan) now = ltb now plan.expires_at

purge_expired-IsOpen :
    (session_id turn_id token : Text) (plan : Option StoredPlan) (state : HomeState) (now : ℕ)
    → IsOpen session_id turn_id token plan state
    → live plan now ≡ true
    → IsOpen session_id turn_id token plan (purge_expired state now)
unfolding purge_expired is_active_in live
purge_expired-IsOpen session_id turn_id token plan state now h alive = record {
  home = purge_expired-IsHome state now h.home;
  active = h.active;
  current = h.current;
  found =
      get-keep text_dec turn_id (λ e. not (leb e.1.expires_at now)) state.plans h.home.plans
      ∙ rw h.found (kept plan alive);
}
  where
    kept :
        (plan : Option StoredPlan)
        → live plan now ≡ true
        → only_if text_dec (λ p. not (leb p.expires_at now)) plan ≡ plan
    kept none alive = refl
    kept (some p) alive = ground arith

-- The plan under the turn is replaced.
put_plan-IsOpen :
    (session_id turn_id token : Text) (plan : Option StoredPlan) (plan' : StoredPlan)
    (state : HomeState) (sequence : ℕ)
    → IsOpen session_id turn_id token plan state
    → IsHome (record state { plans = put text_dec turn_id plan' state.plans; sequence = sequence })
    → IsOpen session_id turn_id token
        (some plan')
        (record state { plans = put text_dec turn_id plan' state.plans; sequence = sequence })
unfolding is_active_in
put_plan-IsOpen session_id turn_id token plan plan' state sequence h valid = record {
  home = valid;
  active = h.active;
  current = h.current;
  found = ground (arith, get-put text_dec turn_id turn_id plan' state.plans);
}

-- The slot of a home whose turn is open.
abbrev Opens : Text → Text → Text → Option StoredPlan → Option HomeState → Type 0
Opens session_id turn_id token plan slot =
    (state : HomeState) × (slot ≡ some state) × IsOpen session_id turn_id token plan state

reserve_lem :
    (digest : Text → Text) (request : Request) (token : Text) (now : ℕ) (state : HomeState)
    → IsOpen request.session_id request.turn_id token none state
    → (non_empty request.source_query
        && non_empty request.session_id
        && non_empty request.turn_id
        && valid_timeout request.timeout)
      ≡ true
    → may_reserve (some (request.turn_id, token)) request.turn_id request.owner_token ≡ true
    → ((reserve digest request now (some state)).0 ≡ ok true)
      × ((sequence : ℕ) × Opens request.session_id request.turn_id token
            (some (reservation digest request now sequence))
            (reserve digest request now (some state)).1)
unfolding reserve live
reserve_lem digest request token now state h valid allowed =
    let purged = purge_expired state now in
    let opened : IsOpen request.session_id request.turn_id token none purged =
      purge_expired-IsOpen request.session_id request.turn_id token none state now h refl in
    let sequence = purged.sequence + 1 in
    let after = record purged {
      plans = put text_dec request.turn_id (reservation digest request now sequence) purged.plans;
      sequence = sequence;
    } in
    let reserved : reserve digest request now (some state) ≡ (ok true, some after) =
      rw (valid, opened.active, opened.current, allowed, opened.found) refl in
    let after-IsHome : IsHome after =
      subst (λ o. IsSlot o.1) reserved (reserve-IsSlot digest request now (some state) h.home) in
    (
      ap (λ o. o.0) reserved,
      (
        sequence,
        (
          after,
          ap (λ o. o.1) reserved,
          put_plan-IsOpen request.session_id request.turn_id token none
              (reservation digest request now sequence) purged sequence opened after-IsHome,
        ),
      ),
    )

finalize_lem :
    (session_id turn_id token : Text) (plan : StoredPlan) (mode : PlanMode) (action : PlanAction)
    (rewritten_query owner_token : Option Text) (now : ℕ) (state : HomeState)
    → IsOpen session_id turn_id token (some plan) state
    → now < plan.expires_at
    → (non_empty turn_id && valid_action action rewritten_query) ≡ true
    → publishable plan mode owner_token now ≡ true
    → ((finalize turn_id mode action rewritten_query owner_token now (some state)).0 ≡ ok true)
      × Opens session_id turn_id token
          (some (record plan { action = some action; rewritten_query = rewritten_query }))
          (finalize turn_id mode action rewritten_query owner_token now (some state)).1
unfolding finalize live
finalize_lem session_id turn_id token plan mode action rewritten_query owner_token now state h alive
      valid allowed =
    let purged = purge_expired state now in
    let opened : IsOpen session_id turn_id token (some plan) purged =
      purge_expired-IsOpen session_id turn_id token (some plan) state now h
        (ground (arith, alive)) in
    let plan' = record plan { action = some action; rewritten_query = rewritten_query } in
    let after = record purged { plans = put text_dec turn_id plan' purged.plans } in
    let published_as : finalize turn_id mode action rewritten_query owner_token now (some state)
        ≡ (ok true, some after) =
      rw valid (rw (opened.found, publish_plan, allowed) refl) in
    let after-IsHome : IsHome after =
      subst (λ o. IsSlot o.1) published_as
        (finalize-IsSlot turn_id mode action rewritten_query owner_token now (some state) h.home) in
    (
      ap (λ o. o.0) published_as,
      (
        after,
        ap (λ o. o.1) published_as,
        put_plan-IsOpen session_id turn_id token (some plan) plan' purged purged.sequence opened
            after-IsHome,
      ),
    )

consume_lem :
    (digest : Text → Text) (source_query session_id turn_id token : Text) (plan : StoredPlan)
    (now : ℕ) (state : HomeState)
    → IsOpen session_id turn_id token (some plan) state
    → now < plan.expires_at
    → (non_empty source_query && non_empty session_id) ≡ true
    → fits session_id (length source_query) none (turn_id, plan) ≡ true
    → same plan.query_digest (digest source_query) ≡ true
    → (consume digest source_query session_id now (some state)).0
      ≡ ok (published (turn_id, plan), plan.evaluation_id)
unfolding live consume_resolved keep take_newest newest newest_from
consume_lem digest source_query session_id turn_id token plan now state h alive valid fitting
      matching =
    let opened : IsOpen session_id turn_id token (some plan) (purge_expired state now) =
      purge_expired-IsOpen session_id turn_id token (some plan) state now h
        (ground (arith, alive)) in
    rw
      (
        consume-Active digest source_query session_id now state h.active valid,
        opened.current,
        candidates,
        opened.found,
        keep,
        fitting,
        matching,
      )
      refl

same_mode_refl : (m : PlanMode) → same_mode m m ≡ true
same_mode_refl m = elim (mode_dec m m) as (λ d. holds d ≡ true) [
  | yes _ ↦ refl
  | no n ↦ absurd (n refl)
]

same_refl : (t : Text) → same t t ≡ true
same_refl t = ground arith

same_token_refl : (t : Option Text) → same_token t t ≡ true
same_token_refl none = refl
same_token_refl (some t) = same_refl t

-- A plan that the worker of an open turn reserves with its token, and publishes before the limit that it
-- asked for, is what the next request with the same query and session gets, with the evaluation of the
-- reservation, if both happen within ten seconds of it: the reservation succeeds, the publication
-- succeeds, and the action, the rewritten query, the mode and the turn come back as they were given.
pub reserve-finalize-consume :
    (digest : Text → Text) (request : Request) (token : Text) (action : PlanAction)
    (rewritten_query : Option Text) (now later last : ℕ) (state : HomeState)
    → IsOpen request.session_id request.turn_id token none state
    → (non_empty request.source_query
        && non_empty request.session_id
        && non_empty request.turn_id
        && valid_timeout request.timeout)
      ≡ true
    → request.owner_token ≡ some token
    → valid_action action rewritten_query ≡ true
    → in_time (publish_limit request.timeout now) later ≡ true
    → later < now + plan_max_age
    → last < now + plan_max_age
    → let reserved = reserve digest request now (some state) in
      let finalized =
        finalize request.turn_id request.mode action rewritten_query request.owner_token later
          reserved.1 in
      (reserved.0 ≡ ok true)
      × ((finalized.0 ≡ ok true)
          × ((consume digest request.source_query request.session_id last finalized.1).0
              ≡ ok (
                some (record {
                  mode = request.mode;
                  action = action;
                  rewritten_query = rewritten_query;
                  turn_id = request.turn_id;
                }),
                request.evaluation_id,
              )))
reserve-finalize-consume digest request token action rewritten_query now later last state h valid
      owner valid_act timely live_later live_last =
    let allowed : may_reserve (some (request.turn_id, token)) request.turn_id request.owner_token
        ≡ true =
      subst (λ o. may_reserve (some (request.turn_id, token)) request.turn_id o ≡ true) (sym owner)
        (rw (same_refl request.turn_id, same_refl token) refl) in
    let (reserved, (sequence, (first, first_is, opened))) =
      reserve_lem digest request token now state h valid allowed in
    let plan = reservation digest request now sequence in
    let (finalized, (second, second_is, opened')) =
      finalize_lem request.session_id request.turn_id token plan request.mode action rewritten_query
        request.owner_token later first opened live_later (ground (arith, valid, valid_act))
        (rw (same_mode_refl request.mode, same_token_refl request.owner_token) timely) in
    let consumed =
      consume_lem digest request.source_query request.session_id request.turn_id token
        (record plan { action = some action; rewritten_query = rewritten_query }) last second
        opened' live_last (ground (arith, valid)) (rw (same_refl request.session_id) (ground arith))
        (same_refl (digest request.source_query)) in
    (reserved, (rw first_is finalized, rw first_is (rw second_is consumed)))
