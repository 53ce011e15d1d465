-- ===== src/PlanMailbox/Fencing.antt =====
-- `consume` of better_hermes_hindsight/plan_mailbox.py fences the late workers of the turn.
use better_hermes_hindsight.Common.{
  ℕ, ◌+◌, ◌<◌, ◌≡◌, refl, ◌≢◌, ap, true, ◌&&◌, List, Option, none, some, Option-cases, inl, inr,
  Text, same, text_dec, keep, arith, non_empty, length,
}
use better_hermes_hindsight.Common.Dict.{get, get-pop, get-put, IsDict, pop-IsDict, put-IsDict}
use better_hermes_hindsight.PlanMailbox.State.{
  turn_dec, HomeState, purge_expired, resolve_active_session, ok, is_active_in, plan_max_age,
}
use better_hermes_hindsight.PlanMailbox.Turns.{begin_turn, open_turn, reserve, Request}
use better_hermes_hindsight.PlanMailbox.Consume.{
  consume, consume_in, consume_resolved, candidates, close_turn, take_newest, newest, pop_all,
  Candidate,
}
use better_hermes_hindsight.PlanMailbox.Invariant.{IsHome, IsSlot, purge_expired-IsHome}
use better_hermes_hindsight.PlanMailbox.Invariant.Consume.{pop_all-IsDict, consume-IsSlot}
use better_hermes_hindsight.PlanMailbox.Fenced.{FencedSlot, IsFenced, purge_expired-IsFenced}
use better_hermes_hindsight.PlanMailbox.Meanwhile.{
  Meanwhile, Meanwhile-IsSlot, Meanwhile-FencedSlot,
}
use better_hermes_hindsight.PlanMailbox.Ownership.{Active}
use better_hermes_hindsight.PlanMailbox.Handoff.{pop_all_absent}

-- The turn is closed until the given time, the session has no current turn, and no plan is stored under
-- the closed one.
pub record IsClosed (session_id turn_id : Text) (until : ℕ) (state : HomeState) : Type 0 where
  pub closed : get turn_dec (session_id, turn_id) state.closed_turns ≡ some until
  pub none_current : get text_dec session_id state.current_turns ≡ none
  pub no_plan : get text_dec turn_id state.plans ≡ none
  pub closed_turns-IsDict : IsDict turn_dec state.closed_turns
  pub plans-IsDict : IsDict text_dec state.plans

close_turn-IsClosed :
    (state : HomeState) (session_id turn_id : Text) (now : ℕ)
    → IsHome state
    → IsClosed session_id turn_id (now + plan_max_age) (close_turn state session_id turn_id now)
unfolding close_turn
close_turn-IsClosed state session_id turn_id now h = record {
  closed = ground (
    arith,
    get-put turn_dec (session_id, turn_id) (session_id, turn_id) (now + plan_max_age)
        state.closed_turns,
  );
  none_current = ground (arith, get-pop text_dec session_id session_id state.current_turns);
  no_plan = ground (arith, get-pop text_dec turn_id turn_id state.plans);
  closed_turns-IsDict =
      put-IsDict turn_dec (session_id, turn_id) (now + plan_max_age) state.closed_turns
        h.closed_turns;
  plans-IsDict = pop-IsDict text_dec turn_id state.plans h.plans;
}

-- A home in which the turn is closed.
abbrev Closes : Text → Text → ℕ → Option HomeState → Type 0
Closes session_id turn_id until slot =
    (after : HomeState) × (slot ≡ some after) × IsClosed session_id turn_id until after

take_newest-Closes :
    (state : HomeState) (found : List Candidate) (session_id turn_id : Text) (until : ℕ)
    → IsClosed session_id turn_id until state
    → Closes session_id turn_id until (take_newest state found).1
unfolding take_newest
take_newest-Closes state found session_id turn_id until h = elim (Option-cases (newest found)) [
  | inl e ↦ rw (e, take_newest) (state, refl, h)
  | inr (best, e) ↦
      rw (e, take_newest)
        (
          record state { plans = pop_all found state.plans },
          refl,
          record {
            closed = h.closed;
            none_current = h.none_current;
            no_plan = pop_all_absent turn_id found state.plans h.no_plan;
            closed_turns-IsDict = h.closed_turns-IsDict;
            plans-IsDict = pop_all-IsDict found state.plans h.plans-IsDict;
          },
        )
]

consume_resolved-Closes :
    (digest : Text → Text) (source_query : Text) (now : ℕ) (state : HomeState)
    (session_id turn_id token : Text) (redirected : Option Text)
    → IsHome state
    → get text_dec session_id state.current_turns ≡ some (turn_id, token)
    → Closes session_id turn_id
        (now + plan_max_age)
        (consume_resolved digest source_query now state session_id redirected).1
unfolding consume_resolved
consume_resolved-Closes digest source_query now state session_id turn_id token redirected h
      current =
    let step = candidates state session_id (length source_query) redirected now in
    let closing : step.0 ≡ close_turn state session_id turn_id now =
      rw (current, candidates) refl in
    take_newest-Closes step.0 (keep (λ c. same c.1.query_digest (digest source_query)) step.1)
      session_id turn_id (now + plan_max_age)
      (rw closing (close_turn-IsClosed state session_id turn_id now h))

resolve_active_session-Active :
    (state : HomeState) (session_id : Text)
    → Active state session_id
    → resolve_active_session state session_id ≡ (state, some (session_id, none))
unfolding resolve_active_session
resolve_active_session-Active state session_id active = rw active refl

-- The session of a request has a handle: no redirect is followed.
pub consume-Active :
    (digest : Text → Text) (source_query session_id : Text) (now : ℕ) (state : HomeState)
    → Active state session_id
    → (non_empty source_query && non_empty session_id) ≡ true
    → consume digest source_query session_id now (some state)
      ≡ consume_resolved digest source_query now (purge_expired state now) session_id none
unfolding consume consume_in is_active_in purge_expired
consume-Active digest source_query session_id now state active valid =
    let resolved = resolve_active_session-Active (purge_expired state now) session_id active in
    rw valid (rw (ap (λ r. r.1) resolved, ap (λ r. r.0) resolved, consume_in) refl)

consume-Closes :
    (digest : Text → Text) (source_query session_id turn_id token : Text) (now : ℕ)
    (state : HomeState)
    → IsHome state
    → Active state session_id
    → get text_dec session_id state.current_turns ≡ some (turn_id, token)
    → (non_empty source_query && non_empty session_id) ≡ true
    → Closes session_id turn_id
        (now + plan_max_age)
        (consume digest source_query session_id now (some state)).1
unfolding purge_expired
consume-Closes digest source_query session_id turn_id token now state h active current valid =
    rw (consume-Active digest source_query session_id now state active valid) (
      consume_resolved-Closes digest source_query now (purge_expired state now) session_id turn_id
        token none (purge_expired-IsHome state now h) current)

closed-IsFenced :
    (session_id turn_id : Text) (until : ℕ) (state : HomeState)
    → IsClosed session_id turn_id until state
    → IsFenced session_id turn_id until state
closed-IsFenced session_id turn_id until state h = record {
  fenced = rw h.closed (omega arith);
  not_current = rw h.none_current refl;
}

late_begin :
    (session_id turn_id : Text) (until : ℕ) (slot : Option HomeState)
    (parent owner_token given : Text) (later : ℕ)
    → IsSlot slot
    → FencedSlot session_id turn_id until slot
    → later < until
    → (begin_turn session_id turn_id parent owner_token later slot).0 ≢ ok (some given)
unfolding begin_turn open_turn
late_begin session_id turn_id until none parent owner_token given later home f early = absurd f
late_begin session_id turn_id until (some state) parent owner_token given later home f early =
    let purged = purge_expired-IsFenced session_id turn_id until state later home early f in
    ground (arith, purged.fenced)

late_reserve :
    (digest : Text → Text) (turn_id : Text) (until : ℕ) (slot : Option HomeState)
    (request : Request) (given : Text) (later : ℕ)
    → FencedSlot request.session_id turn_id until slot
    → request.turn_id ≡ turn_id
    → request.owner_token ≡ some given
    → (reserve digest request later slot).0 ≢ ok true
unfolding reserve purge_expired
late_reserve digest turn_id until none request given later f turn owner = absurd f
late_reserve digest turn_id until (some state) request given later f turn owner =
    ground (arith, f.not_current)

module _ (digest : Text → Text) (source_query session_id turn_id token : Text) (now : ℕ)
    (state : HomeState) (valid_home : IsHome state) (active : Active state session_id)
    (current : get text_dec session_id state.current_turns ≡ some (turn_id, token))
    (valid : (non_empty source_query && non_empty session_id) ≡ true) where
  closing :
      Closes session_id turn_id
        (now + plan_max_age)
        (consume digest source_query session_id now (some state)).1
  closing =
      consume-Closes digest source_query session_id turn_id token now state valid_home active
        current valid

  module _ {slot : Option HomeState}
      (meanwhile : Meanwhile digest session_id now
        (now + plan_max_age)
        (consume digest source_query session_id now (some state)).1
        slot) where
    closed-IsSlot : IsSlot (consume digest source_query session_id now (some state)).1
    closed-IsSlot = consume-IsSlot digest source_query session_id now (some state) valid_home

    reached-FencedSlot : FencedSlot session_id turn_id (now + plan_max_age) slot
    reached-FencedSlot =
        Meanwhile-FencedSlot digest session_id turn_id now (now + plan_max_age) (omega arith)
          (omega arith) closed-IsSlot
          (rw closing.1
            (closed-IsFenced session_id turn_id (now + plan_max_age) closing.0 closing.2))
          meanwhile

    reached-IsSlot : IsSlot slot
    reached-IsSlot =
        Meanwhile-IsSlot digest session_id turn_id now (now + plan_max_age) (omega arith)
          (omega arith) closed-IsSlot meanwhile

    -- A request of an active session has closed its current turn. Whatever calls come within the next ten
    -- seconds, other than `rebind` and those that forget the session's turns, no worker then reserves a
    -- plan for that turn under an owner token, whatever the token.
    pub reserve-fenced :
        (request : Request) (given : Text) (later : ℕ)
        → request.session_id ≡ session_id
        → request.turn_id ≡ turn_id
        → request.owner_token ≡ some given
        → (reserve digest request later slot).0 ≢ ok true
    reserve-fenced request given later session turn owner =
        late_reserve digest turn_id (now + plan_max_age) slot request given later
          (rw session reached-FencedSlot) turn owner

    -- A request of an active session has closed its current turn. Whatever calls come within the next ten
    -- seconds, other than `rebind` and those that forget the session's turns, the turn does not begin
    -- again in that time: `begin_turn` gives no owner token for it.
    pub begin_turn-fenced :
        (parent owner_token given : Text) (later : ℕ)
        → later < now + plan_max_age
        → (begin_turn session_id turn_id parent owner_token later slot).0 ≢ ok (some given)
    begin_turn-fenced parent owner_token given later early =
        late_begin session_id turn_id (now + plan_max_age) slot parent owner_token given later
          reached-IsSlot reached-FencedSlot early
