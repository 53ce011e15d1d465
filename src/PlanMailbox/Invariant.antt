-- ===== src/PlanMailbox/Invariant.antt =====
-- The invariant of the state of better_hermes_hindsight/plan_mailbox.py, kept by every operation.
pub mod Turns
pub mod Consume
use better_hermes_hindsight.Common.{
  ℕ, ◌+◌, ◌≤◌, ◌≡◌, refl, ◌≢◌, Bool, true, false, ◌&&◌, ◌||◌, not, List, [], ◌∷◌, Option, none,
  some, if◌then◌else◌, leb, ltb, Text, same, text_dec, non_empty, keep, All, All-map, All-keep,
  arith, map, subst, sym, holds, Bool-cases, Option-cases, inl, inr,
}
use better_hermes_hindsight.Common.Dict.{
  Dict, get, put, pop, contains, IsDict, put-IsDict, pop-IsDict, keep-IsDict, All-put, All-pop,
  All-get, map-IsDict,
}
use better_hermes_hindsight.PlanMailbox.State.{
  PlanMode, PlanAction, StoredPlan, HomeState, empty_home, turn_dec, purge_expired, clear_session,
  drop_empty_home, resolve_active_session, is_active_in, Turn, same_turn, valid_action,
}
use better_hermes_hindsight.PlanMailbox.Turns.{
  activate, deactivate, release_activation, rebind, move_activation, is_active, begin_turn,
  open_turn, adopt_parent, start_turn, reserve, Request, finalize, cancel, clear_session_plans,
  purge_stale, reservation, cancelled,
}
use better_hermes_hindsight.PlanMailbox.Consume.{
  consume, consume_resolved, candidates, close_turn, take_newest, newest, pop_all, Candidate, fits,
}

-- Every mapping is a dictionary, and no plan has a sequence number that is still to be given.
pub record IsHome (state : HomeState) : Type 0 where
  pub activations : IsDict text_dec state.activations
  pub closed_turns : IsDict turn_dec state.closed_turns
  pub current_turns : IsDict text_dec state.current_turns
  pub plans : IsDict text_dec state.plans
  pub redirects : IsDict text_dec state.redirects
  pub bounded : All (λ e. e.1.sequence ≤ state.sequence) state.plans

abbrev pub IsSlot : Option HomeState → Type 0
IsSlot none = Unit
IsSlot (some state) = IsHome state

empty_home-IsHome : IsHome empty_home
empty_home-IsHome = record {
  activations = tt;
  closed_turns = tt;
  current_turns = tt;
  plans = tt;
  redirects = tt;
  bounded = tt;
}

pub purge_expired-IsHome :
    (state : HomeState) (now : ℕ) → IsHome state → IsHome (purge_expired state now)
unfolding purge_expired
purge_expired-IsHome state now h = record {
  activations = h.activations;
  closed_turns = keep-IsDict turn_dec (λ e. not (leb e.1 now)) state.closed_turns h.closed_turns;
  current_turns = h.current_turns;
  plans = keep-IsDict text_dec (λ e. not (leb e.1.expires_at now)) state.plans h.plans;
  redirects = h.redirects;
  bounded = All-keep _ (λ e. not (leb e.1.expires_at now)) state.plans h.bounded;
}

pub clear_session-IsHome :
    (state : HomeState) (session_id : Text) (include_closed : Bool)
    → IsHome state
    → IsHome (clear_session state session_id include_closed)
unfolding clear_session
clear_session-IsHome state session_id include_closed h = record {
  activations = h.activations;
  closed_turns =
      elim include_closed
        as (λ b. IsDict turn_dec (
          if b
          then keep (λ e. not (same e.0.0 session_id)) state.closed_turns
          else state.closed_turns)) [
            | true ↦
                keep-IsDict turn_dec (λ e. not (same e.0.0 session_id)) state.closed_turns
                  h.closed_turns
            | false ↦ h.closed_turns
          ];
  current_turns = pop-IsDict text_dec session_id state.current_turns h.current_turns;
  plans = keep-IsDict text_dec (λ e. not (same e.1.session_id session_id)) state.plans h.plans;
  redirects = h.redirects;
  bounded = All-keep _ (λ e. not (same e.1.session_id session_id)) state.plans h.bounded;
}

pub drop_empty_home-IsSlot : (state : HomeState) → IsHome state → IsSlot (drop_empty_home state)
unfolding drop_empty_home
drop_empty_home-IsSlot state h = ground arith

-- A branch on a test, where both states are homes.
pub if-IsHome : (b : Bool) (x y : HomeState) → IsHome x → IsHome y → IsHome (if b then x else y)
if-IsHome true x y hx hy = hx
if-IsHome false x y hx hy = hy

module _ (state : HomeState) (h : IsHome state) where
  pub with_activations :
      (a : Dict Text Text) → IsDict text_dec a → IsHome (record state { activations = a })
  with_activations a d = record {
    activations = d;
    closed_turns = h.closed_turns;
    current_turns = h.current_turns;
    plans = h.plans;
    redirects = h.redirects;
    bounded = h.bounded;
  }

  pub with_redirects :
      (r : Dict Text Turn) → IsDict text_dec r → IsHome (record state { redirects = r })
  with_redirects r d = record {
    activations = h.activations;
    closed_turns = h.closed_turns;
    current_turns = h.current_turns;
    plans = h.plans;
    redirects = d;
    bounded = h.bounded;
  }

  pub with_current_turns :
      (c : Dict Text Turn) → IsDict text_dec c → IsHome (record state { current_turns = c })
  with_current_turns c d = record {
    activations = h.activations;
    closed_turns = h.closed_turns;
    current_turns = d;
    plans = h.plans;
    redirects = h.redirects;
    bounded = h.bounded;
  }

  pub with_plans :
      (p : Dict Text StoredPlan)
      → IsDict text_dec p
      → All (λ e. e.1.sequence ≤ state.sequence) p
      → IsHome (record state { plans = p })
  with_plans p d b = record {
    activations = h.activations;
    closed_turns = h.closed_turns;
    current_turns = h.current_turns;
    plans = d;
    redirects = h.redirects;
    bounded = b;
  }

  put_activation :
      (token session_id : Text)
      → IsHome (record state { activations = put text_dec token session_id state.activations })
  put_activation token session_id =
      with_activations (put text_dec token session_id state.activations)
        (put-IsDict text_dec token session_id state.activations h.activations)

pub activate-IsSlot :
    (session_id token : Text) (now : ℕ) (slot : Option HomeState)
    → IsSlot slot
    → IsSlot (activate session_id token now slot).1
unfolding activate
activate-IsSlot session_id token now none h = ground (
  arith,
  put_activation (purge_expired empty_home now)
      (purge_expired-IsHome empty_home now empty_home-IsHome) token session_id,
)
activate-IsSlot session_id token now (some state) h = ground (
  arith,
  put_activation (purge_expired state now) (purge_expired-IsHome state now h) token session_id,
)

-- A branch that drops an empty home.
pub drop_if :
    (b : Bool) (x y : HomeState)
    → IsHome x
    → IsHome y
    → IsSlot (drop_empty_home (if b then x else y))
drop_if b x y hx hy = drop_empty_home-IsSlot (if b then x else y) (if-IsHome b x y hx hy)

release_activation-IsSlot :
    (state : HomeState) (token : Text) → IsHome state → IsSlot (release_activation state token)
unfolding release_activation
release_activation-IsSlot state token h =
    let left = record state { activations = pop text_dec token state.activations } in
    let left-IsHome : IsHome left =
      with_activations state h (pop text_dec token state.activations)
        (pop-IsDict text_dec token state.activations h.activations) in
    elim (get text_dec token state.activations)
      as (λ o. IsSlot (elim o [
        | none ↦ drop_empty_home left
        | some session_id ↦
            drop_empty_home
              (if is_active_in left session_id then left else clear_session left session_id true)
      ])) [
        | none ↦ drop_empty_home-IsSlot left left-IsHome
        | some session_id ↦
            drop_if (is_active_in left session_id) left (clear_session left session_id true)
              left-IsHome (clear_session-IsHome left session_id true left-IsHome)
      ]

pub deactivate-IsSlot :
    (token : Text) (now : ℕ) (slot : Option HomeState)
    → IsSlot slot
    → IsSlot (deactivate token now slot).1
unfolding deactivate
deactivate-IsSlot token now none h = ground arith
deactivate-IsSlot token now (some state) h = ground (
  arith,
  release_activation-IsSlot (purge_expired state now) token (purge_expired-IsHome state now h),
)

move_activation-IsSlot :
    (state : HomeState) (token old_session_id new_session_id expected_parent : Text)
    → IsHome state
    → IsSlot (move_activation state token old_session_id new_session_id expected_parent).1
unfolding move_activation
move_activation-IsSlot state token old_session_id new_session_id expected_parent h =
    let moved = record state {
      activations = put text_dec token new_session_id state.activations;
    } in
    let moved-IsHome : IsHome moved = put_activation state h token new_session_id in
    let cleared-IsHome =
      if-IsHome (is_active_in moved old_session_id) moved (clear_session moved old_session_id true)
        moved-IsHome (clear_session-IsHome moved old_session_id true moved-IsHome) in
    ground (
      arith,
      clear_session-IsHome
          (if is_active_in moved old_session_id
            then moved
            else clear_session moved old_session_id true)
          new_session_id true cleared-IsHome,
    )

pub rebind-IsSlot :
    (token new_session_id expected_parent : Text) (now : ℕ) (slot : Option HomeState)
    → IsSlot slot
    → IsSlot (rebind token new_session_id expected_parent now slot).1
unfolding rebind
rebind-IsSlot token new_session_id expected_parent now none h = ground arith
rebind-IsSlot token new_session_id expected_parent now (some state) h =
    elim (Option-cases (get text_dec token state.activations)) [
      | inl e ↦ rw e (ground arith)
      | inr (old, e) ↦ rw e (
          ground (
            arith,
            move_activation-IsSlot (purge_expired state now) token old new_session_id
                expected_parent (purge_expired-IsHome state now h),
          ))
    ]

pub is_active-IsSlot :
    (session_id : Text) (now : ℕ) (slot : Option HomeState)
    → IsSlot slot
    → IsSlot (is_active session_id now slot).1
unfolding is_active
is_active-IsSlot session_id now none h = ground arith
is_active-IsSlot session_id now (some state) h = ground (arith, purge_expired-IsHome state now h)
