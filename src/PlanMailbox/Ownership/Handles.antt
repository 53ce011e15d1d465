-- ===== src/PlanMailbox/Ownership/Handles.antt =====
-- Handles and turns of better_hermes_hindsight/plan_mailbox.py keep what is stored owned.
use better_hermes_hindsight.Common.{
  ℕ, ◌≡◌, refl, sym, subst, ◌≢◌, Bool, true, false, [], none, some, Option-cases, inl, inr,
  if◌then◌else◌, Text, text_dec, keep, arith,
}
use better_hermes_hindsight.Common.Dict.{Dict, get, put, pop, IsDict, All-put}
use better_hermes_hindsight.PlanMailbox.State.{
  HomeState, empty_home, purge_expired, clear_session, is_active_in,
}
use better_hermes_hindsight.PlanMailbox.Turns.{
  activate, deactivate, release_activation, rebind, move_activation, begin_turn, open_turn,
  adopt_parent, start_turn, drop_stale_redirects,
}
use better_hermes_hindsight.PlanMailbox.Ownership.{
  IsOwnedBy, Active, IsOwned, IsOwnedSlot, IsOwnedBy-map, clear_session-IsOwnedBy,
  restart_session-IsOwnedBy, purge_expired-IsOwned, clear_session-IsOwned,
  drop_empty_home-IsOwnedSlot, any-put, any-pop, adopted, any-adopted, any-adopted_child,
}

-- Only the handles differ.
abbrev with_handles : HomeState → Dict Text Text → HomeState
with_handles state handles = record state { activations = handles }

if-IsOwned :
    (b : Bool) (x y : HomeState)
    → (b ≡ true → IsOwned x)
    → (b ≡ false → IsOwned y)
    → IsOwned (if b then x else y)
if-IsOwned true x y hx hy = hx refl
if-IsOwned false x y hx hy = hy refl

all_kept :
    (state : HomeState) (handles : Dict Text Text)
    → IsOwned state
    → ((s : Text) → Active state s → Active (with_handles state handles) s)
    → IsOwned (with_handles state handles)
all_kept state handles h stays =
    IsOwnedBy-map (Active state) (Active (with_handles state handles)) (with_handles state handles)
      stays
      (record { plans = h.plans; current_turns = h.current_turns; closed_turns = h.closed_turns })

-- The handles change, and the session that may have lost its last one is cleared if it did.
left_or_cleared :
    (state : HomeState) (handles : Dict Text Text) (session_id : Text)
    → IsOwned state
    → ((s : Text) → s ≢ session_id → Active state s → Active (with_handles state handles) s)
    → IsOwned (
        if is_active_in (with_handles state handles) session_id
        then with_handles state handles
        else clear_session (with_handles state handles) session_id true)
unfolding clear_session is_active_in
left_or_cleared state handles session_id h others =
    let left = with_handles state handles in
    let moved : IsOwnedBy (Active state) left = record {
      plans = h.plans;
      current_turns = h.current_turns;
      closed_turns = h.closed_turns;
    } in
    if-IsOwned (is_active_in left session_id) left (clear_session left session_id true)
      (λ still.
        IsOwnedBy-map (Active state) (Active left) left
          (λ s a. elim (text_dec s session_id) [
            | yes e ↦ subst (λ t. Active left t) (sym e) still
            | no e ↦ others s e a
          ])
          moved)
      (λ _. clear_session-IsOwnedBy (Active state) (Active left) left session_id others moved)

release_activation-IsOwnedSlot :
    (state : HomeState) (token : Text)
    → IsDict text_dec state.activations
    → IsOwned state
    → IsOwnedSlot (release_activation state token)
unfolding release_activation is_active_in
release_activation-IsOwnedSlot state token d h =
    let handles = pop text_dec token state.activations in
    let stays : (s : Text)
        → get text_dec token state.activations ≢ some s
        → Active state s
        → Active (with_handles state handles) s =
      λ s other a. any-pop token s state.activations d other a in
    elim (Option-cases (get text_dec token state.activations)) [
      | inl e ↦
          rw (e, IsOwnedSlot)
            (drop_empty_home-IsOwnedSlot (with_handles state handles)
              (all_kept state handles h (λ s. stays s (λ found. cc))))
      | inr (session_id, e) ↦
          rw (e, IsOwnedSlot)
            (drop_empty_home-IsOwnedSlot
              (if is_active_in (with_handles state handles) session_id
                then with_handles state handles
                else clear_session (with_handles state handles) session_id true)
              (left_or_cleared state handles session_id h
                (λ s other. stays s (λ found. other (ground arith)))))
    ]

pub deactivate-IsOwnedSlot :
    (token : Text) (now : ℕ) (state : HomeState)
    → IsDict text_dec state.activations
    → IsOwned state
    → IsOwnedSlot (deactivate token now (some state)).1
unfolding deactivate purge_expired
deactivate-IsOwnedSlot token now state d h = ground (
  arith,
  release_activation-IsOwnedSlot (purge_expired state now) token d
      (purge_expired-IsOwned state now h),
)

move_activation-IsOwnedSlot :
    (state : HomeState) (token old_session_id new_session_id expected_parent : Text)
    → get text_dec token state.activations ≡ some old_session_id
    → IsOwned state
    → IsOwnedSlot (move_activation state token old_session_id new_session_id expected_parent).1
unfolding move_activation is_active_in
move_activation-IsOwnedSlot state token old_session_id new_session_id expected_parent found h =
    let handles = put text_dec token new_session_id state.activations in
    let cleared =
      if is_active_in (with_handles state handles) old_session_id
      then with_handles state handles
      else clear_session (with_handles state handles) old_session_id true in
    let cleared-IsOwned : IsOwned cleared =
      left_or_cleared state handles old_session_id h (λ s other.
        any-put token s new_session_id state.activations (λ same_found. other (ground arith))) in
    ground (arith, h, clear_session-IsOwned cleared new_session_id cleared-IsOwned)

pub rebind-IsOwnedSlot :
    (token new_session_id expected_parent : Text) (now : ℕ) (state : HomeState)
    → IsOwned state
    → IsOwnedSlot (rebind token new_session_id expected_parent now (some state)).1
unfolding rebind purge_expired
rebind-IsOwnedSlot token new_session_id expected_parent now state h =
    elim (Option-cases (get text_dec token state.activations)) [
      | inl e ↦ rw e (ground arith)
      | inr (old, e) ↦ rw e (
          ground (
            arith,
            move_activation-IsOwnedSlot (purge_expired state now) token old new_session_id
                expected_parent e (purge_expired-IsOwned state now h),
          ))
    ]

pub activate-IsOwnedSlot :
    (session_id token : Text) (now : ℕ) (state : HomeState)
    → get text_dec token state.activations ≡ none
    → IsOwned state
    → IsOwnedSlot (activate session_id token now (some state)).1
unfolding activate purge_expired is_active_in
activate-IsOwnedSlot session_id token now state fresh h = ground (
  arith,
  all_kept (purge_expired state now) (put text_dec token session_id state.activations)
      (purge_expired-IsOwned state now h)
      (λ s. any-put token s session_id state.activations (λ found. cc)),
)

pub activate_first-IsOwnedSlot :
    (session_id token : Text) (now : ℕ) → IsOwnedSlot (activate session_id token now none).1
unfolding activate purge_expired keep
activate_first-IsOwnedSlot session_id token now =
    let nothing : IsOwned (with_handles empty_home (put text_dec token session_id [])) = record {
      plans = tt;
      current_turns = tt;
      closed_turns = tt;
    } in
    ground (arith, nothing)

start_turn-IsOwned :
    (state : HomeState) (session_id turn_id owner_token : Text)
    → Active state session_id
    → IsOwned state
    → IsOwned (start_turn state session_id turn_id owner_token)
unfolding start_turn clear_session is_active_in
start_turn-IsOwned state session_id turn_id owner_token active h =
    let cleared-IsOwned = restart_session-IsOwnedBy (Active state) state session_id h in
    record {
      plans = cleared-IsOwned.plans;
      current_turns =
          All-put text_dec (λ e. Active state e.0) session_id (turn_id, owner_token)
            (pop text_dec session_id state.current_turns) active cleared-IsOwned.current_turns;
      closed_turns = cleared-IsOwned.closed_turns;
    }

-- The session is active afterwards, and nothing is left without a handle.
pub adopt_parent-IsOwned :
    (state : HomeState) (session_id turn_id parent : Text)
    → Active state parent
    → IsOwned state
    → Active (adopt_parent state session_id turn_id parent) session_id
      × IsOwned (adopt_parent state session_id turn_id parent)
unfolding adopt_parent clear_session is_active_in
adopt_parent-IsOwned state session_id turn_id parent active h =
    let left = record state {
      activations = adopted parent session_id state.activations;
      redirects = (adopt_parent state session_id turn_id parent).redirects;
    } in
    let moved : IsOwnedBy (Active state) left = record {
      plans = h.plans;
      current_turns = h.current_turns;
      closed_turns = h.closed_turns;
    } in
    (
      any-adopted_child parent session_id state.activations active,
      clear_session-IsOwnedBy (Active state) (Active left) left parent
          (λ s other a. any-adopted parent session_id s state.activations other a) moved,
    )

open_turn-IsOwnedSlot :
    (state : HomeState) (session_id turn_id parent owner_token : Text)
    → IsOwned state
    → IsOwnedSlot (open_turn state session_id turn_id parent owner_token).1
unfolding open_turn is_active_in
open_turn-IsOwnedSlot state session_id turn_id parent owner_token h =
    let state' = drop_stale_redirects state session_id turn_id in
    let kept-IsOwned : IsOwned state' = record {
      plans = h.plans;
      current_turns = h.current_turns;
      closed_turns = h.closed_turns;
    } in
    let by_parent = adopt_parent-IsOwned state' session_id turn_id parent in
    ground (
      arith,
      h,
      kept-IsOwned,
      start_turn-IsOwned state' session_id turn_id owner_token,
      start_turn-IsOwned (adopt_parent state' session_id turn_id parent) session_id turn_id
          owner_token,
      by_parent,
    )

pub begin_turn-IsOwnedSlot :
    (session_id turn_id parent owner_token : Text) (now : ℕ) (state : HomeState)
    → IsOwned state
    → IsOwnedSlot (begin_turn session_id turn_id parent owner_token now (some state)).1
unfolding begin_turn
begin_turn-IsOwnedSlot session_id turn_id parent owner_token now state h = ground (
  arith,
  h,
  open_turn-IsOwnedSlot (purge_expired state now) session_id turn_id parent owner_token
      (purge_expired-IsOwned state now h),
)
