-- ===== src/PlanMailbox/Beginning.antt =====
-- What `begin_turn` of better_hermes_hindsight/plan_mailbox.py gives to a worker.
use better_hermes_hindsight.Common.{
  ℕ, ◌≡◌, refl, ◌≢◌, false, ◌&&◌, not, List, [], ◌∷◌, Option, some, Bool-cases, inl, inr, Text,
  same, text_dec, All, All-keep_passed, arith, non_empty,
}
use better_hermes_hindsight.Common.Dict.{get, pop, contains, get-put}
use better_hermes_hindsight.PlanMailbox.State.{
  StoredPlan, HomeState, ok, turn_dec, is_active_in, purge_expired, clear_session,
}
use better_hermes_hindsight.PlanMailbox.Turns.{
  begin_turn, open_turn, adopt_parent, start_turn, drop_stale_redirects,
}
use better_hermes_hindsight.PlanMailbox.Ownership.{Active, any-adopted_child}

-- The turn is the current one of an active session, with this token, and the session has no plans.
pub record IsStarted (session_id turn_id token : Text) (state : HomeState) : Type 0 where
  pub active : Active state session_id
  pub current : get text_dec session_id state.current_turns ≡ some (turn_id, token)
  pub no_plans : All (λ e. e.1.session_id ≢ session_id) state.plans

start_turn-IsStarted :
    (state : HomeState) (session_id turn_id token : Text)
    → Active state session_id
    → IsStarted session_id turn_id token (start_turn state session_id turn_id token)
unfolding start_turn clear_session is_active_in
start_turn-IsStarted state session_id turn_id token active = record {
  active = active;
  current = ground (
    arith,
    get-put text_dec session_id session_id (turn_id, token)
        (pop text_dec session_id state.current_turns),
  );
  no_plans =
      All-keep_passed (λ e. Unit {0}) (λ e. e.1.session_id ≢ session_id)
        (λ e. not (same e.1.session_id session_id)) state.plans
        (λ e passed _. ground (arith, passed)) (nothing state.plans);
}
  where
    nothing : (plans : List (Text × StoredPlan)) → All (λ e. Unit {0}) plans
    nothing [] = tt
    nothing (e ∷ rest) = (tt, nothing rest)

adopt_parent-Active :
    (state : HomeState) (session_id turn_id parent : Text)
    → Active state parent
    → Active (adopt_parent state session_id turn_id parent) session_id
unfolding adopt_parent clear_session is_active_in
adopt_parent-Active state session_id turn_id parent active =
    any-adopted_child parent session_id state.activations active

-- What a call of `begin_turn` that gives a token has done.
abbrev pub Starts : Text → Text → Text → Text → Option HomeState → Type 0
Starts session_id turn_id token given slot =
    (given ≡ token)
    × ((after : HomeState) × (slot ≡ some after) × IsStarted session_id turn_id token after)

open_turn-Starts :
    (state : HomeState) (session_id turn_id parent token given : Text)
    → (open_turn state session_id turn_id parent token).0 ≡ ok (some given)
    → (contains turn_dec (session_id, turn_id) state.closed_turns ≡ false)
      × Starts session_id turn_id token given (open_turn state session_id turn_id parent token).1
unfolding open_turn
open_turn-Starts state session_id turn_id parent token given e =
    let state' = drop_stale_redirects state session_id turn_id in
    elim (Bool-cases (contains turn_dec (session_id, turn_id) state.closed_turns)) [
      | inl closed ↦ let e' = rw closed at e in cc
      | inr reopened ↦ elim (Bool-cases (non_empty parent && is_active_in state' parent)) [
        | inl by_parent ↦
            let e' = rw (reopened, by_parent) at e in
            let middle = adopt_parent state' session_id turn_id parent in
            rw (reopened, by_parent)
              (
                refl,
                (
                  ground (arith, e'),
                  (
                    start_turn middle session_id turn_id token,
                    refl,
                    start_turn-IsStarted middle session_id turn_id token (
                        adopt_parent-Active state' session_id turn_id parent
                          (ground (arith, by_parent))),
                  ),
                ),
              )
        | inr alone ↦ elim (Bool-cases (is_active_in state' session_id)) [
          | inl active ↦
              let e' = rw (reopened, alone, active) at e in
              rw (reopened, alone, active)
                (
                  refl,
                  (
                    ground (arith, e'),
                    (
                      start_turn state' session_id turn_id token,
                      refl,
                      start_turn-IsStarted state' session_id turn_id token active,
                    ),
                  ),
                )
          | inr inactive ↦ let e' = rw (reopened, alone, inactive) at e in cc
        ]
      ]
    ]

-- When `begin_turn` gives a token, it is the one that `uuid4` made for the call, and the turn was not among
-- the closed turns that have not expired. Afterwards the turn is the current one of its session with that
-- token, the session has an active handle, and no plan of the session is left.
pub begin_turn-Starts :
    (session_id turn_id parent token given : Text) (now : ℕ) (state : HomeState)
    → (begin_turn session_id turn_id parent token now (some state)).0 ≡ ok (some given)
    → (contains turn_dec (session_id, turn_id) (purge_expired state now).closed_turns ≡ false)
      × Starts session_id turn_id token given
          (begin_turn session_id turn_id parent token now (some state)).1
unfolding begin_turn
begin_turn-Starts session_id turn_id parent token given now state e =
    elim (Bool-cases (non_empty session_id && non_empty turn_id)) [
      | inr invalid ↦ let e' = rw invalid at e in cc
      | inl valid ↦
          let e' = rw valid at e in
          rw valid
            (open_turn-Starts (purge_expired state now) session_id turn_id parent token given e')
    ]
