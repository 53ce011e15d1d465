-- ===== src/PlanMailbox/Fenced.antt =====
-- A closed turn of better_hermes_hindsight/plan_mailbox.py through the calls that come after the request
-- that closed it.
pub mod Beginning
pub mod Consumption
pub mod Calls
use better_hermes_hindsight.Common.{
  ℕ, ◌+◌, ◌≤◌, ◌<◌, ◌≡◌, refl, ap, ◌≢◌, Bool, true, false, ◌&&◌, ◌||◌, not, Option, none, some,
  Text, same, text_dec, List, keep, arith, leb, if◌then◌else◌, is_some, Bool-cases, Option-cases,
  inl, inr, map, non_empty, length,
}
use better_hermes_hindsight.Common.Dict.{
  get, put, pop, contains, get-pop, get-put, get-keep, only_if, IsDict,
}
use better_hermes_hindsight.PlanMailbox.State.{
  PlanMode, PlanAction, turn_dec, HomeState, Turn, purge_expired, clear_session, drop_empty_home,
  resolve_active_session, plan_max_age, is_active_in, Outcome, ok, same_token,
}
use better_hermes_hindsight.PlanMailbox.Turns.{
  activate, is_active, begin_turn, open_turn, start_turn, adopt_parent, drop_stale_redirects,
  reserve, Request, finalize, publish_plan, cancel, cancel_plan, cancelled, purge_stale,
  release_activation, deactivate, clear_session_plans,
}
use better_hermes_hindsight.PlanMailbox.Consume.{
  consume, consume_in, consume_resolved, candidates, close_turn, take_newest, newest, Candidate,
}
use better_hermes_hindsight.PlanMailbox.Invariant.{
  IsHome, IsSlot, purge_expired-IsHome, activate-IsSlot, is_active-IsSlot,
}
use better_hermes_hindsight.PlanMailbox.Invariant.Turns.{
  begin_turn-IsSlot, reserve-IsSlot, finalize-IsSlot, cancel-IsSlot, purge_stale-IsSlot,
}
use better_hermes_hindsight.PlanMailbox.Invariant.Consume.{consume-IsSlot}

-- The time until which a turn is closed; zero if it is not.
abbrev pub closed_until : Option ℕ → ℕ
closed_until none = 0
closed_until (some until) = until

abbrev pub is_current : Text → Option Turn → Bool
is_current turn_id none = false
is_current turn_id (some (current, token)) = same current turn_id

-- The handle of the token, if there is one, is not of the session.
abbrev pub Elsewhere : Text → Text → Option HomeState → Type 0
Elsewhere session_id token none = Unit
Elsewhere session_id token (some state) = get text_dec token state.activations ≢ some session_id

module _ (session_id turn_id : Text) (until : ℕ) where
  -- The turn is closed at least until the given time, and is not the current one.
  pub record IsFenced (state : HomeState) : Type 0 where
    pub fenced : until ≤ closed_until (get turn_dec (session_id, turn_id) state.closed_turns)
    pub not_current : is_current turn_id (get text_dec session_id state.current_turns) ≡ false

  pub purge_expired-IsFenced :
      (state : HomeState) (now : ℕ)
      → IsHome state
      → now < until
      → IsFenced state
      → IsFenced (purge_expired state now)
  unfolding purge_expired
  purge_expired-IsFenced state now home early f = record {
    fenced = ground (
      arith,
      get-keep turn_dec (session_id, turn_id) (λ e. not (leb e.1 now)) state.closed_turns
          home.closed_turns,
    );
    not_current = f.not_current;
  }

  pub clear_session-IsFenced :
      (state : HomeState) (other : Text)
      → IsDict turn_dec state.closed_turns
      → other ≢ session_id
      → IsFenced state
      → IsFenced (clear_session state other true)
  unfolding clear_session
  clear_session-IsFenced state other dict differs f = record {
    fenced = ground (
      arith,
      get-keep turn_dec (session_id, turn_id) (λ e. not (same e.0.0 other)) state.closed_turns dict,
    );
    not_current = ground (arith, get-pop text_dec other session_id state.current_turns);
  }

  pub close_turn-IsFenced :
      (state : HomeState) (session turn : Text) (now : ℕ)
      → until ≤ now + plan_max_age
      → IsFenced state
      → IsFenced (close_turn state session turn now)
  unfolding close_turn
  close_turn-IsFenced state session turn now late f = record {
    fenced = ground (
      arith,
      get-put turn_dec (session, turn) (session_id, turn_id) (now + plan_max_age)
          state.closed_turns,
    );
    not_current = ground (arith, get-pop text_dec session session_id state.current_turns);
  }

  -- The home of an entry is fenced.
  abbrev pub FencedSlot : Option HomeState → Type 0
  FencedSlot none = ⊥
  FencedSlot (some state) = IsFenced state

  pub same_times :
      (state after : HomeState)
      → after.closed_turns ≡ state.closed_turns
      → after.current_turns ≡ state.current_turns
      → IsFenced state
      → IsFenced after
  same_times state after e e' f = record {
    fenced = rw e f.fenced;
    not_current = rw e' f.not_current;
  }

  pub branch-FencedSlot :
      {A : Type 0} (b : Bool) (x y : Outcome A)
      → (b ≡ true → FencedSlot x.1)
      → (b ≡ false → FencedSlot y.1)
      → FencedSlot (if b then x else y).1
  branch-FencedSlot true x y h k = h refl
  branch-FencedSlot false x y h k = k refl

  pub drop_empty_home-FencedSlot :
      (state : HomeState) → 0 < until → IsFenced state → FencedSlot (drop_empty_home state)
  unfolding drop_empty_home get
  drop_empty_home-FencedSlot state positive f = ground (arith, f.fenced)
