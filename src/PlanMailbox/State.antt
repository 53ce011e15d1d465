-- ===== src/PlanMailbox/State.antt =====
-- The state of better_hermes_hindsight/plan_mailbox.py and the helpers of `InMemoryPlanMailbox`. An
-- operation reads and writes the registry's entry of its own home only, which is what is passed here:
-- `none` where the home has no entry. Times are microseconds of the monotonic clock.
use better_hermes_hindsight.Common.{
  ℕ, Bool, true, false, ◌&&◌, not, List, [], ◌∷◌, Option, none, some, if◌then◌else◌, leb, Text,
  same, text_dec, non_empty, keep, any, is_some,
}
use better_hermes_hindsight.Common.Dict.{Dict, get, pop}

pub data PlanMode : Type 0 where
  shadow active : PlanMode

pub data PlanAction : Type 0 where
  skip reuse recall : PlanAction

abbrev pub plan_max_age : ℕ
plan_max_age = 10_000_000

pub record RecallPlan : Type 0 where
  pub mode : PlanMode
  pub action : PlanAction
  pub rewritten_query : Option Text
  pub turn_id : Text

pub record StoredPlan : Type 0 where
  pub sequence : ℕ
  pub query_digest : Text
  pub query_length : ℕ
  pub session_id : Text
  pub mode : PlanMode
  pub expires_at : ℕ
  pub owner_token : Option Text
  pub evaluation_id : Option Text
  pub publish_before : Option ℕ
  pub action : Option PlanAction
  pub rewritten_query : Option Text

-- A session and one of its turns.
abbrev pub Turn : Type 0
Turn = Text × Text

pub record HomeState : Type 0 where
  pub activations : Dict Text Text
  pub closed_turns : Dict Turn ℕ
  pub current_turns : Dict Text Turn
  pub plans : Dict Text StoredPlan
  pub redirects : Dict Text Turn
  pub sequence : ℕ

abbrev pub empty_home : HomeState
empty_home = record {
  activations = [];
  closed_turns = [];
  current_turns = [];
  plans = [];
  redirects = [];
  sequence = 0;
}

pub data MailboxError : Type 0 where
  value_error unavailable : MailboxError

pub data Result (A : Type 0) : Type 0 where
  ok : A → Result A
  raise : MailboxError → Result A

-- What a call returns or raises, and the entry of the home after it.
abbrev pub Outcome : Type 0 → Type 0
Outcome A = Result A × Option HomeState

unfoldable pub turn_dec : Discrete Turn
unfolding text_dec
turn_dec = hlevel text_dec

unfoldable pub mode_dec : Discrete PlanMode
mode_dec = hlevel

abbrev pub same_mode : PlanMode → PlanMode → Bool
same_mode a b = elim (mode_dec a b) [ yes _ ↦ true | no _ ↦ false ]

-- `a == b` on optional texts.
abbrev pub same_token : Option Text → Option Text → Bool
same_token none none = true
same_token (some a) (some b) = same a b
same_token _ _ = false

abbrev pub same_turn : Turn → Turn → Bool
same_turn a b = same a.0 b.0 && same a.1 b.1

-- `session_id in state.activations.values()`
unfoldable pub is_active_in : HomeState → Text → Bool
is_active_in state session_id = any (λ e. same e.1 session_id) state.activations

unfoldable pub purge_expired : HomeState → ℕ → HomeState
purge_expired state now = record state {
  plans = keep (λ e. not (leb e.1.expires_at now)) state.plans;
  closed_turns = keep (λ e. not (leb e.1 now)) state.closed_turns;
}

unfoldable pub clear_session : HomeState → Text → Bool → HomeState
clear_session state session_id include_closed = record state {
  current_turns = pop text_dec session_id state.current_turns;
  plans = keep (λ e. not (same e.1.session_id session_id)) state.plans;
  closed_turns =
      if include_closed
      then keep (λ e. not (same e.0.0 session_id)) state.closed_turns
      else state.closed_turns;
}

abbrev is_empty : {A : Type 0} → List A → Bool
is_empty [] = true
is_empty (_ ∷ _) = false

unfoldable pub drop_empty_home : HomeState → Option HomeState
drop_empty_home state =
    if is_empty state.activations
      && is_empty state.closed_turns
      && is_empty state.current_turns
      && is_empty state.plans
    then none
    else some state

-- The session that owns a request, and the turn of the redirect that it was reached by. A redirect is
-- used up by the attempt.
unfoldable pub resolve_active_session : HomeState → Text → HomeState × Option (Text × Option Text)
unfolding is_active_in
resolve_active_session state session_id =
    if is_active_in state session_id
    then (state, some (session_id, none))
    else elim (get text_dec session_id state.redirects) [
      | none ↦ (state, none)
      | some (target, turn_id) ↦
          let state' = record state { redirects = pop text_dec session_id state.redirects } in
          if is_active_in state target
          then (state', some (target, some turn_id))
          else (state', none)
    ]

-- `_require_action`
unfoldable pub valid_action : PlanAction → Option Text → Bool
valid_action PlanAction.recall none = false
valid_action PlanAction.recall (some query) = non_empty query
valid_action PlanAction.skip query = not (is_some query)
valid_action PlanAction.reuse query = not (is_some query)

-- An operation on an existing home; another answer where there is none.
abbrev pub with_home : {A : Type 0} → Option HomeState → A → (HomeState → Outcome A) → Outcome A
with_home none otherwise f = (ok otherwise, none)
with_home (some state) otherwise f = f state

abbrev pub refused : {A : Type 0} → MailboxError → Option HomeState → Outcome A
refused error slot = (raise error, slot)
