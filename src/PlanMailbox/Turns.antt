-- ===== src/PlanMailbox/Turns.antt =====
-- Activation, turns, reservations and their publication in `InMemoryPlanMailbox`
-- (better_hermes_hindsight/plan_mailbox.py). `now` is what the clock returns; fresh tokens are those
-- that `uuid4` makes.
use better_hermes_hindsight.Common.{
  ℕ, ◌+◌, Bool, true, false, ◌&&◌, ◌||◌, not, Option, none, some, if◌then◌else◌, ltb, Text, same,
  text_dec, non_empty, keep, map, is_some, length,
}
use better_hermes_hindsight.Common.Dict.{get, put, pop, contains}
use better_hermes_hindsight.PlanMailbox.State.{
  PlanMode, PlanAction, plan_max_age, StoredPlan, HomeState, empty_home, MailboxError, ok, Outcome,
  turn_dec, same_mode, same_token, is_active_in, purge_expired, clear_session, drop_empty_home,
  valid_action, with_home, refused,
}

unfoldable pub activate : Text → Text → ℕ → Option HomeState → Outcome Text
activate session_id token now slot =
    let state = purge_expired (elim slot [ none ↦ empty_home | some s ↦ s ]) now in
    if non_empty session_id
    then (
      ok token,
      some (record state { activations = put text_dec token session_id state.activations }),
    )
    else refused MailboxError.value_error slot

-- `deactivate`, behind the purge.
unfoldable pub release_activation : HomeState → Text → Option HomeState
release_activation state token =
    let left = record state { activations = pop text_dec token state.activations } in
    elim (get text_dec token state.activations) [
      | none ↦ drop_empty_home left
      | some session_id ↦
          drop_empty_home
            (if is_active_in left session_id then left else clear_session left session_id true)
    ]

unfoldable pub deactivate : Text → ℕ → Option HomeState → Outcome (Unit {0})
unfolding release_activation
deactivate token now slot =
    if non_empty token
    then with_home slot tt (λ state. (ok tt, release_activation (purge_expired state now) token))
    else refused MailboxError.value_error slot

-- `rebind`, once the activation of the token is known to be `old_session_id`.
unfoldable pub move_activation : HomeState → Text → Text → Text → Text → Outcome Bool
move_activation state token old_session_id new_session_id expected_parent =
    let moved = record state {
      activations = put text_dec token new_session_id state.activations;
    } in
    let cleared =
      if is_active_in moved old_session_id
      then moved
      else clear_session moved old_session_id true in
    if same old_session_id new_session_id
    then (ok true, some state)
    else if non_empty expected_parent && not (same old_session_id expected_parent)
    then (ok false, some state)
    else (ok true, some (clear_session cleared new_session_id true))

unfoldable pub rebind : Text → Text → Text → ℕ → Option HomeState → Outcome Bool
unfolding move_activation
rebind token new_session_id expected_parent now slot =
    if non_empty token && non_empty new_session_id
    then elim slot [
      | none ↦ refused MailboxError.unavailable none
      | some state ↦ elim (get text_dec token state.activations) [
        | none ↦ refused MailboxError.unavailable (some state)
        | some old_session_id ↦
            move_activation (purge_expired state now) token old_session_id new_session_id
              expected_parent
      ]
    ]
    else refused MailboxError.value_error slot

unfoldable pub is_active : Text → ℕ → Option HomeState → Outcome Bool
is_active session_id now slot =
    if non_empty session_id
    then with_home slot false (λ state.
      let state' = purge_expired state now in (ok (is_active_in state' session_id), some state'))
    else refused MailboxError.value_error slot

-- Old redirects to the session stop counting when another of its turns begins.
abbrev pub drop_stale_redirects : HomeState → Text → Text → HomeState
drop_stale_redirects state session_id turn_id = record state {
  redirects = keep (λ e. not (same e.1.0 session_id) || same e.1.1 turn_id) state.redirects;
}

abbrev pub names_neither : Text → Text → Text → Bool
names_neither parent session id = not (same id parent || same id session)

-- The parent's activations move to the child session, with a redirect for a late request.
unfoldable pub adopt_parent : HomeState → Text → Text → Text → HomeState
adopt_parent state session_id turn_id parent_session_id =
    let neither = names_neither parent_session_id session_id in
    let others = keep (λ e. neither e.0 && neither e.1.0) state.redirects in
    clear_session
      (record state {
        redirects = put text_dec parent_session_id (session_id, turn_id) others;
        activations =
            map (λ e. (e.0, if same e.1 parent_session_id then session_id else e.1))
              state.activations;
      })
      parent_session_id true

-- The last part of `begin_turn`, for an active session.
unfoldable pub start_turn : HomeState → Text → Text → Text → HomeState
start_turn state session_id turn_id owner_token =
    let cleared = clear_session state session_id false in
    record cleared {
      current_turns = put text_dec session_id (turn_id, owner_token) cleared.current_turns;
    }

-- `begin_turn`, behind the purge.
unfoldable pub open_turn : HomeState → Text → Text → Text → Text → Outcome (Option Text)
unfolding adopt_parent start_turn
open_turn state session_id turn_id parent_session_id owner_token =
    let state' = drop_stale_redirects state session_id turn_id in
    if contains turn_dec (session_id, turn_id) state.closed_turns
    then (ok none, some state)
    else if non_empty parent_session_id && is_active_in state' parent_session_id
    then (
      ok (some owner_token),
      some (
          start_turn (adopt_parent state' session_id turn_id parent_session_id) session_id turn_id
            owner_token),
    )
    else if is_active_in state' session_id
    then (ok (some owner_token), some (start_turn state' session_id turn_id owner_token))
    else (ok none, some state')

unfoldable pub begin_turn : Text → Text → Text → Text → ℕ → Option HomeState → Outcome (Option Text)
unfolding open_turn
begin_turn session_id turn_id parent_session_id owner_token now slot =
    if non_empty session_id && non_empty turn_id
    then with_home slot none (λ state.
      open_turn (purge_expired state now) session_id turn_id parent_session_id owner_token)
    else refused MailboxError.value_error slot

-- What a reservation is asked for. The timeout is `none` where the caller gives none; one that is not
-- finite, or is not above zero, is refused.
pub data Timeout : Type 0 where
  no_timeout bad_timeout : Timeout
  within : ℕ → Timeout

abbrev pub valid_timeout : Timeout → Bool
valid_timeout Timeout.no_timeout = true
valid_timeout Timeout.bad_timeout = false
valid_timeout (Timeout.within seconds) = ltb 0 seconds

abbrev pub publish_limit : Timeout → ℕ → Option ℕ
publish_limit (Timeout.within seconds) now = some (now + seconds)
publish_limit _ now = none

-- Whether the caller may reserve: it holds the token of the current turn, or neither exists.
abbrev pub may_reserve : Option (Text × Text) → Text → Option Text → Bool
may_reserve none turn_id owner_token = not (is_some owner_token)
may_reserve (some (current, token)) turn_id none = false
may_reserve (some (current, token)) turn_id (some owner_token) =
    same current turn_id && same token owner_token

pub record Request : Type 0 where
  pub source_query : Text
  pub session_id : Text
  pub turn_id : Text
  pub mode : PlanMode
  pub evaluation_id : Option Text
  pub timeout : Timeout
  pub owner_token : Option Text

abbrev pub reservation : (Text → Text) → Request → ℕ → ℕ → StoredPlan
reservation digest request now sequence = record {
  sequence = sequence;
  query_digest = digest request.source_query;
  query_length = length request.source_query;
  session_id = request.session_id;
  mode = request.mode;
  expires_at = now + plan_max_age;
  owner_token = request.owner_token;
  evaluation_id = request.evaluation_id;
  publish_before = publish_limit request.timeout now;
  action = none;
  rewritten_query = none;
}

-- `digest` is `_query_digest`: SHA-256 of the query's UTF-8 bytes.
unfoldable pub reserve : (Text → Text) → Request → ℕ → Option HomeState → Outcome Bool
reserve digest request now slot =
    if non_empty request.source_query
      && non_empty request.session_id
      && non_empty request.turn_id
      && valid_timeout request.timeout
    then with_home slot false (λ state.
      let state' = purge_expired state now in
      let sequence = state'.sequence + 1 in
      if is_active_in state' request.session_id
        && may_reserve (get text_dec request.session_id state'.current_turns) request.turn_id
            request.owner_token
        && not (contains text_dec request.turn_id state'.plans)
      then (
        ok true,
        some (record state' {
          sequence = sequence;
          plans =
              put text_dec request.turn_id (reservation digest request now sequence) state'.plans;
        }),
      )
      else (ok false, some state'))
    else refused MailboxError.value_error slot

abbrev pub in_time : Option ℕ → ℕ → Bool
in_time none now = true
in_time (some limit) now = ltb now limit

-- Whether a stored plan is still open for publication by this owner in this mode.
abbrev pub publishable : StoredPlan → PlanMode → Option Text → ℕ → Bool
publishable plan mode owner_token now =
    not (is_some plan.action)
    && same_mode plan.mode mode
    && same_token plan.owner_token owner_token
    && in_time plan.publish_before now

-- `finalize`, behind the purge.
unfoldable pub publish_plan :
    HomeState → ℕ → Text → PlanMode → PlanAction → Option Text → Option Text → Outcome Bool
publish_plan state now turn_id mode action rewritten_query owner_token =
    elim (get text_dec turn_id state.plans) [
      | none ↦ (ok false, some state)
      | some plan ↦
          if publishable plan mode owner_token now
          then (
            ok true,
            some (record state {
              plans =
                  put text_dec turn_id
                    (record plan { action = some action; rewritten_query = rewritten_query })
                    state.plans;
            }),
          )
          else (ok false, some state)
    ]

unfoldable pub finalize :
    Text → PlanMode → PlanAction → Option Text → Option Text → ℕ → Option HomeState → Outcome Bool
unfolding valid_action publish_plan
finalize turn_id mode action rewritten_query owner_token now slot =
    if non_empty turn_id && valid_action action rewritten_query
    then with_home slot false (λ state.
      publish_plan (purge_expired state now) now turn_id mode action rewritten_query owner_token)
    else refused MailboxError.value_error slot

-- What `cancel` leaves of a plan: nothing, or the correlation of an evaluated one.
abbrev pub cancelled : HomeState → Text → StoredPlan → HomeState
cancelled state turn_id plan = record state {
  plans = elim plan.evaluation_id [
    | none ↦ pop text_dec turn_id state.plans
    | some _ ↦
        put text_dec turn_id
          (record plan { action = none; rewritten_query = none; publish_before = some 0 })
          state.plans
  ];
}

-- `cancel` of an existing home.
unfoldable pub cancel_plan : HomeState → Text → Option Text → Option HomeState
cancel_plan state turn_id owner_token = elim (get text_dec turn_id state.plans) [
  | none ↦ drop_empty_home state
  | some plan ↦
      drop_empty_home
        (if same_token plan.owner_token owner_token then cancelled state turn_id plan else state)
]

unfoldable pub cancel : Text → Option Text → Option HomeState → Outcome (Unit {0})
unfolding cancel_plan
cancel turn_id owner_token slot =
    if non_empty turn_id
    then with_home slot tt (λ state. (ok tt, cancel_plan state turn_id owner_token))
    else refused MailboxError.value_error slot

unfoldable pub clear_session_plans : Text → Option HomeState → Outcome (Unit {0})
clear_session_plans session_id slot =
    if non_empty session_id
    then with_home slot tt (λ state. (ok tt, drop_empty_home (clear_session state session_id true)))
    else refused MailboxError.value_error slot

unfoldable pub purge_stale : ℕ → Option HomeState → Outcome (Unit {0})
purge_stale now slot =
    with_home slot tt (λ state. (ok tt, drop_empty_home (purge_expired state now)))
