-- ===== src/PlanMailbox/Examples.antt =====
-- A small home: what the mailbox does on concrete inputs, and instances of the theorems about it.
use better_hermes_hindsight.Common.{
  false, ◌<◌, ◌≡◌, refl, ◌≢◌, true, [], ◌∷◌, Option, none, some, Text, text_dec, codes, arith, keep,
  any, ℕ_discrete,
}
use better_hermes_hindsight.Common.Dict.{get, put, pop}
use better_hermes_hindsight.PlanMailbox.State.{
  PlanMode, PlanAction, RecallPlan, StoredPlan, HomeState, ok, turn_dec, mode_dec, is_active_in,
  purge_expired, clear_session, drop_empty_home, resolve_active_session, valid_action,
}
use better_hermes_hindsight.PlanMailbox.Turns.{
  activate, deactivate, release_activation, rebind, move_activation, begin_turn, open_turn,
  adopt_parent, start_turn, reserve, Request, Timeout, finalize, publish_plan, cancel, cancel_plan,
}
use better_hermes_hindsight.PlanMailbox.Consume.{
  consume, consume_in, consume_resolved, candidates, close_turn, take_newest, newest, newest_from,
  pop_all,
}
use better_hermes_hindsight.PlanMailbox.Invariant.{IsHome}
use better_hermes_hindsight.PlanMailbox.Runs.{Step, Run, IsValid, Run-IsValid}
use better_hermes_hindsight.PlanMailbox.Handoff.{IsHandedOver, consume-IsHandedOver}
use better_hermes_hindsight.PlanMailbox.Fencing.{reserve-fenced, begin_turn-fenced}
use better_hermes_hindsight.PlanMailbox.Meanwhile.{Meanwhile}
use better_hermes_hindsight.Common.Dict.{contains}
use better_hermes_hindsight.PlanMailbox.Beginning.{Starts, begin_turn-Starts}
use better_hermes_hindsight.PlanMailbox.RoundTrip.{reserve-finalize-consume}

abbrev handle : Text
handle = codes "h"

abbrev session : Text
session = codes "s"

abbrev turn : Text
turn = codes "t"

abbrev worker : Text
worker = codes "w"

abbrev query : Text
query = codes "what?"

-- The digest of a text is the text.
abbrev digest : Text → Text
digest s = s

abbrev plan : StoredPlan
plan = record {
  sequence = 1;
  query_digest = query;
  query_length = 5;
  session_id = session;
  mode = PlanMode.active;
  expires_at = 100;
  owner_token = some worker;
  evaluation_id = some (codes "e");
  publish_before = none;
  action = some PlanAction.skip;
  rewritten_query = none;
}

abbrev home : HomeState
home = record {
  activations = (handle, session) ∷ [];
  closed_turns = [];
  current_turns = (session, (turn, worker)) ∷ [];
  plans = [];
  redirects = [];
  sequence = 0;
}

abbrev home_with_plan : HomeState
home_with_plan = record home { plans = (turn, plan) ∷ []; sequence = 1 }

abbrev request : Request
request = record {
  source_query = query;
  session_id = session;
  turn_id = turn;
  mode = PlanMode.active;
  evaluation_id = none;
  timeout = Timeout.within 5;
  owner_token = some worker;
}

abbrev given : RecallPlan
given = record {
  mode = PlanMode.active;
  action = PlanAction.skip;
  rewritten_query = none;
  turn_id = turn;
}

mailbox : Unit {0}
unfolding text_dec ℕ_discrete turn_dec mode_dec get put pop keep any is_active_in purge_expired
    clear_session drop_empty_home resolve_active_session valid_action activate deactivate
    release_activation rebind move_activation begin_turn open_turn adopt_parent start_turn reserve
    finalize publish_plan cancel cancel_plan consume consume_in consume_resolved candidates
    close_turn take_newest newest newest_from pop_all
mailbox = tt

home-IsHome : IsHome home
unfolding mailbox
home-IsHome = record {
  activations = (refl, tt);
  closed_turns = tt;
  current_turns = (refl, tt);
  plans = tt;
  redirects = tt;
  bounded = tt;
}

home_with_plan-IsHome : IsHome home_with_plan
unfolding mailbox
home_with_plan-IsHome = record {
  activations = (refl, tt);
  closed_turns = tt;
  current_turns = (refl, tt);
  plans = (refl, tt);
  redirects = tt;
  bounded = (omega arith, tt);
}

abbrev once_activated : Option HomeState
once_activated = (activate session handle 10 none).1

abbrev in_a_turn : Option HomeState
in_a_turn = (begin_turn session turn [] worker 11 once_activated).1

begins_a_turn : in_a_turn ≡ some home
unfolding mailbox
begins_a_turn = refl

hands_over :
    (consume digest query session 20 (some home_with_plan)).0 ≡ ok (some given, some (codes "e"))
unfolding mailbox
hands_over = refl

no_second_plan :
    (consume digest query session 21 (consume digest query session 20 (some home_with_plan)).1).0
    ≡ ok (none, none)
unfolding mailbox
no_second_plan = refl

too_late : (consume digest query session 100 (some home_with_plan)).0 ≡ ok (none, none)
unfolding mailbox
too_late = refl

last_handle_takes_all : (deactivate handle 20 (some home_with_plan)).1 ≡ none
unfolding mailbox
last_handle_takes_all = refl

-- A child session that continues the turn of its parent is reached under the parent's name too.
abbrev child_published : Option HomeState
child_published =
    (finalize turn PlanMode.active PlanAction.skip none (some worker) 15
      (reserve digest (record request { session_id = codes "child" }) 14
        (begin_turn (codes "child") turn session worker 13 once_activated).1).1).1

child_takes_over : (consume digest query session 16 child_published).0 ≡ ok (some given, none)
unfolding mailbox
child_takes_over = refl

Run-IsValid_example : IsValid in_a_turn
unfolding mailbox
Run-IsValid_example =
    Run-IsValid digest
      (Run.then_step (Run.then_step (Run.stay none) (Step.activates none session handle 10 tt))
        (Step.begins once_activated session turn [] worker 11))
      (tt, tt)

consume-IsHandedOver_example :
    (handed : IsHandedOver digest query home_with_plan given
      (some (codes "e"))
      (consume digest query session 20 (some home_with_plan)).1)
    × (20 < handed.stored.expires_at)
unfolding mailbox
consume-IsHandedOver_example =
    consume-IsHandedOver digest query session 20 home_with_plan given (some (codes "e"))
      home_with_plan-IsHome refl

-- The session's next turn has begun.
abbrev next_turn : Option HomeState
next_turn =
    (begin_turn session (codes "u") [] (codes "w2") 21
      (consume digest query session 20 (some home)).1).1

begins_next :
    Meanwhile digest session 20 10_000_020 (consume digest query session 20 (some home)).1 next_turn
begins_next =
    Meanwhile.begins session (codes "u") [] (codes "w2") 21 (Meanwhile.stay _) (λ e. cc)
      (omega arith)

reserve-fenced_example : (reserve digest request 22 next_turn).0 ≢ ok true
unfolding is_active_in any text_dec get
reserve-fenced_example =
    reserve-fenced digest query session turn worker 20 home home-IsHome refl refl refl begins_next
      request worker 22 refl refl refl

begin_turn-fenced_example :
    (begin_turn session turn [] (codes "w3") 22 next_turn).0 ≢ ok (some (codes "w3"))
unfolding is_active_in any text_dec get
begin_turn-fenced_example =
    begin_turn-fenced digest query session turn worker 20 home home-IsHome refl refl refl
      begins_next [] (codes "w3") (codes "w3") 22 (omega arith)

reserve-finalize-consume_example :
    ((reserve digest request 20 (some home)).0 ≡ ok true)
    × (((finalize turn PlanMode.active PlanAction.skip none
            (some worker)
            22
            (reserve digest request 20 (some home)).1).0
          ≡ ok true)
        × ((consume digest query session 23
              (finalize turn PlanMode.active PlanAction.skip none
                (some worker)
                22
                (reserve digest request 20 (some home)).1).1).0
            ≡ ok (some given, none)))
unfolding mailbox
reserve-finalize-consume_example =
    reserve-finalize-consume digest request worker PlanAction.skip none 20 22 23 home
      (record { home = home-IsHome; active = refl; current = refl; found = refl }) refl refl refl
      refl (omega arith) (omega arith)

begin_turn-Starts_example :
    (contains turn_dec (codes "child", turn) (purge_expired home_with_plan 20).closed_turns ≡ false)
    × Starts
        (codes "child")
        turn
        (codes "w2")
        (codes "w2")
        (begin_turn (codes "child") turn session (codes "w2") 20 (some home_with_plan)).1
unfolding mailbox
begin_turn-Starts_example =
    begin_turn-Starts (codes "child") turn session (codes "w2") (codes "w2") 20 home_with_plan refl
