-- ===== src/PlanMailbox/Meanwhile.antt =====
-- The calls that leave a session of better_hermes_hindsight/plan_mailbox.py alone until the fence of its
-- closed turn runs out.
use better_hermes_hindsight.Common.{ℕ, ◌+◌, ◌≤◌, ◌<◌, ◌≢◌, Option, Text, arith}
use better_hermes_hindsight.PlanMailbox.State.{PlanMode, PlanAction, HomeState, plan_max_age}
use better_hermes_hindsight.PlanMailbox.Turns.{
  activate, deactivate, is_active, begin_turn, reserve, Request, finalize, cancel,
  clear_session_plans, purge_stale,
}
use better_hermes_hindsight.PlanMailbox.Consume.{consume}
use better_hermes_hindsight.PlanMailbox.Invariant.{
  IsSlot, activate-IsSlot, deactivate-IsSlot, is_active-IsSlot,
}
use better_hermes_hindsight.PlanMailbox.Invariant.Turns.{
  begin_turn-IsSlot, reserve-IsSlot, finalize-IsSlot, cancel-IsSlot, clear_session_plans-IsSlot,
  purge_stale-IsSlot,
}
use better_hermes_hindsight.PlanMailbox.Invariant.Consume.{consume-IsSlot}
use better_hermes_hindsight.PlanMailbox.Fenced.{FencedSlot, Elsewhere}
use better_hermes_hindsight.PlanMailbox.Fenced.Beginning.{begin_turn-FencedSlot}
use better_hermes_hindsight.PlanMailbox.Fenced.Consumption.{consume-FencedSlot}
use better_hermes_hindsight.PlanMailbox.Fenced.Calls.{
  activate-FencedSlot, is_active-FencedSlot, reserve-FencedSlot, finalize-FencedSlot,
  cancel-FencedSlot, purge_stale-FencedSlot, deactivate-FencedSlot, clear_session_plans-FencedSlot,
}

-- Any calls but `rebind`, of any workers and sessions, from the time `since` to before `until`, except
-- those that forget the session's turns: a release of one of its handles, a clearing of it, and the
-- beginning of a turn that takes it over as its parent.
pub data Meanwhile (digest : Text → Text) (session_id : Text) (since until : ℕ)
    : Option HomeState → Option HomeState → Type 0 where
  stay : (slot : Option HomeState) → Meanwhile digest session_id since until slot slot
  activates :
      {before slot : Option HomeState} (session token : Text) (now : ℕ)
      → Meanwhile digest session_id since until before slot
      → now < until
      → Meanwhile digest session_id since until before (activate session token now slot).1
  deactivates :
      {before slot : Option HomeState} (token : Text) (now : ℕ)
      → Meanwhile digest session_id since until before slot
      → Elsewhere session_id token slot
      → now < until
      → Meanwhile digest session_id since until before (deactivate token now slot).1
  looks :
      {before slot : Option HomeState} (session : Text) (now : ℕ)
      → Meanwhile digest session_id since until before slot
      → now < until
      → Meanwhile digest session_id since until before (is_active session now slot).1
  begins :
      {before slot : Option HomeState} (session turn parent token : Text) (now : ℕ)
      → Meanwhile digest session_id since until before slot
      → parent ≢ session_id
      → now < until
      → Meanwhile digest session_id since until before
          (begin_turn session turn parent token now slot).1
  reserves :
      {before slot : Option HomeState} (request : Request) (now : ℕ)
      → Meanwhile digest session_id since until before slot
      → now < until
      → Meanwhile digest session_id since until before (reserve digest request now slot).1
  finalizes :
      {before slot : Option HomeState} (turn : Text) (mode : PlanMode) (action : PlanAction)
      (rewritten_query owner_token : Option Text) (now : ℕ)
      → Meanwhile digest session_id since until before slot
      → now < until
      → Meanwhile digest session_id since until before
          (finalize turn mode action rewritten_query owner_token now slot).1
  cancels :
      {before slot : Option HomeState} (turn : Text) (owner_token : Option Text)
      → Meanwhile digest session_id since until before slot
      → Meanwhile digest session_id since until before (cancel turn owner_token slot).1
  consumes :
      {before slot : Option HomeState} (source_query session : Text) (now : ℕ)
      → Meanwhile digest session_id since until before slot
      → since ≤ now
      → now < until
      → Meanwhile digest session_id since until before
          (consume digest source_query session now slot).1
  clears :
      {before slot : Option HomeState} (other : Text)
      → Meanwhile digest session_id since until before slot
      → other ≢ session_id
      → Meanwhile digest session_id since until before (clear_session_plans other slot).1
  purges :
      {before slot : Option HomeState} (now : ℕ)
      → Meanwhile digest session_id since until before slot
      → now < until
      → Meanwhile digest session_id since until before (purge_stale now slot).1

module _ (digest : Text → Text) (session_id turn_id : Text) (since until : ℕ) (positive : 0 < until)
    (within : until ≤ since + plan_max_age) where
  pub Meanwhile-IsSlot :
      {before after : Option HomeState}
      → IsSlot before
      → Meanwhile digest session_id since until before after
      → IsSlot after
  Meanwhile-IsSlot h (Meanwhile.stay slot) = h
  Meanwhile-IsSlot h (Meanwhile.activates session token now m _) =
      activate-IsSlot session token now _ (Meanwhile-IsSlot h m)
  Meanwhile-IsSlot h (Meanwhile.deactivates token now m _ _) =
      deactivate-IsSlot token now _ (Meanwhile-IsSlot h m)
  Meanwhile-IsSlot h (Meanwhile.looks session now m _) =
      is_active-IsSlot session now _ (Meanwhile-IsSlot h m)
  Meanwhile-IsSlot h (Meanwhile.begins session turn parent token now m _ _) =
      begin_turn-IsSlot session turn parent token now _ (Meanwhile-IsSlot h m)
  Meanwhile-IsSlot h (Meanwhile.reserves request now m _) =
      reserve-IsSlot digest request now _ (Meanwhile-IsSlot h m)
  Meanwhile-IsSlot h (Meanwhile.finalizes turn mode action rewritten owner now m _) =
      finalize-IsSlot turn mode action rewritten owner now _ (Meanwhile-IsSlot h m)
  Meanwhile-IsSlot h (Meanwhile.cancels turn owner m) =
      cancel-IsSlot turn owner _ (Meanwhile-IsSlot h m)
  Meanwhile-IsSlot h (Meanwhile.consumes source_query session now m _ _) =
      consume-IsSlot digest source_query session now _ (Meanwhile-IsSlot h m)
  Meanwhile-IsSlot h (Meanwhile.clears other m _) =
      clear_session_plans-IsSlot other _ (Meanwhile-IsSlot h m)
  Meanwhile-IsSlot h (Meanwhile.purges now m _) = purge_stale-IsSlot now _ (Meanwhile-IsSlot h m)

  -- A fenced turn stays fenced.
  pub Meanwhile-FencedSlot :
      {before after : Option HomeState}
      → IsSlot before
      → FencedSlot session_id turn_id until before
      → Meanwhile digest session_id since until before after
      → FencedSlot session_id turn_id until after
  Meanwhile-FencedSlot h f (Meanwhile.stay slot) = f
  Meanwhile-FencedSlot h f (Meanwhile.activates session token now m early) =
      activate-FencedSlot session_id turn_id until session token now _ (Meanwhile-IsSlot h m) early
        (Meanwhile-FencedSlot h f m)
  Meanwhile-FencedSlot h f (Meanwhile.deactivates token now m elsewhere early) =
      deactivate-FencedSlot session_id turn_id until token now _ (Meanwhile-IsSlot h m) elsewhere
        early (Meanwhile-FencedSlot h f m)
  Meanwhile-FencedSlot h f (Meanwhile.looks session now m early) =
      is_active-FencedSlot session_id turn_id until session now _ (Meanwhile-IsSlot h m) early
        (Meanwhile-FencedSlot h f m)
  Meanwhile-FencedSlot h f (Meanwhile.begins session turn parent token now m differs early) =
      begin_turn-FencedSlot session_id turn_id until session turn parent token now _
        (Meanwhile-IsSlot h m) differs early (Meanwhile-FencedSlot h f m)
  Meanwhile-FencedSlot h f (Meanwhile.reserves request now m early) =
      reserve-FencedSlot session_id turn_id until digest request now _ (Meanwhile-IsSlot h m) early
        (Meanwhile-FencedSlot h f m)
  Meanwhile-FencedSlot h f (Meanwhile.finalizes turn mode action rewritten owner now m early) =
      finalize-FencedSlot session_id turn_id until turn mode action rewritten owner now _
        (Meanwhile-IsSlot h m) early (Meanwhile-FencedSlot h f m)
  Meanwhile-FencedSlot h f (Meanwhile.cancels turn owner m) =
      cancel-FencedSlot session_id turn_id until turn owner _ positive (Meanwhile-FencedSlot h f m)
  Meanwhile-FencedSlot h f (Meanwhile.consumes source_query session now m after early) =
      consume-FencedSlot session_id turn_id until digest source_query session now _
        (Meanwhile-IsSlot h m) early (omega arith) (Meanwhile-FencedSlot h f m)
  Meanwhile-FencedSlot h f (Meanwhile.clears other m differs) =
      clear_session_plans-FencedSlot session_id turn_id until other _ (Meanwhile-IsSlot h m) differs
        positive (Meanwhile-FencedSlot h f m)
  Meanwhile-FencedSlot h f (Meanwhile.purges now m early) =
      purge_stale-FencedSlot session_id turn_id until now _ (Meanwhile-IsSlot h m) early
        (Meanwhile-FencedSlot h f m)
