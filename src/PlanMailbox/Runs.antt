-- ===== src/PlanMailbox/Runs.antt =====
-- The life of one home's entry in better_hermes_hindsight/plan_mailbox.py: any sequence of calls, each
-- under the registry's lock.
use better_hermes_hindsight.Common.{ℕ, ◌≡◌, Option, none, some, Text, text_dec, arith}
use better_hermes_hindsight.Common.Dict.{get}
use better_hermes_hindsight.PlanMailbox.State.{PlanMode, PlanAction, HomeState}
use better_hermes_hindsight.PlanMailbox.Turns.{
  activate, deactivate, rebind, is_active, begin_turn, reserve, Request, finalize, cancel,
  clear_session_plans, purge_stale,
}
use better_hermes_hindsight.PlanMailbox.Consume.{consume}
use better_hermes_hindsight.PlanMailbox.Invariant.{
  IsSlot, activate-IsSlot, deactivate-IsSlot, rebind-IsSlot, is_active-IsSlot,
}
use better_hermes_hindsight.PlanMailbox.Invariant.Turns.{
  begin_turn-IsSlot, reserve-IsSlot, finalize-IsSlot, cancel-IsSlot, clear_session_plans-IsSlot,
  purge_stale-IsSlot,
}
use better_hermes_hindsight.PlanMailbox.Invariant.Consume.{consume-IsSlot}
use better_hermes_hindsight.PlanMailbox.Ownership.{IsOwnedSlot}
use better_hermes_hindsight.PlanMailbox.Ownership.Handles.{
  activate-IsOwnedSlot, activate_first-IsOwnedSlot, deactivate-IsOwnedSlot, rebind-IsOwnedSlot,
  begin_turn-IsOwnedSlot,
}
use better_hermes_hindsight.PlanMailbox.Ownership.Plans.{
  reserve-IsOwnedSlot, finalize-IsOwnedSlot, cancel-IsOwnedSlot, clear_session_plans-IsOwnedSlot,
  purge_stale-IsOwnedSlot, is_active-IsOwnedSlot,
}
use better_hermes_hindsight.PlanMailbox.Ownership.Consume.{consume-IsOwnedSlot}

-- A token that `uuid4` makes is not one of the home's.
abbrev pub IsFresh : Option HomeState → Text → Type 0
IsFresh none token = Unit
IsFresh (some state) token = get text_dec token state.activations ≡ none

pub data Step (digest : Text → Text) : Option HomeState → Option HomeState → Type 0 where
  activates :
      (slot : Option HomeState) (session_id token : Text) (now : ℕ)
      → IsFresh slot token
      → Step digest slot (activate session_id token now slot).1
  deactivates :
      (slot : Option HomeState) (token : Text) (now : ℕ)
      → Step digest slot (deactivate token now slot).1
  rebinds :
      (slot : Option HomeState) (token new_session_id expected_parent : Text) (now : ℕ)
      → Step digest slot (rebind token new_session_id expected_parent now slot).1
  looks :
      (slot : Option HomeState) (session_id : Text) (now : ℕ)
      → Step digest slot (is_active session_id now slot).1
  begins :
      (slot : Option HomeState) (session_id turn_id parent owner_token : Text) (now : ℕ)
      → Step digest slot (begin_turn session_id turn_id parent owner_token now slot).1
  reserves :
      (slot : Option HomeState) (request : Request) (now : ℕ)
      → Step digest slot (reserve digest request now slot).1
  finalizes :
      (slot : Option HomeState) (turn_id : Text) (mode : PlanMode) (action : PlanAction)
      (rewritten_query owner_token : Option Text) (now : ℕ)
      → Step digest slot (finalize turn_id mode action rewritten_query owner_token now slot).1
  cancels :
      (slot : Option HomeState) (turn_id : Text) (owner_token : Option Text)
      → Step digest slot (cancel turn_id owner_token slot).1
  consumes :
      (slot : Option HomeState) (source_query session_id : Text) (now : ℕ)
      → Step digest slot (consume digest source_query session_id now slot).1
  clears :
      (slot : Option HomeState) (session_id : Text)
      → Step digest slot (clear_session_plans session_id slot).1
  purges : (slot : Option HomeState) (now : ℕ) → Step digest slot (purge_stale now slot).1

pub data Run (digest : Text → Text) : Option HomeState → Option HomeState → Type 0 where
  stay : (slot : Option HomeState) → Run digest slot slot
  then_step :
      {before middle after : Option HomeState}
      → Run digest before middle
      → Step digest middle after
      → Run digest before after

abbrev pub IsValid : Option HomeState → Type 0
IsValid slot = IsSlot slot × IsOwnedSlot slot

module _ (digest : Text → Text) where
  Step-IsSlot :
      {before after : Option HomeState} → Step digest before after → IsSlot before → IsSlot after
  Step-IsSlot (Step.activates slot session_id token now _) h =
      activate-IsSlot session_id token now slot h
  Step-IsSlot (Step.deactivates slot token now) h = deactivate-IsSlot token now slot h
  Step-IsSlot (Step.rebinds slot token new_session_id parent now) h =
      rebind-IsSlot token new_session_id parent now slot h
  Step-IsSlot (Step.looks slot session_id now) h = is_active-IsSlot session_id now slot h
  Step-IsSlot (Step.begins slot session_id turn_id parent owner now) h =
      begin_turn-IsSlot session_id turn_id parent owner now slot h
  Step-IsSlot (Step.reserves slot request now) h = reserve-IsSlot digest request now slot h
  Step-IsSlot (Step.finalizes slot turn_id mode action rewritten owner now) h =
      finalize-IsSlot turn_id mode action rewritten owner now slot h
  Step-IsSlot (Step.cancels slot turn_id owner) h = cancel-IsSlot turn_id owner slot h
  Step-IsSlot (Step.consumes slot source_query session_id now) h =
      consume-IsSlot digest source_query session_id now slot h
  Step-IsSlot (Step.clears slot session_id) h = clear_session_plans-IsSlot session_id slot h
  Step-IsSlot (Step.purges slot now) h = purge_stale-IsSlot now slot h

  Step-IsOwnedSlot :
      {before after : Option HomeState}
      → Step digest before after
      → IsValid before
      → IsOwnedSlot after
  unfolding deactivate rebind is_active begin_turn reserve finalize cancel consume
      clear_session_plans purge_stale
  Step-IsOwnedSlot (Step.activates (some state) session_id token now fresh) h =
      activate-IsOwnedSlot session_id token now state fresh h.1
  Step-IsOwnedSlot (Step.deactivates (some state) token now) h =
      deactivate-IsOwnedSlot token now state h.0.activations h.1
  Step-IsOwnedSlot (Step.rebinds (some state) token new_session_id parent now) h =
      rebind-IsOwnedSlot token new_session_id parent now state h.1
  Step-IsOwnedSlot (Step.looks (some state) session_id now) h =
      is_active-IsOwnedSlot session_id now state h.1
  Step-IsOwnedSlot (Step.begins (some state) session_id turn_id parent owner now) h =
      begin_turn-IsOwnedSlot session_id turn_id parent owner now state h.1
  Step-IsOwnedSlot (Step.reserves (some state) request now) h =
      reserve-IsOwnedSlot digest request now state h.1
  Step-IsOwnedSlot (Step.finalizes (some state) turn_id mode action rewritten owner now) h =
      finalize-IsOwnedSlot turn_id mode action rewritten owner now state h.1
  Step-IsOwnedSlot (Step.cancels (some state) turn_id owner) h =
      cancel-IsOwnedSlot turn_id owner state h.1
  Step-IsOwnedSlot (Step.consumes (some state) source_query session_id now) h =
      consume-IsOwnedSlot digest source_query session_id now state h.1
  Step-IsOwnedSlot (Step.clears (some state) session_id) h =
      clear_session_plans-IsOwnedSlot session_id state h.1
  Step-IsOwnedSlot (Step.purges (some state) now) h = purge_stale-IsOwnedSlot now state h.1
  Step-IsOwnedSlot (Step.activates none session_id token now fresh) h =
      activate_first-IsOwnedSlot session_id token now
  Step-IsOwnedSlot (Step.deactivates none token now) h = ground arith
  Step-IsOwnedSlot (Step.rebinds none token new_session_id parent now) h = ground arith
  Step-IsOwnedSlot (Step.looks none session_id now) h = ground arith
  Step-IsOwnedSlot (Step.begins none session_id turn_id parent owner now) h = ground arith
  Step-IsOwnedSlot (Step.reserves none request now) h = ground arith
  Step-IsOwnedSlot (Step.finalizes none turn_id mode action rewritten owner now) h = ground arith
  Step-IsOwnedSlot (Step.cancels none turn_id owner) h = ground arith
  Step-IsOwnedSlot (Step.consumes none source_query session_id now) h = ground arith
  Step-IsOwnedSlot (Step.clears none session_id) h = ground arith
  Step-IsOwnedSlot (Step.purges none now) h = ground arith

  -- Whatever calls follow one another from a valid entry of the home, one that does not exist among them,
  -- the entry stays valid: its mappings are dictionaries, no plan has a sequence number that is still to
  -- be given, and every stored plan, current turn and closed turn belongs to a session that has an active
  -- provider handle, so that none of these is left behind when the last handle of a session is released or
  -- moves on. The digest is any function, and the token of an activation is a fresh one.
  pub Run-IsValid :
      {before after : Option HomeState} → Run digest before after → IsValid before → IsValid after
  Run-IsValid (Run.stay slot) h = h
  Run-IsValid (Run.then_step run step) h =
      let middle = Run-IsValid run h in (Step-IsSlot step middle.0, Step-IsOwnedSlot step middle)
