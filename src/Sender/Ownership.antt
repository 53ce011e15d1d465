-- ===== src/Sender/Ownership.antt =====
-- The hold of the profile lock by `OutboxSender` of better_hermes_hindsight/runtime.py.
use better_hermes_hindsight.Common.{
  ℕ, ◌≡◌, refl, List, [], ◌∷◌, Option, none, some, ◌∙◌, ap, sym, arith, true, false, Text, Bool,
  if◌then◌else◌,
}
use better_hermes_hindsight.Outbox.Types.{
  OutboxRow, OutboxFailureCategory, ProfileLockStatus, OutboxClaimStatus,
}
use better_hermes_hindsight.Outbox.Lock.{ProfileLockOwner}
use better_hermes_hindsight.Sender.{
  ClientResponse, SenderAction, Place, OutboxSender, Moment, receive, hear,
}
use better_hermes_hindsight.Sender.Deliver.{
  pause, leave, after_transition, finish_delivery, fail_delivery, respond, deliver_claim,
}
use better_hermes_hindsight.Sender.Loop.{
  begin_owning, after_acquisition, note_unavailable, seek_turn, after_deadline, wait_deadline,
  after_claim, claim_turn, owner_turn, settle_turn, turn_at, thread_turn, run,
}

-- The owner that the trace leaves unreleased.
unfoldable pub lock_held : List SenderAction → Option ProfileLockOwner
lock_held [] = none
lock_held (SenderAction.acquired owner ∷ trace) = some owner
lock_held (SenderAction.released owner ∷ trace) = none
lock_held (SenderAction.retained segment response ∷ trace) = lock_held trace
lock_held (SenderAction.loop_event outcome ∷ trace) = lock_held trace
lock_held (SenderAction.attempted attempt outcome reason delay ∷ trace) = lock_held trace
lock_held (SenderAction.waited timeout ∷ trace) = lock_held trace

abbrev pub owner_at : Place → Option ProfileLockOwner
owner_at Place.seeking = none
owner_at Place.ended = none
owner_at (Place.owning owner) = some owner
owner_at (Place.settling owner) = some owner
owner_at (Place.draining owner row category reason) = some owner

-- The lock is held exactly where the thread has an owner.
abbrev pub HoldsLock : OutboxSender → Type 0
HoldsLock s = lock_held s.trace ≡ owner_at s.place

leave-HoldsLock :
    (s : OutboxSender) (owner : ProfileLockOwner) (lost : Bool) (m : Moment)
    → HoldsLock (leave s owner lost m)
unfolding leave pause hear lock_held
leave-HoldsLock s owner lost m = ground arith

fail_delivery-HoldsLock :
    (s : OutboxSender) (owner : ProfileLockOwner) (row : OutboxRow)
    (category : OutboxFailureCategory) (reason : Text) (m : Moment)
    → lock_held s.trace ≡ some owner
    → HoldsLock (fail_delivery s owner row category reason m)
unfolding fail_delivery after_transition leave pause hear lock_held
fail_delivery-HoldsLock s owner row category reason m h = ground arith

pause-HoldsLock : (s : OutboxSender) (m : Moment) → HoldsLock s → HoldsLock (pause s m)
unfolding pause hear lock_held
pause-HoldsLock s m h = ground arith

finish_delivery-HoldsLock :
    (s : OutboxSender) (owner : ProfileLockOwner) (row : OutboxRow) (m : Moment)
    → lock_held s.trace ≡ some owner
    → HoldsLock (finish_delivery s owner row m)
unfolding finish_delivery after_transition leave pause hear lock_held
finish_delivery-HoldsLock s owner row m h = ground arith

respond-HoldsLock :
    (s : OutboxSender) (owner : ProfileLockOwner) (row : OutboxRow) (m : Moment)
    (response : ClientResponse)
    → lock_held s.trace ≡ some owner
    → HoldsLock (respond s owner row m response)
unfolding respond
respond-HoldsLock s owner row m ClientResponse.unsettled h = h
respond-HoldsLock s owner row m ClientResponse.timed_out h = h
respond-HoldsLock s owner row m ClientResponse.confirmed h =
    finish_delivery-HoldsLock s owner row m h
respond-HoldsLock s owner row m ClientResponse.unconfirmed h =
    fail_delivery-HoldsLock s owner row _ _ m h
respond-HoldsLock s owner row m ClientResponse.cancelled h =
    fail_delivery-HoldsLock s owner row _ _ m h
respond-HoldsLock s owner row m ClientResponse.unexpected_error h =
    fail_delivery-HoldsLock s owner row _ _ m h
respond-HoldsLock s owner row m (ClientResponse.client_error reason) h =
    fail_delivery-HoldsLock s owner row _ _ m h

after_deadline-HoldsLock :
    (s : OutboxSender) (owner : ProfileLockOwner) (m : Moment) (deadline : Option (Option ℕ))
    → lock_held s.trace ≡ some owner
    → HoldsLock (after_deadline s owner m deadline)
unfolding after_deadline lock_held
after_deadline-HoldsLock s owner m none h = leave-HoldsLock _ owner true m
after_deadline-HoldsLock s owner m (some deadline) h = h

after_claim-HoldsLock :
    (s : OutboxSender) (owner : ProfileLockOwner) (m : Moment) (status : OutboxClaimStatus)
    (row : Option OutboxRow)
    → lock_held s.trace ≡ some owner
    → HoldsLock (after_claim s owner m status row)
unfolding after_claim wait_deadline deliver_claim lock_held
after_claim-HoldsLock s owner m OutboxClaimStatus.local_failure row h =
    leave-HoldsLock _ owner true m
after_claim-HoldsLock s owner m OutboxClaimStatus.empty row h =
    after_deadline-HoldsLock s owner m _ h
after_claim-HoldsLock s owner m OutboxClaimStatus.claimed none h =
    after_deadline-HoldsLock s owner m _ h
after_claim-HoldsLock s owner m OutboxClaimStatus.claimed (some row) h =
    respond-HoldsLock _ owner row m m.response h

either-HoldsLock :
    (b : Bool) (x y : OutboxSender) → HoldsLock x → HoldsLock y → HoldsLock (if b then x else y)
either-HoldsLock true x y h k = h
either-HoldsLock false x y h k = k

hear_held : (stop : Bool) (s : OutboxSender) → lock_held (hear stop s).trace ≡ lock_held s.trace
unfolding hear
hear_held true s = refl
hear_held false s = refl

hear-HoldsLock : (stop : Bool) (s : OutboxSender) → HoldsLock s → HoldsLock (hear stop s)
unfolding hear
hear-HoldsLock true s h = h
hear-HoldsLock false s h = h

claim_turn-HoldsLock :
    (s : OutboxSender) (owner : ProfileLockOwner) (m : Moment)
    → lock_held s.trace ≡ some owner
    → HoldsLock (claim_turn s owner m)
unfolding claim_turn
claim_turn-HoldsLock s owner m h =
    either-HoldsLock _ _ _ (leave-HoldsLock _ owner false m)
      (after_claim-HoldsLock _ owner m _ _ (hear_held m.stop_third s ∙ h))

owner_turn-HoldsLock :
    (s : OutboxSender) (owner : ProfileLockOwner) (m : Moment)
    → lock_held s.trace ≡ some owner
    → HoldsLock (owner_turn s owner m)
unfolding owner_turn
owner_turn-HoldsLock s owner m h =
    let quiet = record (hear m.stop_first s) { wake_set = false } in
    let held : lock_held (hear m.stop_second quiet).trace ≡ some owner =
      hear_held m.stop_second quiet ∙ hear_held m.stop_first s ∙ h in
    let heard = hear m.stop_first s in
    let again = hear m.stop_second quiet in
    either-HoldsLock heard.stop_requested (leave heard owner false m) _
      (leave-HoldsLock heard owner false m)
      (either-HoldsLock again.stop_requested (leave again owner false m) _
        (leave-HoldsLock again owner false m)
        (either-HoldsLock m.settled (claim_turn again owner m)
          (record again { place = Place.settling owner }) (claim_turn-HoldsLock again owner m held)
          held))

settle_turn-HoldsLock :
    (s : OutboxSender) (owner : ProfileLockOwner) (m : Moment)
    → s.place ≡ Place.settling owner
    → lock_held s.trace ≡ some owner
    → HoldsLock (settle_turn s owner m)
unfolding settle_turn
settle_turn-HoldsLock s owner m here h = either-HoldsLock m.settled _ _ h (
    either-HoldsLock _ _ _ (leave-HoldsLock _ owner false m)
      (hear-HoldsLock m.stop_first s (h ∙ sym (ap owner_at here))))

begin_owning-HoldsLock :
    (s : OutboxSender) (owner : ProfileLockOwner) (m : Moment)
    → lock_held s.trace ≡ some owner
    → HoldsLock (begin_owning s owner m)
unfolding begin_owning
begin_owning-HoldsLock s owner m h = either-HoldsLock _ _ _ h (leave-HoldsLock _ owner true m)

note_unavailable-HoldsLock :
    (status : ProfileLockStatus) (s : OutboxSender)
    → HoldsLock s
    → HoldsLock (note_unavailable status s)
unfolding lock_held
note_unavailable-HoldsLock ProfileLockStatus.local_failure s h = h
note_unavailable-HoldsLock ProfileLockStatus.acquired s h = h
note_unavailable-HoldsLock ProfileLockStatus.contended s h = h

after_acquisition-HoldsLock :
    (s : OutboxSender) (m : Moment) (status : ProfileLockStatus) (owner : Option ProfileLockOwner)
    → HoldsLock s
    → HoldsLock (after_acquisition s m status owner)
unfolding after_acquisition lock_held
after_acquisition-HoldsLock s m status none h =
    pause-HoldsLock (note_unavailable status s) m (note_unavailable-HoldsLock status s h)
after_acquisition-HoldsLock s m status (some owner) h = begin_owning-HoldsLock _ owner m refl

seek_turn-HoldsLock :
    (s : OutboxSender) (m : Moment)
    → s.place ≡ Place.seeking
    → HoldsLock s
    → HoldsLock (seek_turn s m)
unfolding seek_turn
seek_turn-HoldsLock s m here h =
    either-HoldsLock _ _ _ (hear_held m.stop_first s ∙ h ∙ ap owner_at here)
      (after_acquisition-HoldsLock _ m _ _ (hear-HoldsLock m.stop_first s h))

turn_at-HoldsLock :
    (place : Place) (s : OutboxSender) (m : Moment)
    → s.place ≡ place
    → HoldsLock s
    → HoldsLock (turn_at place s m)
turn_at-HoldsLock Place.seeking s m here h = seek_turn-HoldsLock s m here h
turn_at-HoldsLock Place.ended s m here h = h
turn_at-HoldsLock (Place.owning owner) s m here h =
    owner_turn-HoldsLock s owner m (h ∙ ap owner_at here)
turn_at-HoldsLock (Place.settling owner) s m here h =
    settle_turn-HoldsLock s owner m here (h ∙ ap owner_at here)
turn_at-HoldsLock (Place.draining owner row category reason) s m here h =
    either-HoldsLock m.settled _ _
      (fail_delivery-HoldsLock s owner row category reason m (h ∙ ap owner_at here))
      (hear-HoldsLock m.stop_first s h)

thread_turn-HoldsLock : (s : OutboxSender) (m : Moment) → HoldsLock s → HoldsLock (thread_turn s m)
unfolding thread_turn
thread_turn-HoldsLock s m h = turn_at-HoldsLock s.place (receive m.arrivals s) m refl h

-- The profile lock never leaks: whatever moments a sender meets that holds the lock exactly where its thread
-- has an owner, it does so afterwards. A thread that has ended, or seeks the lock, has released every
-- lock it was granted.
pub run-HoldsLock :
    (moments : List Moment) (s : OutboxSender) → HoldsLock s → HoldsLock (run moments s)
unfolding run
run-HoldsLock [] s h = h
run-HoldsLock (m ∷ later) s h = run-HoldsLock later (thread_turn s m) (thread_turn-HoldsLock s m h)
