-- ===== src/Sender/Loop.antt =====
-- The loops of `_run` and `_run_as_owner` in better_hermes_hindsight/runtime.py, one turn at a time.
use better_hermes_hindsight.Common.{
  ℕ, ◌-◌, true, false, List, [], ◌∷◌, Option, none, some, if◌then◌else◌, codes, min,
}
use better_hermes_hindsight.Outbox.Types.{OutboxRow, ProfileLockStatus, OutboxClaimStatus}
use better_hermes_hindsight.Outbox.Lock.{ProfileLockOwner, try_acquire_profile_lock}
use better_hermes_hindsight.Outbox.Claims.{recover_sending, claim_due, next_matching_retry_deadline}
use better_hermes_hindsight.Sender.{SenderAction, Place, OutboxSender, Moment, receive, did, hear}
use better_hermes_hindsight.Sender.Deliver.{is_applied, pause, leave, deliver_claim, fail_delivery}

-- The owner that `_run` goes on with.
abbrev pub granted_owner : ProfileLockStatus → Option ProfileLockOwner → Option ProfileLockOwner
granted_owner ProfileLockStatus.acquired owner = owner
granted_owner _ owner = none

abbrev pub note_unavailable : ProfileLockStatus → OutboxSender → OutboxSender
note_unavailable ProfileLockStatus.local_failure s =
    did (SenderAction.loop_event (codes "ownership_unavailable")) s
note_unavailable _ s = s

-- The `try` of `_run`: recovery, before the loop of the owner.
unfoldable pub begin_owning : OutboxSender → ProfileLockOwner → Moment → OutboxSender
begin_owning s owner m =
    let (recovery, box) = recover_sending s.outbox owner m.now m.env in
    let recovered = record s { outbox = box } in
    if is_applied recovery.status
    then record recovered { place = Place.owning owner }
    else leave (did (SenderAction.loop_event (codes "recovery_failed")) recovered) owner true m

unfoldable pub after_acquisition :
    OutboxSender → Moment → ProfileLockStatus → Option ProfileLockOwner → OutboxSender
after_acquisition s m status none = pause (note_unavailable status s) m
after_acquisition s m status (some owner) =
    begin_owning (did (SenderAction.acquired owner) s) owner m

-- One turn of the loop of `_run`, up to the loop of the owner.
unfoldable pub seek_turn : OutboxSender → Moment → OutboxSender
seek_turn s m =
    let heard = hear m.stop_first s in
    if heard.stop_requested
    then record heard { place = Place.ended }
    else let acquisition = try_acquire_profile_lock heard.outbox m.lock in
      after_acquisition heard m acquisition.status
        (granted_owner acquisition.status acquisition.owner)

abbrev pub wait_timeout : ℕ → ℕ → Option ℕ → ℕ
wait_timeout poll_interval now none = poll_interval
wait_timeout poll_interval now (some deadline) = min poll_interval (deadline - now)

-- The wait for the deadline that was read; the reading may have raised.
unfoldable pub after_deadline :
    OutboxSender → ProfileLockOwner → Moment → Option (Option ℕ) → OutboxSender
after_deadline s owner m none =
    leave (did (SenderAction.loop_event (codes "retry_deadline_failed")) s) owner true m
after_deadline s owner m (some deadline) =
    record (did (SenderAction.waited (wait_timeout s.poll_interval m.wait_from deadline)) s) {
      place = Place.owning owner;
    }

-- Nothing is due.
unfoldable pub wait_deadline : OutboxSender → ProfileLockOwner → Moment → OutboxSender
wait_deadline s owner m =
    after_deadline s owner m (next_matching_retry_deadline s.outbox m.deadline_fault)

-- What the owner does with the claim.
unfoldable pub after_claim :
    OutboxSender → ProfileLockOwner → Moment → OutboxClaimStatus → Option OutboxRow → OutboxSender
unfolding wait_deadline deliver_claim
after_claim s owner m OutboxClaimStatus.local_failure row =
    leave (did (SenderAction.loop_event (codes "claim_failed")) s) owner true m
after_claim s owner m OutboxClaimStatus.empty row = wait_deadline s owner m
after_claim s owner m OutboxClaimStatus.claimed none = wait_deadline s owner m
after_claim s owner m OutboxClaimStatus.claimed (some row) = deliver_claim s owner row m

-- `_claim_if_running`, and the rest of the turn.
unfoldable pub claim_turn : OutboxSender → ProfileLockOwner → Moment → OutboxSender
claim_turn s owner m =
    let heard = hear m.stop_third s in
    if heard.stop_requested
    then leave heard owner false m
    else let (claim, box) = claim_due heard.outbox owner m.now m.env in
      after_claim (record heard { outbox = box }) owner m claim.status claim.row

-- One turn of the loop of `_run_as_owner`.
unfoldable pub owner_turn : OutboxSender → ProfileLockOwner → Moment → OutboxSender
owner_turn s owner m =
    let heard = hear m.stop_first s in
    if heard.stop_requested
    then leave heard owner false m
    else let again = hear m.stop_second (record heard { wake_set = false }) in
      if again.stop_requested
      then leave again owner false m
      else if m.settled
      then claim_turn again owner m
      else record again { place = Place.settling owner }

-- One poll of `_wait_for_runner_settlement(stop_sensitive=True)`.
unfoldable pub settle_turn : OutboxSender → ProfileLockOwner → Moment → OutboxSender
settle_turn s owner m =
    if m.settled
    then record s { place = Place.owning owner }
    else let heard = hear m.stop_first s in
      if heard.stop_requested then leave heard owner false m else heard

-- One turn, by the place of the thread. The last is `_wait_for_runner_settlement(stop_sensitive=False)`.
abbrev pub turn_at : Place → OutboxSender → Moment → OutboxSender
turn_at Place.seeking s m = seek_turn s m
turn_at Place.ended s m = s
turn_at (Place.owning owner) s m = owner_turn s owner m
turn_at (Place.settling owner) s m = settle_turn s owner m
turn_at (Place.draining owner row category reason) s m =
    if m.settled then fail_delivery s owner row category reason m else hear m.stop_first s

unfoldable pub thread_turn : OutboxSender → Moment → OutboxSender
thread_turn s m = turn_at s.place (receive m.arrivals s) m

-- `_run`, through the moments that it meets.
unfoldable pub run : List Moment → OutboxSender → OutboxSender
unfolding thread_turn
run [] s = s
run (m ∷ later) s = run later (thread_turn s m)
