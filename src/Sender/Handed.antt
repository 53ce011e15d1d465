-- ===== src/Sender/Handed.antt =====
-- Which turns of the sender thread of better_hermes_hindsight/runtime.py hand a segment to the client.
use better_hermes_hindsight.Common.{
  ℕ, ◌+◌, ◌≤◌, ◌≡◌, refl, ap, List, [], ◌∷◌, arith, true, length, Bool, false, Option, none, some,
  Text, if◌then◌else◌, codes,
}
use better_hermes_hindsight.Outbox.Types.{
  OutboxRow, OutboxFailureCategory, OutboxClaimStatus, ProfileLockStatus,
}
use better_hermes_hindsight.Outbox.Lock.{ProfileLockOwner, release, try_acquire_profile_lock}
use better_hermes_hindsight.Outbox.Claims.{recover_sending, claim_due, next_matching_retry_deadline}
use better_hermes_hindsight.Sender.{
  RetainSegment, SenderAction, Place, OutboxSender, Moment, receive, hear, request_stop, did,
  ClientResponse,
}
use better_hermes_hindsight.Sender.Deliver.{
  is_applied, pause, leave, after_transition, fail_delivery, finish_delivery, respond,
  deliver_claim, retain_segment_of,
}
use better_hermes_hindsight.Sender.Loop.{
  seek_turn, owner_turn, settle_turn, turn_at, after_deadline, wait_deadline, after_claim,
  claim_turn, begin_owning, after_acquisition, note_unavailable, granted_owner,
}

-- The segments that the trace hands to the client.
unfoldable pub handed : List SenderAction → List RetainSegment
handed [] = []
handed (SenderAction.retained segment response ∷ trace) = segment ∷ handed trace
handed (SenderAction.acquired owner ∷ trace) = handed trace
handed (SenderAction.released owner ∷ trace) = handed trace
handed (SenderAction.loop_event outcome ∷ trace) = handed trace
handed (SenderAction.attempted attempt outcome reason delay ∷ trace) = handed trace
handed (SenderAction.waited timeout ∷ trace) = handed trace

-- Nothing but the call of the client in `_deliver_claim` hands a segment over.
handed-pause : (s : OutboxSender) (m : Moment) → handed (pause s m).trace ≡ handed s.trace
unfolding pause hear request_stop handed
handed-pause s m = ground arith

handed-leave :
    (s : OutboxSender) (owner : ProfileLockOwner) (lost : Bool) (m : Moment)
    → handed (leave s owner lost m).trace ≡ handed s.trace
unfolding leave handed
handed-leave s owner true m =
    handed-pause
      (did (SenderAction.released (release owner).0) (record s { place = Place.seeking })) m
handed-leave s owner false m = refl

handed-after_transition :
    (s : OutboxSender) (owner : ProfileLockOwner) (applied : Bool) (m : Moment)
    → handed (after_transition s owner applied m).trace ≡ handed s.trace
unfolding after_transition handed
handed-after_transition s owner true m = refl
handed-after_transition s owner false m =
    handed-leave (did (SenderAction.loop_event (codes "transition_failed")) s) owner true m

handed-fail_delivery :
    (s : OutboxSender) (owner : ProfileLockOwner) (row : OutboxRow)
    (category : OutboxFailureCategory) (reason : Text) (m : Moment)
    → handed (fail_delivery s owner row category reason m).trace ≡ handed s.trace
unfolding fail_delivery after_transition leave pause hear request_stop handed
handed-fail_delivery s owner row category reason m = ground arith

handed-finish_delivery :
    (s : OutboxSender) (owner : ProfileLockOwner) (row : OutboxRow) (m : Moment)
    → handed (finish_delivery s owner row m).trace ≡ handed s.trace
unfolding finish_delivery after_transition leave pause hear request_stop handed
handed-finish_delivery s owner row m = ground arith

handed-respond :
    (s : OutboxSender) (owner : ProfileLockOwner) (row : OutboxRow) (m : Moment)
    (response : ClientResponse)
    → handed (respond s owner row m response).trace ≡ handed s.trace
unfolding respond handed
handed-respond s owner row m ClientResponse.unsettled = refl
handed-respond s owner row m ClientResponse.timed_out = refl
handed-respond s owner row m (ClientResponse.client_error reason) =
    handed-fail_delivery s owner row _ reason m
handed-respond s owner row m ClientResponse.cancelled = handed-fail_delivery s owner row _ _ m
handed-respond s owner row m ClientResponse.unexpected_error =
    handed-fail_delivery s owner row _ _ m
handed-respond s owner row m ClientResponse.unconfirmed = handed-fail_delivery s owner row _ _ m
handed-respond s owner row m ClientResponse.confirmed = handed-finish_delivery s owner row m

-- At most one segment more has been handed over.
record OneMore (s s' : OutboxSender) : Type 0 where
  at_most : length (handed s'.trace) ≤ length (handed s.trace) + 1

OneMore-same : (s s' : OutboxSender) → handed s'.trace ≡ handed s.trace → OneMore s s'
OneMore-same s s' e = record { at_most = rw e (omega arith) }

handed-deliver_claim :
    (s : OutboxSender) (owner : ProfileLockOwner) (row : OutboxRow) (m : Moment)
    → OneMore s (deliver_claim s owner row m)
unfolding deliver_claim handed
handed-deliver_claim s owner row m =
    let sent =
      did (SenderAction.retained (retain_segment_of s row) m.response) (receive m.meanwhile s) in
    record { at_most = omega (arith, ap length (handed-respond sent owner row m m.response)) }

handed-after_deadline :
    (s : OutboxSender) (owner : ProfileLockOwner) (m : Moment) (deadline : Option (Option ℕ))
    → handed (after_deadline s owner m deadline).trace ≡ handed s.trace
unfolding after_deadline handed
handed-after_deadline s owner m none =
    handed-leave (did (SenderAction.loop_event (codes "retry_deadline_failed")) s) owner true m
handed-after_deadline s owner m (some deadline) = refl

handed-wait_deadline :
    (s : OutboxSender) (owner : ProfileLockOwner) (m : Moment)
    → handed (wait_deadline s owner m).trace ≡ handed s.trace
unfolding wait_deadline
handed-wait_deadline s owner m =
    handed-after_deadline s owner m (next_matching_retry_deadline s.outbox m.deadline_fault)

handed-after_claim :
    (s : OutboxSender) (owner : ProfileLockOwner) (m : Moment) (status : OutboxClaimStatus)
    (row : Option OutboxRow)
    → OneMore s (after_claim s owner m status row)
unfolding after_claim handed
handed-after_claim s owner m OutboxClaimStatus.local_failure row =
    OneMore-same s (leave (did (SenderAction.loop_event (codes "claim_failed")) s) owner true m)
      (handed-leave (did (SenderAction.loop_event (codes "claim_failed")) s) owner true m)
handed-after_claim s owner m OutboxClaimStatus.empty row =
    OneMore-same s (wait_deadline s owner m) (handed-wait_deadline s owner m)
handed-after_claim s owner m OutboxClaimStatus.claimed none =
    OneMore-same s (wait_deadline s owner m) (handed-wait_deadline s owner m)
handed-after_claim s owner m OutboxClaimStatus.claimed (some row) =
    handed-deliver_claim s owner row m

hear-trace : (stop : Bool) (s : OutboxSender) → (hear stop s).trace ≡ s.trace
unfolding hear request_stop
hear-trace true s = refl
hear-trace false s = refl

OneMore-if :
    (s : OutboxSender) (b : Bool) (x y : OutboxSender)
    → OneMore s x
    → OneMore s y
    → OneMore s (if b then x else y)
OneMore-if s true x y h k = h
OneMore-if s false x y h k = k

OneMore-from : (s s' x : OutboxSender) → s'.trace ≡ s.trace → OneMore s' x → OneMore s x
OneMore-from s s' x e h = record { at_most = rw (← e) h.at_most }

handed-claim_turn :
    (s : OutboxSender) (owner : ProfileLockOwner) (m : Moment) → OneMore s (claim_turn s owner m)
unfolding claim_turn
handed-claim_turn s owner m =
    let heard = hear m.stop_third s in
    OneMore-from s heard _ (hear-trace m.stop_third s) (
      OneMore-if heard heard.stop_requested _ _
        (OneMore-same heard _ (handed-leave heard owner false m))
        (let (claim, box) = claim_due heard.outbox owner m.now m.env in
          OneMore-from heard (record heard { outbox = box }) _ refl
            (handed-after_claim (record heard { outbox = box }) owner m claim.status claim.row)))

handed-owner_turn :
    (s : OutboxSender) (owner : ProfileLockOwner) (m : Moment) → OneMore s (owner_turn s owner m)
unfolding owner_turn
handed-owner_turn s owner m =
    let heard = hear m.stop_first s in
    let again = hear m.stop_second (record heard { wake_set = false }) in
    OneMore-from s heard _ (hear-trace m.stop_first s) (
      OneMore-if heard heard.stop_requested _ _
        (OneMore-same heard _ (handed-leave heard owner false m))
        (OneMore-from heard again _ (hear-trace m.stop_second (record heard { wake_set = false })) (
          OneMore-if again again.stop_requested _ _
            (OneMore-same again _ (handed-leave again owner false m))
            (OneMore-if again m.settled _ _ (handed-claim_turn again owner m)
              (OneMore-same again _ refl)))))

handed-begin_owning :
    (s : OutboxSender) (owner : ProfileLockOwner) (m : Moment) → OneMore s (begin_owning s owner m)
unfolding begin_owning handed
handed-begin_owning s owner m =
    let (recovery, box) = recover_sending s.outbox owner m.now m.env in
    let recovered = record s { outbox = box } in
    OneMore-if s (is_applied recovery.status) _ _ (OneMore-same s _ refl) (
      OneMore-same s _ (
        handed-leave (did (SenderAction.loop_event (codes "recovery_failed")) recovered) owner true
          m))

acquired-OneMore :
    (s : OutboxSender) (owner : ProfileLockOwner) (m : Moment)
    → OneMore
        (did (SenderAction.acquired owner) s)
        (begin_owning (did (SenderAction.acquired owner) s) owner m)
    → OneMore s (begin_owning (did (SenderAction.acquired owner) s) owner m)
unfolding handed
acquired-OneMore s owner m more = record { at_most = more.at_most }

handed-after_acquisition :
    (s : OutboxSender) (m : Moment) (status : ProfileLockStatus) (owner : Option ProfileLockOwner)
    → OneMore s (after_acquisition s m status owner)
unfolding after_acquisition handed
handed-after_acquisition s m ProfileLockStatus.local_failure none =
    OneMore-same s _ (handed-pause (note_unavailable ProfileLockStatus.local_failure s) m)
handed-after_acquisition s m ProfileLockStatus.contended none = OneMore-same s _ (handed-pause s m)
handed-after_acquisition s m ProfileLockStatus.acquired none = OneMore-same s _ (handed-pause s m)
handed-after_acquisition s m status (some owner) =
    acquired-OneMore s owner m (handed-begin_owning (did (SenderAction.acquired owner) s) owner m)

turn_at-OneMore : (place : Place) (s : OutboxSender) (m : Moment) → OneMore s (turn_at place s m)
unfolding seek_turn settle_turn
turn_at-OneMore Place.seeking s m =
    let heard = hear m.stop_first s in
    OneMore-from s heard _ (hear-trace m.stop_first s) (
      OneMore-if heard heard.stop_requested _ _ (OneMore-same heard _ refl) (
        let acquisition = try_acquire_profile_lock heard.outbox m.lock in
        handed-after_acquisition heard m acquisition.status
          (granted_owner acquisition.status acquisition.owner)))
turn_at-OneMore Place.ended s m = OneMore-same s s refl
turn_at-OneMore (Place.owning owner) s m = handed-owner_turn s owner m
turn_at-OneMore (Place.settling owner) s m =
    let heard = hear m.stop_first s in
    OneMore-if s m.settled _ _ (OneMore-same s _ refl) (
      OneMore-from s heard _ (hear-trace m.stop_first s) (
        OneMore-if heard heard.stop_requested _ heard
          (OneMore-same heard _ (handed-leave heard owner false m)) (OneMore-same heard _ refl)))
turn_at-OneMore (Place.draining owner row category reason) s m =
    let heard = hear m.stop_first s in
    OneMore-if s m.settled _ _
      (OneMore-same s _ (handed-fail_delivery s owner row category reason m))
      (OneMore-from s heard heard (hear-trace m.stop_first s) (OneMore-same heard _ refl))

-- One turn hands at most one segment to the client.
pub handed-turn_at :
    (place : Place) (s : OutboxSender) (m : Moment)
    → length (handed (turn_at place s m).trace) ≤ length (handed s.trace) + 1
handed-turn_at place s m = (turn_at-OneMore place s m).at_most
