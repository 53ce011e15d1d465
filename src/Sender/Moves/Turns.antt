-- ===== src/Sender/Moves/Turns.antt =====
-- Every turn of the loops of `OutboxSender` in better_hermes_hindsight/runtime.py keeps to the
-- protocol.
use better_hermes_hindsight.Common.{
  ℕ, ◌≡◌, ◌≢◌, refl, List, [], ◌∷◌, Option, none, some, false, codes,
}
use better_hermes_hindsight.Outbox.Types.{OutboxRow, OutboxClaimStatus, ProfileLockStatus}
use better_hermes_hindsight.Outbox.Lock.{ProfileLockOwner}
use better_hermes_hindsight.Outbox.Claims.{recover_sending, claim_due}
use better_hermes_hindsight.Sender.{
  ClientResponse, SenderAction, Place, OutboxSender, Moment, receive, hear, did,
}
use better_hermes_hindsight.Sender.Deliver.{
  retain_segment_of, is_applied, leave, fail_delivery, respond, deliver_claim,
}
use better_hermes_hindsight.Sender.Loop.{
  note_unavailable, wait_timeout, after_acquisition, begin_owning, seek_turn, after_deadline,
  wait_deadline, after_claim, claim_turn, owner_turn, settle_turn, turn_at, thread_turn, run,
}
use better_hermes_hindsight.Sender.Moves.{
  Moves, World, world, still, claims_as, recovers_as, delivers, further, noted, either,
  hear-Reaches, receive-Reaches, pause-Reaches, leave-Reaches, leave_noting, fail_delivery-Reaches,
  finish_delivery-Reaches, respond-Reaches, retain_segment_of-Carries, confirmed_dec, Reaches,
  Moves-trans,
}

module _ (w : World) where
  claimed-Reaches :
      (s : OutboxSender) (owner : ProfileLockOwner) (row : OutboxRow) (m : Moment)
      → Reaches w s
      → (claim_due s.outbox owner m.now m.env).0.status ≡ OutboxClaimStatus.claimed
      → (claim_due s.outbox owner m.now m.env).0.row ≡ some row
      → Reaches w (
          deliver_claim
            (record s { outbox = (claim_due s.outbox owner m.now m.env).1 })
            owner
            row
            m)
  unfolding deliver_claim respond
  claimed-Reaches s owner row m so_far claimed returned =
      let (claim, box) = claim_due s.outbox owner m.now m.env in
      let taken = record s { outbox = box } in
      let handed =
        did (SenderAction.retained (retain_segment_of taken row) m.response)
          (receive m.meanwhile taken) in
      let not_confirmed : m.response ≢ ClientResponse.confirmed
          → Reaches w (respond handed owner row m m.response) =
        λ other. respond-Reaches handed owner row m m.response other (
          noted (SenderAction.retained (retain_segment_of taken row) m.response)
            (receive m.meanwhile taken)
            (receive-Reaches m.meanwhile taken
              (further so_far (claims_as (world s) owner m.now m.env)))) in
      elim (confirmed_dec m.response) [
        | no other ↦ not_confirmed other
        | yes confirmed ↦ rw confirmed (
            finish_delivery-Reaches
              (did (SenderAction.retained (retain_segment_of taken row) ClientResponse.confirmed)
                (receive m.meanwhile taken))
              owner row m
              (further so_far (
                delivers (world s) owner m.now m.env m.finish row m.meanwhile
                  (retain_segment_of taken row) claimed returned
                  (retain_segment_of-Carries taken row))))
      ]

  after_deadline-Reaches :
      (s : OutboxSender) (owner : ProfileLockOwner) (m : Moment) (deadline : Option (Option ℕ))
      → Reaches w s
      → Reaches w (after_deadline s owner m deadline)
  unfolding after_deadline
  after_deadline-Reaches s owner m none so_far =
      leave_noting (SenderAction.loop_event (codes "retry_deadline_failed")) s owner m so_far
  after_deadline-Reaches s owner m (some deadline) so_far =
      noted (SenderAction.waited (wait_timeout s.poll_interval m.wait_from deadline)) s so_far

  wait_deadline-Reaches :
      (s : OutboxSender) (owner : ProfileLockOwner) (m : Moment)
      → Reaches w s
      → Reaches w (wait_deadline s owner m)
  unfolding wait_deadline
  wait_deadline-Reaches s owner m so_far = after_deadline-Reaches s owner m _ so_far

  after_claim-Reaches :
      (s : OutboxSender) (owner : ProfileLockOwner) (m : Moment) (status : OutboxClaimStatus)
      (row : Option OutboxRow)
      → Reaches w s
      → (claim_due s.outbox owner m.now m.env).0.status ≡ status
      → (claim_due s.outbox owner m.now m.env).0.row ≡ row
      → Reaches w (
          after_claim
            (record s { outbox = (claim_due s.outbox owner m.now m.env).1 })
            owner
            m
            status
            row)
  unfolding after_claim
  after_claim-Reaches s owner m OutboxClaimStatus.claimed (some row) so_far claimed returned =
      claimed-Reaches s owner row m so_far claimed returned
  after_claim-Reaches s owner m OutboxClaimStatus.claimed none so_far claimed returned =
      wait_deadline-Reaches _ owner m (further so_far (claims_as (world s) owner m.now m.env))
  after_claim-Reaches s owner m OutboxClaimStatus.empty row so_far claimed returned =
      wait_deadline-Reaches _ owner m (further so_far (claims_as (world s) owner m.now m.env))
  after_claim-Reaches s owner m OutboxClaimStatus.local_failure row so_far claimed returned =
      leave_noting (SenderAction.loop_event (codes "claim_failed")) _ owner m
        (further so_far (claims_as (world s) owner m.now m.env))

  claim_turn-Reaches :
      (s : OutboxSender) (owner : ProfileLockOwner) (m : Moment)
      → Reaches w s
      → Reaches w (claim_turn s owner m)
  unfolding claim_turn
  claim_turn-Reaches s owner m so_far =
      let heard = hear m.stop_third s in
      let reached : Reaches w heard = hear-Reaches m.stop_third s so_far in
      either heard.stop_requested (leave heard owner false m) _
        (leave-Reaches heard owner false m reached)
        (after_claim-Reaches heard owner m _ _ reached refl refl)

  owner_turn-Reaches :
      (s : OutboxSender) (owner : ProfileLockOwner) (m : Moment)
      → Reaches w s
      → Reaches w (owner_turn s owner m)
  unfolding owner_turn
  owner_turn-Reaches s owner m so_far =
      let heard = hear m.stop_first s in
      let reached : Reaches w heard = hear-Reaches m.stop_first s so_far in
      let quiet = record heard { wake_set = false } in
      let again = hear m.stop_second quiet in
      let reached_again : Reaches w again = hear-Reaches m.stop_second quiet reached in
      either heard.stop_requested (leave heard owner false m) _
        (leave-Reaches heard owner false m reached)
        (either again.stop_requested (leave again owner false m) _
          (leave-Reaches again owner false m reached_again)
          (either m.settled (claim_turn again owner m)
            (record again { place = Place.settling owner })
            (claim_turn-Reaches again owner m reached_again) reached_again))

  settle_turn-Reaches :
      (s : OutboxSender) (owner : ProfileLockOwner) (m : Moment)
      → Reaches w s
      → Reaches w (settle_turn s owner m)
  unfolding settle_turn
  settle_turn-Reaches s owner m so_far =
      let heard = hear m.stop_first s in
      let reached : Reaches w heard = hear-Reaches m.stop_first s so_far in
      either m.settled (record s { place = Place.owning owner }) _ so_far
        (either heard.stop_requested (leave heard owner false m) heard
          (leave-Reaches heard owner false m reached) reached)

  begin_owning-Reaches :
      (s : OutboxSender) (owner : ProfileLockOwner) (m : Moment)
      → Reaches w s
      → Reaches w (begin_owning s owner m)
  unfolding begin_owning
  begin_owning-Reaches s owner m so_far =
      let (recovery, box) = recover_sending s.outbox owner m.now m.env in
      let recovered = record s { outbox = box } in
      let reached : Reaches w recovered =
        further so_far (recovers_as (world s) owner m.now m.env) in
      either (is_applied recovery.status) (record recovered { place = Place.owning owner }) _
        reached
        (leave_noting (SenderAction.loop_event (codes "recovery_failed")) recovered owner m reached)

  note_unavailable-Reaches :
      (status : ProfileLockStatus) (s : OutboxSender)
      → Reaches w s
      → Reaches w (note_unavailable status s)
  note_unavailable-Reaches ProfileLockStatus.local_failure s so_far =
      noted (SenderAction.loop_event (codes "ownership_unavailable")) s so_far
  note_unavailable-Reaches ProfileLockStatus.acquired s so_far = so_far
  note_unavailable-Reaches ProfileLockStatus.contended s so_far = so_far

  acquired-Reaches :
      (s : OutboxSender) (m : Moment) (status : ProfileLockStatus) (owner : Option ProfileLockOwner)
      → Reaches w s
      → Reaches w (after_acquisition s m status owner)
  unfolding after_acquisition
  acquired-Reaches s m status none so_far =
      pause-Reaches (note_unavailable status s) m (note_unavailable-Reaches status s so_far)
  acquired-Reaches s m status (some owner) so_far =
      begin_owning-Reaches (did (SenderAction.acquired owner) s) owner m
        (noted (SenderAction.acquired owner) s so_far)

  seek_turn-Reaches : (s : OutboxSender) (m : Moment) → Reaches w s → Reaches w (seek_turn s m)
  unfolding seek_turn
  seek_turn-Reaches s m so_far =
      let heard = hear m.stop_first s in
      let reached : Reaches w heard = hear-Reaches m.stop_first s so_far in
      either heard.stop_requested (record heard { place = Place.ended }) _ reached
        (acquired-Reaches heard m _ _ reached)

  turn_at-Reaches :
      (place : Place) (s : OutboxSender) (m : Moment) → Reaches w s → Reaches w (turn_at place s m)
  turn_at-Reaches Place.seeking s m so_far = seek_turn-Reaches s m so_far
  turn_at-Reaches Place.ended s m so_far = so_far
  turn_at-Reaches (Place.owning owner) s m so_far = owner_turn-Reaches s owner m so_far
  turn_at-Reaches (Place.settling owner) s m so_far = settle_turn-Reaches s owner m so_far
  turn_at-Reaches (Place.draining owner row category reason) s m so_far =
      either m.settled (fail_delivery s owner row category reason m) (hear m.stop_first s)
        (fail_delivery-Reaches s owner row category reason m so_far)
        (hear-Reaches m.stop_first s so_far)

thread_turn-Moves : (s : OutboxSender) (m : Moment) → Moves (world s) (world (thread_turn s m))
unfolding thread_turn
thread_turn-Moves s m =
    turn_at-Reaches (world s) s.place (receive m.arrivals s) m
      (receive-Reaches m.arrivals s (still (world s)))

-- The sender keeps to its protocol: whatever the moments that it meets, its outbox and its trace move only by
-- admissions, recoveries, claims, reschedulings, notes, and whole deliveries. In a delivery the
-- row completed is the one just claimed, and the segment that carries its values was confirmed.
pub run-Moves : (moments : List Moment) (s : OutboxSender) → Moves (world s) (world (run moments s))
unfolding run
run-Moves [] s = still (world s)
run-Moves (m ∷ later) s = Moves-trans (thread_turn-Moves s m) (run-Moves later (thread_turn s m))
