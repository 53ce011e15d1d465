-- ===== src/Sender/Moves.antt =====
-- The protocol that the sender of better_hermes_hindsight/runtime.py keeps to: the outbox and the trace
-- move by admissions, recoveries, claims, reschedulings and notes, and by whole deliveries, in
-- which the row that is completed is the one claimed, and its segment was handed over and confirmed.
pub mod Turns
use better_hermes_hindsight.Common.{
  ℕ, ◌≡◌, ◌≢◌, refl, List, [], ◌∷◌, Option, none, some, Option-cases, Bool-cases, inl, inr, ap,
  subst, sym, arith, Bool, true, false, Text, codes, if◌then◌else◌,
}
use better_hermes_hindsight.Outbox.Types.{
  SqliteOutbox, OutboxRow, OutboxFailureCategory, OutboxClaimStatus, WallTime, category_value,
  ProfileLockStatus,
}
use better_hermes_hindsight.Outbox.Lock.{ProfileLockOwner, release, try_acquire_profile_lock}
use better_hermes_hindsight.Outbox.Admission.{admit}
use better_hermes_hindsight.Outbox.Claims.{
  Env, recover_sending, claim_due, next_matching_retry_deadline, complete_claim, reschedule_claim,
  retry_delay_seconds,
}
use better_hermes_hindsight.Sender.{
  RetainSegment, ClientResponse, SenderAction, Place, OutboxSender, Moment, Arrival, admit_all,
  receive, hear, did,
}
use better_hermes_hindsight.Sender.Deliver.{
  retain_segment_of, is_applied, pause, leave, after_transition, finish_delivery, fail_delivery,
  respond, deliver_claim,
}
use better_hermes_hindsight.Sender.Loop.{
  note_unavailable, wait_timeout, after_acquisition, begin_owning, seek_turn, after_deadline,
  wait_deadline, after_claim, claim_turn, owner_turn, settle_turn, turn_at, thread_turn, run,
}

-- What the protocol is about.
pub record World : Type 0 where
  pub box : SqliteOutbox
  pub trace : List SenderAction

abbrev pub world : OutboxSender → World
world s = record { box = s.outbox; trace = s.trace }

-- The segment has every value of the row.
pub record Carries (segment : RetainSegment) (row : OutboxRow) : Type 0 where
  pub content : segment.content ≡ row.content
  pub document_id : segment.document_id ≡ row.document_id
  pub payload_schema : segment.payload_schema ≡ row.payload_schema
  pub source_sha256 : segment.source_sha256 ≡ row.source_sha256
  pub segment_index : segment.segment_index ≡ row.segment_index
  pub segment_count : segment.segment_count ≡ row.segment_count

pub data Move : World → World → Type 0 where
  admits_all :
      (w : World) (arrivals : List Arrival) → Move w (record w { box = admit_all arrivals w.box })
  recovers_as :
      (w : World) (owner : ProfileLockOwner) (now : WallTime) (env : Env)
      → Move w (record w { box = (recover_sending w.box owner now env).1 })
  claims_as :
      (w : World) (owner : ProfileLockOwner) (now : WallTime) (env : Env)
      → Move w (record w { box = (claim_due w.box owner now env).1 })
  reschedules_as :
      (w : World) (owner : ProfileLockOwner) (id : Text) (attempt : ℕ)
      (category : OutboxFailureCategory) (completed_at : WallTime) (env : Env)
      → Move w
          (record w { box = (reschedule_claim w.box owner id attempt category completed_at env).1 })
  notes : (w : World) (action : SenderAction) → Move w (record w { trace = action ∷ w.trace })
  delivers :
      (w : World) (owner : ProfileLockOwner) (now : WallTime) (env finish : Env) (row : OutboxRow)
      (arrivals : List Arrival) (segment : RetainSegment)
      → (claim_due w.box owner now env).0.status ≡ OutboxClaimStatus.claimed
      → (claim_due w.box owner now env).0.row ≡ some row
      → Carries segment row
      → Move w (record {
        box =
            (complete_claim
              (admit_all arrivals (claim_due w.box owner now env).1)
              owner
              row.document_id
              row.attempt_count
              finish).1;
        trace = SenderAction.retained segment ClientResponse.confirmed ∷ w.trace;
      })

pub data Moves : World → World → Type 0 where
  still : (w : World) → Moves w w
  moves : {w w' w'' : World} → Move w w' → Moves w' w'' → Moves w w''

pub Moves-trans : {a b c : World} → Moves a b → Moves b c → Moves a c
Moves-trans (still w) later = later
Moves-trans (moves step first) later = moves step (Moves-trans first later)

one : {a b : World} → Move a b → Moves a b
one {b} step = moves step (still b)

-- The protocol leads from `w` to what the sender keeps.
abbrev pub Reaches : World → OutboxSender → Type 0
Reaches w s = Moves w (world s)

module _ {w : World} where
  pub further : {w' w'' : World} → Moves w w' → Move w' w'' → Moves w w''
  further so_far step = Moves-trans so_far (one step)

  pub noted : (action : SenderAction) (s : OutboxSender) → Reaches w s → Reaches w (did action s)
  noted action s so_far = further so_far (notes (world s) action)

  pub either :
      (b : Bool) (x y : OutboxSender) → Reaches w x → Reaches w y → Reaches w (if b then x else y)
  either true x y h k = h
  either false x y h k = k

  pub hear-Reaches : (stop : Bool) (s : OutboxSender) → Reaches w s → Reaches w (hear stop s)
  unfolding hear
  hear-Reaches true s so_far = so_far
  hear-Reaches false s so_far = so_far

  pub receive-Reaches :
      (arrivals : List Arrival) (s : OutboxSender) → Reaches w s → Reaches w (receive arrivals s)
  receive-Reaches arrivals s so_far = further so_far (admits_all (world s) arrivals)

  pub pause-Reaches : (s : OutboxSender) (m : Moment) → Reaches w s → Reaches w (pause s m)
  unfolding pause
  pause-Reaches s m so_far =
      let quiet = record s { wake_set = false } in
      let heard = hear m.stop_last quiet in
      let reached : Reaches w heard = hear-Reaches m.stop_last quiet so_far in
      either heard.stop_requested heard (did (SenderAction.waited s.poll_interval) heard) reached
        (noted (SenderAction.waited s.poll_interval) heard reached)

  pub leave-Reaches :
      (s : OutboxSender) (owner : ProfileLockOwner) (lost : Bool) (m : Moment)
      → Reaches w s
      → Reaches w (leave s owner lost m)
  unfolding leave
  leave-Reaches s owner lost m so_far =
      let free =
        did (SenderAction.released (release owner).0) (record s { place = Place.seeking }) in
      let reached : Reaches w free = noted (SenderAction.released (release owner).0) s so_far in
      either lost (pause free m) free (pause-Reaches free m reached) reached

  pub leave_noting :
      (action : SenderAction) (s : OutboxSender) (owner : ProfileLockOwner) (m : Moment)
      → Reaches w s
      → Reaches w (leave (did action s) owner true m)
  leave_noting action s owner m so_far =
      leave-Reaches (did action s) owner true m (noted action s so_far)

  after_transition-Reaches :
      (s : OutboxSender) (owner : ProfileLockOwner) (applied : Bool) (m : Moment)
      → Reaches w s
      → Reaches w (after_transition s owner applied m)
  unfolding after_transition
  after_transition-Reaches s owner true m so_far = so_far
  after_transition-Reaches s owner false m so_far =
      leave_noting (SenderAction.loop_event (codes "transition_failed")) s owner m so_far

  pub fail_delivery-Reaches :
      (s : OutboxSender) (owner : ProfileLockOwner) (row : OutboxRow)
      (category : OutboxFailureCategory) (reason : Text) (m : Moment)
      → Reaches w s
      → Reaches w (fail_delivery s owner row category reason m)
  unfolding fail_delivery
  fail_delivery-Reaches s owner row category reason m so_far =
      let (transition, box) =
        reschedule_claim s.outbox owner row.document_id row.attempt_count category m.completed_at
          m.finish in
      let outcome =
        if is_applied transition.status
        then category_value category
        else codes "transition_failed" in
      let action =
        SenderAction.attempted row.attempt_count outcome reason
          (retry_delay_seconds row.attempt_count s.retry_initial s.retry_max) in
      let moved = record s { outbox = box } in
      after_transition-Reaches (did action moved) owner (is_applied transition.status) m (
        noted action moved (
          further so_far (
            reschedules_as (world s) owner row.document_id row.attempt_count category m.completed_at
              m.finish)))

  pub finish_delivery-Reaches :
      (s : OutboxSender) (owner : ProfileLockOwner) (row : OutboxRow) (m : Moment)
      → let box = (complete_claim s.outbox owner row.document_id row.attempt_count m.finish).1 in
        Moves w (record { box = box; trace = s.trace }) → Reaches w (finish_delivery s owner row m)
  unfolding finish_delivery
  finish_delivery-Reaches s owner row m so_far =
      let (transition, box) =
        complete_claim s.outbox owner row.document_id row.attempt_count m.finish in
      let outcome =
        if is_applied transition.status then codes "delivered" else codes "transition_failed" in
      let action = SenderAction.attempted row.attempt_count outcome (codes "none") 0 in
      let moved = record s { outbox = box } in
      after_transition-Reaches (did action moved) owner (is_applied transition.status) m
        (noted action moved so_far)

  -- A response other than a confirmation, once the segment has been handed over.
  pub respond-Reaches :
      (s : OutboxSender) (owner : ProfileLockOwner) (row : OutboxRow) (m : Moment)
      (response : ClientResponse)
      → response ≢ ClientResponse.confirmed
      → Reaches w s
      → Reaches w (respond s owner row m response)
  unfolding respond
  respond-Reaches s owner row m ClientResponse.confirmed other so_far = absurd (other refl)
  respond-Reaches s owner row m ClientResponse.unsettled other so_far = so_far
  respond-Reaches s owner row m ClientResponse.timed_out other so_far = so_far
  respond-Reaches s owner row m ClientResponse.unconfirmed other so_far =
      fail_delivery-Reaches s owner row _ _ m so_far
  respond-Reaches s owner row m ClientResponse.cancelled other so_far =
      fail_delivery-Reaches s owner row _ _ m so_far
  respond-Reaches s owner row m ClientResponse.unexpected_error other so_far =
      fail_delivery-Reaches s owner row _ _ m so_far
  respond-Reaches s owner row m (ClientResponse.client_error reason) other so_far =
      fail_delivery-Reaches s owner row _ _ m so_far

pub confirmed_dec : (response : ClientResponse) → Dec (response ≡ ClientResponse.confirmed)
confirmed_dec ClientResponse.confirmed = yes refl
confirmed_dec ClientResponse.unconfirmed = no (λ h. cc)
confirmed_dec ClientResponse.unsettled = no (λ h. cc)
confirmed_dec ClientResponse.timed_out = no (λ h. cc)
confirmed_dec ClientResponse.cancelled = no (λ h. cc)
confirmed_dec ClientResponse.unexpected_error = no (λ h. cc)
confirmed_dec (ClientResponse.client_error reason) = no (λ h. cc)

pub retain_segment_of-Carries :
    (s : OutboxSender) (row : OutboxRow) → Carries (retain_segment_of s row) row
unfolding retain_segment_of
retain_segment_of-Carries s row = record {
  content = refl;
  document_id = refl;
  payload_schema = refl;
  source_sha256 = refl;
  segment_index = refl;
  segment_count = refl;
}
