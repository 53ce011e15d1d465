-- ===== src/Sender/Deliver.antt =====
-- `_deliver_claim` of better_hermes_hindsight/runtime.py: one claimed row is handed to the client,
-- and the row is deleted or rescheduled by what comes back.
use better_hermes_hindsight.Common.{Bool, true, false, if◌then◌else◌, Text, codes}
use better_hermes_hindsight.Outbox.Types.{
  OutboxRow, OutboxFailureCategory, OutboxTransitionStatus, category_value,
}
use better_hermes_hindsight.Outbox.Lock.{ProfileLockOwner, release}
use better_hermes_hindsight.Outbox.Claims.{complete_claim, reschedule_claim, retry_delay_seconds}
use better_hermes_hindsight.Sender.{
  RetainSegment, ClientResponse, SenderAction, Place, OutboxSender, Moment, receive, did, hear,
  retained_event_timestamp,
}

unfoldable pub retain_segment_of : OutboxSender → OutboxRow → RetainSegment
retain_segment_of s row = record {
  content = row.content;
  document_id = row.document_id;
  payload_schema = row.payload_schema;
  source_sha256 = row.source_sha256;
  segment_index = row.segment_index;
  segment_count = row.segment_count;
  timestamp = retained_event_timestamp s.loads s.zoned row.content;
}

abbrev pub is_applied : OutboxTransitionStatus → Bool
is_applied OutboxTransitionStatus.applied = true
is_applied OutboxTransitionStatus.local_failure = false

-- The wait before the next acquisition, unless a request to stop has come.
unfoldable pub pause : OutboxSender → Moment → OutboxSender
unfolding hear
pause s m =
    let heard = hear m.stop_last (record s { wake_set = false }) in
    if heard.stop_requested then heard else did (SenderAction.waited s.poll_interval) heard

-- `_run_as_owner` returns `ownership_lost`: the lock is released, and `_run` goes on.
unfoldable pub leave : OutboxSender → ProfileLockOwner → Bool → Moment → OutboxSender
unfolding pause
leave s owner ownership_lost m =
    let free = did (SenderAction.released (release owner).0) (record s { place = Place.seeking }) in
    if ownership_lost then pause free m else free

-- What `_run_as_owner` does with the transition: its loop goes on, or ownership is lost.
unfoldable pub after_transition : OutboxSender → ProfileLockOwner → Bool → Moment → OutboxSender
unfolding leave
after_transition s owner applied m =
    if applied
    then record s { place = Place.owning owner }
    else leave (did (SenderAction.loop_event (codes "transition_failed")) s) owner true m

-- The part of `_deliver_claim` after a confirmed response.
unfoldable pub finish_delivery : OutboxSender → ProfileLockOwner → OutboxRow → Moment → OutboxSender
unfolding after_transition
finish_delivery s owner row m =
    let (transition, box) =
      complete_claim s.outbox owner row.document_id row.attempt_count m.finish in
    let outcome =
      if is_applied transition.status then codes "delivered" else codes "transition_failed" in
    after_transition
      (did (SenderAction.attempted row.attempt_count outcome (codes "none") 0)
        (record s { outbox = box }))
      owner (is_applied transition.status) m

-- The part of `_deliver_claim` after a failure, from the reading of the time on.
unfoldable pub fail_delivery :
    OutboxSender
    → ProfileLockOwner
    → OutboxRow
    → OutboxFailureCategory
    → Text
    → Moment
    → OutboxSender
unfolding after_transition
fail_delivery s owner row category reason m =
    let (transition, box) =
      reschedule_claim s.outbox owner row.document_id row.attempt_count category m.completed_at
        m.finish in
    let outcome =
      if is_applied transition.status then category_value category else codes "transition_failed" in
    after_transition
      (did
        (SenderAction.attempted row.attempt_count outcome reason
          (retry_delay_seconds row.attempt_count s.retry_initial s.retry_max))
        (record s { outbox = box }))
      owner (is_applied transition.status) m

-- The response, by the `except` clause that takes it. An unsettled or timed-out call is waited for
-- first, whatever requests to stop come.
unfoldable pub respond :
    OutboxSender → ProfileLockOwner → OutboxRow → Moment → ClientResponse → OutboxSender
unfolding finish_delivery fail_delivery
respond s owner row m ClientResponse.unsettled = record s {
  place = Place.draining owner row OutboxFailureCategory.retain_failed (codes "runner_unsettled");
}
respond s owner row m ClientResponse.timed_out = record s {
  place = Place.draining owner row OutboxFailureCategory.retain_timeout (codes "timeout");
}
respond s owner row m (ClientResponse.client_error reason) =
    fail_delivery s owner row OutboxFailureCategory.retain_failed reason m
respond s owner row m ClientResponse.cancelled =
    fail_delivery s owner row OutboxFailureCategory.retain_failed (codes "cancelled") m
respond s owner row m ClientResponse.unexpected_error =
    fail_delivery s owner row OutboxFailureCategory.retain_failed (codes "unexpected_error") m
respond s owner row m ClientResponse.unconfirmed =
    fail_delivery s owner row OutboxFailureCategory.retain_unconfirmed (codes "unconfirmed") m
respond s owner row m ClientResponse.confirmed = finish_delivery s owner row m

unfoldable pub deliver_claim : OutboxSender → ProfileLockOwner → OutboxRow → Moment → OutboxSender
unfolding retain_segment_of
deliver_claim s owner row m =
    respond
      (did (SenderAction.retained (retain_segment_of s row) m.response) (receive m.meanwhile s))
      owner row m m.response
