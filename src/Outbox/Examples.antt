-- ===== src/Outbox/Examples.antt =====
-- A small outbox: what it does on concrete inputs, and instances of the theorems about it.
use better_hermes_hindsight.Common.{
  ◌-◌, ◌*◌, ◌^◌, ◌≡◌, refl, ◌≢◌, true, false, [], ◌∷◌, none, some, if◌then◌else◌, Text, same, arith,
  ◌⊎◌, is_some, keep, count_if, min,
}
use better_hermes_hindsight.Outbox.Types.{
  OutboxRow, find_row, Failure, accepted, WallTime, OutboxFailureCategory, OutboxTransitionStatus,
  OutboxClaimStatus, AdmissionStatus, is_contention, is_sending,
}
use better_hermes_hindsight.Outbox.Lock.{
  owner_descriptor, try_acquire_profile_lock, acquire_no_leak, acquire-owner, release,
  revalidate_profile_lock_identity,
}
use better_hermes_hindsight.Outbox.Table.{IsTable, passes}
use better_hermes_hindsight.Outbox.Validate.{validate_candidates}
use better_hermes_hindsight.Outbox.Validate.Laws.{Validated, validate_candidates-Validated}
use better_hermes_hindsight.Outbox.Admission.{admit, duplicate_result}
use better_hermes_hindsight.Outbox.Admission.Outcome.{WithinCapacity}
use better_hermes_hindsight.Outbox.Admission.Atomic.{
  admit_refused, admit-Accepted, Accepted, admit_again, admit_healthy,
}
use better_hermes_hindsight.Outbox.Claims.{
  owns, may_run, is_due, recover_sending, claim_due, complete_claim, reschedule_claim,
  claimed_attempt, retry_delay_seconds, transition_failed,
}
use better_hermes_hindsight.Outbox.Claims.Retry.{retry_delay_lem}
use better_hermes_hindsight.Outbox.Claims.Finish.{
  InFlight, complete_claim-applied, reschedule_claim-applied, stale_attempt_refused, due_again,
}
use better_hermes_hindsight.Outbox.Claims.{rescheduled}
use better_hermes_hindsight.Outbox.Lifecycle.{IsSound, Step, Kept}
use better_hermes_hindsight.Outbox.Lifecycle.Runs.{
  Run, done, then_run, Run-IsSound, Run-Kept, Confirmed,
}
use better_hermes_hindsight.Outbox.Claims.Claim.{
  Claims, claim_due-Claims, claim_due_progress, claim_outcome, recover_sending_lem, NoneSending,
}
use better_hermes_hindsight.Outbox.Table.{updated}
use better_hermes_hindsight.Outbox.Claims.{recovered}
use better_hermes_hindsight.Outbox.Lock.{is_acquired, owned}
use better_hermes_hindsight.Outbox.Samples.{
  settings, segment, fresh, stored_row, one_row, view, owner, calm, sending_row, in_flight, program,
  one_row-IsTable, one_row-IsSound, stored_found, attempt,
}

admits_one : (admit fresh none 10 (segment ∷ segment ∷ [])).1 ≡ one_row
unfolding program
admits_one = refl

claims_one :
    claim_due one_row owner (WallTime.at 20) calm
    ≡ (record { status = OutboxClaimStatus.claimed; row = some sending_row }, in_flight)
unfolding program
claims_one = refl

completes_one : (complete_claim in_flight owner segment.document_id 1 calm).1 ≡ fresh
unfolding program
completes_one = refl

fresh-IsTable : IsTable fresh.rows
fresh-IsTable = tt

in_flight-IsTable : IsTable in_flight.rows
unfolding program
in_flight-IsTable = (refl, tt)

fresh-WithinCapacity : WithinCapacity settings fresh.rows
unfolding program
fresh-WithinCapacity = omega arith

accepts_one : accepted (admit fresh none 10 (segment ∷ segment ∷ [])).0.status ≡ true
unfolding program
accepts_one = refl

validates_one : validate_candidates settings (segment ∷ segment ∷ []) ≡ some (segment ∷ [], 1)
unfolding program
validates_one = refl

admit-Accepted_example :
    Accepted fresh
      (admit fresh none 10 (segment ∷ segment ∷ [])).1
      (segment ∷ segment ∷ [])
      (admit fresh none 10 (segment ∷ segment ∷ [])).0
admit-Accepted_example =
    admit-Accepted fresh none 10 (segment ∷ segment ∷ []) fresh-IsTable fresh-WithinCapacity
      accepts_one

admit_again_example :
    let box = (admit fresh none 10 (segment ∷ segment ∷ [])).1 in
    admit box none 30 (segment ∷ segment ∷ []) ≡ (duplicate_result 2, box)
admit_again_example =
    admit_again fresh none 10 30 (segment ∷ segment ∷ []) fresh-IsTable fresh-WithinCapacity
      accepts_one

contended_refused :
    accepted (admit one_row (some (Failure.sqlite (some 5))) 10 (segment ∷ [])).0.status ≡ false
unfolding program is_contention
contended_refused = refl

admit_refused_example :
    (admit one_row (some (Failure.sqlite (some 5))) 10 (segment ∷ [])).1 ≡ one_row
admit_refused_example =
    admit_refused one_row (some (Failure.sqlite (some 5))) 10 (segment ∷ []) contended_refused

admit_healthy_example :
    (admit one_row none 10 (segment ∷ [])).0.status ≢ AdmissionStatus.local_failure
admit_healthy_example =
    admit_healthy one_row 10 (segment ∷ []) one_row-IsTable one_row-IsSound.within refl

validate_candidates-Validated_example : Validated settings (segment ∷ segment ∷ []) (segment ∷ []) 1
validate_candidates-Validated_example =
    validate_candidates-Validated settings (segment ∷ segment ∷ []) validates_one

claim_status : (claim_due one_row owner (WallTime.at 20) calm).0.status ≡ OutboxClaimStatus.claimed
unfolding program
claim_status = refl

claim_due-Claims_example :
    (row : OutboxRow) × ((claim_due one_row owner (WallTime.at 20) calm).0.row ≡ some row)
    × Claims 20 one_row (claim_due one_row owner (WallTime.at 20) calm).1 row
claim_due-Claims_example = claim_due-Claims one_row owner 20 calm one_row-IsTable claim_status

runs_calm : may_run one_row owner calm ≡ true
unfolding program
runs_calm = refl

owns_calm : owns settings view owner ≡ true
unfolding program
owns_calm = refl

claim_due_progress_example :
    (claim_due one_row owner (WallTime.at 20) calm).0.status
    ≡ claim_outcome (keep (is_due settings 20) one_row.rows)
claim_due_progress_example =
    claim_due_progress one_row owner 20 calm one_row-IsTable runs_calm owns_calm

complete_status :
    (complete_claim in_flight owner segment.document_id 1 calm).0.status
    ≡ OutboxTransitionStatus.applied
unfolding program
complete_status = refl

complete_claim-applied_example :
    (row : OutboxRow) × InFlight in_flight segment.document_id 1 row
    × ((j : Text)
        → find_row j (complete_claim in_flight owner segment.document_id 1 calm).1.rows
          ≡ (if same j segment.document_id then none else find_row j in_flight.rows))
complete_claim-applied_example =
    complete_claim-applied in_flight owner segment.document_id 1 calm in_flight-IsTable
      complete_status

reschedule_status :
    (reschedule_claim in_flight owner segment.document_id 1 OutboxFailureCategory.retain_timeout
      (WallTime.at 30)
      calm).0.status
    ≡ OutboxTransitionStatus.applied
unfolding program
reschedule_status = refl

reschedule_claim-applied_example :
    let box =
      (reschedule_claim in_flight owner segment.document_id 1 OutboxFailureCategory.retain_timeout
        (WallTime.at 30)
        calm).1 in
    (row : OutboxRow) × InFlight in_flight segment.document_id 1 row
    × (find_row segment.document_id box.rows
        ≡ some (rescheduled (due_again in_flight 1 30) OutboxFailureCategory.retain_timeout 30 row))
    × ((j : Text) → j ≢ segment.document_id → find_row j box.rows ≡ find_row j in_flight.rows)
reschedule_claim-applied_example =
    reschedule_claim-applied in_flight owner segment.document_id 1
      OutboxFailureCategory.retain_timeout 30 calm in_flight-IsTable reschedule_status

stale_two : passes (claimed_attempt 2) (find_row segment.document_id in_flight.rows) ≡ false
unfolding program
stale_two = refl

stale_attempt_refused_example :
    (complete_claim in_flight owner segment.document_id 2 calm ≡ (transition_failed, in_flight))
    × (reschedule_claim in_flight owner segment.document_id 2 OutboxFailureCategory.retain_failed
          (WallTime.at 30)
          calm
        ≡ (transition_failed, in_flight))
stale_attempt_refused_example =
    stale_attempt_refused in_flight owner segment.document_id 2 OutboxFailureCategory.retain_failed
      (WallTime.at 30) calm in_flight-IsTable stale_two

retry_delay_lem_example : retry_delay_seconds 4 5 60 ≡ min (5 * 2 ^ (4 - 1)) 60
retry_delay_lem_example = retry_delay_lem 4 5 60 (omega arith) (omega arith)

abbrev claim_then_close : Run one_row (claim_due one_row owner (WallTime.at 20) calm).1
claim_then_close = then_run (Step.claims one_row owner (WallTime.at 20) calm) (done _)

Run-IsSound_example : IsSound (claim_due one_row owner (WallTime.at 20) calm).1
Run-IsSound_example = Run-IsSound claim_then_close one_row-IsSound

Run-Kept_example :
    Kept stored_row (claim_due one_row owner (WallTime.at 20) calm).1.rows
    ⊎ Confirmed stored_row.document_id claim_then_close
Run-Kept_example = Run-Kept stored_row claim_then_close one_row-IsSound stored_found

acquires : (try_acquire_profile_lock one_row attempt).owner ≡ some owner
unfolding try_acquire_profile_lock revalidate_profile_lock_identity
acquires = refl

view_valid : revalidate_profile_lock_identity settings view true true ≡ true
unfolding revalidate_profile_lock_identity
view_valid = refl

acquire-owner_example :
    (is_some (owner_descriptor settings view owner) ≡ true)
    × (owner_descriptor settings view (release owner).0 ≡ none)
acquire-owner_example = acquire-owner one_row attempt view acquires view_valid

acquire_no_leak_example :
    let r = try_acquire_profile_lock one_row attempt in
    (is_some r.owner ≡ is_acquired r.status)
    × (is_some r.left_open ≡ is_acquired r.status)
    × (r.left_locked ≡ is_acquired r.status)
    × (r.left_open ≡ owned r.owner)
acquire_no_leak_example = acquire_no_leak one_row attempt

recover_sending_lem_example :
    let (result, box) = recover_sending in_flight owner (WallTime.at 40) calm in
    (result.status ≡ OutboxTransitionStatus.applied)
      × NoneSending box.rows
      × (result.affected_count ≡ count_if (λ row. is_sending row.state) in_flight.rows)
      × ((id : Text)
          → find_row id box.rows
            ≡ updated (λ row. is_sending row.state) (recovered 40) (find_row id in_flight.rows))
    ⊎ (result.status ≡ OutboxTransitionStatus.local_failure) × (box ≡ in_flight)
recover_sending_lem_example = recover_sending_lem in_flight owner 40 calm
