-- ===== src/Sender/Runs.antt =====
-- What the protocol of the sender in better_hermes_hindsight/runtime.py gives for the outbox.
use better_hermes_hindsight.Common.{
  ℕ, ◌≡◌, refl, List, [], ◌∷◌, some, inl, inr, ◌⊎◌, ◌∙◌, ap, sym, subst, Text,
}
use better_hermes_hindsight.Outbox.Types.{
  SqliteOutbox, OutboxRow, find_row, OutboxClaimStatus, WallTime,
}
use better_hermes_hindsight.Outbox.Lock.{ProfileLockOwner}
use better_hermes_hindsight.Outbox.Table.{find_row-In}
use better_hermes_hindsight.Outbox.Admission.{admit}
use better_hermes_hindsight.Outbox.Claims.{Env, claim_due, complete_claim, sent}
use better_hermes_hindsight.Outbox.Claims.Claim.{claim_due-Claims}
use better_hermes_hindsight.Outbox.Lifecycle.{
  Step, admits, recovers, claims, completes, reschedules, IsSound, Kept,
}
use better_hermes_hindsight.Outbox.Lifecycle.Runs.{
  Run, done, then_run, Run-IsSound, Run-Kept, Step-Kept, Confirmed, Kept-trans,
}
use better_hermes_hindsight.Sender.{
  RetainSegment, ClientResponse, SenderAction, OutboxSender, Moment, Arrival, admit_all,
}
use better_hermes_hindsight.Sender.Loop.{run}
use better_hermes_hindsight.Sender.Moves.{
  World, Carries, Move, admits_all, recovers_as, claims_as, reschedules_as, notes, delivers, Moves,
  still, moves,
}
use better_hermes_hindsight.Sender.Moves.Turns.{run-Moves}

Run-trans : {a b c : SqliteOutbox} → Run a b → Run b c → Run a c
Run-trans (done box) later = later
Run-trans (then_run step first) later = then_run step (Run-trans first later)

Run-of_Step : {a b : SqliteOutbox} → Step a b → Run a b
Run-of_Step {b} step = then_run step (done b)

admit_all-Run : (arrivals : List Arrival) (box : SqliteOutbox) → Run box (admit_all arrivals box)
unfolding admit_all
admit_all-Run [] box = done box
admit_all-Run (a ∷ later) box =
    then_run (admits box a.fault a.timestamp a.segments)
      (admit_all-Run later (admit box a.fault a.timestamp a.segments).1)

Move-Run : {w w' : World} → Move w w' → Run w.box w'.box
Move-Run (admits_all w arrivals) = admit_all-Run arrivals w.box
Move-Run (recovers_as w owner now env) = Run-of_Step (recovers w.box owner now env)
Move-Run (claims_as w owner now env) = Run-of_Step (claims w.box owner now env)
Move-Run (reschedules_as w owner id attempt category completed_at env) =
    Run-of_Step (reschedules w.box owner id attempt category completed_at env)
Move-Run (notes w action) = done w.box
Move-Run (delivers w owner now env finish row arrivals segment claimed returned carries) =
    let claimed_box = (claim_due w.box owner now env).1 in
    then_run (claims w.box owner now env) (
      Run-trans (admit_all-Run arrivals claimed_box) (
        Run-of_Step (
          completes (admit_all arrivals claimed_box) owner row.document_id row.attempt_count
            finish)))

-- Some segment with the identity and the content of `row` was handed to the client and confirmed.
abbrev pub HandedOver : OutboxRow → SenderAction → Type 0
HandedOver row action =
    (segment : RetainSegment) × (action ≡ SenderAction.retained segment ClientResponse.confirmed)
    × Carries segment row

abbrev pub Delivered : OutboxRow → List SenderAction → Type 0
Delivered row [] = ⊥
Delivered row (action ∷ trace) = HandedOver row action ⊎ Delivered row trace

Move-Delivered :
    {w w' : World} (row : OutboxRow) → Move w w' → Delivered row w.trace → Delivered row w'.trace
Move-Delivered row (admits_all w arrivals) h = h
Move-Delivered row (recovers_as w owner now env) h = h
Move-Delivered row (claims_as w owner now env) h = h
Move-Delivered row (reschedules_as w owner id attempt category completed_at env) h = h
Move-Delivered row (notes w action) h = inr h
Move-Delivered row (delivers w owner now env finish r arrivals segment a b c) h = inr h

Moves-Delivered :
    {w w' : World} (row : OutboxRow) → Moves w w' → Delivered row w.trace → Delivered row w'.trace
Moves-Delivered row (still w) h = h
Moves-Delivered row (moves step later) h = Moves-Delivered row later (Move-Delivered row step h)

-- Only a completion confirms.
admit_all_unconfirmed :
    (arrivals : List Arrival) (box : SqliteOutbox) (id : Text)
    → Confirmed id (admit_all-Run arrivals box)
    → ⊥
unfolding admit_all-Run admit_all
admit_all_unconfirmed [] box id h = h
admit_all_unconfirmed (a ∷ later) box id (inl h) = elim h [ ]
admit_all_unconfirmed (a ∷ later) box id (inr h) =
    admit_all_unconfirmed later (admit box a.fault a.timestamp a.segments).1 id h

claimed_time :
    (box : SqliteOutbox) (owner : ProfileLockOwner) (now : WallTime) (env : Env)
    → (claim_due box owner now env).0.status ≡ OutboxClaimStatus.claimed
    → (t : ℕ) × (now ≡ WallTime.at t)
unfolding claim_due
claimed_time box owner (WallTime.at t) env h = (t, refl)
claimed_time box owner WallTime.wrong_type env h = cc
claimed_time box owner WallTime.negative env h = cc
claimed_time box owner WallTime.not_finite env h = cc

some_injective : {A : Type 0} {x y : A} → some x ≡ some y → x ≡ y
some_injective h = cc

-- The segment that carries the claimed row carries the stored one.
claimed-HandedOver :
    (box : SqliteOutbox) (owner : ProfileLockOwner) (now : WallTime) (env : Env)
    (row stored_row : OutboxRow) (segment : RetainSegment)
    → IsSound box
    → (claim_due box owner now env).0.status ≡ OutboxClaimStatus.claimed
    → (claim_due box owner now env).0.row ≡ some row
    → Carries segment row
    → find_row stored_row.document_id box.rows ≡ some stored_row
    → row.document_id ≡ stored_row.document_id
    → HandedOver stored_row (SenderAction.retained segment ClientResponse.confirmed)
claimed-HandedOver box owner now env row stored_row segment sound claimed returned carries stored
      named =
    let (t, at_t) = claimed_time box owner now env claimed in
    let status_t =
      subst (λ n. (claim_due box owner n env).0.status ≡ OutboxClaimStatus.claimed) at_t claimed in
    let row_t = subst (λ n. (claim_due box owner n env).0.row ≡ some row) at_t returned in
    let (row', returned', c) = claim_due-Claims box owner t env sound.table status_t in
    let same_row : row ≡ row' = some_injective (sym row_t ∙ returned') in
    let named' : c.found.document_id ≡ stored_row.document_id =
      sym (ap (λ r. r.document_id) (same_row ∙ c.returned)) ∙ named in
    let again = subst (λ id. find_row id box.rows ≡ some stored_row) (sym named') stored in
    let same_found : c.found ≡ stored_row = some_injective (sym c.stored ∙ again) in
    let text : (f : OutboxRow → Text) → f (sent t c.found) ≡ f c.found → f row ≡ f stored_row =
      λ f kept. ap f (same_row ∙ c.returned) ∙ kept ∙ ap f same_found in
    let number : (f : OutboxRow → ℕ) → f (sent t c.found) ≡ f c.found → f row ≡ f stored_row =
      λ f kept. ap f (same_row ∙ c.returned) ∙ kept ∙ ap f same_found in
    (
      segment,
      refl,
      record {
        document_id = carries.document_id ∙ named;
        content = carries.content ∙ text (λ r. r.content) refl;
        payload_schema = carries.payload_schema ∙ text (λ r. r.payload_schema) refl;
        source_sha256 = carries.source_sha256 ∙ text (λ r. r.source_sha256) refl;
        segment_index = carries.segment_index ∙ number (λ r. r.segment_index) refl;
        segment_count = carries.segment_count ∙ number (λ r. r.segment_count) refl;
      },
    )

only : {A : Type 0} → A ⊎ ⊥ → A
only (inl a) = a
only (inr h) = elim h [ ]

module _ (row : OutboxRow) where
  -- A stored row is found again under the key of what it has become.
  restored :
      {rows : List OutboxRow} (k : Kept row rows) → find_row k.now.document_id rows ≡ some k.now
  restored {rows} k =
      subst (λ id. find_row id rows ≡ some k.now) (sym (find_row-In row.document_id rows k.found).1)
        k.found

  delivers-Kept :
      (w : World) (owner : ProfileLockOwner) (now : WallTime) (env finish : Env) (r : OutboxRow)
      (arrivals : List Arrival) (segment : RetainSegment)
      → IsSound w.box
      → find_row row.document_id w.box.rows ≡ some row
      → (claim_due w.box owner now env).0.status ≡ OutboxClaimStatus.claimed
      → (claim_due w.box owner now env).0.row ≡ some r
      → Carries segment r
      → let box = admit_all arrivals (claim_due w.box owner now env).1 in
        Kept row (complete_claim box owner r.document_id r.attempt_count finish).1.rows
        ⊎ HandedOver row (SenderAction.retained segment ClientResponse.confirmed)
  delivers-Kept w owner now env finish r arrivals segment sound stored claimed returned carries =
      let before =
        then_run (claims w.box owner now env)
          (admit_all-Run arrivals (claim_due w.box owner now env).1) in
      elim (Run-Kept row before sound stored) [
        | inr (inl h) ↦ elim h [ ]
        | inr (inr h) ↦ absurd (admit_all_unconfirmed arrivals _ row.document_id h)
        | inl k ↦
            elim (Step-Kept k.now (completes _ owner r.document_id r.attempt_count finish)
              (Run-IsSound before sound) (restored k)) [
                | inl later ↦ inl (Kept-trans row _ _ k later)
                | inr (named, applied) ↦ inr (
                    claimed-HandedOver w.box owner now env r row segment sound claimed returned
                      carries stored (named ∙ (find_row-In row.document_id _ k.found).1))
              ]
      ]

  Move-Kept :
      {w w' : World} (step : Move w w')
      → IsSound w.box
      → find_row row.document_id w.box.rows ≡ some row
      → Kept row w'.box.rows ⊎ Delivered row w'.trace
  Move-Kept (delivers w owner now env finish r arrivals segment claimed returned carries) sound
        stored =
      elim (delivers-Kept w owner now env finish r arrivals segment sound stored claimed returned
        carries) [ inl k ↦ inl k | inr h ↦ inr (inl h) ]
  Move-Kept (admits_all w arrivals) sound stored =
      elim (Run-Kept row (admit_all-Run arrivals w.box) sound stored) [
        | inl k ↦ inl k
        | inr h ↦ absurd (admit_all_unconfirmed arrivals w.box row.document_id h)
      ]
  Move-Kept (recovers_as w owner now env) sound stored =
      inl (only (Step-Kept row (recovers w.box owner now env) sound stored))
  Move-Kept (claims_as w owner now env) sound stored =
      inl (only (Step-Kept row (claims w.box owner now env) sound stored))
  Move-Kept (reschedules_as w owner id attempt category completed_at env) sound stored = inl (
      only
        (Step-Kept row (reschedules w.box owner id attempt category completed_at env) sound stored))
  Move-Kept (notes w action) sound stored = inl (only (Run-Kept row (done w.box) sound stored))

  Carries-now :
      {rows : List OutboxRow} (k : Kept row rows) (segment : RetainSegment)
      → Carries segment k.now
      → Carries segment row
  Carries-now {rows} k segment c = record {
    document_id = c.document_id ∙ (find_row-In row.document_id rows k.found).1;
    content = c.content ∙ ap (λ v. v.content) k.values;
    payload_schema = c.payload_schema ∙ ap (λ v. v.payload_schema) k.values;
    source_sha256 = c.source_sha256 ∙ ap (λ v. v.source_sha256) k.values;
    segment_index = c.segment_index ∙ ap (λ v. v.segment_index) k.values;
    segment_count = c.segment_count ∙ ap (λ v. v.segment_count) k.values;
  }

  Delivered-now :
      {rows : List OutboxRow} (k : Kept row rows) (trace : List SenderAction)
      → Delivered k.now trace
      → Delivered row trace
  Delivered-now k [] h = h
  Delivered-now k (action ∷ trace) (inl (segment, e, c)) = inl (segment, e, Carries-now k segment c)
  Delivered-now k (action ∷ trace) (inr h) = inr (Delivered-now k trace h)

Moves-Kept :
    {w w' : World} (row : OutboxRow) (path : Moves w w')
    → IsSound w.box
    → find_row row.document_id w.box.rows ≡ some row
    → Kept row w'.box.rows ⊎ Delivered row w'.trace
Moves-Kept row (still w) sound stored = inl (only (Run-Kept row (done w.box) sound stored))
Moves-Kept row (moves {w' = middle} {w'' = last} step later) sound stored =
    elim (Move-Kept row step sound stored) [
      | inr delivered ↦ inr (Moves-Delivered row later delivered)
      | inl k ↦ elim (Moves-Kept k.now later (Run-IsSound (Move-Run step) sound) (restored row k)) [
        | inl kept ↦ inl (Kept-trans row middle.box.rows last.box.rows k kept)
        | inr delivered ↦ inr (Delivered-now row k last.trace delivered)
      ]
    ]

-- At-least-once delivery: whatever moments the sender meets, a row stored in its outbox, which is sound, is
-- afterwards still stored, with its immutable values and no fewer attempts, or a segment with every
-- value of the row was handed to the client and confirmed.
pub run-Kept :
    (moments : List Moment) (s : OutboxSender) (row : OutboxRow)
    → IsSound s.outbox
    → find_row row.document_id s.outbox.rows ≡ some row
    → Kept row (run moments s).outbox.rows ⊎ Delivered row (run moments s).trace
run-Kept moments s row = Moves-Kept row (run-Moves moments s)
