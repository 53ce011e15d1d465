-- ===== src/Outbox/Claims/Claim.antt =====
-- What `claim_due` and `recover_sending` of better_hermes_hindsight/outbox.py do to the table.
use better_hermes_hindsight.Common.{
  false, ◌⊎◌, ◌&&◌, List, [], ◌∷◌, none, count_if, keep, All, ℕ, ◌≡◌, refl, ◌≢◌, true, some, keep,
  Text, arith, In, In-keep, Option-cases, Bool-cases, inl, inr, count_if, ◌∙◌,
}
use better_hermes_hindsight.Outbox.Types.{
  OutboxTransitionStatus, is_sending, SqliteOutbox, OutboxRow, find_row, OutboxClaimStatus,
  WallTime,
}
use better_hermes_hindsight.Outbox.Order.{IsFirst, first_row, first_row_lem}
use better_hermes_hindsight.Outbox.Lock.{ProfileLockOwner}
use better_hermes_hindsight.Outbox.Table.{
  updated, find_row-update_where, IsTable, update_where, find_row-update_self,
  find_row-update_others, find_row_of_In, count_at_key, at_key,
}
use better_hermes_hindsight.Outbox.Claims.{
  recover_sending, recovered, Env, owns, may_run, is_due, sent, still_due, claim_due, claim_record,
}

-- What a claim of `row` at time `now` says of the table before it, and of the one after it.
pub record Claims (now : ℕ) (box box' : SqliteOutbox) (row : OutboxRow) : Type 0 where
  pub found : OutboxRow
  pub stored : find_row found.document_id box.rows ≡ some found
  pub due : is_due box.settings now found ≡ true
  pub first : IsFirst found (keep (is_due box.settings now) box.rows)
  pub returned : row ≡ sent now found
  pub marked : find_row found.document_id box'.rows ≡ some row
  pub others : (id : Text) → id ≢ found.document_id → find_row id box'.rows ≡ find_row id box.rows
  pub settings : box'.settings ≡ box.settings

still_due_self :
    (box : SqliteOutbox) (now : ℕ) (found : OutboxRow)
    → is_due box.settings now found ≡ true
    → still_due found now found ≡ true
still_due_self box now found due = ground arith

claim_record_lem :
    (box : SqliteOutbox) (owner : ProfileLockOwner) (now : ℕ) (env : Env) (found : OutboxRow)
    → IsTable box.rows
    → find_row found.document_id box.rows ≡ some found
    → is_due box.settings now found ≡ true
    → owns box.settings env.after owner ≡ true
    → claim_record box owner now env found ≡ (
      record { status = OutboxClaimStatus.claimed; row = some (sent now found) },
      record box {
        rows = update_where (at_key found.document_id (still_due found now)) (sent now) box.rows;
      },
    )
unfolding claim_record
claim_record_lem box owner now env found table stored due owned =
    let counted : count_if (at_key found.document_id (still_due found now)) box.rows ≡ 1 =
      count_at_key found.document_id (still_due found now) box.rows table
      ∙ rw (stored, still_due_self box now found due) in
    rw (counted, owned)

claim_record-Claims :
    (box : SqliteOutbox) (now : ℕ) (found : OutboxRow)
    → IsTable box.rows
    → In found (keep (is_due box.settings now) box.rows)
    → IsFirst found (keep (is_due box.settings now) box.rows)
    → Claims now box
        (record box {
          rows = update_where (at_key found.document_id (still_due found now)) (sent now) box.rows;
        })
        (sent now found)
claim_record-Claims box now found table member first =
    let (listed, due) = In-keep found (is_due box.settings now) box.rows member in
    let stored = find_row_of_In found box.rows table listed in
    record {
      found = found;
      stored = stored;
      due = due;
      first = first;
      returned = refl;
      marked =
          find_row-update_self found.document_id (still_due found now) (sent now) (λ row. refl)
            box.rows stored (still_due_self box now found due);
      others = λ id.
          find_row-update_others found.document_id (still_due found now) (sent now) (λ row. refl) id
            box.rows;
      settings = refl;
    }

claim_due_cases :
    (box : SqliteOutbox) (owner : ProfileLockOwner) (now : ℕ) (env : Env)
    → IsTable box.rows
    → let (result, box') = claim_due box owner (WallTime.at now) env in
      result.status ≡ OutboxClaimStatus.claimed
      → (row : OutboxRow) × (result.row ≡ some row) × Claims now box box' row
unfolding claim_due
claim_due_cases box owner now env table = elim (Bool-cases (may_run box owner env)) [
  | inr stopped ↦ rw stopped (λ h. cc)
  | inl runs ↦ rw runs (elim (Option-cases (first_row (keep (is_due box.settings now) box.rows))) [
    | inl nothing ↦ rw nothing (λ h. cc)
    | inr (found, is_first) ↦ rw is_first (
        let (member, first) = first_row_lem (keep (is_due box.settings now) box.rows) is_first in
        let (listed, due) = In-keep found (is_due box.settings now) box.rows member in
        let stored = find_row_of_In found box.rows table listed in
        elim (Bool-cases (owns box.settings env.after owner)) [
          | inl owned ↦
              rw (claim_record_lem box owner now env found table stored due owned)
                (λ h. (sent now found, refl, claim_record-Claims box now found table member first))
          | inr lost ↦ unfold claim_record in rw lost (ground arith)
        ])
  ])
]

-- From a table with unique keys, a claim that succeeds takes the first of the due rows: it is stored,
-- pending, due and of an accepted destination, and no due row stands before it. The row returned is
-- the row stored afterwards, in state `sending` with one more attempt, and no other row is touched.
pub claim_due-Claims :
    (box : SqliteOutbox) (owner : ProfileLockOwner) (now : ℕ) (env : Env)
    → IsTable box.rows
    → (claim_due box owner (WallTime.at now) env).0.status ≡ OutboxClaimStatus.claimed
    → (row : OutboxRow) × ((claim_due box owner (WallTime.at now) env).0.row ≡ some row)
      × Claims now box (claim_due box owner (WallTime.at now) env).1 row
claim_due-Claims box owner now env table h = claim_due_cases box owner now env table h

abbrev pub claim_outcome : List OutboxRow → OutboxClaimStatus
claim_outcome [] = OutboxClaimStatus.empty
claim_outcome (_ ∷ _) = OutboxClaimStatus.claimed

first_row-none : (rows : List OutboxRow) → first_row rows ≡ none → rows ≡ []
unfolding first_row
first_row-none [] h = refl
first_row-none (row ∷ rows) h = cc

claim_outcome-some :
    (rows : List OutboxRow) {row : OutboxRow}
    → first_row rows ≡ some row
    → claim_outcome rows ≡ OutboxClaimStatus.claimed
unfolding first_row
claim_outcome-some [] h = cc
claim_outcome-some (row ∷ rows) h = refl

-- Where the outbox is open, the caller owns the lock throughout, and no statement raises, a claim
-- reports `claimed` if some row is due and `empty` if none is: the guarded update never misses.
pub claim_due_progress :
    (box : SqliteOutbox) (owner : ProfileLockOwner) (now : ℕ) (env : Env)
    → IsTable box.rows
    → may_run box owner env ≡ true
    → owns box.settings env.after owner ≡ true
    → (claim_due box owner (WallTime.at now) env).0.status
      ≡ claim_outcome (keep (is_due box.settings now) box.rows)
unfolding claim_due
claim_due_progress box owner now env table runs owned =
    rw runs (elim (Option-cases (first_row (keep (is_due box.settings now) box.rows))) [
      | inl nothing ↦ rw (nothing, first_row-none (keep (is_due box.settings now) box.rows) nothing)
      | inr (found, is_first) ↦
          let (member, first) = first_row_lem (keep (is_due box.settings now) box.rows) is_first in
          let (listed, due) = In-keep found (is_due box.settings now) box.rows member in
          let stored = find_row_of_In found box.rows table listed in
          rw (
            is_first,
            claim_record_lem box owner now env found table stored due owned,
            claim_outcome-some (keep (is_due box.settings now) box.rows) is_first,
          )
    ])

-- A claim that does not report `claimed` leaves the outbox as it was and returns no row.
pub claim_due_unclaimed :
    (box : SqliteOutbox) (owner : ProfileLockOwner) (now : WallTime) (env : Env)
    → (claim_due box owner now env).0.status ≢ OutboxClaimStatus.claimed
    → ((claim_due box owner now env).1 ≡ box) × ((claim_due box owner now env).0.row ≡ none)
unfolding claim_due claim_record
claim_due_unclaimed box owner now env h = ground arith

-- No row is in state `sending`.
abbrev pub NoneSending : List OutboxRow → Type 0
NoneSending = All (λ row. is_sending row.state ≡ false)

recovered-NoneSending :
    (now : ℕ) (rows : List OutboxRow)
    → NoneSending (update_where (λ row. is_sending row.state) (recovered now) rows)
unfolding update_where
recovered-NoneSending now [] = tt
recovered-NoneSending now (row ∷ rows) = (ground arith, recovered-NoneSending now rows)

-- A recovery that is applied leaves no row in state `sending` and reports how many it reset. Each of
-- those is due at the time of recovery, and every row keeps its attempts and its last error; a
-- recovery that fails changes nothing.
pub recover_sending_lem :
    (box : SqliteOutbox) (owner : ProfileLockOwner) (now : ℕ) (env : Env)
    → let (result, box') = recover_sending box owner (WallTime.at now) env in
      (result.status ≡ OutboxTransitionStatus.applied)
        × NoneSending box'.rows
        × (result.affected_count ≡ count_if (λ row. is_sending row.state) box.rows)
        × ((id : Text)
            → find_row id box'.rows
              ≡ updated (λ row. is_sending row.state) (recovered now) (find_row id box.rows))
      ⊎ (result.status ≡ OutboxTransitionStatus.local_failure) × (box' ≡ box)
unfolding recover_sending
recover_sending_lem box owner now env =
    elim (Bool-cases (may_run box owner env && owns box.settings env.after owner)) [
      | inl runs ↦ rw runs (
          inl (
            refl,
            recovered-NoneSending now box.rows,
            refl,
            λ id.
                find_row-update_where (λ row. is_sending row.state) (recovered now) (λ row. refl) id
                  box.rows,
          ))
      | inr stopped ↦ rw stopped (inr (refl, refl))
    ]
