-- ===== src/Outbox/Admission/Laws.antt =====
-- How the two loops of `_admit_in_transaction` (better_hermes_hindsight/outbox.py) meet the table.
use mathlib.Core.List.{append_assoc, append-nil}
use better_hermes_hindsight.Common.{
  ℕ, ◌+◌, ◌≡◌, refl, ◌≢◌, true, List, [], ◌∷◌, ◌++◌, none, some, map, Text, length, All, arith,
  Bool-cases, Option-cases, inl, inr, sym, subst, ◌∙◌, ap,
}
use better_hermes_hindsight.Retention.Segment.{RetainedSegment}
use better_hermes_hindsight.Outbox.Types.{
  Settings, OutboxRow, find_row, row_immutable_values, segment_immutable_values, new_row,
}
use better_hermes_hindsight.Outbox.Table.{IsTable, find_row-append}
use better_hermes_hindsight.Outbox.Validate.{fingerprint}
use better_hermes_hindsight.Outbox.Validate.Laws.{NoDocument, Distinct}
use better_hermes_hindsight.Outbox.Admission.{classify, insert_rows, new_row_of, holds_segment}

-- None of the segments is stored.
abbrev pub AllNew : List OutboxRow → List RetainedSegment → Type 0
AllNew rows = All (λ segment. find_row segment.document_id rows ≡ none)

-- The segment is stored with exactly its values.
pub record Stored (settings : Settings) (rows : List OutboxRow) (segment : RetainedSegment)
    : Type 0 where
  pub row : OutboxRow
  pub found : find_row segment.document_id rows ≡ some row
  pub values :
      row_immutable_values row ≡ segment_immutable_values segment (fingerprint settings segment)

find_row-skip :
    (id : Text) (rows : List OutboxRow) (row : OutboxRow) (more : List OutboxRow)
    → row.document_id ≢ id
    → find_row id (rows ++ row ∷ more) ≡ find_row id (rows ++ more)
unfolding find_row
find_row-skip id [] row more other = ground arith
find_row-skip id (r ∷ rows) row more other = ground (arith, find_row-skip id rows row more other)

find_row-here :
    (rows : List OutboxRow) (row : OutboxRow) (more : List OutboxRow)
    → find_row row.document_id rows ≡ none
    → find_row row.document_id (rows ++ row ∷ more) ≡ some row
unfolding find_row
find_row-here [] row more absent = ground arith
find_row-here (r ∷ rows) row more absent = ground (arith, find_row-here rows row more)

find_row-kept :
    (id : Text) (rows more : List OutboxRow) {row : OutboxRow}
    → find_row id rows ≡ some row
    → find_row id (rows ++ more) ≡ some row
find_row-kept id rows more stored = ground (arith, find_row-append id rows more)

IsTable-snoc :
    (rows : List OutboxRow) (row : OutboxRow)
    → IsTable rows
    → find_row row.document_id rows ≡ none
    → IsTable (rows ++ row ∷ [])
unfolding find_row
IsTable-snoc [] row table absent = (refl, tt)
IsTable-snoc (r ∷ rows) row table absent = (
  ground (arith, find_row-append r.document_id rows (row ∷ [])),
  IsTable-snoc rows row table.1 (ground arith),
)

-- An insertion that the primary key lets through keeps the keys unique.
pub insert_rows-IsTable :
    (rows more : List OutboxRow) {rows' : List OutboxRow}
    → IsTable rows
    → insert_rows rows more ≡ some rows'
    → IsTable rows'
unfolding insert_rows
insert_rows-IsTable rows [] {rows'} table h = let e : rows ≡ rows' = cc in subst IsTable e table
insert_rows-IsTable rows (row ∷ more) table h =
    elim (Option-cases (find_row row.document_id rows)) [
      | inl absent ↦
          insert_rows-IsTable (rows ++ row ∷ []) more (IsTable-snoc rows row table absent)
            (rw (absent, insert_rows) at h)
      | inr (other, present) ↦ cc (rw (present, insert_rows) at h)
    ]

AllNew-snoc :
    (settings : Settings) (timestamp : ℕ) (rows : List OutboxRow) (segment : RetainedSegment)
    (new : List RetainedSegment)
    → NoDocument segment.document_id new
    → AllNew rows new
    → AllNew (rows ++ new_row_of settings timestamp segment ∷ []) new
unfolding new_row find_row
AllNew-snoc settings timestamp rows segment [] distinct absent = tt
AllNew-snoc settings timestamp rows segment (other ∷ new) distinct absent = (
  ground
      (arith, find_row-append other.document_id rows (new_row_of settings timestamp segment ∷ [])),
  AllNew-snoc settings timestamp rows segment new distinct.1 absent.1,
)

-- Distinct documents that are not stored are inserted, one row each: the primary key never refuses.
pub insert_rows_lem :
    (settings : Settings) (timestamp : ℕ) (rows : List OutboxRow) (new : List RetainedSegment)
    → AllNew rows new
    → Distinct new
    → insert_rows rows (map (new_row_of settings timestamp) new)
      ≡ some (rows ++ map (new_row_of settings timestamp) new)
unfolding insert_rows new_row
insert_rows_lem settings timestamp rows [] absent distinct = rw append-nil
insert_rows_lem settings timestamp rows (segment ∷ new) absent distinct =
    let row = new_row_of settings timestamp segment in
    rw (absent.0, insert_rows)
      (insert_rows_lem settings timestamp (rows ++ row ∷ []) new
          (AllNew-snoc settings timestamp rows segment new distinct.0 absent.1) distinct.1
        ∙ ap some (append_assoc rows (row ∷ []) (map (new_row_of settings timestamp) new)))

-- What the first loop found.
pub record Classified (settings : Settings) (rows : List OutboxRow)
    (candidates new : List RetainedSegment) (duplicates count : ℕ) : Type 0 where
  pub distinct : Distinct new
  pub absent : AllNew rows new
  pub counted : length new + count ≡ length candidates + duplicates
  pub among : (id : Text) → NoDocument id candidates → NoDocument id new
  pub stored :
      (timestamp : ℕ)
      → All (Stored settings (rows ++ map (new_row_of settings timestamp) new)) candidates

module _ (settings : Settings) (rows : List OutboxRow) where
  Stored-skip :
      (timestamp : ℕ) (segment : RetainedSegment) (new others : List RetainedSegment)
      → NoDocument segment.document_id others
      → All (Stored settings (rows ++ map (new_row_of settings timestamp) new)) others
      → All (Stored settings (rows ++ map (new_row_of settings timestamp) (segment ∷ new))) others
  unfolding new_row
  Stored-skip timestamp segment new [] distinct stored = tt
  Stored-skip timestamp segment new (other ∷ others) distinct stored = (
    record {
      row = stored.0.row;
      found =
          find_row-skip other.document_id rows (new_row_of settings timestamp segment)
            (map (new_row_of settings timestamp) new) (λ e. distinct.0 (sym e))
          ∙ stored.0.found;
      values = stored.0.values;
    },
    Stored-skip timestamp segment new others distinct.1 stored.1,
  )

  Classified-fresh :
      (segment : RetainedSegment) (candidates new : List RetainedSegment) (duplicates count : ℕ)
      → NoDocument segment.document_id candidates
      → find_row segment.document_id rows ≡ none
      → Classified settings rows candidates new duplicates count
      → Classified settings rows (segment ∷ candidates) (segment ∷ new) duplicates count
  unfolding new_row segment_immutable_values
  Classified-fresh segment candidates new duplicates count distinct absent c = record {
    distinct = (c.among segment.document_id distinct, c.distinct);
    absent = (absent, c.absent);
    counted = omega (arith, c.counted);
    among = λ id h. (h.0, c.among id h.1);
    stored = λ timestamp. (
      record {
        row = new_row_of settings timestamp segment;
        found =
            find_row-here rows (new_row_of settings timestamp segment)
              (map (new_row_of settings timestamp) new) absent;
        values = refl;
      },
      Stored-skip timestamp segment new candidates distinct (c.stored timestamp),
    );
  }

  Classified-again :
      (segment : RetainedSegment) (candidates new : List RetainedSegment) (duplicates count : ℕ)
      (row : OutboxRow)
      → find_row segment.document_id rows ≡ some row
      → holds_segment settings row segment ≡ true
      → Classified settings rows candidates new (duplicates + 1) count
      → Classified settings rows (segment ∷ candidates) new duplicates count
  unfolding holds_segment
  Classified-again segment candidates new duplicates count row present agrees c = record {
    distinct = c.distinct;
    absent = c.absent;
    counted = omega (arith, c.counted);
    among = λ id h. c.among id h.1;
    stored = λ timestamp. (
      record {
        row = row;
        found =
            find_row-kept segment.document_id rows (map (new_row_of settings timestamp) new)
              present;
        values = ground arith;
      },
      c.stored timestamp,
    );
  }

  pub classify-Classified :
      (candidates : List RetainedSegment) (duplicates : ℕ) {new : List RetainedSegment} {count : ℕ}
      → Distinct candidates
      → classify settings rows candidates duplicates ≡ some (new, count)
      → Classified settings rows candidates new duplicates count
  unfolding classify
  classify-Classified [] duplicates {new} {count} distinct h =
      let same_new : [] ≡ new = cc in
      let same_count : duplicates ≡ count = cc in
      subst (λ l. Classified settings rows [] l duplicates count) same_new
        (subst (λ c. Classified settings rows [] [] duplicates c) same_count
          (record {
            distinct = tt;
            absent = tt;
            counted = omega arith;
            among = λ id h. tt;
            stored = λ timestamp. tt;
          }))
  classify-Classified (segment ∷ candidates) duplicates {new} {count} distinct h =
      elim (Option-cases (find_row segment.document_id rows)) [
        | inl absent ↦ elim (Option-cases (classify settings rows candidates duplicates)) [
          | inl conflict ↦ cc (rw (absent, conflict, classify) at h)
          | inr ((new', count'), rest) ↦
              let pair = rw (absent, rest, classify) at h in
              let same_new : segment ∷ new' ≡ new = cc pair in
              let same_count : count' ≡ count = cc pair in
              subst (λ l. Classified settings rows (segment ∷ candidates) l duplicates count)
                same_new
                (subst
                  (λ c.
                    Classified settings rows (segment ∷ candidates) (segment ∷ new') duplicates c)
                  same_count
                  (Classified-fresh segment candidates new' duplicates count' distinct.0 absent
                    (classify-Classified candidates duplicates distinct.1 rest)))
        ]
        | inr (row, present) ↦ elim (Bool-cases (holds_segment settings row segment)) [
          | inr differs ↦ cc (rw (present, differs, classify) at h)
          | inl agrees ↦
              Classified-again segment candidates new duplicates count row present agrees (
                classify-Classified candidates (duplicates + 1) distinct.1
                  (rw (present, agrees, classify) at h))
        ]
      ]
