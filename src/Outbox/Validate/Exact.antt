-- ===== src/Outbox/Validate/Exact.antt =====
-- When `_validate_candidates` of better_hermes_hindsight/outbox.py gives back just the segments it is
-- handed.
use mathlib.Core.List.{append_assoc, append-nil}
use better_hermes_hindsight.Common.{
  ℕ, ◌+◌, ◌≡◌, refl, ◌≢◌, true, List, [], ◌∷◌, ◌++◌, Option, none, some, Text, text_dec, All, arith,
  if◌then◌else◌, holds, ap, sym, ◌∙◌, subst,
}
use better_hermes_hindsight.Common.Dict.{Dict, get, put, get-put}
use better_hermes_hindsight.Retention.Segment.{RetainedSegment}
use better_hermes_hindsight.Outbox.Types.{Settings}
use better_hermes_hindsight.Outbox.Validate.{
  valid_segment, collect, insert_by_index, sorted_values, numbered_from, complete_turn,
  validate_candidates,
}
use better_hermes_hindsight.Outbox.Validate.Laws.{Distinct, NoDocument}

abbrev entries : List RetainedSegment → Dict Text RetainedSegment
entries [] = []
entries (segment ∷ rest) = (segment.document_id, segment) ∷ entries rest

put-absent :
    (id : Text) (segment : RetainedSegment) (unique : Dict Text RetainedSegment)
    → get text_dec id unique ≡ none
    → put text_dec id segment unique ≡ unique ++ ((id, segment) ∷ [])
unfolding put get
put-absent id segment [] absent = refl
put-absent id segment ((k, s) ∷ unique) absent = ground (arith, put-absent id segment unique)

-- None of the segments stands in the dictionary yet.
abbrev New : Dict Text RetainedSegment → List RetainedSegment → Type 0
New unique = All (λ s. get text_dec s.document_id unique ≡ none)

put-New :
    (segment : RetainedSegment) (unique : Dict Text RetainedSegment) (rest : List RetainedSegment)
    → NoDocument segment.document_id rest
    → New unique rest
    → New (put text_dec segment.document_id segment unique) rest
put-New segment unique [] distinct new = tt
put-New segment unique (next ∷ rest) distinct new = (
  get-put text_dec segment.document_id next.document_id segment unique
      ∙ elim (text_dec segment.document_id next.document_id)
          as (λ d.
            (if holds d then some segment else get text_dec next.document_id unique) ≡ none) [
              | yes e ↦ absurd (distinct.0 (sym e))
              | no _ ↦ new.0
            ],
  put-New segment unique rest distinct.1 new.1,
)

collect-New :
    (settings : Settings) (unique : Dict Text RetainedSegment) (repeated : ℕ)
    (segments : List RetainedSegment)
    → All (λ s. valid_segment settings s ≡ true) segments
    → Distinct segments
    → New unique segments
    → collect settings unique repeated segments ≡ some (unique ++ entries segments, repeated)
unfolding collect
collect-New settings unique repeated [] valid distinct new =
    ap (λ u. some (u, repeated)) (sym (append-nil unique))
collect-New settings unique repeated (segment ∷ rest) valid distinct new =
    let later =
      collect-New settings (put text_dec segment.document_id segment unique) repeated rest valid.1
        distinct.1 (put-New segment unique rest distinct.0 new.1) in
    let extended =
      ap (λ u. u ++ entries rest) (put-absent segment.document_id segment unique new.0)
      ∙ append_assoc unique ((segment.document_id, segment) ∷ []) (entries rest) in
    rw (valid.0, new.0) (later ∙ ap (λ u. some (u, repeated)) extended)

sorted_values-entries :
    (index : ℕ) (segments : List RetainedSegment)
    → numbered_from index segments ≡ true
    → sorted_values (entries segments) ≡ segments
unfolding sorted_values numbered_from insert_by_index
sorted_values-entries index [] numbered = refl
sorted_values-entries index (segment ∷ []) numbered = refl
sorted_values-entries index (segment ∷ next ∷ rest) numbered =
    let later = sorted_values-entries (index + 1) (next ∷ rest) (ground (arith, numbered)) in
    rw later (ground (arith, numbered))

complete-numbered :
    (settings : Settings) (segments : List RetainedSegment)
    → complete_turn settings segments ≡ true
    → numbered_from 0 segments ≡ true
unfolding complete_turn
complete-numbered settings [] h = cc
complete-numbered settings (first ∷ rest) h = ground (arith, h)

no_turn : (settings : Settings) → complete_turn settings [] ≢ true
unfolding complete_turn
no_turn settings h = cc

all-New : (segments : List RetainedSegment) → New [] segments
unfolding get
all-New [] = tt
all-New (segment ∷ rest) = (refl, all-New rest)

-- A complete turn of valid segments of distinct documents is given back as it is.
pub validate_candidates-Distinct :
    (settings : Settings) (segments : List RetainedSegment)
    → All (λ s. valid_segment settings s ≡ true) segments
    → Distinct segments
    → complete_turn settings segments ≡ true
    → validate_candidates settings segments ≡ some (segments, 0)
unfolding validate_candidates
validate_candidates-Distinct settings [] valid distinct complete =
    absurd (no_turn settings complete)
validate_candidates-Distinct settings (first ∷ rest) valid distinct complete =
    let segments = first ∷ rest in
    let collected = collect-New settings [] 0 segments valid distinct (all-New segments) in
    let sorted = sorted_values-entries 0 segments (complete-numbered settings segments complete) in
    let accept : List RetainedSegment → Option (List RetainedSegment × ℕ) =
      λ l. if complete_turn settings l then some (l, 0) else none in
    let accepted : accept segments ≡ some (segments, 0) = rw complete refl in
    rw (collected, validate_candidates)
      (subst (λ l. accept l ≡ some (segments, 0)) (sym sorted) accepted)
