-- ===== src/Outbox/Validate/Laws.antt =====
-- What `_validate_candidates` of better_hermes_hindsight/outbox.py guarantees of its candidates.
use better_hermes_hindsight.Common.{
  ℕ, suc, ◌+◌, ◌≡◌, refl, ◌≢◌, true, false, List, [], ◌∷◌, none, some, if◌then◌else◌, Text,
  text_dec, length, All, All-map, arith, Bool-cases, Option-cases, inl, inr, subst, sym, leb,
}
use better_hermes_hindsight.Common.Dict.{Dict, get, put, IsDict, put-IsDict}
use better_hermes_hindsight.Retention.Segment.{RetainedSegment}
use better_hermes_hindsight.Outbox.Types.{Settings}
use better_hermes_hindsight.Outbox.Validate.{
  valid_segment, collect, insert_by_index, sorted_values, complete_turn, validate_candidates,
  same_segment,
}
use better_hermes_hindsight.Outbox.Validate.Repeats.{
  Repeats, Stands, collect-All-Stands, sorted_values-Repeats,
}

-- No segment of the list is the document `id`.
abbrev pub NoDocument : Text → List RetainedSegment → Type 0
NoDocument id = All (λ segment. segment.document_id ≢ id)

abbrev pub Distinct : List RetainedSegment → Type 0
Distinct [] = Unit
Distinct (segment ∷ rest) = NoDocument segment.document_id rest × Distinct rest

-- Every segment stands under its own document, and is valid.
abbrev Keyed : Settings → Dict Text RetainedSegment → Type 0
Keyed settings = All (λ e. (e.0 ≡ e.1.document_id) × (valid_segment settings e.1 ≡ true))

put-Keyed :
    (settings : Settings) (segment : RetainedSegment) (unique : Dict Text RetainedSegment)
    → valid_segment settings segment ≡ true
    → Keyed settings unique
    → Keyed settings (put text_dec segment.document_id segment unique)
unfolding put
put-Keyed settings segment [] valid keyed = ((refl, valid), tt)
put-Keyed settings segment ((k, s) ∷ unique) valid keyed =
    ground (arith, put-Keyed settings segment unique valid keyed.1)

length-put :
    (id : Text) (segment : RetainedSegment) (unique : Dict Text RetainedSegment)
    → get text_dec id unique ≡ none
    → length (put text_dec id segment unique) ≡ suc (length unique)
unfolding put get
length-put id segment [] absent = refl
length-put id segment ((k, s) ∷ unique) absent = ground (arith, length-put id segment unique)

record Collected (settings : Settings) (unique : Dict Text RetainedSegment) (seen repeated : ℕ)
    : Type 0 where
  dict : IsDict text_dec unique
  keyed : Keyed settings unique
  all_seen : length unique + repeated ≡ seen

seen_suc : (n m : ℕ) → n + suc m ≡ suc n + m
seen_suc n m = omega arith

collect-Collected :
    (settings : Settings) (unique : Dict Text RetainedSegment) (repeated seen : ℕ)
    (segments : List RetainedSegment) {unique' : Dict Text RetainedSegment} {repeated' : ℕ}
    → Collected settings unique seen repeated
    → collect settings unique repeated segments ≡ some (unique', repeated')
    → Collected settings unique' (seen + length segments) repeated'
unfolding collect
collect-Collected settings unique repeated seen [] {unique'} {repeated'} c h = record {
  dict = let e : unique ≡ unique' = cc in subst (IsDict text_dec) e c.dict;
  keyed = let e : unique ≡ unique' = cc in subst (Keyed settings) e c.keyed;
  all_seen =
      let e : unique ≡ unique' = cc in
      let r : repeated ≡ repeated' = cc in rw (← e, ← r) (omega (arith, c.all_seen));
}
collect-Collected settings unique repeated seen (segment ∷ segments) c h =
    elim (Bool-cases (valid_segment settings segment)) [
      | inr invalid ↦ cc (rw invalid at h)
      | inl valid ↦ elim (Option-cases (get text_dec segment.document_id unique)) [
        | inl absent ↦
            let next : Collected settings (put text_dec segment.document_id segment unique)
                (suc seen) repeated =
              record {
                dict = put-IsDict text_dec segment.document_id segment unique c.dict;
                keyed = put-Keyed settings segment unique valid c.keyed;
                all_seen =
                    omega (arith, c.all_seen, length-put segment.document_id segment unique absent);
              } in
            let ih =
              collect-Collected settings (put text_dec segment.document_id segment unique) repeated
                (suc seen) segments next (rw (valid, absent) at h) in
            rw (seen_suc seen (length segments)) ih
        | inr (prior, present) ↦ elim (Bool-cases (same_segment settings prior segment)) [
          | inr differs ↦ cc (rw (valid, present, differs) at h)
          | inl agrees ↦
              let next : Collected settings unique (suc seen) (repeated + 1) = record {
                dict = c.dict;
                keyed = c.keyed;
                all_seen = omega (arith, c.all_seen);
              } in
              let ih =
                collect-Collected settings unique (repeated + 1) (suc seen) segments next
                  (rw (valid, present, agrees) at h) in
              rw (seen_suc seen (length segments)) ih
        ]
      ]
    ]

insert_by_index-All {κ} :
    (P : RetainedSegment → Type κ) (segment : RetainedSegment) (rest : List RetainedSegment)
    → P segment
    → All P rest
    → All P (insert_by_index segment rest)
unfolding insert_by_index
insert_by_index-All P segment [] p h = (p, tt)
insert_by_index-All P segment (other ∷ rest) p h =
    elim (leb segment.segment_index other.segment_index)
      as (λ b. All P (if b then segment ∷ other ∷ rest else other ∷ insert_by_index segment rest)) [
        | true ↦ (p, h)
        | false ↦ (h.0, insert_by_index-All P segment rest p h.1)
      ]

insert_by_index-Distinct :
    (segment : RetainedSegment) (rest : List RetainedSegment)
    → NoDocument segment.document_id rest
    → Distinct rest
    → Distinct (insert_by_index segment rest)
unfolding insert_by_index
insert_by_index-Distinct segment [] absent distinct = (tt, tt)
insert_by_index-Distinct segment (other ∷ rest) absent distinct =
    elim (leb segment.segment_index other.segment_index)
      as (λ b.
        Distinct (if b then segment ∷ other ∷ rest else other ∷ insert_by_index segment rest)) [
          | true ↦ (absent, distinct)
          | false ↦ (
            insert_by_index-All (λ s. s.document_id ≢ other.document_id) segment rest
                (λ e. absent.0 (sym e)) distinct.0,
            insert_by_index-Distinct segment rest absent.1 distinct.1,
          )
        ]

length-insert_by_index :
    (segment : RetainedSegment) (rest : List RetainedSegment)
    → length (insert_by_index segment rest) ≡ suc (length rest)
unfolding insert_by_index
length-insert_by_index segment [] = refl
length-insert_by_index segment (other ∷ rest) = ground (arith, length-insert_by_index segment rest)

sorted_values-All {κ} :
    (P : RetainedSegment → Type κ) (unique : Dict Text RetainedSegment)
    → All (λ e. P e.1) unique
    → All P (sorted_values unique)
unfolding sorted_values
sorted_values-All P [] h = tt
sorted_values-All P ((k, segment) ∷ unique) h =
    insert_by_index-All P segment (sorted_values unique) h.0 (sorted_values-All P unique h.1)

-- A key that is not found is no document of the values.
absent-NoDocument :
    (settings : Settings) (id : Text) (unique : Dict Text RetainedSegment)
    → Keyed settings unique
    → get text_dec id unique ≡ none
    → All (λ e. e.1.document_id ≢ id) unique
unfolding get
absent-NoDocument settings id [] keyed h = tt
absent-NoDocument settings id ((k, segment) ∷ unique) keyed h =
    (ground (arith, keyed.0.0), absent-NoDocument settings id unique keyed.1 (ground arith))

sorted_values-Distinct :
    (settings : Settings) (unique : Dict Text RetainedSegment)
    → IsDict text_dec unique
    → Keyed settings unique
    → Distinct (sorted_values unique)
unfolding sorted_values
sorted_values-Distinct settings [] dict keyed = tt
sorted_values-Distinct settings ((k, segment) ∷ unique) dict keyed =
    insert_by_index-Distinct segment (sorted_values unique)
      (sorted_values-All (λ s. s.document_id ≢ segment.document_id) unique
        (absent-NoDocument settings segment.document_id unique keyed.1 (rw (← keyed.0.0) dict.0)))
      (sorted_values-Distinct settings unique dict.1 keyed.1)

length-sorted_values :
    (unique : Dict Text RetainedSegment) → length (sorted_values unique) ≡ length unique
unfolding sorted_values
length-sorted_values [] = refl
length-sorted_values ((k, segment) ∷ unique) =
    omega
      (arith, length-insert_by_index segment (sorted_values unique), length-sorted_values unique)

-- What validation guarantees of the candidates that it returns for `segments`.
pub record Validated (settings : Settings) (segments candidates : List RetainedSegment)
    (repeated : ℕ) : Type 0 where
  pub distinct : Distinct candidates
  pub valid : All (λ segment. valid_segment settings segment ≡ true) candidates
  pub counted : length candidates + repeated ≡ length segments
  pub complete : complete_turn settings candidates ≡ true
  pub agreeing : All (λ segment. Repeats settings segment candidates) segments

-- Validated candidates are distinct valid documents that form one complete turn, numbered from 0. With
-- the number of repetitions they are as many as the segments that were handed in, each of which is the
-- same document as one of the candidates and agrees with it in every value that is stored.
pub validate_candidates-Validated :
    (settings : Settings) (segments : List RetainedSegment) {candidates : List RetainedSegment}
    {repeated : ℕ}
    → validate_candidates settings segments ≡ some (candidates, repeated)
    → Validated settings segments candidates repeated
unfolding validate_candidates
validate_candidates-Validated settings [] h = cc
validate_candidates-Validated settings (segment ∷ segments) {candidates} {repeated} h =
    elim (Option-cases (collect settings [] 0 (segment ∷ segments))) [
      | inl refused ↦ cc (rw (refused, validate_candidates) at h)
      | inr ((unique, again), collected) ↦
          elim (Bool-cases (complete_turn settings (sorted_values unique))) [
            | inr incomplete ↦ cc (rw (collected, incomplete, validate_candidates) at h)
            | inl complete ↦
                let start : Collected settings [] 0 0 = record {
                  dict = tt;
                  keyed = tt;
                  all_seen = omega arith;
                } in
                let c = collect-Collected settings [] 0 0 (segment ∷ segments) start collected in
                let pair = rw (collected, complete, validate_candidates) at h in
                let same_list : sorted_values unique ≡ candidates = cc pair in
                let same_count : again ≡ repeated = cc pair in
                record {
                  distinct =
                      subst Distinct same_list
                        (sorted_values-Distinct settings unique c.dict c.keyed);
                  valid = subst (All (λ s. valid_segment settings s ≡ true)) same_list (
                      sorted_values-All (λ s. valid_segment settings s ≡ true) unique
                        (All-map _ _ unique (λ e k. k.1) c.keyed));
                  counted =
                      rw (← same_list, ← same_count)
                        (omega (arith, length-sorted_values unique, c.all_seen));
                  complete = rw (← same_list) complete;
                  agreeing =
                      subst (λ l. All (λ s. Repeats settings s l) (segment ∷ segments)) same_list
                        (All-map (Stands settings unique)
                          (λ s. Repeats settings s (sorted_values unique)) (segment ∷ segments)
                          (sorted_values-Repeats settings unique)
                          (collect-All-Stands settings [] 0 (segment ∷ segments) tt collected));
                }
          ]
    ]
