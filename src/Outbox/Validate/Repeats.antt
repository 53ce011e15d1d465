-- ===== src/Outbox/Validate/Repeats.antt =====
-- Which candidate of `_validate_candidates` in better_hermes_hindsight/outbox.py a segment repeats.
use better_hermes_hindsight.Common.{
  ℕ, ◌+◌, ◌≡◌, refl, true, false, List, [], ◌∷◌, none, some, if◌then◌else◌, Text, text_dec, All,
  arith, Bool-cases, Option-cases, inl, inr, ◌⊎◌, leb, holds, ◌∙◌, subst,
}
use better_hermes_hindsight.Common.Dict.{Dict, get, put, get-put}
use better_hermes_hindsight.Retention.Segment.{RetainedSegment}
use better_hermes_hindsight.Outbox.Types.{
  Settings, same_values, Immutable, Immutable-discrete, segment_immutable_values,
}
use better_hermes_hindsight.Outbox.Validate.{
  valid_segment, collect, insert_by_index, sorted_values, same_segment, fingerprint,
}

-- The segment is the same document as the candidate, with the same values.
abbrev pub Agrees : Settings → RetainedSegment → RetainedSegment → Type 0
Agrees settings segment candidate =
    (candidate.document_id ≡ segment.document_id)
    × (segment_immutable_values candidate (fingerprint settings candidate)
        ≡ segment_immutable_values segment (fingerprint settings segment))

-- The segment agrees with one of the candidates.
abbrev pub Repeats : Settings → RetainedSegment → List RetainedSegment → Type 0
Repeats settings segment [] = ⊥
Repeats settings segment (candidate ∷ rest) =
    Agrees settings segment candidate ⊎ Repeats settings segment rest

holds_eq : (a b : Immutable) → same_values a b ≡ true → a ≡ b
holds_eq a b h =
    elim (Immutable-discrete a b) as (λ d. holds d ≡ true → a ≡ b) [
      | yes e ↦ λ _. e
      | no _ ↦ λ f. absurd cc
    ]
      h

same_segment-eq :
    (settings : Settings) (prior segment : RetainedSegment)
    → same_segment settings prior segment ≡ true
    → segment_immutable_values prior (fingerprint settings prior)
      ≡ segment_immutable_values segment (fingerprint settings segment)
unfolding same_segment
same_segment-eq settings prior segment h = holds_eq _ _ h

-- The dictionary has a segment under its own document that agrees with this one.
abbrev pub Stands : Settings → Dict Text RetainedSegment → RetainedSegment → Type 0
Stands settings unique segment =
    (prior : RetainedSegment) × (get text_dec segment.document_id unique ≡ some prior)
    × Agrees settings segment prior

put-Stands :
    (settings : Settings) (unique : Dict Text RetainedSegment) (next segment : RetainedSegment)
    → get text_dec next.document_id unique ≡ none
    → Stands settings unique segment
    → Stands settings (put text_dec next.document_id next unique) segment
put-Stands settings unique next segment absent (prior, present, agrees) = (
  prior,
  get-put text_dec next.document_id segment.document_id next unique
      ∙ elim (text_dec next.document_id segment.document_id)
          as (λ d.
            (if holds d then some next else get text_dec segment.document_id unique) ≡ some prior) [
              | yes e ↦ absurd cc
              | no _ ↦ present
            ],
  agrees,
)

put-Stands_self :
    (settings : Settings) (unique : Dict Text RetainedSegment) (next : RetainedSegment)
    → Stands settings (put text_dec next.document_id next unique) next
put-Stands_self settings unique next = (
  next,
  get-put text_dec next.document_id next.document_id next unique
      ∙ elim (text_dec next.document_id next.document_id)
          as (λ d.
            (if holds d then some next else get text_dec next.document_id unique) ≡ some next) [
              | yes _ ↦ refl
              | no differs ↦ absurd (differs refl)
            ],
  (refl, refl),
)

-- Every segment stands under its own document.
abbrev pub Own : Dict Text RetainedSegment → Type 0
Own = All (λ e. e.0 ≡ e.1.document_id)

put-Own :
    (next : RetainedSegment) (unique : Dict Text RetainedSegment)
    → Own unique
    → Own (put text_dec next.document_id next unique)
unfolding put
put-Own next [] own = (refl, tt)
put-Own next ((k, s) ∷ unique) own = ground (arith, put-Own next unique own.1)

get-Own :
    (id : Text) (unique : Dict Text RetainedSegment) (prior : RetainedSegment)
    → Own unique
    → get text_dec id unique ≡ some prior
    → prior.document_id ≡ id
unfolding get
get-Own id [] prior own h = cc
get-Own id ((k, s) ∷ unique) prior own h =
    elim (text_dec k id)
        as (λ d.
          (if holds d then some s else get text_dec id unique) ≡ some prior
          → prior.document_id ≡ id) [
            | yes e ↦ λ found. cc
            | no _ ↦ λ further. get-Own id unique prior own.1 further
          ]
      h

collect-Stands :
    (settings : Settings) (unique : Dict Text RetainedSegment) (repeated : ℕ)
    (segments : List RetainedSegment) (segment : RetainedSegment)
    {unique' : Dict Text RetainedSegment} {repeated' : ℕ}
    → Stands settings unique segment
    → collect settings unique repeated segments ≡ some (unique', repeated')
    → Stands settings unique' segment
unfolding collect
collect-Stands settings unique repeated [] segment {unique'} s h =
    let e : unique ≡ unique' = cc in subst (λ u. Stands settings u segment) e s
collect-Stands settings unique repeated (next ∷ segments) segment s h =
    elim (Bool-cases (valid_segment settings next)) [
      | inr invalid ↦ cc (rw invalid at h)
      | inl valid ↦ elim (Option-cases (get text_dec next.document_id unique)) [
        | inl absent ↦
            collect-Stands settings (put text_dec next.document_id next unique) repeated segments
              segment (put-Stands settings unique next segment absent s) (rw (valid, absent) at h)
        | inr (prior, present) ↦ elim (Bool-cases (same_segment settings prior next)) [
          | inr differs ↦ cc (rw (valid, present, differs) at h)
          | inl agrees ↦
              collect-Stands settings unique (repeated + 1) segments segment s
                (rw (valid, present, agrees) at h)
        ]
      ]
    ]

-- Once the loop is over, each segment that it has met stands in the dictionary.
pub collect-All-Stands :
    (settings : Settings) (unique : Dict Text RetainedSegment) (repeated : ℕ)
    (segments : List RetainedSegment) {unique' : Dict Text RetainedSegment} {repeated' : ℕ}
    → Own unique
    → collect settings unique repeated segments ≡ some (unique', repeated')
    → All (Stands settings unique') segments
unfolding collect
collect-All-Stands settings unique repeated [] own h = tt
collect-All-Stands settings unique repeated (next ∷ segments) own h =
    elim (Bool-cases (valid_segment settings next)) [
      | inr invalid ↦ cc (rw invalid at h)
      | inl valid ↦ elim (Option-cases (get text_dec next.document_id unique)) [
        | inl absent ↦
            let later = rw (valid, absent) at h in
            (
              collect-Stands settings (put text_dec next.document_id next unique) repeated segments
                  next (put-Stands_self settings unique next) later,
              collect-All-Stands settings (put text_dec next.document_id next unique) repeated
                  segments (put-Own next unique own) later,
            )
        | inr (prior, present) ↦ elim (Bool-cases (same_segment settings prior next)) [
          | inr differs ↦ cc (rw (valid, present, differs) at h)
          | inl agrees ↦
              let later = rw (valid, present, agrees) at h in
              let stands : Stands settings unique next = (
                prior,
                present,
                (
                  get-Own next.document_id unique prior own present,
                  same_segment-eq settings prior next agrees,
                ),
              ) in
              (
                collect-Stands settings unique (repeated + 1) segments next stands later,
                collect-All-Stands settings unique (repeated + 1) segments own later,
              )
        ]
      ]
    ]

insert_by_index-Repeats :
    (settings : Settings) (segment next : RetainedSegment) (rest : List RetainedSegment)
    → Repeats settings segment (next ∷ rest)
    → Repeats settings segment (insert_by_index next rest)
unfolding insert_by_index
insert_by_index-Repeats settings segment next [] r = r
insert_by_index-Repeats settings segment next (other ∷ rest) r =
    elim (leb next.segment_index other.segment_index)
      as (λ b.
        Repeats settings segment
          (if b then next ∷ other ∷ rest else other ∷ insert_by_index next rest)) [
            | true ↦ r
            | false ↦ elim r [
              | inl here ↦ inr (insert_by_index-Repeats settings segment next rest (inl here))
              | inr (inl first) ↦ inl first
              | inr (inr later) ↦
                  inr (insert_by_index-Repeats settings segment next rest (inr later))
            ]
          ]

pub sorted_values-Repeats :
    (settings : Settings) (unique : Dict Text RetainedSegment) (segment : RetainedSegment)
    → Stands settings unique segment
    → Repeats settings segment (sorted_values unique)
unfolding sorted_values get
sorted_values-Repeats settings [] segment (prior, present, agrees) = cc
sorted_values-Repeats settings ((k, s) ∷ unique) segment (prior, present, agrees) =
    insert_by_index-Repeats settings segment s (sorted_values unique) (
      elim (text_dec k segment.document_id)
          as (λ d.
            (if holds d then some s else get text_dec segment.document_id unique) ≡ some prior
            → Repeats settings segment (s ∷ sorted_values unique)) [
              | yes e ↦ λ found.
                  inl (subst (Agrees settings segment) (let e' : prior ≡ s = cc in e') agrees)
              | no _ ↦ λ further.
                  inr (sorted_values-Repeats settings unique segment (prior, further, agrees))
            ]
        present)
