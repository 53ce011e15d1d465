-- ===== src/Retention/Build.antt =====
-- The end of `_build_retained_segments` of better_hermes_hindsight/retention.py: the contents of a turn become
-- segments.
pub mod Admissible
pub mod Accepted
use better_hermes_hindsight.Common.{
  ℕ, ◌+◌, ◌≡◌, Bool, List, [], ◌∷◌, ◌++◌, Option, none, some, if◌then◌else◌, Text, length, arith,
  Option-cases, inl, inr,
}
use better_hermes_hindsight.Retention.Segment.{
  RetainedSegment, encodable, derive_segment_payload_hash,
}
use better_hermes_hindsight.Outbox.Types.{payload_schema_version}

-- `"".join(contents)`
abbrev pub join : List Text → Text
join [] = []
join (c ∷ rest) = c ++ join rest

abbrev pub segment_of : Text → ℕ → ℕ → Text → Text → RetainedSegment
segment_of source_sha256 segment_count index content payload_hash = record {
  document_id = payload_schema_version ++ (b':' ∷ payload_hash);
  payload_hash = payload_hash;
  payload_schema = payload_schema_version;
  source_sha256 = source_sha256;
  segment_index = index;
  segment_count = segment_count;
  content = content;
}

abbrev cons_segment :
    RetainedSegment → Option (List RetainedSegment) → Option (List RetainedSegment)
cons_segment segment none = none
cons_segment segment (some rest) = some (segment ∷ rest)

-- The loop over `enumerate(contents)`, from `index` on. `none` is an exception.
unfoldable pub number_segments :
    (sha256 : Text → Text) → Text → ℕ → ℕ → List Text → Option (List RetainedSegment)
number_segments sha256 source_sha256 segment_count index [] = some []
number_segments sha256 source_sha256 segment_count index (content ∷ rest) =
    let later = number_segments sha256 source_sha256 segment_count (index + 1) rest in
    elim (derive_segment_payload_hash sha256 payload_schema_version source_sha256 index
      segment_count content) [
        | none ↦ none
        | some hash ↦ cons_segment (segment_of source_sha256 segment_count index content hash) later
      ]

unfoldable pub segments_of : (sha256 : Text → Text) → List Text → Option (List RetainedSegment)
unfolding number_segments
segments_of sha256 contents =
    if encodable (join contents)
    then number_segments sha256 (sha256 (join contents)) (length contents) 0 contents
    else none

pub number_segments-nil :
    (sha256 : Text → Text) (source : Text) (count index : ℕ) {segments : List RetainedSegment}
    → number_segments sha256 source count index [] ≡ some segments
    → [] ≡ segments
unfolding number_segments
number_segments-nil sha256 source count index e = ground (arith, e)

-- The segments of a list with a first content.
pub number_segments-cons :
    (sha256 : Text → Text) (source : Text) (count index : ℕ) (content : Text) (rest : List Text)
    {segments : List RetainedSegment}
    → number_segments sha256 source count index (content ∷ rest) ≡ some segments
    → (hash : Text) × (later : List RetainedSegment) × (derive_segment_payload_hash sha256
          payload_schema_version source index count content
        ≡ some hash)
      × (number_segments sha256 source count (index + 1) rest ≡ some later)
      × (segments ≡ segment_of source count index content hash ∷ later)
unfolding number_segments
number_segments-cons sha256 source count index content rest e =
    elim (Option-cases
      (derive_segment_payload_hash sha256 payload_schema_version source index count content)) [
        | inl failed ↦ let e' = rw (number_segments, failed) at e in cc
        | inr (hash, derived) ↦
            elim (Option-cases (number_segments sha256 source count (index + 1) rest)) [
              | inl failed ↦ let e' = rw (number_segments, derived, failed) at e in cc
              | inr (later, more) ↦
                  let e' = rw (number_segments, derived, more) at e in
                  (hash, later, derived, more, ground arith)
            ]
      ]
