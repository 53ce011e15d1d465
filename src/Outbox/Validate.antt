-- ===== src/Outbox/Validate.antt =====
-- `_valid_segment`, `_validate_candidates` and `_fingerprint` of better_hermes_hindsight/outbox.py.
mod Repeats
pub mod Exact
pub mod Laws
use better_hermes_hindsight.Common.{
  ℕ, ◌+◌, Bool, true, false, ◌&&◌, ◌||◌, not, List, [], ◌∷◌, ◌++◌, Option, none, some,
  if◌then◌else◌, ltb, leb, ◌==◌, Text, same, non_empty, length, utf8_length, text_dec,
}
use better_hermes_hindsight.Common.Dict.{Dict, get, put}
use better_hermes_hindsight.Retention.Segment.{
  RetainedSegment, encodable, derive_segment_payload_hash,
}
use better_hermes_hindsight.Outbox.Types.{
  Settings, payload_schema_version, multimodal_payload_schema, segment_immutable_values,
  same_values,
}

abbrev is_hex : ℕ → Bool
is_hex c = leb b'0' c && leb c b'9' || leb b'a' c && leb c b'f'

abbrev all_hex : Text → Bool
all_hex [] = true
all_hex (c ∷ s) = is_hex c && all_hex s

-- `_HASH_PATTERN.fullmatch(text)`
unfoldable pub is_hash : Text → Bool
is_hash s = length s == 64 && all_hex s

unfoldable pub fingerprint : Settings → RetainedSegment → Text
fingerprint settings segment =
    if same segment.payload_schema multimodal_payload_schema
    then settings.multimodal_destination_fingerprint
    else settings.destination_fingerprint

unfoldable pub valid_multimodal : Settings → RetainedSegment → Bool
valid_multimodal settings segment =
    settings.multimodal_enabled
    && settings.retain_enabled
    && settings.decodes_envelope segment.content
    && segment.segment_index == 0
    && segment.segment_count == 1
    && encodable segment.content
    && same (settings.sha256 segment.content) segment.source_sha256

unfoldable pub derived_hash_matches : Settings → RetainedSegment → Bool
derived_hash_matches settings segment =
    let expected =
      derive_segment_payload_hash settings.sha256 segment.payload_schema segment.source_sha256
        segment.segment_index segment.segment_count segment.content in
    elim expected [
      | none ↦ false
      | some hash ↦
          same segment.payload_hash hash
          && same segment.document_id (segment.payload_schema ++ b':' ∷ hash)
    ]

-- False also where the source raises, which `admit` answers in the same way.
unfoldable pub valid_segment : Settings → RetainedSegment → Bool
unfolding valid_multimodal derived_hash_matches is_hash
valid_segment settings segment =
    let multimodal = same segment.payload_schema multimodal_payload_schema in
    (same segment.payload_schema payload_schema_version || multimodal)
    && (not multimodal || valid_multimodal settings segment)
    && is_hash segment.payload_hash
    && is_hash segment.source_sha256
    && ltb 0 segment.segment_count
    && ltb segment.segment_index segment.segment_count
    && non_empty segment.content
    && encodable segment.content
    && leb (utf8_length segment.content)
        (if multimodal then settings.multimodal_max_encoded_bytes else settings.segment_max_bytes)
    && derived_hash_matches settings segment

-- Whether two segments of one document agree in all that is stored.
unfoldable pub same_segment : Settings → RetainedSegment → RetainedSegment → Bool
same_segment settings prior segment =
    same_values (segment_immutable_values prior (fingerprint settings prior))
      (segment_immutable_values segment (fingerprint settings segment))

-- The loop over the segments: the distinct ones by document, and the number of repetitions.
unfoldable pub collect :
    Settings
    → Dict Text RetainedSegment
    → ℕ
    → List RetainedSegment
    → Option (Dict Text RetainedSegment × ℕ)
collect settings unique repeated [] = some (unique, repeated)
collect settings unique repeated (segment ∷ segments) =
    let fresh =
      collect settings (put text_dec segment.document_id segment unique) repeated segments in
    let again = collect settings unique (repeated + 1) segments in
    if valid_segment settings segment
    then elim (get text_dec segment.document_id unique) [
      | none ↦ fresh
      | some prior ↦ if same_segment settings prior segment then again else none
    ]
    else none

insert_by_index : RetainedSegment → List RetainedSegment → List RetainedSegment
insert_by_index segment [] = segment ∷ []
insert_by_index segment (other ∷ rest) =
    if leb segment.segment_index other.segment_index
    then segment ∷ other ∷ rest
    else other ∷ insert_by_index segment rest

-- `sorted(unique.values(), key=lambda segment: segment.segment_index)`
unfoldable pub sorted_values : Dict Text RetainedSegment → List RetainedSegment
unfolding insert_by_index
sorted_values [] = []
sorted_values ((_, segment) ∷ unique) = insert_by_index segment (sorted_values unique)

-- `[segment.segment_index for segment in candidates] == list(range(...))`, from `index` on
unfoldable pub numbered_from : ℕ → List RetainedSegment → Bool
numbered_from index [] = true
numbered_from index (segment ∷ rest) =
    segment.segment_index == index && numbered_from (index + 1) rest

abbrev same_source : RetainedSegment → RetainedSegment → Bool
same_source first segment =
    same segment.payload_schema first.payload_schema
    && same segment.source_sha256 first.source_sha256
    && segment.segment_count == first.segment_count

unfoldable pub all_same_source : RetainedSegment → List RetainedSegment → Bool
all_same_source first [] = true
all_same_source first (segment ∷ rest) = same_source first segment && all_same_source first rest

unfoldable pub joined : List RetainedSegment → Text
joined [] = []
joined (segment ∷ rest) = segment.content ++ joined rest

-- The checks on the sorted candidates: one complete, consistent turn whose source has its hash.
unfoldable pub complete_turn : Settings → List RetainedSegment → Bool
complete_turn settings [] = false
complete_turn settings (first ∷ rest) =
    let candidates = first ∷ rest in
    length candidates == first.segment_count
    && numbered_from 0 candidates
    && all_same_source first candidates
    && same (settings.sha256 (joined candidates)) first.source_sha256

unfoldable pub validate_candidates :
    Settings → List RetainedSegment → Option (List RetainedSegment × ℕ)
validate_candidates settings [] = none
validate_candidates settings (segment ∷ segments) =
    elim (collect settings [] 0 (segment ∷ segments)) [
      | none ↦ none
      | some (unique, repeated) ↦
          let candidates = sorted_values unique in
          if complete_turn settings candidates then some (candidates, repeated) else none
    ]
