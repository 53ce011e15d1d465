-- ===== src/Retention/Segment.antt =====
-- `RetainedSegment` and `derive_segment_payload_hash` of better_hermes_hindsight/retention.py.
use better_hermes_hindsight.Common.{
  ℕ, Bool, ◌&&◌, not, [], ◌∷◌, Option, none, some, leb, if◌then◌else◌, Text, codes,
}
use better_hermes_hindsight.Json.{JsonValue, JsonFields, canonical_json}

pub record RetainedSegment : Type 0 where
  pub document_id : Text
  pub payload_hash : Text
  pub payload_schema : Text
  pub source_sha256 : Text
  pub segment_index : ℕ
  pub segment_count : ℕ
  pub content : Text

-- `text.encode("utf-8")` raises on a lone surrogate.
abbrev pub encodable : Text → Bool
encodable [] = Bool.true
encodable (c ∷ s) = not (leb 0xd800 c && leb c 0xdfff) && encodable s

-- The canonical record of a segment without its `document_id`.
unfoldable pub segment_record : Text → Text → ℕ → ℕ → Text → JsonValue
segment_record payload_schema source_sha256 segment_index segment_count content = JsonValue.object (
    JsonFields.field (codes "content") (JsonValue.text content) (
      JsonFields.field (codes "payload_schema") (JsonValue.text payload_schema) (
        JsonFields.field (codes "segment_count") (JsonValue.number segment_count) (
          JsonFields.field (codes "segment_index") (JsonValue.number segment_index) (
            JsonFields.field (codes "source_sha256") (JsonValue.text source_sha256)
              JsonFields.no_fields)))))

-- `sha256` is `hashlib.sha256(text.encode("utf-8")).hexdigest()`. `none` is
-- `RetentionConstructionError`.
unfoldable pub derive_segment_payload_hash :
    (sha256 : Text → Text) → Text → Text → ℕ → ℕ → Text → Option Text
derive_segment_payload_hash sha256 payload_schema source_sha256 segment_index segment_count
      content =
    let encoded =
      canonical_json
        (segment_record payload_schema source_sha256 segment_index segment_count content) in
    if encodable encoded then some (sha256 encoded) else none
