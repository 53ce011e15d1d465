-- ===== src/Retention/Examples.antt =====
-- A turn of two roles: how it is split and packed, and instances of the theorems about it.
use better_hermes_hindsight.Common.{
  ◌≡◌, refl, List, [], ◌∷◌, none, some, Text, codes, utf8_length, any, arith, text_compare,
}
use better_hermes_hindsight.Json.{
  JsonValue, JsonFields, canonical_json, canonical_fields, canonical_items, quoted, escape,
  escape_char, decimal,
}
use better_hermes_hindsight.Retention.Paragraphs.{semantic_paragraphs, paragraph_separator}
use better_hermes_hindsight.Retention.Packing.{
  RetainedRole, Packed, RetentionError, with_field, role_payload, event_content, extend_pack,
  pack_paragraph, pack_paragraphs, split_role, role_contents, roles_contents, semantic_contents,
}
use better_hermes_hindsight.Common.{
  same, ◌≢◌, ◌%◌, ◌==◌, if◌then◌else◌, length, ℕ, All, zero, suc, ℕ_discrete, text_dec, true, false,
}
use better_hermes_hindsight.Outbox.Types.{Settings, payload_schema_version}
use better_hermes_hindsight.Outbox.Validate.{
  is_hash, valid_segment, derived_hash_matches, complete_turn, numbered_from, all_same_source,
  joined,
}
use better_hermes_hindsight.Retention.Segment.{
  RetainedSegment, derive_segment_payload_hash, segment_record,
}
use better_hermes_hindsight.Retention.Build.{segment_of, number_segments, segments_of}
use better_hermes_hindsight.Retention.Build.Accepted.{segments_of-accepted}
use better_hermes_hindsight.Outbox.Validate.{validate_candidates}
use better_hermes_hindsight.Retention.Build.Admissible.{segments_of-valid}
use better_hermes_hindsight.Retention.Packing.Bounds.{PackedWithin, semantic_contents-Within}
use better_hermes_hindsight.Retention.Packing.Totality.{semantic_contents-total}

abbrev common : JsonFields
common =
    JsonFields.field (codes "event_id") (JsonValue.text (codes "7"))
      (JsonFields.field (codes "tags") (JsonValue.text (codes "-")) JsonFields.no_fields)

abbrev user : RetainedRole
user = record { name = codes "user"; content = codes "one\n\ntwo"; prefix = none }

abbrev assistant : RetainedRole
assistant = record {
  name = codes "assistant";
  content = codes "yes";
  prefix = some (codes "Context: c");
}

retention : Unit {0}
unfolding canonical_json canonical_fields canonical_items quoted escape escape_char decimal
    utf8_length any paragraph_separator semantic_paragraphs with_field role_payload event_content
    extend_pack pack_paragraph pack_paragraphs split_role role_contents roles_contents
    semantic_contents text_compare
retention = tt

splits :
    semantic_paragraphs (codes "a\n \n\n  \n\nb\nc\n")
    ≡ some (([], codes "a") ∷ ((codes "\n \n\n  \n\n", codes "b\nc\n") ∷ []))
unfolding retention
splits = refl

-- The pattern takes one `\r\n` for a line break and a blank line.
splits_crlf :
    semantic_paragraphs (codes "a\r\nb") ≡ some (([], codes "a") ∷ ((codes "\r\n", codes "b") ∷ []))
unfolding retention
splits_crlf = refl

rejects_blank : semantic_paragraphs (codes " \n\n ") ≡ none
unfolding retention
rejects_blank = refl

packs :
    semantic_contents common 80 (some 3) (user ∷ [])
    ≡ Packed.contents (
        codes
          "{\"event_id\":\"7\",\"roles\":[{\"content\":\"one\\n\\ntwo\",\"role\":\"user\"}],\"tags\":\"-\"}"
        ∷ [])
unfolding retention
packs = refl

splits_role :
    semantic_contents common 72 (some 3) (user ∷ [])
    ≡ Packed.contents (
        codes
          "{\"event_id\":\"7\",\"roles\":[{\"content\":\"one\",\"role\":\"user\"}],\"tags\":\"-\"}"
        ∷ (codes
              "{\"event_id\":\"7\",\"roles\":[{\"content\":\"two\",\"role\":\"user\"}],\"tags\":\"-\"}"
            ∷ []))
unfolding retention
splits_role = refl

too_many :
    semantic_contents common 72 (some 1) (user ∷ []) ≡ Packed.raise RetentionError.capacity_exceeded
unfolding retention
too_many = refl

semantic_contents-Within_example :
    PackedWithin common 72 (some 3) (semantic_contents common 72 (some 3) (user ∷ []))
unfolding retention
semantic_contents-Within_example = semantic_contents-Within common 72 (some 3) (user ∷ [])

semantic_contents-total_example :
    (first : Text) × (rest : List Text) × (semantic_contents common 90 none
        (user ∷ (assistant ∷ []))
      ≡ Packed.contents (first ∷ rest))
unfolding retention
semantic_contents-total_example = semantic_contents-total common 90 user (assistant ∷ []) refl (
  (([], codes "one") ∷ ((codes "\n\n", codes "two") ∷ []), refl, (omega arith, (omega arith, tt))),
  ((([], codes "yes") ∷ [], refl, (omega arith, tt)), tt),
)

abbrev zeros : ℕ → Text
zeros zero = []
zeros (suc n) = b'0' ∷ zeros n

abbrev settings : Settings
settings = record {
  destination_fingerprint = codes "bank";
  legacy_destination_fingerprint = codes "old bank";
  multimodal_destination_fingerprint = codes "files";
  payload_schema = payload_schema_version;
  multimodal_enabled = false;
  retain_enabled = true;
  max_pending_rows = 3;
  max_pending_bytes = 5000;
  retry_initial_seconds = 5;
  retry_max_seconds = 60;
  segment_max_bytes = 100;
  multimodal_max_encoded_bytes = 100;
  lock_token = 7;
  lock_device = 1;
  lock_inode = 2;
  max_finite_time = 1000000;
  sha256 = λ s. zeros 64;
  decodes_envelope = λ s. false;
}

abbrev built : List RetainedSegment
built =
    segment_of (zeros 64) 2 0 (codes "one") (zeros 64)
    ∷ (segment_of (zeros 64) 2 1 (codes "two") (zeros 64) ∷ [])

building : Unit {0}
unfolding retention text_dec ℕ_discrete is_hash valid_segment derived_hash_matches complete_turn
    numbered_from all_same_source joined derive_segment_payload_hash segment_record number_segments
    segments_of
building = tt

segments_of-valid_example :
    All (λ s. valid_segment settings s ≡ true) built × (complete_turn settings built ≡ true)
unfolding building
segments_of-valid_example =
    segments_of-valid settings (λ s. refl) (codes "one") (codes "two" ∷ []) built
      (
        record { some_text = refl; encodes = refl; within = omega arith },
        (record { some_text = refl; encodes = refl; within = omega arith }, tt),
      )
      refl

-- Digests that differ by the parity of the length.
abbrev parity_digest : Text → Text
parity_digest s = (if length s % 2 == 0 then b'0' else b'1') ∷ zeros 63

parity_digest-is_hash : (s : Text) → is_hash (parity_digest s) ≡ true
unfolding is_hash
parity_digest-is_hash s =
    elim (length s % 2 == 0) as (λ b. is_hash ((if b then b'0' else b'1') ∷ zeros 63) ≡ true) [
      | true ↦ refl
      | false ↦ refl
    ]

abbrev told_apart : Settings
told_apart = record settings { sha256 = parity_digest }

abbrev apart : List RetainedSegment
apart =
    segment_of (parity_digest (codes "onetwos")) 2 0 (codes "one") (b'0' ∷ zeros 63)
    ∷ (segment_of (parity_digest (codes "onetwos")) 2 1 (codes "twos") (b'1' ∷ zeros 63) ∷ [])

told_apart-ne : (s t : Text) → same s t ≡ false → s ≢ t
told_apart-ne s t h e = ground (arith, h, e)

segments_of-accepted_example : validate_candidates told_apart apart ≡ some (apart, 0)
unfolding building
segments_of-accepted_example =
    segments_of-accepted told_apart parity_digest-is_hash (codes "one") (codes "twos" ∷ []) apart
      (
        record { some_text = refl; encodes = refl; within = omega arith },
        (record { some_text = refl; encodes = refl; within = omega arith }, tt),
      )
      refl ((told_apart-ne _ _ refl, tt), (tt, tt))
