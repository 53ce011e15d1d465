-- ===== src/Retention/Build/Admissible.antt =====
-- The segments that better_hermes_hindsight/retention.py builds pass the checks of the outbox.
use better_hermes_hindsight.Common.{
  ℕ, suc, ◌+◌, ◌≤◌, ◌<◌, ◌≡◌, refl, sym, ap, subst, true, false, List, [], ◌∷◌, ◌++◌, some, Text,
  length, arith, All, Bool-cases, inl, inr, non_empty, utf8_length, same, text_dec, ℕ_discrete,
}
use better_hermes_hindsight.Retention.Segment.{
  RetainedSegment, encodable, derive_segment_payload_hash, segment_record,
}
use better_hermes_hindsight.Json.{canonical_json}
use better_hermes_hindsight.Retention.Build.{
  join, segment_of, number_segments, segments_of, number_segments-nil, number_segments-cons,
}
use better_hermes_hindsight.Outbox.Types.{
  Settings, payload_schema_version, multimodal_payload_schema,
}
use better_hermes_hindsight.Outbox.Validate.{
  is_hash, derived_hash_matches, valid_segment, numbered_from, all_same_source, joined,
  complete_turn,
}

-- A content that can be retained.
pub record IsContent (settings : Settings) (content : Text) : Type 0 where
  pub some_text : non_empty content ≡ true
  pub encodes : encodable content ≡ true
  pub within : utf8_length content ≤ settings.segment_max_bytes

module _ (settings : Settings) (digests : (s : Text) → is_hash (settings.sha256 s) ≡ true)
    (source : Text) (source_digest : is_hash source ≡ true) (count : ℕ) where
  derived-is_hash :
      (index : ℕ) (content : Text) {hash : Text}
      → derive_segment_payload_hash settings.sha256 payload_schema_version source index count
          content
        ≡ some hash
      → is_hash hash ≡ true
  unfolding derive_segment_payload_hash
  derived-is_hash index content e =
      let encoded =
        canonical_json (segment_record payload_schema_version source index count content) in
      ground (arith, e, digests encoded)

  no_multimodal : same payload_schema_version multimodal_payload_schema ≡ false
  unfolding text_dec ℕ_discrete
  no_multimodal = refl

  same_refl : (t : Text) → same t t ≡ true
  same_refl t = ground arith

  segment-derived :
      (index : ℕ) (content hash : Text)
      → derive_segment_payload_hash settings.sha256 payload_schema_version source index count
          content
        ≡ some hash
      → derived_hash_matches settings (segment_of source count index content hash) ≡ true
  unfolding derived_hash_matches
  segment-derived index content hash derived =
      rw
        (
          derived_hash_matches,
          derived,
          same_refl hash,
          same_refl (payload_schema_version ++ (b':' ∷ hash)),
        )
        refl

  segment-valid :
      (index : ℕ) (content hash : Text)
      → IsContent settings content
      → index < count
      → derive_segment_payload_hash settings.sha256 payload_schema_version source index count
          content
        ≡ some hash
      → valid_segment settings (segment_of source count index content hash) ≡ true
  unfolding valid_segment
  segment-valid index content hash h small derived =
      rw
        (
          no_multimodal,
          same_refl payload_schema_version,
          derived-is_hash index content derived,
          source_digest,
          h.some_text,
          h.encodes,
          segment-derived index content hash derived,
        )
        (ground (arith, small, h.within))

  number_segments-valid :
      (contents : List Text) (index : ℕ) (segments : List RetainedSegment)
      → All (IsContent settings) contents
      → index + length contents ≤ count
      → number_segments settings.sha256 source count index contents ≡ some segments
      → All (λ s. valid_segment settings s ≡ true) segments
  unfolding number_segments
  number_segments-valid [] index segments h small e =
      subst (λ l. All (λ s. valid_segment settings s ≡ true) l)
        (number_segments-nil settings.sha256 source count index e) tt
  number_segments-valid (content ∷ rest) index segments h small e =
      let (hash, later, derived, more, shape) =
        number_segments-cons settings.sha256 source count index content rest e in
      subst (λ l. All (λ s. valid_segment settings s ≡ true) l) (sym shape)
        (
          segment-valid index content hash h.0 (omega arith) derived,
          number_segments-valid rest (index + 1) later h.1 (omega arith) more,
        )

  -- What is numbered is one consistent list.
  numbered_lem :
      (contents : List Text) (index : ℕ) (segments : List RetainedSegment)
      → number_segments settings.sha256 source count index contents ≡ some segments
      → (length segments ≡ length contents)
        × (joined segments ≡ join contents)
        × (numbered_from index segments ≡ true)
  unfolding number_segments joined numbered_from
  numbered_lem [] index segments e =
      subst (λ l. (length l ≡ 0) × (joined l ≡ []) × (numbered_from index l ≡ true))
        (number_segments-nil settings.sha256 source count index e) (refl, refl, refl)
  numbered_lem (content ∷ rest) index segments e =
      let (hash, later, derived, more, shape) =
        number_segments-cons settings.sha256 source count index content rest e in
      let (lengths, texts, numbers) = numbered_lem rest (index + 1) later more in
      subst
        (λ l.
          (length l ≡ suc (length rest))
          × (joined l ≡ content ++ join rest)
          × (numbered_from index l ≡ true))
        (sym shape) (ap suc lengths, ap (λ t. content ++ t) texts, ground (arith, numbers))

  -- All of them have the source and the count.
  number_segments-source :
      (first : RetainedSegment) (contents : List Text) (index : ℕ) (segments : List RetainedSegment)
      → first.payload_schema ≡ payload_schema_version
      → first.source_sha256 ≡ source
      → first.segment_count ≡ count
      → number_segments settings.sha256 source count index contents ≡ some segments
      → all_same_source first segments ≡ true
  unfolding number_segments all_same_source
  number_segments-source first [] index segments p q r e =
      subst (λ l. all_same_source first l ≡ true)
        (number_segments-nil settings.sha256 source count index e) refl
  number_segments-source first (content ∷ rest) index segments p q r e =
      let (hash, later, derived, more, shape) =
        number_segments-cons settings.sha256 source count index content rest e in
      let ih = number_segments-source first rest (index + 1) later p q r more in
      rw shape (ground (arith, p, q, r, ih))

module _ (settings : Settings) (digests : (s : Text) → is_hash (settings.sha256 s) ≡ true) where
  built_turn :
      (content : Text) (rest : List Text) (segments : List RetainedSegment)
      → number_segments settings.sha256
          (settings.sha256 (join (content ∷ rest)))
          (length (content ∷ rest))
          0
          (content ∷ rest)
        ≡ some segments
      → complete_turn settings segments ≡ true
  unfolding complete_turn all_same_source joined numbered_from
  built_turn content rest segments e =
      let source = settings.sha256 (content ++ join rest) in
      let count = length (content ∷ rest) in
      let is_digest = digests (content ++ join rest) in
      let (hash, later, derived, more, shape) =
        number_segments-cons settings.sha256 source count 0 content rest e in
      let first = segment_of source count 0 content hash in
      let (lengths, texts, numbers) =
        numbered_lem settings digests source is_digest count rest 1 later more in
      let sources =
        number_segments-source settings digests source is_digest count first rest 1 later refl refl
          refl more in
      rw (shape, lengths, texts, numbers, sources) (ground arith)

  -- Where SHA-256 gives digests of 64 hexadecimal digits, and each content is a text that is not empty, can
  -- be encoded and is within the outbox's bound, every segment that is built of the contents is valid for the
  -- outbox, and all of them together are a complete turn for it.
  pub segments_of-valid :
      (content : Text) (rest : List Text) (segments : List RetainedSegment)
      → All (IsContent settings) (content ∷ rest)
      → segments_of settings.sha256 (content ∷ rest) ≡ some segments
      → All (λ s. valid_segment settings s ≡ true) segments
        × (complete_turn settings segments ≡ true)
  unfolding segments_of
  segments_of-valid content rest segments h e =
      let contents = content ∷ rest in
      elim (Bool-cases (encodable (join contents))) [
        | inr refused ↦ let e' = rw refused at e in cc
        | inl encodes ↦
            let e' = rw encodes at e in
            (
              number_segments-valid settings digests (settings.sha256 (join contents))
                  (digests (join contents)) (length contents) contents 0 segments h (omega arith)
                  e',
              built_turn content rest segments e',
            )
      ]
