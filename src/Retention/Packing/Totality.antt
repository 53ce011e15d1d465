-- ===== src/Retention/Packing/Totality.antt =====
-- When a turn is retained by better_hermes_hindsight/retention.py.
use better_hermes_hindsight.Common.{
  ℕ, ◌+◌, ◌≤◌, ◌≡◌, refl, true, false, ◌&&◌, List, [], ◌∷◌, ◌++◌, none, some, leb, ltb, Text,
  utf8_length, arith, All, Bool-cases, inl, inr,
}
use better_hermes_hindsight.Json.{JsonFields}
use better_hermes_hindsight.Retention.Segment.{encodable}
use better_hermes_hindsight.Retention.Paragraphs.{Paragraph, semantic_paragraphs}
use better_hermes_hindsight.Retention.Packing.{
  RetainedRole, Packed, one_role, escaped_bytes, Pack, PackResult, extend_pack, empty_pack,
  pack_paragraph, pack_paragraphs, split_role, role_contents, roles_contents, semantic_contents,
  payloads, event_content,
}

module _ (common : JsonFields) (max_bytes : ℕ) where
  -- The paragraph fits into a record of its own.
  abbrev pub Fits : RetainedRole → Paragraph → Type 0
  Fits role p = utf8_length (one_role common role []) + escaped_bytes p.1 ≤ max_bytes

  -- The role has content, and each of its paragraphs fits.
  abbrev pub IsPackable : RetainedRole → Type 0
  IsPackable role =
      (paragraphs : List Paragraph) × (semantic_paragraphs role.content ≡ some paragraphs)
      × All (Fits role) paragraphs

  module _ (role : RetainedRole) where
    abbrev overhead : ℕ
    overhead = utf8_length (one_role common role [])

    pack_paragraph-packs :
        (p : Paragraph) (pack : Pack)
        → Fits role p
        → (pack' : Pack) × (pack_paragraph common max_bytes none role overhead p pack
            ≡ PackResult.packs pack')
    unfolding pack_paragraph
    pack_paragraph-packs p pack fits =
        let alone : ltb max_bytes (overhead + escaped_bytes p.1) ≡ false = ground (arith, fits) in
        let overfull =
          pack.has_some
          && ltb max_bytes (pack.packed_bytes + escaped_bytes p.0 + escaped_bytes p.1) in
        elim (Bool-cases overfull) [
          | inl e ↦
              rw (alone, e)
                (
                  extend_pack common max_bytes none p (
                      empty_pack common max_bytes none overhead
                        (pack.done ++ (one_role common role pack.packed ∷ []))),
                  refl,
                )
          | inr e ↦ rw (alone, e) (extend_pack common max_bytes none p pack, refl)
        ]

    pack_paragraphs-packs :
        (paragraphs : List Paragraph) (pack : Pack)
        → All (Fits role) paragraphs
        → (pack' : Pack) × (pack_paragraphs common max_bytes none role overhead paragraphs pack
            ≡ PackResult.packs pack')
    unfolding pack_paragraphs
    pack_paragraphs-packs [] pack h = (pack, refl)
    pack_paragraphs-packs (p ∷ rest) pack h =
        let (pack', e) = pack_paragraph-packs p pack h.0 in
        rw (e, pack_paragraphs) (pack_paragraphs-packs rest pack' h.1)

    role_contents-packs :
        (done : List Text)
        → IsPackable role
        → (content : Text) × (done' : List Text) × (role_contents common max_bytes none role done
            ≡ Packed.contents (done' ++ (content ∷ [])))
    unfolding role_contents split_role
    role_contents-packs done (paragraphs, e, fits) =
        let (pack, packed) =
          pack_paragraphs-packs paragraphs (empty_pack common max_bytes none overhead done) fits in
        elim (Bool-cases (leb (utf8_length (one_role common role role.content)) max_bytes)) [
          | inl small ↦ rw small (one_role common role role.content, done, refl)
          | inr large ↦
              rw (large, split_role, e, packed) (one_role common role pack.packed, pack.done, refl)
        ]

  roles_contents-packs :
      (roles : List RetainedRole) (done : List Text) (content : Text)
      → All IsPackable roles
      → (last : Text) × (done' : List Text) × (roles_contents common max_bytes none roles
            (done ++ (content ∷ []))
          ≡ Packed.contents (done' ++ (last ∷ [])))
  unfolding roles_contents
  roles_contents-packs [] done content h = (content, done, refl)
  roles_contents-packs (role ∷ rest) done content h =
      let (last, done', e) = role_contents-packs role (done ++ (content ∷ [])) h.0 in
      rw (e, roles_contents) (roles_contents-packs rest done' last h.1)

  some_content :
      (done : List Text) (last : Text)
      → (first : Text) × (rest : List Text) × (done ++ (last ∷ []) ≡ first ∷ rest)
  some_content [] last = (last, [], refl)
  some_content (c ∷ done) last = (c, done ++ (last ∷ []), refl)

  -- A turn with at least one role is retained, in at least one record, if no number of records is given,
  -- no lone surrogate stands in the record of the whole turn, and every role has content and only
  -- paragraphs that fit into a record of their own.
  pub semantic_contents-total :
      (role : RetainedRole) (roles : List RetainedRole)
      → encodable (event_content common (payloads common max_bytes none (role ∷ roles))) ≡ true
      → All IsPackable (role ∷ roles)
      → (first : Text) × (rest : List Text) × (semantic_contents common max_bytes none
            (role ∷ roles)
          ≡ Packed.contents (first ∷ rest))
  unfolding semantic_contents roles_contents
  semantic_contents-total role roles encodes h =
      let complete = event_content common (payloads common max_bytes none (role ∷ roles)) in
      let (content, done, e) = role_contents-packs role [] h.0 in
      let (last, done', e') = roles_contents-packs roles done content h.1 in
      let (first, rest, e'') = some_content done' last in
      elim (Bool-cases (leb (utf8_length complete) max_bytes)) [
        | inl small ↦ rw (encodes, small) (complete, [], refl)
        | inr large ↦ rw (encodes, large, e, e', e'') (first, rest, refl)
      ]
