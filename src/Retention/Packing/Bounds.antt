-- ===== src/Retention/Packing/Bounds.antt =====
-- The bounds of the records of better_hermes_hindsight/retention.py.
use better_hermes_hindsight.Common.{
  ℕ, ◌+◌, ◌≤◌, ◌≡◌, refl, sym, ◌∙◌, Bool, true, false, ◌&&◌, List, [], ◌∷◌, ◌++◌, Option, leb, ltb,
  Text, utf8_length, length, arith, All, All-append, Bool-cases, Option-cases, inl, inr, leb→le,
}
use better_hermes_hindsight.Json.{JsonFields}
use better_hermes_hindsight.Retention.Paragraphs.{
  Paragraph, semantic_paragraphs, semantic_paragraphs-some,
}
use better_hermes_hindsight.Retention.Segment.{encodable}
use better_hermes_hindsight.Retention.Packing.{
  RetainedRole, RetentionError, Packed, one_role, escaped_bytes, exceeds, reaches, Pack, PackResult,
  extend_pack, empty_pack, pack_paragraph, pack_paragraphs, close_with, split_role, role_contents,
  roles_contents, semantic_contents, payloads, event_content,
}
use better_hermes_hindsight.Retention.Packing.Bytes.{
  text_bytes, text_bytes-append, text_bytes-empty, escaped_bytes_lem, one_role-bytes,
}

module _ (common : JsonFields) (max_bytes : ℕ) (limit : Option ℕ) where
  -- Each record takes at most `max_bytes`, and there are no more than the limit.
  abbrev pub IsWithin : List Text → Type 0
  IsWithin done = All (λ c. utf8_length c ≤ max_bytes) done × (exceeds limit (length done) ≡ false)

  abbrev pub PackedWithin : Packed → Type 0
  PackedWithin (Packed.raise error) = Unit
  PackedWithin (Packed.contents done) = IsWithin done

  add-All :
      (done : List Text) (content : Text)
      → All (λ c. utf8_length c ≤ max_bytes) done
      → utf8_length content ≤ max_bytes
      → All (λ c. utf8_length c ≤ max_bytes) (done ++ (content ∷ []))
  add-All done content all le =
      All-append (λ c. utf8_length c ≤ max_bytes) done (content ∷ []) all (le, tt)

  not_reached : (count : ℕ) → reaches limit count ≡ false → exceeds limit count ≡ false
  not_reached count h = elim (Option-cases limit) [
    | inl e ↦ rw e refl
    | inr (l, e) ↦ let h' = rw e at h in rw e (ground (arith, h'))
  ]

  close_with-Within :
      (done : List Text) (content : Text)
      → IsWithin done
      → utf8_length content ≤ max_bytes
      → PackedWithin (close_with common max_bytes limit done content)
  close_with-Within done content h le =
      let all = add-All done content h.0 le in
      elim (Bool-cases (exceeds limit (length (done ++ (content ∷ []))))) [
        | inl e ↦ rw e tt
        | inr e ↦ rw e (all, e)
      ]

  module _ (role : RetainedRole) where
    abbrev overhead : ℕ
    overhead = utf8_length (one_role common role [])

    record IsPack (pack : Pack) : Type 0 where
      pub within : IsWithin pack.done
      pub bytes : pack.packed_bytes ≡ overhead + text_bytes pack.packed
      pub fits : pack.has_some ≡ true → pack.packed_bytes ≤ max_bytes
      pub fresh : pack.has_some ≡ false → pack.packed_bytes ≡ overhead

    abbrev PackOk : PackResult → Type 0
    PackOk PackResult.overflow = Unit
    PackOk (PackResult.packs pack) = IsPack pack × (pack.has_some ≡ true)

    -- The open pack renders to as many bytes as are counted.
    pack-bytes :
        (pack : Pack)
        → IsPack pack
        → utf8_length (one_role common role pack.packed) ≡ pack.packed_bytes
    pack-bytes pack h = one_role-bytes common role pack.packed ∙ sym h.bytes

    abbrev pack_of : List Text → Text → Bool → ℕ → Pack
    pack_of done packed has_some bytes = record {
      done = done;
      packed = packed;
      has_some = has_some;
      packed_bytes = bytes;
    }

    extend_pack-IsPack :
        (p : Paragraph) (done : List Text) (packed : Text) (has_some : Bool) (bytes : ℕ)
        → IsPack (pack_of done packed has_some bytes)
        → overhead + escaped_bytes p.1 ≤ max_bytes
        → (has_some ≡ true → bytes + escaped_bytes p.0 + escaped_bytes p.1 ≤ max_bytes)
        → PackOk (
            PackResult.packs
              (extend_pack common max_bytes limit p (pack_of done packed has_some bytes)))
    unfolding extend_pack
    extend_pack-IsPack p done packed true bytes h alone together =
        let separator = escaped_bytes_lem p.0 in
        let paragraph = escaped_bytes_lem p.1 in
        let joined = text_bytes-append packed (p.0 ++ p.1) in
        let joined' = text_bytes-append p.0 p.1 in
        let so_far = h.bytes in
        (
          record {
            within = h.within;
            bytes = rw (joined, joined') (omega arith);
            fits = λ _. together refl;
            fresh = λ e. cc;
          },
          refl,
        )
    extend_pack-IsPack p done packed false bytes h alone together =
        let paragraph = escaped_bytes_lem p.1 in
        let fresh = h.fresh refl in
        (
          record {
            within = h.within;
            bytes = omega arith;
            fits = λ _. omega arith;
            fresh = λ e. cc;
          },
          refl,
        )

    pack_paragraph-Ok :
        (p : Paragraph) (pack : Pack)
        → IsPack pack
        → PackOk (pack_paragraph common max_bytes limit role overhead p pack)
    unfolding pack_paragraph
    pack_paragraph-Ok p pack h =
        let done' = pack.done ++ (one_role common role pack.packed ∷ []) in
        let overfull =
          pack.has_some
          && ltb max_bytes (pack.packed_bytes + escaped_bytes p.0 + escaped_bytes p.1) in
        elim (Bool-cases (ltb max_bytes (overhead + escaped_bytes p.1))) [
          | inl e ↦ rw e tt
          | inr alone ↦ elim (Bool-cases overfull) [
            | inr e ↦
                rw (alone, e)
                  (extend_pack-IsPack p pack.done pack.packed pack.has_some pack.packed_bytes h
                    (ground (arith, alone)) (λ some_packed. ground (arith, e, some_packed)))
            | inl e ↦ elim (Bool-cases (reaches limit (length done'))) [
              | inl r ↦ rw (alone, e, r) tt
              | inr r ↦
                  let size : utf8_length (one_role common role pack.packed) ≤ max_bytes =
                    rw (pack-bytes pack h) (h.fits (ground (arith, e))) in
                  rw (alone, e, r)
                    (extend_pack-IsPack p done' [] false overhead
                      (record {
                        within = (
                          add-All pack.done (one_role common role pack.packed) h.within.0 size,
                          not_reached (length done') r,
                        );
                        bytes = rw text_bytes-empty (omega arith);
                        fits = λ impossible. cc;
                        fresh = λ _. refl;
                      })
                      (ground (arith, alone)) (λ impossible. cc))
            ]
          ]
        ]

    go_on :
        (rest : List Paragraph) (result : PackResult)
        → ((pack : Pack)
            → PackOk (PackResult.packs pack)
            → PackOk (pack_paragraphs common max_bytes limit role overhead rest pack))
        → PackOk result
        → PackOk (elim result [
          | PackResult.overflow ↦ PackResult.overflow
          | PackResult.packs pack ↦ pack_paragraphs common max_bytes limit role overhead rest pack
        ])
    go_on rest PackResult.overflow next ok = tt
    go_on rest (PackResult.packs pack) next ok = next pack ok

    pack_paragraphs-Ok :
        (paragraphs : List Paragraph) (pack : Pack)
        → PackOk (PackResult.packs pack)
        → PackOk (pack_paragraphs common max_bytes limit role overhead paragraphs pack)
    unfolding pack_paragraphs
    pack_paragraphs-Ok [] pack ok = ok
    pack_paragraphs-Ok (p ∷ rest) pack ok =
        go_on rest (pack_paragraph common max_bytes limit role overhead p pack)
          (λ pack' ok'. pack_paragraphs-Ok rest pack' ok') (pack_paragraph-Ok p pack ok.0)

    all_packed :
        (p : Paragraph) (rest : List Paragraph) (pack : Pack)
        → IsPack pack
        → PackOk (pack_paragraphs common max_bytes limit role overhead (p ∷ rest) pack)
    unfolding pack_paragraphs
    all_packed p rest pack h =
        go_on rest (pack_paragraph common max_bytes limit role overhead p pack)
          (pack_paragraphs-Ok rest) (pack_paragraph-Ok p pack h)

    closed_pack :
        (result : PackResult)
        → PackOk result
        → PackedWithin (elim result [
          | PackResult.overflow ↦ Packed.raise RetentionError.capacity_exceeded
          | PackResult.packs pack ↦
              close_with common max_bytes limit pack.done (one_role common role pack.packed)
        ])
    closed_pack PackResult.overflow ok = tt
    closed_pack (PackResult.packs pack) ok =
        close_with-Within pack.done (one_role common role pack.packed) ok.0.within
          (rw (pack-bytes pack ok.0) (ok.0.fits ok.1))

    split_role-Within :
        (done : List Text)
        → IsWithin done
        → PackedWithin (split_role common max_bytes limit role done)
    unfolding split_role
    split_role-Within done h = elim (Option-cases (semantic_paragraphs role.content)) [
      | inl e ↦ rw (e, PackedWithin) tt
      | inr (paragraphs, e) ↦
          let (p, rest, split) = semantic_paragraphs-some role.content paragraphs e in
          let start = empty_pack common max_bytes limit overhead done in
          let start-IsPack : IsPack start = record {
            within = h;
            bytes = rw text_bytes-empty (omega arith);
            fits = λ impossible. cc;
            fresh = λ _. refl;
          } in
          rw (e, split, PackedWithin)
            (closed_pack (pack_paragraphs common max_bytes limit role overhead (p ∷ rest) start)
              (all_packed p rest start start-IsPack))
    ]

    role_contents-Within :
        (done : List Text)
        → IsWithin done
        → PackedWithin (role_contents common max_bytes limit role done)
    unfolding role_contents
    role_contents-Within done h =
        elim (Bool-cases (leb (utf8_length (one_role common role role.content)) max_bytes)) [
          | inl e ↦
              rw e
                (close_with-Within done (one_role common role role.content) h (ground (arith, e)))
          | inr e ↦ rw e (split_role-Within done h)
        ]

  roles_contents-Within :
      (roles : List RetainedRole) (done : List Text)
      → IsWithin done
      → PackedWithin (roles_contents common max_bytes limit roles done)
  unfolding roles_contents
  roles_contents-Within [] done h = h
  roles_contents-Within (role ∷ rest) done h =
      next_roles (λ done' h'. roles_contents-Within rest done' h')
        (role_contents common max_bytes limit role done) (role_contents-Within role done h)
    where
      next_roles :
          ((done' : List Text)
            → IsWithin done'
            → PackedWithin (roles_contents common max_bytes limit rest done'))
          → (result : Packed) → PackedWithin result
          → PackedWithin (elim result [
            | Packed.raise error ↦ Packed.raise error
            | Packed.contents done' ↦ roles_contents common max_bytes limit rest done'
          ])
      next_roles next (Packed.raise error) ok = tt
      next_roles next (Packed.contents done') ok = next done' ok

  none_yet : exceeds limit 0 ≡ false
  none_yet = elim (Option-cases limit) [ inl e ↦ rw e refl | inr (l, e) ↦ rw e (ground arith) ]

  not_empty :
      (result : Packed)
      → PackedWithin result
      → PackedWithin (elim result [
        | Packed.raise error ↦ Packed.raise error
        | Packed.contents [] ↦ Packed.raise RetentionError.rejected
        | Packed.contents (◌∷◌ c rest) ↦ Packed.contents (c ∷ rest)
      ])
  not_empty (Packed.raise error) ok = tt
  not_empty (Packed.contents []) ok = tt
  not_empty (Packed.contents (c ∷ rest)) ok = ok

  -- Every record that a turn is packed into takes at most the bytes that are allowed in UTF-8, with its
  -- prefix, its escapes and the fields around its content, and there are no more records than the limit,
  -- where one is given. A turn that is refused has no records.
  pub semantic_contents-Within :
      (roles : List RetainedRole) → PackedWithin (semantic_contents common max_bytes limit roles)
  unfolding semantic_contents
  semantic_contents-Within roles =
      let complete = event_content common (payloads common max_bytes limit roles) in
      elim (Bool-cases (encodable complete)) [
        | inr raises ↦ rw raises tt
        | inl encodes ↦ elim (Bool-cases (leb (utf8_length complete) max_bytes)) [
          | inr e ↦
              rw (encodes, e)
                (not_empty (roles_contents common max_bytes limit roles [])
                  (roles_contents-Within roles [] (tt, none_yet)))
          | inl e ↦ elim (Bool-cases (exceeds limit 1)) [
            | inl over ↦ rw (encodes, e, over) tt
            | inr within ↦
                rw (encodes, e, within) ((leb→le (utf8_length complete) max_bytes e, tt), within)
          ]
        ]
      ]
