-- ===== src/Retention/Packing.antt =====
-- `_semantic_contents` of better_hermes_hindsight/retention.py: the records of one turn, within a number of
-- bytes each.
pub mod Bytes
pub mod Bounds
pub mod Totality
use Prim.Native.Nat.{Ordering}
use better_hermes_hindsight.Common.{
  ℕ, zero, suc, ◌+◌, ◌-◌, Bool, true, false, ◌&&◌, not, List, [], ◌∷◌, ◌++◌, Option, none, some,
  if◌then◌else◌, leb, ltb, Text, codes, text_compare, utf8_length, length,
}
use better_hermes_hindsight.Json.{JsonValue, JsonItems, JsonFields, canonical_json}
use better_hermes_hindsight.Retention.Segment.{encodable}
use better_hermes_hindsight.Retention.Paragraphs.{Paragraph, semantic_paragraphs}

pub record RetainedRole : Type 0 where
  pub name : Text
  pub content : Text
  pub prefix : Option Text

-- `_RetentionCapacityExceeded` and `RetentionConstructionError`
pub data RetentionError : Type 0 where
  capacity_exceeded rejected : RetentionError

pub data Packed : Type 0 where
  contents : List Text → Packed
  raise : RetentionError → Packed

-- `{**fields, key: value}`, with the keys in order.
unfoldable pub with_field : Text → JsonValue → JsonFields → JsonFields
with_field key value JsonFields.no_fields = JsonFields.field key value JsonFields.no_fields
with_field key value (JsonFields.field k v rest) =
    let later = with_field key value rest in
    elim (text_compare key k) [
      | Ordering.lt ↦ JsonFields.field key value (JsonFields.field k v rest)
      | Ordering.eq ↦ JsonFields.field key value rest
      | Ordering.gt ↦ JsonFields.field k v later
    ]

-- What a role renders: its prefix, an empty line, and the content.
abbrev pub rendered : Option Text → Text → Text
rendered none content = content
rendered (some prefix) content = prefix ++ (codes "\n\n" ++ content)

unfoldable pub role_payload : RetainedRole → Text → JsonValue
role_payload role content = JsonValue.object (
    JsonFields.field (codes "content") (JsonValue.text (rendered role.prefix content))
      (JsonFields.field (codes "role") (JsonValue.text role.name) JsonFields.no_fields))

abbrev pub items : List JsonValue → JsonItems
items [] = JsonItems.no_items
items (x ∷ xs) = JsonItems.item x (items xs)

unfoldable pub event_content : JsonFields → List JsonValue → Text
unfolding with_field
event_content common roles =
    canonical_json
      (JsonValue.object (with_field (codes "roles") (JsonValue.array (items roles)) common))

-- The record of one role with this content.
abbrev pub one_role : JsonFields → RetainedRole → Text → Text
one_role common role content = event_content common (role_payload role content ∷ [])

-- `len(_canonical_json(text).encode("utf-8")) - 2`
abbrev pub escaped_bytes : Text → ℕ
escaped_bytes s = utf8_length (canonical_json (JsonValue.text s)) - 2

-- `segment_count_limit is not None and count > segment_count_limit`
abbrev pub exceeds : Option ℕ → ℕ → Bool
exceeds none count = false
exceeds (some limit) count = ltb limit count

-- `segment_count_limit is not None and count >= segment_count_limit`
abbrev pub reaches : Option ℕ → ℕ → Bool
reaches none count = false
reaches (some limit) count = leb limit count

-- What the loop over the paragraphs of a role keeps: the contents so far, the open pack, whether it has a
-- paragraph, and its bytes.
pub record Pack : Type 0 where
  pub done : List Text
  pub packed : Text
  pub has_some : Bool
  pub packed_bytes : ℕ

pub data PackResult : Type 0 where
  packs : Pack → PackResult
  overflow : PackResult

module _ (common : JsonFields) (max_bytes : ℕ) (limit : Option ℕ) where
  -- A paragraph is added to the open pack.
  unfoldable pub extend_pack : Paragraph → Pack → Pack
  extend_pack (separator, paragraph) pack =
      if pack.has_some
      then record pack {
        packed = pack.packed ++ (separator ++ paragraph);
        packed_bytes = pack.packed_bytes + escaped_bytes separator + escaped_bytes paragraph;
      }
      else record pack {
        packed = paragraph;
        has_some = true;
        packed_bytes = pack.packed_bytes + escaped_bytes paragraph;
      }

  abbrev pub empty_pack : ℕ → List Text → Pack
  empty_pack overhead done = record {
    done = done;
    packed = [];
    has_some = false;
    packed_bytes = overhead;
  }

  -- One turn of the loop.
  unfoldable pub pack_paragraph : RetainedRole → ℕ → Paragraph → Pack → PackResult
  unfolding extend_pack
  pack_paragraph role overhead (separator, paragraph) pack =
      let done' = pack.done ++ (one_role common role pack.packed ∷ []) in
      let overfull =
        pack.has_some
        && ltb max_bytes (pack.packed_bytes + escaped_bytes separator + escaped_bytes paragraph) in
      if ltb max_bytes (overhead + escaped_bytes paragraph)
      then PackResult.overflow
      else if overfull
      then if reaches limit (length done')
        then PackResult.overflow
        else PackResult.packs (extend_pack (separator, paragraph) (empty_pack overhead done'))
      else PackResult.packs (extend_pack (separator, paragraph) pack)

  unfoldable pub pack_paragraphs : RetainedRole → ℕ → List Paragraph → Pack → PackResult
  unfolding pack_paragraph
  pack_paragraphs role overhead [] pack = PackResult.packs pack
  pack_paragraphs role overhead (p ∷ rest) pack = elim (pack_paragraph role overhead p pack) [
    | PackResult.overflow ↦ PackResult.overflow
    | PackResult.packs pack' ↦ pack_paragraphs role overhead rest pack'
  ]

  -- The contents are extended by one, within the limit.
  abbrev pub close_with : List Text → Text → Packed
  close_with done content =
      let done' = done ++ (content ∷ []) in
      if exceeds limit (length done')
      then Packed.raise RetentionError.capacity_exceeded
      else Packed.contents done'

  -- A role that does not fit is packed by its paragraphs.
  unfoldable pub split_role : RetainedRole → List Text → Packed
  unfolding pack_paragraphs
  split_role role done =
      let overhead = utf8_length (one_role common role []) in
      elim (semantic_paragraphs role.content) [
        | none ↦ Packed.raise RetentionError.rejected
        | some paragraphs ↦
            elim (pack_paragraphs role overhead paragraphs (empty_pack overhead done)) [
              | PackResult.overflow ↦ Packed.raise RetentionError.capacity_exceeded
              | PackResult.packs pack ↦ close_with pack.done (one_role common role pack.packed)
            ]
      ]

  unfoldable pub role_contents : RetainedRole → List Text → Packed
  unfolding split_role
  role_contents role done =
      let complete = one_role common role role.content in
      if leb (utf8_length complete) max_bytes
      then close_with done complete
      else split_role role done

  unfoldable pub roles_contents : List RetainedRole → List Text → Packed
  unfolding role_contents
  roles_contents [] done = Packed.contents done
  roles_contents (role ∷ rest) done = elim (role_contents role done) [
    | Packed.raise error ↦ Packed.raise error
    | Packed.contents done' ↦ roles_contents rest done'
  ]

  abbrev pub payloads : List RetainedRole → List JsonValue
  payloads [] = []
  payloads (role ∷ rest) = role_payload role role.content ∷ payloads rest

  -- `complete.encode` raises `UnicodeEncodeError` on a lone surrogate, for which the turn is rejected.
  -- All that is encoded later, a role or a paragraph of one, is made of the text of `complete`, and
  -- is encodable with it.
  unfoldable pub semantic_contents : List RetainedRole → Packed
  unfolding roles_contents
  semantic_contents roles =
      let complete = event_content common (payloads roles) in
      if not (encodable complete)
      then Packed.raise RetentionError.rejected
      else if leb (utf8_length complete) max_bytes
      then if exceeds limit 1
        then Packed.raise RetentionError.capacity_exceeded
        else Packed.contents (complete ∷ [])
      else elim (roles_contents roles []) [
        | Packed.raise error ↦ Packed.raise error
        | Packed.contents [] ↦ Packed.raise RetentionError.rejected
        | Packed.contents (◌∷◌ c rest) ↦ Packed.contents (c ∷ rest)
      ]
