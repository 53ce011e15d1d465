-- ===== src/Retention/Packing/Bytes.antt =====
-- The bytes of a record of better_hermes_hindsight/retention.py: the escaping of JSON strings is additive, as
-- the packing relies on.
use Prim.Native.Nat.{Ordering}
use better_hermes_hindsight.Common.{
  ℕ, ◌+◌, ◌≡◌, refl, ◌∙◌, [], ◌∷◌, ◌++◌, Option, none, some, Text, codes, text_compare, utf8_length,
  utf8_length-append, arith, ◌⊎◌, inl, inr,
}
use better_hermes_hindsight.Json.{
  JsonValue, JsonItems, JsonFields, canonical_json, canonical_fields, canonical_items, quoted,
  escape, escape_char,
}
use better_hermes_hindsight.Retention.Packing.{
  RetainedRole, with_field, role_payload, event_content, one_role, escaped_bytes, rendered,
}

-- The bytes of the escaped text.
abbrev pub text_bytes : Text → ℕ
text_bytes s = utf8_length (escape s)

pub text_bytes-append : (s t : Text) → text_bytes (s ++ t) ≡ text_bytes s + text_bytes t
unfolding escape utf8_length
text_bytes-append [] t = omega arith
text_bytes-append (c ∷ s) t =
    utf8_length-append (escape_char c) (escape (s ++ t))
    ∙ (rw (utf8_length-append (escape_char c) (escape s), text_bytes-append s t) (omega arith))

pub text_bytes-empty : text_bytes [] ≡ 0
unfolding escape utf8_length
text_bytes-empty = refl

pub quoted-bytes : (s : Text) → utf8_length (quoted s) ≡ 2 + text_bytes s
unfolding quoted utf8_length
quoted-bytes s = rw (utf8_length-append (escape s) (b'"' ∷ [])) (omega arith)

pub escaped_bytes_lem : (s : Text) → escaped_bytes s ≡ text_bytes s
unfolding canonical_json
escaped_bytes_lem s = rw (quoted-bytes s) (omega arith)

-- What the fields after one take.
tail_bytes : JsonFields → ℕ
tail_bytes JsonFields.no_fields = 0
tail_bytes (JsonFields.field k v rest) =
    1 + utf8_length (canonical_fields (JsonFields.field k v rest))

field-bytes :
    (k : Text) (v : JsonValue) (rest : JsonFields)
    → utf8_length (canonical_fields (JsonFields.field k v rest))
      ≡ utf8_length (quoted k) + (1 + (utf8_length (canonical_json v) + tail_bytes rest))
unfolding canonical_fields utf8_length tail_bytes
field-bytes k v JsonFields.no_fields =
    rw (utf8_length-append (quoted k) (b':' ∷ canonical_json v)) (omega arith)
field-bytes k v (JsonFields.field j w rest) =
    let more = canonical_fields (JsonFields.field j w rest) in
    let first = b':' ∷ canonical_json v in
    utf8_length-append ((quoted k ++ first) ++ (b',' ∷ [])) more
    ∙ rw (utf8_length-append (quoted k ++ first) (b',' ∷ []), utf8_length-append (quoted k) first)
        (omega arith)

Ordering-cases : (o : Ordering) → (o ≡ Ordering.lt) ⊎ ((o ≡ Ordering.eq) ⊎ (o ≡ Ordering.gt))
Ordering-cases Ordering.lt = inl refl
Ordering-cases Ordering.eq = inr (inl refl)
Ordering-cases Ordering.gt = inr (inr refl)

-- The fields with one more are not empty.
tail-with_field :
    (key : Text) (v : JsonValue) (fs : JsonFields)
    → tail_bytes (with_field key v fs) ≡ 1 + utf8_length (canonical_fields (with_field key v fs))
unfolding with_field tail_bytes
tail-with_field key v JsonFields.no_fields = refl
tail-with_field key v (JsonFields.field k x rest) =
    elim (text_compare key k)
      as (λ o. tail_bytes (placed o) ≡ 1 + utf8_length (canonical_fields (placed o))) [
        | Ordering.lt ↦ refl
        | Ordering.eq ↦ refl
        | Ordering.gt ↦ refl
      ]
  where
    placed : Ordering → JsonFields
    placed o = elim o [
      | Ordering.lt ↦ JsonFields.field key v (JsonFields.field k x rest)
      | Ordering.eq ↦ JsonFields.field key v rest
      | Ordering.gt ↦ JsonFields.field k x (with_field key v rest)
    ]

-- The bytes of an object change by those of the value that a field gets.
with_field-bytes :
    (key : Text) (v w : JsonValue) (fs : JsonFields)
    → utf8_length (canonical_fields (with_field key v fs)) + utf8_length (canonical_json w)
      ≡ utf8_length (canonical_fields (with_field key w fs)) + utf8_length (canonical_json v)
unfolding with_field
with_field-bytes key v w JsonFields.no_fields =
    rw (field-bytes key v JsonFields.no_fields, field-bytes key w JsonFields.no_fields)
      (omega arith)
with_field-bytes key v w (JsonFields.field k x rest) =
    let ih = with_field-bytes key v w rest in
    elim (Ordering-cases (text_compare key k)) [
      | inl lt ↦
          rw (lt, with_field)
            (rw
              (
                field-bytes key v (JsonFields.field k x rest),
                field-bytes key w (JsonFields.field k x rest),
              )
              (omega arith))
      | inr (inl eq) ↦
          rw (eq, with_field) (rw (field-bytes key v rest, field-bytes key w rest) (omega arith))
      | inr (inr gt) ↦
          rw (gt, with_field)
            (rw
              (
                field-bytes k x (with_field key v rest),
                field-bytes k x (with_field key w rest),
                tail-with_field key v rest,
                tail-with_field key w rest,
              )
              (omega arith))
    ]

rendered-bytes :
    (prefix : Option Text) (content : Text)
    → text_bytes (rendered prefix content) ≡ text_bytes (rendered prefix []) + text_bytes content
unfolding escape utf8_length
rendered-bytes none content = omega arith
rendered-bytes (some prefix) content =
    rw
      (
        text_bytes-append prefix (codes "\n\n" ++ content),
        text_bytes-append prefix (codes "\n\n" ++ []),
        text_bytes-append (codes "\n\n") content,
        text_bytes-append (codes "\n\n") [],
      )
      (omega arith)

object-bytes :
    (fs : JsonFields)
    → utf8_length (canonical_json (JsonValue.object fs)) ≡ 2 + utf8_length (canonical_fields fs)
unfolding canonical_json utf8_length
object-bytes fs = rw (utf8_length-append (canonical_fields fs) (b'}' ∷ [])) (omega arith)

array-bytes :
    (v : JsonValue)
    → utf8_length (canonical_json (JsonValue.array (JsonItems.item v JsonItems.no_items)))
      ≡ 2 + utf8_length (canonical_json v)
unfolding canonical_json canonical_items utf8_length
array-bytes v = rw (utf8_length-append (canonical_json v) (b']' ∷ [])) (omega arith)

text-bytes : (s : Text) → utf8_length (canonical_json (JsonValue.text s)) ≡ 2 + text_bytes s
unfolding canonical_json
text-bytes s = quoted-bytes s

payload-bytes :
    (role : RetainedRole) (content : Text)
    → utf8_length (canonical_json (role_payload role content))
      ≡ utf8_length (canonical_json (role_payload role [])) + text_bytes content
unfolding role_payload
payload-bytes role content =
    let rest = JsonFields.field (codes "role") (JsonValue.text role.name) JsonFields.no_fields in
    let fields = λ (c : Text).
      JsonFields.field (codes "content") (JsonValue.text (rendered role.prefix c)) rest in
    rw
      (
        object-bytes (fields content),
        object-bytes (fields []),
        field-bytes (codes "content") (JsonValue.text (rendered role.prefix content)) rest,
        field-bytes (codes "content") (JsonValue.text (rendered role.prefix [])) rest,
        text-bytes (rendered role.prefix content),
        text-bytes (rendered role.prefix []),
        rendered-bytes role.prefix content,
      )
      (omega arith)

-- The record of a role takes the bytes of its content on top of those of the empty one.
pub one_role-bytes :
    (common : JsonFields) (role : RetainedRole) (content : Text)
    → utf8_length (one_role common role content)
      ≡ utf8_length (one_role common role []) + text_bytes content
unfolding event_content
one_role-bytes common role content =
    let value =
      λ (c : Text). JsonValue.array (JsonItems.item (role_payload role c) JsonItems.no_items) in
    let changed = with_field-bytes (codes "roles") (value content) (value []) common in
    rw
      (
        object-bytes (with_field (codes "roles") (value content) common),
        object-bytes (with_field (codes "roles") (value []) common),
      )
      (ground (
        arith,
        changed,
        payload-bytes role content,
        array-bytes (role_payload role content),
        array-bytes (role_payload role []),
      ))
