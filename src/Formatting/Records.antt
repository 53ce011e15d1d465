-- ===== src/Formatting/Records.antt =====
-- The records of better_hermes_hindsight/formatting.py: `_project_record`, `_serialize_record` and
-- `_memory_fingerprint`.
use better_hermes_hindsight.Common.{
  ℕ, ◌-◌, ◌*◌, Bool, true, false, ◌&&◌, ◌||◌, not, List, [], ◌∷◌, ◌++◌, Option, none, some,
  if◌then◌else◌, leb, ltb, Text, codes, same, length, utf8_length,
}
use better_hermes_hindsight.Json.{JsonValue, JsonItems, JsonFields, canonical_json}
use better_hermes_hindsight.Retention.Segment.{encodable}
use better_hermes_hindsight.Retention.Paragraphs.{is_space}
use better_hermes_hindsight.Formatting.Markers.{
  context_begin_marker, context_suffix, legacy_context_begin_marker, legacy_context_suffix,
  replace_from,
}

-- `redact_sensitive_text`, `unicodedata.normalize("NFKC", text)`, and the text of attachments that
-- `json.dumps` writes with `ensure_ascii`.
pub record Formatter : Type 0 where
  pub redact : Text → Text
  pub nfkc : Text → Text
  pub dumps_ascii : JsonItems → Text

-- An attribute of a recalled result: missing or `None`, not a text, or a text.
pub data Attribute : Type 0 where
  missing malformed : Attribute
  given : Text → Attribute

-- A result of the recall response, with whether a check of the deadline that its turn of the loop
-- makes finds the deadline reached.
pub record RecallResult : Type 0 where
  pub text : Attribute
  pub kind : Attribute
  pub occurred_start : Attribute
  pub occurred_end : Attribute
  pub mentioned_at : Attribute
  pub attachments : JsonItems
  pub expired : Bool

-- The record of a memory: a dictionary whose field `type` is `kind` here, and which has
-- `attachments` where there are any.
pub record MemoryRecord : Type 0 where
  pub memory : Text
  pub kind : Option Text
  pub occurred_start : Option Text
  pub occurred_end : Option Text
  pub mentioned_at : Option Text
  pub attachments : JsonItems

-- `_RECALL_RECORD_INPUT_MAX_BYTES`
abbrev pub recall_record_input_max_bytes : ℕ
recall_record_input_max_bytes = 16 * 1024

pub data Sized : Type 0 where
  encode_error too_large : Sized
  size : ℕ → Sized

-- `_bounded_utf8_size`
unfoldable pub bounded_utf8_size : Text → ℕ → Sized
bounded_utf8_size text maximum =
    if ltb maximum (length text)
    then Sized.too_large
    else if not (encodable text)
    then Sized.encode_error
    else if leb (utf8_length text) maximum
    then Sized.size (utf8_length text)
    else Sized.too_large

pub data Projected : Type 0 where
  raised dropped : Projected
  projected : MemoryRecord → Projected

abbrev is_malformed : Attribute → Bool
is_malformed Attribute.malformed = true
is_malformed _ = false

abbrev text_of : Attribute → Option Text
text_of (Attribute.given text) = some text
text_of _ = none

-- The sizes of the fields, in order, within the bytes that remain.
unfoldable pub spend : List (Option Text) → ℕ → Sized
unfolding bounded_utf8_size
spend [] remaining = Sized.size remaining
spend (none ∷ fields) remaining = spend fields remaining
spend (some text ∷ fields) remaining = elim (bounded_utf8_size text remaining) [
  | Sized.encode_error ↦ Sized.encode_error
  | Sized.too_large ↦ Sized.too_large
  | Sized.size n ↦ spend fields (remaining - n)
]

abbrev spent : MemoryRecord → Sized → Projected
spent record' Sized.encode_error = Projected.raised
spent record' Sized.too_large = Projected.dropped
spent record' (Sized.size n) = Projected.projected record'

-- The part after the size of the text.
unfoldable pub project_fields : Formatter → Bool → Text → RecallResult → ℕ → Projected
unfolding spend
project_fields formatter include_type text result remaining =
    let kind = if include_type then result.kind else Attribute.missing in
    if is_malformed kind
      || is_malformed result.occurred_start
      || is_malformed result.occurred_end
      || is_malformed result.mentioned_at
    then Projected.raised
    else spent
        (record {
          memory = formatter.redact text;
          kind = text_of kind;
          occurred_start = text_of result.occurred_start;
          occurred_end = text_of result.occurred_end;
          mentioned_at = text_of result.mentioned_at;
          attachments = result.attachments;
        })
        (spend
          (text_of kind
            ∷ text_of result.occurred_start
            ∷ text_of result.occurred_end
            ∷ text_of result.mentioned_at
            ∷ [])
          remaining)

abbrev project_text : Formatter → Bool → RecallResult → Attribute → Projected
project_text formatter include_type result (Attribute.given text) =
    elim (bounded_utf8_size text recall_record_input_max_bytes) [
      | Sized.encode_error ↦ Projected.raised
      | Sized.too_large ↦ Projected.dropped
      | Sized.size n ↦
          project_fields formatter include_type text result (recall_record_input_max_bytes - n)
    ]
project_text formatter include_type result _ = Projected.raised

unfoldable pub project_record : Formatter → Bool → RecallResult → Projected
unfolding project_fields
project_record formatter include_type result =
    project_text formatter include_type result result.text

abbrev text_field : Text → Option Text → JsonFields → JsonFields
text_field key none fields = fields
text_field key (some text) fields = JsonFields.field key (JsonValue.text text) fields

abbrev items_field : Text → JsonItems → JsonFields → JsonFields
items_field key JsonItems.no_items fields = fields
items_field key (JsonItems.item value items) fields =
    JsonFields.field key (JsonValue.array (JsonItems.item value items)) fields

-- The fields in the order of their keys.
unfoldable pub record_fields : MemoryRecord → JsonFields
record_fields r = items_field (codes "attachments") r.attachments (
    JsonFields.field (codes "memory") (JsonValue.text r.memory) (
      text_field (codes "mentioned_at") r.mentioned_at (
        text_field (codes "occurred_end") r.occurred_end (
          text_field (codes "occurred_start") r.occurred_start
            (text_field (codes "type") r.kind JsonFields.no_fields)))))

abbrev replaced : Text → Text → Text → Text
replaced old new text = replace_from 0 old new text

-- The marker without its bracket, behind the bracket's escape.
abbrev escaped_marker : Text → Text → Text
escaped_marker [] text = text
escaped_marker (c ∷ marker) text = replaced (c ∷ marker) (codes "\\u005b" ++ marker) text

unfoldable pub serialize_record : MemoryRecord → Text
unfolding record_fields replace_from
serialize_record r = replaced (0x2029 ∷ []) (codes "\\u2029") (
    replaced (0x2028 ∷ []) (codes "\\u2028") (
      replaced (0x85 ∷ []) (codes "\\u0085") (
        escaped_marker legacy_context_suffix (
          escaped_marker legacy_context_begin_marker (
            escaped_marker context_suffix (
              escaped_marker context_begin_marker
                (canonical_json (JsonValue.object (record_fields r)))))))))

-- What stands before the next character of `" ".join(text.split())`.
pub data Gap : Type 0 where
  at_start in_word after_word : Gap

-- `" ".join(text.split())`
unfoldable pub join_words : Gap → Text → Text
join_words gap [] = []
join_words Gap.at_start (c ∷ text) =
    let skipped = join_words Gap.at_start text in
    let kept = join_words Gap.in_word text in if is_space c then skipped else c ∷ kept
join_words Gap.in_word (c ∷ text) =
    let skipped = join_words Gap.after_word text in
    let kept = join_words Gap.in_word text in if is_space c then skipped else c ∷ kept
join_words Gap.after_word (c ∷ text) =
    let skipped = join_words Gap.after_word text in
    let kept = join_words Gap.in_word text in if is_space c then skipped else 32 ∷ (c ∷ kept)

-- The tuple of `_memory_fingerprint`.
pub record Fingerprint : Type 0 where
  pub normalized : Text
  pub starts : Option Text
  pub ends : Option Text
  pub mentioned : Option Text

abbrev attachment_part : Formatter → JsonItems → Text
attachment_part formatter JsonItems.no_items = []
attachment_part formatter (JsonItems.item value items) =
    0 ∷ formatter.dumps_ascii (JsonItems.item value items)

unfoldable pub memory_fingerprint : Formatter → MemoryRecord → Fingerprint
unfolding join_words
memory_fingerprint formatter r = record {
  normalized =
      join_words Gap.at_start (formatter.nfkc r.memory) ++ attachment_part formatter r.attachments;
  starts = r.occurred_start;
  ends = r.occurred_end;
  mentioned = r.mentioned_at;
}

abbrev same_option : Option Text → Option Text → Bool
same_option none none = true
same_option (some s) (some t) = same s t
same_option _ _ = false

abbrev pub same_fingerprint : Fingerprint → Fingerprint → Bool
same_fingerprint a b =
    same a.normalized b.normalized
    && same_option a.starts b.starts
    && same_option a.ends b.ends
    && same_option a.mentioned b.mentioned
