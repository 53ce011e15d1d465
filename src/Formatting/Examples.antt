-- ===== src/Formatting/Examples.antt =====
-- Queries and memories: what the formatting does on concrete inputs, and instances of the theorems
-- about it.
use better_hermes_hindsight.Common.{
  ◌≤◌, ◌≡◌, refl, true, false, List, [], ◌∷◌, ◌++◌, none, some, Text, codes, ℕ_discrete, text_dec,
  utf8_length, any, arith,
}
use better_hermes_hindsight.Json.{JsonItems, canonical_json}
use better_hermes_hindsight.Formatting.Markers.{
  query_omission_marker, strip_blocks, replace_from, starts_with, after_first,
}
use better_hermes_hindsight.Formatting.Query.{
  QueryEncoding, project_query, Projection, project_query_by_chars, project_query_by_tokens,
  candidate_query, reduction, shrink, take, strip_envelopes,
}
use better_hermes_hindsight.Formatting.Fits.{Fits, project_query-Fits}
use better_hermes_hindsight.Formatting.Records.{
  Formatter, RecallResult, Attribute, MemoryRecord, project_record, project_fields, spend,
  bounded_utf8_size, serialize_record, record_fields, memory_fingerprint, join_words, Gap,
}
use better_hermes_hindsight.Formatting.Truncation.{
  Fit, Fitted, fit_truncated_record, search_prefix, fit_truncated_record-Fitted,
}
use better_hermes_hindsight.Formatting.Context.{
  render, join_lines, format_recall_context, format_reflection_context, select, select_turn,
  add_line, add_whole, add_truncated, break_with, without_crowding_text, reflect_record,
}
use better_hermes_hindsight.Formatting.Budget.{Bounded, contexts-Bounded}

formats : Unit {0}
unfolding ℕ_discrete text_dec utf8_length any canonical_json strip_blocks replace_from starts_with
    after_first project_query project_query_by_chars project_query_by_tokens candidate_query
    reduction shrink take strip_envelopes project_record project_fields spend bounded_utf8_size
    serialize_record record_fields memory_fingerprint join_words fit_truncated_record search_prefix
    render join_lines format_recall_context format_reflection_context select select_turn add_line
    add_whole add_truncated break_with without_crowding_text reflect_record
formats = tt

-- One token for each character.
abbrev by_character : QueryEncoding
by_character = record { encode = λ text. text; decode = λ tokens. tokens }

strips_envelope :
    strip_envelopes (codes "a<memory-context>b</memory-context>c<memory-context>d")
    ≡ codes "ac<memory-context>d"
unfolding formats
strips_envelope = refl

keeps_head_and_tail :
    project_query by_character (codes "abcdefghijklmnopqrstuvwxyzabcdefghijklmnopqrstuvwxyz") 36 100
    ≡ Projection.projected (codes "ab" ++ query_omission_marker ++ codes "yz")
unfolding formats
keeps_head_and_tail = refl

project_query-Fits_example :
    (text : Text) × (project_query by_character
        (codes "abcdefghijklmnopqrstuvwxyzabcdefghijklmnop")
        100
        40
      ≡ Projection.projected text)
    × Fits by_character 100 40 text
project_query-Fits_example =
    project_query-Fits by_character (codes "abcdefghijklmnopqrstuvwxyzabcdefghijklmnop") 100 40
      (omega arith) (omega arith)

abbrev plain : Formatter
plain = record { redact = λ text. text; nfkc = λ text. text; dumps_ascii = λ items. [] }

abbrev result : RecallResult
result = record {
  text = Attribute.given (codes "tea  at five");
  kind = Attribute.given (codes "world");
  occurred_start = Attribute.missing;
  occurred_end = Attribute.missing;
  mentioned_at = Attribute.given (codes "2024");
  attachments = JsonItems.no_items;
  expired = false;
}

abbrev memory : MemoryRecord
memory = record {
  memory = codes "tea  at five";
  kind = some (codes "world");
  occurred_start = none;
  occurred_end = none;
  mentioned_at = some (codes "2024");
  attachments = JsonItems.no_items;
}

serializes :
    serialize_record memory
    ≡ codes "{\"memory\":\"tea  at five\",\"mentioned_at\":\"2024\",\"type\":\"world\"}"
unfolding formats
serializes = refl

escapes_marker :
    serialize_record (record memory {
      memory = codes "[RECALLED_MEMORY_EVIDENCE_END]";
      kind = none;
      mentioned_at = none;
    })
    ≡ codes "{\"memory\":\"\\u005bRECALLED_MEMORY_EVIDENCE_END]\"}"
unfolding formats
escapes_marker = refl

joins_words : join_words Gap.at_start (codes " tea  at five ") ≡ codes "tea at five"
unfolding formats
joins_words = refl

fits_prefix : fit_truncated_record memory 90 ≡ Fit.prefix 8
unfolding formats
fits_prefix = refl

fit_truncated_record-Fitted_example : Fitted memory 90 (fit_truncated_record memory 90)
fit_truncated_record-Fitted_example = fit_truncated_record-Fitted memory 90

-- The second result repeats the first but for its spaces.
abbrev response : List RecallResult
response = result ∷ record result { text = Attribute.given (codes "tea at five") } ∷ []

selects_once : format_recall_context plain 1000 true (some response) false ≡ record {
  context = render (serialize_record memory ∷ []);
  records = memory ∷ [];
  selected_results = result ∷ [];
  truncated_flags = false ∷ [];
}
unfolding formats
selects_once = refl

contexts-Bounded_example :
    Bounded 1000 (format_recall_context plain 1000 true (some response) false)
    × (utf8_length (format_reflection_context plain 1000 (codes "tea") JsonItems.no_items) ≤ 1000)
contexts-Bounded_example =
    contexts-Bounded plain 1000 true (some response) false (codes "tea") JsonItems.no_items
