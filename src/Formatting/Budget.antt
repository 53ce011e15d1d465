-- ===== src/Formatting/Budget.antt =====
-- The evidence of better_hermes_hindsight/formatting.py stays within its bytes.
use better_hermes_hindsight.Common.{
  ℕ, ◌+◌, ◌-◌, ◌≤◌, ◌≡◌, refl, Bool, not, ◌||◌, List, [], ◌∷◌, Option, none, some, leb, Text, map,
  ap, length, utf8_length, arith, Bool-cases, inl, inr, ◌⊎◌, ◌∙◌, sym, subst, leb→le,
}
use better_hermes_hindsight.Json.{JsonItems}
use better_hermes_hindsight.Retention.Paragraphs.{has_content}
use better_hermes_hindsight.Retention.Segment.{encodable}
use better_hermes_hindsight.Formatting.Records.{
  Formatter, RecallResult, MemoryRecord, serialize_record, bounded_utf8_size,
}
use better_hermes_hindsight.Formatting.Truncation.{
  truncated, Fit, fit_truncated_record-Fitted, Fitted,
}
use better_hermes_hindsight.Formatting.Context.{
  join_lines, render, fixed_bytes, Selection, nothing_selected, Formatted, empty_context,
  formatted_lines, finish_selection, reflected_fit, reflect_record, reflected,
  format_reflection_context, is_size, hindsight_max_reflect_text_bytes, format_recall_context,
}
use better_hermes_hindsight.Formatting.Lines.{render-bytes, line_pos}
use better_hermes_hindsight.Formatting.Selecting.{
  Selected, Counted, LastIsSelected, select-IsSelected,
}

-- What is handed on to the model.
pub record Bounded (max_bytes : ℕ) (f : Formatted) : Type 0 where
  pub within : utf8_length f.context ≤ max_bytes
  pub rendered : (f ≡ empty_context) ⊎ (f.context ≡ render (map serialize_record f.records))
  pub results : length f.selected_results ≡ length f.records
  pub flags : length f.truncated_flags ≡ length f.records

empty-Bounded : (max_bytes : ℕ) → Bounded max_bytes empty_context
unfolding utf8_length
empty-Bounded max_bytes = record {
  within = omega arith;
  rendered = inl refl;
  results = refl;
  flags = refl;
}

lines-Bounded :
    (max_bytes : ℕ) (s : Selection) (lines : List Text)
    → s.lines ≡ lines
    → Selected max_bytes s
    → Bounded max_bytes (formatted_lines s lines)
lines-Bounded max_bytes s [] same_lines h = empty-Bounded max_bytes
lines-Bounded max_bytes s (line ∷ lines) same_lines h = record {
  within = elim h.fits [
    | inl no_lines ↦ absurd (cc (sym no_lines ∙ same_lines))
    | inr fits ↦
        let fitting =
          subst (λ l. fixed_bytes + utf8_length (join_lines l) ≤ max_bytes) same_lines fits in
        omega (arith, render-bytes (line ∷ lines), fitting)
  ];
  rendered = inr (ap render (sym same_lines ∙ h.lines_of));
  results = h.results;
  flags = h.flags;
}

finish-Bounded :
    (max_bytes : ℕ) (last : Option Selection)
    → LastIsSelected max_bytes last
    → Bounded max_bytes (finish_selection last)
finish-Bounded max_bytes none h = empty-Bounded max_bytes
finish-Bounded max_bytes (some s) h = lines-Bounded max_bytes s s.lines refl h

nothing-Counted : (max_bytes : ℕ) → Counted max_bytes nothing_selected
unfolding join_lines utf8_length
nothing-Counted max_bytes = record {
  selected = record { lines_of = refl; results = refl; flags = refl; fits = inl refl };
  count = refl;
}

format_recall_context-Bounded :
    (formatter : Formatter) (max_bytes : ℕ) (include_type : Bool)
    (response : Option (List RecallResult)) (expired : Bool)
    → Bounded max_bytes (format_recall_context formatter max_bytes include_type response expired)
unfolding format_recall_context
format_recall_context-Bounded formatter max_bytes include_type none expired =
    empty-Bounded max_bytes
format_recall_context-Bounded formatter max_bytes include_type (some results) expired =
    elim (Bool-cases (leb max_bytes 0 || expired)) [
      | inl stopped ↦ rw stopped (empty-Bounded max_bytes)
      | inr runs ↦ rw runs (
          finish-Bounded max_bytes _ (
            select-IsSelected formatter max_bytes include_type results nothing_selected
              (nothing-Counted max_bytes)))
    ]

one_line-bytes :
    (max_bytes : ℕ) (line : Text)
    → fixed_bytes + utf8_length line ≤ max_bytes
    → utf8_length (render (line ∷ [])) ≤ max_bytes
unfolding join_lines
one_line-bytes max_bytes line h = omega (arith, render-bytes (line ∷ []), h)

no_bytes : (max_bytes : ℕ) → utf8_length [] ≤ max_bytes
no_bytes max_bytes = (empty-Bounded max_bytes).within

reflected_fit-bytes :
    (max_bytes : ℕ) (r : MemoryRecord) (fit : Fit)
    → Fitted r (max_bytes - fixed_bytes) fit
    → utf8_length (reflected_fit r fit) ≤ max_bytes
reflected_fit-bytes max_bytes r Fit.too_long h = no_bytes max_bytes
reflected_fit-bytes max_bytes r Fit.out_of_fuel h = no_bytes max_bytes
reflected_fit-bytes max_bytes r (Fit.prefix n) h =
    one_line-bytes max_bytes (serialize_record (truncated r n))
      (omega (arith, h.fits, line_pos (truncated r n)))

reflect_record-bytes :
    (max_bytes : ℕ) (r : MemoryRecord) → utf8_length (reflect_record max_bytes r) ≤ max_bytes
unfolding reflect_record
reflect_record-bytes max_bytes r =
    let line = serialize_record r in
    elim (Bool-cases (not (encodable line))) [
      | inl bad ↦ rw (bad, reflect_record) (no_bytes max_bytes)
      | inr good ↦ elim (Bool-cases (leb (fixed_bytes + utf8_length line) max_bytes)) [
        | inl fits ↦
            rw (good, fits, reflect_record)
              (one_line-bytes max_bytes line
                (leb→le (fixed_bytes + utf8_length line) max_bytes fits))
        | inr over ↦
            rw (good, over, reflect_record)
              (reflected_fit-bytes max_bytes r _
                (fit_truncated_record-Fitted r (max_bytes - fixed_bytes)))
      ]
    ]

reflected-bytes :
    (max_bytes : ℕ) (r : Option MemoryRecord) → utf8_length (reflected max_bytes r) ≤ max_bytes
reflected-bytes max_bytes none = no_bytes max_bytes
reflected-bytes max_bytes (some r) = reflect_record-bytes max_bytes r

format_reflection_context-bytes :
    (formatter : Formatter) (max_bytes : ℕ) (text : Text) (attachments : JsonItems)
    → utf8_length (format_reflection_context formatter max_bytes text attachments) ≤ max_bytes
unfolding format_reflection_context
format_reflection_context-bytes formatter max_bytes text attachments =
    elim (Bool-cases (
      leb max_bytes 0
      || not (has_content text)
      || not (is_size (bounded_utf8_size text hindsight_max_reflect_text_bytes)))) [
        | inl refused ↦ rw (refused, format_reflection_context) (no_bytes max_bytes)
        | inr taken ↦ rw (taken, format_reflection_context) (reflected-bytes max_bytes _)
      ]

-- Whatever is recalled or reflected, the context has at most `max_bytes` bytes. A recalled one is empty, with
-- no records, or it is the envelope around the lines of the records returned, of which each has its
-- result and its flag.
pub contexts-Bounded :
    (formatter : Formatter) (max_bytes : ℕ) (include_type : Bool)
    (response : Option (List RecallResult)) (expired : Bool) (text : Text) (attachments : JsonItems)
    → Bounded max_bytes (format_recall_context formatter max_bytes include_type response expired)
      × (utf8_length (format_reflection_context formatter max_bytes text attachments) ≤ max_bytes)
contexts-Bounded formatter max_bytes include_type response expired text attachments = (
  format_recall_context-Bounded formatter max_bytes include_type response expired,
  format_reflection_context-bytes formatter max_bytes text attachments,
)
