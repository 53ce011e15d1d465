-- ===== src/Formatting/Context.antt =====
-- `format_recall_context_with_selected_results_and_provenance` and `format_reflection_context` of
-- better_hermes_hindsight/formatting.py: the evidence within a number of bytes.
use better_hermes_hindsight.Common.{
  ℕ, ◌+◌, ◌-◌, ◌*◌, Bool, true, false, ◌||◌, not, List, [], ◌∷◌, ◌++◌, Option, none, some,
  if◌then◌else◌, leb, ltb, Text, codes, utf8_length, any,
}
use better_hermes_hindsight.Json.{JsonItems}
use better_hermes_hindsight.Retention.Segment.{encodable}
use better_hermes_hindsight.Retention.Paragraphs.{has_content}
use better_hermes_hindsight.Formatting.Markers.{context_preamble, context_suffix}
use better_hermes_hindsight.Formatting.Records.{
  Formatter, RecallResult, MemoryRecord, Projected, project_record, serialize_record,
  memory_fingerprint, Fingerprint, same_fingerprint, bounded_utf8_size, Sized,
}
use better_hermes_hindsight.Formatting.Truncation.{truncated, Fit, fit_truncated_record}

-- `"\n".join(lines)`
unfoldable pub join_lines : List Text → Text
join_lines [] = []
join_lines (line ∷ []) = line
join_lines (line ∷ next ∷ lines) = line ++ 10 ∷ join_lines (next ∷ lines)

unfoldable pub render : List Text → Text
unfolding join_lines
render lines = context_preamble ++ 10 ∷ (join_lines lines ++ 10 ∷ context_suffix)

-- `len((CONTEXT_PREAMBLE + "\n\n" + CONTEXT_SUFFIX).encode("utf-8"))`
abbrev pub fixed_bytes : ℕ
fixed_bytes = utf8_length (context_preamble ++ 10 ∷ (10 ∷ context_suffix))

abbrev has_items : JsonItems → Bool
has_items JsonItems.no_items = false
has_items (JsonItems.item value items) = true

-- The record that `_serialize_without_crowding_text` leaves, whose line it returns; `none` where a
-- line cannot be encoded.
unfoldable pub without_crowding_text : MemoryRecord → ℕ → Option MemoryRecord
without_crowding_text r available =
    let line = serialize_record r in
    if not (has_items r.attachments)
    then some r
    else if not (encodable line)
    then none
    else if ltb available (utf8_length line)
    then some (record r { attachments = JsonItems.no_items })
    else some r

-- What the loop keeps; the lines are those of the records.
pub record Selection : Type 0 where
  pub lines : List Text
  pub lines_bytes : ℕ
  pub records : List MemoryRecord
  pub selected_results : List RecallResult
  pub truncated_flags : List Bool
  pub seen_memories : List Fingerprint

abbrev pub nothing_selected : Selection
nothing_selected = record {
  lines = [];
  lines_bytes = 0;
  records = [];
  selected_results = [];
  truncated_flags = [];
  seen_memories = [];
}

-- A turn of the loop: it raises, goes on, or breaks.
pub data Turn : Type 0 where
  raised : Turn
  goes_on breaks : Selection → Turn

abbrev pub separator : List Text → ℕ
separator [] = 0
separator (line ∷ lines) = 1

abbrev pub separator_bytes : Selection → ℕ
separator_bytes s = separator s.lines

-- The lines with the separators that are still free, where the budget is not exceeded.
abbrev pub available_bytes : ℕ → Selection → ℕ
available_bytes max_bytes s = max_bytes - fixed_bytes - s.lines_bytes - separator_bytes s

unfoldable pub add_whole : RecallResult → MemoryRecord → Text → Selection → Selection
add_whole result r line s = record s {
  lines = s.lines ++ line ∷ [];
  lines_bytes = s.lines_bytes + separator_bytes s + utf8_length line;
  records = s.records ++ r ∷ [];
  selected_results = s.selected_results ++ result ∷ [];
  truncated_flags = s.truncated_flags ++ false ∷ [];
}

unfoldable pub add_truncated : RecallResult → MemoryRecord → Text → Selection → Selection
add_truncated result r line s = record s {
  lines = s.lines ++ line ∷ [];
  records = s.records ++ r ∷ [];
  selected_results = s.selected_results ++ result ∷ [];
  truncated_flags = s.truncated_flags ++ true ∷ [];
}

unfoldable pub break_with : RecallResult → MemoryRecord → Fit → Selection → Turn
unfolding add_truncated
break_with result r Fit.too_long s = Turn.breaks s
break_with result r Fit.out_of_fuel s = Turn.raised
break_with result r (Fit.prefix n) s =
    Turn.breaks (add_truncated result (truncated r n) (serialize_record (truncated r n)) s)

-- The turn from the fingerprint on.
unfoldable pub add_line : Formatter → ℕ → RecallResult → MemoryRecord → Selection → Turn
unfolding add_whole break_with
add_line formatter max_bytes result r s =
    let fingerprint = memory_fingerprint formatter r in
    let line = serialize_record r in
    let seen = record s { seen_memories = fingerprint ∷ s.seen_memories } in
    if any (same_fingerprint fingerprint) s.seen_memories
    then Turn.goes_on s
    else if not (encodable line)
    then Turn.raised
    else if leb (fixed_bytes + s.lines_bytes + separator_bytes s + utf8_length line) max_bytes
    then Turn.goes_on (add_whole result r line seen)
    else break_with result r (fit_truncated_record r (available_bytes max_bytes s)) seen

abbrev pub add_record : Formatter → ℕ → RecallResult → Selection → Option MemoryRecord → Turn
add_record formatter max_bytes result s none = Turn.raised
add_record formatter max_bytes result s (some r) = add_line formatter max_bytes result r s

abbrev pub add_projected : Formatter → ℕ → RecallResult → Selection → Projected → Turn
add_projected formatter max_bytes result s Projected.raised = Turn.raised
add_projected formatter max_bytes result s Projected.dropped = Turn.goes_on s
add_projected formatter max_bytes result s (Projected.projected r) =
    add_record formatter max_bytes result s (without_crowding_text r (available_bytes max_bytes s))

unfoldable pub select_turn : Formatter → ℕ → Bool → RecallResult → Selection → Turn
select_turn formatter max_bytes include_type result s =
    if result.expired
    then Turn.raised
    else add_projected formatter max_bytes result s (project_record formatter include_type result)

-- The rest of the loop after a turn.
abbrev pub continue_with : (Selection → Option Selection) → Turn → Option Selection
continue_with rest Turn.raised = none
continue_with rest (Turn.goes_on next) = rest next
continue_with rest (Turn.breaks last) = some last

-- `none` where an exception ends the loop.
unfoldable pub select : Formatter → ℕ → Bool → List RecallResult → Selection → Option Selection
unfolding select_turn
select formatter max_bytes include_type [] s = some s
select formatter max_bytes include_type (result ∷ results) s =
    continue_with (λ next. select formatter max_bytes include_type results next)
      (select_turn formatter max_bytes include_type result s)

pub record Formatted : Type 0 where
  pub context : Text
  pub records : List MemoryRecord
  pub selected_results : List RecallResult
  pub truncated_flags : List Bool

abbrev pub empty_context : Formatted
empty_context = record { context = []; records = []; selected_results = []; truncated_flags = [] }

abbrev pub formatted_lines : Selection → List Text → Formatted
formatted_lines s [] = empty_context
formatted_lines s (line ∷ lines) = record {
  context = render (line ∷ lines);
  records = s.records;
  selected_results = s.selected_results;
  truncated_flags = s.truncated_flags;
}

abbrev pub finish_selection : Option Selection → Formatted
finish_selection none = empty_context
finish_selection (some s) = formatted_lines s s.lines

-- The results are `none` where the response has no sequence of them. The flag says that the deadline
-- is reached when the loop is over.
unfoldable pub format_recall_context :
    Formatter → ℕ → Bool → Option (List RecallResult) → Bool → Formatted
unfolding select render
format_recall_context formatter max_bytes include_type none expired = empty_context
format_recall_context formatter max_bytes include_type (some results) expired =
    if leb max_bytes 0 || expired
    then empty_context
    else finish_selection (select formatter max_bytes include_type results nothing_selected)

abbrev pub hindsight_max_reflect_text_bytes : ℕ
hindsight_max_reflect_text_bytes = 256 * 1024

abbrev pub reflected_fit : MemoryRecord → Fit → Text
reflected_fit r (Fit.prefix n) = render (serialize_record (truncated r n) ∷ [])
reflected_fit r _ = []

-- The line of the record, whole where it fits.
unfoldable pub reflect_record : ℕ → MemoryRecord → Text
unfolding render
reflect_record max_bytes r =
    let line = serialize_record r in
    if not (encodable line)
    then []
    else if leb (fixed_bytes + utf8_length line) max_bytes
    then render (line ∷ [])
    else reflected_fit r (fit_truncated_record r (max_bytes - fixed_bytes))

abbrev pub reflected : ℕ → Option MemoryRecord → Text
reflected max_bytes none = []
reflected max_bytes (some r) = reflect_record max_bytes r

abbrev pub is_size : Sized → Bool
is_size (Sized.size n) = true
is_size _ = false

unfoldable pub format_reflection_context : Formatter → ℕ → Text → JsonItems → Text
unfolding reflect_record
format_reflection_context formatter max_bytes text attachments =
    if leb max_bytes 0
      || not (has_content text)
      || not (is_size (bounded_utf8_size text hindsight_max_reflect_text_bytes))
    then []
    else reflected max_bytes (
        without_crowding_text
          (record {
            memory = formatter.redact text;
            kind = some (codes "reflection");
            occurred_start = none;
            occurred_end = none;
            mentioned_at = none;
            attachments = attachments;
          })
          (max_bytes - fixed_bytes))
