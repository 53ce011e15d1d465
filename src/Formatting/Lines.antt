-- ===== src/Formatting/Lines.antt =====
-- The bytes of the lines that `_render` of better_hermes_hindsight/formatting.py joins.
use better_hermes_hindsight.Common.{
  ◌+◌, ◌<◌, ◌≡◌, refl, List, [], ◌∷◌, ◌++◌, Text, utf8_length, utf8_length-append, arith, ◌∙◌,
}
use better_hermes_hindsight.Json.{canonical_json}
use better_hermes_hindsight.Formatting.Markers.{
  context_preamble, context_suffix, starts_with, replace_from,
}
use better_hermes_hindsight.Formatting.Records.{MemoryRecord, serialize_record}
use better_hermes_hindsight.Formatting.Context.{join_lines, render, fixed_bytes, separator}

newline-bytes : (s : Text) → utf8_length (10 ∷ s) ≡ 1 + utf8_length s
unfolding utf8_length
newline-bytes s = refl

-- The bytes of joined lines: those of the lines, and one for each separator.
pub join_lines-snoc :
    (lines : List Text) (last : Text)
    → utf8_length (join_lines (lines ++ last ∷ []))
      ≡ utf8_length (join_lines lines) + separator lines + utf8_length last
unfolding join_lines utf8_length
join_lines-snoc [] last = omega arith
join_lines-snoc (line ∷ []) last =
    utf8_length-append line (10 ∷ last) ∙ omega (arith, newline-bytes last)
join_lines-snoc (line ∷ next ∷ lines) last = omega (
  arith,
  utf8_length-append line (10 ∷ join_lines ((next ∷ lines) ++ last ∷ [])),
  utf8_length-append line (10 ∷ join_lines (next ∷ lines)),
  newline-bytes (join_lines ((next ∷ lines) ++ last ∷ [])),
  newline-bytes (join_lines (next ∷ lines)),
  join_lines-snoc (next ∷ lines) last,
)

pub render-bytes :
    (lines : List Text) → utf8_length (render lines) ≡ fixed_bytes + utf8_length (join_lines lines)
unfolding render
render-bytes lines =
    let joined = join_lines lines in
    omega (
      arith,
      utf8_length-append context_preamble (10 ∷ (joined ++ 10 ∷ context_suffix)),
      newline-bytes (joined ++ 10 ∷ context_suffix),
      utf8_length-append joined (10 ∷ context_suffix),
      newline-bytes context_suffix,
      utf8_length-append context_preamble (10 ∷ (10 ∷ context_suffix)),
      newline-bytes (10 ∷ context_suffix),
    )

-- A line is an object, and opens with a brace.
serialize_record-brace : (r : MemoryRecord) → (t : Text) × (serialize_record r ≡ 123 ∷ t)
unfolding serialize_record canonical_json replace_from starts_with
serialize_record-brace r = (_, refl)

brace-bytes : (s t : Text) → s ≡ 123 ∷ t → 0 < utf8_length s
unfolding utf8_length
brace-bytes s t e = rw e (omega arith)

pub line_pos : (r : MemoryRecord) → 0 < utf8_length (serialize_record r)
line_pos r = let (t, e) = serialize_record-brace r in brace-bytes (serialize_record r) t e
