-- ===== src/Formatting/Selecting.antt =====
-- What the loop over the recalled results in better_hermes_hindsight/formatting.py keeps.
use better_hermes_hindsight.Common.{
  ℕ, ◌+◌, ◌≤◌, ◌≡◌, refl, Bool, true, false, not, List, [], ◌∷◌, ◌++◌, Option, none, some,
  if◌then◌else◌, Text, map, ap, length, utf8_length, arith, inr, ◌⊎◌, ◌∙◌, sym, subst, leb→le,
  length-append,
}
use better_hermes_hindsight.Retention.Segment.{encodable}
use better_hermes_hindsight.Formatting.Records.{
  Formatter, RecallResult, MemoryRecord, Projected, serialize_record, memory_fingerprint,
}
use better_hermes_hindsight.Formatting.Truncation.{
  truncated, Fit, fit_truncated_record-Fitted, Fitted,
}
use better_hermes_hindsight.Formatting.Context.{
  join_lines, fixed_bytes, Selection, Turn, separator_bytes, available_bytes, add_whole,
  add_truncated, break_with, add_line, select_turn, select, continue_with, add_record,
  add_projected,
}
use better_hermes_hindsight.Formatting.Lines.{join_lines-snoc, line_pos}

-- The lines are those of the records, their bytes fit if there are any, and each has its result and
-- its flag.
pub record Selected (max_bytes : ℕ) (s : Selection) : Type 0 where
  pub lines_of : s.lines ≡ map serialize_record s.records
  pub results : length s.selected_results ≡ length s.records
  pub flags : length s.truncated_flags ≡ length s.records
  pub fits : (s.lines ≡ []) ⊎ (fixed_bytes + utf8_length (join_lines s.lines) ≤ max_bytes)

-- While the loop goes on, its count of the bytes is right.
pub record Counted (max_bytes : ℕ) (s : Selection) : Type 0 where
  pub selected : Selected max_bytes s
  pub count : s.lines_bytes ≡ utf8_length (join_lines s.lines)

map-snoc :
    (f : MemoryRecord → Text) (rs : List MemoryRecord) (r : MemoryRecord)
    → map f (rs ++ r ∷ []) ≡ map f rs ++ f r ∷ []
map-snoc f [] r = refl
map-snoc f (q ∷ rs) r = ap (λ l. f q ∷ l) (map-snoc f rs r)

-- What a further line and its record need.
add-Selected :
    (max_bytes : ℕ) (result : RecallResult) (flag : Bool) (r : MemoryRecord) (s s' : Selection)
    → Counted max_bytes s
    → s'.lines ≡ s.lines ++ serialize_record r ∷ []
    → s'.records ≡ s.records ++ r ∷ []
    → s'.selected_results ≡ s.selected_results ++ result ∷ []
    → s'.truncated_flags ≡ s.truncated_flags ++ flag ∷ []
    → fixed_bytes + s.lines_bytes + separator_bytes s + utf8_length (serialize_record r) ≤ max_bytes
    → Selected max_bytes s'
add-Selected max_bytes result flag r s s' c lines records results flags room =
    let record_count : length s'.records ≡ length s.records + 1 =
      ap length records ∙ length-append s.records (r ∷ []) in
    record {
      lines_of =
          lines
          ∙ ap (λ l. l ++ serialize_record r ∷ []) c.selected.lines_of
          ∙ sym (map-snoc serialize_record s.records r)
          ∙ ap (map serialize_record) (sym records);
      results =
          ap length results
          ∙ length-append s.selected_results (result ∷ [])
          ∙ ap (λ n. n + 1) c.selected.results
          ∙ sym record_count;
      flags =
          ap length flags
          ∙ length-append s.truncated_flags (flag ∷ [])
          ∙ ap (λ n. n + 1) c.selected.flags
          ∙ sym record_count;
      fits = inr (
          subst (λ l. fixed_bytes + utf8_length (join_lines l) ≤ max_bytes) (sym lines)
            (omega (arith, join_lines-snoc s.lines (serialize_record r), c.count, room)));
    }

abbrev TurnIsSelected : ℕ → Turn → Type 0
TurnIsSelected max_bytes Turn.raised = Unit
TurnIsSelected max_bytes (Turn.goes_on s) = Counted max_bytes s
TurnIsSelected max_bytes (Turn.breaks s) = Selected max_bytes s

break_with-IsSelected :
    (max_bytes : ℕ) (result : RecallResult) (r : MemoryRecord) (s : Selection) (fit : Fit)
    → Counted max_bytes s
    → Fitted r (available_bytes max_bytes s) fit
    → TurnIsSelected max_bytes (break_with result r fit s)
unfolding break_with add_truncated
break_with-IsSelected max_bytes result r s Fit.too_long c h = c.selected
break_with-IsSelected max_bytes result r s Fit.out_of_fuel c h = tt
break_with-IsSelected max_bytes result r s (Fit.prefix n) c h =
    add-Selected max_bytes result true (truncated r n) s _ c refl refl refl refl
      (omega (arith, h.fits, line_pos (truncated r n)))

-- A test, with what each branch knows.
branch-IsSelected :
    (max_bytes : ℕ) (b : Bool) (x y : Turn)
    → (b ≡ true → TurnIsSelected max_bytes x)
    → (b ≡ false → TurnIsSelected max_bytes y)
    → TurnIsSelected max_bytes (if b then x else y)
branch-IsSelected max_bytes true x y h k = h refl
branch-IsSelected max_bytes false x y h k = k refl

add_line-IsSelected :
    (formatter : Formatter) (max_bytes : ℕ) (result : RecallResult) (r : MemoryRecord)
    (s : Selection)
    → Counted max_bytes s
    → TurnIsSelected max_bytes (add_line formatter max_bytes result r s)
unfolding add_line add_whole
add_line-IsSelected formatter max_bytes result r s c =
    let line = serialize_record r in
    let seen = record s { seen_memories = memory_fingerprint formatter r ∷ s.seen_memories } in
    let seen_counted : Counted max_bytes seen = record {
      selected = record {
        lines_of = c.selected.lines_of;
        results = c.selected.results;
        flags = c.selected.flags;
        fits = c.selected.fits;
      };
      count = c.count;
    } in
    branch-IsSelected max_bytes _ (Turn.goes_on s) _ (λ again. c)
      (λ fresh.
        branch-IsSelected max_bytes (not (encodable line)) Turn.raised _ (λ bad. tt)
          (λ good.
            branch-IsSelected max_bytes _ (Turn.goes_on (add_whole result r line seen)) _
              (λ fits.
                let room = leb→le _ max_bytes fits in
                record {
                  selected =
                      add-Selected max_bytes result false r seen (add_whole result r line seen)
                        seen_counted refl refl refl refl room;
                  count = omega (arith, join_lines-snoc s.lines line, c.count);
                })
              (λ over.
                break_with-IsSelected max_bytes result r seen _ seen_counted
                  (fit_truncated_record-Fitted r (available_bytes max_bytes s)))))

record-IsSelected :
    (formatter : Formatter) (max_bytes : ℕ) (result : RecallResult) (s : Selection)
    (r : Option MemoryRecord)
    → Counted max_bytes s
    → TurnIsSelected max_bytes (add_record formatter max_bytes result s r)
record-IsSelected formatter max_bytes result s none c = tt
record-IsSelected formatter max_bytes result s (some r) c =
    add_line-IsSelected formatter max_bytes result r s c

projected-IsSelected :
    (formatter : Formatter) (max_bytes : ℕ) (result : RecallResult) (s : Selection) (p : Projected)
    → Counted max_bytes s
    → TurnIsSelected max_bytes (add_projected formatter max_bytes result s p)
projected-IsSelected formatter max_bytes result s Projected.raised c = tt
projected-IsSelected formatter max_bytes result s Projected.dropped c = c
projected-IsSelected formatter max_bytes result s (Projected.projected r) c =
    record-IsSelected formatter max_bytes result s _ c

select_turn-IsSelected :
    (formatter : Formatter) (max_bytes : ℕ) (include_type : Bool) (result : RecallResult)
    (s : Selection)
    → Counted max_bytes s
    → TurnIsSelected max_bytes (select_turn formatter max_bytes include_type result s)
unfolding select_turn
select_turn-IsSelected formatter max_bytes include_type result s c =
    branch-IsSelected max_bytes result.expired Turn.raised _ (λ late. tt)
      (λ in_time. projected-IsSelected formatter max_bytes result s _ c)

abbrev pub LastIsSelected : ℕ → Option Selection → Type 0
LastIsSelected max_bytes none = Unit
LastIsSelected max_bytes (some s) = Selected max_bytes s

continue_with-IsSelected :
    (max_bytes : ℕ) (rest : Selection → Option Selection) (turn : Turn)
    → ((s : Selection) → Counted max_bytes s → LastIsSelected max_bytes (rest s))
    → TurnIsSelected max_bytes turn
    → LastIsSelected max_bytes (continue_with rest turn)
continue_with-IsSelected max_bytes rest Turn.raised later h = tt
continue_with-IsSelected max_bytes rest (Turn.goes_on s) later h = later s h
continue_with-IsSelected max_bytes rest (Turn.breaks s) later h = h

pub select-IsSelected :
    (formatter : Formatter) (max_bytes : ℕ) (include_type : Bool) (results : List RecallResult)
    (s : Selection)
    → Counted max_bytes s
    → LastIsSelected max_bytes (select formatter max_bytes include_type results s)
unfolding select
select-IsSelected formatter max_bytes include_type [] s c = c.selected
select-IsSelected formatter max_bytes include_type (result ∷ results) s c =
    continue_with-IsSelected max_bytes _ (select_turn formatter max_bytes include_type result s)
      (λ next. select-IsSelected formatter max_bytes include_type results next)
      (select_turn-IsSelected formatter max_bytes include_type result s c)
