-- ===== src/Retention/Paragraphs.antt =====
-- `_semantic_paragraphs` of better_hermes_hindsight/retention.py, with the matches of its pattern
-- `(?:\r\n|[\r\n])(?:[ \t]*(?:\r\n|[\r\n]))+` written out.
use better_hermes_hindsight.Common.{
  ℕ, zero, suc, Bool, ◌&&◌, ◌||◌, not, List, [], ◌∷◌, ◌++◌, Option, none, some, if◌then◌else◌, leb,
  ◌==◌, Text, any, length, ◌≡◌, arith,
}

-- `str.isspace` of one code point.
abbrev pub is_space : ℕ → Bool
is_space c =
    (leb 9 c && leb c 13)
    || (leb 28 c && leb c 32)
    || c == 133
    || c == 160
    || c == 5760
    || (leb 8192 c && leb c 8202)
    || c == 8232
    || c == 8233
    || c == 8239
    || c == 8287
    || c == 12288

-- `bool(text.strip())`
abbrev pub has_content : Text → Bool
has_content s = any (λ c. not (is_space c)) s

-- A match, and the text after it.
abbrev Match : Type 0
Match = Option (Text × Text)

-- `[\r\n]`
abbrev break_char : Text → Match
break_char [] = none
break_char (c ∷ s) = if c == 13 || c == 10 then some (c ∷ [], s) else none

-- `\r\n`
abbrev crlf : Text → Match
crlf (c ∷ (d ∷ s)) = if c == 13 && d == 10 then some (c ∷ (d ∷ []), s) else none
crlf _ = none

-- `(?:\r\n|[\r\n])`, its first match
abbrev line_break : Text → Match
line_break s = elim (crlf s) [ some m ↦ some m | none ↦ break_char s ]

-- `[ \t]*(?:\r\n|[\r\n])`
unfoldable blank_line : Text → Match
blank_line [] = none
blank_line (c ∷ s) =
    let rest = blank_line s in
    if c == 32 || c == 9
    then elim rest [ none ↦ none | some (m, after) ↦ some (c ∷ m, after) ]
    else line_break (c ∷ s)

-- `(?:[ \t]*(?:\r\n|[\r\n]))*`, as often as it matches, on fuel that the length of the text is enough for
unfoldable blank_lines : ℕ → Text → Text × Text
blank_lines zero s = ([], s)
blank_lines (suc fuel) s = elim (blank_line s) [
  | none ↦ ([], s)
  | some (m, after) ↦ let (more, rest) = blank_lines fuel after in (m ++ more, rest)
]

-- A first line break, with the blank lines after it, of which there must be one.
abbrev followed_by_blank : Match → Match
followed_by_blank none = none
followed_by_blank (some (first, after)) = elim (blank_line after) [
  | none ↦ none
  | some (m, after') ↦
      let (more, rest) = blank_lines (length after') after' in some (first ++ (m ++ more), rest)
]

-- The match of the pattern at the start of the text. Where no blank line follows a `\r\n`, the pattern goes
-- back to take its `\r` only.
unfoldable pub paragraph_separator : Text → Match
unfolding blank_line blank_lines
paragraph_separator s = elim (followed_by_blank (crlf s)) [
  | some m ↦ some m
  | none ↦ followed_by_blank (break_char s)
]

-- A separator with the paragraph after it.
abbrev pub Paragraph : Type 0
Paragraph = Text × Text

abbrev with_paragraph : Text → Text → List Paragraph → List Paragraph
with_paragraph separator paragraph rest =
    if has_content paragraph then (separator, paragraph) ∷ rest else rest

-- The scan of `finditer`: the separator before the paragraph that is being read, and what is read of it.
unfoldable scan : ℕ → Text → Text → Text → List Paragraph
unfolding paragraph_separator
scan zero separator paragraph s = with_paragraph separator (paragraph ++ s) []
scan (suc fuel) separator paragraph [] = with_paragraph separator paragraph []
scan (suc fuel) separator paragraph (c ∷ s) =
    let further = scan fuel separator (paragraph ++ (c ∷ [])) s in
    elim (paragraph_separator (c ∷ s)) [
      | none ↦ further
      | some (m, rest) ↦ with_paragraph separator paragraph (scan fuel m [] rest)
    ]

-- `none` is `_reject()`.
unfoldable pub semantic_paragraphs : Text → Option (List Paragraph)
unfolding scan
semantic_paragraphs text = elim (scan (length text) [] [] text) [
  | [] ↦ none
  | ◌∷◌ p rest ↦ some (p ∷ rest)
]

-- There is at least one paragraph.
pub semantic_paragraphs-some :
    (text : Text) (paragraphs : List Paragraph)
    → semantic_paragraphs text ≡ some paragraphs
    → (p : Paragraph) × (rest : List Paragraph) × (paragraphs ≡ p ∷ rest)
unfolding semantic_paragraphs
semantic_paragraphs-some text paragraphs e = of_scan (scan (length text) [] [] text) e
  where
    of_scan :
        (found : List Paragraph)
        → (elim found [ [] ↦ none | ◌∷◌ p rest ↦ some (p ∷ rest) ]) ≡ some paragraphs
        → (p : Paragraph) × (rest : List Paragraph) × (paragraphs ≡ p ∷ rest)
    of_scan [] e = cc
    of_scan (p ∷ rest) e = (p, rest, ground arith)
