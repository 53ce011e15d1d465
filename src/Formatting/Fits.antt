-- ===== src/Formatting/Fits.antt =====
-- The loop of `project_query` in better_hermes_hindsight/formatting.py ends, and what it returns fits.
use better_hermes_hindsight.Common.{
  ℕ, zero, suc, ◌+◌, ◌-◌, ◌/◌, ◌≤◌, ◌<◌, ◌≡◌, refl, true, false, ◌&&◌, ◌||◌, not, List, [], ◌∷◌,
  ◌++◌, some, leb, ltb, Text, length, non_empty, arith, Bool-cases, inl, inr, ◌⊎◌, length-append,
  length-drop, leb→le,
}
use better_hermes_hindsight.Formatting.Markers.{query_omission_marker}
use better_hermes_hindsight.Formatting.Query.{
  QueryEncoding, count_query_tokens, take, take_last, project_query_by_chars, candidate_query,
  reduction, shrink, first_content, project_query_by_tokens, Projection, strip_envelopes,
  project_query,
}

-- The text is within both limits, or is empty.
abbrev pub Fits : QueryEncoding → ℕ → ℕ → Text → Type 0
Fits encoding max_chars max_tokens text =
    (length text ≤ max_chars) × ((text ≡ []) ⊎ (count_query_tokens encoding text ≤ max_tokens))

reduction_pos :
    (encoding : QueryEncoding) (max_chars max_tokens content_tokens : ℕ) (candidate : Text)
    → 0 < reduction encoding max_chars max_tokens content_tokens candidate
unfolding reduction
reduction_pos encoding max_chars max_tokens content_tokens candidate = ground arith

shrink_lem :
    (fuel : ℕ) (encoding : QueryEncoding) (tokens : List ℕ) (max_chars max_tokens content : ℕ)
    → content < fuel
    → (text : Text) × (shrink fuel encoding tokens max_chars max_tokens content ≡ some text)
      × Fits encoding max_chars max_tokens text
unfolding shrink
shrink_lem zero encoding tokens max_chars max_tokens content enough = absurd (omega arith)
shrink_lem (suc fuel) encoding tokens max_chars max_tokens content enough =
    let candidate = candidate_query encoding tokens content in
    let cut = reduction encoding max_chars max_tokens content candidate in
    elim (Bool-cases (ltb content 2)) [
      | inl few ↦ ([], rw few refl, (omega arith, inl refl))
      | inr more ↦
          elim (Bool-cases (
            leb (length candidate) max_chars
            && leb (count_query_tokens encoding candidate) max_tokens)) [
              | inl fits ↦ (
                candidate,
                rw (more, fits) refl,
                (ground (arith, fits), inr (ground (arith, fits))),
              )
              | inr over ↦
                  let (text, found, fits) =
                    shrink_lem fuel encoding tokens max_chars max_tokens (content - cut) (
                      ground (
                        arith,
                        more,
                        enough,
                        reduction_pos encoding max_chars max_tokens content candidate,
                      )) in
                  (text, rw (more, over) found, fits)
            ]
    ]

length-take : {A : Type 0} (n : ℕ) (xs : List A) → length (take n xs) ≤ n
unfolding take
length-take zero xs = omega arith
length-take (suc n) [] = omega arith
length-take (suc n) (x ∷ xs) = omega (arith, length-take n xs)

length-take_last : {A : Type 0} (n : ℕ) (xs : List A) → length (take_last n xs) ≤ n
length-take_last n xs = omega (arith, length-drop (length xs - n) xs)

chars_lem :
    (query : Text) (max_chars : ℕ) → length (project_query_by_chars query max_chars).0 ≤ max_chars
unfolding project_query_by_chars
chars_lem query max_chars = elim (Bool-cases (leb (length query) max_chars)) [
  | inl short ↦ rw short (leb→le (length query) max_chars short)
  | inr long ↦
      let available = max_chars - length query_omission_marker in
      elim (Bool-cases (ltb available 2)) [
        | inl narrow ↦ rw (long, narrow) (omega arith)
        | inr wide ↦
            let head_chars = (available + 1) / 2 in
            let head = take head_chars query in
            let tail = take_last (available - head_chars) query in
            rw (long, wide)
              (ground (
                arith,
                wide,
                length-append (head ++ query_omission_marker) tail,
                length-append head query_omission_marker,
                length-take head_chars query,
                length-take_last (available - head_chars) query,
              ))
      ]
]

tokens_lem :
    (encoding : QueryEncoding) (query : Text) (max_chars max_tokens : ℕ)
    → (text : Text) × (project_query_by_tokens encoding query max_chars max_tokens ≡ some text)
      × Fits encoding max_chars max_tokens text
unfolding project_query_by_tokens
tokens_lem encoding query max_chars max_tokens =
    let content = first_content encoding query max_tokens in
    elim (Bool-cases (ltb content 2 || leb max_chars (length query_omission_marker))) [
      | inl narrow ↦ ([], rw narrow refl, (omega arith, inl refl))
      | inr wide ↦
          let (text, found, fits) =
            shrink_lem (suc content) encoding (encoding.encode query) max_chars max_tokens content
              (omega arith) in
          (text, rw wide found, fits)
    ]

empty_of : (text : Text) → not (non_empty text) ≡ true → text ≡ []
empty_of [] h = refl
empty_of (c ∷ text) h = cc

-- The projection of a query ends and fits: for limits above zero, whatever the tokenizer, its loop does not
-- run out of fuel, and the text returned has at most `max_chars` characters and is empty or has at most
-- `max_tokens` tokens.
pub project_query-Fits :
    (encoding : QueryEncoding) (query : Text) (max_chars max_tokens : ℕ)
    → 0 < max_chars
    → 0 < max_tokens
    → (text : Text) × (project_query encoding query max_chars max_tokens
        ≡ Projection.projected text)
      × Fits encoding max_chars max_tokens text
unfolding project_query
project_query-Fits encoding query max_chars max_tokens some_chars some_tokens =
    let positive : (leb max_chars 0 || leb max_tokens 0) ≡ false = ground arith in
    let (bounded, input) = project_query_by_chars (strip_envelopes query) max_chars in
    let short = chars_lem (strip_envelopes query) max_chars in
    elim (Bool-cases
      (not (non_empty bounded) || leb (count_query_tokens encoding bounded) max_tokens)) [
        | inl fits ↦ (
          bounded,
          rw (positive, fits) refl,
          (
            short,
            elim (Bool-cases (not (non_empty bounded))) [
              | inl empty ↦ inl (empty_of bounded empty)
              | inr full ↦ inr (ground (arith, fits, full))
            ],
          ),
        )
        | inr over ↦
            let (text, found, within) = tokens_lem encoding input max_chars max_tokens in
            (text, rw (positive, over, found) refl, within)
      ]
