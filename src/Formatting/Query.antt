-- ===== src/Formatting/Query.antt =====
-- `project_query` of better_hermes_hindsight/formatting.py: a query within a number of characters
-- and of tokens.
use Prim.Native.Nat.{max}
use better_hermes_hindsight.Common.{
  ℕ, zero, suc, ◌+◌, ◌-◌, ◌*◌, ◌/◌, ◌&&◌, ◌||◌, not, List, [], ◌∷◌, ◌++◌, Option, none, some,
  if◌then◌else◌, leb, ltb, Text, codes, length, drop, min, non_empty,
}
use better_hermes_hindsight.Formatting.Markers.{
  context_begin_marker, context_suffix, legacy_context_begin_marker, legacy_context_suffix,
  query_omission_marker, strip_blocks,
}

-- `tiktoken.Encoding`, with `_decode_query_tokens`, which joins and decodes the bytes of tokens.
pub record QueryEncoding : Type 0 where
  pub encode : Text → List ℕ
  pub decode : List ℕ → Text

abbrev pub count_query_tokens : QueryEncoding → Text → ℕ
count_query_tokens encoding query = length (encoding.encode query)

-- `xs[:n]`
unfoldable pub take : {A : Type 0} → ℕ → List A → List A
take zero xs = []
take (suc n) [] = []
take (suc n) (x ∷ xs) = x ∷ take n xs

-- `xs[-n:]`, for `n` above zero
abbrev pub take_last : {A : Type 0} → ℕ → List A → List A
take_last n xs = drop (length xs - n) xs

-- The two texts that `_project_query_by_chars` returns.
unfoldable pub project_query_by_chars : Text → ℕ → Text × Text
unfolding take
project_query_by_chars query max_chars =
    if leb (length query) max_chars
    then (query, query)
    else let available_text = max_chars - length query_omission_marker in
      if ltb available_text 2
      then ([], [])
      else let head_chars = (available_text + 1) / 2 in
        let head = take head_chars query in
        let tail = take_last (available_text - head_chars) query in
        (head ++ query_omission_marker ++ tail, head ++ tail)

-- The candidate with this many tokens of content.
unfoldable pub candidate_query : QueryEncoding → List ℕ → ℕ → Text
unfolding take
candidate_query encoding tokens content_tokens =
    let head_tokens = (content_tokens + 1) / 2 in
    encoding.decode (take head_tokens tokens)
    ++ query_omission_marker
    ++ encoding.decode (take_last (content_tokens - head_tokens) tokens)

-- By how many tokens a candidate that does not fit is cut.
unfoldable pub reduction : QueryEncoding → ℕ → ℕ → ℕ → Text → ℕ
reduction encoding max_chars max_tokens content_tokens candidate =
    let over = max 1 (count_query_tokens encoding candidate - max_tokens) in
    if ltb max_chars (length candidate)
    then max over (
        (content_tokens * (length candidate - max_chars) + length candidate - 1) / length candidate)
    else over

-- The loop, on fuel; `none` where the fuel is spent.
unfoldable pub shrink : ℕ → QueryEncoding → List ℕ → ℕ → ℕ → ℕ → Option Text
unfolding candidate_query reduction
shrink zero encoding tokens max_chars max_tokens content_tokens = none
shrink (suc fuel) encoding tokens max_chars max_tokens content_tokens =
    let candidate = candidate_query encoding tokens content_tokens in
    let rest =
      shrink fuel encoding tokens max_chars max_tokens
        (content_tokens - reduction encoding max_chars max_tokens content_tokens candidate) in
    if ltb content_tokens 2
    then some []
    else if leb (length candidate) max_chars
        && leb (count_query_tokens encoding candidate) max_tokens
    then some candidate
    else rest

-- The tokens of content that the loop starts with.
abbrev pub first_content : QueryEncoding → Text → ℕ → ℕ
first_content encoding query max_tokens =
    min (count_query_tokens encoding query)
      (max_tokens - count_query_tokens encoding query_omission_marker)

unfoldable pub project_query_by_tokens : QueryEncoding → Text → ℕ → ℕ → Option Text
unfolding shrink
project_query_by_tokens encoding query max_chars max_tokens =
    let content_tokens = first_content encoding query max_tokens in
    if ltb content_tokens 2 || leb max_chars (length query_omission_marker)
    then some []
    else shrink (suc content_tokens) encoding (encoding.encode query) max_chars max_tokens
        content_tokens

-- `ValueError` is `bad_limit`; the arguments have their types.
pub data Projection : Type 0 where
  bad_limit out_of_fuel : Projection
  projected : Text → Projection

abbrev of_loop : Option Text → Projection
of_loop none = Projection.out_of_fuel
of_loop (some text) = Projection.projected text

unfoldable pub strip_envelopes : Text → Text
unfolding strip_blocks
strip_envelopes query = strip_blocks legacy_context_begin_marker legacy_context_suffix (
    strip_blocks context_begin_marker context_suffix
      (strip_blocks (codes "<memory-context>") (codes "</memory-context>") query))

unfoldable pub project_query : QueryEncoding → Text → ℕ → ℕ → Projection
unfolding project_query_by_chars project_query_by_tokens strip_envelopes
project_query encoding query max_chars max_tokens =
    if leb max_chars 0 || leb max_tokens 0
    then Projection.bad_limit
    else let (char_bounded, tokenizer_input) =
        project_query_by_chars (strip_envelopes query) max_chars in
      if not (non_empty char_bounded) || leb (count_query_tokens encoding char_bounded) max_tokens
      then Projection.projected char_bounded
      else of_loop (project_query_by_tokens encoding tokenizer_input max_chars max_tokens)
