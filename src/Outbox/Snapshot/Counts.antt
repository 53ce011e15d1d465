-- ===== src/Outbox/Snapshot/Counts.antt =====
-- What the aggregates of `_read_status_snapshot` in better_hermes_hindsight/outbox.py count.
use better_hermes_hindsight.Common.{
  ℕ, ◌+◌, ◌≤◌, ◌<◌, ◌⊎◌, length-keep, In-keep, ◌≡◌, refl, Bool, true, false, ◌&&◌, List, [], ◌∷◌,
  Option, none, some, ◌==◌, ltb, is_some, Text, count_if, keep, length, min, arith, Bool-cases,
  Option-cases, inl, inr, All, In, dec_lt, ap, text_dec, ℕ_discrete, if◌then◌else◌, same, sym, ◌∙◌,
}
use better_hermes_hindsight.Outbox.Types.{
  Settings, OutboxRow, OutboxFailureCategory, category_value,
}
use better_hermes_hindsight.Outbox.Table.{logical_bytes}
use better_hermes_hindsight.Outbox.Snapshot.{
  OutboxInspection, is_mismatch, in_sending, is_retry, is_first_attempt, has_category,
  category_named, is_corrupt, smallest, latest_from, latest_error, failed_row, error_after,
  aggregates, SnapshotView, readable, read_status_snapshot,
}

-- Every row is of one kind.
kinds :
    (settings : Settings) (row : OutboxRow)
    → (if is_mismatch settings row then 1 else 0)
        + (if in_sending settings row then 1 else 0)
        + (if is_retry settings row then 1 else 0)
        + (if is_first_attempt settings row then 1 else 0)
      ≡ 1
kinds settings row = ground arith

count_kinds :
    (settings : Settings) (rows : List OutboxRow)
    → count_if (is_mismatch settings) rows
        + count_if (in_sending settings) rows
        + count_if (is_retry settings) rows
        + count_if (is_first_attempt settings) rows
      ≡ length rows
unfolding count_if
count_kinds settings [] = refl
count_kinds settings (row ∷ rows) = omega (arith, kinds settings row, count_kinds settings rows)

-- The categories have different names.
category_codes :
    (value : Text)
    → is_some (category_named value) ≡ true
    → (if same value (category_value OutboxFailureCategory.retain_timeout) then 1 else 0)
        + (if same value (category_value OutboxFailureCategory.retain_failed) then 1 else 0)
        + (if same value (category_value OutboxFailureCategory.retain_unconfirmed) then 1 else 0)
      ≡ 1
unfolding category_named text_dec ℕ_discrete
category_codes value known =
    elim (text_dec value (category_value OutboxFailureCategory.retain_timeout)) [
      | yes e ↦ rw e refl
      | no not_timeout ↦
          elim (text_dec value (category_value OutboxFailureCategory.retain_failed)) [
            | yes e ↦ rw e refl
            | no not_failed ↦
                elim (text_dec value (category_value OutboxFailureCategory.retain_unconfirmed)) [
                  | yes e ↦ rw e refl
                  | no not_unconfirmed ↦
                      absurd (ground (arith, known, not_timeout, not_failed, not_unconfirmed))
                ]
          ]
    ]

-- Every error that a clean row records is of one category.
categories :
    (row : OutboxRow)
    → is_corrupt row ≡ false
    → (if has_category OutboxFailureCategory.retain_timeout row then 1 else 0)
        + (if has_category OutboxFailureCategory.retain_failed row then 1 else 0)
        + (if has_category OutboxFailureCategory.retain_unconfirmed row then 1 else 0)
      ≡ (if failed_row row then 1 else 0)
unfolding is_corrupt
categories row clean = elim (Option-cases row.last_error_category) [
  | inl no_error ↦ ground (arith, no_error)
  | inr (value, has) ↦ ground (arith, has, category_codes value)
]

abbrev pub Clean : List OutboxRow → Type 0
Clean = All (λ row. is_corrupt row ≡ false)

count_categories :
    (rows : List OutboxRow)
    → Clean rows
    → count_if (has_category OutboxFailureCategory.retain_timeout) rows
        + count_if (has_category OutboxFailureCategory.retain_failed) rows
        + count_if (has_category OutboxFailureCategory.retain_unconfirmed) rows
      ≡ count_if failed_row rows
unfolding count_if
count_categories [] clean = refl
count_categories (row ∷ rows) clean =
    omega (arith, categories row clean.0, count_categories rows clean.1)

-- The smallest is no larger than any.
smallest_lem :
    (f : OutboxRow → ℕ) (rows : List OutboxRow) (row : OutboxRow)
    → In row rows
    → (t : ℕ) × (smallest f rows ≡ some t) × (t ≤ f row)
unfolding smallest
smallest_lem f [] row listed = absurd listed
smallest_lem f (r ∷ rows) row (inr later) =
    let (t, found, below) = smallest_lem f rows row later in
    (min (f r) t, rw found refl, omega (arith, below))
smallest_lem f (r ∷ rows) row (inl e) = elim (Option-cases (smallest f rows)) [
  | inl nothing ↦ (f r, rw nothing refl, rw e (omega arith))
  | inr (t, found) ↦ (min (f r) t, rw found refl, rw e (omega arith))
]

-- The smallest is one of them.
smallest-In :
    (f : OutboxRow → ℕ) (rows : List OutboxRow) (t : ℕ)
    → smallest f rows ≡ some t
    → (row : OutboxRow) × In row rows × (f row ≡ t)
unfolding smallest
smallest-In f [] t h = cc
smallest-In f (r ∷ rows) t h = elim (Option-cases (smallest f rows)) [
  | inl nothing ↦ (r, inl refl, ground (arith, h, nothing))
  | inr (s, found) ↦ elim (dec_lt s (f r)) [
    | no first ↦ (r, inl refl, ground (arith, h, found))
    | yes later ↦
        let (row, listed, e) = smallest-In f rows s found in
        (row, inr listed, ground (arith, h, found, e))
  ]
]

-- What an inspection of these rows says.
pub record Accounts (settings : Settings) (rows : List OutboxRow) (found : OutboxInspection)
    : Type 0 where
  pub partition :
      found.mismatch_count + found.sending_count + found.retry_count + found.pending_count
      ≡ length rows
  pub bytes : found.logical_queued_bytes ≡ logical_bytes rows
  pub errors :
      found.timeout_errors + found.failed_errors + found.unconfirmed_errors
      ≡ count_if failed_row rows
  pub last_error : is_some found.last_error_category ≡ ltb 0 (count_if failed_row rows)
  pub not_later :
      (row : OutboxRow)
      → In row rows
      → is_retry settings row ≡ true
      → (t : ℕ) × (found.next_retry_at ≡ some t) × (t ≤ row.next_attempt_at)
  pub attained :
      (t : ℕ)
      → found.next_retry_at ≡ some t
      → (row : OutboxRow) × In row rows × (is_retry settings row ≡ true) × (row.next_attempt_at ≡ t)

keep-In :
    (p : OutboxRow → Bool) (rows : List OutboxRow) (row : OutboxRow)
    → In row rows
    → p row ≡ true
    → In row (keep p rows)
unfolding keep
keep-In p [] row listed h = listed
keep-In p (r ∷ rows) row (inl e) h = let first : p r ≡ true = ap p (sym e) ∙ h in rw first (inl e)
keep-In p (r ∷ rows) row (inr listed) h = elim (Bool-cases (p r)) [
  | inl passed ↦ rw passed (inr (keep-In p rows row listed h))
  | inr failed ↦ rw failed (keep-In p rows row listed h)
]

abbrev Named : OutboxRow → Type 0
Named row = (failed_row row ≡ true) × (is_corrupt row ≡ false)

either-Named : (b : Bool) (x y : OutboxRow) → Named x → Named y → Named (if b then x else y)
either-Named true x y h k = h
either-Named false x y h k = k

-- The row with the last error is one of them.
latest_from-Named :
    (best : OutboxRow) (rows : List OutboxRow)
    → Named best
    → All Named rows
    → Named (latest_from best rows)
unfolding latest_from
latest_from-Named best [] h all = h
latest_from-Named best (row ∷ rows) h all =
    latest_from-Named (if error_after row best then row else best) rows
      (either-Named (error_after row best) row best all.0 h) all.1

keep-Named : (rows : List OutboxRow) → Clean rows → All Named (keep failed_row rows)
unfolding keep
keep-Named [] clean = tt
keep-Named (row ∷ rows) clean = elim (Bool-cases (failed_row row)) [
  | inl failed ↦ rw failed ((failed, clean.0), keep-Named rows clean.1)
  | inr fine ↦ rw fine (keep-Named rows clean.1)
]

count_failed : (rows : List OutboxRow) → length (keep failed_row rows) ≡ count_if failed_row rows
count_failed rows = length-keep failed_row rows

-- What reading the last error gives, from the rows that have one.
latest_error-Named :
    (rows : List OutboxRow)
    → All Named rows
    → (latest_error rows ≡ none) × (length rows ≡ 0)
      ⊎ ((value : Text) × (category : OutboxFailureCategory) × (latest_error rows ≡ some value)
          × (category_named value ≡ some category)
          × (0 < length rows))
unfolding latest_error
latest_error-Named [] all = inl (refl, refl)
latest_error-Named (row ∷ rows) all =
    let (failed, clean) = latest_from-Named row rows all.0 all.1 in
    elim (Option-cases (latest_from row rows).last_error_category) [
      | inl no_error ↦ absurd (ground (arith, failed, no_error))
      | inr (value, has) ↦ elim (Option-cases (category_named value)) [
        | inl unknown ↦ absurd (unfold is_corrupt in ground (arith, clean, has, unknown))
        | inr (category, named) ↦ inr (value, category, has, named, omega arith)
      ]
    ]

accounts :
    (settings : Settings) (rows : List OutboxRow) (last : Option OutboxFailureCategory)
    → Clean rows
    → is_some last ≡ ltb 0 (count_if failed_row rows)
    → Accounts settings rows (record (aggregates settings rows) { last_error_category = last })
unfolding aggregates
accounts settings rows last clean some_last = record {
  partition = count_kinds settings rows;
  bytes = refl;
  errors = count_categories rows clean;
  last_error = some_last;
  not_later = λ row listed retry.
      smallest_lem (λ r. r.next_attempt_at) (keep (is_retry settings) rows) row
        (keep-In (is_retry settings) rows row listed retry);
  attained = λ t h.
      let (row, kept, e) =
        smallest-In (λ r. r.next_attempt_at) (keep (is_retry settings) rows) t h in
      let (listed, retry) = In-keep row (is_retry settings) rows kept in (row, listed, retry, e);
}

none_corrupt : (rows : List OutboxRow) → Clean rows → count_if is_corrupt rows ≡ 0
unfolding count_if
none_corrupt [] clean = refl
none_corrupt (row ∷ rows) clean = ground (arith, clean.0, none_corrupt rows clean.1)

same_numbers : (a b : ℕ) → a ≡ b → (a == b) ≡ true
same_numbers a b e = ground arith

-- A readable outbox with clean rows gives an inspection that accounts for all of them: the four kinds add
-- up to the rows, the bytes are those that the capacity counts, the three categories add up to the
-- rows with an error and one of them is the last, and the next retry is the earliest deadline of a
-- row to be retried.
pub read_status_snapshot-Accounts :
    (settings : Settings) (view : SnapshotView) (rows : List OutboxRow)
    → readable view ≡ true
    → Clean rows
    → (found : OutboxInspection) × (read_status_snapshot settings view rows ≡ some found)
      × Accounts settings rows found
unfolding read_status_snapshot aggregates
read_status_snapshot-Accounts settings view rows can_read clean =
    let passes : (readable view
          && count_if is_corrupt rows == 0
          && count_if (is_mismatch settings) rows
              + count_if (in_sending settings) rows
              + count_if (is_retry settings) rows
              + count_if (is_first_attempt settings) rows
            == length rows)
        ≡ true =
      rw (can_read, none_corrupt rows clean) (same_numbers _ _ (count_kinds settings rows)) in
    elim (latest_error-Named (keep failed_row rows) (keep-Named rows clean)) [
      | inl (no_error, empty) ↦ (
        aggregates settings rows,
        rw (passes, no_error) refl,
        accounts settings rows none clean (ground (arith, count_failed rows, empty)),
      )
      | inr (value, category, has, named, some_failed) ↦ (
        record (aggregates settings rows) { last_error_category = some category },
        rw (passes, has, named) refl,
        accounts settings rows (some category) clean
            (ground (arith, count_failed rows, some_failed)),
      )
    ]
