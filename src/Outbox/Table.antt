-- ===== src/Outbox/Table.antt =====
-- The SQL table `outbox` of better_hermes_hindsight/outbox.py: its statements on the list of rows,
-- and the laws of a table whose primary key is unique.
use better_hermes_hindsight.Common.{
  ℕ, ◌≤◌, ◌≡◌, refl, Bool, true, false, not, ◌&&◌, List, [], ◌∷◌, ◌++◌, Option, none, some,
  if◌then◌else◌, ◌∙◌, ◌≢◌, Option-cases, Text, same, text_dec, arith, length, keep, count_if, total,
  is_some, In, inl, inr,
}
use better_hermes_hindsight.Outbox.Types.{OutboxRow, find_row, row_bytes}

-- `UPDATE outbox SET ... WHERE p`; `cursor.rowcount` is `count_if p rows`.
unfoldable pub update_where :
    (OutboxRow → Bool) → (OutboxRow → OutboxRow) → List OutboxRow → List OutboxRow
update_where p f [] = []
update_where p f (row ∷ rows) = (if p row then f row else row) ∷ update_where p f rows

-- `DELETE FROM outbox WHERE p`
unfoldable pub delete_where : (OutboxRow → Bool) → List OutboxRow → List OutboxRow
unfolding keep
delete_where p = keep (λ row. not (p row))

-- The primary key is unique.
abbrev pub IsTable : List OutboxRow → Type 0
IsTable [] = Unit
IsTable (row ∷ rows) = (find_row row.document_id rows ≡ none) × IsTable rows

abbrev pub logical_bytes : List OutboxRow → ℕ
logical_bytes = total row_bytes

abbrev pub updated :
    (OutboxRow → Bool) → (OutboxRow → OutboxRow) → Option OutboxRow → Option OutboxRow
updated p f none = none
updated p f (some row) = some (if p row then f row else row)

abbrev pub undeleted : (OutboxRow → Bool) → Option OutboxRow → Option OutboxRow
undeleted p none = none
undeleted p (some row) = if p row then none else some row

abbrev pub KeepsKey : (OutboxRow → OutboxRow) → Type 0
KeepsKey f = (row : OutboxRow) → (f row).document_id ≡ row.document_id

pub find_row-In :
    (id : Text) (rows : List OutboxRow) {row : OutboxRow}
    → find_row id rows ≡ some row
    → In row rows × (row.document_id ≡ id)
unfolding find_row
find_row-In id [] h = cc
find_row-In id (r ∷ rows) {row} h = elim (text_dec r.document_id id) [
  | yes e ↦ let same_row : row ≡ r = ground arith in (inl same_row, cc)
  | no n ↦ let ih = find_row-In id rows {row = row} (ground arith) in (inr ih.0, ih.1)
]

-- In a table every row is found under its key.
pub find_row_of_In :
    (row : OutboxRow) (rows : List OutboxRow)
    → IsTable rows
    → In row rows
    → find_row row.document_id rows ≡ some row
unfolding find_row
find_row_of_In row [] t m = absurd m
find_row_of_In row (r ∷ rows) t (inl e) = ground arith
find_row_of_In row (r ∷ rows) t (inr m) = ground (arith, find_row_of_In row rows t.1 m)

pub find_row-update_where :
    (p : OutboxRow → Bool) (f : OutboxRow → OutboxRow)
    → KeepsKey f
    → (id : Text) (rows : List OutboxRow)
    → find_row id (update_where p f rows) ≡ updated p f (find_row id rows)
unfolding find_row update_where
find_row-update_where p f key id [] = refl
find_row-update_where p f key id (row ∷ rows) =
    ground (arith, key row, find_row-update_where p f key id rows)

find_row-delete_none :
    (p : OutboxRow → Bool) (id : Text) (rows : List OutboxRow)
    → find_row id rows ≡ none
    → find_row id (delete_where p rows) ≡ none
unfolding find_row delete_where
find_row-delete_none p id [] h = refl
find_row-delete_none p id (row ∷ rows) h = ground (arith, find_row-delete_none p id rows)

pub find_row-delete_where :
    (p : OutboxRow → Bool) (id : Text) (rows : List OutboxRow)
    → IsTable rows
    → find_row id (delete_where p rows) ≡ undeleted p (find_row id rows)
unfolding find_row delete_where
find_row-delete_where p id [] t = refl
find_row-delete_where p id (row ∷ rows) t =
    ground (arith, find_row-delete_where p id rows t.1, find_row-delete_none p id rows)

pub update_where-IsTable :
    (p : OutboxRow → Bool) (f : OutboxRow → OutboxRow)
    → KeepsKey f
    → (rows : List OutboxRow) → IsTable rows
    → IsTable (update_where p f rows)
unfolding update_where
update_where-IsTable p f key [] t = tt
update_where-IsTable p f key (row ∷ rows) t = ground (
  arith,
  key row,
  find_row-update_where p f key row.document_id rows,
  update_where-IsTable p f key rows t.1,
)

pub delete_where-IsTable :
    (p : OutboxRow → Bool) (rows : List OutboxRow) → IsTable rows → IsTable (delete_where p rows)
unfolding delete_where
delete_where-IsTable p [] t = tt
delete_where-IsTable p (row ∷ rows) t =
    ground (arith, find_row-delete_none p row.document_id rows, delete_where-IsTable p rows t.1)

-- An update that keeps the content changes neither usage figure.
pub update_where_usage :
    (p : OutboxRow → Bool) (f : OutboxRow → OutboxRow)
    → ((row : OutboxRow) → (f row).content ≡ row.content)
    → (rows : List OutboxRow)
    → (length (update_where p f rows) ≡ length rows)
      × (logical_bytes (update_where p f rows) ≡ logical_bytes rows)
unfolding update_where total
update_where_usage p f same_content [] = (refl, refl)
update_where_usage p f same_content (row ∷ rows) =
    ground (arith, same_content row, update_where_usage p f same_content rows)

-- A deletion lowers both usage figures, or leaves them.
pub delete_where_usage :
    (p : OutboxRow → Bool) (rows : List OutboxRow)
    → (length (delete_where p rows) ≤ length rows)
      × (logical_bytes (delete_where p rows) ≤ logical_bytes rows)
unfolding delete_where total
delete_where_usage p [] = omega arith
delete_where_usage p (row ∷ rows) = ground (arith, delete_where_usage p rows)

-- A guard on one key.
abbrev pub at_key : Text → (OutboxRow → Bool) → OutboxRow → Bool
at_key id q row = same row.document_id id && q row

abbrev pub passes : (OutboxRow → Bool) → Option OutboxRow → Bool
passes q none = false
passes q (some row) = q row

count_at_key-none :
    (id : Text) (q : OutboxRow → Bool) (rows : List OutboxRow)
    → find_row id rows ≡ none
    → count_if (at_key id q) rows ≡ 0
unfolding find_row count_if
count_at_key-none id q [] h = refl
count_at_key-none id q (row ∷ rows) h = ground (arith, count_at_key-none id q rows)

-- A guarded statement on one key touches one row if the row of that key passes the guard, and none
-- otherwise.
pub count_at_key :
    (id : Text) (q : OutboxRow → Bool) (rows : List OutboxRow)
    → IsTable rows
    → count_if (at_key id q) rows ≡ (if passes q (find_row id rows) then 1 else 0)
unfolding find_row count_if
count_at_key id q [] t = refl
count_at_key id q (row ∷ rows) t = elim (text_dec row.document_id id) [
  | yes e ↦ ground (arith, count_at_key-none id q rows)
  | no n ↦ ground (arith, count_at_key id q rows t.1)
]

find_row-append_none :
    (id : Text) (xs ys : List OutboxRow)
    → find_row id xs ≡ none
    → find_row id (xs ++ ys) ≡ find_row id ys
unfolding find_row
find_row-append_none id [] ys h = refl
find_row-append_none id (x ∷ xs) ys h = ground (arith, find_row-append_none id xs ys)

pub find_row-append :
    (id : Text) (xs ys : List OutboxRow)
    → find_row id (xs ++ ys) ≡ (if is_some (find_row id xs) then find_row id xs else find_row id ys)
unfolding find_row
find_row-append id [] ys = refl
find_row-append id (x ∷ xs) ys = ground (arith, find_row-append id xs ys)

-- A guarded update of one key leaves the row of every other key.
pub find_row-update_others :
    (key : Text) (q : OutboxRow → Bool) (f : OutboxRow → OutboxRow)
    → KeepsKey f
    → (id : Text) (rows : List OutboxRow) → id ≢ key
    → find_row id (update_where (at_key key q) f rows) ≡ find_row id rows
find_row-update_others key q f keeps id rows other =
    find_row-update_where (at_key key q) f keeps id rows ∙ elim (Option-cases (find_row id rows)) [
      | inl absent ↦ rw absent
      | inr (row, stored) ↦ let (_, named) = find_row-In id rows stored in rw stored (ground arith)
    ]

-- The row of the key itself is rewritten if it passes the guard.
pub find_row-update_self :
    (key : Text) (q : OutboxRow → Bool) (f : OutboxRow → OutboxRow)
    → KeepsKey f
    → (rows : List OutboxRow) {row : OutboxRow} → find_row key rows ≡ some row
    → q row ≡ true
    → find_row key (update_where (at_key key q) f rows) ≡ some (f row)
find_row-update_self key q f keeps rows {row} stored pass =
    let (_, named) = find_row-In key rows stored in
    find_row-update_where (at_key key q) f keeps key rows ∙ rw stored (ground arith)

-- A guarded deletion of one key, where its row passes the guard.
pub find_row-delete_key :
    (key : Text) (q : OutboxRow → Bool) (id : Text) (rows : List OutboxRow) {row : OutboxRow}
    → IsTable rows
    → find_row key rows ≡ some row
    → q row ≡ true
    → find_row id (delete_where (at_key key q) rows)
      ≡ (if same id key then none else find_row id rows)
find_row-delete_key key q id rows {row} table stored pass =
    find_row-delete_where (at_key key q) id rows table ∙ elim (Option-cases (find_row id rows)) [
      | inl absent ↦ rw absent (ground arith)
      | inr (found, at_id) ↦
          let (_, named) = find_row-In id rows at_id in
          let (_, key_named) = find_row-In key rows stored in rw at_id (ground arith)
    ]
