-- ===== src/Outbox/Order.antt =====
-- The order in which `claim_due` of better_hermes_hindsight/outbox.py takes rows: its `ORDER BY`
-- and `LIMIT 1`.
use Prim.Native.Nat.{compare, Ordering}
use better_hermes_hindsight.Common.{
  ℕ, ◌≡◌, refl, Bool, true, false, List, [], ◌∷◌, Option, none, some, subst, if◌then◌else◌, Text,
  arith, text_compare, eq_of_text_compare, text_lt_trans, text_compare_refl, All, In, Bool-cases,
  inl, inr,
}
use better_hermes_hindsight.Outbox.Types.{OutboxRow}

-- The next column decides where this one ties.
abbrev pub lex : Ordering → Ordering → Ordering
lex Ordering.lt _ = Ordering.lt
lex Ordering.gt _ = Ordering.gt
lex Ordering.eq o = o

unfoldable pub row_compare : OutboxRow → OutboxRow → Ordering
row_compare a b = lex (compare a.next_attempt_at b.next_attempt_at) (
    lex (compare a.created_at b.created_at) (
      lex (text_compare a.source_sha256 b.source_sha256)
        (lex (compare a.segment_index b.segment_index) (text_compare a.document_id b.document_id))))

abbrev pub row_before : OutboxRow → OutboxRow → Bool
row_before a b = elim (row_compare a b) [ Ordering.lt ↦ true | _ ↦ false ]

-- The first of the rows, starting from one of them.
first_from : OutboxRow → List OutboxRow → OutboxRow
first_from best [] = best
first_from best (row ∷ rows) = first_from (if row_before row best then row else best) rows

unfoldable pub first_row : List OutboxRow → Option OutboxRow
unfolding first_from
first_row [] = none
first_row (row ∷ rows) = some (first_from row rows)

abbrev Chains : Ordering → Ordering → Ordering → Type 0
Chains xy yz xz = xy ≡ Ordering.lt → yz ≡ Ordering.lt → xz ≡ Ordering.lt

lex-number :
    (a b c : ℕ) (xy yz xz : Ordering)
    → Chains xy yz xz
    → Chains (lex (compare a b) xy) (lex (compare b c) yz) (lex (compare a c) xz)
lex-number a b c xy yz xz h = λ p q. ground arith

lex-text :
    (a b c : Text) (xy yz xz : Ordering)
    → Chains xy yz xz
    → Chains (lex (text_compare a b) xy) (lex (text_compare b c) yz) (lex (text_compare a c) xz)
lex-text a b c xy yz xz h = λ p q. ground (
  arith,
  text_lt_trans a b c,
  eq_of_text_compare a b,
  eq_of_text_compare b c,
  text_compare_refl a,
)

row_compare_trans :
    (a b c : OutboxRow) → Chains (row_compare a b) (row_compare b c) (row_compare a c)
unfolding row_compare
row_compare_trans a b c = lex-number a.next_attempt_at b.next_attempt_at c.next_attempt_at _ _ _ (
    lex-number a.created_at b.created_at c.created_at _ _ _ (
      lex-text a.source_sha256 b.source_sha256 c.source_sha256 _ _ _ (
        lex-number a.segment_index b.segment_index c.segment_index _ _ _
          (text_lt_trans a.document_id b.document_id c.document_id))))

row_before_trans :
    (a b c : OutboxRow) → row_before a b ≡ true → row_before b c ≡ true → row_before a c ≡ true
row_before_trans a b c p q = ground (arith, row_compare_trans a b c)

row_before_irrefl : (a : OutboxRow) → row_before a a ≡ false
unfolding row_compare
row_before_irrefl a =
    ground (arith, text_compare_refl a.source_sha256, text_compare_refl a.document_id)

-- No row stands before `best`.
abbrev pub IsFirst : OutboxRow → List OutboxRow → Type 0
IsFirst best = All (λ row. row_before row best ≡ false)

first_from_keeps :
    (x best : OutboxRow) (rows : List OutboxRow)
    → row_before x best ≡ false
    → row_before x (first_from best rows) ≡ false
unfolding first_from
first_from_keeps x best [] h = h
first_from_keeps x best (row ∷ rows) h = elim (Bool-cases (row_before row best)) [
  | inl earlier ↦
      rw earlier (first_from_keeps x row rows (ground (arith, row_before_trans x row best)))
  | inr later ↦ rw later (first_from_keeps x best rows h)
]

first_from-IsFirst :
    (best : OutboxRow) (rows : List OutboxRow)
    → (row_before best (first_from best rows) ≡ false) × IsFirst (first_from best rows) rows
unfolding first_from
first_from-IsFirst best [] = (row_before_irrefl best, tt)
first_from-IsFirst best (row ∷ rows) =
    let next = if row_before row best then row else best in
    (
      first_from_keeps best next rows
          (ground (arith, row_before_trans best row best, row_before_irrefl best)),
      (
        first_from_keeps row next rows (ground (arith, row_before_irrefl row)),
        (first_from-IsFirst next rows).1,
      ),
    )

In-chosen :
    (b : Bool) (x row best : OutboxRow) (rows : List OutboxRow)
    → In x ((if b then row else best) ∷ rows)
    → In x (best ∷ row ∷ rows)
In-chosen true x row best rows m = inr m
In-chosen false x row best rows (inl e) = inl e
In-chosen false x row best rows (inr m) = inr (inr m)

first_from-In : (best : OutboxRow) (rows : List OutboxRow) → In (first_from best rows) (best ∷ rows)
unfolding first_from
first_from-In best [] = inl refl
first_from-In best (row ∷ rows) =
    In-chosen (row_before row best) _ row best rows
      (first_from-In (if row_before row best then row else best) rows)

-- The row that is taken is one of the rows, and none stands before it.
pub first_row_lem :
    (rows : List OutboxRow) {best : OutboxRow}
    → first_row rows ≡ some best
    → In best rows × IsFirst best rows
unfolding first_row
first_row_lem [] h = cc
first_row_lem (row ∷ rows) {best} h =
    let e : first_from row rows ≡ best = cc in
    (
      subst (λ x. In x (row ∷ rows)) e (first_from-In row rows),
      subst (λ x. IsFirst x (row ∷ rows)) e (first_from-IsFirst row rows),
    )
