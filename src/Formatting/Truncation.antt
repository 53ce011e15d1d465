-- ===== src/Formatting/Truncation.antt =====
-- `_fit_truncated_record` of better_hermes_hindsight/formatting.py: the longest prefix of a memory that
-- its search finds to fit.
use better_hermes_hindsight.Common.{
  ℕ, zero, suc, ◌+◌, ◌-◌, ◌/◌, ◌≤◌, ◌<◌, ◌≡◌, refl, true, false, ◌++◌, Option, none, some,
  if◌then◌else◌, leb, ltb, length, utf8_length, arith, Bool-cases, inl, inr, ◌⊎◌, ◌∙◌, sym, subst,
  ltb→lt, leb→le,
}
use better_hermes_hindsight.Formatting.Markers.{text_truncation_marker}
use better_hermes_hindsight.Formatting.Query.{take}
use better_hermes_hindsight.Formatting.Records.{MemoryRecord, serialize_record}

-- The record with a prefix of its memory and the marker.
abbrev pub truncated : MemoryRecord → ℕ → MemoryRecord
truncated r prefix_chars = record r {
  memory = take prefix_chars r.memory ++ text_truncation_marker;
}

abbrev pub truncated_bytes : MemoryRecord → ℕ → ℕ
truncated_bytes r prefix_chars = utf8_length (serialize_record (truncated r prefix_chars))

-- The binary search, on fuel, for the number of characters. `limit` is `high + 1`, since `high` may
-- be -1. `none` where the fuel is spent.
unfoldable pub search_prefix : ℕ → MemoryRecord → ℕ → ℕ → ℕ → ℕ → Option ℕ
search_prefix zero r available low limit best = none
search_prefix (suc fuel) r available low limit best =
    let middle = (low + limit - 1) / 2 in
    elim (ltb low limit) [
      | false ↦ some best
      | true ↦ elim (leb (truncated_bytes r middle) available) [
        | true ↦ search_prefix fuel r available (middle + 1) limit middle
        | false ↦ search_prefix fuel r available low middle best
      ]
    ]

-- No prefix fits, or the prefix that is kept.
pub data Fit : Type 0 where
  too_long out_of_fuel : Fit
  prefix : ℕ → Fit

abbrev fit_of : Option ℕ → Fit
fit_of none = Fit.out_of_fuel
fit_of (some n) = Fit.prefix n

unfoldable pub fit_truncated_record : MemoryRecord → ℕ → Fit
unfolding search_prefix
fit_truncated_record r available =
    if ltb available (truncated_bytes r 0)
    then Fit.too_long
    else fit_of (search_prefix (length r.memory + 2) r available 0 (length r.memory + 1) 0)

-- What the search keeps: all below `low` that it tried fits, and what stands at `limit` does not.
record Between (r : MemoryRecord) (available low limit best : ℕ) : Type 0 where
  ordered : low ≤ limit
  fits : truncated_bytes r best ≤ available
  below : (low ≡ 0) × (best ≡ 0) ⊎ (low ≡ best + 1)
  above : (limit ≡ length r.memory + 1) ⊎ (available < truncated_bytes r limit)

-- What the search finds: a prefix that fits, and that is whole or cannot be made longer by one.
pub record Longest (r : MemoryRecord) (available n : ℕ) : Type 0 where
  pub fits : truncated_bytes r n ≤ available
  pub last : (n ≡ length r.memory) ⊎ (available < truncated_bytes r (n + 1))

lt_of_not_leb : (a b : ℕ) → leb a b ≡ false → b < a
lt_of_not_leb a b h = ground arith

le_of_not_ltb : (a b : ℕ) → ltb a b ≡ false → b ≤ a
le_of_not_ltb a b h = ground arith

middle_bounds :
    (low limit : ℕ) → low < limit → (low ≤ (low + limit - 1) / 2) × ((low + limit - 1) / 2 < limit)
middle_bounds low limit h = (omega arith, omega arith)

-- The turns of the search.
search_stops :
    (fuel : ℕ) (r : MemoryRecord) (available low limit best : ℕ)
    → ltb low limit ≡ false
    → search_prefix (suc fuel) r available low limit best ≡ some best
unfolding search_prefix
search_stops fuel r available low limit best over = rw (over, search_prefix) refl

search_up :
    (fuel : ℕ) (r : MemoryRecord) (available low limit best : ℕ)
    → ltb low limit ≡ true
    → leb (truncated_bytes r ((low + limit - 1) / 2)) available ≡ true
    → search_prefix (suc fuel) r available low limit best
      ≡ search_prefix fuel r available ((low + limit - 1) / 2 + 1) limit ((low + limit - 1) / 2)
unfolding search_prefix
search_up fuel r available low limit best goes_on fits = rw (goes_on, fits, search_prefix) refl

search_down :
    (fuel : ℕ) (r : MemoryRecord) (available low limit best : ℕ)
    → ltb low limit ≡ true
    → leb (truncated_bytes r ((low + limit - 1) / 2)) available ≡ false
    → search_prefix (suc fuel) r available low limit best
      ≡ search_prefix fuel r available low ((low + limit - 1) / 2) best
unfolding search_prefix
search_down fuel r available low limit best goes_on exceeds =
    rw (goes_on, exceeds, search_prefix) refl

-- Where the bounds have met.
met-Longest :
    (r : MemoryRecord) (available low limit best : ℕ)
    → limit ≤ low
    → Between r available low limit best
    → Longest r available best
met-Longest r available low limit best over b =
    let met : limit ≡ low = omega (arith, b.ordered, over) in
    record {
      fits = b.fits;
      last = elim b.below [
        | inl (low_zero, best_zero) ↦ elim b.above [
          | inl whole ↦ absurd (omega (arith, met, low_zero, whole))
          | inr exceeds ↦
              let same_place : limit ≡ best = met ∙ low_zero ∙ sym best_zero in
              let again = subst (λ k. available < truncated_bytes r k) same_place exceeds in
              absurd (omega (arith, again, b.fits))
        ]
        | inr next ↦ elim b.above [
          | inl whole ↦ inl (omega (arith, met, next, whole))
          | inr exceeds ↦ inr (subst (λ k. available < truncated_bytes r k) (met ∙ next) exceeds)
        ]
      ];
    }

search_lem :
    (fuel : ℕ) (r : MemoryRecord) (available low limit best : ℕ)
    → limit - low < fuel
    → Between r available low limit best
    → (n : ℕ) × (search_prefix fuel r available low limit best ≡ some n) × Longest r available n
search_lem zero r available low limit best enough b = absurd (omega arith)
search_lem (suc fuel) r available low limit best enough b =
    let middle = (low + limit - 1) / 2 in
    elim (Bool-cases (ltb low limit)) [
      | inr over ↦ (
        best,
        search_stops fuel r available low limit best over,
        met-Longest r available low limit best (ground (arith, over)) b,
      )
      | inl goes_on ↦
          let between = middle_bounds low limit (ltb→lt low limit goes_on) in
          elim (Bool-cases (leb (truncated_bytes r middle) available)) [
            | inl fits ↦
                let (n, found, longest) =
                  search_lem fuel r available (middle + 1) limit middle
                    (omega (arith, between, enough))
                    (record {
                      ordered = omega (arith, between);
                      fits = leb→le (truncated_bytes r middle) available fits;
                      below = inr refl;
                      above = b.above;
                    }) in
                (n, search_up fuel r available low limit best goes_on fits ∙ found, longest)
            | inr exceeds ↦
                let (n, found, longest) =
                  search_lem fuel r available low middle best (omega (arith, between, enough))
                    (record {
                      ordered = omega (arith, between);
                      fits = b.fits;
                      below = b.below;
                      above = inr (lt_of_not_leb (truncated_bytes r middle) available exceeds);
                    }) in
                (n, search_down fuel r available low limit best goes_on exceeds ∙ found, longest)
          ]
    ]

-- What the fitting of a record says.
abbrev pub Fitted : MemoryRecord → ℕ → Fit → Type 0
Fitted r available Fit.too_long = available < truncated_bytes r 0
Fitted r available Fit.out_of_fuel = ⊥
Fitted r available (Fit.prefix n) = Longest r available n

-- The search for a prefix ends, within any number of bytes: it finds none only where the bare marker does not
-- fit, and otherwise a prefix whose record fits and which is the whole memory, or whose record no
-- longer fits with one more character.
pub fit_truncated_record-Fitted :
    (r : MemoryRecord) (available : ℕ) → Fitted r available (fit_truncated_record r available)
unfolding fit_truncated_record
fit_truncated_record-Fitted r available = elim (Bool-cases (ltb available (truncated_bytes r 0))) [
  | inl small ↦ rw small (ltb→lt available (truncated_bytes r 0) small)
  | inr room ↦
      let (n, found, longest) =
        search_lem (length r.memory + 2) r available 0 (length r.memory + 1) 0 (omega arith)
          (record {
            ordered = omega arith;
            fits = le_of_not_ltb available (truncated_bytes r 0) room;
            below = inl (refl, refl);
            above = inl refl;
          }) in
      rw (room, found) longest
]
