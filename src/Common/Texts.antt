-- ===== src/Common/Texts.antt =====
-- Python's `str` as the list of its code points: equality, the order of SQLite's BINARY collation
-- on UTF-8 (which is the order of code points), and the length in UTF-8 bytes.
use Prim.Native.Char.{code}
use Prim.Native.Nat.{ℕ, ◌+◌, compare, Ordering}
use Prim.Native.String.{String}
use mathlib.Core.Path.{◌≡◌, refl}
use mathlib.Core.Bool.{Bool, true, false}
use mathlib.Core.List.{List, [], ◌∷◌, ◌++◌}
use native.Mathlib.Decide.{ℕ_discrete}
use native.Mathlib.Omega.{arith}
use better_hermes_hindsight.Common.Tests.{ltb, holds, if◌then◌else◌}

abbrev pub Text : Type 0
Text = List ℕ

abbrev pub codes : String → Text
codes String.[] = []
codes (String.◌∷◌ c s) = code c ∷ codes s

unfoldable pub text_dec : Discrete Text
unfolding ℕ_discrete
text_dec = hlevel ℕ_discrete

-- `s == t`
abbrev pub same : Text → Text → Bool
same s t = holds (text_dec s t)

-- `bool(text)`
abbrev pub non_empty : Text → Bool
non_empty [] = false
non_empty (_ ∷ _) = true

-- The order of two texts.
unfoldable pub text_compare : Text → Text → Ordering
text_compare [] [] = Ordering.eq
text_compare [] (_ ∷ _) = Ordering.lt
text_compare (_ ∷ _) [] = Ordering.gt
text_compare (a ∷ s) (b ∷ t) =
    let rest = text_compare s t in
    elim (compare a b) [ Ordering.lt ↦ Ordering.lt | Ordering.gt ↦ Ordering.gt | _ ↦ rest ]

-- The bytes of one code point.
abbrev pub utf8_width : ℕ → ℕ
utf8_width c = if ltb c 0x80 then 1 else if ltb c 0x800 then 2 else if ltb c 0x10000 then 3 else 4

-- `len(text.encode("utf-8"))`
unfoldable pub utf8_length : Text → ℕ
utf8_length [] = 0
utf8_length (c ∷ s) = utf8_width c + utf8_length s

pub text_compare_refl : (s : Text) → text_compare s s ≡ Ordering.eq
unfolding text_compare
text_compare_refl [] = refl
text_compare_refl (a ∷ s) = ground (arith, text_compare_refl s)

-- Only equal texts compare as equal.
pub eq_of_text_compare : (s t : Text) → text_compare s t ≡ Ordering.eq → s ≡ t
unfolding text_compare
eq_of_text_compare [] [] h = refl
eq_of_text_compare [] (b ∷ t) h = cc
eq_of_text_compare (a ∷ s) [] h = cc
eq_of_text_compare (a ∷ s) (b ∷ t) h = ground (arith, eq_of_text_compare s t)

pub text_lt_trans :
    (s t u : Text)
    → text_compare s t ≡ Ordering.lt
    → text_compare t u ≡ Ordering.lt
    → text_compare s u ≡ Ordering.lt
unfolding text_compare
text_lt_trans [] [] u h k = cc
text_lt_trans [] (b ∷ t) [] h k = cc
text_lt_trans [] (b ∷ t) (c ∷ u) h k = refl
text_lt_trans (a ∷ s) [] u h k = cc
text_lt_trans (a ∷ s) (b ∷ t) [] h k = cc
text_lt_trans (a ∷ s) (b ∷ t) (c ∷ u) h k = ground (arith, text_lt_trans s t u)

pub utf8_length-append : (s t : Text) → utf8_length (s ++ t) ≡ utf8_length s + utf8_length t
unfolding utf8_length
utf8_length-append [] t = omega arith
utf8_length-append (c ∷ s) t = ground (arith, utf8_length-append s t)
