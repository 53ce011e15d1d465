-- ===== src/Common/Dict.antt =====
-- A Python `dict` in insertion order, over keys with a decidable equality.
use mathlib.Core.Path.{◌≡◌, refl, subst}
use mathlib.Core.Logic.{◌≢◌, inl, inr}
use mathlib.Core.Bool.{Bool, true, false}
use mathlib.Core.Option.{Option, none, some}
use mathlib.Core.List.{List, [], ◌∷◌, map}
use native.Mathlib.Omega.{arith}
use better_hermes_hindsight.Common.Tests.{if◌then◌else◌, holds, is_some}
use better_hermes_hindsight.Common.Lists.{keep, All, In}

abbrev pub Dict {ℓ κ} : Type ℓ → Type κ → Type (ℓ ⊔ κ)
Dict K V = List (K × V)

module _ {ℓ κ} {K : Type ℓ} {V : Type κ} (dec : Discrete K) where
  -- `d.get(k)`
  unfoldable pub get : K → Dict K V → Option V
  get k [] = none
  get k ((j, v) ∷ d) = if holds (dec j k) then some v else get k d

  -- `k in d`
  abbrev pub contains : K → Dict K V → Bool
  contains k d = is_some (get k d)

  -- `d[k] = v`
  unfoldable pub put : K → V → Dict K V → Dict K V
  put k v [] = (k, v) ∷ []
  put k v ((j, w) ∷ d) = if holds (dec j k) then (k, v) ∷ d else (j, w) ∷ put k v d

  -- `d.pop(k, None)`, of the dictionary that is left
  unfoldable pub pop : K → Dict K V → Dict K V
  pop k [] = []
  pop k ((j, w) ∷ d) = if holds (dec j k) then pop k d else (j, w) ∷ pop k d

  -- No key is listed twice.
  abbrev pub IsDict : Dict K V → Type κ
  IsDict [] = Unit
  IsDict ((k, _) ∷ d) = (get k d ≡ none) × IsDict d

  pub get-put :
      (k j : K) (v : V) (d : Dict K V)
      → get j (put k v d) ≡ (if holds (dec k j) then some v else get j d)
  unfolding get put
  get-put k j v [] = refl
  get-put k j v ((i, w) ∷ d) = ground (arith, get-put k j v d)

  pub get-pop :
      (k j : K) (d : Dict K V) → get j (pop k d) ≡ (if holds (dec k j) then none else get j d)
  unfolding get pop
  get-pop k j [] = ground arith
  get-pop k j ((i, w) ∷ d) = ground (arith, get-pop k j d)

  pub put-IsDict : (k : K) (v : V) (d : Dict K V) → IsDict d → IsDict (put k v d)
  unfolding put get
  put-IsDict k v [] h = (refl, tt)
  put-IsDict k v ((i, w) ∷ d) h = ground (arith, put-IsDict k v d, get-put k i v d)

  pub pop-IsDict : (k : K) (d : Dict K V) → IsDict d → IsDict (pop k d)
  unfolding pop
  pop-IsDict k [] h = tt
  pop-IsDict k ((i, w) ∷ d) h = ground (arith, pop-IsDict k d, get-pop k i d)

  get-keep-none :
      (k : K) (p : K × V → Bool) (d : Dict K V) → get k d ≡ none → get k (keep p d) ≡ none
  unfolding get keep
  get-keep-none k p [] h = refl
  get-keep-none k p ((i, w) ∷ d) h = ground (arith, get-keep-none k p d)

  abbrev pub only_if : (V → Bool) → Option V → Option V
  only_if q none = none
  only_if q (some v) = if q v then some v else none

  -- A comprehension over a dictionary looks each key up, and keeps it if the test passes.
  pub get-keep :
      (k : K) (p : K × V → Bool) (d : Dict K V)
      → IsDict d
      → get k (keep p d) ≡ only_if (λ v. p (k, v)) (get k d)
  unfolding get keep
  get-keep k p [] h = refl
  get-keep k p ((i, w) ∷ d) h = ground (arith, get-keep k p d, get-keep-none k p d)

  pub keep-IsDict : (p : K × V → Bool) (d : Dict K V) → IsDict d → IsDict (keep p d)
  unfolding keep
  keep-IsDict p [] h = tt
  keep-IsDict p ((i, w) ∷ d) h = ground (arith, keep-IsDict p d, get-keep-none i p d)

  pub All-put {μ} :
      (P : K × V → Type μ) (k : K) (v : V) (d : Dict K V) → P (k, v) → All P d → All P (put k v d)
  unfolding put
  All-put P k v [] p h = (p, tt)
  All-put P k v ((i, w) ∷ d) p h =
      elim (holds (dec i k)) as (λ b. All P (if b then (k, v) ∷ d else (i, w) ∷ put k v d)) [
        | true ↦ (p, h.1)
        | false ↦ (h.0, All-put P k v d p h.1)
      ]

  pub All-pop {μ} : (P : K × V → Type μ) (k : K) (d : Dict K V) → All P d → All P (pop k d)
  unfolding pop
  All-pop P k [] h = tt
  All-pop P k ((i, w) ∷ d) h =
      elim (holds (dec i k)) as (λ b. All P (if b then pop k d else (i, w) ∷ pop k d)) [
        | true ↦ All-pop P k d h.1
        | false ↦ (h.0, All-pop P k d h.1)
      ]

  -- Only the entries of other keys are left.
  pub All-pop_other {μ} :
      (P Q : K × V → Type μ) (k : K) (d : Dict K V)
      → ((e : K × V) → e.0 ≢ k → P e → Q e)
      → All P d
      → All Q (pop k d)
  unfolding pop
  All-pop_other P Q k [] f h = tt
  All-pop_other P Q k ((i, w) ∷ d) f h =
      elim (dec i k) as (λ b. All Q (if holds b then pop k d else (i, w) ∷ pop k d)) [
        | yes _ ↦ All-pop_other P Q k d f h.1
        | no other ↦ (f (i, w) other h.0, All-pop_other P Q k d f h.1)
      ]

  -- What is found has the property that all entries have.
  pub All-get {μ} :
      (P : K × V → Type μ) (k : K) (d : Dict K V) {v : V} → All P d → get k d ≡ some v → P (k, v)
  unfolding get
  All-get P k [] h e = cc
  All-get P k ((i, w) ∷ d) {v} h e = elim (dec i k) [
    | yes here ↦ let same_key : (i, w) ≡ (k, v) = ground arith in subst P same_key h.0
    | no other ↦ All-get P k d h.1 (ground arith)
  ]

module _ {ℓ κ} {K : Type ℓ} {V : Type κ} (dec : Discrete K) (f : V → V) where
  get-map-none :
      (k : K) (d : Dict K V) → get dec k d ≡ none → get dec k (map (λ e. (e.0, f e.1)) d) ≡ none
  unfolding get
  get-map-none k [] h = refl
  get-map-none k ((i, w) ∷ d) h = ground (arith, get-map-none k d)

  -- Changing the values of a dictionary leaves a dictionary.
  pub map-IsDict : (d : Dict K V) → IsDict dec d → IsDict dec (map (λ e. (e.0, f e.1)) d)
  map-IsDict [] h = tt
  map-IsDict ((i, w) ∷ d) h = (get-map-none i d h.0, map-IsDict d h.1)

module _ {K V : Type 0} (dec : Discrete K) where
  -- An entry of a dictionary is found under its key.
  pub get_of_In : (e : K × V) (d : Dict K V) → IsDict dec d → In e d → get dec e.0 d ≡ some e.1
  unfolding get
  get_of_In e [] h m = absurd m
  get_of_In e (f ∷ d) h (inl here) = ground arith
  get_of_In e (f ∷ d) h (inr later) = ground (arith, get_of_In e d h.1 later)

  pub In-of_get : (k : K) (d : Dict K V) {v : V} → get dec k d ≡ some v → In (k, v) d
  unfolding get
  In-of_get k [] e = cc
  In-of_get k ((i, w) ∷ d) {v} e = elim (dec i k) [
    | yes here ↦ inl (ground arith)
    | no other ↦ inr (In-of_get k d (ground arith))
  ]
