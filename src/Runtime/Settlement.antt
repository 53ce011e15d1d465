-- ===== src/Runtime/Settlement.antt =====
-- The unsettled calls of `AsyncRunner` in better_hermes_hindsight/runtime.py: the publication of a
-- token races with the completion of its call.
use better_hermes_hindsight.Common.{
  ℕ, ◌≡◌, refl, true, false, ◌||◌, not, List, [], ◌∷◌, ◌==◌, arith, All, All-keep, keep, Bool-cases,
  inl, inr,
}
use better_hermes_hindsight.Runtime.Runner.{
  AsyncRunner, has_token, no_tokens, publish_unsettled, complete, settled, Event, happen,
}

-- No unsettled call is done.
abbrev pub Tracks : AsyncRunner → Type 0
Tracks r = All (λ token. has_token token r.done_calls ≡ false) r.unsettled_tokens

abbrev pub publications : List Event → List ℕ
publications [] = []
publications (Event.publishes token ∷ events) = token ∷ publications events
publications (Event.completes token ∷ events) = publications events

abbrev pub completions : List Event → List ℕ
completions [] = []
completions (Event.publishes token ∷ events) = completions events
completions (Event.completes token ∷ events) = token ∷ completions events

publish_unsettled-Tracks :
    (token : ℕ) (r : AsyncRunner) → Tracks r → Tracks (publish_unsettled token r)
unfolding publish_unsettled
publish_unsettled-Tracks token r h = elim (Bool-cases (has_token token r.done_calls)) [
  | inl done ↦ rw done h
  | inr live ↦ rw live (live, h)
]

discard-Tracks :
    (token : ℕ) (done tokens : List ℕ)
    → All (λ t. has_token t done ≡ false) tokens
    → All (λ t. has_token t (token ∷ done) ≡ false) (keep (λ t. not (t == token)) tokens)
unfolding keep
discard-Tracks token done [] h = tt
discard-Tracks token done (t ∷ tokens) h = elim (Bool-cases (t == token)) [
  | inl same ↦ rw same (discard-Tracks token done tokens h.1)
  | inr other ↦ rw other (ground (arith, h.0, other), discard-Tracks token done tokens h.1)
]

happen-Tracks : (events : List Event) (r : AsyncRunner) → Tracks r → Tracks (happen events r)
unfolding happen complete
happen-Tracks [] r h = h
happen-Tracks (Event.publishes token ∷ later) r h =
    happen-Tracks later (publish_unsettled token r) (publish_unsettled-Tracks token r h)
happen-Tracks (Event.completes token ∷ later) r h =
    happen-Tracks later (complete token r) (discard-Tracks token r.done_calls r.unsettled_tokens h)

publish_unsettled-All :
    (P : ℕ → Type 0) (token : ℕ) (r : AsyncRunner)
    → P token
    → All P r.unsettled_tokens
    → All P (publish_unsettled token r).unsettled_tokens
unfolding publish_unsettled
publish_unsettled-All P token r p h = elim (Bool-cases (has_token token r.done_calls)) [
  | inl done ↦ rw done h
  | inr live ↦ rw live (p, h)
]

-- Only published tokens are unsettled.
happen-All :
    (P : ℕ → Type 0) (events : List Event) (r : AsyncRunner)
    → All P r.unsettled_tokens
    → All P (publications events)
    → All P (happen events r).unsettled_tokens
unfolding happen complete
happen-All P [] r h all = h
happen-All P (Event.publishes token ∷ later) r h (p, all) =
    happen-All P later (publish_unsettled token r) (publish_unsettled-All P token r p h) all
happen-All P (Event.completes token ∷ later) r h all =
    happen-All P later (complete token r) (All-keep P (λ t. not (t == token)) r.unsettled_tokens h)
      all

happen_done :
    (events : List Event) (r : AsyncRunner) (token : ℕ)
    → has_token token (completions events) || has_token token r.done_calls ≡ true
    → has_token token (happen events r).done_calls ≡ true
unfolding happen complete publish_unsettled
happen_done [] r token h = h
happen_done (Event.publishes t ∷ later) r token h =
    happen_done later (publish_unsettled t r) token (ground arith)
happen_done (Event.completes t ∷ later) r token h =
    happen_done later (complete t r) token (ground arith)

-- What is both done and not done is nothing.
empty_of_both :
    (done tokens : List ℕ)
    → All (λ t. has_token t done ≡ false) tokens
    → All (λ t. has_token t done ≡ true) tokens
    → no_tokens tokens ≡ true
empty_of_both done [] h k = refl
empty_of_both done (t ∷ tokens) h k = absurd (ground (arith, h.0, k.0))

All-done :
    (events : List Event) (r : AsyncRunner) (tokens : List ℕ)
    → All (λ t. has_token t (completions events) ≡ true) tokens
    → All (λ t. has_token t (happen events r).done_calls ≡ true) tokens
All-done events r [] h = tt
All-done events r (t ∷ tokens) h =
    (happen_done events r t (ground (arith, h.0)), All-done events r tokens h.1)

none_left : (P : ℕ → Type 0) (tokens : List ℕ) → no_tokens tokens ≡ true → All P tokens
none_left P [] h = tt
none_left P (t ∷ tokens) h = cc

-- No settlement is lost: where the calls that were published as unsettled are all completed in the end, by
-- the loop, before or after their publication and in any order, `wait_for_settlement` returns true.
pub happen-settled :
    (events : List Event) (r : AsyncRunner)
    → settled r ≡ true
    → All (λ token. has_token token (completions events) ≡ true) (publications events)
    → settled (happen events r) ≡ true
happen-settled events r quiet completed =
    let start : (P : ℕ → Type 0) → All P r.unsettled_tokens =
      λ P. none_left P r.unsettled_tokens quiet in
    empty_of_both (happen events r).done_calls (happen events r).unsettled_tokens
      (happen-Tracks events r (start (λ token. has_token token r.done_calls ≡ false)))
      (happen-All (λ t. has_token t (happen events r).done_calls ≡ true) events r
        (start (λ t. has_token t (happen events r).done_calls ≡ true))
        (All-done events r (publications events) completed))
