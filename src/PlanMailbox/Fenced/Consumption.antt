-- ===== src/PlanMailbox/Fenced/Consumption.antt =====
-- `consume` of better_hermes_hindsight/plan_mailbox.py keeps a fenced turn fenced.
use better_hermes_hindsight.Common.{
  ℕ, ◌+◌, ◌≤◌, ◌<◌, refl, ◌&&◌, Option, none, some, Text, same, text_dec, List, keep, arith,
  Option-cases, inl, inr, non_empty, length,
}
use better_hermes_hindsight.Common.Dict.{get}
use better_hermes_hindsight.PlanMailbox.State.{
  HomeState, purge_expired, resolve_active_session, plan_max_age,
}
use better_hermes_hindsight.PlanMailbox.Consume.{
  consume, consume_in, consume_resolved, candidates, take_newest, newest, Candidate,
}
use better_hermes_hindsight.PlanMailbox.Invariant.{IsSlot}
use better_hermes_hindsight.PlanMailbox.Fenced.{
  IsFenced, FencedSlot, purge_expired-IsFenced, close_turn-IsFenced, same_times, branch-FencedSlot,
}

module _ (session_id turn_id : Text) (until : ℕ) where
  take_newest-FencedSlot :
      (state : HomeState) (found : List Candidate)
      → IsFenced session_id turn_id until state
      → FencedSlot session_id turn_id until (take_newest state found).1
  unfolding take_newest
  take_newest-FencedSlot state found f = elim (Option-cases (newest found)) [
    | inl e ↦ rw (e, take_newest) f
    | inr (best, e) ↦ rw (e, take_newest) (same_times session_id turn_id until state _ refl refl f)
  ]

  resolve_active_session-IsFenced :
      (state : HomeState) (session : Text)
      → IsFenced session_id turn_id until state
      → IsFenced session_id turn_id until (resolve_active_session state session).0
  unfolding resolve_active_session
  resolve_active_session-IsFenced state session f =
      same_times session_id turn_id until state (resolve_active_session state session).0
        (ground arith) (ground arith) f

  consume_resolved-FencedSlot :
      (digest : Text → Text) (source_query : Text) (now : ℕ) (state : HomeState) (session : Text)
      (redirected : Option Text)
      → until ≤ now + plan_max_age
      → IsFenced session_id turn_id until state
      → FencedSlot session_id turn_id until
          (consume_resolved digest source_query now state session redirected).1
  unfolding consume_resolved
  consume_resolved-FencedSlot digest source_query now state session redirected late f =
      let step = candidates state session (length source_query) redirected now in
      let fenced : IsFenced session_id turn_id until step.0 =
        elim (Option-cases (get text_dec session state.current_turns)) [
          | inl e ↦ rw (e, candidates) f
          | inr ((turn, token), e) ↦
              rw (e, candidates)
                (close_turn-IsFenced session_id turn_id until state session turn now late f)
        ] in
      take_newest-FencedSlot step.0 (keep (λ c. same c.1.query_digest (digest source_query)) step.1)
        fenced

  pub consume-FencedSlot :
      (digest : Text → Text) (source_query session : Text) (now : ℕ) (slot : Option HomeState)
      → IsSlot slot
      → now < until
      → until ≤ now + plan_max_age
      → FencedSlot session_id turn_id until slot
      → FencedSlot session_id turn_id until (consume digest source_query session now slot).1
  unfolding consume consume_in
  consume-FencedSlot digest source_query session now none home early late f = absurd f
  consume-FencedSlot digest source_query session now (some state) home early late f =
      let purged = purge_expired state now in
      let resolved = resolve_active_session purged session in
      let fenced =
        resolve_active_session-IsFenced purged session
          (purge_expired-IsFenced session_id turn_id until state now home early f) in
      branch-FencedSlot session_id turn_id until (non_empty source_query && non_empty session)
        (consume_in digest source_query session now purged) _
        (λ _. elim (Option-cases resolved.1) [
          | inl e ↦ rw (e, consume_in) fenced
          | inr ((effective, redirected), e) ↦
              rw (e, consume_in)
                (consume_resolved-FencedSlot digest source_query now resolved.0 effective redirected
                  late fenced)
        ])
        (λ _. f)
