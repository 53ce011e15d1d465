-- ===== src/PlanMailbox/Fenced/Calls.antt =====
-- The other calls of better_hermes_hindsight/plan_mailbox.py that keep a fenced turn fenced.
use better_hermes_hindsight.Common.{
  ℕ, ◌<◌, ap, ◌≢◌, true, false, Option, none, some, Text, text_dec, arith, if◌then◌else◌,
  Option-cases, inl, inr, non_empty,
}
use better_hermes_hindsight.Common.Dict.{get, pop, IsDict}
use better_hermes_hindsight.PlanMailbox.State.{
  PlanMode, PlanAction, turn_dec, HomeState, purge_expired, clear_session, drop_empty_home,
  is_active_in, ok, same_token,
}
use better_hermes_hindsight.PlanMailbox.Turns.{
  activate, is_active, reserve, Request, finalize, publish_plan, cancel, cancel_plan, cancelled,
  purge_stale, release_activation, deactivate, clear_session_plans,
}
use better_hermes_hindsight.PlanMailbox.Invariant.{IsSlot, purge_expired-IsHome}
use better_hermes_hindsight.PlanMailbox.Fenced.{
  IsFenced, FencedSlot, Elsewhere, purge_expired-IsFenced, clear_session-IsFenced,
  branch-FencedSlot, drop_empty_home-FencedSlot,
}

module _ (session_id turn_id : Text) (until : ℕ) where
  pub activate-FencedSlot :
      (session token : Text) (now : ℕ) (slot : Option HomeState)
      → IsSlot slot
      → now < until
      → FencedSlot session_id turn_id until slot
      → FencedSlot session_id turn_id until (activate session token now slot).1
  unfolding activate
  activate-FencedSlot session token now none home early f = absurd f
  activate-FencedSlot session token now (some state) home early f =
      let purged = purge_expired-IsFenced session_id turn_id until state now home early f in
      ground (arith, purged.fenced, purged.not_current)

  pub is_active-FencedSlot :
      (session : Text) (now : ℕ) (slot : Option HomeState)
      → IsSlot slot
      → now < until
      → FencedSlot session_id turn_id until slot
      → FencedSlot session_id turn_id until (is_active session now slot).1
  unfolding is_active
  is_active-FencedSlot session now none home early f = absurd f
  is_active-FencedSlot session now (some state) home early f =
      let purged = purge_expired-IsFenced session_id turn_id until state now home early f in
      ground (arith, purged)

  pub reserve-FencedSlot :
      (digest : Text → Text) (request : Request) (now : ℕ) (slot : Option HomeState)
      → IsSlot slot
      → now < until
      → FencedSlot session_id turn_id until slot
      → FencedSlot session_id turn_id until (reserve digest request now slot).1
  unfolding reserve
  reserve-FencedSlot digest request now none home early f = absurd f
  reserve-FencedSlot digest request now (some state) home early f =
      let purged = purge_expired-IsFenced session_id turn_id until state now home early f in
      ground (arith, purged.fenced, purged.not_current)

  pub finalize-FencedSlot :
      (turn : Text) (mode : PlanMode) (action : PlanAction) (rewritten owner : Option Text)
      (now : ℕ) (slot : Option HomeState)
      → IsSlot slot
      → now < until
      → FencedSlot session_id turn_id until slot
      → FencedSlot session_id turn_id until (finalize turn mode action rewritten owner now slot).1
  unfolding finalize publish_plan
  finalize-FencedSlot turn mode action rewritten owner now none home early f = absurd f
  finalize-FencedSlot turn mode action rewritten owner now (some state) home early f =
      let purged = purge_expired-IsFenced session_id turn_id until state now home early f in
      ground (arith, purged.fenced, purged.not_current)

  pub cancel-FencedSlot :
      (turn : Text) (owner : Option Text) (slot : Option HomeState)
      → 0 < until
      → FencedSlot session_id turn_id until slot
      → FencedSlot session_id turn_id until (cancel turn owner slot).1
  unfolding cancel cancel_plan
  cancel-FencedSlot turn owner none positive f = absurd f
  cancel-FencedSlot turn owner (some state) positive f =
      branch-FencedSlot session_id turn_id until (non_empty turn)
        (ok tt, cancel_plan state turn owner) _
        (λ _. elim (Option-cases (get text_dec turn state.plans)) [
          | inl e ↦
              rw (e, cancel_plan)
                (drop_empty_home-FencedSlot session_id turn_id until state positive f)
          | inr (plan, e) ↦
              rw (e, cancel_plan)
                (drop_empty_home-FencedSlot session_id turn_id until
                  (if same_token plan.owner_token owner then cancelled state turn plan else state)
                  positive
                  (elim (same_token plan.owner_token owner)
                    as (λ b.
                      IsFenced session_id turn_id until
                        (if b then cancelled state turn plan else state)) [
                          | true ↦ record { fenced = f.fenced; not_current = f.not_current }
                          | false ↦ f
                        ]))
        ])
        (λ _. f)

  pub purge_stale-FencedSlot :
      (now : ℕ) (slot : Option HomeState)
      → IsSlot slot
      → now < until
      → FencedSlot session_id turn_id until slot
      → FencedSlot session_id turn_id until (purge_stale now slot).1
  unfolding purge_stale
  purge_stale-FencedSlot now none home early f = absurd f
  purge_stale-FencedSlot now (some state) home early f =
      drop_empty_home-FencedSlot session_id turn_id until (purge_expired state now) (omega arith)
        (purge_expired-IsFenced session_id turn_id until state now home early f)

  release_activation-FencedSlot :
      (state : HomeState) (token : Text)
      → IsDict turn_dec state.closed_turns
      → 0 < until
      → get text_dec token state.activations ≢ some session_id
      → IsFenced session_id turn_id until state
      → FencedSlot session_id turn_id until (release_activation state token)
  unfolding release_activation
  release_activation-FencedSlot state token dict positive elsewhere f =
      let left = record state { activations = pop text_dec token state.activations } in
      let fenced : IsFenced session_id turn_id until left = record {
        fenced = f.fenced;
        not_current = f.not_current;
      } in
      elim (Option-cases (get text_dec token state.activations)) [
        | inl e ↦
            rw (e, release_activation)
              (drop_empty_home-FencedSlot session_id turn_id until left positive fenced)
        | inr (other, e) ↦
            rw (e, release_activation)
              (drop_empty_home-FencedSlot session_id turn_id until
                (if is_active_in left other then left else clear_session left other true) positive
                (elim (is_active_in left other)
                  as (λ b.
                    IsFenced session_id turn_id until
                      (if b then left else clear_session left other true)) [
                        | true ↦ fenced
                        | false ↦
                            clear_session-IsFenced session_id turn_id until left other dict
                              (λ same_session. elsewhere (rw e (ap some same_session))) fenced
                      ]))
      ]

  pub deactivate-FencedSlot :
      (token : Text) (now : ℕ) (slot : Option HomeState)
      → IsSlot slot
      → Elsewhere session_id token slot
      → now < until
      → FencedSlot session_id turn_id until slot
      → FencedSlot session_id turn_id until (deactivate token now slot).1
  unfolding deactivate purge_expired
  deactivate-FencedSlot token now none home elsewhere early f = absurd f
  deactivate-FencedSlot token now (some state) home elsewhere early f =
      branch-FencedSlot session_id turn_id until (non_empty token) _ _
        (λ _.
          release_activation-FencedSlot (purge_expired state now) token
            (purge_expired-IsHome state now home).closed_turns (omega arith) elsewhere
            (purge_expired-IsFenced session_id turn_id until state now home early f))
        (λ _. f)

  pub clear_session_plans-FencedSlot :
      (other : Text) (slot : Option HomeState)
      → IsSlot slot
      → other ≢ session_id
      → 0 < until
      → FencedSlot session_id turn_id until slot
      → FencedSlot session_id turn_id until (clear_session_plans other slot).1
  unfolding clear_session_plans
  clear_session_plans-FencedSlot other none home differs positive f = absurd f
  clear_session_plans-FencedSlot other (some state) home differs positive f =
      branch-FencedSlot session_id turn_id until (non_empty other)
        (ok tt, drop_empty_home (clear_session state other true)) _
        (λ _.
          drop_empty_home-FencedSlot session_id turn_id until (clear_session state other true)
            positive
            (clear_session-IsFenced session_id turn_id until state other home.closed_turns differs
              f))
        (λ _. f)
