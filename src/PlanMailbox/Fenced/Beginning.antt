-- ===== src/PlanMailbox/Fenced/Beginning.antt =====
-- `begin_turn` of better_hermes_hindsight/plan_mailbox.py keeps a fenced turn fenced.
use better_hermes_hindsight.Common.{
  ℕ, ◌<◌, ◌≡◌, ◌≢◌, false, ◌&&◌, Option, none, some, Text, text_dec, arith, non_empty,
}
use better_hermes_hindsight.Common.Dict.{pop, contains, get-pop, get-put, IsDict}
use better_hermes_hindsight.PlanMailbox.State.{
  turn_dec, HomeState, purge_expired, clear_session, is_active_in, ok,
}
use better_hermes_hindsight.PlanMailbox.Turns.{
  begin_turn, open_turn, start_turn, adopt_parent, drop_stale_redirects,
}
use better_hermes_hindsight.PlanMailbox.Invariant.{IsHome, IsSlot, purge_expired-IsHome}
use better_hermes_hindsight.PlanMailbox.Fenced.{
  IsFenced, FencedSlot, purge_expired-IsFenced, clear_session-IsFenced, branch-FencedSlot,
}

module _ (session_id turn_id : Text) (until : ℕ) where
  start_turn-IsFenced :
      (state : HomeState) (session turn token : Text)
      → (session ≡ session_id → turn ≢ turn_id)
      → IsFenced session_id turn_id until state
      → IsFenced session_id turn_id until (start_turn state session turn token)
  unfolding start_turn clear_session
  start_turn-IsFenced state session turn token differs f = record {
    fenced = f.fenced;
    not_current = elim (text_dec session session_id) [
      | yes e ↦ ground (
        arith,
        differs e,
        get-put text_dec session session_id (turn, token)
            (pop text_dec session state.current_turns),
      )
      | no other ↦ ground (
        arith,
        get-put text_dec session session_id (turn, token)
            (pop text_dec session state.current_turns),
        get-pop text_dec session session_id state.current_turns,
      )
    ];
  }

  closed_differs :
      (state : HomeState) (session turn : Text)
      → 0 < until
      → IsFenced session_id turn_id until state
      → contains turn_dec (session, turn) state.closed_turns ≡ false
      → session ≡ session_id
      → turn ≢ turn_id
  closed_differs state session turn positive f absent e e' =
      let there : contains turn_dec (session_id, turn_id) state.closed_turns ≡ false =
        rw (← e, ← e') absent in
      ground (arith, f.fenced)

  adopt_parent-IsFenced :
      (state : HomeState) (session turn parent : Text)
      → IsDict turn_dec state.closed_turns
      → parent ≢ session_id
      → IsFenced session_id turn_id until state
      → IsFenced session_id turn_id until (adopt_parent state session turn parent)
  unfolding adopt_parent
  adopt_parent-IsFenced state session turn parent dict differs f =
      clear_session-IsFenced session_id turn_id until _ parent dict differs
        (record { fenced = f.fenced; not_current = f.not_current })

  open_turn-FencedSlot :
      (state : HomeState) (session turn parent token : Text)
      → IsHome state
      → parent ≢ session_id
      → 0 < until
      → IsFenced session_id turn_id until state
      → FencedSlot session_id turn_id until (open_turn state session turn parent token).1
  unfolding open_turn
  open_turn-FencedSlot state session turn parent token home differs positive f =
      let kept = drop_stale_redirects state session turn in
      let fenced : IsFenced session_id turn_id until kept = record {
        fenced = f.fenced;
        not_current = f.not_current;
      } in
      let started =
        λ (absent : contains turn_dec (session, turn) state.closed_turns ≡ false) (next : HomeState)
            (g : IsFenced session_id turn_id until next).
          start_turn-IsFenced next session turn token
            (closed_differs state session turn positive f absent) g in
      branch-FencedSlot session_id turn_id until
        (contains turn_dec (session, turn) state.closed_turns) (ok none, some state) _ (λ _. f)
        (λ absent.
          branch-FencedSlot session_id turn_id until (non_empty parent && is_active_in kept parent)
            (
              ok (some token),
              some (start_turn (adopt_parent kept session turn parent) session turn token),
            )
            _
            (λ _.
              started absent (adopt_parent kept session turn parent)
                (adopt_parent-IsFenced kept session turn parent home.closed_turns differs fenced))
            (λ _.
              branch-FencedSlot session_id turn_id until (is_active_in kept session)
                (ok (some token), some (start_turn kept session turn token)) (ok none, some kept)
                (λ _. started absent kept fenced) (λ _. fenced)))

  pub begin_turn-FencedSlot :
      (session turn parent token : Text) (now : ℕ) (slot : Option HomeState)
      → IsSlot slot
      → parent ≢ session_id
      → now < until
      → FencedSlot session_id turn_id until slot
      → FencedSlot session_id turn_id until (begin_turn session turn parent token now slot).1
  unfolding begin_turn
  begin_turn-FencedSlot session turn parent token now none home differs early f = absurd f
  begin_turn-FencedSlot session turn parent token now (some state) home differs early f =
      branch-FencedSlot session_id turn_id until (non_empty session && non_empty turn) _ _
        (λ _.
          open_turn-FencedSlot (purge_expired state now) session turn parent token
            (purge_expired-IsHome state now home) differs (omega arith)
            (purge_expired-IsFenced session_id turn_id until state now home early f))
        (λ _. f)
