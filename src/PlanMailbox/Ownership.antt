-- ===== src/PlanMailbox/Ownership.antt =====
-- What a session owns in better_hermes_hindsight/plan_mailbox.py: plans, a current turn and closed turns
-- belong to sessions with an active provider handle.
pub mod Handles
pub mod Plans
pub mod Consume
use better_hermes_hindsight.Common.{
  ℕ, ◌+◌, ◌≡◌, refl, ◌≢◌, Bool, true, false, ◌&&◌, ◌||◌, not, List, [], ◌∷◌, Option, none, some,
  if◌then◌else◌, leb, Text, same, text_dec, keep, any, All, All-map, All-keep, All-keep_passed,
  arith, map,
}
use better_hermes_hindsight.Common.Dict.{Dict, get, put, pop, IsDict, All-put, All-pop_other}
use better_hermes_hindsight.PlanMailbox.State.{
  StoredPlan, HomeState, empty_home, purge_expired, clear_session, drop_empty_home, is_active_in,
}

-- The sessions with plans, a current turn or closed turns all satisfy the predicate.
pub record IsOwnedBy (P : Text → Type 0) (state : HomeState) : Type 0 where
  pub plans : All (λ e. P e.1.session_id) state.plans
  pub current_turns : All (λ e. P e.0) state.current_turns
  pub closed_turns : All (λ e. P e.0.0) state.closed_turns

abbrev pub Active : HomeState → Text → Type 0
Active state session_id = is_active_in state session_id ≡ true

abbrev pub IsOwned : HomeState → Type 0
IsOwned state = IsOwnedBy (Active state) state

abbrev pub IsOwnedSlot : Option HomeState → Type 0
IsOwnedSlot none = Unit
IsOwnedSlot (some state) = IsOwned state

pub IsOwnedBy-map :
    (P Q : Text → Type 0) (state : HomeState)
    → ((s : Text) → P s → Q s)
    → IsOwnedBy P state
    → IsOwnedBy Q state
IsOwnedBy-map P Q state f h = record {
  plans =
      All-map (λ e. P e.1.session_id) (λ e. Q e.1.session_id) state.plans (λ e. f e.1.session_id)
        h.plans;
  current_turns =
      All-map (λ e. P e.0) (λ e. Q e.0) state.current_turns (λ e. f e.0) h.current_turns;
  closed_turns =
      All-map (λ e. P e.0.0) (λ e. Q e.0.0) state.closed_turns (λ e. f e.0.0) h.closed_turns;
}

-- Clearing a session leaves what belongs to the others.
pub clear_session-IsOwnedBy :
    (P Q : Text → Type 0) (state : HomeState) (session_id : Text)
    → ((s : Text) → s ≢ session_id → P s → Q s)
    → IsOwnedBy P state
    → IsOwnedBy Q (clear_session state session_id true)
unfolding clear_session
clear_session-IsOwnedBy P Q state session_id f h = record {
  plans =
      All-keep_passed (λ e. P e.1.session_id) (λ e. Q e.1.session_id)
        (λ e. not (same e.1.session_id session_id)) state.plans
        (λ e passed. f e.1.session_id (ground arith)) h.plans;
  current_turns =
      All-pop_other text_dec (λ e. P e.0) (λ e. Q e.0) session_id state.current_turns (λ e. f e.0)
        h.current_turns;
  closed_turns =
      All-keep_passed (λ e. P e.0.0) (λ e. Q e.0.0) (λ e. not (same e.0.0 session_id))
        state.closed_turns (λ e passed. f e.0.0 (ground arith)) h.closed_turns;
}

pub restart_session-IsOwnedBy :
    (P : Text → Type 0) (state : HomeState) (session_id : Text)
    → IsOwnedBy P state
    → IsOwnedBy P (clear_session state session_id false)
unfolding clear_session
restart_session-IsOwnedBy P state session_id h = record {
  plans =
      All-keep (λ e. P e.1.session_id) (λ e. not (same e.1.session_id session_id)) state.plans
        h.plans;
  current_turns =
      All-pop_other text_dec (λ e. P e.0) (λ e. P e.0) session_id state.current_turns (λ e _ p. p)
        h.current_turns;
  closed_turns = h.closed_turns;
}

pub purge_expired-IsOwned :
    (state : HomeState) (now : ℕ) → IsOwned state → IsOwned (purge_expired state now)
unfolding purge_expired is_active_in
purge_expired-IsOwned state now h = record {
  plans =
      All-keep (λ e. Active state e.1.session_id) (λ e. not (leb e.1.expires_at now)) state.plans
        h.plans;
  current_turns = h.current_turns;
  closed_turns =
      All-keep (λ e. Active state e.0.0) (λ e. not (leb e.1 now)) state.closed_turns h.closed_turns;
}

pub clear_session-IsOwned :
    (state : HomeState) (session_id : Text)
    → IsOwned state
    → IsOwned (clear_session state session_id true)
unfolding clear_session is_active_in
clear_session-IsOwned state session_id h =
    clear_session-IsOwnedBy (Active state) (Active state) state session_id (λ s _ a. a) h

pub drop_empty_home-IsOwnedSlot :
    (state : HomeState) → IsOwned state → IsOwnedSlot (drop_empty_home state)
unfolding drop_empty_home
drop_empty_home-IsOwnedSlot state h = ground arith

-- A session keeps its handles when a handle of another session moves or is released.
module _ (token session_id : Text) where
  pub any-put :
      (new : Text) (d : Dict Text Text)
      → (get text_dec token d ≢ some session_id)
      → any (λ e. same e.1 session_id) d ≡ true
      → any (λ e. same e.1 session_id) (put text_dec token new d) ≡ true
  unfolding any put get
  any-put new [] h a = ground arith
  any-put new ((i, w) ∷ d) h a = ground (arith, any-put new d)

  get-any :
      (d : Dict Text Text)
      → get text_dec token d ≡ some session_id
      → any (λ e. same e.1 session_id) d ≡ true
  unfolding any get
  get-any [] h = cc
  get-any ((i, w) ∷ d) h = ground (arith, get-any d)

  any-pop_absent :
      (d : Dict Text Text)
      → get text_dec token d ≡ none
      → any (λ e. same e.1 session_id) (pop text_dec token d) ≡ any (λ e. same e.1 session_id) d
  unfolding any pop get
  any-pop_absent [] h = refl
  any-pop_absent ((i, w) ∷ d) h = ground (arith, any-pop_absent d)

  pub any-pop :
      (d : Dict Text Text)
      → IsDict text_dec d
      → get text_dec token d ≢ some session_id
      → any (λ e. same e.1 session_id) d ≡ true
      → any (λ e. same e.1 session_id) (pop text_dec token d) ≡ true
  unfolding any pop get
  any-pop [] i h a = a
  any-pop ((j, w) ∷ d) i h a = ground (arith, any-pop d, any-pop_absent d)

-- The handles of a parent move to its child, and those of other sessions stay.
module _ (parent child : Text) where
  abbrev pub adopted : Dict Text Text → Dict Text Text
  adopted d = map (λ e. (e.0, if same e.1 parent then child else e.1)) d

  pub any-adopted :
      (session_id : Text) (d : Dict Text Text)
      → session_id ≢ parent
      → any (λ e. same e.1 session_id) d ≡ true
      → any (λ e. same e.1 session_id) (adopted d) ≡ true
  unfolding any
  any-adopted session_id [] h a = a
  any-adopted session_id ((j, w) ∷ d) h a = ground (arith, any-adopted session_id d)

  pub any-adopted_child :
      (d : Dict Text Text)
      → any (λ e. same e.1 parent) d ≡ true
      → any (λ e. same e.1 child) (adopted d) ≡ true
  unfolding any
  any-adopted_child [] a = cc
  any-adopted_child ((j, w) ∷ d) a = ground (arith, any-adopted_child d)
