-- ===== src/PlanMailbox/Handoff.antt =====
-- What `consume` of better_hermes_hindsight/plan_mailbox.py hands over.
use better_hermes_hindsight.Common.{
  ℕ, ◌<◌, ◌≡◌, refl, sym, subst, ap, true, false, ◌&&◌, not, List, [], ◌∷◌, Option, none, some,
  Bool-cases, Option-cases, inl, inr, if◌then◌else◌, Text, same, text_dec, keep, any, In, In-keep,
  arith, non_empty, length, leb, ltb,
}
use better_hermes_hindsight.Common.Dict.{Dict, get, pop, get-pop, get-keep, get_of_In}
use better_hermes_hindsight.PlanMailbox.State.{
  RecallPlan, StoredPlan, HomeState, is_active_in, purge_expired, resolve_active_session, ok,
}
use better_hermes_hindsight.PlanMailbox.Consume.{
  consume, consume_in, consume_resolved, candidates, take_newest, newest, newest_from, pop_all,
  Candidate, published, fits, one_candidate,
}
use better_hermes_hindsight.PlanMailbox.Invariant.{IsHome, purge_expired-IsHome}
use better_hermes_hindsight.PlanMailbox.Invariant.Consume.{resolve_active_session-IsHome}
use better_hermes_hindsight.PlanMailbox.Ownership.{Active}
use better_hermes_hindsight.PlanMailbox.Ownership.Consume.{resolved-Active}

newest_from-In :
    (best : Candidate) (rest : List Candidate) → In (newest_from best rest) (best ∷ rest)
unfolding newest_from
newest_from-In best [] = inl refl
newest_from-In best (next ∷ rest) =
    elim (ltb best.1.sequence next.1.sequence)
      as (λ b. In (newest_from (if b then next else best) rest) (best ∷ next ∷ rest)) [
        | true ↦ inr (newest_from-In next rest)
        | false ↦ elim (newest_from-In best rest) [ inl e ↦ inl e | inr m ↦ inr (inr m) ]
      ]

newest-In : (found : List Candidate) (best : Candidate) → newest found ≡ some best → In best found
unfolding newest
newest-In [] best e = cc
newest-In (first ∷ rest) best e =
    subst (λ c. In c (first ∷ rest)) (ground arith) (newest_from-In first rest)

pub pop_all_absent :
    (turn_id : Text) (found : List Candidate) (plans : Dict Text StoredPlan)
    → get text_dec turn_id plans ≡ none
    → get text_dec turn_id (pop_all found plans) ≡ none
unfolding pop_all
pop_all_absent turn_id [] plans h = h
pop_all_absent turn_id (c ∷ rest) plans h =
    pop_all_absent turn_id rest (pop text_dec c.0 plans)
      (rw (get-pop text_dec c.0 turn_id plans) (ground (arith, h)))

pop_all_gone :
    (c : Candidate) (found : List Candidate) (plans : Dict Text StoredPlan)
    → In c found
    → get text_dec c.0 (pop_all found plans) ≡ none
unfolding pop_all
pop_all_gone c [] plans m = absurd m
pop_all_gone c (d ∷ rest) plans (inl here) =
    pop_all_absent c.0 rest (pop text_dec d.0 plans)
      (rw (get-pop text_dec d.0 c.0 plans) (ground arith))
pop_all_gone c (d ∷ rest) plans (inr later) = pop_all_gone c rest (pop text_dec d.0 plans) later

abbrev pub plans_of : Option HomeState → Dict Text StoredPlan
plans_of none = []
plans_of (some state) = state.plans

-- The plan comes from one of the matches, which are all gone.
take_newest_lem :
    (state : HomeState) (found : List Candidate) (plan : RecallPlan) (evaluation : Option Text)
    → (take_newest state found).0 ≡ ok (some plan, evaluation)
    → (c : Candidate) × In c found
      × (published c ≡ some plan)
      × (evaluation ≡ c.1.evaluation_id)
      × (get text_dec c.0 (plans_of (take_newest state found).1) ≡ none)
unfolding take_newest
take_newest_lem state found plan evaluation e = elim (Option-cases (newest found)) [
  | inl n ↦ let e' = rw (n, take_newest) at e in cc
  | inr (best, n) ↦
      let e' = rw (n, take_newest) at e in
      rw (n, plans_of)
        (
          best,
          newest-In found best n,
          ground arith,
          ground arith,
          pop_all_gone best found state.plans (newest-In found best n),
        )
]

-- A candidate is a stored plan of the session, of the query's length.
candidates_lem :
    (state : HomeState) (session_id : Text) (query_length : ℕ) (redirected : Option Text) (now : ℕ)
    (c : Candidate)
    → IsHome state
    → In c (candidates state session_id query_length redirected now).1
    → (get text_dec c.0 state.plans ≡ some c.1) × (fits session_id query_length redirected c ≡ true)
unfolding candidates
candidates_lem state session_id query_length redirected now c h m =
    elim (Option-cases (get text_dec session_id state.current_turns)) [
      | inl e ↦
          let m' = rw (e, candidates) at m in
          let kept = In-keep c (fits session_id query_length redirected) state.plans m' in
          (get_of_In text_dec c state.plans h.plans kept.0, kept.1)
      | inr (turn, e) ↦
          let m' = rw (e, candidates) at m in
          let kept =
            In-keep c (fits session_id query_length redirected)
              (one_candidate turn.0 (get text_dec turn.0 state.plans)) m' in
          (
            one_candidate_lem turn.0 (get text_dec turn.0 state.plans) c state.plans refl kept.0,
            kept.1,
          )
    ]
  where
    one_candidate_lem :
        (turn_id : Text) (found : Option StoredPlan) (c : Candidate) (plans : Dict Text StoredPlan)
        → get text_dec turn_id plans ≡ found
        → In c (one_candidate turn_id found)
        → get text_dec c.0 plans ≡ some c.1
    one_candidate_lem turn_id none c plans e m = absurd m
    one_candidate_lem turn_id (some plan) c plans e (inl here) =
        rw (ap (λ d. d.0) here, ap (λ d. d.1) here) e
    one_candidate_lem turn_id (some plan) c plans e (inr more) = absurd more

-- What `consume` promises of a plan that it returns: it is a published plan of the home under its turn,
-- for this query, of an active session, and it is not stored any more.
pub record IsHandedOver (digest : Text → Text) (source_query : Text) (state : HomeState)
    (plan : RecallPlan) (evaluation : Option Text) (slot : Option HomeState) : Type 0 where
  pub stored : StoredPlan
  pub found : get text_dec plan.turn_id state.plans ≡ some stored
  pub was_published : published (plan.turn_id, stored) ≡ some plan
  pub of_query : stored.query_digest ≡ digest source_query
  pub of_length : stored.query_length ≡ length source_query
  pub of_active : Active state stored.session_id
  pub for_evaluation : evaluation ≡ stored.evaluation_id
  pub gone : get text_dec plan.turn_id (plans_of slot) ≡ none

published-turn_id :
    (c : Candidate) (plan : RecallPlan) → published c ≡ some plan → c.0 ≡ plan.turn_id
published-turn_id c plan e = ground arith

consume_resolved_lem :
    (digest : Text → Text) (source_query : Text) (now : ℕ) (state : HomeState) (session_id : Text)
    (redirected : Option Text) (plan : RecallPlan) (evaluation : Option Text)
    → IsHome state
    → Active state session_id
    → (consume_resolved digest source_query now state session_id redirected).0
      ≡ ok (some plan, evaluation)
    → IsHandedOver digest source_query state plan evaluation
        (consume_resolved digest source_query now state session_id redirected).1
unfolding consume_resolved
consume_resolved_lem digest source_query now state session_id redirected plan evaluation h active
      e =
    let step = candidates state session_id (length source_query) redirected now in
    let of_digest = λ (c : Candidate). same c.1.query_digest (digest source_query) in
    let (c, member, is_published, for_evaluation, gone) =
      take_newest_lem step.0 (keep of_digest step.1) plan evaluation e in
    let kept = In-keep c of_digest step.1 member in
    let (found, fitting) =
      candidates_lem state session_id (length source_query) redirected now c h kept.0 in
    let owner : c.1.session_id ≡ session_id = ground arith in
    let here = published-turn_id c plan is_published in
    record {
      stored = c.1;
      found = subst (λ t. get text_dec t state.plans ≡ some c.1) here found;
      was_published = subst (λ t. published (t, c.1) ≡ some plan) here is_published;
      of_query = ground arith;
      of_length = ground arith;
      of_active = subst (λ s. Active state s) (sym owner) active;
      for_evaluation = for_evaluation;
      gone =
          subst
            (λ t. get text_dec t (plans_of (take_newest step.0 (keep of_digest step.1)).1) ≡ none)
            here gone;
    }

-- A later state of the home, which has fewer plans and no more handles.
IsHandedOver-earlier :
    (digest : Text → Text) (source_query : Text) (state later : HomeState) (plan : RecallPlan)
    (evaluation : Option Text) (slot : Option HomeState)
    → ((t : Text) (p : StoredPlan)
        → get text_dec t later.plans ≡ some p
        → get text_dec t state.plans ≡ some p)
    → ((s : Text) → Active later s → Active state s)
    → IsHandedOver digest source_query later plan evaluation slot
    → IsHandedOver digest source_query state plan evaluation slot
IsHandedOver-earlier digest source_query state later plan evaluation slot plans handles h = record {
  stored = h.stored;
  found = plans plan.turn_id h.stored h.found;
  was_published = h.was_published;
  of_query = h.of_query;
  of_length = h.of_length;
  of_active = handles h.stored.session_id h.of_active;
  for_evaluation = h.for_evaluation;
  gone = h.gone;
}

resolved-plans :
    (state : HomeState) (session_id : Text)
    → (resolve_active_session state session_id).0.plans ≡ state.plans
unfolding resolve_active_session
resolved-plans state session_id = ground arith

resolved-handles :
    (state : HomeState) (session_id : Text)
    → (resolve_active_session state session_id).0.activations ≡ state.activations
unfolding resolve_active_session
resolved-handles state session_id = ground arith

consume_in_lem :
    (digest : Text → Text) (source_query session_id : Text) (now : ℕ) (state : HomeState)
    (plan : RecallPlan) (evaluation : Option Text)
    → IsHome state
    → (consume_in digest source_query session_id now state).0 ≡ ok (some plan, evaluation)
    → IsHandedOver digest source_query state plan evaluation
        (consume_in digest source_query session_id now state).1
unfolding consume_in is_active_in
consume_in_lem digest source_query session_id now state plan evaluation h e =
    let step = resolve_active_session state session_id in
    let step-IsHome : IsHome step.0 = resolve_active_session-IsHome state session_id h in
    elim (Option-cases step.1) [
      | inl unresolved ↦ let e' = rw (unresolved, consume_in) at e in cc
      | inr (to, resolved) ↦
          let e' = rw (resolved, consume_in) at e in
          let handed =
            consume_resolved_lem digest source_query now step.0 to.0 to.1 plan evaluation
              step-IsHome (resolved-Active state session_id to resolved) e' in
          rw (resolved, consume_in)
            (IsHandedOver-earlier digest source_query state step.0 plan evaluation
              (consume_resolved digest source_query now step.0 to.0 to.1).1
              (λ t p. subst (λ d. get text_dec t d ≡ some p) (resolved-plans state session_id))
              (λ s. subst (λ d. any (λ e. same e.1 s) d ≡ true) (resolved-handles state session_id))
              handed)
    ]

-- What survives the purge was stored, and has not expired.
pub purge_expired-get :
    (state : HomeState) (now : ℕ) (turn_id : Text) (plan : StoredPlan)
    → IsHome state
    → get text_dec turn_id (purge_expired state now).plans ≡ some plan
    → (get text_dec turn_id state.plans ≡ some plan) × (now < plan.expires_at)
unfolding purge_expired
purge_expired-get state now turn_id plan h e =
    ground
      (arith, e, get-keep text_dec turn_id (λ e. not (leb e.1.expires_at now)) state.plans h.plans)

-- A plan that `consume` returns was stored under its turn, with the action, the mode and the rewritten
-- query that are returned; it was published, had not expired, was reserved for a query of the same digest
-- and length, and belonged to a session with an active handle. Its evaluation is the one that is told of.
-- Afterwards the home stores no plan under that turn, so that no plan is returned twice.
pub consume-IsHandedOver :
    (digest : Text → Text) (source_query session_id : Text) (now : ℕ) (state : HomeState)
    (plan : RecallPlan) (evaluation : Option Text)
    → IsHome state
    → (consume digest source_query session_id now (some state)).0 ≡ ok (some plan, evaluation)
    → (handed : IsHandedOver digest source_query state plan evaluation
        (consume digest source_query session_id now (some state)).1)
      × (now < handed.stored.expires_at)
unfolding consume purge_expired is_active_in
consume-IsHandedOver digest source_query session_id now state plan evaluation h e =
    elim (Bool-cases (non_empty source_query && non_empty session_id)) [
      | inr invalid ↦ let e' = rw invalid at e in cc
      | inl valid ↦
          let e' = rw valid at e in
          let purged = purge_expired state now in
          let handed =
            consume_in_lem digest source_query session_id now purged plan evaluation
              (purge_expired-IsHome state now h) e' in
          let lives = purge_expired-get state now plan.turn_id handed.stored h handed.found in
          rw valid (
            record {
              stored = handed.stored;
              found = lives.0;
              was_published = handed.was_published;
              of_query = handed.of_query;
              of_length = handed.of_length;
              of_active = handed.of_active;
              for_evaluation = handed.for_evaluation;
              gone = handed.gone;
            },
            lives.1,
          )
    ]
