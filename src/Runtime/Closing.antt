-- ===== src/Runtime/Closing.antt =====
-- `ProcessRuntime.finalize` of better_hermes_hindsight/runtime.py, from the closing of the outbox on.
use better_hermes_hindsight.Common.{
  ℕ, ◌≡◌, refl, Bool, true, false, not, ◌&&◌, Option, none, some, ◌==◌, ◌||◌, arith, if◌then◌else◌,
  List, [], ◌∷◌, keep, Bool-cases, inl, inr, ◌⊎◌,
}
use better_hermes_hindsight.Outbox.Lifecycle.{close}
use better_hermes_hindsight.Sender.{OutboxSender, join_thread}
use better_hermes_hindsight.Runtime.Runner.{
  AsyncRunner, RunnerError, Answer, Result, run_call, await_call, complete, shutdown, settled,
  no_tokens,
}
use better_hermes_hindsight.Runtime.Operations.{ProcessRuntime}
use better_hermes_hindsight.Runtime.Finalize.{
  Outcome, RuntimeError, FinalizeView, close_all, close_client, after_close, close_runner,
  after_shutdown, sender_joined, over_some, close_outbox,
}

-- The runtime takes nothing any more: no call is active, and the sender's thread has ended.
pub record IsStopped (r : ProcessRuntime) : Type 0 where
  pub closed : r.closed ≡ true
  pub no_calls : r.active_calls ≡ 0
  pub sender_ended : sender_joined r.sender ≡ true

abbrev pub LoopEnded : ProcessRuntime → Type 0
LoopEnded r = (r.runner.shut ≡ true) × (r.runner.loop_alive ≡ false)

abbrev pub outbox_closed : Option OutboxSender → Bool
outbox_closed none = true
outbox_closed (some s) = s.outbox.closed

-- The outbox, if the runtime had one, is closed and let go.
pub record IsReleased (had_outbox : Bool) (r : ProcessRuntime) : Type 0 where
  pub let_go : r.has_outbox ≡ false
  pub outbox_shut : (not had_outbox || outbox_closed r.sender) ≡ true

-- A runtime that has come to rest and is to be closed.
pub record IsQuiet (r : ProcessRuntime) : Type 0 where
  pub open_still : r.closed ≡ false
  pub finalizing : r.finalizing ≡ true
  pub no_calls : r.active_calls ≡ 0
  pub sender_ended : sender_joined r.sender ≡ true

-- What the closing of a quiet runtime says, from any earlier state `r`.
abbrev pub Closes : Bool → Outcome → ProcessRuntime → Type 0
Closes had (Outcome.returned true) r' =
    IsStopped r' × LoopEnded r' × IsReleased had r' × (r'.client_closed ≡ true)
Closes had (Outcome.returned false) r' = ⊥
Closes had (Outcome.raised RuntimeError.reentrancy) r' = ⊥
Closes had (Outcome.raised RuntimeError.sender_stop) r' =
    (r'.closed ≡ false) × (r'.finalizing ≡ true)
Closes had (Outcome.raised _) r' = IsStopped r' × (LoopEnded r' ⊎ (settled r'.runner ≡ false))

-- How the shutdown of a runner ends.
shutdown_cases :
    (ends : Bool) (r : AsyncRunner)
    → ((b : Bool) × (runner : AsyncRunner) × (shutdown false ends r ≡ (Result.returned b, runner))
        × (runner.shut ≡ true)
        × (runner.loop_alive ≡ false))
      ⊎ ((runner : AsyncRunner) × (shutdown false ends r
            ≡ (Result.failed RunnerError.sender_stop, runner)))
      ⊎ ((shutdown false ends r ≡ (Result.failed RunnerError.unsettled, r)) × (settled r ≡ false))
unfolding shutdown
shutdown_cases ends r = elim (Bool-cases (r.shut && not r.loop_alive)) [
  | inl done ↦ inl (false, r, rw done refl, ground (arith, done), ground (arith, done))
  | inr runs ↦ elim (Bool-cases (settled r)) [
    | inr unsettled ↦ inr (inr (rw (runs, unsettled) refl, unsettled))
    | inl quiet ↦ elim (Bool-cases ends) [
      | inl in_time ↦ inl (
        true,
        record r { shut = true; loop_alive = false },
        rw (runs, quiet, in_time) refl,
        refl,
        refl,
      )
      | inr late ↦ inr (inl (record r { shut = true }, rw (runs, quiet, late) refl))
    ]
  ]
]

-- The steps before have done their part, or one of them has raised.
abbrev Clean : Bool → Bool → ProcessRuntime → Type 0
Clean had failure r = (failure ≡ true) ⊎ IsReleased had r × (settled r.runner ≡ true)

close_runner-Closes :
    (view : FinalizeView) (had failure : Bool) (r : ProcessRuntime)
    → IsQuiet r
    → (failure ≡ true) ⊎ IsReleased had r × (r.client_closed ≡ true) × (settled r.runner ≡ true)
    → Closes had (close_runner view failure r).0 (close_runner view failure r).1
unfolding close_runner after_shutdown
close_runner-Closes view had failure r quiet clean = elim (shutdown_cases view.loop_ends r.runner) [
  | inr (inl (runner, late)) ↦ rw late (quiet.open_still, quiet.finalizing)
  | inr (inr (refused, unsettled)) ↦ rw refused (
    record { closed = refl; no_calls = quiet.no_calls; sender_ended = quiet.sender_ended },
    inr unsettled,
  )
  | inl (b, runner, returned, shut, dead) ↦
      let is_shut : IsStopped (record r { runner = runner; closed = true }) = record {
        closed = refl;
        no_calls = quiet.no_calls;
        sender_ended = quiet.sender_ended;
      } in
      elim (Bool-cases failure) [
        | inl failed ↦ rw (returned, failed) (is_shut, inl (shut, dead))
        | inr fine ↦
            rw (returned, fine)
              (elim clean [
                | inl failed ↦ absurd cc
                | inr (released, client_closed, still) ↦ (
                  is_shut,
                  (shut, dead),
                  record { let_go = released.let_go; outbox_shut = released.outbox_shut },
                  client_closed,
                )
              ])
      ]
]

keep_none :
    (p : ℕ → Bool) (tokens : List ℕ) → no_tokens tokens ≡ true → no_tokens (keep p tokens) ≡ true
unfolding keep
keep_none p [] h = refl
keep_none p (t ∷ tokens) h = cc

complete-settled :
    (token : ℕ) (r : AsyncRunner) → settled r ≡ true → settled (complete token r) ≡ true
unfolding complete
complete-settled token r h = keep_none (λ t. not (t == token)) r.unsettled_tokens h

-- The runner may have changed, and the client may be closed.
IsQuiet-after :
    (r : ProcessRuntime) (runner : AsyncRunner) (client_closed : Bool)
    → IsQuiet r
    → IsQuiet (record r { runner = runner; client_closed = client_closed })
IsQuiet-after r runner client_closed quiet = record {
  open_still = quiet.open_still;
  finalizing = quiet.finalizing;
  no_calls = quiet.no_calls;
  sender_ended = quiet.sender_ended;
}

answer-Closes :
    (view : FinalizeView) (had failure : Bool) (answer : Answer (Unit {0})) (r : ProcessRuntime)
    → IsQuiet r
    → Clean had failure r
    → let (result, runner) = await_call view.token answer r.runner in
      let (outcome, r') = after_close view failure result (record r { runner = runner }) in
      Closes had outcome r'
unfolding await_call after_close
answer-Closes view had failure (Answer.returns _) r quiet clean =
    close_runner-Closes view had failure _ (IsQuiet-after r _ true quiet) (elim clean [
      | inl failed ↦ inl failed
      | inr (released, still) ↦ inr (
        record { let_go = released.let_go; outbox_shut = released.outbox_shut },
        refl,
        complete-settled view.token r.runner still,
      )
    ])
answer-Closes view had failure Answer.raises r quiet clean =
    close_runner-Closes view had true _ (IsQuiet-after r _ r.client_closed quiet) (inl refl)
answer-Closes view had failure (Answer.exceeds true) r quiet clean =
    (quiet.open_still, quiet.finalizing)
answer-Closes view had failure (Answer.exceeds false) r quiet clean =
    (quiet.open_still, quiet.finalizing)
answer-Closes view had failure (Answer.interrupts true) r quiet clean =
    close_runner-Closes view had true _ (IsQuiet-after r _ r.client_closed quiet) (inl refl)
answer-Closes view had failure (Answer.interrupts false) r quiet clean =
    close_runner-Closes view had true _ (IsQuiet-after r _ r.client_closed quiet) (inl refl)

-- A test, with what each branch knows.
branch-Closes :
    (had b : Bool) (x y : Outcome × ProcessRuntime)
    → (b ≡ true → Closes had x.0 x.1)
    → (b ≡ false → Closes had y.0 y.1)
    → Closes had (if b then x else y).0 (if b then x else y).1
branch-Closes had true x y h k = h refl
branch-Closes had false x y h k = k refl

called-Closes :
    (view : FinalizeView) (had failure : Bool) (r : ProcessRuntime)
    → IsQuiet r
    → settled r.runner ≡ true
    → Clean had failure r
    → let (result, runner) = run_call false none view.token view.client_close r.runner in
      let (outcome, r') = after_close view failure result (record r { runner = runner }) in
      Closes had outcome r'
unfolding run_call after_close
called-Closes view had failure r quiet still clean =
    elim (Bool-cases (r.runner.shut || not r.runner.loop_alive)) [
      | inl shut ↦ rw shut (close_runner-Closes view had true r quiet (inl refl))
      | inr runs ↦ rw (runs, still) (answer-Closes view had failure view.client_close r quiet clean)
    ]

close_client-Closes :
    (view : FinalizeView) (had failure : Bool) (r : ProcessRuntime)
    → IsQuiet r
    → settled r.runner ≡ true
    → Clean had failure r
    → Closes had (close_client view failure r).0 (close_client view failure r).1
unfolding close_client
close_client-Closes view had failure r quiet still clean =
    branch-Closes had r.client_closed _ _
      (λ done. close_runner-Closes view had failure r quiet (elim clean [
        | inl failed ↦ inl failed
        | inr (released, settles) ↦ inr (released, done, settles)
      ]))
      (λ to_do.
        branch-Closes had (not view.time_left) (Outcome.raised RuntimeError.sender_stop, r) _
          (λ late. (quiet.open_still, quiet.finalizing))
          (λ in_time. called-Closes view had failure r quiet still clean))

-- To close the outbox does not revive the thread, and leaves the outbox closed.
joined_over :
    (sender : Option OutboxSender)
    → sender_joined sender ≡ true
    → sender_joined (over_some close_outbox sender) ≡ true
unfolding join_thread
joined_over none h = h
joined_over (some s) h = h

closed_over : (sender : Option OutboxSender) → outbox_closed (over_some close_outbox sender) ≡ true
unfolding close
closed_over none = refl
closed_over (some s) = ground arith

pub close_all-Closes :
    (view : FinalizeView) (r : ProcessRuntime)
    → IsQuiet r
    → settled r.runner ≡ true
    → Closes r.has_outbox (close_all view r).0 (close_all view r).1
unfolding close_all
close_all-Closes view r quiet still =
    branch-Closes r.has_outbox (not r.has_outbox) _ _
      (λ none_left.
        close_client-Closes view r.has_outbox false r quiet still
          (inr (record { let_go = ground arith; outbox_shut = ground arith }, still)))
      (λ has.
        branch-Closes r.has_outbox view.outbox_raises _ _
          (λ raises. close_client-Closes view r.has_outbox true r quiet still (inl refl))
          (λ closes.
            close_client-Closes view r.has_outbox false _
              (record {
                open_still = quiet.open_still;
                finalizing = quiet.finalizing;
                no_calls = quiet.no_calls;
                sender_ended = joined_over r.sender quiet.sender_ended;
              })
              still
              (inr (
                record { let_go = refl; outbox_shut = ground (arith, closed_over r.sender) },
                still,
              ))))
