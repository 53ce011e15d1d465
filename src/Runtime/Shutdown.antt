-- ===== src/Runtime/Shutdown.antt =====
-- What `ProcessRuntime.finalize` of better_hermes_hindsight/runtime.py has done when it returns or
-- raises.
use better_hermes_hindsight.Common.{◌≡◌, refl, Bool, true, false, arith, if◌then◌else◌, ◌⊎◌}
use better_hermes_hindsight.Runtime.Runner.{settled}
use better_hermes_hindsight.Runtime.Operations.{ProcessRuntime}
use better_hermes_hindsight.Runtime.Finalize.{
  Outcome, RuntimeError, FinalizeView, finalize_runtime, settle_down, close_all, over_sender,
  stop_sender,
}
use better_hermes_hindsight.Runtime.Closing.{
  IsStopped, LoopEnded, IsReleased, Closes, close_all-Closes,
}

-- What each outcome says.
abbrev pub Finalized : Outcome → ProcessRuntime → ProcessRuntime → Type 0
Finalized (Outcome.returned true) r r' =
    IsStopped r' × LoopEnded r' × IsReleased r.has_outbox r' × (r'.client_closed ≡ true)
Finalized (Outcome.returned false) r r' = (r.closed ≡ true) × (r' ≡ r)
Finalized (Outcome.raised RuntimeError.reentrancy) r r' = r' ≡ r
Finalized (Outcome.raised RuntimeError.sender_stop) r r' =
    (r'.closed ≡ false) × (r'.finalizing ≡ true)
Finalized (Outcome.raised _) r r' = IsStopped r' × (LoopEnded r' ⊎ (settled r'.runner ≡ false))

Finalized-of_Closes :
    (outcome : Outcome) (r r' : ProcessRuntime)
    → Closes r.has_outbox outcome r'
    → Finalized outcome r r'
Finalized-of_Closes (Outcome.returned true) r r' h = h
Finalized-of_Closes (Outcome.returned false) r r' h = elim h [ ]
Finalized-of_Closes (Outcome.raised RuntimeError.reentrancy) r r' h = elim h [ ]
Finalized-of_Closes (Outcome.raised RuntimeError.sender_stop) r r' h = h
Finalized-of_Closes (Outcome.raised RuntimeError.finalized) r r' h = h
Finalized-of_Closes (Outcome.raised RuntimeError.handle_closed) r r' h = h
Finalized-of_Closes (Outcome.raised RuntimeError.configuration_conflict) r r' h = h
Finalized-of_Closes (Outcome.raised RuntimeError.other_error) r r' h = h

branch-Finalized :
    (r : ProcessRuntime) (b : Bool) (x y : Outcome × ProcessRuntime)
    → (b ≡ true → Finalized x.0 r x.1)
    → (b ≡ false → Finalized y.0 r y.1)
    → Finalized (if b then x else y).0 r (if b then x else y).1
branch-Finalized r true x y h k = h refl
branch-Finalized r false x y h k = k refl

-- Whatever a finalization meets, its outcome tells what it has done. It returns true where no call is
-- active, the sender's thread has ended, the outbox that the runtime had, if any, is closed and let
-- go, the client is closed and the loop has ended. On another error no call is active, the sender's
-- thread has ended, the runtime is closed, and the loop has ended or a call is still unsettled. On
-- `SenderStopError` the runtime is finalizing and not closed; on reentrancy, and on a runtime closed
-- before, nothing changes.
pub finalize_runtime-Finalized :
    (view : FinalizeView) (r : ProcessRuntime)
    → Finalized (finalize_runtime view r).0 r (finalize_runtime view r).1
unfolding finalize_runtime settle_down
finalize_runtime-Finalized view r =
    let quiet = settle_down view (over_sender stop_sender (record r { finalizing = true })) in
    branch-Finalized r view.in_owning_loop (Outcome.raised RuntimeError.reentrancy, r) _ (λ h. refl)
      (λ outside.
        branch-Finalized r r.closed (Outcome.returned false, r) _ (λ done. (done, refl))
          (λ to_close.
            branch-Finalized r _ (Outcome.raised RuntimeError.sender_stop, quiet) _
              (λ busy. (to_close, refl))
              (λ still. Finalized-of_Closes (close_all view quiet).0 r (close_all view quiet).1 (
                close_all-Closes view quiet
                  (record {
                    open_still = to_close;
                    finalizing = refl;
                    no_calls = ground arith;
                    sender_ended = ground arith;
                  })
                  (ground arith)))))
