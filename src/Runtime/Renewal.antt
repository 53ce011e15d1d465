-- ===== src/Runtime/Renewal.antt =====
-- What a process can do after `finalize_process_runtime` of better_hermes_hindsight/runtime.py.
use better_hermes_hindsight.Common.{
  ℕ, ◌≡◌, refl, Bool, true, false, Option, some, arith, sym, subst,
}
use better_hermes_hindsight.Runtime.Operations.{ProcessRuntime}
use better_hermes_hindsight.Runtime.Finalize.{Outcome, RuntimeError, FinalizeView, finalize_runtime}
use better_hermes_hindsight.Runtime.Shutdown.{Finalized, finalize_runtime-Finalized}
use better_hermes_hindsight.Runtime.Process.{
  Process, Acquired, acquire, handle_of, finalize_process_runtime, begin_finalizing, end_finalizing,
}

module _ {Config : Type 0} (same_config : Config → Config → Bool) where
  -- After each outcome: a process whose runtime could not stop gives no handle; one that was refused for
  -- reentrancy is as it was; in any other case a further finalization is inert, and the next
  -- acquisition makes a new runtime.
  abbrev pub Renews :
      Outcome → FinalizeView → Config → ProcessRuntime → Process Config → Process Config → Type 0
  Renews (Outcome.raised RuntimeError.sender_stop) again config fresh p p' =
      (constructed : Option ProcessRuntime)
      → acquire same_config config constructed p'
        ≡ (Acquired.acquire_raised RuntimeError.finalized, p')
  Renews (Outcome.raised RuntimeError.reentrancy) again config fresh p p' = p' ≡ p
  Renews _ again config fresh p p' =
      (finalize_process_runtime again p' ≡ (Outcome.returned false, p'))
      × ((acquire same_config config (some fresh) p').0 ≡ handle_of same_config p.runtimes_made)

  renew :
      (outcome : Outcome) (again : FinalizeView) (config : Config) (fresh : ProcessRuntime)
      (p : Process Config) (n : ℕ) (r r' : ProcessRuntime)
      → p.active_finalizing ≡ false
      → p.active_runtime ≡ some (n, r)
      → Finalized outcome r r'
      → Renews outcome again config fresh p
          (end_finalizing outcome n r' (record p { active_finalizing = true }))
  unfolding end_finalizing finalize_process_runtime begin_finalizing acquire
  renew (Outcome.raised RuntimeError.sender_stop) again config fresh p n r r' idle active h =
      λ constructed. ground (arith, h.1)
  renew (Outcome.raised RuntimeError.reentrancy) again config fresh p n r r' idle active h =
      ground (arith, h)
  renew (Outcome.raised RuntimeError.finalized) again config fresh p n r r' idle active h =
      (refl, refl)
  renew (Outcome.raised RuntimeError.handle_closed) again config fresh p n r r' idle active h =
      (refl, refl)
  renew (Outcome.raised RuntimeError.configuration_conflict) again config fresh p n r r' idle active
        h =
      (refl, refl)
  renew (Outcome.raised RuntimeError.other_error) again config fresh p n r r' idle active h =
      (refl, refl)
  renew (Outcome.returned b) again config fresh p n r r' idle active h = (refl, refl)

  finalize_process_runtime_runs :
      (view : FinalizeView) (p : Process Config) (n : ℕ) (r : ProcessRuntime)
      → p.active_finalizing ≡ false
      → p.active_runtime ≡ some (n, r)
      → finalize_process_runtime view p ≡ (
        (finalize_runtime view r).0,
        end_finalizing
            (finalize_runtime view r).0
            n
            (finalize_runtime view r).1
            (record p { active_finalizing = true }),
      )
  unfolding finalize_process_runtime begin_finalizing
  finalize_process_runtime_runs view p n r idle active = ground (arith, idle, active)

  -- The process that has a runtime and is not finalizing it: once a finalization has run, it gives no handle
  -- if the runtime could not stop, and is as it was on reentrancy. Otherwise the runtime is gone, a
  -- further finalization is inert, and the next acquisition makes a new one, whatever its
  -- configuration.
  pub finalize_process_runtime-Renews :
      (view again : FinalizeView) (config : Config) (fresh : ProcessRuntime) (p : Process Config)
      (n : ℕ) (r : ProcessRuntime)
      → p.active_finalizing ≡ false
      → p.active_runtime ≡ some (n, r)
      → Renews
          (finalize_process_runtime view p).0
          again
          config
          fresh
          p
          (finalize_process_runtime view p).1
  finalize_process_runtime-Renews view again config fresh p n r idle active =
      subst (λ o. Renews o.0 again config fresh p o.1)
        (sym (finalize_process_runtime_runs view p n r idle active))
        (renew (finalize_runtime view r).0 again config fresh p n r (finalize_runtime view r).1 idle
          active (finalize_runtime-Finalized view r))
