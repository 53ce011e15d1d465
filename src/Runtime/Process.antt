-- ===== src/Runtime/Process.antt =====
-- The one runtime of a process, and its handles, in better_hermes_hindsight/runtime.py:
-- `acquire_process_runtime`, `finalize_process_runtime` and `ProcessRuntimeHandle`.
use better_hermes_hindsight.Common.{
  ℕ, ◌+◌, Bool, true, false, not, Option, none, some, if◌then◌else◌,
}
use better_hermes_hindsight.Runtime.Operations.{ProcessRuntime, accepting_operations}
use better_hermes_hindsight.Runtime.Finalize.{Outcome, RuntimeError, FinalizeView, finalize_runtime}

-- `ProcessRuntimeHandle`, with the number of its runtime, which stands for the object's identity.
pub record Handle : Type 0 where
  pub runtime : ℕ
  pub closed : Bool

unfoldable pub close_handle : Handle → Handle
close_handle handle = record handle { closed = true }

-- `_require_runtime`; `none` is `RuntimeHandleClosedError`.
unfoldable pub require_runtime : Handle → Option ℕ
require_runtime handle = if handle.closed then none else some handle.runtime

-- `_ACTIVE_RUNTIME` with its number and the configuration that it was made for, which
-- `_ACTIVE_CONFIG` is set and cleared with, and `_ACTIVE_FINALIZING`.
pub record Process (Config : Type 0) : Type 0 where
  pub active_config : Option Config
  pub active_runtime : Option (ℕ × ProcessRuntime)
  pub active_finalizing : Bool
  pub runtimes_made : ℕ

pub data Acquired : Type 0 where
  handle_to : Handle → Acquired
  acquire_raised : RuntimeError → Acquired

module _ {Config : Type 0} (same_config : Config → Config → Bool) where
  -- `config != _ACTIVE_CONFIG`, negated.
  abbrev pub is_active_config : Config → Option Config → Bool
  is_active_config config none = false
  is_active_config config (some active) = same_config config active

  abbrev pub handle_of : ℕ → Acquired
  handle_of n = Acquired.handle_to (record { runtime = n; closed = false })

  -- `acquire_process_runtime`, where the constructor gives `constructed`, or raises.
  unfoldable pub acquire :
      Config → Option ProcessRuntime → Process Config → Acquired × Process Config
  acquire config constructed p =
      if p.active_finalizing
      then (Acquired.acquire_raised RuntimeError.finalized, p)
      else elim p.active_runtime [
        | some (n, runtime) ↦
            if not (accepting_operations runtime)
            then (Acquired.acquire_raised RuntimeError.finalized, p)
            else if not (is_active_config config p.active_config)
            then (Acquired.acquire_raised RuntimeError.configuration_conflict, p)
            else (handle_of n, p)
        | none ↦ elim constructed [
          | none ↦ (Acquired.acquire_raised RuntimeError.other_error, p)
          | some runtime ↦ (
            handle_of p.runtimes_made,
            record p {
              active_config = some config;
              active_runtime = some (p.runtimes_made, runtime);
              runtimes_made = p.runtimes_made + 1;
            },
          )
        ]
      ]

-- The part of `finalize_process_runtime` before the runtime's `finalize`: the runtime to finalize_runtime,
-- and nothing where the call returns at once.
unfoldable pub begin_finalizing :
    {Config : Type 0} → Process Config → Option (ℕ × ProcessRuntime) × Process Config
begin_finalizing p = if p.active_finalizing then (none, p) else elim p.active_runtime [
  | none ↦ (none, p)
  | some active ↦ (some active, record p { active_finalizing = true })
]

-- The part after it.
abbrev pub keeps_runtime : Outcome → Bool
keeps_runtime (Outcome.raised RuntimeError.reentrancy) = true
keeps_runtime (Outcome.raised RuntimeError.sender_stop) = true
keeps_runtime _ = false

unfoldable pub end_finalizing :
    {Config : Type 0} → Outcome → ℕ → ProcessRuntime → Process Config → Process Config
end_finalizing outcome n runtime p =
    if keeps_runtime outcome
    then record p { active_runtime = some (n, runtime); active_finalizing = false }
    else record p { active_config = none; active_runtime = none; active_finalizing = false }

unfoldable pub finalize_process_runtime :
    {Config : Type 0} → FinalizeView → Process Config → Outcome × Process Config
unfolding begin_finalizing end_finalizing
finalize_process_runtime view p = elim (begin_finalizing p).0 [
  | none ↦ (Outcome.returned false, p)
  | some (n, runtime) ↦
      let (outcome, later) = finalize_runtime view runtime in
      (outcome, end_finalizing outcome n later (begin_finalizing p).1)
]
