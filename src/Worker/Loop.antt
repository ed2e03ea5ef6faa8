-- ===== src/Worker/Loop.antt =====
-- graph/worker.py `RetryWorker.process`: the loop over the attempts ends, and what it leaves.
use invoice_ops.Prelude.{
  ℕ, zero, suc, Bool, true, false, Option, none, some, String, not, ◌||◌, leb,
}
use invoice_ops.Worker.{
  RetryConfig, Run, RunAttempt, Store, WorkerError, Checked, ok, error, Begun, nothing_to_do,
  claimed, begin, WorkflowResult, settle,
}
use invoice_ops.Worker.Redrive.{failed}

-- How a run of the workflow ends: with a result, interrupted (a cancellation, or `RunInProgress`), or with
-- an error, of a root type that is an infrastructure error or not.
pub data RunOutcome : Type 0 where
  finished : WorkflowResult → RunOutcome
  interrupted : RunOutcome
  failing : String → Bool → RunOutcome

-- How `process` ends, and the store it leaves.
pub data Processed : Type 0 where
  returned : WorkflowResult → Store → Processed
  stopped : Store → Processed
  raised : String → Store → Processed
  refused : WorkerError → Store → Processed

-- An iteration of the loop ends it, or goes on with a store.
pub data Step : Type 0 where
  ended : Processed → Step
  again : Store → Step

-- `not retryable or attempt.attempt >= self._config.max_attempts`
abbrev pub is_terminal : RetryConfig → RunAttempt → Bool → Bool
is_terminal config attempt retryable = not retryable || leb config.max_attempts attempt.attempt

-- The store once the run is claimed.
abbrev pub held : Run → Store → Store
held run store = record store { run = some run }

-- A run that needs no attempt: the workflow is asked for its result again.
abbrev pub rerun : RunOutcome → Store → Processed
rerun (finished result) store = returned result store
rerun interrupted store = stopped store
rerun (failing error_type retryable) store = raised error_type store

abbrev pub settled : WorkflowResult → Store → Checked Store → Processed
settled result store (ok next) = returned result next
settled result store (error e) = refused e store

-- After `failed`: the error is raised again, or the loop goes on.
abbrev pub after_failure : String → Bool → Store → Checked Store → Step
after_failure error_type terminal store (error e) = ended (refused e store)
after_failure error_type true store (ok next) = ended (raised error_type next)
after_failure error_type false store (ok next) = again next

-- The body of the loop from the outcome of the workflow on.
unfoldable pub after_run : RetryConfig → ℕ → ℕ → RunAttempt → RunOutcome → Store → Step
after_run config id now attempt (finished result) store =
    ended (settled result store (settle now attempt result store))
after_run config id now attempt interrupted store = ended (stopped store)
after_run config id now attempt (failing error_type retryable) store =
    after_failure error_type (is_terminal config attempt retryable) store (
      failed config id now attempt error_type retryable (is_terminal config attempt retryable)
        store)

-- The body of the loop after `begin`.
unfoldable pub after_begin : RetryConfig → ℕ → ℕ → RunOutcome → Store → Checked Begun → Step
after_begin config id now outcome store (error e) = ended (refused e store)
after_begin config id now outcome store (ok nothing_to_do) = ended (rerun outcome store)
after_begin config id now outcome store (ok (claimed attempt run)) =
    after_run config id now attempt outcome (held run store)

-- One iteration.
unfoldable pub iterate : RetryConfig → ℕ → ℕ → Bool → RunOutcome → Store → Step
iterate config id now continuation outcome store =
    after_begin config id now outcome store (begin config now continuation store)

-- `RetryWorker.process` from iteration `n` on, where `run_once n` is how the workflow ends then. The delay between
-- iterations changes no state.
unfoldable pub process :
    RetryConfig → (ℕ → RunOutcome) → (ℕ → ℕ) → (ℕ → ℕ) → ℕ → ℕ → Bool → Store → Option Processed
process config run_once ids clock zero n continuation store = none
process config run_once ids clock (suc fuel) n continuation store =
    elim (iterate config (ids n) (clock n) continuation (run_once n) store) [
      | ended result ↦ some result
      | again next ↦ process config run_once ids clock fuel (suc n) true next
    ]
