-- ===== src/Worker.antt =====
-- graph/worker.py and graph/retry.py: durable attempts at a run, retries, and dead letters. Each operation locks the
-- row of one run, so the store is that row and the ledger. Times are microseconds; ids of new events are
-- arguments. A rejected ledger event rolls the operation back. The workflow itself is the argument `run_once`.
pub mod Patterns
pub mod Loop
pub mod Redrive
pub mod Ending
pub mod Repeat
use invoice_ops.Prelude.{
  ℕ, zero, suc, ◌+◌, ◌*◌, ◌^◌, ◌-◌, Bool, true, false, Option, none, some, List, [], ◌∷◌, String,
  pos, find_first, not, ◌&&◌, ◌||◌, ltb, leb, ◌==◌, str_eq, is_blank, if◌then◌else◌,
}
use invoice_ops.Decimal.{Decimal, of_ℕ, mul, min_of}
use invoice_ops.Ledger.{
  VersionPins, VersionOverrides, AppendEvent, LedgerEvent, RunIdentity, LedgerError, system, human,
  dead_letter, redrive_request, Payload, Appended, staged, refused, append,
}
use invoice_ops.Worker.Patterns.{is_key, is_actor, is_long}

pub record RetryConfig : Type 0 where
  pub version : String
  pub max_attempts : ℕ
  pub initial_delay_seconds : Decimal
  pub max_delay_seconds : Decimal
  pub running_lease_seconds : ℕ

abbrev pub default_retry_config : RetryConfig
default_retry_config = record {
  version = "invoice-retry@v2";
  max_attempts = 3;
  initial_delay_seconds = record { coefficient = pos 5; places = 1 };
  max_delay_seconds = of_ℕ 5;
  running_lease_seconds = 480;
}

-- `RetryConfig.delay` for an attempt of 1 or more, before it becomes a float.
unfoldable pub delay : RetryConfig → ℕ → Decimal
unfolding mul min_of
delay config failed_attempt =
    min_of (mul config.initial_delay_seconds (of_ℕ (2 ^ (failed_attempt - 1))))
      config.max_delay_seconds

pub data RunStatus : Type 0 where
  queued running paused completed failed_run cancelled : RunStatus

pub record RetryState : Type 0 where
  pub attempts : ℕ
  pub cycle : ℕ
  pub error_type : Option String
  pub retryable : Option Bool
  pub dead_lettered : Bool

-- The column `error`: NULL, a retry state, or JSON that is none.
pub data Stored : Type 0 where
  absent malformed : Stored
  retry_state : RetryState → Stored

pub record Run : Type 0 where
  pub id : ℕ
  pub invoice_id : ℕ
  pub trace_id : String
  pub graph_version : String
  pub status : RunStatus
  pub started_at : Option ℕ
  pub completed_at : Option ℕ
  pub error : Stored

pub record RunAttempt : Type 0 where
  pub run_id : ℕ
  pub invoice_id : ℕ
  pub trace_id : String
  pub graph_version : String
  pub attempt : ℕ
  pub cycle : ℕ

pub record Store : Type 0 where
  pub run : Option Run
  pub ledger : List LedgerEvent

pub data WorkerError : Type 0 where
  run_not_found run_in_dead_letter run_cancelled run_in_progress state_invalid budget_exhausted :
      WorkerError
  identity_differs not_settled run_changed invalid_redrive : WorkerError
  ledger_refused : LedgerError → WorkerError

pub data Checked (A : Type 0) : Type 0 where
  ok : A → Checked A
  error : WorkerError → Checked A

abbrev pub fresh_state : ℕ → RetryState
fresh_state cycle = record {
  attempts = 0;
  cycle = cycle;
  error_type = none;
  retryable = none;
  dead_lettered = false;
}

-- `_state`
abbrev pub state_of : Stored → Option RetryState
state_of absent = some (fresh_state 0)
state_of malformed = none
state_of (retry_state state) = some state

-- `started_at is not None and now - started_at < timedelta(seconds=...)`
abbrev pub is_leased : RetryConfig → ℕ → Option ℕ → Bool
is_leased config now none = false
is_leased config now (some started) = ltb now (started + config.running_lease_seconds * 1000000)

abbrev pub attempt_of : Run → ℕ → ℕ → RunAttempt
attempt_of run attempt cycle = record {
  run_id = run.id;
  invoice_id = run.invoice_id;
  trace_id = run.trace_id;
  graph_version = run.graph_version;
  attempt = attempt;
  cycle = cycle;
}

-- What `begin` gives: nothing to do, or the attempt that is claimed, with the run that is written.
pub data Begun : Type 0 where
  nothing_to_do : Begun
  claimed : RunAttempt → Run → Begun

-- The rest of `begin` once the status allows it, for the stored state.
unfoldable pub claim : RetryConfig → ℕ → Run → Option RetryState → Checked Begun
claim config now run none = error state_invalid
claim config now run (some state) =
    if leb config.max_attempts state.attempts
    then error budget_exhausted
    else ok (
        claimed (attempt_of run (state.attempts + 1) state.cycle)
          (record run { status = running; started_at = some now; completed_at = none }))

unfoldable pub begin_run : RetryConfig → ℕ → Bool → Run → RunStatus → Checked Begun
begin_run config now continuation run completed = ok nothing_to_do
begin_run config now continuation run paused = ok nothing_to_do
begin_run config now continuation run failed_run = error run_in_dead_letter
begin_run config now continuation run cancelled = error run_cancelled
begin_run config now continuation run running =
    if not continuation && is_leased config now run.started_at
    then error run_in_progress
    else claim config now run (state_of run.error)
begin_run config now continuation run queued = claim config now run (state_of run.error)

-- `PostgresAttemptStore.begin`
unfoldable pub begin : RetryConfig → ℕ → Bool → Store → Checked Begun
begin config now continuation store = elim store.run [
  | none ↦ error run_not_found
  | some run ↦ begin_run config now continuation run run.status
]

pub data InvoiceStatus : Type 0 where
  waiting in_progress awaiting_review done rejected : InvoiceStatus

-- The fields of `InvoiceGraphState` that the worker reads.
pub record WorkflowResult : Type 0 where
  pub run_id : ℕ
  pub invoice_id : ℕ
  pub trace_id : String
  pub status : InvoiceStatus

-- The status of the run for a settled workflow.
abbrev pub settled_status : InvoiceStatus → Option RunStatus
settled_status awaiting_review = some paused
settled_status done = some completed
settled_status rejected = some completed
settled_status _ = none

abbrev pub is_running : RunStatus → Bool
is_running running = true
is_running _ = false

abbrev pub is_paused : RunStatus → Bool
is_paused paused = true
is_paused _ = false

abbrev pub is_completed : RunStatus → Bool
is_completed completed = true
is_completed _ = false

abbrev pub is_failed : RunStatus → Bool
is_failed failed_run = true
is_failed _ = false

abbrev pub is_absent : Stored → Bool
is_absent absent = true
is_absent _ = false

abbrev pub same_identity : RunAttempt → WorkflowResult → Bool
same_identity attempt result =
    attempt.run_id == result.run_id
    && attempt.invoice_id == result.invoice_id
    && str_eq attempt.trace_id result.trace_id

-- The update of `settle`, or the check that it was already made.
unfoldable pub settle_run : ℕ → RunStatus → Store → Checked Store
settle_run now status store = elim store.run [
  | none ↦ error run_changed
  | some run ↦
      if is_running run.status
      then ok (record store {
        run = some (record run {
          status = status;
          completed_at = if is_completed status then some now else none;
          error = absent;
        });
      })
      else if (if is_paused status then is_paused run.status else is_completed run.status)
          && is_absent run.error
      then ok store
      else error run_changed
]

-- `PostgresAttemptStore.settle`
unfoldable pub settle : ℕ → RunAttempt → WorkflowResult → Store → Checked Store
settle now attempt result store =
    if not (same_identity attempt result)
    then error identity_differs
    else elim (settled_status result.status) [
      | none ↦ error not_settled
      | some status ↦ settle_run now status store
    ]
