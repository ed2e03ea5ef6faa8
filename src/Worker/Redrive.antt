-- ===== src/Worker/Redrive.antt =====
-- graph/worker.py `failed` and `redrive`: recording a failed attempt, and taking a run out of the dead letters.
use invoice_ops.Prelude.{
  ℕ, ◌+◌, Bool, true, false, Option, none, some, [], ◌∷◌, String, find_first, not, ◌&&◌, ◌==◌,
  str_eq, is_blank, if◌then◌else◌,
}
use invoice_ops.Ledger.{
  VersionPins, VersionOverrides, AppendEvent, LedgerEvent, RunIdentity, system, human, dead_letter,
  redrive_request, Payload, Appended, staged, refused, append,
}
use invoice_ops.Worker.{
  RetryConfig, queued, running, failed_run, RetryState, Stored, retry_state, Run, RunAttempt, Store,
  run_changed, ledger_refused, Checked, ok, error, fresh_state, state_of, attempt_of, is_running,
  is_failed,
}
use invoice_ops.Worker.Patterns.{is_key, is_actor, is_long}

-- `_writer`
abbrev pub writer_pins : RunAttempt → VersionPins
writer_pins attempt = record {
  graph_version = attempt.graph_version;
  model_version = "not-applicable@v1";
  prompt_version = "not-applicable@v1";
  policy_version = "invoice-retry@v2";
}

-- The store with this run and the ledger that the writer leaves, or the error of the writer.
abbrev pub with_event : Run → Appended → Checked Store
with_event run (staged event events) = ok (record { run = some run; ledger = events })
with_event run (refused e) = error (ledger_refused e)

abbrev pub identity_of : Run → RunIdentity
identity_of run = record {
  run = run.id;
  invoice_id = run.invoice_id;
  graph_version = run.graph_version;
}

abbrev pub policy_override : RetryConfig → Option VersionOverrides
policy_override config =
    some (record { graph = none; model = none; prompt = none; policy = some config.version })

abbrev pub failed_state : RunAttempt → String → Bool → Bool → RetryState
failed_state attempt error_type retryable terminal = record {
  attempts = attempt.attempt;
  cycle = attempt.cycle;
  error_type = some error_type;
  retryable = some retryable;
  dead_lettered = terminal;
}

abbrev pub dead_letter_event : RetryConfig → RunAttempt → String → Bool → AppendEvent
dead_letter_event config attempt error_type retryable = record {
  run_id = attempt.run_id;
  invoice_id = attempt.invoice_id;
  event_type = "workflow.dead_lettered";
  actor_type = system;
  actor_id = "invoiceops-retry-worker";
  payload = dead_letter attempt.attempt attempt.cycle error_type retryable;
  node = some "Worker";
  supersedes_id = none;
  versions = policy_override config;
}

-- The run as the update of `failed` leaves it.
abbrev pub failed_row : ℕ → RunAttempt → String → Bool → Bool → Run → Run
failed_row now attempt error_type retryable terminal run = record run {
  status = if terminal then failed_run else running;
  completed_at = if terminal then some now else none;
  error = retry_state (failed_state attempt error_type retryable terminal);
}

abbrev same_option_text : Option String → Option String → Bool
same_option_text none none = true
same_option_text (some a) (some b) = str_eq a b
same_option_text _ _ = false

abbrev same_bool : Bool → Bool → Bool
same_bool true b = b
same_bool false b = not b

abbrev same_option_bool : Option Bool → Option Bool → Bool
same_option_bool none none = true
same_option_bool (some a) (some b) = same_bool a b
same_option_bool _ _ = false

-- `row["error"] == state.model_dump(mode="json")`
abbrev same_stored : Stored → RetryState → Bool
same_stored (retry_state a) b =
    a.attempts == b.attempts
    && a.cycle == b.cycle
    && same_option_text a.error_type b.error_type
    && same_option_bool a.retryable b.retryable
    && same_bool a.dead_lettered b.dead_lettered
same_stored _ b = false

-- `PostgresAttemptStore.failed`
unfoldable pub failed :
    RetryConfig → ℕ → ℕ → RunAttempt → String → Bool → Bool → Store → Checked Store
failed config id now attempt error_type retryable terminal store = elim store.run [
  | none ↦ error run_changed
  | some run ↦
      if is_running run.status
      then (let next = failed_row now attempt error_type retryable terminal run in
          if terminal
          then with_event next (
              append (writer_pins attempt) true id now
                (dead_letter_event config attempt error_type retryable) (identity_of run ∷ [])
                store.ledger)
          else ok (record store { run = some next }))
      else if (if terminal then is_failed run.status else is_running run.status)
          && same_stored run.error (failed_state attempt error_type retryable terminal)
      then ok store
      else error run_changed
]

-- What a redrive asks for.
pub record Redrive : Type 0 where
  pub key : String
  pub actor_id : String
  pub reason : String

abbrev pub is_redrive : ℕ → String → LedgerEvent → Bool
is_redrive run_id key event =
    event.run_id == run_id
    && (str_eq event.event_type "workflow.redriven" && has_key key event.payload)
  where
    has_key : String → Payload → Bool
    has_key key (redrive_request other actor reason from to) = str_eq other key
    has_key key _ = false

abbrev pub same_redrive : Redrive → Payload → Bool
same_redrive request (redrive_request key actor reason from to) =
    str_eq actor request.actor_id && str_eq reason request.reason
same_redrive request _ = false

abbrev pub is_valid_redrive : Redrive → Bool
is_valid_redrive request =
    is_key request.key
    && is_actor request.actor_id
    && not (is_blank request.reason)
    && not (is_long request.reason)

abbrev pub redrive_event : RetryConfig → RunAttempt → Redrive → ℕ → AppendEvent
redrive_event config attempt request cycle = record {
  run_id = attempt.run_id;
  invoice_id = attempt.invoice_id;
  event_type = "workflow.redriven";
  actor_type = human;
  actor_id = request.actor_id;
  payload = redrive_request request.key request.actor_id request.reason cycle attempt.cycle;
  node = some "Worker";
  supersedes_id = none;
  versions = policy_override config;
}

abbrev pub queued_row : ℕ → Run → Run
queued_row cycle run = record run {
  status = queued;
  started_at = none;
  completed_at = none;
  error = retry_state (fresh_state cycle);
}

-- The rest of `redrive` for a dead-lettered run.
unfoldable pub requeue : RetryConfig → ℕ → ℕ → Redrive → RetryState → Run → Store → Checked Store
requeue config id now request state run store =
    let attempt = attempt_of run 1 (state.cycle + 1) in
    with_event (queued_row (state.cycle + 1) run) (
      append (writer_pins attempt) true id now (redrive_event config attempt request state.cycle)
        (identity_of run ∷ []) store.ledger)

-- The result of `redrive`: whether the run was queued again, and the store.
pub data Redriven : Type 0 where
  repeated : Redriven
  requeued : Store → Redriven
  invalid : Redriven
  not_found : Redriven
  state_error : Redriven
  event_error : Redriven

abbrev pub requeued_store : Checked Store → Redriven
requeued_store (ok store) = requeued store
requeued_store (error e) = event_error

unfoldable pub redrive_run : RetryConfig → ℕ → ℕ → Redrive → Run → Store → Redriven
redrive_run config id now request run store =
    if not (is_failed run.status) then invalid else elim (state_of run.error) [
      | none ↦ state_error
      | some state ↦
          if not state.dead_lettered
          then invalid
          else requeued_store (requeue config id now request state run store)
    ]

-- `PostgresAttemptStore.redrive`
unfoldable pub redrive : RetryConfig → ℕ → ℕ → Redrive → Store → Redriven
redrive config id now request store =
    if not (is_valid_redrive request) then invalid else elim store.run [
      | none ↦ not_found
      | some run ↦ elim (find_first (is_redrive run.id request.key) store.ledger) [
        | some event ↦ if same_redrive request event.payload then repeated else invalid
        | none ↦ redrive_run config id now request run store
      ]
    ]
