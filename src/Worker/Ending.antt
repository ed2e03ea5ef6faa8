-- ===== src/Worker/Ending.antt =====
-- The loop ends within the configured number of attempts, and what an error that it raises leaves behind.
use invoice_ops.Prelude.{
  ℕ, zero, suc, ◌+◌, ◌<◌, ◌≡◌, refl, sym, ap, Bool, true, false, Option, none, some, is_some, List,
  String, not, ◌&&◌, arith, Bool-cases, inl, inr, ◌⊎◌,
}
use invoice_ops.Worker.{
  RetryConfig, RunStatus, queued, running, paused, completed, failed_run, Run, RunAttempt, Store,
  Stored, RetryState, retry_state, absent, malformed, cancelled, Checked, ok, error, Begun,
  nothing_to_do, claimed, claim, begin_run, begin, state_of, fresh_state, is_running, is_leased,
}
use invoice_ops.Ledger.{LedgerEvent}
use invoice_ops.Worker.Redrive.{failed}
use invoice_ops.Worker.Loop.{
  RunOutcome, finished, interrupted, failing, Processed, Step, ended, again, is_terminal, held,
  after_failure, after_run, after_begin, iterate, process,
}

-- The attempts that a store counts.
abbrev pub attempts_of : Stored → ℕ
attempts_of (retry_state state) = state.attempts
attempts_of _ = 0

abbrev pub counted : Store → ℕ
counted store = elim store.run [ none ↦ 0 | some run ↦ attempts_of run.error ]

-- What a claim says of the attempt and of the run that is written.
abbrev IsClaim : RetryConfig → Stored → RunAttempt → Run → Type 0
IsClaim config before attempt run =
    (attempts_of before < config.max_attempts)
    × (attempt.attempt ≡ attempts_of before + 1)
    × (run.status ≡ running)

claim_state_lem :
    (config : RetryConfig) (now : ℕ) (r : Run) (state : RetryState) (attempt : RunAttempt)
    (run : Run)
    → claim config now r (some state) ≡ ok (claimed attempt run)
    → (state.attempts < config.max_attempts)
      × (attempt.attempt ≡ state.attempts + 1)
      × (run.status ≡ running)
unfolding claim
claim_state_lem config now r state attempt run h = ground arith

claim_lem :
    (config : RetryConfig) (now : ℕ) (r : Run) (stored : Stored) (attempt : RunAttempt) (run : Run)
    → claim config now r (state_of stored) ≡ ok (claimed attempt run)
    → IsClaim config stored attempt run
unfolding claim
claim_lem config now r absent attempt run h =
    claim_state_lem config now r (fresh_state 0) attempt run h
claim_lem config now r malformed attempt run h = ground arith
claim_lem config now r (retry_state state) attempt run h =
    claim_state_lem config now r state attempt run h

begin_run_lem :
    (config : RetryConfig) (now : ℕ) (continuation : Bool) (r : Run) (status : RunStatus)
    (attempt : RunAttempt) (run : Run)
    → begin_run config now continuation r status ≡ ok (claimed attempt run)
    → IsClaim config r.error attempt run
unfolding begin_run
begin_run_lem config now continuation r queued attempt run h =
    claim_lem config now r r.error attempt run h
begin_run_lem config now continuation r running attempt run h =
    elim (Bool-cases (not continuation && is_leased config now r.started_at)) [
      | inl e ↦ ground arith
      | inr e ↦ claim_lem config now r r.error attempt run (rw e at h)
    ]
begin_run_lem config now continuation r paused attempt run h = ground arith
begin_run_lem config now continuation r completed attempt run h = ground arith
begin_run_lem config now continuation r failed_run attempt run h = ground arith
begin_run_lem config now continuation r cancelled attempt run h = ground arith

begin_lem :
    (config : RetryConfig) (now : ℕ) (continuation : Bool) (row : Option Run)
    (ledger : List LedgerEvent) (attempt : RunAttempt) (run : Run)
    → begin config now continuation (record { run = row; ledger = ledger })
      ≡ ok (claimed attempt run)
    → (counted (record { run = row; ledger = ledger }) < config.max_attempts)
      × (attempt.attempt ≡ counted (record { run = row; ledger = ledger }) + 1)
      × (run.status ≡ running)
unfolding begin
begin_lem config now continuation none ledger attempt run h = ground arith
begin_lem config now continuation (some r) ledger attempt run h =
    begin_run_lem config now continuation r r.status attempt run h

abbrev counted_ok : Checked Store → ℕ
counted_ok (ok store) = counted store
counted_ok (error e) = 0

-- Recording a failure that is not terminal counts the attempt.
failed_lem :
    (config : RetryConfig) (id now : ℕ) (attempt : RunAttempt) (error_type : String)
    (retryable terminal : Bool) (run : Run) (ledger : List LedgerEvent) (next : Store)
    → run.status ≡ running
    → terminal ≡ false
    → failed config id now attempt error_type retryable terminal
        (record { run = some run; ledger = ledger })
      ≡ ok next
    → counted next ≡ attempt.attempt
unfolding failed
failed_lem config id now attempt error_type retryable true run ledger next r t h = ground arith
failed_lem config id now attempt error_type retryable false run ledger next r t h =
    let e : is_running run.status ≡ true = ap is_running r in sym (ap counted_ok (rw e at h))

-- When the loop goes on, there was an attempt left, and it is counted.
after_failure_lem :
    (error_type : String) (terminal : Bool) (store next : Store) (c : Checked Store)
    → after_failure error_type terminal store c ≡ again next
    → (terminal ≡ false) × (c ≡ ok next)
after_failure_lem error_type terminal store next (error e) h = ground arith
after_failure_lem error_type true store next (ok s) h = ground arith
after_failure_lem error_type false store next (ok s) h = ground arith

terminal_lem :
    (config : RetryConfig) (attempt : RunAttempt) (retryable : Bool)
    → is_terminal config attempt retryable ≡ false
    → attempt.attempt < config.max_attempts
terminal_lem config attempt retryable h = ground arith

after_run_lem :
    (config : RetryConfig) (id now : ℕ) (attempt : RunAttempt) (outcome : RunOutcome) (run : Run)
    (store next : Store)
    → run.status ≡ running
    → after_run config id now attempt outcome (held run store) ≡ again next
    → (counted next ≡ attempt.attempt) × (attempt.attempt < config.max_attempts)
unfolding after_run
after_run_lem config id now attempt (finished result) run store next r h = ground arith
after_run_lem config id now attempt interrupted run store next r h = ground arith
after_run_lem config id now attempt (failing t retryable) run store next r h =
    let (terminal, e) = after_failure_lem t (is_terminal config attempt retryable) _ next _ h in
    (
      failed_lem config id now attempt t retryable _ run store.ledger next r terminal e,
      terminal_lem config attempt retryable terminal,
    )

after_begin_lem :
    (config : RetryConfig) (id now : ℕ) (continuation : Bool) (outcome : RunOutcome)
    (store next : Store) (c : Checked Begun)
    → begin config now continuation store ≡ c
    → after_begin config id now outcome store c ≡ again next
    → (counted store < counted next) × (counted next < config.max_attempts)
unfolding after_begin
after_begin_lem config id now continuation outcome store next (error e) b h = ground arith
after_begin_lem config id now continuation outcome store next (ok nothing_to_do) b h = ground arith
after_begin_lem config id now continuation outcome store next (ok (claimed attempt run)) b h =
    let (less, is_next, status) =
      begin_lem config now continuation store.run store.ledger attempt run b in
    let (counted_next, below) =
      after_run_lem config id now attempt outcome run store next status h in
    (omega arith, omega arith)

iterate_lem :
    (config : RetryConfig) (id now : ℕ) (continuation : Bool) (outcome : RunOutcome)
    (store next : Store)
    → iterate config id now continuation outcome store ≡ again next
    → (counted store < counted next) × (counted next < config.max_attempts)
unfolding iterate
iterate_lem config id now continuation outcome store next h =
    after_begin_lem config id now continuation outcome store next _ refl h

Step-cases : (s : Step) → ((p : Processed) × (s ≡ ended p)) ⊎ ((next : Store) × (s ≡ again next))
Step-cases (ended p) = inl (p, refl)
Step-cases (again next) = inr (next, refl)

process_from :
    (config : RetryConfig) (run_once : ℕ → RunOutcome) (ids clock : ℕ → ℕ) (fuel n : ℕ)
    (continuation : Bool) (store : Store)
    → config.max_attempts < fuel + counted store
    → 0 < fuel
    → is_some (process config run_once ids clock fuel n continuation store) ≡ true
unfolding process
process_from config run_once ids clock zero n continuation store h k = ground arith
process_from config run_once ids clock (suc fuel) n continuation store h k =
    elim (Step-cases (iterate config (ids n) (clock n) continuation (run_once n) store)) [
      | inl (p, e) ↦ rw (process, e) refl
      | inr (next, e) ↦
          let (grows, below) =
            iterate_lem config (ids n) (clock n) continuation (run_once n) store next e in
          rw (process, e)
            (process_from config run_once ids clock fuel (suc n) true next (omega arith)
              (omega arith))
    ]

-- The loop ends: with one iteration more than the configured attempts it has a result, whatever the workflow does and
-- whatever the store was.
pub process_ends :
    (config : RetryConfig) (run_once : ℕ → RunOutcome) (ids clock : ℕ → ℕ) (n : ℕ)
    (continuation : Bool) (store : Store)
    → is_some (process config run_once ids clock (suc config.max_attempts) n continuation store)
      ≡ true
process_ends config run_once ids clock n continuation store =
    process_from config run_once ids clock (suc config.max_attempts) n continuation store
      (omega arith) (omega arith)
