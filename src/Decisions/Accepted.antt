-- ===== src/Decisions/Accepted.antt =====
-- What an accepted call of `submit` has passed and written.
use invoice_ops.Prelude.{
  ◌≡◌, refl, ◌⊎◌, inl, inr, Bool, true, false, Option, none, some, not, ◌||◌, any, map, find_first,
  ◌==◌, List, ◌∷◌, arith, if◌then◌else◌, Bool-cases,
}
use invoice_ops.Schemas.Review.{DecisionStage, DecisionResponse}
use invoice_ops.Ledger.{LedgerEvent, Appended, staged, refused, append}
use invoice_ops.Worker.{is_paused}
use invoice_ops.Decisions.{
  has_key, response_of, decisions_of, Permitted, permitted, forbidden, permit, row_of,
  exceptions_after, decision_pins, decision_event, identity_of, committed, write, write_permitted,
  decide, find_run, find_exception, decide_joined, decide_found, submit_new, submit_known,
  submit_as, submit, is_replay,
}
use invoice_ops.Decisions.Rows.{
  Role, analyst, manager, auditor, ExceptionRow, RunRow, DecisionRow, Tables, accepted, rejected,
  Call, unavailable, is_opened, is_in_review,
}

abbrev pub ledger_answer : Call → RunRow → Tables → DecisionRow → Appended
ledger_answer call run tables row =
    append (decision_pins run) true call.event_id call.now (decision_event call.role row)
      (map identity_of tables.runs) tables.ledger

-- A call that wrote: the exception and the paused run it found, and what it inserted.
pub record IsWritten (call : Call) (tables : Tables) (response : DecisionResponse) (next : Tables)
    : Type 0 where
  pub exception : ExceptionRow
  pub run : RunRow
  pub stage : DecisionStage
  pub event : LedgerEvent
  pub ledger : List LedgerEvent
  pub exception_is_there : find_exception call.exception_id tables ≡ some exception
  pub run_is_there : find_run exception.run_id tables ≡ some run
  pub is_awaiting : is_paused run.status ≡ true
  pub is_permitted :
      permit call.role call.request
        (decisions_of call.exception_id tables.decisions)
        exception.status
      ≡ permitted stage
  pub key_is_new : find_first (has_key call.idempotency_key) tables.decisions ≡ none
  pub id_is_new :
      any (λ (other : DecisionRow). other.id == call.decision_id) tables.decisions ≡ false
  pub is_staged : ledger_answer call run tables (row_of call exception run) ≡ staged event ledger
  pub responds : response ≡ (record (response_of (row_of call exception run)) { stage = stage })
  pub writes : next ≡ (record tables {
    exceptions = exceptions_after call tables.exceptions;
    decisions = row_of call exception run ∷ tables.decisions;
    ledger = ledger;
  })

committed_accepted :
    (call : Call) (stage : DecisionStage) (row : DecisionRow) (tables : Tables) (answer : Appended)
    (response : DecisionResponse) (next : Tables)
    → committed call stage row tables answer ≡ accepted response next
    → (event : LedgerEvent) × (ledger : List LedgerEvent) × (answer ≡ staged event ledger)
      × (response ≡ (record (response_of row) { stage = stage }))
      × (next ≡ (record tables {
        exceptions = exceptions_after call tables.exceptions;
        decisions = row ∷ tables.decisions;
        ledger = ledger;
      }))
committed_accepted call stage row tables (staged event ledger) response next h =
    (event, ledger, refl, cc, cc)
committed_accepted call stage row tables (refused e) response next h = ground arith

write_accepted :
    (call : Call) (run : RunRow) (tables : Tables) (row : DecisionRow) (stage : DecisionStage)
    (response : DecisionResponse) (next : Tables)
    → write call run tables row stage ≡ accepted response next
    → (any (λ (other : DecisionRow). other.id == row.id) tables.decisions ≡ false)
      × (committed call stage row tables (ledger_answer call run tables row)
          ≡ accepted response next)
unfolding write
write_accepted call run tables row stage response next h =
    elim (Bool-cases (any (λ (other : DecisionRow). other.id == row.id) tables.decisions)) [
      | inl e ↦ ground arith
      | inr e ↦ (e, rw e at h)
    ]

permitted_accepted :
    (call : Call) (run : RunRow) (tables : Tables) (row : DecisionRow) (answer : Permitted)
    (response : DecisionResponse) (next : Tables)
    → write_permitted call run tables row answer ≡ accepted response next
    → (stage : DecisionStage) × (answer ≡ permitted stage)
      × (write call run tables row stage ≡ accepted response next)
permitted_accepted call run tables row (permitted stage) response next h = (stage, refl, h)
permitted_accepted call run tables row (forbidden message) response next h = ground arith

decide_accepted :
    (call : Call) (exception : ExceptionRow) (run : RunRow) (tables : Tables)
    (response : DecisionResponse) (next : Tables)
    → find_exception call.exception_id tables ≡ some exception
    → find_run exception.run_id tables ≡ some run
    → find_first (has_key call.idempotency_key) tables.decisions ≡ none
    → decide call exception run tables ≡ accepted response next
    → IsWritten call tables response next
unfolding decide
decide_accepted call exception run tables response next e r k h =
    let row = row_of call exception run in
    let awaiting : (is_paused run.status ≡ true)
        × (write_permitted call run tables row (
              permit call.role call.request (decisions_of call.exception_id tables.decisions)
                exception.status)
            ≡ accepted response next) =
      elim (Bool-cases (is_paused run.status)) [
        | inl p ↦ elim (Bool-cases (is_opened exception.status || is_in_review exception.status)) [
          | inl o ↦ (p, rw (p, o) at h)
          | inr o ↦ ground arith
        ]
        | inr p ↦ ground arith
      ] in
    let (stage, allowed, w) = permitted_accepted call run tables row _ response next awaiting.1 in
    let (fresh, c) = write_accepted call run tables row stage response next w in
    let (event, ledger, staged_eq, responds, writes) =
      committed_accepted call stage row tables _ response next c in
    record {
      exception = exception;
      run = run;
      stage = stage;
      event = event;
      ledger = ledger;
      exception_is_there = e;
      run_is_there = r;
      is_awaiting = awaiting.0;
      is_permitted = allowed;
      key_is_new = k;
      id_is_new = fresh;
      is_staged = staged_eq;
      responds = responds;
      writes = writes;
    }

joined_accepted :
    (call : Call) (exception : ExceptionRow) (tables : Tables) (joined : Option RunRow)
    (response : DecisionResponse) (next : Tables)
    → find_exception call.exception_id tables ≡ some exception
    → find_run exception.run_id tables ≡ joined
    → find_first (has_key call.idempotency_key) tables.decisions ≡ none
    → decide_joined call exception tables joined ≡ accepted response next
    → IsWritten call tables response next
joined_accepted call exception tables none response next e r k h = ground arith
joined_accepted call exception tables (some run) response next e r k h =
    decide_accepted call exception run tables response next e r k h

found_accepted :
    (call : Call) (tables : Tables) (found : Option ExceptionRow) (response : DecisionResponse)
    (next : Tables)
    → find_exception call.exception_id tables ≡ found
    → find_first (has_key call.idempotency_key) tables.decisions ≡ none
    → decide_found call tables found ≡ accepted response next
    → IsWritten call tables response next
found_accepted call tables none response next e k h = ground arith
found_accepted call tables (some exception) response next e k h =
    joined_accepted call exception tables _ response next e refl k h

-- A call that repeats the decision stored under its key.
pub record IsReplayed (call : Call) (tables : Tables) (response : DecisionResponse) (next : Tables)
    : Type 0 where
  pub row : DecisionRow
  pub is_stored : find_first (has_key call.idempotency_key) tables.decisions ≡ some row
  pub is_same : is_replay call row ≡ true
  pub responds : response ≡ response_of row
  pub unchanged : next ≡ tables

-- What every accepted call is.
pub record IsAccepted (call : Call) (tables : Tables) (response : DecisionResponse) (next : Tables)
    : Type 0 where
  pub is_configured : call.is_configured ≡ true
  pub who : (call.role ≡ analyst) ⊎ (call.role ≡ manager)
  pub outcome : IsReplayed call tables response next ⊎ IsWritten call tables response next

known_accepted :
    (call : Call) (tables : Tables) (stored : Option DecisionRow) (response : DecisionResponse)
    (next : Tables)
    → find_first (has_key call.idempotency_key) tables.decisions ≡ stored
    → submit_known call tables stored ≡ accepted response next
    → IsReplayed call tables response next ⊎ IsWritten call tables response next
unfolding submit_new
known_accepted call tables none response next k h =
    inr (found_accepted call tables _ response next refl k h)
known_accepted call tables (some row) response next k h = elim (Bool-cases (is_replay call row)) [
  | inl e ↦
      let p : accepted (response_of row) tables ≡ accepted response next = rw e at h in
      inl (record {
        row = row;
        is_stored = k;
        is_same = e;
        responds = ground arith;
        unchanged = ground arith;
      })
  | inr e ↦ ground arith
]

configured_accepted :
    (configured : Bool) (call : Call) (tables : Tables) (response : DecisionResponse)
    (next : Tables)
    → (if not configured
        then rejected unavailable
        else submit_known call tables (find_first (has_key call.idempotency_key) tables.decisions))
      ≡ accepted response next
    → (configured ≡ true)
      × (IsReplayed call tables response next ⊎ IsWritten call tables response next)
configured_accepted true call tables response next h =
    (refl, known_accepted call tables _ response next refl h)
configured_accepted false call tables response next h = ground arith

as_accepted :
    (role : Role) (call : Call) (tables : Tables) (response : DecisionResponse) (next : Tables)
    → submit_as role call tables ≡ accepted response next
    → (call.is_configured ≡ true)
      × ((role ≡ analyst) ⊎ (role ≡ manager))
      × (IsReplayed call tables response next ⊎ IsWritten call tables response next)
unfolding submit_as
as_accepted analyst call tables response next h =
    let (c, o) = configured_accepted call.is_configured call tables response next h in
    (c, inl refl, o)
as_accepted manager call tables response next h =
    let (c, o) = configured_accepted call.is_configured call tables response next h in
    (c, inr refl, o)
as_accepted auditor call tables response next h = ground arith

-- An accepted call comes from the analyst or the manager, and either repeats the decision stored under its key and
-- changes nothing, or has passed every check and writes one decision and one event.
pub submit_accepted :
    (call : Call) (tables : Tables) (response : DecisionResponse) (next : Tables)
    → submit call tables ≡ accepted response next
    → IsAccepted call tables response next
unfolding submit
submit_accepted call tables response next h =
    let (c, who, o) = as_accepted call.role call tables response next h in
    record { is_configured = c; who = who; outcome = o }
