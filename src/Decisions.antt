-- ===== src/Decisions.antt =====
-- api/decision_service.py and graph/review_worker.py: proposals, countersignatures, and their settlement. The tables are
-- lists of rows, the newest decision and ledger event first; the id and the time that the service draws are arguments.
-- One call runs in one transaction that locks the key, the run and the exception: a refused call leaves the tables as
-- they were. The length and the characters of an idempotency key are the transport's check. Faults of the
-- connection are not modelled; an id that is taken is refused by the table's primary key.
pub mod Rows
pub mod Accepted
pub mod FourEyes
pub mod Repeat
pub mod Record
pub mod Settlement
pub mod Settling
pub mod Signed
pub mod Again
use invoice_ops.Prelude.{
  ℕ, Bool, true, false, Option, none, some, is_some, List, [], ◌∷◌, String, map, any, find_first,
  is_empty, not, ◌&&◌, ◌||◌, ◌==◌, str_eq, if◌then◌else◌,
}
use invoice_ops.Schemas.Review.{
  ReviewAction, approve, return, escalate, same_action, DecisionRequest, DecisionStage,
  pending_signoff, queued_for_resume, DecisionResponse,
}
use invoice_ops.Ledger.{
  VersionPins, VersionOverrides, AppendEvent, LedgerEvent, RunIdentity, human, decision, Payload,
  Appended, staged, refused, append,
}
use invoice_ops.Worker.{RunStatus, is_paused}
use invoice_ops.Decisions.Rows.{
  Role, analyst, manager, auditor, actor, ExceptionStatus, opened, in_review, resolved, escalated,
  is_opened, is_in_review, ExceptionRow, RunRow, DecisionRow, Tables, DecisionError, not_found,
  unavailable, conflict, Submitted, accepted, rejected, Call,
}

abbrev pub same_id : Option ℕ → Option ℕ → Bool
same_id none none = true
same_id (some a) (some b) = a == b
same_id _ _ = false

abbrev pub has_key : String → DecisionRow → Bool
has_key key row = str_eq row.idempotency_key key

-- Whether a stored decision is the one that is asked for again.
abbrev pub is_replay : Call → DecisionRow → Bool
is_replay call row =
    row.exception_id == call.exception_id
    && same_action row.action call.request.action
    && str_eq row.rationale call.request.rationale
    && str_eq row.reason_code call.request.reason_code
    && str_eq row.actor_id (actor call.role)
    && same_id row.supersedes_id call.request.proposal_id

-- `_response`
abbrev pub response_of : DecisionRow → DecisionResponse
response_of row = record {
  decision_id = row.id;
  exception_id = row.exception_id;
  run_id = row.run_id;
  invoice_id = row.invoice_id;
  action = row.action;
  actor_id = row.actor_id;
  stage = if str_eq row.actor_id (actor analyst) then pending_signoff else queued_for_resume;
  proposal_id = row.supersedes_id;
}

-- The decisions of an exception.
unfoldable pub decisions_of : ℕ → List DecisionRow → List DecisionRow
decisions_of exception_id [] = []
decisions_of exception_id (row ∷ rows) =
    let rest = decisions_of exception_id rows in
    if row.exception_id == exception_id then row ∷ rest else rest

abbrev pub is_approval : ReviewAction → Bool
is_approval action = same_action action approve

pub data Permitted : Type 0 where
  permitted : DecisionStage → Permitted
  forbidden : String → Permitted

-- The checks of an analyst's proposal.
unfoldable pub permit_proposal : DecisionRequest → List DecisionRow → ExceptionStatus → Permitted
permit_proposal request decisions status =
    if is_some request.proposal_id
    then forbidden "Analyst proposals cannot countersign a decision"
    else if not (is_empty decisions)
    then forbidden "Exception already has a decision proposal"
    else if not (is_opened status)
    then forbidden "Exception is not open for an analyst proposal"
    else permitted pending_signoff

-- The checks of a manager's signoff, for the id of the proposal and the decisions that are there.
unfoldable pub permit_signoff :
    ReviewAction → Option ℕ → List DecisionRow → ExceptionStatus → Permitted
permit_signoff action none decisions status =
    forbidden "Manager signoff requires one analyst proposal"
permit_signoff action (some proposal_id) [] status =
    forbidden "Manager signoff requires one analyst proposal"
permit_signoff action (some proposal_id) (a ∷ b ∷ rest) status =
    forbidden "Manager signoff requires one analyst proposal"
permit_signoff action (some proposal_id) (proposal ∷ []) status =
    if not (proposal.id == proposal_id)
      || not (str_eq proposal.actor_id (actor analyst))
      || is_some proposal.supersedes_id
    then forbidden "Manager signoff does not match the analyst proposal"
    else if is_approval action && not (is_approval proposal.action)
    then forbidden "Approval requires an analyst approval proposal"
    else if not (is_in_review status)
    then forbidden "Exception proposal is no longer in review"
    else permitted queued_for_resume

unfoldable pub permit : Role → DecisionRequest → List DecisionRow → ExceptionStatus → Permitted
permit analyst request decisions status = permit_proposal request decisions status
permit _ request decisions status =
    permit_signoff request.action request.proposal_id decisions status

abbrev pub row_of : Call → ExceptionRow → RunRow → DecisionRow
row_of call exception run = record {
  id = call.decision_id;
  exception_id = call.exception_id;
  run_id = exception.run_id;
  invoice_id = exception.invoice_id;
  idempotency_key = call.idempotency_key;
  action = call.request.action;
  rationale = call.request.rationale;
  reason_code = call.request.reason_code;
  actor_id = actor call.role;
  graph_version = run.graph_version;
  supersedes_id = call.request.proposal_id;
  created_at = call.now;
}

unfoldable pub set_status : ℕ → ExceptionStatus → List ExceptionRow → List ExceptionRow
set_status exception_id status [] = []
set_status exception_id status (row ∷ rows) =
    (if row.id == exception_id then record row { status = status } else row)
    ∷ set_status exception_id status rows

-- A proposal takes the exception into review.
abbrev pub exceptions_after : Call → List ExceptionRow → List ExceptionRow
exceptions_after call exceptions = elim call.role [
  | analyst ↦ set_status call.exception_id in_review exceptions
  | manager ↦ exceptions
  | auditor ↦ exceptions
]

abbrev pub decision_pins : RunRow → VersionPins
decision_pins run = record {
  graph_version = run.graph_version;
  model_version = "not-applicable@v1";
  prompt_version = "not-applicable@v1";
  policy_version = "four-eyes@v1";
}

abbrev pub payload_of : DecisionRow → Payload
payload_of row =
    decision row.id row.exception_id row.action row.rationale row.reason_code row.supersedes_id

abbrev pub event_type_of : Role → String
event_type_of analyst = "decision.proposed"
event_type_of _ = "decision.accepted"

abbrev pub decision_event : Role → DecisionRow → AppendEvent
decision_event role row = record {
  run_id = row.run_id;
  invoice_id = row.invoice_id;
  event_type = event_type_of role;
  actor_type = human;
  actor_id = row.actor_id;
  payload = payload_of row;
  node = some "HumanDecision";
  supersedes_id = none;
  versions =
      some (record { graph = none; model = none; prompt = none; policy = some "four-eyes@v1" });
}

abbrev pub identity_of : RunRow → RunIdentity
identity_of run = record {
  run = run.id;
  invoice_id = run.invoice_id;
  graph_version = run.graph_version;
}

-- The response, once the ledger has answered.
abbrev pub committed : Call → DecisionStage → DecisionRow → Tables → Appended → Submitted
committed call stage row tables (refused _) = rejected unavailable
committed call stage row tables (staged _ ledger) =
    accepted (record (response_of row) { stage = stage })
      (record tables {
        exceptions = exceptions_after call tables.exceptions;
        decisions = row ∷ tables.decisions;
        ledger = ledger;
      })

-- The writes of `submit`: the decision, the status of the exception, and the event.
unfoldable pub write : Call → RunRow → Tables → DecisionRow → DecisionStage → Submitted
write call run tables row stage =
    if any (λ (other : DecisionRow). other.id == row.id) tables.decisions
    then rejected unavailable
    else committed call stage row tables (
        append (decision_pins run) true call.event_id call.now (decision_event call.role row)
          (map identity_of tables.runs) tables.ledger)

abbrev pub write_permitted : Call → RunRow → Tables → DecisionRow → Permitted → Submitted
write_permitted call run tables row (forbidden message) = rejected (conflict message)
write_permitted call run tables row (permitted stage) = write call run tables row stage

-- `submit` for a key that is new, once the exception and its run are found.
unfoldable pub decide : Call → ExceptionRow → RunRow → Tables → Submitted
decide call exception run tables =
    if not (is_paused run.status)
      || not (is_opened exception.status || is_in_review exception.status)
    then rejected (conflict "Exception is not awaiting a human decision")
    else write_permitted call run tables (row_of call exception run) (
        permit call.role call.request (decisions_of call.exception_id tables.decisions)
          exception.status)

abbrev pub find_run : ℕ → Tables → Option RunRow
find_run run_id tables = find_first (λ (run : RunRow). run.id == run_id) tables.runs

abbrev pub find_exception : ℕ → Tables → Option ExceptionRow
find_exception exception_id tables =
    find_first (λ (row : ExceptionRow). row.id == exception_id) tables.exceptions

abbrev pub decide_joined : Call → ExceptionRow → Tables → Option RunRow → Submitted
decide_joined call exception tables none = rejected not_found
decide_joined call exception tables (some run) = decide call exception run tables

abbrev pub decide_found : Call → Tables → Option ExceptionRow → Submitted
decide_found call tables none = rejected not_found
decide_found call tables (some exception) =
    decide_joined call exception tables (find_run exception.run_id tables)

-- `submit` for a key that is new: the exception joined with its run.
unfoldable pub submit_new : Call → Tables → Submitted
submit_new call tables = decide_found call tables (find_exception call.exception_id tables)

-- `submit` for the decision that is stored under the key.
abbrev pub submit_known : Call → Tables → Option DecisionRow → Submitted
submit_known call tables none = submit_new call tables
submit_known call tables (some row) =
    if is_replay call row
    then accepted (response_of row) tables
    else rejected (conflict "Idempotency key belongs to a different decision")

unfoldable pub submit_as : Role → Call → Tables → Submitted
submit_as auditor call tables = rejected (conflict "Auditors cannot make exception decisions")
submit_as _ call tables =
    if not call.is_configured
    then rejected unavailable
    else submit_known call tables (find_first (has_key call.idempotency_key) tables.decisions)

-- `DecisionService.submit`
unfoldable pub submit : Call → Tables → Submitted
submit call tables = submit_as call.role call tables

-- A refused call is rolled back.
abbrev pub tables_after : Tables → Submitted → Tables
tables_after tables (accepted response next) = next
tables_after tables (rejected error) = tables

-- The tables after a call.
unfoldable pub serve : Call → Tables → Tables
serve call tables = tables_after tables (submit call tables)

-- The tables after calls that come one after another.
unfoldable pub serve_all : List Call → Tables → Tables
serve_all [] tables = tables
serve_all (call ∷ calls) tables = serve_all calls (serve call tables)
