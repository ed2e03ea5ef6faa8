-- ===== src/Decisions/Settlement.antt =====
-- graph/review_worker.py: an accepted decision resumes the paused workflow, and its exception and run are settled. The
-- workflow that is resumed is an argument; what it writes here is to the ledger. The rows of the evidence come
-- in the ledger's order, the newest first.
use invoice_ops.Prelude.{
  ℕ, Bool, true, false, Option, none, some, is_some, List, [], ◌∷◌, String, find_first, not, ◌&&◌,
  ◌||◌, ◌==◌, str_eq, if◌then◌else◌,
}
use invoice_ops.Schemas.Review.{
  ReviewDecision, ReviewAction, approve, return, escalate, same_review,
}
use invoice_ops.Ledger.{LedgerEvent, Payload, review}
use invoice_ops.Worker.{RunStatus, completed, is_paused, is_completed}
use invoice_ops.Workflow.{GraphStatus}
use invoice_ops.Workflow
use invoice_ops.Decisions.{is_approval, set_status, find_run, find_exception}
use invoice_ops.Decisions.Rows.{
  analyst, manager, actor, ExceptionStatus, in_review, resolved, escalated, is_in_review,
  ExceptionRow, RunRow, DecisionRow, Tables,
}

-- What the worker reads of the workflow's result.
pub record ResumeResult : Type 0 where
  pub status : GraphStatus
  pub run_id : ℕ
  pub invoice_id : ℕ
  pub review_result : Option ReviewDecision

pub record Resumed : Type 0 where
  pub result : ResumeResult
  pub ledger : List LedgerEvent

-- `workflow.resume` for a run, a decision and the ledger.
abbrev pub Resume : Type 0
Resume = ℕ → ReviewDecision → List LedgerEvent → Resumed

pub record Receipt : Type 0 where
  pub decision_id : ℕ
  pub run_id : ℕ
  pub status : ExceptionStatus

-- A failure keeps what the workflow has committed.
pub data Settled : Type 0 where
  settled : Receipt → Tables → Settled
  failed : String → Tables → Settled

-- The row of the query: the decision with its run, its exception and the proposal it supersedes, if there is one.
pub record Joined : Type 0 where
  pub row : DecisionRow
  pub run : RunRow
  pub exception : ExceptionRow
  pub proposal : Option DecisionRow

abbrev pub find_decision : ℕ → Tables → Option DecisionRow
find_decision decision_id tables =
    find_first (λ (row : DecisionRow). row.id == decision_id) tables.decisions

abbrev pub find_proposal : Option ℕ → Tables → Option DecisionRow
find_proposal none tables = none
find_proposal (some id) tables = find_decision id tables

abbrev pub join_exception : DecisionRow → RunRow → Tables → Option ExceptionRow → Option Joined
join_exception row run tables none = none
join_exception row run tables (some exception) = some (record {
  row = row;
  run = run;
  exception = exception;
  proposal = find_proposal row.supersedes_id tables;
})

abbrev pub join_run : DecisionRow → Tables → Option RunRow → Option Joined
join_run row tables none = none
join_run row tables (some run) =
    join_exception row run tables (find_exception row.exception_id tables)

abbrev pub join_decision : Tables → Option DecisionRow → Option Joined
join_decision tables none = none
join_decision tables (some row) = join_run row tables (find_run row.run_id tables)

abbrev pub proposes : ReviewAction → Option DecisionRow → Bool
proposes action none = false
proposes action (some proposal) =
    str_eq proposal.actor_id (actor analyst)
    && not (is_approval action && not (is_approval proposal.action))

-- Whether a decision is the manager's signoff of an analyst's proposal.
unfoldable pub is_signed_off : DecisionRow → Option DecisionRow → Bool
is_signed_off row proposal =
    str_eq row.actor_id (actor manager) && is_some row.supersedes_id && proposes row.action proposal

abbrev pub review_of : DecisionRow → ReviewDecision
review_of row = record {
  action = row.action;
  actor_id = row.actor_id;
  rationale = row.rationale;
  reason_code = row.reason_code;
}

abbrev pub is_review : ReviewDecision → Option ReviewDecision → Bool
is_review expected none = false
is_review expected (some other) = same_review other expected

-- `result.status != "completed" or ...`, the other way round.
abbrev pub completes : DecisionRow → ResumeResult → Bool
completes row result =
    Workflow.is_completed result.status
    && result.run_id == row.run_id
    && result.invoice_id == row.invoice_id
    && is_review (review_of row) result.review_result

abbrev pub find_event : ℕ → String → List LedgerEvent → Option LedgerEvent
find_event run_id event_type ledger =
    find_first
      (λ (event : LedgerEvent). event.run_id == run_id && str_eq event.event_type event_type) ledger

abbrev pub is_review_event : ReviewDecision → Option LedgerEvent → Bool
is_review_event expected none = false
is_review_event expected (some event) = is_review_payload expected event.payload
  where
    is_review_payload : ReviewDecision → Payload → Bool
    is_review_payload expected (review other) = same_review other expected
    is_review_payload expected _ = false

-- Whether the ledger holds the review of this decision and the end of the workflow.
unfoldable pub has_evidence : DecisionRow → List LedgerEvent → Bool
has_evidence row ledger =
    is_review_event (review_of row) (find_event row.run_id "review.recorded" ledger)
    && is_some (find_event row.run_id "workflow.archived" ledger)

abbrev pub final_status : ReviewAction → ExceptionStatus
final_status escalate = escalated
final_status approve = resolved
final_status return = resolved

abbrev pub same_status : ExceptionStatus → ExceptionStatus → Bool
same_status resolved resolved = true
same_status escalated escalated = true
same_status in_review in_review = true
same_status _ _ = false

abbrev pub can_settle : ExceptionStatus → Option ExceptionRow → Bool
can_settle final none = false
can_settle final (some exception) =
    is_in_review exception.status || same_status exception.status final

-- The update of the paused run.
unfoldable pub complete_run : ℕ → ℕ → List RunRow → List RunRow
complete_run run_id now [] = []
complete_run run_id now (run ∷ runs) =
    (if run.id == run_id && is_paused run.status
      then record run { status = completed; completed_at = some now }
      else run)
    ∷ complete_run run_id now runs

abbrev pub settled_tables : ℕ → DecisionRow → Tables → Tables
settled_tables now row tables = record tables {
  exceptions = set_status row.exception_id (final_status row.action) tables.exceptions;
  runs = complete_run row.run_id now tables.runs;
}

abbrev pub is_settleable : RunStatus → Bool
is_settleable status = is_paused status || is_completed status

-- The transaction that settles a decision, for the run that it locks.
unfoldable pub settle_locked : ℕ → DecisionRow → Option RunRow → Tables → Settled
settle_locked now row none tables = failed "Review run changed before settlement" tables
settle_locked now row (some locked) tables =
    if not (is_settleable locked.status)
    then failed "Review run changed before settlement" tables
    else if not (has_evidence row tables.ledger)
    then failed "Committed graph review evidence is incomplete" tables
    else if not (can_settle (final_status row.action) (find_exception row.exception_id tables))
    then failed "Exception changed before settlement" tables
    else settled
        (record { decision_id = row.id; run_id = row.run_id; status = final_status row.action })
        (settled_tables now row tables)

abbrev pub settle : ℕ → DecisionRow → Tables → Settled
settle now row tables = settle_locked now row (find_run row.run_id tables) tables

-- A paused run is resumed first.
unfoldable pub resume_paused : Resume → ℕ → DecisionRow → Tables → Settled
resume_paused resume now row tables =
    let resumed = resume row.run_id (review_of row) tables.ledger in
    let next = record tables { ledger = resumed.ledger } in
    if not (completes row resumed.result)
    then failed "Review graph did not complete this decision" next
    else settle now row next

unfoldable pub process_joined : Resume → ℕ → Tables → Option Joined → Settled
process_joined resume now tables none = failed "Accepted decision is missing" tables
process_joined resume now tables (some joined) =
    if not (is_signed_off joined.row joined.proposal)
    then failed "Decision has no valid independent signoff" tables
    else if not (is_settleable joined.run.status)
    then failed "Decision run is not paused or completed" tables
    else if is_paused joined.run.status
    then resume_paused resume now joined.row tables
    else settle now joined.row tables

-- `DecisionResumeWorker.process`
unfoldable pub process : Resume → ℕ → ℕ → Tables → Settled
process resume now decision_id tables =
    process_joined resume now tables (join_decision tables (find_decision decision_id tables))
