-- ===== src/Decisions/Rows.antt =====
-- api/decision_service.py: the roles, the tables of decisions and exceptions, and the calls of `submit`.
use invoice_ops.Prelude.{ℕ, Bool, true, false, Option, List, String}
use invoice_ops.Schemas.Review.{ReviewAction, DecisionRequest, DecisionResponse}
use invoice_ops.Ledger.{LedgerEvent}
use invoice_ops.Worker.{RunStatus}

pub data Role : Type 0 where
  analyst manager auditor : Role

-- `_ACTORS`
abbrev pub actor : Role → String
actor analyst = "maria-ap-analyst"
actor manager = "dan-procurement-manager"
actor auditor = "priya-auditor"

pub data ExceptionStatus : Type 0 where
  opened in_review resolved escalated : ExceptionStatus

abbrev pub is_opened : ExceptionStatus → Bool
is_opened opened = true
is_opened _ = false

abbrev pub is_in_review : ExceptionStatus → Bool
is_in_review in_review = true
is_in_review _ = false

pub record ExceptionRow : Type 0 where
  pub id : ℕ
  pub run_id : ℕ
  pub invoice_id : ℕ
  pub status : ExceptionStatus

pub record RunRow : Type 0 where
  pub id : ℕ
  pub invoice_id : ℕ
  pub graph_version : String
  pub status : RunStatus
  pub completed_at : Option ℕ

pub record DecisionRow : Type 0 where
  pub id : ℕ
  pub exception_id : ℕ
  pub run_id : ℕ
  pub invoice_id : ℕ
  pub idempotency_key : String
  pub action : ReviewAction
  pub rationale : String
  pub reason_code : String
  pub actor_id : String
  pub graph_version : String
  pub supersedes_id : Option ℕ
  pub created_at : ℕ

pub record Tables : Type 0 where
  pub runs : List RunRow
  pub exceptions : List ExceptionRow
  pub decisions : List DecisionRow
  pub ledger : List LedgerEvent

pub data DecisionError : Type 0 where
  not_found unavailable : DecisionError
  conflict : String → DecisionError

pub data Submitted : Type 0 where
  accepted : DecisionResponse → Tables → Submitted
  rejected : DecisionError → Submitted

-- One call of `submit`, with the settings and the values that it draws.
pub record Call : Type 0 where
  pub is_configured : Bool
  pub decision_id : ℕ
  pub event_id : ℕ
  pub now : ℕ
  pub exception_id : ℕ
  pub request : DecisionRequest
  pub role : Role
  pub idempotency_key : String
