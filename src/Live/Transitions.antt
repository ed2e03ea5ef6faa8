-- ===== src/Live/Transitions.antt =====
-- graph/live_services.py `WorkflowTransitions` and the transitions that the services append: automatic approval, review,
-- archive and rejection. Each runs in one transaction over the invoices and the ledger; where several events fit, the
-- newest is read.
use invoice_ops.Prelude.{
  ℕ, Bool, true, false, Option, none, some, List, [], ◌∷◌, String, any, find_first, not, ◌&&◌, ◌==◌,
  str_eq, if◌then◌else◌,
}
use invoice_ops.Schemas.Review.{
  ReviewAction, approve, return, escalate, ReviewDecision, same_action, same_review,
}
use invoice_ops.Schemas.Policy.{PolicyResult}
use invoice_ops.Ledger.{
  VersionPins, ActorType, system, human, policy_actor, AppendEvent, LedgerEvent, RunIdentity,
  LedgerError, Payload, decision, review, auto_granted, archived, rejected, dead_letter,
  redrive_request, json, Appended, staged, refused, append,
}
use invoice_ops.Workflow.{State, GraphRoute, approve_route, review_route, reject_route}

pub data InvoiceStatus : Type 0 where
  needs_review approved_status returned_status : InvoiceStatus
  other_status : String → InvoiceStatus

pub record InvoiceRow : Type 0 where
  pub id : ℕ
  pub status : InvoiceStatus

pub record Books : Type 0 where
  pub runs : List RunIdentity
  pub invoices : List InvoiceRow
  pub ledger : List LedgerEvent

pub data TransitionError : Type 0 where
  differs invoice_missing : TransitionError
  ledger_refused : LedgerError → TransitionError

pub data Transitioned : Type 0 where
  done : Books → Transitioned
  failed : TransitionError → Transitioned

-- The arguments of `append_once` but the state; the versions are its defaults.
pub record Transition : Type 0 where
  pub event_type : String
  pub node : String
  pub actor_type : ActorType
  pub actor_id : String
  pub payload : Payload
  pub invoice_status : Option InvoiceStatus

-- The run and the invoice of the state, with the settings of the writer and the values it draws.
pub record Scene : Type 0 where
  pub run_id : ℕ
  pub invoice_id : ℕ
  pub settings : VersionPins
  pub event_id : ℕ
  pub now : ℕ

abbrev pub same_number : Option ℕ → Option ℕ → Bool
same_number none none = true
same_number (some a) (some b) = a == b
same_number _ _ = false

abbrev pub same_flag : Bool → Bool → Bool
same_flag true b = b
same_flag false b = not b

-- Equality of the JSON objects.
unfoldable pub same_payload : Payload → Payload → Bool
same_payload (decision a b c d e f) (decision a' b' c' d' e' f') =
    a == a' && b == b' && same_action c c' && str_eq d d' && str_eq e e' && same_number f f'
same_payload (review a) (review b) = same_review a b
same_payload (auto_granted a) (auto_granted b) = str_eq a b
same_payload (archived a) (archived b) = str_eq a b
same_payload (rejected a) (rejected b) = str_eq a b
same_payload (dead_letter a b c d) (dead_letter a' b' c' d') =
    a == a' && b == b' && str_eq c c' && same_flag d d'
same_payload (redrive_request a b c d e) (redrive_request a' b' c' d' e') =
    str_eq a a' && str_eq b b' && str_eq c c' && d == d' && e == e'
same_payload (json a) (json b) = str_eq a b
same_payload _ _ = false

abbrev pub is_transition : Scene → String → LedgerEvent → Bool
is_transition scene event_type event =
    event.run_id == scene.run_id
    && event.invoice_id == scene.invoice_id
    && str_eq event.event_type event_type

abbrev pub committed_event : Scene → String → List LedgerEvent → Option LedgerEvent
committed_event scene event_type ledger = find_first (is_transition scene event_type) ledger

unfoldable pub update_invoices : ℕ → InvoiceStatus → List InvoiceRow → List InvoiceRow
update_invoices invoice_id status [] = []
update_invoices invoice_id status (row ∷ rows) =
    (if row.id == invoice_id then record row { status = status } else row)
    ∷ update_invoices invoice_id status rows

abbrev pub has_invoice : ℕ → List InvoiceRow → Bool
has_invoice invoice_id rows = any (λ (row : InvoiceRow). row.id == invoice_id) rows

abbrev pub command_of : Scene → Transition → AppendEvent
command_of scene transition = record {
  run_id = scene.run_id;
  invoice_id = scene.invoice_id;
  event_type = transition.event_type;
  actor_type = transition.actor_type;
  actor_id = transition.actor_id;
  payload = transition.payload;
  node = some transition.node;
  supersedes_id = none;
  versions = some (record {
    graph = none;
    model = some "not-applicable@v1";
    prompt = some "not-applicable@v1";
    policy = some "invoice-workflow@v1";
  });
}

abbrev pub written : Books → Appended → Transitioned
written books (refused e) = failed (ledger_refused e)
written books (staged event ledger) = done (record books { ledger = ledger })

abbrev pub append_transition : Scene → Transition → Books → Transitioned
append_transition scene transition books = written books (
    append scene.settings true scene.event_id scene.now (command_of scene transition) books.runs
      books.ledger)

abbrev pub write_with : Scene → Transition → Option InvoiceStatus → Books → Transitioned
write_with scene transition none books = append_transition scene transition books
write_with scene transition (some status) books =
    if not (has_invoice scene.invoice_id books.invoices)
    then failed invoice_missing
    else append_transition scene transition
        (record books { invoices = update_invoices scene.invoice_id status books.invoices })

abbrev pub append_unless : Scene → Transition → Books → Option LedgerEvent → Transitioned
append_unless scene transition books (some event) =
    if not (same_payload event.payload transition.payload) then failed differs else done books
append_unless scene transition books none =
    write_with scene transition transition.invoice_status books

-- `WorkflowTransitions.append_once`
unfoldable pub append_once : Scene → Transition → Books → Transitioned
append_once scene transition books =
    append_unless scene transition books (committed_event scene transition.event_type books.ledger)

-- The transitions of `LiveInvoiceServices`; an approval needs the policy decision of the state.
unfoldable pub auto_approval : PolicyResult → Transition
auto_approval policy = record {
  event_type = "approval.auto_granted";
  node = "AutoApprove";
  actor_type = policy_actor;
  actor_id = "invoiceops-auto-approval";
  payload = auto_granted policy.input_sha256;
  invoice_status = some approved_status;
}

abbrev pub status_for : ReviewAction → InvoiceStatus
status_for approve = approved_status
status_for return = returned_status
status_for escalate = needs_review

unfoldable pub human_review : ReviewDecision → Transition
human_review given = record {
  event_type = "review.recorded";
  node = "HumanReview";
  actor_type = human;
  actor_id = given.actor_id;
  payload = review given;
  invoice_status = some (status_for given.action);
}

abbrev pub route_text : Option GraphRoute → String
route_text none = "REVIEW"
route_text (some approve_route) = "AUTO_APPROVE"
route_text (some review_route) = "REVIEW"
route_text (some reject_route) = "REJECT"

unfoldable pub archive : State → Transition
archive state = record {
  event_type = "workflow.archived";
  node = "Archive";
  actor_type = system;
  actor_id = "invoiceops-workflow";
  payload = archived (route_text state.route);
  invoice_status = none;
}

unfoldable pub reject : Transition
reject = record {
  event_type = "workflow.rejected";
  node = "Reject";
  actor_type = system;
  actor_id = "invoiceops-workflow";
  payload = rejected "EXACT_DUPLICATE";
  invoice_status = none;
}
