-- ===== src/Live/Triage.antt =====
-- graph/live_services.py `LiveInvoiceServices.triage`: its transaction, which queues the exception of a run once and
-- commits the prepared triage. What the agent drafts before the transaction is an argument: the payload as JSON text,
-- and the versions of the agent, where it was asked. The newest exception comes first.
use invoice_ops.Prelude.{
  ℕ, Bool, true, Option, none, some, is_some, List, ◌∷◌, String, any, not, ◌&&◌, ◌==◌,
  if◌then◌else◌,
}
use invoice_ops.Schemas.Queue.{QueueConfig, QueueProjection}
use invoice_ops.Schemas.Digests.{Digests}
use invoice_ops.Queue.{project_exception}
use invoice_ops.Ledger.{
  AppendEvent, LedgerEvent, LedgerError, RunIdentity, Payload, json, agent, system, ActorType,
  Appended, staged, refused, append,
}
use invoice_ops.Workflow.{State}
use invoice_ops.Live.Transitions.{
  InvoiceRow, needs_review, Scene, committed_event, update_invoices, has_invoice,
}

pub record QueuedException : Type 0 where
  pub id : ℕ
  pub run_id : ℕ
  pub invoice_id : ℕ
  pub projection : QueueProjection

pub record Desk : Type 0 where
  pub runs : List RunIdentity
  pub invoices : List InvoiceRow
  pub exceptions : List QueuedException
  pub ledger : List LedgerEvent

-- The model and the prompt of a triage result.
pub record AgentVersions : Type 0 where
  pub model_version : String
  pub prompt_version : String

-- What stands before the transaction, and the values it draws.
pub record Prepared : Type 0 where
  pub payload : String
  pub versions : Option AgentVersions
  pub exception_id : ℕ
  pub clock : ℕ

pub data TriageError : Type 0 where
  run_missing invalid_evidence invoice_missing : TriageError
  ledger_refused : LedgerError → TriageError

pub data Triaged : Type 0 where
  triaged : String → Desk → Triaged
  failed : TriageError → Triaged

-- The row of the run that is locked.
abbrev pub has_run : Scene → List RunIdentity → Bool
has_run scene runs =
    any (λ (row : RunIdentity). row.run == scene.run_id && row.invoice_id == scene.invoice_id) runs

abbrev pub is_queued_for : Scene → QueuedException → Bool
is_queued_for scene row = row.run_id == scene.run_id && row.invoice_id == scene.invoice_id

abbrev pub has_exception : Scene → List QueuedException → Bool
has_exception scene exceptions = any (is_queued_for scene) exceptions

abbrev pub projection_of : Digests → QueueConfig → Prepared → State → String → QueueProjection
projection_of digests rules prepared state payload =
    project_exception digests prepared.clock state.taxonomy state.policy_result state.gate_result
      (not (is_some state.extraction)) payload rules

-- The exception is inserted where the run has none.
unfoldable pub queue_once :
    Digests
    → QueueConfig
    → Scene
    → Prepared
    → State
    → String
    → List QueuedException
    → List QueuedException
queue_once digests rules scene prepared state payload exceptions =
    if has_exception scene exceptions
    then exceptions
    else (record {
      id = prepared.exception_id;
      run_id = scene.run_id;
      invoice_id = scene.invoice_id;
      projection = projection_of digests rules prepared state payload;
    })
      ∷ exceptions

abbrev pub triage_actor : Option AgentVersions → ActorType
triage_actor none = system
triage_actor (some versions) = agent

abbrev pub triage_actor_id : Option AgentVersions → String
triage_actor_id none = "invoiceops-queue-projection"
triage_actor_id (some versions) = "invoiceops-triage"

abbrev pub model_used : Option AgentVersions → String
model_used none = "not-applicable@v1"
model_used (some versions) = versions.model_version

abbrev pub prompt_used : Option AgentVersions → String
prompt_used none = "not-applicable@v1"
prompt_used (some versions) = versions.prompt_version

abbrev pub triage_event : QueueConfig → Scene → Prepared → AppendEvent
triage_event rules scene prepared = record {
  run_id = scene.run_id;
  invoice_id = scene.invoice_id;
  event_type = "triage.prepared";
  actor_type = triage_actor prepared.versions;
  actor_id = triage_actor_id prepared.versions;
  payload = json prepared.payload;
  node = some "ExceptionTriage";
  supersedes_id = none;
  versions = some (record {
    graph = none;
    model = some (model_used prepared.versions);
    prompt = some (prompt_used prepared.versions);
    policy = some rules.version;
  });
}

-- The payload that a committed event holds.
abbrev pub committed_text : Payload → Option String
committed_text (json text) = some text
committed_text _ = none

abbrev pub triage_written : Prepared → Desk → Appended → Triaged
triage_written prepared desk (refused e) = failed (ledger_refused e)
triage_written prepared desk (staged event ledger) =
    triaged prepared.payload (record desk { ledger = ledger })

-- The queue's part of the transaction.
abbrev pub queued : Digests → QueueConfig → Scene → Prepared → State → String → Desk → Desk
queued digests rules scene prepared state payload desk = record desk {
  exceptions = queue_once digests rules scene prepared state payload desk.exceptions;
}

-- The transaction where no triage is committed.
unfoldable pub triage_new : Digests → QueueConfig → Scene → Prepared → State → Desk → Triaged
triage_new digests rules scene prepared state desk =
    let next = queued digests rules scene prepared state prepared.payload desk in
    if not (has_invoice scene.invoice_id desk.invoices)
    then failed invoice_missing
    else triage_written prepared
        (record next { invoices = update_invoices scene.invoice_id needs_review desk.invoices })
        (append scene.settings true scene.event_id scene.now (triage_event rules scene prepared)
          desk.runs desk.ledger)

-- The transaction where a triage is committed with this payload.
abbrev pub triage_known :
    Digests → QueueConfig → Scene → Prepared → State → Desk → Option String → Triaged
triage_known digests rules scene prepared state desk none = failed invalid_evidence
triage_known digests rules scene prepared state desk (some payload) =
    triaged payload (queued digests rules scene prepared state payload desk)

abbrev pub triage_with :
    Digests → QueueConfig → Scene → Prepared → State → Desk → Option LedgerEvent → Triaged
triage_with digests rules scene prepared state desk none =
    triage_new digests rules scene prepared state desk
triage_with digests rules scene prepared state desk (some event) =
    triage_known digests rules scene prepared state desk (committed_text event.payload)

-- `LiveInvoiceServices.triage`
unfoldable pub triage : Digests → QueueConfig → Scene → Prepared → State → Desk → Triaged
triage digests rules scene prepared state desk =
    if not (has_run scene desk.runs)
    then failed run_missing
    else triage_with digests rules scene prepared state desk
        (committed_event scene "triage.prepared" desk.ledger)
