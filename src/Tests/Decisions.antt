-- ===== src/Tests/Decisions.antt =====
-- The decision service and the worker that settles decisions, at concrete data.
use invoice_ops.Prelude.{String, ◌≡◌, refl, true, some, none, List, [], ◌∷◌}
use invoice_ops.Schemas.Review.{approve, DecisionResponse, queued_for_resume}
use invoice_ops.Ledger.{
  LedgerEvent, Payload, human, archived, review, append, append_to, resolve, can_supersede,
}
use invoice_ops.Worker.{paused, completed}
use invoice_ops.Workflow
use invoice_ops.Decisions.FourEyes.{IsFourEyes, serve_all-IsFourEyes}
use invoice_ops.Decisions.Repeat.{again, submit_repeats}
use invoice_ops.Decisions.Record.{IsRecorded, traces, serve_all-IsRecorded}
use invoice_ops.Decisions.Signed.{empty-IsFourEyes, serve_all-is_signed_off}
use invoice_ops.Decisions.Settlement.{
  Resume, Receipt, settled, process, process_joined, is_signed_off, resume_paused, settle_locked,
  has_evidence, complete_run, find_decision, find_proposal, review_of,
}
use invoice_ops.Decisions.Again.{process_repeats}
use invoice_ops.Decisions.{
  response_of, row_of, submit, submit_as, submit_new, decide, permit, permit_proposal,
  permit_signoff, write, set_status, decisions_of, serve, serve_all,
}
use invoice_ops.Decisions.Rows.{
  in_review, resolved, analyst, manager, actor, opened, RunRow, ExceptionRow, Tables, Call,
  accepted, rejected, Submitted,
}

abbrev sample_tables : Tables
sample_tables = record {
  runs =
      record {
        id = 1;
        invoice_id = 2;
        graph_version = "invoice-v1";
        status = paused;
        completed_at = none;
      }
      ∷ [];
  exceptions = record { id = 3; run_id = 1; invoice_id = 2; status = opened } ∷ [];
  decisions = [];
  ledger = [];
}

abbrev proposal : Call
proposal = record {
  is_configured = true;
  decision_id = 10;
  event_id = 20;
  now = 100;
  exception_id = 3;
  request = record {
    action = approve;
    rationale = "The price was agreed";
    reason_code = "PRICE_AGREED";
    proposal_id = none;
  };
  role = analyst;
  idempotency_key = "key-0001";
}

abbrev signoff : Call
signoff = record proposal {
  decision_id = 11;
  event_id = 21;
  now = 200;
  request = record {
    action = approve;
    rationale = "Confirmed";
    reason_code = "PRICE_AGREED";
    proposal_id = some 10;
  };
  role = manager;
  idempotency_key = "key-0002";
}

abbrev response_in : Submitted → List DecisionResponse
response_in (accepted response next) = response ∷ []
response_in (rejected e) = []

signoff_accepted :
    response_in (submit signoff (serve proposal sample_tables))
    ≡ (record {
      decision_id = 11;
      exception_id = 3;
      run_id = 1;
      invoice_id = 2;
      action = approve;
      actor_id = actor manager;
      stage = queued_for_resume;
      proposal_id = some 10;
    })
      ∷ []
unfolding submit submit_as serve submit_new decide permit permit_proposal decisions_of write append
    append_to resolve can_supersede set_status permit_signoff
signoff_accepted = refl

abbrev sample_run : RunRow
sample_run = record {
  id = 1;
  invoice_id = 2;
  graph_version = "invoice-v1";
  status = paused;
  completed_at = none;
}

abbrev sample_exception : ExceptionRow
sample_exception = record { id = 3; run_id = 1; invoice_id = 2; status = opened }

abbrev both : List Call
both = proposal ∷ signoff ∷ []

serve_all-IsFourEyes_example : IsFourEyes (serve_all both sample_tables)
serve_all-IsFourEyes_example =
    serve_all-IsFourEyes both sample_tables (empty-IsFourEyes sample_tables refl)

proposal_accepted :
    submit proposal sample_tables
    ≡ accepted
        (response_of (row_of proposal sample_exception sample_run))
        (serve proposal sample_tables)
unfolding submit submit_as serve submit_new decide permit permit_proposal decisions_of write append
    append_to resolve can_supersede set_status
proposal_accepted = refl

submit_repeats_example :
    submit (again proposal 50 60 300) (serve_all (signoff ∷ []) (serve proposal sample_tables))
    ≡ accepted
        (response_of (row_of proposal sample_exception sample_run))
        (serve_all (signoff ∷ []) (serve proposal sample_tables))
submit_repeats_example =
    submit_repeats proposal (signoff ∷ []) sample_tables
      (response_of (row_of proposal sample_exception sample_run)) (serve proposal sample_tables) 50
      60 300 proposal_accepted

empty-IsRecorded : IsRecorded sample_tables
unfolding IsRecorded traces
empty-IsRecorded = refl

serve_all-IsRecorded_example : IsRecorded (serve_all both sample_tables)
serve_all-IsRecorded_example = serve_all-IsRecorded both sample_tables empty-IsRecorded

abbrev signed_tables : Tables
signed_tables = record sample_tables {
  exceptions = record sample_exception { status = in_review } ∷ [];
  decisions =
      row_of signoff sample_exception sample_run ∷ row_of proposal sample_exception sample_run ∷ [];
}

signoff_found :
    find_decision 11 (serve_all both sample_tables)
    ≡ some (row_of signoff sample_exception sample_run)
unfolding submit submit_as serve serve_all submit_new decide permit permit_proposal decisions_of
    write append append_to resolve can_supersede set_status permit_signoff
signoff_found = refl

serve_all-is_signed_off_example :
    is_signed_off
      (row_of signoff sample_exception sample_run)
      (find_proposal (some 10) (serve_all both sample_tables))
    ≡ true
serve_all-is_signed_off_example =
    serve_all-is_signed_off both sample_tables 11 (row_of signoff sample_exception sample_run) refl
      signoff_found refl

-- A workflow that completes and records its review.
abbrev sample_event : String → Payload → LedgerEvent
sample_event event_type payload = record {
  id = 30;
  run_id = 1;
  invoice_id = 2;
  sequence = 1;
  event_type = event_type;
  actor_type = human;
  actor_id = "";
  payload = payload;
  node = none;
  supersedes_id = none;
  versions = record {
    graph_version = "";
    model_version = "";
    prompt_version = "";
    policy_version = "";
  };
  created_at = 0;
}

abbrev sample_resume : Resume
sample_resume run_id decision ledger = record {
  result = record {
    status = Workflow.completed;
    run_id = run_id;
    invoice_id = 2;
    review_result = some decision;
  };
  ledger =
      sample_event "workflow.archived" (archived "REVIEW")
      ∷ sample_event "review.recorded" (review decision)
      ∷ ledger;
}

abbrev sample_receipt : Receipt
sample_receipt = record { decision_id = 11; run_id = 1; status = resolved }

abbrev settled_store : Tables
settled_store = record signed_tables {
  runs = record sample_run { status = completed; completed_at = some 300 } ∷ [];
  exceptions = record sample_exception { status = resolved } ∷ [];
  ledger = (sample_resume 1 (review_of (row_of signoff sample_exception sample_run)) []).ledger;
}

process_settles : process sample_resume 300 11 signed_tables ≡ settled sample_receipt settled_store
unfolding process process_joined is_signed_off resume_paused settle_locked has_evidence set_status
    complete_run
process_settles = refl

process_repeats_example :
    process sample_resume 400 11 settled_store ≡ settled sample_receipt settled_store
process_repeats_example =
    process_repeats sample_resume sample_resume 300 400 11 signed_tables sample_receipt
      settled_store process_settles
