-- ===== src/Tests/Flow.antt =====
-- The workflow at concrete data.
use invoice_ops.Prelude.{ℕ, ◌≡◌, refl, ◌⊎◌, true, false, some, none, []}
use invoice_ops.Schemas.Validation.{default_validation_config}
use invoice_ops.Schemas.Gate.{composite, default_composite_config}
use invoice_ops.Validation.{validate_invoice}
use invoice_ops.Gate.{composite_result}
use invoice_ops.Schemas.Review.{ReviewDecision, approve}
use invoice_ops.Workflow.{
  State, Services, success, queued, ingest, Position, run, has_valid_progress,
}
use invoice_ops.Workflow.Progress.{IsFresh}
use invoice_ops.Workflow.Safety.{IsJustified, IsRejected, run-has_valid_progress, run_ends}
use invoice_ops.Samples.{plain_digests, sample_invoice, sample_snapshot}
use invoice_ops.Tests.Controls.{sample_match, sample_request, sample_decision}

abbrev pub sample_state : State
sample_state = record {
  run_id = 1;
  invoice_id = 2;
  trace_id = "t";
  as_of = 110;
  raw_ref = "raw";
  content_hash = "hash";
  content_type = "application/pdf";
  duplicate = false;
  status = queued;
  route = none;
  extraction_outcome = none;
  extraction = none;
  validation = none;
  match = none;
  snapshot = none;
  similarity = none;
  taxonomy = none;
  policy_result = none;
  gate_result = none;
  triage = none;
  review = none;
  completed_nodes = [];
}

abbrev sample_services : Services
sample_services = record {
  run_extract = λ s. success sample_invoice;
  run_validate = λ s. validate_invoice plain_digests sample_invoice default_validation_config;
  run_match = λ s. (some sample_snapshot, sample_match);
  run_policy = λ s. (none, sample_request.taxonomy, sample_decision);
  run_gate = λ s.
      composite
        (composite_result plain_digests sample_request sample_decision default_composite_config);
  run_triage = λ s. "{}";
}

abbrev sample_review : ℕ → ReviewDecision
sample_review n = record {
  action = approve;
  actor_id = "u";
  rationale = "fine";
  reason_code = "OK";
}

abbrev sample_position : Position
sample_position = record { pending = some ingest; state = sample_state }

sample_position-IsFresh : IsFresh sample_position
sample_position-IsFresh = (refl, refl, refl)

run-has_valid_progress_example :
    has_valid_progress (run sample_services sample_review 7 sample_position).state ≡ true
run-has_valid_progress_example =
    run-has_valid_progress sample_services sample_review 7 sample_position sample_position-IsFresh

run_ends_example :
    ((run sample_services sample_review 9 sample_position).pending ≡ none)
    × (IsJustified (run sample_services sample_review 9 sample_position).state
        ⊎ IsRejected (run sample_services sample_review 9 sample_position).state)
run_ends_example = run_ends sample_services sample_review sample_position sample_position-IsFresh
