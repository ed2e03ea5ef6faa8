-- ===== src/Live.antt =====
-- graph/live_services.py: the requests that the workflow's services build, the checks of committed evidence, and the
-- nodes from extraction to gate. The newest committed event of each kind is a cache: what a node finds there it
-- checks against the present inputs and gives back. The lookup of the order and the search for similar invoices are
-- parameters. Spans, traces and the audit events that the nodes append are not modelled.
pub mod Triaging
pub mod Payloads
pub mod Evidence
pub mod Requests
pub mod Replay
pub mod Outcome
pub mod Transitions
pub mod Once
pub mod Triage
pub mod Queued
use invoice_ops.Prelude.{
  ℕ, Bool, true, false, Option, none, some, is_some, List, [], ◌∷◌, String, not, ◌&&◌, ◌||◌, ◌==◌,
  str_eq, is_empty_text, if◌then◌else◌,
}
use invoice_ops.Schemas.Extraction.{InvoiceExtraction}
use invoice_ops.Schemas.Erp.{OrderStatus, open_order, partially_received, closed, cancelled}
use invoice_ops.Schemas.Validation.{ValidationResult}
use invoice_ops.Schemas.Matching.{ErpSnapshot, MatchRequest, MatchResult}
use invoice_ops.Schemas.Exceptions.{TaxonomyRequest, TaxonomyResult}
use invoice_ops.Schemas.Policy.{PolicyRequest, PolicyResult}
use invoice_ops.Schemas.Gate.{GateOutcome, GateResult, CompositeGateResult, provisional, composite}
use invoice_ops.Schemas.Digests.{Digests, UnicodeTables}
use invoice_ops.Validation.{validate_invoice}
use invoice_ops.Matching.{match_invoice}
use invoice_ops.Taxonomy.{classify_exceptions}
use invoice_ops.Policy.{evaluate_policy, po_age_exceeded}
use invoice_ops.Gate.{evaluate_composite_gate}
use invoice_ops.Pipeline.{Controls}
use invoice_ops.Workflow.{State, ExtractionOutcome}
use invoice_ops.Live.Evidence.{
  SimilarityResult, Live, Cache, NodeError, replay_evidence, invalid_model, unmatched_line,
  foreign_decision, Step, ok, fails, ◌>>=◌, required, with_digest, validated, is_of_validation,
  is_of_match, provenance_of, has_consistent_provenance, same_order_status, is_text,
  is_order_status, is_of_snapshot, has_same_invoice,
}

-- The payload of a committed extraction.
pub record CommittedExtraction : Type 0 where
  pub content_hash : String
  pub run_id : ℕ
  pub invoice_id : ℕ
  pub trace_id : String
  pub outcome : ExtractionOutcome

abbrev pub same_workflow : State → CommittedExtraction → Bool
same_workflow state cached =
    cached.run_id == state.run_id
    && cached.invoice_id == state.invoice_id
    && str_eq cached.trace_id state.trace_id

-- `LiveInvoiceServices.extract`, with the extraction agent and the newest committed extraction.
unfoldable pub extract :
    (State → ExtractionOutcome) → Option CommittedExtraction → State → Step ExtractionOutcome
extract run_agent none state = ok (run_agent state)
extract run_agent (some cached) state =
    if not (str_eq cached.content_hash state.content_hash)
    then fails (replay_evidence "Extraction source changed after committed evidence")
    else if not (same_workflow state cached)
    then fails (replay_evidence "Extraction identity differs from the workflow")
    else ok cached.outcome

-- `LiveInvoiceServices.validate`
abbrev pub checked_validation :
    Live → InvoiceExtraction → Option ValidationResult → Step ValidationResult
checked_validation live extraction none =
    ok (validate_invoice live.digests extraction live.controls.validation)
checked_validation live extraction (some result) =
    with_digest "Validation input changed after committed evidence" result.input_sha256
      (live.digests.of_extraction extraction) result

unfoldable pub validate : Live → Cache → State → Step ValidationResult
validate live cache state =
    required "Extraction is unavailable for workflow node" state.extraction >>= λ extraction.
    checked_validation live extraction cache.validation

-- The snapshot of the order, where the invoice names one.
abbrev pub snapshot_for : Live → Option String → Option ErpSnapshot
snapshot_for live none = none
snapshot_for live (some number) = if is_empty_text number then none else live.find_snapshot number

abbrev pub snapshot_digest : Digests → Option ErpSnapshot → Option String
snapshot_digest digests none = none
snapshot_digest digests (some snapshot) = some (digests.of_snapshot snapshot)

abbrev pub same_text : Option String → Option String → Bool
same_text none none = true
same_text (some a) (some b) = str_eq a b
same_text _ _ = false

abbrev pub match_request : State → InvoiceExtraction → Option ErpSnapshot → MatchRequest
match_request state extraction snapshot = record {
  run_id = state.run_id;
  invoice_id = state.invoice_id;
  trace_id = state.trace_id;
  extraction = extraction;
  snapshot = snapshot;
}

abbrev pub computed_match : Option MatchResult → Step MatchResult
computed_match none = fails unmatched_line
computed_match (some result) = ok result

abbrev pub checked_match :
    Live → State → InvoiceExtraction → Option ErpSnapshot → Option MatchResult → Step MatchResult
checked_match live state extraction snapshot none = computed_match (
    match_invoice live.digests live.tables (match_request state extraction snapshot)
      live.controls.matching)
checked_match live state extraction snapshot (some result) =
    with_digest "Matching extraction input changed after committed evidence"
      result.extraction_sha256 (live.digests.of_extraction extraction) result
    >>= λ result.
        if not (same_text result.snapshot_sha256 (snapshot_digest live.digests snapshot))
        then fails (replay_evidence "ERP snapshot changed after committed matching evidence")
        else ok result

-- `LiveInvoiceServices.match`
unfoldable pub match : Live → Cache → State → Step (Option ErpSnapshot × MatchResult)
match live cache state =
    required "Extraction is unavailable for workflow node" state.extraction >>= λ extraction.
    let snapshot = snapshot_for live extraction.po_number.value in
    checked_match live state extraction snapshot cache.matching >>= λ result. ok (snapshot, result)

abbrev pub vendor_iban : Option ErpSnapshot → Option String
vendor_iban none = none
vendor_iban (some snapshot) = snapshot.vendor.bank_account_iban

-- The classification's request in `LiveInvoiceServices.policy`.
abbrev pub taxonomy_request :
    Live
    → State
    → InvoiceExtraction
    → ValidationResult
    → MatchResult
    → SimilarityResult
    → TaxonomyRequest
taxonomy_request live state extraction validation result similarity = record {
  run_id = state.run_id;
  invoice_id = state.invoice_id;
  trace_id = state.trace_id;
  extraction = some extraction;
  validation = some validation;
  match = some result;
  vendor_bank_iban = vendor_iban state.snapshot;
  exact_duplicate = false;
  near_duplicate = similarity.is_near_duplicate;
  stale_po = po_age_exceeded state.snapshot state.as_of live.controls.policy.max_po_age_days;
}

abbrev pub policy_request :
    State → InvoiceExtraction → ValidationResult → MatchResult → TaxonomyResult → PolicyRequest
policy_request state extraction validation result taxonomy = record {
  run_id = state.run_id;
  invoice_id = state.invoice_id;
  trace_id = state.trace_id;
  as_of = state.as_of;
  extraction = extraction;
  validation = validation;
  match = result;
  taxonomy = taxonomy;
  snapshot = state.snapshot;
}

-- A committed result, or the one that is computed.
abbrev pub or_computed : {A : Type 0} → Option A → A → A
or_computed none a = a
or_computed (some cached) a = cached

-- The end of `LiveInvoiceServices.policy`, for the decision.
abbrev pub decide_with :
    Live
    → SimilarityResult
    → TaxonomyResult
    → PolicyRequest
    → PolicyResult
    → Step (SimilarityResult × TaxonomyResult × PolicyResult)
decide_with live similarity taxonomy asked decision =
    with_digest "Policy input changed after committed evidence" decision.input_sha256
      (live.digests.of_policy_request asked) (similarity, taxonomy, decision)

-- `LiveInvoiceServices.policy` for the classification of a request.
abbrev pub classify_with :
    Live
    → Cache
    → State
    → InvoiceExtraction
    → ValidationResult
    → MatchResult
    → SimilarityResult
    → TaxonomyRequest
    → TaxonomyResult
    → Step (SimilarityResult × TaxonomyResult × PolicyResult)
classify_with live cache state extraction validation result similarity request taxonomy =
    with_digest "Taxonomy input changed after committed evidence" taxonomy.input_sha256
      (live.digests.of_taxonomy_request request)
      (policy_request state extraction validation result taxonomy)
    >>= λ asked. validated (has_same_invoice live.digests) asked >>= λ asked.
        decide_with live similarity taxonomy asked
          (or_computed cache.policy (evaluate_policy live.digests asked live.controls.policy))

-- `LiveInvoiceServices.policy` from the similarity on.
abbrev pub policy_from :
    Live
    → Cache
    → State
    → InvoiceExtraction
    → ValidationResult
    → MatchResult
    → SimilarityResult
    → Step (SimilarityResult × TaxonomyResult × PolicyResult)
policy_from live cache state extraction validation result similarity =
    with_digest "Similarity input changed after committed evidence" similarity.extraction_sha256
      (live.digests.of_extraction extraction)
      (taxonomy_request live state extraction validation result similarity)
    >>= λ request. validated (has_consistent_provenance live.digests) request >>= λ request.
        classify_with live cache state extraction validation result similarity request (
          or_computed cache.taxonomy
            (classify_exceptions live.digests live.tables request live.controls.taxonomy))

-- `LiveInvoiceServices.policy`
unfoldable pub policy :
    Live → Cache → State → Step (SimilarityResult × TaxonomyResult × PolicyResult)
policy live cache state =
    required "Extraction is unavailable for workflow node" state.extraction >>= λ extraction.
    required "Validation is unavailable for workflow node" state.validation >>= λ validation.
    required "Matching is unavailable for workflow node" state.match >>= λ result.
    policy_from live cache state extraction validation result
      (or_computed cache.similarity (live.detect extraction))

-- `_gate_request`
unfoldable pub gate_request : Live → State → Step PolicyRequest
gate_request live state =
    required "Taxonomy is unavailable for confidence gating" state.taxonomy >>= λ taxonomy.
    required "Extraction is unavailable for workflow node" state.extraction >>= λ extraction.
    required "Validation is unavailable for workflow node" state.validation >>= λ validation.
    required "Matching is unavailable for workflow node" state.match >>= λ result.
    validated (has_same_invoice live.digests)
      (policy_request state extraction validation result taxonomy)

abbrev pub with_match : Live → MatchResult → GateOutcome → Step GateOutcome
with_match live result (provisional outcome) = ok (provisional outcome)
with_match live result (composite outcome) =
    with_digest "Gate matching input changed after committed evidence" outcome.match_sha256
      (live.digests.of_match result) (composite outcome)

abbrev pub gate_extraction : GateOutcome → String
gate_extraction (provisional outcome) = outcome.extraction_sha256
gate_extraction (composite outcome) = outcome.extraction_sha256

abbrev pub gate_policy : GateOutcome → String
gate_policy (provisional outcome) = outcome.policy_sha256
gate_policy (composite outcome) = outcome.policy_sha256

-- `evaluate_composite_gate`, whose guard raises.
abbrev pub computed_gate : Option CompositeGateResult → Step GateOutcome
computed_gate none = fails foreign_decision
computed_gate (some outcome) = ok (composite outcome)

abbrev pub checked_gate :
    Live → PolicyRequest → PolicyResult → Option GateOutcome → Step GateOutcome
checked_gate live request decision none =
    computed_gate (evaluate_composite_gate live.digests request decision live.controls.gate)
checked_gate live request decision (some outcome) =
    with_digest "Gate extraction input changed after committed evidence" (gate_extraction outcome)
      (live.digests.of_extraction request.extraction) outcome
    >>= λ outcome.
        with_digest "Gate policy input changed after committed evidence" (gate_policy outcome)
          (live.digests.of_policy decision) outcome
        >>= λ outcome. with_match live request.match outcome

-- `PolicyResult.model_validate`
abbrev pub decided : Option PolicyResult → Step PolicyResult
decided none = fails invalid_model
decided (some decision) = ok decision

-- `LiveInvoiceServices.gate`
unfoldable pub gate : Live → Cache → State → Step GateOutcome
gate live cache state = gate_request live state >>= λ request.
    decided state.policy_result >>= λ decision.
    with_digest "Gate policy inputs input changed after committed evidence" decision.input_sha256
      (live.digests.of_policy_request request) decision
    >>= λ decision. checked_gate live request decision cache.gate

-- The nodes one after another, each with those of the updates of graph/invoice_nodes.py that the next ones read.
unfoldable pub run_controls : Live → Cache → State → Step State
run_controls live cache state = validate live cache state >>= λ validation.
    let first = record state { validation = some validation } in
    match live cache first >>= λ found.
    let second = record first { snapshot = found.0; match = some found.1 } in
    policy live cache second >>= λ given.
    let third = record second {
      similarity = some given.0.json;
      taxonomy = some given.1;
      policy_result = some given.2;
    } in
    gate live cache third >>= λ outcome. ok (record third { gate_result = some outcome })
