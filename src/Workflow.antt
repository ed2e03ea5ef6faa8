-- ===== src/Workflow.antt =====
-- graph/state.py `InvoiceGraphState`, graph/invoice_nodes.py and graph/invoice.py: the workflow of one invoice. The JSON
-- that the state holds is the value it was dumped from. The services are a parameter; what they write elsewhere is
-- not modelled, and neither are their faults. The graph library runs the node, then takes the edge.
pub mod Progress
pub mod Safety
use invoice_ops.Prelude.{
  ℕ, zero, suc, Bool, true, false, Option, none, some, is_some, List, [], ◌∷◌, ◌++◌, String, any,
  map, not, ◌&&◌, ◌||◌, ◌==◌, if◌then◌else◌,
}
use invoice_ops.Prelude.Sets.{distinct}
use invoice_ops.Schemas.Extraction.{InvoiceExtraction}
use invoice_ops.Schemas.Validation.{ValidationResult}
use invoice_ops.Schemas.Matching.{ErpSnapshot, MatchResult}
use invoice_ops.Schemas.Exceptions.{TaxonomyResult}
use invoice_ops.Schemas.Policy.{PolicyResult}
use invoice_ops.Schemas.Review.{ReviewDecision}
use invoice_ops.Schemas.Gate
use invoice_ops.Schemas.Gate.{GateOutcome, outcome_route}

pub data Node : Type 0 where
  ingest extract validate match_three_way policy gate auto_approve exception_triage human_review :
      Node
  archive reject : Node

abbrev pub node_rank : Node → ℕ
node_rank ingest = 0
node_rank extract = 1
node_rank validate = 2
node_rank match_three_way = 3
node_rank policy = 4
node_rank gate = 5
node_rank auto_approve = 6
node_rank exception_triage = 7
node_rank human_review = 8
node_rank archive = 9
node_rank reject = 10

pub data GraphStatus : Type 0 where
  queued running awaiting_review completed rejected : GraphStatus

pub data GraphRoute : Type 0 where
  approve_route review_route reject_route : GraphRoute

pub data ExtractionOutcome : Type 0 where
  success : InvoiceExtraction → ExtractionOutcome
  escalation : String → ExtractionOutcome

pub record State : Type 0 where
  pub run_id : ℕ
  pub invoice_id : ℕ
  pub trace_id : String
  pub as_of : ℕ
  pub raw_ref : String
  pub content_hash : String
  pub content_type : String
  pub duplicate : Bool
  pub status : GraphStatus
  pub route : Option GraphRoute
  pub extraction_outcome : Option ExtractionOutcome
  pub extraction : Option InvoiceExtraction
  pub validation : Option ValidationResult
  pub match : Option MatchResult
  pub snapshot : Option ErpSnapshot
  pub similarity : Option String
  pub taxonomy : Option TaxonomyResult
  pub policy_result : Option PolicyResult
  pub gate_result : Option GateOutcome
  pub triage : Option String
  pub review : Option ReviewDecision
  pub completed_nodes : List Node

abbrev pub has_node : Node → List Node → Bool
has_node node nodes = any (λ (n : Node). node_rank n == node_rank node) nodes

abbrev pub is_completed : GraphStatus → Bool
is_completed completed = true
is_completed _ = false

abbrev pub is_rejected : GraphStatus → Bool
is_rejected rejected = true
is_rejected _ = false

-- `InvoiceGraphState.valid_progress`
unfoldable pub has_valid_progress : State → Bool
has_valid_progress state =
    distinct (map node_rank state.completed_nodes)
    && (not (is_completed state.status) || has_node archive state.completed_nodes)
    && (not (is_rejected state.status) || has_node reject state.completed_nodes)

-- `InvoiceServices`: what the nodes read of them.
pub record Services : Type 0 where
  pub run_extract : State → ExtractionOutcome
  pub run_validate : State → ValidationResult
  pub run_match : State → Option ErpSnapshot × MatchResult
  pub run_policy : State → Option String × TaxonomyResult × PolicyResult
  pub run_gate : State → GateOutcome
  pub run_triage : State → String

-- `outcome.extraction if isinstance(outcome, ExtractionSuccess) else None`
abbrev pub extraction_of : ExtractionOutcome → Option InvoiceExtraction
extraction_of (success extraction) = some extraction
extraction_of (escalation reason) = none

-- `result.route`
abbrev pub graph_route : Gate.Route → GraphRoute
graph_route Gate.auto_approve = approve_route
graph_route Gate.review = review_route

-- `_completed`
abbrev pub with_node : Node → State → List Node
with_node node state = state.completed_nodes ++ node ∷ []

-- The methods of `InvoiceNodes`; the decision is what `human_review` is resumed with.
unfoldable pub run_node : Services → ReviewDecision → Node → State → State
run_node services decision ingest state = record state {
  status = running;
  route = if state.duplicate then some reject_route else none;
  completed_nodes = with_node ingest state;
}
run_node services decision extract state =
    let outcome = services.run_extract state in
    record state {
      extraction_outcome = some outcome;
      extraction = extraction_of outcome;
      completed_nodes = with_node extract state;
    }
run_node services decision validate state = record state {
  validation = some (services.run_validate state);
  completed_nodes = with_node validate state;
}
run_node services decision match_three_way state =
    let (snapshot, result) = services.run_match state in
    record state {
      snapshot = snapshot;
      match = some result;
      completed_nodes = with_node match_three_way state;
    }
run_node services decision policy state =
    let (similarity, taxonomy, result) = services.run_policy state in
    record state {
      similarity = similarity;
      taxonomy = some taxonomy;
      policy_result = some result;
      completed_nodes = with_node policy state;
    }
run_node services decision gate state =
    let result = services.run_gate state in
    record state {
      gate_result = some result;
      route = some (graph_route (outcome_route result));
      completed_nodes = with_node gate state;
    }
run_node services decision auto_approve state = record state {
  completed_nodes = with_node auto_approve state;
}
run_node services decision exception_triage state = record state {
  status = awaiting_review;
  route = some review_route;
  triage = some (services.run_triage state);
  completed_nodes = with_node exception_triage state;
}
run_node services decision human_review state = record state {
  review = some decision;
  status = running;
  completed_nodes = with_node human_review state;
}
run_node services decision archive state = record state {
  status = completed;
  completed_nodes = with_node archive state;
}
run_node services decision reject state = record state {
  status = rejected;
  completed_nodes = with_node reject state;
}

abbrev pub is_approve_route : Option GraphRoute → Bool
is_approve_route (some approve_route) = true
is_approve_route _ = false

-- The edges of `build_invoice_graph`; `none` is END.
unfoldable pub next_node : Node → State → Option Node
next_node ingest state = some (if state.duplicate then reject else extract)
next_node extract state = some (if is_some state.extraction then validate else exception_triage)
next_node validate state = some match_three_way
next_node match_three_way state = some policy
next_node policy state = some gate
next_node gate state =
    some (if is_approve_route state.route then auto_approve else exception_triage)
next_node auto_approve state = some archive
next_node exception_triage state = some human_review
next_node human_review state = some archive
next_node archive state = none
next_node reject state = none

-- Where a run stands: the node that comes next, and the state.
pub record Position : Type 0 where
  pub pending : Option Node
  pub state : State

-- The position after a node.
unfoldable pub visit : Services → ReviewDecision → Node → State → Position
visit services decision node state =
    let after = run_node services decision node state in
    record { pending = next_node node after; state = after }

-- A step of the graph: it stays at its end.
unfoldable pub advance : Services → ReviewDecision → Position → Position
advance services decision position = elim position.pending [
  | none ↦ position
  | some node ↦ visit services decision node position.state
]

-- The position after a number of steps, each with the decision that a review is given there.
unfoldable pub run : Services → (ℕ → ReviewDecision) → ℕ → Position → Position
run services decisions zero position = position
run services decisions (suc n) position =
    advance services (decisions n) (run services decisions n position)
