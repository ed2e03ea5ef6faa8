-- ===== src/Live/Evidence.antt =====
-- graph/live_services.py, schemas/exceptions.py and schemas/policy.py: the committed evidence, the steps of a node that may
-- fail, and the validators of the requests.
use invoice_ops.Prelude.{
  Bool, true, false, Option, none, some, is_some, String, not, ◌&&◌, ◌||◌, str_eq, if◌then◌else◌,
}
use invoice_ops.Schemas.Extraction.{InvoiceExtraction}
use invoice_ops.Schemas.Erp.{OrderStatus, open_order, partially_received, closed, cancelled}
use invoice_ops.Schemas.Validation.{ValidationResult}
use invoice_ops.Schemas.Matching.{ErpSnapshot, MatchResult}
use invoice_ops.Schemas.Exceptions.{TaxonomyRequest, TaxonomyResult}
use invoice_ops.Schemas.Policy.{PolicyRequest, PolicyResult}
use invoice_ops.Schemas.Gate.{GateOutcome}
use invoice_ops.Schemas.Digests.{Digests, UnicodeTables}
use invoice_ops.Pipeline.{Controls}

-- What is read of a `SimilarityResult`, and its JSON.
pub record SimilarityResult : Type 0 where
  pub is_near_duplicate : Bool
  pub extraction_sha256 : String
  pub json : String

-- `LiveInvoiceServices`: its controls and the parameters.
pub record Live : Type 0 where
  pub digests : Digests
  pub tables : UnicodeTables
  pub controls : Controls
  pub find_snapshot : String → Option ErpSnapshot
  pub detect : InvoiceExtraction → SimilarityResult

-- What `EventCache.read` gives for the run of the state: the payload of the newest event of each kind.
pub record Cache : Type 0 where
  pub validation : Option ValidationResult
  pub matching : Option MatchResult
  pub similarity : Option SimilarityResult
  pub taxonomy : Option TaxonomyResult
  pub policy : Option PolicyResult
  pub gate : Option GateOutcome

pub data NodeError : Type 0 where
  replay_evidence : String → NodeError
  invalid_model unmatched_line foreign_decision : NodeError

pub data Step (A : Type 0) : Type 0 where
  ok : A → Step A
  fails : NodeError → Step A

infixl 1 ◌>>=◌
abbrev pub ◌>>=◌ : {A B : Type 0} → Step A → (A → Step B) → Step B
(ok a) >>= f = f a
(fails e) >>= f = fails e

-- `_required_extraction` and its kin.
abbrev pub required : {A : Type 0} → String → Option A → Step A
required message none = fails (replay_evidence message)
required message (some a) = ok a

-- `_require_digest`: the value goes on where the digests agree.
abbrev pub with_digest : {A : Type 0} → String → String → String → A → Step A
with_digest message expected actual a =
    if not (str_eq expected actual) then fails (replay_evidence message) else ok a

-- A model whose validator accepts it.
abbrev pub validated : {A : Type 0} → (A → Bool) → A → Step A
validated accepts a = if accepts a then ok a else fails invalid_model

-- schemas/exceptions.py `TaxonomyRequest.consistent_provenance`
abbrev pub is_of_validation : Digests → InvoiceExtraction → Option ValidationResult → Bool
is_of_validation digests extraction none = true
is_of_validation digests extraction (some result) =
    str_eq result.input_sha256 (digests.of_extraction extraction)

abbrev pub is_of_match : Digests → InvoiceExtraction → Option MatchResult → Bool
is_of_match digests extraction none = true
is_of_match digests extraction (some result) =
    str_eq result.extraction_sha256 (digests.of_extraction extraction)

unfoldable pub provenance_of : Digests → TaxonomyRequest → Option InvoiceExtraction → Bool
provenance_of digests request none =
    (request.exact_duplicate || request.near_duplicate || request.stale_po)
    && not (is_some request.validation || is_some request.match)
provenance_of digests request (some extraction) =
    is_of_validation digests extraction request.validation
    && is_of_match digests extraction request.match

abbrev pub has_consistent_provenance : Digests → TaxonomyRequest → Bool
has_consistent_provenance digests request = provenance_of digests request request.extraction

abbrev pub same_order_status : OrderStatus → OrderStatus → Bool
same_order_status open_order open_order = true
same_order_status partially_received partially_received = true
same_order_status closed closed = true
same_order_status cancelled cancelled = true
same_order_status _ _ = false

-- `a == b` for an optional value and a value that is there.
abbrev pub is_text : Option String → String → Bool
is_text none b = false
is_text (some a) b = str_eq a b

abbrev pub is_order_status : Option OrderStatus → OrderStatus → Bool
is_order_status none b = false
is_order_status (some a) b = same_order_status a b

-- The checks of the snapshot against the comparison.
abbrev pub is_of_snapshot : Digests → MatchResult → Option ErpSnapshot → Bool
is_of_snapshot digests result none = not result.snapshot_found
is_of_snapshot digests result (some snapshot) =
    result.snapshot_found
    && is_text result.snapshot_sha256 (digests.of_snapshot snapshot)
    && is_order_status result.po_status snapshot.purchase_order.status
    && is_text result.po_number snapshot.purchase_order.po_number

-- schemas/policy.py `PolicyRequest.evidence_is_same_invoice`
unfoldable pub has_same_invoice : Digests → PolicyRequest → Bool
has_same_invoice digests request =
    let extraction_hash = digests.of_extraction request.extraction in
    str_eq request.validation.input_sha256 extraction_hash
    && str_eq request.match.extraction_sha256 extraction_hash
    && is_text request.taxonomy.extraction_sha256 extraction_hash
    && is_text request.taxonomy.validation_sha256 (digests.of_validation request.validation)
    && is_text request.taxonomy.match_sha256 (digests.of_match request.match)
    && is_of_snapshot digests request.match request.snapshot
