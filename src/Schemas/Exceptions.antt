-- ===== src/Schemas/Exceptions.antt =====
-- schemas/exceptions.py: the exception taxonomy and its evidence references.
use invoice_ops.Prelude.{
  ℕ, Bool, true, false, Option, List, [], ◌∷◌, String, any, is_empty, ◌&&◌, ◌==◌, if◌then◌else◌,
}
use invoice_ops.Schemas.Extraction.{InvoiceExtraction}
use invoice_ops.Schemas.Validation.{ValidationResult}
use invoice_ops.Schemas.Matching.{MatchResult}

pub data ExceptionCode : Type 0 where
  dup_exact dup_near missing_po bank_change ccy_mm price_mm qty_mm tax_err math_err : ExceptionCode
  stale_po : ExceptionCode

-- The place of a code in `CODE_ORDER`.
abbrev pub rank : ExceptionCode → ℕ
rank dup_exact = 0
rank dup_near = 1
rank missing_po = 2
rank bank_change = 3
rank ccy_mm = 4
rank price_mm = 5
rank qty_mm = 6
rank tax_err = 7
rank math_err = 8
rank stale_po = 9

abbrev pub same_code : ExceptionCode → ExceptionCode → Bool
same_code a b = rank a == rank b

-- `CODE_ORDER`
abbrev pub code_order : List ExceptionCode
code_order =
    dup_exact ∷ dup_near ∷ missing_po ∷ bank_change ∷ ccy_mm ∷ price_mm ∷ qty_mm ∷ tax_err
    ∷ math_err ∷ stale_po ∷ []

pub record TaxonomyConfig : Type 0 where
  pub version : String

abbrev pub default_taxonomy_config : TaxonomyConfig
default_taxonomy_config = record { version = "exception-taxonomy@v1" }

pub record TaxonomyRequest : Type 0 where
  pub run_id : ℕ
  pub invoice_id : ℕ
  pub trace_id : String
  pub extraction : Option InvoiceExtraction
  pub validation : Option ValidationResult
  pub match : Option MatchResult
  pub vendor_bank_iban : Option String
  pub exact_duplicate : Bool
  pub near_duplicate : Bool
  pub stale_po : Bool

pub data EvidenceSource : Type 0 where
  ingest similarity match_identity match_numeric validation erp policy : EvidenceSource

pub record EvidenceRef : Type 0 where
  pub source : EvidenceSource
  pub field : String
  pub line_number : Option ℕ
  pub source_index : Option ℕ

pub record ExceptionFinding : Type 0 where
  pub code : ExceptionCode
  pub evidence : EvidenceRef

pub data TaxonomyStatus : Type 0 where
  clean exception unclassified : TaxonomyStatus

abbrev pub is_exception : TaxonomyStatus → Bool
is_exception exception = true
is_exception _ = false

pub record TaxonomyResult : Type 0 where
  pub status : TaxonomyStatus
  pub codes : List ExceptionCode
  pub findings : List ExceptionFinding
  pub unresolved : List EvidenceRef
  pub input_sha256 : String
  pub extraction_sha256 : Option String
  pub validation_sha256 : Option String
  pub match_sha256 : Option String
  pub vendor_bank_sha256 : Option String
  pub config_sha256 : String
  pub config : TaxonomyConfig

-- `any(finding.code == code for finding in findings)`
unfoldable pub has_code : ExceptionCode → List ExceptionFinding → Bool
has_code code findings = any (λ (finding : ExceptionFinding). same_code finding.code code) findings

-- `tuple(code for code in CODE_ORDER if code in found)`, over any part of the order.
unfoldable pub codes_in : List ExceptionCode → List ExceptionFinding → List ExceptionCode
unfolding has_code
codes_in [] findings = []
codes_in (code ∷ rest) findings =
    let later = codes_in rest findings in if has_code code findings then code ∷ later else later

unfoldable pub status_of : List ExceptionFinding → List EvidenceRef → TaxonomyStatus
status_of findings unresolved =
    if is_empty findings then (if is_empty unresolved then clean else unclassified) else exception

abbrev pub same_codes : List ExceptionCode → List ExceptionCode → Bool
same_codes [] [] = true
same_codes (a ∷ as') (b ∷ bs) = same_code a b && same_codes as' bs
same_codes _ _ = false

abbrev pub same_status : TaxonomyStatus → TaxonomyStatus → Bool
same_status clean clean = true
same_status exception exception = true
same_status unclassified unclassified = true
same_status _ _ = false

-- `TaxonomyResult.consistent_result`
unfoldable pub has_consistent_result : TaxonomyResult → Bool
unfolding codes_in status_of
has_consistent_result result =
    same_codes result.codes (codes_in code_order result.findings)
    && same_status result.status (status_of result.findings result.unresolved)
