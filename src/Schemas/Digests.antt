-- ===== src/Schemas/Digests.antt =====
-- schemas/common.py `model_digest`: the SHA-256 of a model's canonical JSON. The serialiser and the hash
-- belong to third-party packages and the standard library, so the digest of each model is a function
-- that the components take as a parameter; nothing is assumed of it. So are the Unicode tables
-- behind `unicodedata.normalize`, `str.casefold` and `str.upper`.
use invoice_ops.Prelude.{String}
use invoice_ops.Schemas.Extraction.{InvoiceExtraction}
use invoice_ops.Schemas.Validation.{ValidationConfig, ValidationResult}
use invoice_ops.Schemas.Matching.{ErpSnapshot, MatchConfig, MatchResult}
use invoice_ops.Schemas.Exceptions.{TaxonomyConfig, TaxonomyRequest, TaxonomyResult}
use invoice_ops.Schemas.Policy.{PolicyConfig, PolicyRequest, PolicyResult}
use invoice_ops.Schemas.Gate.{GateConfig, CompositeGateConfig, GateOutcome}

pub record Digests : Type 0 where
  pub of_extraction : InvoiceExtraction → String
  pub of_snapshot : ErpSnapshot → String
  pub of_validation : ValidationResult → String
  pub of_validation_config : ValidationConfig → String
  pub of_match : MatchResult → String
  pub of_match_config : MatchConfig → String
  pub of_taxonomy_request : TaxonomyRequest → String
  pub of_taxonomy : TaxonomyResult → String
  pub of_taxonomy_config : TaxonomyConfig → String
  pub of_policy_request : PolicyRequest → String
  pub of_policy : PolicyResult → String
  pub of_policy_config : PolicyConfig → String
  pub of_gate : GateOutcome → String
  pub of_gate_config : GateConfig → String
  pub of_composite_config : CompositeGateConfig → String
  -- `sha256(text.encode("utf-8")).hexdigest()`
  pub of_text : String → String

pub record UnicodeTables : Type 0 where
  -- `unicodedata.normalize("NFKC", value).casefold()`
  pub fold : String → String
  -- `value.upper()`
  pub upper : String → String
