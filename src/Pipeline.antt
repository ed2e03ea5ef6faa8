-- ===== src/Pipeline.antt =====
-- graph/live_services.py: the controls together, in the order validation, comparison, classification, policy and gate, and
-- what an automatic approval says about the invoice when each part of the request comes from its own control.
use invoice_ops.Prelude.{◌≡◌, ◌∙◌, sym, ap, true, false, some, is_empty, arith}
use invoice_ops.Schemas.Validation.{ValidationConfig, ValidationStatus}
use invoice_ops.Schemas.Validation
use invoice_ops.Schemas.Matching.{MatchConfig, MatchRequest, MatchStatus}
use invoice_ops.Schemas.Matching
use invoice_ops.Schemas.Exceptions.{
  TaxonomyConfig, TaxonomyRequest, TaxonomyResult, clean, is_exception, status_of,
  has_consistent_result,
}
use invoice_ops.Schemas.Policy.{PolicyConfig, PolicyRequest}
use invoice_ops.Schemas.Gate.{CompositeGateConfig}
use invoice_ops.Schemas.Digests.{Digests, UnicodeTables}
use invoice_ops.Validation.{validate_invoice}
use invoice_ops.Validation.Soundness.{IsSound, validate_invoice-pass_iff}
use invoice_ops.Matching.{match_invoice}
use invoice_ops.Matching.Guarantee.{PassGuarantee, match_invoice_pass}
use invoice_ops.Taxonomy.{classify_exceptions}
use invoice_ops.Taxonomy.Codes.{classify_exceptions-has_consistent_result}
use invoice_ops.Taxonomy.Clean.{IsClean, classify_exceptions-clean_iff}
use invoice_ops.Policy.{evaluate_policy, band_for}
use invoice_ops.Policy.Eligible.{OrderIsClear, AmountIsClear, evaluate_policy-eligible_iff}
use invoice_ops.Gate.{evaluate_composite_gate}
use invoice_ops.Gate.Routes.{Approved, evaluate_composite_gate-Approved_iff}

-- The configurations of the controls.
pub record Controls : Type 0 where
  pub validation : ValidationConfig
  pub matching : MatchConfig
  pub taxonomy : TaxonomyConfig
  pub policy : PolicyConfig
  pub gate : CompositeGateConfig

-- The parts of a policy request come from the controls.
pub record IsComputed (digests : Digests) (tables : UnicodeTables) (controls : Controls)
    (compared : MatchRequest) (classified : TaxonomyRequest) (request : PolicyRequest)
    : Type 0 where
  pub same_compared : compared.extraction ≡ request.extraction
  pub same_classified : classified.extraction ≡ some request.extraction
  pub validated :
      request.validation ≡ validate_invoice digests request.extraction controls.validation
  pub matched : match_invoice digests tables compared controls.matching ≡ some request.match
  pub taxonomy_given :
      request.taxonomy ≡ classify_exceptions digests tables classified controls.taxonomy

-- What an automatic approval guarantees.
pub record IsPayable (tables : UnicodeTables) (controls : Controls) (compared : MatchRequest)
    (classified : TaxonomyRequest) (request : PolicyRequest) : Type 0 where
  pub sound : IsSound controls.validation request.extraction
  pub matches : PassGuarantee tables compared controls.matching
  pub quiet : IsClean tables classified request.extraction
  pub order : OrderIsClear request.snapshot request.as_of controls.policy.max_po_age_days
  pub amount :
      AmountIsClear request.extraction.total_amount.value
        (band_for request.extraction.currency.value controls.policy)
  pub enabled : controls.gate.auto_approval_enabled ≡ true

validation_passes : (s : ValidationStatus) → Validation.is_pass s ≡ true → s ≡ ValidationStatus.pass
validation_passes s h = ground arith

match_passes : (s : MatchStatus) → Matching.is_pass s ≡ true → s ≡ MatchStatus.pass
match_passes s h = ground arith

quiet_status :
    (taxonomy : TaxonomyResult)
    → has_consistent_result taxonomy ≡ true
    → is_exception taxonomy.status ≡ false
    → is_empty taxonomy.unresolved ≡ true
    → taxonomy.status ≡ clean
unfolding has_consistent_result status_of
quiet_status taxonomy h k l = ground arith

-- If the composite gate approves a request whose parts come from the controls, under the policy decision for that
-- request, then the validation, the comparison and the classification each guarantee what they do, the order
-- and the amount are clear, and automatic approval is enabled.
pub Approved-IsPayable :
    (digests : Digests) (tables : UnicodeTables) (controls : Controls) (compared : MatchRequest)
    (classified : TaxonomyRequest) (request : PolicyRequest)
    → IsComputed digests tables controls compared classified request
    → Approved (
        evaluate_composite_gate digests request
          (evaluate_policy digests request controls.policy)
          controls.gate)
    → IsPayable tables controls compared classified request
Approved-IsPayable digests tables controls compared classified request c a =
    let (same, (eligible, enabled, high)) =
      (evaluate_composite_gate-Approved_iff digests request
          (evaluate_policy digests request controls.policy) controls.gate).0
        a in
    let clear = (evaluate_policy-eligible_iff digests request controls.policy).0 eligible in
    let (dup, calm, settled) = clear.taxonomy in
    let consistent =
      ap has_consistent_result c.taxonomy_given
      ∙ classify_exceptions-has_consistent_result digests tables classified controls.taxonomy in
    record {
      sound =
          (validate_invoice-pass_iff digests request.extraction controls.validation).0
            (sym (ap (λ r. r.status) c.validated) ∙ validation_passes _ clear.validated);
      matches =
          match_invoice_pass digests tables compared controls.matching request.match c.matched
            (match_passes _ clear.matched);
      quiet =
          (classify_exceptions-clean_iff digests tables classified controls.taxonomy
              request.extraction c.same_classified).0
            (sym (ap (λ r. r.status) c.taxonomy_given)
              ∙ quiet_status request.taxonomy consistent calm settled);
      order = clear.order;
      amount = clear.amount;
      enabled = enabled;
    }
