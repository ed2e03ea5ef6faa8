-- ===== src/Gate/Routes.antt =====
-- The routes that the gates give.
use invoice_ops.Prelude.{
  ◌≡◌, refl, ◌↔◌, Bool, true, false, Option, none, some, not, ◌&&◌, str_eq, arith, if◌then◌else◌,
  sym, ap, ◌∙◌, ◌++◌,
}
use invoice_ops.Decimal.{Decimal, lt, eq}
use invoice_ops.Schemas.Policy.{PolicyStatus, auto_approve_eligible, PolicyRequest, PolicyResult}
use invoice_ops.Schemas.Gate.{
  Route, auto_approve, GateReason, same_reason, same_route, CompositeGateConfig,
  CompositeGateResult, has_coherent_route, severity_term, GateConfig,
}
use invoice_ops.Schemas.Extraction.{InvoiceExtraction}
use invoice_ops.Schemas.Digests.{Digests}
use invoice_ops.Gate.{
  policy_term, composite_score, composite_reason, composite_result, route_of,
  evaluate_composite_gate, evaluate_provisional_gate, provisional_reason, is_low, minimum,
  header_confidences, all_line_confidences,
}
use invoice_ops.Gate.Confidence.{GatedFields, GatedFields-iff, AtLeast, minimum-low_iff}

-- The gate returned a result that approves the invoice without a person.
abbrev pub Approved : Option CompositeGateResult → Type 0
Approved none = ⊥
Approved (some result) = result.route ≡ auto_approve

route_iff :
    (decision : PolicyResult) (config : CompositeGateConfig) (value : Decimal)
    → (route_of (composite_reason decision config value) ≡ auto_approve) ↔ (
        (decision.status ≡ auto_approve_eligible)
        × (config.auto_approval_enabled ≡ true)
        × (lt value config.threshold ≡ false))
unfolding composite_reason
route_iff decision config value = ground arith

guarded_iff :
    {Q : Type 0} (same : Bool) (r : CompositeGateResult)
    → ((r.route ≡ auto_approve) ↔ Q)
    → Approved (if not same then none else some r) ↔ ((same ≡ true) × Q)
guarded_iff true r (f, g) = (λ h. (refl, f h), λ h. g h.1)
guarded_iff false r (f, g) = ground arith

-- The composite gate approves exactly when the decision belongs to the request, the policy found it eligible,
-- automatic approval is enabled, and the score is not below the threshold.
pub evaluate_composite_gate-Approved_iff :
    (digests : Digests) (request : PolicyRequest) (decision : PolicyResult)
    (config : CompositeGateConfig)
    → Approved (evaluate_composite_gate digests request decision config) ↔ (
        (str_eq decision.input_sha256 (digests.of_policy_request request) ≡ true)
        × ((decision.status ≡ auto_approve_eligible)
            × (config.auto_approval_enabled ≡ true)
            × (lt (composite_score request decision config) config.threshold ≡ false)))
unfolding evaluate_composite_gate composite_result
evaluate_composite_gate-Approved_iff digests request decision config =
    guarded_iff (str_eq decision.input_sha256 (digests.of_policy_request request)) _
      (route_iff decision config (composite_score request decision config))

-- The gate's table of terms and the validator's have the same numbers.
terms_agree : (status : PolicyStatus) → eq (policy_term status) (severity_term status) ≡ true
unfolding policy_term severity_term eq
terms_agree PolicyStatus.auto_approve_eligible = refl
terms_agree PolicyStatus.review = refl
terms_agree PolicyStatus.block = refl

eq_refl : (a : Decimal) → eq a a ≡ true
unfolding eq
eq_refl a = ground arith

same_reason_refl : (r : GateReason) → same_reason r r ≡ true
same_reason_refl r = ground arith

same_route_refl : (r : Route) → same_route r r ≡ true
same_route_refl r = ground arith

and_four : {a b c d : Bool} → a ≡ true → b ≡ true → c ≡ true → d ≡ true → (a && b && c && d) ≡ true
and_four h k l m = ground arith

result_coherent :
    (digests : Digests) (request : PolicyRequest) (decision : PolicyResult)
    (config : CompositeGateConfig)
    → has_coherent_route (composite_result digests request decision config) ≡ true
unfolding composite_result composite_reason composite_score has_coherent_route
result_coherent digests request decision config =
    and_four (terms_agree decision.status) (eq_refl (composite_score request decision config))
      (same_reason_refl _) (same_route_refl _)

guarded_some :
    {A : Type 0} (same : Bool) (r result : A)
    → (if not same then none else some r) ≡ some result
    → r ≡ result
guarded_some true r result h = ground arith
guarded_some false r result h = ground arith

-- A result of the composite gate passes the validator of `CompositeGateResult`: the score is that of the terms, and
-- the reason and the route follow from the policy status, the switch and the threshold.
pub evaluate_composite_gate-has_coherent_route :
    (digests : Digests) (request : PolicyRequest) (decision : PolicyResult)
    (config : CompositeGateConfig) (result : CompositeGateResult)
    → evaluate_composite_gate digests request decision config ≡ some result
    → has_coherent_route result ≡ true
unfolding evaluate_composite_gate
evaluate_composite_gate-has_coherent_route digests request decision config result h =
    let e = guarded_some (str_eq decision.input_sha256 (digests.of_policy_request request)) _ _ h in
    ap has_coherent_route (sym e) ∙ result_coherent digests request decision config

provisional_iff :
    (decision : PolicyResult) (config : GateConfig) (least : Option Decimal)
    → (route_of (provisional_reason decision config least) ≡ auto_approve) ↔ (
        (decision.status ≡ auto_approve_eligible)
        × (config.auto_approval_enabled ≡ true)
        × (is_low least config ≡ false))
unfolding provisional_reason
provisional_iff decision config none = ground arith
provisional_iff decision config (some least) = ground arith

-- The provisional gate approves exactly when the policy found the invoice eligible, automatic approval is enabled,
-- a field of the header has a value or there is a line, and no confidence is below the configured one: of the
-- header, those of the fields with a value; of the lines, those of all fields.
pub evaluate_provisional_gate-approved_iff :
    (digests : Digests) (extraction : InvoiceExtraction) (decision : PolicyResult)
    (config : GateConfig)
    → ((evaluate_provisional_gate digests extraction decision config).route ≡ auto_approve) ↔ (
        (decision.status ≡ auto_approve_eligible)
        × (config.auto_approval_enabled ≡ true)
        × (¬ GatedFields (λ confidence. ⊥) extraction)
        × GatedFields
            (λ confidence. lt confidence config.minimum_field_confidence ≡ false)
            extraction)
unfolding evaluate_provisional_gate
evaluate_provisional_gate-approved_iff digests extraction decision config =
    let confidences = header_confidences extraction ++ all_line_confidences extraction.line_items in
    let (f, g) = provisional_iff decision config (minimum confidences) in
    let (p, q) = minimum-low_iff config confidences in
    let (r, s) = GatedFields-iff (λ confidence. ⊥) extraction in
    let (r', s') = GatedFields-iff (AtLeast config.minimum_field_confidence) extraction in
    (
      λ h.
          let (status, enabled, low) = f h in
          (status, enabled, λ empty. (p low).0 (s empty), r' (p low).1),
      λ h. g (h.0, h.1, q (λ empty. h.2 (r empty), s' h.3)),
    )
