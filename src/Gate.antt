-- ===== src/Gate.antt =====
-- tools/gate.py: the confidence gates. `None` stands for the `ValueError` of `evaluate_composite_gate`. The
-- denominators are at least the configured floor, which the schema keeps positive.
pub mod Score
pub mod Confidence
pub mod Routes
use invoice_ops.Prelude.{
  Bool, true, false, Option, none, some, List, [], ◌∷◌, ◌++◌, ◌||◌, not, is_empty, is_some, str_eq,
  pos, if◌then◌else◌,
}
use invoice_ops.Decimal.{Decimal, of_ℕ, lt, max_of, min_of}
use invoice_ops.Decimal.Rounding.{abs_to, div_to}
use invoice_ops.Schemas.Extraction.{ExtractedField, InvoiceLineItem, InvoiceExtraction}
use invoice_ops.Schemas.Matching.{Rule, equal, at_most, is_unknown, NumericCheck, MatchResult}
use invoice_ops.Schemas.Policy.{PolicyStatus, is_eligible, PolicyRequest, PolicyResult}
use invoice_ops.Schemas.Gate.{
  Route, auto_approve, GateReason, policy, low_confidence, below_threshold, auto_disabled, eligible,
  is_eligible_reason, GateConfig, GateResult, CompositeGateConfig, precision, score,
  CompositeGateResult,
}
use invoice_ops.Schemas.Digests.{Digests}

-- The confidence of a field, where `field.value is not None`.
abbrev pub observed : {A : Type 0} → ExtractedField A → List Decimal
observed field = elim field.value [ none ↦ [] | some value ↦ field.confidence ∷ [] ]

-- The confidences of the header's fields that have a value.
unfoldable pub header_confidences : InvoiceExtraction → List Decimal
header_confidences extraction =
    observed extraction.vendor_name
    ++ (observed extraction.vendor_tax_id
        ++ (observed extraction.bank_account_iban
            ++ (observed extraction.invoice_number
                ++ (observed extraction.po_number
                    ++ (observed extraction.currency
                        ++ (observed extraction.invoice_date
                            ++ (observed extraction.due_date
                                ++ (observed extraction.subtotal
                                    ++ (observed extraction.tax_amount
                                        ++ observed extraction.total_amount)))))))))

-- The loop over the lines of `minimum_field_confidence`: the fields that have a value.
unfoldable pub line_confidences : List InvoiceLineItem → List Decimal
line_confidences [] = []
line_confidences (line ∷ lines) =
    observed line.description
    ++ (observed line.quantity
        ++ (observed line.unit_price
            ++ (observed line.tax_rate ++ (observed line.line_total ++ line_confidences lines))))

-- The loop over the lines of `evaluate_provisional_gate`: every field.
unfoldable pub all_line_confidences : List InvoiceLineItem → List Decimal
all_line_confidences [] = []
all_line_confidences (line ∷ lines) =
    line.description.confidence
    ∷ line.quantity.confidence
    ∷ line.unit_price.confidence
    ∷ line.tax_rate.confidence
    ∷ line.line_total.confidence
    ∷ all_line_confidences lines

-- `min(confidences) if confidences else None`
unfoldable pub minimum_from : Decimal → List Decimal → Decimal
unfolding min_of
minimum_from least [] = least
minimum_from least (x ∷ xs) = minimum_from (min_of least x) xs

unfoldable pub minimum : List Decimal → Option Decimal
minimum [] = none
minimum (x ∷ xs) = some (minimum_from x xs)

-- `minimum_field_confidence`
unfoldable pub minimum_field_confidence : InvoiceExtraction → Decimal
minimum_field_confidence extraction =
    elim (minimum (header_confidences extraction ++ line_confidences extraction.line_items)) [
      | none ↦ of_ℕ 0
      | some least ↦ least
    ]

-- `check.rule == "equal"`
abbrev pub is_equal : Rule → Bool
is_equal equal = true
is_equal at_most = false

-- `tuple(check for check in match.numeric_checks if check.rule == "equal")`
unfoldable pub equal_checks : List NumericCheck → List NumericCheck
equal_checks [] = []
equal_checks (check ∷ checks) =
    let rest = equal_checks checks in if is_equal check.rule then check ∷ rest else rest

-- `min(Decimal(1), abs(check.difference) / denominator)`
unfoldable pub ratio_of : Decimal → Decimal → Decimal → Decimal → Decimal
unfolding abs_to div_to min_of max_of
ratio_of floor expected actual difference =
    let denominator = max_of (max_of (abs_to precision expected) (abs_to precision actual)) floor in
    min_of (of_ℕ 1) (div_to precision (abs_to precision difference) denominator)

-- The ratio of a check that is known and has its three values.
unfoldable pub known_ratio :
    Decimal → Bool → Option Decimal → Option Decimal → Option Decimal → Option Decimal
known_ratio floor false (some expected) (some actual) (some difference) =
    some (ratio_of floor expected actual difference)
known_ratio floor _ _ _ _ = none

unfoldable pub gap_ratio : Decimal → NumericCheck → Option Decimal
gap_ratio floor check =
    known_ratio floor (is_unknown check.status) check.expected check.actual check.difference

-- The loop over the checks: a check that is not known gives 1 at once.
unfoldable pub largest_gap : Decimal → Decimal → List NumericCheck → Decimal
largest_gap floor largest [] = largest
largest_gap floor largest (check ∷ checks) = elim (gap_ratio floor check) [
  | none ↦ of_ℕ 1
  | some ratio ↦ largest_gap floor (max_of largest ratio) checks
]

-- `normalized_match_delta`
unfoldable pub normalized_match_delta : MatchResult → Decimal → Decimal
normalized_match_delta match floor =
    let checks = equal_checks match.numeric_checks in
    if not match.snapshot_found || is_empty checks
    then of_ℕ 1
    else largest_gap floor (of_ℕ 0) checks

-- The table `policy_term` of `evaluate_composite_gate`.
unfoldable pub policy_term : PolicyStatus → Decimal
policy_term PolicyStatus.auto_approve_eligible = of_ℕ 1
policy_term PolicyStatus.review = record { coefficient = pos 5; places = 1 }
policy_term PolicyStatus.block = of_ℕ 0

-- The score of a request under a policy decision.
unfoldable pub composite_score : PolicyRequest → PolicyResult → CompositeGateConfig → Decimal
composite_score request decision config =
    score config (minimum_field_confidence request.extraction)
      (normalized_match_delta request.match config.delta_denominator_floor)
      (policy_term decision.status)

unfoldable pub composite_reason : PolicyResult → CompositeGateConfig → Decimal → GateReason
composite_reason decision config value =
    if not (is_eligible decision.status)
    then policy
    else if not config.auto_approval_enabled
    then auto_disabled
    else if lt value config.threshold
    then below_threshold
    else eligible

abbrev pub route_of : GateReason → Route
route_of reason = if is_eligible_reason reason then auto_approve else Route.review

-- The result of `evaluate_composite_gate`, and its guard.
unfoldable pub composite_result :
    Digests → PolicyRequest → PolicyResult → CompositeGateConfig → CompositeGateResult
composite_result digests request decision config =
    let value = composite_score request decision config in
    let reason = composite_reason decision config value in
    record {
      route = route_of reason;
      reason = reason;
      score = value;
      minimum_field_confidence = minimum_field_confidence request.extraction;
      normalized_match_delta = normalized_match_delta request.match config.delta_denominator_floor;
      policy_severity_term = policy_term decision.status;
      policy_status = decision.status;
      extraction_sha256 = digests.of_extraction request.extraction;
      match_sha256 = digests.of_match request.match;
      policy_sha256 = digests.of_policy decision;
      config_sha256 = digests.of_composite_config config;
      config = config;
    }

unfoldable pub evaluate_composite_gate :
    Digests → PolicyRequest → PolicyResult → CompositeGateConfig → Option CompositeGateResult
evaluate_composite_gate digests request decision config =
    if not (str_eq decision.input_sha256 (digests.of_policy_request request))
    then none
    else some (composite_result digests request decision config)

-- `minimum is None or minimum < rules.minimum_field_confidence`
abbrev pub is_low : Option Decimal → GateConfig → Bool
is_low none config = true
is_low (some least) config = lt least config.minimum_field_confidence

unfoldable pub provisional_reason : PolicyResult → GateConfig → Option Decimal → GateReason
provisional_reason decision config least =
    if not (is_eligible decision.status)
    then policy
    else if not config.auto_approval_enabled
    then auto_disabled
    else if is_low least config
    then low_confidence
    else eligible

-- `evaluate_provisional_gate`
unfoldable pub evaluate_provisional_gate :
    Digests → InvoiceExtraction → PolicyResult → GateConfig → GateResult
evaluate_provisional_gate digests extraction decision config =
    let least =
      minimum (header_confidences extraction ++ all_line_confidences extraction.line_items) in
    let reason = provisional_reason decision config least in
    record {
      route = route_of reason;
      minimum_observed_confidence = least;
      reason = reason;
      extraction_sha256 = digests.of_extraction extraction;
      policy_sha256 = digests.of_policy decision;
      config_sha256 = digests.of_gate_config config;
      config = config;
    }
