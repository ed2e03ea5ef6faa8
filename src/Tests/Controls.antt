-- ===== src/Tests/Controls.antt =====
-- The controls from the comparison to the gate at concrete data.
use invoice_ops.Prelude.{◌≡◌, refl, ◌↔◌, ◌≤◌, true, false, some, none, is_blank, split, join, show}
use invoice_ops.Decimal.{of_ℕ, le, lt, eq, add, sub, mul, abs, max_of, total, sum_from}
use invoice_ops.Schemas.Validation.{default_validation_config, ValidationStatus}
use invoice_ops.Schemas.Matching.{
  default_match_config, MatchResult, MatchStatus, has_consistent_decision,
}
use invoice_ops.Schemas.Exceptions.{
  default_taxonomy_config, TaxonomyRequest, clean, has_consistent_result,
}
use invoice_ops.Schemas.Policy.{
  default_policy_config, PolicyRequest, auto_approve_eligible, has_matching_decision,
}
use invoice_ops.Schemas.Gate.{
  default_composite_config, default_gate_config, auto_approve, has_coherent_route,
}
use invoice_ops.Validation.{
  validate_invoice, validate, required, nonnegative, positive_quantity, fractional_rate, line_math,
  line_tax, line_values, lines_from, complete_sum, compare_known, known_sum, rule_for, total_issues,
  compare,
}
use invoice_ops.Matching.{
  match_invoice, unmatched, match_snapshot, header_identities, header_numerics, verdict, matched,
}
use invoice_ops.Matching.Receipts.{
  received, receive_all, receive_lines, receive_line, amount_at, zero_totals, set_amount,
  received_value_from,
}
use invoice_ops.Matching.Lines.{
  line_checks, line_identity, price_check, quantity_check, receipt_check, line_total_check,
  line_numerics, invoice_line_at,
}
use invoice_ops.Matching.Checks.{
  identity, identity_status, text, numeric, numeric_matches, tolerance_of,
}
use invoice_ops.Decimal.Rounding.{quantize}
use invoice_ops.Matching.Verdict.{match_invoice-has_consistent_decision}
use invoice_ops.Matching.Guarantee.{PassGuarantee, match_invoice_pass}
use invoice_ops.Schemas.Validation.{is_pass}
use invoice_ops.Schemas.Matching
use invoice_ops.Prelude.{ap, arith, is_empty_text, str_eq}
use invoice_ops.Policy.Eligible.{TaxonomyIsClear}
use invoice_ops.Policy.{band_for}
use invoice_ops.Decimal.{min_of}
use invoice_ops.Decimal.Rounding.{
  abs_to, div_to, add_to, sub_to, mul_to, round_to, half_even, num_digits, digits_above,
}
use invoice_ops.Schemas.Gate.{score}
use invoice_ops.Schemas.Policy.{PolicyResult, band_of}
use invoice_ops.Gate.{
  minimum, minimum_from, policy_term, equal_checks, largest_gap, gap_ratio, known_ratio, ratio_of,
}
use invoice_ops.Taxonomy.{
  classify_exceptions, outcomes, findings_of, unresolved_of, has_finding, with_stale_signal,
  ordered_codes, result_status,
}
use invoice_ops.Taxonomy.Evidence.{
  iban, check_outcome, identity_outcomes, numeric_outcomes, issue_outcomes, match_outcomes,
  validation_outcomes, bank_outcome, bank_outcomes,
}
use invoice_ops.Taxonomy.Codes.{classify_exceptions-has_consistent_result}
use invoice_ops.Taxonomy.Clean.{IsClean, classify_exceptions-clean_iff}
use invoice_ops.Policy.{evaluate_policy, approval_tier}
use invoice_ops.Policy.Decision.{approval_tier_monotone, tier_rank}
use invoice_ops.Policy.Eligible.{
  IsClear, evaluate_policy-eligible_iff, evaluate_policy-has_matching_decision,
}
use invoice_ops.Gate.{
  evaluate_composite_gate, evaluate_provisional_gate, composite_score, composite_result,
  minimum_field_confidence, normalized_match_delta, header_confidences, line_confidences,
}
use invoice_ops.Gate.Confidence.{ReadFields, GatedFields, minimum_field_confidence-reaches_iff}
use invoice_ops.Gate.Score.{normalized_match_delta_bounds}
use invoice_ops.Gate.Routes.{
  Approved, evaluate_composite_gate-Approved_iff, evaluate_composite_gate-has_coherent_route,
  evaluate_provisional_gate-approved_iff,
}
use invoice_ops.Pipeline.{Controls, IsComputed, IsPayable, Approved-IsPayable}
use invoice_ops.Samples.{
  plain_digests, plain_tables, cents, sample_invoice, sample_snapshot, sample_match_request,
}

abbrev pub sample_match : MatchResult
sample_match =
    elim (match_invoice plain_digests plain_tables sample_match_request default_match_config) [
      | some result ↦ result
      | none ↦ unmatched plain_digests sample_match_request default_match_config
    ]

abbrev sample_taxonomy_request : TaxonomyRequest
sample_taxonomy_request = record {
  run_id = 1;
  invoice_id = 2;
  trace_id = "t";
  extraction = some sample_invoice;
  validation = some (validate_invoice plain_digests sample_invoice default_validation_config);
  match = some sample_match;
  vendor_bank_iban = some "DE00";
  exact_duplicate = false;
  near_duplicate = false;
  stale_po = false;
}

abbrev pub sample_request : PolicyRequest
sample_request = record {
  run_id = 1;
  invoice_id = 2;
  trace_id = "t";
  as_of = 110;
  extraction = sample_invoice;
  validation = validate_invoice plain_digests sample_invoice default_validation_config;
  match = sample_match;
  taxonomy =
      classify_exceptions plain_digests plain_tables sample_taxonomy_request
        default_taxonomy_config;
  snapshot = some sample_snapshot;
}

abbrev pub sample_controls : Controls
sample_controls = record {
  validation = default_validation_config;
  matching = default_match_config;
  taxonomy = default_taxonomy_config;
  policy = default_policy_config;
  gate = default_composite_config;
}

abbrev pub sample_decision : PolicyResult
sample_decision = evaluate_policy plain_digests sample_request default_policy_config

pub sample_matched :
    match_invoice plain_digests plain_tables sample_match_request default_match_config
    ≡ some sample_match
unfolding match_invoice match_snapshot received receive_all receive_lines receive_line amount_at
    zero_totals set_amount received_value_from line_checks
sample_matched = refl

sample_match_passes : sample_match.status ≡ MatchStatus.pass
unfolding match_invoice match_snapshot header_identities header_numerics verdict matched received
    receive_all receive_lines receive_line amount_at zero_totals set_amount received_value_from
    line_checks line_identity price_check quantity_check receipt_check line_total_check
    line_numerics invoice_line_at identity identity_status text numeric numeric_matches tolerance_of
    add sub mul abs le lt eq max_of is_blank split join show
sample_match_passes = refl

sample_validation_passes :
    (validate_invoice plain_digests sample_invoice default_validation_config).status
    ≡ ValidationStatus.pass
unfolding validate_invoice validate required nonnegative positive_quantity fractional_rate line_math
    line_tax line_values lines_from complete_sum compare_known known_sum rule_for total_issues
    compare quantize total sum_from is_blank add sub mul abs le lt eq
sample_validation_passes = refl

sample_taxonomy_clear : TaxonomyIsClear sample_request.taxonomy
unfolding classify_exceptions outcomes findings_of unresolved_of has_finding with_stale_signal
    ordered_codes result_status iban check_outcome identity_outcomes numeric_outcomes issue_outcomes
    match_outcomes validation_outcomes bank_outcome bank_outcomes is_empty_text match_invoice
    match_snapshot header_identities header_numerics verdict matched received receive_all
    receive_lines receive_line amount_at zero_totals set_amount received_value_from line_checks
    line_identity price_check quantity_check receipt_check line_total_check line_numerics
    invoice_line_at identity identity_status text numeric numeric_matches tolerance_of add sub mul
    abs le lt eq max_of is_blank split join show validate_invoice validate required nonnegative
    positive_quantity fractional_rate line_math line_tax line_values lines_from complete_sum
    compare_known known_sum rule_for total_issues compare quantize total sum_from
sample_taxonomy_clear = (refl, refl, refl)

sample-IsClear : IsClear sample_request default_policy_config
unfolding band_for le lt
sample-IsClear = record {
  order = (refl, refl, omega arith, omega arith);
  amount = (refl, refl, refl);
  taxonomy = sample_taxonomy_clear;
  validated = ap is_pass sample_validation_passes;
  matched = ap Matching.is_pass sample_match_passes;
}

sample_score :
    (decision : PolicyResult)
    → decision.status ≡ auto_approve_eligible
    → lt
        (composite_score sample_request decision default_composite_config)
        default_composite_config.threshold
      ≡ false
unfolding composite_score score policy_term minimum_field_confidence minimum minimum_from
    header_confidences line_confidences normalized_match_delta equal_checks largest_gap gap_ratio
    known_ratio ratio_of abs_to div_to add_to sub_to mul_to round_to half_even num_digits
    digits_above min_of match_invoice match_snapshot header_identities header_numerics verdict
    matched received receive_all receive_lines receive_line amount_at zero_totals set_amount
    received_value_from line_checks line_identity price_check quantity_check receipt_check
    line_total_check line_numerics invoice_line_at identity identity_status text numeric
    numeric_matches tolerance_of add sub mul abs le lt eq max_of is_blank split join show
sample_score decision h = rw h refl

sample_eligible :
    (evaluate_policy plain_digests sample_request default_policy_config).status
    ≡ auto_approve_eligible
sample_eligible =
    (evaluate_policy-eligible_iff plain_digests sample_request default_policy_config).1
      sample-IsClear

pub sample-Approved : Approved (
    evaluate_composite_gate plain_digests sample_request
      (evaluate_policy plain_digests sample_request default_policy_config)
      default_composite_config)
unfolding evaluate_policy
sample-Approved =
    (evaluate_composite_gate-Approved_iff plain_digests sample_request
        (evaluate_policy plain_digests sample_request default_policy_config)
        default_composite_config).1
      (refl, (sample_eligible, refl, sample_score _ sample_eligible))

sample-IsComputed :
    IsComputed plain_digests plain_tables sample_controls sample_match_request
      sample_taxonomy_request sample_request
sample-IsComputed = record {
  same_compared = refl;
  same_classified = refl;
  validated = refl;
  matched = sample_matched;
  taxonomy_given = refl;
}

Approved-IsPayable_example :
    IsPayable plain_tables sample_controls sample_match_request sample_taxonomy_request
      sample_request
Approved-IsPayable_example =
    Approved-IsPayable plain_digests plain_tables sample_controls sample_match_request
      sample_taxonomy_request sample_request sample-IsComputed sample-Approved

match_invoice-has_consistent_decision_example : has_consistent_decision sample_match ≡ true
match_invoice-has_consistent_decision_example =
    match_invoice-has_consistent_decision plain_digests plain_tables sample_match_request
      default_match_config sample_match sample_matched

match_invoice_pass_example : PassGuarantee plain_tables sample_match_request default_match_config
match_invoice_pass_example =
    match_invoice_pass plain_digests plain_tables sample_match_request default_match_config
      sample_match sample_matched sample_match_passes

classify_exceptions-has_consistent_result_example :
    has_consistent_result (
      classify_exceptions plain_digests plain_tables sample_taxonomy_request
        default_taxonomy_config)
    ≡ true
classify_exceptions-has_consistent_result_example =
    classify_exceptions-has_consistent_result plain_digests plain_tables sample_taxonomy_request
      default_taxonomy_config

classify_exceptions-clean_iff_example :
    ((classify_exceptions plain_digests plain_tables sample_taxonomy_request
        default_taxonomy_config).status
      ≡ clean)
    ↔ IsClean plain_tables sample_taxonomy_request sample_invoice
classify_exceptions-clean_iff_example =
    classify_exceptions-clean_iff plain_digests plain_tables sample_taxonomy_request
      default_taxonomy_config sample_invoice refl

evaluate_policy-eligible_iff_example :
    ((evaluate_policy plain_digests sample_request default_policy_config).status
      ≡ auto_approve_eligible)
    ↔ IsClear sample_request default_policy_config
evaluate_policy-eligible_iff_example =
    evaluate_policy-eligible_iff plain_digests sample_request default_policy_config

evaluate_policy-has_matching_decision_example :
    has_matching_decision (evaluate_policy plain_digests sample_request default_policy_config)
    ≡ true
evaluate_policy-has_matching_decision_example =
    evaluate_policy-has_matching_decision plain_digests sample_request default_policy_config

approval_tier_monotone_example :
    tier_rank (approval_tier (some (cents 2400)) (some (band_of "EUR" 10 50 100 250)))
    ≤ tier_rank (approval_tier (some (cents 6000)) (some (band_of "EUR" 10 50 100 250)))
unfolding lt le
approval_tier_monotone_example =
    approval_tier_monotone (cents 2400) (cents 6000) (some (band_of "EUR" 10 50 100 250)) refl refl

evaluate_composite_gate-Approved_iff_example :
    Approved (
      evaluate_composite_gate plain_digests sample_request sample_decision default_composite_config)
    ↔ ((str_eq sample_decision.input_sha256 (plain_digests.of_policy_request sample_request) ≡ true)
        × ((sample_decision.status ≡ auto_approve_eligible)
            × (default_composite_config.auto_approval_enabled ≡ true)
            × (lt
                  (composite_score sample_request sample_decision default_composite_config)
                  default_composite_config.threshold
                ≡ false)))
evaluate_composite_gate-Approved_iff_example =
    evaluate_composite_gate-Approved_iff plain_digests sample_request sample_decision
      default_composite_config

evaluate_composite_gate-has_coherent_route_example :
    has_coherent_route
      (composite_result plain_digests sample_request sample_decision default_composite_config)
    ≡ true
unfolding evaluate_composite_gate evaluate_policy
evaluate_composite_gate-has_coherent_route_example =
    evaluate_composite_gate-has_coherent_route plain_digests sample_request sample_decision
      default_composite_config
      (composite_result plain_digests sample_request sample_decision default_composite_config) refl

minimum_field_confidence-reaches_iff_example :
    (lt (minimum_field_confidence sample_invoice) (cents 95) ≡ false) ↔ (
      (¬ ReadFields (λ confidence. ⊥) sample_invoice)
      × ReadFields (λ confidence. lt confidence (cents 95) ≡ false) sample_invoice)
unfolding lt
minimum_field_confidence-reaches_iff_example =
    minimum_field_confidence-reaches_iff sample_invoice (cents 95) refl

normalized_match_delta_bounds_example :
    (le (of_ℕ 0) (normalized_match_delta sample_match (of_ℕ 1)) ≡ true)
    × (le (normalized_match_delta sample_match (of_ℕ 1)) (of_ℕ 1) ≡ true)
normalized_match_delta_bounds_example = normalized_match_delta_bounds sample_match (of_ℕ 1)

evaluate_provisional_gate-approved_iff_example :
    ((evaluate_provisional_gate plain_digests sample_invoice sample_decision
        default_gate_config).route
      ≡ auto_approve)
    ↔ ((sample_decision.status ≡ auto_approve_eligible)
        × (default_gate_config.auto_approval_enabled ≡ true)
        × (¬ GatedFields (λ confidence. ⊥) sample_invoice)
        × GatedFields
            (λ confidence. lt confidence default_gate_config.minimum_field_confidence ≡ false)
            sample_invoice)
evaluate_provisional_gate-approved_iff_example =
    evaluate_provisional_gate-approved_iff plain_digests sample_invoice sample_decision
      default_gate_config
