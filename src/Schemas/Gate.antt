-- ===== src/Schemas/Gate.antt =====
-- schemas/gate.py: the composite and the provisional confidence gates.
use invoice_ops.Prelude.{ℕ, Bool, true, false, Option, String, pos, not, ◌&&◌, if◌then◌else◌}
use invoice_ops.Decimal.{Decimal, of_ℕ, le, lt, eq}
use invoice_ops.Decimal.Rounding.{add_to, sub_to, mul_to}
use invoice_ops.Schemas.Policy.{PolicyStatus, is_eligible}

pub data Route : Type 0 where
  auto_approve review : Route

abbrev pub is_auto_approve : Route → Bool
is_auto_approve auto_approve = true
is_auto_approve Route.review = false

pub data GateReason : Type 0 where
  policy low_confidence below_threshold auto_disabled eligible : GateReason

abbrev pub is_eligible_reason : GateReason → Bool
is_eligible_reason eligible = true
is_eligible_reason _ = false

pub record GateConfig : Type 0 where
  pub version : String
  pub auto_approval_enabled : Bool
  pub minimum_field_confidence : Decimal

-- The defaults of `GateConfig`.
abbrev pub default_gate_config : GateConfig
default_gate_config = record {
  version = "provisional-gate@v1";
  auto_approval_enabled = false;
  minimum_field_confidence = record { coefficient = pos 99; places = 2 };
}

pub record GateResult : Type 0 where
  pub route : Route
  pub minimum_observed_confidence : Option Decimal
  pub reason : GateReason
  pub extraction_sha256 : String
  pub policy_sha256 : String
  pub config_sha256 : String
  pub config : GateConfig

pub record CompositeGateConfig : Type 0 where
  pub version : String
  pub weight_field : Decimal
  pub weight_match : Decimal
  pub weight_policy : Decimal
  pub threshold : Decimal
  pub delta_denominator_floor : Decimal
  pub auto_approval_enabled : Bool

-- The defaults of `CompositeGateConfig`.
abbrev pub default_composite_config : CompositeGateConfig
default_composite_config = record {
  version = "composite-gate@v2";
  weight_field = record { coefficient = pos 50; places = 2 };
  weight_match = record { coefficient = pos 30; places = 2 };
  weight_policy = record { coefficient = pos 20; places = 2 };
  threshold = record { coefficient = pos 95; places = 2 };
  delta_denominator_floor = of_ℕ 1;
  auto_approval_enabled = true;
}

-- `context.prec = 28`
abbrev pub precision : ℕ
precision = 28

-- The bounds `ge=0, le=1` of a field.
abbrev pub in_unit : Decimal → Bool
in_unit a = le (of_ℕ 0) a && le a (of_ℕ 1)

-- `weights_sum_to_one`
unfoldable pub weights_sum_to_one : CompositeGateConfig → Bool
unfolding add_to eq
weights_sum_to_one config =
    eq
      (add_to precision (add_to precision config.weight_field config.weight_match)
        config.weight_policy)
      (of_ℕ 1)

-- `CompositeGateConfig.score`
unfoldable pub score : CompositeGateConfig → Decimal → Decimal → Decimal → Decimal
unfolding add_to sub_to mul_to
score config field_term match_delta policy_term =
    add_to precision
      (add_to precision (mul_to precision config.weight_field field_term)
        (mul_to precision config.weight_match (sub_to precision (of_ℕ 1) match_delta)))
      (mul_to precision config.weight_policy policy_term)

pub record CompositeGateResult : Type 0 where
  pub route : Route
  pub reason : GateReason
  pub score : Decimal
  pub minimum_field_confidence : Decimal
  pub normalized_match_delta : Decimal
  pub policy_severity_term : Decimal
  pub policy_status : PolicyStatus
  pub extraction_sha256 : String
  pub match_sha256 : String
  pub policy_sha256 : String
  pub config_sha256 : String
  pub config : CompositeGateConfig

pub data GateOutcome : Type 0 where
  provisional : GateResult → GateOutcome
  composite : CompositeGateResult → GateOutcome

-- `outcome.route`
abbrev pub outcome_route : GateOutcome → Route
outcome_route (provisional result) = result.route
outcome_route (composite result) = result.route

-- The table `expected_term` of `CompositeGateResult.coherent_route`.
unfoldable pub severity_term : PolicyStatus → Decimal
severity_term PolicyStatus.auto_approve_eligible = of_ℕ 1
severity_term PolicyStatus.review = record { coefficient = pos 5; places = 1 }
severity_term PolicyStatus.block = of_ℕ 0

abbrev pub same_reason : GateReason → GateReason → Bool
same_reason policy policy = true
same_reason low_confidence low_confidence = true
same_reason below_threshold below_threshold = true
same_reason auto_disabled auto_disabled = true
same_reason eligible eligible = true
same_reason _ _ = false

abbrev pub same_route : Route → Route → Bool
same_route auto_approve auto_approve = true
same_route Route.review Route.review = true
same_route _ _ = false

-- `CompositeGateResult.coherent_route`
unfoldable pub has_coherent_route : CompositeGateResult → Bool
has_coherent_route result =
    let expected =
      if not (is_eligible result.policy_status)
      then policy
      else if not result.config.auto_approval_enabled
      then auto_disabled
      else if lt result.score result.config.threshold
      then below_threshold
      else eligible in
    eq result.policy_severity_term (severity_term result.policy_status)
    && eq result.score (
        score result.config result.minimum_field_confidence result.normalized_match_delta
          result.policy_severity_term)
    && same_reason result.reason expected
    && same_route result.route (if is_eligible_reason expected then auto_approve else Route.review)
