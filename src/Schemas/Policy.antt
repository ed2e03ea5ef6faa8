-- ===== src/Schemas/Policy.antt =====
-- schemas/policy.py: spend bands, policy inputs and the policy decision.
use invoice_ops.Prelude.{
  ℕ, Bool, true, false, Option, none, some, List, [], ◌∷◌, String, any, is_empty, is_some, map,
  length, leb, not, ◌&&◌, ◌||◌, if◌then◌else◌,
}
use invoice_ops.Prelude.Sets.{distinct, distinct_texts}
use invoice_ops.Decimal.{Decimal, of_ℕ, lt}
use invoice_ops.Schemas.Extraction.{InvoiceExtraction}
use invoice_ops.Schemas.Validation.{ValidationResult}
use invoice_ops.Schemas.Matching.{MatchResult, ErpSnapshot}
use invoice_ops.Schemas.Exceptions.{TaxonomyResult}

pub data ApprovalTier : Type 0 where
  no_approval ap_manager procurement_director dual_control unknown_tier : ApprovalTier

pub data PolicyStatus : Type 0 where
  auto_approve_eligible review block : PolicyStatus

abbrev pub is_eligible : PolicyStatus → Bool
is_eligible auto_approve_eligible = true
is_eligible _ = false

pub data PolicyReason : Type 0 where
  exact_duplicate cancelled_po closed_po stale_po future_po spend_cap_exceeded : PolicyReason
  approval_required exception_present unresolved_evidence validation_failed : PolicyReason
  match_not_passed unknown_amount invalid_amount unsupported_currency : PolicyReason

-- A number for each reason, to compare them by.
abbrev pub rank : PolicyReason → ℕ
rank exact_duplicate = 0
rank cancelled_po = 1
rank closed_po = 2
rank stale_po = 3
rank future_po = 4
rank spend_cap_exceeded = 5
rank approval_required = 6
rank exception_present = 7
rank unresolved_evidence = 8
rank validation_failed = 9
rank match_not_passed = 10
rank unknown_amount = 11
rank invalid_amount = 12
rank unsupported_currency = 13

-- `{"EXACT_DUPLICATE", "CANCELLED_PO", "SPEND_CAP_EXCEEDED"}`
abbrev pub is_blocking : PolicyReason → Bool
is_blocking exact_duplicate = true
is_blocking cancelled_po = true
is_blocking spend_cap_exceeded = true
is_blocking _ = false

pub record SpendBand : Type 0 where
  pub currency : String
  pub auto_approve_limit : Decimal
  pub manager_limit : Decimal
  pub director_limit : Decimal
  pub hard_spend_limit : Decimal

-- `SpendBand.ascending_bands`
unfoldable pub is_ascending : SpendBand → Bool
is_ascending band =
    lt band.auto_approve_limit band.manager_limit
    && lt band.manager_limit band.director_limit
    && lt band.director_limit band.hard_spend_limit

pub record PolicyConfig : Type 0 where
  pub version : String
  pub bands : List SpendBand
  pub max_po_age_days : ℕ

-- `PolicyConfig.unique_currencies`
unfoldable pub has_unique_bands : PolicyConfig → Bool
has_unique_bands config =
    not (is_empty config.bands)
    && leb (length config.bands) 200
    && distinct_texts (map (λ (band : SpendBand). band.currency) config.bands)

abbrev pub band_of : String → ℕ → ℕ → ℕ → ℕ → SpendBand
band_of currency auto manager director hard = record {
  currency = currency;
  auto_approve_limit = of_ℕ auto;
  manager_limit = of_ℕ manager;
  director_limit = of_ℕ director;
  hard_spend_limit = of_ℕ hard;
}

-- The defaults of `PolicyConfig`.
abbrev pub default_policy_config : PolicyConfig
default_policy_config = record {
  version = "invoice-policy@v1";
  bands =
      band_of "EUR" 10000 50000 100000 250000
      ∷ band_of "GBP" 10000 50000 100000 250000
      ∷ band_of "JPY" 1000000 5000000 10000000 25000000
      ∷ band_of "KWD" 3000 15000 30000 75000
      ∷ band_of "PLN" 40000 200000 400000 1000000
      ∷ band_of "USD" 10000 50000 100000 250000
      ∷ [];
  max_po_age_days = 365;
}

pub record PolicyRequest : Type 0 where
  pub run_id : ℕ
  pub invoice_id : ℕ
  pub trace_id : String
  pub as_of : ℕ
  pub extraction : InvoiceExtraction
  pub validation : ValidationResult
  pub match : MatchResult
  pub taxonomy : TaxonomyResult
  pub snapshot : Option ErpSnapshot

pub record PolicyFinding : Type 0 where
  pub reason : PolicyReason
  pub field : String

pub record PolicyResult : Type 0 where
  pub status : PolicyStatus
  pub approval_tier : ApprovalTier
  pub currency : Option String
  pub amount : Option Decimal
  pub findings : List PolicyFinding
  pub as_of : ℕ
  pub input_sha256 : String
  pub config_sha256 : String
  pub config : PolicyConfig

abbrev pub is_no_approval : ApprovalTier → Bool
is_no_approval no_approval = true
is_no_approval _ = false

-- `amount is not None and not amount < 0`
abbrev pub is_known_amount : Option Decimal → Bool
is_known_amount none = false
is_known_amount (some amount) = not (lt amount (of_ℕ 0))

abbrev pub same_status : PolicyStatus → PolicyStatus → Bool
same_status auto_approve_eligible auto_approve_eligible = true
same_status review review = true
same_status block block = true
same_status _ _ = false

-- `expected` in `decision_matches_findings`, and `status` in `evaluate_policy`.
unfoldable pub status_of : List PolicyFinding → PolicyStatus
status_of findings =
    if any (λ (finding : PolicyFinding). is_blocking finding.reason) findings
    then block
    else if is_empty findings
    then auto_approve_eligible
    else review

-- `PolicyResult.decision_matches_findings`
unfoldable pub has_matching_decision : PolicyResult → Bool
unfolding status_of
has_matching_decision result =
    distinct (map (λ (finding : PolicyFinding). rank finding.reason) result.findings)
    && same_status result.status (status_of result.findings)
    && (not (is_eligible result.status)
        || (is_no_approval result.approval_tier
            && is_known_amount result.amount
            && is_some result.currency))
