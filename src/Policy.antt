-- ===== src/Policy.antt =====
-- tools/policy.py: `po_age_exceeded`, `approval_tier` and `evaluate_policy`. Dates are day numbers, so the
-- age `(as_of - issued_on).days` is negative exactly when `as_of` is the lower number.
pub mod Decision
pub mod Eligible
use invoice_ops.Prelude.{
  ℕ, ◌-◌, Bool, true, false, Option, none, some, List, [], ◌∷◌, String, any, not, ◌&&◌, ◌||◌,
  is_empty, find_first, ltb, str_eq, if◌then◌else◌,
}
use invoice_ops.Decimal.{Decimal, of_ℕ, le, lt}
use invoice_ops.Schemas.Erp.{OrderStatus, is_closed, is_cancelled}
use invoice_ops.Schemas.Validation
use invoice_ops.Schemas.Matching
use invoice_ops.Schemas.Matching.{ErpSnapshot}
use invoice_ops.Schemas.Exceptions.{ExceptionCode, dup_exact, same_code, is_exception}
use invoice_ops.Schemas.Policy.{
  ApprovalTier, no_approval, ap_manager, procurement_director, dual_control, unknown_tier,
  PolicyStatus, auto_approve_eligible, block, PolicyReason, exact_duplicate, cancelled_po,
  closed_po, stale_po, future_po, spend_cap_exceeded, approval_required, exception_present,
  unresolved_evidence, validation_failed, match_not_passed, unknown_amount, invalid_amount,
  unsupported_currency, is_blocking, SpendBand, PolicyConfig, PolicyRequest, PolicyFinding,
  PolicyResult,
}
use invoice_ops.Schemas.Digests.{Digests}

-- `po_age_exceeded`
unfoldable pub po_age_exceeded : Option ErpSnapshot → ℕ → ℕ → Bool
po_age_exceeded none as_of max_age_days = false
po_age_exceeded (some snapshot) as_of max_age_days =
    ltb max_age_days (as_of - snapshot.purchase_order.issued_on)

-- `approval_tier`
unfoldable pub approval_tier : Option Decimal → Option SpendBand → ApprovalTier
approval_tier none band = unknown_tier
approval_tier (some amount) none = unknown_tier
approval_tier (some amount) (some band) =
    if lt amount (of_ℕ 0)
    then unknown_tier
    else if le amount band.auto_approve_limit
    then no_approval
    else if le amount band.manager_limit
    then ap_manager
    else if le amount band.director_limit
    then procurement_director
    else dual_control

-- `item.currency == currency`
abbrev pub has_currency : Option String → SpendBand → Bool
has_currency none band = false
has_currency (some currency) band = str_eq band.currency currency

-- `next((item for item in rules.bands if item.currency == currency), None)`
unfoldable pub band_for : Option String → PolicyConfig → Option SpendBand
band_for currency rules = find_first (has_currency currency) rules.bands

-- The conditions on the order: each is false where there is no snapshot.
abbrev pub order_cancelled : Option ErpSnapshot → Bool
order_cancelled none = false
order_cancelled (some snapshot) = is_cancelled snapshot.purchase_order.status

abbrev pub order_closed : Option ErpSnapshot → Bool
order_closed none = false
order_closed (some snapshot) = is_closed snapshot.purchase_order.status

-- `age_days < 0`
abbrev pub issued_later : Option ErpSnapshot → ℕ → Bool
issued_later none as_of = false
issued_later (some snapshot) as_of = ltb as_of snapshot.purchase_order.issued_on

abbrev pub is_missing {ℓ} : {A : Type ℓ} → Option A → Bool
is_missing none = true
is_missing (some a) = false

-- The conditions on the amount.
abbrev pub is_negative : Option Decimal → Bool
is_negative none = false
is_negative (some amount) = lt amount (of_ℕ 0)

abbrev pub is_amount : Option Decimal → Bool
is_amount none = false
is_amount (some amount) = not (lt amount (of_ℕ 0))

-- `band is not None and amount > band.hard_spend_limit`
abbrev pub exceeds_cap : Option Decimal → Option SpendBand → Bool
exceeds_cap (some amount) (some band) = lt band.hard_spend_limit amount
exceeds_cap _ _ = false

-- `tier not in {"NONE", "UNKNOWN"}`
abbrev pub needs_approval : ApprovalTier → Bool
needs_approval no_approval = false
needs_approval unknown_tier = false
needs_approval _ = true

-- A finding and the condition under which the source appends it.
pub record Rule : Type 0 where
  pub applies : Bool
  pub finding : PolicyFinding

abbrev pub rule : Bool → PolicyReason → String → Rule
rule applies reason field = record {
  applies = applies;
  finding = record { reason = reason; field = field };
}

-- The appends of `evaluate_policy` in their order, an `elif` or `else` with the tests before it.
unfoldable pub rules_for : PolicyRequest → PolicyConfig → List Rule
unfolding po_age_exceeded approval_tier band_for
rules_for request config =
    let snapshot = request.snapshot in
    let amount = request.extraction.total_amount.value in
    let band = band_for request.extraction.currency.value config in
    let taxonomy = request.taxonomy in
    rule (any (λ (code : ExceptionCode). same_code code dup_exact) taxonomy.codes) exact_duplicate
      "content_hash"
    ∷ rule (order_cancelled snapshot) cancelled_po "po_status"
    ∷ rule (not (order_cancelled snapshot) && order_closed snapshot) closed_po "po_status"
    ∷ rule (issued_later snapshot request.as_of) future_po "issued_on"
    ∷ rule
        (not (issued_later snapshot request.as_of)
          && po_age_exceeded snapshot request.as_of config.max_po_age_days)
        stale_po "issued_on"
    ∷ rule (is_missing band) unsupported_currency "currency"
    ∷ rule (is_missing amount) unknown_amount "total_amount"
    ∷ rule (is_negative amount) invalid_amount "total_amount"
    ∷ rule (is_amount amount && exceeds_cap amount band) spend_cap_exceeded "total_amount"
    ∷ rule (is_amount amount && needs_approval (approval_tier amount band)) approval_required
        "total_amount"
    ∷ rule (is_exception taxonomy.status) exception_present "taxonomy"
    ∷ rule (not (is_empty taxonomy.unresolved)) unresolved_evidence "taxonomy"
    ∷ rule (not (Validation.is_pass request.validation.status)) validation_failed "validation"
    ∷ rule (not (Matching.is_pass request.match.status)) match_not_passed "match"
    ∷ []

-- The findings that are appended.
unfoldable pub raised : List Rule → List PolicyFinding
raised [] = []
raised (r ∷ rules) = let rest = raised rules in if r.applies then r.finding ∷ rest else rest

unfoldable pub decided : List PolicyFinding → PolicyStatus
decided findings =
    if any (λ (finding : PolicyFinding). is_blocking finding.reason) findings
    then block
    else if not (is_empty findings)
    then PolicyStatus.review
    else auto_approve_eligible

-- `evaluate_policy`
unfoldable pub evaluate_policy : Digests → PolicyRequest → PolicyConfig → PolicyResult
evaluate_policy digests request config =
    let findings = raised (rules_for request config) in
    record {
      status = decided findings;
      approval_tier =
          approval_tier request.extraction.total_amount.value
            (band_for request.extraction.currency.value config);
      currency = request.extraction.currency.value;
      amount = request.extraction.total_amount.value;
      findings = findings;
      as_of = request.as_of;
      input_sha256 = digests.of_policy_request request;
      config_sha256 = digests.of_policy_config config;
      config = config;
    }
