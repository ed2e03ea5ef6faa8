-- ===== src/Queue.antt =====
-- tools/exception_queue.py `project_exception`: the priority and the due time of an exception. Times are numbers of
-- hours; the check for a time zone belongs to the clock.
pub mod Priority
use invoice_ops.Prelude.{
  ℕ, ◌+◌, Bool, true, false, Option, none, some, List, [], ◌∷◌, String, map, any, is_empty, not,
  ◌||◌, ◌==◌, if◌then◌else◌,
}
use mathlib.Core.Option
use invoice_ops.Schemas.Exceptions.{
  ExceptionCode, dup_exact, dup_near, missing_po, bank_change, ccy_mm, price_mm, qty_mm, tax_err,
  math_err, stale_po, same_code, TaxonomyResult,
}
use invoice_ops.Schemas.Policy.{PolicyStatus, auto_approve_eligible, block, PolicyResult}
use invoice_ops.Schemas.Gate.{GateOutcome}
use invoice_ops.Schemas.Queue.{QueueConfig, QueueProjection}
use invoice_ops.Schemas.Digests.{Digests}

-- The texts of the exception codes.
abbrev pub code_name : ExceptionCode → String
code_name dup_exact = "DUP_EXACT"
code_name dup_near = "DUP_NEAR"
code_name missing_po = "MISSING_PO"
code_name bank_change = "BANK_CHANGE"
code_name ccy_mm = "CCY_MM"
code_name price_mm = "PRICE_MM"
code_name qty_mm = "QTY_MM"
code_name tax_err = "TAX_ERR"
code_name math_err = "MATH_ERR"
code_name stale_po = "STALE_PO"

-- `_CRITICAL_CODES`
abbrev pub is_critical : ExceptionCode → Bool
is_critical bank_change = true
is_critical dup_near = true
is_critical _ = false

abbrev pub codes_of : Option TaxonomyResult → List ExceptionCode
codes_of none = []
codes_of (some taxonomy) = taxonomy.codes

abbrev pub has_blocked : Option PolicyResult → Bool
has_blocked none = false
has_blocked (some decision) = elim decision.status [ block ↦ true | _ ↦ false ]

abbrev pub has_review : Option PolicyResult → Bool
has_review none = false
has_review (some decision) = elim decision.status [ PolicyStatus.review ↦ true | _ ↦ false ]

unfoldable pub priority_of : List ExceptionCode → Option PolicyResult → Bool → ℕ
priority_of codes decision extraction_escalated =
    if has_blocked decision || any is_critical codes
    then 3
    else if not (is_empty codes) || extraction_escalated || has_review decision
    then 2
    else 1

unfoldable pub sla_hours : ℕ → QueueConfig → ℕ
sla_hours priority rules =
    if priority == 3
    then rules.critical_sla_hours
    else if priority == 2
    then rules.high_sla_hours
    else rules.normal_sla_hours

abbrev pub type_of : List ExceptionCode → Bool → String
type_of (code ∷ codes) extraction_escalated = code_name code
type_of [] true = "EXTRACTION_ESCALATION"
type_of [] false = "LOW_CONFIDENCE"

-- `project_exception`
unfoldable pub project_exception :
    Digests
    → ℕ
    → Option TaxonomyResult
    → Option PolicyResult
    → Option GateOutcome
    → Bool
    → String
    → QueueConfig
    → QueueProjection
project_exception digests now taxonomy decision gate extraction_escalated recommendation rules =
    let codes = codes_of taxonomy in
    let priority = priority_of codes decision extraction_escalated in
    record {
      exception_type = type_of codes extraction_escalated;
      priority = priority;
      sla_due_at = now + sla_hours priority rules;
      evidence = record {
        taxonomy_sha256 = Option.map digests.of_taxonomy taxonomy;
        policy_sha256 = Option.map digests.of_policy decision;
        gate_sha256 = Option.map digests.of_gate gate;
        extraction_escalated = extraction_escalated;
      };
      recommendation = recommendation;
      config = rules;
    }
