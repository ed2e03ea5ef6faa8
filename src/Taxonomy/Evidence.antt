-- ===== src/Taxonomy/Evidence.antt =====
-- tools/exception_taxonomy.py: what each piece of evidence comes to: a finding with its code, an
-- unresolved reference, or nothing.
use invoice_ops.Prelude.{
  ℕ, suc, Bool, true, false, Option, none, some, List, [], ◌∷◌, ◌++◌, String, not, ◌||◌, str_eq,
  is_empty_text, split, join, if◌then◌else◌,
}
use invoice_ops.Schemas.Extraction.{InvoiceExtraction}
use invoice_ops.Schemas.Erp.{OrderStatus, is_closed, is_cancelled}
use invoice_ops.Schemas.Validation.{
  IssueCode, negative_value, nonpositive_quantity, tax_rate_out_of_range, line_math_mismatch,
  subtotal_mismatch, tax_mismatch, total_mismatch, ValidationIssue, ValidationResult,
}
use invoice_ops.Schemas.Matching.{
  CheckStatus, match, mismatch, unknown, IdentityField, IdentityCheck, NumericField, NumericCheck,
  MatchResult,
}
use invoice_ops.Schemas.Exceptions.{
  ExceptionCode, missing_po, bank_change, ccy_mm, price_mm, qty_mm, tax_err, math_err, stale_po,
  EvidenceSource, EvidenceRef,
}
use invoice_ops.Schemas.Digests.{UnicodeTables}

-- What a piece of evidence comes to.
pub data Outcome : Type 0 where
  nothing : Outcome
  found : ExceptionCode → EvidenceRef → Outcome
  left : EvidenceRef → Outcome

-- `_iban`
unfoldable pub iban : UnicodeTables → String → String
iban tables value = tables.upper (join "" (split value))

-- The texts of the `field` literals.
abbrev pub identity_name : IdentityField → String
identity_name IdentityField.po_number = "po_number"
identity_name IdentityField.vendor_name = "vendor_name"
identity_name IdentityField.currency = "currency"
identity_name IdentityField.line_count = "line_count"
identity_name IdentityField.description = "description"

abbrev pub numeric_name : NumericField → String
numeric_name NumericField.unit_price = "unit_price"
numeric_name NumericField.quantity_ordered = "quantity_ordered"
numeric_name NumericField.quantity_received = "quantity_received"
numeric_name NumericField.receipt_vs_order = "receipt_vs_order"
numeric_name NumericField.line_total = "line_total"
numeric_name NumericField.subtotal_ordered = "subtotal_ordered"
numeric_name NumericField.subtotal_received = "subtotal_received"
numeric_name NumericField.receipt_vs_order_total = "receipt_vs_order_total"

abbrev pub evidence : EvidenceSource → String → EvidenceRef
evidence source field = record {
  source = source;
  field = field;
  line_number = none;
  source_index = none;
}

-- The code of a mismatch, where it has one.
unfoldable pub identity_code : IdentityField → Option ExceptionCode
identity_code IdentityField.currency = some ccy_mm
identity_code _ = none

unfoldable pub numeric_code : NumericField → Option ExceptionCode
numeric_code NumericField.unit_price = some price_mm
numeric_code NumericField.quantity_ordered = some qty_mm
numeric_code NumericField.quantity_received = some qty_mm
numeric_code NumericField.receipt_vs_order = some qty_mm
numeric_code NumericField.receipt_vs_order_total = some qty_mm
numeric_code _ = none

-- `_TAX_ISSUES` and `_MATH_ISSUES`
unfoldable pub issue_code : IssueCode → Option ExceptionCode
issue_code tax_mismatch = some tax_err
issue_code tax_rate_out_of_range = some tax_err
issue_code line_math_mismatch = some math_err
issue_code subtotal_mismatch = some math_err
issue_code total_mismatch = some math_err
issue_code negative_value = some math_err
issue_code nonpositive_quantity = some math_err
issue_code _ = none

-- A finding where there is a code, else unresolved.
abbrev pub sorted : Option ExceptionCode → EvidenceRef → Outcome
sorted none ref = left ref
sorted (some code) ref = found code ref

unfoldable pub check_outcome : CheckStatus → Option ExceptionCode → EvidenceRef → Outcome
check_outcome match code ref = nothing
check_outcome mismatch code ref = sorted code ref
check_outcome unknown code ref = left ref

-- The loops over the checks and the issues, with their index.
unfoldable pub identity_outcomes : ℕ → List IdentityCheck → List Outcome
unfolding check_outcome identity_code
identity_outcomes index [] = []
identity_outcomes index (check ∷ checks) =
    check_outcome check.status (identity_code check.field) (record {
      source = EvidenceSource.match_identity;
      field = identity_name check.field;
      line_number = check.line_number;
      source_index = some index;
    })
    ∷ identity_outcomes (suc index) checks

unfoldable pub numeric_outcomes : ℕ → List NumericCheck → List Outcome
unfolding check_outcome numeric_code
numeric_outcomes index [] = []
numeric_outcomes index (check ∷ checks) =
    check_outcome check.status (numeric_code check.field) (record {
      source = EvidenceSource.match_numeric;
      field = numeric_name check.field;
      line_number = check.line_number;
      source_index = some index;
    })
    ∷ numeric_outcomes (suc index) checks

unfoldable pub issue_outcomes : ℕ → List ValidationIssue → List Outcome
unfolding issue_code
issue_outcomes index [] = []
issue_outcomes index (issue ∷ issues) =
    sorted (issue_code issue.code) (record {
      source = EvidenceSource.validation;
      field = issue.field;
      line_number = issue.line_number;
      source_index = some index;
    })
    ∷ issue_outcomes (suc index) issues

abbrev pub when : Bool → Outcome → Outcome
when true outcome = outcome
when false outcome = nothing

abbrev pub is_stale_status : Option OrderStatus → Bool
is_stale_status none = false
is_stale_status (some status) = is_closed status || is_cancelled status

-- The evidence of the comparison, or that it was not run.
unfoldable pub match_outcomes : Option InvoiceExtraction → Option MatchResult → List Outcome
unfolding identity_outcomes numeric_outcomes
match_outcomes extraction (some result) =
    when (not result.snapshot_found)
      (found missing_po (evidence EvidenceSource.match_identity "po_number"))
    ∷ when (is_stale_status result.po_status)
        (found stale_po (evidence EvidenceSource.erp "po_status"))
    ∷ (identity_outcomes 0 result.identity_checks ++ numeric_outcomes 0 result.numeric_checks)
match_outcomes (some extraction) none = left (evidence EvidenceSource.match_identity "not_run") ∷ []
match_outcomes none none = []

-- The evidence of the validation, or that it was not run.
unfoldable pub validation_outcomes :
    Option InvoiceExtraction → Option ValidationResult → List Outcome
unfolding issue_outcomes
validation_outcomes extraction (some result) = issue_outcomes 0 result.issues
validation_outcomes (some extraction) none =
    left (evidence EvidenceSource.validation "not_run") ∷ []
validation_outcomes none none = []

-- The two accounts, where both are given.
unfoldable pub bank_outcome : UnicodeTables → Option String → Option String → Outcome
unfolding iban
bank_outcome tables (some observed) (some expected) =
    let ref = evidence EvidenceSource.erp "bank_account_iban" in
    if is_empty_text observed || is_empty_text expected
    then left ref
    else if is_empty_text (iban tables observed) || is_empty_text (iban tables expected)
    then left ref
    else if not (str_eq (iban tables observed) (iban tables expected))
    then found bank_change ref
    else nothing
bank_outcome tables _ _ = left (evidence EvidenceSource.erp "bank_account_iban")

unfoldable pub bank_outcomes :
    UnicodeTables → Option InvoiceExtraction → Option String → List Outcome
unfolding bank_outcome
bank_outcomes tables none expected = []
bank_outcomes tables (some extraction) expected =
    bank_outcome tables extraction.bank_account_iban.value expected ∷ []
