-- ===== src/Validation.antt =====
-- tools/validation.py: required fields, line arithmetic, totals and tax of an extracted invoice. The
-- source appends to one list of issues; each helper here returns the issues that it appends.
pub mod Steps
pub mod Lines
pub mod Totals
pub mod Soundness
use invoice_ops.Prelude.{
  ℕ, suc, Bool, true, false, Option, none, some, List, [], ◌∷◌, ◌++◌, map, String, any, is_empty,
  is_some, find_first, not, ◌&&◌, ◌||◌, str_eq, is_blank, if◌then◌else◌,
}
use invoice_ops.Decimal.{Decimal, of_ℕ, sub, add, mul, abs, le, lt, total}
use invoice_ops.Decimal.Rounding.{quantize}
use invoice_ops.Schemas.Extraction.{ExtractedField, InvoiceLineItem, InvoiceExtraction}
use invoice_ops.Schemas.Validation.{
  IssueCode, required_field, empty_lines, negative_value, nonpositive_quantity,
  tax_rate_out_of_range, unsupported_currency, line_math_mismatch, subtotal_mismatch, tax_mismatch,
  total_mismatch, CurrencyRule, ValidationConfig, ValidationIssue, ValidationStatus,
  ValidationResult,
}
use invoice_ops.Schemas.Digests.{Digests}

abbrev Issues : Type 0
Issues = List ValidationIssue

-- An issue that carries no amounts, or only what was read.
abbrev bare_issue : IssueCode → String → Option ℕ → Option Decimal → ValidationIssue
bare_issue code field line_number actual = record {
  code = code;
  field = field;
  line_number = line_number;
  expected = none;
  actual = actual;
  difference = none;
  tolerance = none;
}

-- `_compare`
unfoldable pub compare : IssueCode → String → Decimal → Decimal → Decimal → Option ℕ → Issues
compare code field expected actual tolerance line_number =
    let difference = sub actual expected in
    if lt tolerance (abs difference)
    then record {
      code = code;
      field = field;
      line_number = line_number;
      expected = some expected;
      actual = some actual;
      difference = some difference;
      tolerance = some tolerance;
    }
      ∷ []
    else []

-- What `_required` looks at: nothing, a text, or a value of another type.
pub data Observed : Type 0 where
  absent : Observed
  text : String → Observed
  other : Observed

abbrev pub observed_text : Option String → Observed
observed_text none = absent
observed_text (some s) = text s

abbrev pub observed {ℓ} : {A : Type ℓ} → Option A → Observed
observed none = absent
observed (some a) = other

abbrev is_missing : Observed → Bool
is_missing absent = true
is_missing (text s) = is_blank s
is_missing other = false

-- `_required`
unfoldable pub required : Option ℕ → List (String × Observed) → Issues
required line_number [] = []
required line_number ((field, value) ∷ fields) =
    let later = required line_number fields in
    if is_missing value then bare_issue required_field field line_number none ∷ later else later

-- `_nonnegative`: the value that the callers go on with, and the issues.
unfoldable pub nonnegative : String → Option Decimal → Option ℕ → Option Decimal × Issues
nonnegative field none line_number = (none, [])
nonnegative field (some value) line_number =
    if lt value (of_ℕ 0)
    then (none, bare_issue negative_value field line_number (some value) ∷ [])
    else (some value, [])

-- The quantity test of `_line_values`.
unfoldable pub positive_quantity : Option Decimal → ℕ → Option Decimal × Issues
positive_quantity none number = (none, [])
positive_quantity (some quantity) number =
    if le quantity (of_ℕ 0)
    then (none, bare_issue nonpositive_quantity "quantity" (some number) (some quantity) ∷ [])
    else (some quantity, [])

-- The tax rate test of `_line_values`.
unfoldable pub fractional_rate : Option Decimal → ℕ → Option Decimal × Issues
fractional_rate none number = (none, [])
fractional_rate (some rate) number =
    if not (le (of_ℕ 0) rate && le rate (of_ℕ 1))
    then (none, bare_issue tax_rate_out_of_range "tax_rate" (some number) (some rate) ∷ [])
    else (some rate, [])

-- `(quantity * price).quantize(quantum)` against the line total, where all three are known.
unfoldable pub line_math :
    Option Decimal → Option Decimal → Option Decimal → CurrencyRule → ℕ → Issues
line_math (some quantity) (some price) (some net) rule number =
    compare line_math_mismatch "line_total" (quantize rule.decimal_places (mul quantity price)) net
      rule.absolute_tolerance (some number)
line_math _ _ _ rule number = []

-- `(net * rate).quantize(quantum)`, where both are known.
unfoldable pub line_tax : Option Decimal → Option Decimal → CurrencyRule → Option Decimal
line_tax (some net) (some rate) rule = some (quantize rule.decimal_places (mul net rate))
line_tax _ _ rule = none

-- `_line_values`: the net amount and the tax of a line, and the issues.
unfoldable pub line_values :
    InvoiceLineItem → ℕ → Option CurrencyRule → (Option Decimal × Option Decimal) × Issues
line_values line number rule =
    let missing = required (some number) (
      ("description", observed_text line.description.value)
      ∷ ("quantity", observed line.quantity.value)
      ∷ ("unit_price", observed line.unit_price.value)
      ∷ ("tax_rate", observed line.tax_rate.value)
      ∷ ("line_total", observed line.line_total.value)
      ∷ []) in
    let (price, bad_price) = nonnegative "unit_price" line.unit_price.value (some number) in
    let (net, bad_net) = nonnegative "line_total" line.line_total.value (some number) in
    let (quantity, bad_quantity) = positive_quantity line.quantity.value number in
    let (rate, bad_rate) = fractional_rate line.tax_rate.value number in
    let before = missing ++ (bad_price ++ (bad_net ++ (bad_quantity ++ bad_rate))) in
    elim rule [
      | none ↦ ((net, none), before)
      | some rule ↦
          ((net, line_tax net rate rule), before ++ line_math quantity price net rule number)
    ]

-- The comprehension over `enumerate(extraction.line_items, start=1)`.
unfoldable pub lines_from :
    ℕ → List InvoiceLineItem → Option CurrencyRule → List (Option Decimal × Option Decimal) × Issues
lines_from number [] rule = ([], [])
lines_from number (line ∷ lines) rule =
    let (value, issues) = line_values line number rule in
    let (values, later) = lines_from (suc number) lines rule in (value ∷ values, issues ++ later)

abbrev is_none {ℓ} : {A : Type ℓ} → Option A → Bool
is_none o = not (is_some o)

abbrev pub or_zero : Option Decimal → Decimal
or_zero none = of_ℕ 0
or_zero (some value) = value

-- `_complete_sum`
unfoldable pub complete_sum : List (Option Decimal) → Option Decimal
complete_sum values =
    if is_empty values || any is_none values then none else some (total (map or_zero values))

-- A comparison of two amounts that are both known.
unfoldable pub compare_known :
    IssueCode → String → Option Decimal → Option Decimal → Decimal → Issues
compare_known code field (some expected) (some actual) tolerance =
    compare code field expected actual tolerance none
compare_known code field _ _ tolerance = []

-- `subtotal + tax`, where both are known.
unfoldable pub known_sum : Option Decimal → Option Decimal → Option Decimal
known_sum (some a) (some b) = some (add a b)
known_sum _ _ = none

-- `next((rule for rule in config.currencies if rule.currency == currency), None)`
unfoldable pub rule_for : ValidationConfig → Option String → Option CurrencyRule
rule_for config none = none
rule_for config (some currency) =
    find_first (λ (rule : CurrencyRule). str_eq rule.currency currency) config.currencies

-- The issues that `_validate` raises once a currency rule is found.
unfoldable pub total_issues :
    CurrencyRule
    → List (Option Decimal × Option Decimal)
    → Option Decimal
    → Option Decimal
    → Option Decimal
    → Issues
total_issues rule values subtotal tax total =
    let tolerance = rule.absolute_tolerance in
    compare_known subtotal_mismatch "subtotal" (complete_sum (map (λ v. v.0) values)) subtotal
      tolerance
    ++ (compare_known tax_mismatch "tax_amount" (complete_sum (map (λ v. v.1) values)) tax tolerance
        ++ compare_known total_mismatch "total_amount" (known_sum subtotal tax) total tolerance)

-- `_validate`
unfoldable pub validate : InvoiceExtraction → ValidationConfig → Issues
validate extraction config =
    let missing = required none (
      ("vendor_name", observed_text extraction.vendor_name.value)
      ∷ ("invoice_number", observed_text extraction.invoice_number.value)
      ∷ ("currency", observed_text extraction.currency.value)
      ∷ ("invoice_date", observed extraction.invoice_date.value)
      ∷ ("subtotal", observed extraction.subtotal.value)
      ∷ ("tax_amount", observed extraction.tax_amount.value)
      ∷ ("total_amount", observed extraction.total_amount.value)
      ∷ []) in
    let no_lines =
      if is_empty extraction.line_items
      then bare_issue empty_lines "line_items" none none ∷ []
      else [] in
    let rule = rule_for config extraction.currency.value in
    let unsupported =
      if is_some extraction.currency.value && is_none rule
      then bare_issue unsupported_currency "currency" none none ∷ []
      else [] in
    let (subtotal, bad_subtotal) = nonnegative "subtotal" extraction.subtotal.value none in
    let (tax, bad_tax) = nonnegative "tax_amount" extraction.tax_amount.value none in
    let (total, bad_total) = nonnegative "total_amount" extraction.total_amount.value none in
    let (values, bad_lines) = lines_from 1 extraction.line_items rule in
    missing
    ++ (no_lines
        ++ (unsupported
            ++ (bad_subtotal
                ++ (bad_tax
                    ++ (bad_total
                        ++ (bad_lines ++ elim rule [
                          | none ↦ []
                          | some rule ↦ total_issues rule values subtotal tax total
                        ]))))))

-- `validate_invoice`
unfoldable pub validate_invoice : Digests → InvoiceExtraction → ValidationConfig → ValidationResult
validate_invoice digests extraction config =
    let issues = validate extraction config in
    record {
      status = if is_empty issues then ValidationStatus.pass else ValidationStatus.fail;
      input_sha256 = digests.of_extraction extraction;
      config_sha256 = digests.of_validation_config config;
      config = config;
      issues = issues;
    }
