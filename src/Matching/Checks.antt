-- ===== src/Matching/Checks.antt =====
-- tools/matching.py: the single comparisons `_text`, `_identity` and `_numeric`.
use invoice_ops.Prelude.{
  ℕ, Bool, Option, none, some, String, not, ◌&&◌, ◌||◌, str_eq, is_blank, split, join,
  if◌then◌else◌,
}
use invoice_ops.Decimal.{Decimal, of_ℕ, sub, mul, abs, le, lt, eq, max_of}
use invoice_ops.Schemas.Matching.{
  CheckStatus, match, mismatch, unknown, IdentityField, IdentityCheck, NumericField, Rule, equal,
  at_most, NumericCheck,
}
use invoice_ops.Schemas.Digests.{UnicodeTables}

-- `_text`
unfoldable pub text : UnicodeTables → String → String
text tables value = join " " (split (tables.fold value))

-- The status that `_identity` gives.
unfoldable pub identity_status : UnicodeTables → String → Option String → CheckStatus
identity_status tables expected none = unknown
identity_status tables expected (some actual) =
    if is_blank actual
    then unknown
    else if str_eq (text tables expected) (text tables actual)
    then match
    else mismatch

-- `_identity`
unfoldable pub identity :
    UnicodeTables → IdentityField → Option ℕ → String → Option String → IdentityCheck
identity tables field line_number expected actual = record {
  field = field;
  line_number = line_number;
  expected = some expected;
  actual = actual;
  status = identity_status tables expected actual;
}

-- Whether a known amount passes `_numeric`: its difference is within the tolerance and its sign is valid.
unfoldable pub numeric_matches : Rule → Decimal → Decimal → Decimal → Bool → Bool
numeric_matches rule expected actual tolerance positive_actual =
    let difference = sub actual expected in
    let invalid_sign = lt actual (of_ℕ 0) || (positive_actual && eq actual (of_ℕ 0)) in
    elim rule [ equal ↦ le (abs difference) tolerance | at_most ↦ le difference tolerance ]
    && not invalid_sign

-- `max(absolute_tolerance, abs(expected) * relative_tolerance)`
unfoldable pub tolerance_of : Decimal → Decimal → Decimal → Decimal
tolerance_of expected absolute relative = max_of absolute (mul (abs expected) relative)

-- `_numeric`
unfoldable pub numeric :
    NumericField
    → Option ℕ
    → Rule
    → Decimal
    → Option Decimal
    → Decimal
    → Decimal
    → Bool
    → NumericCheck
numeric field line_number rule expected none absolute relative positive_actual = record {
  field = field;
  line_number = line_number;
  rule = rule;
  expected = some expected;
  actual = none;
  difference = none;
  tolerance = none;
  status = unknown;
}
numeric field line_number rule expected (some actual) absolute relative positive_actual =
    let tolerance = tolerance_of expected absolute relative in
    record {
      field = field;
      line_number = line_number;
      rule = rule;
      expected = some expected;
      actual = some actual;
      difference = some (sub actual expected);
      tolerance = some tolerance;
      status =
          if numeric_matches rule expected actual tolerance positive_actual
          then match
          else mismatch;
    }
