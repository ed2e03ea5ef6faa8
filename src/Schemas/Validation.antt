-- ===== src/Schemas/Validation.antt =====
-- schemas/validation.py: the validation policy and its decision.
use invoice_ops.Prelude.{
  ℕ, Bool, true, false, Option, List, [], ◌∷◌, String, pos, is_empty, length, leb, not, ◌&&◌, map,
}
use invoice_ops.Prelude.Sets.{distinct_texts}
use invoice_ops.Decimal.{Decimal, of_ℕ}

pub data IssueCode : Type 0 where
  required_field empty_lines negative_value nonpositive_quantity tax_rate_out_of_range : IssueCode
  unsupported_currency line_math_mismatch subtotal_mismatch tax_mismatch total_mismatch : IssueCode

pub record CurrencyRule : Type 0 where
  pub currency : String
  pub decimal_places : ℕ
  pub absolute_tolerance : Decimal

pub record ValidationConfig : Type 0 where
  pub version : String
  pub currencies : List CurrencyRule

-- `unique_currencies`
unfoldable pub has_unique_rules : ValidationConfig → Bool
has_unique_rules config =
    not (is_empty config.currencies)
    && leb (length config.currencies) 200
    && distinct_texts (map (λ (rule : CurrencyRule). rule.currency) config.currencies)

-- The defaults of `ValidationConfig`.
abbrev pub default_validation_config : ValidationConfig
default_validation_config =
    let cents : Decimal = record { coefficient = pos 1; places = 2 } in
    let rule = λ (code : String) (places : ℕ) (tolerance : Decimal).
      let r : CurrencyRule = record {
        currency = code;
        decimal_places = places;
        absolute_tolerance = tolerance;
      } in
      r in
    record {
      version = "invoice-validation@v1";
      currencies =
          rule "EUR" 2 cents
          ∷ rule "GBP" 2 cents
          ∷ rule "JPY" 0 (of_ℕ 1)
          ∷ rule "KWD" 3 (record { coefficient = pos 1; places = 3 })
          ∷ rule "PLN" 2 cents
          ∷ rule "USD" 2 cents
          ∷ [];
    }

pub record ValidationIssue : Type 0 where
  pub code : IssueCode
  pub field : String
  pub line_number : Option ℕ
  pub expected : Option Decimal
  pub actual : Option Decimal
  pub difference : Option Decimal
  pub tolerance : Option Decimal

pub data ValidationStatus : Type 0 where
  pass fail : ValidationStatus

abbrev pub is_pass : ValidationStatus → Bool
is_pass ValidationStatus.pass = true
is_pass ValidationStatus.fail = false

pub record ValidationResult : Type 0 where
  pub status : ValidationStatus
  pub input_sha256 : String
  pub config_sha256 : String
  pub config : ValidationConfig
  pub issues : List ValidationIssue
