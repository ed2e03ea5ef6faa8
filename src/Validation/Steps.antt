-- ===== src/Validation/Steps.antt =====
-- When each helper of tools/validation.py raises no issue.
use invoice_ops.Prelude.{
  ℕ, ◌≡◌, ◌↔◌, true, false, Option, none, some, List, [], ◌∷◌, ◌++◌, String, is_blank, All, arith,
}
use invoice_ops.Decimal.{Decimal, of_ℕ, sub, abs, le, lt, mul}
use invoice_ops.Decimal.Order.{Within, within_iff, le_of_not_lt, not_lt_of_le}
use invoice_ops.Decimal.Value.{lt_of_not_le, not_le_of_lt}
use invoice_ops.Decimal.Rounding.{quantize}
use invoice_ops.Schemas.Validation.{IssueCode, CurrencyRule}
use invoice_ops.Validation.{
  Issues, Observed, observed, observed_text, is_missing, compare, required, nonnegative,
  positive_quantity, fractional_rate,
}

-- A text that is there and is not blank; a value that is there.
abbrev pub HasText : Option String → Type 0
HasText none = ⊥
HasText (some s) = is_blank s ≡ false

abbrev pub HasValue {ℓ} : {A : Type ℓ} → Option A → Type 0
HasValue none = ⊥
HasValue (some a) = Unit

-- Amounts that are there and in range.
abbrev pub IsNonnegative : Option Decimal → Type 0
IsNonnegative none = ⊥
IsNonnegative (some v) = le (of_ℕ 0) v ≡ true

abbrev pub IsPositive : Option Decimal → Type 0
IsPositive none = ⊥
IsPositive (some v) = lt (of_ℕ 0) v ≡ true

abbrev pub IsFraction : Option Decimal → Type 0
IsFraction none = ⊥
IsFraction (some v) = (le (of_ℕ 0) v ≡ true) × (le v (of_ℕ 1) ≡ true)

-- The line total is the rounded product of quantity and price, up to the tolerance.
abbrev pub LineAddsUp : CurrencyRule → Option Decimal → Option Decimal → Option Decimal → Type 0
LineAddsUp rule (some quantity) (some price) (some net) =
    Within net (quantize rule.decimal_places (mul quantity price)) rule.absolute_tolerance
LineAddsUp rule _ _ _ = ⊥

module _ (code : IssueCode) (field : String) where
  pub compare-eq_nil_iff :
      (e a t : Decimal) (line : Option ℕ) → (compare code field e a t line ≡ []) ↔ Within a e t
  unfolding compare
  compare-eq_nil_iff e a t line =
      let (f, g) = within_iff a e t in
      (
        λ h. f (le_of_not_lt (abs (sub a e)) t (ground arith)),
        λ h. ground (arith, not_lt_of_le (abs (sub a e)) t (g h)),
      )

pub required-eq_nil_iff :
    (line : Option ℕ) (fields : List (String × Observed))
    → (required line fields ≡ []) ↔ All (λ f. is_missing f.1 ≡ false) fields
unfolding required
required-eq_nil_iff line [] = (λ h. tt, λ h. cc)
required-eq_nil_iff line (f ∷ fields) = ground (arith, required-eq_nil_iff line fields)

-- A value that was there and passes its test is handed on unchanged.
pub nonnegative_iff :
    (field : String) (o : Option Decimal) (line : Option ℕ)
    → HasValue o
    → ((nonnegative field o line).1 ≡ []) ↔ (IsNonnegative o × ((nonnegative field o line).0 ≡ o))
unfolding nonnegative
nonnegative_iff field none line h = absurd h
nonnegative_iff field (some v) line h =
    ground (arith, le_of_not_lt (of_ℕ 0) v, not_lt_of_le (of_ℕ 0) v)

pub positive_quantity_iff :
    (o : Option Decimal) (n : ℕ)
    → HasValue o
    → ((positive_quantity o n).1 ≡ []) ↔ (IsPositive o × ((positive_quantity o n).0 ≡ o))
unfolding positive_quantity
positive_quantity_iff none n h = absurd h
positive_quantity_iff (some v) n h =
    ground (arith, lt_of_not_le v (of_ℕ 0), not_le_of_lt v (of_ℕ 0))

pub fractional_rate_iff :
    (o : Option Decimal) (n : ℕ)
    → HasValue o
    → ((fractional_rate o n).1 ≡ []) ↔ (IsFraction o × ((fractional_rate o n).0 ≡ o))
unfolding fractional_rate
fractional_rate_iff none n h = absurd h
fractional_rate_iff (some v) n h = ground arith

-- A value in range is handed on, with no issue.
pub nonnegative_pass :
    (field : String) (o : Option Decimal) (line : Option ℕ)
    → IsNonnegative o
    → nonnegative field o line ≡ (o, [])
unfolding nonnegative
nonnegative_pass field none line h = absurd h
nonnegative_pass field (some v) line h = rw (not_lt_of_le _ _ h)

pub positive_quantity_pass :
    (o : Option Decimal) (n : ℕ) → IsPositive o → positive_quantity o n ≡ (o, [])
unfolding positive_quantity
positive_quantity_pass none n h = absurd h
positive_quantity_pass (some v) n h = rw (not_le_of_lt _ _ h)

pub fractional_rate_pass :
    (o : Option Decimal) (n : ℕ) → IsFraction o → fractional_rate o n ≡ (o, [])
unfolding fractional_rate
fractional_rate_pass none n h = absurd h
fractional_rate_pass (some v) n h = rw (h.0, h.1)

pub HasText-iff : (o : Option String) → (is_missing (observed_text o) ≡ false) ↔ HasText o
HasText-iff none = ground arith
HasText-iff (some s) = ground arith

pub HasValue-iff {ℓ} : {A : Type ℓ} (o : Option A) → (is_missing (observed o) ≡ false) ↔ HasValue o
HasValue-iff none = ground arith
HasValue-iff (some a) = ground arith

-- No issues from a row of helpers: none from each.
pub six-eq_nil_iff :
    (a b c d e f : Issues)
    → ((a ++ (b ++ (c ++ (d ++ e)))) ++ f ≡ [])
      ↔ ((a ≡ []) × (b ≡ []) × (c ≡ []) × (d ≡ []) × (e ≡ []) × (f ≡ []))
six-eq_nil_iff [] [] [] [] [] f = ground arith
six-eq_nil_iff [] [] [] [] (x ∷ e) f = ground arith
six-eq_nil_iff [] [] [] (x ∷ d) e f = ground arith
six-eq_nil_iff [] [] (x ∷ c) d e f = ground arith
six-eq_nil_iff [] (x ∷ b) c d e f = ground arith
six-eq_nil_iff (x ∷ a) b c d e f = ground arith
