-- ===== src/Matching/Tolerance.antt =====
-- What a MATCH of a numeric check says of the amounts.
use invoice_ops.Prelude.{ℕ, ◌≡◌, ◌↔◌, Bool, true, false, Option, none, some, arith}
use invoice_ops.Decimal.{Decimal, of_ℕ, add, le, lt}
use invoice_ops.Decimal.Order.{
  Within, within_iff, sub-le_iff, positive_iff, le_of_not_lt, not_lt_of_le,
}
use invoice_ops.Schemas.Matching.{match, NumericField, Rule, equal, at_most}
use invoice_ops.Matching.Checks.{numeric, numeric_matches, tolerance_of}

-- The sign that an amount must have.
abbrev pub HasSign : Bool → Decimal → Type 0
HasSign true actual = lt (of_ℕ 0) actual ≡ true
HasSign false actual = le (of_ℕ 0) actual ≡ true

-- An equal amount lies within the tolerance on both sides; one with an upper bound lies at most the
-- tolerance above it.
abbrev pub Agrees : Rule → Decimal → Decimal → Decimal → Type 0
Agrees equal expected actual tolerance = Within actual expected tolerance
Agrees at_most expected actual tolerance = le actual (add expected tolerance) ≡ true

-- An amount is known, agrees with what is expected, and has its sign.
abbrev pub Passes : Rule → Decimal → Option Decimal → Decimal → Bool → Type 0
Passes rule expected none tolerance positive_actual = ⊥
Passes rule expected (some actual) tolerance positive_actual =
    Agrees rule expected actual tolerance × HasSign positive_actual actual

numeric_matches_iff :
    (rule : Rule) (e a t : Decimal) (p : Bool)
    → (numeric_matches rule e a t p ≡ true) ↔ (Agrees rule e a t × HasSign p a)
unfolding numeric_matches
numeric_matches_iff equal e a t true = ground (arith, within_iff a e t, positive_iff a (of_ℕ 0))
numeric_matches_iff equal e a t false =
    ground (arith, within_iff a e t, le_of_not_lt (of_ℕ 0) a, not_lt_of_le (of_ℕ 0) a)
numeric_matches_iff at_most e a t true = ground (arith, sub-le_iff a e t, positive_iff a (of_ℕ 0))
numeric_matches_iff at_most e a t false =
    ground (arith, sub-le_iff a e t, le_of_not_lt (of_ℕ 0) a, not_lt_of_le (of_ℕ 0) a)

pub numeric-match_iff :
    (field : NumericField) (line : Option ℕ) (rule : Rule) (expected : Decimal)
    (actual : Option Decimal) (absolute relative : Decimal) (positive_actual : Bool)
    → ((numeric field line rule expected actual absolute relative positive_actual).status ≡ match)
      ↔ Passes rule expected actual (tolerance_of expected absolute relative) positive_actual
unfolding numeric
numeric-match_iff field line rule e none b r p = ground arith
numeric-match_iff field line rule e (some a) b r p =
    ground (arith, numeric_matches_iff rule e a (tolerance_of e b r) p)
