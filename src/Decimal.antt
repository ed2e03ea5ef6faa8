-- ===== src/Decimal.antt =====
-- Finite values of Python's `decimal.Decimal`, exactly: an integer coefficient over a power of
-- ten. Operations align the operands as the standard library does. tools/decimal_math.py runs
-- the financial comparisons under sixty digits, where sums and products are exact.
pub mod Value
pub mod Order
pub mod Rounding
use invoice_ops.Prelude.{
  ℕ, ◌+◌, ◌-◌, ◌*◌, ◌^◌, max, Bool, List, [], ◌∷◌, ℤ, pos, pos_part, neg_part, nat_abs, sub_ℕ, leb,
  ltb, ◌==◌, if◌then◌else◌,
}

-- The number `coefficient / 10 ^ places`.
pub record Decimal : Type 0 where
  pub coefficient : ℤ
  pub places : ℕ

-- `Decimal(n)`
abbrev pub of_ℕ : ℕ → Decimal
of_ℕ n = record { coefficient = pos n; places = 0 }

-- The two parts of the coefficient when the value is written with `n` places.
abbrev pub credit : ℕ → Decimal → ℕ
credit n a = pos_part a.coefficient * 10 ^ (n - a.places)

abbrev pub debit : ℕ → Decimal → ℕ
debit n a = neg_part a.coefficient * 10 ^ (n - a.places)

-- `a + b` and `a - b`
unfoldable pub add : Decimal → Decimal → Decimal
add a b =
    let n = max a.places b.places in
    record { coefficient = sub_ℕ (credit n a + credit n b) (debit n a + debit n b); places = n }

unfoldable pub sub : Decimal → Decimal → Decimal
sub a b =
    let n = max a.places b.places in
    record { coefficient = sub_ℕ (credit n a + debit n b) (debit n a + credit n b); places = n }

-- `a * b`
unfoldable pub mul : Decimal → Decimal → Decimal
mul a b = record {
  coefficient =
      sub_ℕ
        (pos_part a.coefficient * pos_part b.coefficient
          + neg_part a.coefficient * neg_part b.coefficient)
        (pos_part a.coefficient * neg_part b.coefficient
          + neg_part a.coefficient * pos_part b.coefficient);
  places = a.places + b.places;
}

-- `abs(a)`
unfoldable pub abs : Decimal → Decimal
abs a = record a { coefficient = pos (nat_abs a.coefficient) }

-- `a <= b`, `a < b` and `a == b`
unfoldable pub le : Decimal → Decimal → Bool
le a b = let n = max a.places b.places in leb (credit n a + debit n b) (credit n b + debit n a)

unfoldable pub lt : Decimal → Decimal → Bool
lt a b = let n = max a.places b.places in ltb (credit n a + debit n b) (credit n b + debit n a)

unfoldable pub eq : Decimal → Decimal → Bool
eq a b = let n = max a.places b.places in credit n a + debit n b == credit n b + debit n a

-- `max(a, b)` and `min(a, b)`: the first argument where they are equal.
unfoldable pub max_of : Decimal → Decimal → Decimal
unfolding lt
max_of a b = if lt a b then b else a

unfoldable pub min_of : Decimal → Decimal → Decimal
unfolding lt
min_of a b = if lt b a then b else a

-- `sum(values, Decimal(0))`
unfoldable pub sum_from : Decimal → List Decimal → Decimal
sum_from acc [] = acc
sum_from acc (x ∷ xs) = sum_from (add acc x) xs

unfoldable pub total : List Decimal → Decimal
unfolding sum_from
total xs = sum_from (of_ℕ 0) xs
