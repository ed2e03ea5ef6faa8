-- ===== src/Gate/Score.antt =====
-- The terms of the gate's score.
use invoice_ops.Prelude.{
  ◌≡◌, refl, Bool, true, false, Option, none, some, List, [], ◌∷◌, not, ◌||◌, is_empty, arith,
  Bool-cases, Option-cases, inl, inr,
}
use invoice_ops.Decimal.{Decimal, of_ℕ, le, lt, min_of, max_of}
use invoice_ops.Decimal.Order.{le_trans, le_of_lt, le_of_not_lt}
use invoice_ops.Schemas.Matching.{NumericCheck, MatchResult}
use invoice_ops.Decimal.Rounding.{abs_to, div_to}
use invoice_ops.Schemas.Gate.{precision}
use invoice_ops.Gate.{
  equal_checks, ratio_of, known_ratio, gap_ratio, largest_gap, normalized_match_delta,
}

le_refl : (a : Decimal) → le a a ≡ true
unfolding le
le_refl a = ground arith

zero_le_one : le (of_ℕ 0) (of_ℕ 1) ≡ true
unfolding le
zero_le_one = refl

min_of-le : (a b : Decimal) → (le (min_of a b) a ≡ true) × (le (min_of a b) b ≡ true)
unfolding min_of
min_of-le a b = elim (Bool-cases (lt b a)) [
  | inl e ↦ rw e (le_of_lt b a e, le_refl b)
  | inr e ↦ rw e (le_refl a, le_of_not_lt a b e)
]

le-max_of : (a b : Decimal) → le a (max_of a b) ≡ true
unfolding max_of
le-max_of a b = elim (Bool-cases (lt a b)) [
  | inl e ↦ rw e (le_of_lt a b e)
  | inr e ↦ rw e (le_refl a)
]

max_of-le : (a b c : Decimal) → le a c ≡ true → le b c ≡ true → le (max_of a b) c ≡ true
unfolding max_of
max_of-le a b c h k = ground arith

ratio_of-le : (floor e a d : Decimal) → le (ratio_of floor e a d) (of_ℕ 1) ≡ true
unfolding ratio_of
ratio_of-le floor e a d =
    (min_of-le (of_ℕ 1) (
      div_to precision (abs_to precision d)
        (max_of (max_of (abs_to precision e) (abs_to precision a)) floor))).0

known_ratio-le :
    (floor : Decimal) (known : Bool) (e a d : Option Decimal) (ratio : Decimal)
    → known_ratio floor known e a d ≡ some ratio
    → le ratio (of_ℕ 1) ≡ true
unfolding known_ratio
known_ratio-le floor false (some e) (some a) (some d) ratio h =
    ground (arith, ratio_of-le floor e a d)
known_ratio-le floor true (some e) (some a) (some d) ratio h = ground arith
known_ratio-le floor _ none _ _ ratio h = ground arith
known_ratio-le floor _ (some e) none _ ratio h = ground arith
known_ratio-le floor _ (some e) (some a) none ratio h = ground arith

gap_ratio-le :
    (floor : Decimal) (check : NumericCheck) (ratio : Decimal)
    → gap_ratio floor check ≡ some ratio
    → le ratio (of_ℕ 1) ≡ true
unfolding gap_ratio
gap_ratio-le floor check ratio h = known_ratio-le floor _ _ _ _ ratio h

largest_gap_bounds :
    (floor largest : Decimal) (checks : List NumericCheck)
    → le (of_ℕ 0) largest ≡ true
    → le largest (of_ℕ 1) ≡ true
    → (le (of_ℕ 0) (largest_gap floor largest checks) ≡ true)
      × (le (largest_gap floor largest checks) (of_ℕ 1) ≡ true)
unfolding largest_gap
largest_gap_bounds floor largest [] h k = (h, k)
largest_gap_bounds floor largest (check ∷ checks) h k =
    elim (Option-cases (gap_ratio floor check)) [
      | inl e ↦ rw (largest_gap, e) (zero_le_one, le_refl (of_ℕ 1))
      | inr (ratio, e) ↦
          let below = gap_ratio-le floor check ratio e in
          rw (largest_gap, e)
            (largest_gap_bounds floor (max_of largest ratio) checks
              (le_trans _ _ _ h (le-max_of largest ratio))
              (max_of-le largest ratio (of_ℕ 1) k below))
    ]

-- The match term of the score is between 0 and 1.
pub normalized_match_delta_bounds :
    (match : MatchResult) (floor : Decimal)
    → (le (of_ℕ 0) (normalized_match_delta match floor) ≡ true)
      × (le (normalized_match_delta match floor) (of_ℕ 1) ≡ true)
unfolding normalized_match_delta
normalized_match_delta_bounds match floor =
    elim (Bool-cases (not match.snapshot_found || is_empty (equal_checks match.numeric_checks))) [
      | inl e ↦ rw e (zero_le_one, le_refl (of_ℕ 1))
      | inr e ↦ rw e (
          largest_gap_bounds floor (of_ℕ 0) (equal_checks match.numeric_checks) (le_refl (of_ℕ 0))
            zero_le_one)
    ]
