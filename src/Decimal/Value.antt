-- ===== src/Decimal/Value.antt =====
-- Values of decimals, written with a common number of places, so that sums, differences and orders are
-- linear facts between natural numbers.
use native.Mathlib.Nat.{
  pow-suc, pow-zero, add-suc, add-zero, mul-le-mul_right, le_of_mul-le-mul_right,
}
use invoice_ops.Prelude.{
  ℕ, zero, suc, ◌+◌, ◌-◌, ◌*◌, ◌^◌, ◌≤◌, ◌<◌, max, ◌≡◌, ap, ◌↔◌, true, false, arith, pos_part,
  neg_part, sub_ℕ, sub_ℕ_parts, ◌⊎◌, inl, inr, Bool-cases,
}
use invoice_ops.Decimal.{Decimal, credit, debit, add, sub, abs, le, lt}

pub pow-add : (b m n : ℕ) → b ^ (m + n) ≡ b ^ m * b ^ n
pow-add b m zero = rw (add-zero, pow-zero) (omega arith)
pow-add b m (suc n) = rw (add-suc, pow-suc, pow-suc, pow-add b m n) (grind arith)

pub pow-pos : (n : ℕ) → 0 < 10 ^ n
pow-pos zero = omega arith
pow-pos (suc n) = rw pow-suc (omega (arith, pow-pos n))

-- Writing a number with more places multiplies it.
pub scale_widen : (c p m n : ℕ) → p ≤ m → m ≤ n → c * 10 ^ (n - p) ≡ c * 10 ^ (m - p) * 10 ^ (n - m)
scale_widen c p m n h k =
    let e : n - p ≡ (m - p) + (n - m) = omega arith in rw (e, pow-add) (grind arith)

pub credit_widen :
    (m n : ℕ) (a : Decimal) → a.places ≤ m → m ≤ n → credit n a ≡ credit m a * 10 ^ (n - m)
credit_widen m n a h k = scale_widen _ _ m n h k

pub debit_widen :
    (m n : ℕ) (a : Decimal) → a.places ≤ m → m ≤ n → debit n a ≡ debit m a * 10 ^ (n - m)
debit_widen m n a h k = scale_widen _ _ m n h k

-- A common factor that is not 0 does not matter to an order.
scale_le : (x y k : ℕ) → (x ≤ y) ↔ (x * 10 ^ k ≤ y * 10 ^ k)
scale_le x y k = (mul-le-mul_right (10 ^ k), λ h. le_of_mul-le-mul_right h (pow-pos k))

-- `a ≤ b` with `n` places.
abbrev pub LeAt : ℕ → Decimal → Decimal → Type 0
LeAt n a b = credit n a + debit n b ≤ credit n b + debit n a

LeAt-widen :
    (m n : ℕ) (a b : Decimal) → a.places ≤ m → b.places ≤ m → m ≤ n → LeAt m a b ↔ LeAt n a b
LeAt-widen m n a b ha hb k =
    rw
      (
        credit_widen m n a ha k,
        credit_widen m n b hb k,
        debit_widen m n a ha k,
        debit_widen m n b hb k,
      )
      (let (f, g) = scale_le (credit m a + debit m b) (credit m b + debit m a) (n - m) in
        (λ h. omega (arith, f h), λ h. g (omega arith)))

-- With enough places for both, the order is that of the written numbers.
pub le_iff : (n : ℕ) (a b : Decimal) → a.places ≤ n → b.places ≤ n → (le a b ≡ true) ↔ LeAt n a b
unfolding le
le_iff n a b ha hb =
    let (f, g) =
      LeAt-widen (max a.places b.places) n a b (omega arith) (omega arith) (omega arith) in
    (λ h. f (ground arith), λ h. ground (arith, g h))

pub lt_iff :
    (n : ℕ) (a b : Decimal) → a.places ≤ n → b.places ≤ n → (lt a b ≡ true) ↔ ¬ (LeAt n b a)
unfolding lt
lt_iff n a b ha hb =
    let (f, g) =
      LeAt-widen (max a.places b.places) n b a (omega arith) (omega arith) (omega arith) in
    (
      λ h k. ground (arith, g k),
      λ h. ground (arith, λ (k : LeAt (max a.places b.places) b a). h (f k)),
    )

-- `not (a <= b)` is `b < a`.
pub lt_of_not_le : (a b : Decimal) → le a b ≡ false → lt b a ≡ true
lt_of_not_le a b h =
    let n = a.places + b.places in
    (lt_iff n b a (omega arith) (omega arith)).1
      λ k. cc ((le_iff n a b (omega arith) (omega arith)).1 k)

pub not_le_of_lt : (a b : Decimal) → lt b a ≡ true → le a b ≡ false
not_le_of_lt a b h =
    let n = a.places + b.places in
    elim (Bool-cases (le a b)) [
      | inl e ↦ absurd (
          (lt_iff n b a (omega arith) (omega arith)).0 h
            ((le_iff n a b (omega arith) (omega arith)).0 e))
      | inr e ↦ e
    ]

scaled_parts : (x y k : ℕ) → pos_part (sub_ℕ x y) * k + y * k ≡ neg_part (sub_ℕ x y) * k + x * k
scaled_parts x y k = omega (arith, ap (λ (t : ℕ). t * k) (sub_ℕ_parts x y))

-- Sums, differences and magnitudes with `n` places.
pub add_at :
    (n : ℕ) (a b : Decimal)
    → a.places ≤ n
    → b.places ≤ n
    → credit n (add a b) + debit n a + debit n b ≡ debit n (add a b) + credit n a + credit n b
unfolding add
add_at n a b ha hb =
    let m = max a.places b.places in
    let l : m ≤ n = omega arith in
    let p : a.places ≤ m = omega arith in
    let q : b.places ≤ m = omega arith in
    rw
      (credit_widen m n a p l, credit_widen m n b q l, debit_widen m n a p l, debit_widen m n b q l)
      (omega (arith, scaled_parts (credit m a + credit m b) (debit m a + debit m b) (10 ^ (n - m))))

pub abs_at :
    (n : ℕ) (a : Decimal) → (credit n (abs a) ≡ credit n a + debit n a) × (debit n (abs a) ≡ 0)
unfolding abs
abs_at n a = ground arith

pub sub_at :
    (n : ℕ) (a b : Decimal)
    → a.places ≤ n
    → b.places ≤ n
    → credit n (sub a b) + debit n a + credit n b ≡ debit n (sub a b) + credit n a + debit n b
unfolding sub
sub_at n a b ha hb =
    let m = max a.places b.places in
    let l : m ≤ n = omega arith in
    let p : a.places ≤ m = omega arith in
    let q : b.places ≤ m = omega arith in
    rw
      (credit_widen m n a p l, credit_widen m n b q l, debit_widen m n a p l, debit_widen m n b q l)
      (omega (arith, scaled_parts (credit m a + debit m b) (debit m a + credit m b) (10 ^ (n - m))))

-- The written parts are never both positive.
pub one_sided : (n : ℕ) (a : Decimal) → (credit n a ≡ 0) ⊎ (debit n a ≡ 0)
one_sided n a = ground arith
