-- ===== src/Decimal/Rounding.antt =====
-- The roundings of Python's `decimal`: `quantize` in the context of tools/decimal_math.py, and the
-- ROUND_HALF_EVEN contexts of a given precision that tools/gate.py and schemas/gate.py compute in. The rounding
-- itself is the standard library's.
use invoice_ops.Prelude.{
  ℕ, zero, suc, ◌+◌, ◌-◌, ◌*◌, ◌/◌, ◌%◌, ◌^◌, Bool, true, false, not, ℤ, pos, negsuc, nat_abs,
  sub_ℕ, ltb, leb, ◌==◌, if◌then◌else◌,
}
use invoice_ops.Decimal.{Decimal, add, sub, mul, abs}

-- The number with this sign and magnitude.
abbrev pub signed : Bool → ℕ → ℤ
signed true m = pos m
signed false m = sub_ℕ 0 m

abbrev pub is_plus : ℤ → Bool
is_plus (pos n) = true
is_plus (negsuc n) = false

-- m / k to the nearest number; a half goes up.
unfoldable pub half_up : ℕ → ℕ → ℕ
half_up m k = (2 * m + k) / (2 * k)

-- m / k to the nearest number; a half goes to the even one.
unfoldable pub half_even : ℕ → ℕ → ℕ
half_even m k =
    let q = m / k in
    let r = m % k in
    if ltb (2 * r) k then q else if ltb k (2 * r) then q + 1 else if q % 2 == 0 then q else q + 1

-- The rounding modes that the contexts use.
pub data Rounding : Type 0 where
  round_half_up round_half_even : Rounding

unfoldable pub rounded : Rounding → ℕ → ℕ → ℕ
unfolding half_up half_even
rounded round_half_up = half_up
rounded round_half_even = half_even

-- The settings of a `decimal.Context` that its users rely on.
pub record Context : Type 0 where
  pub prec : ℕ
  pub rounding : Rounding

-- `exact_context`
abbrev pub exact_context : Context
exact_context = record { prec = 60; rounding = round_half_up }

-- A magnitude with `p` places, written with `n` places.
unfoldable pub requantized : ℕ → ℕ → ℕ → ℕ
unfolding rounded
requantized n p m =
    if leb p n then m * 10 ^ (n - p) else rounded exact_context.rounding m (10 ^ (p - n))

-- `a.quantize(Decimal((0, (1,), -n)))` in `exact_context`, for a result of no more digits than its precision.
unfoldable pub quantize : ℕ → Decimal → Decimal
unfolding requantized
quantize n a = record {
  coefficient = signed (is_plus a.coefficient) (requantized n a.places (nat_abs a.coefficient));
  places = n;
}

-- How many digits stand before what is below `limit`; with `limit` 1, the number of digits.
unfoldable pub digits_above : ℕ → ℕ → ℕ → ℕ
digits_above zero limit m = 0
digits_above (suc fuel) limit m = elim (ltb m limit) [
  | true ↦ 0
  | false ↦ suc (digits_above fuel limit (m / 10))
]

unfoldable pub num_digits : ℕ → ℕ
unfolding digits_above
num_digits m = digits_above m 1 m

-- The result of an operation in a context of `prec` digits under ROUND_HALF_EVEN.
unfoldable pub round_to : ℕ → Decimal → Decimal
unfolding half_even digits_above
round_to prec a =
    let m = nat_abs a.coefficient in
    let j = digits_above m (10 ^ prec) m in
    record {
      coefficient = signed (is_plus a.coefficient) (half_even m (10 ^ j) * 10 ^ (j - a.places));
      places = a.places - j;
    }

-- The quotient that is rounded in a division of magnitudes, one digit longer than the precision. An
-- inexact one must not look like a tie.
abbrev sticky : ℕ → ℕ → ℕ
sticky x y = let q = x / y in if x % y == 0 then q else if q % 5 == 0 then q + 1 else q

-- `a / b` in such a context, for a `b` that is not 0.
unfoldable pub div_to : ℕ → Decimal → Decimal → Decimal
unfolding round_to num_digits
div_to prec a b =
    let x = nat_abs a.coefficient in
    let y = nat_abs b.coefficient in
    let up = num_digits y + prec + 1 - num_digits x in
    let down = num_digits x - (num_digits y + prec + 1) in
    let same =
      if is_plus a.coefficient then is_plus b.coefficient else not (is_plus b.coefficient) in
    round_to prec (record {
      coefficient = signed same (sticky (x * 10 ^ up) (y * 10 ^ down) * 10 ^ (b.places + down));
      places = a.places + up;
    })

-- `a + b`, `a - b`, `a * b` and `abs(a)` in such a context.
unfoldable pub add_to : ℕ → Decimal → Decimal → Decimal
unfolding round_to add
add_to prec a b = round_to prec (add a b)

unfoldable pub sub_to : ℕ → Decimal → Decimal → Decimal
unfolding round_to sub
sub_to prec a b = round_to prec (sub a b)

unfoldable pub mul_to : ℕ → Decimal → Decimal → Decimal
unfolding round_to mul
mul_to prec a b = round_to prec (mul a b)

unfoldable pub abs_to : ℕ → Decimal → Decimal
unfolding round_to abs
abs_to prec a = round_to prec (abs a)
