-- ===== src/Decimal/Order.antt =====
-- The order of decimals, and what it means to be within a tolerance.
use invoice_ops.Prelude.{ℕ, ◌+◌, ◌≤◌, ◌≡◌, max, Bool, true, false, arith, inl, inr, Bool-cases, ◌↔◌}
use invoice_ops.Decimal.{Decimal, add, sub, abs, le, lt, eq}
use invoice_ops.Decimal.Value.{
  LeAt, le_iff, lt_iff, lt_of_not_le, not_le_of_lt, add_at, sub_at, abs_at, one_sided,
}

pub places-add : (a b : Decimal) → (add a b).places ≡ max a.places b.places
unfolding add
places-add a b = omega arith

pub places-sub : (a b : Decimal) → (sub a b).places ≡ max a.places b.places
unfolding sub
places-sub a b = omega arith

pub places-abs : (a : Decimal) → (abs a).places ≡ a.places
unfolding abs
places-abs a = omega arith

pub ruleset places_laws = (arith, places-add, places-sub, places-abs)

pub le_trans : (a b c : Decimal) → le a b ≡ true → le b c ≡ true → le a c ≡ true
le_trans a b c h k =
    let n = a.places + b.places + c.places in
    (le_iff n a c (omega arith) (omega arith)).1 (
      omega (
        arith,
        (le_iff n a b (omega arith) (omega arith)).0 h,
        (le_iff n b c (omega arith) (omega arith)).0 k,
      ))

pub le_of_lt : (a b : Decimal) → lt a b ≡ true → le a b ≡ true
le_of_lt a b h =
    let n = a.places + b.places in
    (le_iff n a b (omega arith) (omega arith)).1
      (omega (arith, (lt_iff n a b (omega arith) (omega arith)).0 h))

pub lt_of_le_of_lt : (a b c : Decimal) → le a b ≡ true → lt b c ≡ true → lt a c ≡ true
lt_of_le_of_lt a b c h k =
    let n = a.places + b.places + c.places in
    (lt_iff n a c (omega arith) (omega arith)).1 (
      omega (
        arith,
        (le_iff n a b (omega arith) (omega arith)).0 h,
        (lt_iff n b c (omega arith) (omega arith)).0 k,
      ))

-- The difference of `a` and `e` at `n` places is within `t` on both sides.
within_at :
    (n : ℕ) (a e t : Decimal)
    → a.places ≤ n
    → e.places ≤ n
    → t.places ≤ n
    → LeAt n (abs (sub a e)) t ↔ (LeAt n a (add e t) × LeAt n e (add a t))
within_at n a e t ha he ht =
    let s = sub_at n a e ha he in
    let (m, z) = abs_at n (sub a e) in
    let p = add_at n e t he ht in
    let q = add_at n a t ha ht in
    elim (one_sided n (sub a e)) [
      | inl o ↦ (λ h. (omega arith, omega arith), λ h. omega arith)
      | inr o ↦ (λ h. (omega arith, omega arith), λ h. omega arith)
    ]

-- `abs(a - e) <= t` says that each lies at most `t` above the other.
pub within_iff :
    (a e t : Decimal)
    → (le (abs (sub a e)) t ≡ true) ↔ ((le a (add e t) ≡ true) × (le e (add a t) ≡ true))
within_iff a e t =
    let n = a.places + e.places + t.places in
    let (f, g) = within_at n a e t (omega arith) (omega arith) (omega arith) in
    let (p, q) = le_iff n (abs (sub a e)) t (omega places_laws) (omega arith) in
    let (p', q') = le_iff n a (add e t) (omega arith) (omega places_laws) in
    let (p'', q'') = le_iff n e (add a t) (omega arith) (omega places_laws) in
    (λ h. let (x, y) = f (p h) in (q' x, q'' y), λ h. q (g (p' h.0, p'' h.1)))

pub le_of_not_lt : (a b : Decimal) → lt b a ≡ false → le a b ≡ true
le_of_not_lt a b h = elim (Bool-cases (le a b)) [ inl e ↦ e | inr e ↦ cc (lt_of_not_le a b e) ]

pub not_lt_of_le : (a b : Decimal) → le a b ≡ true → lt b a ≡ false
not_lt_of_le a b h = elim (Bool-cases (lt b a)) [ inl e ↦ cc (not_le_of_lt a b e) | inr e ↦ e ]

-- `a` and `e` differ by `t` at most.
abbrev pub Within : Decimal → Decimal → Decimal → Type 0
Within a e t = (le a (add e t) ≡ true) × (le e (add a t) ≡ true)

-- `a - e <= t` says that `a` lies at most `t` above `e`.
pub sub-le_iff : (a e t : Decimal) → (le (sub a e) t ≡ true) ↔ (le a (add e t) ≡ true)
sub-le_iff a e t =
    let n = a.places + e.places + t.places in
    let s = sub_at n a e (omega arith) (omega arith) in
    let p = add_at n e t (omega arith) (omega arith) in
    let (f, g) = le_iff n (sub a e) t (omega places_laws) (omega arith) in
    let (f', g') = le_iff n a (add e t) (omega arith) (omega places_laws) in
    (λ h. g' (omega (arith, f h)), λ h. g (omega (arith, f' h)))

-- Equal values are those that are ordered both ways.
pub eq_iff_le : (a b : Decimal) → (eq a b ≡ true) ↔ ((le a b ≡ true) × (le b a ≡ true))
unfolding eq le
eq_iff_le a b =
    let e : max b.places a.places ≡ max a.places b.places = omega arith in rw e (ground arith)

-- What `_numeric` and `_line_values` ask of a positive amount: neither negative nor zero.
pub positive_iff : (a z : Decimal) → ((lt a z ≡ false) × (eq a z ≡ false)) ↔ (lt z a ≡ true)
positive_iff a z =
    let (f, g) = eq_iff_le a z in
    (
      λ h. elim (Bool-cases (le a z)) [
        | inl e ↦ cc (g (e, le_of_not_lt z a h.0))
        | inr e ↦ lt_of_not_le a z e
      ],
      λ h. (
        not_lt_of_le z a (le_of_lt z a h),
        elim (Bool-cases (eq a z)) [ inl e ↦ cc ((f e).0, not_le_of_lt a z h) | inr e ↦ e ],
      ),
    )
