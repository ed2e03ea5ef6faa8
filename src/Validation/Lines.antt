-- ===== src/Validation/Lines.antt =====
-- What it means for a line to be arithmetically sound, and that `_line_values` accepts exactly such lines.
use invoice_ops.Prelude.{ℕ, ◌≡◌, ◌↔◌, Option, none, some, [], ◌∷◌, refl}
use invoice_ops.Decimal.{Decimal, mul}
use invoice_ops.Decimal.Rounding.{quantize}
use invoice_ops.Schemas.Extraction.{InvoiceLineItem}
use invoice_ops.Schemas.Validation.{CurrencyRule}
use invoice_ops.Validation.{
  observed, observed_text, required, line_math, line_tax, line_values, or_zero,
}
use invoice_ops.Validation.Steps.{
  HasText, HasValue, IsNonnegative, IsPositive, IsFraction, LineAddsUp, compare-eq_nil_iff,
  required-eq_nil_iff, nonnegative_iff, positive_quantity_iff, fractional_rate_iff, HasText-iff,
  HasValue-iff, six-eq_nil_iff, nonnegative_pass, positive_quantity_pass, fractional_rate_pass,
}

-- A line with every field, in range, whose total is quantity times price.
pub record LineIsSound (rule : CurrencyRule) (line : InvoiceLineItem) : Type 0 where
  pub described : HasText line.description.value
  pub ordered : IsPositive line.quantity.value
  pub priced : IsNonnegative line.unit_price.value
  pub taxed : IsFraction line.tax_rate.value
  pub totalled : IsNonnegative line.line_total.value
  pub adds_up : LineAddsUp rule line.quantity.value line.unit_price.value line.line_total.value

-- The tax of a line, rounded to the places of the currency.
abbrev pub tax_of : CurrencyRule → InvoiceLineItem → Decimal
tax_of rule line =
    quantize rule.decimal_places (mul (or_zero line.line_total.value) (or_zero line.tax_rate.value))

abbrev pub net_of : InvoiceLineItem → Decimal
net_of line = or_zero line.line_total.value

line_math_iff :
    (rule : CurrencyRule) (q p n : Option Decimal) (k : ℕ)
    → HasValue q
    → HasValue p
    → HasValue n
    → (line_math q p n rule k ≡ []) ↔ LineAddsUp rule q p n
unfolding line_math
line_math_iff rule none p n k hq hp hn = absurd hq
line_math_iff rule (some q) none n k hq hp hn = absurd hp
line_math_iff rule (some q) (some p) none k hq hp hn = absurd hn
line_math_iff rule (some q) (some p) (some n) k hq hp hn = compare-eq_nil_iff _ _ _ _ _ _

-- What `required` asks of a line.
line_fields_iff :
    (line : InvoiceLineItem) (k : ℕ)
    → (required (some k) (
          ("description", observed_text line.description.value)
          ∷ ("quantity", observed line.quantity.value)
          ∷ ("unit_price", observed line.unit_price.value)
          ∷ ("tax_rate", observed line.tax_rate.value)
          ∷ ("line_total", observed line.line_total.value)
          ∷ [])
        ≡ [])
      ↔ (HasText line.description.value
          × HasValue line.quantity.value
          × HasValue line.unit_price.value
          × HasValue line.tax_rate.value
          × HasValue line.line_total.value)
line_fields_iff line k =
    let (f, g) = required-eq_nil_iff (some k) _ in
    let (d, d') = HasText-iff line.description.value in
    let (q, q') = HasValue-iff line.quantity.value in
    let (p, p') = HasValue-iff line.unit_price.value in
    let (r, r') = HasValue-iff line.tax_rate.value in
    let (n, n') = HasValue-iff line.line_total.value in
    (
      λ h. let t = f h in (d t.0, q t.1.0, p t.1.1.0, r t.1.1.1.0, n t.1.1.1.1.0),
      λ t. g (d' t.0, (q' t.1, (p' t.2, (r' t.3, (n' t.4, tt))))),
    )

-- A sound line has every value that `line_fields_iff` asks for.
positive_value : (o : Option Decimal) → IsPositive o → HasValue o
positive_value none h = absurd h
positive_value (some v) h = tt

pub nonnegative_value : (o : Option Decimal) → IsNonnegative o → HasValue o
nonnegative_value none h = absurd h
nonnegative_value (some v) h = tt

fraction_value : (o : Option Decimal) → IsFraction o → HasValue o
fraction_value none h = absurd h
fraction_value (some v) h = tt

-- The tax of a line whose net and rate are there.
line_tax_lem :
    (rule : CurrencyRule) (n r : Option Decimal)
    → HasValue n
    → HasValue r
    → line_tax n r rule ≡ some (quantize rule.decimal_places (mul (or_zero n) (or_zero r)))
unfolding line_tax
line_tax_lem rule none r hn hr = absurd hn
line_tax_lem rule (some n) none hn hr = absurd hr
line_tax_lem rule (some n) (some r) hn hr = refl

some-or_zero : (n : Option Decimal) → HasValue n → n ≡ some (or_zero n)
some-or_zero none h = absurd h
some-or_zero (some n) h = refl

-- `_line_values` raises no issue exactly for a sound line, and hands its net and tax on.
pub line_values_sound :
    (line : InvoiceLineItem) (k : ℕ) (rule : CurrencyRule)
    → (line_values line k (some rule)).1 ≡ []
    → LineIsSound rule line
      × ((line_values line k (some rule)).0 ≡ (some (net_of line), some (tax_of rule line)))
unfolding line_values
line_values_sound line k rule h =
    let parts = (six-eq_nil_iff _ _ _ _ _ _).0 h in
    let present = (line_fields_iff line k).0 parts.0 in
    let price = (nonnegative_iff "unit_price" line.unit_price.value (some k) present.2).0 parts.1 in
    let net = (nonnegative_iff "line_total" line.line_total.value (some k) present.4).0 parts.2 in
    let quantity = (positive_quantity_iff line.quantity.value k present.1).0 parts.3 in
    let rate = (fractional_rate_iff line.tax_rate.value k present.3).0 parts.4 in
    let sum =
      line_math_iff rule line.quantity.value line.unit_price.value line.line_total.value k present.1
        present.2 present.4 in
    (
      record {
        described = present.0;
        ordered = quantity.0;
        priced = price.0;
        taxed = rate.0;
        totalled = net.0;
        adds_up = sum.0 (rw (price.1, net.1, quantity.1) at parts.5);
      },
      rw (
        net.1,
        rate.1,
        line_tax_lem rule _ _ present.4 present.3,
        ← some-or_zero line.line_total.value present.4,
      ),
    )

pub line_values_complete :
    (line : InvoiceLineItem) (k : ℕ) (rule : CurrencyRule)
    → LineIsSound rule line
    → (line_values line k (some rule)).1 ≡ []
unfolding line_values
line_values_complete line k rule s =
    let q = positive_value _ s.ordered in
    let p = nonnegative_value _ s.priced in
    let n = nonnegative_value _ s.totalled in
    let fields = (line_fields_iff line k).1 (s.described, q, p, fraction_value _ s.taxed, n) in
    let sum =
      (line_math_iff rule line.quantity.value line.unit_price.value line.line_total.value k q p n).1
        s.adds_up in
    rw
      (
        fields,
        nonnegative_pass "unit_price" _ (some k) s.priced,
        nonnegative_pass "line_total" _ (some k) s.totalled,
        positive_quantity_pass _ k s.ordered,
        fractional_rate_pass _ k s.taxed,
      )
      sum
