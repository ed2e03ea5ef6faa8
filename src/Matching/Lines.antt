-- ===== src/Matching/Lines.antt =====
-- tools/matching.py: the checks of each purchase order line, in the loop of `match_invoice`.
use invoice_ops.Prelude.{
  ℕ, ◌-◌, true, false, Option, none, some, List, [], ◌∷◌, ◌++◌, length, get_elem?, leb,
  if◌then◌else◌,
}
use invoice_ops.Decimal.{Decimal, of_ℕ, mul}
use invoice_ops.Schemas.Extraction.{ExtractedField, InvoiceLineItem, InvoiceExtraction}
use invoice_ops.Schemas.Erp.{PurchaseOrderLine}
use invoice_ops.Schemas.Matching.{
  MatchConfig, unknown, description, IdentityCheck, NumericField, unit_price, quantity_ordered,
  quantity_received, receipt_vs_order, line_total, equal, at_most, NumericCheck,
}
use invoice_ops.Schemas.Digests.{UnicodeTables}
use invoice_ops.Matching.Checks.{identity, numeric}
use invoice_ops.Matching.Receipts.{Totals, amount_at}

-- What the invoice says in a line, if it has the line.
abbrev pub line_field :
    {A : Type 0} → (InvoiceLineItem → ExtractedField A) → Option InvoiceLineItem → Option A
line_field field none = none
line_field field (some line) = (field line).value

-- The `line_total` check of a line, whose expected value needs the quantity.
unfoldable pub line_total_check :
    MatchConfig → PurchaseOrderLine → Option Decimal → Option Decimal → NumericCheck
line_total_check config line none actual = record {
  field = line_total;
  line_number = some line.line_number;
  rule = equal;
  expected = none;
  actual = actual;
  difference = none;
  tolerance = none;
  status = unknown;
}
line_total_check config line (some quantity) actual =
    numeric line_total (some line.line_number) equal (mul quantity line.unit_price) actual
      config.line_total_absolute_tolerance config.line_total_relative_tolerance false

-- The checks of one purchase order line, in the loop of `match_invoice`. The line numbers are positive,
-- so `number - 1` does not wrap.
unfoldable pub line_identity :
    UnicodeTables → PurchaseOrderLine → Option InvoiceLineItem → IdentityCheck
line_identity tables line invoice_line =
    identity tables description (some line.line_number) line.description
      (line_field (λ l. l.description) invoice_line)

unfoldable pub price_check : MatchConfig → PurchaseOrderLine → Option InvoiceLineItem → NumericCheck
price_check config line invoice_line =
    numeric unit_price (some line.line_number) equal line.unit_price
      (line_field (λ l. l.unit_price) invoice_line) config.price_absolute_tolerance
      config.price_relative_tolerance false

-- The quantity of the invoice line against what was ordered, or what was received.
unfoldable pub quantity_check :
    NumericField → MatchConfig → PurchaseOrderLine → Decimal → Option InvoiceLineItem → NumericCheck
quantity_check field config line expected invoice_line =
    numeric field (some line.line_number) at_most expected
      (line_field (λ l. l.quantity) invoice_line) config.quantity_absolute_tolerance (of_ℕ 0) true

-- What was received against what was ordered.
unfoldable pub receipt_check : MatchConfig → PurchaseOrderLine → Decimal → NumericCheck
receipt_check config line received_quantity =
    numeric receipt_vs_order (some line.line_number) at_most line.quantity (some received_quantity)
      config.quantity_absolute_tolerance (of_ℕ 0) false

unfoldable pub line_numerics :
    MatchConfig → PurchaseOrderLine → Decimal → Option InvoiceLineItem → List NumericCheck
line_numerics config line received_quantity invoice_line =
    price_check config line invoice_line
    ∷ quantity_check quantity_ordered config line line.quantity invoice_line
    ∷ quantity_check quantity_received config line received_quantity invoice_line
    ∷ receipt_check config line received_quantity
    ∷ line_total_check config line (line_field (λ l. l.quantity) invoice_line)
        (line_field (λ l. l.line_total) invoice_line)
    ∷ []

-- `line_items[number - 1] if number <= len(line_items) else None`
unfoldable pub invoice_line_at : InvoiceExtraction → ℕ → Option InvoiceLineItem
invoice_line_at extraction number =
    if leb number (length extraction.line_items)
    then get_elem? extraction.line_items (number - 1)
    else none

-- The loop over the purchase order lines.
unfoldable pub line_checks :
    UnicodeTables
    → MatchConfig
    → InvoiceExtraction
    → Totals
    → List PurchaseOrderLine
    → Option (List IdentityCheck × List NumericCheck)
line_checks tables config extraction totals [] = some ([], [])
line_checks tables config extraction totals (line ∷ lines) =
    let invoice_line = invoice_line_at extraction line.line_number in
    elim (amount_at totals line.line_number) [
      | none ↦ none
      | some quantity ↦ elim (line_checks tables config extraction totals lines) [
        | none ↦ none
        | some (identities, numerics) ↦ some (
          line_identity tables line invoice_line ∷ identities,
          line_numerics config line quantity invoice_line ++ numerics,
        )
      ]
    ]
