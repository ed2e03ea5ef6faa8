-- ===== src/Matching/Receipts.antt =====
-- tools/matching.py `_received`: the received quantity of each line. The dict is an association list,
-- and `none` is its `KeyError`.
use invoice_ops.Prelude.{ℕ, Option, none, some, List, [], ◌∷◌, ◌==◌, if◌then◌else◌}
use invoice_ops.Decimal.{Decimal, of_ℕ, add, mul}
use invoice_ops.Schemas.Erp.{PurchaseOrderLine, ReceiptLine, GoodsReceipt}
use invoice_ops.Schemas.Matching.{ErpSnapshot}

-- A dict from line numbers to quantities.
abbrev pub Totals : Type 0
Totals = List (ℕ × Decimal)

-- `totals.get(number)`
unfoldable pub amount_at : Totals → ℕ → Option Decimal
amount_at [] number = none
amount_at ((key, amount) ∷ totals) number =
    if key == number then some amount else amount_at totals number

-- `totals[number] = amount`
unfoldable pub set_amount : Totals → ℕ → Decimal → Totals
set_amount [] number amount = (number, amount) ∷ []
set_amount ((key, old) ∷ totals) number amount =
    if key == number then (key, amount) ∷ totals else (key, old) ∷ set_amount totals number amount

-- `{line.line_number: Decimal(0) for line in lines}`, added to a dict.
unfoldable pub zero_totals : List PurchaseOrderLine → Totals → Totals
zero_totals [] totals = totals
zero_totals (line ∷ lines) totals = zero_totals lines (set_amount totals line.line_number (of_ℕ 0))

-- `totals[line.line_number] += line.received_quantity`
unfoldable pub receive_line : Totals → ReceiptLine → Option Totals
receive_line totals line = elim (amount_at totals line.line_number) [
  | none ↦ none
  | some old ↦ some (set_amount totals line.line_number (add old line.received_quantity))
]

unfoldable pub receive_lines : Totals → List ReceiptLine → Option Totals
receive_lines totals [] = some totals
receive_lines totals (line ∷ lines) = elim (receive_line totals line) [
  | none ↦ none
  | some totals' ↦ receive_lines totals' lines
]

unfoldable pub receive_all : Totals → List GoodsReceipt → Option Totals
receive_all totals [] = some totals
receive_all totals (receipt ∷ receipts) = elim (receive_lines totals receipt.lines) [
  | none ↦ none
  | some totals' ↦ receive_all totals' receipts
]

-- `_received`
unfoldable pub received : ErpSnapshot → Option Totals
received snapshot =
    receive_all (zero_totals snapshot.purchase_order.lines []) snapshot.goods_receipts

-- `sum((received[line.line_number] * line.unit_price for line in lines), Decimal(0))`
unfoldable pub received_value_from : Totals → Decimal → List PurchaseOrderLine → Option Decimal
received_value_from totals acc [] = some acc
received_value_from totals acc (line ∷ lines) = elim (amount_at totals line.line_number) [
  | none ↦ none
  | some quantity ↦ received_value_from totals (add acc (mul quantity line.unit_price)) lines
]
