-- ===== src/Matching/Conservation.antt =====
-- The received quantity of a line is the sum of what the receipts say of it, and a consistent
-- snapshot never runs into the `KeyError`.
use invoice_ops.Prelude.{
  ℕ, ◌≡◌, refl, Bool, true, some, List, [], ◌∷◌, ◌++◌, any, arith, Bool-cases, Option-cases, inl,
  inr, ◌==◌, if◌then◌else◌,
}
use invoice_ops.Decimal.{Decimal, of_ℕ, add, sum_from, total}
use invoice_ops.Schemas.Erp.{PurchaseOrderLine, ReceiptLine, GoodsReceipt}
use invoice_ops.Schemas.Matching.{ErpSnapshot}
use invoice_ops.Matching.Receipts.{
  Totals, amount_at, set_amount, zero_totals, receive_line, receive_lines, receive_all, received,
}

-- Some purchase order line has this number.
abbrev pub is_ordered : List PurchaseOrderLine → ℕ → Bool
is_ordered lines number = any (λ (line : PurchaseOrderLine). line.line_number == number) lines

-- The quantities that receipt lines give for a number, in order.
abbrev pub quantities : ℕ → List ReceiptLine → List Decimal
quantities number [] = []
quantities number (line ∷ lines) =
    let later = quantities number lines in
    if line.line_number == number then line.received_quantity ∷ later else later

abbrev pub all_quantities : ℕ → List GoodsReceipt → List Decimal
all_quantities number [] = []
all_quantities number (receipt ∷ receipts) =
    quantities number receipt.lines ++ all_quantities number receipts

pub amount_at-set_amount :
    (totals : Totals) (number : ℕ) (amount : Decimal) (k : ℕ)
    → amount_at (set_amount totals number amount) k
      ≡ (if number == k then some amount else amount_at totals k)
unfolding amount_at set_amount
amount_at-set_amount [] number amount k = refl
amount_at-set_amount (entry ∷ totals) number amount k =
    ground (arith, amount_at-set_amount totals number amount k)

-- One receipt line either has no place in the dict, or adds its quantity there.
receive_line_adds :
    (line : ReceiptLine) (totals : Totals) {totals' : Totals} (k : ℕ) (v : Decimal)
    → receive_line totals line ≡ some totals'
    → amount_at totals k ≡ some v
    → amount_at totals' k ≡ some (if line.line_number == k then add v line.received_quantity else v)
unfolding receive_line
receive_line_adds line totals k v h e = elim (Option-cases (amount_at totals line.line_number)) [
  | inl p ↦ ground arith
  | inr (old, p) ↦
      ground
        (arith, amount_at-set_amount totals line.line_number (add old line.received_quantity) k)
]

receive_lines_adds :
    (lines : List ReceiptLine) (totals totals' : Totals) (k : ℕ) (v : Decimal)
    → receive_lines totals lines ≡ some totals'
    → amount_at totals k ≡ some v
    → amount_at totals' k ≡ some (sum_from v (quantities k lines))
unfolding receive_lines sum_from
receive_lines_adds [] totals totals' k v h e = ground arith
receive_lines_adds (line ∷ lines) totals totals' k v h e =
    elim (Option-cases (receive_line totals line)) [
      | inl p ↦ ground arith
      | inr (next, p) ↦
          let w = if line.line_number == k then add v line.received_quantity else v in
          ground (
            arith,
            receive_line_adds line totals k v p e,
            receive_lines_adds lines next totals' k w,
          )
    ]

sum_from-append :
    (xs ys : List Decimal) (v : Decimal) → sum_from v (xs ++ ys) ≡ sum_from (sum_from v xs) ys
unfolding sum_from
sum_from-append [] ys v = refl
sum_from-append (x ∷ xs) ys v = sum_from-append xs ys (add v x)

receive_all_adds :
    (receipts : List GoodsReceipt) (totals totals' : Totals) (k : ℕ) (v : Decimal)
    → receive_all totals receipts ≡ some totals'
    → amount_at totals k ≡ some v
    → amount_at totals' k ≡ some (sum_from v (all_quantities k receipts))
unfolding receive_all
receive_all_adds [] totals totals' k v h e = unfold sum_from in ground arith
receive_all_adds (receipt ∷ receipts) totals totals' k v h e =
    elim (Option-cases (receive_lines totals receipt.lines)) [
      | inl p ↦ ground arith
      | inr (next, p) ↦
          let w = sum_from v (quantities k receipt.lines) in
          ground (
            arith,
            sum_from-append (quantities k receipt.lines) (all_quantities k receipts) v,
            receive_lines_adds receipt.lines totals next k v p e,
            receive_all_adds receipts next totals' k w,
          )
    ]

-- A key that is there stays there, with zero for the lines that are set.
zero_totals_keeps :
    (lines : List PurchaseOrderLine) (totals : Totals) (k : ℕ)
    → amount_at totals k ≡ some (of_ℕ 0)
    → amount_at (zero_totals lines totals) k ≡ some (of_ℕ 0)
unfolding zero_totals
zero_totals_keeps [] totals k h = h
zero_totals_keeps (line ∷ lines) totals k h =
    zero_totals_keeps lines (set_amount totals line.line_number (of_ℕ 0)) k
      (ground (arith, amount_at-set_amount totals line.line_number (of_ℕ 0) k))

pub zero_totals_covers :
    (lines : List PurchaseOrderLine) (totals : Totals) (k : ℕ)
    → is_ordered lines k ≡ true
    → amount_at (zero_totals lines totals) k ≡ some (of_ℕ 0)
unfolding zero_totals
zero_totals_covers [] totals k h = cc
zero_totals_covers (line ∷ lines) totals k h =
    let next = set_amount totals line.line_number (of_ℕ 0) in
    elim (Bool-cases (line.line_number == k)) [
      | inl e ↦
          zero_totals_keeps lines next k
            (ground (arith, amount_at-set_amount totals line.line_number (of_ℕ 0) k))
      | inr e ↦ zero_totals_covers lines next k (ground arith)
    ]

-- Where the receipts can be added up, every ordered line has received exactly the sum, from zero and in
-- order, of the quantities that the receipt lines of its number give.
pub received_conserves :
    (snapshot : ErpSnapshot) (totals : Totals) (k : ℕ)
    → received snapshot ≡ some totals
    → is_ordered snapshot.purchase_order.lines k ≡ true
    → amount_at totals k ≡ some (total (all_quantities k snapshot.goods_receipts))
unfolding received total
received_conserves snapshot totals k h o =
    receive_all_adds snapshot.goods_receipts _ totals k (of_ℕ 0) h
      (zero_totals_covers snapshot.purchase_order.lines [] k o)
