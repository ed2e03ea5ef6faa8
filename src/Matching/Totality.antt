-- ===== src/Matching/Totality.antt =====
-- Over a snapshot that passes its own validator, `match_invoice` never runs into a `KeyError`.
use invoice_ops.Prelude.{
  String, ℕ, ◌≡◌, refl, true, some, List, [], ◌∷◌, is_some, arith, Option-cases, inl, inr, All,
  All-map, all→All,
}
use invoice_ops.Decimal.{Decimal, of_ℕ, add, mul}
use invoice_ops.Schemas.Extraction.{InvoiceExtraction}
use invoice_ops.Schemas.Erp.{PurchaseOrderLine, ReceiptLine, GoodsReceipt}
use invoice_ops.Schemas.Matching.{
  MatchConfig, MatchRequest, ErpSnapshot, sku_at, has_sku, fits_order, has_consistent_relations,
}
use invoice_ops.Schemas.Digests.{Digests, UnicodeTables}
use invoice_ops.Matching.{match_snapshot, match_invoice}
use invoice_ops.Matching.Receipts.{
  Totals, amount_at, set_amount, zero_totals, receive_line, receive_lines, receive_all, received,
  received_value_from,
}
use invoice_ops.Matching.Lines.{line_checks}
use invoice_ops.Matching.Conservation.{is_ordered, amount_at-set_amount, zero_totals_covers}

-- The dict has every ordered line.
record Covers (lines : List PurchaseOrderLine) (totals : Totals) : Type 0 where
  at : (k : ℕ) → is_ordered lines k ≡ true → is_some (amount_at totals k) ≡ true

module _ (order : List PurchaseOrderLine) where
  sku_ordered :
      (lines : List PurchaseOrderLine) (number : ℕ) (sku : String)
      → has_sku (sku_at lines number) sku ≡ true
      → is_ordered lines number ≡ true
  sku_ordered [] number sku h = cc
  sku_ordered (line ∷ lines) number sku h = ground (arith, sku_ordered lines number sku)

  receive_line_total :
      (line : ReceiptLine) (totals : Totals)
      → Covers order totals
      → is_ordered order line.line_number ≡ true
      → (totals' : Totals) × (receive_line totals line ≡ some totals') × Covers order totals'
  unfolding receive_line
  receive_line_total line totals c o = elim (Option-cases (amount_at totals line.line_number)) [
    | inl p ↦ absurd (ground (arith, c.at line.line_number o))
    | inr (old, p) ↦
        let new = add old line.received_quantity in
        (
          set_amount totals line.line_number new,
          rw (p, receive_line),
          record {
            at =
                λ k h. ground (arith, amount_at-set_amount totals line.line_number new k, c.at k h);
          },
        )
  ]

  receive_lines_total :
      (lines : List ReceiptLine) (totals : Totals)
      → Covers order totals
      → All (λ (line : ReceiptLine). is_ordered order line.line_number ≡ true) lines
      → (totals' : Totals) × (receive_lines totals lines ≡ some totals') × Covers order totals'
  unfolding receive_lines
  receive_lines_total [] totals c o = (totals, refl, c)
  receive_lines_total (line ∷ lines) totals c o =
      let (next, e, c') = receive_line_total line totals c o.0 in
      let (last, e', c'') = receive_lines_total lines next c' o.1 in
      (last, rw (e, receive_lines) e', c'')

  receive_all_total :
      (receipts : List GoodsReceipt) (totals : Totals)
      → Covers order totals
      → All (λ receipt. fits_order order receipt ≡ true) receipts
      → (totals' : Totals) × (receive_all totals receipts ≡ some totals') × Covers order totals'
  unfolding receive_all
  receive_all_total [] totals c o = (totals, refl, c)
  receive_all_total (receipt ∷ receipts) totals c o =
      let fits =
        All-map (λ (line : ReceiptLine). sku_ordered order line.line_number line.sku) receipt.lines
          (all→All (λ (line : ReceiptLine). has_sku (sku_at order line.line_number) line.sku)
            receipt.lines (ground arith)) in
      let (next, e, c') = receive_lines_total receipt.lines totals c fits in
      let (last, e', c'') = receive_all_total receipts next c' o.1 in
      (last, rw (e, receive_all) e', c'')

  value_total :
      (lines : List PurchaseOrderLine) (totals : Totals) (acc : Decimal)
      → Covers order totals
      → All (λ (line : PurchaseOrderLine). is_ordered order line.line_number ≡ true) lines
      → (value : Decimal) × (received_value_from totals acc lines ≡ some value)
  unfolding received_value_from
  value_total [] totals acc c o = (acc, refl)
  value_total (line ∷ lines) totals acc c o =
      elim (Option-cases (amount_at totals line.line_number)) [
        | inl p ↦ absurd (ground (arith, c.at line.line_number o.0))
        | inr (quantity, p) ↦
            let (value, e) =
              value_total lines totals (add acc (mul quantity line.unit_price)) c o.1 in
            (value, rw (p, received_value_from) e)
      ]

  checks_total :
      (tables : UnicodeTables) (config : MatchConfig) (extraction : InvoiceExtraction)
      (lines : List PurchaseOrderLine) (totals : Totals)
      → Covers order totals
      → All (λ (line : PurchaseOrderLine). is_ordered order line.line_number ≡ true) lines
      → is_some (line_checks tables config extraction totals lines) ≡ true
  unfolding line_checks
  checks_total tables config extraction [] totals c o = refl
  checks_total tables config extraction (line ∷ lines) totals c o =
      ground
        (arith, c.at line.line_number o.0, checks_total tables config extraction lines totals c o.1)

ordered_self :
    (lines : List PurchaseOrderLine)
    → All (λ (line : PurchaseOrderLine). is_ordered lines line.line_number ≡ true) lines
ordered_self [] = tt
ordered_self (line ∷ lines) = (
  ground arith,
  All-map (λ (l : PurchaseOrderLine) h. ground (arith, h)) lines (ordered_self lines),
)

-- A consistent snapshot can be matched: the received quantities, the received value and the checks of
-- every line are computed, and a result comes back.
pub match_invoice_total :
    (digests : Digests) (tables : UnicodeTables) (request : MatchRequest) (config : MatchConfig)
    (snapshot : ErpSnapshot)
    → request.snapshot ≡ some snapshot
    → has_consistent_relations snapshot ≡ true
    → is_some (match_invoice digests tables request config) ≡ true
unfolding match_invoice match_snapshot received has_consistent_relations
match_invoice_total digests tables request config snapshot s h =
    let order = snapshot.purchase_order.lines in
    let covers : Covers order (zero_totals order []) = record {
      at = λ k o. rw (zero_totals_covers order [] k o);
    } in
    let (totals, e, c) =
      receive_all_total order snapshot.goods_receipts (zero_totals order []) covers
        (all→All (fits_order order) snapshot.goods_receipts (ground arith)) in
    let (value, v) = value_total order order totals (of_ℕ 0) c (ordered_self order) in
    let checks =
      checks_total order tables config request.extraction order totals c (ordered_self order) in
    elim (Option-cases (line_checks tables config request.extraction totals order)) [
      | inl none_checked ↦ absurd (ground arith)
      | inr (pair, found) ↦ rw (s, match_snapshot, e, v, found)
    ]
