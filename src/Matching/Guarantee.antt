-- ===== src/Matching/Guarantee.antt =====
-- What a PASS of the three-way comparison guarantees of every amount.
use invoice_ops.Prelude.{
  length, show, ◌≡◌, true, false, none, some, List, ◌++◌, map, arith, inl, inr, all-append, all-map,
}
use invoice_ops.Decimal.{Decimal, of_ℕ}
use invoice_ops.Schemas.Extraction.{InvoiceExtraction}
use invoice_ops.Schemas.Matching.{
  MatchConfig, MatchRequest, ErpSnapshot, MatchResult, MatchStatus, is_match, IdentityCheck,
  NumericCheck, at_most, subtotal_ordered, subtotal_received, receipt_vs_order_total,
}
use invoice_ops.Schemas.Digests.{Digests, UnicodeTables}
use invoice_ops.Matching.{header_identities, header_numerics, unmatched, matched, match_invoice}
use invoice_ops.Matching.Checks.{identity, tolerance_of}
use invoice_ops.Matching.Receipts.{Totals, received, received_value_from}
use invoice_ops.Matching.Tolerance.{Passes, numeric-match_iff}
use invoice_ops.Matching.Verdict.{Compared, inversion, verdict-pass_iff}
use invoice_ops.Matching.Agreement.{
  SameText, identity_match, all_match, all_same, LinesAgree, line_checks_match,
}

-- The tolerance of a comparison of document totals.
abbrev pub amount_tolerance : MatchConfig → Decimal → Decimal
amount_tolerance config expected =
    tolerance_of expected config.amount_absolute_tolerance config.amount_relative_tolerance

-- What a PASS says: a snapshot was found and its receipts add up; the order number, the vendor, the
-- currency and the number of lines read the same; the invoice's subtotal exceeds neither the ordered nor the received value by
-- more than the tolerance, nor the received value the ordered one; and every line agrees.
pub record PassGuarantee (tables : UnicodeTables) (request : MatchRequest) (config : MatchConfig)
    : Type 0 where
  pub snapshot : ErpSnapshot
  pub totals : Totals
  pub value : Decimal
  pub has_snapshot : request.snapshot ≡ some snapshot
  pub has_totals : received snapshot ≡ some totals
  pub has_value : received_value_from totals (of_ℕ 0) snapshot.purchase_order.lines ≡ some value
  pub same_order :
      SameText tables snapshot.purchase_order.po_number request.extraction.po_number.value
  pub same_vendor : SameText tables snapshot.vendor.name request.extraction.vendor_name.value
  pub same_currency :
      SameText tables snapshot.purchase_order.currency request.extraction.currency.value
  pub same_line_count :
      SameText tables
        (show (length snapshot.purchase_order.lines))
        (some (show (length request.extraction.line_items)))
  pub within_order :
      Passes at_most snapshot.purchase_order.total_amount request.extraction.subtotal.value
        (amount_tolerance config snapshot.purchase_order.total_amount)
        false
  pub within_received :
      Passes at_most value request.extraction.subtotal.value (amount_tolerance config value) false
  pub received_within_order :
      Passes at_most snapshot.purchase_order.total_amount
        (some value)
        (amount_tolerance config snapshot.purchase_order.total_amount)
        false
  pub lines_agree : LinesAgree tables config request.extraction totals snapshot.purchase_order.lines

-- A PASS over joined lists of checks: each check has status MATCH.
matched_split :
    (digests : Digests) (request : MatchRequest) (config : MatchConfig) (snapshot : ErpSnapshot)
    (texts rest : List IdentityCheck) (amounts others : List NumericCheck)
    → (matched digests request config snapshot (texts ++ rest) (amounts ++ others)).status
      ≡ MatchStatus.pass
    → (all_same texts ≡ true)
      × (all_same rest ≡ true)
      × (all_match amounts ≡ true)
      × (all_match others ≡ true)
unfolding matched
matched_split digests request config snapshot texts rest amounts others h =
    let text_status = λ (check : IdentityCheck). check.status in
    let amount_status = λ (check : NumericCheck). check.status in
    let found = (verdict-pass_iff _).0 h in
    ground (
      arith,
      all-append is_match (map text_status (texts ++ rest)) (map amount_status (amounts ++ others)),
      all-map is_match text_status (texts ++ rest),
      all-map is_match amount_status (amounts ++ others),
      all-append (λ check. is_match (text_status check)) texts rest,
      all-append (λ check. is_match (amount_status check)) amounts others,
    )

header_texts :
    (tables : UnicodeTables) (extraction : InvoiceExtraction) (n : ErpSnapshot)
    → all_same (header_identities tables extraction n) ≡ true
    → SameText tables n.purchase_order.po_number extraction.po_number.value
      × SameText tables n.vendor.name extraction.vendor_name.value
      × SameText tables n.purchase_order.currency extraction.currency.value
      × SameText tables
          (show (length n.purchase_order.lines))
          (some (show (length extraction.line_items)))
unfolding header_identities identity
header_texts tables extraction n h = (
  identity_match tables _ extraction.po_number.value (ground arith),
  identity_match tables _ extraction.vendor_name.value (ground arith),
  identity_match tables _ extraction.currency.value (ground arith),
  identity_match tables _ (some (show (length extraction.line_items))) (ground arith),
)

header_amounts :
    (config : MatchConfig) (extraction : InvoiceExtraction) (n : ErpSnapshot) (value : Decimal)
    → all_match (header_numerics config extraction n value) ≡ true
    → let ordered = n.purchase_order.total_amount in
      Passes at_most ordered extraction.subtotal.value (amount_tolerance config ordered) false
      × Passes at_most value extraction.subtotal.value (amount_tolerance config value) false
      × Passes at_most ordered (some value) (amount_tolerance config ordered) false
unfolding header_numerics
header_amounts config extraction n value h =
    let ordered = n.purchase_order.total_amount in
    let a = config.amount_absolute_tolerance in
    let r = config.amount_relative_tolerance in
    let subtotal = extraction.subtotal.value in
    (
      (numeric-match_iff subtotal_ordered none at_most ordered subtotal a r false).0 (ground arith),
      (numeric-match_iff subtotal_received none at_most value subtotal a r false).0 (ground arith),
      (numeric-match_iff receipt_vs_order_total none at_most ordered (some value) a r false).0
          (ground arith),
    )

Compared-guarantee :
    (digests : Digests) (tables : UnicodeTables) (request : MatchRequest) (config : MatchConfig)
    (result : MatchResult)
    → Compared digests tables request config result
    → result.status ≡ MatchStatus.pass
    → PassGuarantee tables request config
Compared-guarantee digests tables request config result c h =
    let (texts, descriptions, amounts, lines) =
      matched_split digests request config c.snapshot
        (header_identities tables request.extraction c.snapshot) c.identities
        (header_numerics config request.extraction c.snapshot c.value) c.numerics
        (rw c.is_result at h) in
    let (order, vendor, currency, count) =
      header_texts tables request.extraction c.snapshot texts in
    let (ordered, received, total) =
      header_amounts config request.extraction c.snapshot c.value amounts in
    record {
      snapshot = c.snapshot;
      totals = c.totals;
      value = c.value;
      has_snapshot = c.has_snapshot;
      has_totals = c.has_totals;
      has_value = c.has_value;
      same_order = order;
      same_vendor = vendor;
      same_currency = currency;
      same_line_count = count;
      within_order = ordered;
      within_received = received;
      received_within_order = total;
      lines_agree =
          line_checks_match tables config request.extraction c.totals
            c.snapshot.purchase_order.lines c.identities c.numerics c.has_checks descriptions lines;
    }

-- If `match_invoice` returns PASS, then a snapshot was found and its receipts add up; the order number, the
-- vendor, the currency and the number of lines read the same; the invoice's subtotal exceeds neither the
-- ordered nor the received value by more than the tolerance, nor the received value the ordered one;
-- and every order line has an invoice line whose description reads the same, and whose unit price,
-- quantity and total agree with the order and the receipts.
pub match_invoice_pass :
    (digests : Digests) (tables : UnicodeTables) (request : MatchRequest) (config : MatchConfig)
    (result : MatchResult)
    → match_invoice digests tables request config ≡ some result
    → result.status ≡ MatchStatus.pass
    → PassGuarantee tables request config
match_invoice_pass digests tables request config result h p =
    elim (inversion digests tables request config result h) [
      | inl (e, u) ↦ absurd (unfold unmatched in ground arith)
      | inr c ↦ Compared-guarantee digests tables request config result c p
    ]
