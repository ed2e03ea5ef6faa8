-- ===== src/Matching.antt =====
-- tools/matching.py `match_invoice`: the three-way comparison of invoice, purchase order and goods
-- receipts, over the checks of the modules below. `none` stands for the `KeyError` of a receipt
-- line that names no purchase order line.
pub mod Agreement
pub mod Checks
pub mod Receipts
pub mod Lines
pub mod Tolerance
pub mod Conservation
pub mod Totality
pub mod Verdict
pub mod Guarantee
use invoice_ops.Prelude.{
  ℕ, Bool, true, false, Option, none, some, List, [], ◌∷◌, ◌++◌, map, any, length, show,
  if◌then◌else◌,
}
use invoice_ops.Decimal.{Decimal, of_ℕ}
use invoice_ops.Schemas.Extraction.{InvoiceExtraction}
use invoice_ops.Schemas.Matching.{
  MatchConfig, ErpSnapshot, MatchRequest, CheckStatus, is_mismatch, is_unknown, po_number,
  vendor_name, currency, line_count, IdentityCheck, NumericField, subtotal_ordered,
  subtotal_received, receipt_vs_order_total, at_most, NumericCheck, MatchStatus, MatchResult,
}
use invoice_ops.Schemas.Digests.{Digests, UnicodeTables}
use Checks.{identity, numeric}
use Receipts.{received, received_value_from}
use Lines.{line_checks}

-- The checks of the document as a whole.
unfoldable pub header_identities :
    UnicodeTables → InvoiceExtraction → ErpSnapshot → List IdentityCheck
header_identities tables extraction snapshot =
    let order = snapshot.purchase_order in
    identity tables po_number none order.po_number extraction.po_number.value
    ∷ identity tables vendor_name none snapshot.vendor.name extraction.vendor_name.value
    ∷ identity tables currency none order.currency extraction.currency.value
    ∷ identity tables line_count none (show (length order.lines))
        (some (show (length extraction.line_items)))
    ∷ []

unfoldable pub header_numerics :
    MatchConfig → InvoiceExtraction → ErpSnapshot → Decimal → List NumericCheck
header_numerics config extraction snapshot received_value =
    let ordered = snapshot.purchase_order.total_amount in
    let against = λ (field : NumericField) (expected : Decimal) (actual : Option Decimal).
      numeric field none at_most expected actual config.amount_absolute_tolerance
        config.amount_relative_tolerance false in
    against subtotal_ordered ordered extraction.subtotal.value
    ∷ against subtotal_received received_value extraction.subtotal.value
    ∷ against receipt_vs_order_total ordered (some received_value)
    ∷ []

-- FAIL for a mismatch, else INCOMPLETE for an unknown, else PASS.
unfoldable pub verdict : List CheckStatus → MatchStatus
verdict statuses =
    if any is_mismatch statuses
    then MatchStatus.fail
    else if any is_unknown statuses
    then MatchStatus.incomplete
    else MatchStatus.pass

-- The result where no snapshot was found.
unfoldable pub unmatched : Digests → MatchRequest → MatchConfig → MatchResult
unmatched digests request config = record {
  status = MatchStatus.incomplete;
  snapshot_found = false;
  po_number = request.extraction.po_number.value;
  po_status = none;
  extraction_sha256 = digests.of_extraction request.extraction;
  snapshot_sha256 = none;
  config_sha256 = digests.of_match_config config;
  config = config;
  identity_checks = [];
  numeric_checks = [];
}

-- The result from all the checks.
unfoldable pub matched :
    Digests
    → MatchRequest
    → MatchConfig
    → ErpSnapshot
    → List IdentityCheck
    → List NumericCheck
    → MatchResult
matched digests request config snapshot identities numerics = record {
  status = verdict (
      map (λ (check : IdentityCheck). check.status) identities
      ++ map (λ (check : NumericCheck). check.status) numerics);
  snapshot_found = true;
  po_number = some snapshot.purchase_order.po_number;
  po_status = some snapshot.purchase_order.status;
  extraction_sha256 = digests.of_extraction request.extraction;
  snapshot_sha256 = some (digests.of_snapshot snapshot);
  config_sha256 = digests.of_match_config config;
  config = config;
  identity_checks = identities;
  numeric_checks = numerics;
}

-- `match_invoice` with a snapshot.
unfoldable pub match_snapshot :
    Digests → UnicodeTables → MatchRequest → MatchConfig → ErpSnapshot → Option MatchResult
match_snapshot digests tables request config snapshot =
    let lines = snapshot.purchase_order.lines in
    elim (received snapshot) [
      | none ↦ none
      | some totals ↦ elim (received_value_from totals (of_ℕ 0) lines) [
        | none ↦ none
        | some value ↦ elim (line_checks tables config request.extraction totals lines) [
          | none ↦ none
          | some (identities, numerics) ↦ some (
              matched digests request config snapshot
                (header_identities tables request.extraction snapshot ++ identities)
                (header_numerics config request.extraction snapshot value ++ numerics))
        ]
      ]
    ]

-- `match_invoice`
unfoldable pub match_invoice :
    Digests → UnicodeTables → MatchRequest → MatchConfig → Option MatchResult
match_invoice digests tables request config = elim request.snapshot [
  | none ↦ some (unmatched digests request config)
  | some snapshot ↦ match_snapshot digests tables request config snapshot
]
