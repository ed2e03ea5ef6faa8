-- ===== src/Schemas/Matching.antt =====
-- schemas/matching.py: inputs, tolerances and evidence of the three-way comparison.
use invoice_ops.Prelude.{
  ℕ, suc, Bool, true, false, Option, none, some, List, [], ◌∷◌, ◌++◌, String, pos, map, any, all,
  length, leb, is_empty, not, ◌&&◌, ◌||◌, is_some, ◌==◌, str_eq, if◌then◌else◌,
}
use invoice_ops.Prelude.Sets.{distinct}
use invoice_ops.Decimal.{Decimal, of_ℕ}
use invoice_ops.Schemas.Extraction.{InvoiceExtraction}
use invoice_ops.Schemas.Erp.{
  Vendor, PurchaseOrder, PurchaseOrderLine, GoodsReceipt, ReceiptLine, OrderStatus,
}

pub record MatchConfig : Type 0 where
  pub version : String
  pub price_absolute_tolerance : Decimal
  pub price_relative_tolerance : Decimal
  pub quantity_absolute_tolerance : Decimal
  pub line_total_absolute_tolerance : Decimal
  pub line_total_relative_tolerance : Decimal
  pub amount_absolute_tolerance : Decimal
  pub amount_relative_tolerance : Decimal

-- The defaults of `MatchConfig`.
abbrev pub default_match_config : MatchConfig
default_match_config =
    let cent : Decimal = record { coefficient = pos 1; places = 2 } in
    let half_percent : Decimal = record { coefficient = pos 5; places = 3 } in
    record {
      version = "three-way-match@v1";
      price_absolute_tolerance = cent;
      price_relative_tolerance = half_percent;
      quantity_absolute_tolerance = of_ℕ 0;
      line_total_absolute_tolerance = cent;
      line_total_relative_tolerance = half_percent;
      amount_absolute_tolerance = cent;
      amount_relative_tolerance = half_percent;
    }

pub record ErpSnapshot : Type 0 where
  pub vendor : Vendor
  pub purchase_order : PurchaseOrder
  pub goods_receipts : List GoodsReceipt

-- `numbers == list(range(first, first + len(numbers)))`
abbrev pub numbered_from : ℕ → List PurchaseOrderLine → Bool
numbered_from first [] = true
numbered_from first (line ∷ lines) = line.line_number == first && numbered_from (suc first) lines

-- `po_lines.get(number) == sku` for the dict that `{line.line_number: line.sku ...}` builds: a later
-- line of the same number replaces an earlier one.
abbrev pub sku_at : List PurchaseOrderLine → ℕ → Option String
sku_at [] number = none
sku_at (line ∷ lines) number =
    let later = sku_at lines number in
    elim later [
      | some sku ↦ some sku
      | none ↦ if line.line_number == number then some line.sku else none
    ]

abbrev pub has_sku : Option String → String → Bool
has_sku none sku = false
has_sku (some found) sku = str_eq found sku

-- The checks of one receipt in `consistent_relations`.
abbrev pub fits_order : List PurchaseOrderLine → GoodsReceipt → Bool
fits_order lines receipt =
    distinct (map (λ (line : ReceiptLine). line.line_number) receipt.lines)
    && all (λ (line : ReceiptLine). has_sku (sku_at lines line.line_number) line.sku) receipt.lines

-- `ERPSnapshot.consistent_relations`
unfoldable pub has_consistent_relations : ErpSnapshot → Bool
has_consistent_relations snapshot =
    snapshot.vendor.id == snapshot.purchase_order.vendor_id
    && all (λ (receipt : GoodsReceipt). receipt.purchase_order_id == snapshot.purchase_order.id)
        snapshot.goods_receipts
    && not (is_empty snapshot.purchase_order.lines)
    && leb (length snapshot.purchase_order.lines) 500
    && numbered_from 1 snapshot.purchase_order.lines
    && distinct (map (λ (receipt : GoodsReceipt). receipt.id) snapshot.goods_receipts)
    && all (fits_order snapshot.purchase_order.lines) snapshot.goods_receipts

pub record MatchRequest : Type 0 where
  pub run_id : ℕ
  pub invoice_id : ℕ
  pub trace_id : String
  pub extraction : InvoiceExtraction
  pub snapshot : Option ErpSnapshot

pub data CheckStatus : Type 0 where
  match mismatch unknown : CheckStatus

abbrev pub is_match : CheckStatus → Bool
is_match match = true
is_match _ = false

abbrev pub is_mismatch : CheckStatus → Bool
is_mismatch mismatch = true
is_mismatch _ = false

abbrev pub is_unknown : CheckStatus → Bool
is_unknown unknown = true
is_unknown _ = false

pub data IdentityField : Type 0 where
  po_number vendor_name currency line_count description : IdentityField

pub record IdentityCheck : Type 0 where
  pub field : IdentityField
  pub line_number : Option ℕ
  pub expected : Option String
  pub actual : Option String
  pub status : CheckStatus

pub data NumericField : Type 0 where
  unit_price quantity_ordered quantity_received receipt_vs_order line_total : NumericField
  subtotal_ordered subtotal_received receipt_vs_order_total : NumericField

pub data Rule : Type 0 where
  equal at_most : Rule

pub record NumericCheck : Type 0 where
  pub field : NumericField
  pub line_number : Option ℕ
  pub rule : Rule
  pub expected : Option Decimal
  pub actual : Option Decimal
  pub difference : Option Decimal
  pub tolerance : Option Decimal
  pub status : CheckStatus

pub data MatchStatus : Type 0 where
  pass fail incomplete : MatchStatus

abbrev pub is_pass : MatchStatus → Bool
is_pass MatchStatus.pass = true
is_pass _ = false

pub record MatchResult : Type 0 where
  pub status : MatchStatus
  pub snapshot_found : Bool
  pub po_number : Option String
  pub po_status : Option OrderStatus
  pub extraction_sha256 : String
  pub snapshot_sha256 : Option String
  pub config_sha256 : String
  pub config : MatchConfig
  pub identity_checks : List IdentityCheck
  pub numeric_checks : List NumericCheck

abbrev pub same_status : MatchStatus → MatchStatus → Bool
same_status MatchStatus.pass MatchStatus.pass = true
same_status MatchStatus.fail MatchStatus.fail = true
same_status MatchStatus.incomplete MatchStatus.incomplete = true
same_status _ _ = false

-- `[check.status for check in identity] + [check.status for check in numeric]`
unfoldable pub statuses : List IdentityCheck → List NumericCheck → List CheckStatus
statuses identity numeric =
    map (λ (check : IdentityCheck). check.status) identity
    ++ map (λ (check : NumericCheck). check.status) numeric

-- `MatchResult.consistent_decision`
unfoldable pub has_consistent_decision : MatchResult → Bool
unfolding statuses
has_consistent_decision result =
    let found = statuses result.identity_checks result.numeric_checks in
    let expected =
      if any is_mismatch found
      then MatchStatus.fail
      else if not result.snapshot_found || any is_unknown found
      then MatchStatus.incomplete
      else MatchStatus.pass in
    (if result.snapshot_found
      then is_some result.snapshot_sha256
      else not (is_some result.snapshot_sha256))
    && same_status result.status expected
