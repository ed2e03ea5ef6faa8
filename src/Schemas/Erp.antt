-- ===== src/Schemas/Erp.antt =====
-- schemas/erp.py: vendors, purchase orders and goods receipts.
use invoice_ops.Prelude.{ℕ, Bool, true, false, Option, List, String}
use invoice_ops.Decimal.{Decimal}

pub data VendorStatus : Type 0 where
  active inactive : VendorStatus

pub record Vendor : Type 0 where
  pub id : ℕ
  pub external_id : String
  pub name : String
  pub tax_id : Option String
  pub bank_account_iban : Option String
  pub status : VendorStatus
  pub created_at : ℕ

pub record PurchaseOrderLine : Type 0 where
  pub line_number : ℕ
  pub sku : String
  pub description : String
  pub quantity : Decimal
  pub unit_price : Decimal
  pub line_total : Decimal

pub data OrderStatus : Type 0 where
  open_order partially_received closed cancelled : OrderStatus

abbrev pub is_closed : OrderStatus → Bool
is_closed closed = true
is_closed _ = false

abbrev pub is_cancelled : OrderStatus → Bool
is_cancelled cancelled = true
is_cancelled _ = false

pub record PurchaseOrder : Type 0 where
  pub id : ℕ
  pub vendor_id : ℕ
  pub po_number : String
  pub status : OrderStatus
  pub currency : String
  pub issued_on : ℕ
  pub total_amount : Decimal
  pub lines : List PurchaseOrderLine
  pub created_at : ℕ

pub record ReceiptLine : Type 0 where
  pub line_number : ℕ
  pub sku : String
  pub received_quantity : Decimal

pub record GoodsReceipt : Type 0 where
  pub id : ℕ
  pub purchase_order_id : ℕ
  pub receipt_number : String
  pub received_at : ℕ
  pub lines : List ReceiptLine
  pub created_at : ℕ
