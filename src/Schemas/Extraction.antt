-- ===== src/Schemas/Extraction.antt =====
-- schemas/extraction.py: what was read from a document.
use invoice_ops.Prelude.{ℕ, Bool, true, Option, none, some, List, String}
use invoice_ops.Decimal.{Decimal, of_ℕ, eq}

-- `ExtractedField[T]`
pub record ExtractedField (A : Type 0) : Type 0 where
  pub value : Option A
  pub confidence : Decimal

-- `validate_unknown_confidence`
unfoldable pub is_known_or_zero : {A : Type 0} → ExtractedField A → Bool
unfolding eq
is_known_or_zero f = elim f.value [ none ↦ eq f.confidence (of_ℕ 0) | some v ↦ true ]

pub record InvoiceLineItem : Type 0 where
  pub description : ExtractedField String
  pub quantity : ExtractedField Decimal
  pub unit_price : ExtractedField Decimal
  pub tax_rate : ExtractedField Decimal
  pub line_total : ExtractedField Decimal

pub record InvoiceExtraction : Type 0 where
  pub vendor_name : ExtractedField String
  pub vendor_tax_id : ExtractedField String
  pub bank_account_iban : ExtractedField String
  pub invoice_number : ExtractedField String
  pub po_number : ExtractedField String
  pub currency : ExtractedField String
  pub invoice_date : ExtractedField ℕ
  pub due_date : ExtractedField ℕ
  pub subtotal : ExtractedField Decimal
  pub tax_amount : ExtractedField Decimal
  pub total_amount : ExtractedField Decimal
  pub line_items : List InvoiceLineItem
