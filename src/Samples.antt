-- ===== src/Samples.antt =====
-- Data for the tests: an invoice of one line that agrees with its order and receipt, and the requests made of it.
use invoice_ops.Prelude.{ℕ, some, [], ◌∷◌, pos}
use invoice_ops.Decimal.{Decimal, of_ℕ}
use invoice_ops.Schemas.Extraction.{ExtractedField, InvoiceLineItem, InvoiceExtraction}
use invoice_ops.Schemas.Erp.{active, PurchaseOrder, open_order}
use invoice_ops.Schemas.Matching.{ErpSnapshot, MatchRequest}
use invoice_ops.Schemas.Digests.{Digests, UnicodeTables}

abbrev pub plain_digests : Digests
plain_digests = record {
  of_extraction = λ x. "extraction";
  of_snapshot = λ x. "snapshot";
  of_validation = λ x. "validation";
  of_validation_config = λ x. "validation-config";
  of_match = λ x. "match";
  of_match_config = λ x. "match-config";
  of_taxonomy_request = λ x. "taxonomy-request";
  of_taxonomy = λ x. "taxonomy";
  of_taxonomy_config = λ x. "taxonomy-config";
  of_policy_request = λ x. "policy-request";
  of_policy = λ x. "policy";
  of_policy_config = λ x. "policy-config";
  of_gate = λ x. "gate";
  of_gate_config = λ x. "gate-config";
  of_composite_config = λ x. "composite-config";
  of_text = λ x. x;
}

abbrev pub plain_tables : UnicodeTables
plain_tables = record { fold = λ x. x; upper = λ x. x }

abbrev pub cents : ℕ → Decimal
cents n = record { coefficient = pos n; places = 2 }

abbrev pub sure : {A : Type 0} → A → ExtractedField A
sure a = record { value = some a; confidence = of_ℕ 1 }

abbrev pub sample_line : InvoiceLineItem
sample_line = record {
  description = sure "Bolts";
  quantity = sure (of_ℕ 2);
  unit_price = sure (cents 1000);
  tax_rate = sure (cents 20);
  line_total = sure (cents 2000);
}

abbrev pub sample_invoice : InvoiceExtraction
sample_invoice = record {
  vendor_name = sure "Acme";
  vendor_tax_id = sure "T1";
  bank_account_iban = sure "DE00";
  invoice_number = sure "I-1";
  po_number = sure "PO-1";
  currency = sure "EUR";
  invoice_date = sure 100;
  due_date = sure 130;
  subtotal = sure (cents 2000);
  tax_amount = sure (cents 400);
  total_amount = sure (cents 2400);
  line_items = sample_line ∷ [];
}

abbrev pub sample_order : PurchaseOrder
sample_order = record {
  id = 7;
  vendor_id = 3;
  po_number = "PO-1";
  status = open_order;
  currency = "EUR";
  issued_on = 90;
  total_amount = cents 2000;
  lines =
      record {
        line_number = 1;
        sku = "B";
        description = "Bolts";
        quantity = of_ℕ 2;
        unit_price = cents 1000;
        line_total = cents 2000;
      }
      ∷ [];
  created_at = 90;
}

abbrev pub sample_snapshot : ErpSnapshot
sample_snapshot = record {
  vendor = record {
    id = 3;
    external_id = "V";
    name = "Acme";
    tax_id = some "T1";
    bank_account_iban = some "DE00";
    status = active;
    created_at = 1;
  };
  purchase_order = sample_order;
  goods_receipts =
      record {
        id = 1;
        purchase_order_id = 7;
        receipt_number = "R";
        received_at = 95;
        lines = record { line_number = 1; sku = "B"; received_quantity = of_ℕ 2 } ∷ [];
        created_at = 95;
      }
      ∷ [];
}

abbrev pub sample_match_request : MatchRequest
sample_match_request = record {
  run_id = 1;
  invoice_id = 2;
  trace_id = "t";
  extraction = sample_invoice;
  snapshot = some sample_snapshot;
}
