-- ===== src/Tests/Amounts.antt =====
-- Amounts, validation and comparison at concrete data.
use invoice_ops.Prelude.{◌≡◌, refl, ◌↔◌, true, is_some, some, [], ◌∷◌}
use invoice_ops.Decimal.{of_ℕ, add, total}
use invoice_ops.Schemas.Validation.{ValidationStatus, default_validation_config}
use invoice_ops.Schemas.Matching.{default_match_config, has_consistent_relations}
use invoice_ops.Validation.{validate_invoice}
use invoice_ops.Validation.Soundness.{IsSound, validate_invoice-pass_iff}
use invoice_ops.Matching.{match_invoice}
use invoice_ops.Matching.Receipts.{
  received, amount_at, receive_all, receive_lines, receive_line, zero_totals, set_amount,
}
use invoice_ops.Matching.Conservation.{all_quantities, received_conserves}
use invoice_ops.Matching.Totality.{match_invoice_total}
use invoice_ops.Samples.{
  plain_digests, plain_tables, sample_invoice, sample_snapshot, sample_match_request,
}

validate_invoice-pass_iff_example :
    ((validate_invoice plain_digests sample_invoice default_validation_config).status
      ≡ ValidationStatus.pass)
    ↔ IsSound default_validation_config sample_invoice
validate_invoice-pass_iff_example =
    validate_invoice-pass_iff plain_digests sample_invoice default_validation_config

received_conserves_example :
    amount_at ((1, of_ℕ 2) ∷ []) 1 ≡ some (total (all_quantities 1 sample_snapshot.goods_receipts))
unfolding received receive_all receive_lines receive_line amount_at zero_totals set_amount add
received_conserves_example = received_conserves sample_snapshot ((1, of_ℕ 2) ∷ []) 1 refl refl

match_invoice_total_example :
    is_some (match_invoice plain_digests plain_tables sample_match_request default_match_config)
    ≡ true
unfolding has_consistent_relations
match_invoice_total_example =
    match_invoice_total plain_digests plain_tables sample_match_request default_match_config
      sample_snapshot refl refl
