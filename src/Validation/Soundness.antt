-- ===== src/Validation/Soundness.antt =====
-- What it means for an invoice to be arithmetically sound, and that `validate_invoice` passes
-- exactly such invoices.
use invoice_ops.Prelude.{
  ◌&&◌, if◌then◌else◌, ◌≡◌, ◌↔◌, Bool, true, false, Option, none, some, [], ◌∷◌, ◌++◌, String,
  is_empty, All, arith, append-eq_nil_iff, Option-cases, inl, inr, refl, is_some, not,
}
use invoice_ops.Schemas.Extraction.{InvoiceExtraction}
use invoice_ops.Schemas.Validation.{
  CurrencyRule, ValidationConfig, ValidationIssue, ValidationStatus,
}
use invoice_ops.Schemas.Digests.{Digests}
use invoice_ops.Validation.{
  Issues, observed, observed_text, required, lines_from, rule_for, validate, validate_invoice,
}
use invoice_ops.Validation.Steps.{
  HasText, HasValue, IsNonnegative, required-eq_nil_iff, nonnegative_iff, nonnegative_pass,
  HasText-iff, HasValue-iff,
}
use invoice_ops.Validation.Totals.{
  lines_from_sound, lines_from_complete, TotalsAddUp, total_issues_iff,
}
use invoice_ops.Validation.Lines.{LineIsSound, nonnegative_value}

-- An invoice whose fields are there, whose lines are sound, and whose totals add up under the rule
-- of its currency.
pub record IsSound (config : ValidationConfig) (e : InvoiceExtraction) : Type 0 where
  pub rule : CurrencyRule
  pub supported : rule_for config e.currency.value ≡ some rule
  pub seller : HasText e.vendor_name.value
  pub numbered : HasText e.invoice_number.value
  pub priced_in : HasText e.currency.value
  pub dated : HasValue e.invoice_date.value
  pub net : IsNonnegative e.subtotal.value
  pub taxed : IsNonnegative e.tax_amount.value
  pub gross : IsNonnegative e.total_amount.value
  pub has_lines : is_empty e.line_items ≡ false
  pub lines : All (LineIsSound rule) e.line_items
  pub add_up :
      TotalsAddUp rule e.line_items e.subtotal.value e.tax_amount.value e.total_amount.value

-- What `required` asks of the invoice.
header_fields_iff :
    (e : InvoiceExtraction)
    → (required none (
          ("vendor_name", observed_text e.vendor_name.value)
          ∷ ("invoice_number", observed_text e.invoice_number.value)
          ∷ ("currency", observed_text e.currency.value)
          ∷ ("invoice_date", observed e.invoice_date.value)
          ∷ ("subtotal", observed e.subtotal.value)
          ∷ ("tax_amount", observed e.tax_amount.value)
          ∷ ("total_amount", observed e.total_amount.value)
          ∷ [])
        ≡ [])
      ↔ (HasText e.vendor_name.value
          × HasText e.invoice_number.value
          × HasText e.currency.value
          × HasValue e.invoice_date.value
          × HasValue e.subtotal.value
          × HasValue e.tax_amount.value
          × HasValue e.total_amount.value)
header_fields_iff e =
    let (f, g) = required-eq_nil_iff none _ in
    let (v, v') = HasText-iff e.vendor_name.value in
    let (n, n') = HasText-iff e.invoice_number.value in
    let (c, c') = HasText-iff e.currency.value in
    let (d, d') = HasValue-iff e.invoice_date.value in
    let (s, s') = HasValue-iff e.subtotal.value in
    let (t, t') = HasValue-iff e.tax_amount.value in
    let (w, w') = HasValue-iff e.total_amount.value in
    (
      λ h.
          let (a, (b, (c0, (d0, (s0, (t0, (w0, _))))))) = f h in
          (v a, n b, c c0, d d0, s s0, t t0, w w0),
      λ h. g (v' h.0, (n' h.1, (c' h.2, (d' h.3, (s' h.4, (t' h.5, (w' h.6, tt))))))),
    )

text_is_some : (o : Option String) → HasText o → is_some o ≡ true
text_is_some none h = absurd h
text_is_some (some s) h = refl

-- A guarded issue that was not raised.
not_raised :
    (test : Bool) (issue : ValidationIssue) → (if test then issue ∷ [] else []) ≡ [] → test ≡ false
not_raised true issue h = cc
not_raised false issue h = refl

-- No issues from the eight parts of `_validate`: none from each.
eight-eq_nil :
    (a b c d e f g h : Issues)
    → a ++ (b ++ (c ++ (d ++ (e ++ (f ++ (g ++ h)))))) ≡ []
    → (a ≡ []) × (b ≡ []) × (c ≡ []) × (d ≡ []) × (e ≡ []) × (f ≡ []) × (g ≡ []) × (h ≡ [])
eight-eq_nil a b c d e f g h p =
    let (pa, p₁) = (append-eq_nil_iff a _).0 p in
    let (pb, p₂) = (append-eq_nil_iff b _).0 p₁ in
    let (pc, p₃) = (append-eq_nil_iff c _).0 p₂ in
    let (pd, p₄) = (append-eq_nil_iff d _).0 p₃ in
    let (pe, p₅) = (append-eq_nil_iff e _).0 p₄ in
    let (pf, p₆) = (append-eq_nil_iff f _).0 p₅ in
    let (pg, ph) = (append-eq_nil_iff g h).0 p₆ in (pa, pb, pc, pd, pe, pf, pg, ph)

validate-IsSound :
    (e : InvoiceExtraction) (config : ValidationConfig) → validate e config ≡ [] → IsSound config e
unfolding validate
validate-IsSound e config h =
    let rule = rule_for config e.currency.value in
    let parts = eight-eq_nil _ _ _ _ _ _ (lines_from 1 e.line_items rule).1 _ h in
    let unsupported : (is_some e.currency.value && not (is_some rule)) ≡ false =
      not_raised _ _ parts.2 in
    let present = (header_fields_iff e).0 parts.0 in
    let net = (nonnegative_iff "subtotal" e.subtotal.value none present.4).0 parts.3 in
    let tax = (nonnegative_iff "tax_amount" e.tax_amount.value none present.5).0 parts.4 in
    let gross = (nonnegative_iff "total_amount" e.total_amount.value none present.6).0 parts.5 in
    let lines = not_raised _ _ parts.1 in
    elim (Option-cases (rule_for config e.currency.value)) [
      | inl absent ↦
          let refused = rw (absent, text_is_some _ present.2) at unsupported in cc refused
      | inr (rule, found) ↦
          let (sound, values) = lines_from_sound 1 e.line_items rule (rw found at parts.6) in
          let sums = rw (found, found, values, net.1, tax.1, gross.1) at parts.7 in
          record {
            rule = rule;
            supported = found;
            seller = present.0;
            numbered = present.1;
            priced_in = present.2;
            dated = present.3;
            net = net.0;
            taxed = tax.0;
            gross = gross.0;
            has_lines = lines;
            lines = sound;
            add_up =
                (total_issues_iff rule e.line_items e.subtotal.value e.tax_amount.value
                    e.total_amount.value lines present.4 present.5 present.6).0
                  sums;
          }
    ]

validate_complete :
    (e : InvoiceExtraction) (config : ValidationConfig) → IsSound config e → validate e config ≡ []
unfolding validate
validate_complete e config s =
    let net = nonnegative_value _ s.net in
    let tax = nonnegative_value _ s.taxed in
    let gross = nonnegative_value _ s.gross in
    let fields =
      (header_fields_iff e).1 (s.seller, s.numbered, s.priced_in, s.dated, net, tax, gross) in
    let lines = lines_from_complete 1 e.line_items s.rule s.lines in
    let (_, values) = lines_from_sound 1 e.line_items s.rule lines in
    let sums = (total_issues_iff s.rule e.line_items _ _ _ s.has_lines net tax gross).1 s.add_up in
    rw
      (
        s.supported,
        fields,
        s.has_lines,
        text_is_some _ s.priced_in,
        nonnegative_pass "subtotal" _ none s.net,
        nonnegative_pass "tax_amount" _ none s.taxed,
        nonnegative_pass "total_amount" _ none s.gross,
        lines,
        s.supported,
        values,
      )
      sums

-- Under any configuration, `validate_invoice` reports PASS exactly for the invoices that are sound: the
-- required fields are there and not blank, the currency has a rule, the amounts are not negative,
-- there is a line, every line has a positive quantity, a rate between 0 and 1 and a total that is
-- quantity times price to the tolerance, and net, tax and gross add up to the tolerance.
pub validate_invoice-pass_iff :
    (digests : Digests) (e : InvoiceExtraction) (config : ValidationConfig)
    → ((validate_invoice digests e config).status ≡ ValidationStatus.pass) ↔ IsSound config e
unfolding validate_invoice
validate_invoice-pass_iff digests e config =
    (λ h. validate-IsSound e config (ground arith), λ s. rw (validate_complete e config s))
