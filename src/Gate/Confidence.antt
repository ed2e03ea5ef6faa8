-- ===== src/Gate/Confidence.antt =====
-- The confidences that the gates look at: which fields of an extraction they come from.
use invoice_ops.Prelude.{
  ◌≡◌, ◌↔◌, true, false, Option, none, some, List, [], ◌∷◌, ◌++◌, All, All-append_iff, Bool-cases,
  inl, inr,
}
use invoice_ops.Decimal.{Decimal, of_ℕ, lt, min_of}
use invoice_ops.Decimal.Order.{le_trans, le_of_lt, le_of_not_lt, not_lt_of_le}
use invoice_ops.Schemas.Extraction.{ExtractedField, InvoiceLineItem, InvoiceExtraction}
use invoice_ops.Schemas.Gate.{GateConfig}
use invoice_ops.Gate.{
  observed, header_confidences, line_confidences, all_line_confidences, minimum_from, minimum,
  is_low, minimum_field_confidence,
}

-- If the field has a value, then `P` holds of its confidence.
abbrev pub IfRead : (Decimal → Type 0) → {A : Type 0} → ExtractedField A → Type 0
IfRead P field = elim field.value [ none ↦ Unit {0} | some value ↦ P field.confidence ]

-- `P` holds of the confidence of each field of the header that has a value.
pub record HeaderFields (P : Decimal → Type 0) (extraction : InvoiceExtraction) : Type 0 where
  pub vendor_name : IfRead P extraction.vendor_name
  pub vendor_tax_id : IfRead P extraction.vendor_tax_id
  pub bank_account_iban : IfRead P extraction.bank_account_iban
  pub invoice_number : IfRead P extraction.invoice_number
  pub po_number : IfRead P extraction.po_number
  pub currency : IfRead P extraction.currency
  pub invoice_date : IfRead P extraction.invoice_date
  pub due_date : IfRead P extraction.due_date
  pub subtotal : IfRead P extraction.subtotal
  pub tax_amount : IfRead P extraction.tax_amount
  pub total_amount : IfRead P extraction.total_amount

-- The same for a line.
pub record LineFields (P : Decimal → Type 0) (line : InvoiceLineItem) : Type 0 where
  pub description : IfRead P line.description
  pub quantity : IfRead P line.quantity
  pub unit_price : IfRead P line.unit_price
  pub tax_rate : IfRead P line.tax_rate
  pub line_total : IfRead P line.line_total

-- `P` holds of the confidence of every field of a line, whether it has a value or not.
pub record AllLineFields (P : Decimal → Type 0) (line : InvoiceLineItem) : Type 0 where
  pub description : P line.description.confidence
  pub quantity : P line.quantity.confidence
  pub unit_price : P line.unit_price.confidence
  pub tax_rate : P line.tax_rate.confidence
  pub line_total : P line.line_total.confidence

-- The fields that count for the composite gate, and for the provisional one.
abbrev pub ReadFields : (Decimal → Type 0) → InvoiceExtraction → Type 0
ReadFields P extraction = HeaderFields P extraction × All (LineFields P) extraction.line_items

abbrev pub GatedFields : (Decimal → Type 0) → InvoiceExtraction → Type 0
GatedFields P extraction = HeaderFields P extraction × All (AllLineFields P) extraction.line_items

module _ (P : Decimal → Type 0) where
  read_first :
      {A : Type 0} (value : Option A) (confidence : Decimal) (rest : List Decimal)
      → All P (observed (record { value = value; confidence = confidence }) ++ rest)
      → IfRead P (record { value = value; confidence = confidence }) × All P rest
  read_first none confidence rest h = (tt, h)
  read_first (some value) confidence rest h = h

  add_first :
      {A : Type 0} (value : Option A) (confidence : Decimal) (rest : List Decimal)
      → IfRead P (record { value = value; confidence = confidence })
      → All P rest
      → All P (observed (record { value = value; confidence = confidence }) ++ rest)
  add_first none confidence rest h k = k
  add_first (some value) confidence rest h k = (h, k)

  read_last :
      {A : Type 0} (value : Option A) (confidence : Decimal)
      → All P (observed (record { value = value; confidence = confidence }))
        ↔ IfRead P (record { value = value; confidence = confidence })
  read_last none confidence = (λ h. tt, λ h. tt)
  read_last (some value) confidence = (λ h. h.0, λ h. (h, tt))

  header_split :
      (extraction : InvoiceExtraction)
      → All P (header_confidences extraction)
      → HeaderFields P extraction
  unfolding header_confidences
  header_split extraction h =
      let (a, a') = read_first extraction.vendor_name.value extraction.vendor_name.confidence _ h in
      let (b, b') =
        read_first extraction.vendor_tax_id.value extraction.vendor_tax_id.confidence _ a' in
      let (c, c') =
        read_first extraction.bank_account_iban.value extraction.bank_account_iban.confidence _
          b' in
      let (d, d') =
        read_first extraction.invoice_number.value extraction.invoice_number.confidence _ c' in
      let (e, e') = read_first extraction.po_number.value extraction.po_number.confidence _ d' in
      let (f, f') = read_first extraction.currency.value extraction.currency.confidence _ e' in
      let (g, g') =
        read_first extraction.invoice_date.value extraction.invoice_date.confidence _ f' in
      let (i, i') = read_first extraction.due_date.value extraction.due_date.confidence _ g' in
      let (j, j') = read_first extraction.subtotal.value extraction.subtotal.confidence _ i' in
      let (k, k') = read_first extraction.tax_amount.value extraction.tax_amount.confidence _ j' in
      record {
        vendor_name = a;
        vendor_tax_id = b;
        bank_account_iban = c;
        invoice_number = d;
        po_number = e;
        currency = f;
        invoice_date = g;
        due_date = i;
        subtotal = j;
        tax_amount = k;
        total_amount =
            (read_last extraction.total_amount.value extraction.total_amount.confidence).0 k';
      }

  header_join :
      (extraction : InvoiceExtraction)
      → HeaderFields P extraction
      → All P (header_confidences extraction)
  unfolding header_confidences
  header_join extraction h =
      add_first extraction.vendor_name.value extraction.vendor_name.confidence _ h.vendor_name (
        add_first extraction.vendor_tax_id.value extraction.vendor_tax_id.confidence _
          h.vendor_tax_id
          (add_first extraction.bank_account_iban.value extraction.bank_account_iban.confidence _
            h.bank_account_iban
            (add_first extraction.invoice_number.value extraction.invoice_number.confidence _
              h.invoice_number
              (add_first extraction.po_number.value extraction.po_number.confidence _ h.po_number (
                add_first extraction.currency.value extraction.currency.confidence _ h.currency (
                  add_first extraction.invoice_date.value extraction.invoice_date.confidence _
                    h.invoice_date
                    (add_first extraction.due_date.value extraction.due_date.confidence _ h.due_date
                      (add_first extraction.subtotal.value extraction.subtotal.confidence _
                        h.subtotal
                        (add_first extraction.tax_amount.value extraction.tax_amount.confidence _
                          h.tax_amount
                          ((read_last extraction.total_amount.value
                              extraction.total_amount.confidence).1
                            h.total_amount))))))))))

  lines_split :
      (lines : List InvoiceLineItem) → All P (line_confidences lines) → All (LineFields P) lines
  unfolding line_confidences
  lines_split [] h = tt
  lines_split (line ∷ lines) h =
      let (a, a') = read_first line.description.value line.description.confidence _ h in
      let (b, b') = read_first line.quantity.value line.quantity.confidence _ a' in
      let (c, c') = read_first line.unit_price.value line.unit_price.confidence _ b' in
      let (d, d') = read_first line.tax_rate.value line.tax_rate.confidence _ c' in
      let (e, e') = read_first line.line_total.value line.line_total.confidence _ d' in
      (
        record { description = a; quantity = b; unit_price = c; tax_rate = d; line_total = e },
        lines_split lines e',
      )

  lines_join :
      (lines : List InvoiceLineItem) → All (LineFields P) lines → All P (line_confidences lines)
  unfolding line_confidences
  lines_join [] h = tt
  lines_join (line ∷ lines) (h, hs) =
      add_first line.description.value line.description.confidence _ h.description (
        add_first line.quantity.value line.quantity.confidence _ h.quantity (
          add_first line.unit_price.value line.unit_price.confidence _ h.unit_price (
            add_first line.tax_rate.value line.tax_rate.confidence _ h.tax_rate (
              add_first line.line_total.value line.line_total.confidence _ h.line_total
                (lines_join lines hs)))))

  every_line_split :
      (lines : List InvoiceLineItem)
      → All P (all_line_confidences lines)
      → All (AllLineFields P) lines
  unfolding all_line_confidences
  every_line_split [] h = tt
  every_line_split (line ∷ lines) (a, (b, (c, (d, (e, rest))))) = (
    record { description = a; quantity = b; unit_price = c; tax_rate = d; line_total = e },
    every_line_split lines rest,
  )

  every_line_join :
      (lines : List InvoiceLineItem)
      → All (AllLineFields P) lines
      → All P (all_line_confidences lines)
  unfolding all_line_confidences
  every_line_join [] h = tt
  every_line_join (line ∷ lines) (h, hs) = (
    h.description,
    (h.quantity, (h.unit_price, (h.tax_rate, (h.line_total, every_line_join lines hs)))),
  )

  -- The lists of confidences hold exactly those of the fields.
  pub ReadFields-iff :
      (e : InvoiceExtraction)
      → All P (header_confidences e ++ line_confidences e.line_items) ↔ ReadFields P e
  ReadFields-iff e =
      let (f, g) = All-append_iff P (header_confidences e) (line_confidences e.line_items) in
      (
        λ h. (header_split e (f h).0, lines_split e.line_items (f h).1),
        λ h. g (header_join e h.0, lines_join e.line_items h.1),
      )

  pub GatedFields-iff :
      (e : InvoiceExtraction)
      → All P (header_confidences e ++ all_line_confidences e.line_items) ↔ GatedFields P e
  GatedFields-iff e =
      let (f, g) = All-append_iff P (header_confidences e) (all_line_confidences e.line_items) in
      (
        λ h. (header_split e (f h).0, every_line_split e.line_items (f h).1),
        λ h. g (header_join e h.0, every_line_join e.line_items h.1),
      )

-- The confidence is not below the bound.
abbrev pub AtLeast : Decimal → Decimal → Type 0
AtLeast bound confidence = lt confidence bound ≡ false

min_of_iff :
    (bound a b : Decimal) → AtLeast bound (min_of a b) ↔ (AtLeast bound a × AtLeast bound b)
unfolding min_of
min_of_iff bound a b = elim (Bool-cases (lt b a)) [
  | inl e ↦
      let above = λ (h : AtLeast bound b).
        not_lt_of_le bound a (le_trans bound b a (le_of_not_lt bound b h) (le_of_lt b a e)) in
      rw e (λ h. (above h, h), λ h. h.1)
  | inr e ↦
      let above = λ (h : AtLeast bound a).
        not_lt_of_le bound b (le_trans bound a b (le_of_not_lt bound a h) (le_of_not_lt a b e)) in
      rw e (λ h. (h, above h), λ h. h.0)
]

minimum_from_iff :
    (bound least : Decimal) (xs : List Decimal)
    → AtLeast bound (minimum_from least xs) ↔ (AtLeast bound least × All (AtLeast bound) xs)
unfolding minimum_from
minimum_from_iff bound least [] = (λ h. (h, tt), λ h. h.0)
minimum_from_iff bound least (x ∷ xs) =
    let (f, g) = minimum_from_iff bound (min_of least x) xs in
    let (p, q) = min_of_iff bound least x in
    (λ h. ((p (f h).0).0, ((p (f h).0).1, (f h).1)), λ h. g (q (h.0, h.1.0), h.1.1))

-- A minimum is there and not low exactly if there is an element and none is low.
pub minimum-low_iff :
    (config : GateConfig) (xs : List Decimal)
    → (is_low (minimum xs) config ≡ false)
      ↔ ((¬ All (λ x. ⊥) xs) × All (AtLeast config.minimum_field_confidence) xs)
unfolding minimum
minimum-low_iff config [] = (λ h. cc, λ h. absurd (h.0 tt))
minimum-low_iff config (x ∷ xs) =
    let (f, g) = minimum_from_iff config.minimum_field_confidence x xs in
    (λ h. (λ none_there. none_there.0, f h), λ h. g h.1)

-- The same where an empty list counts as 0, which is below the bound.
minimum_or_zero_iff :
    (bound : Decimal) (xs : List Decimal)
    → lt (of_ℕ 0) bound ≡ true
    → AtLeast bound (elim (minimum xs) [ none ↦ of_ℕ 0 | some least ↦ least ])
      ↔ ((¬ All (λ x. ⊥) xs) × All (AtLeast bound) xs)
unfolding minimum
minimum_or_zero_iff bound [] z = (λ h. cc, λ h. absurd (h.0 tt))
minimum_or_zero_iff bound (x ∷ xs) z =
    let (f, g) = minimum_from_iff bound x xs in (λ h. (λ none_there. none_there.0, f h), λ h. g h.1)

-- The field term of the score reaches a positive bound exactly when some field of the header or of a line has a
-- value, and the confidence of each field of the header and of the lines that has a value reaches the bound.
pub minimum_field_confidence-reaches_iff :
    (extraction : InvoiceExtraction) (bound : Decimal)
    → lt (of_ℕ 0) bound ≡ true
    → (lt (minimum_field_confidence extraction) bound ≡ false) ↔ (
        (¬ ReadFields (λ confidence. ⊥) extraction)
        × ReadFields (λ confidence. lt confidence bound ≡ false) extraction)
unfolding minimum_field_confidence
minimum_field_confidence-reaches_iff extraction bound z =
    let (f, g) =
      minimum_or_zero_iff bound
        (header_confidences extraction ++ line_confidences extraction.line_items) z in
    let (p, q) = ReadFields-iff (λ confidence. ⊥) extraction in
    let (p', q') = ReadFields-iff (AtLeast bound) extraction in
    (λ h. (λ empty. (f h).0 (q empty), p' (f h).1), λ h. g (λ empty. h.0 (p empty), q' h.1))
