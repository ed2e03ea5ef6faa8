-- ===== src/Matching/Agreement.antt =====
-- What a PASS of the three-way comparison says of a line.
use invoice_ops.Prelude.{
  ◌≡◌, refl, String, is_blank, eq_iff, Bool, true, false, Option, none, some, List, [], ◌∷◌, ◌++◌,
  all, arith, Option-cases, inl, inr, All, all-append,
}
use invoice_ops.Decimal.{Decimal, of_ℕ, mul}
use invoice_ops.Schemas.Extraction.{InvoiceLineItem, InvoiceExtraction}
use invoice_ops.Schemas.Erp.{PurchaseOrderLine}
use invoice_ops.Schemas.Matching.{
  MatchConfig, CheckStatus, match, is_match, IdentityCheck, NumericCheck, equal, at_most,
  quantity_ordered, quantity_received,
}
use invoice_ops.Schemas.Digests.{UnicodeTables}
use invoice_ops.Matching.Checks.{tolerance_of, text, identity_status, identity}
use invoice_ops.Matching.Receipts.{Totals, amount_at}
use invoice_ops.Matching.Lines.{
  line_field, invoice_line_at, line_identity, line_numerics, price_check, quantity_check,
  receipt_check, line_total_check, line_checks,
}
use invoice_ops.Matching.Tolerance.{Passes, numeric-match_iff}

-- Both texts are there and read the same after normalisation.
abbrev pub SameText : UnicodeTables → String → Option String → Type 0
SameText tables expected none = ⊥
SameText tables expected (some actual) =
    (is_blank actual ≡ false) × (text tables expected ≡ text tables actual)

pub identity_match :
    (tables : UnicodeTables) (expected : String) (actual : Option String)
    → identity_status tables expected actual ≡ match
    → SameText tables expected actual
unfolding identity_status
identity_match tables expected none h = cc
identity_match tables expected (some actual) h =
    ground (arith, eq_iff (text tables expected) (text tables actual))

-- Every check has status MATCH.
abbrev pub all_match : List NumericCheck → Bool
all_match checks = all (λ (check : NumericCheck). is_match check.status) checks

abbrev pub all_same : List IdentityCheck → Bool
all_same checks = all (λ (check : IdentityCheck). is_match check.status) checks

pub is_match_eq : (s : CheckStatus) → is_match s ≡ true → s ≡ match
is_match_eq s h = ground arith

-- The invoice line agrees with the purchase order and the receipts: the description reads the same, the
-- unit price agrees with the ordered one, the quantity with the ordered and the received ones, the
-- received quantity with the ordered one, and the line total with the quantity at the ordered price.
pub record LineAgrees (tables : UnicodeTables) (config : MatchConfig) (line : PurchaseOrderLine)
    (received_quantity : Decimal) (invoice_line : Option InvoiceLineItem) : Type 0 where
  pub described : SameText tables line.description (line_field (λ l. l.description) invoice_line)
  pub priced :
      Passes equal line.unit_price
        (line_field (λ l. l.unit_price) invoice_line)
        (tolerance_of line.unit_price config.price_absolute_tolerance
          config.price_relative_tolerance)
        false
  pub ordered :
      Passes at_most line.quantity
        (line_field (λ l. l.quantity) invoice_line)
        (tolerance_of line.quantity config.quantity_absolute_tolerance (of_ℕ 0))
        true
  pub received :
      Passes at_most received_quantity
        (line_field (λ l. l.quantity) invoice_line)
        (tolerance_of received_quantity config.quantity_absolute_tolerance (of_ℕ 0))
        true
  pub delivered :
      Passes at_most line.quantity
        (some received_quantity)
        (tolerance_of line.quantity config.quantity_absolute_tolerance (of_ℕ 0))
        false
  pub quantity : Decimal
  pub has_quantity : line_field (λ l. l.quantity) invoice_line ≡ some quantity
  pub totalled :
      Passes equal
        (mul quantity line.unit_price)
        (line_field (λ l. l.line_total) invoice_line)
        (tolerance_of
          (mul quantity line.unit_price)
          config.line_total_absolute_tolerance
          config.line_total_relative_tolerance)
        false

pub line_total_match :
    (config : MatchConfig) (line : PurchaseOrderLine) (quantity actual : Option Decimal)
    → (line_total_check config line quantity actual).status ≡ match
    → (q : Decimal) × (quantity ≡ some q)
      × Passes equal
          (mul q line.unit_price)
          actual
          (tolerance_of
            (mul q line.unit_price)
            config.line_total_absolute_tolerance
            config.line_total_relative_tolerance)
          false
unfolding line_total_check
line_total_match config line none actual h = cc
line_total_match config line (some q) actual h = (q, refl, (numeric-match_iff _ _ _ _ _ _ _ _).0 h)

pub five_match :
    (a b c d e : NumericCheck)
    → all_match (a ∷ b ∷ c ∷ d ∷ e ∷ []) ≡ true
    → (a.status ≡ match)
      × (b.status ≡ match)
      × (c.status ≡ match)
      × (d.status ≡ match)
      × (e.status ≡ match)
five_match a b c d e h = ground arith

pub line_numerics_match :
    (tables : UnicodeTables) (config : MatchConfig) (line : PurchaseOrderLine) (q : Decimal)
    (o : Option InvoiceLineItem)
    → is_match (line_identity tables line o).status ≡ true
    → all_match (line_numerics config line q o) ≡ true
    → LineAgrees tables config line q o
unfolding line_identity identity line_numerics price_check quantity_check receipt_check
line_numerics_match tables config line q o t h =
    let quantity_line = line_field (λ l. l.quantity) o in
    let total_line = line_field (λ l. l.line_total) o in
    let (a, b, c, d, e) =
      five_match (price_check config line o)
        (quantity_check quantity_ordered config line line.quantity o)
        (quantity_check quantity_received config line q o) (receipt_check config line q)
        (line_total_check config line quantity_line total_line) h in
    let (quantity, found, total) = line_total_match config line quantity_line total_line e in
    record {
      described =
          identity_match tables line.description (line_field (λ l. l.description) o)
            (is_match_eq _ t);
      priced = (numeric-match_iff _ _ _ _ _ _ _ _).0 a;
      ordered = (numeric-match_iff _ _ _ _ _ _ _ _).0 b;
      received = (numeric-match_iff _ _ _ _ _ _ _ _).0 c;
      delivered = (numeric-match_iff _ _ _ _ _ _ _ _).0 d;
      quantity = quantity;
      has_quantity = found;
      totalled = total;
    }

-- Every purchase order line has a received quantity and agrees with its invoice line.
abbrev pub LinesAgree :
    UnicodeTables → MatchConfig → InvoiceExtraction → Totals → List PurchaseOrderLine → Type 0
LinesAgree tables config extraction totals = All λ line.
    (q : Decimal) × (amount_at totals line.line_number ≡ some q)
    × LineAgrees tables config line q (invoice_line_at extraction line.line_number)

pub line_checks_match :
    (tables : UnicodeTables) (config : MatchConfig) (extraction : InvoiceExtraction)
    (totals : Totals) (lines : List PurchaseOrderLine) (identities : List IdentityCheck)
    (numerics : List NumericCheck)
    → line_checks tables config extraction totals lines ≡ some (identities, numerics)
    → all_same identities ≡ true
    → all_match numerics ≡ true
    → LinesAgree tables config extraction totals lines
unfolding line_checks
line_checks_match tables config extraction totals [] identities numerics h t m = tt
line_checks_match tables config extraction totals (line ∷ lines) identities numerics h t m =
    let item = invoice_line_at extraction line.line_number in
    elim (Option-cases (amount_at totals line.line_number)) [
      | inl e ↦ absurd (ground arith)
      | inr (q, e) ↦ elim (Option-cases (line_checks tables config extraction totals lines)) [
        | inl c ↦ absurd (ground arith)
        | inr (pair, c) ↦
            let p : numerics ≡ line_numerics config line q item ++ pair.1 = ground arith in
            let named : identities ≡ line_identity tables line item ∷ pair.0 = ground arith in
            let texts : (is_match (line_identity tables line item).status ≡ true)
                × (all_same pair.0 ≡ true) =
              ground arith in
            let split =
              all-append (λ (check : NumericCheck). is_match check.status)
                (line_numerics config line q item) pair.1 in
            let both : (all_match (line_numerics config line q item) ≡ true)
                × (all_match pair.1 ≡ true) =
              ground arith in
            (
              (q, e, line_numerics_match tables config line q item texts.0 both.0),
              line_checks_match tables config extraction totals lines pair.0 pair.1 c texts.1
                  both.1,
            )
      ]
    ]
