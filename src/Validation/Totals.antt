-- ===== src/Validation/Totals.antt =====
-- The amounts that the lines hand to the totals, and when the totals raise no issue.
use invoice_ops.Prelude.{
  ℕ, suc, ◌≡◌, ◌↔◌, false, Option, none, some, List, [], ◌∷◌, map, is_empty, All, append-eq_nil_iff,
  refl, any, is_some, not, ap,
}
use invoice_ops.Decimal.{Decimal, add, total}
use invoice_ops.Decimal.Order.{Within}
use invoice_ops.Schemas.Extraction.{InvoiceLineItem}
use invoice_ops.Schemas.Validation.{subtotal_mismatch, tax_mismatch, total_mismatch, CurrencyRule}
use invoice_ops.Validation.{
  lines_from, or_zero, complete_sum, compare_known, known_sum, total_issues,
}
use invoice_ops.Validation.Steps.{HasValue, compare-eq_nil_iff}
use invoice_ops.Validation.Lines.{
  LineIsSound, net_of, tax_of, line_values_sound, line_values_complete,
}

-- The amounts that the lines hand to the totals.
pub line_amounts : CurrencyRule → List InvoiceLineItem → List (Option Decimal × Option Decimal)
line_amounts rule lines = map (λ line. (some (net_of line), some (tax_of rule line))) lines

pub lines_from_sound :
    (k : ℕ) (lines : List InvoiceLineItem) (rule : CurrencyRule)
    → (lines_from k lines (some rule)).1 ≡ []
    → All (LineIsSound rule) lines × ((lines_from k lines (some rule)).0 ≡ line_amounts rule lines)
unfolding lines_from line_amounts
lines_from_sound k [] rule h = (tt, refl)
lines_from_sound k (line ∷ lines) rule h =
    let (first, later) = (append-eq_nil_iff _ _).0 h in
    let (sound, value) = line_values_sound line k rule first in
    let (all_sound, values) = lines_from_sound (suc k) lines rule later in
    ((sound, all_sound), rw (value, values))

pub lines_from_complete :
    (k : ℕ) (lines : List InvoiceLineItem) (rule : CurrencyRule)
    → All (LineIsSound rule) lines
    → (lines_from k lines (some rule)).1 ≡ []
unfolding lines_from
lines_from_complete k [] rule h = refl
lines_from_complete k (line ∷ lines) rule h =
    rw (line_values_complete line k rule h.0) (lines_from_complete (suc k) lines rule h.1)

any_none :
    (f : InvoiceLineItem → Decimal) (lines : List InvoiceLineItem)
    → any (λ (o : Option Decimal). not (is_some o)) (map (λ line. some (f line)) lines) ≡ false
any_none f [] = refl
any_none f (line ∷ lines) = any_none f lines

map-or_zero :
    (f : InvoiceLineItem → Decimal) (lines : List InvoiceLineItem)
    → map or_zero (map (λ line. some (f line)) lines) ≡ map f lines
map-or_zero f [] = refl
map-or_zero f (line ∷ lines) = rw (map-or_zero f lines)

complete_sum_lem :
    (f : InvoiceLineItem → Decimal) (lines : List InvoiceLineItem)
    → is_empty lines ≡ false
    → complete_sum (map (λ line. some (f line)) lines) ≡ some (total (map f lines))
unfolding complete_sum
complete_sum_lem f [] h = cc
complete_sum_lem f (line ∷ lines) h = rw (any_none f lines, map-or_zero f lines)

nets :
    (rule : CurrencyRule) (lines : List InvoiceLineItem)
    → map (λ v. v.0) (line_amounts rule lines) ≡ map (λ line. some (net_of line)) lines
unfolding line_amounts
nets rule [] = refl
nets rule (line ∷ lines) =
    ap (λ (t : List (Option Decimal)). some (net_of line) ∷ t) (nets rule lines)

taxes :
    (rule : CurrencyRule) (lines : List InvoiceLineItem)
    → map (λ v. v.1) (line_amounts rule lines) ≡ map (λ line. some (tax_of rule line)) lines
unfolding line_amounts
taxes rule [] = refl
taxes rule (line ∷ lines) =
    ap (λ (t : List (Option Decimal)). some (tax_of rule line) ∷ t) (taxes rule lines)

-- The three totals of an invoice against what its lines add up to.
abbrev pub TotalsAddUp :
    CurrencyRule → List InvoiceLineItem → Option Decimal → Option Decimal → Option Decimal → Type 0
TotalsAddUp rule lines net tax gross =
    Within (or_zero net) (total (map net_of lines)) rule.absolute_tolerance
    × Within (or_zero tax) (total (map (tax_of rule) lines)) rule.absolute_tolerance
    × Within (or_zero gross) (add (or_zero net) (or_zero tax)) rule.absolute_tolerance

pub total_issues_iff :
    (rule : CurrencyRule) (lines : List InvoiceLineItem) (net tax gross : Option Decimal)
    → is_empty lines ≡ false
    → HasValue net
    → HasValue tax
    → HasValue gross
    → (total_issues rule (line_amounts rule lines) net tax gross ≡ [])
      ↔ TotalsAddUp rule lines net tax gross
unfolding total_issues compare_known known_sum
total_issues_iff rule lines none tax gross l n t g = absurd n
total_issues_iff rule lines (some net) none gross l n t g = absurd t
total_issues_iff rule lines (some net) (some tax) none l n t g = absurd g
total_issues_iff rule lines (some net) (some tax) (some gross) l n t g =
    rw (nets, taxes, complete_sum_lem net_of lines l, complete_sum_lem (tax_of rule) lines l)
      (let (p, p') =
          compare-eq_nil_iff subtotal_mismatch "subtotal" (total (map net_of lines)) net
            rule.absolute_tolerance none in
        let (q, q') =
          compare-eq_nil_iff tax_mismatch "tax_amount" (total (map (tax_of rule) lines)) tax
            rule.absolute_tolerance none in
        let (r, r') =
          compare-eq_nil_iff total_mismatch "total_amount" (add net tax) gross
            rule.absolute_tolerance none in
        (
          λ h.
              let (a, bc) = (append-eq_nil_iff _ _).0 h in
              let (b, c) = (append-eq_nil_iff _ _).0 bc in (p a, q b, r c),
          λ h. (append-eq_nil_iff _ _).1 (p' h.0, (append-eq_nil_iff _ _).1 (q' h.1, r' h.2)),
        ))
