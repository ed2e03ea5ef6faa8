-- ===== src/Ledger/InvoiceHistory.antt =====
-- The history of an invoice over all its runs, as its pages give it.
use invoice_ops.Prelude.{
  ℕ, suc, ◌+◌, ◌<◌, ◌≤◌, ◌≡◌, refl, sym, ap, ◌∙◌, true, false, Option, none, some, List, [], ◌∷◌,
  length, any, All, ◌==◌, ==_iff, arith, Bool-cases, inl, inr, not,
}
use invoice_ops.Ledger.{LedgerEvent}
use invoice_ops.Ledger.Paging.{page_of, take, insert_in_order, in_order, beyond}
use invoice_ops.Ledger.Pages.{read_rest}
use invoice_ops.Ledger.Ordering.{IsOrder, IsApart, AreApart, in_order-IsIncreasing, above-in_order}
use invoice_ops.Ledger.Reader.{
  page, moment_of, is_earlier, InvoiceCursor, invoice_cursor, moment_after, of_invoice, is_limit,
  is_other_invoice, for_invoice, read_pages,
}

is_earlier-IsOrder : IsOrder is_earlier
is_earlier-IsOrder = record {
  irreflexive = λ a. ground arith;
  transitive = λ a b c h k. ground arith;
}

-- The ids of the ledger's events, which are its primary key.
unfoldable pub HasDistinctEvents : List LedgerEvent → Type 0
HasDistinctEvents [] = Unit {0}
HasDistinctEvents (event ∷ events) =
    (any (λ (other : LedgerEvent). other.id == event.id) events ≡ false) × HasDistinctEvents events

IsApart-ids : (a b : LedgerEvent) → (b.id == a.id) ≡ false → IsApart moment_of is_earlier a b
IsApart-ids a b h = elim (Bool-cases (is_earlier (moment_of a) (moment_of b))) [
  | inl e ↦ inl e
  | inr e ↦ inr (ground arith)
]

others-IsApart :
    (invoice_id : ℕ) (event : LedgerEvent) (events : List LedgerEvent)
    → any (λ (other : LedgerEvent). other.id == event.id) events ≡ false
    → All (IsApart moment_of is_earlier event) (of_invoice invoice_id events)
unfolding of_invoice
others-IsApart invoice_id event [] h = tt
others-IsApart invoice_id event (x ∷ events) h =
    let here : (x.id == event.id) ≡ false = ground arith in
    let there : any (λ (other : LedgerEvent). other.id == event.id) events ≡ false = ground arith in
    elim (Bool-cases (x.invoice_id == invoice_id)) [
      | inl e ↦ rw e (IsApart-ids event x here, others-IsApart invoice_id event events there)
      | inr e ↦ rw e (others-IsApart invoice_id event events there)
    ]

of_invoice-AreApart :
    (invoice_id : ℕ) (events : List LedgerEvent)
    → HasDistinctEvents events
    → AreApart moment_of is_earlier (of_invoice invoice_id events)
unfolding of_invoice AreApart HasDistinctEvents
of_invoice-AreApart invoice_id [] h = tt
of_invoice-AreApart invoice_id (event ∷ events) h =
    elim (Bool-cases (event.invoice_id == invoice_id)) [
      | inl e ↦
          rw e
            (others-IsApart invoice_id event events h.0, of_invoice-AreApart invoice_id events h.1)
      | inr e ↦ rw e (of_invoice-AreApart invoice_id events h.1)
    ]

-- The events of an invoice, ordered by time and id.
abbrev pub invoice_history : ℕ → List LedgerEvent → List LedgerEvent
invoice_history invoice_id events = in_order moment_of is_earlier (of_invoice invoice_id events)

for_invoice-answer :
    (ledger : List LedgerEvent) (invoice_id limit : ℕ) (after : Option InvoiceCursor)
    → is_limit limit ≡ true
    → is_other_invoice invoice_id after ≡ false
    → for_invoice ledger invoice_id limit after
      ≡ page (
          page_of (invoice_cursor invoice_id) limit (
            take (suc limit) (
              in_order moment_of is_earlier
                (beyond moment_of is_earlier (moment_after after) (of_invoice invoice_id ledger)))))
unfolding for_invoice
for_invoice-answer ledger invoice_id limit after l o =
    let one : limit + 1 ≡ suc limit = omega arith in rw (l, o, one) refl

length-insert :
    (event : LedgerEvent) (xs : List LedgerEvent)
    → length (insert_in_order moment_of is_earlier event xs) ≡ suc (length xs)
unfolding insert_in_order
length-insert event [] = refl
length-insert event (x ∷ xs) = elim (Bool-cases (is_earlier (moment_of event) (moment_of x))) [
  | inl e ↦ rw e refl
  | inr e ↦ rw e (ap suc (length-insert event xs))
]

length-invoice_history :
    (invoice_id : ℕ) (events : List LedgerEvent)
    → length (invoice_history invoice_id events) ≤ length events
unfolding of_invoice in_order
length-invoice_history invoice_id [] = omega arith
length-invoice_history invoice_id (event ∷ events) =
    elim (Bool-cases (event.invoice_id == invoice_id)) [
      | inl e ↦ rw e (
          omega (
            arith,
            length-insert event (invoice_history invoice_id events),
            length-invoice_history invoice_id events,
          ))
      | inr e ↦ rw e (omega (arith, length-invoice_history invoice_id events))
    ]

-- Following the cursors of `for_invoice` from the start gives all events of the invoice, each once and ordered by time
-- and id, also where events of different runs have the same time, if the ids of the ledger's events differ.
pub for_invoice-history :
    (ledger : List LedgerEvent) (invoice_id limit pages : ℕ)
    → HasDistinctEvents ledger
    → is_limit limit ≡ true
    → length ledger < pages
    → read_pages (for_invoice ledger invoice_id limit) pages none
      ≡ some (invoice_history invoice_id ledger)
for_invoice-history ledger invoice_id limit pages h l b =
    let positive : 1 ≤ limit = ground arith in
    read_rest moment_of is_earlier (invoice_cursor invoice_id) limit
      (invoice_history invoice_id ledger) (for_invoice ledger invoice_id limit) is_earlier-IsOrder
      positive
      (in_order-IsIncreasing moment_of is_earlier is_earlier-IsOrder (of_invoice invoice_id ledger)
        (of_invoice-AreApart invoice_id ledger h))
      (λ event.
        for_invoice-answer ledger invoice_id limit (some (invoice_cursor invoice_id event)) l
          (ap not ((==_iff invoice_id invoice_id).1 refl))
        ∙ ap (λ rows. page (page_of (invoice_cursor invoice_id) limit (take (suc limit) rows)))
            (sym (
              above-in_order moment_of is_earlier is_earlier-IsOrder (moment_of event)
                (of_invoice invoice_id ledger))))
      pages none [] (invoice_history invoice_id ledger) refl
      (for_invoice-answer ledger invoice_id limit none l refl)
      (omega (arith, length-invoice_history invoice_id ledger, b))
