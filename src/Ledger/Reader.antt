-- ===== src/Ledger/Reader.antt =====
-- ledger/reader.py and the cursors and pages of ledger/schemas.py: pages of the events of a run and of an invoice. The
-- rows are the events that the writer inserted, so that none fails its validation.
use invoice_ops.Prelude.{
  ℕ, zero, suc, ◌+◌, Bool, false, Option, none, some, List, [], ◌∷◌, ◌++◌, not, ◌&&◌, ◌||◌, ltb,
  leb, ◌==◌, if◌then◌else◌,
}
use invoice_ops.Ledger.{LedgerEvent}
use invoice_ops.Ledger.Paging.{Page, take, in_order, above, beyond, page_of}

pub record RunCursor : Type 0 where
  pub run_id : ℕ
  pub sequence : ℕ

pub record InvoiceCursor : Type 0 where
  pub invoice_id : ℕ
  pub created_at : ℕ
  pub id : ℕ

pub data ReadError : Type 0 where
  invalid_query cursor_mismatch : ReadError

pub data Read (C : Type 0) : Type 0 where
  page : Page LedgerEvent C → Read C
  unread : ReadError → Read C

-- `ReadQuery.limit`
abbrev pub is_limit : ℕ → Bool
is_limit limit = leb 1 limit && leb limit 200

unfoldable pub of_run : ℕ → List LedgerEvent → List LedgerEvent
of_run run_id [] = []
of_run run_id (event ∷ events) =
    let rest = of_run run_id events in if event.run_id == run_id then event ∷ rest else rest

unfoldable pub of_invoice : ℕ → List LedgerEvent → List LedgerEvent
of_invoice invoice_id [] = []
of_invoice invoice_id (event ∷ events) =
    let rest = of_invoice invoice_id events in
    if event.invoice_id == invoice_id then event ∷ rest else rest

abbrev pub sequence_of : LedgerEvent → ℕ
sequence_of event = event.sequence

-- The key of a row in an invoice's history, and its order: `(created_at, id)`, compared as SQL rows.
pub record Moment : Type 0 where
  pub created_at : ℕ
  pub id : ℕ

abbrev pub moment_of : LedgerEvent → Moment
moment_of event = record { created_at = event.created_at; id = event.id }

abbrev pub is_earlier : Moment → Moment → Bool
is_earlier a b = ltb a.created_at b.created_at || (a.created_at == b.created_at && ltb a.id b.id)

abbrev pub run_cursor : ℕ → LedgerEvent → RunCursor
run_cursor run_id event = record { run_id = run_id; sequence = event.sequence }

abbrev pub invoice_cursor : ℕ → LedgerEvent → InvoiceCursor
invoice_cursor invoice_id event = record {
  invoice_id = invoice_id;
  created_at = event.created_at;
  id = event.id;
}

-- `after.sequence if after is not None else 0`
abbrev pub start : Option RunCursor → ℕ
start none = 0
start (some cursor) = cursor.sequence

abbrev pub moment_after : Option InvoiceCursor → Option Moment
moment_after none = none
moment_after (some cursor) = some (record { created_at = cursor.created_at; id = cursor.id })

abbrev pub is_other_run : ℕ → Option RunCursor → Bool
is_other_run run_id none = false
is_other_run run_id (some cursor) = not (cursor.run_id == run_id)

abbrev pub is_other_invoice : ℕ → Option InvoiceCursor → Bool
is_other_invoice invoice_id none = false
is_other_invoice invoice_id (some cursor) = not (cursor.invoice_id == invoice_id)

-- `LedgerReader.for_run`
unfoldable pub for_run : List LedgerEvent → ℕ → ℕ → Option RunCursor → Read RunCursor
for_run ledger run_id limit after =
    if not (is_limit limit)
    then unread invalid_query
    else if is_other_run run_id after
    then unread cursor_mismatch
    else page (
        page_of (run_cursor run_id) limit (
          take (limit + 1) (
            in_order sequence_of ltb (above sequence_of ltb (start after) (of_run run_id ledger)))))

-- `LedgerReader.for_invoice`
unfoldable pub for_invoice : List LedgerEvent → ℕ → ℕ → Option InvoiceCursor → Read InvoiceCursor
for_invoice ledger invoice_id limit after =
    if not (is_limit limit)
    then unread invalid_query
    else if is_other_invoice invoice_id after
    then unread cursor_mismatch
    else page (
        page_of (invoice_cursor invoice_id) limit (
          take (limit + 1) (
            in_order moment_of is_earlier
              (beyond moment_of is_earlier (moment_after after) (of_invoice invoice_id ledger)))))

abbrev pub and_then : List LedgerEvent → Option (List LedgerEvent) → Option (List LedgerEvent)
and_then events none = none
and_then events (some rest) = some (events ++ rest)

-- The rest of a history: nothing follows the last page.
abbrev pub follow_cursor :
    {C : Type 0}
    → (C → Option (List LedgerEvent))
    → List LedgerEvent
    → Option C
    → Option (List LedgerEvent)
follow_cursor next events none = some events
follow_cursor next events (some cursor) = and_then events (next cursor)

abbrev pub follow :
    {C : Type 0} → (C → Option (List LedgerEvent)) → Read C → Option (List LedgerEvent)
follow next (unread e) = none
follow next (page p) = follow_cursor next p.events p.next_cursor

-- A client that follows the cursors, for a number of pages.
unfoldable pub read_pages :
    {C : Type 0} → (Option C → Read C) → ℕ → Option C → Option (List LedgerEvent)
read_pages read zero after = none
read_pages {C = C} read (suc n) after =
    follow (λ (cursor : C). read_pages read n (some cursor)) (read after)
