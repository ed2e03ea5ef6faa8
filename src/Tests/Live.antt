-- ===== src/Tests/Live.antt =====
-- The services of the workflow and the readers of the ledger, at concrete data.
use invoice_ops.Prelude.{
  ◌≡◌, ◌≤◌, refl, inl, true, false, some, none, List, [], ◌∷◌, ◌++◌, arith, not, if◌then◌else◌,
}
use invoice_ops.Ledger.{LedgerEvent, append, append_to, resolve, can_supersede, max_sequence}
use invoice_ops.Ledger.Sequence.{IsNumbered, append-IsNumbered}
use invoice_ops.Ledger.Reader.{read_pages, for_run, for_invoice}
use invoice_ops.Ledger.History.{history, for_run-history, append-read}
use invoice_ops.Ledger.InvoiceHistory.{HasDistinctEvents, invoice_history, for_invoice-history}
use invoice_ops.Pipeline.{IsPayable}
use invoice_ops.Workflow.{State}
use invoice_ops.Live.{run_controls}
use invoice_ops.Live.Evidence.{Live, Cache, ok}
use invoice_ops.Live.Replay.{IsCommitted, IsPartOf, computed, controlled}
use invoice_ops.Live.Outcome.{
  compared, run_controls_completes, run_controls-IsPayable, routes_to_approval,
}
use invoice_ops.Live.Transitions.{
  Scene, Books, Transitioned, done, failed, differs, same_payload, other_status, committed_event,
  auto_approval, append_once,
}
use invoice_ops.Live.Once.{append_once_final, count_transitions, count_transitions-append_once_le}
use invoice_ops.Prelude.{is_empty_text, ap}
use invoice_ops.Gate.{evaluate_composite_gate}
use invoice_ops.Policy.{evaluate_policy, po_age_exceeded}
use invoice_ops.Schemas.Gate.{is_auto_approve}
use invoice_ops.Samples.{plain_digests, plain_tables, sample_invoice, sample_snapshot}
use invoice_ops.Tests.Controls.{
  sample_match, sample_matched, sample_controls, sample-Approved, sample_decision,
}
use invoice_ops.Tests.Flow.{sample_state}
use invoice_ops.Tests.Records.{
  sample_pins, sample_runs, sample_command, sample_event, nothing-IsNumbered,
}

one-IsNumbered : IsNumbered (sample_event ∷ [])
unfolding append append_to resolve can_supersede max_sequence
one-IsNumbered =
    append-IsNumbered sample_pins true 9 100 sample_command sample_runs [] sample_event
      (sample_event ∷ []) nothing-IsNumbered refl

one_event : history 1 (sample_event ∷ []) ≡ sample_event ∷ []
unfolding history
one_event = refl

for_run-history_example :
    read_pages (for_run (sample_event ∷ []) 1 1) 2 none ≡ some (history 1 (sample_event ∷ []))
unfolding history
for_run-history_example =
    for_run-history (sample_event ∷ []) 1 1 2 one-IsNumbered refl (omega arith)

append-read_example :
    (before : List LedgerEvent) × (read_pages (for_run [] 1 50) 2 none ≡ some before)
    × (read_pages (for_run (sample_event ∷ []) 1 50) 2 none ≡ some (before ++ sample_event ∷ []))
unfolding append append_to resolve can_supersede max_sequence
append-read_example =
    append-read sample_pins true 9 100 sample_command sample_runs [] sample_event
      (sample_event ∷ []) 50 2 nothing-IsNumbered refl (omega arith) refl

two-HasDistinctEvents : HasDistinctEvents (record sample_event { id = 10 } ∷ sample_event ∷ [])
unfolding HasDistinctEvents
two-HasDistinctEvents = (refl, (refl, tt))

for_invoice-history_example :
    read_pages (for_invoice (record sample_event { id = 10 } ∷ sample_event ∷ []) 2 1) 3 none
    ≡ some (invoice_history 2 (record sample_event { id = 10 } ∷ sample_event ∷ []))
for_invoice-history_example =
    for_invoice-history (record sample_event { id = 10 } ∷ sample_event ∷ []) 2 1 3
      two-HasDistinctEvents refl (omega arith)

abbrev sample_live : Live
sample_live = record {
  digests = plain_digests;
  tables = plain_tables;
  controls = sample_controls;
  find_snapshot = λ number. some sample_snapshot;
  detect = λ extraction. record {
    is_near_duplicate = false;
    extraction_sha256 = "extraction";
    json = "{}";
  };
}

abbrev empty_cache : Cache
empty_cache = record {
  validation = none;
  matching = none;
  similarity = none;
  taxonomy = none;
  policy = none;
  gate = none;
}

abbrev extracted_state : State
extracted_state = record sample_state { extraction = some sample_invoice }

nothing-IsPartOf :
    IsPartOf empty_cache (computed sample_live extracted_state sample_invoice sample_match)
unfolding IsCommitted
nothing-IsPartOf = record {
  validation = inl refl;
  matching = inl refl;
  similarity = inl refl;
  taxonomy = inl refl;
  policy = inl refl;
  gate = inl refl;
}

run_controls_completes_example :
    run_controls sample_live empty_cache extracted_state
    ≡ ok (
        controlled extracted_state
          (computed sample_live extracted_state sample_invoice sample_match))
unfolding is_empty_text
run_controls_completes_example =
    run_controls_completes sample_live empty_cache extracted_state sample_invoice sample_match refl
      sample_matched refl nothing-IsPartOf

sample_routes :
    routes_to_approval (
      controlled extracted_state (computed sample_live extracted_state sample_invoice sample_match))
    ≡ true
unfolding routes_to_approval computed is_empty_text evaluate_composite_gate evaluate_policy
    po_age_exceeded
sample_routes = ap is_auto_approve sample-Approved

run_controls-IsPayable_example :
    IsPayable plain_tables sample_controls
      (compared sample_live extracted_state sample_invoice)
      (computed sample_live extracted_state sample_invoice sample_match).classified
      (computed sample_live extracted_state sample_invoice sample_match).asked
unfolding is_empty_text
run_controls-IsPayable_example =
    run_controls-IsPayable sample_live empty_cache extracted_state sample_invoice sample_match refl
      sample_matched refl nothing-IsPartOf
      (controlled extracted_state
        (computed sample_live extracted_state sample_invoice sample_match))
      run_controls_completes_example sample_routes

abbrev sample_scene : Scene
sample_scene = record {
  run_id = 1;
  invoice_id = 2;
  settings = sample_pins;
  event_id = 9;
  now = 100;
}

abbrev sample_books : Books
sample_books = record {
  runs = sample_runs;
  invoices = record { id = 2; status = other_status "PROCESSING" } ∷ [];
  ledger = [];
}

abbrev books_in : Transitioned → Books
books_in (done books) = books
books_in (failed e) = sample_books

abbrev approved_books : Books
approved_books = books_in (append_once sample_scene (auto_approval sample_decision) sample_books)

approved_once :
    append_once sample_scene (auto_approval sample_decision) sample_books ≡ done approved_books
unfolding append_once append append_to resolve can_supersede auto_approval
approved_once = refl

append_once_final_example :
    (event : LedgerEvent) × (committed_event sample_scene
        (auto_approval sample_decision).event_type
        approved_books.ledger
      ≡ some event)
    × (same_payload event.payload (auto_approval sample_decision).payload ≡ true)
    × (append_once
          (record sample_scene { event_id = 10 })
          (auto_approval sample_decision)
          approved_books
        ≡ (if not (same_payload event.payload (auto_approval sample_decision).payload)
            then failed differs
            else done approved_books))
append_once_final_example =
    append_once_final sample_scene (record sample_scene { event_id = 10 })
      (auto_approval sample_decision) (auto_approval sample_decision) sample_books approved_books
      approved_once refl refl refl

count_transitions-append_once_le_example :
    count_transitions sample_scene "approval.auto_granted" approved_books.ledger ≤ 1
unfolding count_transitions
count_transitions-append_once_le_example =
    count_transitions-append_once_le sample_scene sample_scene (auto_approval sample_decision)
      "approval.auto_granted" sample_books approved_books (omega arith) approved_once
