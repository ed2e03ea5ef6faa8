-- ===== src/Lib.antt =====
-- invoice-ops: the deterministic controls that decide whether an invoice is paid without a person,
-- and the records that keep the decision and the work on it durable.
--
-- An extraction of an invoice is validated (schema, line arithmetic, totals), compared with its
-- purchase order and goods receipts, and classified into exception codes. The policy turns that
-- evidence into a decision with findings, the gate scores it and routes the invoice to automatic
-- approval or to review, and an exception gets a priority and a due time in the queue. The retry
-- worker runs the workflow with a bounded number of attempts, and the ledger keeps numbered
-- events, which the readers give back page by page. The services of the workflow take up committed
-- evidence where a run was interrupted. An exception is decided by two people, and the accepted
-- decision resumes and settles the paused run. All paths below are under src/invoiceops_agent/.
--
-- The files, and what they model:
--   Schemas.antt and Schemas/: schemas/extraction.py, erp.py, validation.py, matching.py,
--     exceptions.py, policy.py, gate.py, exception_queue.py. Models are records, literals are data
--     types, and a `model_validator` is a Boolean function (has_consistent_relations,
--     has_matching_decision, ...). UUIDs, dates and times are numbers.
--   Schemas/Digests.antt: `model_digest` of schemas/common.py and the Unicode tables, which are
--     parameters.
--   Decimal.antt and Decimal/: Python's decimal.Decimal and the contexts of tools/decimal_math.py
--     and tools/gate.py.
--   Validation.antt and Validation/: tools/validation.py (`validate_invoice`). The list of issues
--     that the source appends to is what each step returns.
--   Matching.antt and Matching/: tools/matching.py (`match_invoice`). `none` stands for a KeyError
--     of a receipt line.
--   Taxonomy.antt and Taxonomy/: tools/exception_taxonomy.py (`classify_exceptions`).
--   Policy.antt and Policy/: tools/policy.py (`evaluate_policy`). The appends are a list of rules
--     with their conditions.
--   Gate.antt and Gate/: tools/gate.py (`evaluate_composite_gate`, `evaluate_provisional_gate`).
--   Queue.antt and Queue/: tools/exception_queue.py (`project_exception`).
--   Pipeline.antt: the controls together, for requests whose parts come from the controls.
--   Ledger.antt and Ledger/: ledger/writer.py, ledger/schemas.py, ledger/settings.py (`append`);
--     Ledger/Paging.antt and Ledger/Reader.antt: ledger/reader.py (`for_run`, `for_invoice`). The
--     tables are lists, and a query with ORDER BY and LIMIT is a filter, an insertion sort and a
--     prefix.
--   Live.antt and Live/: graph/live_services.py: the nodes from extraction to gate with their
--     committed evidence, and, in Live/Transitions.antt, `append_once` and the transitions; in
--     Live/Triage.antt the transaction of `triage`; the validators of TaxonomyRequest and
--     PolicyRequest.
--   Decisions.antt and Decisions/: api/decision_service.py (`submit`), and, in
--     Decisions/Settlement.antt, graph/review_worker.py (`process`).
--   Worker.antt and Worker/: graph/worker.py, graph/retry.py.
--   Workflow.antt and Workflow/: graph/state.py, graph/invoice_nodes.py, graph/invoice.py. A step
--     runs the node that comes next and takes its edge.
--   Prelude.antt and Prelude/: shared names, Boolean tests, lists, integers and texts.
--   Samples.antt and Tests/: the theorems at concrete data.
--
-- Numbers: a decimal is an integer over a power of ten, and its sums and products are exact. The
-- source computes the financial comparisons with 60 digits, which the products of two fields (18
-- digits each) and the sums over 500 lines stay below; a configured relative tolerance of more
-- than 40 digits could exceed them, and is left out. The gate's operations of 28 digits are
-- rounded half to even as written. A division is modelled for a divisor that is not 0, which the
-- positive floor of the schema provides.
--
-- Parameters: the digests, the Unicode tables, the lookup of an order, the search for similar
-- invoices, the workflow that a worker runs or resumes, and all ids and times. The one assumption
-- on them is that a similarity result names the digest of its invoice.
--
-- Bounds and fuel: `show` and `digits_above` run on the number itself, which exceeds its digits;
-- the retry loop runs on a fuel of one more than the configured attempts, the workflow runs for a
-- number of steps, and a history is read in a number of pages of which one more than its events is
-- enough.
--
-- Not modelled: patterns and lengths of single fields, the model gateway and the agents, HTTP
-- routes, the other database queries and connection faults, document storage and parsing, and the
-- graph library with its checkpoints.
pub mod Prelude
pub mod Decimal
pub mod Schemas
pub mod Validation
pub mod Matching
pub mod Taxonomy
pub mod Policy
pub mod Gate
pub mod Queue
pub mod Pipeline
pub mod Ledger
pub mod Worker
pub mod Workflow
pub mod Decisions
pub mod Live
pub mod Samples
pub mod Tests
