-- ===== src/Decisions/Settling.antt =====
-- A settled decision stays settled: the worker may process it again.
use invoice_ops.Prelude.{
  ℕ, String, ◌≡◌, refl, ◌⊎◌, inl, inr, Bool, true, false, Option, none, some, List, [], ◌∷◌,
  find_first, not, ◌==◌, arith, if◌then◌else◌, Bool-cases,
}
use invoice_ops.Ledger.{LedgerEvent}
use invoice_ops.Worker.{completed, is_paused}
use invoice_ops.Decisions.{set_status, find_run, find_exception}
use invoice_ops.Decisions.Rows.{ExceptionStatus, ExceptionRow, RunRow, DecisionRow, Tables}
use invoice_ops.Decisions.Settlement.{
  Resume, Receipt, Settled, settled, failed, Joined, find_decision, join_decision, is_signed_off,
  review_of, completes, has_evidence, final_status, can_settle, complete_run, settled_tables,
  is_settleable, settle_locked, resume_paused, process_joined, process,
}

pub set_status_again :
    (id : ℕ) (status : ExceptionStatus) (rows : List ExceptionRow)
    → set_status id status (set_status id status rows) ≡ set_status id status rows
unfolding set_status
set_status_again id status [] = refl
set_status_again id status (row ∷ rows) = ground (arith, set_status_again id status rows)

pub complete_run_again :
    (id now later : ℕ) (runs : List RunRow)
    → complete_run id later (complete_run id now runs) ≡ complete_run id now runs
unfolding complete_run
complete_run_again id now later [] = refl
complete_run_again id now later (run ∷ runs) = ground (arith, complete_run_again id now later runs)

pub found_status :
    (id : ℕ) (status : ExceptionStatus) (rows : List ExceptionRow) (row : ExceptionRow)
    → find_first (λ (r : ExceptionRow). r.id == id) rows ≡ some row
    → find_first (λ (r : ExceptionRow). r.id == id) (set_status id status rows)
      ≡ some (record row { status = status })
unfolding set_status
found_status id status [] row h = ground arith
found_status id status (r ∷ rows) row h = ground (arith, found_status id status rows row)

-- The row of a run once it is completed.
abbrev pub completed_row : ℕ → RunRow → RunRow
completed_row now run =
    if is_paused run.status then record run { status = completed; completed_at = some now } else run

pub found_run :
    (id now : ℕ) (runs : List RunRow) (run : RunRow)
    → find_first (λ (r : RunRow). r.id == id) runs ≡ some run
    → find_first (λ (r : RunRow). r.id == id) (complete_run id now runs)
      ≡ some (completed_row now run)
unfolding complete_run
found_run id now [] run h = ground arith
found_run id now (r ∷ runs) run h = ground (arith, found_run id now runs run)

-- What the transaction of a settlement has found.
pub record IsSettled (now : ℕ) (row : DecisionRow) (tables : Tables) (receipt : Receipt)
    (next : Tables) : Type 0 where
  pub run : RunRow
  pub exception : ExceptionRow
  pub run_is_there : find_run row.run_id tables ≡ some run
  pub exception_is_there : find_exception row.exception_id tables ≡ some exception
  pub settleable : is_settleable run.status ≡ true
  pub evidence : has_evidence row tables.ledger ≡ true
  pub receives :
      receipt
      ≡ (record { decision_id = row.id; run_id = row.run_id; status = final_status row.action })
  pub writes : next ≡ settled_tables now row tables

settle_guards :
    (a b c : Bool) (m m' m'' : String) (tables written : Tables) (given receipt : Receipt)
    (next : Tables)
    → (if not a
        then failed m tables
        else if not b
        then failed m' tables
        else if not c
        then failed m'' tables
        else settled given written)
      ≡ settled receipt next
    → (a ≡ true) × (b ≡ true) × (c ≡ true) × (receipt ≡ given) × (next ≡ written)
settle_guards true true true m m' m'' tables written given receipt next h =
    (refl, refl, refl, ground arith, ground arith)
settle_guards false b c m m' m'' tables written given receipt next h = ground arith
settle_guards true false c m m' m'' tables written given receipt next h = ground arith
settle_guards true true false m m' m'' tables written given receipt next h = ground arith

settleable_exception :
    (final : ExceptionStatus) (found : Option ExceptionRow)
    → can_settle final found ≡ true
    → (exception : ExceptionRow) × (found ≡ some exception)
settleable_exception final none h = ground arith
settleable_exception final (some exception) h = (exception, refl)

locked-IsSettled :
    (now : ℕ) (row : DecisionRow) (locked : Option RunRow) (tables : Tables) (receipt : Receipt)
    (next : Tables)
    → find_run row.run_id tables ≡ locked
    → settle_locked now row locked tables ≡ settled receipt next
    → IsSettled now row tables receipt next
unfolding settle_locked
locked-IsSettled now row none tables receipt next f h = ground arith
locked-IsSettled now row (some run) tables receipt next f h =
    let (a, b, c, r, w) = settle_guards _ _ _ _ _ _ _ _ _ receipt next h in
    let (exception, e) = settleable_exception _ _ c in
    record {
      run = run;
      exception = exception;
      run_is_there = f;
      exception_is_there = e;
      settleable = a;
      evidence = b;
      receives = r;
      writes = w;
    }

-- What a processed decision has passed, up to the ledger that the workflow left.
pub record IsProcessed (now decision_id : ℕ) (tables : Tables) (receipt : Receipt) (next : Tables)
    : Type 0 where
  pub joined : Joined
  pub ledger : List LedgerEvent
  pub is_joined : join_decision tables (find_decision decision_id tables) ≡ some joined
  pub signed_off : is_signed_off joined.row joined.proposal ≡ true
  pub settles : IsSettled now joined.row (record tables { ledger = ledger }) receipt next

resumed-IsSettled :
    (resume : Resume) (now : ℕ) (row : DecisionRow) (tables : Tables) (receipt : Receipt)
    (next : Tables)
    → resume_paused resume now row tables ≡ settled receipt next
    → IsSettled now row
        (record tables { ledger = (resume row.run_id (review_of row) tables.ledger).ledger })
        receipt
        next
unfolding resume_paused
resumed-IsSettled resume now row tables receipt next h =
    elim (Bool-cases (completes row (resume row.run_id (review_of row) tables.ledger).result)) [
      | inl e ↦ locked-IsSettled now row _ _ receipt next refl (rw e at h)
      | inr e ↦ (let p = rw e at h in ground arith)
    ]

process_guards :
    (a b c : Bool) (m m' : String) (tables : Tables) (x y : Settled) (receipt : Receipt)
    (next : Tables)
    → (if not a then failed m tables else if not b then failed m' tables else if c then x else y)
      ≡ settled receipt next
    → (a ≡ true) × ((x ≡ settled receipt next) ⊎ (y ≡ settled receipt next))
process_guards true true true m m' tables x y receipt next h = (refl, inl h)
process_guards true true false m m' tables x y receipt next h = (refl, inr h)
process_guards false b c m m' tables x y receipt next h = ground arith
process_guards true false c m m' tables x y receipt next h = ground arith

joined-IsProcessed :
    (resume : Resume) (now decision_id : ℕ) (tables : Tables) (joined : Option Joined)
    (receipt : Receipt) (next : Tables)
    → join_decision tables (find_decision decision_id tables) ≡ joined
    → process_joined resume now tables joined ≡ settled receipt next
    → IsProcessed now decision_id tables receipt next
unfolding process_joined
joined-IsProcessed resume now decision_id tables none receipt next j h = ground arith
joined-IsProcessed resume now decision_id tables (some joined) receipt next j h =
    let (a, o) = process_guards _ _ _ _ _ _ _ _ receipt next h in
    elim o [
      | inl r ↦ record {
        joined = joined;
        ledger = _;
        is_joined = j;
        signed_off = a;
        settles = resumed-IsSettled resume now joined.row tables receipt next r;
      }
      | inr s ↦ record {
        joined = joined;
        ledger = tables.ledger;
        is_joined = j;
        signed_off = a;
        settles = locked-IsSettled now joined.row _ tables receipt next refl s;
      }
    ]

-- A decision that is settled was joined with its run, its exception and its proposal, and is a valid signoff; its run
-- was paused or completed and the ledger held its evidence.
pub process-IsProcessed :
    (resume : Resume) (now decision_id : ℕ) (tables : Tables) (receipt : Receipt) (next : Tables)
    → process resume now decision_id tables ≡ settled receipt next
    → IsProcessed now decision_id tables receipt next
unfolding process
process-IsProcessed resume now decision_id tables receipt next h =
    joined-IsProcessed resume now decision_id tables _ receipt next refl h
