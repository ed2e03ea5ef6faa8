-- ===== src/Decisions/Again.antt =====
-- Processing a settled decision again.
use invoice_ops.Prelude.{
  ℕ, ◌≡◌, refl, sym, ap, ◌∙◌, true, false, Option, none, some, find_first, ◌==◌, arith,
}
use mathlib.Core.Path.{subst}
use invoice_ops.Schemas.Review.{ReviewAction, approve, return, escalate}
use invoice_ops.Worker.{is_paused}
use invoice_ops.Decisions.{find_run, find_exception}
use invoice_ops.Decisions.Rows.{ExceptionRow, RunRow, DecisionRow, Tables}
use invoice_ops.Decisions.Settlement.{
  Resume, Receipt, settled, Joined, find_decision, find_proposal, join_exception, join_run,
  join_decision, is_signed_off, has_evidence, final_status, can_settle, settled_tables,
  is_settleable, settle_locked, settle, process_joined, process,
}
use invoice_ops.Decisions.Settling.{
  IsProcessed, process-IsProcessed, completed_row, set_status_again, complete_run_again,
  found_status, found_run,
}

-- The parts of a joined row.
record IsJoined (decision_id : ℕ) (tables : Tables) (joined : Joined) : Type 0 where
  row_is_there : find_decision decision_id tables ≡ some joined.row
  run_is_there : find_run joined.row.run_id tables ≡ some joined.run
  exception_is_there : find_exception joined.row.exception_id tables ≡ some joined.exception
  proposal_is : joined.proposal ≡ find_proposal joined.row.supersedes_id tables

exception-IsJoined :
    (decision_id : ℕ) (tables : Tables) (row : DecisionRow) (run : RunRow)
    (found : Option ExceptionRow) (joined : Joined)
    → find_decision decision_id tables ≡ some row
    → find_run row.run_id tables ≡ some run
    → find_exception row.exception_id tables ≡ found
    → join_exception row run tables found ≡ some joined
    → IsJoined decision_id tables joined
exception-IsJoined decision_id tables row run none joined d r e h = ground arith
exception-IsJoined decision_id tables row run (some exception) joined d r e h =
    subst (λ (j : Option Joined). Joins j) h
      (record { row_is_there = d; run_is_there = r; exception_is_there = e; proposal_is = refl })
  where
    Joins : Option Joined → Type 0
    Joins none = ℕ
    Joins (some j) = IsJoined decision_id tables j

run-IsJoined :
    (decision_id : ℕ) (tables : Tables) (row : DecisionRow) (found : Option RunRow)
    (joined : Joined)
    → find_decision decision_id tables ≡ some row
    → find_run row.run_id tables ≡ found
    → join_run row tables found ≡ some joined
    → IsJoined decision_id tables joined
run-IsJoined decision_id tables row none joined d r h = ground arith
run-IsJoined decision_id tables row (some run) joined d r h =
    exception-IsJoined decision_id tables row run _ joined d r refl h

decision-IsJoined :
    (decision_id : ℕ) (tables : Tables) (found : Option DecisionRow) (joined : Joined)
    → find_decision decision_id tables ≡ found
    → join_decision tables found ≡ some joined
    → IsJoined decision_id tables joined
decision-IsJoined decision_id tables none joined d h = ground arith
decision-IsJoined decision_id tables (some row) joined d h =
    run-IsJoined decision_id tables row _ joined d refl h

completed_row_lem :
    (now : ℕ) (run : RunRow)
    → is_settleable run.status ≡ true
    → (is_paused (completed_row now run).status ≡ false)
      × (is_settleable (completed_row now run).status ≡ true)
completed_row_lem now run h = ground arith

final_can_settle :
    (action : ReviewAction) (exception : ExceptionRow)
    → can_settle (final_status action) (some (record exception { status = final_status action }))
      ≡ true
final_can_settle approve exception = refl
final_can_settle return exception = refl
final_can_settle escalate exception = refl

settled_tables_again :
    (now later : ℕ) (row : DecisionRow) (tables : Tables)
    → settled_tables later row (settled_tables now row tables) ≡ settled_tables now row tables
settled_tables_again now later row tables =
    rw
      (
        set_status_again row.exception_id (final_status row.action) tables.exceptions,
        complete_run_again row.run_id now later tables.runs,
      )
      refl

-- A decision whose run is not paused is settled at once.
process_unpaused :
    (resume : Resume) (now : ℕ) (tables : Tables) (joined : Joined)
    → is_signed_off joined.row joined.proposal ≡ true
    → is_settleable joined.run.status ≡ true
    → is_paused joined.run.status ≡ false
    → process_joined resume now tables (some joined) ≡ settle now joined.row tables
unfolding process_joined
process_unpaused resume now tables joined s t u = rw (s, t, u) refl

settle_succeeds :
    (now : ℕ) (row : DecisionRow) (tables : Tables) (run : RunRow) (exception : ExceptionRow)
    → find_run row.run_id tables ≡ some run
    → find_exception row.exception_id tables ≡ some exception
    → is_settleable run.status ≡ true
    → has_evidence row tables.ledger ≡ true
    → can_settle (final_status row.action) (some exception) ≡ true
    → settle now row tables
      ≡ settled
          (record { decision_id = row.id; run_id = row.run_id; status = final_status row.action })
          (settled_tables now row tables)
unfolding settle_locked
settle_succeeds now row tables run exception r e s v c = rw (r, s, v, e, c) refl

joined_again :
    (tables : Tables) (decision_id : ℕ) (row : DecisionRow) (run : RunRow)
    (exception : ExceptionRow)
    → find_decision decision_id tables ≡ some row
    → find_run row.run_id tables ≡ some run
    → find_exception row.exception_id tables ≡ some exception
    → join_decision tables (find_decision decision_id tables)
      ≡ some (record {
        row = row;
        run = run;
        exception = exception;
        proposal = find_proposal row.supersedes_id tables;
      })
joined_again tables decision_id row run exception d r e =
    ap (join_decision tables) d
    ∙ (ap (join_run row tables) r ∙ ap (join_exception row run tables) e)

find_proposal_same :
    (id : Option ℕ) (a b : Tables)
    → a.decisions ≡ b.decisions
    → find_proposal id a ≡ find_proposal id b
find_proposal_same none a b h = refl
find_proposal_same (some id) a b h = ap (find_first (λ (row : DecisionRow). row.id == id)) h

-- What a second attempt finds.
processed_again :
    (resume : Resume) (now later decision_id : ℕ) (tables : Tables) (receipt : Receipt)
    (next : Tables) (p : IsProcessed now decision_id tables receipt next)
    → process resume later decision_id
        (settled_tables now p.joined.row (record tables { ledger = p.ledger }))
      ≡ settled receipt (settled_tables now p.joined.row (record tables { ledger = p.ledger }))
unfolding process
processed_again resume now later decision_id tables receipt next p =
    let row = p.joined.row in
    let s = p.settles in
    let after = settled_tables now row (record tables { ledger = p.ledger }) in
    let j = decision-IsJoined decision_id tables _ p.joined refl p.is_joined in
    let (not_paused, settleable) = completed_row_lem now s.run s.settleable in
    let run = completed_row now s.run in
    let exception = record s.exception { status = final_status row.action } in
    let run_found : find_run row.run_id after ≡ some run =
      found_run row.run_id now tables.runs s.run s.run_is_there in
    let exception_found : find_exception row.exception_id after ≡ some exception =
      found_status row.exception_id (final_status row.action) tables.exceptions s.exception
        s.exception_is_there in
    ap (process_joined resume later after)
      (joined_again after decision_id row run exception j.row_is_there run_found exception_found)
    ∙ (process_unpaused resume later after
          (record {
            row = row;
            run = run;
            exception = exception;
            proposal = find_proposal row.supersedes_id after;
          })
          (ap (is_signed_off row)
              (find_proposal_same row.supersedes_id after tables refl ∙ sym j.proposal_is)
            ∙ p.signed_off)
          settleable not_paused
        ∙ (settle_succeeds later row after run exception run_found exception_found settleable
              s.evidence (final_can_settle row.action s.exception)
            ∙ (ap
                  (settled (record {
                    decision_id = row.id;
                    run_id = row.run_id;
                    status = final_status row.action;
                  }))
                  (settled_tables_again now later row (record tables { ledger = p.ledger }))
                ∙ ap (λ r. settled r after) (sym s.receives))))

-- Processing is safe to repeat: once a decision is settled, processing it again, at any later time and whatever the
-- workflow would answer, gives the same receipt and changes nothing.
pub process_repeats :
    (resume resume_later : Resume) (now later decision_id : ℕ) (tables : Tables) (receipt : Receipt)
    (next : Tables)
    → process resume now decision_id tables ≡ settled receipt next
    → process resume_later later decision_id next ≡ settled receipt next
process_repeats resume resume_later now later decision_id tables receipt next h =
    let p = process-IsProcessed resume now decision_id tables receipt next h in
    subst (λ (t : Tables). process resume_later later decision_id t ≡ settled receipt t)
      (sym p.settles.writes)
      (processed_again resume_later now later decision_id tables receipt next p)
