-- ===== src/Decisions/Repeat.antt =====
-- A response that was given is given again.
use invoice_ops.Prelude.{
  ℕ, String, ◌≡◌, refl, sym, ap, ◌∙◌, ◌⊎◌, inl, inr, true, Option, none, some, List, [], ◌∷◌,
  ==_iff, eq_iff, str_eq, arith, if◌then◌else◌, Bool-cases, find_first,
}
use mathlib.Core.Path.{subst}
use invoice_ops.Schemas.Review.{
  DecisionRequest, DecisionResponse, DecisionStage, ReviewAction, same_action_refl, pending_signoff,
  queued_for_resume,
}
use invoice_ops.Decisions.{
  tables_after, has_key, is_replay, response_of, submit_as, same_id, row_of, submit, serve,
  serve_all, permit, permitted, permit_proposal, permit_signoff,
}
use invoice_ops.Decisions.Rows.{
  Role, analyst, manager, auditor, actor, ExceptionStatus, ExceptionRow, RunRow, DecisionRow,
  Tables, Call, Submitted, accepted, rejected,
}
use invoice_ops.Decisions.Accepted.{IsWritten, submit_accepted}

-- The decision that is stored under a key.
abbrev pub stored_under : String → Tables → Option DecisionRow
stored_under key tables = find_first (has_key key) tables.decisions

same_id_refl : (a : Option ℕ) → same_id a a ≡ true
same_id_refl none = refl
same_id_refl (some n) = (==_iff n n).1 refl

row_of-is_replay :
    (call : Call) (exception : ExceptionRow) (run : RunRow)
    → is_replay call (row_of call exception run) ≡ true
row_of-is_replay call exception run =
    rw
      (
        same_action_refl call.request.action,
        same_id_refl call.request.proposal_id,
        (==_iff call.exception_id call.exception_id).1 refl,
        (eq_iff call.request.rationale call.request.rationale).1 refl,
        (eq_iff call.request.reason_code call.request.reason_code).1 refl,
        (eq_iff (actor call.role) (actor call.role)).1 refl,
      )
      refl

permitted_stage :
    (role : Role) (request : DecisionRequest) (decisions : List DecisionRow)
    (status : ExceptionStatus) (stage : DecisionStage)
    → (role ≡ analyst) ⊎ (role ≡ manager)
    → permit role request decisions status ≡ permitted stage
    → stage ≡ (if str_eq (actor role) (actor analyst) then pending_signoff else queued_for_resume)
unfolding permit
permitted_stage analyst request decisions status stage who h =
    unfold permit_proposal in ground arith
permitted_stage manager request decisions status stage who h =
    signoff_stage request.action request.proposal_id decisions status stage h
  where
    signoff_stage :
        (action : ReviewAction) (proposal_id : Option ℕ) (decisions : List DecisionRow)
        (status : ExceptionStatus) (stage : DecisionStage)
        → permit_signoff action proposal_id decisions status ≡ permitted stage
        → stage ≡ queued_for_resume
    signoff_stage action none decisions status stage h = unfold permit_signoff in ground arith
    signoff_stage action (some p) [] status stage h = unfold permit_signoff in ground arith
    signoff_stage action (some p) (a ∷ []) status stage h = unfold permit_signoff in ground arith
    signoff_stage action (some p) (a ∷ b ∷ rest) status stage h =
        unfold permit_signoff in ground arith
permitted_stage auditor request decisions status stage who h = ground arith

-- A stored decision stays stored when another call writes.
written_keeps :
    (call : Call) (tables : Tables) (response : DecisionResponse) (next : Tables) (key : String)
    (row : DecisionRow)
    → IsWritten call tables response next
    → stored_under key tables ≡ some row
    → stored_under key next ≡ some row
written_keeps call tables response next key row w s =
    elim (Bool-cases (str_eq call.idempotency_key key)) [
      | inl e ↦
          let same = (eq_iff call.idempotency_key key).0 e in
          let missing = ap (λ k. stored_under k tables) (sym same) ∙ w.key_is_new in ground arith
      | inr e ↦ ap (stored_under key) w.writes ∙ (rw e s)
    ]

answer_keeps :
    (call : Call) (tables : Tables) (answer : Submitted) (key : String) (row : DecisionRow)
    → submit call tables ≡ answer
    → stored_under key tables ≡ some row
    → stored_under key (tables_after tables answer) ≡ some row
answer_keeps call tables (accepted response next) key row e s =
    elim (submit_accepted call tables response next e).outcome [
      | inl repeated ↦ ap (stored_under key) repeated.unchanged ∙ s
      | inr w ↦ written_keeps call tables response next key row w s
    ]
answer_keeps call tables (rejected error) key row e s = s

serve_all_keeps :
    (calls : List Call) (tables : Tables) (key : String) (row : DecisionRow)
    → stored_under key tables ≡ some row
    → stored_under key (serve_all calls tables) ≡ some row
unfolding serve_all
serve_all_keeps [] tables key row s = s
serve_all_keeps (call ∷ calls) tables key row s =
    serve_all_keeps calls (serve call tables) key row
      (unfold serve in answer_keeps call tables _ key row refl s)

key_found :
    (key : String) (row : DecisionRow) (rows : List DecisionRow)
    → row.idempotency_key ≡ key
    → find_first (has_key key) (row ∷ rows) ≡ some row
key_found key row rows e = let h = (eq_iff row.idempotency_key key).1 e in rw h refl

-- An accepted call has its decision under its key afterwards, and its response is that of the decision.
accepted_is_stored :
    (call : Call) (tables : Tables) (response : DecisionResponse) (next : Tables)
    → submit call tables ≡ accepted response next
    → (row : DecisionRow) × (stored_under call.idempotency_key next ≡ some row)
      × (is_replay call row ≡ true)
      × (response ≡ response_of row)
accepted_is_stored call tables response next e =
    let a = submit_accepted call tables response next e in
    elim a.outcome [
      | inl r ↦ (
        r.row,
        ap (stored_under call.idempotency_key) r.unchanged ∙ r.is_stored,
        r.is_same,
        r.responds,
      )
      | inr w ↦ (
        row_of call w.exception w.run,
        ap (stored_under call.idempotency_key) w.writes
            ∙ key_found call.idempotency_key (row_of call w.exception w.run) tables.decisions refl,
        row_of-is_replay call w.exception w.run,
        w.responds
            ∙ ap (λ stage. record (response_of (row_of call w.exception w.run)) { stage = stage })
                (permitted_stage call.role _ _ _ w.stage a.who w.is_permitted),
      )
    ]

-- The call again, with the values that another attempt draws.
abbrev pub again : Call → ℕ → ℕ → ℕ → Call
again call decision_id event_id now = record call {
  decision_id = decision_id;
  event_id = event_id;
  now = now;
}

replayed :
    (role : Role) (call : Call) (tables : Tables) (row : DecisionRow)
    → (role ≡ analyst) ⊎ (role ≡ manager)
    → call.is_configured ≡ true
    → stored_under call.idempotency_key tables ≡ some row
    → is_replay call row ≡ true
    → submit_as role call tables ≡ accepted (response_of row) tables
unfolding submit_as
replayed analyst call tables row who c s r = rw (c, s, r) refl
replayed manager call tables row who c s r = rw (c, s, r) refl
replayed auditor call tables row who c s r = ground arith

-- If a call was accepted, then the same request under the same key, whatever ids and time a new attempt draws and
-- whatever other calls came in between, gets the same response and changes nothing.
pub submit_repeats :
    (call : Call) (between : List Call) (tables : Tables) (response : DecisionResponse)
    (next : Tables) (decision_id event_id now : ℕ)
    → submit call tables ≡ accepted response next
    → submit (again call decision_id event_id now) (serve_all between next)
      ≡ accepted response (serve_all between next)
submit_repeats call between tables response next decision_id event_id now e =
    let (row, stored, same, responds) = accepted_is_stored call tables response next e in
    let a = submit_accepted call tables response next e in
    subst
      (λ x.
        submit (again call decision_id event_id now) (serve_all between next)
        ≡ accepted x (serve_all between next))
      (sym responds)
      (unfold submit in
        replayed call.role (again call decision_id event_id now) (serve_all between next) row a.who
          a.is_configured (serve_all_keeps between next call.idempotency_key row stored) same)
