-- ===== src/Decisions/Record.antt =====
-- The ledger's record of the decisions, and what a countersigned exception refuses.
use invoice_ops.Prelude.{
  ℕ, String, ◌≡◌, refl, sym, ap, ◌∙◌, inl, inr, Bool, true, false, Option, none, some, List, [],
  ◌∷◌, map, arith, ◌≢◌, Bool-cases, is_some,
}
use mathlib.Core.Path.{subst}
use invoice_ops.Schemas.Review.{DecisionResponse, DecisionRequest, DecisionStage, ReviewAction}
use invoice_ops.Ledger.{LedgerEvent, Payload, decision}
use invoice_ops.Ledger.Staging.{append_staged}
use invoice_ops.Decisions.{
  tables_after, decisions_of, payload_of, row_of, submit, serve, serve_all, permit, permit_proposal,
  permit_signoff, permitted, identity_of, decision_pins, decision_event,
}
use invoice_ops.Decisions.Rows.{
  Role, analyst, manager, auditor, ExceptionStatus, DecisionRow, Tables, Call, Submitted, accepted,
  rejected, DecisionError,
}
use invoice_ops.Decisions.Accepted.{IsWritten, submit_accepted}
use invoice_ops.Decisions.Repeat.{stored_under}

-- What the ledger says of a decision: its run, its actor and its payload.
pub record Trace : Type 0 where
  pub run_id : ℕ
  pub invoice_id : ℕ
  pub actor_id : String
  pub payload : Payload

abbrev pub trace_row : DecisionRow → Trace
trace_row row = record {
  run_id = row.run_id;
  invoice_id = row.invoice_id;
  actor_id = row.actor_id;
  payload = payload_of row;
}

abbrev is_decision : Payload → Bool
is_decision (decision _ _ _ _ _ _) = true
is_decision _ = false

abbrev traced : LedgerEvent → Bool → List Trace → List Trace
traced event true rest =
    (record {
      run_id = event.run_id;
      invoice_id = event.invoice_id;
      actor_id = event.actor_id;
      payload = event.payload;
    })
    ∷ rest
traced event false rest = rest

-- The decisions that the ledger records, the newest first.
unfoldable pub traces : List LedgerEvent → List Trace
traces [] = []
traces (event ∷ events) = traced event (is_decision event.payload) (traces events)

-- The ledger records the decisions that are stored, each once and in their order, and no other.
unfoldable pub IsRecorded : Tables → Type 0
IsRecorded tables = traces tables.ledger ≡ map trace_row tables.decisions

written_IsRecorded :
    (call : Call) (tables : Tables) (response : DecisionResponse) (next : Tables)
    → IsRecorded tables
    → IsWritten call tables response next
    → IsRecorded next
unfolding IsRecorded
written_IsRecorded call tables response next h w =
    let row = row_of call w.exception w.run in
    let s =
      append_staged (decision_pins w.run) true call.event_id call.now (decision_event call.role row)
        (map identity_of tables.runs) tables.ledger w.event w.ledger w.is_staged in
    subst (λ (t : Tables). traces t.ledger ≡ map trace_row t.decisions) (sym w.writes)
      (ap traces s.grows
        ∙ (ap (λ e. traces (e ∷ tables.ledger)) s.is_event
            ∙ (unfold traces in ap (λ ts. trace_row row ∷ ts) h)))

answer-IsRecorded :
    (call : Call) (tables : Tables) (answer : Submitted)
    → submit call tables ≡ answer
    → IsRecorded tables
    → IsRecorded (tables_after tables answer)
answer-IsRecorded call tables (accepted response next) e h =
    elim (submit_accepted call tables response next e).outcome [
      | inl repeated ↦ subst IsRecorded (sym repeated.unchanged) h
      | inr w ↦ written_IsRecorded call tables response next h w
    ]
answer-IsRecorded call tables (rejected error) e h = h

-- However many calls come one after another: if the ledger records exactly the stored decisions, each once and in
-- order, with its run, its invoice, its actor and its content, then it does so afterwards.
pub serve_all-IsRecorded :
    (calls : List Call) (tables : Tables) → IsRecorded tables → IsRecorded (serve_all calls tables)
unfolding serve_all
serve_all-IsRecorded [] tables h = h
serve_all-IsRecorded (call ∷ calls) tables h =
    serve_all-IsRecorded calls (serve call tables)
      (unfold serve in answer-IsRecorded call tables _ refl h)

signoff_refuses :
    (action : ReviewAction) (proposal_id : Option ℕ) (a b : DecisionRow) (rest : List DecisionRow)
    (status : ExceptionStatus) (stage : DecisionStage)
    → permit_signoff action proposal_id (a ∷ b ∷ rest) status ≢ permitted stage
unfolding permit_signoff
signoff_refuses action none a b rest status stage h = ground arith
signoff_refuses action (some p) a b rest status stage h = ground arith

proposal_refuses :
    (request : DecisionRequest) (a b : DecisionRow) (rest : List DecisionRow)
    (status : ExceptionStatus) (stage : DecisionStage)
    → permit_proposal request (a ∷ b ∷ rest) status ≢ permitted stage
unfolding permit_proposal
proposal_refuses request a b rest status stage h = elim (Bool-cases (is_some request.proposal_id)) [
  | inl e ↦ ground arith
  | inr e ↦ ground arith
]

closed_refuses :
    (role : Role) (request : DecisionRequest) (a b : DecisionRow) (rest : List DecisionRow)
    (status : ExceptionStatus) (stage : DecisionStage)
    → permit role request (a ∷ b ∷ rest) status ≢ permitted stage
unfolding permit
closed_refuses analyst request a b rest status stage h =
    proposal_refuses request a b rest status stage h
closed_refuses manager request a b rest status stage h =
    signoff_refuses request.action request.proposal_id a b rest status stage h
closed_refuses auditor request a b rest status stage h =
    signoff_refuses request.action request.proposal_id a b rest status stage h

closed_answer :
    (call : Call) (tables : Tables) (a b : DecisionRow) (rest : List DecisionRow)
    (answer : Submitted)
    → stored_under call.idempotency_key tables ≡ none
    → decisions_of call.exception_id tables.decisions ≡ a ∷ b ∷ rest
    → submit call tables ≡ answer
    → (e : DecisionError) × (answer ≡ rejected e)
closed_answer call tables a b rest (rejected error) k d e = (error, refl)
closed_answer call tables a b rest (accepted response next) k d e =
    absurd (elim (submit_accepted call tables response next e).outcome [
      | inl r ↦ (let p = sym k ∙ r.is_stored in ground arith)
      | inr w ↦
          closed_refuses call.role call.request a b rest w.exception.status w.stage (
            ap (λ ds. permit call.role call.request ds w.exception.status) (sym d) ∙ w.is_permitted)
    ])

-- An exception that has a proposal and a signoff takes no further decision: whoever calls, whatever is asked for and
-- whatever the other tables hold, a call with a key that is not in use is rejected.
pub closed_rejects :
    (call : Call) (tables : Tables) (a b : DecisionRow) (rest : List DecisionRow)
    → stored_under call.idempotency_key tables ≡ none
    → decisions_of call.exception_id tables.decisions ≡ a ∷ b ∷ rest
    → (e : DecisionError) × (submit call tables ≡ rejected e)
closed_rejects call tables a b rest k d = closed_answer call tables a b rest _ k d refl
