-- ===== src/Decisions/FourEyes.antt =====
-- The four-eyes rule over the decisions that are stored.
use invoice_ops.Prelude.{
  ℕ, String, ◌≡◌, refl, sym, ap, ◌∙◌, ◌⊎◌, inl, inr, Bool, true, false, Option, none, some, not,
  is_some, List, [], ◌∷◌, ◌&&◌, ◌||◌, ◌==◌, ==_iff, eq_iff, arith, if◌then◌else◌, Bool-cases,
}
use mathlib.Core.Path.{subst}
use invoice_ops.Schemas.Review.{DecisionRequest, DecisionResponse, DecisionStage, queued_for_resume}
use invoice_ops.Decisions.{
  decisions_of, is_approval, permitted, forbidden, permit, permit_signoff, permit_proposal, row_of,
  submit, tables_after, serve, serve_all,
}
use invoice_ops.Decisions.Rows.{
  Role, analyst, manager, auditor, actor, ExceptionStatus, DecisionRow, Tables, Call, Submitted,
  accepted, rejected,
}
use invoice_ops.Decisions.Accepted.{IsWritten, submit_accepted}

-- An analyst's proposal supersedes nothing.
unfoldable pub IsProposal : DecisionRow → Type 0
IsProposal proposal = (proposal.actor_id ≡ actor analyst) × (proposal.supersedes_id ≡ none)

-- A manager's signoff names the proposal, and approves only what the analyst proposed to approve.
unfoldable pub IsSignoff : DecisionRow → DecisionRow → Type 0
IsSignoff signoff proposal =
    (signoff.actor_id ≡ actor manager)
    × (signoff.supersedes_id ≡ some proposal.id)
    × ((is_approval signoff.action ≡ false) ⊎ (is_approval proposal.action ≡ true))

-- The decisions of one exception, the newest first: none, a proposal, or a proposal and its signoff.
unfoldable pub IsSigned : List DecisionRow → Type 0
IsSigned [] = Unit {0}
IsSigned (proposal ∷ []) = IsProposal proposal
IsSigned (signoff ∷ proposal ∷ []) = IsProposal proposal × IsSignoff signoff proposal
IsSigned (a ∷ b ∷ c ∷ rest) = ⊥

unfoldable pub IsFourEyes : Tables → Type 0
IsFourEyes tables = (exception_id : ℕ) → IsSigned (decisions_of exception_id tables.decisions)

nothing_there : (o : Option ℕ) → is_some o ≡ false → o ≡ none
nothing_there none h = refl
nothing_there (some n) h = ground arith

signoff_guards :
    (a b c d e f : Bool) (m m' : String) (m'' : String) (stage expected : DecisionStage)
    → (if not a || not b || c
        then forbidden m
        else if d && not e
        then forbidden m'
        else if not f
        then forbidden m''
        else permitted stage)
      ≡ permitted expected
    → (a ≡ true) × (b ≡ true) × (c ≡ false) × ((d ≡ false) ⊎ (e ≡ true))
signoff_guards true true false d e f m m' m'' stage expected h = (refl, refl, refl, ground arith)
signoff_guards false b c d e f m m' m'' stage expected h = ground arith
signoff_guards true false c d e f m m' m'' stage expected h = ground arith
signoff_guards true true true d e f m m' m'' stage expected h = ground arith

permit_signoff-IsSignoff :
    (proposal row : DecisionRow) (proposal_id : ℕ) (status : ExceptionStatus)
    (stage : DecisionStage)
    → row.actor_id ≡ actor manager
    → row.supersedes_id ≡ some proposal_id
    → permit_signoff row.action (some proposal_id) (proposal ∷ []) status ≡ permitted stage
    → IsProposal proposal × IsSignoff row proposal
unfolding permit_signoff IsProposal IsSignoff
permit_signoff-IsSignoff proposal row proposal_id status stage a s h =
    let (same, by_analyst, first, approves) =
      signoff_guards _ _ _ _ _ _ _ _ _ queued_for_resume stage h in
    (
      (
        (eq_iff proposal.actor_id (actor analyst)).0 by_analyst,
        nothing_there proposal.supersedes_id first,
      ),
      (a, s ∙ ap some (sym ((==_iff proposal.id proposal_id).0 same)), approves),
    )

proposal_permitted :
    (decisions : List DecisionRow) (row : DecisionRow) (request : DecisionRequest)
    (status : ExceptionStatus) (stage : DecisionStage)
    → row.actor_id ≡ actor analyst
    → row.supersedes_id ≡ request.proposal_id
    → permit_proposal request decisions status ≡ permitted stage
    → IsSigned (row ∷ decisions)
unfolding permit_proposal IsProposal IsSigned
proposal_permitted [] row request status stage a s h = (
  a,
  elim (Bool-cases (is_some request.proposal_id)) [
    | inl e ↦ ground arith
    | inr e ↦ s ∙ nothing_there request.proposal_id e
  ],
)
proposal_permitted (d ∷ decisions) row request status stage a s h =
    elim (Bool-cases (is_some request.proposal_id)) [ inl e ↦ ground arith | inr e ↦ ground arith ]

countersigned :
    (decisions : List DecisionRow) (row : DecisionRow) (proposal_id : Option ℕ)
    (status : ExceptionStatus) (stage : DecisionStage)
    → row.actor_id ≡ actor manager
    → row.supersedes_id ≡ proposal_id
    → permit_signoff row.action proposal_id decisions status ≡ permitted stage
    → IsSigned (row ∷ decisions)
unfolding permit_signoff IsSigned
countersigned decisions row none status stage a s h = ground arith
countersigned [] row (some id) status stage a s h = ground arith
countersigned (p ∷ []) row (some id) status stage a s h =
    permit_signoff-IsSignoff p row id status stage a s h
countersigned (p ∷ q ∷ rest) row (some id) status stage a s h = ground arith

-- What the checks permit keeps the decisions of the exception signed.
permitted_IsSigned :
    (role : Role) (row : DecisionRow) (request : DecisionRequest) (decisions : List DecisionRow)
    (status : ExceptionStatus) (stage : DecisionStage)
    → (role ≡ analyst) ⊎ (role ≡ manager)
    → row.actor_id ≡ actor role
    → row.supersedes_id ≡ request.proposal_id
    → row.action ≡ request.action
    → permit role request decisions status ≡ permitted stage
    → IsSigned (row ∷ decisions)
unfolding permit
permitted_IsSigned analyst row request decisions status stage who a s t h =
    proposal_permitted decisions row request status stage a s h
permitted_IsSigned manager row request decisions status stage who a s t h =
    countersigned decisions row request.proposal_id status stage a s
      (ap (λ x. permit_signoff x request.proposal_id decisions status) t ∙ h)
permitted_IsSigned auditor row request decisions status stage who a s t h = ground arith

inserted_IsSigned :
    (same : Bool) (row : DecisionRow) (decisions : List DecisionRow)
    → (same ≡ true → IsSigned (row ∷ decisions))
    → IsSigned decisions
    → IsSigned (if same then row ∷ decisions else decisions)
inserted_IsSigned true row decisions f h = f refl
inserted_IsSigned false row decisions f h = h

written_IsFourEyes :
    (call : Call) (tables : Tables) (response : DecisionResponse) (next : Tables)
    → IsFourEyes tables
    → IsWritten call tables response next
    → (call.role ≡ analyst) ⊎ (call.role ≡ manager)
    → IsFourEyes next
unfolding IsFourEyes
written_IsFourEyes call tables response next h w who exception_id =
    let row = row_of call w.exception w.run in
    subst (λ (t : Tables). IsSigned (decisions_of exception_id t.decisions)) (sym w.writes)
      (unfold decisions_of in
        inserted_IsSigned (call.exception_id == exception_id) row
          (decisions_of exception_id tables.decisions)
          (λ same.
            subst (λ (id : ℕ). IsSigned (row ∷ decisions_of id tables.decisions))
              ((==_iff call.exception_id exception_id).0 same)
              (permitted_IsSigned call.role row call.request _ w.exception.status w.stage who refl
                refl refl w.is_permitted))
          (h exception_id))

-- An accepted call keeps the four-eyes rule.
pub submit-IsFourEyes :
    (call : Call) (tables : Tables) (response : DecisionResponse) (next : Tables)
    → IsFourEyes tables
    → submit call tables ≡ accepted response next
    → IsFourEyes next
submit-IsFourEyes call tables response next h e =
    let a = submit_accepted call tables response next e in
    elim a.outcome [
      | inl repeated ↦ subst IsFourEyes (sym repeated.unchanged) h
      | inr w ↦ written_IsFourEyes call tables response next h w a.who
    ]

answer-IsFourEyes :
    (call : Call) (tables : Tables) (answer : Submitted)
    → submit call tables ≡ answer
    → IsFourEyes tables
    → IsFourEyes (tables_after tables answer)
answer-IsFourEyes call tables (accepted response next) e h =
    submit-IsFourEyes call tables response next h e
answer-IsFourEyes call tables (rejected error) e h = h

-- However many calls come one after another, whoever makes them and whatever they ask for: if the decisions obey the
-- rule before, they obey it after. Each exception has at most a proposal of the analyst and one later
-- signoff of the manager that names that proposal, and the signoff approves only what the proposal approves.
pub serve_all-IsFourEyes :
    (calls : List Call) (tables : Tables) → IsFourEyes tables → IsFourEyes (serve_all calls tables)
unfolding serve_all
serve_all-IsFourEyes [] tables h = h
serve_all-IsFourEyes (call ∷ calls) tables h =
    serve_all-IsFourEyes calls (serve call tables)
      (unfold serve in answer-IsFourEyes call tables _ refl h)
