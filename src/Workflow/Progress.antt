-- ===== src/Workflow/Progress.antt =====
-- The invariant of the workflow.
use invoice_ops.Prelude.{
  ℕ, zero, suc, ◌≡◌, refl, ap, ◌∙◌, ◌⊎◌, Bool, true, false, Option, none, some, is_some, List, [],
  ◌∷◌, ◌++◌, if◌then◌else◌, arith, inl, inr,
}
use invoice_ops.Schemas.Gate
use invoice_ops.Schemas.Gate.{outcome_route}
use invoice_ops.Schemas.Review.{ReviewDecision}
use invoice_ops.Workflow.{
  Node, ingest, extract, validate, match_three_way, policy, gate, auto_approve, exception_triage,
  human_review, archive, reject, State, queued, running, awaiting_review, completed, rejected,
  Services, run_node, next_node, Position, visit, advance, run, extraction_of, graph_route,
  is_approve_route,
}

abbrev pub front : List Node
front = ingest ∷ extract ∷ []

abbrev pub full : List Node
full = ingest ∷ extract ∷ validate ∷ match_three_way ∷ policy ∷ gate ∷ []

-- The gate's result routes the invoice to automatic approval.
abbrev pub GateApproved : State → Type 0
GateApproved state = elim state.gate_result [
  | none ↦ ⊥
  | some result ↦ outcome_route result ≡ Gate.auto_approve
]

-- The nodes that were completed before a review.
abbrev pub Escalated : List Node → State → Type 0
Escalated rest state =
    (state.completed_nodes ≡ front ++ rest) ⊎ (state.completed_nodes ≡ full ++ rest)

-- Why a run may be archived, with the nodes after the reason.
abbrev pub Cleared : List Node → State → Type 0
Cleared rest state =
    ((state.completed_nodes ≡ full ++ auto_approve ∷ rest) × GateApproved state)
    ⊎ (Escalated (exception_triage ∷ human_review ∷ rest) state × (is_some state.review ≡ true))

abbrev At : List Node → State → Type 0
At nodes state =
    (state.completed_nodes ≡ nodes) × (state.status ≡ running) × (state.duplicate ≡ false)

-- What holds when a node comes next.
unfoldable pub Inv : Option Node → State → Type 0
Inv (some ingest) state = (state.completed_nodes ≡ []) × (state.status ≡ queued)
Inv (some extract) state = At (ingest ∷ []) state
Inv (some validate) state = At front state
Inv (some match_three_way) state = At (ingest ∷ extract ∷ validate ∷ []) state
Inv (some policy) state = At (ingest ∷ extract ∷ validate ∷ match_three_way ∷ []) state
Inv (some gate) state = At (ingest ∷ extract ∷ validate ∷ match_three_way ∷ policy ∷ []) state
Inv (some auto_approve) state = At full state × GateApproved state
Inv (some exception_triage) state =
    Escalated [] state × (state.status ≡ running) × (state.duplicate ≡ false)
Inv (some human_review) state =
    Escalated (exception_triage ∷ []) state
    × (state.status ≡ awaiting_review)
    × (state.duplicate ≡ false)
Inv (some archive) state = Cleared [] state × (state.status ≡ running) × (state.duplicate ≡ false)
Inv (some reject) state =
    (state.completed_nodes ≡ ingest ∷ []) × (state.status ≡ running) × (state.duplicate ≡ true)
Inv none state =
    (Cleared (archive ∷ []) state × (state.status ≡ completed) × (state.duplicate ≡ false))
    ⊎ ((state.completed_nodes ≡ ingest ∷ reject ∷ [])
        × (state.status ≡ rejected)
        × (state.duplicate ≡ true))

extend :
    {nodes rest : List Node} (node : Node) → nodes ≡ rest → nodes ++ node ∷ [] ≡ rest ++ node ∷ []
extend node h = ap (λ (n : List Node). n ++ node ∷ []) h

extend_either :
    (node : Node) {rest : List Node} (state : State)
    → Escalated rest state
    → (state.completed_nodes ++ node ∷ [] ≡ front ++ rest ++ node ∷ [])
      ⊎ (state.completed_nodes ++ node ∷ [] ≡ full ++ rest ++ node ∷ [])
extend_either node state (inl h) = inl (extend node h)
extend_either node state (inr h) = inr (extend node h)

choose :
    (b : Bool) (x y : Node) (state : State)
    → (b ≡ true → Inv (some x) state)
    → (b ≡ false → Inv (some y) state)
    → Inv (some (if b then x else y)) state
choose true x y state f g = f refl
choose false x y state f g = g refl

approve_lem :
    (r : Gate.Route) → is_approve_route (some (graph_route r)) ≡ true → r ≡ Gate.auto_approve
approve_lem r h = ground arith

Cleared-step :
    (state next : State)
    → next.completed_nodes ≡ state.completed_nodes ++ archive ∷ []
    → next.gate_result ≡ state.gate_result
    → next.review ≡ state.review
    → Cleared [] state
    → Cleared (archive ∷ []) next
Cleared-step state next c g r (inl (h, a)) = inl (c ∙ extend archive h, rw g a)
Cleared-step state next c g r (inr (inl h, a)) = inr (inl (c ∙ extend archive h), rw r a)
Cleared-step state next c g r (inr (inr h, a)) = inr (inr (c ∙ extend archive h), rw r a)

visit_keeps :
    (services : Services) (decision : ReviewDecision) (node : Node) (state : State)
    → Inv (some node) state
    → Inv (visit services decision node state).pending (visit services decision node state).state
unfolding visit run_node next_node Inv
visit_keeps services decision ingest state (c, s) =
    choose state.duplicate reject extract _ (λ d. (extend ingest c, refl, d))
      (λ d. (extend ingest c, refl, d))
visit_keeps services decision extract state (c, s, d) =
    choose (is_some (extraction_of (services.run_extract state))) validate exception_triage _
      (λ e. (extend extract c, s, d)) (λ e. (inl (extend extract c), s, d))
visit_keeps services decision validate state (c, s, d) = (extend validate c, s, d)
visit_keeps services decision match_three_way state (c, s, d) = (extend match_three_way c, s, d)
visit_keeps services decision policy state (c, s, d) = (extend policy c, s, d)
visit_keeps services decision gate state (c, s, d) =
    let r = outcome_route (services.run_gate state) in
    choose (is_approve_route (some (graph_route r))) auto_approve exception_triage _
      (λ e. ((extend gate c, s, d), approve_lem r e)) (λ e. (inr (extend gate c), s, d))
visit_keeps services decision auto_approve state ((c, s, d), a) =
    (inl (extend auto_approve c, a), s, d)
visit_keeps services decision exception_triage state (c, s, d) =
    (extend_either exception_triage state c, refl, d)
visit_keeps services decision human_review state (c, s, d) =
    (inr (extend_either human_review state c, refl), refl, d)
visit_keeps services decision archive state (c, s, d) =
    inl (Cleared-step state (run_node services decision archive state) refl refl refl c, refl, d)
visit_keeps services decision reject state (c, s, d) = inr (extend reject c, refl, d)

advance_keeps :
    (services : Services) (decision : ReviewDecision) (pending : Option Node) (state : State)
    → Inv pending state
    → Inv
        (advance services decision (record { pending = pending; state = state })).pending
        (advance services decision (record { pending = pending; state = state })).state
unfolding advance
advance_keeps services decision none state h = h
advance_keeps services decision (some node) state h = visit_keeps services decision node state h

-- A state in which no node has run yet.
abbrev pub IsFresh : Position → Type 0
IsFresh position =
    (position.pending ≡ some ingest)
    × (position.state.completed_nodes ≡ [])
    × (position.state.status ≡ queued)

fresh-Inv :
    (pending : Option Node) (state : State)
    → pending ≡ some ingest
    → state.completed_nodes ≡ []
    → state.status ≡ queued
    → Inv pending state
unfolding Inv
fresh-Inv pending state p c s = rw p (c, s)

pub run_keeps :
    (services : Services) (decisions : ℕ → ReviewDecision) (n : ℕ) (position : Position)
    → IsFresh position
    → Inv (run services decisions n position).pending (run services decisions n position).state
unfolding run
run_keeps services decisions zero position (p, c, s) =
    fresh-Inv position.pending position.state p c s
run_keeps services decisions (suc n) position h =
    let before = run services decisions n position in
    advance_keeps services (decisions n) before.pending before.state
      (run_keeps services decisions n position h)
