-- ===== src/Workflow/Safety.antt =====
-- What every position of a run satisfies, and how a run ends.
use invoice_ops.Prelude.{
  ℕ, zero, suc, ◌-◌, ◌≤◌, ◌<◌, ◌≡◌, refl, ◌⊎◌, Bool, true, false, Option, none, some, is_some, List,
  [], ◌++◌, map, not, ◌&&◌, ◌||◌, if◌then◌else◌, arith, inl, inr,
}
use invoice_ops.Prelude.Sets.{distinct}
use invoice_ops.Schemas.Review.{ReviewDecision}
use invoice_ops.Workflow.{
  Node, node_rank, has_node, is_completed, is_rejected, ingest, extract, validate, match_three_way,
  policy, gate, auto_approve, exception_triage, human_review, archive, reject, State, GraphStatus,
  running, awaiting_review, completed, rejected, has_valid_progress, Services, run_node, next_node,
  Position, visit, advance, run, is_approve_route,
}
use invoice_ops.Workflow.Progress.{Inv, Escalated, front, full, GateApproved, IsFresh, run_keeps}

abbrev valid : List Node → GraphStatus → Bool
valid nodes status =
    distinct (map node_rank nodes)
    && (not (is_completed status) || has_node archive nodes)
    && (not (is_rejected status) || has_node reject nodes)

valid_at :
    {nodes : List Node} {status : GraphStatus} (state : State)
    → state.completed_nodes ≡ nodes
    → state.status ≡ status
    → valid nodes status ≡ true
    → has_valid_progress state ≡ true
unfolding has_valid_progress
valid_at state c s h = rw (c, s) h

Escalated-valid :
    (status : GraphStatus) (rest : List Node) (state : State)
    → Escalated rest state
    → state.status ≡ status
    → valid (front ++ rest) status ≡ true
    → valid (full ++ rest) status ≡ true
    → has_valid_progress state ≡ true
Escalated-valid status rest state (inl c) s h k = valid_at state c s h
Escalated-valid status rest state (inr c) s h k = valid_at state c s k

Inv-valid :
    (pending : Option Node) (state : State) → Inv pending state → has_valid_progress state ≡ true
unfolding Inv
Inv-valid (some ingest) state (c, s) = valid_at state c s refl
Inv-valid (some extract) state (c, s, d) = valid_at state c s refl
Inv-valid (some validate) state (c, s, d) = valid_at state c s refl
Inv-valid (some match_three_way) state (c, s, d) = valid_at state c s refl
Inv-valid (some policy) state (c, s, d) = valid_at state c s refl
Inv-valid (some gate) state (c, s, d) = valid_at state c s refl
Inv-valid (some auto_approve) state ((c, s, d), a) = valid_at state c s refl
Inv-valid (some exception_triage) state (c, s, d) = Escalated-valid running [] state c s refl refl
Inv-valid (some human_review) state (c, s, d) =
    Escalated-valid awaiting_review _ state c s refl refl
Inv-valid (some archive) state (inl (c, a), s, d) = valid_at state c s refl
Inv-valid (some archive) state (inr (c, a), s, d) = Escalated-valid running _ state c s refl refl
Inv-valid (some reject) state (c, s, d) = valid_at state c s refl
Inv-valid none state (inl (inl (c, a), s, d)) = valid_at state c s refl
Inv-valid none state (inl (inr (c, a), s, d)) = Escalated-valid completed _ state c s refl refl
Inv-valid none state (inr (c, s, d)) = valid_at state c s refl

-- At every position of a run that starts fresh, the state passes the validator of `InvoiceGraphState`: no node completes
-- twice, a completed invoice went through Archive, and a rejected one through Reject.
pub run-has_valid_progress :
    (services : Services) (decisions : ℕ → ReviewDecision) (n : ℕ) (position : Position)
    → IsFresh position
    → has_valid_progress (run services decisions n position).state ≡ true
run-has_valid_progress services decisions n position h =
    Inv-valid _ _ (run_keeps services decisions n position h)

-- How many nodes are left at most.
abbrev left : Option Node → ℕ
left none = 0
left (some archive) = 1
left (some reject) = 1
left (some human_review) = 2
left (some auto_approve) = 2
left (some exception_triage) = 3
left (some gate) = 4
left (some policy) = 5
left (some match_three_way) = 6
left (some validate) = 7
left (some extract) = 8
left (some ingest) = 9

choose_left :
    (b : Bool) (x y : Node) (n : ℕ)
    → left (some x) ≤ n
    → left (some y) ≤ n
    → left (some (if b then x else y)) ≤ n
choose_left true x y n h k = h
choose_left false x y n h k = k

left-next_node : (node : Node) (state : State) → left (next_node node state) < left (some node)
unfolding next_node
left-next_node ingest state =
    omega (arith, choose_left state.duplicate reject extract 8 (omega arith) (omega arith))
left-next_node extract state = omega (
  arith,
  choose_left (is_some state.extraction) validate exception_triage 7 (omega arith) (omega arith),
)
left-next_node gate state = omega (
  arith,
  choose_left (is_approve_route state.route) auto_approve exception_triage 3 (omega arith)
      (omega arith),
)
left-next_node validate state = omega arith
left-next_node match_three_way state = omega arith
left-next_node policy state = omega arith
left-next_node auto_approve state = omega arith
left-next_node exception_triage state = omega arith
left-next_node human_review state = omega arith
left-next_node archive state = omega arith
left-next_node reject state = omega arith

left-advance :
    (services : Services) (decision : ReviewDecision) (pending : Option Node) (state : State)
    → left (advance services decision (record { pending = pending; state = state })).pending
      ≤ left pending - 1
unfolding advance visit
left-advance services decision none state = omega arith
left-advance services decision (some node) state =
    omega (arith, left-next_node node (run_node services decision node state))

left_at_most : (pending : Option Node) → left pending ≤ 9
left_at_most none = omega arith
left_at_most (some node) = ground arith

left-run :
    (services : Services) (decisions : ℕ → ReviewDecision) (n : ℕ) (position : Position)
    → left (run services decisions n position).pending ≤ 9 - n
unfolding run
left-run services decisions zero position = left_at_most position.pending
left-run services decisions (suc n) position =
    let before = run services decisions n position in
    omega (
      arith,
      left-advance services (decisions n) before.pending before.state,
      left-run services decisions n position,
    )

left_pos : (node : Node) → 0 < left (some node)
left_pos node = ground arith

left_zero : (pending : Option Node) → left pending ≤ 0 → pending ≡ none
left_zero none h = refl
left_zero (some node) h = ground (arith, left_pos node)

-- The invoice was paid for a reason: it is no duplicate, and either the gate's result approved it or a person decided.
abbrev pub IsJustified : State → Type 0
IsJustified state =
    (state.status ≡ completed)
    × (state.duplicate ≡ false)
    × (GateApproved state ⊎ (is_some state.review ≡ true))

abbrev pub IsRejected : State → Type 0
IsRejected state = (state.status ≡ rejected) × (state.duplicate ≡ true)

Inv-end :
    (pending : Option Node) (state : State)
    → pending ≡ none
    → Inv pending state
    → IsJustified state ⊎ IsRejected state
unfolding Inv
Inv-end none state e (inl (inl (c, a), s, d)) = inl (s, d, inl a)
Inv-end none state e (inl (inr (c, a), s, d)) = inl (s, d, inr a)
Inv-end none state e (inr (c, s, d)) = inr (s, d)
Inv-end (some node) state e h = ground arith

-- A run that starts fresh ends within nine steps, whatever the services and the reviews give: the invoice is completed, is no
-- duplicate, and was approved by the gate or reviewed by a person, or it is a duplicate and rejected.
pub run_ends :
    (services : Services) (decisions : ℕ → ReviewDecision) (position : Position)
    → IsFresh position
    → ((run services decisions 9 position).pending ≡ none)
      × (IsJustified (run services decisions 9 position).state
          ⊎ IsRejected (run services decisions 9 position).state)
run_ends services decisions position h =
    let e = left_zero _ (left-run services decisions 9 position) in
    (e, Inv-end _ _ e (run_keeps services decisions 9 position h))
