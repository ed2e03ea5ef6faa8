-- ===== src/Live/Outcome.antt =====
-- The controls as the services run them: what comes out, and what an approval guarantees.
use invoice_ops.Prelude.{◌≡◌, refl, sym, ap, ◌∙◌, Bool, true, false, none, some, eq_iff, arith}
use mathlib.Core.Path.{subst}
use invoice_ops.Schemas.Extraction.{InvoiceExtraction}
use invoice_ops.Schemas.Matching.{MatchRequest, MatchResult}
use invoice_ops.Schemas.Policy.{PolicyRequest, PolicyConfig}
use invoice_ops.Schemas.Digests.{Digests}
use invoice_ops.Schemas.Gate.{
  Route, CompositeGateConfig, composite, auto_approve, is_auto_approve, outcome_route,
}
use invoice_ops.Validation.{validate_invoice}
use invoice_ops.Matching.{match_invoice}
use invoice_ops.Policy.{evaluate_policy}
use invoice_ops.Gate.{evaluate_composite_gate, composite_result}
use invoice_ops.Gate.Routes.{Approved}
use invoice_ops.Pipeline.{IsPayable, Approved-IsPayable}
use invoice_ops.Workflow.{State}
use invoice_ops.Live.{
  validate, snapshot_for, match_request, match, policy_from, policy, gate, run_controls,
}
use invoice_ops.Live.Evidence.{Live, Cache, ok}
use invoice_ops.Live.Requests.{
  validate_invoice-digest, evaluate_policy-digest, match_invoice-names,
  policy_request-has_same_invoice,
}
use invoice_ops.Live.Replay.{
  evidence_state, computed, controlled, IsPartOf, bind_ok, or_computed_lem, checked_validation_lem,
  checked_match_lem, policy_from_lem, required_lem, gate_request_lem, checked_gate_lem,
  with_digest_lem,
}

-- The comparison's request for an invoice.
abbrev pub compared : Live → State → InvoiceExtraction → MatchRequest
compared live state extraction =
    match_request state extraction (snapshot_for live extraction.po_number.value)

-- Whether the gate's outcome in a state approves.
unfoldable pub routes_to_approval : State → Bool
routes_to_approval state = elim state.gate_result [
  | none ↦ false
  | some outcome ↦ is_auto_approve (outcome_route outcome)
]

gate_answers :
    (digests : Digests) (asked : PolicyRequest) (rules : PolicyConfig)
    (config : CompositeGateConfig)
    → evaluate_composite_gate digests asked (evaluate_policy digests asked rules) config
      ≡ some (composite_result digests asked (evaluate_policy digests asked rules) config)
unfolding evaluate_composite_gate
gate_answers digests asked rules config =
    let same =
      (eq_iff (evaluate_policy digests asked rules).input_sha256
          (digests.of_policy_request asked)).1
        (evaluate_policy-digest digests asked rules) in
    rw same refl

approving_route : (route : Route) → is_auto_approve route ≡ true → route ≡ auto_approve
approving_route auto_approve h = refl
approving_route Route.review h = ground arith

ok_path : (a b : State) → ok a ≡ ok b → a ≡ b
ok_path a b h = ground arith

module _ (live : Live) (cache : Cache) (state : State) (extraction : InvoiceExtraction)
    (result : MatchResult) (here : state.extraction ≡ some extraction)
    (matches : match_invoice live.digests live.tables
        (compared live state extraction)
        live.controls.matching
      ≡ some result)
    (named : (live.detect extraction).extraction_sha256 ≡ live.digests.of_extraction extraction)
    (part : IsPartOf cache (computed live state extraction result)) where
  validate_lem :
      validate live cache state
      ≡ ok (validate_invoice live.digests extraction live.controls.validation)
  unfolding validate computed
  validate_lem =
      bind_ok _ extraction _ (required_lem _ _ extraction here)
      ∙ checked_validation_lem live extraction cache.validation part.validation

  match_lem :
      (given : State)
      → given ≡ (record state {
        validation = some (validate_invoice live.digests extraction live.controls.validation);
      })
      → match live cache given ≡ ok (snapshot_for live extraction.po_number.value, result)
  unfolding match computed
  match_lem given g =
      subst
        (λ (s : State).
          match live cache s ≡ ok (snapshot_for live extraction.po_number.value, result))
        (sym g)
        (bind_ok _ extraction _ (required_lem _ _ extraction here)
          ∙ bind_ok _ result _ (
              checked_match_lem live state extraction _ cache.matching result matches
                part.matching))

  policy_lem :
      let done = computed live state extraction result in
      policy live cache (evidence_state state done.validation done.snapshot result)
      ≡ ok (done.similarity, done.taxonomy, done.decision)
  unfolding policy computed
  policy_lem =
      let (names, of, digest) =
        match_invoice-names live.digests live.tables (compared live state extraction)
          live.controls.matching result matches in
      let done = computed live state extraction result in
      let evidence = evidence_state state done.validation done.snapshot result in
      bind_ok _ extraction _ (required_lem _ _ extraction here)
      ∙ (ap (policy_from live cache evidence extraction done.validation result)
            (or_computed_lem cache.similarity (live.detect extraction) part.similarity)
          ∙ policy_from_lem live cache evidence extraction done.validation result
              (live.detect extraction)
              (validate_invoice-digest live.digests extraction live.controls.validation) names of
              named part.taxonomy part.policy)

  -- The state that the gate reads.
  abbrev decided_state : State
  unfolding computed
  decided_state =
      let done = computed live state extraction result in
      record (evidence_state state done.validation done.snapshot result) {
        similarity = some done.similarity.json;
        taxonomy = some done.taxonomy;
        policy_result = some done.decision;
      }

  gate_lem :
      gate live cache decided_state ≡ ok (composite (computed live state extraction result).outcome)
  unfolding gate computed
  gate_lem =
      let (names, of, digest) =
        match_invoice-names live.digests live.tables (compared live state extraction)
          live.controls.matching result matches in
      let done = computed live state extraction result in
      let evidence = evidence_state state done.validation done.snapshot result in
      bind_ok _ done.asked _ (
        gate_request_lem live decided_state extraction done.validation result done.taxonomy here
          refl refl refl
          (policy_request-has_same_invoice live evidence extraction done.validation result
            done.similarity
            (validate_invoice-digest live.digests extraction live.controls.validation) names of))
      ∙ (bind_ok _ done.decision _ (
            with_digest_lem _ _ _ done.decision
              (evaluate_policy-digest live.digests done.asked live.controls.policy))
          ∙ checked_gate_lem live done.asked cache.gate part.gate)

  -- For an invoice that was extracted and can be compared, and committed evidence that is a part of what the controls
  -- compute, all of it or none: the nodes raise nothing, and the state after them holds what the controls compute. So
  -- an interrupted run that is taken up again comes to the same end.
  pub run_controls_completes :
      run_controls live cache state ≡ ok (controlled state (computed live state extraction result))
  unfolding run_controls computed
  run_controls_completes =
      let done = computed live state extraction result in
      let first = record state { validation = some done.validation } in
      bind_ok _ done.validation _ validate_lem
      ∙ (bind_ok _ (done.snapshot, result) _ (match_lem first refl)
          ∙ (bind_ok _ (done.similarity, done.taxonomy, done.decision) _ policy_lem
              ∙ bind_ok _ (composite done.outcome) _ gate_lem))

  -- Under the same conditions, where the gate then routes the invoice to automatic approval: the invoice is sound, it
  -- agrees with its order and its receipts, the classification is quiet about it, and the order and the amount are clear,
  -- all of it for the very requests that the services build.
  pub run_controls-IsPayable :
      (after : State)
      → run_controls live cache state ≡ ok after
      → routes_to_approval after ≡ true
      → let done = computed live state extraction result in
        IsPayable live.tables live.controls
          (compared live state extraction)
          done.classified
          done.asked
  unfolding computed routes_to_approval
  run_controls-IsPayable after r a =
      let done = computed live state extraction result in
      Approved-IsPayable live.digests live.tables live.controls (compared live state extraction)
        done.classified done.asked
        (record {
          same_compared = refl;
          same_classified = refl;
          validated = refl;
          matched = matches;
          taxonomy_given = refl;
        })
        (subst Approved
          (sym (gate_answers live.digests done.asked live.controls.policy live.controls.gate))
          (approving_route done.outcome.route
            (ap routes_to_approval (ok_path _ _ (sym run_controls_completes ∙ r)) ∙ a)))
