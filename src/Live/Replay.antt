-- ===== src/Live/Replay.antt =====
-- The nodes on committed evidence: what was committed before is given back, what is missing is computed.
use invoice_ops.Prelude.{
  ◌≡◌, refl, ap, ◌∙◌, ◌⊎◌, inl, inr, Bool, true, Option, none, some, String, eq_iff,
}
use invoice_ops.Schemas.Extraction.{InvoiceExtraction}
use invoice_ops.Schemas.Validation.{ValidationResult}
use invoice_ops.Schemas.Matching.{ErpSnapshot, MatchResult}
use invoice_ops.Schemas.Exceptions.{TaxonomyRequest, TaxonomyResult}
use invoice_ops.Schemas.Policy.{PolicyRequest, PolicyResult}
use invoice_ops.Schemas.Gate.{GateOutcome, CompositeGateResult, composite}
use invoice_ops.Validation.{validate_invoice}
use invoice_ops.Matching.{match_invoice}
use invoice_ops.Taxonomy.{classify_exceptions}
use invoice_ops.Policy.{evaluate_policy}
use invoice_ops.Gate.{evaluate_composite_gate, composite_result}
use invoice_ops.Workflow.{State}
use invoice_ops.Live.{
  checked_validation, snapshot_for, snapshot_digest, same_text, match_request, checked_match,
  taxonomy_request, policy_request, or_computed, classify_with, decide_with, policy_from,
  gate_request, checked_gate,
}
use invoice_ops.Live.Evidence.{
  SimilarityResult, Live, Cache, Step, ok, ◌>>=◌, required, with_digest, validated, is_of_snapshot,
  has_consistent_provenance, has_same_invoice,
}
use invoice_ops.Live.Requests.{
  str_eq_refl, validate_invoice-digest, match_invoice-names,
  taxonomy_request-has_consistent_provenance, policy_request-has_same_invoice,
}

-- Nothing was committed yet, or just this.
unfoldable pub IsCommitted : {A : Type 0} → Option A → A → Type 0
IsCommitted cached a = (cached ≡ none) ⊎ (cached ≡ some a)

-- What the controls compute for an invoice, one after another, with the comparison given.
pub record Computed : Type 0 where
  pub validation : ValidationResult
  pub snapshot : Option ErpSnapshot
  pub matching : MatchResult
  pub similarity : SimilarityResult
  pub classified : TaxonomyRequest
  pub taxonomy : TaxonomyResult
  pub asked : PolicyRequest
  pub decision : PolicyResult
  pub outcome : CompositeGateResult

abbrev pub evidence_state : State → ValidationResult → Option ErpSnapshot → MatchResult → State
evidence_state state validation snapshot result = record state {
  validation = some validation;
  snapshot = snapshot;
  match = some result;
}

unfoldable pub computed : Live → State → InvoiceExtraction → MatchResult → Computed
computed live state extraction result =
    let validation = validate_invoice live.digests extraction live.controls.validation in
    let snapshot = snapshot_for live extraction.po_number.value in
    let similarity = live.detect extraction in
    let evidence = evidence_state state validation snapshot result in
    let classified = taxonomy_request live evidence extraction validation result similarity in
    let taxonomy = classify_exceptions live.digests live.tables classified live.controls.taxonomy in
    let asked = policy_request evidence extraction validation result taxonomy in
    let decision = evaluate_policy live.digests asked live.controls.policy in
    record {
      validation = validation;
      snapshot = snapshot;
      matching = result;
      similarity = similarity;
      classified = classified;
      taxonomy = taxonomy;
      asked = asked;
      decision = decision;
      outcome = composite_result live.digests asked decision live.controls.gate;
    }

-- The state after the controls.
abbrev pub controlled : State → Computed → State
controlled state done = record state {
  validation = some done.validation;
  snapshot = done.snapshot;
  match = some done.matching;
  similarity = some done.similarity.json;
  taxonomy = some done.taxonomy;
  policy_result = some done.decision;
  gate_result = some (composite done.outcome);
}

-- The committed events are a part of what the controls compute.
pub record IsPartOf (cache : Cache) (done : Computed) : Type 0 where
  pub validation : IsCommitted cache.validation done.validation
  pub matching : IsCommitted cache.matching done.matching
  pub similarity : IsCommitted cache.similarity done.similarity
  pub taxonomy : IsCommitted cache.taxonomy done.taxonomy
  pub policy : IsCommitted cache.policy done.decision
  pub gate : IsCommitted cache.gate (composite done.outcome)

pub or_computed_lem :
    {A : Type 0} (cached : Option A) (a : A) → IsCommitted cached a → or_computed cached a ≡ a
unfolding IsCommitted
or_computed_lem cached a (inl e) = rw e refl
or_computed_lem cached a (inr e) = rw e refl

pub with_digest_lem :
    {A : Type 0} (message expected actual : String) (a : A)
    → expected ≡ actual
    → with_digest message expected actual a ≡ ok a
with_digest_lem message expected actual a e = let s = (eq_iff expected actual).1 e in rw s refl

pub same_digest :
    {A : Type 0} (message digest : String) (a : A) → with_digest message digest digest a ≡ ok a
same_digest message digest a = with_digest_lem message digest digest a refl

validated_lem :
    {A : Type 0} (accepts : A → Bool) (a : A) → accepts a ≡ true → validated accepts a ≡ ok a
validated_lem accepts a h = rw h refl

pub checked_validation_lem :
    (live : Live) (extraction : InvoiceExtraction) (cached : Option ValidationResult)
    → IsCommitted cached (validate_invoice live.digests extraction live.controls.validation)
    → checked_validation live extraction cached
      ≡ ok (validate_invoice live.digests extraction live.controls.validation)
unfolding IsCommitted
checked_validation_lem live extraction cached (inl e) = rw e refl
checked_validation_lem live extraction cached (inr e) =
    ap (checked_validation live extraction) e
    ∙ with_digest_lem _ _ _ _
        (validate_invoice-digest live.digests extraction live.controls.validation)

pub bind_ok :
    {A B : Type 0} (step : Step A) (a : A) (next : A → Step B)
    → step ≡ ok a
    → (step >>= next) ≡ next a
bind_ok step a next e = ap (λ s. s >>= next) e

same_text_refl : (a : Option String) → same_text a a ≡ true
same_text_refl none = refl
same_text_refl (some s) = str_eq_refl s

pub checked_match_lem :
    (live : Live) (state : State) (extraction : InvoiceExtraction) (snapshot : Option ErpSnapshot)
    (cached : Option MatchResult) (result : MatchResult)
    → match_invoice live.digests live.tables
        (match_request state extraction snapshot)
        live.controls.matching
      ≡ some result
    → IsCommitted cached result
    → checked_match live state extraction snapshot cached ≡ ok result
unfolding IsCommitted
checked_match_lem live state extraction snapshot cached result h (inl e) = rw (e, h) refl
checked_match_lem live state extraction snapshot cached result h (inr e) =
    let (names, of, digest) =
      match_invoice-names live.digests live.tables (match_request state extraction snapshot)
        live.controls.matching result h in
    let same =
      ap (λ d. same_text d (snapshot_digest live.digests snapshot)) digest
      ∙ same_text_refl (snapshot_digest live.digests snapshot) in
    ap (checked_match live state extraction snapshot) e
    ∙ (bind_ok _ result _ (with_digest_lem _ _ _ result names) ∙ (rw same refl))

decide_with_lem :
    (live : Live) (similarity : SimilarityResult) (taxonomy : TaxonomyResult)
    (asked : PolicyRequest)
    → decide_with live similarity taxonomy asked
        (evaluate_policy live.digests asked live.controls.policy)
      ≡ ok (similarity, taxonomy, evaluate_policy live.digests asked live.controls.policy)
unfolding evaluate_policy
decide_with_lem live similarity taxonomy asked =
    same_digest _ (live.digests.of_policy_request asked) _

taxonomy_digest :
    (live : Live) (request : TaxonomyRequest)
    → (classify_exceptions live.digests live.tables request live.controls.taxonomy).input_sha256
      ≡ live.digests.of_taxonomy_request request
unfolding classify_exceptions
taxonomy_digest live request = refl

-- The classification and the decision of `policy`.
pub policy_from_lem :
    (live : Live) (cache : Cache) (state : State) (extraction : InvoiceExtraction)
    (validation : ValidationResult) (result : MatchResult) (similarity : SimilarityResult)
    → validation.input_sha256 ≡ live.digests.of_extraction extraction
    → result.extraction_sha256 ≡ live.digests.of_extraction extraction
    → is_of_snapshot live.digests result state.snapshot ≡ true
    → similarity.extraction_sha256 ≡ live.digests.of_extraction extraction
    → let request = taxonomy_request live state extraction validation result similarity in
      let taxonomy = classify_exceptions live.digests live.tables request live.controls.taxonomy in
      let asked = policy_request state extraction validation result taxonomy in
      let decision = evaluate_policy live.digests asked live.controls.policy in
      IsCommitted cache.taxonomy taxonomy
      → IsCommitted cache.policy decision
      → policy_from live cache state extraction validation result similarity
        ≡ ok (similarity, taxonomy, decision)
policy_from_lem live cache state extraction validation result similarity v m o s t d =
    let request = taxonomy_request live state extraction validation result similarity in
    let taxonomy = classify_exceptions live.digests live.tables request live.controls.taxonomy in
    let asked = policy_request state extraction validation result taxonomy in
    let decision = evaluate_policy live.digests asked live.controls.policy in
    bind_ok _ request _ (with_digest_lem _ _ _ request s)
    ∙ (bind_ok _ request _ (
          validated_lem (has_consistent_provenance live.digests) request (
            taxonomy_request-has_consistent_provenance live state extraction validation result
              similarity v m))
        ∙ (ap (classify_with live cache state extraction validation result similarity request)
              (or_computed_lem cache.taxonomy taxonomy t)
            ∙ (bind_ok _ asked _ (with_digest_lem _ _ _ asked (taxonomy_digest live request))
                ∙ (bind_ok _ asked _ (
                      validated_lem (has_same_invoice live.digests) asked (
                        policy_request-has_same_invoice live state extraction validation result
                          similarity v m o))
                    ∙ (ap (decide_with live similarity taxonomy asked)
                          (or_computed_lem cache.policy decision d)
                        ∙ decide_with_lem live similarity taxonomy asked)))))

pub required_lem :
    {A : Type 0} (message : String) (o : Option A) (a : A) → o ≡ some a → required message o ≡ ok a
required_lem message o a e = ap (required message) e

pub gate_request_lem :
    (live : Live) (state : State) (extraction : InvoiceExtraction) (validation : ValidationResult)
    (result : MatchResult) (taxonomy : TaxonomyResult)
    → state.extraction ≡ some extraction
    → state.validation ≡ some validation
    → state.match ≡ some result
    → state.taxonomy ≡ some taxonomy
    → has_same_invoice live.digests (policy_request state extraction validation result taxonomy)
      ≡ true
    → gate_request live state ≡ ok (policy_request state extraction validation result taxonomy)
unfolding gate_request
gate_request_lem live state extraction validation result taxonomy e v m t h =
    bind_ok _ taxonomy _ (required_lem _ _ taxonomy t)
    ∙ (bind_ok _ extraction _ (required_lem _ _ extraction e)
        ∙ (bind_ok _ validation _ (required_lem _ _ validation v)
            ∙ (bind_ok _ result _ (required_lem _ _ result m)
                ∙ validated_lem (has_same_invoice live.digests) _ h)))

pub checked_gate_lem :
    (live : Live) (asked : PolicyRequest) (cached : Option GateOutcome)
    → let decision = evaluate_policy live.digests asked live.controls.policy in
      let outcome = composite_result live.digests asked decision live.controls.gate in
      IsCommitted cached (composite outcome)
      → checked_gate live asked decision cached ≡ ok (composite outcome)
unfolding IsCommitted evaluate_composite_gate composite_result evaluate_policy
checked_gate_lem live asked cached (inl e) =
    ap (checked_gate live asked (evaluate_policy live.digests asked live.controls.policy)) e
    ∙ (rw (str_eq_refl (live.digests.of_policy_request asked)) refl)
checked_gate_lem live asked cached (inr e) =
    let decision = evaluate_policy live.digests asked live.controls.policy in
    let outcome = composite_result live.digests asked decision live.controls.gate in
    ap (checked_gate live asked decision) e
    ∙ (bind_ok _ (composite outcome) _
          (same_digest _ (live.digests.of_extraction asked.extraction) _)
        ∙ (bind_ok _ (composite outcome) _ (same_digest _ (live.digests.of_policy decision) _)
            ∙ same_digest _ (live.digests.of_match asked.match) _))
