-- ===== src/Live/Requests.antt =====
-- The requests that the services build from results of the controls pass their validators.
use invoice_ops.Prelude.{◌≡◌, refl, sym, inl, inr, true, Option, some, String, List, str_eq, eq_iff}
use mathlib.Core.Path.{subst}
use invoice_ops.Schemas.Extraction.{InvoiceExtraction}
use invoice_ops.Schemas.Erp.{OrderStatus, open_order, partially_received, closed, cancelled}
use invoice_ops.Schemas.Validation.{ValidationResult, ValidationConfig}
use invoice_ops.Schemas.Matching.{
  ErpSnapshot, IdentityCheck, NumericCheck, MatchConfig, MatchRequest, MatchResult,
}
use invoice_ops.Schemas.Policy.{PolicyConfig, PolicyRequest}
use invoice_ops.Schemas.Digests.{Digests, UnicodeTables}
use invoice_ops.Validation.{validate_invoice}
use invoice_ops.Matching.{match_invoice, matched, unmatched}
use invoice_ops.Matching.Verdict.{inversion}
use invoice_ops.Taxonomy.{classify_exceptions}
use invoice_ops.Policy.{evaluate_policy}
use invoice_ops.Workflow.{State}
use invoice_ops.Live.{snapshot_digest, taxonomy_request, policy_request}
use invoice_ops.Live.Evidence.{
  SimilarityResult, Live, same_order_status, is_of_snapshot, has_consistent_provenance,
  provenance_of, has_same_invoice,
}

pub str_eq_refl : (s : String) → str_eq s s ≡ true
str_eq_refl s = (eq_iff s s).1 refl

same_order_status_refl : (s : OrderStatus) → same_order_status s s ≡ true
same_order_status_refl open_order = refl
same_order_status_refl partially_received = refl
same_order_status_refl closed = refl
same_order_status_refl cancelled = refl

pub validate_invoice-digest :
    (digests : Digests) (extraction : InvoiceExtraction) (config : ValidationConfig)
    → (validate_invoice digests extraction config).input_sha256 ≡ digests.of_extraction extraction
unfolding validate_invoice
validate_invoice-digest digests extraction config = refl

matched_names :
    (digests : Digests) (request : MatchRequest) (config : MatchConfig) (snapshot : ErpSnapshot)
    (identities : List IdentityCheck) (numerics : List NumericCheck)
    → ((matched digests request config snapshot identities numerics).extraction_sha256
        ≡ digests.of_extraction request.extraction)
      × (is_of_snapshot digests
            (matched digests request config snapshot identities numerics)
            (some snapshot)
          ≡ true)
      × ((matched digests request config snapshot identities numerics).snapshot_sha256
          ≡ some (digests.of_snapshot snapshot))
unfolding matched
matched_names digests request config snapshot identities numerics = (
  refl,
  rw
      (
        str_eq_refl (digests.of_snapshot snapshot),
        same_order_status_refl snapshot.purchase_order.status,
        str_eq_refl snapshot.purchase_order.po_number,
      )
      refl,
  refl,
)

pub evaluate_policy-digest :
    (digests : Digests) (request : PolicyRequest) (config : PolicyConfig)
    → (evaluate_policy digests request config).input_sha256 ≡ digests.of_policy_request request
unfolding evaluate_policy
evaluate_policy-digest digests request config = refl

-- A comparison names its invoice and its snapshot.
pub match_invoice-names :
    (digests : Digests) (tables : UnicodeTables) (request : MatchRequest) (config : MatchConfig)
    (result : MatchResult)
    → match_invoice digests tables request config ≡ some result
    → (result.extraction_sha256 ≡ digests.of_extraction request.extraction)
      × (is_of_snapshot digests result request.snapshot ≡ true)
      × (result.snapshot_sha256 ≡ snapshot_digest digests request.snapshot)
match_invoice-names digests tables request config result h =
    elim (inversion digests tables request config result h) [
      | inl (e, u) ↦ rw (u, e) (unfold unmatched in (refl, refl, refl))
      | inr c ↦
          subst
            (λ (t : Option ErpSnapshot).
              (result.extraction_sha256 ≡ digests.of_extraction request.extraction)
              × (is_of_snapshot digests result t ≡ true)
              × (result.snapshot_sha256 ≡ snapshot_digest digests t))
            (sym c.has_snapshot)
            (subst
              (λ (r : MatchResult).
                (r.extraction_sha256 ≡ digests.of_extraction request.extraction)
                × (is_of_snapshot digests r (some c.snapshot) ≡ true)
                × (r.snapshot_sha256 ≡ some (digests.of_snapshot c.snapshot)))
              (sym c.is_result) (matched_names digests request config c.snapshot _ _))
    ]

-- The classification's request passes its validator, if validation and comparison belong to the extraction.
pub taxonomy_request-has_consistent_provenance :
    (live : Live) (state : State) (extraction : InvoiceExtraction) (validation : ValidationResult)
    (result : MatchResult) (similarity : SimilarityResult)
    → validation.input_sha256 ≡ live.digests.of_extraction extraction
    → result.extraction_sha256 ≡ live.digests.of_extraction extraction
    → has_consistent_provenance live.digests
        (taxonomy_request live state extraction validation result similarity)
      ≡ true
unfolding provenance_of
taxonomy_request-has_consistent_provenance live state extraction validation result similarity v m =
    rw (v, m, str_eq_refl (live.digests.of_extraction extraction)) refl

-- The policy's request passes its validator, if moreover the comparison belongs to the snapshot of the state and the
-- classification is the one of the request.
pub policy_request-has_same_invoice :
    (live : Live) (state : State) (extraction : InvoiceExtraction) (validation : ValidationResult)
    (result : MatchResult) (similarity : SimilarityResult)
    → validation.input_sha256 ≡ live.digests.of_extraction extraction
    → result.extraction_sha256 ≡ live.digests.of_extraction extraction
    → is_of_snapshot live.digests result state.snapshot ≡ true
    → has_same_invoice live.digests (
        policy_request state extraction validation result (
          classify_exceptions live.digests live.tables
            (taxonomy_request live state extraction validation result similarity)
            live.controls.taxonomy))
      ≡ true
unfolding has_same_invoice classify_exceptions
policy_request-has_same_invoice live state extraction validation result similarity v m s =
    let digest = live.digests.of_extraction extraction in
    let a = (eq_iff validation.input_sha256 digest).1 v in
    let b = (eq_iff result.extraction_sha256 digest).1 m in
    rw
      (
        a,
        b,
        s,
        str_eq_refl digest,
        str_eq_refl (live.digests.of_validation validation),
        str_eq_refl (live.digests.of_match result),
      )
      refl
