-- ===== src/Taxonomy/Codes.antt =====
-- The codes and the status of a classification follow from its findings.
use invoice_ops.Prelude.{◌≡◌, refl, true, List, [], ◌∷◌, arith}
use invoice_ops.Schemas.Exceptions.{
  ExceptionCode, code_order, has_code, codes_in, status_of, has_consistent_result, same_codes,
  same_status, ExceptionFinding, EvidenceRef, TaxonomyRequest, TaxonomyConfig,
}
use invoice_ops.Schemas.Digests.{Digests, UnicodeTables}
use invoice_ops.Taxonomy.{
  outcomes, findings_of, unresolved_of, has_finding, with_stale_signal, ordered_codes,
  result_status, classify_exceptions,
}

ordered_codes-eq-codes_in :
    (order : List ExceptionCode) (findings : List ExceptionFinding)
    → ordered_codes order findings ≡ codes_in order findings
unfolding ordered_codes codes_in has_finding has_code
ordered_codes-eq-codes_in [] findings = refl
ordered_codes-eq-codes_in (code ∷ order) findings =
    ground (arith, ordered_codes-eq-codes_in order findings)

same_codes_refl : (codes : List ExceptionCode) → same_codes codes codes ≡ true
same_codes_refl [] = refl
same_codes_refl (code ∷ codes) = ground (arith, same_codes_refl codes)

status_consistent :
    (findings : List ExceptionFinding) (unresolved : List EvidenceRef)
    → same_status (result_status findings unresolved) (status_of findings unresolved) ≡ true
unfolding result_status status_of
status_consistent findings unresolved = ground arith

codes_consistent :
    (findings : List ExceptionFinding)
    → same_codes (ordered_codes code_order findings) (codes_in code_order findings) ≡ true
codes_consistent findings =
    rw (ordered_codes-eq-codes_in code_order findings)
      (same_codes_refl (codes_in code_order findings))

-- What `classify_exceptions` returns passes the validator of `TaxonomyResult`, whatever the request: its codes
-- are those of its findings, each once and in the order of the taxonomy, and its status follows.
pub classify_exceptions-has_consistent_result :
    (digests : Digests) (tables : UnicodeTables) (request : TaxonomyRequest)
    (config : TaxonomyConfig)
    → has_consistent_result (classify_exceptions digests tables request config) ≡ true
unfolding classify_exceptions has_consistent_result
classify_exceptions-has_consistent_result digests tables request config =
    let findings = with_stale_signal request.stale_po (findings_of (outcomes tables request)) in
    let unresolved = unresolved_of (outcomes tables request) in
    rw (codes_consistent findings, status_consistent findings unresolved)
