-- ===== src/Taxonomy.antt =====
-- tools/exception_taxonomy.py `classify_exceptions`: the exception codes that existing evidence stands for. The
-- source appends findings and unresolved references to two lists; here the evidence of
-- `Evidence` is sorted into the two.
pub mod Evidence
pub mod Clean
pub mod Codes
use invoice_ops.Prelude.{
  Bool, true, false, Option, none, some, List, [], ◌∷◌, ◌++◌, String, any, not, ◌&&◌, ◌||◌,
  is_empty, is_empty_text, if◌then◌else◌,
}
use mathlib.Core.Option
use invoice_ops.Schemas.Exceptions.{
  ExceptionCode, dup_exact, dup_near, stale_po, same_code, code_order, TaxonomyConfig,
  TaxonomyRequest, EvidenceSource, EvidenceRef, ExceptionFinding, TaxonomyStatus, clean, exception,
  unclassified, TaxonomyResult,
}
use invoice_ops.Schemas.Digests.{Digests, UnicodeTables}
use Evidence.{
  Outcome, nothing, found, left, evidence, when, match_outcomes, validation_outcomes, bank_outcomes,
  iban,
}

-- All the evidence, in the order in which the source looks at it.
unfoldable pub outcomes : UnicodeTables → TaxonomyRequest → List Outcome
outcomes tables request =
    when request.exact_duplicate (found dup_exact (evidence EvidenceSource.ingest "content_hash"))
    ∷ when request.near_duplicate
        (found dup_near (evidence EvidenceSource.similarity "invoice_similarity"))
    ∷ (match_outcomes request.extraction request.match
        ++ (validation_outcomes request.extraction request.validation
            ++ bank_outcomes tables request.extraction request.vendor_bank_iban))

-- The two lists.
unfoldable pub findings_of : List Outcome → List ExceptionFinding
findings_of [] = []
findings_of (nothing ∷ rest) = findings_of rest
findings_of (found code ref ∷ rest) = record { code = code; evidence = ref } ∷ findings_of rest
findings_of (left ref ∷ rest) = findings_of rest

unfoldable pub unresolved_of : List Outcome → List EvidenceRef
unresolved_of [] = []
unresolved_of (nothing ∷ rest) = unresolved_of rest
unresolved_of (found code ref ∷ rest) = unresolved_of rest
unresolved_of (left ref ∷ rest) = ref ∷ unresolved_of rest

-- `any(finding.code == code for finding in findings)`
unfoldable pub has_finding : ExceptionCode → List ExceptionFinding → Bool
has_finding code findings =
    any (λ (finding : ExceptionFinding). same_code finding.code code) findings

-- The signal of a stale order adds a finding only where there is none.
unfoldable pub with_stale_signal : Bool → List ExceptionFinding → List ExceptionFinding
with_stale_signal stale findings =
    if stale && not (has_finding stale_po findings)
    then findings
      ++ record { code = stale_po; evidence = evidence EvidenceSource.policy "stale_po" } ∷ []
    else findings

-- `tuple(code for code in CODE_ORDER if any(item.code == code for item in findings))`
unfoldable pub ordered_codes : List ExceptionCode → List ExceptionFinding → List ExceptionCode
ordered_codes [] findings = []
ordered_codes (code ∷ order) findings =
    let later = ordered_codes order findings in
    if has_finding code findings then code ∷ later else later

unfoldable pub result_status : List ExceptionFinding → List EvidenceRef → TaxonomyStatus
result_status findings unresolved =
    if not (is_empty findings)
    then exception
    else if not (is_empty unresolved)
    then unclassified
    else clean

-- The digest of the vendor's account, where there is one.
unfoldable pub bank_digest : Digests → UnicodeTables → Option String → Option String
bank_digest digests tables none = none
bank_digest digests tables (some expected) =
    if is_empty_text expected || is_empty_text (iban tables expected)
    then none
    else some (digests.of_text (iban tables expected))

-- `classify_exceptions`
unfoldable pub classify_exceptions :
    Digests → UnicodeTables → TaxonomyRequest → TaxonomyConfig → TaxonomyResult
classify_exceptions digests tables request config =
    let seen = outcomes tables request in
    let findings = with_stale_signal request.stale_po (findings_of seen) in
    let unresolved = unresolved_of seen in
    record {
      status = result_status findings unresolved;
      codes = ordered_codes code_order findings;
      findings = findings;
      unresolved = unresolved;
      input_sha256 = digests.of_taxonomy_request request;
      extraction_sha256 = Option.map digests.of_extraction request.extraction;
      validation_sha256 = Option.map digests.of_validation request.validation;
      match_sha256 = Option.map digests.of_match request.match;
      vendor_bank_sha256 = bank_digest digests tables request.vendor_bank_iban;
      config_sha256 = digests.of_taxonomy_config config;
      config = config;
    }
