-- ===== src/Taxonomy/Clean.antt =====
-- When a classification is CLEAN.
use invoice_ops.Prelude.{
  sym, ◌∙◌, ℕ, suc, ◌≡◌, refl, ◌↔◌, Bool, true, false, Option, none, some, List, [], ◌∷◌, ◌++◌,
  String, all, is_empty, not, ◌&&◌, is_empty_text, eq_iff, arith, all-append,
}
use invoice_ops.Schemas.Extraction.{InvoiceExtraction}
use invoice_ops.Schemas.Validation.{ValidationIssue, ValidationResult}
use invoice_ops.Schemas.Matching.{
  CheckStatus, match, mismatch, unknown, is_match, IdentityCheck, NumericCheck, MatchResult,
}
use invoice_ops.Schemas.Exceptions.{
  ExceptionCode, clean, ExceptionFinding, EvidenceRef, EvidenceSource, dup_exact, dup_near,
  TaxonomyRequest, TaxonomyConfig,
}
use invoice_ops.Schemas.Digests.{Digests, UnicodeTables}
use invoice_ops.Taxonomy.{
  outcomes, findings_of, unresolved_of, has_finding, with_stale_signal, result_status,
  classify_exceptions,
}
use invoice_ops.Taxonomy.Evidence.{
  Outcome, nothing, found, left, when, evidence, iban, is_stale_status, sorted, check_outcome,
  identity_outcomes, numeric_outcomes, issue_outcomes, match_outcomes, validation_outcomes,
  bank_outcome, bank_outcomes,
}

abbrev is_nothing : Outcome → Bool
is_nothing nothing = true
is_nothing _ = false

-- Nothing is found and nothing is left exactly when every outcome is nothing.
quiet_iff :
    (seen : List Outcome)
    → ((findings_of seen ≡ []) × (unresolved_of seen ≡ [])) ↔ (all is_nothing seen ≡ true)
unfolding findings_of unresolved_of
quiet_iff [] = ground arith
quiet_iff (nothing ∷ rest) = ground (arith, quiet_iff rest)
quiet_iff (found code ref ∷ rest) = ground arith
quiet_iff (left ref ∷ rest) = ground arith

lists_clean_iff :
    (stale : Bool) (findings : List ExceptionFinding) (unresolved : List EvidenceRef)
    → (result_status (with_stale_signal stale findings) unresolved ≡ clean)
      ↔ ((stale ≡ false) × (findings ≡ []) × (unresolved ≡ []))
unfolding result_status with_stale_signal has_finding
lists_clean_iff true [] [] = ground arith
lists_clean_iff true [] (u ∷ us) = ground arith
lists_clean_iff true (f ∷ fs) us = ground arith
lists_clean_iff false [] [] = ground arith
lists_clean_iff false [] (u ∷ us) = ground arith
lists_clean_iff false (f ∷ fs) us = ground arith

status_clean_iff :
    (stale : Bool) (seen : List Outcome)
    → (result_status (with_stale_signal stale (findings_of seen)) (unresolved_of seen) ≡ clean)
      ↔ ((stale ≡ false) × (all is_nothing seen ≡ true))
status_clean_iff stale seen =
    let (f, g) = lists_clean_iff stale (findings_of seen) (unresolved_of seen) in
    let (p, q) = quiet_iff seen in
    (λ h. let (a, b, c) = f h in (a, p (b, c)), λ h. let (b, c) = q h.1 in g (h.0, b, c))

check_outcome_quiet :
    (s : CheckStatus) (code : Option ExceptionCode) (ref : EvidenceRef)
    → is_nothing (check_outcome s code ref) ≡ is_match s
unfolding check_outcome
check_outcome_quiet match code ref = refl
check_outcome_quiet mismatch none ref = refl
check_outcome_quiet mismatch (some c) ref = refl
check_outcome_quiet unknown code ref = refl

identity_quiet :
    (k : ℕ) (checks : List IdentityCheck)
    → all is_nothing (identity_outcomes k checks)
      ≡ all (λ (check : IdentityCheck). is_match check.status) checks
unfolding identity_outcomes
identity_quiet k [] = refl
identity_quiet k (check ∷ checks) = rw (check_outcome_quiet, identity_quiet (suc k) checks)

numeric_quiet :
    (k : ℕ) (checks : List NumericCheck)
    → all is_nothing (numeric_outcomes k checks)
      ≡ all (λ (check : NumericCheck). is_match check.status) checks
unfolding numeric_outcomes
numeric_quiet k [] = refl
numeric_quiet k (check ∷ checks) = rw (check_outcome_quiet, numeric_quiet (suc k) checks)

sorted_loud :
    (code : Option ExceptionCode) (ref : EvidenceRef) → is_nothing (sorted code ref) ≡ false
sorted_loud none ref = refl
sorted_loud (some c) ref = refl

issues_quiet :
    (k : ℕ) (issues : List ValidationIssue)
    → all is_nothing (issue_outcomes k issues) ≡ is_empty issues
unfolding issue_outcomes
issues_quiet k [] = refl
issues_quiet k (issue ∷ issues) = rw sorted_loud

-- Both accounts are there and read the same without spaces and in upper case.
abbrev pub SameBank : UnicodeTables → Option String → Option String → Type 0
SameBank tables (some observed) (some expected) =
    (is_empty_text observed ≡ false)
    × (is_empty_text expected ≡ false)
    × (is_empty_text (iban tables observed) ≡ false)
    × (iban tables observed ≡ iban tables expected)
SameBank tables _ _ = ⊥

last_iff : (c : Bool) → ((c && true) ≡ true) ↔ (c ≡ true)
last_iff c = ground arith

bank_quiet_iff :
    (tables : UnicodeTables) (observed expected : Option String)
    → (is_nothing (bank_outcome tables observed expected) ≡ true)
      ↔ SameBank tables observed expected
unfolding bank_outcome
bank_quiet_iff tables none expected = ground arith
bank_quiet_iff tables (some o) none = ground arith
bank_quiet_iff tables (some o) (some e) = ground (arith, eq_iff (iban tables o) (iban tables e))

-- The evidence of a comparison that was run and raises nothing.
abbrev pub ComparisonIsClean : Option MatchResult → Type 0
ComparisonIsClean none = ⊥
ComparisonIsClean (some result) =
    (result.snapshot_found ≡ true)
    × (is_stale_status result.po_status ≡ false)
    × (all (λ (check : IdentityCheck). is_match check.status) result.identity_checks ≡ true)
    × (all (λ (check : NumericCheck). is_match check.status) result.numeric_checks ≡ true)

abbrev pub ValidationIsClean : Option ValidationResult → Type 0
ValidationIsClean none = ⊥
ValidationIsClean (some result) = result.issues ≡ []

match_quiet_iff :
    (extraction : InvoiceExtraction) (result : Option MatchResult)
    → (all is_nothing (match_outcomes (some extraction) result) ≡ true) ↔ ComparisonIsClean result
unfolding match_outcomes
match_quiet_iff extraction none = ground arith
match_quiet_iff extraction (some result) =
    let texts = identity_outcomes 0 result.identity_checks in
    let amounts = numeric_outcomes 0 result.numeric_checks in
    rw (all-append is_nothing texts amounts, identity_quiet, numeric_quiet) (ground arith)

validation_quiet_iff :
    (extraction : InvoiceExtraction) (result : Option ValidationResult)
    → (all is_nothing (validation_outcomes (some extraction) result) ≡ true)
      ↔ ValidationIsClean result
unfolding validation_outcomes
validation_quiet_iff extraction none = ground arith
validation_quiet_iff extraction (some result) = rw issues_quiet (ground arith)

-- All evidence is there and speaks for the invoice.
pub record IsClean (tables : UnicodeTables) (request : TaxonomyRequest)
    (extraction : InvoiceExtraction) : Type 0 where
  pub no_exact_duplicate : request.exact_duplicate ≡ false
  pub no_near_duplicate : request.near_duplicate ≡ false
  pub not_stale : request.stale_po ≡ false
  pub comparison : ComparisonIsClean request.match
  pub validation : ValidationIsClean request.validation
  pub bank : SameBank tables extraction.bank_account_iban.value request.vendor_bank_iban

when_quiet :
    (a b c : Bool)
    → (is_nothing (when a (found dup_exact (evidence EvidenceSource.ingest "content_hash")))
        && (is_nothing
              (when b (found dup_near (evidence EvidenceSource.similarity "invoice_similarity")))
            && c))
      ≡ (not a && (not b && c))
when_quiet true b c = refl
when_quiet false true c = refl
when_quiet false false c = refl

and3 : {a b c : Bool} → (a && (b && c)) ≡ true → (a ≡ true) × (b ≡ true) × (c ≡ true)
and3 h = ground arith

and3_true : {a b c : Bool} → a ≡ true → b ≡ true → c ≡ true → (a && (b && c)) ≡ true
and3_true h k l = ground arith

duplicates_iff :
    (a b c : Bool) → ((not a && (not b && c)) ≡ true) ↔ ((a ≡ false) × (b ≡ false) × (c ≡ true))
duplicates_iff a b c = ground arith

outcomes_quiet :
    (tables : UnicodeTables) (request : TaxonomyRequest)
    → all is_nothing (outcomes tables request) ≡ (
        not request.exact_duplicate
        && (not request.near_duplicate
            && (all is_nothing (match_outcomes request.extraction request.match)
                && (all is_nothing (validation_outcomes request.extraction request.validation)
                    && all is_nothing
                        (bank_outcomes tables request.extraction request.vendor_bank_iban)))))
unfolding outcomes
outcomes_quiet tables request =
    let first = match_outcomes request.extraction request.match in
    let second = validation_outcomes request.extraction request.validation in
    let third = bank_outcomes tables request.extraction request.vendor_bank_iban in
    rw (all-append is_nothing first (second ++ third), all-append is_nothing second third)
      (when_quiet request.exact_duplicate request.near_duplicate _)

-- The evidence that needs the extraction, together.
some_quiet_iff :
    (tables : UnicodeTables) (extraction : InvoiceExtraction) (compared : Option MatchResult)
    (validated : Option ValidationResult) (account : Option String)
    → ((all is_nothing (match_outcomes (some extraction) compared)
          && (all is_nothing (validation_outcomes (some extraction) validated)
              && all is_nothing (bank_outcomes tables (some extraction) account)))
        ≡ true)
      ↔ (ComparisonIsClean compared
          × ValidationIsClean validated
          × SameBank tables extraction.bank_account_iban.value account)
unfolding bank_outcomes
some_quiet_iff tables extraction compared validated account =
    let (m, m') = match_quiet_iff extraction compared in
    let (v, v') = validation_quiet_iff extraction validated in
    let (b, b') = bank_quiet_iff tables extraction.bank_account_iban.value account in
    let (l, l') = last_iff _ in
    (
      λ h. let (x, y, z) = and3 h in (m x, v y, b (l z)),
      λ c. and3_true (m' c.0) (v' c.1) (l' (b' c.2)),
    )

evidence_quiet_iff :
    (tables : UnicodeTables) (given : Option InvoiceExtraction) (extraction : InvoiceExtraction)
    (compared : Option MatchResult) (validated : Option ValidationResult) (account : Option String)
    → given ≡ some extraction
    → ((all is_nothing (match_outcomes given compared)
          && (all is_nothing (validation_outcomes given validated)
              && all is_nothing (bank_outcomes tables given account)))
        ≡ true)
      ↔ (ComparisonIsClean compared
          × ValidationIsClean validated
          × SameBank tables extraction.bank_account_iban.value account)
evidence_quiet_iff tables given extraction compared validated account e =
    rw e (some_quiet_iff tables extraction compared validated account)

-- For a request with an extraction, the classification is CLEAN exactly when there is no duplicate and no stale
-- signal, the comparison was run, found an order that is neither closed nor cancelled and matched
-- in every check, the validation was run and raised no issue, and the bank accounts agree.
pub classify_exceptions-clean_iff :
    (digests : Digests) (tables : UnicodeTables) (request : TaxonomyRequest)
    (config : TaxonomyConfig) (extraction : InvoiceExtraction)
    → request.extraction ≡ some extraction
    → ((classify_exceptions digests tables request config).status ≡ clean)
      ↔ IsClean tables request extraction
unfolding classify_exceptions
classify_exceptions-clean_iff digests tables request config extraction e =
    let (f, g) = status_clean_iff request.stale_po (outcomes tables request) in
    let q = outcomes_quiet tables request in
    let (d, d') = duplicates_iff request.exact_duplicate request.near_duplicate _ in
    let (m, m') =
      evidence_quiet_iff tables request.extraction extraction request.match request.validation
        request.vendor_bank_iban e in
    (
      λ h.
          let (s, o) = f h in
          let (x, y, z) = d (sym q ∙ o) in
          let (k, v, b) = m z in
          record {
            no_exact_duplicate = x;
            no_near_duplicate = y;
            not_stale = s;
            comparison = k;
            validation = v;
            bank = b;
          },
      λ c. g (
        c.not_stale,
        q ∙ d' (c.no_exact_duplicate, c.no_near_duplicate, m' (c.comparison, c.validation, c.bank)),
      ),
    )
