-- ===== src/Matching/Verdict.antt =====
-- What the status of `match_invoice` says of the amounts and the texts that were compared.
use invoice_ops.Prelude.{
  ◌⊎◌, ◌≡◌, refl, ◌↔◌, true, none, some, List, [], ◌∷◌, ◌++◌, any, all, not, ◌||◌, arith,
  Option-cases, inl, inr,
}
use invoice_ops.Decimal.{Decimal, of_ℕ}
use invoice_ops.Schemas.Matching.{
  MatchConfig, MatchRequest, MatchResult, MatchStatus, ErpSnapshot, CheckStatus, match, is_match,
  is_mismatch, is_unknown, IdentityCheck, NumericCheck, has_consistent_decision,
}
use invoice_ops.Schemas.Digests.{Digests, UnicodeTables}
use invoice_ops.Matching.{
  header_identities, header_numerics, verdict, unmatched, matched, match_snapshot, match_invoice,
}
use invoice_ops.Matching.Receipts.{Totals, received, received_value_from}
use invoice_ops.Matching.Lines.{line_checks}

all_match_lem :
    (found : List CheckStatus)
    → all is_match found ≡ not (any is_mismatch found || any is_unknown found)
all_match_lem [] = refl
all_match_lem (match ∷ found) = ground (arith, all_match_lem found)
all_match_lem (s ∷ found) = ground (arith, all_match_lem found)

pub verdict-pass_iff :
    (found : List CheckStatus) → (verdict found ≡ MatchStatus.pass) ↔ (all is_match found ≡ true)
unfolding verdict
verdict-pass_iff found = ground (arith, all_match_lem found)

-- How a result came about that is not `unmatched`.
pub record Compared (digests : Digests) (tables : UnicodeTables) (request : MatchRequest)
    (config : MatchConfig) (result : MatchResult) : Type 0 where
  pub snapshot : ErpSnapshot
  pub totals : Totals
  pub value : Decimal
  pub identities : List IdentityCheck
  pub numerics : List NumericCheck
  pub has_snapshot : request.snapshot ≡ some snapshot
  pub has_totals : received snapshot ≡ some totals
  pub has_value : received_value_from totals (of_ℕ 0) snapshot.purchase_order.lines ≡ some value
  pub has_checks :
      line_checks tables config request.extraction totals snapshot.purchase_order.lines
      ≡ some (identities, numerics)
  pub is_result :
      result
      ≡ matched digests request config snapshot
          (header_identities tables request.extraction snapshot ++ identities)
          (header_numerics config request.extraction snapshot value ++ numerics)

module _ (digests : Digests) (tables : UnicodeTables) (request : MatchRequest)
    (config : MatchConfig) (result : MatchResult) where
  snapshot_inversion :
      (snapshot : ErpSnapshot)
      → request.snapshot ≡ some snapshot
      → match_snapshot digests tables request config snapshot ≡ some result
      → Compared digests tables request config result
  unfolding match_snapshot
  snapshot_inversion snapshot s h =
      let lines = snapshot.purchase_order.lines in
      elim (Option-cases (received snapshot)) [
        | inl e ↦ absurd (ground arith)
        | inr (totals, e) ↦ elim (Option-cases (received_value_from totals (of_ℕ 0) lines)) [
          | inl v ↦ absurd (ground arith)
          | inr (value, v) ↦
              elim (Option-cases (line_checks tables config request.extraction totals lines)) [
                | inl c ↦ absurd (ground arith)
                | inr (pair, c) ↦ record {
                  snapshot = snapshot;
                  totals = totals;
                  value = value;
                  identities = pair.0;
                  numerics = pair.1;
                  has_snapshot = s;
                  has_totals = e;
                  has_value = v;
                  has_checks = c;
                  is_result = ground arith;
                }
              ]
        ]
      ]

  pub inversion :
      match_invoice digests tables request config ≡ some result
      → ((request.snapshot ≡ none) × (result ≡ unmatched digests request config))
        ⊎ Compared digests tables request config result
  unfolding match_invoice
  inversion h = elim (Option-cases request.snapshot) [
    | inl e ↦ inl (e, ground arith)
    | inr (snapshot, e) ↦ inr (snapshot_inversion snapshot e (ground arith))
  ]

matched-has_consistent_decision :
    (digests : Digests) (request : MatchRequest) (config : MatchConfig) (snapshot : ErpSnapshot)
    (identities : List IdentityCheck) (numerics : List NumericCheck)
    → has_consistent_decision (matched digests request config snapshot identities numerics) ≡ true
unfolding matched verdict has_consistent_decision
matched-has_consistent_decision digests request config snapshot identities numerics = ground arith

-- The status of a result that `match_invoice` returns always follows from its own evidence, so the
-- validator of `MatchResult` never refuses it: FAIL for a mismatch, else INCOMPLETE for an unknown
-- or a missing snapshot, else PASS, with a snapshot digest exactly where a snapshot was found.
pub match_invoice-has_consistent_decision :
    (digests : Digests) (tables : UnicodeTables) (request : MatchRequest) (config : MatchConfig)
    (result : MatchResult)
    → match_invoice digests tables request config ≡ some result
    → has_consistent_decision result ≡ true
match_invoice-has_consistent_decision digests tables request config result h =
    elim (inversion digests tables request config result h) [
      | inl (e, u) ↦ rw u (unfold unmatched has_consistent_decision in refl)
      | inr c ↦
          rw c.is_result (matched-has_consistent_decision digests request config c.snapshot _ _)
    ]
