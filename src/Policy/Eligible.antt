-- ===== src/Policy/Eligible.antt =====
-- When the policy lets an invoice through and when it blocks one.
use invoice_ops.Prelude.{
  ℕ, ◌-◌, ◌≤◌, ◌≡◌, refl, ◌↔◌, ◌⊎◌, Bool, true, false, Option, none, some, List, [], ◌∷◌, any, map,
  not, ◌&&◌, ◌||◌, is_empty, is_some, arith, find_first, String, ◌≢◌,
}
use invoice_ops.Prelude.Sets.{distinct}
use invoice_ops.Decimal.{Decimal, of_ℕ, le, lt}
use invoice_ops.Schemas.Erp.{is_closed, is_cancelled}
use invoice_ops.Schemas.Validation
use invoice_ops.Schemas.Matching
use invoice_ops.Schemas.Matching.{ErpSnapshot}
use invoice_ops.Schemas.Exceptions.{
  ExceptionCode, TaxonomyResult, dup_exact, same_code, is_exception,
}
use invoice_ops.Schemas.Policy.{
  PolicyStatus, auto_approve_eligible, block, no_approval, PolicyConfig, PolicyRequest, SpendBand,
  same_status, status_of, PolicyFinding, rank, has_matching_decision, ApprovalTier, is_no_approval,
  is_known_amount, is_eligible,
}
use invoice_ops.Schemas.Digests.{Digests}
use invoice_ops.Policy.{
  has_currency, po_age_exceeded, approval_tier, band_for, order_cancelled, order_closed,
  issued_later, is_missing, is_negative, is_amount, exceeds_cap, needs_approval, rules_for, raised,
  evaluate_policy,
}
use invoice_ops.Policy.Decision.{decided-eligible_iff, raised-distinct, decided_consistent}

-- The order, where there is one, is neither cancelled nor closed, not issued later, and not too old.
abbrev pub OrderIsClear : Option ErpSnapshot → ℕ → ℕ → Type 0
OrderIsClear none as_of max_age = Unit
OrderIsClear (some snapshot) as_of max_age =
    (is_cancelled snapshot.purchase_order.status ≡ false)
    × (is_closed snapshot.purchase_order.status ≡ false)
    × (snapshot.purchase_order.issued_on ≤ as_of)
    × (as_of - snapshot.purchase_order.issued_on ≤ max_age)

-- The amount is known, not negative, and within the two limits of its band.
abbrev pub AmountIsClear : Option Decimal → Option SpendBand → Type 0
AmountIsClear (some amount) (some band) =
    (lt amount (of_ℕ 0) ≡ false)
    × (le amount band.auto_approve_limit ≡ true)
    × (lt band.hard_spend_limit amount ≡ false)
AmountIsClear _ _ = ⊥

-- The taxonomy left nothing open.
abbrev pub TaxonomyIsClear : TaxonomyResult → Type 0
TaxonomyIsClear taxonomy =
    (any (λ (code : ExceptionCode). same_code code dup_exact) taxonomy.codes ≡ false)
    × (is_exception taxonomy.status ≡ false)
    × (is_empty taxonomy.unresolved ≡ true)

-- All that an automatic approval asks for.
pub record IsClear (request : PolicyRequest) (config : PolicyConfig) : Type 0 where
  pub order : OrderIsClear request.snapshot request.as_of config.max_po_age_days
  pub amount :
      AmountIsClear request.extraction.total_amount.value
        (band_for request.extraction.currency.value config)
  pub taxonomy : TaxonomyIsClear request.taxonomy
  pub validated : Validation.is_pass request.validation.status ≡ true
  pub matched : Matching.is_pass request.match.status ≡ true

order_clear_iff :
    (snapshot : Option ErpSnapshot) (as_of max_age : ℕ)
    → ((order_cancelled snapshot ≡ false)
        × ((not (order_cancelled snapshot) && order_closed snapshot) ≡ false)
        × (issued_later snapshot as_of ≡ false)
        × ((not (issued_later snapshot as_of) && po_age_exceeded snapshot as_of max_age) ≡ false))
      ↔ OrderIsClear snapshot as_of max_age
unfolding po_age_exceeded
order_clear_iff none as_of max_age = ground arith
order_clear_iff (some snapshot) as_of max_age = ground arith

amount_clear_iff :
    (amount : Option Decimal) (band : Option SpendBand)
    → ((is_missing band ≡ false)
        × (is_missing amount ≡ false)
        × (is_negative amount ≡ false)
        × ((is_amount amount && exceeds_cap amount band) ≡ false)
        × ((is_amount amount && needs_approval (approval_tier amount band)) ≡ false))
      ↔ AmountIsClear amount band
unfolding approval_tier
amount_clear_iff none none = ground arith
amount_clear_iff none (some band) = ground arith
amount_clear_iff (some amount) none = ground arith
amount_clear_iff (some amount) (some band) = ground arith

-- Fourteen conditions that are all false.
all_false_iff :
    (a b c d e f g h i j k l m n : Bool)
    → ((not a
          && (not b
              && (not c
                  && (not d
                      && (not e
                          && (not f
                              && (not g
                                  && (not h
                                      && (not i
                                          && (not j
                                              && (not k
                                                  && (not (not l)
                                                      && (not (not m)
                                                          && (not (not n) && true))))))))))))))
        ≡ true)
      ↔ ((a ≡ false)
          × ((b ≡ false) × (c ≡ false) × (d ≡ false) × (e ≡ false))
          × ((f ≡ false) × (g ≡ false) × (h ≡ false) × (i ≡ false) × (j ≡ false))
          × (k ≡ false)
          × (l ≡ true)
          × (m ≡ true)
          × (n ≡ true))
all_false_iff a b c d e f g h i j k l m n = ground arith

-- An invoice is eligible for automatic approval exactly when it is clear: its order is not cancelled,
-- closed, issued later or too old, its amount is known, not negative and within the automatic and the hard limit of its
-- currency's band, the taxonomy has no exact duplicate, no exception and nothing unresolved, and the validation and
-- the comparison passed.
pub evaluate_policy-eligible_iff :
    (digests : Digests) (request : PolicyRequest) (config : PolicyConfig)
    → ((evaluate_policy digests request config).status ≡ auto_approve_eligible)
      ↔ IsClear request config
unfolding evaluate_policy rules_for
evaluate_policy-eligible_iff digests request config =
    let (f, g) = decided-eligible_iff (rules_for request config) in
    let (p, q) = all_false_iff _ _ _ _ _ _ _ _ _ _ _ _ _ _ in
    let (o, o') = order_clear_iff request.snapshot request.as_of config.max_po_age_days in
    let (a, a') =
      amount_clear_iff request.extraction.total_amount.value
        (band_for request.extraction.currency.value config) in
    (
      λ h.
          let (dup, order, amount, ex, un, v, m) = p (f h) in
          record {
            order = o order;
            amount = a amount;
            taxonomy = (dup, ex, un);
            validated = v;
            matched = m;
          },
      λ c. g (
          q (
            c.taxonomy.0,
            o' c.order,
            a' c.amount,
            c.taxonomy.1,
            c.taxonomy.2,
            c.validated,
            c.matched,
          )),
    )

-- The three reasons that block.
abbrev pub BlockedBy : PolicyRequest → PolicyConfig → Type 0
BlockedBy request config =
    (any (λ (code : ExceptionCode). same_code code dup_exact) request.taxonomy.codes ≡ true)
    ⊎ (order_cancelled request.snapshot ≡ true)
    ⊎ (is_amount request.extraction.total_amount.value
          && exceeds_cap request.extraction.total_amount.value
              (band_for request.extraction.currency.value config)
        ≡ true)

no_currency-no_band : (bands : List SpendBand) → find_first (has_currency none) bands ≡ none
no_currency-no_band [] = refl
no_currency-no_band (band ∷ bands) = no_currency-no_band bands

clear_tier :
    (amount : Option Decimal) (band : Option SpendBand)
    → AmountIsClear amount band
    → (approval_tier amount band ≡ no_approval) × (is_known_amount amount ≡ true) × (band ≢ none)
unfolding approval_tier
clear_tier none band h = elim h [ ]
clear_tier (some amount) none h = elim h [ ]
clear_tier (some amount) (some band) h = ground arith

clear_currency :
    (currency : Option String) (config : PolicyConfig)
    → band_for currency config ≢ none
    → is_some currency ≡ true
unfolding band_for
clear_currency none config h = absurd (h (no_currency-no_band config.bands))
clear_currency (some currency) config h = refl

decision_fields :
    (digests : Digests) (request : PolicyRequest) (config : PolicyConfig)
    → (evaluate_policy digests request config).status ≡ auto_approve_eligible
    → ((evaluate_policy digests request config).approval_tier ≡ no_approval)
      × (is_known_amount (evaluate_policy digests request config).amount ≡ true)
      × (is_some (evaluate_policy digests request config).currency ≡ true)
unfolding evaluate_policy
decision_fields digests request config h =
    let clear = (evaluate_policy-eligible_iff digests request config).0 h in
    let (t, a, b) = clear_tier _ _ clear.amount in
    (t, a, clear_currency request.extraction.currency.value config b)

-- What the validator asks of an eligible decision.
fields_follow :
    (status : PolicyStatus) (a b c : Bool)
    → (status ≡ auto_approve_eligible → (a ≡ true) × (b ≡ true) × (c ≡ true))
    → (not (is_eligible status) || (a && b && c)) ≡ true
fields_follow auto_approve_eligible a b c h = ground (arith, h refl)
fields_follow PolicyStatus.review a b c h = refl
fields_follow block a b c h = refl

reasons_distinct :
    (digests : Digests) (request : PolicyRequest) (config : PolicyConfig)
    → distinct (
        map
          (λ (f : PolicyFinding). rank f.reason)
          (evaluate_policy digests request config).findings)
      ≡ true
unfolding evaluate_policy rules_for
reasons_distinct digests request config = raised-distinct (rules_for request config) refl

no_approval_lem : (t : ApprovalTier) → t ≡ no_approval → is_no_approval t ≡ true
no_approval_lem t h = ground arith

status_follows :
    (digests : Digests) (request : PolicyRequest) (config : PolicyConfig)
    → same_status
        (evaluate_policy digests request config).status
        (status_of (evaluate_policy digests request config).findings)
      ≡ true
unfolding evaluate_policy
status_follows digests request config = decided_consistent (raised (rules_for request config))

and_three : {a b c : Bool} → a ≡ true → b ≡ true → c ≡ true → (a && b && c) ≡ true
and_three h k l = ground arith

-- What `evaluate_policy` returns passes the validator of `PolicyResult`, whatever the request: the reasons are distinct,
-- the status follows from them, and an eligible decision needs no approval and has a currency and an amount
-- that is not negative.
pub evaluate_policy-has_matching_decision :
    (digests : Digests) (request : PolicyRequest) (config : PolicyConfig)
    → has_matching_decision (evaluate_policy digests request config) ≡ true
unfolding has_matching_decision
evaluate_policy-has_matching_decision digests request config =
    let result = evaluate_policy digests request config in
    let fields =
      fields_follow result.status (is_no_approval result.approval_tier)
        (is_known_amount result.amount) (is_some result.currency)
        (λ h.
          let (t, a, c) = decision_fields digests request config h in
          (no_approval_lem _ t, a, c)) in
    and_three (reasons_distinct digests request config) (status_follows digests request config)
      fields
