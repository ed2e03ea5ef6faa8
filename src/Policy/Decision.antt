-- ===== src/Policy/Decision.antt =====
-- The status of a policy decision and the conditions that the source appends findings under.
use invoice_ops.Prelude.{
  ℕ, ◌≤◌, ◌≡◌, refl, ◌↔◌, Bool, true, false, Option, none, some, List, [], ◌∷◌, any, all, map, not,
  ◌&&◌, is_empty, ◌==◌, arith,
}
use invoice_ops.Prelude.Sets.{distinct}
use invoice_ops.Decimal.{Decimal, of_ℕ, le, lt}
use invoice_ops.Decimal.Order.{le_trans}
use invoice_ops.Schemas.Policy.{
  rank, ApprovalTier, no_approval, ap_manager, procurement_director, dual_control, unknown_tier,
  auto_approve_eligible, block, is_blocking, same_status, status_of, SpendBand, PolicyFinding,
}
use invoice_ops.Policy.{Rule, raised, decided, approval_tier}

abbrev pub rule_rank : Rule → ℕ
rule_rank r = rank r.finding.reason

-- Dropping rules keeps ranks distinct.
raised_absent :
    (n : ℕ) (rules : List Rule)
    → any (λ m. n == m) (map rule_rank rules) ≡ false
    → any (λ m. n == m) (map (λ (f : PolicyFinding). rank f.reason) (raised rules)) ≡ false
unfolding raised
raised_absent n [] h = refl
raised_absent n (r ∷ rules) h = ground (arith, raised_absent n rules)

pub raised-distinct :
    (rules : List Rule)
    → distinct (map rule_rank rules) ≡ true
    → distinct (map (λ (f : PolicyFinding). rank f.reason) (raised rules)) ≡ true
unfolding raised
raised-distinct [] h = refl
raised-distinct (r ∷ rules) h =
    ground (arith, raised_absent (rule_rank r) rules, raised-distinct rules)

-- No rule applies.
abbrev pub none_applies : List Rule → Bool
none_applies rules = all (λ (r : Rule). not r.applies) rules

abbrev pub blocks : Rule → Bool
blocks r = is_blocking r.finding.reason && r.applies

raised_empty : (rules : List Rule) → is_empty (raised rules) ≡ none_applies rules
unfolding raised
raised_empty [] = refl
raised_empty (r ∷ rules) = ground (arith, raised_empty rules)

raised_blocking :
    (rules : List Rule)
    → any (λ (f : PolicyFinding). is_blocking f.reason) (raised rules) ≡ any blocks rules
unfolding raised
raised_blocking [] = refl
raised_blocking (r ∷ rules) = ground (arith, raised_blocking rules)

-- A list of findings without any is not blocking either.
none_blocks : (rules : List Rule) → none_applies rules ≡ true → any blocks rules ≡ false
none_blocks [] h = refl
none_blocks (r ∷ rules) h = ground (arith, none_blocks rules)

pub decided-eligible_iff :
    (rules : List Rule)
    → (decided (raised rules) ≡ auto_approve_eligible) ↔ (none_applies rules ≡ true)
unfolding decided
decided-eligible_iff rules =
    rw (raised_blocking rules, raised_empty rules) (ground (arith, none_blocks rules))

pub decided-block_iff :
    (rules : List Rule) → (decided (raised rules) ≡ block) ↔ (any blocks rules ≡ true)
unfolding decided
decided-block_iff rules = rw (raised_blocking rules) (ground arith)

pub decided_consistent :
    (findings : List PolicyFinding) → same_status (decided findings) (status_of findings) ≡ true
unfolding decided status_of
decided_consistent findings = ground arith

-- The tiers in the order of the signatures they ask for; an unknown one asks for the most.
abbrev pub tier_rank : ApprovalTier → ℕ
tier_rank no_approval = 0
tier_rank ap_manager = 1
tier_rank procurement_director = 2
tier_rank dual_control = 3
tier_rank unknown_tier = 4

-- Of two amounts that are not negative, the larger one never needs a lower tier.
pub approval_tier_monotone :
    (a b : Decimal) (band : Option SpendBand)
    → lt a (of_ℕ 0) ≡ false
    → le a b ≡ true
    → tier_rank (approval_tier (some a) band) ≤ tier_rank (approval_tier (some b) band)
unfolding approval_tier
approval_tier_monotone a b none h k = omega arith
approval_tier_monotone a b (some band) h k = ground (
  arith,
  le_trans a b band.auto_approve_limit,
  le_trans a b band.manager_limit,
  le_trans a b band.director_limit,
)
