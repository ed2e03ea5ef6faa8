-- ===== src/Queue/Priority.antt =====
-- The order in which the queue asks for exceptions.
use invoice_ops.Prelude.{
  ℕ, ◌+◌, ◌≤◌, ◌<◌, ◌≡◌, ◌↔◌, ◌⊎◌, Bool, true, false, inl, inr, ap, refl, is_empty, none, some, [],
  ◌∷◌, Option, List, String, any, arith,
}
use mathlib.Core.List.{Mem, mem-cons_self, mem-cons_of_mem, not-mem-nil, Memᴰ}
use mathlib.Core.Logic.{∥∥₁_elim}
use mathlib.Core.Bool.{Bool-set}
use invoice_ops.Schemas.Exceptions.{bank_change, dup_near, ExceptionCode, TaxonomyResult}
use invoice_ops.Schemas.Policy.{PolicyStatus, block, PolicyResult}
use invoice_ops.Schemas.Gate.{GateOutcome}
use invoice_ops.Schemas.Queue.{QueueConfig, has_ordered_sla}
use invoice_ops.Schemas.Digests.{Digests}
use invoice_ops.Queue.{
  codes_of, is_critical, has_blocked, has_review, priority_of, sla_hours, project_exception,
}

priority_range :
    (codes : List ExceptionCode) (decision : Option PolicyResult) (escalated : Bool)
    → (1 ≤ priority_of codes decision escalated) × (priority_of codes decision escalated ≤ 3)
unfolding priority_of
priority_range codes decision escalated = ground arith

hours_iff :
    (now p q : ℕ) (rules : QueueConfig)
    → (1 ≤ p) × (p ≤ 3)
    → (1 ≤ q) × (q ≤ 3)
    → has_ordered_sla rules ≡ true
    → (now + sla_hours p rules < now + sla_hours q rules) ↔ (q < p)
unfolding sla_hours has_ordered_sla
hours_iff now p q rules hp hq h = ground arith

-- Of two exceptions that are projected at the same time, under SLA hours in the order that the schema
-- asks for, the one that is due earlier is exactly the one of the higher priority.
pub project_exception-due_iff :
    (digests : Digests) (now : ℕ) (t t' : Option TaxonomyResult) (p p' : Option PolicyResult)
    (g g' : Option GateOutcome) (escalated escalated' : Bool) (advice advice' : String)
    (rules : QueueConfig)
    → has_ordered_sla rules ≡ true
    → let first = project_exception digests now t p g escalated advice rules in
      let second = project_exception digests now t' p' g' escalated' advice' rules in
      (first.sla_due_at < second.sla_due_at) ↔ (second.priority < first.priority)
unfolding project_exception
project_exception-due_iff digests now t t' p p' g g' escalated escalated' advice advice' rules h =
    hours_iff now (priority_of (codes_of t) p escalated) (priority_of (codes_of t') p' escalated')
      rules (priority_range (codes_of t) p escalated) (priority_range (codes_of t') p' escalated') h

-- The classification has the code.
abbrev pub HasCode : Option TaxonomyResult → ExceptionCode → Type 0
HasCode none code = ⊥
HasCode (some taxonomy) code = Mem code taxonomy.codes

-- There is a policy decision with the status.
abbrev pub HasStatus : Option PolicyResult → PolicyStatus → Type 0
HasStatus none status = ⊥
HasStatus (some decision) status = decision.status ≡ status

empty_iff :
    (codes : List ExceptionCode)
    → (is_empty codes ≡ true) ↔ ((code : ExceptionCode) → ¬ Mem code codes)
empty_iff [] = (λ h code m. not-mem-nil m, λ h. refl)
empty_iff (code ∷ codes) = (λ h. cc, λ h. absurd (h code mem-cons_self))

any_of_mem :
    (p : ExceptionCode → Bool) (code : ExceptionCode) (codes : List ExceptionCode)
    → p code ≡ true
    → Memᴰ code codes
    → any p codes ≡ true
any_of_mem p code [] h m = elim m [ ]
any_of_mem p code (other ∷ codes) h (Memᴰ.head e) =
    let same : p code ≡ p other = ap p e in ground arith
any_of_mem p code (other ∷ codes) h (Memᴰ.tail m) = ground (arith, any_of_mem p code codes h m)

later :
    (code : ExceptionCode) (codes : List ExceptionCode)
    → Mem bank_change codes ⊎ Mem dup_near codes
    → Mem bank_change (code ∷ codes) ⊎ Mem dup_near (code ∷ codes)
later code codes (inl m) = inl (mem-cons_of_mem code m)
later code codes (inr m) = inr (mem-cons_of_mem code m)

critical_cases :
    (codes : List ExceptionCode)
    → any is_critical codes ≡ true
    → Mem bank_change codes ⊎ Mem dup_near codes
critical_cases [] h = cc
critical_cases (bank_change ∷ codes) h = inl mem-cons_self
critical_cases (dup_near ∷ codes) h = inr mem-cons_self
critical_cases (code ∷ codes) h = later code codes (critical_cases codes h)

critical_iff :
    (taxonomy : Option TaxonomyResult)
    → (any is_critical (codes_of taxonomy) ≡ true)
      ↔ (HasCode taxonomy bank_change ⊎ HasCode taxonomy dup_near)
critical_iff none = (λ h. cc, λ h. elim h [ inl m ↦ absurd m | inr m ↦ absurd m ])
critical_iff (some taxonomy) = (
  critical_cases taxonomy.codes,
  λ h. elim h [
    | inl m ↦ ∥∥₁_elim m (Bool-set _ _) (any_of_mem is_critical bank_change taxonomy.codes refl)
    | inr m ↦ ∥∥₁_elim m (Bool-set _ _) (any_of_mem is_critical dup_near taxonomy.codes refl)
  ],
)

blocked_iff :
    (decision : Option PolicyResult) → (has_blocked decision ≡ true) ↔ HasStatus decision block
blocked_iff none = ground arith
blocked_iff (some decision) = ground arith

review_iff :
    (decision : Option PolicyResult)
    → (has_review decision ≡ true) ↔ HasStatus decision PolicyStatus.review
review_iff none = ground arith
review_iff (some decision) = ground arith

no_codes_iff :
    (taxonomy : Option TaxonomyResult)
    → (is_empty (codes_of taxonomy) ≡ true) ↔ ((code : ExceptionCode) → ¬ HasCode taxonomy code)
no_codes_iff none = (λ h code m. m, λ h. refl)
no_codes_iff (some taxonomy) = empty_iff taxonomy.codes

false_iff : {Q : Type 0} (b : Bool) → (b ≡ true) ↔ Q → (b ≡ false) ↔ (¬ Q)
false_iff true (f, g) = (λ h. cc, λ h. absurd (h (f refl)))
false_iff false (f, g) = (λ h q. cc (g q), λ h. refl)

module _ (codes : List ExceptionCode) (decision : Option PolicyResult) (escalated : Bool) where
  priority_cases :
      (priority_of codes decision escalated ≡ 1)
      ⊎ (priority_of codes decision escalated ≡ 2)
      ⊎ (priority_of codes decision escalated ≡ 3)
  unfolding priority_of
  priority_cases = ground arith

  priority_three :
      (priority_of codes decision escalated ≡ 3)
      ↔ ((has_blocked decision ≡ true) ⊎ (any is_critical codes ≡ true))
  unfolding priority_of
  priority_three = ground arith

priority_one :
    (codes : List ExceptionCode) (decision : Option PolicyResult) (escalated : Bool)
    → (priority_of codes decision escalated ≡ 1) ↔ (
        (is_empty codes ≡ true)
        × (escalated ≡ false)
        × (has_blocked decision ≡ false)
        × (has_review decision ≡ false))
unfolding priority_of
priority_one [] decision escalated = ground arith
priority_one (code ∷ codes) decision escalated = ground arith

-- An exception has the priority 1, 2 or 3; it is 3 exactly when the policy blocked the invoice or a code tells of a
-- changed bank account or a near duplicate, and 1 exactly when there is no code, no escalation of the
-- extraction, and no policy decision that blocked the invoice or sent it to review.
pub project_exception-priority_iff :
    (digests : Digests) (now : ℕ) (taxonomy : Option TaxonomyResult)
    (decision : Option PolicyResult) (gate : Option GateOutcome) (escalated : Bool)
    (advice : String) (rules : QueueConfig)
    → let priority =
        (project_exception digests now taxonomy decision gate escalated advice rules).priority in
      ((priority ≡ 1) ⊎ (priority ≡ 2) ⊎ (priority ≡ 3))
      × ((priority ≡ 3)
          ↔ (HasStatus decision block ⊎ HasCode taxonomy bank_change ⊎ HasCode taxonomy dup_near))
      × ((priority ≡ 1) ↔ (
          ((code : ExceptionCode) → ¬ HasCode taxonomy code)
          × (escalated ≡ false)
          × (¬ HasStatus decision block)
          × (¬ HasStatus decision PolicyStatus.review)))
unfolding project_exception
project_exception-priority_iff digests now taxonomy decision gate escalated advice rules =
    let codes = codes_of taxonomy in
    let (blocked, blocking) = blocked_iff decision in
    let (critical, criticality) = critical_iff taxonomy in
    let (empty, emptiness) = no_codes_iff taxonomy in
    let (unblocked, unblocking) = false_iff (has_blocked decision) (blocked_iff decision) in
    let (unseen, overlooking) = false_iff (has_review decision) (review_iff decision) in
    let (three, is_three) = priority_three codes decision escalated in
    let (one, is_one) = priority_one codes decision escalated in
    (
      priority_cases codes decision escalated,
      (
        λ h. elim (three h) [ inl b ↦ inl (blocked b) | inr c ↦ inr (critical c) ],
        λ h. is_three (elim h [ inl b ↦ inl (blocking b) | inr c ↦ inr (criticality c) ]),
      ),
      (
        λ h. let (e, quiet, b, r) = one h in (empty e, quiet, unblocked b, unseen r),
        λ h. is_one (emptiness h.0, h.1, unblocking h.2, overlooking h.3),
      ),
    )
