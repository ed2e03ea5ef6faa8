-- ===== src/Schemas/Review.antt =====
-- graph/state.py `ReviewDecision` and api/schemas/decision.py: what a person decides about an exception.
use invoice_ops.Prelude.{ℕ, String, Option, ◌≡◌, refl, Bool, true, false, ◌&&◌, str_eq}

pub data ReviewAction : Type 0 where
  approve return escalate : ReviewAction

pub record ReviewDecision : Type 0 where
  pub action : ReviewAction
  pub actor_id : String
  pub rationale : String
  pub reason_code : String

abbrev pub same_action : ReviewAction → ReviewAction → Bool
same_action approve approve = true
same_action return return = true
same_action escalate escalate = true
same_action _ _ = false

pub same_action_refl : (a : ReviewAction) → same_action a a ≡ true
same_action_refl approve = refl
same_action_refl return = refl
same_action_refl escalate = refl

abbrev pub same_review : ReviewDecision → ReviewDecision → Bool
same_review a b =
    same_action a.action b.action
    && str_eq a.actor_id b.actor_id
    && str_eq a.rationale b.rationale
    && str_eq a.reason_code b.reason_code

-- A request that the transport has validated: the rationale is stripped and not blank.
pub record DecisionRequest : Type 0 where
  pub action : ReviewAction
  pub rationale : String
  pub reason_code : String
  pub proposal_id : Option ℕ

pub data DecisionStage : Type 0 where
  pending_signoff queued_for_resume : DecisionStage

pub record DecisionResponse : Type 0 where
  pub decision_id : ℕ
  pub exception_id : ℕ
  pub run_id : ℕ
  pub invoice_id : ℕ
  pub action : ReviewAction
  pub actor_id : String
  pub stage : DecisionStage
  pub proposal_id : Option ℕ
