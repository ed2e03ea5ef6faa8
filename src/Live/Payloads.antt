-- ===== src/Live/Payloads.antt =====
-- graph/live_services.py: a payload equals itself.
use invoice_ops.Prelude.{
  ℕ, ◌≡◌, refl, Bool, true, false, Option, none, some, String, ◌==◌, ==_iff, str_eq, eq_iff,
}
use invoice_ops.Schemas.Review.{same_action_refl}
use invoice_ops.Ledger.{
  Payload, decision, review, auto_granted, archived, rejected, dead_letter, redrive_request, json,
}
use invoice_ops.Live.Transitions.{same_number, same_flag, same_payload}

pub text_refl : (s : String) → str_eq s s ≡ true
text_refl s = (eq_iff s s).1 refl

pub number_refl : (n : ℕ) → (n == n) ≡ true
number_refl n = (==_iff n n).1 refl

pub same_number_refl : (a : Option ℕ) → same_number a a ≡ true
same_number_refl none = refl
same_number_refl (some n) = number_refl n

pub same_flag_refl : (b : Bool) → same_flag b b ≡ true
same_flag_refl true = refl
same_flag_refl false = refl

pub same_payload_refl : (p : Payload) → same_payload p p ≡ true
unfolding same_payload
same_payload_refl (decision a b c d e f) =
    rw
      (
        number_refl a,
        number_refl b,
        same_action_refl c,
        text_refl d,
        text_refl e,
        same_number_refl f,
      )
      refl
same_payload_refl (review r) =
    rw
      (
        same_action_refl r.action,
        text_refl r.actor_id,
        text_refl r.rationale,
        text_refl r.reason_code,
      )
      refl
same_payload_refl (auto_granted a) = text_refl a
same_payload_refl (archived a) = text_refl a
same_payload_refl (rejected a) = text_refl a
same_payload_refl (dead_letter a b c d) =
    rw (number_refl a, number_refl b, text_refl c, same_flag_refl d) refl
same_payload_refl (redrive_request a b c d e) =
    rw (text_refl a, text_refl b, text_refl c, number_refl d, number_refl e) refl
same_payload_refl (json a) = text_refl a
