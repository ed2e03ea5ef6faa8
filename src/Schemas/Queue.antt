-- ===== src/Schemas/Queue.antt =====
-- schemas/exception_queue.py: the projection of an exception into the review queue.
use invoice_ops.Prelude.{ℕ, Bool, Option, String, ltb, ◌&&◌}

pub record QueueConfig : Type 0 where
  pub version : String
  pub critical_sla_hours : ℕ
  pub high_sla_hours : ℕ
  pub normal_sla_hours : ℕ

abbrev pub default_queue_config : QueueConfig
default_queue_config = record {
  version = "exception-queue@v1";
  critical_sla_hours = 4;
  high_sla_hours = 24;
  normal_sla_hours = 72;
}

-- `QueueConfig.ordered_sla`
unfoldable pub has_ordered_sla : QueueConfig → Bool
has_ordered_sla config =
    ltb config.critical_sla_hours config.high_sla_hours
    && ltb config.high_sla_hours config.normal_sla_hours

-- The digests and the flag of `QueueProjection.evidence`.
pub record QueueEvidence : Type 0 where
  pub taxonomy_sha256 : Option String
  pub policy_sha256 : Option String
  pub gate_sha256 : Option String
  pub extraction_escalated : Bool

-- The advice is JSON that is passed through, so it is a text here.
pub record QueueProjection : Type 0 where
  pub exception_type : String
  pub priority : ℕ
  pub sla_due_at : ℕ
  pub evidence : QueueEvidence
  pub recommendation : String
  pub config : QueueConfig
