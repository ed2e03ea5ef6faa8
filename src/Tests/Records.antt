-- ===== src/Tests/Records.antt =====
-- The queue, the ledger and the retry worker at concrete data.
use invoice_ops.Prelude.{
  ◌≡◌, refl, ◌↔◌, ◌⊎◌, ◌<◌, true, false, some, none, is_some, List, [], ◌∷◌, suc,
}
use invoice_ops.Schemas.Exceptions.{
  ExceptionCode, dup_near, TaxonomyResult, bank_change, exception, default_taxonomy_config,
}
use invoice_ops.Schemas.Queue.{default_queue_config, has_ordered_sla}
use invoice_ops.Queue.{project_exception}
use invoice_ops.Queue.Priority.{
  HasCode, HasStatus, project_exception-due_iff, project_exception-priority_iff,
}
use invoice_ops.Schemas.Policy.{PolicyStatus, block}
use invoice_ops.Ledger.{
  VersionPins, AppendEvent, LedgerEvent, RunIdentity, agent, json, append, append_to, resolve,
  can_supersede, max_sequence, event_of,
}
use invoice_ops.Ledger.Links.{IsLinked, append-IsLinked}
use invoice_ops.Ledger.Sequence.{IsNumbered, sequences, append-IsNumbered}
use invoice_ops.Worker.{default_retry_config, queued, absent, Store}
use invoice_ops.Worker.Loop.{failing, process}
use invoice_ops.Worker.Ending.{process_ends}
use invoice_ops.Prelude.{is_blank}
use invoice_ops.Worker.{failed_run, retry_state}
use invoice_ops.Worker.Patterns.{is_key, is_actor, is_name, all_chars, text_length, is_long}
use invoice_ops.Worker.Redrive.{Redrive, redrive, redrive_run, requeue, requeued, repeated}
use invoice_ops.Worker.Repeat.{redrive_repeats}
use invoice_ops.Samples.{plain_digests}

abbrev sample_taxonomy : TaxonomyResult
sample_taxonomy = record {
  status = exception;
  codes = bank_change ∷ [];
  findings = [];
  unresolved = [];
  input_sha256 = "";
  extraction_sha256 = none;
  validation_sha256 = none;
  match_sha256 = none;
  vendor_bank_sha256 = none;
  config_sha256 = "";
  config = default_taxonomy_config;
}

project_exception-due_iff_example :
    ((project_exception plain_digests 5
        (some sample_taxonomy)
        none
        none
        false
        ""
        default_queue_config).sla_due_at
      < (project_exception plain_digests 5 none none none true "" default_queue_config).sla_due_at)
    ↔ ((project_exception plain_digests 5 none none none true "" default_queue_config).priority
        < (project_exception plain_digests 5
            (some sample_taxonomy)
            none
            none
            false
            ""
            default_queue_config).priority)
unfolding has_ordered_sla
project_exception-due_iff_example =
    project_exception-due_iff plain_digests 5 (some sample_taxonomy) none none none none none false
      true "" "" default_queue_config refl

project_exception-priority_iff_example :
    let priority =
      (project_exception plain_digests 5
        (some sample_taxonomy)
        none
        none
        false
        ""
        default_queue_config).priority in
    ((priority ≡ 1) ⊎ (priority ≡ 2) ⊎ (priority ≡ 3))
    × ((priority ≡ 3) ↔ (
        HasStatus none block
        ⊎ HasCode (some sample_taxonomy) bank_change
        ⊎ HasCode (some sample_taxonomy) dup_near))
    × ((priority ≡ 1) ↔ (
        ((code : ExceptionCode) → ¬ HasCode (some sample_taxonomy) code)
        × (false ≡ false)
        × (¬ HasStatus none block)
        × (¬ HasStatus none PolicyStatus.review)))
project_exception-priority_iff_example =
    project_exception-priority_iff plain_digests 5 (some sample_taxonomy) none none false ""
      default_queue_config

abbrev pub sample_pins : VersionPins
sample_pins = record {
  graph_version = "g";
  model_version = "m";
  prompt_version = "p";
  policy_version = "q";
}

abbrev pub sample_command : AppendEvent
sample_command = record {
  run_id = 1;
  invoice_id = 2;
  event_type = "workflow.started";
  actor_type = agent;
  actor_id = "a";
  payload = json "{}";
  node = none;
  supersedes_id = none;
  versions = none;
}

abbrev pub sample_runs : List RunIdentity
sample_runs = record { run = 1; invoice_id = 2; graph_version = "g" } ∷ []

abbrev pub sample_event : LedgerEvent
sample_event = event_of sample_pins 9 100 1 sample_command

-- A second event, which supersedes the first.
abbrev sample_correction : AppendEvent
sample_correction = record sample_command { supersedes_id = some 9 }

sample-IsLinked : IsLinked sample_runs (sample_event ∷ [])
unfolding append append_to resolve can_supersede max_sequence
sample-IsLinked =
    append-IsLinked sample_pins true 9 100 sample_command sample_runs [] sample_event
      (sample_event ∷ []) tt refl

append-IsLinked_example :
    IsLinked sample_runs (event_of sample_pins 10 101 2 sample_correction ∷ sample_event ∷ [])
unfolding append append_to resolve can_supersede max_sequence
append-IsLinked_example =
    append-IsLinked sample_pins true 10 101 sample_correction sample_runs (sample_event ∷ [])
      (event_of sample_pins 10 101 2 sample_correction)
      (event_of sample_pins 10 101 2 sample_correction ∷ sample_event ∷ []) sample-IsLinked refl

pub nothing-IsNumbered : IsNumbered []
unfolding IsNumbered sequences
nothing-IsNumbered run_id = refl

append-IsNumbered_example : IsNumbered (sample_event ∷ [])
unfolding append append_to resolve can_supersede max_sequence
append-IsNumbered_example =
    append-IsNumbered sample_pins true 9 100 sample_command sample_runs [] sample_event
      (sample_event ∷ []) nothing-IsNumbered refl

abbrev sample_store : Store
sample_store = record {
  run = some (record {
    id = 1;
    invoice_id = 2;
    trace_id = "t";
    graph_version = "g";
    status = queued;
    started_at = none;
    completed_at = none;
    error = absent;
  });
  ledger = [];
}

process_ends_example :
    is_some (
      process default_retry_config
        (λ n. failing "TimeoutError" true)
        (λ n. n)
        (λ n. n)
        (suc default_retry_config.max_attempts)
        0
        false
        sample_store)
    ≡ true
process_ends_example =
    process_ends default_retry_config (λ n. failing "TimeoutError" true) (λ n. n) (λ n. n) 0 false
      sample_store

abbrev dead_store : Store
dead_store = record {
  run = some (record {
    id = 1;
    invoice_id = 2;
    trace_id = "t";
    graph_version = "g";
    status = failed_run;
    started_at = some 5;
    completed_at = some 9;
    error = retry_state (record {
      attempts = 3;
      cycle = 0;
      error_type = some "TimeoutError";
      retryable = some true;
      dead_lettered = true;
    });
  });
  ledger = [];
}

abbrev sample_redrive : Redrive
sample_redrive = record { key = "k1"; actor_id = "ops"; reason = "fixed" }

abbrev requeued_sample : Store
requeued_sample = elim (redrive default_retry_config 11 20 sample_redrive dead_store) [
  | requeued next ↦ next
  | _ ↦ dead_store
]

redrive_repeats_example :
    redrive default_retry_config 12 30 sample_redrive requeued_sample ≡ repeated
unfolding redrive redrive_run requeue append append_to resolve can_supersede max_sequence is_key
    is_actor is_name all_chars text_length is_long is_blank
redrive_repeats_example =
    redrive_repeats default_retry_config 11 20 12 30 sample_redrive dead_store requeued_sample refl
