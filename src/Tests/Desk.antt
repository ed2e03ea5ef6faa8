-- ===== src/Tests/Desk.antt =====
-- The triage of an exception at concrete data.
use invoice_ops.Prelude.{◌≤◌, arith, ◌≡◌, refl, true, none, [], ◌∷◌}
use invoice_ops.Schemas.Queue.{default_queue_config}
use invoice_ops.Ledger.{append, append_to, resolve, can_supersede}
use invoice_ops.Live.Transitions.{Scene, other_status}
use invoice_ops.Live.Triage.{
  Desk, Prepared, Triaged, triaged, failed, has_exception, triage_new, triage,
}
use invoice_ops.Live.Queued.{
  attempt_again, triage_repeats, count_exceptions, count_exceptions-triage_le,
}
use invoice_ops.Samples.{plain_digests}
use invoice_ops.Tests.Flow.{sample_state}
use invoice_ops.Tests.Records.{sample_pins, sample_runs}

abbrev sample_scene : Scene
sample_scene = record {
  run_id = 1;
  invoice_id = 2;
  settings = sample_pins;
  event_id = 9;
  now = 100;
}

abbrev sample_desk : Desk
sample_desk = record {
  runs = sample_runs;
  invoices = record { id = 2; status = other_status "PROCESSING" } ∷ [];
  exceptions = [];
  ledger = [];
}

abbrev sample_prepared : Prepared
sample_prepared = record {
  payload = "{\"recommendation\": \"REVIEW\"}";
  versions = none;
  exception_id = 3;
  clock = 5;
}

abbrev desk_in : Triaged → Desk
desk_in (triaged payload desk) = desk
desk_in (failed e) = sample_desk

abbrev triaged_desk : Desk
triaged_desk = desk_in (
    triage plain_digests default_queue_config sample_scene sample_prepared sample_state sample_desk)

desk_triaged :
    triage plain_digests default_queue_config sample_scene sample_prepared sample_state sample_desk
    ≡ triaged sample_prepared.payload triaged_desk
unfolding triage triage_new append append_to resolve can_supersede
desk_triaged = refl

triage_repeats_example :
    (has_exception sample_scene triaged_desk.exceptions ≡ true)
    × (triage plain_digests default_queue_config
          (attempt_again sample_scene sample_pins 19 200)
          (record sample_prepared { payload = "{}" })
          sample_state
          triaged_desk
        ≡ triaged sample_prepared.payload triaged_desk)
triage_repeats_example =
    triage_repeats plain_digests default_queue_config default_queue_config sample_scene
      sample_prepared (record sample_prepared { payload = "{}" }) sample_state sample_state
      sample_desk sample_prepared.payload triaged_desk sample_pins 19 200 desk_triaged

count_exceptions-triage_le_example : count_exceptions sample_scene triaged_desk.exceptions ≤ 1
unfolding count_exceptions
count_exceptions-triage_le_example =
    count_exceptions-triage_le plain_digests default_queue_config sample_scene sample_scene
      sample_prepared sample_state sample_desk sample_prepared.payload triaged_desk (omega arith)
      desk_triaged
