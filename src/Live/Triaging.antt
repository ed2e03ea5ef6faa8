-- ===== src/Live/Triaging.antt =====
-- What a triage that went through has found and written.
use invoice_ops.Prelude.{
  ◌≡◌, refl, sym, ap, ◌∙◌, inl, inr, true, Option, none, some, List, String, ◌&&◌, ◌==◌, ==_iff,
  str_eq, arith, Bool-cases,
}
use invoice_ops.Schemas.Queue.{QueueConfig}
use invoice_ops.Schemas.Digests.{Digests}
use invoice_ops.Ledger.{LedgerEvent, RunIdentity, Appended, staged, refused, append}
use invoice_ops.Ledger.Staging.{append_staged}
use invoice_ops.Workflow.{State}
use invoice_ops.Live.Transitions.{
  Scene, needs_review, is_transition, committed_event, has_invoice, update_invoices,
}
use invoice_ops.Live.Triage.{
  QueuedException, Desk, Prepared, triaged, failed, run_missing, invoice_missing, has_run,
  has_exception, queue_once, triage_event, committed_text, triage_written, queued, triage_new,
  triage_known, triage_with, triage,
}

-- What a triage that went through leaves behind.
pub record IsTriaged (digests : Digests) (rules : QueueConfig) (scene : Scene) (prepared : Prepared)
    (state : State) (desk : Desk) (payload : String) (next : Desk) : Type 0 where
  pub event : LedgerEvent
  pub run_is_there : has_run scene desk.runs ≡ true
  pub same_runs : next.runs ≡ desk.runs
  pub is_queued :
      next.exceptions ≡ queue_once digests rules scene prepared state payload desk.exceptions
  pub is_committed : committed_event scene "triage.prepared" next.ledger ≡ some event
  pub is_payload : committed_text event.payload ≡ some payload

pub queue_once_queues :
    (digests : Digests) (rules : QueueConfig) (scene : Scene) (prepared : Prepared) (state : State)
    (payload : String) (exceptions : List QueuedException)
    → has_exception scene (queue_once digests rules scene prepared state payload exceptions) ≡ true
unfolding queue_once
queue_once_queues digests rules scene prepared state payload exceptions =
    elim (Bool-cases (has_exception scene exceptions)) [
      | inl e ↦ rw (e, e) refl
      | inr e ↦
          rw
            (
              e,
              (==_iff scene.run_id scene.run_id).1 refl,
              (==_iff scene.invoice_id scene.invoice_id).1 refl,
            )
            refl
    ]

pub fresh_event :
    (rules : QueueConfig) (scene : Scene) (prepared : Prepared) (runs : List RunIdentity)
    (events : List LedgerEvent) (event : LedgerEvent) (ledger : List LedgerEvent)
    → append scene.settings true scene.event_id scene.now
        (triage_event rules scene prepared)
        runs
        events
      ≡ staged event ledger
    → (committed_event scene "triage.prepared" ledger ≡ some event)
      × (committed_text event.payload ≡ some prepared.payload)
fresh_event rules scene prepared runs events event ledger h =
    let s =
      append_staged scene.settings true scene.event_id scene.now (triage_event rules scene prepared)
        runs events event ledger h in
    let fits : is_transition scene "triage.prepared" event ≡ true =
      ap (is_transition scene "triage.prepared") s.is_event ∙ same_scene in
    (
      ap (committed_event scene "triage.prepared") s.grows ∙ (rw fits refl),
      ap (λ (e : LedgerEvent). committed_text e.payload) s.is_event,
    )
  where
    same_scene :
        (scene.run_id == scene.run_id
          && scene.invoice_id == scene.invoice_id
          && str_eq "triage.prepared" "triage.prepared")
        ≡ true
    same_scene =
        rw
          (
            (==_iff scene.run_id scene.run_id).1 refl,
            (==_iff scene.invoice_id scene.invoice_id).1 refl,
          )
          refl

pub written_triaged :
    (prepared : Prepared) (desk : Desk) (answer : Appended) (payload : String) (next : Desk)
    → triage_written prepared desk answer ≡ triaged payload next
    → (event : LedgerEvent) × (ledger : List LedgerEvent) × (answer ≡ staged event ledger)
      × (payload ≡ prepared.payload)
      × (next ≡ (record desk { ledger = ledger }))
written_triaged prepared desk (staged event ledger) payload next h = (event, ledger, refl, cc, cc)
written_triaged prepared desk (refused e) payload next h = ground arith

pub new-IsTriaged :
    (digests : Digests) (rules : QueueConfig) (scene : Scene) (prepared : Prepared) (state : State)
    (desk : Desk) (payload : String) (next : Desk)
    → has_run scene desk.runs ≡ true
    → triage_new digests rules scene prepared state desk ≡ triaged payload next
    → IsTriaged digests rules scene prepared state desk payload next
unfolding triage_new
new-IsTriaged digests rules scene prepared state desk payload next r h =
    elim (Bool-cases (has_invoice scene.invoice_id desk.invoices)) [
      | inr e ↦ (let p : failed invoice_missing ≡ triaged payload next = rw e at h in ground arith)
      | inl e ↦
          let queue = queued digests rules scene prepared state prepared.payload desk in
          let (event, ledger, s, same, writes) =
            written_triaged prepared
              (record queue {
                invoices = update_invoices scene.invoice_id needs_review desk.invoices;
              })
              _ payload next (rw e at h) in
          let (there, text) =
            fresh_event rules scene prepared desk.runs desk.ledger event ledger s in
          record {
            event = event;
            run_is_there = r;
            same_runs = ap (λ (d : Desk). d.runs) writes;
            is_queued =
                ap (λ (d : Desk). d.exceptions) writes
                ∙ ap (λ p. queue_once digests rules scene prepared state p desk.exceptions)
                    (sym same);
            is_committed =
                ap (λ (d : Desk). committed_event scene "triage.prepared" d.ledger) writes ∙ there;
            is_payload = text ∙ ap some (sym same);
          }
    ]

pub known-IsTriaged :
    (digests : Digests) (rules : QueueConfig) (scene : Scene) (prepared : Prepared) (state : State)
    (desk : Desk) (event : LedgerEvent) (text : Option String) (payload : String) (next : Desk)
    → has_run scene desk.runs ≡ true
    → committed_event scene "triage.prepared" desk.ledger ≡ some event
    → committed_text event.payload ≡ text
    → triage_known digests rules scene prepared state desk text ≡ triaged payload next
    → IsTriaged digests rules scene prepared state desk payload next
known-IsTriaged digests rules scene prepared state desk event none payload next r c t h =
    ground arith
known-IsTriaged digests rules scene prepared state desk event (some text) payload next r c t h =
    let same : text ≡ payload = cc in
    let writes : queued digests rules scene prepared state text desk ≡ next = cc in
    record {
      event = event;
      run_is_there = r;
      same_runs = sym (ap (λ (d : Desk). d.runs) writes);
      is_queued =
          sym (ap (λ (d : Desk). d.exceptions) writes)
          ∙ ap (λ p. queue_once digests rules scene prepared state p desk.exceptions) same;
      is_committed =
          sym (ap (λ (d : Desk). committed_event scene "triage.prepared" d.ledger) writes) ∙ c;
      is_payload = t ∙ ap some same;
    }

pub with-IsTriaged :
    (digests : Digests) (rules : QueueConfig) (scene : Scene) (prepared : Prepared) (state : State)
    (desk : Desk) (found : Option LedgerEvent) (payload : String) (next : Desk)
    → has_run scene desk.runs ≡ true
    → committed_event scene "triage.prepared" desk.ledger ≡ found
    → triage_with digests rules scene prepared state desk found ≡ triaged payload next
    → IsTriaged digests rules scene prepared state desk payload next
with-IsTriaged digests rules scene prepared state desk none payload next r c h =
    new-IsTriaged digests rules scene prepared state desk payload next r h
with-IsTriaged digests rules scene prepared state desk (some event) payload next r c h =
    known-IsTriaged digests rules scene prepared state desk event _ payload next r c refl h

pub triage-IsTriaged :
    (digests : Digests) (rules : QueueConfig) (scene : Scene) (prepared : Prepared) (state : State)
    (desk : Desk) (payload : String) (next : Desk)
    → triage digests rules scene prepared state desk ≡ triaged payload next
    → IsTriaged digests rules scene prepared state desk payload next
unfolding triage
triage-IsTriaged digests rules scene prepared state desk payload next h =
    elim (Bool-cases (has_run scene desk.runs)) [
      | inl e ↦
          with-IsTriaged digests rules scene prepared state desk _ payload next e refl (rw e at h)
      | inr e ↦ (let p : failed run_missing ≡ triaged payload next = rw e at h in ground arith)
    ]
