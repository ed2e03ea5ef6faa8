-- ===== src/Live/Queued.antt =====
-- An exception is queued once for a run, and its triage stays as it was committed.
use invoice_ops.Prelude.{
  ℕ, ◌≡◌, ◌≤◌, ◌+◌, refl, sym, ap, ◌∙◌, inl, inr, true, false, List, [], ◌∷◌, String, any, ◌&&◌,
  ◌==◌, arith, if◌then◌else◌, Bool-cases,
}
use mathlib.Core.Path.{subst}
use invoice_ops.Schemas.Queue.{QueueConfig}
use invoice_ops.Schemas.Digests.{Digests}
use invoice_ops.Ledger.{VersionPins}
use invoice_ops.Workflow.{State}
use invoice_ops.Live.Transitions.{Scene}
use invoice_ops.Live.Triage.{
  QueuedException, Desk, Prepared, triaged, has_run, is_queued_for, has_exception, queue_once,
  triage_known, triage_with, triage,
}
use invoice_ops.Live.Triaging.{queue_once_queues, triage-IsTriaged}

-- The scene of another attempt, with what it draws.
abbrev pub attempt_again : Scene → VersionPins → ℕ → ℕ → Scene
attempt_again scene settings event_id now = record scene {
  settings = settings;
  event_id = event_id;
  now = now;
}

nothing_to_queue :
    (digests : Digests) (rules : QueueConfig) (scene : Scene) (prepared : Prepared) (state : State)
    (payload : String) (exceptions : List QueuedException)
    → has_exception scene exceptions ≡ true
    → queue_once digests rules scene prepared state payload exceptions ≡ exceptions
unfolding queue_once
nothing_to_queue digests rules scene prepared state payload exceptions h = rw h refl

-- Triage is safe to repeat. Once it went through for a run, the run has a queued exception, and another attempt, whatever
-- its agent drafts, its state holds and it draws, gives the payload that was committed and changes nothing.
pub triage_repeats :
    (digests : Digests) (rules rules_later : QueueConfig) (scene : Scene)
    (prepared prepared_later : Prepared) (state state_later : State) (desk : Desk)
    (payload : String) (next : Desk) (settings : VersionPins) (event_id now : ℕ)
    → triage digests rules scene prepared state desk ≡ triaged payload next
    → (has_exception scene next.exceptions ≡ true)
      × (triage digests rules_later
            (attempt_again scene settings event_id now)
            prepared_later
            state_later
            next
          ≡ triaged payload next)
unfolding triage
triage_repeats digests rules rules_later scene prepared prepared_later state state_later desk
      payload next settings event_id now h =
    let t = triage-IsTriaged digests rules scene prepared state desk payload next h in
    let later = attempt_again scene settings event_id now in
    let there : has_exception scene next.exceptions ≡ true =
      ap (has_exception scene) t.is_queued
      ∙ queue_once_queues digests rules scene prepared state payload desk.exceptions in
    let run_there : has_run scene next.runs ≡ true =
      ap (has_run scene) t.same_runs ∙ t.run_is_there in
    let finds =
      ap (triage_with digests rules_later later prepared_later state_later next) t.is_committed
      ∙ (ap (triage_known digests rules_later later prepared_later state_later next) t.is_payload
          ∙ ap
              (λ (rows : List QueuedException). triaged payload (record next { exceptions = rows }))
              (nothing_to_queue digests rules_later later prepared_later state_later payload
                next.exceptions there)) in
    (there, rw run_there finds)

-- How many exceptions are queued for a run and an invoice.
unfoldable pub count_exceptions : Scene → List QueuedException → ℕ
count_exceptions scene [] = 0
count_exceptions scene (row ∷ rows) =
    let rest = count_exceptions scene rows in if is_queued_for scene row then rest + 1 else rest

none_queued :
    (scene : Scene) (rows : List QueuedException)
    → has_exception scene rows ≡ false
    → count_exceptions scene rows ≡ 0
unfolding count_exceptions
none_queued scene [] h = refl
none_queued scene (row ∷ rows) h = ground (arith, none_queued scene rows)

viewed :
    (scene viewer : Scene) (rows : List QueuedException)
    → (scene.run_id == viewer.run_id && scene.invoice_id == viewer.invoice_id) ≡ true
    → has_exception scene rows ≡ has_exception viewer rows
viewed scene viewer rows h =
    ap
      (λ (run : ℕ).
        any (λ (row : QueuedException). row.run_id == run && row.invoice_id == scene.invoice_id)
          rows)
      (ground arith)
    ∙ ap
        (λ (invoice : ℕ).
          any (λ (row : QueuedException). row.run_id == viewer.run_id && row.invoice_id == invoice)
            rows)
        (ground arith)

queued_counts :
    (digests : Digests) (rules : QueueConfig) (scene viewer : Scene) (prepared : Prepared)
    (state : State) (payload : String) (rows : List QueuedException)
    → count_exceptions viewer rows ≤ 1
    → count_exceptions viewer (queue_once digests rules scene prepared state payload rows) ≤ 1
unfolding queue_once count_exceptions
queued_counts digests rules scene viewer prepared state payload rows c =
    elim (Bool-cases (has_exception scene rows)) [
      | inl e ↦ rw e c
      | inr e ↦
          elim (Bool-cases
            (scene.run_id == viewer.run_id && scene.invoice_id == viewer.invoice_id)) [
              | inl v ↦
                  let zero = none_queued viewer rows (sym (viewed scene viewer rows v) ∙ e) in
                  rw (e, v) (omega (arith, zero))
              | inr v ↦ rw (e, v) c
            ]
    ]

-- No run and invoice has more than one queued exception after a triage went through, if none had before.
pub count_exceptions-triage_le :
    (digests : Digests) (rules : QueueConfig) (scene viewer : Scene) (prepared : Prepared)
    (state : State) (desk : Desk) (payload : String) (next : Desk)
    → count_exceptions viewer desk.exceptions ≤ 1
    → triage digests rules scene prepared state desk ≡ triaged payload next
    → count_exceptions viewer next.exceptions ≤ 1
count_exceptions-triage_le digests rules scene viewer prepared state desk payload next c h =
    let t = triage-IsTriaged digests rules scene prepared state desk payload next h in
    subst (λ (rows : List QueuedException). count_exceptions viewer rows ≤ 1) (sym t.is_queued)
      (queued_counts digests rules scene viewer prepared state payload desk.exceptions c)
