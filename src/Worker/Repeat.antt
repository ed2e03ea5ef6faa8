-- ===== src/Worker/Repeat.antt =====
-- graph/worker.py `redrive`: the same request again does nothing.
use invoice_ops.Prelude.{
  ℕ, ◌+◌, ◌≡◌, refl, sym, ap, ◌∙◌, true, some, List, [], ◌∷◌, String, find_first, ◌==◌, ==_iff,
  str_eq, eq_iff, arith, Bool-cases, Option-cases, inl, inr,
}
use invoice_ops.Ledger.{LedgerEvent, Appended, staged, refused}
use invoice_ops.Ledger.Staging.{append_staged}
use invoice_ops.Worker.{
  RetryConfig, RetryState, Run, Store, Checked, ok, error, state_of, attempt_of, is_failed,
}
use invoice_ops.Worker.Redrive.{
  Redrive, repeated, requeued, is_redrive, same_redrive, is_valid_redrive, redrive_event,
  queued_row, requeue, requeued_store, redrive_run, redrive, with_event, writer_pins, identity_of,
}

with_event_lem :
    (run : Run) (a : Appended) (next : Store)
    → with_event run a ≡ ok next
    → (event : LedgerEvent) × ((events : List LedgerEvent) × (a ≡ staged event events)
        × (record { run = some run; ledger = events } ≡ next))
with_event_lem run (staged event events) next h = (event, (events, refl, ground arith))
with_event_lem run (refused e) next h = ground arith

str_eq_refl : (s : String) → str_eq s s ≡ true
str_eq_refl s = (eq_iff s s).1 refl

==_refl : (n : ℕ) → (n == n) ≡ true
==_refl n = (==_iff n n).1 refl

-- The store that a redrive leaves: the run keeps its id, and the newest event is that of the request.
abbrev IsRequeued : RetryConfig → Redrive → Run → Store → Type 0
IsRequeued config request run next =
    (row : Run) × ((event : LedgerEvent) × ((events : List LedgerEvent) × (record {
      run = some row;
      ledger = event ∷ events;
    }
          ≡ next)
        × (row.id ≡ run.id)
        × (is_redrive run.id request.key event ≡ true)
        × (same_redrive request event.payload ≡ true)))

requeue_lem :
    (config : RetryConfig) (id now : ℕ) (request : Redrive) (state : RetryState) (run : Run)
    (store next : Store)
    → requeue config id now request state run store ≡ ok next
    → IsRequeued config request run next
unfolding requeue
requeue_lem config id now request state run store next h =
    let attempt = attempt_of run 1 (state.cycle + 1) in
    let row = queued_row (state.cycle + 1) run in
    let (event, (events, a, e)) = with_event_lem row _ next h in
    let s =
      append_staged (writer_pins attempt) true id now
        (redrive_event config attempt request state.cycle) (identity_of run ∷ []) store.ledger event
        events a in
    let found = λ (v : LedgerEvent). is_redrive run.id request.key v in
    (
      row,
      (
        event,
        (
          store.ledger,
          ap
                (λ (l : List LedgerEvent).
                  (let r : Store = record { run = some row; ledger = l } in r))
                (sym s.grows)
              ∙ e,
          refl,
          ap found s.is_event ∙ rw (==_refl run.id, str_eq_refl request.key) refl,
          ap (λ (v : LedgerEvent). same_redrive request v.payload) s.is_event
              ∙ rw (str_eq_refl request.actor_id, str_eq_refl request.reason) refl,
        ),
      ),
    )

requeued_lem : (c : Checked Store) (next : Store) → requeued_store c ≡ requeued next → c ≡ ok next
requeued_lem (ok store) next h = ground arith
requeued_lem (error e) next h = ground arith

redrive_run_lem :
    (config : RetryConfig) (id now : ℕ) (request : Redrive) (run : Run) (store next : Store)
    → redrive_run config id now request run store ≡ requeued next
    → IsRequeued config request run next
unfolding redrive_run requeue
redrive_run_lem config id now request run store next h = elim (Bool-cases (is_failed run.status)) [
  | inr e ↦ ground arith
  | inl e ↦ elim (Option-cases (state_of run.error)) [
    | inl f ↦ ground arith
    | inr (state, f) ↦ elim (Bool-cases state.dead_lettered) [
      | inr d ↦ ground arith
      | inl d ↦
          requeue_lem config id now request state run store next
            (requeued_lem _ next (rw (e, f, d) at h))
    ]
  ]
]

redrive_lem :
    (config : RetryConfig) (id now : ℕ) (request : Redrive) (store next : Store)
    → redrive config id now request store ≡ requeued next
    → (is_valid_redrive request ≡ true) × ((run : Run) × IsRequeued config request run next)
unfolding redrive
redrive_lem config id now request store next h = elim (Bool-cases (is_valid_redrive request)) [
  | inr v ↦ ground arith
  | inl v ↦ elim (Option-cases store.run) [
    | inl e ↦ ground arith
    | inr (run, e) ↦ elim (Option-cases (find_first (is_redrive run.id request.key) store.ledger)) [
      | inl f ↦ (v, (run, redrive_run_lem config id now request run store next (rw (v, e, f) at h)))
      | inr (event, f) ↦ ground arith
    ]
  ]
]

again_lem :
    (config : RetryConfig) (id now : ℕ) (request : Redrive) (row : Run) (run_id : ℕ)
    (event : LedgerEvent) (events : List LedgerEvent)
    → is_valid_redrive request ≡ true
    → row.id ≡ run_id
    → is_redrive run_id request.key event ≡ true
    → same_redrive request event.payload ≡ true
    → redrive config id now request (record { run = some row; ledger = event ∷ events }) ≡ repeated
unfolding redrive
again_lem config id now request row run_id event events v e f s =
    let g : is_redrive row.id request.key event ≡ true =
      ap (λ (n : ℕ). is_redrive n request.key event) e ∙ f in
    rw (v, g, s)

-- A redrive that queued a run again is idempotent: the same request on the store that it left, at any time, is reported as
-- a repetition and changes nothing.
pub redrive_repeats :
    (config : RetryConfig) (id now id' now' : ℕ) (request : Redrive) (store next : Store)
    → redrive config id now request store ≡ requeued next
    → redrive config id' now' request next ≡ repeated
redrive_repeats config id now id' now' request store next h =
    let (v, (run, (row, (event, (events, e, i, f, s))))) =
      redrive_lem config id now request store next h in
    ap (redrive config id' now' request) (sym e)
    ∙ again_lem config id' now' request row run.id event events v i f s
