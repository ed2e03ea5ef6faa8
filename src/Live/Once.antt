-- ===== src/Live/Once.antt =====
-- Each transition of a run is committed once, and stays as it was committed.
use invoice_ops.Prelude.{
  ℕ, ◌≡◌, ◌≤◌, ◌+◌, refl, sym, ap, ◌∙◌, inl, inr, ◌⊎◌, true, Option, none, some, List, [], ◌∷◌,
  String, find_first, not, ◌&&◌, ◌==◌, str_eq, eq_iff, arith, if◌then◌else◌, Bool-cases,
}
use mathlib.Core.Path.{subst}
use invoice_ops.Ledger.{LedgerEvent, Appended, staged, refused, append}
use invoice_ops.Ledger.Staging.{append_staged}
use invoice_ops.Live.Transitions.{
  InvoiceStatus, Books, differs, invoice_missing, done, failed, Transition, Scene, same_payload,
  is_transition, committed_event, update_invoices, has_invoice, command_of, written, write_with,
  append_unless, append_once,
}
use invoice_ops.Live.Payloads.{text_refl, number_refl, same_payload_refl}

-- What a transition that was appended found and wrote.
record IsAppended (scene : Scene) (transition : Transition) (books next : Books) : Type 0 where
  event : LedgerEvent
  was_new : committed_event scene transition.event_type books.ledger ≡ none
  is_staged :
      append scene.settings true scene.event_id scene.now
        (command_of scene transition)
        books.runs
        books.ledger
      ≡ staged event next.ledger

-- What a transition that was committed before found.
record IsRepeated (scene : Scene) (transition : Transition) (books next : Books) : Type 0 where
  event : LedgerEvent
  was_there : committed_event scene transition.event_type books.ledger ≡ some event
  is_same : same_payload event.payload transition.payload ≡ true
  unchanged : next ≡ books

written_done :
    (books next : Books) (answer : Appended)
    → written books answer ≡ done next
    → (event : LedgerEvent) × (answer ≡ staged event next.ledger)
written_done books next (staged event ledger) h = (event, ground arith)
written_done books next (refused e) h = ground arith

write_done :
    (scene : Scene) (transition : Transition) (status : Option InvoiceStatus) (books next : Books)
    → write_with scene transition status books ≡ done next
    → (event : LedgerEvent) × (append scene.settings true scene.event_id scene.now
          (command_of scene transition)
          books.runs
          books.ledger
        ≡ staged event next.ledger)
write_done scene transition none books next h = written_done books next _ h
write_done scene transition (some status) books next h =
    elim (Bool-cases (has_invoice scene.invoice_id books.invoices)) [
      | inl e ↦
          written_done
            (record books { invoices = update_invoices scene.invoice_id status books.invoices })
            next _ (rw e at h)
      | inr e ↦ (let p : failed invoice_missing ≡ done next = rw e at h in ground arith)
    ]

unless_done :
    (scene : Scene) (transition : Transition) (books next : Books) (found : Option LedgerEvent)
    → committed_event scene transition.event_type books.ledger ≡ found
    → append_unless scene transition books found ≡ done next
    → IsRepeated scene transition books next ⊎ IsAppended scene transition books next
unless_done scene transition books next none f h =
    let (event, s) = write_done scene transition transition.invoice_status books next h in
    inr (record { event = event; was_new = f; is_staged = s })
unless_done scene transition books next (some event) f h =
    elim (Bool-cases (same_payload event.payload transition.payload)) [
      | inl e ↦
          let p : done books ≡ done next = rw e at h in
          inl (record { event = event; was_there = f; is_same = e; unchanged = ground arith })
      | inr e ↦ (let p : failed differs ≡ done next = rw e at h in ground arith)
    ]

once_done :
    (scene : Scene) (transition : Transition) (books next : Books)
    → append_once scene transition books ≡ done next
    → IsRepeated scene transition books next ⊎ IsAppended scene transition books next
unfolding append_once
once_done scene transition books next h = unless_done scene transition books next _ refl h

-- The event that a transition appends.
appended_event :
    (scene : Scene) (transition : Transition) (books next : Books)
    (a : IsAppended scene transition books next)
    → (next.ledger ≡ a.event ∷ books.ledger)
      × (a.event.payload ≡ transition.payload)
      × (is_transition scene transition.event_type a.event ≡ true)
appended_event scene transition books next a =
    let s =
      append_staged scene.settings true scene.event_id scene.now (command_of scene transition)
        books.runs books.ledger a.event next.ledger a.is_staged in
    let here : is_transition scene transition.event_type a.event ≡ true =
      ap (is_transition scene transition.event_type) s.is_event ∙ transition_holds in
    (s.grows, ap (λ (e : LedgerEvent). e.payload) s.is_event, here)
  where
    transition_holds :
        (scene.run_id == scene.run_id
          && scene.invoice_id == scene.invoice_id
          && str_eq transition.event_type transition.event_type)
        ≡ true
    transition_holds =
        rw (number_refl scene.run_id, number_refl scene.invoice_id, text_refl transition.event_type)
          refl

-- A transition that is committed is in the ledger, as it was asked for.
committed_after :
    (scene : Scene) (transition : Transition) (books next : Books)
    → append_once scene transition books ≡ done next
    → (event : LedgerEvent) × (committed_event scene transition.event_type next.ledger ≡ some event)
      × (same_payload event.payload transition.payload ≡ true)
committed_after scene transition books next h = elim (once_done scene transition books next h) [
  | inl r ↦ (
    r.event,
    ap (λ (b : Books). committed_event scene transition.event_type b.ledger) r.unchanged
        ∙ r.was_there,
    r.is_same,
  )
  | inr a ↦
      let (grows, payload, fits) = appended_event scene transition books next a in
      (
        a.event,
        ap (committed_event scene transition.event_type) grows ∙ (rw fits refl),
        ap (λ p. same_payload p transition.payload) payload ∙ same_payload_refl transition.payload,
      )
]

unless_known :
    (scene : Scene) (transition : Transition) (books : Books) (event : LedgerEvent)
    → committed_event scene transition.event_type books.ledger ≡ some event
    → append_once scene transition books
      ≡ (if not (same_payload event.payload transition.payload) then failed differs else done books)
unfolding append_once
unless_known scene transition books event e = ap (append_unless scene transition books) e

-- The event depends on the run, the invoice and the type alone.
same_committed :
    (scene later : Scene) (event_type other : String) (events : List LedgerEvent)
    (found : Option LedgerEvent)
    → later.run_id ≡ scene.run_id
    → later.invoice_id ≡ scene.invoice_id
    → other ≡ event_type
    → committed_event scene event_type events ≡ found
    → committed_event later other events ≡ found
same_committed scene later event_type other events found r i t h =
    ap
      (λ run.
        find_first
          (λ (e : LedgerEvent).
            e.run_id == run && e.invoice_id == later.invoice_id && str_eq e.event_type other)
          events)
      r
    ∙ (ap
          (λ invoice.
            find_first
              (λ (e : LedgerEvent).
                e.run_id == scene.run_id && e.invoice_id == invoice && str_eq e.event_type other)
              events)
          i
        ∙ (ap (λ text. committed_event scene text events) t ∙ h))

-- A committed transition is final. If it was asked for and done, then its event is in the ledger with the payload that
-- was asked for, and whatever transition of the same type is asked for later on this run and invoice, with whatever
-- ids, time and settings: with the payload of the event it is done again and changes nothing, and with another
-- one it is refused as different.
pub append_once_final :
    (scene later : Scene) (transition other : Transition) (books next : Books)
    → append_once scene transition books ≡ done next
    → later.run_id ≡ scene.run_id
    → later.invoice_id ≡ scene.invoice_id
    → other.event_type ≡ transition.event_type
    → (event : LedgerEvent) × (committed_event scene transition.event_type next.ledger ≡ some event)
      × (same_payload event.payload transition.payload ≡ true)
      × (append_once later other next
          ≡ (if not (same_payload event.payload other.payload) then failed differs else done next))
append_once_final scene later transition other books next h r i t =
    let (event, there, same) = committed_after scene transition books next h in
    (
      event,
      there,
      same,
      unless_known later other next event (
          same_committed scene later transition.event_type other.event_type next.ledger _ r i t
            there),
    )

-- How many events of a type the run and the invoice have.
unfoldable pub count_transitions : Scene → String → List LedgerEvent → ℕ
count_transitions scene event_type [] = 0
count_transitions scene event_type (event ∷ events) =
    let rest = count_transitions scene event_type events in
    if is_transition scene event_type event then rest + 1 else rest

none_counted :
    (scene : Scene) (event_type : String) (events : List LedgerEvent)
    → committed_event scene event_type events ≡ none
    → count_transitions scene event_type events ≡ 0
unfolding count_transitions
none_counted scene event_type [] h = refl
none_counted scene event_type (event ∷ events) h =
    elim (Bool-cases (is_transition scene event_type event)) [
      | inl e ↦ (let p : some event ≡ none = rw e at h in ground arith)
      | inr e ↦ rw e (none_counted scene event_type events (rw e at h))
    ]

transition_parts :
    (scene : Scene) (event_type : String) (event : LedgerEvent)
    → is_transition scene event_type event ≡ true
    → (event.run_id ≡ scene.run_id)
      × (event.invoice_id ≡ scene.invoice_id)
      × (event.event_type ≡ event_type)
transition_parts scene event_type event h =
    (ground arith, ground arith, (eq_iff event.event_type event_type).0 (ground arith))

appended_counts :
    (scene viewer : Scene) (transition : Transition) (event_type : String) (event : LedgerEvent)
    (events : List LedgerEvent)
    → is_transition scene transition.event_type event ≡ true
    → committed_event scene transition.event_type events ≡ none
    → count_transitions viewer event_type events ≤ 1
    → count_transitions viewer event_type (event ∷ events) ≤ 1
unfolding count_transitions
appended_counts scene viewer transition event_type event events fits new h =
    elim (Bool-cases (is_transition viewer event_type event)) [
      | inl e ↦
          let (a, b, c) = transition_parts scene transition.event_type event fits in
          let (a', b', c') = transition_parts viewer event_type event e in
          let zero = none_counted viewer event_type events (
            same_committed scene viewer transition.event_type event_type events none (sym a' ∙ a)
              (sym b' ∙ b) (sym c' ∙ c) new) in
          rw e (omega (arith, zero))
      | inr e ↦ rw e h
    ]

-- Whatever transition is asked for and done: no run and invoice has more than one event of any type of transition
-- afterwards, if none had before.
pub count_transitions-append_once_le :
    (scene viewer : Scene) (transition : Transition) (event_type : String) (books next : Books)
    → count_transitions viewer event_type books.ledger ≤ 1
    → append_once scene transition books ≡ done next
    → count_transitions viewer event_type next.ledger ≤ 1
count_transitions-append_once_le scene viewer transition event_type books next h e =
    elim (once_done scene transition books next e) [
      | inl r ↦
          subst (λ (b : Books). count_transitions viewer event_type b.ledger ≤ 1) (sym r.unchanged)
            h
      | inr a ↦
          let (grows, payload, fits) = appended_event scene transition books next a in
          subst (λ (ledger : List LedgerEvent). count_transitions viewer event_type ledger ≤ 1)
            (sym grows)
            (appended_counts scene viewer transition event_type a.event books.ledger fits a.was_new
              h)
    ]
