-- ===== src/Ledger/History.antt =====
-- The history of a run, as its pages give it.
use invoice_ops.Prelude.{
  ℕ, suc, ◌+◌, ◌<◌, ◌≤◌, ◌≡◌, refl, sym, ap, ◌∙◌, Bool, true, false, Option, none, some, List, [],
  ◌∷◌, ◌++◌, length, length-append, All, All-map, ltb, ◌==◌, ==_iff, arith, if◌then◌else◌,
  Bool-cases, inl, inr, not,
}
use invoice_ops.Ledger.{VersionPins, AppendEvent, LedgerEvent, RunIdentity, append, staged}
use invoice_ops.Ledger.Staging.{append_staged}
use invoice_ops.Ledger.Sequence.{IsNumbered, sequences, countdown, append-IsNumbered}
use invoice_ops.Ledger.Paging.{page_of, take, insert_in_order, in_order, above}
use invoice_ops.Ledger.Pages.{answer, read_rest}
use invoice_ops.Ledger.Ordering.{IsOrder, IsIncreasing, above-in_order, above-All}
use invoice_ops.Ledger.Reader.{
  page, RunCursor, of_run, sequence_of, run_cursor, start, is_limit, is_other_run, for_run,
  read_pages,
}

-- The events of a run, the oldest first.
unfoldable pub history : ℕ → List LedgerEvent → List LedgerEvent
history run_id [] = []
history run_id (event ∷ events) =
    let rest = history run_id events in if event.run_id == run_id then rest ++ event ∷ [] else rest

ltb-IsOrder : IsOrder ltb
ltb-IsOrder = record { irreflexive = λ a. ground arith; transitive = λ a b c h k. ground arith }

-- The numbers of one run count down to 1.
abbrev Counts : ℕ → List LedgerEvent → Type 0
Counts run_id events = sequences run_id events ≡ countdown (length (sequences run_id events))

Counts-head :
    (run_id : ℕ) (event : LedgerEvent) (events : List LedgerEvent)
    → (event.run_id == run_id) ≡ true
    → Counts run_id (event ∷ events)
    → (event.sequence ≡ suc (length (sequences run_id events))) × Counts run_id events
unfolding sequences
Counts-head run_id event events e h = let p = rw e at h in ground arith

Counts-skip :
    (run_id : ℕ) (event : LedgerEvent) (events : List LedgerEvent)
    → (event.run_id == run_id) ≡ false
    → Counts run_id (event ∷ events)
    → Counts run_id events
unfolding sequences
Counts-skip run_id event events e h = rw e at h

All-append :
    (P : LedgerEvent → Type 0) (xs ys : List LedgerEvent) → All P xs → All P ys → All P (xs ++ ys)
All-append P [] ys h k = k
All-append P (x ∷ xs) ys h k = (h.0, All-append P xs ys h.1 k)

-- All the numbers of a history lie between 1 and its length.
abbrev IsWithin : ℕ → LedgerEvent → Type 0
IsWithin n event = (ltb 0 event.sequence ≡ true) × (ltb event.sequence (suc n) ≡ true)

IsWithin-next : (n : ℕ) (event : LedgerEvent) → IsWithin n event → IsWithin (suc n) event
IsWithin-next n event h = ground arith

history-IsWithin :
    (run_id : ℕ) (events : List LedgerEvent)
    → Counts run_id events
    → All (IsWithin (length (sequences run_id events))) (history run_id events)
unfolding history sequences
history-IsWithin run_id [] h = tt
history-IsWithin run_id (event ∷ events) h = elim (Bool-cases (event.run_id == run_id)) [
  | inl e ↦
      let (s, c) = Counts-head run_id event events e h in
      rw e (
        All-append _ (history run_id events) (event ∷ [])
          (All-map (IsWithin-next _) (history run_id events) (history-IsWithin run_id events c))
          ((ground arith, ground arith), tt))
  | inr e ↦ rw e (history-IsWithin run_id events (Counts-skip run_id event events e h))
]

insert_last :
    (event : LedgerEvent) (xs : List LedgerEvent) (n : ℕ)
    → event.sequence ≡ suc n
    → All (IsWithin n) xs
    → insert_in_order sequence_of ltb event xs ≡ xs ++ event ∷ []
unfolding insert_in_order
insert_last event [] n e h = refl
insert_last event (x ∷ xs) n e h =
    let later : ltb event.sequence x.sequence ≡ false = ground arith in
    rw later (ap (λ ys. x ∷ ys) (insert_last event xs n e h.1))

in_order-history :
    (run_id : ℕ) (events : List LedgerEvent)
    → Counts run_id events
    → in_order sequence_of ltb (of_run run_id events) ≡ history run_id events
unfolding history of_run in_order
in_order-history run_id [] h = refl
in_order-history run_id (event ∷ events) h = elim (Bool-cases (event.run_id == run_id)) [
  | inl e ↦
      let (s, c) = Counts-head run_id event events e h in
      rw e (
        ap (insert_in_order sequence_of ltb event) (in_order-history run_id events c)
        ∙ insert_last event (history run_id events) _ s (history-IsWithin run_id events c))
  | inr e ↦ rw e (in_order-history run_id events (Counts-skip run_id event events e h))
]

IsIncreasing-snoc :
    (xs : List LedgerEvent) (event : LedgerEvent) (n : ℕ)
    → event.sequence ≡ suc n
    → All (IsWithin n) xs
    → IsIncreasing sequence_of ltb xs
    → IsIncreasing sequence_of ltb (xs ++ event ∷ [])
unfolding IsIncreasing
IsIncreasing-snoc [] event n e h i = (tt, tt)
IsIncreasing-snoc (x ∷ xs) event n e h i =
    (All-append _ xs (event ∷ []) i.0 (ground arith, tt), IsIncreasing-snoc xs event n e h.1 i.1)

history-IsIncreasing :
    (run_id : ℕ) (events : List LedgerEvent)
    → Counts run_id events
    → IsIncreasing sequence_of ltb (history run_id events)
unfolding history
history-IsIncreasing run_id [] h = unfold IsIncreasing in tt
history-IsIncreasing run_id (event ∷ events) h = elim (Bool-cases (event.run_id == run_id)) [
  | inl e ↦
      let (s, c) = Counts-head run_id event events e h in
      rw e (
        IsIncreasing-snoc (history run_id events) event _ s (history-IsWithin run_id events c)
          (history-IsIncreasing run_id events c))
  | inr e ↦ rw e (history-IsIncreasing run_id events (Counts-skip run_id event events e h))
]

above-history :
    (run_id : ℕ) (events : List LedgerEvent)
    → Counts run_id events
    → above sequence_of ltb 0 (history run_id events) ≡ history run_id events
above-history run_id events h = above-All sequence_of ltb 0 (history run_id events) (
    All-map (λ event (w : IsWithin _ event). w.0) (history run_id events)
      (history-IsWithin run_id events h))

-- What the reader answers for the rest of a history after a number.
for_run-answer :
    (ledger : List LedgerEvent) (run_id limit : ℕ) (after : Option RunCursor)
    → Counts run_id ledger
    → is_limit limit ≡ true
    → is_other_run run_id after ≡ false
    → for_run ledger run_id limit after
      ≡ answer sequence_of ltb
          (run_cursor run_id)
          limit
          (history run_id ledger)
          (for_run ledger run_id limit)
          (above sequence_of ltb (start after) (history run_id ledger))
unfolding for_run
for_run-answer ledger run_id limit after h l o =
    let one : limit + 1 ≡ suc limit = omega arith in
    rw (l, o, one)
      (ap (λ rows. page (page_of (run_cursor run_id) limit (take (suc limit) rows)))
        (sym (above-in_order sequence_of ltb ltb-IsOrder (start after) (of_run run_id ledger))
          ∙ ap (above sequence_of ltb (start after)) (in_order-history run_id ledger h)))

-- Following the cursors of `for_run` from the start gives the whole history of the run, each event once and the
-- oldest first, for every page size that is accepted, in more pages than there are events at most.
pub for_run-history :
    (ledger : List LedgerEvent) (run_id limit pages : ℕ)
    → IsNumbered ledger
    → is_limit limit ≡ true
    → length (history run_id ledger) < pages
    → read_pages (for_run ledger run_id limit) pages none ≡ some (history run_id ledger)
unfolding IsNumbered
for_run-history ledger run_id limit pages h l b =
    let c = h run_id in
    let positive : 1 ≤ limit = ground arith in
    read_rest sequence_of ltb (run_cursor run_id) limit (history run_id ledger)
      (for_run ledger run_id limit) ltb-IsOrder positive (history-IsIncreasing run_id ledger c)
      (λ event.
        for_run-answer ledger run_id limit (some (run_cursor run_id event)) c l
          (ap not ((==_iff run_id run_id).1 refl)))
      pages none [] (history run_id ledger) refl
      (for_run-answer ledger run_id limit none c l refl
        ∙ ap
            (answer sequence_of ltb (run_cursor run_id) limit (history run_id ledger)
              (for_run ledger run_id limit))
            (above-history run_id ledger c))
      b

history-next :
    (run_id : ℕ) (event : LedgerEvent) (events : List LedgerEvent)
    → event.run_id ≡ run_id
    → history run_id (event ∷ events) ≡ history run_id events ++ event ∷ []
unfolding history
history-next run_id event events e = let same = (==_iff event.run_id run_id).1 e in rw same refl

history-length :
    (run_id : ℕ) (events : List LedgerEvent) → length (history run_id events) ≤ length events
unfolding history
history-length run_id [] = omega arith
history-length run_id (event ∷ events) = elim (Bool-cases (event.run_id == run_id)) [
  | inl e ↦ rw e (
      omega
        (arith, history-length run_id events, length-append (history run_id events) (event ∷ [])))
  | inr e ↦ rw e (omega (arith, history-length run_id events))
]

-- What is written is read: if an event is staged in a numbered ledger, then the pages of its run before give some
-- history, and the pages after give the same history with the event at its end.
pub append-read :
    (settings : VersionPins) (in_transaction : Bool) (id now : ℕ) (command : AppendEvent)
    (runs : List RunIdentity) (events : List LedgerEvent) (event : LedgerEvent)
    (next : List LedgerEvent) (limit pages : ℕ)
    → IsNumbered events
    → is_limit limit ≡ true
    → length next < pages
    → append settings in_transaction id now command runs events ≡ staged event next
    → (before : List LedgerEvent) × (read_pages (for_run events command.run_id limit) pages none
        ≡ some before)
      × (read_pages (for_run next command.run_id limit) pages none ≡ some (before ++ event ∷ []))
append-read settings in_transaction id now command runs events event next limit pages h l b e =
    let s = append_staged settings in_transaction id now command runs events event next e in
    let numbered =
      append-IsNumbered settings in_transaction id now command runs events event next h e in
    let longer = ap length s.grows in
    let run_id = command.run_id in
    (
      history run_id events,
      for_run-history events run_id limit pages h l
          (omega (arith, history-length run_id events, longer, b)),
      for_run-history next run_id limit pages numbered l
            (omega (arith, history-length run_id next, b))
          ∙ ap some (
              ap (history run_id) s.grows
              ∙ history-next run_id event events (ap (λ (x : LedgerEvent). x.run_id) s.is_event)),
    )
