-- ===== src/Ledger/Sequence.antt =====
-- The events of each run are numbered 1, 2, 3, ... without a gap.
use invoice_ops.Prelude.{
  ℕ, zero, suc, ◌+◌, max, ◌≡◌, refl, sym, ap, ◌∙◌, Bool, true, false, List, [], ◌∷◌, length, ◌==◌,
  ==_iff, if◌then◌else◌, arith,
}
use mathlib.Core.Path.{subst}
use invoice_ops.Ledger.Staging.{append_staged}
use invoice_ops.Ledger.{
  VersionPins, AppendEvent, LedgerEvent, RunIdentity, max_sequence, append, staged,
}

-- The numbers of a run's events, the newest first.
unfoldable pub sequences : ℕ → List LedgerEvent → List ℕ
sequences run_id [] = []
sequences run_id (event ∷ events) =
    let rest = sequences run_id events in
    if event.run_id == run_id then event.sequence ∷ rest else rest

abbrev pub countdown : ℕ → List ℕ
countdown zero = []
countdown (suc n) = suc n ∷ countdown n

-- Without gaps: the numbers of each run count down to 1.
unfoldable pub IsNumbered : List LedgerEvent → Type 0
IsNumbered events =
    (run_id : ℕ) → sequences run_id events ≡ countdown (length (sequences run_id events))

abbrev largest : List ℕ → ℕ
largest [] = 0
largest (n ∷ ns) = max n (largest ns)

max_sequence-eq-largest :
    (run_id : ℕ) (events : List LedgerEvent)
    → max_sequence run_id events ≡ largest (sequences run_id events)
unfolding max_sequence sequences
max_sequence-eq-largest run_id [] = refl
max_sequence-eq-largest run_id (event ∷ events) =
    ground (arith, max_sequence-eq-largest run_id events)

largest-countdown : (n : ℕ) → largest (countdown n) ≡ n
largest-countdown zero = refl
largest-countdown (suc n) = omega (arith, largest-countdown n)

numbered_max :
    (events : List LedgerEvent)
    → IsNumbered events
    → (run_id : ℕ) → max_sequence run_id events ≡ length (sequences run_id events)
unfolding IsNumbered
numbered_max events h run_id =
    max_sequence-eq-largest run_id events ∙ (ap largest (h run_id) ∙ largest-countdown _)

add_one : (n : ℕ) → n + 1 ≡ suc n
add_one n = omega arith

countdown-cons : {m n : ℕ} {ns : List ℕ} → m ≡ n + 1 → ns ≡ countdown n → m ∷ ns ≡ countdown (suc n)
countdown-cons {n = n} h k = rw (h, k) (ap (λ m. m ∷ countdown n) (add_one n))

next_sequences :
    (same : Bool) (n : ℕ) (ns : List ℕ)
    → (same ≡ true → n ≡ length ns + 1)
    → ns ≡ countdown (length ns)
    → (if same then n ∷ ns else ns) ≡ countdown (length (if same then n ∷ ns else ns))
next_sequences true n ns e h = countdown-cons (e refl) h
next_sequences false n ns e h = h

-- The next number keeps the ledger numbered.
next-IsNumbered :
    (events : List LedgerEvent) (event : LedgerEvent)
    → event.sequence ≡ max_sequence event.run_id events + 1
    → IsNumbered events
    → IsNumbered (event ∷ events)
unfolding IsNumbered sequences
next-IsNumbered events event e h run_id =
    next_sequences (event.run_id == run_id) event.sequence (sequences run_id events)
      (λ same.
        let r = (==_iff event.run_id run_id).0 same in
        e ∙ ap (λ n. n + 1) (ap (λ k. max_sequence k events) r ∙ numbered_max events h run_id))
      (h run_id)

-- A ledger whose runs are numbered without gaps stays so when an event is staged.
pub append-IsNumbered :
    (settings : VersionPins) (in_transaction : Bool) (id now : ℕ) (command : AppendEvent)
    (runs : List RunIdentity) (events : List LedgerEvent) (event : LedgerEvent)
    (next : List LedgerEvent)
    → IsNumbered events
    → append settings in_transaction id now command runs events ≡ staged event next
    → IsNumbered next
append-IsNumbered settings in_transaction id now command runs events event next h e =
    let s = append_staged settings in_transaction id now command runs events event next e in
    subst IsNumbered (sym s.grows) (
      next-IsNumbered events event
        (ap (λ (v : LedgerEvent). v.sequence) s.is_event
          ∙ ap (λ (v : LedgerEvent). max_sequence v.run_id events + 1) (sym s.is_event))
        h)
