-- ===== src/Ledger/Staging.antt =====
-- What a staged event is, and that the ledger only grows.
use invoice_ops.Prelude.{
  ℕ, ◌+◌, ◌≡◌, refl, sym, ap, ◌∙◌, ==_iff, Bool, true, false, some, List, ◌∷◌, any, find_first, not,
  ◌||◌, ◌==◌, eq_iff, arith, if◌then◌else◌, Option-cases, inl, inr,
}
use invoice_ops.Ledger.{
  VersionPins, AppendEvent, LedgerEvent, RunIdentity, staged, refused, identity_mismatch, conflict,
  resolve, max_sequence, can_supersede, event_of, append_to, append,
}

-- What is known of an event that was staged.
pub record IsStaged (settings : VersionPins) (command : AppendEvent) (id now : ℕ)
    (runs : List RunIdentity) (events : List LedgerEvent) (event : LedgerEvent)
    (next : List LedgerEvent) : Type 0 where
  pub identity : RunIdentity
  pub run_is_there :
      find_first (λ (row : RunIdentity). row.run == command.run_id) runs ≡ some identity
  pub same_invoice : identity.invoice_id ≡ command.invoice_id
  pub same_graph : identity.graph_version ≡ (resolve settings command.versions).graph_version
  pub supersedes : can_supersede command events ≡ true
  pub fresh : any (λ (other : LedgerEvent). other.id == id) events ≡ false
  pub is_event :
      event
      ≡ event_of
          (resolve settings command.versions)
          id
          now
          (max_sequence command.run_id events + 1)
          command
  pub grows : next ≡ event ∷ events

guards_passed :
    (a b c : Bool) (e : LedgerEvent) (n : List LedgerEvent) (event : LedgerEvent)
    (next : List LedgerEvent)
    → (if a
        then refused identity_mismatch
        else if not b
        then refused identity_mismatch
        else if c
        then refused conflict
        else staged e n)
      ≡ staged event next
    → (a ≡ false) × (b ≡ true) × (c ≡ false) × (e ≡ event) × (n ≡ next)
guards_passed true b c e n event next h = ground arith
guards_passed false false c e n event next h = ground arith
guards_passed false true true e n event next h = ground arith
guards_passed false true false e n event next h = ground arith

identity_same : (a b : Bool) → (not a || not b) ≡ false → (a ≡ true) × (b ≡ true)
identity_same a b h = ground arith

append_to_staged :
    (settings : VersionPins) (versions : VersionPins) (id now : ℕ) (command : AppendEvent)
    (runs : List RunIdentity) (identity : RunIdentity) (events : List LedgerEvent)
    (event : LedgerEvent) (next : List LedgerEvent)
    → versions ≡ resolve settings command.versions
    → find_first (λ (row : RunIdentity). row.run == command.run_id) runs ≡ some identity
    → append_to versions id now command identity events ≡ staged event next
    → IsStaged settings command id now runs events event next
unfolding append_to
append_to_staged settings versions id now command runs identity events event next v f h =
    let (a, b, c, e, n) = guards_passed _ _ _ _ _ event next h in
    let (same_invoice, same_graph) = identity_same _ _ a in
    let event_eq =
      sym e
      ∙ ap
          (λ (pins : VersionPins).
            event_of pins id now (max_sequence command.run_id events + 1) command)
          v in
    record {
      identity = identity;
      run_is_there = f;
      same_invoice = (==_iff identity.invoice_id command.invoice_id).0 same_invoice;
      same_graph =
          (eq_iff identity.graph_version versions.graph_version).0 same_graph
          ∙ ap (λ (pins : VersionPins). pins.graph_version) v;
      supersedes = b;
      fresh = c;
      is_event = event_eq;
      grows = sym n ∙ ap (λ (x : LedgerEvent). x ∷ events) e;
    }

-- If an event is staged, then its run exists with its invoice and its graph version, the event it supersedes, if
-- any, belongs to that run and invoice, its id is new, it has the command's fields and the next number, and
-- the ledger grows by it alone.
pub append_staged :
    (settings : VersionPins) (in_transaction : Bool) (id now : ℕ) (command : AppendEvent)
    (runs : List RunIdentity) (events : List LedgerEvent) (event : LedgerEvent)
    (next : List LedgerEvent)
    → append settings in_transaction id now command runs events ≡ staged event next
    → IsStaged settings command id now runs events event next
unfolding append
append_staged settings true id now command runs events event next h =
    elim (Option-cases (find_first (λ (row : RunIdentity). row.run == command.run_id) runs)) [
      | inl e ↦ ground arith
      | inr (identity, e) ↦
          append_to_staged settings _ id now command runs identity events event next refl e
            (rw e at h)
    ]
append_staged settings false id now command runs events event next h = ground arith
