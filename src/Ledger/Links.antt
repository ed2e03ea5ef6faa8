-- ===== src/Ledger/Links.antt =====
-- What the rows of the ledger refer to: their run, and the event that they supersede.
use invoice_ops.Prelude.{
  ℕ, ◌≡◌, ◌≢◌, sym, ==_iff, Bool, true, false, some, List, [], ◌∷◌, any, find_first, ◌==◌, arith,
  Option-cases, Bool-cases, inl, inr, All,
}
use mathlib.Core.List.{Mem, mem-cons_self, mem-cons_of_mem}
use mathlib.Core.Path.{subst}
use invoice_ops.Ledger.{
  VersionPins, AppendEvent, LedgerEvent, RunIdentity, staged, can_supersede, append,
}
use invoice_ops.Ledger.Staging.{IsStaged, append_staged}

-- The row of its run that an event belongs to.
pub record OfRun (runs : List RunIdentity) (event : LedgerEvent) : Type 0 where
  pub identity : RunIdentity
  pub is_row : Mem identity runs
  pub same_run : identity.run ≡ event.run_id
  pub same_invoice : identity.invoice_id ≡ event.invoice_id
  pub same_graph : identity.graph_version ≡ event.versions.graph_version

-- An older event with this id, of the same run and invoice.
pub record Supersedes (older : List LedgerEvent) (event : LedgerEvent) (previous : ℕ) : Type 0 where
  pub target : LedgerEvent
  pub is_older : Mem target older
  pub is_previous : target.id ≡ previous
  pub same_run : target.run_id ≡ event.run_id
  pub same_invoice : target.invoice_id ≡ event.invoice_id

-- An event refers to its run and, if it supersedes one, to an older event; its id is new.
pub record IsLink (runs : List RunIdentity) (older : List LedgerEvent) (event : LedgerEvent)
    : Type 0 where
  pub of_run : OfRun runs event
  pub supersedes :
      (previous : ℕ) → event.supersedes_id ≡ some previous → Supersedes older event previous
  pub new_id : All (λ (other : LedgerEvent). other.id ≢ event.id) older

-- Every event of the ledger, the newest first, is such an event over the ones before it.
abbrev pub IsLinked : List RunIdentity → List LedgerEvent → Type 0
IsLinked runs [] = Unit {0}
IsLinked runs (event ∷ older) = IsLink runs older event × IsLinked runs older

find_first-Mem {ℓ} :
    {A : Type ℓ} (p : A → Bool) (xs : List A) (a : A)
    → find_first p xs ≡ some a
    → Mem a xs × (p a ≡ true)
find_first-Mem p [] a h = cc
find_first-Mem p (x ∷ xs) a h = elim (Bool-cases (p x)) [
  | inl e ↦
      let same : x ≡ a = ground arith in
      (subst (λ y. Mem y (x ∷ xs)) same mem-cons_self, subst (λ y. p y ≡ true) same e)
  | inr e ↦ let rest = find_first-Mem p xs a (rw e at h) in (mem-cons_of_mem x rest.0, rest.1)
]

other_ids :
    (id : ℕ) (events : List LedgerEvent)
    → any (λ (other : LedgerEvent). other.id == id) events ≡ false
    → All (λ (other : LedgerEvent). other.id ≢ id) events
other_ids id [] h = tt
other_ids id (event ∷ events) h = (λ same. ground arith, other_ids id events (ground arith))

-- What `can_supersede` finds.
can_supersede-Supersedes :
    (command : AppendEvent) (events : List LedgerEvent) (previous : ℕ)
    → can_supersede command events ≡ true
    → command.supersedes_id ≡ some previous
    → (target : LedgerEvent) × Mem target events
      × (target.id ≡ previous)
      × (target.run_id ≡ command.run_id)
      × (target.invoice_id ≡ command.invoice_id)
unfolding can_supersede
can_supersede-Supersedes command events previous h e =
    elim (Option-cases (find_first (λ (event : LedgerEvent). event.id == previous) events)) [
      | inl missing ↦ absurd (ground arith)
      | inr (target, found) ↦
          let (is_there, same) =
            find_first-Mem (λ (event : LedgerEvent). event.id == previous) events target found in
          (target, is_there, ground arith, ground arith, ground arith)
    ]

staged-IsLink :
    (settings : VersionPins) (command : AppendEvent) (id now : ℕ) (runs : List RunIdentity)
    (events : List LedgerEvent) (event : LedgerEvent) (next : List LedgerEvent)
    → IsStaged settings command id now runs events event next
    → IsLink runs events event
staged-IsLink settings command id now runs events event next s =
    let (is_row, same_run) =
      find_first-Mem (λ (row : RunIdentity). row.run == command.run_id) runs s.identity
        s.run_is_there in
    subst (IsLink runs events) (sym s.is_event) (record {
      of_run = record {
        identity = s.identity;
        is_row = is_row;
        same_run = (==_iff s.identity.run command.run_id).0 same_run;
        same_invoice = s.same_invoice;
        same_graph = s.same_graph;
      };
      supersedes = λ previous names.
          let (target, is_older, is_previous, run, invoice) =
            can_supersede-Supersedes command events previous s.supersedes names in
          record {
            target = target;
            is_older = is_older;
            is_previous = is_previous;
            same_run = run;
            same_invoice = invoice;
          };
      new_id = other_ids id events s.fresh;
    })

-- If every event of the ledger belongs to a row of the runs with its invoice and graph version, has an id that no
-- older event has, and supersedes at most an older event of the same run and invoice, then all that holds of
-- the ledger that `append` leaves where it stages an event.
pub append-IsLinked :
    (settings : VersionPins) (in_transaction : Bool) (id now : ℕ) (command : AppendEvent)
    (runs : List RunIdentity) (events : List LedgerEvent) (event : LedgerEvent)
    (next : List LedgerEvent)
    → IsLinked runs events
    → append settings in_transaction id now command runs events ≡ staged event next
    → IsLinked runs next
append-IsLinked settings in_transaction id now command runs events event next h e =
    let s = append_staged settings in_transaction id now command runs events event next e in
    subst (IsLinked runs) (sym s.grows)
      ((staged-IsLink settings command id now runs events event next s, h))
