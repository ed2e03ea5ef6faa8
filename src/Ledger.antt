-- ===== src/Ledger.antt =====
-- ledger/writer.py, ledger/schemas.py and ledger/settings.py: events that are appended to the audit ledger inside the
-- caller's transaction. The tables `public.runs` and `public.ledger` are lists, the newest event first; the id and the
-- time of a new event are arguments. Faults of the database connection are not modelled.
pub mod Ordering
pub mod Sequence
pub mod Staging
pub mod Links
pub mod Paging
pub mod Reader
pub mod Pages
pub mod History
pub mod InvoiceHistory
use invoice_ops.Prelude.{
  ℕ, ◌+◌, max, Bool, true, false, Option, none, some, List, [], ◌∷◌, String, any, find_first, not,
  ◌&&◌, ◌||◌, ◌==◌, str_eq, if◌then◌else◌,
}
use invoice_ops.Schemas.Review.{ReviewAction, ReviewDecision}

pub record VersionPins : Type 0 where
  pub graph_version : String
  pub model_version : String
  pub prompt_version : String
  pub policy_version : String

pub record VersionOverrides : Type 0 where
  pub graph : Option String
  pub model : Option String
  pub prompt : Option String
  pub policy : Option String

pub data ActorType : Type 0 where
  system agent human policy_actor : ActorType

-- The payloads are JSON; those that the code reads back have constructors of their own.
pub data Payload : Type 0 where
  decision : ℕ → ℕ → ReviewAction → String → String → Option ℕ → Payload
  review : ReviewDecision → Payload
  auto_granted : String → Payload
  archived : String → Payload
  rejected : String → Payload
  dead_letter : ℕ → ℕ → String → Bool → Payload
  redrive_request : String → String → String → ℕ → ℕ → Payload
  json : String → Payload

pub record AppendEvent : Type 0 where
  pub run_id : ℕ
  pub invoice_id : ℕ
  pub event_type : String
  pub actor_type : ActorType
  pub actor_id : String
  pub payload : Payload
  pub node : Option String
  pub supersedes_id : Option ℕ
  pub versions : Option VersionOverrides

pub record LedgerEvent : Type 0 where
  pub id : ℕ
  pub run_id : ℕ
  pub invoice_id : ℕ
  pub sequence : ℕ
  pub event_type : String
  pub actor_type : ActorType
  pub actor_id : String
  pub payload : Payload
  pub node : Option String
  pub supersedes_id : Option ℕ
  pub versions : VersionPins
  pub created_at : ℕ

-- The columns of `public.runs` that are read here.
pub record RunIdentity : Type 0 where
  pub run : ℕ
  pub invoice_id : ℕ
  pub graph_version : String

pub data LedgerError : Type 0 where
  transaction_required run_not_found identity_mismatch conflict : LedgerError

pub data Appended : Type 0 where
  staged : LedgerEvent → List LedgerEvent → Appended
  refused : LedgerError → Appended

-- `values.update(overrides.model_dump(exclude_none=True))`
abbrev pub overridden : Option String → String → String
overridden none value = value
overridden (some other) value = other

-- `LedgerSettings.resolve`
unfoldable pub resolve : VersionPins → Option VersionOverrides → VersionPins
resolve settings none = settings
resolve settings (some overrides) = record {
  graph_version = overridden overrides.graph settings.graph_version;
  model_version = overridden overrides.model settings.model_version;
  prompt_version = overridden overrides.prompt settings.prompt_version;
  policy_version = overridden overrides.policy settings.policy_version;
}

-- `COALESCE(MAX(sequence), 0)` over the events of a run.
unfoldable pub max_sequence : ℕ → List LedgerEvent → ℕ
max_sequence run_id [] = 0
max_sequence run_id (event ∷ events) =
    let rest = max_sequence run_id events in
    if event.run_id == run_id then max event.sequence rest else rest

-- `_check_supersession`: whether the superseded event belongs to this invoice and run.
unfoldable pub can_supersede : AppendEvent → List LedgerEvent → Bool
can_supersede command events = elim command.supersedes_id [
  | none ↦ true
  | some previous ↦ elim (find_first (λ (event : LedgerEvent). event.id == previous) events) [
    | none ↦ false
    | some event ↦ event.run_id == command.run_id && event.invoice_id == command.invoice_id
  ]
]

abbrev pub event_of : VersionPins → ℕ → ℕ → ℕ → AppendEvent → LedgerEvent
event_of versions id now sequence command = record {
  id = id;
  run_id = command.run_id;
  invoice_id = command.invoice_id;
  sequence = sequence;
  event_type = command.event_type;
  actor_type = command.actor_type;
  actor_id = command.actor_id;
  payload = command.payload;
  node = command.node;
  supersedes_id = command.supersedes_id;
  versions = versions;
  created_at = now;
}

-- `_append` once the row of the run is found; an id that is taken violates the primary key.
unfoldable pub append_to :
    VersionPins → ℕ → ℕ → AppendEvent → RunIdentity → List LedgerEvent → Appended
append_to versions id now command identity events =
    if not (identity.invoice_id == command.invoice_id)
      || not (str_eq identity.graph_version versions.graph_version)
    then refused identity_mismatch
    else if not (can_supersede command events)
    then refused identity_mismatch
    else if any (λ (event : LedgerEvent). event.id == id) events
    then refused conflict
    else let event = event_of versions id now (max_sequence command.run_id events + 1) command in
      staged event (event ∷ events)

-- `LedgerWriter.append`
unfoldable pub append :
    VersionPins → Bool → ℕ → ℕ → AppendEvent → List RunIdentity → List LedgerEvent → Appended
append settings in_transaction id now command runs events =
    if not in_transaction
    then refused transaction_required
    else elim (find_first (λ (identity : RunIdentity). identity.run == command.run_id) runs) [
      | none ↦ refused run_not_found
      | some identity ↦ append_to (resolve settings command.versions) id now command identity events
    ]
