-- ===== src/Decisions/Signed.antt =====
-- What the decision service stores passes the check of the worker that settles it.
use invoice_ops.Prelude.{
  ℕ, ◌≡◌, refl, sym, ap, ◌∙◌, ◌⊎◌, ◌≢◌, inl, inr, Bool, true, false, Option, some, List, [], ◌∷◌,
  any, find_first, ◌==◌, ==_iff, eq_iff, str_eq, arith, if◌then◌else◌, Bool-cases,
}
use mathlib.Core.Path.{subst}
use invoice_ops.Decisions.{tables_after, decisions_of, submit, serve, serve_all}
use invoice_ops.Decisions.Rows.{
  analyst, manager, actor, DecisionRow, Tables, Call, Submitted, accepted, rejected,
}
use invoice_ops.Decisions.Accepted.{submit_accepted}
use invoice_ops.Decisions.FourEyes.{
  IsProposal, IsSignoff, IsSigned, IsFourEyes, serve_all-IsFourEyes,
}
use invoice_ops.Decisions.Settlement.{find_decision, find_proposal, is_signed_off}

-- No two decisions have the same id.
unfoldable pub HasDistinctIds : List DecisionRow → Type 0
HasDistinctIds [] = Unit {0}
HasDistinctIds (row ∷ rows) =
    (any (λ (other : DecisionRow). other.id == row.id) rows ≡ false) × HasDistinctIds rows

find_in_exception :
    (id exception_id : ℕ) (rows : List DecisionRow) (row : DecisionRow)
    → find_first (λ (r : DecisionRow). r.id == id) rows ≡ some row
    → row.exception_id ≡ exception_id
    → find_first (λ (r : DecisionRow). r.id == id) (decisions_of exception_id rows) ≡ some row
unfolding decisions_of
find_in_exception id exception_id [] row h e = ground arith
find_in_exception id exception_id (r ∷ rows) row h e =
    ground (arith, find_in_exception id exception_id rows row)

found_any :
    (id : ℕ) (rows : List DecisionRow) (row : DecisionRow)
    → find_first (λ (r : DecisionRow). r.id == id) rows ≡ some row
    → any (λ (r : DecisionRow). r.id == id) rows ≡ true
found_any id [] row h = ground arith
found_any id (r ∷ rows) row h = ground (arith, found_any id rows row)

find_kept :
    (id : ℕ) (r row : DecisionRow) (rows kept : List DecisionRow)
    → (find_first (λ (x : DecisionRow). x.id == id) kept ≡ some row
        → find_first (λ (x : DecisionRow). x.id == id) rows ≡ some row)
    → find_first (λ (x : DecisionRow). x.id == id) (r ∷ kept) ≡ some row
    → find_first (λ (x : DecisionRow). x.id == id) (r ∷ rows) ≡ some row
find_kept id r row rows kept f h = elim (Bool-cases (r.id == id)) [
  | inl e ↦ (let p = rw e at h in rw e p)
  | inr e ↦ (let p = rw e at h in rw e (f p))
]

find_skipped :
    (id : ℕ) (r row : DecisionRow) (rows : List DecisionRow)
    → any (λ (other : DecisionRow). other.id == r.id) rows ≡ false
    → find_first (λ (x : DecisionRow). x.id == id) rows ≡ some row
    → find_first (λ (x : DecisionRow). x.id == id) (r ∷ rows) ≡ some row
find_skipped id r row rows d f = elim (Bool-cases (r.id == id)) [
  | inl same ↦
      let no =
        ap (λ i. any (λ (o : DecisionRow). o.id == i) rows) (sym ((==_iff r.id id).0 same)) ∙ d in
      let there = found_any id rows row f in ground arith
  | inr other ↦ rw other f
]

find_in_all :
    (id exception_id : ℕ) (rows : List DecisionRow) (row : DecisionRow)
    → HasDistinctIds rows
    → find_first (λ (r : DecisionRow). r.id == id) (decisions_of exception_id rows) ≡ some row
    → find_first (λ (r : DecisionRow). r.id == id) rows ≡ some row
unfolding decisions_of HasDistinctIds
find_in_all id exception_id [] row d h = ground arith
find_in_all id exception_id (r ∷ rows) row d h =
    elim (Bool-cases (r.exception_id == exception_id)) [
      | inl e ↦
          find_kept id r row rows (decisions_of exception_id rows)
            (find_in_all id exception_id rows row d.1) (rw e at h)
      | inr e ↦
          find_skipped id r row rows d.0 (find_in_all id exception_id rows row d.1 (rw e at h))
    ]

absent_in_exception :
    (id exception_id : ℕ) (rows : List DecisionRow)
    → any (λ (r : DecisionRow). r.id == id) rows ≡ false
    → any (λ (r : DecisionRow). r.id == id) (decisions_of exception_id rows) ≡ false
unfolding decisions_of
absent_in_exception id exception_id [] h = refl
absent_in_exception id exception_id (r ∷ rows) h =
    ground (arith, absent_in_exception id exception_id rows)

distinct_if :
    (same : Bool) (r : DecisionRow) (rows : List DecisionRow)
    → any (λ (other : DecisionRow). other.id == r.id) rows ≡ false
    → HasDistinctIds rows
    → HasDistinctIds (if same then r ∷ rows else rows)
unfolding HasDistinctIds
distinct_if true r rows a d = (a, d)
distinct_if false r rows a d = d

distinct_in_exception :
    (exception_id : ℕ) (rows : List DecisionRow)
    → HasDistinctIds rows
    → HasDistinctIds (decisions_of exception_id rows)
unfolding HasDistinctIds decisions_of
distinct_in_exception exception_id [] d = d
distinct_in_exception exception_id (r ∷ rows) d =
    distinct_if (r.exception_id == exception_id) r (decisions_of exception_id rows)
      (absent_in_exception r.id exception_id rows d.0) (distinct_in_exception exception_id rows d.1)

str_distinct : str_eq (actor analyst) (actor manager) ≡ false
str_distinct = refl

actors_differ : actor analyst ≢ actor manager
actors_differ h =
    let p = sym str_distinct ∙ (eq_iff (actor analyst) (actor manager)).1 h in ground arith

signoff_passes :
    (s p : DecisionRow) (found : Option DecisionRow)
    → IsProposal p
    → IsSignoff s p
    → found ≡ some p
    → is_signed_off s found ≡ true
unfolding IsProposal IsSignoff is_signed_off
signoff_passes s p found h k e =
    let a = (eq_iff s.actor_id (actor manager)).1 k.0 in
    let b = (eq_iff p.actor_id (actor analyst)).1 h.0 in let c = k.1 in rw e (ground arith)

found_one :
    (id : ℕ) (p row : DecisionRow)
    → find_first (λ (r : DecisionRow). r.id == id) (p ∷ []) ≡ some row
    → p ≡ row
found_one id p row h = elim (Bool-cases (p.id == id)) [
  | inl e ↦ ground arith
  | inr e ↦ ground arith
]

found_two :
    (id : ℕ) (s p row : DecisionRow)
    → find_first (λ (r : DecisionRow). r.id == id) (s ∷ p ∷ []) ≡ some row
    → (s ≡ row) ⊎ (p ≡ row)
found_two id s p row h = elim (Bool-cases (s.id == id)) [
  | inl e ↦ inl (ground arith)
  | inr e ↦ inr (found_one id p row (rw e at h))
]

find_second :
    (s p : DecisionRow)
    → HasDistinctIds (s ∷ p ∷ [])
    → find_first (λ (r : DecisionRow). r.id == p.id) (s ∷ p ∷ []) ≡ some p
unfolding HasDistinctIds
find_second s p d = let here = (==_iff p.id p.id).1 refl in ground arith

not_proposal : (p row : DecisionRow) → IsProposal p → p ≡ row → row.actor_id ≢ actor manager
unfolding IsProposal
not_proposal p row h e m = actors_differ (sym h.0 ∙ (ap (λ (r : DecisionRow). r.actor_id) e ∙ m))

pair_passes :
    (s p : DecisionRow) (tables : Tables)
    → IsProposal p
    → IsSignoff s p
    → find_decision p.id tables ≡ some p
    → is_signed_off s (find_proposal s.supersedes_id tables) ≡ true
unfolding IsSignoff
pair_passes s p tables h k f = signoff_passes s p _ h k (ap (λ i. find_proposal i tables) k.1 ∙ f)

signed_passes :
    (decisions : List DecisionRow) (row : DecisionRow) (tables : Tables) (id : ℕ)
    → IsSigned decisions
    → HasDistinctIds decisions
    → ((p : DecisionRow)
        → find_first (λ (r : DecisionRow). r.id == p.id) decisions ≡ some p
        → find_decision p.id tables ≡ some p)
    → find_first (λ (r : DecisionRow). r.id == id) decisions ≡ some row
    → row.actor_id ≡ actor manager
    → is_signed_off row (find_proposal row.supersedes_id tables) ≡ true
unfolding IsSigned HasDistinctIds
signed_passes [] row tables id s d f h m = ground arith
signed_passes (p ∷ []) row tables id s d f h m =
    absurd (not_proposal p row s (found_one id p row h) m)
signed_passes (s ∷ p ∷ []) row tables id g d f h m = elim (found_two id s p row h) [
  | inl e ↦
      subst (λ (r : DecisionRow). is_signed_off r (find_proposal r.supersedes_id tables) ≡ true) e
        (pair_passes s p tables g.0 g.1 (f p (find_second s p d)))
  | inr e ↦ absurd (not_proposal p row g.0 e m)
]
signed_passes (s ∷ p ∷ q ∷ rest) row tables id g d f h m = absurd g

-- In a store that obeys the four-eyes rule and whose decisions have different ids, every stored decision of the
-- manager passes the signoff check of the worker.
stored-is_signed_off :
    (tables : Tables) (decision_id : ℕ) (row : DecisionRow)
    → IsFourEyes tables
    → HasDistinctIds tables.decisions
    → find_decision decision_id tables ≡ some row
    → row.actor_id ≡ actor manager
    → is_signed_off row (find_proposal row.supersedes_id tables) ≡ true
unfolding IsFourEyes
stored-is_signed_off tables decision_id row h d f m =
    signed_passes (decisions_of row.exception_id tables.decisions) row tables decision_id
      (h row.exception_id) (distinct_in_exception row.exception_id tables.decisions d)
      (λ p. find_in_all p.id row.exception_id tables.decisions p d)
      (find_in_exception decision_id row.exception_id tables.decisions row f refl) m

written-HasDistinctIds :
    (call : Call) (tables : Tables) (answer : Submitted)
    → submit call tables ≡ answer
    → HasDistinctIds tables.decisions
    → HasDistinctIds (tables_after tables answer).decisions
written-HasDistinctIds call tables (rejected error) e d = d
written-HasDistinctIds call tables (accepted response next) e d =
    elim (submit_accepted call tables response next e).outcome [
      | inl r ↦ subst (λ (t : Tables). HasDistinctIds t.decisions) (sym r.unchanged) d
      | inr w ↦
          subst (λ (t : Tables). HasDistinctIds t.decisions) (sym w.writes)
            (unfold HasDistinctIds in (w.id_is_new, d))
    ]

pub serve_all-HasDistinctIds :
    (calls : List Call) (tables : Tables)
    → HasDistinctIds tables.decisions
    → HasDistinctIds (serve_all calls tables).decisions
unfolding serve_all
serve_all-HasDistinctIds [] tables d = d
serve_all-HasDistinctIds (call ∷ calls) tables d =
    serve_all-HasDistinctIds calls (serve call tables)
      (unfold serve in written-HasDistinctIds call tables _ refl d)

pub empty-IsFourEyes : (tables : Tables) → tables.decisions ≡ [] → IsFourEyes tables
unfolding IsFourEyes
empty-IsFourEyes tables e exception_id =
    subst (λ (ds : List DecisionRow). IsSigned (decisions_of exception_id ds)) (sym e)
      (unfold IsSigned decisions_of in tt)

-- The service and the worker agree: after any calls on a store that has no decisions yet, every stored decision of the
-- manager is one that the worker takes for a valid independent signoff.
pub serve_all-is_signed_off :
    (calls : List Call) (tables : Tables) (decision_id : ℕ) (row : DecisionRow)
    → tables.decisions ≡ []
    → find_decision decision_id (serve_all calls tables) ≡ some row
    → row.actor_id ≡ actor manager
    → is_signed_off row (find_proposal row.supersedes_id (serve_all calls tables)) ≡ true
serve_all-is_signed_off calls tables decision_id row e f m =
    stored-is_signed_off (serve_all calls tables) decision_id row
      (serve_all-IsFourEyes calls tables (empty-IsFourEyes tables e))
      (serve_all-HasDistinctIds calls tables
        (unfold HasDistinctIds in subst HasDistinctIds (sym e) tt))
      f m
