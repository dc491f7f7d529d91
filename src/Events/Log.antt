-- ===== src/Events/Log.antt =====
-- What a transaction does to the invoices and their events, and the invariant that it keeps.
use mathlib.Core.Path.{subst}
use tally_agentic_memory.Prelude.{
  ℕ, ◌+◌, ◌≡◌, sym, String, false, Option, none, some, List, [], ◌∷◌, ◌++◌, map, ap, ◌∙◌, refl, inl,
  inr, Bool, true, Bool-cases, arith, str_eq,
}
use tally_agentic_memory.Intake.{IntakeState, project_aggregate_status, status_value}
use tally_agentic_memory.Tables.{Invoice, Event, Db}
use tally_agentic_memory.Store.{update_where, advanced}
use tally_agentic_memory.Events.Numbering.{
  invoice_at, Numbered, Projected, Numbered-one, Numbered-two, Projected-moved, Numbered-opened,
  Projected-append,
}

abbrev pub moved : String → IntakeState → String → ℕ → ℕ → Option ℕ → List Invoice → List Invoice
moved id s a k now c = update_where (λ j. str_eq j.id id) (advanced s a k now c)

-- A transaction writes no event, one, or two, and advances the invoice by as many. `Q` holds of the
-- state and the status that it writes.
pub data Logs (Q : IntakeState → String → Type 0) (db db' : Db) : Type 0 where
  quiet : db'.invoices ≡ db.invoices → db'.events ≡ db.events → Logs Q db db'
  one :
      (id : String) (s : IntakeState) (a : String) (now : ℕ) (c : Option ℕ) (i : Invoice)
      (e : Event)
      → invoice_at id db.invoices ≡ some i
      → Q s a
      → e.invoice_id ≡ id
      → e.sequence ≡ i.status_sequence + 1
      → db'.invoices ≡ moved id s a 1 now c db.invoices
      → db'.events ≡ e ∷ db.events
      → Logs Q db db'
  two :
      (id : String) (s : IntakeState) (a : String) (now : ℕ) (c : Option ℕ) (i : Invoice)
      (d e : Event)
      → invoice_at id db.invoices ≡ some i
      → Q s a
      → d.invoice_id ≡ id
      → e.invoice_id ≡ id
      → d.sequence ≡ i.status_sequence + 1
      → e.sequence ≡ i.status_sequence + 2
      → db'.invoices ≡ moved id s a 2 now c db.invoices
      → db'.events ≡ e ∷ d ∷ db.events
      → Logs Q db db'

-- Any state may show any status.
abbrev pub Any : IntakeState → String → Type 0
Any s a = Bool

pub Logs-weaken :
    (Q : IntakeState → String → Type 0) (db db' : Db) → Logs Q db db' → Logs Any db db'
Logs-weaken Q db db' (quiet h k) = quiet h k
Logs-weaken Q db db' (one id s a now c i e f p q n h k) = one id s a now c i e f true q n h k
Logs-weaken Q db db' (two id s a now c i d e f p q r m n h k) =
    two id s a now c i d e f true q r m n h k

-- A transaction opens an invoice with its first event.
pub record Opened (db db' : Db) : Type 0 where
  pub invoice : Invoice
  pub event : Event
  pub absent : invoice_at invoice.id db.invoices ≡ none
  pub shows :
      invoice.aggregate_status ≡ status_value (project_aggregate_status invoice.intake_state false)
  pub same : invoice.status ≡ invoice.aggregate_status
  pub own : event.invoice_id ≡ invoice.id
  pub first : event.sequence ≡ 1
  pub reached_one : invoice.status_sequence ≡ 1
  pub invoices : db'.invoices ≡ db.invoices ++ invoice ∷ []
  pub events : db'.events ≡ event ∷ db.events

-- The status that is written is the one that the intake state projects to.
abbrev pub ProjectsTo : IntakeState → String → Type 0
ProjectsTo s a = a ≡ status_value (project_aggregate_status s false)

abbrev pub IsNumbered : Db → Type 0
IsNumbered db = Numbered db.invoices db.events

-- The invariant of the invoices and the events.
abbrev pub IsLogged : Db → Type 0
IsLogged db = IsNumbered db × Projected db.invoices

moved_Numbered :
    (db' : Db) (is : List Invoice) (es : List Event)
    → db'.invoices ≡ is
    → db'.events ≡ es
    → Numbered is es
    → IsNumbered db'
moved_Numbered db' is es h k n =
    subst (λ x. Numbered x db'.events) (sym h) (subst (Numbered is) (sym k) n)

pub Logs-IsNumbered :
    (Q : IntakeState → String → Type 0) (db db' : Db)
    → Logs Q db db'
    → IsNumbered db
    → IsNumbered db'
Logs-IsNumbered Q db db' (quiet h k) l = moved_Numbered db' db.invoices db.events h k l
Logs-IsNumbered Q db db' (one id s a now c i e f p q n h k) l =
    moved_Numbered db' (moved id s a 1 now c db.invoices) (e ∷ db.events) h k
      (Numbered-one id s a 1 now c db.invoices i e db.events f q n (omega arith) l)
Logs-IsNumbered Q db db' (two id s a now c i d e f p q r m n h k) l =
    moved_Numbered db' (moved id s a 2 now c db.invoices) (e ∷ d ∷ db.events) h k
      (Numbered-two id s a 2 now c db.invoices i d e db.events f q r m n (omega arith) l)

pub Opened-IsNumbered : (db db' : Db) → Opened db db' → IsNumbered db → IsNumbered db'
Opened-IsNumbered db db' o l =
    moved_Numbered db' (db.invoices ++ o.invoice ∷ []) (o.event ∷ db.events) o.invoices o.events (
      Numbered-opened db.invoices o.invoice o.absent o.event db.events o.own o.first o.reached_one
        l)

pub Logs-Projected :
    (db db' : Db) → Logs ProjectsTo db db' → Projected db.invoices → Projected db'.invoices
Logs-Projected db db' (quiet h k) m = subst Projected (sym h) m
Logs-Projected db db' (one id s a now c i e f p q n h k) m =
    subst Projected (sym h) (Projected-moved id s a 1 now c p db.invoices m)
Logs-Projected db db' (two id s a now c i d e f p q r x n h k) m =
    subst Projected (sym h) (Projected-moved id s a 2 now c p db.invoices m)

pub Opened-Projected :
    (db db' : Db) → Opened db db' → Projected db.invoices → Projected db'.invoices
Opened-Projected db db' o m =
    subst Projected (sym o.invoices) (Projected-append db.invoices o.invoice o.shows o.same m)

pub Logs-IsLogged : (db db' : Db) → Logs ProjectsTo db db' → IsLogged db → IsLogged db'
Logs-IsLogged db db' l (n, p) = (Logs-IsNumbered ProjectsTo db db' l n, Logs-Projected db db' l p)

-- An advance leaves what it does not write.
kept-moved {ℓ} :
    {B : Type ℓ} (column : Invoice → B)
    → ((s : IntakeState) (a : String) (k now : ℕ) (c : Option ℕ) (i : Invoice)
        → column (advanced s a k now c i) ≡ column i)
    → (id : String) (s : IntakeState) (a : String) (k now : ℕ) (c : Option ℕ) (is : List Invoice)
    → map column (moved id s a k now c is) ≡ map column is
kept-moved column same id s a k now c [] = refl
kept-moved column same id s a k now c (i ∷ is) = elim (Bool-cases (str_eq i.id id)) [
  | inl e ↦
      let head : column (advanced s a k now c i) ≡ column i = same s a k now c i in
      rw (e, head, kept-moved column same id s a k now c is) refl
  | inr e ↦ rw (e, kept-moved column same id s a k now c is) refl
]

pub Logs-kept {ℓ} :
    {B : Type ℓ} (column : Invoice → B)
    → ((s : IntakeState) (a : String) (k now : ℕ) (c : Option ℕ) (i : Invoice)
        → column (advanced s a k now c i) ≡ column i)
    → (Q : IntakeState → String → Type 0) (db db' : Db) → Logs Q db db'
    → map column db'.invoices ≡ map column db.invoices
Logs-kept column same Q db db' (quiet h k) = ap (map column) h
Logs-kept column same Q db db' (one id s a now c i e f p q n h k) =
    ap (map column) h ∙ kept-moved column same id s a 1 now c db.invoices
Logs-kept column same Q db db' (two id s a now c i d e f p q r m n h k) =
    ap (map column) h ∙ kept-moved column same id s a 2 now c db.invoices
