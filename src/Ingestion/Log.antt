-- ===== src/Ingestion/Log.antt =====
-- The ingestion's rows of the invoices and the events.
use mathlib.Core.Path.{subst}
use tally_agentic_memory.Prelude.{
  ℕ, ◌≡◌, ◌≢◌, refl, sym, String, false, none, List, [], ◌∷◌, ◌++◌, map, any, All, Pairwise,
  find-none, arith, str_eq, eq_iff,
}
use tally_agentic_memory.Prelude.Python.{Python}
use tally_agentic_memory.Intake.{IntakeState, project_aggregate_status}
use tally_agentic_memory.Tables.{Invoice, Db}
use tally_agentic_memory.Store.{insert_event, advanced}
use tally_agentic_memory.Events.Log.{Logs, Opened, Logs-kept}
use tally_agentic_memory.Ingestion.Finalize.{
  FinalizeReceipt, received_invoice, received_event, violated, opened_invoice,
}

-- What identifies an invoice: its id and the digest of its bytes.
abbrev pub identity : Invoice → String × String
identity i = (i.id, i.sha256)

abbrev pub Apart : String × String → String × String → Type 0
Apart a b = (a.0 ≢ b.0) × (a.1 ≢ b.1)

-- No two invoices have one id, nor one digest.
abbrev pub AreApart : List Invoice → Type 0
AreApart is = Pairwise Apart (map identity is)

pub Logs-AreApart :
    (Q : IntakeState → String → Type 0) (db db' : Db)
    → Logs Q db db'
    → AreApart db.invoices
    → AreApart db'.invoices
unfolding advanced
Logs-AreApart Q db db' l a =
    subst (Pairwise Apart) (sym (Logs-kept identity (λ s b k now c i. refl) Q db db' l)) a

All-append_last :
    (p : String × String) (is : List Invoice) (j : Invoice)
    → Apart p (identity j)
    → All (Apart p) (map identity is)
    → All (Apart p) (map identity (is ++ j ∷ []))
All-append_last p [] j a w = (a, tt)
All-append_last p (i ∷ is) j a (v, w) = (v, All-append_last p is j a w)

AreApart-append :
    (is : List Invoice) (j : Invoice)
    → any (λ (i : Invoice). str_eq i.id j.id) is ≡ false
    → any (λ (i : Invoice). str_eq i.sha256 j.sha256) is ≡ false
    → AreApart is
    → AreApart (is ++ j ∷ [])
AreApart-append [] j h k a = (tt, tt)
AreApart-append (i ∷ is) j h k (w, a) = (
  All-append_last (identity i) is j
      (
        λ e. absurd (ground (arith, h, (eq_iff i.id j.id).1 e)),
        λ e. absurd (ground (arith, k, (eq_iff i.sha256 j.sha256).1 e)),
      )
      w,
  AreApart-append is j (ground (arith, h)) (ground (arith, k)) a,
)

module _ (python : Python) (command : FinalizeReceipt) (task_id event_id : String) (now : ℕ)
    (invoice_id source_id : String) (db : Db)
    (clear : violated python command task_id event_id now invoice_id source_id db ≡ none) where
  abbrev row : Invoice
  row = received_invoice python command task_id event_id now invoice_id

  new_id : any (λ (i : Invoice). str_eq i.id invoice_id) db.invoices ≡ false
  unfolding violated
  new_id = ground (arith, clear)

  new_digest :
      any (λ (i : Invoice). str_eq i.sha256 command.stored_source.sha256) db.invoices ≡ false
  unfolding violated
  new_digest = ground (arith, clear)

  pub opened_invoice-Opened :
      Opened db (opened_invoice python command task_id event_id now invoice_id source_id db)
  unfolding opened_invoice insert_event received_invoice received_event project_aggregate_status
  opened_invoice-Opened = record {
    invoice = row;
    event = received_event python command task_id event_id now invoice_id source_id;
    absent = find-none (λ (i : Invoice). str_eq i.id invoice_id) db.invoices new_id;
    shows = refl;
    same = refl;
    own = refl;
    first = refl;
    reached_one = refl;
    invoices = refl;
    events = refl;
  }

  pub opened_invoice-AreApart :
      AreApart db.invoices
      → AreApart
          (opened_invoice python command task_id event_id now invoice_id source_id db).invoices
  unfolding opened_invoice insert_event received_invoice
  opened_invoice-AreApart a = AreApart-append db.invoices row new_id new_digest a
