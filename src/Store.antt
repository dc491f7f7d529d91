-- ===== src/Store.antt =====
-- src/platform/intake_tasks.py: the statements that its transactions share.
use tally_agentic_memory.Prelude.{
  ℕ, ◌+◌, ◌==◌, String, Bool, true, false, ◌&&◌, Option, none, some, List, [], ◌∷◌, find, str_eq,
  if◌then◌else◌,
}
use tally_agentic_memory.Prelude.Int.{pos}
use tally_agentic_memory.Prelude.Json.{Json, nil, cons, field, end}
use tally_agentic_memory.Intake.{IntakeState, TaskState}
use tally_agentic_memory.Tables.{Task, Invoice, Event, Db, ExtractionTaskLease}

-- `UPDATE … SET f WHERE p`
abbrev pub update_where : {A : Type 0} → (A → Bool) → (A → A) → List A → List A
update_where p f [] = []
update_where p f (x ∷ xs) = (if p x then f x else x) ∷ update_where p f xs

abbrev pub is_running : TaskState → Bool
is_running s = elim s [ TaskState.running ↦ true | _ ↦ false ]

abbrev pub is_owner : Option String → String → Bool
is_owner none worker_id = false
is_owner (some owner) worker_id = str_eq owner worker_id

unfoldable pub task_of : Db → String → Option Task
task_of db task_id = find (λ w. str_eq w.id task_id) db.tasks

unfoldable pub invoice_of : Db → String → Option Invoice
invoice_of db invoice_id = find (λ i. str_eq i.id invoice_id) db.invoices

abbrev pub holds : ExtractionTaskLease → Task → Bool
holds lease w =
    is_running w.state
    && (w.current_attempt == lease.attempt && is_owner w.lease_owner lease.worker_id)

-- `false` is its `TaskLeaseLostError`.
unfoldable pub assert_current_lease : Db → ExtractionTaskLease → Bool
unfolding task_of
assert_current_lease db lease = elim (task_of db lease.task_id) [
  | none ↦ false
  | some w ↦ holds lease w
]

-- The row that the `UPDATE invoices` leaves.
unfoldable pub advanced : IntakeState → String → ℕ → ℕ → Option ℕ → Invoice → Invoice
advanced intake_state status increment occurred_at claim_set i = record i {
  intake_state = intake_state;
  aggregate_status = status;
  status = status;
  status_sequence = i.status_sequence + increment;
  row_version = i.row_version + 1;
  active_claim_set_version = elim claim_set [ none ↦ i.active_claim_set_version | some v ↦ some v ];
  updated_at = occurred_at;
}

-- The first free sequence number and the new tables; `none` is its `INVOICE_NOT_FOUND`. Its callers
-- pass one value as `aggregate_status` and `status`.
unfoldable pub lock_invoice_and_advance :
    String → IntakeState → String → ℕ → ℕ → Option ℕ → Db → Option (ℕ × Db)
unfolding advanced invoice_of
lock_invoice_and_advance invoice_id intake_state status increment occurred_at claim_set db =
    elim (invoice_of db invoice_id) [
      | none ↦ none
      | some i ↦ some (
        i.status_sequence + 1,
        record db {
          invoices =
              update_where (λ j. str_eq j.id invoice_id)
                (advanced intake_state status increment occurred_at claim_set) db.invoices;
        },
      )
    ]

unfoldable pub insert_event : Event → Db → Db
insert_event event db = record db {
  events = event ∷ db.events;
  outbox =
      record {
        invoice_id = event.invoice_id;
        event_id = event.id;
        available_at = event.occurred_at;
      }
      ∷ db.outbox;
}

-- `{"type": …, "id": …, "version": …}`
abbrev pub object_ref : String → String → ℕ → Json
object_ref kind id version = Json.obj (
    field "type" (Json.str kind)
      (field "id" (Json.str id) (field "version" (Json.int (pos version)) end)))

abbrev pub one_ref : Json → Json
one_ref r = Json.arr (cons r nil)

abbrev pub no_refs : Json
no_refs = Json.arr nil
