-- ===== src/Tasks/Claim.antt =====
-- src/platform/intake_tasks.py: a worker takes the next extraction task. The transactions are
-- serializable, so each is one step; `locked` are the tasks whose rows another one holds.
use tally_agentic_memory.Prelude.{
  ℕ, ◌+◌, ◌*◌, ltb, leb, ◌==◌, String, Bool, true, false, not, ◌&&◌, ◌||◌, Option, none, some, List,
  [], ◌∷◌, find, str_eq, if◌then◌else◌,
}
use tally_agentic_memory.Prelude.Text.{codes}
use tally_agentic_memory.Prelude.Time.{codes_le}
use tally_agentic_memory.Prelude.Sort.{sort}
use tally_agentic_memory.Prelude.Result.{Result, ok, err}
use tally_agentic_memory.Intake.{
  IntakeState, AggregateStatus, TaskType, status_value, task_type_value, pending, leased, running,
  retry_wait, extract_invoice_claims,
}
use tally_agentic_memory.Tables.{Task, Source, Event, Db, ExtractionTaskLease}
use tally_agentic_memory.Store.{
  update_where, lock_invoice_and_advance, insert_event, object_ref, one_ref, no_refs,
}

abbrev pub is_extraction : TaskType → Bool
is_extraction t = elim t [ extract_invoice_claims ↦ true | _ ↦ false ]

-- The `WHERE` on the task.
unfoldable pub claimable : ℕ → Task → Bool
claimable now w = is_extraction w.task_type && elim w.state [
  | pending ↦ true
  | retry_wait ↦ elim w.not_before [ none ↦ true | some t ↦ leb t now ]
  | leased ↦ elim w.lease_expires_at [ none ↦ false | some t ↦ ltb t now ]
  | running ↦ elim w.lease_expires_at [ none ↦ false | some t ↦ ltb t now ]
  | _ ↦ false
]

-- The `JOIN`: the index `invoice_sources_primary_idx` leaves at most one source of that type.
unfoldable pub source_of : Db → Task → Option Source
source_of db w =
    find (λ s. str_eq s.invoice_id w.invoice_id && str_eq s.source_type "INVOICE_PDF") db.sources

unfoldable pub selected : (String → Bool) → ℕ → Db → List Task → List (Task × Source)
unfolding claimable source_of
selected locked now db [] = []
selected locked now db (w ∷ ws) =
    let rest = selected locked now db ws in
    if claimable now w && not (locked w.id)
    then elim (source_of db w) [ none ↦ rest | some s ↦ (w, s) ∷ rest ]
    else rest

-- `ORDER BY w.created_at, w.id`
abbrev pub row_le : Task × Source → Task × Source → Bool
row_le (v, _) (w, _) =
    ltb v.created_at w.created_at
    || (v.created_at == w.created_at && codes_le (codes v.id) (codes w.id))

abbrev pub first : List (Task × Source) → Option (Task × Source)
first [] = none
first (r ∷ rs) = some r

-- The row of the `SELECT`.
unfoldable pub next_row : (String → Bool) → ℕ → Db → Option (Task × Source)
unfolding selected
next_row locked now db = first (sort row_le (selected locked now db db.tasks))

-- The row that the `UPDATE workflow_tasks` leaves.
unfoldable pub claimed : String → ℕ → ℕ → ℕ → Task → Task
claimed worker_id attempt started_at lease_expires_at w = record w {
  state = running;
  current_attempt = attempt;
  lease_owner = some worker_id;
  lease_expires_at = some lease_expires_at;
  started_at = elim w.started_at [ none ↦ some started_at | some t ↦ some t ];
  updated_at = started_at;
}

unfoldable pub extraction_started : String → ℕ → Task → Source → ℕ → Event
extraction_started event_id now w s sequence = record {
  id = event_id;
  invoice_id = w.invoice_id;
  sequence = sequence;
  event_type = "intake.extraction_started";
  occurred_at = now;
  role = "INTAKE_AGENT";
  task = task_type_value extract_invoice_claims;
  tool_display_name = some "Amazon Bedrock";
  state = running;
  aggregate_status = status_value AggregateStatus.initial_processing;
  summary = "Carrier claim extraction started";
  initiated_by = w.initiated_by;
  actor_display = w.actor_display;
  input_object_refs = one_ref (object_ref "invoice_source" s.id 1);
  produced_object_refs = no_refs;
  output_count = none;
  public_error = none;
}

-- The effect for the selected row; the error is that of `_lock_invoice_and_advance`.
unfoldable pub claim_row :
    String → ℕ → String → ℕ → Task → Source → Db → Result {0} String (ExtractionTaskLease × Db)
unfolding claimed extraction_started
claim_row worker_id lease_seconds event_id now w s db =
    let attempt = w.current_attempt + 1 in
    let lease_expires_at = now + lease_seconds * 1000000 in
    let taken : Db = record db {
      tasks =
          update_where (λ v. str_eq v.id w.id) (claimed worker_id attempt now lease_expires_at)
            db.tasks;
      attempts =
          record {
            task_id = w.id;
            attempt = attempt;
            state = running;
            lease_owner = worker_id;
            lease_expires_at = lease_expires_at;
            started_at = now;
            completed_at = none;
            private_error_code = none;
          }
          ∷ db.attempts;
    } in
    let lease : ExtractionTaskLease = record {
      task_id = w.id;
      invoice_id = w.invoice_id;
      source_id = s.id;
      attempt = attempt;
      worker_id = worker_id;
      lease_expires_at = lease_expires_at;
      knowledge_cutoff_at = w.knowledge_cutoff_at;
      source = s.stored;
      initiated_by = w.initiated_by;
      actor_display = w.actor_display;
    } in
    elim (lock_invoice_and_advance w.invoice_id IntakeState.initial_processing
      (status_value AggregateStatus.initial_processing) 1 now none taken) [
        | none ↦ err "INVOICE_NOT_FOUND"
        | some (sequence, advanced) ↦
            ok (lease, insert_event (extraction_started event_id now w s sequence) advanced)
      ]

-- `none` is a poll that finds no task.
unfoldable pub claim_next_extraction_task :
    (String → Bool)
    → String
    → ℕ
    → String
    → ℕ
    → Db
    → Result {0} String (Option (ExtractionTaskLease × Db))
claim_next_extraction_task locked worker_id lease_seconds event_id now db =
    elim (next_row locked now db) [
      | none ↦ ok none
      | some (w, s) ↦ elim (claim_row worker_id lease_seconds event_id now w s db) [
        | ok r ↦ ok (some r)
        | err e ↦ err e
      ]
    ]
