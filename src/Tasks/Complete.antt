-- ===== src/Tasks/Complete.antt =====
-- src/platform/intake_tasks.py: a worker hands in the validated claims of an extraction.
use tally_agentic_memory.Prelude.{
  ℕ, ◌+◌, ltb, ◌==◌, String, Bool, true, false, ◌&&◌, Option, none, some, List, [], ◌∷◌, ◌++◌, map,
  any, find, length, str_eq, if◌then◌else◌,
}
use tally_agentic_memory.Prelude.Int.{pos}
use tally_agentic_memory.Prelude.Json.{Json, cons, nil}
use tally_agentic_memory.Prelude.Python.{Python, concat}
use tally_agentic_memory.Prelude.Result.{Result, ok, err}
use tally_agentic_memory.Intake.{
  ready_for_reconstruction, required_field_missing, AggregateStatus, status_value, task_type_value,
  reconstructing, needs_evidence, TaskState, pending, validate_invoice_claims, start_reconstruction,
  task_input_fingerprint,
}
use tally_agentic_memory.Tables.{
  Task, Attempt, Source, Event, ClaimSet, ClaimValidation, passed, Db, ExtractionTaskLease,
  ExtractionCompletion,
}
use tally_agentic_memory.Store.{
  update_where, assert_current_lease, lock_invoice_and_advance, insert_event, object_ref, one_ref,
}
use tally_agentic_memory.Tasks.Fail.{is_leased, is_attempt}

-- The values of `uuid4()`, in the order of their use.
pub record Ids : Type 0 where
  pub extraction_run : String
  pub claim_set : String
  pub reconstruction_task : String
  pub first_event : String
  pub second_event : String

-- `SELECT COALESCE(max(claim_set_version), 0)`
abbrev pub max_version : String → List ClaimSet → ℕ
max_version invoice_id [] = 0
max_version invoice_id (c ∷ cs) =
    let rest = max_version invoice_id cs in
    if str_eq c.invoice_id invoice_id && ltb rest c.claim_set_version
    then c.claim_set_version
    else rest

unfoldable pub next_claim_set_version : Db → String → ℕ
next_claim_set_version db invoice_id = max_version invoice_id db.claim_sets + 1

-- The rows of the lease's source and attempt, which the `INSERT INTO extraction_runs` joins.
unfoldable pub joined : Db → ExtractionTaskLease → Option (Source × Attempt)
joined db lease = elim (find (λ s. str_eq s.id lease.source_id) db.sources) [
  | none ↦ none
  | some s ↦
      elim (find (λ a. str_eq a.task_id lease.task_id && a.attempt == lease.attempt) db.attempts) [
        | none ↦ none
        | some a ↦ some (s, a)
      ]
]

-- The row that the `UPDATE workflow_tasks` leaves.
unfoldable pub completed_task : Bool → ℕ → Task → Task
completed_task valid now w = record w {
  state = TaskState.completed;
  completed_at = some now;
  lease_owner = none;
  lease_expires_at = none;
  public_summary =
      if valid then "Carrier claims extracted and validated" else "Carrier claims require evidence";
  updated_at = now;
}

-- The unique key of `workflow_tasks`, which `ON CONFLICT` names.
abbrev pub is_reconstruction_of : String → String → Task → Bool
is_reconstruction_of invoice_id fingerprint w =
    str_eq w.invoice_id invoice_id
    && (elim w.task_type [ start_reconstruction ↦ true | _ ↦ false ]
        && (w.task_version == 1 && str_eq w.input_fingerprint fingerprint))

-- `ON CONFLICT … DO NOTHING`
abbrev pub insert_new : (Task → Bool) → Task → List Task → List Task
insert_new clash w ws = if any clash ws then ws else ws ++ w ∷ []

module _ (python : Python) (ids : Ids) (lease : ExtractionTaskLease) (validation : ClaimValidation)
    (now : ℕ) (version : ℕ) where
  abbrev pub source_ref : Json
  source_ref = object_ref "invoice_source" lease.source_id 1

  abbrev pub claim_set_ref : Json
  claim_set_ref = object_ref "claim_set" ids.claim_set version

  abbrev pub reconstruction_refs : Json
  reconstruction_refs = Json.arr (cons source_ref (cons claim_set_ref nil))

  -- The tables once the run, the claims and the end of the task are written.
  unfoldable pub recorded : Option String → String → Source → Attempt → Db → Db
  unfolding passed completed_task
  recorded provider_request_ref raw_response_sha256 s a db = record db {
    extraction_runs =
        record {
          id = ids.extraction_run;
          invoice_id = lease.invoice_id;
          source_id = lease.source_id;
          source_sha256 = s.stored.sha256;
          source_version_ref_private = s.stored.version_id_private;
          model_id = "us.anthropic.claude-sonnet-4-6";
          schema_version = "intake-claims.v1";
          template_version = "locked-inv-1048.v2";
          attempt = lease.attempt;
          requested_at = a.started_at;
          responded_at = now;
          provider_request_ref_private = provider_request_ref;
          raw_response_sha256 = raw_response_sha256;
          validated = passed validation;
          issue_codes = validation.issue_codes;
        }
        ∷ db.extraction_runs;
    claim_sets =
        record {
          id = ids.claim_set;
          invoice_id = lease.invoice_id;
          claim_set_version = version;
          extraction_run_id = ids.extraction_run;
          validated = passed validation;
          issue_codes = validation.issue_codes;
        }
        ∷ db.claim_sets;
    extracted_claims = map (λ c. (ids.claim_set, c)) validation.claims ++ db.extracted_claims;
    tasks = update_where (is_leased lease) (completed_task (passed validation) now) db.tasks;
    attempts =
        update_where (is_attempt lease)
          (λ b. record b { state = TaskState.completed; completed_at = some now }) db.attempts;
  }

  unfoldable pub reconstruction_task : Task
  reconstruction_task = record {
    id = ids.reconstruction_task;
    invoice_id = lease.invoice_id;
    task_type = start_reconstruction;
    task_version = 1;
    state = pending;
    initiated_by = lease.initiated_by;
    actor_display = lease.actor_display;
    knowledge_cutoff_at = lease.knowledge_cutoff_at;
    input_fingerprint = task_input_fingerprint python start_reconstruction reconstruction_refs;
    input_object_refs = reconstruction_refs;
    current_attempt = 0;
    lease_owner = none;
    lease_expires_at = none;
    not_before = none;
    started_at = none;
    completed_at = none;
    public_summary = "Waiting to reconstruct pre-invoice events";
    private_error_code = none;
    created_at = now;
    updated_at = now;
  }

  -- The event of the validated claims, and that of claims with issues.
  unfoldable pub claims_event : (ℕ → String) → Bool → ℕ → Event
  claims_event decimal valid sequence = record {
    id = ids.first_event;
    invoice_id = lease.invoice_id;
    sequence = sequence;
    event_type = if valid then "intake.claims_validated" else "intake.claims_need_evidence";
    occurred_at = now;
    role = "INTAKE_AGENT";
    task = task_type_value validate_invoice_claims;
    tool_display_name = none;
    state = if valid then TaskState.completed else TaskState.blocked;
    aggregate_status = status_value (if valid then reconstructing else needs_evidence);
    summary =
        if valid
        then concat (decimal (length validation.claims) ∷ " carrier claims validated" ∷ [])
        else "Required carrier claims need evidence";
    initiated_by = lease.initiated_by;
    actor_display = lease.actor_display;
    input_object_refs = one_ref source_ref;
    produced_object_refs = one_ref claim_set_ref;
    output_count = some (length validation.claims);
    public_error = none;
  }

  unfoldable pub started_event : ℕ → Event
  started_event sequence = record {
    id = ids.second_event;
    invoice_id = lease.invoice_id;
    sequence = sequence;
    event_type = "invoice.reconstruction_started";
    occurred_at = now;
    role = "INTAKE_AGENT";
    task = task_type_value start_reconstruction;
    tool_display_name = some "CockroachDB Managed MCP";
    state = pending;
    aggregate_status = status_value reconstructing;
    summary = "Invoice handed to pre-invoice reconstruction";
    initiated_by = lease.initiated_by;
    actor_display = lease.actor_display;
    input_object_refs = reconstruction_refs;
    produced_object_refs = one_ref (object_ref "workflow_task" ids.reconstruction_task 1);
    output_count = none;
    public_error = none;
  }

  abbrev completion : Option String → AggregateStatus → ExtractionCompletion
  completion task status = record {
    extraction_run_id = ids.extraction_run;
    claim_set_id = ids.claim_set;
    claim_set_version = version;
    reconstruction_task_id = task;
    status = status;
  }

  -- The last part of the transaction, where the claims passed and where they did not.
  unfoldable pub hand_over : Bool → Db → Option (ExtractionCompletion × Db)
  unfolding reconstruction_task claims_event started_event
  hand_over true db =
      let w = reconstruction_task in
      let handed : Db = record db {
        tasks = insert_new (is_reconstruction_of lease.invoice_id w.input_fingerprint) w db.tasks;
      } in
      elim (lock_invoice_and_advance lease.invoice_id ready_for_reconstruction
        (status_value reconstructing) 2 now (some version) handed) [
          | none ↦ none
          | some (sequence, advanced) ↦ some (
            completion (some ids.reconstruction_task) reconstructing,
            insert_event (started_event (sequence + 1))
                (insert_event (claims_event (λ n. python.decimal (pos n)) true sequence) advanced),
          )
        ]
  hand_over false db =
      elim (lock_invoice_and_advance lease.invoice_id required_field_missing
        (status_value needs_evidence) 1 now (some version) db) [
          | none ↦ none
          | some (sequence, advanced) ↦ some (
            completion none needs_evidence,
            insert_event (claims_event (λ n. python.decimal (pos n)) false sequence) advanced,
          )
        ]

-- Without a joined row, the claim set would name a run that is not there.
unfoldable pub complete_extraction :
    Python
    → Ids
    → ExtractionTaskLease
    → ClaimValidation
    → String
    → Option String
    → ℕ
    → Db
    → Result {0} String (ExtractionCompletion × Db)
unfolding joined recorded next_claim_set_version hand_over passed
complete_extraction python ids lease validation raw_response_sha256 provider_request_ref now db =
    let version = next_claim_set_version db lease.invoice_id in
    if assert_current_lease db lease
    then elim (joined db lease) [
      | none ↦ err "claim_sets_run_fk"
      | some (s, a) ↦
          let written =
            recorded python ids lease validation now version provider_request_ref
              raw_response_sha256 s a db in
          elim (hand_over python ids lease validation now version (passed validation) written) [
            | none ↦ err "INVOICE_NOT_FOUND"
            | some r ↦ ok r
          ]
    ]
    else err "TASK_LEASE_LOST"
