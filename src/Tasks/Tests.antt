-- ===== src/Tasks/Tests.antt =====
-- One invoice whose extraction task is claimed, reclaimed after its lease expired, completed, and
-- in another history failed and retried; and the properties at these histories.
use tally_agentic_memory.Prelude.{
  ◌+◌, ◌*◌, ◌^◌, ◌≤◌, ℕ, ◌<◌, ◌≡◌, ◌↔◌, refl, String, Bool, true, false, Option, none, some, [],
  ◌∷◌, find, str_eq, arith,
}
use tally_agentic_memory.Prelude.Json.{Json}
use tally_agentic_memory.Prelude.Sort.{sort, insert}
use tally_agentic_memory.Prelude.Result.{Result, ok, err}
use tally_agentic_memory.Samples.{plain}
use tally_agentic_memory.Intake.{
  IntakeState, AggregateStatus, TaskState, status_value, pending, retry_wait,
  extract_invoice_claims, project_aggregate_status, task_input_fingerprint,
}
use tally_agentic_memory.Tables.{
  Task, Source, Invoice, Db, ExtractionTaskLease, ExtractionCompletion, ClaimValidation,
  RetryResult, passed,
}
use tally_agentic_memory.Store.{
  assert_current_lease, task_of, invoice_of, advanced, lock_invoice_and_advance, insert_event,
}
use tally_agentic_memory.Tasks.Claim.{
  claim_next_extraction_task, next_row, selected, claimable, source_of, claim_row, claimed,
  extraction_started,
}
use tally_agentic_memory.Tasks.Fail.{
  fail_extraction, ended, will_retry, failed_state, failed_intake_state, failed_status,
  extraction_ended,
}
use tally_agentic_memory.Tasks.Complete.{
  Ids, complete_extraction, joined, recorded, next_claim_set_version, hand_over, completed_task,
  reconstruction_task, claims_event, started_event,
}
use tally_agentic_memory.Tasks.Retry.{
  RetryCall, retry_extraction_task, retry_failed, reserved, previous_of, request_hash, retry_task,
  retry_event,
}
use tally_agentic_memory.Tasks.Keys.{Keyed}
use tally_agentic_memory.Tasks.Steps.{Step, claims, completes, done, next}
use tally_agentic_memory.Events.Log.{IsLogged}
use tally_agentic_memory.Tasks.Exclusive.{
  Refused, completed-Refused, failed-Refused, superseded-Refused,
}
use tally_agentic_memory.Tasks.Invariant.{Run-IsLogged}
use tally_agentic_memory.Tasks.Policy.{fail_policy}
use tally_agentic_memory.Tasks.Replay.{retry_replays}

abbrev task : Task
task = record {
  id = "T1";
  invoice_id = "I1";
  task_type = extract_invoice_claims;
  task_version = 1;
  state = pending;
  initiated_by = none;
  actor_display = "Ana";
  knowledge_cutoff_at = 5;
  input_fingerprint = "f";
  input_object_refs = Json.null;
  current_attempt = 0;
  lease_owner = none;
  lease_expires_at = none;
  not_before = none;
  started_at = none;
  completed_at = none;
  public_summary = "";
  private_error_code = none;
  created_at = 1;
  updated_at = 1;
}

abbrev source : Source
source = record {
  id = "S1";
  invoice_id = "I1";
  source_type = "INVOICE_PDF";
  display_filename = "invoice.pdf";
  mime_type = "application/pdf";
  preservation_status = "VERSION_VERIFIED";
  provenance_classification = "SYNTHETIC";
  public_disclosure = "";
  received_at = 1;
  stored = record {
    bucket_ref_private = "b";
    object_key_private = "k";
    version_id_private = "v";
    sha256 = "h";
    byte_length = 9;
  };
}

abbrev invoice : Invoice
invoice = record {
  id = "I1";
  carrier_id = "C1";
  invoice_no = none;
  s3_key = "k";
  sha256 = "h";
  source_version_id = "v";
  display_name = "invoice.pdf";
  received_at = 1;
  intake_state = IntakeState.received;
  aggregate_status = "RECEIVED";
  status = "RECEIVED";
  status_sequence = 1;
  row_version = 1;
  active_claim_set_version = none;
  updated_at = 1;
}

abbrev start : Db
start = record {
  tasks = task ∷ [];
  attempts = [];
  invoices = invoice ∷ [];
  sources = source ∷ [];
  events = [];
  outbox = [];
  extraction_runs = [];
  claim_sets = [];
  extracted_claims = [];
  retry_requests = [];
  recommendations = [];
  charged_day_judgments = [];
  reconstructions = [];
  applicable_rules = [];
  approvals = [];
  decision_seals = [];
  query_log = [];
  correspondence_drafts = [];
  send_attempts = [];
  send_gate_runs = [];
  ingestion_requests = [];
}

abbrev unlocked : String → Bool
unlocked id = false

-- The attempt that the second worker takes over.
abbrev lease : String → ℕ → ℕ → ExtractionTaskLease
lease worker attempt expires = record {
  task_id = "T1";
  invoice_id = "I1";
  source_id = "S1";
  attempt = attempt;
  worker_id = worker;
  lease_expires_at = expires;
  knowledge_cutoff_at = 5;
  source = source.stored;
  initiated_by = none;
  actor_display = "Ana";
}

abbrev first_lease : ExtractionTaskLease
first_lease = lease "w1" 1 90000010

abbrev second_lease : ExtractionTaskLease
second_lease = lease "w2" 2 180000020

-- The tables after a transaction that succeeds.
abbrev after {ℓ} : {A : Type ℓ} → Db → Result {ℓ} String (A × Db) → Db
after db (ok (a, db')) = db'
after db (err e) = db

abbrev after_claim : Db → Result {0} String (Option (ExtractionTaskLease × Db)) → Db
after_claim db (ok (some (l, db'))) = db'
after_claim db _ = db

abbrev claim_1 : Result {0} String (Option (ExtractionTaskLease × Db))
claim_1 = claim_next_extraction_task unlocked "w1" 90 "E1" 10 start

abbrev once : Db
once = after_claim start claim_1

abbrev claim_2 : Result {0} String (Option (ExtractionTaskLease × Db))
claim_2 = claim_next_extraction_task unlocked "w2" 90 "E2" 90000020 once

abbrev twice : Db
twice = after_claim once claim_2

abbrev ids : Ids
ids = record {
  extraction_run = "R1";
  claim_set = "C1";
  reconstruction_task = "T2";
  first_event = "E3";
  second_event = "E4";
}

abbrev clean : ClaimValidation
clean = record { claims = []; issue_codes = [] }

abbrev completion_1 : Result {0} String (ExtractionCompletion × Db)
completion_1 = complete_extraction plain ids second_lease clean "r" none 90000030 twice

abbrev finished : Db
finished = after twice completion_1

abbrev failure_1 : Result {0} String (TaskState × Db)
failure_1 = fail_extraction first_lease "SOURCE_GONE" false "E5" 20 once

abbrev broken : Db
broken = after once failure_1

abbrev call : RetryCall
call = record {
  invoice_id = "I1";
  idempotency_key = "again";
  expected_row_version = 3;
  initiated_by = none;
  actor_display = "Ana";
}

abbrev retry_1 : Result {0} String (RetryResult × Db)
retry_1 = retry_extraction_task plain call "T3" "E6" 30 broken

abbrev retried : Db
retried = after broken retry_1

claimed_1 : claim_1 ≡ ok (some (first_lease, once))
unfolding claim_next_extraction_task next_row selected claimable source_of claim_row claimed
    extraction_started sort insert lock_invoice_and_advance invoice_of advanced insert_event
claimed_1 = refl

claimed_2 : claim_2 ≡ ok (some (second_lease, twice))
unfolding claim_next_extraction_task next_row selected claimable source_of claim_row claimed
    extraction_started sort insert lock_invoice_and_advance invoice_of advanced insert_event
claimed_2 = refl

abbrev completion : ExtractionCompletion
completion = record {
  extraction_run_id = "R1";
  claim_set_id = "C1";
  claim_set_version = 1;
  reconstruction_task_id = some "T2";
  status = AggregateStatus.reconstructing;
}

completed_1 : completion_1 ≡ ok (completion, finished)
unfolding claim_next_extraction_task next_row selected claimable source_of claim_row claimed
    extraction_started sort insert lock_invoice_and_advance invoice_of advanced insert_event
    complete_extraction assert_current_lease task_of joined recorded next_claim_set_version
    hand_over completed_task reconstruction_task claims_event started_event passed
completed_1 = refl

failed_1 : failure_1 ≡ ok (TaskState.failed, broken)
unfolding claim_next_extraction_task next_row selected claimable source_of claim_row claimed
    extraction_started sort insert lock_invoice_and_advance invoice_of advanced insert_event
    fail_extraction assert_current_lease task_of ended will_retry failed_state failed_intake_state
    failed_status extraction_ended
failed_1 = refl

abbrev result : RetryResult
result = record { task_id = "T3"; task_version = 2; row_version = 4; replay = false }

retried_1 : retry_1 ≡ ok (result, retried)
unfolding claim_next_extraction_task next_row selected claimable source_of claim_row claimed
    extraction_started sort insert lock_invoice_and_advance invoice_of advanced insert_event
    fail_extraction assert_current_lease task_of ended will_retry failed_state failed_intake_state
    failed_status extraction_ended retry_extraction_task retry_failed reserved previous_of
    request_hash retry_task retry_event task_input_fingerprint
retried_1 = refl

once-Keyed : Keyed once.tasks
unfolding claim_next_extraction_task next_row selected claimable source_of claim_row claimed
    extraction_started sort insert lock_invoice_and_advance invoice_of advanced insert_event
once-Keyed = (tt, tt)

twice-Keyed : Keyed twice.tasks
unfolding claim_next_extraction_task next_row selected claimable source_of claim_row claimed
    extraction_started sort insert lock_invoice_and_advance invoice_of advanced insert_event
twice-Keyed = (tt, tt)

twice-fresh : (find (λ w. str_eq w.id "T2") twice.tasks) ≡ none
unfolding claim_next_extraction_task next_row selected claimable source_of claim_row claimed
    extraction_started sort insert lock_invoice_and_advance invoice_of advanced insert_event
twice-fresh = refl

claim-Step : Step start once
claim-Step = claims unlocked "w1" 90 "E1" 10 first_lease once claimed_1

start_projects : "RECEIVED" ≡ status_value (project_aggregate_status IntakeState.received false)
unfolding project_aggregate_status
start_projects = refl

superseded-Refused_example : Refused first_lease finished
superseded-Refused_example =
    superseded-Refused unlocked "w2" 90 "E2" 90000020 once second_lease first_lease twice finished
      once-Keyed claimed_2 refl (omega arith)
      (next twice finished done (
        completes plain ids second_lease clean "r" none 90000030 completion finished twice-fresh
          completed_1))

completed-Refused_example : Refused second_lease finished
completed-Refused_example =
    completed-Refused plain ids second_lease clean "r" none 90000030 twice completion finished
      finished twice-Keyed twice-fresh completed_1 done

failed-Refused_example : Refused first_lease broken
failed-Refused_example =
    failed-Refused first_lease "SOURCE_GONE" false "E5" 20 once TaskState.failed broken broken
      once-Keyed failed_1 done

Run-IsLogged_example : IsLogged once
Run-IsLogged_example =
    Run-IsLogged start once (next start once done claim-Step)
      ((tt, tt), ((start_projects, refl), tt))

fail_policy_example :
    (assert_current_lease once first_lease ≡ true)
    × ((TaskState.failed ≡ retry_wait) ↔ ((false ≡ true) × (first_lease.attempt < 3)))
    × ((w : Task) × (w' : Task) × (task_of once first_lease.task_id ≡ some w)
        × (task_of broken first_lease.task_id ≡ some w')
        × (w'.state ≡ TaskState.failed)
        × (w'.lease_owner ≡ none)
        × ((due : ℕ)
            → (claimable due w' ≡ true) ↔ (
                (w.task_type ≡ extract_invoice_claims)
                × (false ≡ true)
                × (first_lease.attempt < 3)
                × (20 + 2 ^ first_lease.attempt * 1000000 ≤ due))))
fail_policy_example =
    fail_policy first_lease "SOURCE_GONE" false "E5" 20 once TaskState.failed broken failed_1

retry_replays_example :
    retry_extraction_task plain call "T4" "E7" 40 retried
    ≡ ok (record result { replay = true }, retried)
retry_replays_example =
    retry_replays plain call "T3" "E6" "T4" "E7" 30 40 broken result retried retried_1 refl
