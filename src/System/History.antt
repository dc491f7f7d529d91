-- ===== src/System/History.antt =====
-- One transaction of any part, and sequences of them.
use tally_agentic_memory.Prelude.{ℕ, ◌≡◌, String}
use tally_agentic_memory.Prelude.Json.{Json}
use tally_agentic_memory.Prelude.Python.{Python}
use tally_agentic_memory.Prelude.Result.{ok}
use tally_agentic_memory.Tables.{StoredInvoiceSource, Db}
use tally_agentic_memory.Tasks.Steps.{Step}
use tally_agentic_memory.Seal.Approve.{SealResult, ApprovalCall, SealIds, approve_and_seal}
use tally_agentic_memory.Ingestion.Requests.{
  IngestionReservation, RequestCall, reserve_ingestion, record_source_stored,
  complete_duplicate_ingestion,
}
use tally_agentic_memory.Ingestion.Finalize.{FinalizeReceipt, finalize_received_invoice}
use tally_agentic_memory.Correspondence.FactPack.{SealedFactPack}
use tally_agentic_memory.Correspondence.Provider.{Provider}
use tally_agentic_memory.Correspondence.Draft.{Prose, draft}
use tally_agentic_memory.Correspondence.Send.Emission.{SendResult, SendCall, SendIds}
use tally_agentic_memory.Correspondence.Send.{approve_and_send}

-- A transaction that succeeds.
pub data Change (db : Db) : Db → Type 0 where
  extracts : (db' : Db) → Step db db' → Change db db'
  approves :
      (python : Python) (call : ApprovalCall) (ids : SealIds) (now : ℕ) (r : SealResult) (db' : Db)
      → approve_and_seal python call ids now db ≡ ok (r, db')
      → Change db db'
  reserves :
      (call : RequestCall) (invoice_id source_id : String) (v : IngestionReservation) (db' : Db)
      → reserve_ingestion call invoice_id source_id db ≡ ok (v, db')
      → Change db db'
  stores :
      (call : RequestCall) (source : StoredInvoiceSource) (db' : Db)
      → record_source_stored call source db ≡ ok (tt, db')
      → Change db db'
  links :
      (call : RequestCall) (invoice_id source_id sha256 : String) (snapshot j : Json) (db' : Db)
      → complete_duplicate_ingestion call invoice_id source_id sha256 snapshot db ≡ ok (j, db')
      → Change db db'
  finalizes :
      (python : Python) (command : FinalizeReceipt) (task_id event_id : String) (now : ℕ) (j : Json)
      (db' : Db)
      → finalize_received_invoice python command task_id event_id now db ≡ ok (j, db')
      → Change db db'
  drafts :
      (python : Python) (pack : SealedFactPack) (prose : Prose) (id : String) (db' : Db)
      → (draft python pack prose id db).1 ≡ db'
      → Change db db'
  sends :
      (python : Python) (call : SendCall) (ids : SendIds) (p : Provider) (r : SendResult) (db' : Db)
      (q : Provider)
      → approve_and_send python call ids db p ≡ (ok (r, db'), q)
      → Change db db'

pub data History (before : Db) : Db → Type 0 where
  begin : History before before
  continue : (mid after : Db) → History before mid → Change mid after → History before after
