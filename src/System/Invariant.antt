-- ===== src/System/Invariant.antt =====
-- The invariants of the tables, along every sequence of transactions.
use mathlib.Core.Path.{subst}
use tally_agentic_memory.Prelude.{ℕ, ◌≡◌, ◌⊎◌, refl, sym, ap, inl, inr, String}
use tally_agentic_memory.Prelude.Json.{Json}
use tally_agentic_memory.Prelude.Python.{Python}
use tally_agentic_memory.Prelude.Result.{ok}
use tally_agentic_memory.Tables.{StoredInvoiceSource, Db}
use tally_agentic_memory.Events.Log.{
  Logs, quiet, Opened, ProjectsTo, IsNumbered, Logs-IsNumbered, Opened-IsNumbered, Any, Logs-weaken,
}
use tally_agentic_memory.Store.{insert_event}
use tally_agentic_memory.Tasks.Invariant.{Step-Logs}
use tally_agentic_memory.Tasks.Frame.{Step-Frame}
use tally_agentic_memory.Seal.Effects.{approve-Logs}
use tally_agentic_memory.Seal.Unique.{SealedTables, IsSealed, approve-IsSealed}
use tally_agentic_memory.Ingestion.Requests.{
  IngestionReservation, RequestCall, reserve_ingestion, record_source_stored,
  complete_duplicate_ingestion,
}
use tally_agentic_memory.Ingestion.Finalize.{
  FinalizeReceipt, opened_invoice, finalize_received_invoice,
}
use tally_agentic_memory.Ingestion.Effects.{reserve_cases, store_cases, link_cases, finalize_cases}
use tally_agentic_memory.Ingestion.Log.{
  AreApart, Logs-AreApart, opened_invoice-Opened, opened_invoice-AreApart,
}
use tally_agentic_memory.Correspondence.Sending.{send-Leaves}
use tally_agentic_memory.Correspondence.Replay.{draft-Leaves}
use tally_agentic_memory.System.History.{
  Change, extracts, approves, reserves, stores, links, finalizes, drafts, sends, History, begin,
  continue,
}

-- The ingestion, but for the finalisation, leaves the invoices, the events and the decisions.
abbrev Untouched : Db → Db → Type 0
Untouched db db' =
    (db'.invoices ≡ db.invoices)
    × (db'.events ≡ db.events)
    × (db'.approvals ≡ db.approvals)
    × (db'.decision_seals ≡ db.decision_seals)

same-Untouched : (db db' : Db) → db' ≡ db → Untouched db db'
same-Untouched db db' e = (
  ap (λ (d : Db). d.invoices) e,
  ap (λ (d : Db). d.events) e,
  ap (λ (d : Db). d.approvals) e,
  ap (λ (d : Db). d.decision_seals) e,
)

module _ (db db' : Db) where
  reserve-Untouched :
      (call : RequestCall) (invoice_id source_id : String) (v : IngestionReservation)
      → reserve_ingestion call invoice_id source_id db ≡ ok (v, db')
      → Untouched db db'
  reserve-Untouched call invoice_id source_id v h =
      elim (reserve_cases call invoice_id source_id db v db' h) [
        | inl (_, _, _, _, e) ↦ same-Untouched db db' e
        | inr (_, _, e) ↦ subst (Untouched db) (sym e) (refl, refl, refl, refl)
      ]

  store-Untouched :
      (call : RequestCall) (source : StoredInvoiceSource)
      → record_source_stored call source db ≡ ok (tt, db')
      → Untouched db db'
  store-Untouched call source h = elim (store_cases call source db db' h) [
    | inl e ↦ same-Untouched db db' e
    | inr (_, _, e) ↦ subst (Untouched db) (sym e) (refl, refl, refl, refl)
  ]

  link-Untouched :
      (call : RequestCall) (invoice_id source_id sha256 : String) (snapshot j : Json)
      → complete_duplicate_ingestion call invoice_id source_id sha256 snapshot db ≡ ok (j, db')
      → Untouched db db'
  link-Untouched call invoice_id source_id sha256 snapshot j h =
      elim (link_cases call invoice_id source_id sha256 snapshot db j db' h) [
        | inl (_, e) ↦ same-Untouched db db' e
        | inr (_, _, _, _, e) ↦ subst (Untouched db) (sym e) (refl, refl, refl, refl)
      ]

  -- The finalisation opens an invoice, or repeats an answer.
  finalize-Opened :
      (python : Python) (command : FinalizeReceipt) (task_id event_id : String) (now : ℕ) (j : Json)
      → finalize_received_invoice python command task_id event_id now db ≡ ok (j, db')
      → (db' ≡ db)
        ⊎ (Opened db db'
            × (AreApart db.invoices → AreApart db'.invoices)
            × (db'.approvals ≡ db.approvals)
            × (db'.decision_seals ≡ db.decision_seals))
  unfolding opened_invoice insert_event
  finalize-Opened python command task_id event_id now j h =
      elim (finalize_cases python command task_id event_id now db j db' h) [
        | inl (_, e) ↦ inl e
        | inr (r, (_, _, _, clear, _, e)) ↦
            let iid = r.reserved_invoice_id in
            let sid = r.reserved_source_id in
            inr (
              subst (Opened db) (sym e)
                  (opened_invoice-Opened python command task_id event_id now iid sid db clear),
              λ a.
                  subst (λ (d : Db). AreApart d.invoices) (sym e)
                    (opened_invoice-AreApart python command task_id event_id now iid sid db clear
                      a),
              ap (λ (d : Db). d.approvals) e,
              ap (λ (d : Db). d.decision_seals) e,
            )
      ]

-- What a transaction may do.
data Effect (db db' : Db) : Type 0 where
  advances :
      Logs Any db db'
      → db'.approvals ≡ db.approvals
      → db'.decision_seals ≡ db.decision_seals
      → Effect db db'
  seals : Logs Any db db' → (IsSealed db → IsSealed db') → Effect db db'
  opens :
      Opened db db'
      → (AreApart db.invoices → AreApart db'.invoices)
      → db'.approvals ≡ db.approvals
      → db'.decision_seals ≡ db.decision_seals
      → Effect db db'

Untouched-Effect : (db db' : Db) → Untouched db db' → Effect db db'
Untouched-Effect db db' (i, e, a, s) = advances (quiet i e) a s

Change-Effect : (db db' : Db) → Change db db' → Effect db db'
Change-Effect db db' (extracts d t) =
    let (a, s, _, _) = Step-Frame db db' t in
    advances (Logs-weaken ProjectsTo db db' (Step-Logs db db' t)) a s
Change-Effect db db' (approves python call ids now r d h) =
    seals (approve-Logs python call ids now db r db' h)
      (approve-IsSealed python call ids now db r db' h)
Change-Effect db db' (reserves call iid sid v d h) =
    Untouched-Effect db db' (reserve-Untouched db db' call iid sid v h)
Change-Effect db db' (stores call source d h) =
    Untouched-Effect db db' (store-Untouched db db' call source h)
Change-Effect db db' (links call iid sid sha256 snapshot j d h) =
    Untouched-Effect db db' (link-Untouched db db' call iid sid sha256 snapshot j h)
Change-Effect db db' (finalizes python command task_id event_id now j d h) =
    elim (finalize-Opened db db' python command task_id event_id now j h) [
      | inl e ↦ Untouched-Effect db db' (same-Untouched db db' e)
      | inr (o, a, p, s) ↦ opens o a p s
    ]
Change-Effect db db' (drafts python pack prose id d h) =
    let (l, (a, s, _, _)) = draft-Leaves python pack prose id db db' h in advances l a s
Change-Effect db db' (sends python call ids p r d q h) =
    let (l, (a, s, _, _)) = send-Leaves python call ids db p r db' q h in advances l a s

IsSealed-same :
    (db db' : Db)
    → db'.approvals ≡ db.approvals
    → db'.decision_seals ≡ db.decision_seals
    → IsSealed db
    → IsSealed db'
IsSealed-same db db' p s w =
    subst (λ x. SealedTables x db'.decision_seals) (sym p)
      (subst (SealedTables db.approvals) (sym s) w)

-- The tables are sound: the events are numbered, the invoices are apart, and the approvals have
-- their seals.
abbrev pub IsSound : Db → Type 0
IsSound db = IsNumbered db × (AreApart db.invoices × IsSealed db)

Effect-IsSound : (db db' : Db) → Effect db db' → IsSound db → IsSound db'
Effect-IsSound db db' (advances l p s) (n, (a, w)) =
    (Logs-IsNumbered Any db db' l n, (Logs-AreApart Any db db' l a, IsSealed-same db db' p s w))
Effect-IsSound db db' (seals l keeps) (n, (a, w)) =
    (Logs-IsNumbered Any db db' l n, (Logs-AreApart Any db db' l a, keeps w))
Effect-IsSound db db' (opens o apart p s) (n, (a, w)) =
    (Opened-IsNumbered db db' o n, (apart a, IsSealed-same db db' p s w))

-- From tables where the events of each invoice lie within its sequence and have different numbers,
-- no two invoices have one id or one digest, and every approval has its own recommendation and a
-- seal that says what was answered, with revisions that rise on each invoice, every sequence of
-- transactions of the ingestion, the extraction, the approval and the correspondence leads to such
-- tables.
pub History-IsSound : (before after : Db) → History before after → IsSound before → IsSound after
History-IsSound before after begin s = s
History-IsSound before after (continue mid last history change) s =
    Effect-IsSound mid after (Change-Effect mid after change) (History-IsSound before mid history s)
