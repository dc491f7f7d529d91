-- ===== src/Correspondence/Fresh.antt =====
-- src/platform/send_gates.py: the fresh checks of an invoice's lineage.
use tally_agentic_memory.Prelude.{
  ltb, String, Bool, false, Option, none, some, List, [], ◌∷◌, find, str_eq, if◌then◌else◌,
}
use tally_agentic_memory.Tables.{Db}
use tally_agentic_memory.Tables.Decisions.{ReconstructionRow, RuleRow}
use tally_agentic_memory.Ingestion.Requests.{is_pdf_of}
use tally_agentic_memory.Correspondence.Gates.{GateState, GateResult, failed}

abbrev pub verified_if : Bool → GateState
verified_if ok = if ok then GateState.verified else failed

-- `ORDER BY version DESC LIMIT 1`
abbrev pub latest_of : String → List ReconstructionRow → Option ReconstructionRow
latest_of invoice_id [] = none
latest_of invoice_id (r ∷ rows) =
    let rest = latest_of invoice_id rows in
    if str_eq r.invoice_id invoice_id
    then elim rest [ none ↦ some r | some s ↦ if ltb r.version s.version then some s else some r ]
    else rest

unfoldable pub mcp_gate : Db → String → GateResult
mcp_gate db invoice_id =
    let complete : Bool = elim (latest_of invoice_id db.reconstructions) [
      | none ↦ false
      | some r ↦ str_eq r.state "COMPLETE"
    ] in
    record {
      gate_code = "APPROVED_MEMORY_MCP";
      state = verified_if complete;
      detail = some (if complete then "reconstruction complete" else "no complete memory");
    }

-- The `SELECT` has no order: the first rule of the invoice.
unfoldable pub vector_gate : Db → String → GateResult
vector_gate db invoice_id = record {
  gate_code = "VECTOR_CLAUSE_BINDING";
  state =
      verified_if
        (elim (find (λ (r : RuleRow). str_eq r.invoice_id invoice_id) db.applicable_rules) [
          | none ↦ false
          | some r ↦ str_eq r.validation_state "VERIFIED"
        ]);
  detail = none;
}

unfoldable pub source_gate : Db → String → GateResult
source_gate db invoice_id = record {
  gate_code = "EXACT_S3_SOURCE";
  state = verified_if (elim (find (is_pdf_of invoice_id) db.sources) [
    | none ↦ false
    | some s ↦ str_eq s.preservation_status "VERSION_VERIFIED"
  ]);
  detail = none;
}

abbrev pub no_fallback_gate : GateResult
no_fallback_gate = record {
  gate_code = "NO_FALLBACK";
  state = GateState.verified;
  detail = some "no substitute used";
}

-- The results of the checks, by their codes.
unfoldable pub build_fresh_gate_checks : Db → String → List (String × GateResult)
unfolding mcp_gate vector_gate source_gate
build_fresh_gate_checks db invoice_id =
    ("APPROVED_MEMORY_MCP", mcp_gate db invoice_id)
    ∷ ("VECTOR_CLAUSE_BINDING", vector_gate db invoice_id)
    ∷ ("EXACT_S3_SOURCE", source_gate db invoice_id)
    ∷ ("NO_FALLBACK", no_fallback_gate)
    ∷ []
