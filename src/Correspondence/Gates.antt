-- ===== src/Correspondence/Gates.antt =====
-- src/core/correspondence.py: the evaluation of the send gates.
use tally_agentic_memory.Prelude.{
  String, Bool, true, false, not, ◌&&◌, Option, none, some, List, [], ◌∷◌, str_eq, is_some,
  if◌then◌else◌,
}
use tally_agentic_memory.Prelude.Python.{concat}

pub data GateState : Type 0 where
  verified failed not_run : GateState

-- `SEND_GATES`
abbrev pub send_gates : List String
send_gates =
    "SECOND_AUTHORIZATION" ∷ "LOCKED_FIELDS" ∷ "APPROVED_MEMORY_MCP" ∷ "VECTOR_CLAUSE_BINDING"
    ∷ "EXACT_S3_SOURCE" ∷ "NO_FALLBACK" ∷ []

pub record GateResult : Type 0 where
  pub gate_code : String
  pub state : GateState
  pub detail : Option String

pub record SendDecision : Type 0 where
  pub permitted : Bool
  pub gate_results : List GateResult
  pub blocked_reason : Option String

abbrev pub is_verified : GateState → Bool
is_verified s = elim s [ GateState.verified ↦ true | _ ↦ false ]

abbrev blocked_of : String → String
blocked_of gate_code =
    if str_eq gate_code "SECOND_AUTHORIZATION"
    then "SEND_BLOCKED_AUTHORIZATION"
    else if str_eq gate_code "LOCKED_FIELDS"
    then "SEND_BLOCKED_LOCKED_FIELDS"
    else if str_eq gate_code "APPROVED_MEMORY_MCP"
    then "SEND_BLOCKED_MEMORY"
    else if str_eq gate_code "VECTOR_CLAUSE_BINDING"
    then "SEND_BLOCKED_VECTOR"
    else if str_eq gate_code "EXACT_S3_SOURCE"
    then "SEND_BLOCKED_SOURCE"
    else if str_eq gate_code "NO_FALLBACK"
    then "SEND_BLOCKED_FALLBACK"
    else concat ("SEND_BLOCKED:" ∷ gate_code ∷ [])

unfoldable pub blocked_code : String → GateState → String
blocked_code gate_code state = elim state [
  | not_run ↦ concat ("GATE_NOT_RUN:" ∷ gate_code ∷ [])
  | _ ↦ blocked_of gate_code
]

-- `results.get(code)`, of a dictionary by its items.
abbrev pub get : List (String × GateResult) → String → Option GateResult
get [] code = none
get ((key, result) ∷ results) code = if str_eq key code then some result else get results code

unfoldable pub result_for : List (String × GateResult) → String → GateResult
result_for results code = elim (get results code) [
  | none ↦ record { gate_code = code; state = not_run; detail = some "gate not run" }
  | some result ↦ result
]

-- The loop, with the reason so far.
unfoldable pub gates_from :
    List (String × GateResult) → Option String → List String → List GateResult × Option String
unfolding result_for blocked_code
gates_from results blocked_reason [] = ([], blocked_reason)
gates_from results blocked_reason (code ∷ codes) =
    let result = result_for results code in
    let reason =
      if not (is_verified result.state) && not (is_some blocked_reason)
      then some (blocked_code code result.state)
      else blocked_reason in
    let (ordered, last) = gates_from results reason codes in (result ∷ ordered, last)

unfoldable pub evaluate_send_gates : List (String × GateResult) → SendDecision
unfolding gates_from
evaluate_send_gates results =
    let (ordered, blocked_reason) = gates_from results none send_gates in
    record {
      permitted = not (is_some blocked_reason);
      gate_results = ordered;
      blocked_reason = blocked_reason;
    }
