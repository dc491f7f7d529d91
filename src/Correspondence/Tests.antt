-- ===== src/Correspondence/Tests.antt =====
-- Results of the gates, and the property at them.
use tally_agentic_memory.Prelude.{◌≡◌, ◌↔◌, refl, String, true, none, some, List, [], ◌∷◌, map, All}
use tally_agentic_memory.Correspondence.Gates.{
  GateState, send_gates, GateResult, result_for, evaluate_send_gates,
}
use tally_agentic_memory.Correspondence.Permission.{Passed, first_blocked, permitted-Passed}

abbrev gate : String → GateState → String × GateResult
gate code state = (code, record { gate_code = code; state = state; detail = none })

abbrev one_failed : List (String × GateResult)
one_failed =
    gate "LOCKED_FIELDS" GateState.failed
    ∷ gate "SECOND_AUTHORIZATION" GateState.verified
    ∷ gate "NO_FALLBACK" GateState.verified
    ∷ []

blocked_test : (evaluate_send_gates one_failed).blocked_reason ≡ some "SEND_BLOCKED_LOCKED_FIELDS"
unfolding evaluate_send_gates
blocked_test = refl

permitted-Passed_example :
    (((evaluate_send_gates one_failed).permitted ≡ true) ↔ All (Passed one_failed) send_gates)
    × ((evaluate_send_gates one_failed).gate_results ≡ map (result_for one_failed) send_gates)
    × ((evaluate_send_gates one_failed).blocked_reason ≡ first_blocked one_failed send_gates)
permitted-Passed_example = permitted-Passed one_failed
