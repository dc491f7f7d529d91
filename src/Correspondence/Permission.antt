-- ===== src/Correspondence/Permission.antt =====
-- When a send is permitted, and what blocks it otherwise.
use tally_agentic_memory.Prelude.{
  ◌≡◌, ◌↔◌, refl, sym, ap, ◌∙◌, inl, inr, String, Bool, true, false, not, Option, none, some, List,
  [], ◌∷◌, map, All, arith, Bool-cases, Option-cases, is_some, if◌then◌else◌,
}
use tally_agentic_memory.Correspondence.Gates.{
  GateState, send_gates, GateResult, is_verified, get, result_for, gates_from, blocked_code,
  evaluate_send_gates,
}

module _ (results : List (String × GateResult)) where
  -- A gate ran, and its result is verified.
  abbrev pub Passed : String → Type 0
  Passed code = (r : GateResult) × (get results code ≡ some r) × (r.state ≡ GateState.verified)

  abbrev unmet : String → Bool
  unmet code = not (is_verified (result_for results code).state)

  is_verified_iff : (s : GateState) → (is_verified s ≡ true) ↔ (s ≡ GateState.verified)
  is_verified_iff GateState.verified = (λ h. refl, λ h. refl)
  is_verified_iff GateState.failed = (λ h. cc, λ h. cc)
  is_verified_iff GateState.not_run = (λ h. cc, λ h. cc)

  unmet-Passed : (code : String) → (unmet code ≡ false) ↔ Passed code
  unfolding result_for
  unmet-Passed code = elim (Option-cases (get results code)) [
    | inl e ↦ (λ h. absurd (ground (arith, h, e)), λ p. cc (e, p.1))
    | inr (r, e) ↦ (
      λ h. (r, e, (is_verified_iff r.state).0 (ground (arith, h, e))),
      λ p. ground (arith, p.1, (is_verified_iff p.0.state).1 p.2),
    )
  ]

  -- The code that the first gate which is not verified gives.
  abbrev pub first_blocked : List String → Option String
  first_blocked [] = none
  first_blocked (code ∷ codes) =
      let rest = first_blocked codes in
      if unmet code then some (blocked_code code (result_for results code).state) else rest

  reason_kept : (codes : List String) (c : String) → (gates_from results (some c) codes).1 ≡ some c
  unfolding gates_from
  reason_kept [] c = refl
  reason_kept (code ∷ codes) c = elim (Bool-cases (unmet code)) [
    | inl e ↦ rw e (reason_kept codes c)
    | inr e ↦ rw e (reason_kept codes c)
  ]

  reason_first : (codes : List String) → (gates_from results none codes).1 ≡ first_blocked codes
  unfolding gates_from
  reason_first [] = refl
  reason_first (code ∷ codes) = elim (Bool-cases (unmet code)) [
    | inl e ↦ rw e (reason_kept codes (blocked_code code (result_for results code).state))
    | inr e ↦ rw e (reason_first codes)
  ]

  ordered_map :
      (codes : List String) (b : Option String)
      → (gates_from results b codes).0 ≡ map (result_for results) codes
  unfolding gates_from
  ordered_map [] b = refl
  ordered_map (code ∷ codes) b = ap (λ rs. result_for results code ∷ rs) (ordered_map codes _)

  first_blocked-Passed : (codes : List String) → (first_blocked codes ≡ none) ↔ All Passed codes
  first_blocked-Passed [] = (λ h. tt, λ h. refl)
  first_blocked-Passed (code ∷ codes) =
      let (to, from) = first_blocked-Passed codes in
      let (a, b) = unmet-Passed code in
      (λ h. (a (ground (arith, h)), to (ground (arith, h))), λ h. ground (arith, b h.0, from h.1))

  unblocked_iff : (o : Option String) → (not (is_some o) ≡ true) ↔ (o ≡ none)
  unblocked_iff none = (λ h. refl, λ h. refl)
  unblocked_iff (some c) = (λ h. cc, λ h. cc)

  -- A send is permitted exactly if every gate of `SEND_GATES` ran and is verified; the decision
  -- reports every gate in that order, and the reason is that of the first one which is not verified.
  pub permitted-Passed :
      (((evaluate_send_gates results).permitted ≡ true) ↔ All Passed send_gates)
      × ((evaluate_send_gates results).gate_results ≡ map (result_for results) send_gates)
      × ((evaluate_send_gates results).blocked_reason ≡ first_blocked send_gates)
  unfolding evaluate_send_gates
  permitted-Passed =
      let reason = reason_first send_gates in
      let (to, from) = first_blocked-Passed send_gates in
      let none_iff = unblocked_iff (gates_from results none send_gates).1 in
      (
        (λ h. to (sym reason ∙ none_iff.0 h), λ h. none_iff.1 (reason ∙ from h)),
        ordered_map send_gates none,
        reason,
      )
