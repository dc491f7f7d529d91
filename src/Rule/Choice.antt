-- ===== src/Rule/Choice.antt =====
-- What the decision over all candidates chooses, and when it refuses.
use mathlib.Core.Path.{subst}
use tally_agentic_memory.Prelude.{
  ◌≡◌, ◌≢◌, ◌↔◌, ◌⊎◌, inl, inr, refl, sym, ◌∙◌, ap, true, false, Option, none, some, List, [], ◌∷◌,
  map, filter, any, All, arith, Bool-cases,
}
use tally_agentic_memory.Prelude.Int.{ℤ, ◌≤ℤ◌}
use tally_agentic_memory.Rule.Candidate.{
  RuleCandidate, rate_minor_of, ApplicabilityQuery, CandidateState, CandidateValidation, Cases,
  validate_candidate,
}
use tally_agentic_memory.Rule.Decide.{
  verified, rejected, conflicted, ApplicabilityDecision, is_accepted, best_from, decide,
  decide_applicable_rule,
}
use tally_agentic_memory.Rule.Applicable.{IsApplicable, accepted-IsApplicable}
use tally_agentic_memory.Rule.Least.{
  Among, best_from_least, Among-filter, SameRates, OtherRate, differs, any-same, any-other,
  decide-none, decide-conflict, decide-choice, SameRates-Among, All-with, All-into,
}

module _ (cases : Cases) (query : ApplicabilityQuery) where
  abbrev pub validations : List RuleCandidate → List CandidateValidation
  validations = map (λ c. validate_candidate cases c query)

  validation_candidate : (c : RuleCandidate) → (validate_candidate cases c query).candidate ≡ c
  unfolding validate_candidate
  validation_candidate c = refl

  Among-validations :
      (v : CandidateValidation) (cs : List RuleCandidate)
      → Among v (validations cs)
      → Among v.candidate cs × (v ≡ validate_candidate cases v.candidate query)
  Among-validations v [] m = absurd m
  Among-validations v (c ∷ cs) (inl e) =
      let same : v.candidate ≡ c =
        ap (λ (w : CandidateValidation). w.candidate) e ∙ validation_candidate c in
      (inl same, e ∙ ap (λ d. validate_candidate cases d query) (sym same))
  Among-validations v (c ∷ cs) (inr m) = let (a, b) = Among-validations v cs m in (inr a, b)

  validation_rate :
      (c : RuleCandidate)
      → (validate_candidate cases c query).rate_minor ≡ rate_minor_of c.rate_amount
  unfolding validate_candidate
  validation_rate c = refl

  abbrev pub Applicable : RuleCandidate → Type 0
  Applicable c = IsApplicable cases c query

  is_accepted_iff :
      (s : CandidateState)
      → (elim s [ CandidateState.accepted ↦ true | _ ↦ false ] ≡ true)
        ↔ (s ≡ CandidateState.accepted)
  is_accepted_iff CandidateState.retrieved = (λ h. cc, λ h. cc)
  is_accepted_iff CandidateState.accepted = (λ h. refl, λ h. refl)
  is_accepted_iff CandidateState.rejected = (λ h. cc, λ h. cc)

  is_accepted-Applicable :
      (c : RuleCandidate) → (is_accepted (validate_candidate cases c query) ≡ true) ↔ Applicable c
  is_accepted-Applicable c =
      let (a, b) = is_accepted_iff (validate_candidate cases c query).state in
      let (d, e) = accepted-IsApplicable cases c query in (λ h. d (a h), λ h. b (e h))

  abbrev accepted_of : List RuleCandidate → List CandidateValidation
  accepted_of cs = filter is_accepted (validations cs)

  -- What holds of every accepted validation holds of every applicable candidate's.
  All-accepted :
      (P : CandidateValidation → Type 0) (cs : List RuleCandidate)
      → All P (accepted_of cs)
      → All (λ c. Applicable c → P (validate_candidate cases c query)) cs
  All-accepted P [] h = tt
  All-accepted P (c ∷ cs) h = elim (Bool-cases (is_accepted (validate_candidate cases c query))) [
    | inl e ↦
        let k : All P (validate_candidate cases c query ∷ accepted_of cs) = rw e at h in
        (λ _. k.0, All-accepted P cs k.1)
    | inr e ↦
        let k : All P (accepted_of cs) = rw e at h in
        (λ a. absurd (ground (arith, (is_accepted-Applicable c).1 a)), All-accepted P cs k)
  ]

  -- An accepted validation is that of an applicable candidate.
  Among-accepted :
      (v : CandidateValidation) (cs : List RuleCandidate)
      → Among v (accepted_of cs)
      → Among v.candidate cs
        × Applicable v.candidate
        × (v ≡ validate_candidate cases v.candidate query)
  Among-accepted v cs m =
      let (n, a) = Among-filter is_accepted v (validations cs) m in
      let (o, e) = Among-validations v cs n in
      (o, (is_accepted-Applicable v.candidate).0 (subst (λ w. is_accepted w ≡ true) e a), e)

  abbrev rate_of : RuleCandidate → Option ℤ
  rate_of c = rate_minor_of c.rate_amount

  accepted_rate :
      (v : CandidateValidation)
      → v ≡ validate_candidate cases v.candidate query
      → v.rate_minor ≡ rate_of v.candidate
  accepted_rate v e = ap (λ (w : CandidateValidation). w.rate_minor) e ∙ validation_rate v.candidate

  -- The three ways a decision can fall.
  abbrev pub Refused : List RuleCandidate → Type 0
  Refused cs = All (λ c. ¬ Applicable c) cs

  abbrev pub Conflicting : List RuleCandidate → Type 0
  Conflicting cs =
      (c : RuleCandidate) × (d : RuleCandidate) × (Among c cs × Applicable c)
      × (Among d cs × Applicable d)
      × (rate_of c ≢ rate_of d)

  -- The chosen candidate has the rate of every applicable one and the least rank among them.
  abbrev pub Chosen : List RuleCandidate → RuleCandidate → Type 0
  Chosen cs c =
      Among c cs
      × Applicable c
      × All (λ d. Applicable d → (rate_of d ≡ rate_of c) × (c.rank ≤ℤ d.rank)) cs

  abbrev pub DecidesBy : List RuleCandidate → ApplicabilityDecision → Type 0
  DecidesBy cs decision =
      ((decision.state ≡ rejected)
        × (decision.accepted ≡ none)
        × (decision.public_error ≡ some "NO_APPLICABLE_RULE")
        × Refused cs)
      ⊎ (((decision.state ≡ conflicted)
            × (decision.accepted ≡ none)
            × (decision.public_error ≡ some "RULE_CONFLICT")
            × Conflicting cs)
          ⊎ ((decision.state ≡ verified)
              × (decision.public_error ≡ none)
              × ((c : RuleCandidate) × (decision.accepted ≡ some (validate_candidate cases c query))
                  × Chosen cs c)))

  abbrev Fits : CandidateValidation → CandidateValidation → Type 0
  Fits b w = (w.rate_minor ≡ b.rate_minor) × (b.candidate.rank ≤ℤ w.candidate.rank)

  best-Fits :
      (v : CandidateValidation) (vs : List CandidateValidation)
      → SameRates v vs
      → All (Fits (best_from v vs)) (v ∷ vs)
  best-Fits v vs h =
      let (m, l) = best_from_least v vs in
      let same = SameRates-Among v vs (best_from v vs) h m in
      All-with {P = λ w. w.rate_minor ≡ v.rate_minor} (λ w e k. (e ∙ sym same, k)) (v ∷ vs)
        (refl, h) l

  Fits-candidate :
      (b : CandidateValidation) (c : RuleCandidate)
      → b ≡ validate_candidate cases b.candidate query
      → Fits b (validate_candidate cases c query)
      → (rate_of c ≡ rate_of b.candidate) × (b.candidate.rank ≤ℤ c.rank)
  Fits-candidate b c e (h, k) = (
    sym (validation_rate c) ∙ h ∙ accepted_rate b e,
    subst (λ (d : RuleCandidate). b.candidate.rank ≤ℤ d.rank) (validation_candidate c) k,
  )

  best-Chosen :
      (cs : List RuleCandidate) (v : CandidateValidation) (vs : List CandidateValidation)
      → v ∷ vs ≡ accepted_of cs
      → SameRates v vs
      → (best_from v vs ≡ validate_candidate cases (best_from v vs).candidate query)
        × Chosen cs (best_from v vs).candidate
  best-Chosen cs v vs e h =
      let b = best_from v vs in
      let (m, a, same) = Among-accepted b cs (subst (Among b) e (best_from_least v vs).0) in
      let fits = All-accepted (Fits b) cs (subst (All (Fits b)) e (best-Fits v vs h)) in
      (same, (m, a, All-into (λ c f x. Fits-candidate b c same (f x)) cs fits))

  Conflicting-other :
      (cs : List RuleCandidate) (v : CandidateValidation) (vs : List CandidateValidation)
      → v ∷ vs ≡ accepted_of cs
      → OtherRate v vs
      → Conflicting cs
  Conflicting-other cs v vs e (w, m, n) =
      let (mw, aw, ew) = Among-accepted w cs (subst (Among w) e (inr m)) in
      let (mv, av, ev) = Among-accepted v cs (subst (Among v) e (inl refl)) in
      (
        w.candidate,
        v.candidate,
        (mw, aw),
        (mv, av),
        λ k. n (accepted_rate w ew ∙ k ∙ sym (accepted_rate v ev)),
      )

  decide-DecidesBy :
      (cs : List RuleCandidate) (us xs : List CandidateValidation)
      → xs ≡ accepted_of cs
      → DecidesBy cs (decide us xs)
  decide-DecidesBy cs us [] e =
      subst (DecidesBy cs) (sym (decide-none us))
        (inl (refl, refl, refl, All-accepted (λ _. ⊥) cs (subst (All (λ _. ⊥)) e tt)))
  decide-DecidesBy cs us (v ∷ vs) e = elim (Bool-cases (any (differs v) vs)) [
    | inl h ↦
        subst (DecidesBy cs) (sym (decide-conflict us v vs h))
          (inr (inl (refl, refl, refl, Conflicting-other cs v vs e (any-other v vs h))))
    | inr h ↦
        let (same, chosen) = best-Chosen cs v vs e (any-same v vs h) in
        subst (DecidesBy cs) (sym (decide-choice us v vs h))
          (inr (inr (refl, refl, ((best_from v vs).candidate, ap some same, chosen))))
  ]

  -- A decision is one of three. It refuses if no candidate is applicable, it is in conflict if two
  -- applicable candidates have different rates, and otherwise it accepts the validation of an
  -- applicable candidate whose rate all applicable candidates have and whose rank none of them beats.
  pub decision_exact :
      (candidates : List RuleCandidate)
      → DecidesBy candidates (decide_applicable_rule cases candidates query)
  unfolding decide_applicable_rule
  decision_exact cs = decide-DecidesBy cs (validations cs) (accepted_of cs) refl
