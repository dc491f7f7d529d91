-- ===== src/Rule/Least.antt =====
-- The least rank among validations, and whether their rates agree.
use mathlib.Core.Path.{subst}
use tally_agentic_memory.Prelude.{
  ◌≡◌, ◌≢◌, ◌↔◌, ◌⊎◌, inl, inr, refl, sym, ◌∙◌, ap, Bool, true, false, not, Option, none, some,
  List, [], ◌∷◌, filter, any, All, if◌then◌else◌, arith, Bool-cases,
}
use tally_agentic_memory.Prelude.Int.{ℤ, ltb_ℤ, eqb_ℤ_iff, ◌≤ℤ◌}
use tally_agentic_memory.Rule.Candidate.{RuleCandidate, CandidateValidation}
use tally_agentic_memory.Rule.Decide.{
  verified, rejected, conflicted, ApplicabilityDecision, same_rate, best_from, decide,
}

pub same_rate_iff : (a b : Option ℤ) → (same_rate a b ≡ true) ↔ (a ≡ b)
same_rate_iff none none = (λ h. refl, λ h. refl)
same_rate_iff none (some b) = (λ h. cc, λ h. cc)
same_rate_iff (some a) none = (λ h. cc, λ h. cc)
same_rate_iff (some a) (some b) =
    (λ h. ap some ((eqb_ℤ_iff a b).0 h), λ h. ground (arith, eqb_ℤ_iff a b))

-- One of the list.
abbrev pub Among : {A : Type 0} → A → List A → Type 0
Among a [] = ⊥
Among a (x ∷ xs) = (a ≡ x) ⊎ Among a xs

abbrev pub NoLower : CandidateValidation → List CandidateValidation → Type 0
NoLower best vs = All (λ v. best.candidate.rank ≤ℤ v.candidate.rank) vs

le_of_chain :
    (a b c : CandidateValidation)
    → a.candidate.rank ≤ℤ b.candidate.rank
    → b.candidate.rank ≤ℤ c.candidate.rank
    → a.candidate.rank ≤ℤ c.candidate.rank
le_of_chain a b c h k = omega arith

best_from-step :
    (v w : CandidateValidation) (vs : List CandidateValidation) (b : Bool)
    → ltb_ℤ w.candidate.rank v.candidate.rank ≡ b
    → best_from v (w ∷ vs) ≡ best_from (if b then w else v) vs
unfolding best_from
best_from-step v w vs b e = ap (λ c. best_from (if c then w else v) vs) e

best_from-nil : (v : CandidateValidation) → best_from v [] ≡ v
unfolding best_from
best_from-nil v = refl

abbrev pub Best : CandidateValidation → List CandidateValidation → Type 0
Best best vs = Among best vs × NoLower best vs

-- The best of a list is one of it, and none has a lower rank.
pub best_from_least :
    (v : CandidateValidation) (vs : List CandidateValidation) → Best (best_from v vs) (v ∷ vs)
best_from_least v [] =
    subst (λ b. Best b (v ∷ [])) (sym (best_from-nil v)) (inl refl, (omega arith, tt))
best_from_least v (w ∷ vs) = elim (Bool-cases (ltb_ℤ w.candidate.rank v.candidate.rank)) [
  | inl e ↦
      let (m, l) = best_from_least w vs in
      subst (λ b. Best b (v ∷ w ∷ vs)) (sym (best_from-step v w vs true e))
        (inr m, (le_of_chain (best_from w vs) w v l.0 (ground arith), l))
  | inr e ↦
      let (m, l) = best_from_least v vs in
      subst (λ b. Best b (v ∷ w ∷ vs)) (sym (best_from-step v w vs false e))
        (
          elim m [ inl k ↦ inl k | inr k ↦ inr (inr k) ],
          (l.0, (le_of_chain (best_from v vs) v w l.0 (ground arith), l.1)),
        )
]

pub Among-filter :
    (p : CandidateValidation → Bool) (v : CandidateValidation) (vs : List CandidateValidation)
    → Among v (filter p vs)
    → Among v vs × (p v ≡ true)
Among-filter p v [] m = absurd m
Among-filter p v (w ∷ vs) m = elim (Bool-cases (p w)) [
  | inl e ↦ elim (let n : Among v (w ∷ filter p vs) = rw e at m in n) [
    | inl k ↦ (inl k, rw k e)
    | inr k ↦ let (a, b) = Among-filter p v vs k in (inr a, b)
  ]
  | inr e ↦
      let n : Among v (filter p vs) = rw e at m in let (a, b) = Among-filter p v vs n in (inr a, b)
]

-- The validations after the first have its rate.
abbrev pub SameRates : CandidateValidation → List CandidateValidation → Type 0
SameRates v vs = All (λ w. w.rate_minor ≡ v.rate_minor) vs

-- One validation whose rate is not that of the first.
abbrev pub OtherRate : CandidateValidation → List CandidateValidation → Type 0
OtherRate v vs = (w : CandidateValidation) × Among w vs × (w.rate_minor ≢ v.rate_minor)

abbrev pub differs : CandidateValidation → CandidateValidation → Bool
differs v w = not (same_rate w.rate_minor v.rate_minor)

pub any-same :
    (v : CandidateValidation) (vs : List CandidateValidation)
    → any (differs v) vs ≡ false
    → SameRates v vs
any-same v [] h = tt
any-same v (w ∷ vs) h =
    ((same_rate_iff w.rate_minor v.rate_minor).0 (ground arith), any-same v vs (ground arith))

pub any-other :
    (v : CandidateValidation) (vs : List CandidateValidation)
    → any (differs v) vs ≡ true
    → OtherRate v vs
any-other v [] h = absurd (ground arith)
any-other v (w ∷ vs) h = elim (Bool-cases (same_rate w.rate_minor v.rate_minor)) [
  | inl e ↦ let (u, m, n) = any-other v vs (ground arith) in (u, inr m, n)
  | inr e ↦
      (w, inl refl, λ k. absurd (ground (arith, (same_rate_iff w.rate_minor v.rate_minor).1 k)))
]

pub SameRates-Among :
    (v : CandidateValidation) (vs : List CandidateValidation) (w : CandidateValidation)
    → SameRates v vs
    → Among w (v ∷ vs)
    → w.rate_minor ≡ v.rate_minor
SameRates-Among v vs w h (inl e) = ap (λ (u : CandidateValidation). u.rate_minor) e
SameRates-Among v [] w h (inr m) = absurd m
SameRates-Among v (x ∷ xs) w h (inr (inl e)) =
    ap (λ (u : CandidateValidation). u.rate_minor) e ∙ h.0
SameRates-Among v (x ∷ xs) w h (inr (inr m)) = SameRates-Among v xs w h.1 (inr m)

pub All-with :
    {P Q R : CandidateValidation → Type 0}
    → ((v : CandidateValidation) → P v → Q v → R v)
    → (vs : List CandidateValidation) → All P vs
    → All Q vs
    → All R vs
All-with f [] h k = tt
All-with f (v ∷ vs) h k = (f v h.0 k.0, All-with f vs h.1 k.1)

pub All-into :
    {P Q : RuleCandidate → Type 0}
    → ((c : RuleCandidate) → P c → Q c)
    → (cs : List RuleCandidate) → All P cs
    → All Q cs
All-into f [] h = tt
All-into f (c ∷ cs) h = (f c h.0, All-into f cs h.1)

abbrev pub conflict : List CandidateValidation → ApplicabilityDecision
conflict vs = record {
  state = conflicted;
  accepted = none;
  candidate_validations = vs;
  public_error = some "RULE_CONFLICT";
}

abbrev pub choice : List CandidateValidation → CandidateValidation → ApplicabilityDecision
choice vs v = record {
  state = verified;
  accepted = some v;
  candidate_validations = vs;
  public_error = none;
}

abbrev pub refusal : List CandidateValidation → ApplicabilityDecision
refusal vs = record {
  state = rejected;
  accepted = none;
  candidate_validations = vs;
  public_error = some "NO_APPLICABLE_RULE";
}

pub decide-none : (us : List CandidateValidation) → decide us [] ≡ refusal us
unfolding decide
decide-none us = refl

pub decide-conflict :
    (us : List CandidateValidation) (v : CandidateValidation) (vs : List CandidateValidation)
    → any (differs v) vs ≡ true
    → decide us (v ∷ vs) ≡ conflict us
unfolding decide
decide-conflict us v vs e = rw e refl

pub decide-choice :
    (us : List CandidateValidation) (v : CandidateValidation) (vs : List CandidateValidation)
    → any (differs v) vs ≡ false
    → decide us (v ∷ vs) ≡ choice us (best_from v vs)
unfolding decide
decide-choice us v vs e = rw e refl
