-- ===== src/Rule/Applicable.antt =====
-- What an accepted candidate proves, and what its rejection says.
use mathlib.Core.Path.{subst}
use tally_agentic_memory.Prelude.{
  ℕ, ◌≤◌, ◌≡◌, ◌↔◌, ◌⊎◌, inl, inr, refl, sym, ◌∙◌, String, Bool, true, false, not, ◌&&◌, Option,
  none, some, List, [], ◌∷◌, ◌++◌, all, All, is_some, eq_iff, if◌then◌else◌, arith, Option-cases,
  all_sound, all_complete,
}
use tally_agentic_memory.Prelude.Int.{ℤ}
use tally_agentic_memory.Prelude.Text.{
  contains, contains_sound, contains_complete, codes_eq, codes_eq_sound, codes_eq_refl,
}
use tally_agentic_memory.Rule.Candidate.{
  RuleCandidate, ApplicabilityQuery, accepted, CandidateValidation, Cases, mark, verified,
  failed_of, results_of, verdict_of, validate_candidate, normalize, norm_unit, rate_minor_of,
  covers_date, covers_all_dates, scope_matches, optional_match, version_ok, text_ok, currency_ok,
  unit_ok,
}

verified-mark : (b : Bool) → verified (some (mark b)) ≡ b
unfolding verified mark
verified-mark true = refl
verified-mark false = refl

-- The names of the flags that are not set.
abbrev pub failing : List (Bool × String) → List String
failing [] = []
failing ((b, v) ∷ flags) = let rest = failing flags in if not b then v ∷ rest else rest

abbrev Set : List (Bool × String) → Type 0
Set = All (λ f. f.0 ≡ true)

failing-nil : (flags : List (Bool × String)) → (failing flags ≡ []) ↔ Set flags
failing-nil [] = (λ h. tt, λ h. refl)
failing-nil ((b, v) ∷ flags) =
    let (to, from) = failing-nil flags in
    (λ h. (ground arith, to (ground arith)), λ h. ground (arith, h.0, from h.1))

module _ (cases : Cases) (candidate : RuleCandidate) (query : ApplicabilityQuery) where
  -- The nine conditions, in the order of `VALIDATORS`.
  abbrev pub flags : List (Bool × String)
  flags =
      (version_ok cases candidate, "source_version")
      ∷ (text_ok cases candidate query, "exact_text")
      ∷ (is_some (rate_minor_of candidate.rate_amount), "exact_rate")
      ∷ (currency_ok cases candidate query, "currency")
      ∷ (unit_ok cases candidate query, "unit")
      ∷ (covers_all_dates candidate query.charged_dates, "effective_date")
      ∷ (scope_matches candidate query, "scope")
      ∷ (not candidate.superseded, "supersession")
      ∷ (is_some candidate.effective_from && unit_ok cases candidate query, "boundary_semantics")
      ∷ []

  pub failed-flags : failed_of (results_of cases candidate query) ≡ failing flags
  unfolding failed_of results_of
  failed-flags = simp verified-mark

  abbrev pub validation : CandidateValidation
  validation = validate_candidate cases candidate query

  abbrev UpTo : Option ℕ → ℕ → Type 0
  UpTo none d = Unit
  UpTo (some to) d = d ≤ to

  -- A scope that the query names must be the candidate's, or not be restricted by it.
  abbrev pub Compatible : Option String → Option String → Type 0
  Compatible asked given = (asked ≡ none) ⊎ ((asked ≡ some "") ⊎ ((given ≡ none) ⊎ (given ≡ asked)))

  -- What applicability means, read off the clause.
  pub record IsApplicable : Type 0 where
    pub version : candidate.verification_status ≡ "VERIFIED"
    pub current : candidate.superseded ≡ false
    pub phrase :
        (before : List ℕ) × (after : List ℕ) × (normalize cases candidate.clause_text
          ≡ before ++ (normalize cases query.expected_rate_phrase ++ after))
    pub rate : (r : ℤ) × (rate_minor_of candidate.rate_amount ≡ some r)
    pub currency :
        cases.upper (elim candidate.rate_currency [ none ↦ "" | some c ↦ c ])
        ≡ cases.upper query.invoice_currency
    pub unit : norm_unit cases candidate.rate_unit ≡ norm_unit cases (some query.expected_unit)
    pub effective :
        (from : ℕ) × (candidate.effective_from ≡ some from)
        × All (λ d. (from ≤ d) × UpTo candidate.effective_to d) query.charged_dates
    pub scope : candidate.scope_code ≡ query.scope_code
    pub equipment : Compatible query.equipment_type candidate.equipment_type
    pub route : Compatible query.route_code candidate.route_code

  covers_iff :
      (from d : ℕ)
      → (covers_date candidate from d ≡ true) ↔ ((from ≤ d) × UpTo candidate.effective_to d)
  unfolding covers_date
  covers_iff from d = (λ h. ground arith, λ h. ground (arith, h.0, h.1))

  abbrev pub Covers : ℕ → Type 0
  Covers from = All (λ d. (from ≤ d) × UpTo candidate.effective_to d) query.charged_dates

  effective_iff :
      (o : Option ℕ)
      → (elim o [ none ↦ false | some from ↦ all (covers_date candidate from) query.charged_dates ]
          ≡ true)
        ↔ ((from : ℕ) × (o ≡ some from) × Covers from)
  effective_iff none = (λ h. cc, λ h. cc (h.1))
  effective_iff (some from) = (
    λ h. (from, refl, all_sound _ _ (λ d. (covers_iff from d).0) _ h),
    λ h.
        let same : h.0 ≡ from = cc (h.1) in
        all_complete _ _ (λ d. (covers_iff from d).1) _ (subst Covers same h.2),
  )

  pub Covers-all_iff :
      (covers_all_dates candidate query.charged_dates ≡ true)
      ↔ ((from : ℕ) × (candidate.effective_from ≡ some from) × Covers from)
  unfolding covers_all_dates
  Covers-all_iff = effective_iff candidate.effective_from

  pub Compatible-iff :
      (asked given : Option String) → (optional_match asked given ≡ true) ↔ Compatible asked given
  unfolding optional_match
  Compatible-iff none given = (λ h. inl refl, λ h. refl)
  Compatible-iff (some asked) none = (λ h. inr (inr (inl refl)), λ h. ground (arith))
  Compatible-iff (some asked) (some g) = (
    λ h. ground (arith, eq_iff asked "", eq_iff g asked),
    λ h. ground (arith, h, eq_iff asked "", eq_iff g asked),
  )

  pub accepted-nil : (fs : List String) → ((verdict_of cases fs).0 ≡ accepted) ↔ (fs ≡ [])
  unfolding verdict_of
  accepted-nil [] = (λ h. refl, λ h. refl)
  accepted-nil (f ∷ fs) = (λ h. cc, λ h. cc)

  pub accepted-flags : (validation.state ≡ accepted) ↔ Set flags
  unfolding validate_candidate
  accepted-flags =
      let (to, from) = accepted-nil (failed_of (results_of cases candidate query)) in
      (
        λ h. (failing-nil flags).0 (sym failed-flags ∙ to h),
        λ h. from (failed-flags ∙ (failing-nil flags).1 h),
      )

  flags→IsApplicable : Set flags → IsApplicable
  unfolding scope_matches
  flags→IsApplicable (v, (t, (r, (c, (u, (e, (s, (n, (b, _))))))))) = record {
    version = (eq_iff candidate.verification_status "VERIFIED").0 v;
    current = ground arith;
    phrase = contains_sound _ _ t;
    rate = elim (Option-cases (rate_minor_of candidate.rate_amount)) [
      | inl k ↦ absurd (ground arith)
      | inr k ↦ k
    ];
    currency = (eq_iff _ _).0 c;
    unit = codes_eq_sound _ _ u;
    effective = Covers-all_iff.0 e;
    scope = (eq_iff candidate.scope_code query.scope_code).0 (ground arith);
    equipment = (Compatible-iff query.equipment_type candidate.equipment_type).0 (ground arith);
    route = (Compatible-iff query.route_code candidate.route_code).0 (ground arith);
  }

  IsApplicable→flags : IsApplicable → Set flags
  unfolding scope_matches
  IsApplicable→flags a =
      let units : unit_ok cases candidate query ≡ true =
        subst (λ u. codes_eq u (norm_unit cases (some query.expected_unit)) ≡ true) (sym a.unit)
          (codes_eq_refl (norm_unit cases (some query.expected_unit))) in
      let dates = Covers-all_iff.1 a.effective in
      (
        (eq_iff candidate.verification_status "VERIFIED").1 a.version,
        (
          subst (λ t. contains (normalize cases query.expected_rate_phrase) t ≡ true)
              (sym a.phrase.2) (contains_complete _ a.phrase.0 a.phrase.1),
          (
            ground (arith, a.rate.1),
            (
              (eq_iff _ _).1 a.currency,
              (
                units,
                (
                  dates,
                  (
                    ground (
                      arith,
                      (eq_iff candidate.scope_code query.scope_code).1 a.scope,
                      (Compatible-iff query.equipment_type candidate.equipment_type).1 a.equipment,
                      (Compatible-iff query.route_code candidate.route_code).1 a.route,
                    ),
                    (ground (arith, a.current), (ground (arith, a.effective.1, units), tt)),
                  ),
                ),
              ),
            ),
          ),
        ),
      )

  -- A candidate is accepted exactly if it is applicable: its source version is verified and not
  -- superseded, the normalised rate phrase stands in its normalised text, it has a rate, its currency
  -- and unit agree with the invoice, it is effective on every charged date, and its scope, equipment
  -- and route fit.
  pub accepted-IsApplicable : (validation.state ≡ accepted) ↔ IsApplicable
  accepted-IsApplicable =
      (λ h. flags→IsApplicable (accepted-flags.0 h), λ a. accepted-flags.1 (IsApplicable→flags a))
