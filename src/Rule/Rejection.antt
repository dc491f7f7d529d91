-- ===== src/Rule/Rejection.antt =====
-- Which rejection code a candidate gets.
use mathlib.Core.Path.{subst}
use mathlib.Core.Option
use mathlib.Core.List.{head?}
use tally_agentic_memory.Prelude.{
  ℕ, ◌≡◌, ◌↔◌, ◌⊎◌, inl, inr, refl, ap, ◌∙◌, sym, String, Bool, true, false, Option, none, some,
  List, [], ◌∷◌, ◌++◌, is_some, eq_iff, arith, not, ◌&&◌,
}
use tally_agentic_memory.Prelude.Int.{ℤ}
use tally_agentic_memory.Prelude.Python.{concat}
use tally_agentic_memory.Prelude.Text.{
  contains, codes_eq, contains_sound, contains_complete, codes_eq_sound, codes_eq_refl,
}
use tally_agentic_memory.Rule.Candidate.{
  RuleCandidate, ApplicabilityQuery, accepted, Cases, results_of, failed_of, verdict_of,
  validate_candidate, normalize, norm_unit, rate_minor_of, scope_matches, text_ok, unit_ok,
  rejection_code_of,
}
use tally_agentic_memory.Rule.Applicable.{
  Compatible, Compatible-iff, Covers, Covers-all_iff, failing, flags, failed-flags, validation,
}

-- The code of the first demand that does not hold, and `none` if all of them do.
abbrev pub FirstUnmet : List {1} (Type 0 × String) → Option String → Type 0
FirstUnmet [] code = code ≡ none
FirstUnmet ((P, c) ∷ rest) code = (P × FirstUnmet rest code) ⊎ ((¬ P) × (code ≡ some c))

module _ (cases : Cases) (candidate : RuleCandidate) (query : ApplicabilityQuery) where
  -- The text of a rejection with no code of its own.
  abbrev pub rejected_by : String → String
  rejected_by validator = concat ("REJECTED_" ∷ cases.upper validator ∷ [])

  abbrev pub HasPhrase : Type 0
  HasPhrase =
      (before : List ℕ) × (after : List ℕ) × (normalize cases candidate.clause_text
        ≡ before ++ (normalize cases query.expected_rate_phrase ++ after))

  abbrev pub UnitAgrees : Type 0
  UnitAgrees = norm_unit cases candidate.rate_unit ≡ norm_unit cases (some query.expected_unit)

  abbrev pub IsEffective : Type 0
  IsEffective =
      (from : ℕ) × (candidate.effective_from ≡ some from) × Covers cases candidate query from

  abbrev pub InScope : Type 0
  InScope =
      (candidate.scope_code ≡ query.scope_code)
      × Compatible cases candidate query query.equipment_type candidate.equipment_type
      × Compatible cases candidate query query.route_code candidate.route_code

  -- What the nine validators demand, in their order, and the code of the rejection if it fails.
  abbrev pub demands : List {1} (Type 0 × String)
  demands =
      (candidate.verification_status ≡ "VERIFIED", "VERSION_UNAVAILABLE")
      ∷ (HasPhrase, "REJECTED_TEXT_MISMATCH")
      ∷ ((r : ℤ) × (rate_minor_of candidate.rate_amount ≡ some r), rejected_by "exact_rate")
      ∷ (
        cases.upper (elim candidate.rate_currency [ none ↦ "" | some c ↦ c ])
            ≡ cases.upper query.invoice_currency,
        rejected_by "currency",
      )
      ∷ (UnitAgrees, rejected_by "unit")
      ∷ (IsEffective, "REJECTED_WRONG_DATE")
      ∷ (InScope, "REJECTED_SCOPE_MISMATCH")
      ∷ (candidate.superseded ≡ false, rejected_by "supersession")
      ∷ (
        ((from : ℕ) × (candidate.effective_from ≡ some from)) × UnitAgrees,
        rejected_by "boundary_semantics",
      )
      ∷ []

  abbrev code_from : List (Bool × String) → Option String
  code_from fs = Option.map (rejection_code_of cases) (head? (failing fs))

  code_of :
      (fs : List String) → (verdict_of cases fs).1 ≡ Option.map (rejection_code_of cases) (head? fs)
  unfolding verdict_of
  code_of [] = refl
  code_of (f ∷ fs) = refl

  unmet-cons :
      {P : Type 0} (b : Bool) (validator c : String) (fs : List (Bool × String))
      (rest : List {1} (Type 0 × String))
      → (b ≡ true) ↔ P
      → rejection_code_of cases validator ≡ c
      → FirstUnmet rest (code_from fs)
      → FirstUnmet ((P, c) ∷ rest) (code_from ((b, validator) ∷ fs))
  unmet-cons true validator c fs rest (to, from) e h = inl (to refl, h)
  unmet-cons false validator c fs rest (to, from) e h = inr (λ p. cc (from p), ap some e)

  phrase_iff : (text_ok cases candidate query ≡ true) ↔ HasPhrase
  phrase_iff = (
    λ h. contains_sound _ _ h,
    λ (before, after, e).
        subst (λ t. contains (normalize cases query.expected_rate_phrase) t ≡ true) (sym e)
          (contains_complete _ before after),
  )

  some_iff : {A : Type 0} (o : Option A) → (is_some o ≡ true) ↔ ((x : A) × (o ≡ some x))
  some_iff none = (λ h. cc h, λ h. cc (h.1))
  some_iff (some x) = (λ h. (x, refl), λ h. refl)

  unit_iff : (unit_ok cases candidate query ≡ true) ↔ UnitAgrees
  unit_iff = (
    λ h. codes_eq_sound _ _ h,
    λ e.
        subst (λ u. codes_eq u (norm_unit cases (some query.expected_unit)) ≡ true) (sym e)
          (codes_eq_refl (norm_unit cases (some query.expected_unit))),
  )

  scope_iff : (scope_matches candidate query ≡ true) ↔ InScope
  unfolding scope_matches
  scope_iff =
      let (a, b) = eq_iff candidate.scope_code query.scope_code in
      let (c, d) =
        Compatible-iff cases candidate query query.equipment_type candidate.equipment_type in
      let (e, f) = Compatible-iff cases candidate query query.route_code candidate.route_code in
      (
        λ h. (a (ground (arith, h)), c (ground (arith, h)), e (ground (arith, h))),
        λ (p, q, r). ground (arith, b p, d q, f r),
      )

  and_iff :
      {P Q : Type 0} (a b : Bool) → (a ≡ true) ↔ P → (b ≡ true) ↔ Q → ((a && b) ≡ true) ↔ (P × Q)
  and_iff a b (p, q) (r, s) =
      (λ h. (p (ground (arith, h)), r (ground (arith, h))), λ (x, y). ground (arith, q x, s y))

  not_iff : (b : Bool) → (not b ≡ true) ↔ (b ≡ false)
  not_iff b = (λ h. ground (arith, h), λ h. ground (arith, h))

  -- The flags decide the demands, and stand for their codes.
  abbrev Reflects : List (Bool × String) → List {1} (Type 0 × String) → Type 0
  Reflects [] [] = Unit
  Reflects [] (d ∷ ds) = ⊥
  Reflects (f ∷ fs) [] = ⊥
  Reflects ((b, validator) ∷ fs) ((P, c) ∷ ds) =
      ((b ≡ true) ↔ P) × (rejection_code_of cases validator ≡ c) × Reflects fs ds

  unmet-code_from :
      (fs : List (Bool × String)) (ds : List {1} (Type 0 × String))
      → Reflects fs ds
      → FirstUnmet ds (code_from fs)
  unmet-code_from [] [] h = refl
  unmet-code_from [] (d ∷ ds) h = absurd h
  unmet-code_from (f ∷ fs) [] h = absurd h
  unmet-code_from ((b, validator) ∷ fs) ((P, c) ∷ ds) (e, same, h) =
      unmet-cons b validator c fs ds e same (unmet-code_from fs ds h)

  flags-Reflects : Reflects (flags cases candidate query) demands
  unfolding rejection_code_of
  flags-Reflects = (
    eq_iff candidate.verification_status "VERIFIED",
    refl,
    (
      phrase_iff,
      refl,
      (
        some_iff (rate_minor_of candidate.rate_amount),
        refl,
        (
          eq_iff _ _,
          refl,
          (
            unit_iff,
            refl,
            (
              Covers-all_iff cases candidate query,
              refl,
              (
                scope_iff,
                refl,
                (
                  not_iff candidate.superseded,
                  refl,
                  (and_iff _ _ (some_iff candidate.effective_from) unit_iff, refl, tt),
                ),
              ),
            ),
          ),
        ),
      ),
    ),
  )

  coded :
      (fs : List String) → ((verdict_of cases fs).0 ≡ accepted) ↔ ((verdict_of cases fs).1 ≡ none)
  unfolding verdict_of
  coded [] = (λ h. refl, λ h. refl)
  coded (f ∷ fs) = (λ h. cc h, λ h. cc h)

  -- A candidate is accepted exactly if it has no rejection code, and its code is that of the first
  -- demand that it does not meet: a verified source version (VERSION_UNAVAILABLE), the rate phrase in
  -- the text (REJECTED_TEXT_MISMATCH), a rate, the invoice's currency, the invoice's unit, an effective
  -- span around every charged date (REJECTED_WRONG_DATE), a scope, equipment and route that fit
  -- (REJECTED_SCOPE_MISMATCH), no supersession, and a first effective date with the invoice's unit;
  -- where no code is named, it is REJECTED_ and the validator's name in upper case.
  pub rejection_first :
      (((validation cases candidate query).state ≡ accepted)
        ↔ ((validation cases candidate query).rejection_code ≡ none))
      × FirstUnmet demands (validation cases candidate query).rejection_code
  unfolding validate_candidate
  rejection_first =
      let same = failed-flags cases candidate query in
      (
        coded (failed_of (results_of cases candidate query)),
        subst (FirstUnmet demands)
            (sym (
              ap (λ fs. (verdict_of cases fs).1) same
              ∙ code_of (failing (flags cases candidate query))))
            (unmet-code_from (flags cases candidate query) demands flags-Reflects),
      )
