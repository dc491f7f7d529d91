-- ===== src/Judgment/Reasons.antt =====
-- The reason codes of a recommendation.
use tally_agentic_memory.Prelude.{
  ℕ, ◌≡◌, ◌≢◌, ap, ◌∙◌, refl, Bool, true, false, not, none, some, List, [], ◌∷◌, ◌++◌, map, filter,
  any, All, find_last, arith, is_some, str_eq, ◌&&◌, ◌||◌, ◌==◌, Bool-cases, inl, inr,
}
use tally_agentic_memory.Prelude.Result.{ok}
use tally_agentic_memory.Prelude.Python.{Python}
use tally_agentic_memory.Judgment.{
  DayInput, DayJudgment, Recommendation, ReasonCode, missing_day_source,
  missing_day_access_evidence, rule_not_verified, source_version_unavailable,
  source_integrity_failed, is_insufficient, is_chargeable, judge_day, same_reason, has_reason,
  reason_of, reasons_from, reasons_of, recommend, resolve_recommendation,
}
use tally_agentic_memory.Judgment.Balance.{resolve_inverse}
use tally_agentic_memory.Judgment.Outcome.{lacks_evidence, insufficient-judge, chargeable-judge}

same_reason_eq : (c d : ReasonCode) → same_reason c d ≡ true → c ≡ d
same_reason_eq c d h = ground arith

has_reason-append :
    (c code : ReasonCode) (xs : List ReasonCode)
    → has_reason c (xs ++ code ∷ []) ≡ (has_reason c xs || same_reason c code)
has_reason-append c code [] = ground arith
has_reason-append c code (x ∷ xs) = ground (arith, has_reason-append c code xs)

-- Each code stands once.
abbrev pub Distinct : List ReasonCode → Type 0
Distinct [] = Unit
Distinct (x ∷ xs) = (has_reason x xs ≡ false) × Distinct xs

Distinct-append :
    (code : ReasonCode) (xs : List ReasonCode)
    → Distinct xs
    → has_reason code xs ≡ false
    → Distinct (xs ++ code ∷ [])
Distinct-append code [] d h = (refl, tt)
Distinct-append code (x ∷ xs) d h = (
  rw (has_reason-append x code xs) (ground (arith, same_reason_eq x code)),
  Distinct-append code xs d.1 (ground arith),
)

-- The code that the loop computes for a judgment.
abbrev code_at : List DayInput → DayJudgment → ReasonCode
code_at days j = reason_of (find_last (λ d. d.charge_date == j.charge_date) days)

module _ (days : List DayInput) where
  reasons_from-Distinct :
      (acc : List ReasonCode) (js : List DayJudgment)
      → Distinct acc
      → Distinct (reasons_from days acc js)
  unfolding reasons_from
  reasons_from-Distinct acc [] h = h
  reasons_from-Distinct acc (j ∷ js) h =
      elim (Bool-cases (is_insufficient j && not (has_reason (code_at days j) acc))) [
        | inl e ↦ rw e (
            reasons_from-Distinct (acc ++ code_at days j ∷ []) js
              (Distinct-append (code_at days j) acc h (ground arith)))
        | inr e ↦ rw e (reasons_from-Distinct acc js h)
      ]

  has-reasons_from :
      (c : ReasonCode) (acc : List ReasonCode) (js : List DayJudgment)
      → has_reason c (reasons_from days acc js)
        ≡ (has_reason c acc || any (λ j. is_insufficient j && same_reason c (code_at days j)) js)
  unfolding reasons_from
  has-reasons_from c acc [] = ground arith
  has-reasons_from c acc (j ∷ js) =
      elim (Bool-cases (is_insufficient j && not (has_reason (code_at days j) acc))) [
        | inl e ↦ rw e (
            has-reasons_from c (acc ++ code_at days j ∷ []) js
            ∙ ground (arith, has_reason-append c (code_at days j) acc))
        | inr e ↦
            rw e (has-reasons_from c acc js ∙ ground (arith, same_reason_eq c (code_at days j)))
      ]

-- No two days bear the same date.
abbrev pub DistinctDates : List DayInput → Type 0
DistinctDates [] = Unit
DistinctDates (d ∷ days) = All (λ e. e.charge_date ≢ d.charge_date) days × DistinctDates days

abbrev Found : List DayInput → DayInput → Type 0
Found days d = find_last (λ e. e.charge_date == d.charge_date) days ≡ some d

not_found :
    (n : ℕ) (days : List DayInput)
    → All (λ e. e.charge_date ≢ n) days
    → find_last (λ e. e.charge_date == n) days ≡ none
not_found n [] h = refl
not_found n (d ∷ days) h = ground (arith, not_found n days h.1, h.0)

Found-cons :
    (d : DayInput) (days ds : List DayInput) → All (Found days) ds → All (Found (d ∷ days)) ds
Found-cons d days [] h = tt
Found-cons d days (e ∷ ds) h = (rw h.0, Found-cons d days ds h.1)

All-Found : (days : List DayInput) → DistinctDates days → All (Found days) days
All-Found [] h = tt
All-Found (d ∷ days) h = (
  rw (not_found d.charge_date days h.0) (ground arith),
  Found-cons d days days (All-Found days h.1),
)

-- Whether a day gives a reason by itself. A chargeable day whose source is not verified lacks access
-- evidence if that is among its missing requirements, and its source if not; one whose source is
-- verified lacks a rate.
abbrev pub gives : ReasonCode → DayInput → Bool
gives missing_day_access_evidence d =
    d.chargeable
    && (not (str_eq d.coverage_state "PRESENT_VERIFIED")
        && any (str_eq "TERMINAL_ACCESS") d.missing_requirements)
gives missing_day_source d =
    d.chargeable
    && (not (str_eq d.coverage_state "PRESENT_VERIFIED")
        && not (any (str_eq "TERMINAL_ACCESS") d.missing_requirements))
gives rule_not_verified d =
    d.chargeable
    && (str_eq d.coverage_state "PRESENT_VERIFIED" && not (is_some d.applicable_rate_minor))
gives source_version_unavailable d = false
gives source_integrity_failed d = false

gives-reason_of :
    (c : ReasonCode) (d : DayInput)
    → (lacks_evidence d && same_reason c (reason_of (some d))) ≡ gives c d
unfolding reason_of
gives-reason_of missing_day_access_evidence d = ground arith
gives-reason_of missing_day_source d = ground arith
gives-reason_of rule_not_verified d = ground arith
gives-reason_of source_version_unavailable d = ground arith
gives-reason_of source_integrity_failed d = ground arith

module _ (py : Python) where
  date-judge : (d : DayInput) → (judge_day py d).charge_date ≡ d.charge_date
  unfolding judge_day
  date-judge d = ground arith

  any_code :
      (c : ReasonCode) (days ds : List DayInput)
      → All (Found days) ds
      → any
          (λ j. is_insufficient j && same_reason c (code_at days j))
          (filter is_chargeable (map (judge_day py) ds))
        ≡ any (gives c) ds
  any_code c days [] h = refl
  any_code c days (d ∷ ds) h =
      let at : code_at days (judge_day py d) ≡ reason_of (some d) =
        rw (date-judge d) (ap reason_of h.0) in
      ground (
        arith,
        at,
        any_code c days ds h.1,
        insufficient-judge py d,
        chargeable-judge py d,
        gives-reason_of c d,
      )

  -- The reason codes of a recommendation stand once each. If no two days bear the same date, a code is
  -- among them exactly if some day gives it: MISSING_DAY_ACCESS_EVIDENCE a chargeable day with no
  -- verified source that misses TERMINAL_ACCESS, MISSING_DAY_SOURCE one that does not, RULE_NOT_VERIFIED
  -- a chargeable day with a verified source and no rate, and the other two codes no day.
  pub reasons_exact :
      (days : List DayInput) {r : Recommendation}
      → resolve_recommendation py days ≡ ok r
      → DistinctDates days
      → Distinct r.reason_codes
        × ((c : ReasonCode) → has_reason c r.reason_codes ≡ any (gives c) days)
  unfolding recommend reasons_of
  reasons_exact days h dates =
      let (currency, e) = resolve_inverse py days h in
      let js = filter is_chargeable (map (judge_day py) days) in
      rw e (
        reasons_from-Distinct days [] js tt,
        λ c. has-reasons_from days c [] js ∙ any_code c days days (All-Found days dates),
      )
