-- ===== src/Clerk/Verdict.antt =====
-- src/core/verdict.py: the precedence of the verdicts and the summary.
use tally_agentic_memory.Prelude.{
  String, Bool, not, Option, none, some, List, [], ◌∷◌, filter, map, str_eq, if◌then◌else◌,
}
use tally_agentic_memory.Prelude.Python.{concat}
use tally_agentic_memory.Clerk.Timing.{WindowResult}

pub record FieldResult : Type 0 where
  pub key : String
  pub present : Bool
  pub how : String

-- `_cite_for_field`: of `FIELDS_541_6`, one field has a citation.
unfoldable pub cite_for_field : String → Option String
cite_for_field key = if str_eq key "proper_party_basis" then some "541.6(a)(7)" else none

unfoldable pub absent_of : List FieldResult → List FieldResult
absent_of = filter (λ r. not r.present)

unfoldable pub verdict_for : List FieldResult → WindowResult → String × Option String
unfolding cite_for_field
verdict_for (first ∷ rest) window = ("DEFECTIVE", cite_for_field first.key)
verdict_for [] window = if window.ambiguous then ("NEEDS_REVIEW", none) else elim window.within_30 [
  | none ↦ ("VALID", none)
  | some within ↦ if within then ("VALID", none) else ("DEFECTIVE", some "30-day window")
]

unfoldable pub compute_verdict : List FieldResult → WindowResult → String × Option String
unfolding absent_of verdict_for
compute_verdict field_results window = verdict_for (absent_of field_results) window

-- `", ".join`
abbrev pub join : List String → String
join [] = ""
join (s ∷ []) = s
join (s ∷ t ∷ rest) = concat (s ∷ ", " ∷ join (t ∷ rest) ∷ [])

unfoldable pub summary_for : String → List FieldResult → String
summary_for verdict missing =
    if str_eq verdict "VALID"
    then "All 13 required fields present; charge within the 30-day window."
    else elim missing [
      | [] ↦ "Timing window could not be confidently determined."
      | first ∷ rest ↦
          concat
            ("Missing required field(s): " ∷ join (first.key ∷ map (λ r. r.key) rest) ∷ "." ∷ [])
    ]

unfoldable pub build_summary : String → List FieldResult → String
unfolding absent_of summary_for
build_summary verdict field_results = summary_for verdict (absent_of field_results)
