-- ===== src/Clerk/Tests.antt =====
-- Concrete invoices, and the properties at them.
use tally_agentic_memory.Prelude.{
  ℕ, String, suc, ◌≡◌, ◌↔◌, true, Option, none, some, List, [], ◌∷◌, leb, ◌&&◌,
}
use tally_agentic_memory.Clerk.Timing.{Dates}
use tally_agentic_memory.Clerk.Verdict.{FieldResult, compute_verdict, build_summary}
use tally_agentic_memory.Clerk.Late.{ExceedsWindow, late_summary}
use tally_agentic_memory.Clerk.Valid.{
  AllPresent, InWindow, timing, invoice_date, last_charge_date, valid_exact,
}

-- A date is written by as many signs as its ordinal.
abbrev signs : List ℕ → Option ℕ
signs [] = some 0
signs (c ∷ cs) = elim (signs cs) [ none ↦ none | some n ↦ some (suc n) ]

abbrev dates : Dates
dates = record {
  fromisoformat = signs;
  parse = λ dayfirst raw. none;
  is_digit = λ c. leb b'0' c && leb c b'9';
}

abbrev fields : List FieldResult
fields = record { key = "total_amount_due"; present = true; how = "verbatim" } ∷ []

valid_exact_example :
    ((compute_verdict fields (timing dates (some "iiiiiii") (some "iii") none)).0 ≡ "VALID") ↔ (
      AllPresent fields
      × InWindow
          (invoice_date dates (some "iiiiiii") (some "iii") none)
          (last_charge_date dates (some "iiiiiii") (some "iii") none))
valid_exact_example = valid_exact dates (some "iiiiiii") (some "iii") none fields

-- Forty days, where three were meant.
abbrev late : Option String
late = some "iiiiiiiiiiiiiiiiiiiiiiiiiiiiiiiiiiiiiiii"

late_summary_example :
    ((compute_verdict fields (timing dates late (some "iii") none)
        ≡ ("DEFECTIVE", some "30-day window"))
      ↔ (AllPresent fields
          × ExceedsWindow
              (invoice_date dates late (some "iii") none)
              (last_charge_date dates late (some "iii") none)))
    × ((compute_verdict fields (timing dates late (some "iii") none)
          ≡ ("DEFECTIVE", some "30-day window"))
        → build_summary (compute_verdict fields (timing dates late (some "iii") none)).0 fields
          ≡ "Timing window could not be confidently determined.")
late_summary_example = late_summary dates late (some "iii") none fields
