-- ===== src/Claims/Tests.antt =====
-- The theorems at the claims of a small invoice.
use tally_agentic_memory.Prelude.{
  ℕ, ◌≡◌, ◌↔◌, refl, String, true, false, none, some, List, [], ◌∷◌, map,
}
use tally_agentic_memory.Prelude.Int.{pos, ◌*ℤ◌}
use tally_agentic_memory.Prelude.Json.{Json}
use tally_agentic_memory.Prelude.Result.{Result, ok, err}
use tally_agentic_memory.Prelude.Sort.{sort}
use tally_agentic_memory.Prelude.Text.{is_space}
use tally_agentic_memory.Samples.{plain}
use tally_agentic_memory.Tables.{PdfAnchor, ValidatedClaim, ClaimValidation, passed}
use tally_agentic_memory.Claims.Anchor.{
  Value, Floats, Word, Page, split_from, tokens, matched, first_match,
}
use tally_agentic_memory.Claims.Located.{page_of, anchor_of, locate_pdf_anchor}
use tally_agentic_memory.Claims.Found.{IsOnPage, SaysWhere, anchored_exactly}
use tally_agentic_memory.Claims.Values.{
  Readers, unsigned_cents, usd_cents, parse_usd_minor, day_count, normalize_claim, overflows,
}
use tally_agentic_memory.Claims.Validate.{
  Entry, required_claim_fields, sorted_set, checked_excerpt, checked, raised, checked_fields,
  period_issue, total_issue, validate_extracted_claims,
}
use tally_agentic_memory.Claims.Passed.{AddsUp, passed-AddsUp}

abbrev readers : Readers
readers = record {
  parse_date = λ s. some 5;
  date_overflows = λ s. false;
  fromisoformat = λ s. some 5;
  int = λ s. none;
  upper = λ s. s;
}

abbrev same : List ℕ → List ℕ
same t = t

abbrev floats : Floats ℕ
floats = record { least = λ a b. a; greatest = λ a b. b; ratio = λ a b. a; json = λ a. Json.null }

abbrev word : String → Word ℕ
word t = record { word = t; x0 = 0; top = 0; x1 = 1; bottom = 1 }

abbrev pages : List (Page ℕ)
pages = record { width = 9; height = 9; words = word "TOTAL" ∷ word "DUE" ∷ word "$1" ∷ [] } ∷ []

abbrev entry : Value → Entry
entry value = record {
  value = value;
  text_excerpt = some "DUE  $1";
  page_number = Value.number (pos 1);
}

abbrev written : String → Entry
written s = entry (Value.text s)

abbrev entries : List (String × Entry)
entries =
    ("invoice_number", written "INV-1")
    ∷ ("container_number", written "ABCD1234567")
    ∷ ("bill_of_lading", written "BILL-1")
    ∷ ("charge_type", written "DEMURRAGE")
    ∷ ("period_start", written "1 May")
    ∷ ("period_end", written "1 May")
    ∷ ("charged_days", entry (Value.number (pos 1)))
    ∷ ("daily_rate", written "$1,200.5")
    ∷ ("total", written "1200.50")
    ∷ ("issued_date", written "1 May")
    ∷ []

abbrev validation : Result {0} String ClaimValidation → ClaimValidation
validation (ok v) = v
validation (err e) = record { claims = []; issue_codes = e ∷ [] }

abbrev checked_claims : ClaimValidation
checked_claims =
    validation (validate_extracted_claims plain readers same floats pages (some entries))

checked_1 :
    validate_extracted_claims plain readers same floats pages (some entries) ≡ ok checked_claims
unfolding validate_extracted_claims raised overflows checked_fields checked checked_excerpt
    locate_pdf_anchor page_of tokens split_from is_space first_match matched anchor_of
    normalize_claim parse_usd_minor usd_cents unsigned_cents day_count period_issue total_issue
    sorted_set sort ◌*ℤ◌
checked_1 = refl

passed_1 : passed checked_claims ≡ true
unfolding passed validate_extracted_claims raised overflows checked_fields checked checked_excerpt
    locate_pdf_anchor page_of tokens split_from is_space first_match matched anchor_of
    normalize_claim parse_usd_minor usd_cents unsigned_cents day_count period_issue total_issue
    sorted_set sort ◌*ℤ◌
passed_1 = refl

passed-AddsUp_example :
    (map (λ (c : ValidatedClaim). c.field_name) checked_claims.claims ≡ required_claim_fields)
    × AddsUp plain readers same floats pages checked_claims.claims
passed-AddsUp_example =
    passed-AddsUp plain readers same floats pages entries checked_claims checked_1 passed_1

anchored_exactly_example :
    (((anchor : PdfAnchor) × (locate_pdf_anchor plain same floats pages
            (Value.number (pos 1))
            "DUE $1"
          ≡ some anchor))
      ↔ IsOnPage plain same floats pages (Value.number (pos 1)) "DUE $1")
    × ((anchor : PdfAnchor)
        → locate_pdf_anchor plain same floats pages (Value.number (pos 1)) "DUE $1" ≡ some anchor
        → SaysWhere plain same floats pages (Value.number (pos 1)) "DUE $1" anchor)
anchored_exactly_example = anchored_exactly plain same floats pages (Value.number (pos 1)) "DUE $1"
