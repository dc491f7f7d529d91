-- ===== src/Clerk/Timing.antt =====
-- src/core/clerk_steps.py: the 30-day window.
use tally_agentic_memory.Prelude.{
  ℕ, ◌+◌, leb, ◌==◌, String, Bool, true, false, not, ◌&&◌, ◌||◌, Option, none, some, List, [], ◌∷◌,
  is_empty, str_eq, if◌then◌else◌,
}
use tally_agentic_memory.Prelude.Int.{ℤ, pos, ltb_ℤ, sub_ℕ}
use tally_agentic_memory.Prelude.Text.{codes, strip}

pub record WindowResult : Type 0 where
  pub invoice_date : Option ℕ
  pub last_charge_date : Option ℕ
  pub days : Option ℤ
  pub within_30 : Option Bool
  pub ambiguous : Bool

-- `date.fromisoformat`, `dateutil.parser.parse` with its `dayfirst`, where it is given, and the
-- characters that `\d` matches. `none` is a `ValueError` or an `OverflowError`.
pub record Dates : Type 0 where
  pub fromisoformat : List ℕ → Option ℕ
  pub parse : Option Bool → List ℕ → Option ℕ
  pub is_digit : ℕ → Bool

abbrev pub window_days : ℤ
window_days = pos 30

module _ (dates : Dates) where
  -- The number of leading digits, and the rest.
  abbrev span : List ℕ → ℕ × List ℕ
  span [] = (0, [])
  span (c ∷ cs) = let (n, rest) = span cs in if dates.is_digit c then (n + 1, rest) else (0, c ∷ cs)

  -- From `low` to `high` digits, and what follows them.
  abbrev digits : ℕ → ℕ → List ℕ → Option (List ℕ)
  digits low high cs =
      let (n, rest) = span cs in if leb low n && leb n high then some rest else none

  abbrev separator : List ℕ → Option (List ℕ)
  separator [] = none
  separator (c ∷ cs) = if c == b'/' || c == b'-' then some cs else none

  infixl 5 ◌>>=◌
  abbrev ◌>>=◌ : {A B : Type 0} → Option A → (A → Option B) → Option B
  none >>= f = none
  some a >>= f = f a

  -- `^\d{1,2}[/\-]\d{1,2}[/\-]\d{2,4}$`
  unfoldable pub looks_like_ambiguous_numeric_date : List ℕ → Bool
  looks_like_ambiguous_numeric_date raw =
      elim (digits 1 2 raw >>= separator >>= digits 1 2 >>= separator >>= digits 2 4) [
        | none ↦ false
        | some rest ↦ is_empty rest
      ]

  -- What is tried when the text is not an ISO date.
  unfoldable pub parse_hinted : List ℕ → Option String → Option ℕ
  unfolding looks_like_ambiguous_numeric_date
  parse_hinted raw none =
      if looks_like_ambiguous_numeric_date raw then none else dates.parse none raw
  parse_hinted raw (some hint) =
      if str_eq hint "DMY"
      then dates.parse (some true) raw
      else if str_eq hint "MDY"
      then dates.parse (some false) raw
      else if str_eq hint "ISO"
      then none
      else if looks_like_ambiguous_numeric_date raw
      then none
      else dates.parse none raw

  unfoldable pub parse_date : String → Option String → Option ℕ
  unfolding parse_hinted
  parse_date raw hint =
      let stripped = strip (codes raw) in
      elim (dates.fromisoformat stripped) [ none ↦ parse_hinted stripped hint | some d ↦ some d ]

  -- `not raw`: no text, or an empty one.
  abbrev pub is_blank : Option String → Bool
  is_blank none = true
  is_blank (some raw) = str_eq raw ""

  abbrev pub parse_given : Option String → Option String → Option ℕ
  parse_given none hint = none
  parse_given (some raw) hint = parse_date raw hint

  -- The result for two dates, as they were parsed.
  unfoldable pub window_of : Option ℕ → Option ℕ → WindowResult
  window_of (some invoice) (some last) =
      let days = sub_ℕ invoice last in
      if ltb_ℤ days (pos 0)
      then record {
        invoice_date = some invoice;
        last_charge_date = some last;
        days = some days;
        within_30 = none;
        ambiguous = true;
      }
      else record {
        invoice_date = some invoice;
        last_charge_date = some last;
        days = some days;
        within_30 = some (not (ltb_ℤ window_days days));
        ambiguous = false;
      }
  window_of invoice last = record {
    invoice_date = invoice;
    last_charge_date = last;
    days = none;
    within_30 = none;
    ambiguous = true;
  }

  unfoldable pub check_timing : Option String → Option String → Option String → WindowResult
  unfolding window_of
  check_timing invoice_date_raw last_charge_date_raw hint =
      if is_blank invoice_date_raw || is_blank last_charge_date_raw
      then window_of none none
      else window_of (parse_given invoice_date_raw hint) (parse_given last_charge_date_raw hint)
