-- ===== src/Claims/Values.antt =====
-- src/core/intake_claims.py: _normalize_claim and _parse_usd_minor.
use Prim.Native.Char.{code}
use tally_agentic_memory.Prelude.{
  ℕ, ◌+◌, ◌-◌, ◌*◌, ◌^◌, ltb, leb, ◌==◌, String, Bool, true, false, not, ◌&&◌, ◌||◌, Option, none,
  some, List, [], ◌∷◌, ◌++◌, all, length, is_empty, str_eq, if◌then◌else◌,
}
use tally_agentic_memory.Prelude.Int.{ℤ, pos, ltb_ℤ}
use tally_agentic_memory.Prelude.Json.{Json, field, end}
use tally_agentic_memory.Prelude.Python.{Python}
use tally_agentic_memory.Prelude.Text.{codes, is_space}
use tally_agentic_memory.Claims.Anchor.{Value, null, boolean, number, text, other}

-- What the checks take from Python and from dateutil: `date_parser.parse(s, fuzzy=False).date()`,
-- `date.fromisoformat`, `int(s)` and `str.upper`; `none` is an exception that
-- is caught. `date_overflows` tells whether dateutil raises an `OverflowError`, which is not.
pub record Readers : Type 0 where
  pub parse_date : String → Option ℕ
  pub date_overflows : String → Bool
  pub fromisoformat : String → Option ℕ
  pub int : String → Option ℤ
  pub upper : String → String

-- The type, the value, and the amount with its currency.
pub record Normal : Type 0 where
  pub value_type : String
  pub value : Json
  pub amount_minor : Option ℤ
  pub currency : Option String

abbrev pub plain_value : String → Json → Option Normal
plain_value value_type value =
    some (record { value_type = value_type; value = value; amount_minor = none; currency = none })

abbrev pub is_capital : ℕ → Bool
is_capital c = leb 65 c && leb c 90

abbrev pub is_digit : ℕ → Bool
is_digit c = leb 48 c && leb c 57

-- `re.sub(r"[^…]", "", s)`
abbrev pub keep : (ℕ → Bool) → String → String
keep p String.[] = String.[]
keep p (String.◌∷◌ c s) = let rest = keep p s in if p (code c) then String.◌∷◌ c rest else rest

abbrev pub drop_front : String → String
drop_front String.[] = String.[]
drop_front (String.◌∷◌ c s) =
    let rest = drop_front s in if is_space (code c) then rest else String.◌∷◌ c s

abbrev pub drop_back : String → String
drop_back String.[] = String.[]
drop_back (String.◌∷◌ c s) =
    let rest = drop_back s in
    if is_space (code c) && str_eq rest "" then String.[] else String.◌∷◌ c rest

-- `s.strip()`
abbrev pub stripped : String → String
stripped s = drop_back (drop_front s)

-- A character of each class in turn, and nothing more.
abbrev pub has_shape : List (ℕ → Bool) → List ℕ → Bool
has_shape [] [] = true
has_shape [] (c ∷ t) = false
has_shape (p ∷ ps) [] = false
has_shape (p ∷ ps) (c ∷ t) = p c && has_shape ps t

-- `[A-Z]{4}\d{7}`, of a text with no digits but the ASCII ones.
abbrev pub container_shape : List (ℕ → Bool)
container_shape =
    is_capital ∷ is_capital ∷ is_capital ∷ is_capital ∷ is_digit ∷ is_digit ∷ is_digit ∷ is_digit
    ∷ is_digit ∷ is_digit ∷ is_digit ∷ []

abbrev pub identified : String → Option Normal
identified kept =
    if has_shape container_shape (codes kept)
    then plain_value "IDENTIFIER" (Json.str kept)
    else none

-- `[A-Z0-9][A-Z0-9-]{3,30}`
abbrev pub is_bill : List ℕ → Bool
is_bill [] = false
is_bill (c ∷ t) =
    (is_capital c || is_digit c)
    && (all (λ d. is_capital d || is_digit d || d == 45) t
        && (leb 3 (length t) && leb (length t) 30))

abbrev pub digits_value : ℕ → List ℕ → ℕ
digits_value n [] = n
digits_value n (c ∷ t) = digits_value (n * 10 + (c - 48)) t

-- The digits in front, and what follows them.
abbrev pub leading : List ℕ → List ℕ × List ℕ
leading [] = ([], [])
leading (c ∷ t) = let (ds, rest) = leading t in if is_digit c then (c ∷ ds, rest) else ([], c ∷ t)

-- `decimal.as_tuple().exponent < -2`, and `int(decimal * 100)`, of digits around a point.
abbrev pub cents : List ℕ → List ℕ → Option ℕ
cents whole part =
    if is_empty whole && is_empty part || ltb 2 (length part)
    then none
    else some (digits_value 0 (whole ++ part) * 10 ^ (2 - length part))

-- `Decimal` of digits, with at most one point.
unfoldable pub unsigned_cents : List ℕ → Option ℕ
unsigned_cents t = elim (leading t).1 [
  | [] ↦ cents (leading t).0 []
  | ◌∷◌ c part ↦
      if c == 46 && is_empty (leading part).1 then cents (leading t).0 (leading part).0 else none
]

-- A sign is allowed before zero.
unfoldable pub usd_cents : List ℕ → Option ℕ
unfolding unsigned_cents
usd_cents [] = none
usd_cents (c ∷ t) =
    if c == 45
    then elim (unsigned_cents t) [ none ↦ none | some n ↦ if n == 0 then some 0 else none ]
    else unsigned_cents (c ∷ t)

module _ (python : Python) (readers : Readers) where
  -- `str(value)`
  abbrev pub str_of : Value → String
  str_of null = "None"
  str_of (boolean b) = if b then "True" else "False"
  str_of (number n) = python.decimal n
  str_of (text s) = s
  str_of (other s n) = s

  -- `int(value)`, of a value that is no Boolean.
  abbrev pub int_of : Value → Option ℤ
  int_of (number n) = some n
  int_of (text s) = readers.int s
  int_of (other s n) = n
  int_of _ = none

  unfoldable pub parse_usd_minor : Value → Option ℕ
  unfolding usd_cents
  parse_usd_minor (boolean b) = none
  parse_usd_minor value =
      usd_cents (codes (keep (λ c. is_digit c || c == 46 || c == 45) (str_of value)))

  unfoldable pub day_count : Value → Option ℤ
  day_count (boolean b) = none
  day_count value = elim (int_of value) [
    | none ↦ none
    | some n ↦ if ltb_ℤ (pos 0) n && not (ltb_ℤ (pos 90) n) then some n else none
  ]

  unfoldable pub normalize_claim : String → Value → Option Normal
  unfolding parse_usd_minor day_count
  normalize_claim field_name value =
      let raw = str_of value in
      let shouted = readers.upper (stripped raw) in
      if str_eq field_name "container_number"
      then identified (keep (λ c. is_capital c || is_digit c) (readers.upper raw))
      else if str_eq field_name "bill_of_lading"
      then if is_bill (codes shouted) then plain_value "IDENTIFIER" (Json.str shouted) else none
      else if str_eq field_name "charge_type"
      then if str_eq shouted "DEMURRAGE" then plain_value "ENUM" (Json.str shouted) else none
      else if str_eq field_name "period_start"
          || str_eq field_name "period_end"
          || str_eq field_name "issued_date"
      then elim (readers.parse_date raw) [
        | none ↦ none
        | some d ↦ plain_value "DATE" (Json.str (python.isoformat d))
      ]
      else if str_eq field_name "charged_days"
      then elim (day_count value) [ none ↦ none | some n ↦ plain_value "INTEGER" (Json.int n) ]
      else if str_eq field_name "daily_rate" || str_eq field_name "total"
      then elim (parse_usd_minor value) [
        | none ↦ none
        | some n ↦ some (record {
          value_type = "MONEY";
          value =
              Json.obj
                (field "amount_minor" (Json.int (pos n)) (field "currency" (Json.str "USD") end));
          amount_minor = some (pos n);
          currency = some "USD";
        })
      ]
      else if str_eq (stripped raw) ""
      then none
      else plain_value "STRING" (Json.str (stripped raw))

  -- A float that `int` turns into no integer.
  abbrev pub is_infinite : Value → Bool
  is_infinite (other s n) = str_eq s "inf" || str_eq s "-inf"
  is_infinite _ = false

  -- `_normalize_claim` raises an `OverflowError`.
  unfoldable pub overflows : String → Value → Bool
  overflows field_name value =
      if str_eq field_name "period_start"
        || str_eq field_name "period_end"
        || str_eq field_name "issued_date"
      then readers.date_overflows (str_of value)
      else str_eq field_name "charged_days" && is_infinite value
