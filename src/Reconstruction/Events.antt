-- ===== src/Reconstruction/Events.antt =====
-- src/core/reconstruction.py: the validation of the rows that the memory read returns.
use Prim.Native.Char.{code}
use Prim.Native.String.{◌++◌ as str_append}
use tally_agentic_memory.Prelude.{
  ℕ, ltb, ◌==◌, String, Bool, not, ◌&&◌, ◌||◌, Option, none, some, List, [], ◌∷◌, any, str_eq,
  if◌then◌else◌,
}
use tally_agentic_memory.Prelude.Json.{Json}
use tally_agentic_memory.Prelude.Sort.{sort}
use tally_agentic_memory.Prelude.Time.{
  Datetime, naive, aware, Calendar, instant, same_isoformat, key_le,
}

pub data ShipmentEventType : Type 0 where
  discharged available free_time_start free_time_end gate_out : ShipmentEventType
  terminal_access_snapshot : ShipmentEventType

-- `ShipmentEventType(value)`, and the membership in `ALLOWED_EVENT_TYPES`: `none` is outside it.
unfoldable pub event_type_of : String → Option ShipmentEventType
event_type_of value =
    if str_eq value "DISCHARGED"
    then some discharged
    else if str_eq value "AVAILABLE"
    then some available
    else if str_eq value "FREE_TIME_START"
    then some free_time_start
    else if str_eq value "FREE_TIME_END"
    then some free_time_end
    else if str_eq value "GATE_OUT"
    then some gate_out
    else if str_eq value "TERMINAL_ACCESS_SNAPSHOT"
    then some terminal_access_snapshot
    else none

pub record RawEventRow : Type 0 where
  pub public_ref : String
  pub event_type : String
  pub shipment_ref : String
  pub container_ref : String
  pub source_public_ref : String
  pub source_verification_state : String
  pub display_anchor : String
  pub provenance_classification : String
  pub occurred_at : String
  pub recorded_at : String
  pub observed_at : Option String
  pub effective_from : Option String
  pub effective_to : Option String
  pub normalized_facts : Json

pub record NormalizedEvent : Type 0 where
  pub public_ref : String
  pub event_type : ShipmentEventType
  pub shipment_ref : String
  pub container_ref : String
  pub source_public_ref : String
  pub display_anchor : String
  pub provenance_classification : String
  pub occurred_at : Datetime
  pub recorded_at : Datetime
  pub observed_at : Option Datetime
  pub effective_from : Option ℕ
  pub effective_to : Option ℕ
  pub normalized_facts : Json

pub record EventValidation : Type 0 where
  pub accepted : List NormalizedEvent
  pub rejected : List (String × String)

-- `value.replace("Z", "+00:00")`
unfoldable pub replace_z : String → String
replace_z String.[] = ""
replace_z (String.◌∷◌ c s) =
    let rest = replace_z s in if code c == b'Z' then str_append "+00:00" rest else String.◌∷◌ c rest

-- A key of the set `seen`: the type, and the time that occurred as text.
abbrev pub Key : Type 0
Key = String × Datetime

abbrev pub same_key : Key → Key → Bool
same_key (s, t) (s', t') = str_eq s s' && same_isoformat t t'

-- The five times of a row, parsed.
pub record Times : Type 0 where
  pub occurred : Datetime
  pub recorded : Datetime
  pub observed : Option Datetime
  pub effective_from : Option ℕ
  pub effective_to : Option ℕ

pub data Check : Type 0 where
  accept : Key → NormalizedEvent → Check
  reject : String → Check

infixl 5 ◌>>=◌
abbrev ◌>>=◌ : {A B : Type 0} → Option A → (A → Option B) → Option B
none >>= f = none
some a >>= f = f a

unfoldable pub normalized : RawEventRow → ShipmentEventType → Times → NormalizedEvent
normalized row event_type times = record {
  public_ref = row.public_ref;
  event_type = event_type;
  shipment_ref = row.shipment_ref;
  container_ref = row.container_ref;
  source_public_ref = row.source_public_ref;
  display_anchor = row.display_anchor;
  provenance_classification = row.provenance_classification;
  occurred_at = times.occurred;
  recorded_at = times.recorded;
  observed_at = times.observed;
  effective_from = times.effective_from;
  effective_to = times.effective_to;
  normalized_facts = row.normalized_facts;
}

-- The sort key `(event.occurred_at, event.public_ref)`.
abbrev pub event_le : NormalizedEvent → NormalizedEvent → Bool
event_le a b = key_le a.occurred_at a.public_ref b.occurred_at b.public_ref

module _ (calendar : Calendar) where
  -- `none` is a `ValueError`, also for a time with no zone.
  unfoldable pub parse_dt : String → Option Datetime
  unfolding replace_z
  parse_dt value = elim (calendar.datetime_fromisoformat (replace_z value)) [
    | none ↦ none
    | some p ↦ elim p [ naive ↦ none | aware t ↦ some t ]
  ]

  unfoldable pub parse_date : Option String → Option (Option ℕ)
  parse_date none = some none
  parse_date (some value) = do d ← calendar.date_fromisoformat value; some (some d)

  -- `_parse_dt(value) if value else None`
  unfoldable pub parse_observed : Option String → Option (Option Datetime)
  unfolding parse_dt
  parse_observed none = some none
  parse_observed (some value) =
      if str_eq value "" then some none else do t ← parse_dt value; some (some t)

  -- The `try` block: `none` is its `ValueError`.
  unfoldable pub read_times : RawEventRow → Option Times
  unfolding parse_dt parse_date parse_observed
  read_times row = do
    occurred ← parse_dt row.occurred_at
    recorded ← parse_dt row.recorded_at
    observed ← parse_observed row.observed_at
    from ← parse_date row.effective_from
    to ← parse_date row.effective_to
    some (record {
      occurred = occurred;
      recorded = recorded;
      observed = observed;
      effective_from = from;
      effective_to = to;
    })

  module _ (knowledge_cutoff : Datetime) (shipment_ref container_ref : String) where
    -- One turn of the loop of `validate_events`.
    unfoldable pub check_row : List Key → RawEventRow → Check
    check_row seen row =
        if not (str_eq row.source_verification_state "VERIFIED")
        then reject "EVENT_SOURCE_MISSING"
        else elim (event_type_of row.event_type) [
          | none ↦ reject "EVENT_TYPE_NOT_ALLOWED"
          | some event_type ↦
              if not (str_eq row.shipment_ref shipment_ref)
                || not (str_eq row.container_ref container_ref)
              then reject "EVENT_OWNERSHIP_MISMATCH"
              else elim (read_times row) [
                | none ↦ reject "EVENT_TIME_INVALID"
                | some times ↦
                    if ltb (instant knowledge_cutoff) (instant times.recorded)
                    then reject "EVENT_AFTER_KNOWLEDGE_CUTOFF"
                    else if any (same_key (row.event_type, times.occurred)) seen
                    then reject "EVENT_DUPLICATE"
                    else accept (row.event_type, times.occurred) (normalized row event_type times)
              ]
        ]

    -- The loop, from the keys seen so far.
    unfoldable pub validate_from : List Key → List RawEventRow → EventValidation
    unfolding check_row
    validate_from seen [] = record { accepted = []; rejected = [] }
    validate_from seen (row ∷ rows) = elim (check_row seen row) [
      | accept key event ↦
          let rest = validate_from (key ∷ seen) rows in
          record rest { accepted = event ∷ rest.accepted }
      | reject code ↦
          let rest = validate_from seen rows in
          record rest { rejected = (row.public_ref, code) ∷ rest.rejected }
    ]

    unfoldable pub validate_events : List RawEventRow → EventValidation
    unfolding validate_from
    validate_events rows =
        let v = validate_from [] rows in record v { accepted = sort event_le v.accepted }
