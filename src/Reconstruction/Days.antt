-- ===== src/Reconstruction/Days.antt =====
-- src/core/reconstruction.py: the chargeable window, the state of each billed day, the coverage of
-- the invoice and the terminal state.
use tally_agentic_memory.Prelude.{
  ℕ, ◌+◌, ltb, leb, ◌==◌, String, Bool, true, false, not, ◌&&◌, ◌||◌, Option, none, some, List, [],
  ◌∷◌, ◌++◌, map, filter, find, any, all, is_empty, is_some, if◌then◌else◌,
}
use tally_agentic_memory.Prelude.Int.{ℤ}
use tally_agentic_memory.Prelude.Time.{Calendar, date_of}
use tally_agentic_memory.Reconstruction.Events.{
  ShipmentEventType, discharged, available, free_time_start, free_time_end, gate_out,
  terminal_access_snapshot, NormalizedEvent,
}

pub data ReconstructionState : Type 0 where
  queued retrieving_memory assembling_events adjudicating_days complete : ReconstructionState
  partial needs_evidence blocked_memory_unavailable blocked_source_gap failed : ReconstructionState

pub data ChargedDayState : Type 0 where
  unresolved sourcing source_complete supported rate_discrepancy : ChargedDayState
  operational_exception insufficient_evidence excluded_not_chargeable : ChargedDayState

pub data CoverageState : Type 0 where
  present_verified missing unavailable conflicted not_applicable : CoverageState

-- `e.event_type is …`
abbrev pub same_type : ShipmentEventType → ShipmentEventType → Bool
same_type discharged discharged = true
same_type available available = true
same_type free_time_start free_time_start = true
same_type free_time_end free_time_end = true
same_type gate_out gate_out = true
same_type terminal_access_snapshot terminal_access_snapshot = true
same_type _ _ = false

abbrev pub has_type : ShipmentEventType → NormalizedEvent → Bool
has_type t e = same_type e.event_type t

pub record ChargeBoundary : Type 0 where
  pub first_chargeable_date : ℕ
  pub last_chargeable_date : ℕ

pub record ChargedDayResult : Type 0 where
  pub charge_date : ℕ
  pub state : ChargedDayState
  pub chargeability : String
  pub coverage_state : CoverageState
  pub invoice_rate_minor : ℤ
  pub currency : String
  pub event_refs : List String
  pub missing_requirements : List String

abbrev pub effective_timezone : String
effective_timezone = "America/Los_Angeles"

-- The pair of dates, where both events are there and the window is not empty.
unfoldable pub boundary_of :
    Calendar → String → Option NormalizedEvent → Option NormalizedEvent → Option ChargeBoundary
boundary_of calendar tz_name (some e) (some g) =
    let first = calendar.date_in_zone tz_name e.occurred_at + 1 in
    let last = calendar.date_in_zone tz_name g.occurred_at in
    if ltb last first
    then none
    else some (record { first_chargeable_date = first; last_chargeable_date = last })
boundary_of calendar tz_name _ _ = none

unfoldable pub resolve_charge_boundary :
    Calendar → String → List NormalizedEvent → Option ChargeBoundary
unfolding boundary_of
resolve_charge_boundary calendar tz_name events =
    boundary_of calendar tz_name (find (has_type free_time_end) events)
      (find (has_type gate_out) events)

-- `e.effective_from or e.occurred_at.date()`. (A date is never false.)
unfoldable pub snapshot_date : NormalizedEvent → ℕ
snapshot_date e = elim e.effective_from [ none ↦ date_of e.occurred_at | some d ↦ d ]

-- `access_by_date.get(charge_date)`: `setdefault` keeps the first snapshot of a date.
unfoldable pub access_on : List NormalizedEvent → ℕ → Option NormalizedEvent
unfolding snapshot_date
access_on events date =
    find (λ e. has_type terminal_access_snapshot e && snapshot_date e == date) events

-- `bool(access_by_date)`
unfoldable pub access_required : List NormalizedEvent → Bool
access_required events = any (has_type terminal_access_snapshot) events

abbrev pub refs : List NormalizedEvent → List String
refs = map (λ e. e.public_ref)

-- `_boundary_refs(availability, free_time_end, gate_out)`
unfoldable pub boundary_refs : List NormalizedEvent → List String
boundary_refs events =
    refs (filter (has_type available) events)
    ++ (refs (filter (has_type free_time_end) events) ++ refs (filter (has_type gate_out) events))

abbrev pub append_if : Bool → String → List String → List String
append_if b code codes = if b then codes ++ code ∷ [] else codes

-- The list `missing` of one billed date.
unfoldable pub missing_of : List NormalizedEvent → ℕ → List String
unfolding access_on access_required
missing_of events date =
    append_if (access_required events && not (is_some (access_on events date))) "TERMINAL_ACCESS" (
      append_if (is_empty (filter (has_type gate_out) events)) "GATE_OUT" (
        append_if (is_empty (filter (has_type free_time_end) events)) "FREE_TIME_END"
          (append_if (is_empty (filter (has_type available) events)) "AVAILABILITY" [])))

abbrev pub in_window : Option ChargeBoundary → ℕ → Bool
in_window none date = false
in_window (some b) date = leb b.first_chargeable_date date && leb date b.last_chargeable_date

-- `tuple(missing) or ("CHARGE_BOUNDARY",)`
abbrev or_boundary : List String → List String
or_boundary [] = "CHARGE_BOUNDARY" ∷ []
or_boundary (code ∷ codes) = code ∷ codes

module _ (invoice_rate_minor : ℤ) (currency : String) (events : List NormalizedEvent)
    (boundary : Option ChargeBoundary) where
  excluded_day : ℕ → ChargedDayResult
  excluded_day date = record {
    charge_date = date;
    state = excluded_not_chargeable;
    chargeability = "NOT_CHARGEABLE";
    coverage_state = present_verified;
    invoice_rate_minor = invoice_rate_minor;
    currency = currency;
    event_refs = boundary_refs events;
    missing_requirements = [];
  }

  insufficient_day : ℕ → ChargedDayResult
  insufficient_day date = record {
    charge_date = date;
    state = insufficient_evidence;
    chargeability = "UNRESOLVED";
    coverage_state = missing;
    invoice_rate_minor = invoice_rate_minor;
    currency = currency;
    event_refs = boundary_refs events;
    missing_requirements = or_boundary (missing_of events date);
  }

  complete_day : ℕ → ChargedDayResult
  complete_day date = record {
    charge_date = date;
    state = source_complete;
    chargeability = "CHARGEABLE";
    coverage_state = present_verified;
    invoice_rate_minor = invoice_rate_minor;
    currency = currency;
    event_refs =
        boundary_refs events
        ++ elim (access_on events date) [ none ↦ [] | some e ↦ e.public_ref ∷ [] ];
    missing_requirements = [];
  }

  -- One turn of the loop of `adjudicate_charged_days`.
  unfoldable pub adjudicate_day : ℕ → ChargedDayResult
  unfolding missing_of excluded_day insufficient_day complete_day
  adjudicate_day date =
      let nothing_missing = is_empty (missing_of events date) in
      if nothing_missing && (is_some boundary && not (in_window boundary date))
      then excluded_day date
      else if not nothing_missing || not (is_some boundary)
      then insufficient_day date
      else complete_day date

  unfoldable pub adjudicate_charged_days : List ℕ → List ChargedDayResult
  unfolding adjudicate_day
  adjudicate_charged_days = map adjudicate_day

abbrev present : Bool → CoverageState
present flag = if flag then present_verified else missing

-- The dictionary, with its keys in their order.
unfoldable pub classify_coverage :
    List NormalizedEvent → Bool → Bool → Bool → Bool → List (String × CoverageState)
classify_coverage events source identity dates rate =
    ("INVOICE_SOURCE", present source)
    ∷ ("CONTAINER_IDENTITY", present identity)
    ∷ ("CHARGED_DATES", present dates)
    ∷ ("INVOICE_RATE", present rate)
    ∷ ("AVAILABILITY", present (any (has_type available) events))
    ∷ ("FREE_TIME_START", present (any (has_type free_time_start) events))
    ∷ ("FREE_TIME_END", present (any (has_type free_time_end) events))
    ∷ ("GATE_OUT", present (any (has_type gate_out) events))
    ∷ []

abbrev pub is_complete : ChargedDayResult → Bool
is_complete d = elim d.state [ source_complete ↦ true | _ ↦ false ]

unfoldable pub resolve_terminal_state : List ChargedDayResult → ReconstructionState
resolve_terminal_state days =
    if is_empty days
    then needs_evidence
    else if all is_complete days
    then complete
    else needs_evidence
