-- ===== src/Reconstruction/Tests.antt =====
-- The hero shipment of the README, and the properties at it.
use tally_agentic_memory.Prelude.{
  ℕ, ◌+◌, ◌-◌, ◌*◌, ◌/◌, ◌≡◌, ◌≢◌, ◌↔◌, ◌⊎◌, refl, String, true, none, some, List, [], ◌∷◌, length,
  All, Pairwise, arith, str_eq, if◌then◌else◌,
}
use tally_agentic_memory.Prelude.Int.{pos}
use tally_agentic_memory.Prelude.Json
use tally_agentic_memory.Prelude.Sort.{sort}
use tally_agentic_memory.Prelude.Time.{Datetime, Calendar, aware, day_micros}
use tally_agentic_memory.Reconstruction.Events.{
  NormalizedEvent, RawEventRow, terminal_access_snapshot, validate_events, check_row, event_type_of,
  read_times, normalized,
}
use tally_agentic_memory.Reconstruction.Days.{
  ChargeBoundary, complete, needs_evidence, insufficient_evidence, resolve_charge_boundary,
  adjudicate_day, adjudicate_charged_days, resolve_terminal_state, effective_timezone,
}
use tally_agentic_memory.Reconstruction.Access.{
  AccessSnapshotFacts, verify_access_snapshot, IsBindable, passed-IsBindable,
}
use tally_agentic_memory.Reconstruction.Adjudication.{
  Adjudicates, Adjudicates-day, IsComplete, complete_exact,
}
use tally_agentic_memory.Reconstruction.Window.{Establishes, resolve-Establishes, snapshot_zone}
use tally_agentic_memory.Reconstruction.Validation.{From}
use tally_agentic_memory.Reconstruction.Ordering.{Before}
use tally_agentic_memory.Reconstruction.Timeline.{Apart, validated-From, validated-IsSorted}

-- A time at noon UTC of a day, whose ordinal is taken for its number.
abbrev noon : ℕ → Datetime
noon day = record { wall = day * day_micros + 43200000000; east = day_micros }

-- Reads "7" and "8" as the noons of days 7 and 8, and all else as the noon of day 14. The zone is
-- seven hours behind UTC.
abbrev calendar : Calendar
calendar = record {
  datetime_fromisoformat =
      λ s. some (aware (if str_eq s "7" then noon 7 else if str_eq s "8" then noon 8 else noon 14));
  date_fromisoformat = λ s. none;
  date_in_zone = λ zone t. (t.wall + 61200000000 - t.east) / day_micros;
}

abbrev row : String → String → String → RawEventRow
row ref event_type time = record {
  public_ref = ref;
  event_type = event_type;
  shipment_ref = "S1";
  container_ref = "C1";
  source_public_ref = "src";
  source_verification_state = "VERIFIED";
  display_anchor = "";
  provenance_classification = "";
  occurred_at = time;
  recorded_at = time;
  observed_at = none;
  effective_from = none;
  effective_to = none;
  normalized_facts = Json.null;
}

-- A gate-out, an end of free time, the same once more, and a row with no verified source.
abbrev rows : List RawEventRow
rows =
    row "E4" "GATE_OUT" "14"
    ∷ row "E2" "AVAILABLE" "7"
    ∷ row "E3" "FREE_TIME_END" "7"
    ∷ row "E3" "FREE_TIME_END" "7"
    ∷ record (row "E5" "GATE_OUT" "8") { source_verification_state = "PENDING" }
    ∷ []

abbrev events : List NormalizedEvent
events = (validate_events calendar (noon 20) "S1" "C1" rows).accepted

three_accepted : length events ≡ 3
unfolding validate_events check_row event_type_of read_times normalized sort
three_accepted = refl

boundary_found :
    resolve_charge_boundary calendar effective_timezone events
    ≡ some (record { first_chargeable_date = 8; last_chargeable_date = 14 })
unfolding validate_events check_row event_type_of read_times normalized sort resolve_charge_boundary
boundary_found = refl

validated-From_example :
    All (From calendar (noon 20) "S1" "C1" rows) events
    × (length events + length (validate_events calendar (noon 20) "S1" "C1" rows).rejected
        ≡ length rows)
validated-From_example = validated-From calendar (noon 20) "S1" "C1" rows

validated-IsSorted_example : Pairwise Before events × Pairwise Apart events
validated-IsSorted_example = validated-IsSorted calendar (noon 20) "S1" "C1" rows

abbrev june : ChargeBoundary
june = record { first_chargeable_date = 8; last_chargeable_date = 14 }

abbrev billed : List ℕ
billed = 8 ∷ 9 ∷ []

complete_exact_example :
    ((resolve_terminal_state (adjudicate_charged_days (pos 35000) "USD" events (some june) billed)
        ≡ complete)
      ↔ ((billed ≢ []) × All (IsComplete (pos 35000) "USD" events (some june)) billed))
    × ((resolve_terminal_state (adjudicate_charged_days (pos 35000) "USD" events (some june) billed)
          ≡ complete)
        ⊎ (resolve_terminal_state
              (adjudicate_charged_days (pos 35000) "USD" events (some june) billed)
            ≡ needs_evidence))
complete_exact_example = complete_exact (pos 35000) "USD" events (some june) billed

Adjudicates-day_example : Adjudicates (pos 35000) "USD" events (some june) 15
Adjudicates-day_example = Adjudicates-day (pos 35000) "USD" events (some june) 15

resolve-Establishes_example :
    (resolve_charge_boundary calendar effective_timezone events ≡ some june)
    ↔ Establishes calendar effective_timezone events june
resolve-Establishes_example = resolve-Establishes calendar effective_timezone events june

abbrev facts : AccessSnapshotFacts
facts = record {
  public_ref = "A1";
  container_ref = "C1";
  snapshot_date = 11;
  exact_source_verified = true;
  access_status = "AVAILABLE";
  gate_status = "OPEN";
  blocking_hold = "NONE";
}

passed-IsBindable_example :
    (((verify_access_snapshot facts "C1" 11).passed ≡ true) ↔ IsBindable facts "C1" 11)
    × (((verify_access_snapshot facts "C1" 11).reason_code ≡ none)
        ↔ ((verify_access_snapshot facts "C1" 11).passed ≡ true))
passed-IsBindable_example = passed-IsBindable facts "C1" 11

-- 02:00 UTC of day 12 is still day 11 in the zone of the scenario.
abbrev snapshot : NormalizedEvent
snapshot = record {
  public_ref = "A1";
  event_type = terminal_access_snapshot;
  shipment_ref = "S1";
  container_ref = "C1";
  source_public_ref = "src";
  display_anchor = "";
  provenance_classification = "";
  occurred_at = record { wall = 12 * day_micros + 7200000000; east = day_micros };
  recorded_at = noon 12;
  observed_at = none;
  effective_from = none;
  effective_to = none;
  normalized_facts = Json.null;
}

snapshot_zone_example :
    (adjudicate_day (pos 35000) "USD" (snapshot ∷ []) (some june) 11).state ≡ insufficient_evidence
snapshot_zone_example =
    snapshot_zone calendar [] snapshot [] (pos 35000) "USD" (some june) refl refl tt tt
      (λ e. absurd (omega arith))
