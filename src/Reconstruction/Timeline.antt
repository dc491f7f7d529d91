-- ===== src/Reconstruction/Timeline.antt =====
-- The accepted events as a timeline: in order, and with no event twice.
use mathlib.Core.Path.{subst}
use tally_agentic_memory.Prelude.{
  ◌+◌, ◌≡◌, sym, String, false, some, List, [], ◌∷◌, any, All, Pairwise, length, arith,
  Option-cases, eq_iff, inl, inr,
}
use tally_agentic_memory.Prelude.Sort.{All-sort, sort-IsSorted, length-sort, Pairwise-sort}
use tally_agentic_memory.Prelude.Time.{Datetime, Calendar}
use tally_agentic_memory.Reconstruction.Events.{
  ShipmentEventType, discharged, available, free_time_start, free_time_end, gate_out,
  terminal_access_snapshot, event_type_of, NormalizedEvent, RawEventRow, EventValidation, Key,
  accept, same_key, normalized, read_times, check_row, validate_from, validate_events, event_le,
}
use tally_agentic_memory.Reconstruction.Validation.{
  From, check, from, from-accept, from-reject, validate_from-From, length-from, Check-cases,
}
use tally_agentic_memory.Reconstruction.Ordering.{
  Before, IsSorted-Before, event_le_total, event_le_trans,
}

-- The text of an event type.
abbrev type_text : ShipmentEventType → String
type_text discharged = "DISCHARGED"
type_text available = "AVAILABLE"
type_text free_time_start = "FREE_TIME_START"
type_text free_time_end = "FREE_TIME_END"
type_text gate_out = "GATE_OUT"
type_text terminal_access_snapshot = "TERMINAL_ACCESS_SNAPSHOT"

type_text-event_type_of :
    (s : String) (t : ShipmentEventType) → event_type_of s ≡ some t → s ≡ type_text t
unfolding event_type_of
type_text-event_type_of s t h = ground (
  arith,
  eq_iff s "DISCHARGED",
  eq_iff s "AVAILABLE",
  eq_iff s "FREE_TIME_START",
  eq_iff s "FREE_TIME_END",
  eq_iff s "GATE_OUT",
  eq_iff s "TERMINAL_ACCESS_SNAPSHOT",
)

abbrev event_key : NormalizedEvent → Key
event_key e = (type_text e.event_type, e.occurred_at)

-- Two events differ in type, or in the text of the time at which they occurred.
abbrev pub Apart : NormalizedEvent → NormalizedEvent → Type 0
Apart e e' = ¬ ((e.event_type ≡ e'.event_type) × (e.occurred_at ≡ e'.occurred_at))

abbrev Fresh : List Key → NormalizedEvent → Type 0
Fresh seen e = any (same_key (event_key e)) seen ≡ false

-- What the loop keeps of the events accepted after `seen`.
abbrev Good : List Key → EventValidation → Type 0
Good seen v = All (Fresh seen) v.accepted × Pairwise Apart v.accepted

Apart-symm : (e e' : NormalizedEvent) → Apart e e' → Apart e' e
Apart-symm e e' h p = h (sym p.0, sym p.1)

Apart-key : (e e' : NormalizedEvent) → same_key (event_key e') (event_key e) ≡ false → Apart e e'
Apart-key e e' h p =
    ground (arith, p.0, p.1, eq_iff (type_text e'.event_type) (type_text e.event_type))

Fresh-tail :
    (k : Key) (seen : List Key) (events : List NormalizedEvent)
    → All (Fresh (k ∷ seen)) events
    → All (Fresh seen) events
Fresh-tail k seen [] h = tt
Fresh-tail k seen (e ∷ events) h = (ground (arith, h.0), Fresh-tail k seen events h.1)

Fresh-Apart :
    (e : NormalizedEvent) (seen : List Key) (events : List NormalizedEvent)
    → All (Fresh (event_key e ∷ seen)) events
    → All (Apart e) events
Fresh-Apart e seen [] h = tt
Fresh-Apart e seen (e' ∷ events) h =
    (Apart-key e e' (ground (arith, h.0)), Fresh-Apart e seen events h.1)

module _ (calendar : Calendar) (knowledge_cutoff : Datetime)
    (shipment_ref container_ref : String) where
  accept-key :
      (seen : List Key) (row : RawEventRow) (key : Key) (event : NormalizedEvent)
      → check calendar knowledge_cutoff shipment_ref container_ref seen row ≡ accept key event
      → (key ≡ event_key event) × Fresh seen event
  unfolding check_row normalized
  accept-key seen row key event h = elim (Option-cases (event_type_of row.event_type)) [
    | inl e ↦ absurd (ground arith)
    | inr (t, e) ↦ elim (Option-cases (read_times calendar row)) [
      | inl k ↦ absurd (ground arith)
      | inr (ts, k) ↦
          let same : row.event_type ≡ type_text t = type_text-event_type_of row.event_type t e in
          let keys : key ≡ event_key event = ground (arith, same) in
          (keys, rw (← keys) (ground arith))
    ]
  ]

  abbrev loop : List Key → List RawEventRow → List NormalizedEvent
  loop seen rows = (from calendar knowledge_cutoff shipment_ref container_ref seen rows).accepted

  loop-Fresh :
      (seen : List Key) (rows : List RawEventRow)
      → All (Fresh seen) (loop seen rows) × Pairwise Apart (loop seen rows)
  loop-Fresh seen [] = unfold validate_from in (tt, tt)
  loop-Fresh seen (row ∷ rows) =
      elim (Check-cases calendar knowledge_cutoff shipment_ref container_ref
        (check calendar knowledge_cutoff shipment_ref container_ref seen row)) [
          | inl (key, event, e) ↦
              let (k, fresh) = accept-key seen row key event e in
              let (f, p) = loop-Fresh (key ∷ seen) rows in
              subst (Good seen)
                (sym (
                  from-accept calendar knowledge_cutoff shipment_ref container_ref seen row rows e))
                (
                  (fresh, Fresh-tail key seen _ f),
                  (
                    Fresh-Apart event seen _
                        (subst (λ x. All (Fresh (x ∷ seen)) (loop (key ∷ seen) rows)) k f),
                    p,
                  ),
                )
          | inr (code, e) ↦
              subst (Good seen)
                (sym (
                  from-reject calendar knowledge_cutoff shipment_ref container_ref seen row rows e))
                (loop-Fresh seen rows)
        ]

  abbrev validated : List RawEventRow → EventValidation
  validated = validate_events calendar knowledge_cutoff shipment_ref container_ref

  -- Every accepted event comes from a row that admits it, so that its source is verified, it is of this
  -- shipment and container and it was recorded by the cutoff; and each row is accepted or rejected.
  pub validated-From :
      (rows : List RawEventRow)
      → All
          (From calendar knowledge_cutoff shipment_ref container_ref rows)
          (validated rows).accepted
        × (length (validated rows).accepted + length (validated rows).rejected ≡ length rows)
  unfolding validate_events
  validated-From rows = (
    All-sort event_le _ _
        (validate_from-From calendar knowledge_cutoff shipment_ref container_ref [] rows),
    omega (
      arith,
      length-sort event_le (loop [] rows),
      length-from calendar knowledge_cutoff shipment_ref container_ref [] rows,
    ),
  )

  -- Of two accepted events, the one that stands first occurred at an earlier instant, or at the same
  -- instant with a public reference that comes no later by code points; and no two of them have the
  -- same type and the same time that occurred.
  pub validated-IsSorted :
      (rows : List RawEventRow)
      → Pairwise Before (validated rows).accepted × Pairwise Apart (validated rows).accepted
  unfolding validate_events
  validated-IsSorted rows = (
    IsSorted-Before _ (sort-IsSorted event_le event_le_total event_le_trans (loop [] rows)),
    Pairwise-sort event_le Apart Apart-symm (loop [] rows) (loop-Fresh [] rows).1,
  )
