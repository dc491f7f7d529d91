-- ===== src/Reconstruction/Validation.antt =====
-- What a validated event is, whatever rows come back from memory.
use tally_agentic_memory.Prelude.{
  ◌+◌, ◌≤◌, ◌≡◌, ◌⊎◌, inl, inr, refl, String, false, some, List, [], ◌∷◌, any, All, length, arith,
  Option-cases, eq_iff,
}
use tally_agentic_memory.Prelude.Time.{Datetime, Calendar, instant}
use tally_agentic_memory.Reconstruction.Events.{
  ShipmentEventType, event_type_of, NormalizedEvent, RawEventRow, EventValidation, Key, Times,
  Check, accept, reject, same_key, normalized, read_times, check_row, validate_from,
}

module _ (calendar : Calendar) (knowledge_cutoff : Datetime)
    (shipment_ref container_ref : String) where
  -- A row that may become the event: its source is verified, its type is allowed, it is of this
  -- shipment and container, its times parse, and it was recorded by the cutoff.
  pub record Admits (row : RawEventRow) (event : NormalizedEvent) : Type 0 where
    pub verified : row.source_verification_state ≡ "VERIFIED"
    pub shipment : row.shipment_ref ≡ shipment_ref
    pub container : row.container_ref ≡ container_ref
    pub event_type : ShipmentEventType
    pub allowed : event_type_of row.event_type ≡ some event_type
    pub times : Times
    pub parsed : read_times calendar row ≡ some times
    pub by_cutoff : instant times.recorded ≤ instant knowledge_cutoff
    pub made : event ≡ normalized row event_type times

  abbrev pub check : List Key → RawEventRow → Check
  check = check_row calendar knowledge_cutoff shipment_ref container_ref

  pub accept-Admits :
      (seen : List Key) (row : RawEventRow) (key : Key) (event : NormalizedEvent)
      → check seen row ≡ accept key event
      → Admits row event × (any (same_key key) seen ≡ false)
  unfolding check_row
  accept-Admits seen row key event h = elim (Option-cases (event_type_of row.event_type)) [
    | inl e ↦ absurd (ground arith)
    | inr (t, e) ↦ elim (Option-cases (read_times calendar row)) [
      | inl k ↦ absurd (ground arith)
      | inr (ts, k) ↦ (
        record {
          verified = ground (arith, eq_iff row.source_verification_state "VERIFIED");
          shipment = ground (arith, eq_iff row.shipment_ref shipment_ref);
          container = ground (arith, eq_iff row.container_ref container_ref);
          event_type = t;
          allowed = e;
          times = ts;
          parsed = k;
          by_cutoff = ground arith;
          made = ground arith;
        },
        ground arith,
      )
    ]
  ]

  -- The key of an admissible row.
  abbrev pub key_of : (row : RawEventRow) (event : NormalizedEvent) → Key
  key_of row event = (row.event_type, event.occurred_at)

  pub Admits-check :
      (seen : List Key) (row : RawEventRow) (event : NormalizedEvent)
      → Admits row event
      → any (same_key (key_of row event)) seen ≡ false
      → check seen row ≡ accept (key_of row event) event
  unfolding check_row normalized
  Admits-check seen row event a fresh = ground (
    arith,
    a.verified,
    a.shipment,
    a.container,
    a.allowed,
    a.parsed,
    a.by_cutoff,
    a.made,
    eq_iff row.source_verification_state "VERIFIED",
    eq_iff row.shipment_ref shipment_ref,
    eq_iff row.container_ref container_ref,
  )

  -- One of the rows admits the event.
  abbrev pub From : List RawEventRow → NormalizedEvent → Type 0
  From [] event = ⊥
  From (row ∷ rows) event = Admits row event ⊎ From rows event

  abbrev pub from : List Key → List RawEventRow → EventValidation
  from = validate_from calendar knowledge_cutoff shipment_ref container_ref

  later :
      (row : RawEventRow) (rows : List RawEventRow) (events : List NormalizedEvent)
      → All (From rows) events
      → All (From (row ∷ rows)) events
  later row rows [] h = tt
  later row rows (e ∷ events) h = (inr h.0, later row rows events h.1)

  pub Check-cases :
      (c : Check)
      → ((key : Key) × (event : NormalizedEvent) × (c ≡ accept key event))
        ⊎ ((code : String) × (c ≡ reject code))
  Check-cases (accept key event) = inl (key, event, refl)
  Check-cases (reject code) = inr (code, refl)

  -- One turn of the loop.
  pub from-accept :
      (seen : List Key) (row : RawEventRow) {key : Key} {event : NormalizedEvent}
      (rows : List RawEventRow)
      → check seen row ≡ accept key event
      → let rest = from (key ∷ seen) rows in
        from seen (row ∷ rows)
        ≡ record { accepted = event ∷ rest.accepted; rejected = rest.rejected }
  unfolding validate_from
  from-accept seen row rows e = rw (e, validate_from)

  pub from-reject :
      (seen : List Key) (row : RawEventRow) {code : String} (rows : List RawEventRow)
      → check seen row ≡ reject code
      → let rest = from seen rows in
        from seen (row ∷ rows)
        ≡ record { accepted = rest.accepted; rejected = (row.public_ref, code) ∷ rest.rejected }
  unfolding validate_from
  from-reject seen row rows e = rw (e, validate_from)

  pub validate_from-From :
      (seen : List Key) (rows : List RawEventRow) → All (From rows) (from seen rows).accepted
  validate_from-From seen [] = unfold validate_from in tt
  validate_from-From seen (row ∷ rows) = elim (Check-cases (check seen row)) [
    | inl (key, event, e) ↦ rw (from-accept seen row rows e) (
      inl (accept-Admits seen row key event e).0,
      later row rows _ (validate_from-From (key ∷ seen) rows),
    )
    | inr (code, e) ↦
        rw (from-reject seen row rows e) (later row rows _ (validate_from-From seen rows))
  ]

  pub length-from :
      (seen : List Key) (rows : List RawEventRow)
      → length (from seen rows).accepted + length (from seen rows).rejected ≡ length rows
  length-from seen [] = unfold validate_from in omega arith
  length-from seen (row ∷ rows) = elim (Check-cases (check seen row)) [
    | inl (key, event, e) ↦
        rw (from-accept seen row rows e) (omega (arith, length-from (key ∷ seen) rows))
    | inr (code, e) ↦ rw (from-reject seen row rows e) (omega (arith, length-from seen rows))
  ]
