-- ===== src/Reconstruction/Window.antt =====
-- The chargeable window, and the date that a snapshot sources.
use tally_agentic_memory.Prelude.{
  ℕ, ◌+◌, ◌≤◌, ◌≡◌, ◌≢◌, ◌↔◌, sym, refl, String, Bool, true, false, Option, none, some, List, [],
  ◌∷◌, ◌++◌, find, any, All, arith, Option-cases, inl, inr,
}
use tally_agentic_memory.Prelude.Int.{ℤ}
use tally_agentic_memory.Prelude.Time.{Calendar, date_of}
use tally_agentic_memory.Reconstruction.Events.{
  free_time_end, gate_out, terminal_access_snapshot, NormalizedEvent,
}
use tally_agentic_memory.Reconstruction.Adjudication.{is_snapshot_of, Adjudicates-day}
use tally_agentic_memory.Reconstruction.Days.{
  snapshot_date, has_type, ChargeBoundary, insufficient_evidence, resolve_charge_boundary,
  adjudicate_day, effective_timezone,
}

module _ (calendar : Calendar) (tz_name : String) (events : List NormalizedEvent) where
  abbrev local : NormalizedEvent → ℕ
  local e = calendar.date_in_zone tz_name e.occurred_at

  -- The events that establish a window: the first end of free time and the first gate-out.
  pub record Establishes (b : ChargeBoundary) : Type 0 where
    pub free_time : NormalizedEvent
    pub gate : NormalizedEvent
    pub free_time_first : find (has_type free_time_end) events ≡ some free_time
    pub gate_first : find (has_type gate_out) events ≡ some gate
    pub first_day : b.first_chargeable_date ≡ local free_time + 1
    pub last_day : b.last_chargeable_date ≡ local gate
    pub nonempty : b.first_chargeable_date ≤ b.last_chargeable_date

  resolve→Establishes :
      (b : ChargeBoundary)
      → resolve_charge_boundary calendar tz_name events ≡ some b
      → Establishes b
  unfolding resolve_charge_boundary
  resolve→Establishes b h = elim (Option-cases (find (has_type free_time_end) events)) [
    | inl e ↦ absurd (ground arith)
    | inr (f, e) ↦ elim (Option-cases (find (has_type gate_out) events)) [
      | inl k ↦ absurd (ground arith)
      | inr (g, k) ↦ record {
        free_time = f;
        gate = g;
        free_time_first = e;
        gate_first = k;
        first_day = ground arith;
        last_day = ground arith;
        nonempty = ground arith;
      }
    ]
  ]

  Establishes→resolve :
      (b : ChargeBoundary)
      → Establishes b
      → resolve_charge_boundary calendar tz_name events ≡ some b
  unfolding resolve_charge_boundary
  Establishes→resolve b w =
      ground (arith, w.free_time_first, w.gate_first, w.first_day, w.last_day, w.nonempty)

  -- The window is established exactly by the first end of free time and the first gate-out: it begins
  -- on the local day after the former, ends on the local day of the latter, and is not empty.
  pub resolve-Establishes :
      (b : ChargeBoundary)
      → (resolve_charge_boundary calendar tz_name events ≡ some b) ↔ Establishes b
  resolve-Establishes b = (resolve→Establishes b, Establishes→resolve b)

no_other :
    (p q : NormalizedEvent → Bool) (events : List NormalizedEvent)
    → All (λ e. p e ≡ false) events
    → ((e : NormalizedEvent) → p e ≡ false → q e ≡ false)
    → any q events ≡ false
no_other p q [] h k = refl
no_other p q (e ∷ events) h k = ground (arith, no_other p q events h.1 k, k e h.0)

-- A snapshot with no effective date sources the date of its own offset, and no other.
not_snapshot_of :
    (date : ℕ) (before : List NormalizedEvent) (snapshot : NormalizedEvent)
    (after : List NormalizedEvent)
    → snapshot.effective_from ≡ none
    → All (λ e. has_type terminal_access_snapshot e ≡ false) before
    → All (λ e. has_type terminal_access_snapshot e ≡ false) after
    → date_of snapshot.occurred_at ≢ date
    → any (is_snapshot_of date) (before ++ snapshot ∷ after) ≡ false
unfolding snapshot_date
not_snapshot_of date [] snapshot after e h k n = ground (
  arith,
  no_other (has_type terminal_access_snapshot) (is_snapshot_of date) after k (λ a l. ground arith),
)
not_snapshot_of date (b ∷ before) snapshot after e h k n =
    ground (arith, h.0, not_snapshot_of date before snapshot after e h.1 k n)

snapshot_among :
    (before : List NormalizedEvent) (snapshot : NormalizedEvent) (after : List NormalizedEvent)
    → has_type terminal_access_snapshot snapshot ≡ true
    → any (has_type terminal_access_snapshot) (before ++ snapshot ∷ after) ≡ true
snapshot_among [] snapshot after t = ground (arith, t)
snapshot_among (b ∷ before) snapshot after t =
    ground (arith, snapshot_among before snapshot after t)

-- The only access snapshot has no effective date, and its date in its own offset is another than its
-- local date: then its local date is left without evidence, whatever the other events and the window.
pub snapshot_zone :
    (calendar : Calendar) (before : List NormalizedEvent) (snapshot : NormalizedEvent)
    (after : List NormalizedEvent) (rate : ℤ) (currency : String) (boundary : Option ChargeBoundary)
    → has_type terminal_access_snapshot snapshot ≡ true
    → snapshot.effective_from ≡ none
    → All (λ e. has_type terminal_access_snapshot e ≡ false) before
    → All (λ e. has_type terminal_access_snapshot e ≡ false) after
    → calendar.date_in_zone effective_timezone snapshot.occurred_at ≢ date_of snapshot.occurred_at
    → (adjudicate_day rate currency
        (before ++ snapshot ∷ after)
        boundary
        (calendar.date_in_zone effective_timezone snapshot.occurred_at)).state
      ≡ insufficient_evidence
snapshot_zone calendar before snapshot after rate currency boundary t e h k n =
    let date = calendar.date_in_zone effective_timezone snapshot.occurred_at in
    let events = before ++ snapshot ∷ after in
    (Adjudicates-day rate currency events boundary date).withholds.1 (
      inl λ s. cc (
        not_snapshot_of date before snapshot after e h k (λ p. n (sym p)),
        s.access (snapshot_among before snapshot after t),
      ))
