-- ===== src/Reconstruction/Adjudication.antt =====
-- When a billed date is sourced, excluded or left without evidence.
use tally_agentic_memory.Prelude.{
  ℕ, ◌≤◌, ◌==◌, ◌≡◌, ◌≢◌, ◌↔◌, ◌⊎◌, inl, inr, refl, String, Bool, true, false, not, ◌&&◌, ◌||◌,
  Option, none, some, List, [], ◌∷◌, any, all, All, is_empty, arith, Bool-cases, is_empty-filter,
  is_some-find,
}
use tally_agentic_memory.Prelude.Int.{ℤ}
use tally_agentic_memory.Reconstruction.Events.{
  available, free_time_end, gate_out, terminal_access_snapshot, NormalizedEvent,
}
use tally_agentic_memory.Reconstruction.Days.{
  has_type, snapshot_date, missing_of, ChargeBoundary, ChargedDayResult, source_complete,
  insufficient_evidence, excluded_not_chargeable, adjudicate_day, adjudicate_charged_days, complete,
  needs_evidence, resolve_terminal_state, is_complete,
}

abbrev pub Holds : (NormalizedEvent → Bool) → List NormalizedEvent → Type 0
Holds p events = any p events ≡ true

abbrev pub is_snapshot_of : ℕ → NormalizedEvent → Bool
is_snapshot_of date e = has_type terminal_access_snapshot e && snapshot_date e == date

-- The three events of the whole window are there, and, where there are access snapshots at all, one
-- of this date.
pub record IsSourced (events : List NormalizedEvent) (date : ℕ) : Type 0 where
  pub availability : any (has_type available) events ≡ true
  pub free_time : any (has_type free_time_end) events ≡ true
  pub gate : any (has_type gate_out) events ≡ true
  pub access :
      any (has_type terminal_access_snapshot) events ≡ true
      → any (is_snapshot_of date) events ≡ true

abbrev pub IsWithin : ChargeBoundary → ℕ → Type 0
IsWithin b date = (b.first_chargeable_date ≤ date) × (date ≤ b.last_chargeable_date)

module _ (events : List NormalizedEvent) (date : ℕ) where
  sourced : Bool
  sourced =
      any (has_type available) events
      && any (has_type free_time_end) events
      && any (has_type gate_out) events
      && (not (any (has_type terminal_access_snapshot) events) || any (is_snapshot_of date) events)

  missing-sourced : is_empty (missing_of events date) ≡ sourced
  unfolding missing_of sourced
  missing-sourced = ground (
    arith,
    is_empty-filter (has_type available) events,
    is_empty-filter (has_type free_time_end) events,
    is_empty-filter (has_type gate_out) events,
    is_some-find (is_snapshot_of date) events,
  )

  sourced-IsSourced : (sourced ≡ true) ↔ IsSourced events date
  unfolding sourced
  sourced-IsSourced = (
    λ h. record {
      availability = ground arith;
      free_time = ground arith;
      gate = ground arith;
      access = λ k. ground arith;
    },
    λ h. ground (arith, h.availability, h.free_time, h.gate, h.access),
  )

module _ (invoice_rate_minor : ℤ) (currency : String) (events : List NormalizedEvent)
    (boundary : Option ChargeBoundary) where
  abbrev pub day : ℕ → ChargedDayResult
  day = adjudicate_day invoice_rate_minor currency events boundary

  pub record Adjudicates (date : ℕ) : Type 0 where
    pub completes :
        ((day date).state ≡ source_complete)
        ↔ (IsSourced events date × ((b : ChargeBoundary) × (boundary ≡ some b) × IsWithin b date))
    pub excludes : ((day date).state ≡ excluded_not_chargeable) ↔ (
        IsSourced events date × ((b : ChargeBoundary) × (boundary ≡ some b) × (¬ IsWithin b date)))
    pub withholds :
        ((day date).state ≡ insufficient_evidence) ↔ ((¬ IsSourced events date) ⊎ (boundary ≡ none))
    pub names : ((day date).missing_requirements ≡ []) ↔ ((day date).state ≢ insufficient_evidence)

  module _ (date : ℕ) where
    complete→ :
        (day date).state ≡ source_complete
        → (sourced events date ≡ true)
          × ((b : ChargeBoundary) × (boundary ≡ some b) × IsWithin b date)
    unfolding adjudicate_day
    complete→ h = ground (arith, missing-sourced events date)

    complete← :
        sourced events date ≡ true
        → (b : ChargeBoundary) → boundary ≡ some b
        → IsWithin b date
        → (day date).state ≡ source_complete
    unfolding adjudicate_day
    complete← s b e w = ground (arith, missing-sourced events date)

    excluded→ :
        (day date).state ≡ excluded_not_chargeable
        → (sourced events date ≡ true)
          × ((b : ChargeBoundary) × (boundary ≡ some b) × (¬ IsWithin b date))
    unfolding adjudicate_day
    excluded→ h = ground (arith, missing-sourced events date)

    excluded← :
        sourced events date ≡ true
        → (b : ChargeBoundary) → boundary ≡ some b
        → ¬ IsWithin b date
        → (day date).state ≡ excluded_not_chargeable
    unfolding adjudicate_day
    excluded← s b e w = ground (arith, missing-sourced events date)

    insufficient→ :
        (day date).state ≡ insufficient_evidence → (sourced events date ≡ false) ⊎ (boundary ≡ none)
    unfolding adjudicate_day
    insufficient→ h = ground (arith, missing-sourced events date)

    insufficient← :
        (sourced events date ≡ false) ⊎ (boundary ≡ none) → (day date).state ≡ insufficient_evidence
    unfolding adjudicate_day
    insufficient← h = ground (arith, missing-sourced events date)

    named : ((day date).missing_requirements ≡ []) ↔ ((day date).state ≢ insufficient_evidence)
    unfolding adjudicate_day
    named = (λ h e. ground (arith), λ h. ground (arith))

    not_sourced : (sourced events date ≡ false) ↔ (¬ IsSourced events date)
    not_sourced = (
      λ h g. cc (h, (sourced-IsSourced events date).1 g),
      λ h. elim (Bool-cases (sourced events date)) [
        | inl e ↦ absurd (h ((sourced-IsSourced events date).0 e))
        | inr e ↦ e
      ],
    )

    -- A billed date is complete exactly if it is sourced and lies in the window, excluded exactly if it
    -- is sourced and a window is established that it lies outside of, and without evidence exactly if
    -- it is not sourced or no window is established. The missing requirements are empty exactly if
    -- the date is not without evidence.
    pub Adjudicates-day : Adjudicates date
    Adjudicates-day =
        let (to, from) = sourced-IsSourced events date in
        record {
          completes = (
            λ h. (to (complete→ h).0, (complete→ h).1),
            λ h. complete← (from h.0) h.1.0 h.1.1 h.1.2,
          );
          excludes = (
            λ h. (to (excluded→ h).0, (excluded→ h).1),
            λ h. excluded← (from h.0) h.1.0 h.1.1 h.1.2,
          );
          withholds = (
            λ h. elim (insufficient→ h) [ inl s ↦ inl (not_sourced.0 s) | inr b ↦ inr b ],
            λ h. insufficient← (elim h [ inl s ↦ inl (not_sourced.1 s) | inr b ↦ inr b ]),
          );
          names = named;
        }

  -- A date that the reconstruction completes.
  abbrev pub IsComplete : ℕ → Type 0
  IsComplete date =
      IsSourced events date × ((b : ChargeBoundary) × (boundary ≡ some b) × IsWithin b date)

  abbrev results : List ℕ → List ChargedDayResult
  results = adjudicate_charged_days invoice_rate_minor currency events boundary

  all-IsComplete :
      (dates : List ℕ) → (all is_complete (results dates) ≡ true) ↔ All IsComplete dates
  unfolding adjudicate_charged_days
  all-IsComplete [] = (λ h. tt, λ h. refl)
  all-IsComplete (date ∷ dates) =
      let (to, from) = all-IsComplete dates in
      let (here, there) = (Adjudicates-day date).completes in
      (λ h. (here (ground arith), to (ground arith)), λ h. ground (arith, there h.0, from h.1))

  all_of :
      (dates : List ℕ)
      → resolve_terminal_state (results dates) ≡ complete
      → all is_complete (results dates) ≡ true
  unfolding resolve_terminal_state
  all_of dates h = ground arith

  -- A reconstruction is complete exactly if it bills a date and every billed date is sourced and lies
  -- in the chargeable window; else it needs evidence.
  pub complete_exact :
      (dates : List ℕ)
      → ((resolve_terminal_state (results dates) ≡ complete)
          ↔ ((dates ≢ []) × All IsComplete dates))
        × ((resolve_terminal_state (results dates) ≡ complete)
            ⊎ (resolve_terminal_state (results dates) ≡ needs_evidence))
  unfolding resolve_terminal_state adjudicate_charged_days
  complete_exact [] = ((λ h. absurd (ground arith), λ h. absurd (h.0 refl)), inr refl)
  complete_exact (date ∷ dates) =
      let all_iff = all-IsComplete (date ∷ dates) in
      (
        (λ h. (λ e. cc, all_iff.0 (all_of (date ∷ dates) h)), λ h. ground (arith, all_iff.1 h.1)),
        ground arith,
      )
