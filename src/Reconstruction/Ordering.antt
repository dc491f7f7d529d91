-- ===== src/Reconstruction/Ordering.antt =====
-- The order of the timeline, stated apart from the sort key.
use mathlib.Core.Path.{subst}
use tally_agentic_memory.Prelude.{
  ◌≡◌, ℕ, ◌<◌, ◌⊎◌, ◌++◌, ltb, refl, ap, Bool-cases, true, false, List, [], ◌∷◌, All, Pairwise,
  arith, inl, inr,
}
use tally_agentic_memory.Prelude.Text.{codes}
use tally_agentic_memory.Prelude.Sort.{IsSorted}
use tally_agentic_memory.Prelude.Time.{instant, codes_le, codes_le_total, codes_le_trans}
use tally_agentic_memory.Reconstruction.Events.{NormalizedEvent, event_le}

-- A text comes no later in the order by code points: it begins the other, or has the smaller one
-- where they first differ.
abbrev pub Precedes : List ℕ → List ℕ → Type 0
Precedes s t =
    ((rest : List ℕ) × (t ≡ s ++ rest))
    ⊎ ((front : List ℕ) × (c : ℕ) × (d : ℕ) × (u : List ℕ) × (v : List ℕ) × (s ≡ front ++ c ∷ u)
        × (t ≡ front ++ d ∷ v)
        × (c < d))

Precedes-cons : (c : ℕ) (s t : List ℕ) → Precedes s t → Precedes (c ∷ s) (c ∷ t)
Precedes-cons c s t (inl (rest, e)) = inl (rest, ap (λ u. c ∷ u) e)
Precedes-cons c s t (inr (front, a, b, u, v, e, f, h)) =
    inr (c ∷ front, a, b, u, v, ap (λ w. c ∷ w) e, ap (λ w. c ∷ w) f, h)

codes_le-Precedes : (s t : List ℕ) → codes_le s t ≡ true → Precedes s t
codes_le-Precedes [] t h = inl (t, refl)
codes_le-Precedes (c ∷ s) [] h = absurd (ground arith)
codes_le-Precedes (c ∷ s) (d ∷ t) h = elim (Bool-cases (ltb c d)) [
  | inl e ↦ inr ([], c, d, s, t, refl, refl, ground (arith, e))
  | inr e ↦
      let same : c ≡ d = ground (arith, h, e) in
      subst (λ x. Precedes (c ∷ s) (x ∷ t)) same
        (Precedes-cons c s t (codes_le-Precedes s t (ground (arith, h, e))))
]

-- An event occurs before another, or at the same instant with a public reference that comes no later.
abbrev pub Before : NormalizedEvent → NormalizedEvent → Type 0
Before e e' =
    (instant e.occurred_at < instant e'.occurred_at)
    ⊎ ((instant e.occurred_at ≡ instant e'.occurred_at)
        × Precedes (codes e.public_ref) (codes e'.public_ref))

event_le-Before : (e e' : NormalizedEvent) → event_le e e' ≡ true → Before e e'
event_le-Before e e' h = elim (Bool-cases (ltb (instant e.occurred_at) (instant e'.occurred_at))) [
  | inl k ↦ inl (ground (arith, k))
  | inr k ↦ inr (
    ground (arith, h, k),
    codes_le-Precedes (codes e.public_ref) (codes e'.public_ref) (ground (arith, h, k)),
  )
]

all-Before :
    (e : NormalizedEvent) (events : List NormalizedEvent)
    → All (λ e'. event_le e e' ≡ true) events
    → All (Before e) events
all-Before e [] h = tt
all-Before e (e' ∷ events) h = (event_le-Before e e' h.0, all-Before e events h.1)

pub IsSorted-Before :
    (events : List NormalizedEvent) → IsSorted event_le events → Pairwise Before events
IsSorted-Before [] h = tt
IsSorted-Before (e ∷ events) h = (all-Before e events h.0, IsSorted-Before events h.1)

pub event_le_total : (a b : NormalizedEvent) → event_le a b ≡ false → event_le b a ≡ true
event_le_total a b h = ground (arith, codes_le_total (codes a.public_ref) (codes b.public_ref))

pub event_le_trans :
    (a b c : NormalizedEvent) → event_le a b ≡ true → event_le b c ≡ true → event_le a c ≡ true
event_le_trans a b c h k =
    ground (arith, codes_le_trans (codes a.public_ref) (codes b.public_ref) (codes c.public_ref))
