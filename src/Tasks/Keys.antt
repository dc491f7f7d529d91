-- ===== src/Tasks/Keys.antt =====
-- The primary key of `workflow_tasks`: how updates and inserts change what a task's id finds.
use mathlib.Core.Path.{subst}
use tally_agentic_memory.Prelude.{
  ◌≡◌, ◌≢◌, refl, sym, ap, ◌∙◌, inl, inr, String, Bool, true, false, Option, none, some, List, [],
  ◌∷◌, ◌++◌, find, All, Pairwise, str_eq, eq_iff, if◌then◌else◌, arith, Bool-cases,
}
use tally_agentic_memory.Tables.{Task}
use tally_agentic_memory.Store.{update_where}

-- The task with an id, in a list.
abbrev pub lookup : String → List Task → Option Task
lookup id ws = find (λ w. str_eq w.id id) ws

-- No two tasks have one id.
abbrev pub Keyed : List Task → Type 0
Keyed ws = Pairwise (λ v w. v.id ≢ w.id) ws

abbrev pub KeepsId : (Task → Task) → Type 0
KeepsId f = (w : Task) → (f w).id ≡ w.id

module _ (p : Task → Bool) (f : Task → Task) (keeps : KeepsId f) where
  abbrev pub step : Task → Task
  step w = if p w then f w else w

  pub step-id : (w : Task) → (step w).id ≡ w.id
  step-id w = elim (Bool-cases (p w)) [ inl e ↦ rw e (keeps w) | inr e ↦ rw e refl ]

  pub lookup-update_where :
      (id : String) (ws : List Task) (w : Task)
      → lookup id ws ≡ some w
      → lookup id (update_where p f ws) ≡ some (step w)
  lookup-update_where id [] w h = absurd (ground arith)
  lookup-update_where id (v ∷ ws) w h = elim (Bool-cases (str_eq v.id id)) [
    | inl e ↦
        let same : v ≡ w = ground (arith, h, e) in
        let g : str_eq (step v).id id ≡ true =
          subst (λ i. str_eq i id ≡ true) (sym (step-id v)) e in
        rw g (ap (λ u. some (step u)) same)
    | inr e ↦
        let k : lookup id ws ≡ some w = rw e at h in
        let g : str_eq (step v).id id ≡ false =
          subst (λ i. str_eq i id ≡ false) (sym (step-id v)) e in
        rw g (lookup-update_where id ws w k)
  ]

  others-update_where :
      (id : String) (ws : List Task)
      → All (λ w. id ≢ w.id) ws
      → All (λ w. id ≢ w.id) (update_where p f ws)
  others-update_where id [] h = tt
  others-update_where id (w ∷ ws) h = (λ e. h.0 (e ∙ step-id w), others-update_where id ws h.1)

  pub Keyed-update_where : (ws : List Task) → Keyed ws → Keyed (update_where p f ws)
  Keyed-update_where [] h = tt
  Keyed-update_where (w ∷ ws) h = (
    subst (λ i. All (λ v. i ≢ v.id) (update_where p f ws)) (sym (step-id w))
        (others-update_where w.id ws h.0),
    Keyed-update_where ws h.1,
  )

pub lookup-append :
    (id : String) (ws vs : List Task) (w : Task)
    → lookup id ws ≡ some w
    → lookup id (ws ++ vs) ≡ some w
lookup-append id [] vs w h = absurd (ground arith)
lookup-append id (v ∷ ws) vs w h = elim (Bool-cases (str_eq v.id id)) [
  | inl e ↦ rw e (let k : some v ≡ some w = rw e at h in k)
  | inr e ↦ rw e (lookup-append id ws vs w (let k : lookup id ws ≡ some w = rw e at h in k))
]

others_append :
    (id : String) (ws : List Task) (v : Task)
    → All (λ w. id ≢ w.id) ws
    → id ≢ v.id
    → All (λ w. id ≢ w.id) (ws ++ v ∷ [])
others_append id [] v h n = (n, tt)
others_append id (w ∷ ws) v h n = (h.0, others_append id ws v h.1 n)

pub Keyed-append :
    (ws : List Task) (v : Task) → Keyed ws → lookup v.id ws ≡ none → Keyed (ws ++ v ∷ [])
Keyed-append [] v h n = (tt, tt)
Keyed-append (w ∷ ws) v h n = (
  others_append w.id ws v h.0 (λ e. absurd (ground (arith, (eq_iff w.id v.id).1 e))),
  Keyed-append ws v h.1 (ground arith),
)

-- A task of the list is the one that its id finds.
lookup_later :
    (id : String) (v : Task) (ws : List Task) (w : Task)
    → v.id ≢ id
    → lookup id ws ≡ some w
    → lookup id (v ∷ ws) ≡ some w
lookup_later id v ws w n h = ground (arith, eq_iff v.id id)

found_later :
    (v : Task) (ws us : List Task)
    → All (λ w. v.id ≢ w.id) us
    → All (λ w. lookup w.id ws ≡ some w) us
    → All (λ w. lookup w.id (v ∷ ws) ≡ some w) us
found_later v ws [] n h = tt
found_later v ws (u ∷ us) n h = (lookup_later u.id v ws u n.0 h.0, found_later v ws us n.1 h.1)

pub Keyed-lookup : (ws : List Task) → Keyed ws → All (λ w. lookup w.id ws ≡ some w) ws
Keyed-lookup [] k = tt
Keyed-lookup (w ∷ ws) k =
    (ground (arith, (eq_iff w.id w.id).1 refl), found_later w ws ws k.0 (Keyed-lookup ws k.1))
