-- ===== src/Events/Numbering.antt =====
-- The events of an invoice: their sequence numbers, and the status that they leave.
use mathlib.Core.Path.{subst}
use tally_agentic_memory.Prelude.{
  ℕ, ◌+◌, ◌≤◌, ◌<◌, ◌≡◌, ◌≢◌, ◌⊎◌, refl, sym, ap, ◌∙◌, inl, inr, String, Bool, false, Option, none,
  some, List, [], ◌∷◌, ◌++◌, find, All, Pairwise, arith, Bool-cases, str_eq, eq_iff, if◌then◌else◌,
}
use tally_agentic_memory.Intake.{IntakeState, status_value, project_aggregate_status}
use tally_agentic_memory.Tables.{Invoice, Event}
use tally_agentic_memory.Store.{update_where, advanced}

abbrev pub invoice_at : String → List Invoice → Option Invoice
invoice_at id is = find (λ i. str_eq i.id id) is

-- The sequence that an invoice has reached.
abbrev pub reached : Option Invoice → ℕ
reached none = 0
reached (some i) = i.status_sequence

abbrev Within : List Invoice → Event → Type 0
Within is e = (1 ≤ e.sequence) × (e.sequence ≤ reached (invoice_at e.invoice_id is))

abbrev Apart : Event → Event → Type 0
Apart d e = (d.invoice_id ≢ e.invoice_id) ⊎ (d.sequence ≢ e.sequence)

-- Every event lies within the sequence of its invoice, from 1 on, and no two events of an invoice have one
-- number; every invoice shows the status that its intake state projects to.
abbrev pub Numbered : List Invoice → List Event → Type 0
Numbered is es = All (Within is) es × Pairwise Apart es

abbrev Shows : Invoice → Type 0
Shows i =
    (i.aggregate_status ≡ status_value (project_aggregate_status i.intake_state false))
    × (i.status ≡ i.aggregate_status)

abbrev pub Projected : List Invoice → Type 0
Projected is = All Shows is

module _ (id : String) (s : IntakeState) (a : String) (k now : ℕ) (c : Option ℕ) where
  abbrev p : Invoice → Bool
  p j = str_eq j.id id

  abbrev step : Invoice → Invoice
  step j = if p j then advanced s a k now c j else j

  step-id : (j : Invoice) → (step j).id ≡ j.id
  unfolding advanced
  step-id j = elim (Bool-cases (p j)) [ inl e ↦ rw e refl | inr e ↦ rw e refl ]

  abbrev moved : List Invoice → List Invoice
  moved = update_where p (advanced s a k now c)

  -- The advance takes the invoice's sequence up by the increment, and no other's.
  reached-own :
      (is : List Invoice) (i : Invoice)
      → invoice_at id is ≡ some i
      → reached (invoice_at id (moved is)) ≡ i.status_sequence + k
  unfolding advanced
  reached-own [] i h = absurd (ground arith)
  reached-own (j ∷ is) i h = elim (Bool-cases (str_eq j.id id)) [
    | inl e ↦
        let same : j ≡ i = ground (arith, h, e) in
        ground (arith, e, ap (λ (x : Invoice). x.status_sequence) same)
    | inr e ↦ let r : invoice_at id is ≡ some i = rw e at h in rw (e, e) (reached-own is i r)
  ]

  reached-other :
      (key : String) (is : List Invoice)
      → key ≢ id
      → reached (invoice_at key (moved is)) ≡ reached (invoice_at key is)
  reached-other key [] n = refl
  reached-other key (j ∷ is) n = elim (Bool-cases (str_eq j.id key)) [
    | inl e ↦
        let same : j.id ≡ key = (eq_iff j.id key).0 e in
        let q : str_eq j.id id ≡ false = ground (arith, n, same, eq_iff j.id id) in
        ground (arith, q, e)
    | inr e ↦
        let g : str_eq (step j).id key ≡ false =
          subst (λ x. str_eq x key ≡ false) (sym (step-id j)) e in
        rw (g, e) (reached-other key is n)
  ]

  Within-moved :
      (is : List Invoice) (i : Invoice) (e : Event)
      → invoice_at id is ≡ some i
      → Within is e
      → Within (moved is) e
  Within-moved is i e h w = elim (Bool-cases (str_eq e.invoice_id id)) [
    | inl q ↦
        let same : e.invoice_id ≡ id = (eq_iff e.invoice_id id).0 q in
        let own : reached (invoice_at e.invoice_id (moved is)) ≡ i.status_sequence + k =
          ap (λ x. reached (invoice_at x (moved is))) same ∙ reached-own is i h in
        let old : reached (invoice_at e.invoice_id is) ≡ i.status_sequence =
          ap (λ x. reached (invoice_at x is)) same ∙ ap reached h in
        (w.0, omega (arith, w.1, own, old))
    | inr q ↦ (
      w.0,
      omega (
        arith,
        w.1,
        reached-other e.invoice_id is
            (λ x. absurd (ground (arith, q, (eq_iff e.invoice_id id).1 x))),
      ),
    )
  ]

  All-moved :
      (is : List Invoice) (i : Invoice) (es : List Event)
      → invoice_at id is ≡ some i
      → All (Within is) es
      → All (Within (moved is)) es
  All-moved is i [] h w = tt
  All-moved is i (e ∷ es) h w = (Within-moved is i e h w.0, All-moved is i es h w.1)

  -- A number beyond those that the invoice had reached is new to it.
  Apart-beyond :
      (is : List Invoice) (i : Invoice) (e : Event) (es : List Event)
      → invoice_at id is ≡ some i
      → e.invoice_id ≡ id
      → i.status_sequence < e.sequence
      → All (Within is) es
      → All (Apart e) es
  Apart-beyond is i e [] h q l w = tt
  Apart-beyond is i e (d ∷ es) h q l w = (
    elim (Bool-cases (str_eq e.invoice_id d.invoice_id)) [
      | inr n ↦ inl (λ x. absurd (ground (arith, n, (eq_iff e.invoice_id d.invoice_id).1 x)))
      | inl n ↦
          let same : d.invoice_id ≡ id = sym ((eq_iff e.invoice_id d.invoice_id).0 n) ∙ q in
          let old : reached (invoice_at d.invoice_id is) ≡ i.status_sequence =
            ap (λ x. reached (invoice_at x is)) same ∙ ap reached h in
          inr (λ x. absurd (omega (arith, x, l, old, w.0.1)))
    ],
    Apart-beyond is i e es h q l w.1,
  )

  Within-new :
      (is : List Invoice) (i : Invoice) (e : Event)
      → invoice_at id is ≡ some i
      → e.invoice_id ≡ id
      → 1 ≤ e.sequence
      → e.sequence ≤ i.status_sequence + k
      → Within (moved is) e
  Within-new is i e h q o l =
      let own : reached (invoice_at e.invoice_id (moved is)) ≡ i.status_sequence + k =
        ap (λ x. reached (invoice_at x (moved is))) q ∙ reached-own is i h in
      (o, omega (arith, l, own))

  -- One event, with the next number.
  pub Numbered-one :
      (is : List Invoice) (i : Invoice) (e : Event) (es : List Event)
      → invoice_at id is ≡ some i
      → e.invoice_id ≡ id
      → e.sequence ≡ i.status_sequence + 1
      → 1 ≤ k
      → Numbered is es
      → Numbered (moved is) (e ∷ es)
  Numbered-one is i e es h q n l (w, a) = (
    (Within-new is i e h q (omega (arith, n)) (omega (arith, n, l)), All-moved is i es h w),
    (Apart-beyond is i e es h q (omega (arith, n)) w, a),
  )

  -- Two events, with the next two.
  pub Numbered-two :
      (is : List Invoice) (i : Invoice) (d e : Event) (es : List Event)
      → invoice_at id is ≡ some i
      → d.invoice_id ≡ id
      → e.invoice_id ≡ id
      → d.sequence ≡ i.status_sequence + 1
      → e.sequence ≡ i.status_sequence + 2
      → 2 ≤ k
      → Numbered is es
      → Numbered (moved is) (e ∷ d ∷ es)
  Numbered-two is i d e es h p q m n l (w, a) = (
    (
      Within-new is i e h q (omega (arith, n)) (omega (arith, n, l)),
      (Within-new is i d h p (omega (arith, m)) (omega (arith, m, l)), All-moved is i es h w),
    ),
    (
      (inr (λ x. absurd (omega (arith, x, m, n))), Apart-beyond is i e es h q (omega (arith, n)) w),
      (Apart-beyond is i d es h p (omega (arith, m)) w, a),
    ),
  )

  -- A status that the state projects to is shown after the advance.
  pub Projected-moved :
      a ≡ status_value (project_aggregate_status s false)
      → (is : List Invoice) → Projected is
      → Projected (moved is)
  unfolding advanced
  Projected-moved h [] w = tt
  Projected-moved h (i ∷ is) w = (
    elim (Bool-cases (p i)) [ inl e ↦ rw e (h, refl) | inr e ↦ rw e w.0 ],
    Projected-moved h is w.1,
  )

invoice_at-append :
    (key : String) (is : List Invoice) (j : Invoice)
    → j.id ≢ key
    → invoice_at key (is ++ j ∷ []) ≡ invoice_at key is
invoice_at-append key [] j n = ground (arith, eq_iff j.id key, n)
invoice_at-append key (i ∷ is) j n = ground (arith, invoice_at-append key is j n)

invoice_at-last :
    (is : List Invoice) (j : Invoice)
    → invoice_at j.id is ≡ none
    → invoice_at j.id (is ++ j ∷ []) ≡ some j
invoice_at-last [] j h = ground (arith, (eq_iff j.id j.id).1 refl)
invoice_at-last (i ∷ is) j h = ground (arith, h, invoice_at-last is j)

module _ (is : List Invoice) (j : Invoice) (absent : invoice_at j.id is ≡ none) where
  -- An event of an invoice that is not there would lie in an empty range.
  elsewhere : (d : Event) → Within is d → j.id ≢ d.invoice_id
  elsewhere d w same =
      let zero_reached : reached (invoice_at d.invoice_id is) ≡ 0 =
        ap (λ x. reached (invoice_at x is)) (sym same) ∙ ap reached absent in
      absurd (omega (arith, w.0, w.1, zero_reached))

  Within-append : (d : Event) → Within is d → Within (is ++ j ∷ []) d
  Within-append d w =
      let same = ap reached (invoice_at-append d.invoice_id is j (elsewhere d w)) in
      (w.0, omega (arith, w.1, same))

  All-append_last : (es : List Event) → All (Within is) es → All (Within (is ++ j ∷ [])) es
  All-append_last [] w = tt
  All-append_last (d ∷ es) w = (Within-append d w.0, All-append_last es w.1)

  Apart-elsewhere :
      (e : Event) (es : List Event) → e.invoice_id ≡ j.id → All (Within is) es → All (Apart e) es
  Apart-elsewhere e [] q w = tt
  Apart-elsewhere e (d ∷ es) q w =
      (inl (λ x. elsewhere d w.0 (sym q ∙ x)), Apart-elsewhere e es q w.1)

  -- A new invoice with its first event.
  pub Numbered-opened :
      (e : Event) (es : List Event)
      → e.invoice_id ≡ j.id
      → e.sequence ≡ 1
      → j.status_sequence ≡ 1
      → Numbered is es
      → Numbered (is ++ j ∷ []) (e ∷ es)
  Numbered-opened e es q n m (w, a) =
      let own : reached (invoice_at e.invoice_id (is ++ j ∷ [])) ≡ j.status_sequence =
        ap (λ x. reached (invoice_at x (is ++ j ∷ []))) q
        ∙ ap reached (invoice_at-last is j absent) in
      (
        ((omega (arith, n), omega (arith, n, m, own)), All-append_last es w),
        (Apart-elsewhere e es q w, a),
      )

pub Projected-append :
    (is : List Invoice) (j : Invoice)
    → (j.aggregate_status ≡ status_value (project_aggregate_status j.intake_state false))
    → j.status ≡ j.aggregate_status
    → Projected is
    → Projected (is ++ j ∷ [])
Projected-append [] j h k w = ((h, k), tt)
Projected-append (i ∷ is) j h k w = (w.0, Projected-append is j h k w.1)
