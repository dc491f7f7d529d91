-- ===== src/Claims/Passed.antt =====
-- What a validation without issues says of the claims.
use mathlib.Core.Path.{subst}
use tally_agentic_memory.Prelude.{
  ℕ, ◌+◌, ◌-◌, ◌≤◌, ltb, ◌≡◌, refl, sym, ap, ◌∙◌, inl, inr, String, Bool, true, false, some, List,
  [], ◌∷◌, ◌++◌, map, any, is_empty, arith, Bool-cases, Option-cases, str_eq,
}
use tally_agentic_memory.Prelude.Int.{ℤ, pos, ◌*ℤ◌, eqb_ℤ, eqb_ℤ_iff}
use tally_agentic_memory.Prelude.Python.{Python}
use tally_agentic_memory.Prelude.Result.{ok, Result-cases}
use tally_agentic_memory.Prelude.Sort.{sort, insert}
use tally_agentic_memory.Tables.{ValidatedClaim, ClaimValidation, passed}
use tally_agentic_memory.Claims.Anchor.{Floats, Page}
use tally_agentic_memory.Claims.Located.{locate_pdf_anchor}
use tally_agentic_memory.Claims.Values.{Readers, normalize_claim}
use tally_agentic_memory.Claims.Validate.{
  Entry, required_claim_fields, entry_of, excerpt_of, insert_once, distinct, sorted_set, named,
  int_in, or_zero, is_amount, checked_excerpt, checked, raised, checked_fields, date_in,
  period_issue, total_issue, validate_extracted_claims,
}

module _ {ℓ} {A : Type ℓ} where
  insert_some : (le : A → A → Bool) (a : A) (xs : List A) → is_empty (insert le a xs) ≡ false
  unfolding insert
  insert_some le a [] = refl
  insert_some le a (x ∷ xs) = ground arith

  sort_some : (le : A → A → Bool) (x : A) (xs : List A) → is_empty (sort le (x ∷ xs)) ≡ false
  unfolding sort
  sort_some le x xs = insert_some le x (sort le xs)

  empty_sort : (le : A → A → Bool) (xs : List A) → is_empty (sort le xs) ≡ true → xs ≡ []
  empty_sort le [] h = refl
  empty_sort le (x ∷ xs) h = absurd (ground (arith, h, sort_some le x xs))

  empty_left : (xs ys : List A) → xs ++ ys ≡ [] → xs ≡ []
  empty_left [] ys h = refl
  empty_left (x ∷ xs) ys h = absurd (ground (arith, h))

  empty_right : (xs ys : List A) → xs ++ ys ≡ [] → ys ≡ []
  empty_right [] ys h = h
  empty_right (x ∷ xs) ys h = absurd (ground (arith, h))

once_some : (s : String) (xs : List String) → insert_once s xs ≡ [] → ⊥
once_some s [] h = ground (arith, h)
once_some s (x ∷ xs) h = ground (arith, h)

empty_distinct : (issues : List String) → distinct issues ≡ [] → issues ≡ []
empty_distinct [] h = refl
empty_distinct (s ∷ issues) h = absurd (once_some s (distinct issues) h)

empty_issues : (issues : List String) → is_empty (sorted_set issues) ≡ true → issues ≡ []
unfolding sorted_set
empty_issues issues h = empty_distinct issues (empty_sort _ (distinct issues) h)

-- A field whose name is among those of the claims has a claim.
named-some :
    (name : String) (claims : List ValidatedClaim)
    → any (λ n. str_eq n name) (map (λ (c : ValidatedClaim). c.field_name) claims) ≡ true
    → (c : ValidatedClaim) × (named name claims ≡ some c)
named-some name [] h = absurd (ground (arith, h))
named-some name (c ∷ claims) h = elim (Bool-cases (str_eq c.field_name name)) [
  | inl e ↦ (c, ground (arith, e))
  | inr e ↦ let (d, f) = named-some name claims (ground (arith, h, e)) in (d, ground (arith, e, f))
]

module _ (python : Python) (readers : Readers) (upper : List ℕ → List ℕ) {F : Type 0}
    (floats : Floats F) (pages : List (Page F)) where
  checked_name :
      (entries : List (String × Entry)) (name : String) (c : ValidatedClaim)
      → checked python readers upper floats pages entries name ≡ ok c
      → c.field_name ≡ name
  unfolding checked checked_excerpt
  checked_name entries name c h = elim (Option-cases (entry_of entries name)) [
    | inl e ↦ absurd (ground (arith, h, e))
    | inr (entry, e) ↦ elim (Option-cases (excerpt_of entry)) [
      | inl f ↦ absurd (ground (arith, h, e, f))
      | inr (excerpt, f) ↦
          elim (Option-cases
            (locate_pdf_anchor python upper floats pages entry.page_number excerpt)) [
              | inl g ↦ absurd (ground (arith, h, e, f, g))
              | inr (anchor, g) ↦
                  elim (Option-cases (normalize_claim python readers name entry.value)) [
                    | inl k ↦ absurd (ground (arith, h, e, f, g, k))
                    | inr (n, k) ↦ ground (arith, h, e, f, g, k)
                  ]
            ]
    ]
  ]

  all_checked :
      (entries : List (String × Entry)) (names : List String)
      → (checked_fields python readers upper floats pages entries names).1 ≡ []
      → map
          (λ (c : ValidatedClaim). c.field_name)
          (checked_fields python readers upper floats pages entries names).0
        ≡ names
  unfolding checked_fields
  all_checked entries [] h = refl
  all_checked entries (name ∷ names) h =
      elim (Result-cases (checked python readers upper floats pages entries name)) [
        | inr (i, e) ↦ absurd (ground (arith, h, e))
        | inl (c, e) ↦
            let same = checked_name entries name c e in
            ground (arith, e, same, all_checked entries names (ground (arith, h, e)))
      ]

  -- The charged days are those of the period, and the total is that of the days at the daily rate.
  abbrev pub AddsUp : List ValidatedClaim → Type 0
  AddsUp claims =
      (start : ValidatedClaim) × (stop : ValidatedClaim) × (days : ValidatedClaim)
      × (rate : ValidatedClaim) × (total : ValidatedClaim) × (first : ℕ) × (last : ℕ) × ((named
              "period_start" claims
            ≡ some start)
          × (date_in python readers upper floats pages start ≡ some first))
      × ((named "period_end" claims ≡ some stop)
          × (date_in python readers upper floats pages stop ≡ some last))
      × (first ≤ last)
      × ((named "charged_days" claims ≡ some days)
          × (int_in days.normalized_value ≡ some (pos (last - first + 1))))
      × (named "daily_rate" claims ≡ some rate)
      × ((named "total" claims ≡ some total)
          × (total.amount_minor ≡ some (or_zero rate.amount_minor *ℤ pos (last - first + 1))))

  period_adds :
      (claims : List ValidatedClaim) (s e d : ValidatedClaim)
      → named "period_start" claims ≡ some s
      → named "period_end" claims ≡ some e
      → named "charged_days" claims ≡ some d
      → period_issue python readers upper floats pages claims ≡ ok []
      → (first : ℕ) × (last : ℕ) × (date_in python readers upper floats pages s ≡ some first)
        × (date_in python readers upper floats pages e ≡ some last)
        × (first ≤ last)
        × (int_in d.normalized_value ≡ some (pos (last - first + 1)))
  unfolding period_issue
  period_adds claims s e d f g k h =
      elim (Option-cases (date_in python readers upper floats pages s)) [
        | inl a ↦ absurd (ground (arith, h, f, g, k, a))
        | inr (first, a) ↦ elim (Option-cases (date_in python readers upper floats pages e)) [
          | inl b ↦ absurd (ground (arith, h, f, g, k, a, b))
          | inr (last, b) ↦ elim (Option-cases (int_in d.normalized_value)) [
            | inl c ↦ absurd (ground (arith, h, f, g, k, a, b, c))
            | inr (days, c) ↦
                let order : ltb last first ≡ false = ground (arith, h, f, g, k, a, b, c) in
                let count : eqb_ℤ (pos (last - first + 1)) days ≡ true =
                  ground (arith, h, f, g, k, a, b, c, order) in
                let same = (eqb_ℤ_iff (pos (last - first + 1)) days).0 count in
                (first, last, a, b, ground (arith, order), c ∙ ap some (sym same))
          ]
        ]
      ]

  total_adds :
      (claims : List ValidatedClaim) (r d t : ValidatedClaim) (n : ℤ)
      → named "daily_rate" claims ≡ some r
      → named "charged_days" claims ≡ some d
      → named "total" claims ≡ some t
      → int_in d.normalized_value ≡ some n
      → total_issue python readers upper floats pages claims ≡ ok []
      → t.amount_minor ≡ some (or_zero r.amount_minor *ℤ n)
  unfolding total_issue
  total_adds claims r d t n f g k c h =
      let expected = or_zero r.amount_minor *ℤ n in
      let equal : is_amount expected t.amount_minor ≡ true = ground (arith, h, f, g, k, c) in
      elim (Option-cases t.amount_minor) [
        | inl e ↦ absurd (ground (arith, equal, e))
        | inr (m, e) ↦
            let count : eqb_ℤ expected m ≡ true = ground (arith, equal, e) in
            e ∙ ap some (sym ((eqb_ℤ_iff expected m).0 count))
      ]

  clean-AddsUp :
      (claims : List ValidatedClaim)
      → map (λ (c : ValidatedClaim). c.field_name) claims ≡ required_claim_fields
      → period_issue python readers upper floats pages claims ≡ ok []
      → total_issue python readers upper floats pages claims ≡ ok []
      → AddsUp claims
  clean-AddsUp claims names period total =
      let there : (name : String)
          → any (λ n. str_eq n name) required_claim_fields ≡ true
          → (c : ValidatedClaim) × (named name claims ≡ some c) =
        λ name r. named-some name claims (ap (any (λ n. str_eq n name)) names ∙ r) in
      let (s, a) = there "period_start" refl in
      let (e, b) = there "period_end" refl in
      let (d, c) = there "charged_days" refl in
      let (r, f) = there "daily_rate" refl in
      let (t, g) = there "total" refl in
      let (first, last, from, to, order, count) = period_adds claims s e d a b c period in
      (
        s,
        e,
        d,
        r,
        t,
        first,
        last,
        (a, from),
        (b, to),
        order,
        (c, count),
        f,
        (g, total_adds claims r d t (pos (last - first + 1)) f c g count total),
      )

  nothing_raised :
      (entries : List (String × Entry)) (v : ClaimValidation)
      → validate_extracted_claims python readers upper floats pages (some entries) ≡ ok v
      → any (raised python readers upper floats pages entries) required_claim_fields ≡ false
  unfolding validate_extracted_claims
  nothing_raised entries v h =
      elim (Bool-cases
        (any (raised python readers upper floats pages entries) required_claim_fields)) [
          | inl e ↦ absurd (ground (arith, h, e))
          | inr e ↦ e
        ]

  -- A validation with no issues has exactly the required fields, in their order; the charged days are
  -- those from the start to the end of the period, which is not before it, and the total is the daily
  -- rate times these days.
  pub passed-AddsUp :
      (entries : List (String × Entry)) (v : ClaimValidation)
      → validate_extracted_claims python readers upper floats pages (some entries) ≡ ok v
      → passed v ≡ true
      → (map (λ (c : ValidatedClaim). c.field_name) v.claims ≡ required_claim_fields)
        × AddsUp v.claims
  unfolding validate_extracted_claims passed
  passed-AddsUp entries v h p =
      let claims =
        (checked_fields python readers upper floats pages entries required_claim_fields).0 in
      let issues =
        (checked_fields python readers upper floats pages entries required_claim_fields).1 in
      let no_raise = nothing_raised entries v h in
      elim (Result-cases (period_issue python readers upper floats pages claims)) [
        | inr (x, e) ↦ absurd (ground (arith, h, no_raise, e))
        | inl (period, e) ↦
            elim (Result-cases (total_issue python readers upper floats pages claims)) [
              | inr (x, f) ↦ absurd (ground (arith, h, no_raise, e, f))
              | inl (total, f) ↦
                  let same : v ≡ record {
                    claims = claims;
                    issue_codes = sorted_set (issues ++ (period ++ total));
                  } =
                    ground (arith, h, no_raise, e, f) in
                  let none_left =
                    empty_issues (issues ++ (period ++ total))
                      (ap (λ (w : ClaimValidation). is_empty w.issue_codes) (sym same) ∙ p) in
                  let checks = empty_right issues (period ++ total) none_left in
                  let names =
                    all_checked entries required_claim_fields
                      (empty_left issues (period ++ total) none_left) in
                  let no_period = e ∙ ap ok (empty_left period total checks) in
                  let no_total = f ∙ ap ok (empty_right period total checks) in
                  let adds = clean-AddsUp claims names no_period no_total in
                  (
                    ap
                          (λ (w : ClaimValidation).
                            map (λ (c : ValidatedClaim). c.field_name) w.claims)
                          same
                        ∙ names,
                    subst (λ (w : ClaimValidation). AddsUp w.claims) (sym same) adds,
                  )
            ]
      ]
