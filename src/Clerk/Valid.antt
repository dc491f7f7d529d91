-- ===== src/Clerk/Valid.antt =====
-- Which invoices the clerk's verdict passes.
use mathlib.Core.Path.{subst}
use tally_agentic_memory.Prelude.{
  ℕ, ◌+◌, ◌≤◌, ◌<◌, ◌≡◌, ◌↔◌, refl, sym, inl, inr, String, true, false, Option, none, some, List,
  [], ◌∷◌, All, arith, Bool-cases, if◌then◌else◌,
}
use tally_agentic_memory.Prelude.Int.{pos, ltb_ℤ, sub_ℕ}
use tally_agentic_memory.Clerk.Timing.{
  WindowResult, Dates, is_blank, parse_given, window_of, check_timing, window_days,
}
use tally_agentic_memory.Clerk.Verdict.{FieldResult, absent_of, verdict_for, compute_verdict}

pub sub_below : (i l : ℕ) → (ltb_ℤ (sub_ℕ i l) (pos 0) ≡ true) ↔ (i < l)
sub_below i l = (λ h. ground (arith, h), λ h. ground (arith, h))

pub sub_late : (i l : ℕ) → (ltb_ℤ (pos 30) (sub_ℕ i l) ≡ true) ↔ (l + 30 < i)
sub_late i l = (λ h. ground (arith, h), λ h. ground (arith, h))

abbrev pub AllPresent : List FieldResult → Type 0
AllPresent = All (λ r. r.present ≡ true)

pub absent-AllPresent : (rs : List FieldResult) → (absent_of rs ≡ []) ↔ AllPresent rs
unfolding absent_of
absent-AllPresent [] = (λ h. tt, λ h. refl)
absent-AllPresent (r ∷ rs) =
    let (to, from) = absent-AllPresent rs in
    (λ h. (ground (arith, h), to (ground (arith, h))), λ h. ground (arith, h.0, from h.1))

-- What passes the window: two dates, the invoice's from the last charge's to 30 days after it.
abbrev pub InWindow : Option ℕ → Option ℕ → Type 0
InWindow invoice last =
    (i : ℕ) × (l : ℕ) × (invoice ≡ some i) × (last ≡ some l) × (l ≤ i) × (i ≤ l + 30)

abbrev Passes : WindowResult → Type 0
Passes w = (w.ambiguous ≡ false) × (w.within_30 ≡ some true)

window-InWindow :
    (dates : Dates) (invoice last : Option ℕ)
    → Passes (window_of dates invoice last) ↔ InWindow invoice last
unfolding window_of
window-InWindow dates none last = (λ h. cc (h.0), λ h. cc (h.2))
window-InWindow dates (some i) none = (λ h. cc (h.0), λ h. cc (h.3))
window-InWindow dates (some i) (some l) = (
  λ h. (i, l, refl, refl, ground (arith, h.0), ground (arith, h.0, h.1)),
  λ h.
      let a : i ≡ h.0 = cc (h.2) in
      let b : l ≡ h.1 = cc (h.3) in (ground (arith, a, b, h.4), ground (arith, a, b, h.4, h.5)),
)

verdict-Passes :
    (dates : Dates) (invoice last : Option ℕ)
    → ((verdict_for [] (window_of dates invoice last)).0 ≡ "VALID")
      ↔ Passes (window_of dates invoice last)
unfolding verdict_for window_of
verdict-Passes dates none last = (λ h. cc, λ h. cc (h.0))
verdict-Passes dates (some i) none = (λ h. cc, λ h. cc (h.0))
verdict-Passes dates (some i) (some l) = elim (Bool-cases (ltb_ℤ (sub_ℕ i l) (pos 0))) [
  | inl e ↦ rw e (λ h. cc (h), λ h. cc (h.0))
  | inr e ↦ elim (Bool-cases (ltb_ℤ window_days (sub_ℕ i l))) [
    | inl f ↦ rw e (rw f (λ h. cc (h), λ h. cc (h.1)))
    | inr f ↦ rw e (rw f (λ h. (refl, refl), λ h. refl))
  ]
]

missing_defective :
    (rs : List FieldResult) (w : WindowResult) → (verdict_for rs w).0 ≡ "VALID" → rs ≡ []
unfolding verdict_for
missing_defective [] w h = refl
missing_defective (r ∷ rs) w h = cc

-- A date text, where there is one that is not empty.
abbrev pub given : Dates → Option String → Option String → Option ℕ
given dates raw hint = if is_blank dates raw then none else parse_given dates raw hint

module _ (dates : Dates) (invoice_date_raw last_charge_date_raw hint : Option String) where
  abbrev pub timing : WindowResult
  timing = check_timing dates invoice_date_raw last_charge_date_raw hint

  abbrev pub invoice_date : Option ℕ
  invoice_date = given dates invoice_date_raw hint

  abbrev pub last_charge_date : Option ℕ
  last_charge_date = given dates last_charge_date_raw hint

  timing-Passes : Passes timing ↔ InWindow invoice_date last_charge_date
  unfolding check_timing
  timing-Passes = elim (Bool-cases (is_blank dates invoice_date_raw)) [
    | inl e ↦ rw e (λ h. cc (h.0), λ h. cc (h.2))
    | inr e ↦ elim (Bool-cases (is_blank dates last_charge_date_raw)) [
      | inl f ↦ rw (e, f) (λ h. cc (h.0), λ h. cc (h.3))
      | inr f ↦
          rw (e, f)
            (window-InWindow dates (parse_given dates invoice_date_raw hint)
              (parse_given dates last_charge_date_raw hint))
    ]
  ]

  verdict_timing-Passes : ((verdict_for [] timing).0 ≡ "VALID") ↔ Passes timing
  unfolding check_timing
  verdict_timing-Passes = elim (Bool-cases (is_blank dates invoice_date_raw)) [
    | inl e ↦ rw e (verdict-Passes dates none none)
    | inr e ↦ elim (Bool-cases (is_blank dates last_charge_date_raw)) [
      | inl f ↦ rw (e, f) (verdict-Passes dates none none)
      | inr f ↦
          rw (e, f)
            (verdict-Passes dates (parse_given dates invoice_date_raw hint)
              (parse_given dates last_charge_date_raw hint))
    ]
  ]

  -- The verdict is VALID exactly if every field is present and both dates are given and parse, the
  -- invoice's date not before that of the last charge and at most 30 days after it.
  pub valid_exact :
      (field_results : List FieldResult)
      → ((compute_verdict field_results timing).0 ≡ "VALID")
        ↔ (AllPresent field_results × InWindow invoice_date last_charge_date)
  unfolding compute_verdict
  valid_exact rs =
      let (to, from) = verdict_timing-Passes in
      (
        λ h.
            let e : absent_of rs ≡ [] = missing_defective (absent_of rs) timing h in
            (
              (absent-AllPresent rs).0 e,
              timing-Passes.0 (to (subst (λ x. (verdict_for x timing).0 ≡ "VALID") e h)),
            ),
        λ h.
            subst (λ x. (verdict_for x timing).0 ≡ "VALID") (sym ((absent-AllPresent rs).1 h.0))
              (from (timing-Passes.1 h.1)),
      )
