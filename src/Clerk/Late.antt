-- ===== src/Clerk/Late.antt =====
-- Which invoices the clerk's verdict calls late, and what its summary says of them.
use mathlib.Core.Path.{subst}
use tally_agentic_memory.Prelude.{
  ℕ, ◌+◌, ◌<◌, ◌≡◌, ◌↔◌, refl, sym, ap, inl, inr, String, Option, none, some, List, [], ◌∷◌, arith,
  str_eq, eq_iff, Bool-cases,
}
use tally_agentic_memory.Prelude.Int.{pos, ltb_ℤ, sub_ℕ}
use tally_agentic_memory.Clerk.Timing.{
  WindowResult, Dates, is_blank, parse_given, window_of, check_timing, window_days,
}
use tally_agentic_memory.Clerk.Verdict.{
  FieldResult, cite_for_field, absent_of, verdict_for, compute_verdict, summary_for, build_summary,
}
use tally_agentic_memory.Clerk.Valid.{
  sub_below, sub_late, AllPresent, absent-AllPresent, timing, invoice_date, last_charge_date,
}

abbrev late_verdict : String × Option String
late_verdict = ("DEFECTIVE", some "30-day window")

literals_differ : ◌≡◌ {A = String} "541.6(a)(7)" "30-day window" → ⊥
literals_differ p = cc ((eq_iff "541.6(a)(7)" "30-day window").1 p)

-- No field is cited as the window.
not_window : (key : String) → cite_for_field key ≡ some "30-day window" → ⊥
unfolding cite_for_field
not_window key = elim (Bool-cases (str_eq key "proper_party_basis")) [
  | inl e ↦ rw e (λ h. literals_differ (ap (λ o. elim o [ none ↦ "" | some c ↦ c ]) h))
  | inr e ↦ rw e (λ h. cc h)
]

missing_late :
    (rs : List FieldResult) (w : WindowResult) → verdict_for rs w ≡ late_verdict → rs ≡ []
unfolding verdict_for
missing_late [] w h = refl
missing_late (r ∷ rs) w h = absurd (not_window r.key (ap (λ v. v.1) h))

-- What is late: two dates, the invoice's more than 30 days after the last charge's.
abbrev pub ExceedsWindow : Option ℕ → Option ℕ → Type 0
ExceedsWindow invoice last = (i : ℕ) × (l : ℕ) × (invoice ≡ some i) × (last ≡ some l) × (l + 30 < i)

verdict-ExceedsWindow :
    (dates : Dates) (invoice last : Option ℕ)
    → (verdict_for [] (window_of dates invoice last) ≡ late_verdict) ↔ ExceedsWindow invoice last
unfolding verdict_for window_of
verdict-ExceedsWindow dates none last = (λ h. cc, λ h. cc (h.2))
verdict-ExceedsWindow dates (some i) none = (λ h. cc, λ h. cc (h.3))
verdict-ExceedsWindow dates (some i) (some l) = elim (Bool-cases (ltb_ℤ (sub_ℕ i l) (pos 0))) [
  | inl e ↦ rw e (
    λ h. cc (h),
    λ (j, m, a, b, k).
        let p : i ≡ j = cc a in
        let q : l ≡ m = cc b in absurd (ground (arith, p, q, k, (sub_below i l).0 e)),
  )
  | inr e ↦ elim (Bool-cases (ltb_ℤ window_days (sub_ℕ i l))) [
    | inl f ↦ rw e (rw f (λ h. (i, l, refl, refl, (sub_late i l).0 f), λ h. refl))
    | inr f ↦ rw e (
        rw f (
          λ h. cc (h),
          λ (j, m, a, b, k).
              let p : i ≡ j = cc a in
              let q : l ≡ m = cc b in
              absurd (ground (arith, f, p, q, (sub_late i l).1 (ground (arith, p, q, k)))),
        ))
  ]
]

module _ (dates : Dates) (invoice_date_raw last_charge_date_raw hint : Option String) where
  abbrev result : WindowResult
  result = timing dates invoice_date_raw last_charge_date_raw hint

  verdict_timing-ExceedsWindow :
      (verdict_for [] result ≡ late_verdict)
      ↔ ExceedsWindow
          (invoice_date dates invoice_date_raw last_charge_date_raw hint)
          (last_charge_date dates invoice_date_raw last_charge_date_raw hint)
  unfolding check_timing window_of verdict_for
  verdict_timing-ExceedsWindow = elim (Bool-cases (is_blank dates invoice_date_raw)) [
    | inl e ↦ rw e (λ h. cc h, λ h. cc (h.2))
    | inr e ↦ elim (Bool-cases (is_blank dates last_charge_date_raw)) [
      | inl f ↦ rw (e, f) (λ h. cc h, λ h. cc (h.3))
      | inr f ↦
          rw (e, f)
            (verdict-ExceedsWindow dates (parse_given dates invoice_date_raw hint)
              (parse_given dates last_charge_date_raw hint))
    ]
  ]

  -- The verdict is DEFECTIVE by the 30-day window exactly if every field is present and both dates are
  -- given and parse, the invoice's date more than 30 days after that of the last charge; and then the
  -- summary of the verdict says that the window could not be determined.
  pub late_summary :
      (field_results : List FieldResult)
      → ((compute_verdict field_results result ≡ ("DEFECTIVE", some "30-day window")) ↔ (
          AllPresent field_results
          × ExceedsWindow
              (invoice_date dates invoice_date_raw last_charge_date_raw hint)
              (last_charge_date dates invoice_date_raw last_charge_date_raw hint)))
        × ((compute_verdict field_results result ≡ ("DEFECTIVE", some "30-day window"))
            → build_summary (compute_verdict field_results result).0 field_results
              ≡ "Timing window could not be confidently determined.")
  unfolding compute_verdict build_summary summary_for
  late_summary rs =
      let (to, from) = verdict_timing-ExceedsWindow in
      (
        (
          λ h.
              let e : absent_of rs ≡ [] = missing_late (absent_of rs) result h in
              (
                (absent-AllPresent rs).0 e,
                to (subst (λ x. verdict_for x result ≡ late_verdict) e h),
              ),
          λ h.
              subst (λ x. verdict_for x result ≡ late_verdict) (sym ((absent-AllPresent rs).1 h.0))
                (from h.1),
        ),
        λ h. rw (h, missing_late (absent_of rs) result h) refl,
      )
