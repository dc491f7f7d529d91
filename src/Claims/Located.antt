-- ===== src/Claims/Located.antt =====
-- src/core/intake_claims.py: locate_pdf_anchor.
use tally_agentic_memory.Prelude.{
  ℕ, zero, suc, String, Option, none, some, List, [], ◌∷◌, map, is_empty, if◌then◌else◌,
}
use tally_agentic_memory.Prelude.Int.{pos}
use tally_agentic_memory.Prelude.Json.{Json, field, end}
use tally_agentic_memory.Prelude.Python.{Python, concat}
use tally_agentic_memory.Prelude.Text.{codes}
use tally_agentic_memory.Tables.{PdfAnchor}
use tally_agentic_memory.Claims.Anchor.{Value, Floats, Word, Page, tokens, first_match}

-- `" ".join(texts)`
abbrev pub spaced : List String → List String
spaced [] = []
spaced (t ∷ []) = t ∷ []
spaced (t ∷ (u ∷ ts)) = t ∷ (" " ∷ spaced (u ∷ ts))

-- `pages[n]`
abbrev pub page_at {ℓ} : {A : Type ℓ} → List A → ℕ → Option A
page_at [] n = none
page_at (p ∷ pages) zero = some p
page_at (p ∷ pages) (suc n) = page_at pages n

-- The page of a `page_number`, which counts from 1.
unfoldable pub page_of {ℓ} : {A : Type ℓ} → List A → Value → Option (ℕ × A)
page_of pages (Value.number (pos (suc n))) = elim (page_at pages n) [
  | none ↦ none
  | some page ↦ some (suc n, page)
]
page_of pages _ = none

module _ (python : Python) (upper : List ℕ → List ℕ) {F : Type 0} (floats : Floats F) where
  -- `min(…)` and `max(…)` over the words after the first.
  abbrev pub fold : (F → F → F) → (Word F → F) → F → List (Word F) → F
  fold choose of x [] = x
  fold choose of x (w ∷ ws) = fold choose of (choose x (of w)) ws

  abbrev pub box_of : Page F → Word F → List (Word F) → Json
  box_of page w ws =
      let share : (F → F → F) → (Word F → F) → F → Json =
        λ choose of size. floats.json (floats.ratio (fold choose of (of w) ws) size) in
      Json.obj (
        field "x0" (share floats.least (λ v. v.x0) page.width) (
          field "top" (share floats.least (λ v. v.top) page.height) (
            field "x1" (share floats.greatest (λ v. v.x1) page.width)
              (field "bottom" (share floats.greatest (λ v. v.bottom) page.height) end))))

  -- The anchor of the words that match; there is at least one.
  unfoldable pub anchor_of : ℕ → Page F → List (Word F) → Option PdfAnchor
  anchor_of n page [] = none
  anchor_of n page (w ∷ ws) =
      let excerpt = concat (spaced (map (λ v. v.word) (w ∷ ws))) in
      some (record {
        page_number = n;
        bounding_box = box_of page w ws;
        text_excerpt = excerpt;
        text_excerpt_sha256 = python.sha256_hex excerpt;
      })

  unfoldable pub locate_pdf_anchor : List (Page F) → Value → String → Option PdfAnchor
  unfolding page_of anchor_of
  locate_pdf_anchor pages page_number text_excerpt = elim (page_of pages page_number) [
    | none ↦ none
    | some (n, page) ↦
        let wanted = tokens upper (codes text_excerpt) in
        if is_empty wanted then none else elim (first_match upper wanted page.words) [
          | none ↦ none
          | some ms ↦ anchor_of n page ms
        ]
  ]
