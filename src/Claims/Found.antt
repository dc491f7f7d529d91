-- ===== src/Claims/Found.antt =====
-- What an anchor says, and when there is one.
use mathlib.Core.Path.{subst}
use tally_agentic_memory.Prelude.{
  ℕ, suc, ◌≡◌, ◌↔◌, refl, sym, ap, ◌∙◌, inl, inr, String, true, false, Option, some, List, [], ◌∷◌,
  map, is_empty, is_some, arith, Bool-cases, Option-cases,
}
use tally_agentic_memory.Prelude.Python.{Python, concat}
use tally_agentic_memory.Prelude.Text.{codes}
use tally_agentic_memory.Tables.{PdfAnchor}
use tally_agentic_memory.Claims.Anchor.{
  Value, Floats, Word, Page, tokens, word_token, first_match, Occurs, first_match_sound,
  first_match_complete,
}
use tally_agentic_memory.Claims.Located.{spaced, page_of, anchor_of, locate_pdf_anchor}
use tally_agentic_memory.Claims.First.{
  IsPage, page_of-IsPage, IsPage-page_of, OccursFirst, first_match-OccursFirst,
}

module _ (python : Python) (upper : List ℕ → List ℕ) {F : Type 0} (floats : Floats F) where
  anchor_some :
      (n : ℕ) (page : Page F) (ms : List (Word F))
      → is_empty ms ≡ false
      → is_some (anchor_of python upper floats n page ms) ≡ true
  unfolding anchor_of
  anchor_some n page [] h = cc
  anchor_some n page (w ∷ ws) h = refl

  found_words :
      (ts : List (List ℕ)) (ws : List (Word F))
      → Occurs upper ts ws
      → is_some (first_match upper ts ws) ≡ true
  found_words ts ws (before, ms, after, w, t) =
      subst (λ us. is_some (first_match upper us ws) ≡ true) t
        (subst (λ xs. is_some (first_match upper (map (word_token upper) ms) xs) ≡ true) (sym w)
          (first_match_complete upper before ms after))

  some_words :
      (ms : List (Word F)) (ts : List (List ℕ))
      → map (word_token upper) ms ≡ ts
      → is_empty ts ≡ false
      → is_empty ms ≡ false
  some_words [] ts e h = ap is_empty e ∙ h
  some_words (m ∷ ms) ts e h = refl

  found_anchored :
      (pages : List (Page F)) (page_number : Value) (text_excerpt : String) (n : ℕ) (page : Page F)
      → page_of pages page_number ≡ some (n, page)
      → is_empty (tokens upper (codes text_excerpt)) ≡ false
      → Occurs upper (tokens upper (codes text_excerpt)) page.words
      → is_some (locate_pdf_anchor python upper floats pages page_number text_excerpt) ≡ true
  unfolding locate_pdf_anchor
  found_anchored pages page_number text_excerpt n page e f occurs =
      let wanted = tokens upper (codes text_excerpt) in
      elim (Option-cases (first_match upper wanted page.words)) [
        | inl g ↦ absurd (ground (arith, g, found_words wanted page.words occurs))
        | inr (ms, g) ↦
            let (_, _, _, t) = first_match_sound upper wanted page.words ms g in
            ground (arith, e, f, g, anchor_some n page ms (some_words ms wanted t f))
      ]

  -- The words of an excerpt on a page.
  abbrev pub wanted : String → List (List ℕ)
  wanted text_excerpt = tokens upper (codes text_excerpt)

  -- When there is an anchor.
  abbrev pub IsOnPage : List (Page F) → Value → String → Type 0
  IsOnPage pages page_number text_excerpt =
      (n : ℕ) × (page : Page F) × IsPage pages page_number n page
      × (is_empty (wanted text_excerpt) ≡ false)
      × Occurs upper (wanted text_excerpt) page.words

  -- What an anchor says.
  abbrev pub SaysWhere : List (Page F) → Value → String → PdfAnchor → Type 0
  SaysWhere pages page_number text_excerpt anchor =
      (n : ℕ) × (page : Page F) × (ms : List (Word F)) × IsPage pages page_number n page
      × OccursFirst upper (wanted text_excerpt) page.words ms
      × (anchor.page_number ≡ suc n)
      × (anchor.text_excerpt ≡ concat (spaced (map (λ w. w.word) ms)))
      × (anchor.text_excerpt_sha256 ≡ python.sha256_hex anchor.text_excerpt)

  anchor_of-says :
      (n : ℕ) (page : Page F) (ms : List (Word F)) (anchor : PdfAnchor)
      → anchor_of python upper floats n page ms ≡ some anchor
      → (anchor.page_number ≡ n)
        × (anchor.text_excerpt ≡ concat (spaced (map (λ w. w.word) ms)))
        × (anchor.text_excerpt_sha256 ≡ python.sha256_hex anchor.text_excerpt)
  unfolding anchor_of
  anchor_of-says n page [] anchor h = absurd (cc h)
  anchor_of-says n page (w ∷ ws) anchor h =
      (ground (arith, h), ground (arith, h), ground (arith, h))

  abbrev located : List (Page F) → Value → String → Option PdfAnchor
  located = locate_pdf_anchor python upper floats

  -- The page, the words and the anchor that the search goes through.
  located_cases :
      (pages : List (Page F)) (page_number : Value) (text_excerpt : String) (anchor : PdfAnchor)
      → located pages page_number text_excerpt ≡ some anchor
      → (m : ℕ) × (page : Page F) × (ms : List (Word F)) × (page_of pages page_number
          ≡ some (m, page))
        × (is_empty (wanted text_excerpt) ≡ false)
        × (first_match upper (wanted text_excerpt) page.words ≡ some ms)
        × (anchor_of python upper floats m page ms ≡ some anchor)
  unfolding locate_pdf_anchor
  located_cases pages page_number text_excerpt anchor h =
      elim (Option-cases (page_of pages page_number)) [
        | inl e ↦ absurd (ground (arith, h, e))
        | inr ((m, page), e) ↦ elim (Bool-cases (is_empty (wanted text_excerpt))) [
          | inl f ↦ absurd (ground (arith, h, e, f))
          | inr f ↦ elim (Option-cases (first_match upper (wanted text_excerpt) page.words)) [
            | inl g ↦ absurd (ground (arith, h, e, f, g))
            | inr (ms, g) ↦ (m, page, ms, e, f, g, ground (arith, h, e, f, g))
          ]
        ]
      ]

  on_page :
      (pages : List (Page F)) (page_number : Value) (text_excerpt : String)
      → IsOnPage pages page_number text_excerpt
      → (anchor : PdfAnchor) × (located pages page_number text_excerpt ≡ some anchor)
  on_page pages page_number text_excerpt (n, page, p, f, occurs) =
      let found =
        found_anchored pages page_number text_excerpt (suc n) page
          (IsPage-page_of pages page_number n page p) f occurs in
      elim (Option-cases (located pages page_number text_excerpt)) [
        | inl e ↦ absurd (ground (arith, found, e))
        | inr (anchor, e) ↦ (anchor, e)
      ]

  -- A claim has an anchor exactly if its page number is that of one of the pages, counted from 1, its
  -- excerpt has a token, and the tokens of the excerpt stand together among those of the page's words.
  -- The anchor then has that page number, and as its excerpt the first words with those tokens, with a
  -- space between any two, and the excerpt's digest.
  pub anchored_exactly :
      (pages : List (Page F)) (page_number : Value) (text_excerpt : String)
      → (((anchor : PdfAnchor) × (locate_pdf_anchor python upper floats pages page_number
                text_excerpt
              ≡ some anchor))
          ↔ IsOnPage pages page_number text_excerpt)
        × ((anchor : PdfAnchor)
            → locate_pdf_anchor python upper floats pages page_number text_excerpt ≡ some anchor
            → SaysWhere pages page_number text_excerpt anchor)
  anchored_exactly pages page_number text_excerpt = (
    (
      λ (anchor, h).
          let (m, page, ms, e, f, g, k) = located_cases pages page_number text_excerpt anchor h in
          let (n, _, p) = page_of-IsPage pages page_number m page e in
          let (before, after, w, t) =
            first_match_sound upper (wanted text_excerpt) page.words ms g in
          (n, page, p, f, (before, ms, after, w, t)),
      on_page pages page_number text_excerpt,
    ),
    λ anchor h.
        let (m, page, ms, e, f, g, k) = located_cases pages page_number text_excerpt anchor h in
        let (n, same, p) = page_of-IsPage pages page_number m page e in
        let (a, b, c) = anchor_of-says m page ms anchor k in
        (
          n,
          page,
          ms,
          p,
          first_match-OccursFirst upper (wanted text_excerpt) page.words ms g,
          a ∙ same,
          b,
          c,
        ),
  )
