-- ===== src/Claims/First.antt =====
-- The page with a number, and the first words with the tokens of an excerpt.
use mathlib.Core.Path.{subst}
use tally_agentic_memory.Prelude.{
  ℕ, zero, suc, ◌≤◌, ◌≡◌, refl, sym, ap, ◌∙◌, inl, inr, none, some, List, [], ◌∷◌, ◌++◌, map,
  length, arith, Option-cases,
}
use tally_agentic_memory.Prelude.Int.{pos, negsuc}
use tally_agentic_memory.Claims.Anchor.{
  Value, Word, Page, word_token, matched, first_match, matched_complete, matched_sound,
}
use tally_agentic_memory.Claims.Located.{page_at, page_of}

-- The element of a list before which so many stand.
abbrev pub StandsAt {ℓ} : {A : Type ℓ} → List A → ℕ → A → Type ℓ
StandsAt {A} xs n x =
    (before : List A) × (after : List A) × (xs ≡ before ++ x ∷ after) × (length before ≡ n)

page_at-StandsAt :
    {A : Type 0} (xs : List A) (n : ℕ) (x : A) → page_at xs n ≡ some x → StandsAt xs n x
page_at-StandsAt [] n x h = absurd (cc h)
page_at-StandsAt (y ∷ xs) zero x h = ([], xs, ap (λ z. z ∷ xs) (let k : y ≡ x = cc h in k), refl)
page_at-StandsAt (y ∷ xs) (suc n) x h =
    let (before, after, e, f) = page_at-StandsAt xs n x h in
    (y ∷ before, after, ap (λ zs. y ∷ zs) e, ap (λ m. suc m) f)

StandsAt-page_at :
    {A : Type 0} (before : List A) (x : A) (after : List A)
    → page_at (before ++ x ∷ after) (length before) ≡ some x
StandsAt-page_at [] x after = refl
StandsAt-page_at (y ∷ before) x after = StandsAt-page_at before x after

module _ {F : Type 0} where
  -- The page with a number, which counts from 1.
  abbrev pub IsPage : List (Page F) → Value → ℕ → Page F → Type 0
  IsPage pages page_number n page =
      (page_number ≡ Value.number (pos (suc n))) × StandsAt pages n page

  pub page_of-IsPage :
      (pages : List (Page F)) (v : Value) (m : ℕ) (page : Page F)
      → page_of pages v ≡ some (m, page)
      → (n : ℕ) × (m ≡ suc n) × IsPage pages v n page
  unfolding page_of
  page_of-IsPage pages (Value.number (pos (suc n))) m page h =
      elim (Option-cases (page_at pages n)) [
        | inl e ↦ absurd (ground (arith, h, e))
        | inr (p, e) ↦
            let same : p ≡ page = ground (arith, h, e) in
            (n, ground (arith, h, e), (refl, page_at-StandsAt pages n page (e ∙ ap some same)))
      ]
  page_of-IsPage pages (Value.number (pos zero)) m page h = absurd (cc h)
  page_of-IsPage pages (Value.number (negsuc n)) m page h = absurd (cc h)
  page_of-IsPage pages Value.null m page h = absurd (cc h)
  page_of-IsPage pages (Value.boolean b) m page h = absurd (cc h)
  page_of-IsPage pages (Value.text s) m page h = absurd (cc h)
  page_of-IsPage pages (Value.other s n) m page h = absurd (cc h)

  pub IsPage-page_of :
      (pages : List (Page F)) (v : Value) (n : ℕ) (page : Page F)
      → IsPage pages v n page
      → page_of pages v ≡ some (suc n, page)
  unfolding page_of
  IsPage-page_of pages v n page (e, (before, after, f, g)) =
      let at : page_at pages n ≡ some page =
        subst (λ m. page_at pages m ≡ some page) g
          (subst (λ ps. page_at ps (length before) ≡ some page) (sym f)
            (StandsAt-page_at before page after)) in
      subst (λ u. page_of pages u ≡ some (suc n, page)) (sym e) (rw (page_of, at) refl)

module _ (upper : List ℕ → List ℕ) {F : Type 0} where
  -- No words with the tokens stand further to the front.
  abbrev pub IsFirst : List (List ℕ) → List (Word F) → List (Word F) → Type 0
  IsFirst ts ws before =
      (b ms after : List (Word F))
      → ws ≡ b ++ (ms ++ after)
      → map (word_token upper) ms ≡ ts
      → length before ≤ length b

  -- The words with the tokens that stand first.
  abbrev pub OccursFirst : List (List ℕ) → List (Word F) → List (Word F) → Type 0
  OccursFirst ts ws ms =
      (before : List (Word F)) × (after : List (Word F)) × (ws ≡ before ++ (ms ++ after))
      × (map (word_token upper) ms ≡ ts)
      × IsFirst ts ws before

  matched_front :
      (ts : List (List ℕ)) (ws ms after : List (Word F))
      → matched upper ts ws ≡ none
      → ws ≡ ms ++ after
      → map (word_token upper) ms ≡ ts
      → ⊥
  matched_front ts ws ms after n e f =
      let here : matched upper ts ws ≡ some ms =
        subst (λ us. matched upper us ws ≡ some ms) f
          (subst (λ vs. matched upper (map (word_token upper) ms) vs ≡ some ms) (sym e)
            (matched_complete upper ms after)) in
      cc (sym n ∙ here)

  IsFirst-cons :
      (ts : List (List ℕ)) (w : Word F) (ws before : List (Word F))
      → matched upper ts (w ∷ ws) ≡ none
      → IsFirst ts ws before
      → IsFirst ts (w ∷ ws) (w ∷ before)
  IsFirst-cons ts w ws before n first [] ms after e f =
      absurd (matched_front ts (w ∷ ws) ms after n e f)
  IsFirst-cons ts w ws before n first (x ∷ b) ms after e f =
      let rest : ws ≡ b ++ (ms ++ after) = cc e in ground (arith, first b ms after rest f)

  pub first_match-OccursFirst :
      (ts : List (List ℕ)) (ws ms : List (Word F))
      → first_match upper ts ws ≡ some ms
      → OccursFirst ts ws ms
  unfolding first_match
  first_match-OccursFirst ts [] ms h =
      let (after, e, f) = matched_sound upper ts [] ms h in
      ([], after, e, f, λ b ns rest p q. omega arith)
  first_match-OccursFirst ts (w ∷ ws) ms h = elim (Option-cases (matched upper ts (w ∷ ws))) [
    | inr (found, n) ↦
        let same : matched upper ts (w ∷ ws) ≡ some ms = n ∙ ground (arith, h, n) in
        let (after, e, f) = matched_sound upper ts (w ∷ ws) ms same in
        ([], after, e, f, λ b ns rest p q. omega arith)
    | inl n ↦
        let (before, after, e, f, first) =
          first_match-OccursFirst ts ws ms (ground (arith, h, n)) in
        (w ∷ before, after, ap (λ xs. w ∷ xs) e, f, IsFirst-cons ts w ws before n first)
  ]
