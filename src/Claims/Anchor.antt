-- ===== src/Claims/Anchor.antt =====
-- src/core/intake_claims.py: where the text of a claim stands on its page.
use tally_agentic_memory.Prelude.{
  ℕ, leb, ◌==◌, ◌≡◌, refl, sym, ap, ◌∙◌, inl, inr, String, Bool, true, not, ◌&&◌, ◌||◌, Option,
  none, some, List, [], ◌∷◌, ◌++◌, map, filter, is_empty, is_some, arith, Option-cases,
  if◌then◌else◌,
}
use tally_agentic_memory.Prelude.Int.{ℤ}
use tally_agentic_memory.Prelude.Json.{Json}
use tally_agentic_memory.Prelude.Text.{codes, codes_eq, is_space, codes_eq_sound, codes_eq_refl}

-- A value of the model's answer. One that is no integer, text or Boolean is given by its `str` and,
-- where it has one, its `int`.
pub data Value : Type 0 where
  null : Value
  boolean : Bool → Value
  number : ℤ → Value
  text : String → Value
  other : String → Option ℤ → Value

-- Python's floats, as far as the boxes use them.
pub record Floats (F : Type 0) : Type 0 where
  pub least : F → F → F
  pub greatest : F → F → F
  pub ratio : F → F → F
  pub json : F → Json

pub record Word (F : Type 0) : Type 0 where
  pub word : String
  pub x0 : F
  pub top : F
  pub x1 : F
  pub bottom : F

pub record Page (F : Type 0) : Type 0 where
  pub width : F
  pub height : F
  pub words : List (Word F)

-- `re.sub(r"[^A-Z0-9$.,-]", "", …)`
abbrev pub is_token_code : ℕ → Bool
is_token_code c = leb 65 c && leb c 90 || leb 48 c && leb c 57 || c == 36 || leb 44 c && leb c 46

-- `value.split()`: the runs of characters that are no spaces; the run that is being read comes first.
unfoldable pub split_from : List ℕ → List ℕ → List (List ℕ)
unfolding is_space
split_from run [] = if is_empty run then [] else run ∷ []
split_from run (c ∷ t) =
    let ended = split_from [] t in
    let longer = split_from (run ++ c ∷ []) t in
    if is_space c then (if is_empty run then ended else run ∷ ended) else longer

module _ (upper : List ℕ → List ℕ) where
  -- `_token`
  abbrev pub token : List ℕ → List ℕ
  token value = filter is_token_code (upper value)

  -- `_tokens`
  unfoldable pub tokens : List ℕ → List (List ℕ)
  unfolding split_from
  tokens value = filter (λ t. not (is_empty t)) (map token (split_from [] value))

  module _ {F : Type 0} where
    abbrev pub word_token : Word F → List ℕ
    word_token w = token (codes w.word)

    -- The words at the front whose tokens are those that are looked for.
    unfoldable pub matched : List (List ℕ) → List (Word F) → Option (List (Word F))
    matched [] ws = some []
    matched (t ∷ ts) [] = none
    matched (t ∷ ts) (w ∷ ws) =
        let rest = matched ts ws in
        if codes_eq (word_token w) t
        then elim rest [ none ↦ none | some ms ↦ some (w ∷ ms) ]
        else none

    -- The loop over the starts: the first match.
    unfoldable pub first_match : List (List ℕ) → List (Word F) → Option (List (Word F))
    unfolding matched
    first_match ts [] = matched ts []
    first_match ts (w ∷ ws) =
        let rest = first_match ts ws in
        elim (matched ts (w ∷ ws)) [ some ms ↦ some ms | none ↦ rest ]

    -- The tokens stand together among the words.
    abbrev pub Occurs : List (List ℕ) → List (Word F) → Type 0
    Occurs ts ws =
        (before : List (Word F)) × (ms : List (Word F)) × (after : List (Word F)) × (ws
          ≡ before ++ (ms ++ after))
        × (map word_token ms ≡ ts)

    pub matched_sound :
        (ts : List (List ℕ)) (ws ms : List (Word F))
        → matched ts ws ≡ some ms
        → (after : List (Word F)) × (ws ≡ ms ++ after) × (map word_token ms ≡ ts)
    unfolding matched
    matched_sound [] ws ms h = (ws, ground (arith, h), ground (arith, h))
    matched_sound (t ∷ ts) [] ms h = absurd (ground (arith, h))
    matched_sound (t ∷ ts) (w ∷ ws) ms h = elim (Option-cases (matched ts ws)) [
      | inl n ↦ absurd (ground (arith, h, n))
      | inr (rest, n) ↦
          let front : codes_eq (word_token w) t ≡ true = ground (arith, h, n) in
          let same : ms ≡ w ∷ rest = ground (arith, h, n, front) in
          let (after, e, f) = matched_sound ts ws rest n in
          let first = codes_eq_sound (word_token w) t front in
          (
            after,
            ap (λ xs. w ∷ xs) e ∙ ap (λ xs. xs ++ after) (sym same),
            ap (map word_token) same
                ∙ (ap (λ u. u ∷ map word_token rest) first ∙ ap (λ us. t ∷ us) f),
          )
    ]

    pub matched_complete :
        (ms after : List (Word F)) → matched (map word_token ms) (ms ++ after) ≡ some ms
    unfolding matched
    matched_complete [] after = refl
    matched_complete (m ∷ ms) after =
        ground (arith, codes_eq_refl (word_token m), matched_complete ms after)

    -- What is found stands among the words, and has the tokens.
    pub first_match_sound :
        (ts : List (List ℕ)) (ws ms : List (Word F))
        → first_match ts ws ≡ some ms
        → (before : List (Word F)) × (after : List (Word F)) × (ws ≡ before ++ (ms ++ after))
          × (map word_token ms ≡ ts)
    unfolding first_match
    first_match_sound ts [] ms h = let (after, e, f) = matched_sound ts [] ms h in ([], after, e, f)
    first_match_sound ts (w ∷ ws) ms h = elim (Option-cases (matched ts (w ∷ ws))) [
      | inr (found, n) ↦
          let same : matched ts (w ∷ ws) ≡ some ms = n ∙ ground (arith, h, n) in
          let (after, e, f) = matched_sound ts (w ∷ ws) ms same in ([], after, e, f)
      | inl n ↦
          let (before, after, e, f) = first_match_sound ts ws ms (ground (arith, h, n)) in
          (w ∷ before, after, ap (λ xs. w ∷ xs) e, f)
    ]

    found_first :
        (ts : List (List ℕ)) (ms ws : List (Word F))
        → matched ts ws ≡ some ms
        → is_some (first_match ts ws) ≡ true
    unfolding first_match
    found_first ts ms [] h = ground (arith, h)
    found_first ts ms (w ∷ ws) h = ground (arith, h)

    -- What stands among the words is found, though perhaps further to the front.
    pub first_match_complete :
        (before ms after : List (Word F))
        → is_some (first_match (map word_token ms) (before ++ (ms ++ after))) ≡ true
    unfolding first_match
    first_match_complete [] ms after = found_first _ ms (ms ++ after) (matched_complete ms after)
    first_match_complete (w ∷ before) ms after =
        elim (Option-cases (matched (map word_token ms) (w ∷ (before ++ (ms ++ after))))) [
          | inr (found, n) ↦ ground (arith, n)
          | inl n ↦ ground (arith, n, first_match_complete before ms after)
        ]
