-- ===== src/Prelude/Text.antt =====
-- Python's `str` as a list of code points, where the program looks inside a text.
use Prim.Native.Nat.{ℕ, zero, suc, ◌-◌}
use Prim.Native.Char.{code}
use Prim.Native.String.{String}
use mathlib.Core.Path.{◌≡◌, refl, ap}
use mathlib.Core.Bool.{Bool, true, false, ◌&&◌, ◌||◌}
use mathlib.Core.List.{List, [], ◌∷◌, ◌++◌, reverse}
use native.Mathlib.Omega.{arith}
use tally_agentic_memory.Prelude.Lists.{length}
use tally_agentic_memory.Prelude.Tests.{leb, ◌==◌, if◌then◌else◌, Bool-cases}
use mathlib.Core.Logic.{inl, inr}

abbrev pub codes : String → List ℕ
codes String.[] = []
codes (String.◌∷◌ c s) = code c ∷ codes s

-- `s == t`
abbrev pub codes_eq : List ℕ → List ℕ → Bool
codes_eq [] [] = true
codes_eq [] (d ∷ t) = false
codes_eq (c ∷ s) [] = false
codes_eq (c ∷ s) (d ∷ t) = c == d && codes_eq s t

pub codes_eq_sound : (s t : List ℕ) → codes_eq s t ≡ true → s ≡ t
codes_eq_sound [] [] h = refl
codes_eq_sound [] (d ∷ t) h = absurd (ground arith)
codes_eq_sound (c ∷ s) [] h = absurd (ground arith)
codes_eq_sound (c ∷ s) (d ∷ t) h = ground (arith, codes_eq_sound s t)

pub codes_eq_refl : (s : List ℕ) → codes_eq s s ≡ true
codes_eq_refl [] = refl
codes_eq_refl (c ∷ s) = ground (arith, codes_eq_refl s)

-- `str.isspace` of one character, which is also what `\s` matches.
unfoldable pub is_space : ℕ → Bool
is_space c =
    leb 9 c && leb c 13
    || leb 28 c && leb c 32
    || c == 133
    || c == 160
    || c == 5760
    || leb 8192 c && leb c 8202
    || c == 8232
    || c == 8233
    || c == 8239
    || c == 8287
    || c == 12288

-- `t.startswith(p)`
unfoldable pub starts_with : List ℕ → List ℕ → Bool
starts_with [] t = true
starts_with (c ∷ p) [] = false
starts_with (c ∷ p) (d ∷ t) = c == d && starts_with p t

-- `p in t`
unfoldable pub contains : List ℕ → List ℕ → Bool
unfolding starts_with
contains p [] = starts_with p []
contains p (d ∷ t) = starts_with p (d ∷ t) || contains p t

pub starts_with_sound :
    (p t : List ℕ) → starts_with p t ≡ true → (after : List ℕ) × (t ≡ p ++ after)
unfolding starts_with
starts_with_sound [] t h = (t, refl)
starts_with_sound (c ∷ p) [] h = absurd (ground arith)
starts_with_sound (c ∷ p) (d ∷ t) h =
    let (after, e) = starts_with_sound p t (ground arith) in (after, ground arith)

pub contains_sound :
    (p t : List ℕ)
    → contains p t ≡ true
    → (before : List ℕ) × (after : List ℕ) × (t ≡ before ++ (p ++ after))
unfolding contains
contains_sound p [] h = let (after, e) = starts_with_sound p [] h in ([], after, e)
contains_sound p (d ∷ t) h = elim (Bool-cases (starts_with p (d ∷ t))) [
  | inl here ↦ let (after, e) = starts_with_sound p (d ∷ t) here in ([], after, e)
  | inr later ↦
      let (before, after, e) = contains_sound p t (rw later at h) in
      (d ∷ before, after, ap (λ s. d ∷ s) e)
]

starts_with_complete : (p after : List ℕ) → starts_with p (p ++ after) ≡ true
unfolding starts_with
starts_with_complete [] after = refl
starts_with_complete (c ∷ p) after = ground (arith, starts_with_complete p after)

starts→contains : (p t : List ℕ) → starts_with p t ≡ true → contains p t ≡ true
unfolding contains
starts→contains p [] h = h
starts→contains p (d ∷ t) h = ground (arith, h)

contains-cons : (p : List ℕ) (d : ℕ) (t : List ℕ) → contains p t ≡ true → contains p (d ∷ t) ≡ true
unfolding contains
contains-cons p d t h = ground (arith, h)

pub contains_complete : (p before after : List ℕ) → contains p (before ++ (p ++ after)) ≡ true
contains_complete p [] after = starts→contains p (p ++ after) (starts_with_complete p after)
contains_complete p (d ∷ before) after =
    contains-cons p d (before ++ (p ++ after)) (contains_complete p before after)

drop_spaces : List ℕ → List ℕ
unfolding is_space
drop_spaces [] = []
drop_spaces (c ∷ t) = let rest = drop_spaces t in if is_space c then rest else c ∷ t

-- `t.strip()`
unfoldable pub strip : List ℕ → List ℕ
unfolding drop_spaces
strip t = reverse (drop_spaces (reverse (drop_spaces t)))

-- `re.sub(r"\s+", " ", t)`; the flag says that the last character was a space.
unfoldable pub collapse_from : Bool → List ℕ → List ℕ
unfolding is_space
collapse_from spaced [] = []
collapse_from spaced (c ∷ t) =
    let rest = collapse_from (is_space c) t in
    if is_space c then (if spaced then rest else 32 ∷ rest) else c ∷ rest

abbrev pub collapse : List ℕ → List ℕ
collapse = collapse_from false

-- `t.replace(p, r)` for a text `p` that is not empty: `skip` characters belong to the last match.
unfoldable pub replace_from : List ℕ → List ℕ → ℕ → List ℕ → List ℕ
unfolding starts_with
replace_from p r skip [] = []
replace_from p r (suc skip) (c ∷ t) = replace_from p r skip t
replace_from p r zero (c ∷ t) = elim (starts_with p (c ∷ t)) [
  | true ↦ r ++ replace_from p r (length p - 1) t
  | false ↦ c ∷ replace_from p r zero t
]

abbrev pub replace : List ℕ → List ℕ → List ℕ → List ℕ
replace p r = replace_from p r zero
