-- ===== src/Prelude/Sort.antt =====
-- `list.sort(key=…)`: a stable sort, given by the test "does not come after".
use Prim.Native.Nat.{suc}
use mathlib.Core.Path.{◌≡◌, refl}
use native.Mathlib.Omega.{arith}
use mathlib.Core.Bool.{Bool, true, false}
use mathlib.Core.Logic.{inl, inr}
use mathlib.Core.List.{List, [], ◌∷◌, Perm}
use mathlib.Core.List.Perm
use tally_agentic_memory.Prelude.Tests.{if◌then◌else◌, Bool-cases}
use tally_agentic_memory.Prelude.Lists.{All, Pairwise, length}

module _ {ℓ} {A : Type ℓ} (le : A → A → Bool) where
  unfoldable pub insert : A → List A → List A
  insert a [] = a ∷ []
  insert a (x ∷ xs) = let rest = insert a xs in if le a x then a ∷ (x ∷ xs) else x ∷ rest

  unfoldable pub sort : List A → List A
  unfolding insert
  sort [] = []
  sort (x ∷ xs) = insert x (sort xs)

  -- Each element is followed only by elements that it may precede.
  abbrev pub IsSorted : List A → Type ℓ
  IsSorted [] = Unit
  IsSorted (x ∷ xs) = All (λ y. le x y ≡ true) xs × IsSorted xs

  All-insert {κ} : (P : A → Type κ) (a : A) (xs : List A) → P a → All P xs → All P (insert a xs)
  unfolding insert
  All-insert P a [] ha h = (ha, tt)
  All-insert P a (x ∷ xs) ha h = elim (Bool-cases (le a x)) [
    | inl e ↦ rw e (ha, h)
    | inr e ↦ rw e (h.0, All-insert P a xs ha h.1)
  ]

  -- What holds of each element of a list holds of each element of the sorted list.
  pub All-sort {κ} : (P : A → Type κ) (xs : List A) → All P xs → All P (sort xs)
  unfolding sort
  All-sort P [] h = tt
  All-sort P (x ∷ xs) h = All-insert P x (sort xs) h.0 (All-sort P xs h.1)

  length-insert : (a : A) (xs : List A) → length (insert a xs) ≡ suc (length xs)
  unfolding insert
  length-insert a [] = refl
  length-insert a (x ∷ xs) = ground (arith, length-insert a xs)

  pub length-sort : (xs : List A) → length (sort xs) ≡ length xs
  unfolding sort
  length-sort [] = refl
  length-sort (x ∷ xs) = ground (arith, length-insert x (sort xs), length-sort xs)

  -- A symmetric relation between any two elements survives the sort.
  Pairwise-insert {κ} :
      (R : A → A → Type κ)
      → ((x y : A) → R x y → R y x)
      → (a : A) (xs : List A) → All (R a) xs
      → Pairwise R xs
      → Pairwise R (insert a xs)
  unfolding insert
  Pairwise-insert R symm a [] h p = (tt, tt)
  Pairwise-insert R symm a (x ∷ xs) h p = elim (Bool-cases (le a x)) [
    | inl e ↦ rw e (h, p)
    | inr e ↦ rw e (All-insert (R x) a xs (symm a x h.0) p.0, Pairwise-insert R symm a xs h.1 p.1)
  ]

  pub Pairwise-sort {κ} :
      (R : A → A → Type κ)
      → ((x y : A) → R x y → R y x)
      → (xs : List A) → Pairwise R xs
      → Pairwise R (sort xs)
  unfolding sort
  Pairwise-sort R symm [] p = tt
  Pairwise-sort R symm (x ∷ xs) p =
      Pairwise-insert R symm x (sort xs) (All-sort (R x) xs p.0) (Pairwise-sort R symm xs p.1)

  insert-perm : (a : A) (xs : List A) → Perm (insert a xs) (a ∷ xs)
  unfolding insert
  insert-perm a [] = Perm.refl (a ∷ [])
  insert-perm a (x ∷ xs) = elim (Bool-cases (le a x)) [
    | inl e ↦ rw e (Perm.refl (a ∷ (x ∷ xs)))
    | inr e ↦ rw e (Perm.trans (Perm.cons x (insert-perm a xs)) (Perm.swap a x xs))
  ]

  -- Sorting loses nothing and invents nothing.
  pub sort-perm : (xs : List A) → Perm (sort xs) xs
  unfolding sort
  sort-perm [] = Perm.refl []
  sort-perm (x ∷ xs) = Perm.trans (insert-perm x (sort xs)) (Perm.cons x (sort-perm xs))

module _ {ℓ} {A : Type ℓ} (le : A → A → Bool) (total : (a b : A) → le a b ≡ false → le b a ≡ true)
    (trans : (a b c : A) → le a b ≡ true → le b c ≡ true → le a c ≡ true) where
  All-le :
      (a x : A) (xs : List A)
      → le a x ≡ true
      → All (λ y. le x y ≡ true) xs
      → All (λ y. le a y ≡ true) xs
  All-le a x [] h hs = tt
  All-le a x (y ∷ ys) h hs = (trans a x y h hs.0, All-le a x ys h hs.1)

  insert-IsSorted : (a : A) (xs : List A) → IsSorted le xs → IsSorted le (insert le a xs)
  unfolding insert
  insert-IsSorted a [] s = (tt, tt)
  insert-IsSorted a (x ∷ xs) s = elim (Bool-cases (le a x)) [
    | inl e ↦ rw e ((e, All-le a x xs e s.0), s)
    | inr e ↦
        rw e (All-insert le (λ y. le x y ≡ true) a xs (total a x e) s.0, insert-IsSorted a xs s.1)
  ]

  pub sort-IsSorted : (xs : List A) → IsSorted le (sort le xs)
  unfolding sort
  sort-IsSorted [] = tt
  sort-IsSorted (x ∷ xs) = insert-IsSorted x (sort le xs) (sort-IsSorted xs)
