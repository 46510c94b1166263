-- ===== src/Base/Sorting.antt =====
-- `Array.prototype.sort`, which is stable, as an insertion sort.
use Prim.Native.Nat.{ℕ}
use mathlib.Core.Path.{◌≡◌, refl, ap, ◌∙◌}
use mathlib.Core.Bool.{Bool, true, false}
use mathlib.Core.List.{List, [], ◌∷◌, Permᴰ}
use mathlib.Core.List.Permᴰ as PermD
use mathlib.Core.Logic.{inl, inr}
use native.Mathlib.Omega.{arith}
use mini_drop_test.Base.Tests.{if◌then◌else◌, Bool-cases}
use mini_drop_test.Base.Lists.{sum_by, filter}

module _ {ℓ} {A : Type ℓ} (before : A → A → Bool) where
  -- An earlier item comes ahead of the later ones that are not strictly before it.
  unfoldable pub insert : A → List A → List A
  insert x [] = x ∷ []
  insert x (y ∷ ys) = if before y x then y ∷ insert x ys else x ∷ y ∷ ys

  unfoldable pub sort : List A → List A
  unfolding insert
  sort [] = []
  sort (x ∷ xs) = insert x (sort xs)

module _ {ℓ} {A : Type ℓ} where
  pub sum_by-perm : (f : A → ℕ) {xs ys : List A} → Permᴰ xs ys → sum_by f xs ≡ sum_by f ys
  sum_by-perm f Permᴰ.nil = refl
  sum_by-perm f (Permᴰ.cons p q) = omega (arith, ap f p, sum_by-perm f q)
  sum_by-perm f (Permᴰ.swap p q) = omega (arith, ap f p, ap f q)
  sum_by-perm f (Permᴰ.trans p q) = sum_by-perm f p ∙ sum_by-perm f q

module _ {ℓ} {A : Type ℓ} (before : A → A → Bool) where
  insert-perm : (x : A) (xs : List A) → Permᴰ (insert before x xs) (x ∷ xs)
  unfolding insert
  insert-perm x [] = Permᴰ.cons refl Permᴰ.nil
  insert-perm x (y ∷ ys) = elim (Bool-cases (before y x)) [
    | inl h ↦ rw h (Permᴰ.trans (Permᴰ.cons refl (insert-perm x ys)) (Permᴰ.swap refl refl))
    | inr h ↦ rw h (PermD.refl (x ∷ y ∷ ys))
  ]

  -- Sorting keeps the items.
  pub sort-perm : (xs : List A) → Permᴰ (sort before xs) xs
  unfolding sort
  sort-perm [] = Permᴰ.nil
  sort-perm (x ∷ xs) = Permᴰ.trans (insert-perm x (sort before xs)) (Permᴰ.cons refl (sort-perm xs))

  -- No item stands directly behind one that it comes strictly before.
  abbrev pub IsSorted : List A → Type 0
  IsSorted [] = Unit
  IsSorted (x ∷ []) = Unit
  IsSorted (x ∷ y ∷ ys) = (before y x ≡ false) × IsSorted (y ∷ ys)

  insert-IsSorted :
      ((a b : A) → before a b ≡ true → before b a ≡ false)
      → (x : A) (xs : List A) → IsSorted xs
      → IsSorted (insert before x xs)
  unfolding insert
  insert-IsSorted asym x [] h = tt
  insert-IsSorted asym x (y ∷ []) h = ground (arith, asym y x)
  insert-IsSorted asym x (y ∷ z ∷ zs) (p, h) =
      ground (arith, asym y x, asym z x, insert-IsSorted asym x (z ∷ zs) h)

  pub sort-IsSorted :
      ((a b : A) → before a b ≡ true → before b a ≡ false)
      → (xs : List A) → IsSorted (sort before xs)
  unfolding sort
  sort-IsSorted asym [] = tt
  sort-IsSorted asym (x ∷ xs) = insert-IsSorted asym x (sort before xs) (sort-IsSorted asym xs)

  module _ (tied : A → Bool)
      (level : (a b : A) → tied a ≡ true → tied b ≡ true → before a b ≡ false) where
    filter-insert : (x : A) (xs : List A) → filter tied (insert before x xs) ≡ filter tied (x ∷ xs)
    unfolding insert
    filter-insert x [] = refl
    filter-insert x (y ∷ ys) = ground (arith, level y x, filter-insert x ys)

    -- Sorting is stable: items none of which comes before another keep their order.
    pub filter-sort : (xs : List A) → filter tied (sort before xs) ≡ filter tied xs
    unfolding sort
    filter-sort [] = refl
    filter-sort (x ∷ xs) = ground (arith, filter-insert x (sort before xs), filter-sort xs)
