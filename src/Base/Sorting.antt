-- ===== src/Base/Sorting.antt =====
-- Python's `sort`, which is stable, as an insertion sort: with `reverse` by a test of what is lower, the
-- highest element comes first and equal elements keep their order.
use Prim.Native.Nat.{ℕ, zero, suc, ◌+◌, min}
use mathlib.Core.Path.{◌≡◌, refl}
use mathlib.Core.Logic.{inl, inr}
use mathlib.Core.Bool.{Bool, true, false}
use mathlib.Core.List.{List, [], ◌∷◌}
use native.Mathlib.Omega.{arith}
use mottainai_ia.Base.Tests.{if◌then◌else◌, Bool-cases}
use mottainai_ia.Base.Lists.{length, count, take, drop, All, All-map, All-take, Pairwise}

module _ {A : Type 0} (lower : A → A → Bool) where
  pub insert : A → List A → List A
  insert x [] = x ∷ []
  insert x (y ∷ ys) = let rest = insert x ys in if lower x y then y ∷ rest else x ∷ y ∷ ys

  unfoldable pub sort : List A → List A
  unfolding insert
  sort [] = []
  sort (x ∷ xs) = insert x (sort xs)

  insert-count : (p : A → Bool) (x : A) (ys : List A) → count p (insert x ys) ≡ count p (x ∷ ys)
  unfolding insert
  insert-count p x [] = refl
  insert-count p x (y ∷ ys) = ground (arith, insert-count p x ys)

  insert-length : (x : A) (ys : List A) → length (insert x ys) ≡ suc (length ys)
  unfolding insert
  insert-length x [] = refl
  insert-length x (y ∷ ys) = ground (arith, insert-length x ys)

  pub sort-count : (p : A → Bool) (xs : List A) → count p (sort xs) ≡ count p xs
  unfolding sort
  sort-count p [] = refl
  sort-count p (x ∷ xs) = ground (arith, insert-count p x (sort xs), sort-count p xs)

  pub sort-length : (xs : List A) → length (sort xs) ≡ length xs
  unfolding sort
  sort-length [] = refl
  sort-length (x ∷ xs) = omega (arith, insert-length x (sort xs), sort-length xs)

  All-insert : (P : A → Type 0) (x : A) (ys : List A) → P x → All P ys → All P (insert x ys)
  unfolding insert
  All-insert P x [] px h = (px, tt)
  All-insert P x (y ∷ ys) px h = elim (Bool-cases (lower x y)) [
    | inl less ↦ rw less (h.0, All-insert P x ys px h.1)
    | inr no_less ↦ rw no_less (px, h)
  ]

  pub All-sort : (P : A → Type 0) (xs : List A) → All P xs → All P (sort xs)
  unfolding sort
  All-sort P [] h = tt
  All-sort P (x ∷ xs) h = All-insert P x (sort xs) h.0 (All-sort P xs h.1)

  -- No element is lower than a later one.
  abbrev pub Descending : List A → Type 0
  Descending = Pairwise (λ x y. lower x y ≡ false)

  pub take-Descending : (n : ℕ) (xs : List A) → Descending xs → Descending (take n xs)
  take-Descending zero xs h = tt
  take-Descending (suc n) [] h = tt
  take-Descending (suc n) (x ∷ xs) h = (All-take _ n xs h.0, take-Descending n xs h.1)

  All-drop : (P : A → Type 0) (n : ℕ) (xs : List A) → All P xs → All P (drop n xs)
  All-drop P zero xs h = h
  All-drop P (suc n) [] h = tt
  All-drop P (suc n) (x ∷ xs) h = All-drop P n xs h.1

  -- What a cut leaves behind is not above what it takes.
  pub drop-lower :
      (n : ℕ) (xs : List A)
      → Descending xs
      → All (λ x. All (λ y. lower x y ≡ false) (drop n xs)) (take n xs)
  drop-lower zero xs h = tt
  drop-lower (suc n) [] h = tt
  drop-lower (suc n) (x ∷ xs) h = (All-drop (λ y. lower x y ≡ false) n xs h.0, drop-lower n xs h.1)

  module _ (lower_asym : (x y : A) → lower x y ≡ true → lower y x ≡ false)
      (lower_cotrans : (x y z : A)
        → lower x y ≡ false
        → lower y z ≡ false
        → lower x z ≡ false) where
    insert-Descending : (x : A) (ys : List A) → Descending ys → Descending (insert x ys)
    unfolding insert
    insert-Descending x [] h = (tt, tt)
    insert-Descending x (y ∷ ys) h = elim (Bool-cases (lower x y)) [
      | inl less ↦ rw less (
        All-insert (λ z. lower y z ≡ false) x ys (lower_asym x y less) h.0,
        insert-Descending x ys h.1,
      )
      | inr no_less ↦
          rw no_less ((no_less, All-map (λ z g. lower_cotrans x y z no_less g) ys h.0), h)
    ]

    pub sort-Descending : (xs : List A) → Descending (sort xs)
    unfolding sort
    sort-Descending [] = tt
    sort-Descending (x ∷ xs) = insert-Descending x (sort xs) (sort-Descending xs)

pub take-drop-count :
    {A : Type 0} (p : A → Bool) (n : ℕ) (xs : List A)
    → count p (take n xs) + count p (drop n xs) ≡ count p xs
take-drop-count p zero xs = omega arith
take-drop-count p (suc n) [] = omega arith
take-drop-count p (suc n) (x ∷ xs) = ground (arith, take-drop-count p n xs)

pub length-take : {A : Type 0} (n : ℕ) (xs : List A) → length (take n xs) ≡ min n (length xs)
length-take zero xs = omega arith
length-take (suc n) [] = omega arith
length-take (suc n) (x ∷ xs) = omega (arith, length-take n xs)
