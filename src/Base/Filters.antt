-- ===== src/Base/Filters.antt =====
-- What searches and comprehensions do to lists that are put together or changed.
use Prim.Native.Nat.{◌+◌}
use mathlib.Core.Path.{◌≡◌, refl, sym, ap, subst}
use mathlib.Core.Bool.{Bool, true, false}
use mathlib.Core.Logic.{◌⊎◌, inl, inr}
use mathlib.Core.List.{List, [], ◌∷◌, ◌++◌}
use mathlib.Core.Option.{Option, none, some, some_inj}
use native.Mathlib.Omega.{arith}
use mottainai_ia.Base.Tests.{if◌then◌else◌, Bool-cases, none-not-some}
use mottainai_ia.Base.Lists.{All, count, find, keep, update_first}

module _ {ℓ} {A : Type ℓ} (p : A → Bool) where
  -- The search of a list that begins with an element.
  pub find_head :
      (x a : A) (rest : Option A)
      → (if p x then some x else rest) ≡ some a
      → (p x ≡ true) × (x ≡ a) ⊎ (p x ≡ false) × (rest ≡ some a)
  find_head x a rest e = go (p x) refl e
    where
      go :
          (b : Bool)
          → p x ≡ b
          → (if b then some x else rest) ≡ some a
          → (p x ≡ true) × (x ≡ a) ⊎ (p x ≡ false) × (rest ≡ some a)
      go true h e = inl (h, some_inj.0 e)
      go false h e = inr (h, e)

  pub find_passes : (xs : List A) (a : A) → find p xs ≡ some a → p a ≡ true
  find_passes [] a e = cc
  find_passes (x ∷ xs) a e = elim (find_head x a (find p xs) e) [
    | inl (good, same) ↦ subst (λ z. p z ≡ true) same good
    | inr (_, later) ↦ find_passes xs a later
  ]

  pub find-append : (xs ys : List A) (a : A) → find p xs ≡ some a → find p (xs ++ ys) ≡ some a
  find-append [] ys a e = cc
  find-append (x ∷ xs) ys a e = ground (arith, find-append xs ys a)

  -- An update that the test does not see, of an element that is not the one found.
  pub find-update_first :
      (q : A → Bool) (f : A → A)
      → ((x : A) → p (f x) ≡ p x)
      → (xs : List A) (a : A) → find p xs ≡ some a
      → q a ≡ false
      → find p (update_first q f xs) ≡ some a
  find-update_first q f unseen [] a e other = cc
  find-update_first q f unseen (x ∷ xs) a e other = elim (find_head x a (find p xs) e) [
    | inl (here, same) ↦ rw (subst (λ z. q z ≡ false) (sym same) other, here) (ap some same)
    | inr (off, later) ↦ elim (Bool-cases (q x)) [
      | inl hit ↦ rw (hit, unseen x, off) later
      | inr miss ↦ rw (miss, off) (find-update_first q f unseen xs a later other)
    ]
  ]

  -- What is found has what every element has.
  pub find-All : (P : A → Type 0) (xs : List A) (a : A) → All P xs → find p xs ≡ some a → P a
  find-All P [] a h e = cc
  find-All P (x ∷ xs) a h e = elim (find_head x a (find p xs) e) [
    | inl (_, same) ↦ subst P same h.0
    | inr (_, later) ↦ find-All P xs a h.1 later
  ]

pub keep-append {ℓ} :
    {A : Type ℓ} (p : A → Bool) (xs ys : List A) → keep p (xs ++ ys) ≡ keep p xs ++ keep p ys
keep-append p [] ys = refl
keep-append p (x ∷ xs) ys = elim (Bool-cases (p x)) [
  | inl kept ↦ rw kept (ap (λ l. x ∷ l) (keep-append p xs ys))
  | inr dropped ↦ rw dropped (keep-append p xs ys)
]

pub keep-twice {ℓ} : {A : Type ℓ} (p : A → Bool) (xs : List A) → keep p (keep p xs) ≡ keep p xs
keep-twice p [] = refl
keep-twice p (x ∷ xs) = elim (Bool-cases (p x)) [
  | inl kept ↦ rw (kept, kept) (ap (λ l. x ∷ l) (keep-twice p xs))
  | inr dropped ↦ rw dropped (keep-twice p xs)
]

pub count-append {ℓ} :
    {A : Type ℓ} (p : A → Bool) (xs ys : List A) → count p (xs ++ ys) ≡ count p xs + count p ys
count-append p [] ys = omega arith
count-append p (x ∷ xs) ys = ground (arith, count-append p xs ys)

pub find-snoc {ℓ} :
    {A : Type ℓ} (p : A → Bool) (xs : List A) (y : A)
    → All (λ x. p x ≡ false) xs
    → p y ≡ true
    → find p (xs ++ (y ∷ [])) ≡ some y
find-snoc p [] y h e = rw e refl
find-snoc p (x ∷ xs) y h e = rw h.0 (find-snoc p xs y h.1 e)

pub find-none {ℓ} :
    {A : Type ℓ} (p : A → Bool) (xs : List A) → find p xs ≡ none → All (λ x. p x ≡ false) xs
find-none p [] e = tt
find-none p (x ∷ xs) e = elim (Bool-cases (p x)) [
  | inl hit ↦ absurd (none-not-some (sym (rw hit at e)))
  | inr miss ↦ (miss, find-none p xs (rw miss at e))
]
