-- ===== src/Inventory/Writes/Attempts.antt =====
-- What a step of a write of app/tools/postgres_tools.py that returns has passed.
use mottainai_ia.Base.{◌≡◌, refl, sym, ap, Bool, true, false, Option, none, some}
use mottainai_ia.Inventory.Operational.{Decimals, Operational}
use mottainai_ia.Inventory.Writes.{
  Refusal, Attempt, failed, got, ◌>>=◌, ◌>>◌, need, or_fail, committed,
}

pub need_got :
    {B : Type 0} (b : Bool) (r : Refusal) (k : Attempt B) (x : B)
    → (need b r >> k) ≡ got x
    → (b ≡ true) × (k ≡ got x)
need_got true r k x e = (refl, e)
need_got false r k x e = cc

pub then_got :
    {B : Type 0} (m : Attempt (Unit {0})) (k : Attempt B) (x : B) → (m >> k) ≡ got x → k ≡ got x
then_got (failed r) k x e = cc
then_got (got a) k x e = e

pub then_first :
    {B : Type 0} (m : Attempt (Unit {0})) (k : Attempt B) (x : B) → (m >> k) ≡ got x → m ≡ got tt
then_first (failed r) k x e = cc
then_first (got a) k x e = refl

pub need-true : (b : Bool) (r : Refusal) → need b r ≡ got tt → b ≡ true
need-true true r e = refl
need-true false r e = cc

pub or_fail_got :
    {A B : Type 0} (o : Option A) (r : Refusal) (f : A → Attempt B) (x : B)
    → (or_fail o r >>= f) ≡ got x
    → (a : A) × (o ≡ some a) × (f a ≡ got x)
or_fail_got none r f x e = cc
or_fail_got (some a) r f x e = (a, refl, e)

pub or_fail-eq :
    {A : Type 0} (o : Option A) (r : Refusal) (x : A) → or_fail o r ≡ got x → o ≡ some x
or_fail-eq none r x e = cc
or_fail-eq (some a) r x e = cc

pub got_inj : {A : Type 0} {x y : A} → got x ≡ got y → x ≡ y
got_inj e = cc

module _ (dec : Decimals) (pg : Operational dec) where
  open dec use {D, zero_decimal, hundred, lt, add, neg, mul, div}
  open pg use {
    Db, balance, located, disposals, disposed, insert_disposal, insert_item, update_inventory,
  }

  pub committed_got :
      {A : Type 0} (m : Attempt (A × Db)) (s s' : Db) (a : A)
      → committed dec pg s m ≡ (got a, s')
      → m ≡ got (a, s')
  committed_got (failed r) s s' a e = cc
  committed_got (got (b, s2)) s s' a e =
      ap got (λ i. ((got_inj (ap (λ p. p.0) e)) i, ap (λ p. p.1) e i))

  -- A refusal rolls back.
  pub committed_failed :
      {A : Type 0} (m : Attempt (A × Db)) (s s' : Db) (r : Refusal)
      → committed dec pg s m ≡ (failed r, s')
      → s' ≡ s
  committed_failed (failed _) s s' r e = sym (ap (λ p. p.1) e)
  committed_failed (got (a, s2)) s s' r e = cc
