-- ===== src/Inventory/Operational.antt =====
-- What the writes of app/tools/postgres_tools.py ask of the operational database, and
-- `initialize_pg_context` of app/database/identity.py. PostgreSQL and Python's decimals are
-- parameters: a query is what it returns, a statement what it leaves behind.
use mottainai_ia.Base.{
  ℕ, ◌≡◌, ◌≢◌, Bool, true, false, ◌&&◌, List, ◌∷◌, Option, none, some, if◌then◌else◌,
}
use mottainai_ia.Base.Int.{ℤ, eqb_ℤ}
use mottainai_ia.Text.Case.{Str, codes}
use mottainai_ia.Text.Search.{str_eq}
use mottainai_ia.Security.Tokens.{OperationalIdentity}

-- `Decimal`, as far as the writes compute with it.
pub record Decimals : Type 1 where
  pub D : Type 0
  pub zero_decimal : D
  pub hundred : D
  pub lt : D → D → Bool
  pub add : D → D → D
  pub neg : D → D
  pub mul : D → D → D
  pub div : D → D → D

-- A row of the query for the acting user.
pub record ActorRow : Type 0 where
  pub user_id : ℤ
  pub employee_id : ℤ
  pub company_id : ℤ
  pub store_id : Option ℤ
  pub database_role : Str

pub record DisposalRow : Type 0 where
  pub disposal_id : ℕ
  pub its_store : ℤ
  pub its_employee : ℤ
  pub its_reason : Str
  pub its_observation : Option Str

-- The procedure `fn_atomic_update_inventory` and the tables around it.
pub record Operational (dec : Decimals) : Type 1 where
  pub Db : Type 0
  -- The quantity of an inventory row.
  pub balance : ℕ → Db → dec.D
  -- The inventory row of a company's batch in a store, if the row, the store and the company live.
  pub located : ℤ → ℤ → ℤ → Db → Option ℕ
  -- `fn_bootstrap_staff_context` with a login identity, then the query: `none` is a refusal.
  pub staff : Str → Db → Option (Option ActorRow)
  pub disposals : Db → List DisposalRow
  -- Rows of `disposal_item`: the disposal, the batch and the quantity.
  pub disposed : Db → List (ℕ × ℤ × dec.D)
  pub insert_disposal : ℤ → ℤ → Str → Option Str → Db → ℕ × Db
  pub insert_item : ℕ → ℤ → dec.D → Db → Db
  -- The row, the change, the kind of movement, the employee and a remark; `none` if it raises.
  pub update_inventory : ℕ → dec.D → Str → ℤ → Option Str → Db → Option (dec.D × Db)
  pub disposals_insert :
      (store employee : ℤ) (reason : Str) (observation : Option Str) (s : Db)
      → disposals (insert_disposal store employee reason observation s).1
        ≡ record {
          disposal_id = (insert_disposal store employee reason observation s).0;
          its_store = store;
          its_employee = employee;
          its_reason = reason;
          its_observation = observation;
        }
          ∷ disposals s
  pub disposed_insert :
      (store employee : ℤ) (reason : Str) (observation : Option Str) (s : Db)
      → disposed (insert_disposal store employee reason observation s).1 ≡ disposed s
  pub balance_insert :
      (i : ℕ) (store employee : ℤ) (reason : Str) (observation : Option Str) (s : Db)
      → balance i (insert_disposal store employee reason observation s).1 ≡ balance i s
  pub disposals_item :
      (d : ℕ) (batch : ℤ) (q : dec.D) (s : Db) → disposals (insert_item d batch q s) ≡ disposals s
  pub disposed_item :
      (d : ℕ) (batch : ℤ) (q : dec.D) (s : Db)
      → disposed (insert_item d batch q s) ≡ (d, batch, q) ∷ disposed s
  pub balance_item :
      (i d : ℕ) (batch : ℤ) (q : dec.D) (s : Db) → balance i (insert_item d batch q s) ≡ balance i s
  -- The row changes by the delta, and no other row does.
  pub update_balance :
      (i : ℕ) (delta : dec.D) (kind : Str) (employee : ℤ) (remark : Option Str) (s s' : Db)
      (b : dec.D)
      → update_inventory i delta kind employee remark s ≡ some (b, s')
      → (b ≡ dec.add (balance i s) delta)
        × (balance i s' ≡ b)
        × ((j : ℕ) → j ≢ i → balance j s' ≡ balance j s)
  pub update_disposals :
      (i : ℕ) (delta : dec.D) (kind : Str) (employee : ℤ) (remark : Option Str) (s s' : Db)
      (b : dec.D)
      → update_inventory i delta kind employee remark s ≡ some (b, s')
      → (disposals s' ≡ disposals s) × (disposed s' ≡ disposed s)

-- `DATABASE_ROLES.get`
unfoldable pub database_roles : Str → Option Str
unfolding str_eq
database_roles role =
    if str_eq role (codes "ADMINISTRATOR")
    then some (codes "DONO")
    else if str_eq role (codes "MANAGER")
    then some (codes "GERENTE")
    else if str_eq role (codes "OPERATOR")
    then some (codes "ESTOQUISTA")
    else none

abbrev pub is_role : Option Str → Str → Bool
is_role none role = false
is_role (some r) role = str_eq r role

-- `identity.store_id is None or actor["store_id"] == identity.store_id`
abbrev pub in_store : Option ℤ → Option ℤ → Bool
in_store none store = true
in_store (some n) none = false
in_store (some n) (some m) = eqb_ℤ m n

unfoldable pub is_actor : OperationalIdentity → ℤ → ActorRow → Bool
unfolding database_roles
is_actor identity company row =
    eqb_ℤ row.user_id identity.user_id
    && (eqb_ℤ row.company_id company
        && (is_role (database_roles row.database_role) identity.its_role
            && in_store identity.its_store row.store_id))

abbrev pub checked_actor : OperationalIdentity → ℤ → Option (Option ActorRow) → Option ActorRow
checked_actor identity company none = none
checked_actor identity company (some none) = none
checked_actor identity company (some (some row)) =
    if is_actor identity company row then some row else none

module _ (dec : Decimals) (pg : Operational dec) where
  -- PermissionError is `none`.
  unfoldable pub initialize_pg_context : Option OperationalIdentity → ℤ → pg.Db → Option ActorRow
  unfolding is_actor
  initialize_pg_context none company s = none
  initialize_pg_context (some identity) company s =
      if eqb_ℤ identity.company_id company
      then checked_actor identity company (pg.staff identity.login_identity s)
      else none
