-- ===== src/Inventory/Writes.antt =====
-- app/tools/postgres_tools.py: a disposal of a batch and a receipt of goods. `get_pg_session` commits
-- when its body returns and rolls back when it raises.
pub mod Attempts
pub mod Recorded
pub mod Received
pub mod Ledger
use mottainai_ia.Base.{
  ℕ, Bool, true, false, not, ◌&&◌, ◌||◌, List, [], ◌∷◌, Option, none, some, if◌then◌else◌,
}
use mottainai_ia.Base.Int.{ℤ, pos, leb_ℤ, eqb_ℤ}
use mottainai_ia.Text.Case.{Str, codes, strip, upper}
use mottainai_ia.Text.Search.{str_eq, str_mem}
use mottainai_ia.Security.Tokens.{OperationalIdentity}
use mottainai_ia.Inventory.Operational.{
  Decimals, ActorRow, DisposalRow, Operational, initialize_pg_context,
}

-- What is raised: ValueError, PermissionError, its subclass DisposalCeilingExceeded, or an error of
-- the database.
pub data Refusal : Type 0 where
  value_error permission_error ceiling_exceeded database_error : Refusal

pub data Attempt (A : Type 0) : Type 0 where
  failed : Refusal → Attempt A
  got : A → Attempt A

infixl 5 ◌>>=◌ ◌>>◌
abbrev pub ◌>>=◌ : {A B : Type 0} → Attempt A → (A → Attempt B) → Attempt B
failed r >>= f = failed r
got a >>= f = f a

abbrev pub ◌>>◌ : {B : Type 0} → Attempt (Unit {0}) → Attempt B → Attempt B
m >> k = m >>= λ _. k

abbrev pub need : Bool → Refusal → Attempt (Unit {0})
need true r = got tt
need false r = failed r

abbrev pub or_fail : {A : Type 0} → Option A → Refusal → Attempt A
or_fail none r = failed r
or_fail (some a) r = got a

-- `_validate_positive_int`, of an integer.
abbrev pub is_positive : ℤ → Bool
is_positive n = leb_ℤ (pos 1) n

abbrev pub exempt_roles : List Str
exempt_roles = codes "GERENTE" ∷ codes "DONO" ∷ []

-- `observation or reason.strip()`
abbrev pub remark_of : Option Str → Str → Option Str
remark_of none reason = some (strip reason)
remark_of (some []) reason = some (strip reason)
remark_of (some (c ∷ s)) reason = some (c ∷ s)

module _ (dec : Decimals) (pg : Operational dec) where
  open dec use {D, zero_decimal, hundred, lt, neg, mul, div}

  pub record Disposal : Type 0 where
    pub store_id : ℤ
    pub batch_id : ℤ
    pub user_id : ℤ
    pub quantity : D
    pub reason : Str
    pub role : Str
    pub observation : Option Str

  pub record Receipt : Type 0 where
    pub store_id : ℤ
    pub batch_id : ℤ
    pub user_id : ℤ
    pub quantity : D
    pub observation : Option Str

  pub record Disposed : Type 0 where
    pub disposal_id : ℕ
    pub disposed_quantity : D
    pub new_inventory_balance : D

  -- More than the ceiling of a balance that is positive, by a role that is not exempt.
  unfoldable pub is_over : D → Str → D → D → Bool
  unfolding upper str_mem
  is_over ceiling role quantity current =
      not (str_mem (upper role) exempt_roles)
      && (lt zero_decimal current && lt ceiling (mul (div quantity current) hundred))

  unfoldable pub validated : Disposal → Attempt (Unit {0})
  unfolding strip str_eq
  validated d = do
    need (is_positive d.store_id) value_error
    need (is_positive d.batch_id) value_error
    need (is_positive d.user_id) value_error
    need (not (str_eq (strip d.reason) [])) value_error
    need (lt zero_decimal d.quantity) value_error

  -- The two insertions and the call of the procedure, on an inventory row.
  unfoldable pub dispose : ActorRow → Disposal → pg.Db → ℕ → Attempt (Disposed × pg.Db)
  unfolding strip
  dispose actor d s inventory_id = do
    let (disposal_id, s1) =
        pg.insert_disposal d.store_id actor.employee_id (strip d.reason) d.observation s
    let s2 = pg.insert_item disposal_id d.batch_id d.quantity s1
    updated ←
        or_fail
          (pg.update_inventory inventory_id (neg d.quantity) (codes "DISPOSAL") actor.employee_id
            (remark_of d.observation d.reason) s2)
          database_error
    got (
      record {
        disposal_id = disposal_id;
        disposed_quantity = d.quantity;
        new_inventory_balance = updated.0;
      },
      updated.1,
    )

  unfoldable pub dispose_within : D → ActorRow → Disposal → pg.Db → ℕ → Attempt (Disposed × pg.Db)
  unfolding is_over dispose
  dispose_within ceiling actor d s inventory_id = do
    need (not (is_over ceiling d.role d.quantity (pg.balance inventory_id s))) ceiling_exceeded
    dispose actor d s inventory_id

  unfoldable pub dispose_as : D → ℤ → Disposal → pg.Db → ActorRow → Attempt (Disposed × pg.Db)
  unfolding dispose_within
  dispose_as ceiling company d s actor = do
    need (eqb_ℤ actor.user_id d.user_id) permission_error
    inventory_id ← or_fail (pg.located company d.store_id d.batch_id s) value_error
    dispose_within ceiling actor d s inventory_id

  -- Inside the transaction; the result comes with the state to commit.
  unfoldable pub discard_in :
      D → Option OperationalIdentity → ℤ → Disposal → pg.Db → Attempt (Disposed × pg.Db)
  unfolding validated initialize_pg_context dispose_as
  discard_in ceiling identity company d s = do
    validated d
    actor ← or_fail (initialize_pg_context dec pg identity company s) permission_error
    dispose_as ceiling company d s actor

  unfoldable pub receive_as : ℤ → Receipt → pg.Db → ActorRow → Attempt (D × pg.Db)
  receive_as company r s actor = do
    need (eqb_ℤ actor.user_id r.user_id) permission_error
    inventory_id ← or_fail (pg.located company r.store_id r.batch_id s) value_error
    or_fail
        (pg.update_inventory inventory_id r.quantity (codes "IN") actor.employee_id r.observation s)
        database_error

  unfoldable pub receipt_validated : Receipt → Attempt (Unit {0})
  receipt_validated r = do
    need (is_positive r.store_id) value_error
    need (is_positive r.batch_id) value_error
    need (is_positive r.user_id) value_error
    need (lt zero_decimal r.quantity) value_error

  unfoldable pub receive_in : Option OperationalIdentity → ℤ → Receipt → pg.Db → Attempt (D × pg.Db)
  unfolding receipt_validated initialize_pg_context receive_as
  receive_in identity company r s = do
    receipt_validated r
    actor ← or_fail (initialize_pg_context dec pg identity company s) permission_error
    receive_as company r s actor

  -- `get_pg_session`: the answer, and the state of the database afterwards.
  abbrev pub committed : {A : Type 0} → pg.Db → Attempt (A × pg.Db) → Attempt A × pg.Db
  committed s (failed r) = (failed r, s)
  committed s (got (a, s')) = (got a, s')

  unfoldable pub discard_batch :
      D → Option OperationalIdentity → ℤ → Disposal → pg.Db → Attempt Disposed × pg.Db
  unfolding discard_in
  discard_batch ceiling identity company d s = committed s (discard_in ceiling identity company d s)

  unfoldable pub receive_inventory :
      Option OperationalIdentity → ℤ → Receipt → pg.Db → Attempt D × pg.Db
  unfolding receive_in
  receive_inventory identity company r s = committed s (receive_in identity company r s)
