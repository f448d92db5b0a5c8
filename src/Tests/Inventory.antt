-- ===== src/Tests/Inventory.antt =====
-- A disposal and a receipt on a database of functions, with thousandths for decimals.
use mottainai_ia.Base.{
  ℕ, ◌+◌, ◌*◌, ◌/◌, ◌≡◌, ◌≢◌, ◌==◌, ==_iff, ◌∙◌, ap, sym, refl, inl, inr, Bool-cases, true, List,
  [], ◌∷◌, Option, none, some, some_inj, if◌then◌else◌,
}
use mottainai_ia.Base.Int.{ℤ, pos, ◌+ℤ◌, ◌-ℤ◌, pos_part, ltb_ℤ, eqb_ℤ}
use mottainai_ia.Text.Case.{Str, codes, strip, upper, lower, lstrip, is_space, lower_code}
use mottainai_ia.Text.Search.{str_eq, str_mem, str_contains, starts_with}
use mottainai_ia.Security.Tokens.{OperationalIdentity}
use mottainai_ia.Inventory.Operational.{
  Decimals, ActorRow, DisposalRow, Operational, database_roles, is_actor, initialize_pg_context,
}
use mottainai_ia.Inventory.Writes.{
  failed, got, ceiling_exceeded, Disposal, Receipt, Disposed, is_over, validated, dispose,
  dispose_within, dispose_as, discard_in, discard_batch,
}
use mottainai_ia.Inventory.Writes.Recorded.{MayDispose, IsRecorded, discard_batch-IsRecorded}
use mottainai_ia.Inventory.Writes.Ledger.{Write, discard, receive, run, ledger, replay, balance-run}
use mottainai_ia.Inventory.Crosscheck.{
  Item, wanted_names, first_seen, found_of, is_critical, is_visible, same_key, missing_after,
  seen_names, get_shelf_inventory_crosscheck,
}
use mottainai_ia.Inventory.Crosscheck.Missing.{IsListing, crosscheck-IsListing}

abbrev thousandths : Decimals
thousandths = record {
  D = ℤ;
  zero_decimal = pos 0;
  hundred = pos 100000;
  lt = ltb_ℤ;
  add = λ a b. a +ℤ b;
  neg = λ a. pos 0 -ℤ a;
  mul = λ a b. pos (pos_part a * pos_part b / 1000);
  div = λ a b. pos (pos_part a * 1000 / pos_part b);
}

record Db : Type 0 where
  stock : ℕ → ℤ
  rows : List DisposalRow
  items : List (ℕ × ℤ × ℤ)

abbrev manager_row : ActorRow
manager_row = record {
  user_id = pos 4;
  employee_id = pos 40;
  company_id = pos 7;
  store_id = some (pos 2);
  database_role = codes "OPERATOR";
}

abbrev move : ℕ → ℤ → (ℕ → ℤ) → ℕ → ℤ
move i delta f j = if j == i then f i +ℤ delta else f j

move-same : (i : ℕ) (delta : ℤ) (f : ℕ → ℤ) → move i delta f i ≡ f i +ℤ delta
move-same i delta f = rw ((==_iff i i).1 refl) refl

move-other : (i j : ℕ) (delta : ℤ) (f : ℕ → ℤ) → j ≢ i → move i delta f j ≡ f j
move-other i j delta f h = elim (Bool-cases (j == i)) [
  | inl same ↦ absurd (h ((==_iff j i).0 same))
  | inr other ↦ rw other refl
]

abbrev database : Operational thousandths
database = record {
  Db = Db;
  balance = λ i s. s.stock i;
  located = λ company store batch s.
      if eqb_ℤ company (pos 7) then some (pos_part store * 100 + pos_part batch) else none;
  staff = λ login s. some (some manager_row);
  disposals = λ s. s.rows;
  disposed = λ s. s.items;
  insert_disposal = λ store employee reason observation s. (
    9,
    record s {
      rows =
          record {
            disposal_id = 9;
            its_store = store;
            its_employee = employee;
            its_reason = reason;
            its_observation = observation;
          }
          ∷ s.rows;
    },
  );
  insert_item = λ d batch q s. record s { items = (d, batch, q) ∷ s.items };
  update_inventory = λ i delta kind employee remark s.
      some (s.stock i +ℤ delta, record s { stock = move i delta s.stock });
  disposals_insert = λ store employee reason observation s. refl;
  disposed_insert = λ store employee reason observation s. refl;
  balance_insert = λ i store employee reason observation s. refl;
  disposals_item = λ d batch q s. refl;
  disposed_item = λ d batch q s. refl;
  balance_item = λ i d batch q s. refl;
  update_balance = λ i delta kind employee remark s s' b e.
      let p = some_inj.0 e in
      (
        sym (ap (λ r. r.0) p),
        ap (λ r. r.1.stock i) (sym p) ∙ move-same i delta s.stock ∙ ap (λ r. r.0) p,
        λ j h. ap (λ r. r.1.stock j) (sym p) ∙ move-other i j delta s.stock h,
      );
  update_disposals = λ i delta kind employee remark s s' b e.
      let p = some_inj.0 e in (sym (ap (λ r. r.1.rows) p), sym (ap (λ r. r.1.items) p));
}

abbrev opening : Db
opening = record { stock = λ i. pos 10000; rows = []; items = [] }

abbrev manager : OperationalIdentity
manager = record {
  user_id = pos 4;
  company_id = pos 7;
  its_store = some (pos 2);
  its_role = codes "ESTOQUISTA";
  login_identity = codes "rita@loja.br";
}

abbrev spoiled : ℤ → Disposal thousandths database
spoiled n = record {
  store_id = pos 2;
  batch_id = pos 31;
  user_id = pos 4;
  quantity = n;
  reason = codes " vencido ";
  role = codes "estoquista";
  observation = none;
}

abbrev after_three : Db
after_three =
    (discard_batch thousandths database (pos 50000) (some manager) (pos 7) (spoiled (pos 3000))
      opening).1

-- More than half of what is there: refused, and nothing changes.
refuses_eight :
    discard_batch thousandths database
      (pos 50000)
      (some manager)
      (pos 7)
      (spoiled (pos 8000))
      opening
    ≡ (failed ceiling_exceeded, opening)
unfolding discard_batch discard_in validated strip str_eq initialize_pg_context is_actor
    database_roles dispose_as dispose_within is_over upper str_mem
refuses_eight = refl

abbrev spoils : Disposed thousandths database
spoils = record { disposal_id = 9; disposed_quantity = pos 3000; new_inventory_balance = pos 7000 }

discards_three :
    discard_batch thousandths database
      (pos 50000)
      (some manager)
      (pos 7)
      (spoiled (pos 3000))
      opening
    ≡ (got spoils, after_three)
unfolding discard_batch discard_in validated strip str_eq initialize_pg_context is_actor
    database_roles dispose_as dispose_within is_over upper str_mem dispose
discards_three = refl

discard_batch-IsRecorded_example :
    (actor : ActorRow) × (i : ℕ) × (initialize_pg_context thousandths database
        (some manager)
        (pos 7)
        opening
      ≡ some actor)
    × (actor.user_id ≡ pos 4)
    × (database.located (pos 7) (pos 2) (pos 31) opening ≡ some i)
    × (ltb_ℤ (pos 0) (pos 3000) ≡ true)
    × MayDispose thousandths database (pos 50000) (codes "estoquista") (pos 3000) (pos 10000)
    × IsRecorded thousandths database actor (spoiled (pos 3000)) i spoils opening after_three
discard_batch-IsRecorded_example =
    discard_batch-IsRecorded thousandths database (pos 50000) (some manager) (pos 7)
      (spoiled (pos 3000)) opening after_three spoils discards_three

abbrev arrived : Receipt thousandths database
arrived = record {
  store_id = pos 2;
  batch_id = pos 31;
  user_id = pos 4;
  quantity = pos 500;
  observation = none;
}

abbrev shift : List (Write thousandths database)
shift =
    discard (pos 50000) (some manager) (pos 7) (spoiled (pos 3000))
    ∷ discard (pos 50000) (some manager) (pos 7) (spoiled (pos 8000))
    ∷ receive (some manager) (pos 7) arrived
    ∷ []

balance-run_example :
    database.balance 231 (run thousandths database shift opening)
    ≡ replay thousandths database 231 (pos 10000) (ledger thousandths database shift opening)
balance-run_example = balance-run thousandths database 231 shift opening

abbrev item : Str → Str → Item
item name status = record { product_name = name; store_name = codes "Norte"; stock_status = status }

abbrev shelf_stock : List Item
shelf_stock =
    item (codes "Leite Integral") (codes "RUPTURA")
    ∷ item (codes "Café 500g") (codes "ABAIXO_MINIMO")
    ∷ item (codes "Arroz") (codes "NORMAL")
    ∷ item (codes "CAFÉ 500G") (codes "RUPTURA")
    ∷ []

abbrev shelf_query : List Str → Str → Option Str
shelf_query wanted name = if str_mem name wanted then some name else none

abbrev no_alerts : List ℕ
no_alerts = []

checks_shelf :
    get_shelf_inventory_crosscheck shelf_query shelf_stock no_alerts
      (codes " LEITE " ∷ codes "leite" ∷ codes "" ∷ codes "Pão" ∷ [])
    ≡ record {
      encontrados = codes "leite" ∷ codes "pão" ∷ [];
      ausentes_esperados = item (codes "Café 500g") (codes "ABAIXO_MINIMO") ∷ [];
      alertas_ativos = [];
    }
unfolding get_shelf_inventory_crosscheck seen_names wanted_names first_seen found_of missing_after
    is_critical is_visible same_key str_mem str_eq strip lower str_contains starts_with lstrip
    is_space lower_code
checks_shelf = refl

crosscheck-IsListing_example :
    IsListing
      (seen_names (codes " LEITE " ∷ []))
      []
      shelf_stock
      (get_shelf_inventory_crosscheck shelf_query shelf_stock no_alerts
        (codes " LEITE " ∷ [])).ausentes_esperados
crosscheck-IsListing_example =
    crosscheck-IsListing shelf_query shelf_stock no_alerts (codes " LEITE " ∷ [])
