-- ===== src/Inventory/Writes/Received.antt =====
-- What a receipt leaves in the database.
use mottainai_ia.Base.{ℕ, ◌≡◌, ◌≢◌, sym, ◌∙◌, Option, some}
use mottainai_ia.Base.Int.{ℤ, eqb_ℤ, eqb_ℤ_iff}
use mottainai_ia.Text.Case.{codes}
use mottainai_ia.Security.Tokens.{OperationalIdentity}
use mottainai_ia.Inventory.Operational.{Decimals, ActorRow, Operational, initialize_pg_context}
use mottainai_ia.Inventory.Writes.{
  value_error, permission_error, database_error, got, ◌>>=◌, or_fail, Receipt, receive_as,
  receipt_validated, receive_in, receive_inventory,
}
use mottainai_ia.Inventory.Writes.Attempts.{
  need_got, then_got, or_fail_got, or_fail-eq, committed_got,
}

module _ (dec : Decimals) (pg : Operational dec) where
  open dec use {D, zero_decimal, hundred, lt, add, neg, mul, div}
  open pg use {
    Db, balance, located, disposals, disposed, insert_disposal, insert_item, update_inventory,
  }

  -- What the procedure leaves behind for a receipt.
  abbrev pub IsReceived : Receipt dec pg → ℕ → D → Db → Db → Type 0
  IsReceived r i new s s' =
      (disposals s' ≡ disposals s)
      × (disposed s' ≡ disposed s)
      × (balance i s' ≡ add (balance i s) r.quantity)
      × (new ≡ balance i s')
      × ((j : ℕ) → j ≢ i → balance j s' ≡ balance j s)

  receive_as-IsReceived :
      (company : ℤ) (r : Receipt dec pg) (s s' : Db) (actor : ActorRow) (new : D)
      → receive_as dec pg company r s actor ≡ got (new, s')
      → (i : ℕ) × (actor.user_id ≡ r.user_id)
        × (located company r.store_id r.batch_id s ≡ some i)
        × IsReceived r i new s s'
  unfolding receive_as
  receive_as-IsReceived company r s s' actor new e =
      let update = λ (i : ℕ).
        or_fail (update_inventory i r.quantity (codes "IN") actor.employee_id r.observation s)
          database_error in
      let (same, e1) =
        need_got (eqb_ℤ actor.user_id r.user_id) permission_error
          (or_fail (located company r.store_id r.batch_id s) value_error >>= update) (new, s') e in
      let (i, there, e2) =
        or_fail_got (located company r.store_id r.batch_id s) value_error update (new, s') e1 in
      let runs =
        or_fail-eq (update_inventory i r.quantity (codes "IN") actor.employee_id r.observation s)
          database_error (new, s') e2 in
      let (b_eq, b_after, others) =
        pg.update_balance i r.quantity (codes "IN") actor.employee_id r.observation s s' new runs in
      let (kept, kept_items) =
        pg.update_disposals i r.quantity (codes "IN") actor.employee_id r.observation s s' new
          runs in
      (i, (eqb_ℤ_iff _ _).0 same, there, (kept, kept_items, b_after ∙ b_eq, sym b_after, others))

  -- A receipt that returns is one by the account that the database has verified, of a batch that the
  -- company has in that store. It adds the quantity to that inventory row and to no other, records no
  -- disposal, and answers the new balance.
  pub receive_inventory-IsReceived :
      (identity : Option OperationalIdentity) (company : ℤ) (r : Receipt dec pg) (s s' : Db)
      (new : D)
      → receive_inventory dec pg identity company r s ≡ (got new, s')
      → (actor : ActorRow) × (i : ℕ) × (initialize_pg_context dec pg identity company s
          ≡ some actor)
        × (actor.user_id ≡ r.user_id)
        × (located company r.store_id r.batch_id s ≡ some i)
        × IsReceived r i new s s'
  unfolding receive_inventory receive_in
  receive_inventory-IsReceived identity company r s s' new e =
      let returned = committed_got dec pg (receive_in dec pg identity company r s) s s' new e in
      let (actor, is_actor, e1) =
        or_fail_got (initialize_pg_context dec pg identity company s) permission_error
          (receive_as dec pg company r s) (new, s')
          (then_got (receipt_validated dec pg r)
            (or_fail (initialize_pg_context dec pg identity company s) permission_error
              >>= receive_as dec pg company r s)
            (new, s') returned) in
      let (i, same, there, received) = receive_as-IsReceived company r s s' actor new e1 in
      (actor, i, is_actor, same, there, received)
