-- ===== src/Inventory/Writes/Recorded.antt =====
-- What a disposal leaves in the database.
use mottainai_ia.Base.{
  ℕ, ◌≡◌, ◌≢◌, sym, ap, ◌∙◌, ◌⊎◌, inl, inr, true, false, not, [], ◌∷◌, Option, some, Bool-cases,
  arith,
}
use mottainai_ia.Base.Int.{ℤ, eqb_ℤ, eqb_ℤ_iff}
use mottainai_ia.Text.Case.{Str, codes, strip, upper}
use mottainai_ia.Text.Search.{str_eq, str_mem}
use mottainai_ia.Security.Tokens.{OperationalIdentity}
use mottainai_ia.Inventory.Operational.{Decimals, ActorRow, Operational, initialize_pg_context}
use mottainai_ia.Inventory.Writes.{
  value_error, permission_error, ceiling_exceeded, database_error, got, ◌>>=◌, need, or_fail,
  is_positive, exempt_roles, remark_of, Disposal, Disposed, is_over, validated, dispose,
  dispose_within, dispose_as, discard_in, discard_batch,
}
use mottainai_ia.Inventory.Writes.Attempts.{
  need_got, then_got, then_first, need-true, or_fail_got, got_inj, committed_got,
}

module _ (dec : Decimals) (pg : Operational dec) where
  open dec use {D, zero_decimal, hundred, lt, add, neg, mul, div}
  open pg use {
    Db, balance, located, disposals, disposed, insert_disposal, insert_item, update_inventory,
  }

  -- A disposal by a role that may make it.
  abbrev pub MayDispose : D → Str → D → D → Type 0
  MayDispose ceiling role quantity current =
      (str_mem (upper role) exempt_roles ≡ true)
      ⊎ (lt zero_decimal current ≡ false)
      ⊎ (lt ceiling (mul (div quantity current) hundred) ≡ false)

  not_over :
      (ceiling : D) (role : Str) (quantity current : D)
      → not (is_over dec pg ceiling role quantity current) ≡ true
      → MayDispose ceiling role quantity current
  unfolding is_over
  not_over ceiling role quantity current h = elim (Bool-cases (str_mem (upper role) exempt_roles)) [
    | inl exempt ↦ inl exempt
    | inr bound ↦ elim (Bool-cases (lt zero_decimal current)) [
      | inr empty ↦ inr (inl empty)
      | inl held ↦ inr (inr (ground (arith, bound, held, h)))
    ]
  ]

  dispose-inverted :
      (actor : ActorRow) (d : Disposal dec pg) (s s' : Db) (i : ℕ) (made : Disposed dec pg)
      → dispose dec pg actor d s i ≡ got (made, s')
      → (updated : D × Db) × (update_inventory i
            (neg d.quantity)
            (codes "DISPOSAL")
            actor.employee_id
            (remark_of d.observation d.reason)
            (insert_item
              (insert_disposal d.store_id actor.employee_id (strip d.reason) d.observation s).0
              d.batch_id
              d.quantity
              (insert_disposal d.store_id actor.employee_id (strip d.reason) d.observation s).1)
          ≡ some updated)
        × (made ≡ record {
          disposal_id =
              (insert_disposal d.store_id actor.employee_id (strip d.reason) d.observation s).0;
          disposed_quantity = d.quantity;
          new_inventory_balance = updated.0;
        })
        × (s' ≡ updated.1)
  unfolding dispose
  dispose-inverted actor d s s' i made e =
      let (updated, runs, e') =
        or_fail_got (update_inventory i (neg d.quantity) _ actor.employee_id _ _) database_error
          (λ updated. got (
            record {
              disposal_id =
                  (insert_disposal d.store_id actor.employee_id (strip d.reason) d.observation s).0;
              disposed_quantity = d.quantity;
              new_inventory_balance = updated.0;
            },
            updated.1,
          ))
          (made, s') e in
      (updated, runs, sym (ap (λ p. p.0) (got_inj e')), sym (ap (λ p. p.1) (got_inj e')))

  -- What the two insertions and the procedure leave behind.
  abbrev pub IsRecorded : ActorRow → Disposal dec pg → ℕ → Disposed dec pg → Db → Db → Type 0
  IsRecorded actor d i made s s' =
      (disposals s'
        ≡ record {
          disposal_id = made.disposal_id;
          its_store = d.store_id;
          its_employee = actor.employee_id;
          its_reason = strip d.reason;
          its_observation = d.observation;
        }
          ∷ disposals s)
      × (disposed s' ≡ (made.disposal_id, d.batch_id, d.quantity) ∷ disposed s)
      × (balance i s' ≡ add (balance i s) (neg d.quantity))
      × (made.new_inventory_balance ≡ balance i s')
      × ((j : ℕ) → j ≢ i → balance j s' ≡ balance j s)

  dispose-IsRecorded :
      (actor : ActorRow) (d : Disposal dec pg) (s s' : Db) (i : ℕ) (made : Disposed dec pg)
      → dispose dec pg actor d s i ≡ got (made, s')
      → IsRecorded actor d i made s s'
  dispose-IsRecorded actor d s s' i made e =
      let (updated, runs, is_made, is_after) = dispose-inverted actor d s s' i made e in
      let row = insert_disposal d.store_id actor.employee_id (strip d.reason) d.observation s in
      let (b_eq, b_after, others) =
        pg.update_balance i (neg d.quantity) (codes "DISPOSAL") actor.employee_id
          (remark_of d.observation d.reason) (insert_item row.0 d.batch_id d.quantity row.1)
          updated.1 updated.0 runs in
      let (kept, kept_items) =
        pg.update_disposals i (neg d.quantity) (codes "DISPOSAL") actor.employee_id
          (remark_of d.observation d.reason) (insert_item row.0 d.batch_id d.quantity row.1)
          updated.1 updated.0 runs in
      let unmoved : (j : ℕ)
          → balance j (insert_item row.0 d.batch_id d.quantity row.1) ≡ balance j s =
        λ j.
          pg.balance_item j row.0 d.batch_id d.quantity row.1
          ∙ pg.balance_insert j d.store_id actor.employee_id (strip d.reason) d.observation s in
      rw (is_made, is_after)
        (
          kept
              ∙ pg.disposals_item row.0 d.batch_id d.quantity row.1
              ∙ pg.disposals_insert d.store_id actor.employee_id (strip d.reason) d.observation s,
          kept_items
              ∙ pg.disposed_item row.0 d.batch_id d.quantity row.1
              ∙ ap (λ rows. (row.0, d.batch_id, d.quantity) ∷ rows)
                  (pg.disposed_insert d.store_id actor.employee_id (strip d.reason) d.observation
                    s),
          b_after ∙ b_eq ∙ ap (λ q. add q (neg d.quantity)) (unmoved i),
          sym b_after,
          λ j other. others j other ∙ unmoved j,
        )

  validated-positive :
      (d : Disposal dec pg) → validated dec pg d ≡ got tt → lt zero_decimal d.quantity ≡ true
  unfolding validated
  validated-positive d e = need-true (lt zero_decimal d.quantity) value_error (
      then_got (need (not (str_eq (strip d.reason) [])) value_error) _ tt (
        then_got (need (is_positive d.user_id) value_error) _ tt (
          then_got (need (is_positive d.batch_id) value_error) _ tt
            (then_got (need (is_positive d.store_id) value_error) _ tt e))))

  -- A disposal that returns is one by the account that the database has verified, of a batch that the
  -- company has in that store, of a positive quantity, and within the ceiling of a positive balance
  -- unless the role is exempt. It leaves one disposal row with one item, of the employee and the
  -- trimmed reason, takes the quantity from that inventory row and from no other, and answers the new
  -- balance.
  pub discard_batch-IsRecorded :
      (ceiling : D) (identity : Option OperationalIdentity) (company : ℤ) (d : Disposal dec pg)
      (s s' : Db) (made : Disposed dec pg)
      → discard_batch dec pg ceiling identity company d s ≡ (got made, s')
      → (actor : ActorRow) × (i : ℕ) × (initialize_pg_context dec pg identity company s
          ≡ some actor)
        × (actor.user_id ≡ d.user_id)
        × (located company d.store_id d.batch_id s ≡ some i)
        × (lt zero_decimal d.quantity ≡ true)
        × MayDispose ceiling d.role d.quantity (balance i s)
        × IsRecorded actor d i made s s'
  unfolding discard_batch discard_in dispose_as dispose_within
  discard_batch-IsRecorded ceiling identity company d s s' made e =
      let returned =
        committed_got dec pg (discard_in dec pg ceiling identity company d s) s s' made e in
      let positive = validated-positive d (
        then_first (validated dec pg d)
          (or_fail (initialize_pg_context dec pg identity company s) permission_error
            >>= dispose_as dec pg ceiling company d s)
          (made, s') returned) in
      let (actor, is_actor, e1) =
        or_fail_got (initialize_pg_context dec pg identity company s) permission_error
          (dispose_as dec pg ceiling company d s) (made, s')
          (then_got (validated dec pg d)
            (or_fail (initialize_pg_context dec pg identity company s) permission_error
              >>= dispose_as dec pg ceiling company d s)
            (made, s') returned) in
      let (same, e2) =
        need_got (eqb_ℤ actor.user_id d.user_id) permission_error
          (or_fail (located company d.store_id d.batch_id s) value_error
            >>= dispose_within dec pg ceiling actor d s)
          (made, s') e1 in
      let (i, there, e3) =
        or_fail_got (located company d.store_id d.batch_id s) value_error
          (dispose_within dec pg ceiling actor d s) (made, s') e2 in
      let (allowed, e4) =
        need_got (not (is_over dec pg ceiling d.role d.quantity (balance i s))) ceiling_exceeded
          (dispose dec pg actor d s i) (made, s') e3 in
      (
        actor,
        i,
        is_actor,
        (eqb_ℤ_iff _ _).0 same,
        there,
        positive,
        not_over ceiling d.role d.quantity (balance i s) allowed,
        dispose-IsRecorded actor d s s' i made e4,
      )
