-- ===== src/Inventory/Writes/Ledger.antt =====
-- The stock of an inventory row after any sequence of disposals and receipts: a ledger of what
-- each of them changed accounts for all of it.
use mottainai_ia.Base.{
  ℕ, ◌≡◌, ◌≢◌, refl, sym, ap, ◌∙◌, inl, inr, List, [], ◌∷◌, Option, none, some, Bool-cases, arith,
  ◌==◌, ==_iff, if◌then◌else◌,
}
use mottainai_ia.Base.Int.{ℤ}
use mottainai_ia.Security.Tokens.{OperationalIdentity}
use mottainai_ia.Inventory.Operational.{Decimals, Operational}
use mottainai_ia.Inventory.Writes.{
  Attempt, failed, got, Disposal, Receipt, Disposed, discard_in, receive_in, discard_batch,
  receive_inventory,
}
use mottainai_ia.Inventory.Writes.Attempts.{committed_failed}
use mottainai_ia.Inventory.Writes.Recorded.{discard_batch-IsRecorded}
use mottainai_ia.Inventory.Writes.Received.{receive_inventory-IsReceived}

module _ (dec : Decimals) (pg : Operational dec) where
  open dec use {D, add, neg}
  open pg use {Db, balance, located}

  -- A call of one of the two writes, with the identity of its request and the company.
  pub data Write : Type 0 where
    discard : D → Option OperationalIdentity → ℤ → Disposal dec pg → Write
    receive : Option OperationalIdentity → ℤ → Receipt dec pg → Write

  pub write : Write → Db → Db
  write (discard ceiling identity company d) s =
      (discard_batch dec pg ceiling identity company d s).1
  write (receive identity company r) s = (receive_inventory dec pg identity company r s).1

  abbrev pub entry_of : {A : Type 0} → D → Option ℕ → Attempt A → Option (ℕ × D)
  entry_of change row (failed r) = none
  entry_of change none (got a) = none
  entry_of change (some i) (got a) = some (i, change)

  -- The row and the change of a write that was answered, nothing for one that was refused.
  pub entry : Write → Db → Option (ℕ × D)
  entry (discard ceiling identity company d) s =
      entry_of (neg d.quantity) (located company d.store_id d.batch_id s)
        (discard_batch dec pg ceiling identity company d s).0
  entry (receive identity company r) s =
      entry_of r.quantity (located company r.store_id r.batch_id s)
        (receive_inventory dec pg identity company r s).0

  pub run : List Write → Db → Db
  run [] s = s
  run (w ∷ ws) s = run ws (write w s)

  pub ledger : List Write → Db → List (Option (ℕ × D))
  ledger [] s = []
  ledger (w ∷ ws) s = entry w s ∷ ledger ws (write w s)

  abbrev pub post : ℕ → D → Option (ℕ × D) → D
  post j b none = b
  post j b (some (i, change)) = if j == i then add b change else b

  pub replay : ℕ → D → List (Option (ℕ × D)) → D
  replay j b [] = b
  replay j b (e ∷ es) = replay j (post j b e) es

  posted :
      (i j : ℕ) (change : D) (s s' : Db)
      → balance i s' ≡ add (balance i s) change
      → ((k : ℕ) → k ≢ i → balance k s' ≡ balance k s)
      → balance j s' ≡ post j (balance j s) (some (i, change))
  posted i j change s s' own others = elim (Bool-cases (j == i)) [
    | inl same ↦ rw same (
        ap (λ k. balance k s') ((==_iff j i).0 same)
        ∙ own
        ∙ ap (λ k. add (balance k s) change) (sym ((==_iff j i).0 same)))
    | inr other ↦ rw other (others j (λ e. ground (arith, other, e)))
  ]

  discarded :
      (j : ℕ) (ceiling : D) (identity : Option OperationalIdentity) (company : ℤ)
      (d : Disposal dec pg) (s s' : Db) (answer : Attempt (Disposed dec pg))
      → discard_batch dec pg ceiling identity company d s ≡ (answer, s')
      → balance j s'
        ≡ post j
            (balance j s)
            (entry_of (neg d.quantity) (located company d.store_id d.batch_id s) answer)
  unfolding discard_batch
  discarded j ceiling identity company d s s' (failed r) e =
      ap (balance j)
        (committed_failed dec pg (discard_in dec pg ceiling identity company d s) s s' r e)
  discarded j ceiling identity company d s s' (got made) e =
      let (actor, i, is_actor, same, there, positive, may, (rows, items, own, new, others)) =
        discard_batch-IsRecorded dec pg ceiling identity company d s s' made e in
      rw there (posted i j (neg d.quantity) s s' own others)

  received :
      (j : ℕ) (identity : Option OperationalIdentity) (company : ℤ) (r : Receipt dec pg) (s s' : Db)
      (answer : Attempt D)
      → receive_inventory dec pg identity company r s ≡ (answer, s')
      → balance j s'
        ≡ post j
            (balance j s)
            (entry_of r.quantity (located company r.store_id r.batch_id s) answer)
  unfolding receive_inventory
  received j identity company r s s' (failed refusal) e =
      ap (balance j)
        (committed_failed dec pg (receive_in dec pg identity company r s) s s' refusal e)
  received j identity company r s s' (got new) e =
      let (actor, i, is_actor, same, there, (rows, items, own, told, others)) =
        receive_inventory-IsReceived dec pg identity company r s s' new e in
      rw there (posted i j r.quantity s s' own others)

  balance-write :
      (j : ℕ) (w : Write) (s : Db) → balance j (write w s) ≡ post j (balance j s) (entry w s)
  unfolding write entry
  balance-write j (discard ceiling identity company d) s =
      discarded j ceiling identity company d s _ _ refl
  balance-write j (receive identity company r) s = received j identity company r s _ _ refl

  -- After any sequence of disposals and receipts, answered or refused, the balance of every inventory
  -- row is its first balance with the changes of the answered ones applied in their order, less a
  -- disposal and plus a receipt.
  pub balance-run :
      (j : ℕ) (ws : List Write) (s : Db)
      → balance j (run ws s) ≡ replay j (balance j s) (ledger ws s)
  unfolding run ledger replay
  balance-run j [] s = refl
  balance-run j (w ∷ ws) s =
      balance-run j ws (write w s)
      ∙ ap (λ b. replay j b (ledger ws (write w s))) (balance-write j w s)
