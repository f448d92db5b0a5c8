-- ===== src/Cache/Idempotency/Invariant.antt =====
-- What holds of the calls with one key at every moment: who owns the lock, and where the last write
-- has left its mark.
use mottainai_ia.Base.{
  ℕ, ◌+◌, ◌≤◌, ◌≡◌, refl, sym, ap, ◌∙◌, inl, inr, Bool, true, false, [], ◌∷◌, All, All-map,
  Pairwise, Option, none, some, arith, Option-cases, Bool-cases, ltb,
}
use mottainai_ia.Cache.Idempotency.{
  KeyStore, Outcome, interrupted, Phase, first_get, acquiring, get_after_race, get_as_owner,
  running, storing, releasing, finished, Event, fn_result, fn_rejected, answer, interruption,
  answer_lost, World, update, step_from, alive, later, initial,
}

module _ {V : Type 0} where
  -- Between the lock's acquisition and its release.
  abbrev pub owning : Phase V → Bool
  owning get_as_owner = true
  owning running = true
  owning (storing v) = true
  owning (releasing o) = true
  owning _ = false

  -- The entry is known to be missing.
  abbrev pub working : Phase V → Bool
  working running = true
  working (storing v) = true
  working _ = false

  -- The run of `fn` may lie behind.
  abbrev pub past_run : Phase V → Bool
  past_run (storing v) = true
  past_run (finished o) = true
  past_run _ = false

-- An expired entry does not come back.
pub alive-later :
    {V : Type 0} (now wait : ℕ) (o : Option (V × ℕ))
    → alive now o ≡ none
    → alive (now + wait) o ≡ none
unfolding alive
alive-later now wait none e = refl
alive-later now wait (some (v, deadline)) e = elim (Bool-cases (ltb now deadline)) [
  | inl there ↦ absurd (cc (e, there))
  | inr over ↦ ground (arith, over)
]

alive-expired :
    {V : Type 0} (now : ℕ) (v : V) (deadline : ℕ)
    → alive now (some (v, deadline)) ≡ none
    → deadline ≤ now
unfolding alive
alive-expired now v deadline e = elim (Bool-cases (ltb now deadline)) [
  | inl there ↦ absurd (cc (e, there))
  | inr over ↦ ground (arith, over)
]

-- Two writes, the later one first.
abbrev pub Spaced : ℕ → ℕ → ℕ → Type 0
Spaced ttl later earlier = earlier + ttl ≤ later

module _ {V : Type 0} (redis : KeyStore V) (ttl : ℕ) where
  open redis use {Store, entry, holder}

  -- No write yet; or the writes lie a time to live before the end of the entry; or the lock stays
  -- with the worker of the last one.
  pub data Accounted (x : World redis) : Type 0 where
    untouched : x.applied ≡ [] → Accounted x
    stored :
        (v : V) (deadline : ℕ)
        → entry x.store ≡ some (v, deadline)
        → All (λ t. t + ttl ≤ deadline) x.applied
        → Accounted x
    locked : (d : ℕ) → holder x.store ≡ some d → past_run (x.phase d) ≡ true → Accounted x

  pub record Inv (x : World redis) : Type 0 where
    pub owns : (v : ℕ) → owning (x.phase v) ≡ true → holder x.store ≡ some v
    pub missing : (v : ℕ) → working (x.phase v) ≡ true → alive x.now (entry x.store) ≡ none
    pub past : All (λ t. t ≤ x.now) x.applied
    pub spaced : Pairwise (Spaced ttl) x.applied
    pub accounted : Accounted x

  pub Inv-initial : (now : ℕ) (s : Store) → Inv (initial redis ttl now s)
  Inv-initial now s = record {
    owns = λ v o. cc;
    missing = λ v o. cc;
    past = tt;
    spaced = tt;
    accounted = untouched refl;
  }

  pub later-Inv : (wait : ℕ) (x : World redis) → Inv x → Inv (later redis ttl wait x)
  later-Inv wait x h = record {
    owns = h.owns;
    missing = λ v o. alive-later x.now wait _ (h.missing v o);
    past = All-map (λ t e. omega (arith, e)) x.applied h.past;
    spaced = h.spaced;
    accounted = later_accounted h.accounted;
  }
    where
      later_accounted : Accounted x → Accounted (later redis ttl wait x)
      later_accounted (untouched e) = untouched e
      later_accounted (stored v d e g) = stored v d e g
      later_accounted (locked d o k) = locked d o k

  module _ (x : World redis) (w : ℕ) (p : Phase V) (here : x.phase w ≡ p) (h : Inv x) where
    abbrev moved : Phase V → Store → World redis
    moved q s = record { phase = update x.phase w q; store = s; now = x.now; applied = x.applied }

    quiet-Accounted :
        (q : Phase V)
        → (past_run p ≡ true → past_run q ≡ true)
        → Accounted x
        → Accounted (moved q x.store)
    quiet-Accounted q k (untouched e) = untouched e
    quiet-Accounted q k (stored v d e g) = stored v d e g
    quiet-Accounted q k (locked d o past) = locked d o (ground (arith, here))

    -- A move that leaves Redis as it is.
    quiet :
        (q : Phase V)
        → (owning q ≡ true → holder x.store ≡ some w)
        → (working q ≡ true → alive x.now (entry x.store) ≡ none)
        → (past_run p ≡ true → past_run q ≡ true)
        → Inv (moved q x.store)
    quiet q own miss past = record {
      owns = λ v o. ground (arith, h.owns v);
      missing = λ v o. ground (arith, h.missing v);
      past = h.past;
      spaced = h.spaced;
      accounted = quiet-Accounted q past h.accounted;
    }

    -- The end of `fn` with a write that may have been applied.
    effect :
        (q : Phase V)
        → p ≡ running
        → (owning q ≡ true → working q ≡ true)
        → past_run q ≡ true
        → Inv (record (moved q x.store) { applied = x.now ∷ x.applied })
    effect q at_run own past = record {
      owns = λ v o. ground (arith, h.owns v, here);
      missing = λ v o. ground (arith, h.missing v, h.missing w, here);
      past = (omega arith, h.past);
      spaced = (long_ago h.accounted, h.spaced);
      accounted = locked w held (ground arith);
    }
      where
        held : holder x.store ≡ some w
        held = h.owns w (rw (here, at_run))

        none_there : alive x.now (entry x.store) ≡ none
        none_there = h.missing w (rw (here, at_run))

        long_ago : Accounted x → All (Spaced ttl x.now) x.applied
        long_ago (untouched e) = rw e tt
        long_ago (stored v d e g) =
            let over = alive-expired x.now v d (ap (alive x.now) (sym e) ∙ none_there) in
            All-map (λ t k. omega (arith, k, over)) x.applied g
        long_ago (locked d o past) = absurd (ground (arith, held, here))

    -- SET of the result.
    write :
        (q : Phase V) (r : V)
        → p ≡ storing r
        → working q ≡ false
        → Inv (moved q (redis.set r (x.now + ttl) x.store))
    write q r at_set idle = record {
      owns =
          λ v o. ground (arith, h.owns v, h.owns w, here, redis.holder_set r (x.now + ttl) x.store);
      missing = λ v o. ground (arith, h.owns v, h.owns w, here, working_owns (x.phase v));
      past = h.past;
      spaced = h.spaced;
      accounted =
          stored r (x.now + ttl) (redis.entry_set r (x.now + ttl) x.store)
            (All-map (λ t k. omega (arith, k)) x.applied h.past);
    }
      where
        working_owns : (s : Phase V) → working s ≡ true → owning s ≡ true
        working_owns running e = refl
        working_owns (storing v) e = refl
        working_owns _ e = cc

    -- The attempt to take the lock.
    lock :
        (q : Phase V)
        → p ≡ acquiring
        → (owning q ≡ true → (redis.acquire w x.store).0 ≡ true)
        → working q ≡ false
        → Inv (moved q (redis.acquire w x.store).1)
    lock q at_lock own idle = record {
      owns = λ v o. lock_owns v o;
      missing =
          λ v o. ap (alive x.now) (redis.entry_acquire w x.store) ∙ ground (arith, h.missing v);
      past = h.past;
      spaced = h.spaced;
      accounted = lock_accounted h.accounted;
    }
      where
        lock_owns :
            (v : ℕ)
            → owning (update x.phase w q v) ≡ true
            → holder (redis.acquire w x.store).1 ≡ some v
        lock_owns v o = elim (Option-cases (holder x.store)) [
          | inl free ↦ ground (arith, h.owns v, redis.acquire_free w x.store free)
          | inr (u, held) ↦ ground (arith, h.owns v, redis.acquire_held w u x.store held)
        ]

        lock_accounted : Accounted x → Accounted (moved q (redis.acquire w x.store).1)
        lock_accounted (untouched e) = untouched e
        lock_accounted (stored v d e g) = stored v d (redis.entry_acquire w x.store ∙ e) g
        lock_accounted (locked d o past) =
            locked d (redis.acquire_held w d x.store o).1 (ground (arith, here))

    -- The release of the lock.
    unlock :
        (o : Outcome V)
        → p ≡ releasing o
        → (q : Phase V) → owning q ≡ false
        → working q ≡ false
        → Inv (moved q (redis.release w x.store))
    unlock o at_release q gone idle = record {
      owns = λ v own. ground (arith, h.owns v, h.owns w, here);
      missing =
          λ v own. ap (alive x.now) (redis.entry_release w x.store) ∙ ground (arith, h.missing v);
      past = h.past;
      spaced = h.spaced;
      accounted = unlock_accounted h.accounted;
    }
      where
        held : holder x.store ≡ some w
        held = h.owns w (rw (here, at_release))

        unlock_accounted : Accounted x → Accounted (moved q (redis.release w x.store))
        unlock_accounted (untouched e) = untouched e
        unlock_accounted (stored v d e g) = stored v d (redis.entry_release w x.store ∙ e) g
        unlock_accounted (locked d own past) = absurd (ground (arith, held, here))

  module _ (x : World redis) (w : ℕ) (h : Inv x) where
    -- A worker that stays where it is, or whose call is interrupted before the command.
    stay : (p : Phase V) (here : x.phase w ≡ p) → Inv (moved x w p here h p x.store)
    stay p here =
        quiet x w p here h p (λ o. h.owns w (rw here o)) (λ o. h.missing w (rw here o))
          (λ past. past)

    interrupt :
        (p : Phase V) (here : x.phase w ≡ p)
        → Inv (moved x w p here h (finished interrupted) x.store)
    interrupt p here = quiet x w p here h (finished interrupted) (λ o. cc) (λ o. cc) (λ past. refl)

    -- Each await keeps the invariant.
    pub step-Inv : (e : Event V) (p : Phase V) → x.phase w ≡ p → Inv (step_from redis ttl w e p x)
    unfolding step_from
    step-Inv answer first_get here =
        quiet x w first_get here h _ (ground arith) (ground arith) (ground arith)
    step-Inv answer acquiring here = lock x w acquiring here h _ refl (ground arith) (ground arith)
    step-Inv answer get_after_race here =
        quiet x w get_after_race here h _ (ground arith) (ground arith) (ground arith)
    step-Inv answer get_as_owner here =
        quiet x w get_as_owner here h _ (λ o. h.owns w (rw here)) (ground arith) (ground arith)
    step-Inv answer running here = stay running here
    step-Inv answer (storing v) here = write x w (storing v) here h _ v refl refl
    step-Inv answer (releasing o) here = unlock x w (releasing o) here h o refl _ refl refl
    step-Inv answer (finished o) here = stay (finished o) here
    step-Inv (fn_result v) running here = effect x w running here h _ refl (λ o. refl) refl
    step-Inv fn_rejected running here =
        quiet x w running here h _ (λ o. h.owns w (rw here)) (λ o. cc) (λ past. cc)
    step-Inv answer_lost acquiring here = lock x w acquiring here h _ refl (λ o. cc) refl
    step-Inv answer_lost (storing v) here = write x w (storing v) here h _ v refl refl
    step-Inv answer_lost (releasing o) here = unlock x w (releasing o) here h o refl _ refl refl
    step-Inv answer_lost running here = effect x w running here h _ refl (λ o. cc) refl
    step-Inv answer_lost (finished o) here = stay (finished o) here
    step-Inv answer_lost p here = interrupt p here
    step-Inv interruption running here = effect x w running here h _ refl (λ o. cc) refl
    step-Inv interruption (finished o) here = stay (finished o) here
    step-Inv interruption first_get here = interrupt first_get here
    step-Inv interruption p here = interrupt p here
    step-Inv (fn_result v) (finished o) here = stay (finished o) here
    step-Inv (fn_result v) p here = stay p here
    step-Inv fn_rejected p here = stay p here
