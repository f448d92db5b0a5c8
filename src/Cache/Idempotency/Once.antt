-- ===== src/Cache/Idempotency/Once.antt =====
-- However the calls with one key interleave, and however much time passes between their steps, the
-- write is applied once in the time to live of its stored result.
use mottainai_ia.Base.{
  ℕ, ◌+◌, ◌≡◌, refl, ap, ◌∙◌, true, List, [], ◌∷◌, Pairwise, none, some, ◌==◌, arith,
}
use mottainai_ia.Cache.Idempotency.{
  KeyStore, returned, running, finished, Event, fn_result, answer, World, step_from, alive, later,
  run, initial,
}
use mottainai_ia.Cache.Idempotency.Invariant.{
  Spaced, Inv, Inv-initial, later-Inv, step-Inv, alive-later,
}

module _ {V : Type 0} (redis : KeyStore V) (ttl : ℕ) where
  open redis use {Store, entry, holder}

  run-Inv :
      (schedule : List (ℕ × ℕ × Event V)) (x : World redis)
      → Inv redis ttl x
      → Inv redis ttl (run redis ttl schedule x)
  unfolding run
  run-Inv [] x h = h
  run-Inv ((wait, w, e) ∷ rest) x h =
      let x' = later redis ttl wait x in
      run-Inv rest (step_from redis ttl w e (x'.phase w) x')
        (step-Inv redis ttl x' w (later-Inv redis ttl wait x h) e (x'.phase w) refl)

  module _ (schedule : List (ℕ × ℕ × Event V)) (now : ℕ) (s : Store) where
    abbrev end : World redis
    end = run redis ttl schedule (initial redis ttl now s)

    reached : Inv redis ttl end
    reached = run-Inv schedule (initial redis ttl now s) (Inv-initial redis ttl now s)

    -- Of any number of calls with one key, interleaved in any way, with any time between their steps and
    -- interrupted anywhere, two writes are at least the time to live of a stored result apart: within
    -- that time the write is applied at most once. An interrupted run of `fn` counts as a write, and the
    -- time of a write is that at which its `fn` ended.
    pub run-applied-Spaced : Pairwise (Spaced ttl) end.applied
    run-applied-Spaced = reached.spaced

    -- Two calls never run `fn` at the same time.
    pub run_exclusive : (v w : ℕ) → end.phase v ≡ running → end.phase w ≡ running → v ≡ w
    run_exclusive v w hv hw = ground (arith, reached.owns v (rw hv), reached.owns w (rw hw))

  -- A call that is left alone, on a key that is free and without a living entry: with an `fn` that
  -- returns, it returns that result, stores it for the time to live and frees the lock, with one write,
  -- whatever time its steps take.
  pub run_alone :
      (w : ℕ) (v : V) (now a b c d e f : ℕ) (s : Store)
      → alive now (entry s) ≡ none
      → holder s ≡ none
      → (let x =
            run redis ttl
              ((a, w, answer)
                ∷ (b, w, answer)
                ∷ (c, w, answer)
                ∷ (d, w, fn_result v)
                ∷ (e, w, answer)
                ∷ (f, w, answer)
                ∷ [])
              (initial redis ttl now s) in
          (x.phase w ≡ finished (returned v))
          × (entry x.store ≡ some (v, now + a + b + c + d + e + ttl))
          × (holder x.store ≡ none)
          × (x.applied ≡ (now + a + b + c + d) ∷ []))
  unfolding run
  run_alone w v now a b c d e f s missing free =
      let first = alive-later now a (entry s) missing in
      let taken = redis.acquire_free w s free in
      let s' = (redis.acquire w s).1 in
      let still =
        ap (alive (now + a + b + c)) (redis.entry_acquire w s)
        ∙ alive-later (now + a + b) c (entry s) (alive-later (now + a) b (entry s) first) in
      let deadline = now + a + b + c + d + e + ttl in
      let held = redis.holder_set v deadline s' ∙ taken.1 in
      let same : (w == w) ≡ true = ground arith in
      simp (same, first, taken.0, still)
        (
          refl,
          redis.entry_release w (redis.set v deadline s') ∙ redis.entry_set v deadline s',
          redis.holder_release w (redis.set v deadline s') held,
          refl,
        )
