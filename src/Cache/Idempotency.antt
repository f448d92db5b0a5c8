-- ===== src/Cache/Idempotency.antt =====
-- app/cache/idempotency.py: one write per key, over the Redis entry and the Redis lock of that key.
-- A worker is one call of `run_idempotent`; each await on Redis or on the callback is one step, so
-- that workers interleave, and time passes between the steps. Redis is a parameter, with what its
-- documentation says of the commands; an entry is gone when its time to live is over.
-- `json.dumps` and `json.loads` with the decimal tag are left out: a stored result is the value.
pub mod Invariant
pub mod Once
use mottainai_ia.Base.{
  ℕ, ◌+◌, ◌≡◌, refl, Bool, true, false, not, ◌||◌, List, [], ◌∷◌, Option, none, some, ◌==◌, ltb,
  if◌then◌else◌, length,
}
use mottainai_ia.Text.Case.{Str, codes}
use mottainai_ia.Text.Search.{has_code}

-- `InvalidIdempotencyKey` is raised on `none`.
unfoldable pub validate_idempotency_key : Str → Option Str
validate_idempotency_key key =
    if (length key == 0) || (has_code b':' key || ltb 128 (length key)) then none else some key

-- The entry of one key, with the time at which it expires, and the lock of the key. A lock is held by
-- a token, here the worker's number; it has no timeout.
pub record KeyStore (V : Type 0) : Type 1 where
  pub Store : Type 0
  pub entry : Store → Option (V × ℕ)
  pub set : V → ℕ → Store → Store
  pub holder : Store → Option ℕ
  pub acquire : ℕ → Store → Bool × Store
  pub release : ℕ → Store → Store
  -- SET writes the entry and leaves the lock.
  pub entry_set : (v : V) (d : ℕ) (s : Store) → entry (set v d s) ≡ some (v, d)
  pub holder_set : (v : V) (d : ℕ) (s : Store) → holder (set v d s) ≡ holder s
  -- The lock is a SET NX: it succeeds on a free lock and changes nothing otherwise.
  pub acquire_free :
      (w : ℕ) (s : Store)
      → holder s ≡ none
      → ((acquire w s).0 ≡ true) × (holder (acquire w s).1 ≡ some w)
  pub acquire_held :
      (w v : ℕ) (s : Store)
      → holder s ≡ some v
      → ((acquire w s).0 ≡ false) × (holder (acquire w s).1 ≡ some v)
  pub entry_acquire : (w : ℕ) (s : Store) → entry (acquire w s).1 ≡ entry s
  -- The owner of the lock releases it.
  pub holder_release : (w : ℕ) (s : Store) → holder s ≡ some w → holder (release w s) ≡ none
  pub entry_release : (w : ℕ) (s : Store) → entry (release w s) ≡ entry s

-- GET at a time: an entry that has not expired.
unfoldable pub alive : {V : Type 0} → ℕ → Option (V × ℕ) → Option V
alive now none = none
alive now (some (v, deadline)) = if ltb now deadline then some v else none

-- How a call ends: with a result, or raising.
pub data Outcome (V : Type 0) : Type 0 where
  returned : V → Outcome V
  -- `fn` raised ValueError or PermissionError, after a rollback.
  rejected : Outcome V
  in_progress : Outcome V
  -- Any other exception, cancellation included.
  interrupted : Outcome V

-- The await that a worker stands before.
pub data Phase (V : Type 0) : Type 0 where
  first_get : Phase V
  acquiring : Phase V
  get_after_race : Phase V
  get_as_owner : Phase V
  running : Phase V
  storing : V → Phase V
  releasing : Outcome V → Phase V
  finished : Outcome V → Phase V

-- What the awaited call did: `fn` returns, raises after a rollback, or fails; a Redis command
-- answers; the await is interrupted before the command, or after it (the answer is lost).
pub data Event (V : Type 0) : Type 0 where
  fn_result : V → Event V
  fn_rejected : Event V
  answer : Event V
  interruption : Event V
  answer_lost : Event V

-- `ttl` is `idempotency_ttl_seconds`, in the unit of the times.
module _ {V : Type 0} (redis : KeyStore V) (ttl : ℕ) where
  open redis use {Store, entry, set, acquire, release}

  on_first_get : Option V → Phase V
  on_first_get (some cached) = finished (returned cached)
  on_first_get none = acquiring

  on_acquire : Bool → Phase V
  on_acquire true = get_as_owner
  on_acquire false = get_after_race

  on_race : Option V → Phase V
  on_race (some cached) = finished (returned cached)
  on_race none = finished in_progress

  on_owner : Option V → Phase V
  on_owner (some cached) = releasing (returned cached)
  on_owner none = running

  -- One await of the worker `w`, at a time. There is no `finally`: an interruption leaves the lock held.
  unfoldable pub advance : ℕ → ℕ → Event V → Phase V → Store → Phase V × Store
  unfolding alive on_first_get on_acquire on_race on_owner
  advance now w answer first_get s = (on_first_get (alive now (entry s)), s)
  advance now w answer acquiring s = let (acquired, s') = acquire w s in (on_acquire acquired, s')
  advance now w answer get_after_race s = (on_race (alive now (entry s)), s)
  advance now w answer get_as_owner s = (on_owner (alive now (entry s)), s)
  advance now w answer (storing v) s = (releasing (returned v), set v (now + ttl) s)
  advance now w answer (releasing o) s = (finished o, release w s)
  advance now w (fn_result v) running s = (storing v, s)
  advance now w fn_rejected running s = (releasing rejected, s)
  advance now w answer_lost acquiring s = (finished interrupted, (acquire w s).1)
  advance now w answer_lost (storing v) s = (finished interrupted, set v (now + ttl) s)
  advance now w answer_lost (releasing o) s = (finished interrupted, release w s)
  advance now w e (finished o) s = (finished o, s)
  advance now w answer_lost p s = (finished interrupted, s)
  advance now w interruption p s = (finished interrupted, s)
  -- An event that the await cannot have changes nothing.
  advance now w e p s = (p, s)

-- Whether a write may have reached the database: `fn` returned, or was interrupted with its commit in
-- doubt. After a rejection there is none.
unfoldable pub writes : {V : Type 0} → Event V → Phase V → Bool
writes (fn_result v) running = true
writes interruption running = true
writes answer_lost running = true
writes e p = false

-- All calls with one key, each before one await. `applied` has the times of the writes, the last
-- one first.
pub record World {V : Type 0} (redis : KeyStore V) : Type 0 where
  pub phase : ℕ → Phase V
  pub store : redis.Store
  pub now : ℕ
  pub applied : List ℕ

abbrev pub update : {V : Type 0} → (ℕ → Phase V) → ℕ → Phase V → ℕ → Phase V
update f w p v = if v == w then p else f v

module _ {V : Type 0} (redis : KeyStore V) (ttl : ℕ) where
  unfoldable pub step_from : ℕ → Event V → Phase V → World redis → World redis
  unfolding advance writes
  step_from w e p x =
      let (p', s') = advance redis ttl x.now w e p x.store in
      record {
        phase = update x.phase w p';
        store = s';
        now = x.now;
        applied = if writes e p then x.now ∷ x.applied else x.applied;
      }

  abbrev pub later : ℕ → World redis → World redis
  later wait x = record x { now = x.now + wait }

  -- A schedule says how long nothing happens, which worker goes on, and what its await does.
  unfoldable pub run : List (ℕ × ℕ × Event V) → World redis → World redis
  unfolding step_from
  run [] x = x
  run ((wait, w, e) ∷ rest) x = let x' = later wait x in run rest (step_from w e (x'.phase w) x')

  -- Every worker is before its first GET, and nothing has been written.
  abbrev pub initial : ℕ → redis.Store → World redis
  initial now s = record { phase = λ w. first_get; store = s; now = now; applied = [] }
