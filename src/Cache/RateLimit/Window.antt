-- ===== src/Cache/RateLimit/Window.antt =====
-- The check counts the requests of the last window, whatever Redis has expired in between.
use mottainai_ia.Base.{
  ℕ, suc, ◌+◌, ◌*◌, ◌≤◌, ◌<◌, ◌≡◌, refl, sym, ap, ◌∙◌, Bool, true, false, not, ◌&&◌, List, [], ◌∷◌,
  leb, ltb, if◌then◌else◌, length, count, keep, All, map, arith, Bool-cases, inl, inr,
}
use mathlib.Core.Path.{fun_ext}
use mottainai_ia.Base.Int.{pos, leb_ℤ, ◌-ℤ◌}
use mottainai_ia.Text.Case.{Str}
use mottainai_ia.Text.Search.{str_eq}
use mottainai_ia.Cache.SortedSets.{SortedSets, Entry}
use mottainai_ia.Cache.RateLimit.{RateLimitResult, RateLimitSettings, Call, member_of, check_key}

module _ {ℓ} {A : Type ℓ} where
  count-keep : (p q : A → Bool) (xs : List A) → count p (keep q xs) ≡ count (λ x. q x && p x) xs
  count-keep p q [] = refl
  count-keep p q (x ∷ xs) = ground (arith, count-keep p q xs)

  length-eq-count : (xs : List A) → length xs ≡ count (λ _. true) xs
  length-eq-count [] = refl
  length-eq-count (x ∷ xs) = ap suc (length-eq-count xs)

  -- Two tests that agree on the elements count alike.
  count_agree : (p q : A → Bool) (xs : List A) → All (λ x. p x ≡ q x) xs → count p xs ≡ count q xs
  count_agree p q [] h = refl
  count_agree p q (x ∷ xs) h = ground (arith, count_agree p q xs h.1, h.0)

  count_none : (p : A → Bool) (xs : List A) → All (λ x. p x ≡ false) xs → count p xs ≡ 0
  count_none p [] h = refl
  count_none p (x ∷ xs) h = ground (arith, count_none p xs h.1, h.0)

  and_true : (p : A → Bool) (xs : List A) → All (λ x. (p x && true) ≡ p x) xs
  and_true p [] = tt
  and_true p (x ∷ xs) = (ground arith, and_true p xs)

  count-and-le : (p q : A → Bool) (xs : List A) → count (λ x. p x && q x) xs ≤ count q xs
  count-and-le p q [] = omega arith
  count-and-le p q (x ∷ xs) = ground (arith, count-and-le p q xs)

  All-weaken {κ} :
      {P : A → Type κ} {Q : A → Type κ} (f : (x : A) → P x → Q x) (xs : List A)
      → All P xs
      → All Q xs
  All-weaken f [] h = tt
  All-weaken f (x ∷ xs) h = (f x h.0, All-weaken f xs h.1)

-- A request counts while its age is below the window.
abbrev pub in_window : ℕ → ℕ → Entry → Bool
in_window window_ms now e = ltb now (e.0 + window_ms)

abbrev pub entry : Call → Entry
entry c = (c.now_ms, member_of c)

module _ (redis : SortedSets) (settings : RateLimitSettings) (key : Str) where
  open redis use {Store, entries}

  abbrev window_ms : ℕ
  window_ms = settings.rate_limit_window_seconds * 1000

  -- After a call at `last`, Redis holds the requests of the window, as often as they were made,
  -- until the key expires. `h` is the whole history, newest first.
  pub record Holds (last : ℕ) (h : List Entry) (s : Store) : Type 0 where
    pub past : All (λ e. e.0 ≤ last) h
    pub window :
        (t : ℕ) (p : Entry → Bool)
        → last ≤ t
        → count p (entries t key s) ≡ (
            if ltb t (last + window_ms)
            then count (λ e. in_window window_ms last e && p e) h
            else 0)

  cutoff_test :
      (n : ℕ) (e : Entry) → not (leb_ℤ (pos e.0) (pos n -ℤ pos window_ms)) ≡ in_window window_ms n e
  cutoff_test n e = ground arith

  -- A request of the later window was in the earlier one.
  narrower :
      (last n : ℕ) (p : Entry → Bool) (e : Entry)
      → last ≤ n
      → (in_window window_ms last e && (in_window window_ms n e && p e))
        ≡ (in_window window_ms n e && p e)
  narrower last n p e h = ground arith

  outdated :
      (last n : ℕ) (p : Entry → Bool) (e : Entry)
      → last + window_ms ≤ n
      → e.0 ≤ last
      → (in_window window_ms n e && p e) ≡ false
  outdated last n p e h k = ground arith

  module _ (last : ℕ) (h : List Entry) (s : Store) (held : Holds last h s) where
    -- What the script sees behind ZREMRANGEBYSCORE.
    swept_count :
        (n : ℕ) (p : Entry → Bool)
        → last ≤ n
        → count p (keep (λ e. not (leb_ℤ (pos e.0) (pos n -ℤ pos window_ms))) (entries n key s))
          ≡ count (λ e. in_window window_ms n e && p e) h
    swept_count n p later =
        count-keep p _ (entries n key s)
        ∙ (ap (λ (t : Entry → Bool). count t (entries n key s))
              (fun_ext (λ e. ap (λ (b : Bool). b && p e) (cutoff_test n e)))
            ∙ (held.window n (λ e. in_window window_ms n e && p e) later
                ∙ elim (Bool-cases (ltb n (last + window_ms))) [
                  | inl live ↦ rw live (
                      count_agree _ _ h (All-weaken (λ e _. narrower last n p e later) h held.past))
                  | inr dead ↦ rw dead (
                      sym (
                        count_none _ h (
                          All-weaken (λ e old. outdated last n p e (ground arith) old) h
                            held.past)))
                ]))

    module _ (limit : ℕ) (c : Call) (later : last ≤ c.now_ms) (some_window : 0 < window_ms)
        (fresh : count (λ e. str_eq e.1 (member_of c)) h ≡ 0) where
      open redis use {zremrangebyscore, zadd}

      abbrev swept : Store
      swept = zremrangebyscore c.now_ms key (pos c.now_ms -ℤ pos window_ms) s

      abbrev added : Store
      added = zadd c.now_ms key c.now_ms (member_of c) swept

      count-swept :
          (p : Entry → Bool)
          → count p (entries c.now_ms key swept)
            ≡ count (λ e. in_window window_ms c.now_ms e && p e) h
      count-swept p =
          ap (count p) (redis.entries_zrem c.now_ms key (pos c.now_ms -ℤ pos window_ms) s)
          ∙ swept_count c.now_ms p later

      not_yet : count (λ e. str_eq e.1 (member_of c)) (entries c.now_ms key swept) ≡ 0
      not_yet = omega (
        arith,
        count-swept (λ e. str_eq e.1 (member_of c)),
        count-and-le (in_window window_ms c.now_ms) (λ e. str_eq e.1 (member_of c)) h,
      )

      count-added :
          (p : Entry → Bool)
          → count p (entries c.now_ms key added)
            ≡ count (λ e. in_window window_ms c.now_ms e && p e) (entry c ∷ h)
      count-added p = ground (
        arith,
        redis.count_zadd c.now_ms key c.now_ms (member_of c) swept p not_yet,
        count-swept p,
      )

      -- The number that the check returns, and whether it lets the request through.
      check_result : (check_key redis settings key limit c s).0 ≡ record {
        allowed = leb (count (in_window window_ms c.now_ms) (entry c ∷ h)) limit;
        request_count = count (in_window window_ms c.now_ms) (entry c ∷ h);
        limit = limit;
      }
      unfolding check_key
      check_result =
          ap
            (λ (n : ℕ).
              let r : RateLimitResult = record {
                allowed = leb n limit;
                request_count = n;
                limit = limit;
              } in
              r)
            (redis.zcard_lem c.now_ms key added
              ∙ (length-eq-count (entries c.now_ms key added)
                  ∙ (count-added (λ _. true)
                      ∙ count_agree _ _ (entry c ∷ h)
                          (and_true (in_window window_ms c.now_ms) (entry c ∷ h)))))

      check-Holds : Holds c.now_ms (entry c ∷ h) (check_key redis settings key limit c s).1
      unfolding check_key
      check-Holds = record {
        past = (omega arith, All-weaken (λ e old. omega arith) h held.past);
        window = λ t p after.
            ap (count p)
              (redis.entries_expire c.now_ms t key settings.rate_limit_window_seconds added after)
            ∙ ground (arith, count-added p);
      }

-- `cs` is newest first: no call is earlier than those before it, and no member is drawn twice.
abbrev pub InOrder : List Call → Type 0
InOrder [] = Unit
InOrder (c ∷ cs) =
    All (λ d. d.now_ms ≤ c.now_ms) cs
    × (count (λ e. str_eq e.1 (member_of c)) (map entry cs) ≡ 0)
    × InOrder cs

newest : List Call → ℕ
newest [] = 0
newest (c ∷ cs) = c.now_ms

newest-le : (c : Call) (cs : List Call) → InOrder (c ∷ cs) → newest cs ≤ c.now_ms
unfolding newest
newest-le c [] h = omega arith
newest-le c (d ∷ cs) h = h.0.0

module _ (redis : SortedSets) (settings : RateLimitSettings) (key : Str) (limit : ℕ)
    (some_window : 0 < settings.rate_limit_window_seconds) where
  open redis use {Store, entries}

  -- The state that the calls of `cs` leave behind, the last of them in front.
  pub after : List Call → Store → Store
  after [] s = s
  after (c ∷ cs) s = (check_key redis settings key limit c (after cs s)).1

  after-Holds :
      (cs : List Call) (s : Store)
      → ((t : ℕ) → entries t key s ≡ [])
      → InOrder cs
      → Holds redis settings key (newest cs) (map entry cs) (after cs s)
  unfolding after newest
  after-Holds [] s blank h = record { past = tt; window = λ t p later. ground (arith, blank t) }
  after-Holds (c ∷ cs) s blank h =
      check-Holds redis settings key (newest cs) (map entry cs) (after cs s)
        (after-Holds cs s blank h.2) limit c (newest-le c cs h) (omega arith) h.1

  -- Whatever calls a key has seen since it was empty, a further call returns the number of those
  -- calls, itself included, whose age is below the window, and is allowed exactly when that number
  -- is at most the limit. Calls that were refused count like the others, and the expiry of the key
  -- loses none. Calls come in the order of their clock and draw members of their own.
  pub check-counts_window :
      (c : Call) (cs : List Call) (s : Store)
      → ((t : ℕ) → entries t key s ≡ [])
      → InOrder (c ∷ cs)
      → (check_key redis settings key limit c (after cs s)).0 ≡ record {
        allowed =
            leb
              (count
                (in_window (settings.rate_limit_window_seconds * 1000) c.now_ms)
                (map entry (c ∷ cs)))
              limit;
        request_count =
            count
              (in_window (settings.rate_limit_window_seconds * 1000) c.now_ms)
              (map entry (c ∷ cs));
        limit = limit;
      }
  check-counts_window c cs s blank h =
      check_result redis settings key (newest cs) (map entry cs) (after cs s)
        (after-Holds cs s blank h.2) limit c (newest-le c cs h) (omega arith) h.1
