-- ===== src/Cache/SortedSets.antt =====
-- Redis sorted sets with a time to live: the commands of the rate-limit script and what their
-- documentation says of them. Redis is not part of the repository, so it is a parameter.
use mottainai_ia.Base.{
  ℕ, suc, ◌+◌, ◌*◌, ◌≤◌, ◌≡◌, Bool, not, List, [], if◌then◌else◌, ltb, length, count, keep,
}
use mottainai_ia.Base.Int.{ℤ, pos, leb_ℤ}
use mottainai_ia.Text.Case.{Str}
use mottainai_ia.Text.Search.{str_eq}

-- A member of a sorted set with its score, a time in milliseconds.
abbrev pub Entry : Type 0
Entry = ℕ × Str

pub record SortedSets : Type 1 where
  pub Store : Type 0
  -- The entries under a key, as a client that reads at an instant (in milliseconds) sees them.
  pub entries : ℕ → Str → Store → List Entry
  pub zremrangebyscore : ℕ → Str → ℤ → Store → Store
  pub zadd : ℕ → Str → ℕ → Str → Store → Store
  pub zcard : ℕ → Str → Store → ℕ
  pub expire : ℕ → Str → ℕ → Store → Store
  -- Entries with a score up to the bound are removed.
  pub entries_zrem :
      (now : ℕ) (key : Str) (bound : ℤ) (s : Store)
      → entries now key (zremrangebyscore now key bound s)
        ≡ keep (λ e. not (leb_ℤ (pos e.0) bound)) (entries now key s)
  -- A member that is not in the set is added, and no other entry changes.
  pub count_zadd :
      (now : ℕ) (key : Str) (score : ℕ) (member : Str) (s : Store) (p : Entry → Bool)
      → count (λ e. str_eq e.1 member) (entries now key s) ≡ 0
      → count p (entries now key (zadd now key score member s)) ≡ (
          if p (score, member)
          then suc (count p (entries now key s))
          else count p (entries now key s))
  pub zcard_lem : (now : ℕ) (key : Str) (s : Store) → zcard now key s ≡ length (entries now key s)
  -- The key is gone once `seconds` have passed, and is as it was until then.
  pub entries_expire :
      (now later : ℕ) (key : Str) (seconds : ℕ) (s : Store)
      → now ≤ later
      → entries later key (expire now key seconds s)
        ≡ (if ltb later (now + seconds * 1000) then entries now key s else [])
