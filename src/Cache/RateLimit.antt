-- ===== src/Cache/RateLimit.antt =====
-- app/cache/rate_limit.py: the sliding window of requests per key, over the sorted sets of Redis.
pub mod Window
pub mod Scopes
use mottainai_ia.Base.{
  Bool, List, Option, [], all, false, if◌then◌else◌, keep, leb, length, none, not, refl, some, true,
  ℕ, ◌&&◌, ◌*◌, ◌++◌, ◌+◌, ◌==◌, ◌||◌, ◌∷◌, ◌≡◌,
}
use mottainai_ia.Base.Int.{ℤ, pos, ◌-ℤ◌}
use mottainai_ia.Text.Case.{Str, codes}
use mottainai_ia.Text.Decimal.{str_ℕ}
use mottainai_ia.Text.Regex.{is_word}
use mottainai_ia.Cache.SortedSets.{SortedSets}
use mottainai_ia.Cache.Keyspace

pub record RateLimitResult : Type 0 where
  pub allowed : Bool
  pub request_count : ℕ
  pub limit : ℕ

-- The settings that this module reads.
pub record RateLimitSettings : Type 0 where
  pub rate_limit_window_seconds : ℕ
  pub rate_limit_rpm : ℕ

-- One call of the check: `int(time() * 1000)` and the `uuid4().hex` that it drew.
pub record Call : Type 0 where
  pub now_ms : ℕ
  pub token : Str

-- `f"{now_ms}:{uuid4().hex}"`
abbrev pub member_of : Call → Str
member_of c = str_ℕ c.now_ms ++ b':' ∷ c.token

-- `scope.replace("-", "").replace("_", "").isalnum()`
unfoldable pub is_scope : Str → Bool
is_scope scope =
    let kept = keep (λ c. not (c == b'-' || c == b'_')) scope in
    not (length kept == 0) && all is_word kept

module _ (redis : SortedSets) where
  open redis use {Store, zremrangebyscore, zadd, zcard, expire}

  -- `_RATE_LIMIT_SCRIPT`: Redis runs the five commands of the script as one step.
  unfoldable pub rate_limit_script : Str → ℤ → ℕ → Str → ℕ → ℕ → Store → (ℕ × Bool) × Store
  rate_limit_script key cutoff now member window limit s =
      let swept = zremrangebyscore now key cutoff s in
      let added = zadd now key now member swept in
      let size = zcard now key added in ((size, leb size limit), expire now key window added)

  -- `_check_rate_limit`
  unfoldable pub check_key : RateLimitSettings → Str → ℕ → Call → Store → RateLimitResult × Store
  unfolding rate_limit_script
  check_key settings key limit c s =
      let window_ms = settings.rate_limit_window_seconds * 1000 in
      let (result, s') =
        rate_limit_script key (pos c.now_ms -ℤ pos window_ms) c.now_ms (member_of c)
          settings.rate_limit_window_seconds limit s in
      (record { allowed = result.1; request_count = result.0; limit = limit }, s')

  unfoldable pub check_rate_limit :
      RateLimitSettings → ℤ → ℤ → Call → Store → RateLimitResult × Store
  unfolding check_key
  check_rate_limit settings empresa_id usuario_id c s =
      check_key settings (Keyspace.rate_limit empresa_id usuario_id) settings.rate_limit_rpm c s

  -- A scope that is refused raises ValueError, `none` here.
  unfoldable pub check_endpoint_rate_limit :
      RateLimitSettings → ℤ → ℤ → Str → ℕ → Call → Store → Option RateLimitResult × Store
  unfolding check_key
  check_endpoint_rate_limit settings empresa_id usuario_id scope limit c s =
      let (result, s') =
        check_key settings (Keyspace.endpoint_rate_limit scope empresa_id usuario_id) limit c s in
      if is_scope scope then (some result, s') else (none, s)
