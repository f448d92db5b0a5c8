-- ===== src/Guardrails/Entrada/Admitted.antt =====
-- What the input guardrail lets through, and what it costs.
use mottainai_ia.Base.{
  ◌≤◌, ◌≡◌, ◌↔◌, Bool, true, false, none, some, arith, length, leb, ◌&&◌, not, if◌then◌else◌,
}
use mottainai_ia.Base.Int.{ℤ}
use mottainai_ia.Text.Case.{Str}
use mottainai_ia.Cache.SortedSets.{SortedSets}
use mottainai_ia.Cache.RateLimit.{RateLimitSettings, Call, check_rate_limit}
use mottainai_ia.Guardrails.Entrada.{is_blank, injected, sanitize, rate_limited, guardrail_entrada}

-- The conditions on the content alone.
abbrev pub admissible : Str → Bool
admissible s = not (is_blank s) && (leb (length s) 4096 && not (injected s))

module _ (redis : SortedSets) (settings : RateLimitSettings) (user_input : Str)
    (user_id empresa_id : ℤ) (c : Call) (s : redis.Store) where
  -- A message is admitted exactly when it is not blank, has at most 4096 characters, holds none of
  -- the injection patterns and is within the rate limit of its company and user; it goes on with
  -- the personal data replaced.
  pub guardrail_entrada-allowed_iff :
      ((guardrail_entrada redis settings user_input user_id empresa_id c s).0 ≡ record {
        allowed = true;
        reason = none;
        sanitized_input = some (sanitize user_input);
        code = none;
      })
      ↔ ((is_blank user_input ≡ false)
          × (length user_input ≤ 4096)
          × (injected user_input ≡ false)
          × ((check_rate_limit redis settings empresa_id user_id c s).0.allowed ≡ true))
  unfolding guardrail_entrada
  guardrail_entrada-allowed_iff = (λ e. ground arith, λ h. ground arith)

  -- A message whose content is refused leaves the user's budget alone; any other makes exactly one
  -- call of the rate limit, and only a refusal by that call is marked as rate limited.
  pub guardrail_entrada-budget :
      ((guardrail_entrada redis settings user_input user_id empresa_id c s).1 ≡ (
        if admissible user_input
        then (check_rate_limit redis settings empresa_id user_id c s).1
        else s))
      × ((guardrail_entrada redis settings user_input user_id empresa_id c s).0.code ≡ (
          if admissible user_input
          then if (check_rate_limit redis settings empresa_id user_id c s).0.allowed
            then none
            else some rate_limited
          else none))
  unfolding guardrail_entrada
  guardrail_entrada-budget = (ground arith, ground arith)
