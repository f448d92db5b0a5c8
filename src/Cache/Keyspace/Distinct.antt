-- ===== src/Cache/Keyspace/Distinct.antt =====
-- Keys of different tenants, users and entries are different Redis keys.
use mottainai_ia.Base.{
  ◌≡◌, ◌≢◌, refl, sym, ap, ◌∙◌, true, false, [], ◌∷◌, ◌++◌, arith, append_assoc,
}
use mottainai_ia.Base.Int.{ℤ}
use mottainai_ia.Text.Case.{Str, codes}
use mottainai_ia.Text.Search.{has_code}
use mottainai_ia.Text.Decimal.{str_ℤ, str_ℤ-injective, colon-str_ℤ, colon_split}
use mottainai_ia.Cache.Keyspace.{
  prefix, colon, rate_limit, endpoint_rate_limit, rag_result, idempotency,
}

-- A prefix that two texts share can be taken off.
pub append_cancel : (p s t : Str) → p ++ s ≡ p ++ t → s ≡ t
append_cancel [] s t e = e
append_cancel (c ∷ p) s t e = append_cancel p s t (ground arith)

-- Two fields behind one head, the first without a colon.
fields_split :
    (head : Str) (a b : ℤ) (u v : Str)
    → prefix ++ (head ++ (str_ℤ a ++ (colon ++ u))) ≡ prefix ++ (head ++ (str_ℤ b ++ (colon ++ v)))
    → (a ≡ b) × (u ≡ v)
fields_split head a b u v e =
    let behind = append_cancel head _ _ (append_cancel prefix _ _ e) in
    let (same, rest) = colon_split (str_ℤ a) (str_ℤ b) u v (colon-str_ℤ a) (colon-str_ℤ b) behind in
    (str_ℤ-injective a b same, rest)

-- The idempotency entry of one company and key is the entry of no other.
pub idempotency-injective :
    (a b : ℤ) (k l : Str) → idempotency a k ≡ idempotency b l → (a ≡ b) × (k ≡ l)
unfolding idempotency
idempotency-injective a b k l e = fields_split (codes ":idempotency:") a b k l e

-- A cached retrieval of one company is never read for another company or another query hash.
pub rag_result-injective :
    (a b : ℤ) (h g : Str) → rag_result a h ≡ rag_result b g → (a ≡ b) × (h ≡ g)
unfolding rag_result
rag_result-injective a b h g e = fields_split (codes ":rag:") a b h g e

pub rate_limit-injective : (a b u v : ℤ) → rate_limit a u ≡ rate_limit b v → (a ≡ b) × (u ≡ v)
unfolding rate_limit
rate_limit-injective a b u v e =
    let (same, rest) = fields_split (codes ":rate-limit:") a b (str_ℤ u) (str_ℤ v) e in
    (same, str_ℤ-injective u v rest)

-- An endpoint's budget is shared by no other scope, company or user.
pub endpoint_rate_limit-injective :
    (s t : Str) (a b u v : ℤ)
    → has_code b':' s ≡ false
    → has_code b':' t ≡ false
    → endpoint_rate_limit s a u ≡ endpoint_rate_limit t b v
    → (s ≡ t) × (a ≡ b) × (u ≡ v)
unfolding endpoint_rate_limit
endpoint_rate_limit-injective s t a b u v hs ht e =
    let behind = append_cancel (codes ":rate-limit:") _ _ (append_cancel prefix _ _ e) in
    let (scope, rest) =
      colon_split s t (str_ℤ a ++ (colon ++ str_ℤ u)) (str_ℤ b ++ (colon ++ str_ℤ v)) hs ht
        behind in
    let (company, user) =
      colon_split (str_ℤ a) (str_ℤ b) (str_ℤ u) (str_ℤ v) (colon-str_ℤ a) (colon-str_ℤ b) rest in
    (scope, str_ℤ-injective a b company, str_ℤ-injective u v user)

pub colon_in_middle : (s t : Str) → has_code b':' (s ++ b':' ∷ t) ≡ true
unfolding has_code
colon_in_middle [] t = refl
colon_in_middle (c ∷ s) t = ground (arith, colon_in_middle s t)

no_colon_in_user : (u b : ℤ) (t : Str) → str_ℤ u ≢ str_ℤ b ++ (colon ++ t)
no_colon_in_user u b t e = cc (ap (has_code b':') e, colon-str_ℤ u, colon_in_middle (str_ℤ b) t)

-- The chat budget of a user is never the budget of an endpoint.
pub rate_limit-ne-endpoint :
    (s : Str) (a b u v : ℤ) → has_code b':' s ≡ false → rate_limit a u ≢ endpoint_rate_limit s b v
unfolding rate_limit endpoint_rate_limit
rate_limit-ne-endpoint s a b u v hs e =
    let behind = append_cancel (codes ":rate-limit:") _ _ (append_cancel prefix _ _ e) in
    let (same, rest) =
      colon_split (str_ℤ a) s (str_ℤ u) (str_ℤ b ++ (colon ++ str_ℤ v)) (colon-str_ℤ a) hs behind in
    no_colon_in_user u b (str_ℤ v) rest

-- The lock beside an entry is an entry of no key that passes `validate_idempotency_key`.
pub idempotency-ne-lock :
    (a b : ℤ) (k l : Str)
    → has_code b':' l ≡ false
    → idempotency a k ++ codes ":lock" ≢ idempotency b l
unfolding idempotency has_code
idempotency-ne-lock a b k l hl e =
    let regrouped =
      ap (λ (t : Str). prefix ++ (codes ":idempotency:" ++ t))
        (append_assoc (str_ℤ a) (colon ++ k) (codes ":lock")) in
    let (same, rest) =
      fields_split (codes ":idempotency:") a b (k ++ codes ":lock") l (sym regrouped ∙ e) in
    cc (ap (has_code b':') rest, hl, colon_in_middle k (codes "lock"))
