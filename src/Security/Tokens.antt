-- ===== src/Security/Tokens.antt =====
-- app/security/auth.py: the principal of a token and the roles that a route asks for.
pub mod Principals
use mottainai_ia.Base.{
  ℕ, Bool, true, false, not, ◌&&◌, ◌||◌, List, [], ◌∷◌, ◌++◌, Option, none, some, if◌then◌else◌,
  map,
}
use mottainai_ia.Base.Int.{ℤ, pos, ◌-ℤ◌, eqb_ℤ}
use mottainai_ia.Text.Case.{Str, codes, strip, upper}
use mottainai_ia.Text.Search.{str_eq, str_mem}
use mottainai_ia.Security.Claims.{
  Claim, string_claim, int_claim, float_claim, bool_claim, other_claim, Claims, positive_int,
  allowed_roles, is_configured_jwt_secret, for_access, carried_identity, carried_store, expiry,
}

pub record AuthContext : Type 0 where
  pub usuario_id : ℤ
  pub empresa_id : ℤ
  pub role : Str
  pub jti : Option Str
  pub exp : Option ℤ
  pub operational_identity : Option Str
  pub store_id : Option ℤ

pub record OperationalIdentity : Type 0 where
  pub user_id : ℤ
  pub company_id : ℤ
  pub its_role : Str
  pub login_identity : Str
  pub its_store : Option ℤ

pub record CustomerIdentity : Type 0 where
  pub customer_id : ℤ
  pub chat_company_id : ℤ

pub data Firebase : Type 0 where
  verified : Str → ℤ → Firebase
  rejected : Firebase
  unreachable : Firebase

-- A context, 401, 503, or the PermissionError of the database.
pub data Authentication : Type 0 where
  authenticated : AuthContext → Authentication
  invalid_token : Authentication
  unavailable : Authentication
  permission_error : Authentication

-- What the function asks of others: the databases, by the user's Firebase identifier, and the
-- deny-list, where `none` is a failure of Redis.
pub record Directory : Type 0 where
  pub customer : Str → Option CustomerIdentity
  pub staff : Str → Option OperationalIdentity
  pub on_deny_list : Str → Option Bool

-- `_is_revoked` fails open.
unfoldable pub is_revoked : Directory → Str → Bool
is_revoked d jti = elim (d.on_deny_list jti) [ none ↦ false | some b ↦ b ]

unfoldable pub revoked_claim : Directory → Option Str → Bool
unfolding is_revoked
revoked_claim d none = false
revoked_claim d (some []) = false
revoked_claim d (some (c ∷ s)) = is_revoked d (c ∷ s)

abbrev pub named_jti : Option Str → Option Str
named_jti none = none
named_jti (some []) = none
named_jti (some (c ∷ s)) = some (c ∷ s)

-- The branch for Firebase tokens; `hash` is the SHA-256 of the token.
unfoldable pub staff_context : Str → ℤ → Option OperationalIdentity → Authentication
staff_context jti exp none = permission_error
staff_context jti exp (some i) = authenticated (record {
  usuario_id = i.user_id;
  empresa_id = i.company_id;
  role = i.its_role;
  jti = some jti;
  exp = some exp;
  operational_identity = some i.login_identity;
  store_id = i.its_store;
})

unfoldable pub firebase_context :
    Directory → Str → Str → ℤ → Option CustomerIdentity → Authentication
unfolding staff_context
firebase_context d jti uid exp none = staff_context jti exp (d.staff uid)
firebase_context d jti uid exp (some c) = authenticated (record {
  usuario_id = pos 0 -ℤ c.customer_id;
  empresa_id = c.chat_company_id;
  role = codes "CLIENTE";
  jti = some jti;
  exp = some exp;
  operational_identity = none;
  store_id = none;
})

unfoldable pub decode_firebase : Directory → Str → Firebase → Authentication
unfolding firebase_context
decode_firebase d hash rejected = invalid_token
decode_firebase d hash unreachable = unavailable
decode_firebase d hash (verified uid exp) =
    let jti = codes "firebase-" ++ hash in
    if is_revoked d jti then invalid_token else firebase_context d jti uid exp (d.customer uid)

-- Who a token of the SQL API speaks for.
pub record Bearer : Type 0 where
  pub bearer_id : ℤ
  pub bearer_company : ℤ
  pub bearer_identity : Option Str
  pub bearer_store : Option ℤ

abbrev pub same_store : Option ℤ → Option ℤ → Bool
same_store none store = true
same_store (some n) none = false
same_store (some n) (some m) = eqb_ℤ m n

-- The checks on a token with `usuario_id`, against the identity of its `sub`.
unfoldable pub linked_bearer :
    Str → Option OperationalIdentity → Option ℤ → Option ℤ → Option (Option ℤ) → Option Bearer
linked_bearer role (some i) (some user) (some company) (some store) =
    if eqb_ℤ i.user_id user
      && (eqb_ℤ i.company_id company && (str_eq i.its_role role && same_store store i.its_store))
    then some (record {
      bearer_id = user;
      bearer_company = company;
      bearer_identity = some i.login_identity;
      bearer_store = i.its_store;
    })
    else none
linked_bearer role _ _ _ _ = none

abbrev pub needs_store : Str → Bool
needs_store role = str_eq role (codes "ESTOQUISTA") || str_eq role (codes "GERENTE")

abbrev pub is_missing : Option ℤ → Bool
is_missing none = true
is_missing (some n) = false

-- The checks on a token without it.
unfoldable pub plain_bearer :
    Str → Option Str → Option ℤ → Option ℤ → Option (Option ℤ) → Option Bearer
plain_bearer role identity (some user) (some company) (some store) =
    if needs_store role && is_missing store
    then none
    else some (record {
      bearer_id = user;
      bearer_company = company;
      bearer_identity = identity;
      bearer_store = store;
    })
plain_bearer role identity _ _ _ = none

unfoldable pub bearer_of : Directory → Str → Option Str → Claims → Option Bearer
unfolding linked_bearer plain_bearer
bearer_of d role identity claims = elim claims.usuario_id [
  | some user ↦
      if str_eq (strip claims.sub) []
      then none
      else linked_bearer role (d.staff claims.sub) (positive_int user)
          (positive_int claims.empresa_id) (carried_store claims.store_id)
  | none ↦
      plain_bearer role identity (positive_int (string_claim claims.sub))
        (positive_int claims.empresa_id) (carried_store claims.store_id)
]

unfoldable pub context_of : Str → Claims → Option Bearer → Option (Option ℤ) → Authentication
context_of role claims (some b) (some exp) = authenticated (record {
  usuario_id = b.bearer_id;
  empresa_id = b.bearer_company;
  role = role;
  jti = named_jti claims.jti;
  exp = exp;
  operational_identity = b.bearer_identity;
  store_id = b.bearer_store;
})
context_of role claims _ _ = invalid_token

unfoldable pub decode_role : Directory → Claims → Str → Authentication
unfolding bearer_of context_of
decode_role d claims role =
    if not (str_mem role allowed_roles)
    then invalid_token
    else if not (for_access claims.use_claim)
    then invalid_token
    else elim (carried_identity claims.operational_identity) [
      | none ↦ invalid_token
      | some identity ↦
          if revoked_claim d claims.jti
          then invalid_token
          else context_of role claims (bearer_of d role identity claims) (expiry claims.exp)
    ]

-- `str(claims["role"]).upper()`: what is no text is no role either.
unfoldable pub decode_claims : Directory → Option Claims → Authentication
unfolding decode_role
decode_claims d none = invalid_token
decode_claims d (some claims) = elim claims.role [
  | string_claim s ↦ decode_role d claims (upper s)
  | int_claim n ↦ invalid_token
  | float_claim n nonzero ↦ invalid_token
  | bool_claim b ↦ invalid_token
  | other_claim ↦ invalid_token
]

-- `algorithm` is that of the unverified header, `none` if there is no header; `claims` are those
-- that `jwt.decode` verifies with the configured key, algorithm, issuer and audience.
unfoldable pub decode_access_token :
    Directory → Str → Option (Option Str) → Str → Firebase → Option Claims → Authentication
unfolding decode_firebase decode_claims
decode_access_token d secret none hash firebase claims = invalid_token
decode_access_token d secret (some none) hash firebase claims =
    if is_configured_jwt_secret secret then decode_claims d claims else invalid_token
decode_access_token d secret (some (some algorithm)) hash firebase claims =
    if str_eq algorithm (codes "RS256")
    then decode_firebase d hash firebase
    else if is_configured_jwt_secret secret
    then decode_claims d claims
    else invalid_token

-- `require_roles`: 403 is `none`.
unfoldable pub require_roles : List Str → AuthContext → Option AuthContext
require_roles roles principal =
    if str_mem principal.role (map upper roles) then some principal else none
