-- ===== src/Security/Tokens/Principals.antt =====
-- Whom a token can speak for.
use mottainai_ia.Base.{◌≡◌, ◌⊎◌, true, false, ◌&&◌, some}
use mottainai_ia.Base.Int.{pos, eqb_ℤ, leb_ℤ}
use mottainai_ia.Text.Case.{Str}
use mottainai_ia.Text.Search.{str_eq, str_mem}
use mottainai_ia.Security.Claims.{Claims, allowed_roles, for_access}
use mottainai_ia.Security.Tokens.{
  AuthContext, OperationalIdentity, Authentication, authenticated, invalid_token, unavailable,
  permission_error, Directory, revoked_claim, Bearer, needs_store, is_missing,
}

-- What the checks leave of a bearer of a role.
pub record IsSound (d : Directory) (sub : Str) (role : Str) (b : Bearer) : Type 0 where
  pub user_positive : leb_ℤ (pos 1) b.bearer_id ≡ true
  pub company_positive : leb_ℤ (pos 1) b.bearer_company ≡ true
  -- A stock clerk or a manager has a store, or the account behind the token is the token's.
  pub standing :
      ((needs_store role && is_missing b.bearer_store) ≡ false)
      ⊎ (i : OperationalIdentity) × (d.staff sub ≡ some i)
        × (eqb_ℤ i.user_id b.bearer_id ≡ true)
        × (eqb_ℤ i.company_id b.bearer_company ≡ true)
        × (str_eq i.its_role role ≡ true)
        × (b.bearer_store ≡ i.its_store)

-- The context that is made of a bearer.
abbrev Made : Directory → Claims → Str → AuthContext → Type 0
Made d claims role ctx =
    (b : Bearer) × IsSound d claims.sub role b
    × (ctx.usuario_id ≡ b.bearer_id)
    × (ctx.empresa_id ≡ b.bearer_company)
    × (ctx.store_id ≡ b.bearer_store)
    × (ctx.role ≡ role)

context_in : AuthContext → Authentication → AuthContext
context_in ctx (authenticated c) = c
context_in ctx invalid_token = ctx
context_in ctx unavailable = ctx
context_in ctx permission_error = ctx

-- What a token of the SQL API must have passed.
pub record Passed (d : Directory) (claims : Claims) (ctx : AuthContext) : Type 0 where
  pub its_role : str_mem ctx.role allowed_roles ≡ true
  pub its_use : for_access claims.use_claim ≡ true
  pub not_revoked : revoked_claim d claims.jti ≡ false
  pub bearer : Bearer
  pub sound : IsSound d claims.sub ctx.role bearer
  pub its_user : ctx.usuario_id ≡ bearer.bearer_id
  pub its_company : ctx.empresa_id ≡ bearer.bearer_company
  pub its_store : ctx.store_id ≡ bearer.bearer_store
