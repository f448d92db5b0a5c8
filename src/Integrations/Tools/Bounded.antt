-- ===== src/Integrations/Tools/Bounded.antt =====
-- What a tool of an integration asks of the data layer.
use mottainai_ia.Base.{◌≡◌, refl, ◌⊎◌, inl, inr, Bool, true, Option, some, ◌∷◌, Bool-cases}
use mottainai_ia.Base.Int.{ℤ, pos, leb_ℤ}
use mottainai_ia.Text.Case.{Str, codes}
use mottainai_ia.Text.Search.{str_eq, str_eq_refl}
use mottainai_ia.Security.Tokens.{OperationalIdentity}
use mottainai_ia.Agents.Judge.{
  Json, null, boolean, integer, number, string, array, object, Fields, end, field, get_field,
}
use mottainai_ia.Integrations.{
  Integration, Lookup, stock_alerts, kpis, Fetched, Session, Scoping, bound, refused, with_field,
  names_other, bind_fields, company_scoped_arguments,
}
use mottainai_ia.Integrations.Tools.{
  is_text, expose_for, consult, mcp_expose_tool, is_configured, identity_of,
  authenticated_integration_tool,
}

get_field-with_field :
    {F : Type 0} (float_is : F → ℤ → Bool) (key : Str) (v : Json F) (fs : Fields F)
    → get_field key (with_field float_is key v fs) ≡ some v
unfolding get_field with_field
get_field-with_field float_is key v end = rw (str_eq_refl key) refl
get_field-with_field float_is key v (field k w rest) = elim (Bool-cases (str_eq k key)) [
  | inl same ↦ rw (same, same) refl
  | inr other ↦ rw (other, other) (get_field-with_field float_is key v rest)
]

abbrev pub Company : {F : Type 0} → ℤ → Scoping F → Type 0
Company n (refused text) = Unit
Company n (bound fs) =
    (leb_ℤ (pos 1) n ≡ true) × (get_field (codes "empresa_id") fs ≡ some (integer n))

bind_fields-Company :
    {F : Type 0} (float_is : F → ℤ → Bool) (v : Json F) (n : ℤ)
    → leb_ℤ (pos 1) n ≡ true
    → Company n (bind_fields float_is v n)
unfolding bind_fields
bind_fields-Company float_is null n h = tt
bind_fields-Company float_is (boolean b) n h = tt
bind_fields-Company float_is (integer m) n h = tt
bind_fields-Company float_is (number x) n h = tt
bind_fields-Company float_is (string s) n h = tt
bind_fields-Company float_is (array items) n h = tt
bind_fields-Company float_is (object fs) n h =
    elim (Bool-cases (names_other float_is (get_field (codes "empresa_id") fs) n)) [
      | inl other ↦ rw other tt
      | inr own ↦ rw own (h, get_field-with_field float_is (codes "empresa_id") (integer n) fs)
    ]

pub company_scoped_arguments-Company :
    {F : Type 0} (float_is : F → ℤ → Bool) (v : Json F) (n : ℤ)
    → Company n (company_scoped_arguments float_is v n)
unfolding company_scoped_arguments
company_scoped_arguments-Company float_is v n = elim (Bool-cases (leb_ℤ (pos 1) n)) [
  | inr none_set ↦ rw none_set tt
  | inl is_set ↦ rw is_set (bind_fields-Company float_is v n is_set)
]

-- The identity in force is restored, and at most one question of one company has been asked, under
-- the identity given.
abbrev pub AsksAtMost : Option OperationalIdentity → ℤ → Session → Session → Type 0
AsksAtMost identity company s s' =
    (s'.asked ≡ s.asked) ⊎ ((what : Lookup) × (s'.asked ≡ (identity, company, what) ∷ s.asked))

module _ {F : Type 0} (str_of : Option (Json F) → Str)
    (fetch : Option OperationalIdentity → ℤ → Lookup → Fetched F) where
  expose_for-AsksAtMost :
      (name : Option (Json F)) (n : ℤ) (s : Session)
      → AsksAtMost s.current n s (expose_for str_of fetch name n s).1
  unfolding expose_for consult
  expose_for-AsksAtMost name n s = elim (Bool-cases (is_text name (codes "get_active_alerts"))) [
    | inl alerts ↦ rw alerts (inr (stock_alerts, refl))
    | inr other ↦ rw other (elim (Bool-cases (is_text name (codes "get_company_kpis"))) [
      | inl company ↦ rw company (inr (kpis, refl))
      | inr unknown ↦ rw unknown (inl refl)
    ])
  ]

  -- A tool of an integration asks as the configured account, which must be complete.
  pub tool-AsksAtMost :
      (c : Integration) (name : Option (Json F)) (fs : Fields F) (n : ℤ) (s : Session)
      → leb_ℤ (pos 1) n ≡ true
      → get_field (codes "empresa_id") fs ≡ some (integer n)
      → ((authenticated_integration_tool str_of fetch c name fs s).1.current ≡ s.current)
        × (((authenticated_integration_tool str_of fetch c name fs s).1.asked ≡ s.asked)
            ⊎ (is_configured c ≡ true)
              × AsksAtMost
                  (some (identity_of c n))
                  n
                  s
                  (authenticated_integration_tool str_of fetch c name fs s).1)
  unfolding authenticated_integration_tool mcp_expose_tool
  tool-AsksAtMost c name fs n s positive there = elim (Bool-cases (is_configured c)) [
    | inr incomplete ↦ rw incomplete (refl, inl refl)
    | inl complete ↦
        rw (complete, there, there, positive)
          (
            refl,
            inr (
              refl,
              expose_for-AsksAtMost name n (record s { current = some (identity_of c n) }),
            ),
          )
  ]
