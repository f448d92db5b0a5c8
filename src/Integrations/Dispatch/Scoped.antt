-- ===== src/Integrations/Dispatch/Scoped.antt =====
-- What a request of an external agent reaches.
use mottainai_ia.Base.{
  ◌≡◌, refl, ◌⊎◌, inl, inr, Bool, true, false, Option, none, some, ◌∷◌, Bool-cases,
}
use mottainai_ia.Base.Int.{pos, leb_ℤ}
use mottainai_ia.Text.Case.{codes}
use mottainai_ia.Agents.Judge.{
  Json, null, boolean, integer, number, string, array, object, Fields, get_field,
}
use mottainai_ia.Integrations.{
  Integration, Lookup, Session, authorized, Scoping, bound, refused, company_scoped_arguments,
  or_empty,
}
use mottainai_ia.Integrations.Tools.{
  is_text, is_configured, identity_of, authenticated_integration_tool,
}
use mottainai_ia.Integrations.Dispatch.{
  Deployment, Arrival, Gate, open_gate, unauthorized, over, rate_limited, unavailable, gated, gate,
  call_tool, tools_call, mcp_method, mcp_gated, dispatch_mcp, is_action, act, a2a_gated,
  dispatch_a2a,
}
use mottainai_ia.Integrations.Tools.Bounded.{
  Company, company_scoped_arguments-Company, tool-AsksAtMost,
}

-- Nothing but one question of the integration's company, as its account.
abbrev pub Through : Integration → Session → Session → Type 0
Through c s s' =
    (s'.current ≡ s.current)
    × ((s'.asked ≡ s.asked)
        ⊎ ((leb_ℤ (pos 1) c.empresa_id ≡ true)
            × (is_configured c ≡ true)
            × ((what : Lookup) × (s'.asked
                  ≡ (some (identity_of c c.empresa_id), c.empresa_id, what) ∷ s.asked))))

-- A request asks only if its token is right.
abbrev pub Scoped : Integration → Arrival → Session → Session → Type 0
Scoped c a s s' =
    (s'.current ≡ s.current)
    × ((s'.asked ≡ s.asked)
        ⊎ ((authorized a.authorization c.shared_token ≡ some true) × Through c s s'))

module _ {F : Type 0} (d : Deployment F) where
  open d use {float_is, str_of, fetch, redis, settings, rate_limit_integration_rpm, mcp, a2a}

  tool-Through :
      (c : Integration) (name : Option (Json F)) (fs : Fields F) (s : Session)
      → Company c.empresa_id (bound fs)
      → Through c s (authenticated_integration_tool str_of fetch c name fs s).1
  tool-Through c name fs s (positive, there) =
      let (same, asks) = tool-AsksAtMost str_of fetch c name fs c.empresa_id s positive there in
      elim asks [
        | inl nothing ↦ (same, inl nothing)
        | inr (complete, inl nothing) ↦ (same, inl nothing)
        | inr (complete, inr once) ↦ (same, inr (positive, complete, once))
      ]

  call_tool-Through :
      (name : Option (Json F)) (sc : Scoping F) (s : Session)
      → Company mcp.empresa_id sc
      → Through mcp s (call_tool d name sc s).1
  call_tool-Through name (refused text) s h = (refl, inl refl)
  call_tool-Through name (bound fs) s h = tool-Through mcp name fs s h

  act-Through :
      (action : Option (Json F)) (b : Option Bool) (sc : Scoping F) (s : Session)
      → Company a2a.empresa_id sc
      → Through a2a s (act d action b sc s).1
  act-Through action none sc s h = (refl, inl refl)
  act-Through action (some false) sc s h = (refl, inl refl)
  act-Through action (some true) (refused text) s h = (refl, inl refl)
  act-Through action (some true) (bound fs) s h = tool-Through a2a action fs s h

  tools_call-Through : (v : Json F) (s : Session) → Through mcp s (tools_call d v s).1
  unfolding tools_call
  tools_call-Through null s = (refl, inl refl)
  tools_call-Through (boolean b) s = (refl, inl refl)
  tools_call-Through (integer n) s = (refl, inl refl)
  tools_call-Through (number x) s = (refl, inl refl)
  tools_call-Through (string t) s = (refl, inl refl)
  tools_call-Through (array items) s = (refl, inl refl)
  tools_call-Through (object params) s =
      call_tool-Through (get_field (codes "name") params)
        (company_scoped_arguments float_is
          (or_empty float_is (get_field (codes "arguments") params)) mcp.empresa_id)
        s
        (company_scoped_arguments-Company float_is
          (or_empty float_is (get_field (codes "arguments") params)) mcp.empresa_id)

  mcp_method-Through : (request : Fields F) (s : Session) → Through mcp s (mcp_method d request s).1
  unfolding mcp_method
  mcp_method-Through request s =
      let method = get_field (codes "method") request in
      elim (Bool-cases (is_text method (codes "initialize"))) [
        | inl initialize ↦ rw initialize (refl, inl refl)
        | inr other ↦ rw other (elim (Bool-cases (is_text method (codes "tools/list"))) [
          | inl list ↦ rw list (refl, inl refl)
          | inr no_list ↦ rw no_list (elim (Bool-cases (is_text method (codes "tools/call"))) [
            | inl call ↦
                rw call
                  (tools_call-Through (or_empty float_is (get_field (codes "params") request)) s)
            | inr unsupported ↦ rw unsupported (refl, inl refl)
          ])
        ])
      ]

  mcp_gated-Through :
      (g : Option Gate) (request : Fields F) (s : Session)
      → Through mcp s (mcp_gated d g request s).1
  unfolding mcp_gated
  mcp_gated-Through none request s = (refl, inl refl)
  mcp_gated-Through (some unauthorized) request s = (refl, inl refl)
  mcp_gated-Through (some (over rate_limited)) request s = (refl, inl refl)
  mcp_gated-Through (some (over unavailable)) request s = (refl, inl refl)
  mcp_gated-Through (some open_gate) request s = mcp_method-Through request s

  a2a_gated-Through :
      (g : Option Gate) (message : Fields F) (s : Session)
      → Through a2a s (a2a_gated d g message s).1
  unfolding a2a_gated
  a2a_gated-Through none message s = (refl, inl refl)
  a2a_gated-Through (some unauthorized) message s = (refl, inl refl)
  a2a_gated-Through (some (over rate_limited)) message s = (refl, inl refl)
  a2a_gated-Through (some (over unavailable)) message s = (refl, inl refl)
  a2a_gated-Through (some open_gate) message s =
      let action = get_field (codes "action") message in
      act-Through action (is_action d action)
        (company_scoped_arguments float_is (or_empty float_is (get_field (codes "payload") message))
          a2a.empresa_id)
        s
        (company_scoped_arguments-Company float_is
          (or_empty float_is (get_field (codes "payload") message)) a2a.empresa_id)

  mcp-Scoped :
      (o : Option Bool) (a : Arrival) (request : Fields F) (store : redis.Store) (s : Session)
      → authorized a.authorization mcp.shared_token ≡ o
      → Scoped mcp a s (mcp_gated d (gated d mcp (codes "mcp") a o store).0 request s).1
  unfolding mcp_gated
  mcp-Scoped none a request store s e = (refl, inl refl)
  mcp-Scoped (some false) a request store s e = (refl, inl refl)
  mcp-Scoped (some true) a request store s e =
      let through = mcp_gated-Through (gated d mcp (codes "mcp") a (some true) store).0 request s in
      (through.0, inr (e, through))

  a2a-Scoped :
      (o : Option Bool) (a : Arrival) (message : Fields F) (store : redis.Store) (s : Session)
      → authorized a.authorization a2a.shared_token ≡ o
      → Scoped a2a a s (a2a_gated d (gated d a2a (codes "a2a") a o store).0 message s).1
  unfolding a2a_gated
  a2a-Scoped none a message store s e = (refl, inl refl)
  a2a-Scoped (some false) a message store s e = (refl, inl refl)
  a2a-Scoped (some true) a message store s e =
      let through = a2a_gated-Through (gated d a2a (codes "a2a") a (some true) store).0 message s in
      (through.0, inr (e, through))

  -- Whatever it contains, a request on either route asks the data layer at most one question, and
  -- only if it bears the token of the integration and the integration has a company and a complete
  -- account: then that question is of that company and under that account. The identity that was in
  -- force before is in force afterwards.
  pub dispatch-Scoped :
      (a : Arrival) (request : Fields F) (store : redis.Store) (s : Session)
      → Scoped mcp a s (dispatch_mcp d a request (store, s)).1.1
        × Scoped a2a a s (dispatch_a2a d a request (store, s)).1.1
  unfolding dispatch_mcp dispatch_a2a gate
  dispatch-Scoped a request store s = (
    mcp-Scoped (authorized a.authorization mcp.shared_token) a request store s refl,
    a2a-Scoped (authorized a.authorization a2a.shared_token) a request store s refl,
  )
