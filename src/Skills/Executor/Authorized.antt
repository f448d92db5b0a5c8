-- ===== src/Skills/Executor/Authorized.antt =====
-- What an execution has checked before it runs an entrypoint.
use mottainai_ia.Base.{
  ℕ, ◌≡◌, refl, ◌⊎◌, inl, inr, true, not, ◌||◌, List, [], ◌∷◌, Option, none, some, arith,
  Bool-cases,
}
use mottainai_ia.Base.Int.{ℤ}
use mottainai_ia.Text.Case.{Str}
use mottainai_ia.Text.Search.{str_mem, starts_with}
use mottainai_ia.Skills.Manifest.{SkillManifest, entrypoint_allowed_prefix, is_valid}
use mottainai_ia.Skills.Registry.{Lookup, unavailable, missing, found, get_manifest, is_skill}
use mottainai_ia.Skills.Registry.Tenants.{get_manifest-found}
use mottainai_ia.Skills.Executor.Audited.{Verdict-cases, Imported-cases}
use mottainai_ia.Skills.Executor.{
  Verdict, conforms, Imported, Ran, ran_to, timed_out, run_raised, run_cancelled, Execution,
  split_entrypoint, finish, run_entrypoint, authorize, execute_skill,
}

module _ {V Schema : Type 0} (valid : Schema → V → Verdict) (imported : Str → Str → Imported)
    (run : Str → Str → ℕ → V → Ran V) where
  -- What holds of the entrypoint that a call has run.
  pub record Authorized (empresa_id : ℤ) (role name version : Str) (inputs : V)
      (docs : Option (List (SkillManifest Schema))) (p : Str × Str) : Type 0 where
    pub manifest : SkillManifest Schema
    pub resolved_to : get_manifest empresa_id name version docs ≡ found manifest
    pub its_skill : is_skill empresa_id name version manifest ≡ true
    pub its_shape : is_valid manifest ≡ true
    pub is_active : manifest.active ≡ true
    pub has_role : str_mem role manifest.required_roles ≡ true
    pub input_valid : valid manifest.input_schema inputs ≡ conforms
    pub its_entrypoint : split_entrypoint manifest.entrypoint ≡ some p
    pub allowlisted : starts_with p.0 entrypoint_allowed_prefix ≡ true

  finish_runs :
      (m : SkillManifest Schema) (point : Str × Str) (r : Ran V)
      → (finish valid imported run m point r).runs ≡ point ∷ []
  unfolding finish
  finish_runs m point timed_out = refl
  finish_runs m point run_raised = refl
  finish_runs m point run_cancelled = refl
  finish_runs m point (ran_to v) = elim (Verdict-cases (valid m.output_schema v)) [
    | inl good ↦ rw (good, finish) refl
    | inr (inl bad) ↦ rw (bad, finish) refl
    | inr (inr broken) ↦ rw (broken, finish) refl
  ]

  -- The entrypoints that the last step runs.
  run_entrypoint_runs :
      (m : SkillManifest Schema) (inputs : V) (o : Option (Str × Str))
      → ((run_entrypoint valid imported run m inputs o).runs ≡ [])
        ⊎ (p : Str × Str) × (o ≡ some p)
          × (starts_with p.0 entrypoint_allowed_prefix ≡ true)
          × ((run_entrypoint valid imported run m inputs o).runs ≡ p ∷ [])
  unfolding run_entrypoint
  run_entrypoint_runs m inputs none = inl refl
  run_entrypoint_runs m inputs (some (module_name, function_name)) =
      elim (Bool-cases (starts_with module_name entrypoint_allowed_prefix)) [
        | inr foreign ↦ inl (rw (foreign, run_entrypoint) refl)
        | inl ours ↦ elim (Imported-cases (imported module_name function_name)) [
          | inr (inl lost) ↦ inl (rw (ours, lost, run_entrypoint) refl)
          | inr (inr raised) ↦ inl (rw (ours, raised, run_entrypoint) refl)
          | inl there ↦ inr (
            (module_name, function_name),
            refl,
            ours,
            rw (ours, there, run_entrypoint) (finish_runs m _ _),
          )
        ]
      ]

  authorize_runs :
      (role : Str) (inputs : V) (l : Lookup Schema)
      → ((authorize valid imported run role inputs l).runs ≡ [])
        ⊎ (m : SkillManifest Schema) × (p : Str × Str) × (l ≡ found m)
          × (m.active ≡ true)
          × (str_mem role m.required_roles ≡ true)
          × (valid m.input_schema inputs ≡ conforms)
          × (split_entrypoint m.entrypoint ≡ some p)
          × (starts_with p.0 entrypoint_allowed_prefix ≡ true)
          × ((authorize valid imported run role inputs l).runs ≡ p ∷ [])
  unfolding authorize
  authorize_runs role inputs unavailable = inl refl
  authorize_runs role inputs missing = inl refl
  authorize_runs role inputs (found m) =
      elim (Bool-cases (not m.active || not (str_mem role m.required_roles))) [
        | inl denied ↦ inl (rw (denied, authorize) refl)
        | inr allowed ↦ elim (Verdict-cases (valid m.input_schema inputs)) [
          | inr (inl bad) ↦ inl (rw (allowed, bad, authorize) refl)
          | inr (inr broken) ↦ inl (rw (allowed, broken, authorize) refl)
          | inl good ↦ elim (run_entrypoint_runs m inputs (split_entrypoint m.entrypoint)) [
            | inl nothing ↦ inl (rw (allowed, good, authorize) nothing)
            | inr (p, e, ours, runs) ↦ inr (
              m,
              p,
              refl,
              ground arith,
              ground arith,
              good,
              e,
              ours,
              rw (allowed, good, authorize) runs,
            )
          ]
        ]
      ]

  module _ (empresa_id : ℤ) (role name version : Str) (inputs : V)
      (docs : Option (List (SkillManifest Schema))) where
    abbrev pub call : Execution V
    call = execute_skill valid imported run empresa_id role name version inputs docs

    -- An execution runs at most one entrypoint, and only that of the manifest which the registry gives
    -- for the caller's company, the name and the version asked for. That manifest is valid and active,
    -- the caller's role is among its roles, the inputs pass its schema, and the entrypoint is in a
    -- module below `app.skills.`.
    pub execute_skill-Authorized :
        (call.runs ≡ [])
        ⊎ (p : Str × Str) × (call.runs ≡ p ∷ [])
          × Authorized empresa_id role name version inputs docs p
    unfolding execute_skill
    execute_skill-Authorized =
        elim (authorize_runs role inputs (get_manifest empresa_id name version docs)) [
          | inl nothing ↦ inl nothing
          | inr (m, p, e, live, allowed, good, split, ours, runs) ↦
              let (skill, shape) = get_manifest-found empresa_id name version docs m e in
              inr (
                p,
                runs,
                record {
                  manifest = m;
                  resolved_to = e;
                  its_skill = skill;
                  its_shape = shape;
                  is_active = live;
                  has_role = allowed;
                  input_valid = good;
                  its_entrypoint = split;
                  allowlisted = ours;
                },
              )
        ]
