-- ===== src/Skills/Executor/Audited.antt =====
-- What an execution records, and the ways around the record.
use mottainai_ia.Base.{
  ℕ, ◌≡◌, refl, ◌⊎◌, inl, inr, true, not, ◌||◌, List, [], ◌∷◌, Option, none, some, Bool-cases,
}
use mottainai_ia.Base.Int.{ℤ}
use mottainai_ia.Text.Case.{Str, codes}
use mottainai_ia.Text.Search.{str_mem, starts_with}
use mottainai_ia.Skills.Manifest.{SkillManifest, entrypoint_allowed_prefix}
use mottainai_ia.Skills.Registry.{Lookup, unavailable, missing, found, get_manifest}
use mottainai_ia.Skills.Executor.{
  Verdict, conforms, violates, validator_raised, Imported, resolved, unresolvable, import_raised,
  ends_without_run, Ran, ran_to, timed_out, run_raised, run_cancelled, SkillResult, succeeded,
  not_available, not_authorized, invalid_input, not_allowlisted, not_loadable, ran_out,
  skill_raised, invalid_output, uncaught, Execution, split_entrypoint, finish, run_entrypoint,
  authorize, execute_skill,
}

pub Verdict-cases : (v : Verdict) → (v ≡ conforms) ⊎ (v ≡ violates) ⊎ (v ≡ validator_raised)
Verdict-cases conforms = inl refl
Verdict-cases violates = inr (inl refl)
Verdict-cases validator_raised = inr (inr refl)

pub Imported-cases : (i : Imported) → (i ≡ resolved) ⊎ (i ≡ unresolvable) ⊎ (i ≡ import_raised)
Imported-cases resolved = inl refl
Imported-cases unresolvable = inr (inl refl)
Imported-cases import_raised = inr (inr refl)

Ran-cases :
    {V : Type 0} (r : Ran V)
    → ((v : V) × (r ≡ ran_to v)) ⊎ (r ≡ timed_out) ⊎ (r ≡ run_raised) ⊎ (r ≡ run_cancelled)
Ran-cases (ran_to v) = inl (v, refl)
Ran-cases timed_out = inr (inl refl)
Ran-cases run_raised = inr (inr (inl refl))
Ran-cases run_cancelled = inr (inr (inr refl))

-- The status that `skill_executions` gets for a result, if it gets one.
abbrev pub status_of : {V : Type 0} → SkillResult V → List Str
status_of (succeeded v) = codes "success" ∷ []
status_of not_available = codes "denied" ∷ []
status_of not_authorized = codes "denied" ∷ []
status_of invalid_input = codes "invalid_input" ∷ []
status_of not_allowlisted = codes "denied" ∷ []
status_of not_loadable = codes "error" ∷ []
status_of ran_out = codes "timeout" ∷ []
status_of skill_raised = codes "error" ∷ []
status_of invalid_output = codes "invalid_output" ∷ []
status_of (uncaught e) = []

module _ {V Schema : Type 0} (valid : Schema → V → Verdict) (imported : Str → Str → Imported)
    (run : Str → Str → ℕ → V → Ran V) where
  -- Exactly one audit, with the status of the result, which is no uncaught exception.
  abbrev pub AuditedOnce : Execution V → Type 0
  AuditedOnce x = (status : Str) × (status_of x.result ≡ status ∷ []) × (x.audits ≡ status ∷ [])

  -- The ways around the audit, with what has been run.
  pub data Unaudited (m : SkillManifest Schema) (inputs : V) (x : Execution V) : Type 0 where
    input_unchecked :
        valid m.input_schema inputs ≡ validator_raised
        → x.audits ≡ []
        → x.runs ≡ []
        → Unaudited m inputs x
    unshaped :
        split_entrypoint m.entrypoint ≡ none → x.audits ≡ [] → x.runs ≡ [] → Unaudited m inputs x
    import_failed :
        (p : Str × Str)
        → split_entrypoint m.entrypoint ≡ some p
        → imported p.0 p.1 ≡ import_raised
        → x.audits ≡ []
        → x.runs ≡ []
        → Unaudited m inputs x
    run_stopped :
        (p : Str × Str)
        → split_entrypoint m.entrypoint ≡ some p
        → run p.0 p.1 m.timeout_ms inputs ≡ run_cancelled
        → x.audits ≡ []
        → x.runs ≡ p ∷ []
        → Unaudited m inputs x
    output_unchecked :
        (p : Str × Str) (v : V)
        → split_entrypoint m.entrypoint ≡ some p
        → run p.0 p.1 m.timeout_ms inputs ≡ ran_to v
        → valid m.output_schema v ≡ validator_raised
        → x.audits ≡ []
        → x.runs ≡ p ∷ []
        → Unaudited m inputs x

  finish-AuditedOnce :
      (m : SkillManifest Schema) (inputs : V) (p : Str × Str)
      → split_entrypoint m.entrypoint ≡ some p
      → AuditedOnce (finish valid imported run m p (run p.0 p.1 m.timeout_ms inputs))
        ⊎ Unaudited m inputs (finish valid imported run m p (run p.0 p.1 m.timeout_ms inputs))
  unfolding finish
  finish-AuditedOnce m inputs p e = elim (Ran-cases (run p.0 p.1 m.timeout_ms inputs)) [
    | inl (v, done) ↦ elim (Verdict-cases (valid m.output_schema v)) [
      | inl good ↦ inl (rw (done, good, finish) (_, refl, refl))
      | inr (inl bad) ↦ inl (rw (done, bad, finish) (_, refl, refl))
      | inr (inr broken) ↦ inr (
          output_unchecked p v e done broken (rw (done, broken, finish) refl)
            (rw (done, broken, finish) refl))
    ]
    | inr (inl late) ↦ inl (rw late (_, refl, refl))
    | inr (inr (inl failed)) ↦ inl (rw failed (_, refl, refl))
    | inr (inr (inr stopped)) ↦ inr (run_stopped p e stopped (rw stopped refl) (rw stopped refl))
  ]

  run_entrypoint-AuditedOnce :
      (m : SkillManifest Schema) (inputs : V) (o : Option (Str × Str))
      → split_entrypoint m.entrypoint ≡ o
      → AuditedOnce (run_entrypoint valid imported run m inputs o)
        ⊎ Unaudited m inputs (run_entrypoint valid imported run m inputs o)
  unfolding run_entrypoint
  run_entrypoint-AuditedOnce m inputs none e = inr (unshaped e refl refl)
  run_entrypoint-AuditedOnce m inputs (some (module_name, function_name)) e =
      elim (Bool-cases (starts_with module_name entrypoint_allowed_prefix)) [
        | inr foreign ↦ inl (rw foreign (_, refl, refl))
        | inl ours ↦ elim (Imported-cases (imported module_name function_name)) [
          | inl there ↦
              rw (ours, there) (finish-AuditedOnce m inputs (module_name, function_name) e)
          | inr (inl lost) ↦ inl (rw (ours, lost) (_, refl, refl))
          | inr (inr raised) ↦
              inr (import_failed _ e raised (rw (ours, raised) refl) (rw (ours, raised) refl))
        ]
      ]

  authorize-AuditedOnce :
      (role : Str) (inputs : V) (l : Lookup Schema)
      → AuditedOnce (authorize valid imported run role inputs l)
        ⊎ (m : SkillManifest Schema) × (l ≡ found m)
          × Unaudited m inputs (authorize valid imported run role inputs l)
  unfolding authorize
  authorize-AuditedOnce role inputs unavailable = inl (_, refl, refl)
  authorize-AuditedOnce role inputs missing = inl (_, refl, refl)
  authorize-AuditedOnce role inputs (found m) =
      elim (Bool-cases (not m.active || not (str_mem role m.required_roles))) [
        | inl denied ↦ inl (rw denied (_, refl, refl))
        | inr allowed ↦ elim (Verdict-cases (valid m.input_schema inputs)) [
          | inr (inl bad) ↦ inl (rw (allowed, bad) (_, refl, refl))
          | inr (inr broken) ↦ inr (
            m,
            refl,
            input_unchecked broken (rw (allowed, broken) refl) (rw (allowed, broken) refl),
          )
          | inl good ↦ elim (run_entrypoint-AuditedOnce m inputs _ refl) [
            | inl once ↦ inl (rw (allowed, good) once)
            | inr none_kept ↦ inr (m, refl, rw (allowed, good) none_kept)
          ]
        ]
      ]

  module _ (empresa_id : ℤ) (role name version : Str) (inputs : V)
      (docs : Option (List (SkillManifest Schema))) where
    abbrev pub execution : Execution V
    execution = execute_skill valid imported run empresa_id role name version inputs docs

    -- Every execution leaves exactly one audit record, with the status of its outcome: success,
    -- denial, invalid input or output, timeout and error alike. The exceptions are those of a
    -- manifest that was found: the validator raises on the input schema, the entrypoint does not split
    -- into two names, the import raises something else than ImportError and AttributeError, all three
    -- without a run; and a run that is cancelled or whose output schema makes the validator raise. They
    -- leave no record.
    pub execute_skill-AuditedOnce :
        AuditedOnce execution
        ⊎ (m : SkillManifest Schema) × (get_manifest empresa_id name version docs ≡ found m)
          × Unaudited m inputs execution
    unfolding execute_skill
    execute_skill-AuditedOnce =
        authorize-AuditedOnce role inputs (get_manifest empresa_id name version docs)

    -- A skill that does not exist for the company, one that is not active and one that the role may
    -- not run are refused alike: with the same exception and the same audit record, and without a
    -- run.
    pub execute_skill-denied :
        (get_manifest empresa_id name version docs ≡ missing)
          ⊎ (m : SkillManifest Schema) × (get_manifest empresa_id name version docs ≡ found m)
            × ((not m.active || not (str_mem role m.required_roles)) ≡ true)
        → execution ≡ ends_without_run valid imported run not_authorized (codes "denied")
    unfolding execute_skill authorize
    execute_skill-denied (inl nothing) = rw (nothing, execute_skill) refl
    execute_skill-denied (inr (m, there, refusal)) =
        rw (there, execute_skill, authorize, refusal) refl
