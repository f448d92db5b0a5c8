-- ===== src/Skills/Executor.antt =====
-- app/skills/executor.py: the one place where a skill runs. JSON Schema validation, the import and
-- the run of an entrypoint are arguments, with every way in which they end. What the audit cannot
-- record is logged and forgotten, so the calls of the audit are what is kept here. Of the awaits only
-- the run of the entrypoint is cancelled.
pub mod Audited
pub mod Authorized
use mottainai_ia.Base.{
  ℕ, Bool, true, false, not, ◌&&◌, ◌||◌, ◌==◌, List, [], ◌∷◌, ◌++◌, Option, none, some,
  if◌then◌else◌,
}
use mottainai_ia.Base.Int.{ℤ}
use mottainai_ia.Text.Case.{Str, codes}
use mottainai_ia.Text.Search.{str_mem, starts_with}
use mottainai_ia.Skills.Manifest.{SkillManifest, entrypoint_allowed_prefix}
use mottainai_ia.Skills.Registry.{Lookup, unavailable, missing, found, get_manifest}

-- `jsonschema.validate`: it passes, raises ValidationError, or raises anything else, as SchemaError
-- on a schema that is none.
pub data Verdict : Type 0 where
  conforms violates validator_raised : Verdict

-- `import_module` and `getattr`: the function, ImportError or AttributeError, or whatever else the
-- module's own code raises.
pub data Imported : Type 0 where
  resolved unresolvable import_raised : Imported

-- `wait_for(function(**inputs), timeout)`; CancelledError is no `Exception`.
pub data Ran (V : Type 0) : Type 0 where
  ran_to : V → Ran V
  timed_out : Ran V
  run_raised : Ran V
  run_cancelled : Ran V

-- The exceptions that the function does not catch.
pub data Uncaught : Type 0 where
  -- The unpacking of `entrypoint.split(":")` failed.
  unpacking : Uncaught
  input_validator : Uncaught
  importing : Uncaught
  cancellation : Uncaught
  output_validator : Uncaught

-- The result, or the exception with what distinguishes its messages.
pub data SkillResult (V : Type 0) : Type 0 where
  succeeded : V → SkillResult V
  not_available : SkillResult V
  not_authorized : SkillResult V
  invalid_input : SkillResult V
  not_allowlisted : SkillResult V
  not_loadable : SkillResult V
  ran_out : SkillResult V
  skill_raised : SkillResult V
  invalid_output : SkillResult V
  uncaught : Uncaught → SkillResult V

-- What a call does: its result, the statuses it audits and the entrypoints it runs.
pub record Execution (V : Type 0) : Type 0 where
  pub result : SkillResult V
  pub audits : List Str
  pub runs : List (Str × Str)

-- `module_name, function_name = entrypoint.split(":")`
unfoldable pub split_at_colon : Str → Str × Option Str
split_at_colon [] = ([], none)
split_at_colon (c ∷ s) =
    let (before, after) = split_at_colon s in
    if c == b':' then ([], some s) else (c ∷ before, after)

unfoldable pub has_colon : Str → Bool
has_colon [] = false
has_colon (c ∷ s) = c == b':' || has_colon s

unfoldable pub two_parts : Str × Option Str → Option (Str × Str)
unfolding has_colon
two_parts (before, none) = none
two_parts (before, some after) = if has_colon after then none else some (before, after)

unfoldable pub split_entrypoint : Str → Option (Str × Str)
unfolding split_at_colon two_parts
split_entrypoint entrypoint = two_parts (split_at_colon entrypoint)

module _ {V Schema : Type 0} (valid : Schema → V → Verdict) (imported : Str → Str → Imported)
    (run : Str → Str → ℕ → V → Ran V) where
  abbrev pub ends_without_run : SkillResult V → Str → Execution V
  ends_without_run result status = record { result = result; audits = status ∷ []; runs = [] }

  abbrev pub ends_after : Str × Str → SkillResult V → Str → Execution V
  ends_after point result status = record {
    result = result;
    audits = status ∷ [];
    runs = point ∷ [];
  }

  abbrev pub escapes : Uncaught → List (Str × Str) → Execution V
  escapes e runs = record { result = uncaught e; audits = []; runs = runs }

  -- Steps 5 and 6, on what the run gave.
  unfoldable pub finish : SkillManifest Schema → Str × Str → Ran V → Execution V
  finish m point timed_out = ends_after point ran_out (codes "timeout")
  finish m point run_raised = ends_after point skill_raised (codes "error")
  finish m point run_cancelled = escapes cancellation (point ∷ [])
  finish m point (ran_to v) = elim (valid m.output_schema v) [
    | conforms ↦ ends_after point (succeeded v) (codes "success")
    | violates ↦ ends_after point invalid_output (codes "invalid_output")
    | validator_raised ↦ escapes output_validator (point ∷ [])
  ]

  -- Step 4.
  unfoldable pub run_entrypoint : SkillManifest Schema → V → Option (Str × Str) → Execution V
  unfolding finish
  run_entrypoint m inputs none = escapes unpacking []
  run_entrypoint m inputs (some (module_name, function_name)) =
      if not (starts_with module_name entrypoint_allowed_prefix)
      then ends_without_run not_allowlisted (codes "denied")
      else elim (imported module_name function_name) [
        | resolved ↦
            finish m (module_name, function_name)
              (run module_name function_name m.timeout_ms inputs)
        | unresolvable ↦ ends_without_run not_loadable (codes "error")
        | import_raised ↦ escapes importing []
      ]

  -- Steps 2 and 3.
  unfoldable pub authorize : Str → V → Lookup Schema → Execution V
  unfolding run_entrypoint
  authorize role inputs unavailable = ends_without_run not_available (codes "denied")
  authorize role inputs missing = ends_without_run not_authorized (codes "denied")
  authorize role inputs (found m) =
      if not m.active || not (str_mem role m.required_roles)
      then ends_without_run not_authorized (codes "denied")
      else elim (valid m.input_schema inputs) [
        | conforms ↦ run_entrypoint m inputs (split_entrypoint m.entrypoint)
        | violates ↦ ends_without_run invalid_input (codes "invalid_input")
        | validator_raised ↦ escapes input_validator []
      ]

  unfoldable pub execute_skill :
      ℤ → Str → Str → Str → V → Option (List (SkillManifest Schema)) → Execution V
  unfolding authorize
  execute_skill empresa_id role name version inputs docs =
      authorize role inputs (get_manifest empresa_id name version docs)
