-- ===== src/Tests/Skills.antt =====
-- The registry and the executor of skills.
use mottainai_ia.Base.{ℕ, ◌≡◌, ◌⊎◌, refl, Bool, true, List, [], ◌∷◌, Option, some, if◌then◌else◌}
use mottainai_ia.Base.Int.{pos}
use mottainai_ia.Text.Case.{Str, codes}
use mottainai_ia.Text.Search.{str_eq}
use mottainai_ia.Skills.Manifest.{SkillManifest, read_only}
use mottainai_ia.Skills.Registry.{Cached, get_manifest, missing, found}
use mottainai_ia.Skills.Executor.{
  Verdict, conforms, violates, Imported, resolved, Ran, ran_to, Execution, execute_skill,
}
use mottainai_ia.Skills.Executor.Audited.{AuditedOnce, Unaudited, execute_skill-AuditedOnce}
use mottainai_ia.Skills.Executor.Authorized.{Authorized, execute_skill-Authorized}

abbrev stock_report : SkillManifest Bool
stock_report = record {
  empresa_id = pos 4;
  name = codes "stock_report";
  version = codes "1.0.0";
  entrypoint = codes "app.skills.stock:report";
  timeout_ms = 5000;
  max_retries = 0;
  scope = read_only;
  required_roles = codes "GERENTE" ∷ [];
  input_schema = true;
  output_schema = true;
  active = true;
}

abbrev registry : Option (List (SkillManifest Bool))
registry = some (stock_report ∷ [])

abbrev accepts : Bool → ℕ → Verdict
accepts schema v = if schema then conforms else violates

abbrev importable : Str → Str → Imported
importable module_name function_name = resolved

abbrev doubles : Str → Str → ℕ → ℕ → Ran ℕ
doubles module_name function_name timeout v = ran_to v

abbrev run_by : Str → Execution ℕ
run_by role =
    execute_skill accepts importable doubles (pos 4) role (codes "stock_report") (codes "1.0.0") 7
      registry

execute_skill-AuditedOnce_example :
    AuditedOnce accepts importable doubles (run_by (codes "GERENTE"))
    ⊎ (m : SkillManifest Bool) × (get_manifest
          (pos 4)
          (codes "stock_report")
          (codes "1.0.0")
          registry
        ≡ found m)
      × Unaudited accepts importable doubles m 7 (run_by (codes "GERENTE"))
execute_skill-AuditedOnce_example =
    execute_skill-AuditedOnce accepts importable doubles (pos 4) (codes "GERENTE")
      (codes "stock_report") (codes "1.0.0") 7 registry

execute_skill-Authorized_example :
    ((run_by (codes "GERENTE")).runs ≡ [])
    ⊎ (p : Str × Str) × ((run_by (codes "GERENTE")).runs ≡ p ∷ [])
      × Authorized accepts importable doubles
          (pos 4)
          (codes "GERENTE")
          (codes "stock_report")
          (codes "1.0.0")
          7
          registry
          p
execute_skill-Authorized_example =
    execute_skill-Authorized accepts importable doubles (pos 4) (codes "GERENTE")
      (codes "stock_report") (codes "1.0.0") 7 registry

nothing_there : get_manifest (pos 5) (codes "stock_report") (codes "1.0.0") registry ≡ missing
unfolding get_manifest str_eq
nothing_there = refl

abbrev warm : List (Cached Bool)
warm =
    record {
      for_empresa = pos 4;
      for_role = codes "GERENTE";
      manifests = stock_report ∷ [];
      fetched = 100;
    }
    ∷ []
