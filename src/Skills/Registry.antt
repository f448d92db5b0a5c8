-- ===== src/Skills/Registry.antt =====
-- app/skills/registry.py: the documents of `skill_registry`, the direct lookup and the cached list.
pub mod Tenants
use mottainai_ia.Base.{
  ℕ, ◌+◌, ◌*◌, Bool, true, false, not, ◌&&◌, ◌||◌, List, [], ◌∷◌, Option, none, some, if◌then◌else◌,
  ltb, find, keep, all,
}
use mottainai_ia.Base.Int.{ℤ, eqb_ℤ}
use mottainai_ia.Text.Case.{Str}
use mottainai_ia.Text.Search.{str_eq, str_mem}
use mottainai_ia.Skills.Manifest.{SkillManifest, is_valid}

-- `get_manifest`: it raises, finds nothing or finds a manifest.
pub data Lookup (Schema : Type 0) : Type 0 where
  unavailable : Lookup Schema
  missing : Lookup Schema
  found : SkillManifest Schema → Lookup Schema

-- An entry of `_cache`, with its key.
pub record Cached (Schema : Type 0) : Type 0 where
  pub for_empresa : ℤ
  pub for_role : Str
  pub manifests : List (SkillManifest Schema)
  pub fetched : ℕ

abbrev pub cache_ttl_seconds : ℕ
cache_ttl_seconds = 60

module _ {Schema : Type 0} where
  -- `_to_manifest` of a document with every field: construction raises on an invalid one.
  unfoldable pub to_manifest : SkillManifest Schema → Option (SkillManifest Schema)
  to_manifest doc = if is_valid doc then some doc else none

  abbrev pub matches_role : ℤ → Str → SkillManifest Schema → Bool
  matches_role empresa_id role doc =
      eqb_ℤ doc.empresa_id empresa_id && (doc.active && str_mem role doc.required_roles)

  abbrev pub is_skill : ℤ → Str → Str → SkillManifest Schema → Bool
  is_skill empresa_id name version doc =
      eqb_ℤ doc.empresa_id empresa_id && (str_eq doc.name name && str_eq doc.version version)

  unfoldable pub constructed : Option (SkillManifest Schema) → Lookup Schema
  constructed none = unavailable
  constructed (some m) = found m

  -- The query gives `none` if it fails.
  unfoldable pub get_manifest : ℤ → Str → Str → Option (List (SkillManifest Schema)) → Lookup Schema
  unfolding constructed to_manifest
  get_manifest empresa_id name version none = unavailable
  get_manifest empresa_id name version (some docs) =
      elim (find (is_skill empresa_id name version) docs) [
        | none ↦ missing
        | some doc ↦ constructed (to_manifest doc)
      ]

  abbrev pub is_key : ℤ → Str → Cached Schema → Bool
  is_key empresa_id role c = eqb_ℤ c.for_empresa empresa_id && str_eq c.for_role role

  -- What the bounded query and the construction of all its manifests give.
  unfoldable pub fetch_active :
      ℤ → Str → Option (List (SkillManifest Schema)) → Option (List (SkillManifest Schema))
  fetch_active empresa_id role none = none
  fetch_active empresa_id role (some docs) =
      let mine = keep (matches_role empresa_id role) docs in
      if all is_valid mine then some mine else none

  -- `_cache[key] = …`
  abbrev pub store_entry : Cached Schema → List (Cached Schema) → List (Cached Schema)
  store_entry c cache = c ∷ cache

  unfoldable pub refetch :
      ℤ
      → Str
      → ℕ
      → Option (List (SkillManifest Schema))
      → List (Cached Schema)
      → List (SkillManifest Schema) × List (Cached Schema)
  refetch empresa_id role now none cache = ([], cache)
  refetch empresa_id role now (some manifests) cache = (
    manifests,
    store_entry
        (record { for_empresa = empresa_id; for_role = role; manifests = manifests; fetched = now })
        cache,
  )

  -- `list_active`; `docs` is none where the query times out or fails. A clock reading is in ticks,
  -- `second` of them to the second.
  unfoldable pub list_active :
      ℕ
      → ℤ
      → Str
      → ℕ
      → Option (List (SkillManifest Schema))
      → List (Cached Schema)
      → List (SkillManifest Schema) × List (Cached Schema)
  unfolding refetch fetch_active
  list_active second empresa_id role now docs cache = elim (find (is_key empresa_id role) cache) [
    | none ↦ refetch empresa_id role now (fetch_active empresa_id role docs) cache
    | some c ↦
        if ltb now (c.fetched + cache_ttl_seconds * second)
        then (c.manifests, cache)
        else refetch empresa_id role now (fetch_active empresa_id role docs) cache
  ]
