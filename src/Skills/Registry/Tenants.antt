-- ===== src/Skills/Registry/Tenants.antt =====
-- What a tenant and a role can be shown of the registry.
use mottainai_ia.Base.{
  ◌≡◌, ap, subst, inl, inr, true, List, Option, none, some, find, find_passes, All, Bool-cases,
  Option-cases,
}
use mottainai_ia.Base.Int.{ℤ}
use mottainai_ia.Text.Case.{Str}
use mottainai_ia.Skills.Manifest.{SkillManifest, is_valid}
use mottainai_ia.Skills.Registry.{
  matches_role, Cached, Lookup, found, missing, unavailable, get_manifest, is_skill, to_manifest,
  constructed,
}

module _ {Schema : Type 0} where
  manifest_of : SkillManifest Schema → Lookup Schema → SkillManifest Schema
  manifest_of d unavailable = d
  manifest_of d missing = d
  manifest_of d (found m) = m

  found_inj : {a b : SkillManifest Schema} → found a ≡ found b → a ≡ b
  unfolding manifest_of
  found_inj {a = a} e = ap (manifest_of a) e

  unavailable-not-found : (m : SkillManifest Schema) → unavailable ≡ found m → ⊥
  unavailable-not-found m e = cc

  -- Every manifest of an entry is of the entry's company, active, and allowed to the entry's role.
  abbrev pub Owned : Cached Schema → Type 0
  Owned c = All (λ m. matches_role c.for_empresa c.for_role m ≡ true) c.manifests

  abbrev pub CacheOwned : List (Cached Schema) → Type 0
  CacheOwned cache = All Owned cache

  constructed_valid :
      (d m : SkillManifest Schema)
      → constructed (to_manifest d) ≡ found m
      → (d ≡ m) × (is_valid m ≡ true)
  unfolding constructed to_manifest
  constructed_valid d m e = elim (Bool-cases (is_valid d)) [
    | inl good ↦
        let same = found_inj (rw (good, constructed, to_manifest) at e) in
        (same, subst (λ z. is_valid z ≡ true) same good)
    | inr bad ↦ absurd (unavailable-not-found m (rw (bad, constructed, to_manifest) at e))
  ]

  -- What a call of `list_active` shows, and the cache that it leaves.
  abbrev Shows : ℤ → Str → List (SkillManifest Schema) × List (Cached Schema) → Type 0
  Shows empresa_id role r = All (λ m. matches_role empresa_id role m ≡ true) r.0 × CacheOwned r.1

  -- A manifest that the executor gets is a valid one of the company, with the name and version asked
  -- for.
  pub get_manifest-found :
      (empresa_id : ℤ) (name version : Str) (docs : Option (List (SkillManifest Schema)))
      (m : SkillManifest Schema)
      → get_manifest empresa_id name version docs ≡ found m
      → (is_skill empresa_id name version m ≡ true) × (is_valid m ≡ true)
  unfolding get_manifest
  get_manifest-found empresa_id name version none m e = cc
  get_manifest-found empresa_id name version (some docs) m e =
      elim (Option-cases (find (is_skill empresa_id name version) docs)) [
        | inl nothing ↦ absurd (missing-not-found (rw (nothing, get_manifest) at e))
        | inr (d, there) ↦
            let (same, valid) = constructed_valid d m (rw (there, get_manifest) at e) in
            (
              subst (λ z. is_skill empresa_id name version z ≡ true) same
                  (find_passes (is_skill empresa_id name version) docs d there),
              valid,
            )
      ]
    where
      missing-not-found : missing ≡ found m → ⊥
      missing-not-found h = cc
