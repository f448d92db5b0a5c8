-- ===== src/Skills/Manifest.antt =====
-- app/skills/base.py: the manifest of a skill and what its construction checks. Schemas are a
-- parameter, and `timeout_seconds` counts milliseconds here.
use mottainai_ia.Base.{
  ℕ, Bool, true, false, ◌&&◌, ◌||◌, ◌==◌, ◌≡◌, refl, List, [], ◌∷◌, none, leb, ltb, length, any,
}
use mottainai_ia.Base.Int.{ℤ}
use mottainai_ia.Text.Case.{Str, codes}
use mottainai_ia.Text.Search.{starts_with}
use mottainai_ia.Text.Regex.{
  Regex, Place, char, ◌⋅◌, plus, digit, word, letter, ends, is_digit, is_word, same_letter,
}

pub data SkillScope : Type 0 where
  read_only : SkillScope
  write_with_approval : SkillScope

-- `id`, `description`, `owner` and `tags` carry no rule and are left out.
pub record SkillManifest (Schema : Type 0) : Type 0 where
  pub empresa_id : ℤ
  pub name : Str
  pub version : Str
  pub entrypoint : Str
  pub timeout_ms : ℕ
  pub max_retries : ℕ
  pub scope : SkillScope
  pub required_roles : List Str
  pub input_schema : Schema
  pub output_schema : Schema
  pub active : Bool

abbrev pub entrypoint_allowed_prefix : Str
entrypoint_allowed_prefix = codes "app.skills."

abbrev at_end : Place → Bool
at_end (before, []) = true
at_end (before, c ∷ []) = c == 10
at_end (before, c ∷ d ∷ s) = false

-- `re.match` of a pattern between `^` and `$`; the latter also stands before a last line feed.
unfoldable pub full_match : Regex → Str → Bool
full_match r s = any at_end (ends r (none, s))

abbrev semver : Regex
semver = plus digit ⋅ letter b'.' ⋅ plus digit ⋅ letter b'.' ⋅ plus digit

unfoldable pub is_word_or_dot : ℕ → Bool
is_word_or_dot c = is_word c || c == b'.'

abbrev entrypoint_shape : Regex
entrypoint_shape = plus (char is_word_or_dot) ⋅ letter b':' ⋅ plus word

-- The constraints of the fields and the two validators.
unfoldable pub is_valid : {Schema : Type 0} → SkillManifest Schema → Bool
unfolding full_match
is_valid m =
    (leb 1 (length m.name) && leb (length m.name) 100)
    && (full_match semver m.version
        && ((ltb 0 m.timeout_ms && leb m.timeout_ms 60000)
            && (leb m.max_retries 5
                && (leb 1 (length m.required_roles)
                    && (full_match entrypoint_shape m.entrypoint
                        && starts_with m.entrypoint entrypoint_allowed_prefix)))))

semver_passes : full_match semver (codes "1.20.3") ≡ true
unfolding full_match ends is_digit same_letter
semver_passes = refl

semver_fails : full_match semver (codes "1.20") ≡ false
unfolding full_match ends is_digit same_letter
semver_fails = refl
