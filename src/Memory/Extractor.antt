-- ===== src/Memory/Extractor.antt =====
-- app/memory/extractor.py: the statements of a user that are kept.
pub mod Kept
use mottainai_ia.Base.{
  ℕ, Bool, true, false, not, ◌&&◌, ◌||◌, ◌==◌, ◌≡◌, refl, List, [], ◌∷◌, ◌++◌, Option, none, some,
  if◌then◌else◌, ltb, length, take,
}
use mottainai_ia.Text.Case.{Str, codes, is_space, strip}
use mottainai_ia.Text.Search.{has_code}
use mottainai_ia.Text.Regex.{
  Regex, char, boundary, ◌⋅◌, ◌∣◌, opt, plus, space, letter, text, found, group_zero,
}
use mottainai_ia.Guardrails.Saida.{cpf, cnpj, email, is_letter}
use mottainai_ia.Memory.LongTerm.{}
use mottainai_ia.Text.Split.{join}

abbrev pub max_memory_length : ℕ
max_memory_length = 200

-- `[ _-]`
unfoldable pub is_joint : ℕ → Bool
is_joint c = c == b' ' || c == b'_' || c == b'-'

-- `.` is any character but a line feed.
unfoldable pub is_dot : ℕ → Bool
is_dot c = not (c == 10)

abbrev pub sensitive : Regex
sensitive =
    cpf
    ∣ boundary ⋅ cnpj ⋅ boundary
    ∣ email is_letter
    ∣ boundary
      ⋅ (text (codes "senha")
          ∣ text (codes "password")
          ∣ text (codes "token")
          ∣ text (codes "api") ⋅ opt (char is_joint) ⋅ text (codes "key")
          ∣ text (codes "segredo"))
      ⋅ boundary

abbrev pub preference_pattern : Regex
preference_pattern =
    boundary
    ⋅ opt (text (codes "eu "))
    ⋅ (text (codes "prefiro")
        ∣ text (codes "gosto de")
        ∣ text (codes "quero receber")
        ∣ text (codes "me chame de"))
    ⋅ plus space
    ⋅ plus (char is_dot)

abbrev pub fact_pattern : Regex
fact_pattern =
    boundary
    ⋅ opt (text (codes "eu "))
    ⋅ (text (codes "sou")
        ∣ text (codes "trabalho ") ⋅ (text (codes "na") ∣ text (codes "no") ∣ text (codes "em"))
        ∣ text (codes "tenho um") ⋅ opt (letter b'a')
        ∣ text (codes "minha loja ") ⋅ (text (codes "é") ∣ text (codes "fica")))
    ⋅ plus space
    ⋅ plus (char is_dot)

-- `str.split()`: the word that the text begins with, and the words after it.
push : Str → List Str → List Str
push [] ws = ws
push (c ∷ w) ws = (c ∷ w) ∷ ws

pieces : Str → Str × List Str
unfolding push is_space
pieces [] = ([], [])
pieces (c ∷ s) = let (w, ws) = pieces s in if is_space c then ([], push w ws) else (c ∷ w, ws)

unfoldable pub split : Str → List Str
unfolding pieces push
split s = let (w, ws) = pieces s in push w ws

-- `str.rstrip(chars)`
unfoldable pub rstrip : Str → Str → Str
rstrip chars [] = []
rstrip chars (c ∷ s) =
    let rest = rstrip chars s in if length rest == 0 && has_code c chars then [] else c ∷ rest

-- One pass of the loop: the statement that a pattern finds, if it may be kept.
unfoldable pub kept_group : Option Str → List Str
unfolding rstrip
kept_group none = []
kept_group (some group) =
    let value = take max_memory_length (rstrip (codes ".?! ") group) in
    if found sensitive value then [] else value ∷ []

unfoldable pub kept : Regex → Str → List Str
unfolding kept_group
kept pattern normalized = kept_group (group_zero pattern normalized)

pub record Extracted : Type 0 where
  pub preferences : List Str
  pub facts : List Str

unfoldable pub normalize : Str → Str
unfolding split join
normalize message = join (codes " ") (split (strip message))

abbrev pub unfit : Str → Bool
unfit message =
    let normalized = normalize message in
    length normalized == 0 || ltb 1000 (length normalized) || found sensitive normalized

unfoldable pub extract_memories : Str → Extracted
unfolding kept
extract_memories message =
    if unfit message then record { preferences = []; facts = [] } else record {
      preferences = kept preference_pattern (normalize message);
      facts = kept fact_pattern (normalize message);
    }

splits_words : split (codes "  a  bc d ") ≡ codes "a" ∷ codes "bc" ∷ codes "d" ∷ []
unfolding split
splits_words = refl
