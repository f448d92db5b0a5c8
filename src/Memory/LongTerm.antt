-- ===== src/Memory/LongTerm.antt =====
-- app/memory/long_term.py: the preferences and facts of a user, under the unique key of `memories`.
pub mod Loaded
pub mod Grown
use mottainai_ia.Base.{
  ℕ, Bool, true, false, ◌&&◌, List, [], ◌∷◌, ◌++◌, Option, none, some, if◌then◌else◌, find,
}
use mottainai_ia.Base.Int.{ℤ, eqb_ℤ}
use mottainai_ia.Text.Case.{Str, codes}
use mottainai_ia.Text.Split.{join}
use mottainai_ia.Text.Search.{str_mem}
use mottainai_ia.Memory.Documents.{Memory, Stored}

abbrev pub no_memory : Memory
no_memory = record { preferences = []; facts = []; last_agent = none; last_skill = none }

abbrev pub belongs : ℤ → ℤ → Stored → Bool
belongs empresa_id usuario_id m =
    eqb_ℤ m.owner_empresa empresa_id && eqb_ℤ m.owner_usuario usuario_id

unfoldable pub load_memory : ℤ → ℤ → List Stored → Memory
load_memory empresa_id usuario_id db = elim (find (belongs empresa_id usuario_id) db) [
  | none ↦ no_memory
  | some m ↦ m.memory
]

-- The keyword arguments of `update_memory`; an empty text counts as missing.
pub record Update : Type 0 where
  pub new_preference : Option Str
  pub new_fact : Option Str
  pub set_agent : Option Str
  pub set_skill : Option Str

unfoldable pub set_text : Option Str → Option Str → Option Str
set_text none old = old
set_text (some []) old = old
set_text (some (c ∷ s)) old = some (c ∷ s)

-- `$addToSet`
unfoldable pub add_to_set : Option Str → List Str → List Str
add_to_set none xs = xs
add_to_set (some []) xs = xs
add_to_set (some (c ∷ s)) xs = if str_mem (c ∷ s) xs then xs else xs ++ ((c ∷ s) ∷ [])

unfoldable pub apply_update : Update → Memory → Memory
unfolding set_text add_to_set
apply_update u m = record {
  preferences = add_to_set u.new_preference m.preferences;
  facts = add_to_set u.new_fact m.facts;
  last_agent = set_text u.set_agent m.last_agent;
  last_skill = set_text u.set_skill m.last_skill;
}

abbrev pub updated : Update → ℕ → Stored → Stored
updated u now m = record m { memory = apply_update u m.memory; updated_at = now }

-- The upsert: the update goes to the document with the key, or to a new one.
unfoldable pub update_memory : ℤ → ℤ → Update → ℕ → List Stored → List Stored
update_memory empresa_id usuario_id u now [] =
    record {
      owner_empresa = empresa_id;
      owner_usuario = usuario_id;
      memory = apply_update u no_memory;
      updated_at = now;
    }
    ∷ []
update_memory empresa_id usuario_id u now (m ∷ rest) =
    let rest' = update_memory empresa_id usuario_id u now rest in
    if belongs empresa_id usuario_id m then updated u now m ∷ rest else m ∷ rest'

listed : Str → List Str → List Str
unfolding join
listed title [] = []
listed title (x ∷ xs) = (title ++ join (codes ", ") (x ∷ xs)) ∷ []

single : Str → Option Str → List Str
single title none = []
single title (some []) = []
single title (some (c ∷ s)) = (title ++ c ∷ s) ∷ []

unfoldable pub format_memory_for_prompt : Memory → Str
unfolding listed single join
format_memory_for_prompt m =
    let lines =
      listed (codes "Preferências do usuário: ") m.preferences
      ++ (listed (codes "Informações conhecidas sobre o usuário: ") m.facts
          ++ (single (codes "Último agente que atendeu: ") m.last_agent
              ++ single (codes "Última skill usada: ") m.last_skill)) in
    elim lines [
      | [] ↦ codes "Nenhuma memória prévia registrada."
      | line ∷ rest ↦ join (10 ∷ []) (line ∷ rest)
    ]
