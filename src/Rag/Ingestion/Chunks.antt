-- ===== src/Rag/Ingestion/Chunks.antt =====
-- The chunks that app/rag/ingestion.py divides a text into.
use mottainai_ia.Base.{map, ℕ, ◌≤◌, ◌<◌, ◌≡◌, ◌≢◌, ◌⊎◌, List, [], ◌∷◌, ◌++◌, All, length}
use mottainai_ia.Text.Case.{Str}
use mottainai_ia.Rag.Ingestion.Spoken.{spoken}
use mottainai_ia.Rag.Ingestion.{sentences}

abbrev pub flatten : List (List Str) → List Str
flatten [] = []
flatten (group ∷ groups) = group ++ flatten groups

-- More than one sentence only within the bound.
abbrev pub Fits : ℕ → List Str → Type 0
Fits max_chars group =
    (group ≢ []) × ((length (spoken group) ≤ max_chars) ⊎ (s : Str) × (group ≡ s ∷ []))

-- The chunks are the sentences in their order, in groups that fit.
abbrev pub Grouped : ℕ → List Str → List Str → Type 0
Grouped max_chars ss chunks =
    (groups : List (List Str)) × (flatten groups ≡ ss)
    × (chunks ≡ map spoken groups)
    × All (Fits max_chars) groups

-- A paragraph within the bound is a chunk as it is.
abbrev pub Divides : ℕ → Str → List Str → Type 0
Divides max_chars p chunks =
    (length p ≤ max_chars) × (chunks ≡ p ∷ [])
    ⊎ (max_chars < length p) × Grouped max_chars (sentences p) chunks

-- The chunks of each paragraph, in their order.
abbrev pub Divided : ℕ → List Str → List Str → Type 0
Divided max_chars [] chunks = chunks ≡ []
Divided max_chars (p ∷ ps) chunks =
    (own : List Str) × (others : List Str) × (chunks ≡ own ++ others)
    × Divides max_chars p own
    × Divided max_chars ps others
