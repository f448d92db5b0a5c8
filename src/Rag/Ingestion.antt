-- ===== src/Rag/Ingestion.antt =====
-- app/rag/ingestion.py: the category of a document and its division into chunks.
pub mod Chunks
pub mod Spoken
pub mod Categories
use mottainai_ia.Base.{
  ℕ, Bool, true, false, not, ◌&&◌, List, [], ◌∷◌, ◌++◌, length, keep, map, ltb, leb, if◌then◌else◌,
}
use mottainai_ia.Text.Case.{Str, codes, strip, upper}
use mottainai_ia.Text.Search.{str_mem, starts_with}
use mottainai_ia.Text.Split.{split, ends_in, replace_code}

abbrev pub categories : List Str
categories =
    codes "MANUAL"
    ∷ codes "FAQ"
    ∷ codes "PROCEDIMENTO"
    ∷ codes "TREINAMENTO"
    ∷ codes "POLITICA"
    ∷ []

abbrev pub max_chunk_chars : ℕ
max_chunk_chars = 800

unfoldable pub category_for_source : Str → Str
category_for_source source =
    let normalized = upper (strip source) in
    if str_mem normalized categories
    then normalized
    else if starts_with normalized (codes "FAQ")
    then codes "FAQ"
    else if starts_with normalized (codes "PROCEDIMENTO")
    then codes "PROCEDIMENTO"
    else if starts_with normalized (codes "TREINAMENTO")
    then codes "TREINAMENTO"
    else if starts_with normalized (codes "POLITICA")
    then codes "POLITICA"
    else codes "MANUAL"

abbrev pub nonempty : Str → Bool
nonempty [] = false
nonempty (c ∷ s) = true

-- The fields with a text in them, without the space around it.
unfoldable pub stripped : List Str → List Str
stripped fields = keep nonempty (map strip fields)

unfoldable pub sentences : Str → List Str
sentences paragraph = stripped (split (codes ". ") (replace_code 10 32 paragraph))

unfoldable pub piece_of : Str → Str
piece_of sentence = if ends_in (codes ".!?") sentence then sentence else sentence ++ codes "."

unfoldable pub joined : Str → Str → Str
joined [] piece = piece
joined (c ∷ current) piece = strip ((c ∷ current) ++ (32 ∷ piece))

-- The loop over the sentences of a long paragraph, with the chunk that is being filled.
unfoldable pub pack : ℕ → Str → List Str → List Str
pack max_chars current [] = if nonempty current then current ∷ [] else []
pack max_chars current (sentence ∷ others) =
    let piece = piece_of sentence in
    let candidate = joined current piece in
    let full = ltb max_chars (length candidate) && nonempty current in
    let rest = pack max_chars (if full then piece else candidate) others in
    if full then current ∷ rest else rest

unfoldable pub chunks_of : ℕ → Str → List Str
chunks_of max_chars paragraph =
    if leb (length paragraph) max_chars
    then paragraph ∷ []
    else pack max_chars [] (sentences paragraph)

unfoldable pub all_chunks : ℕ → List Str → List Str
all_chunks max_chars [] = []
all_chunks max_chars (paragraph ∷ others) =
    chunks_of max_chars paragraph ++ all_chunks max_chars others

unfoldable pub paragraphs : Str → List Str
paragraphs text = stripped (split (codes "\n\n") text)

unfoldable pub split_into_chunks : Str → ℕ → List Str
split_into_chunks text max_chars = all_chunks max_chars (paragraphs text)
