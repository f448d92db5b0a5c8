-- ===== src/Rag/Retrieval.antt =====
-- app/rag/retriever.py: the chunks of a company that a question finds, and the cache in front of it.
-- The embedding of a text, the scores of numpy and the digest of a text are parameters. A chunk's
-- metadata, which no caller reads, is left out.
pub mod Ranked
pub mod Cached
pub mod Audience
use mottainai_ia.Base.{
  ℕ, Bool, true, false, not, ◌&&◌, ◌==◌, List, [], ◌∷◌, ◌++◌, Option, none, some, any, keep, ltb,
  map, take, if◌then◌else◌,
}
use mottainai_ia.Base.Int.{ℤ, pos, eqb_ℤ}
use mottainai_ia.Base.Floats.{Floats}
use mottainai_ia.Base.Sorting.{sort}
use mottainai_ia.Text.Case.{Str, codes, strip, lower}
use mottainai_ia.Text.Search.{str_eq, str_mem}
use mottainai_ia.Text.Split.{join}
use mottainai_ia.Text.Decimal.{str_ℕ}
use mottainai_ia.Cache.Keyspace.{rag_result}
use mottainai_ia.Rag.Documents.{Document, Chunk, Knowledge}

-- The numbers of the search, over floats `F` and vectors `V`.
pub record Vectors (F : Type 0) : Type 1 where
  pub V : Type 0
  pub embed : Str → V
  -- One score for each vector.
  pub batch_cosine_similarity : V → List V → List F
  -- `round(score, 4)`
  pub round_four : F → F
  -- The default of `min_score`, and the hexadecimal digest of a text.
  pub default_min_score : F
  pub digest : Str → Str

pub record Result (F : Type 0) : Type 0 where
  pub text : Str
  pub score : F
  pub document_id : ℕ
  pub number : ℕ

-- `{"type": "rag", "ref": f"doc:{…} chunk:{…}", "score": …}`
pub record Source (F : Type 0) : Type 0 where
  pub document_id : ℕ
  pub number : ℕ
  pub score : F

-- What is put in the prompt, and what is stored with the message.
abbrev pub Found : Type 0 → Type 0
Found F = Str × List (Source F)

abbrev pub is_allowed : Option (List Str) → Str → Bool
is_allowed none category = true
is_allowed (some allowed) category = str_mem category allowed

-- The filter on `rag_documents`.
unfoldable pub in_audience : ℤ → Option (List Str) → Document → Bool
unfolding str_mem
in_audience empresa_id allowed d = eqb_ℤ d.empresa_id empresa_id && is_allowed allowed d.category

abbrev pub has_embedding : {V : Type 0} → Chunk V → Bool
has_embedding c = elim c.embedding [ none ↦ false | some v ↦ true ]

abbrev pub vectors_of : {V : Type 0} → List (Chunk V) → List V
vectors_of [] = []
vectors_of (c ∷ cs) = elim c.embedding [ none ↦ vectors_of cs | some v ↦ v ∷ vectors_of cs ]

-- The filter on `rag_chunks`.
unfoldable pub is_candidate : {V : Type 0} → List ℕ → Chunk V → Bool
is_candidate ids c = any (λ i. i == c.document_id) ids && has_embedding c

abbrev pub parts_of : {F : Type 0} → List Str → List (Result F) → List Str
parts_of seen [] = []
parts_of seen (r ∷ rs) =
    let again = parts_of seen rs in
    let first = parts_of (r.text ∷ seen) rs in if str_mem r.text seen then again else r.text ∷ first

abbrev pub source_of : {F : Type 0} → Result F → Source F
source_of r = record { document_id = r.document_id; number = r.number; score = r.score }

abbrev pub customer_categories : Bool → Option (List Str)
customer_categories customer_only = if customer_only then some (codes "FAQ" ∷ []) else none

-- Python's order of texts, by code points.
unfoldable pub str_lt : Str → Str → Bool
str_lt s [] = false
str_lt [] (d ∷ t) = true
str_lt (c ∷ s) (d ∷ t) = let rest = str_lt s t in if c == d then rest else ltb c d

abbrev pub audience : Option (List Str) → Str
unfolding str_lt
audience none = codes "all"
audience (some allowed) = join (codes ",") (sort (λ s t. str_lt t s) allowed)

-- The text that a cache key is a digest of.
unfoldable pub normalized : Str → ℕ → Option (List Str) → Str
unfolding strip lower str_ℕ join sort str_lt
normalized query top_k allowed =
    codes "dedup-v2::"
    ++ (lower (strip query) ++ (codes "::" ++ (str_ℕ top_k ++ (codes "::" ++ audience allowed))))

module _ (fl : Floats) (vs : Vectors fl.F) where
  open fl use {F, le, lt}
  open vs use {V, embed, batch_cosine_similarity, round_four, default_min_score, digest}

  -- The comprehension over `zip(chunks, scores)`.
  unfoldable pub scored : F → List (Chunk V) → List F → List (Result F)
  scored min_score [] scores = []
  scored min_score (c ∷ cs) [] = []
  scored min_score (c ∷ cs) (x ∷ xs) =
      let rest = scored min_score cs xs in
      if le min_score x
      then record {
        text = c.text;
        score = round_four x;
        document_id = c.document_id;
        number = c.number;
      }
        ∷ rest
      else rest

  abbrev pub lower_score : Result F → Result F → Bool
  lower_score a b = lt a.score b.score

  unfoldable pub rank : ℕ → F → V → List (Chunk V) → List (Result F)
  unfolding scored sort
  rank top_k min_score query_vec [] = []
  rank top_k min_score query_vec (c ∷ cs) = take top_k (
      sort lower_score
        (scored min_score (c ∷ cs) (batch_cosine_similarity query_vec (vectors_of (c ∷ cs)))))

  unfoldable pub search : ℕ → F → V → List ℕ → List (Chunk V) → List (Result F)
  unfolding rank is_candidate
  search top_k min_score query_vec [] chunks = []
  search top_k min_score query_vec (i ∷ ids) chunks =
      rank top_k min_score query_vec (keep (is_candidate (i ∷ ids)) chunks)

  unfoldable pub retrieve : Str → ℤ → ℕ → F → Option (List Str) → Knowledge V → List (Result F)
  unfolding search in_audience
  retrieve query empresa_id top_k min_score allowed s =
      search top_k min_score (embed query)
        (map (λ d. d.id) (keep (in_audience empresa_id allowed) s.documents)) s.chunks

  abbrev pub no_document : Str
  no_document = codes "Nenhum documento relevante encontrado na base de conhecimento."

  abbrev pub chunk_separator : Str
  chunk_separator = codes "\n\n---\n\n"

  unfoldable pub told : List (Result F) → Found F
  unfolding str_mem join
  told [] = (no_document, [])
  told (r ∷ rs) = (join chunk_separator (parts_of [] (r ∷ rs)), map source_of (r ∷ rs))

  -- A question, with what it finds: the knowledge base, whether a cache is configured, whether Redis
  -- answers the read with an entry that has not expired, and whether it takes the write.
  pub record Question : Type 0 where
    pub query : Str
    pub empresa_id : ℤ
    pub top_k : ℕ
    pub customer_only : Bool
    pub knowledge : Knowledge V
    pub cached : Bool
    pub reads : Bool
    pub writes : Bool

  abbrev pub question_text : Question → Str
  unfolding normalized
  question_text q = normalized q.query q.top_k (customer_categories q.customer_only)

  unfoldable pub rag_cache_key : Question → Str
  unfolding normalized rag_result
  rag_cache_key q = rag_result q.empresa_id (digest (question_text q))

  -- The answer without the cache.
  unfoldable pub fresh : Question → Found F
  unfolding retrieve told
  fresh q = told (
      retrieve q.query q.empresa_id q.top_k default_min_score (customer_categories q.customer_only)
        q.knowledge)

  abbrev pub CacheStore : Type 0
  CacheStore = Str → Option (Found F)

  unfoldable pub read_rag_cache : Question → Str → CacheStore → Option (Found F)
  read_rag_cache q key cache = if q.cached && q.reads then cache key else none

  unfoldable pub write_rag_cache : Question → Str → Found F → CacheStore → CacheStore
  unfolding str_eq
  write_rag_cache q key found cache =
      if q.cached && q.writes then (λ k. if str_eq k key then some found else cache k) else cache

  unfoldable pub served : Question → CacheStore → Option (Found F) → Found F × CacheStore
  unfolding fresh write_rag_cache rag_cache_key
  served q cache (some found) = (found, cache)
  served q cache none = (fresh q, write_rag_cache q (rag_cache_key q) (fresh q) cache)

  unfoldable pub retrieve_with_sources : Question → CacheStore → Found F × CacheStore
  unfolding read_rag_cache rag_cache_key served
  retrieve_with_sources q cache = served q cache (read_rag_cache q (rag_cache_key q) cache)
