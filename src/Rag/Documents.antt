-- ===== src/Rag/Documents.antt =====
-- The writes of app/rag/ingestion.py: a document, then its chunks; and their removal. The embedding
-- model is a parameter, from texts to vectors, or none where it raises. `rag_documents` has a unique
-- index on the company and the slug (scripts/setup_mongo.py).
pub mod Sound
pub mod Removed
use mottainai_ia.Base.{
  ℕ, suc, Bool, true, false, not, ◌&&◌, ◌==◌, List, [], ◌∷◌, ◌++◌, Option, none, some, count, find,
  keep, length, take, if◌then◌else◌,
}
use mottainai_ia.Base.Int.{ℤ, eqb_ℤ}
use mottainai_ia.Text.Case.{Str, codes, strip, upper}
use mottainai_ia.Text.Search.{str_eq, str_mem}
use mottainai_ia.Rag.Ingestion.{categories, max_chunk_chars, category_for_source, split_into_chunks}

pub record Document : Type 0 where
  pub id : ℕ
  pub empresa_id : ℤ
  pub slug : Str
  pub title : Str
  pub source : Str
  pub category : Str
  pub version : Str
  pub created_at : ℕ

-- A chunk whose embedding is `none` has been written by another program.
pub record Chunk (V : Type 0) : Type 0 where
  pub document_id : ℕ
  pub number : ℕ
  pub text : Str
  pub embedding : Option V
  pub created_at : ℕ

pub record Knowledge (V : Type 0) : Type 0 where
  pub documents : List Document
  pub chunks : List (Chunk V)

pub record Upload : Type 0 where
  pub slug : Str
  pub title : Str
  pub source : Str
  pub text : Str
  pub category : Option Str
  pub version : Str

pub data Ingested : Type 0 where
  -- The identifier of the document and the number of chunks.
  ingested : ℕ → ℕ → Ingested
  value_error duplicate_slug : Ingested
  -- Whatever the model or `insert_many` raises.
  raised : Ingested

pub data Deleted : Type 0 where
  -- The number of chunks.
  deleted : ℕ → Deleted
  not_found interrupted : Deleted

-- `{"empresaId": empresa_id, "slug": slug}`
unfoldable pub owns : ℤ → Str → Document → Bool
unfolding str_eq
owns empresa_id slug d = eqb_ℤ d.empresa_id empresa_id && str_eq d.slug slug

abbrev pub chosen_category : Upload → Str
chosen_category u = elim u.category [
  | none ↦ category_for_source u.source
  | some c ↦ upper (strip c)
]

abbrev pub document_of : ℤ → Upload → ℕ → ℕ → Document
document_of empresa_id u now id = record {
  id = id;
  empresa_id = empresa_id;
  slug = u.slug;
  title = u.title;
  source = u.source;
  category = chosen_category u;
  version = u.version;
  created_at = now;
}

abbrev pub delete_first : {A : Type 0} → (A → Bool) → List A → List A
delete_first p [] = []
delete_first p (x ∷ xs) = if p x then xs else x ∷ delete_first p xs

module _ {V : Type 0} where
  -- `enumerate(zip(chunks_text, vectors))`
  unfoldable pub numbered : ℕ → ℕ → ℕ → List Str → List V → List (Chunk V)
  numbered id now n [] vs = []
  numbered id now n (t ∷ ts) [] = []
  numbered id now n (t ∷ ts) (v ∷ vs) =
      record { document_id = id; number = n; text = t; embedding = some v; created_at = now }
      ∷ numbered id now (suc n) ts vs

  abbrev pub of_document : ℕ → Chunk V → Bool
  of_document id c = c.document_id == id

  -- `insert_many`, which is ordered: it inserts all chunks, or raises after some of them.
  abbrev pub insert_chunks :
      List (Chunk V) → Option ℕ → Ingested → Knowledge V → Ingested × Knowledge V
  insert_chunks new none answer s = (answer, record s { chunks = s.chunks ++ new })
  insert_chunks new (some n) answer s = (raised, record s { chunks = s.chunks ++ take n new })

  -- What follows the insertion of the document.
  unfoldable pub add_chunks :
      List Str → ℕ → ℕ → Option ℕ → Option (List V) → Knowledge V → Ingested × Knowledge V
  unfolding numbered
  add_chunks texts now id fails none s = (raised, s)
  add_chunks texts now id fails (some vectors) s =
      insert_chunks (numbered id now 0 texts vectors) fails (ingested id (length texts)) s

  module _ (encode : List Str → Option (List V)) where
    -- The insertions, unless the index has a document with the slug.
    abbrev pub inserted :
        ℤ
        → Upload
        → List Str
        → Option ℕ
        → ℕ
        → ℕ
        → Knowledge V
        → Option Document
        → Ingested × Knowledge V
    inserted empresa_id u texts fails now id s (some d) = (duplicate_slug, s)
    inserted empresa_id u texts fails now id s none =
        add_chunks texts now id fails (encode texts)
          (record s { documents = s.documents ++ (document_of empresa_id u now id ∷ []) })

    unfoldable pub insert_document :
        ℤ → Upload → List Str → Option ℕ → ℕ → ℕ → Knowledge V → Ingested × Knowledge V
    unfolding owns add_chunks category_for_source upper strip
    insert_document empresa_id u texts fails now id s =
        inserted empresa_id u texts fails now id s (find (owns empresa_id u.slug) s.documents)

    -- At an instant, with the identifier that the database gives the document, and the number of
    -- chunks after which their insertion fails, if it does.
    unfoldable pub ingest_document :
        ℤ → Upload → Option ℕ → ℕ → ℕ → Knowledge V → Ingested × Knowledge V
    unfolding insert_document split_into_chunks str_mem
    ingest_document empresa_id u fails now id s =
        let texts = split_into_chunks u.text max_chunk_chars in
        if length texts == 0
        then (value_error, s)
        else if str_mem (chosen_category u) categories
        then insert_document empresa_id u texts fails now id s
        else (value_error, s)

  -- The two deletions, in their order; the flag stops between them.
  unfoldable pub remove : Bool → ℕ → Knowledge V → Deleted × Knowledge V
  remove stop id s =
      let left = keep (λ c. not (of_document id c)) s.chunks in
      if stop then (interrupted, record s { chunks = left }) else (
        deleted (count (of_document id) s.chunks),
        record { documents = delete_first (λ d. d.id == id) s.documents; chunks = left },
      )

  abbrev pub remove_found : Bool → Knowledge V → Option Document → Deleted × Knowledge V
  remove_found stop s none = (not_found, s)
  remove_found stop s (some d) = remove stop d.id s

  unfoldable pub delete_document : Bool → ℤ → Str → Knowledge V → Deleted × Knowledge V
  unfolding remove owns
  delete_document stop empresa_id slug s =
      remove_found stop s (find (owns empresa_id slug) s.documents)
