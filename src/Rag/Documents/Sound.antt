-- ===== src/Rag/Documents/Sound.antt =====
-- What every write of app/rag/ingestion.py keeps true of the knowledge base.
use mottainai_ia.Base.{
  find-none, ℕ, suc, ◌≡◌, refl, sym, inl, inr, Bool, true, false, not, ◌==◌, List, [], ◌∷◌, ◌++◌,
  Option-cases, Bool-cases, All, All-append, All-both, All-keep, All-map, Any, Any-append_left,
  Any-append_right, Any-map, All-take, ◌∙◌, Option, none, some, Pairwise, Pairwise-snoc, find, keep,
  keep-All, length, arith,
}
use mottainai_ia.Base.Int.{ℤ}
use mottainai_ia.Text.Case.{Str}
use mottainai_ia.Text.Search.{str_mem}
use mottainai_ia.Rag.Ingestion.{categories, max_chunk_chars, split_into_chunks}
use mottainai_ia.Rag.Documents.{
  Document, Chunk, Knowledge, Upload, owns, chosen_category, document_of, delete_first, numbered,
  of_document, add_chunks, insert_document, ingest_document, remove, delete_document,
}

-- Different identifiers, and not the same slug in one company.
abbrev pub Apart : Document → Document → Type 0
Apart a b = ((a.id == b.id) ≡ false) × (owns b.empresa_id b.slug a ≡ false)

abbrev pub HasOwner : {V : Type 0} → List Document → Chunk V → Type 0
HasOwner ds c = Any (λ d. d.id ≡ c.document_id) ds

-- Documents are told apart by their identifier and by company and slug, and no chunk is left without
-- its document.
abbrev pub IsSound : {V : Type 0} → Knowledge V → Type 0
IsSound s = Pairwise Apart s.documents × All (HasOwner s.documents) s.chunks

-- An identifier that no document has.
abbrev pub IsFresh : {V : Type 0} → ℕ → Knowledge V → Type 0
IsFresh id s = All (λ d. (d.id == id) ≡ false) s.documents

All-delete_first :
    (P : Document → Type 0) (p : Document → Bool) (ds : List Document)
    → All P ds
    → All P (delete_first p ds)
All-delete_first P p [] h = tt
All-delete_first P p (d ∷ ds) h = elim (Bool-cases (p d)) [
  | inl hit ↦ rw hit h.1
  | inr miss ↦ rw miss (h.0, All-delete_first P p ds h.1)
]

Pairwise-delete_first :
    (p : Document → Bool) (ds : List Document)
    → Pairwise Apart ds
    → Pairwise Apart (delete_first p ds)
Pairwise-delete_first p [] h = tt
Pairwise-delete_first p (d ∷ ds) h = elim (Bool-cases (p d)) [
  | inl hit ↦ rw hit h.1
  | inr miss ↦ rw miss (All-delete_first (λ x. Apart d x) p ds h.0, Pairwise-delete_first p ds h.1)
]

module _ {V : Type 0} where
  pub numbered-of_document :
      (id now n : ℕ) (ts : List Str) (vs : List V)
      → All (λ c. c.document_id ≡ id) (numbered id now n ts vs)
  unfolding numbered
  numbered-of_document id now n [] vs = tt
  numbered-of_document id now n (t ∷ ts) [] = tt
  numbered-of_document id now n (t ∷ ts) (v ∷ vs) =
      (refl, numbered-of_document id now (suc n) ts vs)

  -- Chunks of a document of the knowledge base may be added.
  more-IsSound :
      (id : ℕ) (s : Knowledge V) (new : List (Chunk V))
      → Any (λ d. d.id ≡ id) s.documents
      → All (λ c. c.document_id ≡ id) new
      → IsSound s
      → IsSound (record s { chunks = s.chunks ++ new })
  more-IsSound id s new there own h = (
    h.0,
    All-append (HasOwner s.documents) s.chunks new h.1
        (All-map (λ c e. Any-map (λ d k. k ∙ sym e) s.documents there) new own),
  )

  add_chunks-IsSound :
      (texts : List Str) (now id : ℕ) (fails : Option ℕ) (o : Option (List V)) (s : Knowledge V)
      → Any (λ d. d.id ≡ id) s.documents
      → IsSound s
      → IsSound (add_chunks texts now id fails o s).1
  unfolding add_chunks
  add_chunks-IsSound texts now id fails none s there h = h
  add_chunks-IsSound texts now id none (some vs) s there h =
      more-IsSound id s _ there (numbered-of_document id now 0 texts vs) h
  add_chunks-IsSound texts now id (some n) (some vs) s there h =
      more-IsSound id s _ there
        (All-take (λ c. c.document_id ≡ id) n _ (numbered-of_document id now 0 texts vs)) h

  insert_document-IsSound :
      (encode : List Str → Option (List V)) (empresa_id : ℤ) (u : Upload) (texts : List Str)
      (fails : Option ℕ) (now id : ℕ) (s : Knowledge V)
      → IsFresh id s
      → IsSound s
      → IsSound (insert_document encode empresa_id u texts fails now id s).1
  unfolding insert_document
  insert_document-IsSound encode empresa_id u texts fails now id s fresh h =
      elim (Option-cases (find (owns empresa_id u.slug) s.documents)) [
        | inr (d, there) ↦ rw there h
        | inl nowhere ↦
            let new = document_of empresa_id u now id ∷ [] in
            rw nowhere (
              add_chunks-IsSound texts now id fails (encode texts)
                (record s { documents = s.documents ++ new })
                (Any-append_right (λ d. d.id ≡ id) s.documents new (inl refl))
                (
                  Pairwise-snoc Apart s.documents (document_of empresa_id u now id) h.0 (
                      All-both _ _ s.documents fresh
                        (find-none (owns empresa_id u.slug) s.documents nowhere)),
                  All-map (λ c. Any-append_left (λ d. d.id ≡ c.document_id) s.documents new)
                      s.chunks h.1,
                ))
      ]

  ingest_document-IsSound :
      (encode : List Str → Option (List V)) (empresa_id : ℤ) (u : Upload) (fails : Option ℕ)
      (now id : ℕ) (s : Knowledge V)
      → IsFresh id s
      → IsSound s
      → IsSound (ingest_document encode empresa_id u fails now id s).1
  unfolding ingest_document
  ingest_document-IsSound encode empresa_id u fails now id s fresh h =
      elim (Bool-cases (length (split_into_chunks u.text max_chunk_chars) == 0)) [
        | inl empty ↦ rw empty h
        | inr texts ↦ rw texts (elim (Bool-cases (str_mem (chosen_category u) categories)) [
          | inr unknown ↦ rw unknown h
          | inl known ↦ rw known (
              insert_document-IsSound encode empresa_id u (split_into_chunks u.text max_chunk_chars)
                fails now id s fresh h)
        ])
      ]

  -- A chunk of another document keeps its owner.
  HasOwner-delete_first :
      (id : ℕ) (ds : List Document) (c : Chunk V)
      → not (of_document id c) ≡ true
      → HasOwner ds c
      → HasOwner (delete_first (λ d. d.id == id) ds) c
  HasOwner-delete_first id [] c other h = h
  HasOwner-delete_first id (d ∷ ds) c other (inl e) =
      let spared : (d.id == id) ≡ false = ground (arith, other, e) in rw spared (inl e)
  HasOwner-delete_first id (d ∷ ds) c other (inr h) = elim (Bool-cases (d.id == id)) [
    | inl hit ↦ rw hit h
    | inr miss ↦ rw miss (inr (HasOwner-delete_first id ds c other h))
  ]

  remove-IsSound :
      (stop : Bool) (id : ℕ) (s : Knowledge V) → IsSound s → IsSound (remove stop id s).1
  unfolding remove
  remove-IsSound true id s h = (h.0, All-keep (HasOwner s.documents) _ s.chunks h.1)
  remove-IsSound false id s h =
      let others = keep (λ c. not (of_document id c)) s.chunks in
      (
        Pairwise-delete_first (λ d. d.id == id) s.documents h.0,
        All-map (λ c b. HasOwner-delete_first id s.documents c b.0 b.1) others
            (All-both-chunks others (keep-All (λ c. not (of_document id c)) s.chunks)
              (All-keep (HasOwner s.documents) (λ c. not (of_document id c)) s.chunks h.1)),
      )
    where
      All-both-chunks :
          (cs : List (Chunk V))
          → All (λ c. not (of_document id c) ≡ true) cs
          → All (HasOwner s.documents) cs
          → All (λ c. (not (of_document id c) ≡ true) × HasOwner s.documents c) cs
      All-both-chunks cs = All-both _ _ cs

  delete_document-IsSound :
      (stop : Bool) (empresa_id : ℤ) (slug : Str) (s : Knowledge V)
      → IsSound s
      → IsSound (delete_document stop empresa_id slug s).1
  unfolding delete_document
  delete_document-IsSound stop empresa_id slug s h =
      elim (Option-cases (find (owns empresa_id slug) s.documents)) [
        | inl nowhere ↦ rw nowhere h
        | inr (d, there) ↦ rw there (remove-IsSound stop d.id s h)
      ]

  -- Every upload whose document gets a new identifier and every removal, answered, refused, stopped
  -- after its first deletion, or broken off where the model or the insertion of the chunks fails, leaves
  -- the documents apart by identifier and by company and slug, and no chunk without its document.
  pub writes-IsSound :
      (encode : List Str → Option (List V)) (empresa_id : ℤ) (u : Upload) (fails : Option ℕ)
      (now id : ℕ) (stop : Bool) (slug : Str) (s : Knowledge V)
      → IsSound s
      → (IsFresh id s → IsSound (ingest_document encode empresa_id u fails now id s).1)
        × IsSound (delete_document stop empresa_id slug s).1
  writes-IsSound encode empresa_id u fails now id stop slug s h = (
    λ fresh. ingest_document-IsSound encode empresa_id u fails now id s fresh h,
    delete_document-IsSound stop empresa_id slug s h,
  )
