-- ===== src/Rag/Documents/Removed.antt =====
-- The removal of a document, after its upload and after an interruption.
use mottainai_ia.Base.{
  keep-append, keep-twice, count-append, find-snoc, find-none, ℕ, suc, ◌≡◌, refl, sym, ap, ◌∙◌,
  subst, ◌⊎◌, inl, inr, Option, some, take, All-take, Bool, true, false, not, ◌==◌, ==_iff, List,
  [], ◌∷◌, ◌++◌, append-nil, none, Option-cases, Bool-cases, All, find, keep, count, length, arith,
}
use mottainai_ia.Base.Int.{ℤ}
use mottainai_ia.Text.Case.{Str}
use mottainai_ia.Text.Search.{str_eq_refl, str_mem}
use mottainai_ia.Rag.Ingestion.{categories, max_chunk_chars, split_into_chunks}
use mottainai_ia.Rag.Documents.{
  Document, Chunk, Knowledge, Upload, Ingested, ingested, value_error, duplicate_slug, raised,
  deleted, add_chunks, owns, chosen_category, document_of, delete_first, numbered, of_document,
  insert_document, ingest_document, remove, delete_document,
}
use mottainai_ia.Rag.Documents.Sound.{IsSound, IsFresh, HasOwner, numbered-of_document}

delete_first-snoc :
    {A : Type 0} (p : A → Bool) (xs : List A) (y : A)
    → All (λ x. p x ≡ false) xs
    → p y ≡ true
    → delete_first p (xs ++ (y ∷ [])) ≡ xs
delete_first-snoc p [] y h e = rw e refl
delete_first-snoc p (x ∷ xs) y h e = rw h.0 (ap (λ l. x ∷ l) (delete_first-snoc p xs y h.1 e))

owns-own :
    (empresa_id : ℤ) (u : Upload) (now id : ℕ)
    → owns empresa_id u.slug (document_of empresa_id u now id) ≡ true
unfolding owns
owns-own empresa_id u now id = rw (str_eq_refl u.slug) (ground arith)

ingested_inj : {m n i j : ℕ} → ingested m n ≡ ingested i j → n ≡ j
ingested_inj e = cc

module _ {V : Type 0} where
  -- The chunks that were there are of other documents.
  others-kept :
      (id : ℕ) (ds : List Document) (cs : List (Chunk V))
      → All (λ d. (d.id == id) ≡ false) ds
      → All (HasOwner ds) cs
      → (keep (λ c. not (of_document id c)) cs ≡ cs) × (count (of_document id) cs ≡ 0)
  others-kept id ds [] fresh h = (refl, refl)
  others-kept id ds (c ∷ cs) fresh h =
      let other : (c.document_id == id) ≡ false = apart ds fresh h.0 in
      let (kept, none_counted) = others-kept id ds cs fresh h.1 in
      (rw other (ap (λ l. c ∷ l) kept), rw other none_counted)
    where
      apart :
          (ds : List Document)
          → All (λ d. (d.id == id) ≡ false) ds
          → HasOwner ds c
          → (c.document_id == id) ≡ false
      apart [] fresh h = absurd h
      apart (d ∷ ds) fresh (inl e) = subst (λ n. (n == id) ≡ false) e fresh.0
      apart (d ∷ ds) fresh (inr h) = apart ds fresh.1 h

  own-removed :
      (id : ℕ) (cs : List (Chunk V))
      → All (λ c. c.document_id ≡ id) cs
      → (keep (λ c. not (of_document id c)) cs ≡ []) × (count (of_document id) cs ≡ length cs)
  own-removed id [] h = (refl, refl)
  own-removed id (c ∷ cs) h =
      let own : (c.document_id == id) ≡ true = (==_iff c.document_id id).1 h.0 in
      let (left, counted) = own-removed id cs h.1 in (rw own left, rw own (ap suc counted))

  length-numbered :
      (id now n : ℕ) (ts : List Str) (vs : List V)
      → length vs ≡ length ts
      → length (numbered id now n ts vs) ≡ length ts
  unfolding numbered
  length-numbered id now n [] vs e = refl
  length-numbered id now n (t ∷ ts) [] e = ground arith
  length-numbered id now n (t ∷ ts) (v ∷ vs) e =
      ap suc (length-numbered id now (suc n) ts vs (omega (arith, e)))

  -- A removal that stops after its first deletion and is asked for again leaves what one run leaves.
  pub delete_document-retried :
      (empresa_id : ℤ) (slug : Str) (s : Knowledge V)
      → (delete_document false empresa_id slug (delete_document true empresa_id slug s).1).1
        ≡ (delete_document false empresa_id slug s).1
  unfolding delete_document remove
  delete_document-retried empresa_id slug s =
      elim (Option-cases (find (owns empresa_id slug) s.documents)) [
        | inl nowhere ↦ rw (nowhere, nowhere) refl
        | inr (d, there) ↦
            rw (there, there)
              (ap
                (λ cs. record {
                  documents = delete_first (λ x. x.id == d.id) s.documents;
                  chunks = cs;
                })
                (keep-twice (λ c. not (of_document d.id c)) s.chunks))
      ]

  -- The removal of a document that was added last, with whatever chunks it has got.
  removed :
      (empresa_id : ℤ) (u : Upload) (now id : ℕ) (s : Knowledge V) (new : List (Chunk V))
      → IsFresh id s
      → IsSound s
      → find (owns empresa_id u.slug) s.documents ≡ none
      → All (λ c. c.document_id ≡ id) new
      → delete_document false empresa_id u.slug (record {
        documents = s.documents ++ (document_of empresa_id u now id ∷ []);
        chunks = s.chunks ++ new;
      })
        ≡ (deleted (length new), s)
  unfolding delete_document remove
  removed empresa_id u now id s new fresh sound nowhere own =
      let d = document_of empresa_id u now id in
      let found =
        find-snoc (owns empresa_id u.slug) s.documents d
          (find-none (owns empresa_id u.slug) s.documents nowhere) (owns-own empresa_id u now id) in
      let (kept, before) = others-kept id s.documents s.chunks fresh sound.1 in
      let (gone, all_new) = own-removed id new own in
      let left =
        keep-append (λ c. not (of_document id c)) s.chunks new
        ∙ ap (λ l. keep (λ c. not (of_document id c)) s.chunks ++ l) gone
        ∙ append-nil _
        ∙ kept in
      let counted : count (of_document id) (s.chunks ++ new) ≡ length new =
        omega (arith, count-append (of_document id) s.chunks new, before, all_new) in
      let docs = delete_first-snoc (λ x. x.id == id) s.documents d fresh ((==_iff id id).1 refl) in
      rw found (λ i. (deleted (counted i), record { documents = docs i; chunks = left i }))

  -- What an upload has written, by its answer: the document and all its chunks, or the document and
  -- those chunks that were inserted before something failed.
  abbrev Written :
      (List Str → Option (List V))
      → ℤ
      → Upload
      → ℕ
      → ℕ
      → Ingested
      → Knowledge V
      → Knowledge V
      → Type 0
  Written encode empresa_id u now id a s s' =
      (find (owns empresa_id u.slug) s.documents ≡ none)
      × (new : List (Chunk V)) × All (λ c. c.document_id ≡ id) new
      × (s' ≡ record {
        documents = s.documents ++ (document_of empresa_id u now id ∷ []);
        chunks = s.chunks ++ new;
      })
      × ((m n : ℕ)
          → a ≡ ingested m n
          → ((ts : List Str) (vs : List V) → encode ts ≡ some vs → length vs ≡ length ts)
          → length new ≡ n)

  added :
      (encode : List Str → Option (List V)) (empresa_id : ℤ) (u : Upload) (texts : List Str)
      (fails : Option ℕ) (now id : ℕ) (s : Knowledge V)
      → find (owns empresa_id u.slug) s.documents ≡ none
      → (o : Option (List V)) → encode texts ≡ o
      → (let after =
            add_chunks texts now id fails o
              (record s { documents = s.documents ++ (document_of empresa_id u now id ∷ []) }) in
          Written encode empresa_id u now id after.0 s after.1)
  unfolding add_chunks
  added encode empresa_id u texts fails now id s nowhere none e = (
    nowhere,
    [],
    tt,
    ap
        (λ l. record {
          documents = s.documents ++ (document_of empresa_id u now id ∷ []);
          chunks = l;
        })
        (sym (append-nil s.chunks)),
    λ m n k one_each. cc,
  )
  added encode empresa_id u texts none now id s nowhere (some vs) e = (
    nowhere,
    numbered id now 0 texts vs,
    numbered-of_document id now 0 texts vs,
    refl,
    λ m n k one_each. length-numbered id now 0 texts vs (one_each texts vs e) ∙ ingested_inj k,
  )
  added encode empresa_id u texts (some n) now id s nowhere (some vs) e = (
    nowhere,
    take n (numbered id now 0 texts vs),
    All-take (λ c. c.document_id ≡ id) n _ (numbered-of_document id now 0 texts vs),
    refl,
    λ m k f one_each. cc,
  )

  -- An upload either writes nothing and is refused, or has written its document.
  upload_written :
      (encode : List Str → Option (List V)) (empresa_id : ℤ) (u : Upload) (fails : Option ℕ)
      (now id : ℕ) (s : Knowledge V)
      → (let after = ingest_document encode empresa_id u fails now id s in
          ((after ≡ (value_error, s)) ⊎ (after ≡ (duplicate_slug, s)))
          ⊎ Written encode empresa_id u now id after.0 s after.1)
  unfolding ingest_document insert_document
  upload_written encode empresa_id u fails now id s =
      elim (Bool-cases (length (split_into_chunks u.text max_chunk_chars) == 0)) [
        | inl empty ↦ inl (inl (rw empty refl))
        | inr texts ↦ rw texts (elim (Bool-cases (str_mem (chosen_category u) categories)) [
          | inr unknown ↦ inl (inl (rw unknown refl))
          | inl known ↦ rw known (elim (Option-cases (find (owns empresa_id u.slug) s.documents)) [
            | inr (d, there) ↦ inl (inr (rw there refl))
            | inl nowhere ↦
                let (free, new, own, after, counted) =
                  added encode empresa_id u (split_into_chunks u.text max_chunk_chars) fails now id
                    s nowhere _ refl in
                inr (rw nowhere (refl, new, own, after, counted))
          ])
        ])
      ]

  -- In a sound knowledge base, an upload that is answered and whose document got a new identifier is
  -- undone by a removal of its slug: the removal counts as many chunks as the upload did and gives back
  -- the documents and the chunks that were there before. The model gives one vector for each text.
  pub delete_document-ingest :
      (encode : List Str → Option (List V)) (empresa_id : ℤ) (u : Upload) (fails : Option ℕ)
      (now m n id : ℕ) (s s' : Knowledge V)
      → ((ts : List Str) (vs : List V) → encode ts ≡ some vs → length vs ≡ length ts)
      → IsFresh id s
      → IsSound s
      → ingest_document encode empresa_id u fails now id s ≡ (ingested m n, s')
      → delete_document false empresa_id u.slug s' ≡ (deleted n, s)
  delete_document-ingest encode empresa_id u fails now m n id s s' one_each fresh sound e =
      elim (upload_written encode empresa_id u fails now id s) [
        | inl (inl refused) ↦ absurd (cc (ap (λ p. p.0) (sym e ∙ refused)))
        | inl (inr refused) ↦ absurd (cc (ap (λ p. p.0) (sym e ∙ refused)))
        | inr (nowhere, new, own, after, counted) ↦
            ap (delete_document false empresa_id u.slug) (ap (λ p. p.1) (sym e) ∙ after)
            ∙ removed empresa_id u now id s new fresh sound nowhere own
            ∙ ap (λ k. (deleted k, s)) (counted m n (ap (λ p. p.0) e) one_each)
      ]

  -- An upload that fails after the insertion of its document leaves the slug taken, and a removal of
  -- the slug gives back what was there before.
  delete_document-raised :
      (encode : List Str → Option (List V)) (empresa_id : ℤ) (u : Upload) (fails : Option ℕ)
      (now id : ℕ) (s s' : Knowledge V)
      → IsFresh id s
      → IsSound s
      → ingest_document encode empresa_id u fails now id s ≡ (raised, s')
      → (delete_document false empresa_id u.slug s').1 ≡ s
  delete_document-raised encode empresa_id u fails now id s s' fresh sound e =
      elim (upload_written encode empresa_id u fails now id s) [
        | inl (inl refused) ↦ absurd (cc (ap (λ p. p.0) (sym e ∙ refused)))
        | inl (inr refused) ↦ absurd (cc (ap (λ p. p.0) (sym e ∙ refused)))
        | inr (nowhere, new, own, after, counted) ↦
            ap (λ t. (delete_document false empresa_id u.slug t).1) (ap (λ p. p.1) (sym e) ∙ after)
            ∙ ap (λ p. p.1) (removed empresa_id u now id s new fresh sound nowhere own)
      ]
