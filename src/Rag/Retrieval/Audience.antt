-- ===== src/Rag/Retrieval/Audience.antt =====
-- What a customer may see of the knowledge base through app/rag/retriever.py, cache included.
use mottainai_ia.Base.{
  ◌≡◌, refl, sym, ap, ◌∙◌, subst, inl, inr, true, List, [], ◌∷◌, All, Any, Any-map, map, arith,
}
use mottainai_ia.Base.Int.{ℤ}
use mottainai_ia.Base.Floats.{Floats}
use mottainai_ia.Text.Case.{Str, codes}
use mottainai_ia.Text.Search.{str_eq_iff, str_mem}
use mottainai_ia.Rag.Documents.{Knowledge}
use mottainai_ia.Rag.Retrieval.{
  Vectors, Result, Source, is_allowed, source_of, customer_categories, told, retrieve, Question,
  fresh, retrieve_with_sources,
}
use mottainai_ia.Rag.Retrieval.Ranked.{IsFound, retrieve-IsFound}
use mottainai_ia.Rag.Retrieval.Cached.{NoCollision, filled, retrieve_with_sources-answers}

faq_category : (c : Str) → is_allowed (customer_categories true) c ≡ true → c ≡ codes "FAQ"
unfolding str_mem
faq_category c e = (str_eq_iff c (codes "FAQ")).0 (ground (arith, e))

module _ (fl : Floats) (vs : Vectors fl.F) where
  -- A source that cites a document of the company's customer questions.
  abbrev pub CitesFaq : ℤ → Knowledge vs.V → Source fl.F → Type 0
  CitesFaq empresa_id s source =
      Any
        (λ d.
          (d.id ≡ source.document_id) × (d.empresa_id ≡ empresa_id) × (d.category ≡ codes "FAQ"))
        s.documents

  cites :
      (s : Knowledge vs.V) (empresa_id : ℤ) (rs : List (Result fl.F))
      → All (IsFound fl vs s empresa_id (customer_categories true) vs.default_min_score) rs
      → All (CitesFaq empresa_id s) (map source_of rs)
  cites s empresa_id [] h = tt
  cites s empresa_id (r ∷ rs) ((c, x, there, owner, shows, near), h) = (
    Any-map (λ d o. (o.0 ∙ sym (ap (λ z. z.document_id) shows), o.1, faq_category d.category o.2))
        s.documents owner,
    cites s empresa_id rs h,
  )

  told-CitesFaq :
      (s : Knowledge vs.V) (empresa_id : ℤ) (rs : List (Result fl.F))
      → All (CitesFaq empresa_id s) (map source_of rs)
      → All (CitesFaq empresa_id s) (told fl vs rs).1
  unfolding told
  told-CitesFaq s empresa_id [] h = tt
  told-CitesFaq s empresa_id (r ∷ rs) h = h

  fresh-CitesFaq :
      (p : Question fl vs)
      → p.customer_only ≡ true
      → All (CitesFaq p.empresa_id p.knowledge) (fresh fl vs p).1
  unfolding fresh
  fresh-CitesFaq p customer =
      let rs =
        retrieve fl vs p.query p.empresa_id p.top_k vs.default_min_score (customer_categories true)
          p.knowledge in
      rw customer (
        told-CitesFaq p.knowledge p.empresa_id rs (
          cites p.knowledge p.empresa_id rs (
            retrieve-IsFound fl vs p.query p.empresa_id p.top_k vs.default_min_score
              (customer_categories true) p.knowledge)))

  -- Every source of an answer to a customer, from the cache or not, cites a document that was in the
  -- category FAQ of the customer's company when this question or an earlier one of the same company was
  -- asked. The digests of the texts of the questions do not collide.
  pub customer-CitesFaq :
      (q : Question fl vs) (qs : List (Question fl vs))
      → All (NoCollision fl vs q) qs
      → q.customer_only ≡ true
      → Any
          (λ p.
            (p.empresa_id ≡ q.empresa_id)
            × All
                (CitesFaq q.empresa_id p.knowledge)
                (retrieve_with_sources fl vs q (filled fl vs qs)).0.1)
          (q ∷ qs)
  customer-CitesFaq q qs distinct customer =
      elim (retrieve_with_sources-answers fl vs q qs distinct) [
        | inl now ↦ inl (
          refl,
          subst (λ f. All (CitesFaq q.empresa_id q.knowledge) f.1) (sym now)
              (fresh-CitesFaq q customer),
        )
        | inr before ↦ inr (
            Any-map
              (λ p h.
                let ((query, company, top, audience), same) = h in
                (
                  company,
                  subst (λ f. All (CitesFaq q.empresa_id p.knowledge) f.1) same
                      (subst (λ e. All (CitesFaq e p.knowledge) (fresh fl vs p).1) company
                        (fresh-CitesFaq p (audience ∙ customer))),
                ))
              qs before)
      ]
