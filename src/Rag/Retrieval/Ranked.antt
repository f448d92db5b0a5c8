-- ===== src/Rag/Retrieval/Ranked.antt =====
-- What `retrieve` of app/rag/retriever.py finds, and in which order.
use mottainai_ia.Base.{
  ℕ, zero, suc, ◌≡◌, refl, sym, ap, ◌∙◌, inl, inr, Bool, true, false, ◌&&◌, ◌+◌, ◌==◌, ==_iff, List,
  [], ◌∷◌, Option, Bool-cases, All, All-map, All-keep, All-both, All-take, Any, Any-map, any, count,
  drop, keep, keep-All, length, map, min, take,
}
use mottainai_ia.Base.Int.{ℤ, eqb_ℤ, eqb_ℤ_iff}
use mottainai_ia.Base.Floats.{Floats, IsOrdered}
use mottainai_ia.Base.Sorting.{
  sort, sort-count, sort-length, All-sort, Descending, sort-Descending, take-Descending, drop-lower,
  take-drop-count, length-take,
}
use mottainai_ia.Text.Case.{Str}
use mottainai_ia.Rag.Documents.{Document, Chunk, Knowledge}
use mottainai_ia.Rag.Retrieval.{
  Vectors, Result, is_allowed, in_audience, has_embedding, vectors_of, is_candidate, scored,
  lower_score, rank, search, retrieve,
}

both : (a b : Bool) → (a && b) ≡ true → (a ≡ true) × (b ≡ true)
both true b e = (refl, e)
both false b e = cc

-- A document that is in one of these lists of identifiers.
named :
    (p : Document → Bool) (ds : List Document) (n : ℕ)
    → any (λ i. i == n) (map (λ d. d.id) (keep p ds)) ≡ true
    → Any (λ d. (d.id ≡ n) × (p d ≡ true)) ds
named p [] n e = cc
named p (d ∷ ds) n e = elim (Bool-cases (p d)) [
  | inr out ↦ inr (named p ds n (rw out at e))
  | inl kept ↦ elim (Bool-cases (d.id == n)) [
    | inl same ↦ inl ((==_iff d.id n).0 same, kept)
    | inr other ↦ inr (named p ds n (rw (kept, other) at e))
  ]
]

members : {A : Type 0} (xs : List A) → All (λ x. Any (λ y. y ≡ x) xs) xs
members [] = tt
members (x ∷ xs) = (inl refl, All-map (λ y h. inr h) xs (members xs))

no_candidates : {V : Type 0} (cs : List (Chunk V)) → keep (is_candidate []) cs ≡ []
unfolding is_candidate
no_candidates [] = refl
no_candidates (c ∷ cs) = no_candidates cs

module _ (fl : Floats) (vs : Vectors fl.F) where
  open fl use {F, le, lt}
  open vs use {V, embed, batch_cosine_similarity, round_four}

  -- The chunk of the knowledge base that a result shows: one of a document of the company and the
  -- categories, with a score of at least the minimum.
  abbrev pub IsFound : Knowledge V → ℤ → Option (List Str) → F → Result F → Type 0
  IsFound s empresa_id allowed min_score r =
      (c : Chunk V) × (x : F) × Any (λ y. y ≡ c) s.chunks
      × Any
          (λ d.
            (d.id ≡ c.document_id)
            × (d.empresa_id ≡ empresa_id)
            × (is_allowed allowed d.category ≡ true))
          s.documents
      × (r ≡ record {
        text = c.text;
        score = round_four x;
        document_id = c.document_id;
        number = c.number;
      })
      × (le min_score x ≡ true)

  scored-All :
      (P : Result F → Type 0) (min_score : F) (cs : List (Chunk V)) (xs : List F)
      → All
          (λ c.
            (x : F)
            → le min_score x ≡ true
            → P (record {
              text = c.text;
              score = round_four x;
              document_id = c.document_id;
              number = c.number;
            }))
          cs
      → All P (scored fl vs min_score cs xs)
  unfolding scored
  scored-All P min_score [] xs h = tt
  scored-All P min_score (c ∷ cs) [] h = tt
  scored-All P min_score (c ∷ cs) (x ∷ xs) h = elim (Bool-cases (le min_score x)) [
    | inl near ↦ rw near (h.0 x near, scored-All P min_score cs xs h.1)
    | inr far ↦ rw far (scored-All P min_score cs xs h.1)
  ]

  -- The chunks that are scored, and the results before they are ranked.
  abbrev pub candidates : ℤ → Option (List Str) → Knowledge V → List (Chunk V)
  candidates empresa_id allowed s =
      keep (is_candidate (map (λ d. d.id) (keep (in_audience empresa_id allowed) s.documents)))
        s.chunks

  abbrev pub matches : Str → ℤ → F → Option (List Str) → Knowledge V → List (Result F)
  matches query empresa_id min_score allowed s =
      let cs = candidates empresa_id allowed s in
      scored fl vs min_score cs (batch_cosine_similarity (embed query) (vectors_of cs))

  rank-eq :
      (top_k : ℕ) (min_score : F) (v : V) (cs : List (Chunk V))
      → rank fl vs top_k min_score v cs
        ≡ take top_k (
            sort
              (lower_score fl vs)
              (scored fl vs min_score cs (batch_cosine_similarity v (vectors_of cs))))
  unfolding rank scored sort
  rank-eq zero min_score v [] = refl
  rank-eq (suc n) min_score v [] = refl
  rank-eq top_k min_score v (c ∷ cs) = refl

  search-eq :
      (top_k : ℕ) (min_score : F) (v : V) (ids : List ℕ) (chunks : List (Chunk V))
      → search fl vs top_k min_score v ids chunks
        ≡ rank fl vs top_k min_score v (keep (is_candidate ids) chunks)
  unfolding search
  search-eq top_k min_score v [] chunks =
      sym (ap (rank fl vs top_k min_score v) (no_candidates chunks))
  search-eq top_k min_score v (i ∷ ids) chunks = refl

  retrieve-eq :
      (query : Str) (empresa_id : ℤ) (top_k : ℕ) (min_score : F) (allowed : Option (List Str))
      (s : Knowledge V)
      → retrieve fl vs query empresa_id top_k min_score allowed s
        ≡ take top_k (sort (lower_score fl vs) (matches query empresa_id min_score allowed s))
  unfolding retrieve
  retrieve-eq query empresa_id top_k min_score allowed s =
      search-eq top_k min_score (embed query)
        (map (λ d. d.id) (keep (in_audience empresa_id allowed) s.documents)) s.chunks
      ∙ rank-eq top_k min_score (embed query) (candidates empresa_id allowed s)

  owner :
      (empresa_id : ℤ) (allowed : Option (List Str)) (s : Knowledge V) (c : Chunk V)
      → is_candidate (map (λ d. d.id) (keep (in_audience empresa_id allowed) s.documents)) c ≡ true
      → Any
          (λ d.
            (d.id ≡ c.document_id)
            × (d.empresa_id ≡ empresa_id)
            × (is_allowed allowed d.category ≡ true))
          s.documents
  unfolding is_candidate in_audience
  owner empresa_id allowed s c e =
      Any-map
        (λ d h.
          let (company, category) = both (eqb_ℤ d.empresa_id empresa_id) _ h.1 in
          (h.0, (eqb_ℤ_iff d.empresa_id empresa_id).0 company, category))
        s.documents
        (named (in_audience empresa_id allowed) s.documents c.document_id
          (both _ (has_embedding c) e).0)

  matches-IsFound :
      (query : Str) (empresa_id : ℤ) (min_score : F) (allowed : Option (List Str)) (s : Knowledge V)
      → All (IsFound s empresa_id allowed min_score) (matches query empresa_id min_score allowed s)
  matches-IsFound query empresa_id min_score allowed s =
      let cs = candidates empresa_id allowed s in
      let test =
        is_candidate (map (λ d. d.id) (keep (in_audience empresa_id allowed) s.documents)) in
      scored-All (IsFound s empresa_id allowed min_score) min_score cs
        (batch_cosine_similarity (embed query) (vectors_of cs))
        (All-map (λ c h x near. (c, x, h.0, owner empresa_id allowed s c h.1, refl, near)) cs
          (All-both (λ c. Any (λ y. y ≡ c) s.chunks) (λ c. test c ≡ true) cs
            (All-keep (λ c. Any (λ y. y ≡ c) s.chunks) test s.chunks (members s.chunks))
            (keep-All test s.chunks)))

  pub retrieve-IsFound :
      (query : Str) (empresa_id : ℤ) (top_k : ℕ) (min_score : F) (allowed : Option (List Str))
      (s : Knowledge V)
      → All
          (IsFound s empresa_id allowed min_score)
          (retrieve fl vs query empresa_id top_k min_score allowed s)
  retrieve-IsFound query empresa_id top_k min_score allowed s =
      let all = matches query empresa_id min_score allowed s in
      rw (retrieve-eq query empresa_id top_k min_score allowed s) (
        All-take (IsFound s empresa_id allowed min_score) top_k (sort (lower_score fl vs) all) (
          All-sort (lower_score fl vs) (IsFound s empresa_id allowed min_score) all
            (matches-IsFound query empresa_id min_score allowed s)))

  -- Retrieval shows chunks of documents of the company and the allowed categories only, with a score of
  -- at least the minimum, at most as many as asked for, the best first. With what it leaves out it shows
  -- every match once; it leaves out none that is above one it shows, and none at all unless it shows as
  -- many as asked for. The floats are numbers.
  pub retrieve-ranked :
      (query : Str) (empresa_id : ℤ) (top_k : ℕ) (min_score : F) (allowed : Option (List Str))
      (s : Knowledge V)
      → IsOrdered fl
      → (left : List (Result F)) × All
          (IsFound s empresa_id allowed min_score)
          (retrieve fl vs query empresa_id top_k min_score allowed s)
        × Descending (lower_score fl vs) (retrieve fl vs query empresa_id top_k min_score allowed s)
        × ((p : Result F → Bool)
            → count p (retrieve fl vs query empresa_id top_k min_score allowed s) + count p left
              ≡ count p (matches query empresa_id min_score allowed s))
        × All
            (λ r. All (λ x. lt r.score x.score ≡ false) left)
            (retrieve fl vs query empresa_id top_k min_score allowed s)
        × (length (retrieve fl vs query empresa_id top_k min_score allowed s)
            ≡ min top_k (length (matches query empresa_id min_score allowed s)))
  retrieve-ranked query empresa_id top_k min_score allowed s ordered =
      let all = matches query empresa_id min_score allowed s in
      let lower = lower_score fl vs in
      let ranked = sort lower all in
      let is_sorted =
        sort-Descending lower (λ a b h. asym ordered a.score b.score h)
          (λ a b c h g. ordered.lt_cotrans a.score b.score c.score h g) all in
      rw (retrieve-eq query empresa_id top_k min_score allowed s) (
        drop top_k ranked,
        All-take _ top_k ranked (
            All-sort lower (IsFound s empresa_id allowed min_score) all
              (matches-IsFound query empresa_id min_score allowed s)),
        take-Descending lower top_k ranked is_sorted,
        λ p. take-drop-count p top_k ranked ∙ sort-count lower p all,
        drop-lower lower top_k ranked is_sorted,
        length-take top_k ranked ∙ ap (min top_k) (sort-length lower all),
      )
    where
      asym : IsOrdered fl → (a b : F) → lt a b ≡ true → lt b a ≡ false
      asym ordered a b h = elim (Bool-cases (lt b a)) [
        | inr less ↦ less
        | inl back ↦ cc (ordered.lt_trans a b a h back, ordered.lt_irrefl a)
      ]
