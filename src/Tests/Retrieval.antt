-- ===== src/Tests/Retrieval.antt =====
-- Two questions of company 7 to a knowledge base of two documents.
use mottainai_ia.Base.{
  ℕ, ◌+◌, ◌-◌, ◌≡◌, refl, ◌⊎◌, Bool, true, false, List, [], ◌∷◌, Option, none, some, All, Any,
  count, length, map, min, ltb,
}
use mottainai_ia.Base.Int.{ℤ, pos}
use mottainai_ia.Base.Sorting.{sort, Descending}
use mottainai_ia.Text.Case.{Str, codes}
use mottainai_ia.Text.Search.{str_mem}
use mottainai_ia.Rag.Documents.{Document, Chunk, Knowledge}
use mottainai_ia.Rag.Retrieval.{
  Vectors, Result, Question, retrieve, search, rank, scored, in_audience, is_candidate, lower_score,
  fresh, retrieve_with_sources,
}
use mottainai_ia.Rag.Retrieval.Ranked.{IsFound, matches, retrieve-ranked}
use mottainai_ia.Rag.Retrieval.Cached.{IsSame, filled, retrieve_with_sources-answers}
use mottainai_ia.Rag.Retrieval.Audience.{CitesFaq, customer-CitesFaq}
use mottainai_ia.Tests.Instances.{tenths, tenths-IsOrdered}

-- A vector is a number, and a score is how near it is, in tenths.
abbrev vectors : Vectors ℕ
vectors = record {
  V = ℕ;
  embed = length;
  batch_cosine_similarity = λ v vs. map (λ w. 10 - (v - w) - (w - v)) vs;
  round_four = λ x. x;
  default_min_score = 4;
  digest = λ s. s;
}

abbrev document : ℕ → ℤ → Str → Str → Document
document id empresa_id slug category = record {
  id = id;
  empresa_id = empresa_id;
  slug = slug;
  title = slug;
  source = category;
  category = category;
  version = codes "1.0";
  created_at = 90;
}

abbrev chunk : ℕ → ℕ → Str → Option ℕ → Chunk ℕ
chunk id n text v = record {
  document_id = id;
  number = n;
  text = text;
  embedding = v;
  created_at = 90;
}

abbrev base : Knowledge ℕ
base = record {
  documents =
      document 1 (pos 7) (codes "horario") (codes "FAQ")
      ∷ document 2 (pos 7) (codes "trocas") (codes "MANUAL")
      ∷ document 3 (pos 8) (codes "horario") (codes "FAQ")
      ∷ [];
  chunks =
      chunk 1 0 (codes "Abre as 8.") (some 9)
      ∷ chunk 2 0 (codes "Trocas em 7 dias.") (some 12)
      ∷ chunk 3 0 (codes "Abre as 9.") (some 12)
      ∷ chunk 1 1 (codes "Fecha as 21.") (some 11)
      ∷ [];
}

finds_own :
    retrieve tenths vectors (codes "Quando abre?") (pos 7) 2 4 none base
    ≡ record { text = codes "Trocas em 7 dias."; score = 10; document_id = 2; number = 0 }
      ∷ record { text = codes "Fecha as 21."; score = 9; document_id = 1; number = 1 }
      ∷ []
unfolding retrieve search rank scored in_audience is_candidate sort str_mem
finds_own = refl

abbrev results : List (Result ℕ)
results = retrieve tenths vectors (codes "Quando abre?") (pos 7) 2 4 none base

abbrev all_matches : List (Result ℕ)
all_matches = matches tenths vectors (codes "Quando abre?") (pos 7) 4 none base

retrieve-ranked_example :
    (left : List (Result ℕ)) × All (IsFound tenths vectors base (pos 7) none 4) results
    × Descending (lower_score tenths vectors) results
    × ((p : Result ℕ → Bool) → count p results + count p left ≡ count p all_matches)
    × All (λ r. All (λ x. ltb r.score x.score ≡ false) left) results
    × (length results ≡ min 2 (length all_matches))
retrieve-ranked_example =
    retrieve-ranked tenths vectors (codes "Quando abre?") (pos 7) 2 4 none base tenths-IsOrdered

abbrev asked : Str → Question tenths vectors
asked query = record {
  query = query;
  empresa_id = pos 7;
  top_k = 2;
  customer_only = true;
  knowledge = base;
  cached = true;
  reads = true;
  writes = true;
}

retrieve_with_sources-answers_example :
    ((retrieve_with_sources tenths vectors
        (asked (codes " abre? "))
        (filled tenths vectors (asked (codes "Abre?") ∷ []))).0
      ≡ fresh tenths vectors (asked (codes " abre? ")))
    ⊎ Any
        (λ p.
          IsSame tenths vectors p (asked (codes " abre? "))
          × (fresh tenths vectors p
              ≡ (retrieve_with_sources tenths vectors
                  (asked (codes " abre? "))
                  (filled tenths vectors (asked (codes "Abre?") ∷ []))).0))
        (asked (codes "Abre?") ∷ [])
retrieve_with_sources-answers_example =
    retrieve_with_sources-answers tenths vectors (asked (codes " abre? "))
      (asked (codes "Abre?") ∷ []) ((λ e. e), tt)

customer-CitesFaq_example :
    Any
      (λ p.
        (p.empresa_id ≡ pos 7)
        × All
            (CitesFaq tenths vectors (pos 7) p.knowledge)
            (retrieve_with_sources tenths vectors
              (asked (codes " abre? "))
              (filled tenths vectors (asked (codes "Abre?") ∷ []))).0.1)
      (asked (codes " abre? ") ∷ asked (codes "Abre?") ∷ [])
customer-CitesFaq_example =
    customer-CitesFaq tenths vectors (asked (codes " abre? ")) (asked (codes "Abre?") ∷ [])
      ((λ e. e), tt) refl
