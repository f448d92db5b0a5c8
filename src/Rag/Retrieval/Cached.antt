-- ===== src/Rag/Retrieval/Cached.antt =====
-- The answers of `retrieve_with_sources` of app/rag/retriever.py while its cache fills.
use mottainai_ia.Base.{
  ℕ, ◌≡◌, refl, sym, ap, ◌∙◌, ◌⊎◌, inl, inr, Bool, true, false, ◌&&◌, List, [], ◌∷◌, ◌++◌, Option,
  none, some, none-not-some, some_inj, Option-cases, Bool-cases, append_assoc, All, Any, arith,
}
use mottainai_ia.Base.Floats.{Floats}
use mottainai_ia.Base.Sorting.{sort}
use mottainai_ia.Text.Case.{Str, codes, strip, lower}
use mottainai_ia.Text.Search.{has_code, str_eq, str_eq_iff}
use mottainai_ia.Text.Split.{join}
use mottainai_ia.Text.Decimal.{str_ℕ, str_ℕ-injective, has_code-str_ℕ}
use mottainai_ia.Cache.Keyspace.Distinct.{rag_result-injective, append_cancel, colon_in_middle}
use mottainai_ia.Rag.Retrieval.{
  Vectors, Found, customer_categories, audience, str_lt, normalized, Question, question_text,
  rag_cache_key, fresh, CacheStore, read_rag_cache, write_rag_cache, served, retrieve_with_sources,
}

-- What stands behind the last colon, and what stands before it, are determined.
last_colon :
    (s t u v : Str)
    → has_code b':' u ≡ false
    → has_code b':' v ≡ false
    → s ++ b':' ∷ u ≡ t ++ b':' ∷ v
    → (s ≡ t) × (u ≡ v)
last_colon [] [] u v hu hv e = (refl, ground arith)
last_colon [] (d ∷ t) u v hu hv e =
    let tail : u ≡ t ++ b':' ∷ v = ground arith in
    cc (ap (has_code b':') tail, hu, colon_in_middle t v)
last_colon (c ∷ s) [] u v hu hv e =
    let tail : s ++ b':' ∷ u ≡ v = ground arith in
    cc (ap (has_code b':') tail, hv, colon_in_middle s u)
last_colon (c ∷ s) (d ∷ t) u v hu hv e =
    let tail : s ++ b':' ∷ u ≡ t ++ b':' ∷ v = ground arith in
    let head : c ≡ d = ground arith in
    let (same, rest) = last_colon s t u v hu hv tail in ((λ i. head i ∷ same i), rest)

audience-colon : (b : Bool) → has_code b':' (audience (customer_categories b)) ≡ false
unfolding audience has_code join sort str_lt
audience-colon true = refl
audience-colon false = refl

audience-injective :
    (a b : Bool) → audience (customer_categories a) ≡ audience (customer_categories b) → a ≡ b
unfolding audience join sort str_lt
audience-injective true true e = refl
audience-injective true false e = ground arith
audience-injective false true e = ground arith
audience-injective false false e = refl

-- A text, `::` and a field without a colon.
last_field :
    (s t u v : Str)
    → has_code b':' u ≡ false
    → has_code b':' v ≡ false
    → s ++ b':' ∷ b':' ∷ u ≡ t ++ b':' ∷ b':' ∷ v
    → (s ≡ t) × (u ≡ v)
unfolding has_code
last_field s t u v hu hv e =
    let (heads, tails) =
      last_colon (s ++ b':' ∷ []) (t ++ b':' ∷ []) u v hu hv
        (append_assoc s (b':' ∷ []) (b':' ∷ u) ∙ e ∙ sym (append_assoc t (b':' ∷ []) (b':' ∷ v))) in
    ((last_colon s t [] [] refl refl heads).0, tails)

-- The text under a key determines the question, the number of results and the audience.
normalized-injective :
    (q r : Str) (m n : ℕ) (a b : Bool)
    → normalized q m (customer_categories a) ≡ normalized r n (customer_categories b)
    → (lower (strip q) ≡ lower (strip r)) × (m ≡ n) × (a ≡ b)
unfolding normalized has_code
normalized-injective q r m n a b e =
    let behind = append_cancel (codes "dedup-v2::") _ _ e in
    let grouped : (x y z : Str)
        → (x ++ b':' ∷ b':' ∷ y) ++ b':' ∷ b':' ∷ z ≡ x ++ b':' ∷ b':' ∷ (y ++ b':' ∷ b':' ∷ z) =
      λ x y z. append_assoc x (b':' ∷ b':' ∷ y) (b':' ∷ b':' ∷ z) in
    let (front, same_audience) =
      last_field _ _ (audience (customer_categories a)) (audience (customer_categories b))
        (audience-colon a) (audience-colon b)
        (grouped (lower (strip q)) (str_ℕ m) (audience (customer_categories a))
          ∙ behind
          ∙ sym (grouped (lower (strip r)) (str_ℕ n) (audience (customer_categories b)))) in
    let (same_query, same_top) =
      last_field (lower (strip q)) (lower (strip r)) (str_ℕ m) (str_ℕ n)
        (has_code-str_ℕ 58 m (λ h. omega (arith, h))) (has_code-str_ℕ 58 n (λ h. omega (arith, h)))
        front in
    (same_query, str_ℕ-injective m n same_top, audience-injective a b same_audience)

module _ (fl : Floats) (vs : Vectors fl.F) where
  open vs use {digest}

  abbrev Asked : Type 0
  Asked = Question fl vs

  -- The same question by the same company and audience, spaces around it and letter case aside.
  abbrev pub IsSame : Asked → Asked → Type 0
  IsSame p q =
      (lower (strip p.query) ≡ lower (strip q.query))
      × (p.empresa_id ≡ q.empresa_id)
      × (p.top_k ≡ q.top_k)
      × (p.customer_only ≡ q.customer_only)

  -- Two different texts do not have the same digest.
  abbrev pub NoCollision : Asked → Asked → Type 0
  NoCollision q p =
      digest (question_text fl vs p) ≡ digest (question_text fl vs q)
      → question_text fl vs p ≡ question_text fl vs q

  -- The cache after the questions, the latest of them first.
  pub filled : List Asked → CacheStore fl vs
  filled [] = λ key. none
  filled (q ∷ qs) = (retrieve_with_sources fl vs q (filled qs)).1

  -- The earlier question that an entry is from.
  abbrev Wrote : Str → Found fl.F → Asked → Type 0
  Wrote key found p = (rag_cache_key fl vs p ≡ key) × (fresh fl vs p ≡ found)

  written :
      (q : Asked) (qs : List Asked) (key : Str) (cache : CacheStore fl vs) (found : Found fl.F)
      → ((f : Found fl.F) → cache key ≡ some f → Any (Wrote key f) qs)
      → write_rag_cache fl vs q (rag_cache_key fl vs q) (fresh fl vs q) cache key ≡ some found
      → Any (Wrote key found) (q ∷ qs)
  unfolding write_rag_cache
  written q qs key cache found earlier e = elim (Bool-cases (q.cached && q.writes)) [
    | inr off ↦ inr (earlier found (rw off at e))
    | inl on ↦ elim (Bool-cases (str_eq key (rag_cache_key fl vs q))) [
      | inl same ↦ inl (sym ((str_eq_iff _ _).0 same), some_inj.0 (rw (on, same) at e))
      | inr other ↦ inr (earlier found (rw (on, other) at e))
    ]
  ]

  served-Wrote :
      (q : Asked) (qs : List Asked) (key : Str) (found : Found fl.F) (o : Option (Found fl.F))
      → ((f : Found fl.F) → filled qs key ≡ some f → Any (Wrote key f) qs)
      → (served fl vs q (filled qs) o).1 key ≡ some found
      → Any (Wrote key found) (q ∷ qs)
  unfolding served write_rag_cache
  served-Wrote q qs key found none earlier e = written q qs key (filled qs) found earlier e
  served-Wrote q qs key found (some f) earlier e = inr (earlier found e)

  filled-Wrote :
      (qs : List Asked) (key : Str) (found : Found fl.F)
      → filled qs key ≡ some found
      → Any (Wrote key found) qs
  unfolding filled retrieve_with_sources
  filled-Wrote [] key found e = none-not-some e
  filled-Wrote (q ∷ qs) key found e =
      served-Wrote q qs key found (read_rag_cache fl vs q (rag_cache_key fl vs q) (filled qs))
        (λ f. filled-Wrote qs key f) e

  -- The earlier questions with the same key are the same question.
  recognized :
      (q : Asked) (qs : List Asked) (found : Found fl.F)
      → All (NoCollision q) qs
      → Any (Wrote (rag_cache_key fl vs q) found) qs
      → Any (λ p. IsSame p q × (fresh fl vs p ≡ found)) qs
  unfolding rag_cache_key
  recognized q [] found h a = a
  recognized q (p ∷ qs) found h (inr a) = inr (recognized q qs found h.1 a)
  recognized q (p ∷ qs) found h (inl (key, wrote)) =
      let (company, digests) = rag_result-injective p.empresa_id q.empresa_id _ _ key in
      let (query, top, audience) =
        normalized-injective p.query q.query p.top_k q.top_k p.customer_only q.customer_only
          (h.0 digests) in
      inl ((query, company, top, audience), wrote)

  read_hit :
      (q : Asked) (key : Str) (cache : CacheStore fl vs) (found : Found fl.F)
      → read_rag_cache fl vs q key cache ≡ some found
      → cache key ≡ some found
  unfolding read_rag_cache
  read_hit q key cache found e = elim (Bool-cases (q.cached && q.reads)) [
    | inl on ↦ rw on at e
    | inr off ↦ absurd (none-not-some (rw off at e))
  ]

  -- After any questions, whether Redis answers, forgets or fails, a question is answered as the knowledge
  -- base answers it now, or as it answered the same question by the same company and audience before.
  -- The digests of the texts of the questions do not collide.
  pub retrieve_with_sources-answers :
      (q : Asked) (qs : List Asked)
      → All (NoCollision q) qs
      → ((retrieve_with_sources fl vs q (filled qs)).0 ≡ fresh fl vs q)
        ⊎ Any (λ p. IsSame p q × (fresh fl vs p ≡ (retrieve_with_sources fl vs q (filled qs)).0)) qs
  unfolding retrieve_with_sources served fresh
  retrieve_with_sources-answers q qs h =
      let key = rag_cache_key fl vs q in
      elim (Option-cases (read_rag_cache fl vs q key (filled qs))) [
        | inl miss ↦ rw miss (inl refl)
        | inr (found, hit) ↦ rw hit (
            inr (
              recognized q qs found h
                (filled-Wrote qs key found (read_hit q key (filled qs) found hit))))
      ]
