-- ===== src/Agents/Intents/Match.antt =====
-- `match_intent` takes an eligible intent of the highest confidence, and only of a candidate agent.
use mottainai_ia.Base.{
  none-not-some, some_inj, ℕ, ◌≡◌, ◌≢◌, refl, sym, ap, ◌∙◌, ◌⊎◌, inl, inr, lt→ltb, ◌==◌, true,
  false, List, [], ◌∷◌, Option, get_elem?, All-get_elem?, none, some, All, Any, Any-map, Any-elim,
  arith, ◌<◌, length, Option-cases, Bool-cases, ◌+◌, ◌*◌,
}
use mottainai_ia.Base.Floats.{Floats, IsOrdered}
use mottainai_ia.Text.Case.{Str}
use mottainai_ia.Text.Search.{str_mem}
use mottainai_ia.Agents.Intents.{
  Intent, Matched, examples_of, candidate, better, match_from, match_intent, matches_in,
  threshold_of, CatalogCache, get_active_intents, fresh_entry, or_fallback, cache_ttl_seconds,
}

module _ (fl : Floats) where
  open fl use {F, lt, ratio}

  better-either :
      (best new : Option (Matched F)) → (better fl best new ≡ best) ⊎ (better fl best new ≡ new)
  unfolding better
  better-either none none = inl refl
  better-either (some old) none = inl refl
  better-either none (some new) = inr refl
  better-either (some old) (some new) = elim (Bool-cases (lt old.confidence new.confidence)) [
    | inl higher ↦ inr (rw higher)
    | inr lower ↦ inl (rw lower)
  ]

  -- What makes an intent eligible, as the docstring puts it.
  pub record Eligible (text : Str) (agents : List Str) (i : Intent F) (m : Matched F) : Type 0 where
    pub its_key : i.key ≡ m.key
    pub its_agent : i.agent ≡ some m.agent
    pub may_route : str_mem m.agent agents ≡ true
    pub some_match : matches_in fl text (examples_of i) ≢ 0
    pub its_confidence :
        m.confidence ≡ ratio (matches_in fl text (examples_of i)) (length (examples_of i))
    pub clears :
        (threshold : F) × (threshold_of fl i ≡ some threshold) × (lt m.confidence threshold ≡ false)

  module _ (text : Str) (agents : List Str) where
    clears_threshold :
        (i : Intent F) (m : Matched F)
        → candidate fl text agents i ≡ some (some m)
        → (threshold : F) × (threshold_of fl i ≡ some threshold)
          × (lt m.confidence threshold ≡ false)
    unfolding candidate
    clears_threshold i m e = elim (Option-cases (threshold_of fl i)) [
      | inl null ↦ absurd (ground (arith, null))
      | inr (t, k) ↦ (t, k, ground (arith, k))
    ]

    pub candidate-Eligible :
        (i : Intent F) (m : Matched F)
        → candidate fl text agents i ≡ some (some m)
        → Eligible text agents i m
    unfolding candidate
    candidate-Eligible i m e = record {
      its_key = ground arith;
      its_agent = ground arith;
      may_route = ground arith;
      some_match = ground arith;
      its_confidence = ground arith;
      clears = clears_threshold i m e;
    }

    -- A step of the loop that goes on.
    match_from-step :
        (best : Option (Matched F)) (i : Intent F) (xs : List (Intent F))
        (result : Option (Matched F))
        → match_from fl text agents best (i ∷ xs) ≡ some result
        → (new : Option (Matched F)) × (candidate fl text agents i ≡ some new)
          × (match_from fl text agents (better fl best new) xs ≡ some result)
    unfolding match_from
    match_from-step best i xs result e = elim (Option-cases (candidate fl text agents i)) [
      | inl raises ↦ let h = rw (raises, match_from) at e in absurd (none-not-some h)
      | inr (new, k) ↦ (new, k, rw (k, match_from) at e)
    ]

    -- The result is the start value or comes from an intent of the list.
    match_from-source :
        (best : Option (Matched F)) (xs : List (Intent F)) (m : Matched F)
        → match_from fl text agents best xs ≡ some (some m)
        → (best ≡ some m) ⊎ Any (λ i. candidate fl text agents i ≡ some (some m)) xs
    unfolding match_from
    match_from-source best [] m e = inl (some_inj.0 e)
    match_from-source best (i ∷ xs) m e =
        let (new, k, rest) = match_from-step best i xs (some m) e in
        elim (match_from-source (better fl best new) xs m rest) [
          | inr later ↦ inr (inr later)
          | inl here ↦ elim (better-either best new) [
            | inl old ↦ inl (sym old ∙ here)
            | inr newer ↦ inr (inl (k ∙ ap some (sym newer ∙ here)))
          ]
        ]

  module _ (ordered : IsOrdered fl) (text : Str) (agents : List Str) where
    -- Nothing better than `m` was seen.
    abbrev AtMost : Matched F → Option (Matched F) → Type 0
    AtMost m o = (c : Matched F) → o ≡ some c → lt m.confidence c.confidence ≡ false

    lt_asymm : (a b : F) → lt a b ≡ true → lt b a ≡ false
    lt_asymm a b h = elim (Bool-cases (lt b a)) [
      | inl back ↦ absurd (ground (arith, ordered.lt_trans a b a h back, ordered.lt_irrefl a))
      | inr no_more ↦ no_more
    ]

    -- A step of the loop loses no better candidate.
    better-AtMost :
        (m : Matched F) (old new : Option (Matched F))
        → AtMost m (better fl old new)
        → AtMost m old × AtMost m new
    unfolding better
    better-AtMost m none none h = (h, h)
    better-AtMost m (some o) none h = (h, λ c e. cc)
    better-AtMost m none (some n) h = (λ c e. cc, h)
    better-AtMost m (some o) (some n) h = elim (Bool-cases (lt o.confidence n.confidence)) [
      | inl higher ↦ (
        λ c e. ground (
          arith,
          h n,
          ordered.lt_cotrans m.confidence n.confidence o.confidence,
          lt_asymm o.confidence n.confidence higher,
        ),
        λ c e. ground (arith, h n),
      )
      | inr lower ↦ (
        λ c e. ground (arith, h o),
        λ c e. ground (arith, h o, ordered.lt_cotrans m.confidence o.confidence n.confidence),
      )
    ]

    match_from-AtMost :
        (best : Option (Matched F)) (xs : List (Intent F)) (m : Matched F)
        → match_from fl text agents best xs ≡ some (some m)
        → AtMost m best
          × All
              (λ i.
                (new : Option (Matched F)) × (candidate fl text agents i ≡ some new) × AtMost m new)
              xs
    unfolding match_from
    match_from-AtMost best [] m e = (λ c h. ground (arith, ordered.lt_irrefl m.confidence), tt)
    match_from-AtMost best (i ∷ xs) m e =
        let (new, k, rest) = match_from-step text agents best i xs (some m) e in
        let (seen, others) = match_from-AtMost (better fl best new) xs m rest in
        let (before, this) = better-AtMost m best new seen in (before, ((new, k, this), others))

  module _ (text : Str) (agents : List Str) where
    Eligible-candidate :
        (i : Intent F) (m : Matched F)
        → Eligible text agents i m
        → candidate fl text agents i ≡ some (some m)
    unfolding candidate
    Eligible-candidate i m h =
        let open_key = h.its_key in
        let found : (length (examples_of i) == 0) ≡ false = nonempty (examples_of i) h.some_match in
        let (threshold, its_threshold, clear) = h.clears in
        ground
          (arith, h.its_agent, h.may_route, h.some_match, h.its_confidence, its_threshold, clear)
      where
        nonempty : (xs : List Str) → matches_in fl text xs ≢ 0 → (length xs == 0) ≡ false
        nonempty [] k = absurd (k refl)
        nonempty (x ∷ xs) k = ground arith

    better-none :
        (best new : Option (Matched F)) → better fl best new ≡ none → (best ≡ none) × (new ≡ none)
    unfolding better
    better-none none none e = (refl, refl)
    better-none (some o) none e = cc
    better-none none (some n) e = cc
    better-none (some o) (some n) e = ground arith

    match_from-none :
        (best : Option (Matched F)) (xs : List (Intent F))
        → match_from fl text agents best xs ≡ some none
        → (best ≡ none) × All (λ i. candidate fl text agents i ≡ some none) xs
    unfolding match_from
    match_from-none best [] e = (some_inj.0 e, tt)
    match_from-none best (i ∷ xs) e =
        let (new, k, going) = match_from-step text agents best i xs none e in
        let (seen, rest) = match_from-none (better fl best new) xs going in
        let (before, this) = better-none best new seen in (before, (k ∙ ap some this, rest))

    -- What is returned comes from the catalog, and its agent is a candidate.
    match_intent-source :
        (xs : List (Intent F)) (m : Matched F)
        → match_intent fl text agents xs ≡ some (some m)
        → Any (λ i. Eligible text agents i m) xs
    unfolding match_intent
    match_intent-source xs m e = elim (match_from-source text agents none xs m e) [
      | inl start ↦ absurd (cc start)
      | inr found ↦ Any-map (λ i k. candidate-Eligible text agents i m k) xs found
    ]

    pub match_intent-may_route :
        (xs : List (Intent F)) (m : Matched F)
        → match_intent fl text agents xs ≡ some (some m)
        → str_mem m.agent agents ≡ true
    match_intent-may_route xs m e =
        Any-elim (λ i (h : Eligible text agents i m). h.may_route) xs (match_intent-source xs m e)

    -- `match_intent` finds nothing only if no intent of the catalog is eligible.
    pub match_intent-none :
        (xs : List (Intent F)) (n : ℕ) (i : Intent F) (c : Matched F)
        → match_intent fl text agents xs ≡ some none
        → get_elem? xs n ≡ some i
        → ¬ Eligible text agents i c
    unfolding match_intent
    match_intent-none xs n i c e at eligible = none-not-some (
        some_inj.0 (
          sym (All-get_elem? _ xs n i (match_from-none none xs e).1 at)
          ∙ Eligible-candidate i c eligible))

    -- What `match_intent` returns is an eligible intent of the catalog, and no eligible intent has a
    -- higher confidence. Thresholds and confidences are numbers, not NaN.
    pub match_intent-best :
        IsOrdered fl
        → (xs : List (Intent F)) (m : Matched F) (n : ℕ) (i : Intent F) (c : Matched F)
        → match_intent fl text agents xs ≡ some (some m)
        → get_elem? xs n ≡ some i
        → Eligible text agents i c
        → Any (λ j. Eligible text agents j m) xs × (lt m.confidence c.confidence ≡ false)
    unfolding match_intent
    match_intent-best ordered xs m n i c e at eligible =
        let (new, k, most) =
          All-get_elem? _ xs n i (match_from-AtMost ordered text agents none xs m e).1 at in
        (match_intent-source xs m e, most c (some_inj.0 (sym k ∙ Eligible-candidate i c eligible)))

  -- A query of the catalog, whatever it gave, is the last one for sixty seconds: until then the
  -- same intents are served.
  get_active_intents-cached :
      (second now later : ℕ) (fetched again : Option (List (Intent F))) (c : CatalogCache fl)
      → later < now + cache_ttl_seconds fl * second
      → (get_active_intents fl second now fetched c).queried ≡ true
      → (let first = get_active_intents fl second now fetched c in
          let next = get_active_intents fl second later again first.cache in
          (next.queried ≡ false) × (next.intents ≡ first.intents) × (next.cache ≡ first.cache))
  unfolding get_active_intents
  get_active_intents-cached second now later fetched again c soon q =
      let in_time = lt→ltb later (now + cache_ttl_seconds fl * second) soon in
      ground (arith, in_time)

  or_fallback-ne-nil : (o : Option (List (Intent F))) → or_fallback fl o ≢ []
  unfolding or_fallback
  or_fallback-ne-nil none e = cc
  or_fallback-ne-nil (some []) e = cc
  or_fallback-ne-nil (some (i ∷ xs)) e = cc

  fresh-cached :
      (second now : ℕ) (c : CatalogCache fl) (xs : List (Intent F))
      → fresh_entry fl second now c ≡ some xs
      → c.cached ≡ some xs
  unfolding fresh_entry
  fresh-cached second now c xs e = ground arith

  -- The routing always has intents: a catalog that is empty or out of reach gives the built-in ones.
  pub get_active_intents-ne-nil :
      (second now : ℕ) (fetched : Option (List (Intent F))) (c : CatalogCache fl)
      → c.cached ≢ some []
      → ((get_active_intents fl second now fetched c).intents ≢ [])
        × ((get_active_intents fl second now fetched c).cache.cached ≢ some [])
  unfolding get_active_intents
  get_active_intents-ne-nil second now fetched c h =
      elim (Option-cases (fresh_entry fl second now c)) [
        | inl stale ↦
            rw (stale, get_active_intents)
              (or_fallback-ne-nil fetched, λ e. or_fallback-ne-nil fetched (ground arith))
        | inr (xs, fresh) ↦
            rw (fresh, get_active_intents)
              (λ e. h (fresh-cached second now c xs fresh ∙ ap some e), h)
      ]
