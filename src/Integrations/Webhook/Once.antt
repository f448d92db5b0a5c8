-- ===== src/Integrations/Webhook/Once.antt =====
-- While Redis answers and no answer is lost, an alert is delivered once in the life of its mark.
use mottainai_ia.Base.{
  ℕ, suc, ◌+◌, ◌≤◌, ◌≡◌, refl, sym, ap, ◌∙◌, ◌⊎◌, inl, inr, Bool, true, false, List, [], ◌∷◌, some,
  All, All-map, All-keep, Pairwise, Bool-cases, Option-cases, keep, length, arith,
}
use mottainai_ia.Base.Int.{ℤ}
use mottainai_ia.Text.Case.{Str}
use mottainai_ia.Text.Search.{str_eq, str_eq_refl, str_eq_iff}
use mottainai_ia.Integrations.Webhook.{
  Alert, accepted, unreachable, lost, Weather, Post, Delivery, Outbox, key_of, deadline_of, exists,
  is_critical, send_webhook_notification, notify_one, post_of, notify_all,
  notify_new_critical_alerts,
}

-- Redis answers the check and takes the mark, and a post that the receiver gets is answered.
abbrev pub IsHealthy : Alert × Weather → Type 0
IsHealthy (a, w) =
    (w.checks ≡ true) × (w.marks ≡ true) × ((w.reply ≡ accepted) ⊎ (w.reply ≡ unreachable))

-- A configured receiver takes the alert.
abbrev pub is_taken : Bool → Weather → Bool
is_taken configured w = elim w.reply [ accepted ↦ configured | unreachable ↦ false | lost ↦ false ]

module _ (ttl : ℕ) where
  -- Two deliveries, the later one first: of different keys, or far apart.
  abbrev pub Apart : Delivery → Delivery → Type 0
  Apart d e = (str_eq (key_of d.post) (key_of e.post) ≡ false) ⊎ (e.time + ttl ≤ d.time)

  -- A mark that lasts until the time to live has passed since the delivery.
  abbrev pub Covers : List (Str × ℕ) → Delivery → Type 0
  Covers marked d =
      (deadline : ℕ) × (deadline_of (key_of d.post) marked ≡ some deadline)
      × (d.time + ttl ≤ deadline)

  -- What has been delivered is marked, and nothing has been delivered twice within the time to live.
  abbrev pub IsOnce : Outbox → Type 0
  IsOnce s = All (Covers s.marked) s.delivered × Pairwise Apart s.delivered

  -- A mark that does not exist is missing or has expired.
  expired : (now deadline : ℕ) → exists now (some deadline) ≡ false → deadline ≤ now
  unfolding exists
  expired now deadline h = ground (arith, h)

  -- What an old delivery is to a new one of a key without a mark.
  old_new :
      (now later : ℕ) (key : Str) (marked : List (Str × ℕ)) (d : Delivery)
      → now ≤ later
      → exists now (deadline_of key marked) ≡ false
      → Covers marked d
      → Covers ((key, later + ttl) ∷ marked) d
        × ((str_eq key (key_of d.post) ≡ false) ⊎ (d.time + ttl ≤ now))
  unfolding deadline_of
  old_new now later key marked d le gone (deadline, e, covered) =
      elim (Bool-cases (str_eq key (key_of d.post))) [
        | inl same ↦
            let there = ap (λ k. deadline_of k marked) ((str_eq_iff _ _).0 same) ∙ e in
            let over = expired now deadline (ap (exists now) (sym there) ∙ gone) in
            (
              (later + ttl, rw same refl, omega (arith, le, covered, over)),
              inr (omega (arith, covered, over)),
            )
        | inr other ↦ ((deadline, rw other e, covered), inl other)
      ]

  -- A key that has been marked.
  abbrev pub Known : Str → List (Str × ℕ) → Type 0
  Known key marked = (deadline : ℕ) × (deadline_of key marked ≡ some deadline)

  Known-first :
      (key : Str) (deadline : ℕ) (marked : List (Str × ℕ)) → Known key ((key, deadline) ∷ marked)
  unfolding deadline_of
  Known-first key deadline marked = (deadline, rw (str_eq_refl key) refl)

  Known-later :
      (key k : Str) (deadline : ℕ) (marked : List (Str × ℕ))
      → Known key marked
      → Known key ((k, deadline) ∷ marked)
  unfolding deadline_of
  Known-later key k deadline marked (d, e) = elim (Bool-cases (str_eq k key)) [
    | inl same ↦ (deadline, rw same refl)
    | inr other ↦ (d, rw other e)
  ]

  exists-Known :
      (now : ℕ) (key : Str) (marked : List (Str × ℕ))
      → exists now (deadline_of key marked) ≡ true
      → Known key marked
  unfolding exists
  exists-Known now key marked h = elim (Option-cases (deadline_of key marked)) [
    | inl nothing ↦ absurd (cc (h, nothing))
    | inr known ↦ known
  ]

  -- What a step from `s` to `t` does, of which `sent` to `total` posts are counted.
  abbrev pub Grows : ℕ → Outbox → ℕ → Outbox → Type 0
  Grows sent s total t =
      (IsOnce s → IsOnce t)
      × (total + length s.delivered ≡ sent + length t.delivered)
      × ((key : Str) → Known key s.marked → Known key t.marked)

  -- A delivery of a key without a mark, and its mark.
  delivered-Grows :
      (takes sent : ℕ) (p : Post) (s : Outbox)
      → exists s.now (deadline_of (key_of p) s.marked) ≡ false
      → Grows sent s (suc sent) (record {
        now = s.now + takes;
        marked = (key_of p, s.now + takes + ttl) ∷ s.marked;
        delivered = record { post = p; time = s.now } ∷ s.delivered;
      })
  unfolding deadline_of
  delivered-Grows takes sent p s gone =
      let old =
        λ (d : Delivery). old_new s.now (s.now + takes) (key_of p) s.marked d (omega arith) gone in
      (
        λ once. (
          (
            (s.now + takes + ttl, rw (str_eq_refl (key_of p)) refl, omega arith),
            All-map (λ d c. (old d c).0) s.delivered once.0,
          ),
          (All-map (λ d c. (old d c).1) s.delivered once.0, once.1),
        ),
        omega arith,
        λ key known. Known-later key (key_of p) (s.now + takes + ttl) s.marked known,
      )

  abbrev Step : Bool → Weather → Post → ℕ → Outbox → ℕ × Outbox → Type 0
  Step configured w p sent s after =
      Grows sent s after.0 after.1
      × ((is_taken configured w ≡ false) ⊎ Known (key_of p) after.1.marked)

  notify_one-Step :
      (configured : Bool) (w : Weather) (p : Post) (sent : ℕ) (s : Outbox)
      → w.checks ≡ true
      → w.marks ≡ true
      → (w.reply ≡ accepted) ⊎ (w.reply ≡ unreachable)
      → Step configured w p sent s (notify_one ttl configured w p (sent, s))
  unfolding notify_one send_webhook_notification
  notify_one-Step configured w p sent s checks marks reply =
      let now = s.now + w.wait in
      elim (Bool-cases (exists now (deadline_of (key_of p) s.marked))) [
        | inl known ↦
            rw (checks, known)
              (((λ h. h), refl, (λ k h. h)), inr (exists-Known now (key_of p) s.marked known))
        | inr gone ↦
            rw (checks, gone)
              (elim (Bool-cases configured) [
                | inr off ↦ elim reply [
                  | inl taken ↦ rw (taken, off) (((λ h. h), refl, (λ k h. h)), inl refl)
                  | inr missed ↦ rw (missed, off) (((λ h. h), refl, (λ k h. h)), inl refl)
                ]
                | inl on ↦ elim reply [
                  | inl taken ↦
                      rw (taken, on, marks)
                        (
                          delivered-Grows w.takes sent p (record s { now = now }) gone,
                          inr (Known-first (key_of p) (now + w.takes + ttl) s.marked),
                        )
                  | inr missed ↦ rw (missed, on) (((λ h. h), refl, (λ k h. h)), inl refl)
                ]
              ])
      ]

  abbrev Steps : Bool → ℤ → List (Alert × Weather) → ℕ → Outbox → ℕ × Outbox → Type 0
  Steps configured empresa_id alerts sent s after =
      Grows sent s after.0 after.1
      × All
          (λ p.
            (is_taken configured p.1 ≡ false)
            ⊎ Known (key_of (post_of empresa_id p.0)) after.1.marked)
          alerts

  notify_all-Steps :
      (configured : Bool) (empresa_id : ℤ) (alerts : List (Alert × Weather)) (sent : ℕ) (s : Outbox)
      → All IsHealthy alerts
      → Steps configured empresa_id alerts sent s
          (notify_all ttl configured empresa_id alerts (sent, s))
  unfolding notify_all
  notify_all-Steps configured empresa_id [] sent s h = (((λ o. o), refl, (λ k m. m)), tt)
  notify_all-Steps configured empresa_id ((a, w) ∷ alerts) sent s ((checks, marks, reply), h) =
      let p = post_of empresa_id a in
      let next = notify_one ttl configured w p (sent, s) in
      let (step, reached) = notify_one-Step configured w p sent s checks marks reply in
      let (steps, others) = notify_all-Steps configured empresa_id alerts next.0 next.1 h in
      (
        (λ o. steps.0 (step.0 o), omega (arith, step.1, steps.1), λ k m. steps.2 k (step.2 k m)),
        (
          elim reached [ inl not_taken ↦ inl not_taken | inr known ↦ inr (steps.2 _ known) ],
          others,
        ),
      )

  -- Over any number of calls, one after the other and with any time between and during them, while
  -- Redis answers and every post that the receiver gets is answered with a success: two deliveries of
  -- one alert are at least the time to live of a mark apart; the number answered is that of the
  -- deliveries; and a critical alert that the configured receiver takes has got a mark.
  pub notify_new_critical_alerts-IsOnce :
      (configured : Bool) (empresa_id : ℤ) (alerts : List (Alert × Weather)) (s : Outbox)
      → All IsHealthy alerts
      → IsOnce s
      → (let after = notify_new_critical_alerts ttl configured empresa_id alerts s in
          IsOnce after.1
          × (after.0 + length s.delivered ≡ length after.1.delivered)
          × All
              (λ p.
                (is_taken configured p.1 ≡ false)
                ⊎ Known (key_of (post_of empresa_id p.0)) after.1.marked)
              (keep is_critical alerts))
  unfolding notify_new_critical_alerts
  notify_new_critical_alerts-IsOnce configured empresa_id alerts s healthy once =
      let (grown, reached) =
        notify_all-Steps configured empresa_id (keep is_critical alerts) 0 s
          (All-keep IsHealthy is_critical alerts healthy) in
      (grown.0 once, omega (arith, grown.1), reached)
