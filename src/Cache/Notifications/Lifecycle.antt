-- ===== src/Cache/Notifications/Lifecycle.antt =====
-- A notification of app/cache/notifications.py from its creation to the second time it is read.
use mottainai_ia.Base.{
  ℕ, suc, ◌+◌, ◌-◌, ◌*◌, ◌<◌, ◌≡◌, refl, Bool, true, false, not, ◌||◌, Option, none, some, arith,
  ltb, ◌==◌, if◌then◌else◌, sym, ap, subst, ◌∙◌, some_inj, none-not-some, Bool-cases, Option-cases,
  inl, inr,
}
use mottainai_ia.Base.Int.{ℤ, pos, eqb_ℤ}
use mottainai_ia.Text.Case.{Str, codes}
use mottainai_ia.Text.Search.{str_eq, str_eq_refl}
use mottainai_ia.Cache.Keyspace.{notification, notification_inbox, notification_unread}
use mottainai_ia.Cache.Notifications.{
  Notification, put, or_zero, Inboxes, validate_id, create_script, read_script, by_status,
  mark_read_script, get_unread_count, mark_as_read, create_notification, chosen_id,
}

put_same {ℓ} : {A : Type ℓ} (k : Str) (v : A) (f : Str → A) → put k v f k ≡ v
put_same k v f = rw (str_eq_refl k) refl

accepted : (refused : Bool) (x id : Str) → (if refused then none else some x) ≡ some id → x ≡ id
accepted true x id e = absurd (none-not-some e)
accepted false x id e = some_inj.0 e

validate_id-same : (x id : Str) → validate_id x ≡ some id → validate_id id ≡ some id
unfolding validate_id
validate_id-same x id e =
    let same = accepted _ x id e in
    subst (λ z. validate_id z ≡ some z) same (e ∙ ap some (sym same))

module _ (redis : Inboxes) where
  open redis use {Store, view}

  -- What a client reads after the script has made a new entry.
  view_created :
      (entry inbox unread : Str) (n : Notification) (ttl points : ℕ) (s : Store)
      → 0 < ttl
      → (view s).hash entry ≡ none
      → view (create_script redis entry inbox unread n ttl points s) ≡ record {
        hash = put entry (some n) (view s).hash;
        score = put inbox (put n.id (some points) ((view s).score inbox)) (view s).score;
        counter = put unread (some (suc (or_zero ((view s).counter unread)))) (view s).counter;
      }
  unfolding create_script
  view_created entry inbox unread n ttl points s lives fresh =
      rw
        (
          fresh,
          create_script,
          redis.view_expire unread ttl _ lives,
          redis.view_incr,
          redis.view_expire inbox ttl _ lives,
          redis.view_zadd,
          redis.view_expire entry ttl _ lives,
          redis.view_hset,
        )
        refl

  -- What a client reads after an unread notification has been marked.
  view_read_script :
      (entry unread : Str) (n : Notification) (s : Store)
      → (view s).hash entry ≡ some n
      → 0 < or_zero ((view s).counter unread)
      → view (read_script redis entry unread s).1 ≡ record {
        hash = put entry (some (record n { status = codes "read" })) (view s).hash;
        score = (view s).score;
        counter = put unread (some (or_zero ((view s).counter unread) - 1)) (view s).counter;
      }
  unfolding read_script
  view_read_script entry unread n s there counted =
      let changed = redis.view_hset_status entry (codes "read") n s there in
      let same = ap (λ v. or_zero (v.counter unread)) changed in
      let positive = subst (λ k. 0 < k) (sym same) counted in
      let passes : ltb 0
            (or_zero ((view (redis.hset_status entry (codes "read") s)).counter unread))
          ≡ true =
        ground (arith, positive) in
      rw (passes, read_script, redis.view_decr unread _ positive, changed) refl

  marks :
      (entry inbox unread id : Str) (n : Notification) (points : ℕ) (s : Store)
      → (view s).score inbox id ≡ some points
      → (view s).hash entry ≡ some n
      → n.status ≡ codes "unread"
      → mark_read_script redis inbox entry unread id s ≡ read_script redis entry unread s
  unfolding mark_read_script by_status str_eq
  marks entry inbox unread id n points s listed there is_unread =
      rw (listed, there, is_unread, mark_read_script, by_status) refl

  -- A notification that was read is left as it is.
  read_again :
      (entry inbox unread id : Str) (n : Notification) (points : ℕ) (s : Store)
      → (view s).score inbox id ≡ some points
      → (view s).hash entry ≡ some n
      → n.status ≡ codes "read"
      → mark_read_script redis inbox entry unread id s ≡ (pos 2, s)
  unfolding mark_read_script by_status str_eq
  read_again entry inbox unread id n points s listed there was_read =
      rw (listed, there, was_read, mark_read_script, by_status) refl

  marked :
      (a u : ℤ) (id : Str) (s next : Store) (code : ℤ)
      → validate_id id ≡ some id
      → mark_read_script redis
          (notification_inbox a u)
          (notification a u id)
          (notification_unread a u)
          id
          s
        ≡ (code, next)
      → mark_as_read redis a u id s ≡ some (eqb_ℤ code (pos 1), next)
  unfolding mark_as_read
  marked a u id s next code valid runs = rw (valid, mark_as_read, runs) refl

  -- From a fresh entry that the script made, to the second reading.
  lifecycle :
      (a u : ℤ) (made : Notification) (ttl points : ℕ) (s after : Store)
      → 0 < ttl
      → (view s).hash (notification a u made.id) ≡ none
      → validate_id made.id ≡ some made.id
      → made.status ≡ codes "unread"
      → after
        ≡ create_script redis
            (notification a u made.id)
            (notification_inbox a u)
            (notification_unread a u)
            made
            ttl
            points
            s
      → (read : Store) × (mark_as_read redis a u made.id after ≡ some (true, read))
        × (mark_as_read redis a u made.id read ≡ some (false, read))
        × (get_unread_count redis a u after ≡ suc (get_unread_count redis a u s))
        × (get_unread_count redis a u read ≡ get_unread_count redis a u s)
  unfolding get_unread_count read_script
  lifecycle a u made ttl points s after lives fresh valid is_unread is_after =
      let entry = notification a u made.id in
      let inbox = notification_inbox a u in
      let unread = notification_unread a u in
      let created =
        ap view is_after ∙ view_created entry inbox unread made ttl points s lives fresh in
      let listed : (view after).score inbox made.id ≡ some points =
        rw (created, str_eq_refl inbox, str_eq_refl made.id) refl in
      let there : (view after).hash entry ≡ some made = rw (created, str_eq_refl entry) refl in
      let total : or_zero ((view after).counter unread) ≡ suc (or_zero ((view s).counter unread)) =
        rw (created, str_eq_refl unread) refl in
      let counted : 0 < or_zero ((view after).counter unread) = omega (arith, total) in
      let seen = view_read_script entry unread made after there counted in
      let read = (read_script redis entry unread after).1 in
      let still_listed : (view read).score inbox made.id ≡ some points = rw seen listed in
      let now_read : (view read).hash entry ≡ some (record made { status = codes "read" }) =
        rw (seen, str_eq_refl entry) refl in
      let left : or_zero ((view read).counter unread) ≡ or_zero ((view after).counter unread) - 1 =
        rw (seen, str_eq_refl unread) refl in
      (
        read,
        marked a u made.id after read (pos 1) valid
            (marks entry inbox unread made.id made points after listed there is_unread),
        marked a u made.id read read (pos 2) valid
            (read_again entry inbox unread made.id _ points read still_listed now_read refl),
        total,
        omega (arith, left, total),
      )

  -- What a call of `create_notification` that returns has done.
  created_by :
      (a u : ℤ) (title body : Str) (priority : ℕ) (given : Option Str) (uuid : Str) (now ttl : ℕ)
      (s after : Store) (made : Notification)
      → create_notification redis a u title body priority given uuid now ttl s ≡ some (made, after)
      → (validate_id made.id ≡ some made.id)
        × (made.status ≡ codes "unread")
        × (points : ℕ) × (after
            ≡ create_script redis
                (notification a u made.id)
                (notification_inbox a u)
                (notification_unread a u)
                made
                ttl
                points
                s)
  unfolding create_notification
  created_by a u title body priority given uuid now ttl s after made e =
      elim (Bool-cases (not (priority == 1 || (priority == 2 || priority == 3)))) [
        | inl bad ↦ absurd (none-not-some (rw (bad, create_notification) at e))
        | inr fine ↦ elim (Option-cases (validate_id (chosen_id given uuid))) [
          | inl lost ↦ absurd (none-not-some (rw (fine, lost, create_notification) at e))
          | inr (id, valid) ↦
              subst
                (λ q.
                  (validate_id q.0.id ≡ some q.0.id)
                  × (q.0.status ≡ codes "unread")
                  × (points : ℕ) × (q.1
                      ≡ create_script redis (notification a u q.0.id) (notification_inbox a u)
                          (notification_unread a u) q.0 ttl points s))
                (some_inj.0 (rw (fine, valid, create_notification) at e))
                (
                  validate_id-same (chosen_id given uuid) id valid,
                  refl,
                  priority * 10000000000 + now,
                  refl,
                )
        ]
      ]

  -- A new notification raises the unread count by one. Its first reading answers `true` and lowers
  -- the count again; a second reading answers `false` and changes nothing. This holds for a positive
  -- time to live, an identifier that the inbox does not hold, and no expiry between the calls.
  pub mark_as_read-create :
      (a u : ℤ) (title body : Str) (priority : ℕ) (given : Option Str) (uuid : Str) (now ttl : ℕ)
      (s after : Store) (made : Notification)
      → 0 < ttl
      → (view s).hash (notification a u made.id) ≡ none
      → create_notification redis a u title body priority given uuid now ttl s ≡ some (made, after)
      → (read : Store) × (mark_as_read redis a u made.id after ≡ some (true, read))
        × (mark_as_read redis a u made.id read ≡ some (false, read))
        × (get_unread_count redis a u after ≡ suc (get_unread_count redis a u s))
        × (get_unread_count redis a u read ≡ get_unread_count redis a u s)
  mark_as_read-create a u title body priority given uuid now ttl s after made lives fresh e =
      let (valid, is_unread, points, is_after) =
        created_by a u title body priority given uuid now ttl s after made e in
      lifecycle a u made ttl points s after lives fresh valid is_unread is_after
