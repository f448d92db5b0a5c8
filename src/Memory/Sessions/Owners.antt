-- ===== src/Memory/Sessions/Owners.antt =====
-- Who can use a session.
use mottainai_ia.Base.{
  ℕ, ◌≡◌, refl, sym, ◌∙◌, ap, subst, inl, inr, Bool, true, false, List, [], ◌∷◌, none, some, ltb,
  find, update_first, any, arith, Bool-cases, Option-cases, find_passes, find_head,
}
use mottainai_ia.Base.Int.{ℤ}
use mottainai_ia.Text.Case.{Str}
use mottainai_ia.Memory.Documents.{Conversation, Chats}
use mottainai_ia.Memory.Sessions.{
  opened, closed_error, ownership_error, owned_by, in_session, last_seen, resume,
  get_or_create_conversation, save_message, Saying, end_conversation, close_conversation,
  get_conversation, live_in, is_active,
}
use mottainai_ia.Memory.Sessions.Steps.{
  Reach, AllApart, Step-AllApart, close_step, get_or_create-found, save_message-none, find_session,
}
use mottainai_ia.Memory.Sessions.Ended.{ended-refused}

-- What a search finds nothing of is neither there nor changed.
none-any : (p : Conversation → Bool) (xs : List Conversation) → find p xs ≡ none → any p xs ≡ false
none-any p [] e = refl
none-any p (x ∷ xs) e = ground (arith, none-any p xs)

none-update :
    (p : Conversation → Bool) (f : Conversation → Conversation) (xs : List Conversation)
    → find p xs ≡ none
    → update_first p f xs ≡ xs
none-update p f [] e = refl
none-update p f (x ∷ xs) e = ground (arith, none-update p f xs)

any-find :
    (p : Conversation → Bool) (xs : List Conversation)
    → any p xs ≡ true
    → (c : Conversation) × (find p xs ≡ some c)
any-find p [] e = absurd (ground arith)
any-find p (x ∷ xs) e = elim (Bool-cases (p x)) [
  | inl hit ↦ (x, rw hit refl)
  | inr miss ↦ let (c, found) = any-find p xs (ground arith) in (c, rw miss found)
]

module _ (s : Str) (empresa_id usuario_id : ℤ) where
  live_in_session :
      (c : Conversation) → live_in s empresa_id usuario_id c ≡ true → in_session s c ≡ true
  live_in_session c h = ground arith

  live_in_owned :
      (c : Conversation)
      → live_in s empresa_id usuario_id c ≡ true
      → owned_by empresa_id usuario_id c ≡ true
  live_in_owned c h = ground arith

  -- A user cannot see, write to or close a session that belongs to another user or company.
  pub stranger-isolated :
      (c : Conversation) (db : Chats) (agent : Str) (i now cutoff : ℕ) (saying : Saying)
      → AllApart db.conversations
      → find (in_session s) db.conversations ≡ some c
      → owned_by empresa_id usuario_id c ≡ false
      → (get_or_create_conversation s empresa_id usuario_id agent i now cutoff db
          ≡ (ownership_error, db))
        × (get_conversation s empresa_id usuario_id db ≡ ownership_error)
        × (save_message s empresa_id usuario_id saying now db ≡ db)
        × (close_conversation s empresa_id usuario_id now db ≡ (false, db))
  unfolding resume get_conversation close_conversation
  stranger-isolated c db agent i now cutoff saying h e stranger = (
    get_or_create-found s empresa_id usuario_id agent i now cutoff db c e ∙ ground arith,
    rw (e, get_conversation, stranger) refl,
    save_message-none s empresa_id usuario_id saying now db no_live,
    rw
        (
          none-any _ db.conversations no_live,
          none-update _ (end_conversation now) db.conversations no_live,
        )
        refl,
  )
    where
      no_live : find (live_in s empresa_id usuario_id) db.conversations ≡ none
      no_live = elim (Option-cases (find (live_in s empresa_id usuario_id) db.conversations)) [
        | inl nothing ↦ nothing
        | inr (a, live) ↦
            let passes = find_passes (live_in s empresa_id usuario_id) db.conversations a live in
            let same =
              find_session (live_in s empresa_id usuario_id) (in_session s) s db.conversations a c h
                live e (live_in_session a passes)
                (find_passes (in_session s) db.conversations c e) in
            let yes =
              subst (λ z. owned_by empresa_id usuario_id z ≡ true) same (live_in_owned a passes) in
            cc
      ]

  owned_resume :
      (now cutoff : ℕ) (found conv : Conversation) (db : Chats)
      → (resume empresa_id usuario_id now cutoff found db).0 ≡ opened (some conv)
      → (found ≡ conv)
        × (owned_by empresa_id usuario_id found ≡ true)
        × (is_active found.status ≡ true)
        × (ltb (last_seen found) cutoff ≡ false)
        × ((resume empresa_id usuario_id now cutoff found db).1 ≡ db)
  unfolding resume
  owned_resume now cutoff found conv db e = ground arith

  -- A session that is resumed belongs to the user and company who ask, is active, and was used
  -- since the cutoff; and resuming it writes nothing.
  pub get_or_create-resumed :
      (agent : Str) (i now cutoff : ℕ) (db : Chats) (found conv : Conversation)
      → find (in_session s) db.conversations ≡ some found
      → (get_or_create_conversation s empresa_id usuario_id agent i now cutoff db).0
        ≡ opened (some conv)
      → (found ≡ conv)
        × (owned_by empresa_id usuario_id found ≡ true)
        × (is_active found.status ≡ true)
        × (ltb (last_seen found) cutoff ≡ false)
        × ((get_or_create_conversation s empresa_id usuario_id agent i now cutoff db).1 ≡ db)
  get_or_create-resumed agent i now cutoff db found conv e ok =
      let branch = get_or_create-found s empresa_id usuario_id agent i now cutoff db found e in
      let (same, owned, live, seen, kept) =
        owned_resume now cutoff found conv db (ap (λ r. r.0) (sym branch) ∙ ok) in
      (same, owned, live, seen, ap (λ r. r.1) branch ∙ kept)

  -- The update of the live document of a session is what the session shows.
  find-ended :
      (now : ℕ) (xs : List Conversation) (c : Conversation)
      → AllApart xs
      → find (live_in s empresa_id usuario_id) xs ≡ some c
      → find
          (in_session s)
          (update_first (live_in s empresa_id usuario_id) (end_conversation now) xs)
        ≡ some (end_conversation now c)
  find-ended now [] c h e = cc
  find-ended now (x ∷ xs) c h e =
      elim (find_head (live_in s empresa_id usuario_id) x c
        (find (live_in s empresa_id usuario_id) xs) e) [
          | inl (hit, same) ↦
              rw (hit, live_in_session x hit) (ap (λ z. some (end_conversation now z)) same)
          | inr (miss, later) ↦ elim (Bool-cases (in_session s x)) [
            | inr off ↦ rw (miss, off) (find-ended now xs c h.1 later)
            | inl on ↦
                let passes = find_passes (live_in s empresa_id usuario_id) xs c later in
                let same =
                  find_session (in_session s) (live_in s empresa_id usuario_id) s (x ∷ xs) x c h
                    (rw on refl) e on (live_in_session c passes) in
                let live =
                  subst (λ z. live_in s empresa_id usuario_id z ≡ true) (sym same) passes in
                absurd cc
          ]
        ]

  -- Once a user has closed a session, opening it again is refused as closed, whatever happens in
  -- between, and no such attempt writes anything.
  pub closed-refused :
      (db db' : Chats) (agent : Str) (i at now cutoff : ℕ)
      → AllApart db.conversations
      → (close_conversation s empresa_id usuario_id at db).0 ≡ true
      → Reach (close_conversation s empresa_id usuario_id at db).1 db'
      → get_or_create_conversation s empresa_id usuario_id agent i now cutoff db'
        ≡ (closed_error, db')
  unfolding close_conversation
  closed-refused db db' agent i at now cutoff h ok r =
      let (c, live) = any-find (live_in s empresa_id usuario_id) db.conversations ok in
      let passes = find_passes (live_in s empresa_id usuario_id) db.conversations c live in
      ended-refused s (end_conversation at c) (close_conversation s empresa_id usuario_id at db).1
        db' empresa_id usuario_id agent i now cutoff
        (Step-AllApart db _ (close_step s empresa_id usuario_id at) h) r
        (find-ended at db.conversations c h live) refl
      ∙ rw (live_in_owned c passes) refl
