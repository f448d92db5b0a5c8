-- ===== src/Memory/Sessions/Ended.antt =====
-- A session that was closed or has expired stays so, with its document as it was.
use mottainai_ia.Base.{
  ℕ, ◌≡◌, refl, sym, ◌∙◌, subst, inl, inr, Bool, true, false, List, [], ◌∷◌, some, if◌then◌else◌,
  find, update_first, arith, Bool-cases, Option-cases, find_passes, find-append, find-update_first,
}
use mottainai_ia.Base.Int.{ℤ}
use mottainai_ia.Text.Case.{Str}
use mottainai_ia.Memory.Documents.{Conversation, Chats}
use mottainai_ia.Memory.Sessions.{
  closed_error, ownership_error, owned_by, in_session, has_id, resume, expire_conversation,
  new_conversation, get_or_create_conversation, touch, append_message, end_conversation,
  close_conversation, live_in, is_active,
}
use mottainai_ia.Memory.Sessions.Steps.{
  Step, open_step, save_step, close_step, Reach, here, then_step, AllApart, Reach-AllApart,
  get_or_create-found, get_or_create-new, save_message-found, save_message-none, has_id_eq,
  find-Apart,
}

true-not-false : (b : Bool) → b ≡ true → b ≡ false → ⊥
true-not-false b h g = cc

-- The live document that an operation changes is not the ended one.
other_id :
    (p : Conversation → Bool) (session_id : Str) (xs : List Conversation) (a c : Conversation)
    → AllApart xs
    → find p xs ≡ some a
    → is_active a.status ≡ true
    → find (in_session session_id) xs ≡ some c
    → is_active c.status ≡ false
    → has_id a.id c ≡ false
other_id p session_id xs a c h ea live ec ended = elim (Bool-cases (has_id a.id c)) [
  | inr no_match ↦ no_match
  | inl match ↦ absurd (
      true-not-false (is_active c.status)
        (subst (λ z. is_active z.status ≡ true)
          (find-Apart p (in_session session_id) xs a c h ea ec
            (λ d. d.0 (sym (has_id_eq a.id c match))) (λ d. d.0 (has_id_eq a.id c match)))
          live)
        ended)
]

abbrev IsEnded : Str → Conversation → Chats → Type 0
IsEnded session_id c db =
    (find (in_session session_id) db.conversations ≡ some c) × (is_active c.status ≡ false)

-- A change of a live document, found by its identifier.
ended-change :
    (p : Conversation → Bool) (f : Conversation → Conversation) (session_id : Str)
    (xs : List Conversation) (a c : Conversation)
    → ((x : Conversation) → in_session session_id (f x) ≡ in_session session_id x)
    → AllApart xs
    → find p xs ≡ some a
    → is_active a.status ≡ true
    → find (in_session session_id) xs ≡ some c
    → is_active c.status ≡ false
    → find (in_session session_id) (update_first (has_id a.id) f xs) ≡ some c
ended-change p f session_id xs a c unseen h ea live ec ended =
    find-update_first (in_session session_id) (has_id a.id) f unseen xs c ec
      (other_id p session_id xs a c h ea live ec ended)

ended-resume :
    (s t : Str) (empresa_id usuario_id : ℤ) (now cutoff : ℕ) (conv c : Conversation) (db : Chats)
    → AllApart db.conversations
    → find (in_session t) db.conversations ≡ some conv
    → IsEnded s c db
    → find (in_session s) (resume empresa_id usuario_id now cutoff conv db).1.conversations ≡ some c
unfolding resume
ended-resume s t empresa_id usuario_id now cutoff conv c db h e ended = ground (
  arith,
  ended-change (in_session t) (expire_conversation now) s db.conversations conv c (λ x. refl) h e,
)

live_in_active :
    (s : Str) (empresa_id usuario_id : ℤ) (c : Conversation)
    → live_in s empresa_id usuario_id c ≡ true
    → is_active c.status ≡ true
live_in_active s empresa_id usuario_id c h = ground arith

ended_not_live :
    (s : Str) (empresa_id usuario_id : ℤ) (c : Conversation)
    → is_active c.status ≡ false
    → live_in s empresa_id usuario_id c ≡ false
ended_not_live s empresa_id usuario_id c h = ground arith

Step-IsEnded :
    (s : Str) (c : Conversation) (db db' : Chats)
    → Step db db'
    → AllApart db.conversations
    → IsEnded s c db
    → IsEnded s c db'
unfolding append_message close_conversation
Step-IsEnded s c db _ (open_step t empresa_id usuario_id agent i now cutoff fresh) h (e, ended) =
    elim (Option-cases (find (in_session t) db.conversations)) [
      | inl new ↦ (
        subst (λ r. find (in_session s) r.1.conversations ≡ some c)
            (sym (get_or_create-new t empresa_id usuario_id agent i now cutoff db new))
            (find-append (in_session s) db.conversations
              (new_conversation i t empresa_id usuario_id agent now ∷ []) c e),
        ended,
      )
      | inr (conv, old) ↦ (
        subst (λ r. find (in_session s) r.1.conversations ≡ some c)
            (sym (get_or_create-found t empresa_id usuario_id agent i now cutoff db conv old))
            (ended-resume s t empresa_id usuario_id now cutoff conv c db h old (e, ended)),
        ended,
      )
    ]
Step-IsEnded s c db _ (save_step t empresa_id usuario_id saying now) h (e, ended) =
    elim (Option-cases (find (live_in t empresa_id usuario_id) db.conversations)) [
      | inl no_live ↦ (
        subst (λ r. find (in_session s) r.conversations ≡ some c)
            (sym (save_message-none t empresa_id usuario_id saying now db no_live)) e,
        ended,
      )
      | inr (conv, live) ↦ (
        subst (λ r. find (in_session s) r.conversations ≡ some c)
            (sym (save_message-found t empresa_id usuario_id saying now db conv live))
            (ended-change (live_in t empresa_id usuario_id) (touch saying.agent now) s
              db.conversations conv c (λ x. refl) h live
              (live_in_active t empresa_id usuario_id conv
                (find_passes (live_in t empresa_id usuario_id) db.conversations conv live))
              e ended),
        ended,
      )
    ]
Step-IsEnded s c db _ (close_step t empresa_id usuario_id now) h (e, ended) = (
  find-update_first (in_session s) (live_in t empresa_id usuario_id) (end_conversation now)
      (λ x. refl) db.conversations c e (ended_not_live t empresa_id usuario_id c ended),
  ended,
)

-- A session that is closed or expired stays so with its document unchanged, whatever the users do
-- afterwards.
pub ended-stays :
    (s : Str) (c : Conversation) (db db' : Chats)
    → AllApart db.conversations
    → Reach db db'
    → find (in_session s) db.conversations ≡ some c
    → is_active c.status ≡ false
    → find (in_session s) db'.conversations ≡ some c
ended-stays s c db db' h r e ended = (go db' r).0
  where
    go : (db' : Chats) → Reach db db' → IsEnded s c db'
    go _ here = (e, ended)
    go _ (then_step {db'} {db''} r step) =
        Step-IsEnded s c db' db'' step (Reach-AllApart db db' r h) (go db' r)

-- Whoever opens an ended session is refused: its owner because it is closed, anyone else because it
-- is not theirs; nothing is written.
pub ended-refused :
    (s : Str) (c : Conversation) (db db' : Chats) (empresa_id usuario_id : ℤ) (agent : Str)
    (i now cutoff : ℕ)
    → AllApart db.conversations
    → Reach db db'
    → find (in_session s) db.conversations ≡ some c
    → is_active c.status ≡ false
    → get_or_create_conversation s empresa_id usuario_id agent i now cutoff db'
      ≡ (if owned_by empresa_id usuario_id c then closed_error else ownership_error, db')
unfolding resume
ended-refused s c db db' empresa_id usuario_id agent i now cutoff h r e ended =
    get_or_create-found s empresa_id usuario_id agent i now cutoff db' c
      (ended-stays s c db db' h r e ended)
    ∙ ground arith
