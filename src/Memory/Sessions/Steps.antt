-- ===== src/Memory/Sessions/Steps.antt =====
-- The operations on sessions as steps, and that no two sessions share a name or an identifier.
use mottainai_ia.Base.{
  ℕ, ◌≡◌, ◌≢◌, refl, sym, ◌∙◌, subst, inl, inr, Bool, true, false, List, [], ◌∷◌, ◌++◌, Option,
  none, some, if◌then◌else◌, find, update_first, any, All, All-map, arith, Option-cases, find_head,
  find-All,
}
use mottainai_ia.Base.Int.{ℤ}
use mottainai_ia.Text.Case.{Str}
use mottainai_ia.Text.Search.{str_eq_iff}
use mottainai_ia.Memory.Documents.{Conversation, Chats}
use mottainai_ia.Memory.Sessions.{
  opened, in_session, has_id, resume, expire_conversation, new_conversation, insert_conversation,
  get_or_create_conversation, touch, append_message, save_message, Saying, end_conversation,
  close_conversation, live_in,
}

-- One operation of some user; a new document has an identifier of its own.
pub data Step (db : Chats) : Chats → Type 0 where
  open_step :
      (session_id : Str) (empresa_id usuario_id : ℤ) (agent : Str) (i now cutoff : ℕ)
      → any (has_id i) db.conversations ≡ false
      → Step db
          (get_or_create_conversation session_id empresa_id usuario_id agent i now cutoff db).1
  save_step :
      (session_id : Str) (empresa_id usuario_id : ℤ) (saying : Saying) (now : ℕ)
      → Step db (save_message session_id empresa_id usuario_id saying now db)
  close_step :
      (session_id : Str) (empresa_id usuario_id : ℤ) (now : ℕ)
      → Step db (close_conversation session_id empresa_id usuario_id now db).1

pub data Reach (db : Chats) : Chats → Type 0 where
  here : Reach db db
  then_step : {db' db'' : Chats} → Reach db db' → Step db' db'' → Reach db db''

abbrev pub Apart : Conversation → Conversation → Type 0
Apart a b = (a.id ≢ b.id) × (a.session_id ≢ b.session_id)

-- No two documents share an identifier or a session.
abbrev pub AllApart : List Conversation → Type 0
AllApart [] = Unit
AllApart (a ∷ rest) = All (λ b. Apart a b) rest × AllApart rest

pub record KeepsNames (f : Conversation → Conversation) : Type 0 where
  pub same_id : (c : Conversation) → (f c).id ≡ c.id
  pub same_session : (c : Conversation) → (f c).session_id ≡ c.session_id

abbrev pub touch-KeepsNames : (agent : Option Str) (now : ℕ) → KeepsNames (touch agent now)
touch-KeepsNames agent now = record { same_id = λ c. refl; same_session = λ c. refl }

abbrev pub expire-KeepsNames : (now : ℕ) → KeepsNames (expire_conversation now)
expire-KeepsNames now = record { same_id = λ c. refl; same_session = λ c. refl }

abbrev pub end-KeepsNames : (now : ℕ) → KeepsNames (end_conversation now)
end-KeepsNames now = record { same_id = λ c. refl; same_session = λ c. refl }

Apart-left :
    (f : Conversation → Conversation) (k : KeepsNames f) (a b : Conversation)
    → Apart a b
    → Apart (f a) b
Apart-left f k a b h = (λ e. h.0 (sym (k.same_id a) ∙ e), λ e. h.1 (sym (k.same_session a) ∙ e))

Apart-right :
    (f : Conversation → Conversation) (k : KeepsNames f) (a b : Conversation)
    → Apart a b
    → Apart a (f b)
Apart-right f k a b h = (λ e. h.0 (e ∙ k.same_id b), λ e. h.1 (e ∙ k.same_session b))

if_All :
    (P : Conversation → Type 0) (t : Bool) (x y : Conversation) (xs ys : List Conversation)
    → P x × All P xs
    → P y × All P ys
    → All P (if t then x ∷ xs else y ∷ ys)
if_All P true x y xs ys h g = h
if_All P false x y xs ys h g = g

All-update :
    (p : Conversation → Bool) (f : Conversation → Conversation) (k : KeepsNames f)
    (a : Conversation) (xs : List Conversation)
    → All (λ b. Apart a b) xs
    → All (λ b. Apart a b) (update_first p f xs)
All-update p f k a [] h = tt
All-update p f k a (x ∷ xs) h =
    if_All (λ b. Apart a b) (p x) (f x) x xs (update_first p f xs) (Apart-right f k a x h.0, h.1)
      (h.0, All-update p f k a xs h.1)

if_AllApart :
    (t : Bool) (xs ys : List Conversation)
    → AllApart xs
    → AllApart ys
    → AllApart (if t then xs else ys)
if_AllApart true xs ys h g = h
if_AllApart false xs ys h g = g

pub AllApart-update :
    (p : Conversation → Bool) (f : Conversation → Conversation) (k : KeepsNames f)
    (xs : List Conversation)
    → AllApart xs
    → AllApart (update_first p f xs)
AllApart-update p f k [] h = tt
AllApart-update p f k (x ∷ xs) h =
    if_AllApart (p x) (f x ∷ xs) (x ∷ update_first p f xs)
      (All-map (λ b. Apart-left f k x b) xs h.0, h.1)
      (All-update p f k x xs h.0, AllApart-update p f k xs h.1)

pub has_id_refl : (c : Conversation) → has_id c.id c ≡ true
has_id_refl c = ground arith

pub has_id_eq : (i : ℕ) (c : Conversation) → has_id i c ≡ true → c.id ≡ i
has_id_eq i c h = ground arith

-- What is in the list already is apart from a document with a fresh identifier and session.
Apart-fresh :
    (x c : Conversation) → has_id c.id x ≡ false → in_session c.session_id x ≡ false → Apart x c
Apart-fresh x c no_id no_session = (
  λ e. ground arith,
  λ e. true≢false (sym ((str_eq_iff x.session_id c.session_id).1 e) ∙ no_session),
)
  where
    true≢false : true ≢ false
    true≢false e = cc

All-snoc :
    (P : Conversation → Type 0) (xs : List Conversation) (c : Conversation)
    → All P xs
    → P c
    → All P (xs ++ (c ∷ []))
All-snoc P [] c h p = (p, tt)
All-snoc P (x ∷ xs) c h p = (h.0, All-snoc P xs c h.1 p)

AllApart-snoc :
    (xs : List Conversation) (c : Conversation)
    → AllApart xs
    → any (has_id c.id) xs ≡ false
    → find (in_session c.session_id) xs ≡ none
    → AllApart (xs ++ (c ∷ []))
AllApart-snoc [] c h no_id no_session = (tt, tt)
AllApart-snoc (x ∷ xs) c h no_id no_session = (
  All-snoc (λ b. Apart x b) xs c h.0 (Apart-fresh x c (ground arith) (ground arith)),
  AllApart-snoc xs c h.1 (ground arith) (ground arith),
)

-- The branches of the two operations that begin with a `find_one`.
module _ (session_id : Str) (empresa_id usuario_id : ℤ) (agent : Str) (i now cutoff : ℕ)
    (db : Chats) where
  pub get_or_create-found :
      (conv : Conversation)
      → find (in_session session_id) db.conversations ≡ some conv
      → get_or_create_conversation session_id empresa_id usuario_id agent i now cutoff db
        ≡ resume empresa_id usuario_id now cutoff conv db
  unfolding get_or_create_conversation
  get_or_create-found conv e = rw (e, get_or_create_conversation) refl

  pub get_or_create-new :
      find (in_session session_id) db.conversations ≡ none
      → get_or_create_conversation session_id empresa_id usuario_id agent i now cutoff db ≡ (
          let db' =
            insert_conversation
              (new_conversation i session_id empresa_id usuario_id agent now)
              db in
          (opened (find (in_session session_id) db'.conversations), db'))
  unfolding get_or_create_conversation
  get_or_create-new e = rw (e, get_or_create_conversation) refl

module _ (session_id : Str) (empresa_id usuario_id : ℤ) (saying : Saying) (now : ℕ)
    (db : Chats) where
  pub save_message-found :
      (conv : Conversation)
      → find (live_in session_id empresa_id usuario_id) db.conversations ≡ some conv
      → save_message session_id empresa_id usuario_id saying now db
        ≡ append_message saying now conv db
  unfolding save_message
  save_message-found conv e = rw (e, save_message) refl

  pub save_message-none :
      find (live_in session_id empresa_id usuario_id) db.conversations ≡ none
      → save_message session_id empresa_id usuario_id saying now db ≡ db
  unfolding save_message
  save_message-none e = rw (e, save_message) refl

AllApart-resume :
    (empresa_id usuario_id : ℤ) (now cutoff : ℕ) (conv : Conversation) (db : Chats)
    → AllApart db.conversations
    → AllApart (resume empresa_id usuario_id now cutoff conv db).1.conversations
unfolding resume
AllApart-resume empresa_id usuario_id now cutoff conv db h = ground (
  arith,
  AllApart-update (has_id conv.id) (expire_conversation now) (expire-KeepsNames now)
      db.conversations h,
)

-- Every operation keeps the sessions apart, whoever calls it.
pub Step-AllApart :
    (db db' : Chats) → Step db db' → AllApart db.conversations → AllApart db'.conversations
unfolding append_message close_conversation
Step-AllApart db _ (open_step session_id empresa_id usuario_id agent i now cutoff fresh) h =
    elim (Option-cases (find (in_session session_id) db.conversations)) [
      | inl e ↦
          subst (λ r. AllApart r.1.conversations)
            (sym (get_or_create-new session_id empresa_id usuario_id agent i now cutoff db e))
            (AllApart-snoc db.conversations
              (new_conversation i session_id empresa_id usuario_id agent now) h fresh e)
      | inr (conv, e) ↦
          subst (λ r. AllApart r.1.conversations)
            (sym
              (get_or_create-found session_id empresa_id usuario_id agent i now cutoff db conv e))
            (AllApart-resume empresa_id usuario_id now cutoff conv db h)
    ]
Step-AllApart db _ (save_step session_id empresa_id usuario_id saying now) h =
    elim (Option-cases (find (live_in session_id empresa_id usuario_id) db.conversations)) [
      | inl e ↦
          subst (λ r. AllApart r.conversations)
            (sym (save_message-none session_id empresa_id usuario_id saying now db e)) h
      | inr (conv, e) ↦
          subst (λ r. AllApart r.conversations)
            (sym (save_message-found session_id empresa_id usuario_id saying now db conv e))
            (AllApart-update (has_id conv.id) (touch saying.agent now)
              (touch-KeepsNames saying.agent now) db.conversations h)
    ]
Step-AllApart db _ (close_step session_id empresa_id usuario_id now) h =
    AllApart-update (live_in session_id empresa_id usuario_id) (end_conversation now)
      (end-KeepsNames now) db.conversations h

-- Starting from a database without sessions, no two sessions ever share a name or an identifier.
pub Reach-AllApart :
    (db db' : Chats) → Reach db db' → AllApart db.conversations → AllApart db'.conversations
Reach-AllApart db _ here h = h
Reach-AllApart db _ (then_step {db'} {db''} r s) h =
    Step-AllApart db' db'' s (Reach-AllApart db db' r h)

-- Two documents found by two tests are one if they clash.
pub find-Apart :
    (p q : Conversation → Bool) (xs : List Conversation) (a b : Conversation)
    → AllApart xs
    → find p xs ≡ some a
    → find q xs ≡ some b
    → ¬ Apart a b
    → ¬ Apart b a
    → a ≡ b
find-Apart p q [] a b h ea eb clash clash' = cc
find-Apart p q (x ∷ xs) a b h ea eb clash clash' = elim (find_head p x a (find p xs) ea) [
  | inl (_, here_a) ↦ elim (find_head q x b (find q xs) eb) [
    | inl (_, here_b) ↦ sym here_a ∙ here_b
    | inr (_, later_b) ↦
        absurd
          (clash (subst (λ z. Apart z b) here_a (find-All q (λ y. Apart x y) xs b h.0 later_b)))
  ]
  | inr (_, later_a) ↦ elim (find_head q x b (find q xs) eb) [
    | inl (_, here_b) ↦
        absurd
          (clash' (subst (λ z. Apart z a) here_b (find-All p (λ y. Apart x y) xs a h.0 later_a)))
    | inr (_, later_b) ↦ find-Apart p q xs a b h.1 later_a later_b clash clash'
  ]
]

-- Two documents of one session are one.
pub find_session :
    (p q : Conversation → Bool) (s : Str) (xs : List Conversation) (a b : Conversation)
    → AllApart xs
    → find p xs ≡ some a
    → find q xs ≡ some b
    → in_session s a ≡ true
    → in_session s b ≡ true
    → a ≡ b
find_session p q s xs a b h ea eb ia ib =
    find-Apart p q xs a b h ea eb (λ d. d.1 same) (λ d. d.1 (sym same))
  where
    same : a.session_id ≡ b.session_id
    same = (str_eq_iff a.session_id s).0 ia ∙ sym ((str_eq_iff b.session_id s).0 ib)
