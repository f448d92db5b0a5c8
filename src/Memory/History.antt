-- ===== src/Memory/History.antt =====
-- app/memory/short_term.py: the messages of a session. MongoDB's cursor is a parameter.
pub mod Latest
use mottainai_ia.Base.{
  Pairwise, ℕ, ◌+◌, ◌≤◌, ◌≡◌, ◌==◌, Bool, true, false, ◌&&◌, List, [], ◌∷◌, Option, none, some,
  if◌then◌else◌, keep, find, count, length, min, max, All, reverse, ◌++◌,
}
use mottainai_ia.Base.Int.{ℤ, eqb_ℤ}
use mottainai_ia.Text.Case.{Str, codes}
use mottainai_ia.Text.Search.{str_eq}
use mottainai_ia.Memory.Documents.{Turn, human, ai, system, Conversation, Message, Chats}
use mottainai_ia.Memory.Sessions.{in_session, owned_by}

abbrev pub NoNewer : Message → Message → Type 0
NoNewer a b = a.created_at ≤ b.created_at

-- `find(…, sort=[("createdAt", -1)]).limit(n)` of the matching documents: what it gives, what it
-- leaves, and what MongoDB documents of the two for a limit of at least 1.
pub record Cursor : Type 0 where
  pub newest : ℕ → List Message → List Message
  pub left : ℕ → List Message → List Message
  pub count_split :
      (n : ℕ) (ms : List Message) (p : Message → Bool)
      → count p (newest n ms) + count p (left n ms) ≡ count p ms
  pub length_newest : (n : ℕ) (ms : List Message) → 1 ≤ n → length (newest n ms) ≡ min n (length ms)
  pub newest_first : (n : ℕ) (ms : List Message) → Pairwise (λ a b. NoNewer b a) (newest n ms)
  pub left_older :
      (n : ℕ) (ms : List Message)
      → 1 ≤ n
      → All (λ m. All (λ x. NoNewer x m) (left n ms)) (newest n ms)

abbrev pub history_of : Str → ℤ → ℤ → Conversation → Bool
history_of session_id empresa_id usuario_id conv =
    in_session session_id conv && owned_by empresa_id usuario_id conv

abbrev pub in_thread : ℕ → Message → Bool
in_thread i m = m.conversation_id == i

-- The class of a message; a message of another role is left out.
unfoldable pub turn_of : Message → List Turn
turn_of m =
    if str_eq m.role (codes "user")
    then human m.content ∷ []
    else if str_eq m.role (codes "assistant")
    then ai m.content ∷ []
    else if str_eq m.role (codes "system")
    then system m.content ∷ []
    else []

unfoldable pub turns : List Message → List Turn
unfolding turn_of
turns [] = []
turns (m ∷ ms) = turn_of m ++ turns ms

module _ (cursor : Cursor) where
  open cursor use {newest}

  unfoldable pub load_history : Str → ℤ → ℤ → ℕ → Chats → List Turn
  unfolding turns
  load_history session_id empresa_id usuario_id limit db =
      elim (find (history_of session_id empresa_id usuario_id) db.conversations) [
        | none ↦ []
        | some conv ↦ turns (reverse (newest limit (keep (in_thread conv.id) db.messages)))
      ]

  abbrev pub in_records : ℕ → ℤ → Message → Bool
  in_records i empresa_id m = in_thread i m && eqb_ℤ m.tenant empresa_id

  -- Whole documents here; the query asks for four of their fields.
  unfoldable pub load_history_records : Str → ℤ → ℤ → ℕ → Chats → List Message
  load_history_records session_id empresa_id usuario_id limit db =
      elim (find (history_of session_id empresa_id usuario_id) db.conversations) [
        | none ↦ []
        | some conv ↦
            reverse
              (newest (max 1 (min limit 100)) (keep (in_records conv.id empresa_id) db.messages))
      ]
