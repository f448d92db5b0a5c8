-- ===== src/Memory/Sessions.antt =====
-- app/memory/short_term.py: sessions. `_utcnow()` is read anew for each use, so an operation has one
-- argument per reading; the identifier of a new document is MongoDB's choice and an argument too.
pub mod Steps
pub mod Ended
pub mod Owners
use mottainai_ia.Base.{
  ℕ, ◌+◌, ◌-◌, ◌*◌, Bool, true, false, not, ◌&&◌, ◌||◌, List, [], ◌∷◌, ◌++◌, Option, none, some,
  if◌then◌else◌, ltb, find, update_first, any,
}
use mottainai_ia.Base.Int.{ℤ, eqb_ℤ}
use mottainai_ia.Text.Case.{Str}
use mottainai_ia.Text.Search.{str_eq}
use mottainai_ia.Memory.Documents.{
  Source, Status, active, closed, expired, Conversation, Message, Chats,
}

abbrev pub is_active : Status → Bool
is_active active = true
is_active closed = false
is_active expired = false

abbrev pub in_session : Str → Conversation → Bool
in_session session_id conv = str_eq conv.session_id session_id

abbrev pub owned_by : ℤ → ℤ → Conversation → Bool
owned_by empresa_id usuario_id conv =
    eqb_ℤ conv.empresa_id empresa_id && eqb_ℤ conv.usuario_id usuario_id

abbrev pub has_id : ℕ → Conversation → Bool
has_id i conv = if ltb conv.id i then false else if ltb i conv.id then false else true

-- `_expiration_cutoff`, with the ticks of a minute.
unfoldable pub expiration_cutoff : ℕ → ℕ → ℕ → ℕ
expiration_cutoff minute session_timeout_minutes now = now - session_timeout_minutes * minute

-- `conv.get("lastInteraction", conv["startedAt"])`
unfoldable pub last_seen : Conversation → ℕ
last_seen conv = elim conv.last_interaction [ none ↦ conv.started_at | some t ↦ t ]

-- What `get_or_create_conversation` returns or raises.
pub data Opened : Type 0 where
  opened : Option Conversation → Opened
  ownership_error : Opened
  closed_error : Opened
  inactivity_error : Opened

abbrev pub expire_conversation : ℕ → Conversation → Conversation
expire_conversation now conv = record conv { status = expired; ended_at = some now }

abbrev pub new_conversation : ℕ → Str → ℤ → ℤ → Str → ℕ → Conversation
new_conversation i session_id empresa_id usuario_id agent now = record {
  id = i;
  session_id = session_id;
  empresa_id = empresa_id;
  usuario_id = usuario_id;
  agent = some agent;
  status = active;
  started_at = now;
  last_interaction = some now;
  ended_at = none;
}

-- The branch for a conversation that exists.
unfoldable pub resume : ℤ → ℤ → ℕ → ℕ → Conversation → Chats → Opened × Chats
unfolding last_seen
resume empresa_id usuario_id now cutoff conv db =
    if not (owned_by empresa_id usuario_id conv)
    then (ownership_error, db)
    else if not (is_active conv.status)
    then (closed_error, db)
    else if ltb (last_seen conv) cutoff
    then (
      inactivity_error,
      record db {
        conversations = update_first (has_id conv.id) (expire_conversation now) db.conversations;
      },
    )
    else (opened (some conv), db)

abbrev pub insert_conversation : Conversation → Chats → Chats
insert_conversation conv db = record db { conversations = db.conversations ++ (conv ∷ []) }

unfoldable pub get_or_create_conversation : Str → ℤ → ℤ → Str → ℕ → ℕ → ℕ → Chats → Opened × Chats
unfolding resume
get_or_create_conversation session_id empresa_id usuario_id agent i now cutoff db =
    elim (find (in_session session_id) db.conversations) [
      | some conv ↦ resume empresa_id usuario_id now cutoff conv db
      | none ↦
          let db' =
            insert_conversation (new_conversation i session_id empresa_id usuario_id agent now)
              db in
          (opened (find (in_session session_id) db'.conversations), db')
    ]

-- `agent or conv.get("agent")`
unfoldable pub agent_or : Option Str → Option Str → Option Str
agent_or none old = old
agent_or (some []) old = old
agent_or (some (c ∷ s)) old = some (c ∷ s)

abbrev pub touch : Option Str → ℕ → Conversation → Conversation
touch agent now conv = record conv {
  last_interaction = some now;
  agent = agent_or agent conv.agent;
}

abbrev pub live_in : Str → ℤ → ℤ → Conversation → Bool
live_in session_id empresa_id usuario_id conv =
    in_session session_id conv && (owned_by empresa_id usuario_id conv && is_active conv.status)

-- The arguments of `save_message` after the owner; `skill` and `model` are never given.
pub record Saying : Type 0 where
  pub role : Str
  pub content : Str
  pub agent : Option Str
  pub input_tokens : Option ℕ
  pub output_tokens : Option ℕ
  pub sources : List Source

unfoldable pub append_message : Saying → ℕ → Conversation → Chats → Chats
append_message saying now conv db = record {
  conversations = update_first (has_id conv.id) (touch saying.agent now) db.conversations;
  messages =
      db.messages
      ++ (record {
        tenant = conv.empresa_id;
        conversation_id = conv.id;
        role = saying.role;
        content = saying.content;
        sender = saying.agent;
        sources = saying.sources;
        input_tokens = saying.input_tokens;
        output_tokens = saying.output_tokens;
        created_at = now;
      }
          ∷ []);
}

unfoldable pub save_message : Str → ℤ → ℤ → Saying → ℕ → Chats → Chats
unfolding append_message
save_message session_id empresa_id usuario_id saying now db =
    elim (find (live_in session_id empresa_id usuario_id) db.conversations) [
      | none ↦ db
      | some conv ↦ append_message saying now conv db
    ]

-- `get_conversation`, as `opened` or `ownership_error`.
unfoldable pub get_conversation : Str → ℤ → ℤ → Chats → Opened
get_conversation session_id empresa_id usuario_id db =
    elim (find (in_session session_id) db.conversations) [
      | none ↦ opened none
      | some conv ↦
          if owned_by empresa_id usuario_id conv then opened (some conv) else ownership_error
    ]

abbrev pub end_conversation : ℕ → Conversation → Conversation
end_conversation now conv = record conv { status = closed; ended_at = some now }

-- The result is `modified_count == 1`: the update of a matching document changes its status.
unfoldable pub close_conversation : Str → ℤ → ℤ → ℕ → Chats → Bool × Chats
close_conversation session_id empresa_id usuario_id now db = (
  any (live_in session_id empresa_id usuario_id) db.conversations,
  record db {
    conversations =
        update_first (live_in session_id empresa_id usuario_id) (end_conversation now)
          db.conversations;
  },
)
