-- ===== src/Memory/Documents.antt =====
-- The documents that app/memory/short_term.py and app/memory/long_term.py read and write. An
-- instant is a number of ticks of the clock.
use mottainai_ia.Base.{ℕ, List, Option}
use mottainai_ia.Base.Int.{ℤ}
use mottainai_ia.Text.Case.{Str}

pub record Source : Type 0 where
  pub kind : Str
  pub reference : Str

-- `HumanMessage`, `AIMessage` and `SystemMessage`
pub data Turn : Type 0 where
  human : Str → Turn
  ai : Str → Turn
  system : Str → Turn

-- `status` is one of these texts.
pub data Status : Type 0 where
  active : Status
  closed : Status
  expired : Status

pub record Conversation : Type 0 where
  pub id : ℕ
  pub session_id : Str
  pub empresa_id : ℤ
  pub usuario_id : ℤ
  pub agent : Option Str
  pub status : Status
  pub started_at : ℕ
  pub last_interaction : Option ℕ
  pub ended_at : Option ℕ

pub record Message : Type 0 where
  pub tenant : ℤ
  pub conversation_id : ℕ
  pub role : Str
  pub content : Str
  pub sender : Option Str
  pub sources : List Source
  pub input_tokens : Option ℕ
  pub output_tokens : Option ℕ
  pub created_at : ℕ

-- The collections `conversations` and `messages`, in the order of insertion.
pub record Chats : Type 0 where
  pub conversations : List Conversation
  pub messages : List Message

-- What `load_memory` returns.
pub record Memory : Type 0 where
  pub preferences : List Str
  pub facts : List Str
  pub last_agent : Option Str
  pub last_skill : Option Str

-- A document of `memories`, under its unique key.
pub record Stored : Type 0 where
  pub owner_empresa : ℤ
  pub owner_usuario : ℤ
  pub memory : Memory
  pub updated_at : ℕ
