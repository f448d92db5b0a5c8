-- ===== src/Tests/Memory.antt =====
-- Sessions, their history and the long-term memory.
use mottainai_ia.Base.{
  Pairwise, ℕ, ◌+◌, ◌≤◌, ◌≡◌, ◌⊎◌, refl, Bool, List, [], ◌∷◌, none, some, false, count, length, min,
  max, All, arith, find,
}
use mottainai_ia.Base.Int.{ℤ, pos}
use mottainai_ia.Text.Case.{Str, codes}
use mottainai_ia.Text.Search.{str_eq}
use mottainai_ia.Memory.Documents.{Conversation, Message, Chats}
use mottainai_ia.Memory.Sessions.{
  ownership_error, closed_error, in_session, Saying, new_conversation, end_conversation,
  get_or_create_conversation, get_conversation, save_message, close_conversation,
}
use mottainai_ia.Memory.Sessions.Steps.{open_step, Reach, here, then_step, AllApart}
use mottainai_ia.Memory.Sessions.Ended.{ended-stays}
use mottainai_ia.Memory.Sessions.Owners.{stranger-isolated, closed-refused}
use mottainai_ia.Memory.History.{NoNewer, load_history_records}
use mottainai_ia.Memory.History.Latest.{load_history_records-newest, thread}
use mottainai_ia.Memory.LongTerm.{load_memory}
use mottainai_ia.Memory.LongTerm.Grown.{
  UpdateCall, run_updates, own_updates, load_memory-run_updates,
}
use mottainai_ia.Memory.Extractor.{extract_memories, normalize, sensitive}
use mottainai_ia.Memory.Extractor.Kept.{Storable, extract_memories-Storable}
use mottainai_ia.Text.Regex.{found}
use mottainai_ia.Tests.Instances.{sorted_cursor}

abbrev talk : Str
talk = codes "s1"

abbrev ana : Conversation
ana = new_conversation 1 talk (pos 4) (pos 9) (codes "pending") 100

abbrev other_talk : Conversation
other_talk = new_conversation 2 (codes "s2") (pos 4) (pos 8) (codes "pending") 50

abbrev ana_closed : Conversation
ana_closed = end_conversation 200 ana

abbrev hello : ℕ → Message
hello n = record {
  tenant = pos 4;
  conversation_id = 1;
  role = codes "user";
  content = codes "oi";
  sender = none;
  sources = [];
  input_tokens = none;
  output_tokens = none;
  created_at = n;
}

abbrev live_db : Chats
live_db = record {
  conversations = other_talk ∷ ana ∷ [];
  messages = hello 3 ∷ hello 7 ∷ hello 5 ∷ [];
}

abbrev closed_db : Chats
closed_db = record { conversations = other_talk ∷ ana_closed ∷ []; messages = [] }

abbrev said : Saying
said = record {
  role = codes "user";
  content = codes "oi";
  agent = none;
  input_tokens = none;
  output_tokens = none;
  sources = [];
}

apart : AllApart (other_talk ∷ ana ∷ [])
apart = (((λ e. omega (arith, e), λ e. ground (arith, e)), tt), (tt, tt))

apart_closed : AllApart (other_talk ∷ ana_closed ∷ [])
apart_closed = (((λ e. omega (arith, e), λ e. ground (arith, e)), tt), (tt, tt))

stranger-isolated_example :
    (get_or_create_conversation talk (pos 4) (pos 8) (codes "pending") 5 150 120 live_db
      ≡ (ownership_error, live_db))
    × (get_conversation talk (pos 4) (pos 8) live_db ≡ ownership_error)
    × (save_message talk (pos 4) (pos 8) said 150 live_db ≡ live_db)
    × (close_conversation talk (pos 4) (pos 8) 150 live_db ≡ (false, live_db))
unfolding str_eq
stranger-isolated_example =
    stranger-isolated talk (pos 4) (pos 8) ana live_db (codes "pending") 5 150 120 said apart refl
      refl

abbrev after_close : Chats
after_close = (close_conversation talk (pos 4) (pos 9) 200 live_db).1

closed-refused_example :
    get_or_create_conversation talk (pos 4) (pos 9) (codes "pending") 5 250 120 after_close
    ≡ (closed_error, after_close)
unfolding str_eq close_conversation
closed-refused_example =
    closed-refused talk (pos 4) (pos 9) live_db after_close (codes "pending") 5 200 250 120 apart
      refl here

abbrev third : Str
third = codes "s3"

abbrev with_third : Chats
with_third =
    (get_or_create_conversation third (pos 4) (pos 7) (codes "pending") 3 300 120 closed_db).1

opens_third : Reach closed_db with_third
opens_third = then_step here (open_step third (pos 4) (pos 7) (codes "pending") 3 300 120 refl)

ended-stays_example : find (in_session talk) with_third.conversations ≡ some ana_closed
unfolding str_eq
ended-stays_example =
    ended-stays talk ana_closed closed_db with_third apart_closed opens_third refl refl

load_history_records-newest_example :
    (left : List Message) × ((p : Message → Bool)
      → count p (load_history_records sorted_cursor talk (pos 4) (pos 9) 2 live_db) + count p left
        ≡ count p (thread sorted_cursor talk (pos 4) (pos 9) 2 live_db ana))
    × (length (load_history_records sorted_cursor talk (pos 4) (pos 9) 2 live_db)
        ≡ min
            (max 1 (min 2 100))
            (length (thread sorted_cursor talk (pos 4) (pos 9) 2 live_db ana)))
    × Pairwise NoNewer (load_history_records sorted_cursor talk (pos 4) (pos 9) 2 live_db)
    × All
        (λ m. All (λ x. NoNewer x m) left)
        (load_history_records sorted_cursor talk (pos 4) (pos 9) 2 live_db)
unfolding str_eq
load_history_records-newest_example =
    load_history_records-newest sorted_cursor talk (pos 4) (pos 9) 2 live_db ana refl

abbrev likes : ℤ → UpdateCall
likes u = record {
  empresa_id = pos 4;
  usuario_id = u;
  change = record {
    new_preference = some (codes "prefiro doces");
    new_fact = none;
    set_agent = some (codes "faq");
    set_skill = none;
  };
  now = 10;
}

abbrev calls : List UpdateCall
calls = likes (pos 9) ∷ likes (pos 8) ∷ likes (pos 9) ∷ []

load_memory-run_updates_example :
    load_memory (pos 4) (pos 9) (run_updates calls [])
    ≡ own_updates (pos 4) (pos 9) calls (load_memory (pos 4) (pos 9) [])
load_memory-run_updates_example = load_memory-run_updates (pos 4) (pos 9) calls []

abbrev statement : Str
statement = codes "Eu prefiro doces sem lactose!"

extract_memories-Storable_example :
    All Storable (extract_memories statement).preferences
    × All Storable (extract_memories statement).facts
    × (length (extract_memories statement).preferences ≤ 1)
    × (length (extract_memories statement).facts ≤ 1)
    × ((found sensitive (normalize statement) ≡ false)
        ⊎ ((extract_memories statement).preferences ≡ [])
          × ((extract_memories statement).facts ≡ []))
extract_memories-Storable_example = extract_memories-Storable statement
