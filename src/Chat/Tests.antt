-- ===== src/Chat/Tests.antt =====
-- A service over tables in memory, and one conversation with it.
pub mod Histories
pub mod Requests
pub mod Timers
pub mod Calls
use inline_chat.Prelude.{ℕ, refl, true, false, none, some, List, [], ◌*◌}
use inline_chat.Chat.Model.{Conversation, Message, EventOutbox}
use inline_chat.Chat.World.{
  World, Service, ConversationFills, same_client_msg, MessageFills, EventFills,
}
use inline_chat.Store.Memory.{memory_table}

abbrev pub fill_conversation : ℕ → Conversation → Conversation
fill_conversation n c = record c { id = n }

-- Row n is made at time 100 n.
abbrev pub fill_message : ℕ → Message → Message
fill_message n m = record m { id = n; created_at = n * 100 }

abbrev pub fill_event : ℕ → EventOutbox → EventOutbox
fill_event n e = record e { id = n }

abbrev pub Memory : Type 0
Memory = World (List Conversation) (List Message) (List EventOutbox)

-- Closes after 1000 units of silence; nothing fails.
abbrev pub service : Service (List Conversation) (List Message) (List EventOutbox)
service = record {
  conversation_table =
      memory_table (λ c. c.id) (λ c d. false) fill_conversation ConversationFills (λ n c. refl)
        (λ n c. refl);
  message_table =
      memory_table (λ m. m.id) same_client_msg fill_message MessageFills (λ n m. refl)
        (λ n m. refl);
  outbox_table =
      memory_table (λ e. e.id) (λ e f. false) fill_event EventFills (λ n e. refl) (λ n e. refl);
  begin_fault = λ s. none;
  commit_fault = λ s. none;
  lock = λ key. none;
  outbox_enabled = true;
  has_notifier = true;
  has_scheduler = true;
  auto_close_after = 1000;
}

-- Conversation 1 is open and belongs to agent 7.
abbrev pub owned : Conversation
owned = record {
  id = 1;
  site_id = "site_test";
  visitor_token = "v1";
  status = "open";
  assigned_agent_id = some 7;
  pending_transfer_to_agent_id = none;
  pending_transfer_from_agent_id = none;
  pending_transfer_requested_at = none;
  closed_at = none;
  closed_by_agent_id = none;
}

-- It is offered to agent 9.
abbrev pub offered : Conversation
offered = record owned {
  pending_transfer_to_agent_id = some 9;
  pending_transfer_from_agent_id = some 7;
  pending_transfer_requested_at = some 5;
}

abbrev pub world_of : List Conversation → List Message → Memory
world_of cs ms = record {
  store = record { conversations = cs; messages = ms; outbox = [] };
  published = [];
  wakeups = 0;
  timers = [];
  in_transaction = false;
  should_notify = none;
}
