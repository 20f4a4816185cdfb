-- ===== src/Chat/World.antt =====
-- What a method of ChatService works on, and the actions that it is made of.
pub mod Rules
pub use inline_chat.Effects.{pure, raise, raise_if, attempt, return, map_error, modify, ◌>>=◌, ◌>>◌}
use inline_chat.Effects.{Effect}
use inline_chat.Prelude.{
  ℕ, ◌≡◌, String, Bool, false, ◌&&◌, Option, List, ◌==◌, str_eq, if◌then◌else◌,
}
use inline_chat.Errors.{Error, is_not_found, conversation_not_found}
use inline_chat.Chat.Model.{Conversation, Message, Event, EventOutbox}
use inline_chat.Chat.Scheduler.{Timer}
use inline_chat.Store.{Table}

-- The columns that an INSERT fills in.
abbrev pub ConversationFills : Conversation → Conversation → Type 0
ConversationFills c c' = c' ≡ record c { id = c'.id }

abbrev pub MessageFills : Message → Message → Type 0
MessageFills m m' = m' ≡ record m { id = m'.id; created_at = m'.created_at }

abbrev pub EventFills : EventOutbox → EventOutbox → Type 0
EventFills e e' = e' ≡ record e { id = e'.id }

-- The unique key idx_conv_client_msg of model.Message.
abbrev pub same_client_msg : Message → Message → Bool
same_client_msg m m' =
    m.conversation_id == m'.conversation_id && str_eq m.client_msg_id m'.client_msg_id

abbrev pub ConversationTable : Type 0 → Type 0
ConversationTable C = Table C Conversation (λ c. c.id) (λ c d. false) ConversationFills

abbrev pub MessageTable : Type 0 → Type 0
MessageTable M = Table M Message (λ m. m.id) same_client_msg MessageFills

abbrev pub OutboxTable : Type 0 → Type 0
OutboxTable O = Table O EventOutbox (λ e. e.id) (λ e f. false) EventFills

pub record Store (C M O : Type 0) : Type 0 where
  pub conversations : C
  pub messages : M
  pub outbox : O

-- The fields of ChatService. The outbox is enabled if txManager and outboxRepo are set; the scheduler
-- is there if autoCloseAfter is positive. `lock` is the error of the conversation locker for a key, if
-- any; without a locker it reports none. A transaction may fail to begin and to commit.
pub record Service (C M O : Type 0) : Type 0 where
  pub conversation_table : ConversationTable C
  pub message_table : MessageTable M
  pub outbox_table : OutboxTable O
  pub begin_fault : Store C M O → Option Error
  pub commit_fault : Store C M O → Option Error
  pub lock : String → Option Error
  pub outbox_enabled : Bool
  pub has_notifier : Bool
  pub has_scheduler : Bool
  pub auto_close_after : ℕ

-- The database; the events handed to the publisher and the calls of the outbox notifier so far; the
-- timers; and what the context carries: a transaction, and the flag of outboxNotifyState.
pub record World (C M O : Type 0) : Type 0 where
  pub store : Store C M O
  pub published : List Event
  pub wakeups : ℕ
  pub timers : List Timer
  pub in_transaction : Bool
  pub should_notify : Option Bool

-- An action returns a value or an error, and what was written before an error stays written.
abbrev pub Action : Type 0 → Type 0 → Type 0 → Type 0 → Type 0
Action C M O A = Effect (World C M O) A

-- `if errors.Is(err, repository.ErrNotFound) { return ErrConversationNotFound }`
abbrev pub as_conversation_not_found : Error → Error
as_conversation_not_found e = if is_not_found e then conversation_not_found else e
