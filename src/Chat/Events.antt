-- ===== src/Chat/Events.antt =====
-- Transactions with events, and the events themselves, of
-- services/chat-service/internal/service/chat_service.go. The payload maps marshal without an error.
pub mod Rules
pub mod Conversations
use Prim.Native.String.{◌++◌ as append}
use inline_chat.Prelude.{
  ℕ, ◌+◌, String, Bool, true, false, not, ◌&&◌, ◌||◌, Option, none, some, [], ◌∷◌, ◌++◌, ◌==◌,
  str_eq, if◌then◌else◌,
}
use inline_chat.Prelude.Text.{trim_space}
use inline_chat.Errors.{Result, ok, err, wrapped}
use inline_chat.Chat.Model.{
  Message, Event, message_new, message_status, conversation_closed, EventOutbox,
}
use inline_chat.Chat.OutboxStatus
use inline_chat.Chat.Format.{format_agent_id4, system_client_msg_id}
use inline_chat.Chat.World.{Service, World, Action, pure, map_error, modify, ◌>>=◌, ◌>>◌}
use inline_chat.Chat.Repository.{with_transaction}
use inline_chat.Chat.Repository.Messages
use inline_chat.Chat.Repository.Outbox

-- A new message row, before the INSERT gives it an id and a time.
abbrev pub new_message : ℕ → String → String → String → String → Message
new_message conversation_id sender_type sender_id content client_msg_id = record {
  id = 0;
  conversation_id = conversation_id;
  sender_type = sender_type;
  sender_id = sender_id;
  content = content;
  client_msg_id = client_msg_id;
  status = "sent";
  created_at = 0;
}

abbrev pub new_event : ℕ → String → Event → EventOutbox
new_event conversation_id event_type event = record {
  id = 0;
  conversation_id = conversation_id;
  event_type = event_type;
  payload = event;
  status = OutboxStatus.pending;
  attempts = 0;
  last_error = "";
  processing_at = none;
  next_retry_at = none;
  published_at = none;
}

-- `notifyState.shouldNotify = true`, where the context holds a notifyState.
abbrev pub flag : Option Bool → Option Bool
flag none = none
flag (some b) = some true

abbrev pub is_flagged : Option Bool → Bool
is_flagged (some true) = true
is_flagged _ = false

module _ {C M O : Type 0} (svc : Service C M O) where
  -- The publisher's result is only logged.
  publish : Event → Action C M O (Unit {0})
  publish event = modify (λ w. record w { published = w.published ++ event ∷ [] })

  set_flag : Action C M O (Unit {0})
  set_flag = modify (λ w. record w { should_notify = flag w.should_notify })

  store_event : ℕ → String → Event → Action C M O (Unit {0})
  unfolding Outbox.create set_flag trim_space
  store_event conversation_id event_type event = do
    map_error (wrapped "create outbox event failed")
        (Outbox.create svc (new_event conversation_id (trim_space event_type) event))
    set_flag

  unfoldable pub enqueue_outbox_event : ℕ → String → Event → Action C M O (Unit {0})
  unfolding store_event trim_space
  enqueue_outbox_event conversation_id event_type event =
      if not svc.outbox_enabled
      then pure tt
      else if conversation_id == 0 || str_eq (trim_space event_type) ""
      then pure tt
      else store_event conversation_id event_type event

  unfoldable pub emit_message_created : Message → Action C M O (Unit {0})
  unfolding publish enqueue_outbox_event
  emit_message_created m =
      if not svc.outbox_enabled
      then publish (message_new m)
      else enqueue_outbox_event m.conversation_id "message.new" (message_new m)

  unfoldable pub emit_message_status_range : ℕ → String → ℕ → String → Action C M O (Unit {0})
  unfolding publish enqueue_outbox_event
  emit_message_status_range conversation_id sender_type up_to status =
      let event : Event = message_status conversation_id sender_type up_to status in
      if conversation_id == 0 || up_to == 0
      then pure tt
      else if not svc.outbox_enabled
      then publish event
      else enqueue_outbox_event conversation_id "message.status" event

  unfoldable pub emit_conversation_closed : ℕ → Action C M O (Unit {0})
  unfolding publish enqueue_outbox_event
  emit_conversation_closed conversation_id =
      if conversation_id == 0
      then pure tt
      else if not svc.outbox_enabled
      then publish (conversation_closed conversation_id)
      else enqueue_outbox_event conversation_id "conversation.closed"
          (conversation_closed conversation_id)

  create_system_message : ℕ → String → ℕ → Action C M O (Unit {0})
  unfolding Messages.create emit_message_created system_client_msg_id
  create_system_message conversation_id content stamp = do
    m ← map_error (wrapped "create transfer system message failed") (
        Messages.create svc (
          new_message conversation_id "system" "" content
            (system_client_msg_id conversation_id stamp)))
    map_error (wrapped "emit transfer system message failed") (emit_message_created m)

  -- `stamp` is the clock when the client message id is made.
  unfoldable pub publish_system_message : ℕ → String → ℕ → Action C M O (Unit {0})
  unfolding create_system_message
  publish_system_message conversation_id content stamp =
      if conversation_id == 0 then pure tt else create_system_message conversation_id content stamp

  -- `template` is the text before and after the verb %s.
  unfoldable pub publish_transfer_system_message :
      ℕ → String × String → ℕ → ℕ → Action C M O (Unit {0})
  unfolding publish_system_message format_agent_id4
  publish_transfer_system_message conversation_id (before, after) agent stamp =
      publish_system_message conversation_id (append before (append (format_agent_id4 agent) after))
        stamp

  -- The dispatcher is told after the commit; an error of the notifier is only logged.
  notify : Option Bool → World C M O → World C M O
  notify flagged w =
      if is_flagged w.should_notify && svc.has_notifier
      then record w { wakeups = w.wakeups + 1; should_notify = flagged }
      else record w { should_notify = flagged }

  after_transaction : {A : Type 0} → Option Bool → Result A × World C M O → Result A × World C M O
  unfolding notify
  after_transaction flagged (ok a, w) = (ok a, notify flagged w)
  after_transaction flagged (err e, w) = (err e, record w { should_notify = flagged })

  unfoldable pub with_event_transaction : {A : Type 0} → Action C M O A → Action C M O A
  unfolding with_transaction after_transaction
  with_event_transaction fn w =
      if not svc.outbox_enabled
      then fn w
      else after_transaction w.should_notify
          (with_transaction svc fn (record w { should_notify = some false }))
