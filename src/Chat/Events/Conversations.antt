-- ===== src/Chat/Events/Conversations.antt =====
-- Events and system messages leave the conversations table alone.
use inline_chat.Prelude.{ℕ, String, ◌≡◌, arith}
use inline_chat.Chat.World.{Service, World}
use inline_chat.Chat.Events.{
  emit_message_created, emit_message_status_range, emit_conversation_closed, publish_system_message,
  publish_transfer_system_message,
}
use inline_chat.Chat.Model.{Message}

module _ {C M O : Type 0} (svc : Service C M O) where
  pub emit_message_created-conversations :
      (m : Message) (w : World C M O)
      → (emit_message_created svc m w).1.store.conversations ≡ w.store.conversations
  unfolding emit_message_created
  emit_message_created-conversations m w = ground arith

  pub emit_message_status_range-conversations :
      (id : ℕ) (sender : String) (up_to : ℕ) (status : String) (w : World C M O)
      → (emit_message_status_range svc id sender up_to status w).1.store.conversations
        ≡ w.store.conversations
  unfolding emit_message_status_range
  emit_message_status_range-conversations id sender up_to status w = ground arith

  pub emit_conversation_closed-conversations :
      (id : ℕ) (w : World C M O)
      → (emit_conversation_closed svc id w).1.store.conversations ≡ w.store.conversations
  unfolding emit_conversation_closed
  emit_conversation_closed-conversations id w = ground arith

  pub publish_system_message-conversations :
      (id : ℕ) (content : String) (stamp : ℕ) (w : World C M O)
      → (publish_system_message svc id content stamp w).1.store.conversations
        ≡ w.store.conversations
  unfolding publish_system_message
  publish_system_message-conversations id content stamp w = ground arith

  pub publish_transfer_system_message-conversations :
      (id : ℕ) (template : String × String) (agent stamp : ℕ) (w : World C M O)
      → (publish_transfer_system_message svc id template agent stamp w).1.store.conversations
        ≡ w.store.conversations
  unfolding publish_transfer_system_message
  publish_transfer_system_message-conversations id (before, after) agent stamp w =
      publish_system_message-conversations id _ stamp w
