-- ===== src/Chat/Model.antt =====
-- services/chat-service/internal/model/model.go. The columns created_at of a conversation or an event
-- and updated_at of any row are left out: gorm maintains them and no operation here reads them.
use inline_chat.Prelude.{ℕ, String, Option}

pub record Conversation : Type 0 where
  pub id : ℕ
  pub site_id : String
  pub visitor_token : String
  pub status : String
  pub assigned_agent_id : Option ℕ
  pub pending_transfer_to_agent_id : Option ℕ
  pub pending_transfer_from_agent_id : Option ℕ
  pub pending_transfer_requested_at : Option ℕ
  pub closed_at : Option ℕ
  pub closed_by_agent_id : Option ℕ

pub record Message : Type 0 where
  pub id : ℕ
  pub conversation_id : ℕ
  pub sender_type : String
  pub sender_id : String
  pub content : String
  pub client_msg_id : String
  pub status : String
  pub created_at : ℕ

-- The payload maps of chat_service.go, before json.Marshal.
pub data Event : Type 0 where
  message_new : Message → Event
  message_status : ℕ → String → ℕ → String → Event
  conversation_closed : ℕ → Event

-- The column payload holds the JSON text of an event; here it holds the event.
pub record EventOutbox : Type 0 where
  pub id : ℕ
  pub conversation_id : ℕ
  pub event_type : String
  pub payload : Event
  pub status : String
  pub attempts : ℕ
  pub last_error : String
  pub processing_at : Option ℕ
  pub next_retry_at : Option ℕ
  pub published_at : Option ℕ
