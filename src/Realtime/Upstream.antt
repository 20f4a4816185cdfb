-- ===== src/Realtime/Upstream.antt =====
-- The services behind services/realtime-service/internal/ws/handler.go, over the interfaces that it has
-- there: messageClient, authMeClient and siteLookupClient. `W` is the state behind them, which only
-- CreateMessage changes.
use inline_chat.Prelude.{ℕ, String, List, Option}
use inline_chat.Grpc.{Answer}

pub record CreateMessageRequest : Type 0 where
  pub sender_type : String
  pub sender_id : String
  pub content : String
  pub client_msg_id : String
  pub visitor_token : String

pub record ChatMessage : Type 0 where
  pub id : ℕ
  pub conversation_id : ℕ
  pub sender_type : String
  pub sender_id : String
  pub content : String
  pub client_msg_id : String
  pub created_at : String
  pub updated_at : String
  pub status : String

pub record ChatConversation : Type 0 where
  pub id : ℕ
  pub site_id : String
  pub visitor_token : String
  pub assigned_agent_id : ℕ
  pub status : String

pub record MeResult : Type 0 where
  pub agent_id : ℕ
  pub email : String
  pub role : String
  pub site_id : String

pub record SiteView : Type 0 where
  pub site_id : String
  pub status : String
  pub domain : String
  pub domains : List String

-- A list call takes a conversation, a limit and the id that the messages are older than, 0 for all. The
-- clients of auth-service and admin-service may be missing.
pub record Upstream (W : Type 0) : Type 0 where
  pub create_message : ℕ → CreateMessageRequest → W → Answer ChatMessage × W
  pub get_conversation : ℕ → W → Answer ChatConversation
  pub list_messages : ℕ → ℕ → ℕ → W → Answer (List ChatMessage)
  pub me : Option (String → W → Answer MeResult)
  pub get_site : Option (String → W → Answer SiteView)
