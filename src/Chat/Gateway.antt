-- ===== src/Chat/Gateway.antt =====
-- The gRPC servers of services/chat-service/internal/grpcserver: what each call checks before it
-- reaches ChatService, and the status that an error becomes. time.Format is a parameter.
pub mod Replies
pub use inline_chat.Grpc.{
  Code, invalid_argument, missing, already_exists, permission_denied, failed_precondition, internal,
  Status, Reply, answered, refused, is_refused,
}
use inline_chat.Prelude.{
  ℕ, String, Bool, ◌||◌, Option, none, some, List, [], ◌∷◌, map, ◌==◌, ltb, str_eq, if◌then◌else◌,
}
use inline_chat.Prelude.Int.{ℤ, positive_or, is_negative, pos}
use inline_chat.Prelude.Text.{trim_space, to_lower, contains}
use inline_chat.Errors.{
  Error, Result, ok, err, error_text, conversation_not_found, conversation_already_claimed,
  conversation_unassigned, conversation_closed, transfer_pending, transfer_not_pending,
  message_not_found, forbidden, not_found, invalid, failed, wrapped, unauthorized,
  invalid_credentials, conflict, invalid_session, resource_not_found,
}
use inline_chat.Chat.Model.{Conversation, Message}
use inline_chat.Chat.World.{Service, World, Action}
use inline_chat.Chat.Conversations.{
  create_conversation, get_conversation, list_conversations, claim_conversation,
  transfer_conversation, confirm_transfer_conversation, reject_transfer_conversation,
  close_conversation,
}
use inline_chat.Chat.Messages.{
  CreateMessageInput, create_message, mark_messages_read, list_messages,
}

-- The code of a sentinel under any number of %w, as errors.Is finds it.
abbrev pub sentinel_code : Error → Option Code
sentinel_code conversation_not_found = some missing
sentinel_code message_not_found = some missing
sentinel_code forbidden = some permission_denied
sentinel_code conversation_already_claimed = some already_exists
sentinel_code conversation_unassigned = some failed_precondition
sentinel_code conversation_closed = some failed_precondition
sentinel_code transfer_pending = some failed_precondition
sentinel_code transfer_not_pending = some failed_precondition
sentinel_code (wrapped s e) = sentinel_code e
sentinel_code unauthorized = none
sentinel_code invalid_credentials = none
sentinel_code conflict = none
sentinel_code invalid_session = none
sentinel_code resource_not_found = none
sentinel_code not_found = none
sentinel_code (invalid s) = none
sentinel_code (failed s) = none

-- The switch over the text of any other error.
unfoldable pub status_of_text : String → Status
unfolding to_lower contains
status_of_text text =
    let msg = to_lower text in
    if contains msg "invalid" || contains msg "required"
    then record { code = invalid_argument; text = text }
    else if contains msg "match conversation"
    then record { code = permission_denied; text = text }
    else if contains msg "duplicate" || contains msg "unique"
    then record { code = already_exists; text = text }
    else record { code = internal; text = "internal error" }

unfoldable pub map_error : Error → Status
unfolding status_of_text error_text
map_error e = elim (sentinel_code e) [
  | some code ↦ record { code = code; text = error_text e }
  | none ↦ status_of_text (error_text e)
]

-- The first guard that holds, by its text.
abbrev pub first_fault : List (Bool × String) → Option String
first_fault [] = none
first_fault ((b, text) ∷ gs) = let rest = first_fault gs in if b then some text else rest

abbrev pub is_blank : String → Bool
unfolding trim_space
is_blank s = str_eq (trim_space s) ""

abbrev pub zero_or : Option ℕ → ℕ
zero_or none = 0
zero_or (some n) = n

-- chatv1.Conversation, less created_at and updated_at, and chatv1.Message, less updated_at.
pub record ConversationPb : Type 0 where
  pub id : ℕ
  pub site_id : String
  pub visitor_token : String
  pub status : String
  pub assigned_agent_id : ℕ
  pub closed_at : String
  pub closed_by_agent_id : ℕ
  pub pending_transfer_to_agent_id : ℕ
  pub pending_transfer_from_agent_id : ℕ
  pub pending_transfer_requested_at : String

pub record MessagePb : Type 0 where
  pub id : ℕ
  pub conversation_id : ℕ
  pub sender_type : String
  pub sender_id : String
  pub content : String
  pub client_msg_id : String
  pub created_at : String
  pub status : String

-- What a call sends back.
pub data Body : Type 0 where
  conversation : ConversationPb → Body
  conversations : List ConversationPb → Body
  message : MessagePb → Body
  messages : List MessagePb → Body
  updated_count : ℕ → Body

-- The calls of both servers, the clock last. The internal CreateMessage is the same call.
pub data Call : Type 0 where
  create_conversation_call : String → String → Call
  get_conversation_call : ℕ → Call
  list_conversations_call : String → String → ℕ → Bool → ℤ → ℤ → Call
  create_message_call : CreateMessageInput → ℕ → Call
  list_messages_call : ℕ → ℤ → ℕ → Call
  mark_messages_read_call : ℕ → ℕ → String → ℕ → String → Call
  claim_call : ℕ → ℕ → Call
  transfer_call : ℕ → ℕ → String → ℕ → ℕ → ℕ → Call
  confirm_call : ℕ → ℕ → String → ℕ → Call
  reject_call : ℕ → ℕ → String → ℕ → Call
  close_call : ℕ → ℕ → String → ℕ → Call

-- What a call checks before the service is asked.
unfoldable pub guards : Call → List (Bool × String)
guards (create_conversation_call site token) =
    (is_blank site, "site_id is required") ∷ (is_blank token, "visitor_token is required") ∷ []
guards (get_conversation_call id) = (id == 0, "id is required") ∷ []
guards (list_conversations_call state site agent unassigned limit offset) =
    (is_negative offset, "offset must be greater than or equal to 0") ∷ []
guards (create_message_call input now) =
    (input.conversation_id == 0, "conversation_id is required")
    ∷ (is_blank input.sender_type, "sender_type is required")
    ∷ (is_blank input.content, "content is required")
    ∷ (is_blank input.client_msg_id, "client_msg_id is required")
    ∷ []
guards (list_messages_call id limit before) = (id == 0, "conversation_id is required") ∷ []
guards (mark_messages_read_call id last actor_type agent token) =
    (id == 0, "conversation_id is required")
    ∷ (last == 0, "last_read_message_id is required")
    ∷ (is_blank actor_type, "actor_type is required")
    ∷ []
guards (claim_call id agent) =
    (id == 0, "conversation_id is required") ∷ (agent == 0, "agent_id is required") ∷ []
guards (transfer_call id actor role to now stamp) =
    (id == 0, "conversation_id is required")
    ∷ (actor == 0, "actor_agent_id is required")
    ∷ (to == 0, "to_agent_id is required")
    ∷ (is_blank role, "actor_role is required")
    ∷ []
guards (confirm_call id actor role stamp) =
    (id == 0, "conversation_id is required")
    ∷ (actor == 0, "actor_agent_id is required")
    ∷ (is_blank role, "actor_role is required")
    ∷ []
guards (reject_call id actor role stamp) =
    (id == 0, "conversation_id is required")
    ∷ (actor == 0, "actor_agent_id is required")
    ∷ (is_blank role, "actor_role is required")
    ∷ []
guards (close_call id actor role now) =
    (id == 0, "conversation_id is required")
    ∷ (actor == 0, "actor_agent_id is required")
    ∷ (is_blank role, "actor_role is required")
    ∷ []

-- `limit <= 0` gives 50, and more than 200 gives 200.
abbrev pub message_limit : ℤ → ℕ
message_limit raw = let limit = positive_or 50 raw in if ltb 200 limit then 200 else limit

abbrev pub agent_filter : ℕ → Option ℕ
agent_filter agent = if ltb 0 agent then some agent else none

module _ (format_time : ℕ → String) where
  abbrev pub time_or : Option ℕ → String
  time_or none = ""
  time_or (some t) = format_time t

  unfoldable pub to_conversation_pb : Conversation → ConversationPb
  to_conversation_pb c = record {
    id = c.id;
    site_id = c.site_id;
    visitor_token = c.visitor_token;
    status = c.status;
    assigned_agent_id = zero_or c.assigned_agent_id;
    closed_at = time_or c.closed_at;
    closed_by_agent_id = zero_or c.closed_by_agent_id;
    pending_transfer_to_agent_id = zero_or c.pending_transfer_to_agent_id;
    pending_transfer_from_agent_id = zero_or c.pending_transfer_from_agent_id;
    pending_transfer_requested_at = time_or c.pending_transfer_requested_at;
  }

  unfoldable pub to_message_pb : Message → MessagePb
  to_message_pb m = record {
    id = m.id;
    conversation_id = m.conversation_id;
    sender_type = m.sender_type;
    sender_id = m.sender_id;
    content = m.content;
    client_msg_id = m.client_msg_id;
    created_at = format_time m.created_at;
    status = m.status;
  }

  abbrev pub conversation_body : Conversation → Body
  conversation_body c = conversation (to_conversation_pb c)

  abbrev pub conversations_body : List Conversation → Body
  conversations_body cs = conversations (map to_conversation_pb cs)

  abbrev pub message_body : Message → Body
  message_body m = message (to_message_pb m)

  abbrev pub messages_body : List Message → Body
  messages_body ms = messages (map to_message_pb ms)

-- The result of the service as a reply.
unfoldable pub to_reply : {A : Type 0} → (A → Body) → Result A → Reply Body
unfolding map_error
to_reply view (ok a) = answered (view a)
to_reply view (err e) = refused (map_error e)

module _ {C M O : Type 0} (format_time : ℕ → String) (svc : Service C M O) where
  -- The call of the service behind the guards.
  unfoldable pub forwarded :
      {A : Type 0} → (A → Body) → Action C M O A → World C M O → Reply Body × World C M O
  unfolding to_reply
  forwarded view m w = (to_reply view (m w).0, (m w).1)

  unfoldable pub forward : Call → World C M O → Reply Body × World C M O
  unfolding forwarded
  forward (create_conversation_call site token) =
      forwarded (conversation_body format_time) (create_conversation svc site token)
  forward (get_conversation_call id) =
      forwarded (conversation_body format_time) (get_conversation svc id)
  forward (list_conversations_call state site agent unassigned limit offset) =
      forwarded (conversations_body format_time) (
        list_conversations svc state site (agent_filter agent) unassigned
          (pos (positive_or 50 limit)) offset)
  forward (create_message_call input now) =
      forwarded (message_body format_time) (create_message svc input now)
  forward (list_messages_call id limit before) =
      forwarded (messages_body format_time) (list_messages svc id (message_limit limit) before)
  forward (mark_messages_read_call id last actor_type agent token) =
      forwarded updated_count (mark_messages_read svc id last actor_type agent token)
  forward (claim_call id agent) =
      forwarded (conversation_body format_time) (claim_conversation svc id agent)
  forward (transfer_call id actor role to now stamp) =
      forwarded (conversation_body format_time)
        (transfer_conversation svc id actor role to now stamp)
  forward (confirm_call id actor role stamp) =
      forwarded (conversation_body format_time)
        (confirm_transfer_conversation svc id actor role stamp)
  forward (reject_call id actor role stamp) =
      forwarded (conversation_body format_time)
        (reject_transfer_conversation svc id actor role stamp)
  forward (close_call id actor role now) =
      forwarded (conversation_body format_time) (close_conversation svc id actor role now)

  unfoldable pub handle : Call → World C M O → Reply Body × World C M O
  unfolding guards forward
  handle call w = elim (first_fault (guards call)) [
    | some text ↦ (refused (record { code = invalid_argument; text = text }), w)
    | none ↦ forward call w
  ]
