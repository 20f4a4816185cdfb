-- ===== src/Ai/AutoReply.antt =====
-- services/ai-service/internal/service/auto_reply_service.go: from an event to a reply. The clients of
-- chat-service have the types that they have in realtime-service.
pub mod Replies
pub mod Locks
use Prim.Native.String.{◌++◌}
use inline_chat.Prelude.{
  ℕ, String, Bool, true, false, not, ◌||◌, ◌&&◌, Option, none, some, List, [], ◌∷◌, ◌==◌, str_eq,
  if◌then◌else◌,
}
use inline_chat.Prelude.Text.{trim_space, to_lower, format_uint}
use inline_chat.Errors.{Result, ok, err, failed}
use inline_chat.Grpc.{Answer, given, failed_call, Code, CallError, missing, already_exists}
use inline_chat.Realtime.Upstream.{CreateMessageRequest, ChatMessage, ChatConversation}
use inline_chat.Ai.Query.{Strip, normalize_query, match_small_talk_reply, sanitize_model_reply}
use inline_chat.Realtime.Origins.{has_text}

pub record SiteAiConfig : Type 0 where
  pub site_id : String
  pub enabled : Bool
  pub reply_mode : String
  pub updated_at : String

-- chat-service and admin-service over the clients of ai-service. `W` is the state behind them.
pub record Services (W : Type 0) : Type 0 where
  pub create_message : ℕ → CreateMessageRequest → W → Answer ChatMessage × W
  pub get_conversation : ℕ → W → Answer ChatConversation
  pub list_messages : ℕ → ℕ → W → Answer (List ChatMessage)
  pub get_site_ai_config : String → W → Answer SiteAiConfig

-- What makes the text of a reply: the search in the knowledge base of a site for a question in its
-- conversation, the reply that the results give directly, the model's reply, and the two patterns.
pub record Knowledge (W F : Type 0) : Type 0 where
  pub strip : Strip
  pub search : String → String → List ChatMessage → ℕ → W → Result (List F)
  pub direct_reply : String → List F → String → Option String
  pub generate : String → String → List ChatMessage → ℕ → List F → W → Result String
  pub strip_think : Strip

-- The redis that keeps the locks: the error of SetNX, and whether Del fails.
pub record Redis (W : Type 0) : Type 0 where
  pub set_nx_error : W → Option String
  pub del_fails : W → Bool

-- The locks that are held and have not expired.
pub record AiState (W : Type 0) : Type 0 where
  pub locks : List String
  pub world : W

pub record MessageCreatedEvent : Type 0 where
  pub conversation_id : ℕ
  pub message_id : ℕ
  pub sender_type : String
  pub content : String

-- The event as JSON gives it, where `none` is an error of json.Unmarshal.
pub record RawEvent : Type 0 where
  pub kind : String
  pub conversation_id : ℕ
  pub message_id : ℕ
  pub sender_type : String
  pub content : String

unfoldable pub parse_message_created_event : Option RawEvent → Option MessageCreatedEvent
unfolding to_lower trim_space
parse_message_created_event none = none
parse_message_created_event (some raw) =
    if not (str_eq raw.kind "message.new") || raw.conversation_id == 0 || raw.message_id == 0
    then none
    else some (record {
      conversation_id = raw.conversation_id;
      message_id = raw.message_id;
      sender_type = to_lower (trim_space raw.sender_type);
      content = raw.content;
    })

unfoldable pub build_reply_lock_key : ℕ → ℕ → String
unfolding format_uint
build_reply_lock_key conversation_id message_id =
    "ai:reply:" ++ format_uint conversation_id ++ ":" ++ format_uint message_id

unfoldable pub build_ai_client_msg_id : ℕ → ℕ → String
unfolding format_uint
build_ai_client_msg_id conversation_id message_id =
    "ai_" ++ format_uint conversation_id ++ "_" ++ format_uint message_id

-- An error whose status is the one that is let pass.
abbrev pub is_code : Code → Option Code → Bool
is_code c none = false
is_code missing (some missing) = true
is_code already_exists (some already_exists) = true
is_code c (some d) = false

abbrev pub unless : Code → CallError → Result (Unit {0})
unless c e = if is_code c e.code then ok tt else err (failed e.text)

abbrev pub is_latest : ℕ → Answer (List ChatMessage) → Bool
is_latest message_id (failed_call e) = false
is_latest message_id (given []) = false
is_latest message_id (given (m ∷ ms)) = m.id == message_id && str_eq m.sender_type "visitor"

abbrev pub is_unattended : ChatConversation → Bool
is_unattended c = str_eq c.status "open" && c.assigned_agent_id == 0

abbrev pub or_empty : Answer (List ChatMessage) → List ChatMessage
or_empty (given ms) = ms
or_empty (failed_call e) = []

-- promptHistoryFetchLimit
abbrev pub prompt_history_fetch_limit : ℕ
prompt_history_fetch_limit = 10

module _ {W F : Type 0} (s : Services W) (k : Knowledge W F) (unknown : String) where
  unfoldable pub is_latest_visitor_message : ℕ → ℕ → W → Bool
  is_latest_visitor_message conversation_id message_id w =
      is_latest message_id (s.list_messages conversation_id 1 w)

  abbrev pub reply_request : MessageCreatedEvent → String → CreateMessageRequest
  reply_request e reply = record {
    sender_type = "ai";
    sender_id = "ai-service";
    content = reply;
    client_msg_id = build_ai_client_msg_id e.conversation_id e.message_id;
    visitor_token = "";
  }

  abbrev pub reply_result : Answer ChatMessage → Result (Unit {0})
  reply_result (given m) = ok tt
  reply_result (failed_call e) = unless already_exists e

  -- The conversation is looked at again, since the text may have taken its time.
  unfoldable pub create_reply : MessageCreatedEvent → String → W → Result (Unit {0}) × W
  unfolding is_latest_visitor_message build_ai_client_msg_id
  create_reply e reply w =
      let (answer, w') = s.create_message e.conversation_id (reply_request e reply) w in
      elim (s.get_conversation e.conversation_id w) [
        | failed_call x ↦ (unless missing x, w)
        | given c ↦
            if not (is_unattended c)
            then (ok tt, w)
            else if not (is_latest_visitor_message e.conversation_id e.message_id w)
            then (ok tt, w)
            else (reply_result answer, w')
      ]

  -- A model that fails is answered for.
  abbrev pub or_unknown : Result String → String
  or_unknown (ok text) = text
  or_unknown (err e) = unknown

  -- The reply to a question: none of the steps before it writes.
  unfoldable pub reply_text : ChatConversation → MessageCreatedEvent → String → W → String
  unfolding match_small_talk_reply sanitize_model_reply
  reply_text c e query w =
      let recent = or_empty (s.list_messages e.conversation_id prompt_history_fetch_limit w) in
      elim (match_small_talk_reply k.strip query) [
        | some reply ↦ reply
        | none ↦ elim (k.search c.site_id query recent e.message_id w) [
          | err x ↦ unknown
          | ok [] ↦ unknown
          | ok (f ∷ fs) ↦ elim (k.direct_reply query (f ∷ fs) unknown) [
            | some reply ↦ reply
            | none ↦
                sanitize_model_reply k.strip_think
                  (or_unknown (k.generate c.site_id query recent e.message_id (f ∷ fs) w)) unknown
          ]
        ]
      ]

  -- `later` is what the others have done to the state by the time the text of the reply is there.
  unfoldable pub process_visitor_message : MessageCreatedEvent → (W → W) → W → Result (Unit {0}) × W
  unfolding create_reply reply_text normalize_query is_latest_visitor_message trim_space
  process_visitor_message e later w =
      let query = normalize_query e.content in
      elim (s.get_conversation e.conversation_id w) [
        | failed_call x ↦ (unless missing x, w)
        | given c ↦
            if not (is_unattended c) then (ok tt, w) else elim (s.get_site_ai_config c.site_id w) [
              | failed_call x ↦ (unless missing x, w)
              | given config ↦
                  if not config.enabled
                    || not (str_eq (trim_space config.reply_mode) "unassigned_auto_reply")
                  then (ok tt, w)
                  else if not (is_latest_visitor_message e.conversation_id e.message_id w)
                  then (ok tt, w)
                  else if str_eq query ""
                  then (ok tt, w)
                  else create_reply e (reply_text c e query w) (later w)
            ]
      ]

  -- SetNX takes a free key; the deferred function gives it back after an error.
  abbrev pub release :
      Redis W → String → Result (Unit {0}) × W → List String → Result (Unit {0}) × AiState W
  release redis key (ok x, w) held = (ok x, record { locks = key ∷ held; world = w })
  release redis key (err e, w) held =
      (err e, record { locks = if redis.del_fails w then key ∷ held else held; world = w })

  unfoldable pub handle_parsed :
      Redis W → Option MessageCreatedEvent → (W → W) → AiState W → Result (Unit {0}) × AiState W
  unfolding process_visitor_message build_reply_lock_key trim_space
  handle_parsed redis none later st = (ok tt, st)
  handle_parsed redis (some e) later st =
      let key = build_reply_lock_key e.conversation_id e.message_id in
      if not (str_eq e.sender_type "visitor") || str_eq (trim_space e.content) ""
      then (ok tt, st)
      else elim (redis.set_nx_error st.world) [
        | some text ↦ (err (failed text), st)
        | none ↦
            if has_text key st.locks
            then (ok tt, st)
            else release redis key (process_visitor_message e later st.world) st.locks
      ]

  unfoldable pub handle_event :
      Redis W → Option RawEvent → (W → W) → AiState W → Result (Unit {0}) × AiState W
  unfolding handle_parsed parse_message_created_event
  handle_event redis raw = handle_parsed redis (parse_message_created_event raw)
