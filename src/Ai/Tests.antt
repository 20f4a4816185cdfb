-- ===== src/Ai/Tests.antt =====
-- A visitor's question that ai-service answers.
use inline_chat.Prelude.{
  refl, ◌≡◌, List, some, ◌⊎◌, [], String, none, not, ◌∷◌, false, str_eq, true, ◌||◌, length,
}
use inline_chat.Realtime.Upstream.{ChatMessage, CreateMessageRequest}
use inline_chat.Ai.AutoReply.{
  Services, Knowledge, Redis, RawEvent, AiState, handle_event, parse_message_created_event,
  handle_parsed, MessageCreatedEvent, process_visitor_message, create_reply,
  is_latest_visitor_message, build_reply_lock_key,
}
use inline_chat.Errors.{Result, ok}
use inline_chat.Grpc.{given}
use inline_chat.Ai.AutoReply.Locks.{handle_event-once, handle_event-IsAnswer}
use inline_chat.Prelude.Text.{trim_space}
use inline_chat.Realtime.Origins.{has_text}
use inline_chat.Ai.AutoReply.Replies.{IsAnswer}
use inline_chat.Ai.Chunks.{
  Document, Paragraph, chunk_paragraphs, add_paragraphs, add_paragraph, add_structured,
  add_narrative, flush_builder, make_room, dedupe_chunks, new_chunk,
}

abbrev question : ChatMessage
question = record {
  id = 9;
  conversation_id = 7;
  sender_type = "visitor";
  sender_id = "";
  content = "price?";
  client_msg_id = "c";
  created_at = "";
  updated_at = "";
  status = "sent";
}

-- The state of chat-service is the requests that it has had.
abbrev services : Services (List CreateMessageRequest)
services = record {
  create_message = λ n r w. (given question, r ∷ w);
  get_conversation = λ n w. given (record {
    id = n;
    site_id = "site";
    visitor_token = "visitor-token";
    assigned_agent_id = 0;
    status = "open";
  });
  list_messages = λ n limit w. given (question ∷ []);
  get_site_ai_config = λ site w. given (record {
    site_id = site;
    enabled = true;
    reply_mode = "unassigned_auto_reply";
    updated_at = "";
  });
}

abbrev knowledge : Knowledge (List CreateMessageRequest) String
knowledge = record {
  strip = λ s. s;
  search = λ site query recent id w. ok ("ten" ∷ []);
  direct_reply = λ query found unknown. none;
  generate = λ site query recent id found w. ok "It is ten.";
  strip_think = λ s. s;
}

abbrev redis : Redis (List CreateMessageRequest)
redis = record { set_nx_error = λ w. none; del_fails = λ w. false }

abbrev raw : RawEvent
raw = record {
  kind = "message.new";
  conversation_id = 7;
  message_id = 9;
  sender_type = "Visitor";
  content = "price?";
}

abbrev idle : AiState (List CreateMessageRequest)
idle = record { locks = []; world = [] }

abbrev handled : Result (Unit {0}) × AiState (List CreateMessageRequest)
handled = handle_event services knowledge "unknown" redis (some raw) (λ w. w) idle

handled-ok : handled.0 ≡ ok tt
unfolding handle_event parse_message_created_event handle_parsed process_visitor_message
    create_reply is_latest_visitor_message
handled-ok = refl

one_reply : length handled.1.world ≡ 1
unfolding handle_event parse_message_created_event handle_parsed process_visitor_message
    create_reply is_latest_visitor_message
one_reply = refl

handle_event-once_example :
    (handle_event services knowledge "unknown" redis
      (some raw)
      (λ w. [])
      (record { locks = handled.1.locks; world = [] })).1
    ≡ record { locks = handled.1.locks; world = [] }
handle_event-once_example =
    handle_event-once services knowledge "unknown" redis (some raw) (λ w. w) (λ w. []) idle []
      handled-ok

handle_event-IsAnswer_example :
    (handled.1 ≡ idle)
    ⊎ ((e : MessageCreatedEvent) × (parse_message_created_event (some raw) ≡ some e)
        × ((not (str_eq e.sender_type "visitor") || str_eq (trim_space e.content) "") ≡ false)
        × (has_text (build_reply_lock_key e.conversation_id e.message_id) idle.locks ≡ false)
        × IsAnswer services knowledge "unknown" e (λ w. w) [] handled.1.world)
handle_event-IsAnswer_example =
    handle_event-IsAnswer services knowledge "unknown" redis (some raw) (λ w. w) idle

-- The identity stands for the hash.
abbrev document : Document
document = record { site_id = "site"; relative_path = "faq.md"; uuid = λ s. s }

-- A text, and a fact that stands there twice.
abbrev paragraphs : List Paragraph
paragraphs =
    record { section = "Intro"; text = " We sell tea. "; kind = "narrative"; keywords = [] }
    ∷ record { section = "Price"; text = "Tea: ten"; kind = "fact"; keywords = "tea" ∷ [] }
    ∷ record { section = "Price"; text = "Tea:  ten"; kind = "fact"; keywords = "tea" ∷ [] }
    ∷ []

two_chunks : length (chunk_paragraphs document 900 100 paragraphs) ≡ 2
unfolding chunk_paragraphs add_paragraphs add_paragraph add_structured add_narrative flush_builder
    make_room dedupe_chunks new_chunk
two_chunks = refl
