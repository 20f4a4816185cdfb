-- ===== src/Realtime/Tests/Connected.antt =====
-- A conversation with three messages, and a visitor who comes back to it.
use Prim.Native.Nat.{ℕ}
use inline_chat.Prelude.{refl, List, ◌∷◌, some, arith, [], ◌≢◌, true, take, none, filter, ◌≡◌, ◌⊎◌}
use inline_chat.Realtime.Connections.Access.{Granted}
use inline_chat.Realtime.Connections.{Handler, is_origin_allowed_for_connection, ConnectionContext}
use inline_chat.Realtime.Upstream.{ChatMessage, Upstream, CreateMessageRequest}
use inline_chat.Realtime.Replay.{
  Encoding, fetch, message_new, replay_end, replay_messages, message_ack, message_nack,
  client_error,
}
use inline_chat.Realtime.Sending.{SendMessagePayload, Json}
use inline_chat.Realtime.Serve.{ServeRequest, Event, serve, writes, receives, broadcasts}
use inline_chat.Realtime.Client.{Line, new_client}
use inline_chat.Realtime.Replay.Pages.{IsHistory, fetch-ends, is_older}
use inline_chat.Realtime.Replay.Delivery.{IsSent, missed_frames, replay_messages-IsSent}
use inline_chat.Grpc.{given}
use inline_chat.Realtime.Hub.{new_hub}
use inline_chat.Prelude.Text.{parse_uint64}
use inline_chat.Realtime.Serve.Sessions.{HasEnded, serve-HasEnded}
use inline_chat.Accounts.Tests.{crypto}

abbrev message : ℕ → ChatMessage
message id = record {
  id = id;
  conversation_id = 7;
  sender_type = "visitor";
  sender_id = "";
  content = "hello";
  client_msg_id = "c";
  created_at = "";
  updated_at = "";
  status = "sent";
}

abbrev history : List ChatMessage
history = message 5 ∷ message 4 ∷ message 3 ∷ []

-- The state of chat-service is the requests that it has had.
abbrev services : Upstream (List CreateMessageRequest)
services = record {
  create_message = λ n r w. (given (message 6), r ∷ w);
  get_conversation = λ n w. given (record {
    id = n;
    site_id = "site";
    visitor_token = "visitor-token";
    assigned_agent_id = 0;
    status = "open";
  });
  list_messages = λ n limit before w. given (take limit (filter (is_older before) history));
  me = none;
  get_site = none;
}

abbrev encode : Encoding
encode f = elim f [
  | message_new n m ↦ "new"
  | replay_end n last count truncated next ↦ "end"
  | message_ack id n status ↦ "ack"
  | message_nack id reason ↦ reason
  | client_error e ↦ e
]

-- The only message is a visitor's greeting.
abbrev greeting : SendMessagePayload
greeting = record {
  sender_type = "";
  content = "hello";
  client_msg_id = "c6";
  visitor_token = "";
  sender_id = "";
}

abbrev json : Json
json = record {
  envelope = λ raw. some (record { kind = "message.send"; payload = raw });
  send_message = λ raw. some greeting;
  encode = encode;
}

abbrev handler : Handler (List CreateMessageRequest)
handler = record {
  upstream = services;
  crypto = crypto;
  urls = λ s. none;
  jwt_secrets = [];
  jwt_issuer = "inlinechat";
  allow_all_origins = true;
  allowed_origins = [];
}

abbrev request : ServeRequest
request = record {
  conversation_id = "7";
  last_message_id = "3";
  access_token = "";
  visitor_token = "visitor-token";
  origin = "https://shop.example";
}

abbrev quiet : Line
quiet = record { client = new_client; wire = [] }

ordered : IsHistory history
ordered = (
  ground arith,
  (ground arith, (ground arith, tt)),
  (ground arith, (ground arith, tt), (ground arith, tt, tt)),
)

fetch-ends_example : fetch services 7 3 [] 501 0 [] ≢ none
fetch-ends_example = fetch-ends services 7 3 [] 501 0 [] (omega arith) (omega arith)

replay_messages-IsSent_example :
    IsSent encode
      (missed_frames 7 3 history)
      quiet
      (replay_messages services encode 7 3 [] (1 ∷ 0 ∷ []) quiet)
replay_messages-IsSent_example =
    replay_messages-IsSent services 7 3 [] history ordered (λ before. refl) encode (1 ∷ 0 ∷ [])
      quiet refl refl

abbrev events : List Event
events = writes 2 ∷ receives "greeting" ∷ broadcasts "new" ∷ []

serve-HasEnded_example :
    (((serve handler json request 100 true 1 [] events new_hub []).1 ≡ new_hub)
      × ((serve handler json request 100 true 1 [] events new_hub []).2.wire ≡ [])
      × ((serve handler json request 100 true 1 [] events new_hub []).3 ≡ []))
    ⊎ ((number : ℕ) × (c : ConnectionContext) × (parse_uint64 request.conversation_id ≡ some number)
        × Granted handler request.access_token request.visitor_token number 100 [] c
        × (is_origin_allowed_for_connection handler request.origin c ≡ true)
        × HasEnded handler json request.conversation_id number c 1 new_hub []
            (serve handler json request 100 true 1 [] events new_hub []))
serve-HasEnded_example = serve-HasEnded handler json request 100 true 1 [] events new_hub []
