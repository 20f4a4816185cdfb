-- ===== src/Realtime/Sending.antt =====
-- services/realtime-service/internal/ws/handler.go: the messages that a connection sends.
pub mod Senders
use Prim.Native.Nat.{ℕ}
use inline_chat.Prelude.{String, Bool, not, Option, none, some, str_eq, ltb, if◌then◌else◌}
use inline_chat.Prelude.Text.{trim_space, to_lower, rune_count, parse_uint64, format_uint}
use inline_chat.Errors.{Result, ok, err, failed}
use inline_chat.Grpc.{Answer, given, failed_call}
use inline_chat.Http.{Checked, passes, rejects}
use inline_chat.Realtime.Client.{Line, send_on}
use inline_chat.Realtime.Upstream.{CreateMessageRequest, ChatMessage}
use inline_chat.Realtime.Connections.{Handler, ConnectionContext, validate_conversation_site}
use inline_chat.Realtime.Replay.{Encoding, message_ack, message_nack}

pub record Envelope : Type 0 where
  pub kind : String
  pub payload : String

pub record SendMessagePayload : Type 0 where
  pub sender_type : String
  pub content : String
  pub client_msg_id : String
  pub visitor_token : String
  pub sender_id : String

-- json.Unmarshal, where `none` is its error, and json.Marshal.
pub record Json : Type 0 where
  pub envelope : String → Option Envelope
  pub send_message : String → Option SendMessagePayload
  pub encode : Encoding

-- What the checks of a message come to: a value, an error, or a refusal that is sent to the client.
pub data Verdict (A : Type 0) : Type 0 where
  lets : A → Verdict A
  fails : String → Verdict A
  nacks : String → String → Verdict A

infixl 5 ◌>>=◌ ◌>>◌
abbrev pub ◌>>=◌ : {A B : Type 0} → Verdict A → (A → Verdict B) → Verdict B
m >>= f = elim m [ lets a ↦ f a | fails e ↦ fails e | nacks id reason ↦ nacks id reason ]

abbrev pub ◌>>◌ : {A B : Type 0} → Verdict A → Verdict B → Verdict B
m >> k = m >>= λ _. k

abbrev pub nack_if : Bool → String → String → Verdict (Unit {0})
nack_if b id reason = if b then nacks id reason else lets tt

abbrev pub fail_if : Bool → String → Verdict (Unit {0})
fail_if b e = if b then fails e else lets tt

abbrev pub or_nack : {A : Type 0} → String → String → Option A → Verdict A
or_nack id reason none = nacks id reason
or_nack id reason (some x) = lets x

abbrev pub or_fail : {A : Type 0} → String → Option A → Verdict A
or_fail e none = fails e
or_fail e (some x) = lets x

abbrev pub nack_rejected : {A : Type 0} → String → Checked A → Verdict A
nack_rejected id (passes x) = lets x
nack_rejected id (rejects code text) = nacks id text

-- The cases of the switch over the sender's type.
unfoldable pub visitor_request :
    ConnectionContext → String → SendMessagePayload → Verdict CreateMessageRequest
unfolding trim_space
visitor_request c id p =
    let typed = trim_space p.visitor_token in
    let token = if str_eq typed "" then c.visitor_token else typed in
    if not (str_eq c.role "visitor")
    then nacks id "agent connection cannot send visitor message"
    else if not (str_eq token c.visitor_token)
    then nacks id "invalid visitor_token"
    else lets (record {
      sender_type = "visitor";
      sender_id = trim_space p.sender_id;
      content = p.content;
      client_msg_id = id;
      visitor_token = token;
    })

unfoldable pub agent_request :
    ConnectionContext → String → SendMessagePayload → Verdict CreateMessageRequest
unfolding format_uint
agent_request c id p =
    if not (str_eq c.role "agent")
    then nacks id "agent access_token is required"
    else lets (record {
      sender_type = "agent";
      sender_id = format_uint c.agent_id;
      content = p.content;
      client_msg_id = id;
      visitor_token = p.visitor_token;
    })

unfoldable pub sender_request :
    ConnectionContext → String → SendMessagePayload → Verdict CreateMessageRequest
unfolding visitor_request agent_request to_lower trim_space
sender_request c id p =
    let typed = to_lower (trim_space p.sender_type) in
    let sender_type = if str_eq typed "" then "visitor" else typed in
    if str_eq sender_type "visitor"
    then visitor_request c id p
    else if str_eq sender_type "agent"
    then agent_request c id p
    else nacks id "invalid sender_type"

module _ {W : Type 0} (h : Handler W) (json : Json) where
  -- The checks of onSendMessage, up to the call of chat-service: the conversation and the request.
  unfoldable pub check_message :
      String
      → Option SendMessagePayload
      → ConnectionContext
      → W
      → Verdict (ℕ × CreateMessageRequest)
  unfolding sender_request validate_conversation_site trim_space parse_uint64
  check_message conversation_id sent c w = do
    p ← or_fail "invalid message.send payload" sent
    let id = trim_space p.client_msg_id
    fail_if (str_eq id "") "client_msg_id is required"
    nack_if (str_eq (trim_space p.content) "") id "content is required"
    nack_if (ltb 2000 (rune_count p.content)) id "content is too long (max 2000 characters)"
    number ← or_nack id "invalid conversation_id" (parse_uint64 conversation_id)
    nack_if (str_eq c.site_id "") id "site is unavailable"
    nack_rejected id (validate_conversation_site h c.site_id w)
    request ← sender_request c id p
    lets (number, request)

  -- A refused nack is only logged.
  abbrev pub send_nack : String → String → Line → Line
  send_nack id reason l = (send_on (json.encode (message_nack id reason)) l).1

  unfoldable pub acknowledge :
      String → Answer ChatMessage × W → Line → Result (Unit {0}) × (Line × W)
  acknowledge id (failed_call e, w) l = (ok tt, (send_nack id e.text l, w))
  acknowledge id (given m, w) l =
      let (sent, l') = send_on (json.encode (message_ack id m.id m.status)) l in
      (if sent then ok tt else err (failed "client ack queue is full"), (l', w))

  unfoldable pub act :
      Verdict (ℕ × CreateMessageRequest) → Line → W → Result (Unit {0}) × (Line × W)
  unfolding acknowledge
  act (fails e) l w = (err (failed e), (l, w))
  act (nacks id reason) l w = (ok tt, (send_nack id reason l, w))
  act (lets (number, request)) l w =
      acknowledge request.client_msg_id (h.upstream.create_message number request w) l

  unfoldable pub on_send_message :
      String → String → ConnectionContext → Line → W → Result (Unit {0}) × (Line × W)
  unfolding check_message act
  on_send_message conversation_id raw c l w =
      act (check_message conversation_id (json.send_message raw) c w) l w

  abbrev pub dispatch :
      String → Option Envelope → ConnectionContext → Line → W → Result (Unit {0}) × (Line × W)
  dispatch conversation_id none c l w = (err (failed "invalid payload"), (l, w))
  dispatch conversation_id (some e) c l w =
      if str_eq e.kind "message.send"
      then on_send_message conversation_id e.payload c l w
      else (err (failed "unsupported message type"), (l, w))

  unfoldable pub handle_message :
      String → String → ConnectionContext → Line → W → Result (Unit {0}) × (Line × W)
  unfolding on_send_message
  handle_message conversation_id raw c l w = dispatch conversation_id (json.envelope raw) c l w
