-- ===== src/Realtime/Serve.antt =====
-- services/realtime-service/internal/ws/handler.go: a connection from its request to its end.
pub mod Sessions
use Prim.Native.Nat.{ℕ}
use inline_chat.Realtime.Connections.{
  Handler, ConnectionContext, resolve_connection_context, is_origin_allowed_for_connection,
}
use inline_chat.Http.{◌>>=◌, ◌>>◌, Checked, rejects, passes, reject_if}
use inline_chat.Prelude.{
  if◌then◌else◌, String, Option, List, Bool, str_eq, some, ◌∷◌, ◌==◌, none, not, [],
}
use inline_chat.Realtime.Sending.{Json, handle_message}
use inline_chat.Prelude.Text.{trim_space, parse_uint64}
use inline_chat.Errors.{Result, error_text, ok, err}
use inline_chat.Realtime.Replay.{replay_messages, client_error}
use inline_chat.Realtime.Client.{Line, write_loop, new_client, send_on, close}
use inline_chat.Realtime.Hub.{register, Hub, unregister, offer}

-- What Serve reads from the request.
pub record ServeRequest : Type 0 where
  pub conversation_id : String
  pub last_message_id : String
  pub access_token : String
  pub visitor_token : String
  pub origin : String

abbrev pub checked_id : Option ℕ → Checked ℕ
checked_id none = rejects 400 "invalid conversation_id"
checked_id (some n) = if n == 0 then rejects 400 "invalid conversation_id" else passes n

abbrev pub last_message : Option ℕ → Checked ℕ
last_message none = rejects 400 "invalid last_message_id"
last_message (some n) = passes n

abbrev pub checked_last : String → Checked ℕ
checked_last raw = if str_eq raw "" then passes 0 else last_message (parse_uint64 raw)

-- What happens on an open connection: the WriteLoop takes some messages, the hub broadcasts to it, or
-- the client sends a message.
pub data Event : Type 0 where
  writes : ℕ → Event
  broadcasts : String → Event
  receives : String → Event

pub data Ending : Type 0 where
  responds : ℕ → String → Ending
  not_upgraded replay_fails disconnects : Ending

module _ {W : Type 0} (h : Handler W) (json : Json) where
  -- Serve up to the upgrade: the conversation, the last message that the client has, and who it is.
  unfoldable pub admit : ServeRequest → ℕ → W → Checked (ℕ × ℕ × ConnectionContext)
  unfolding resolve_connection_context is_origin_allowed_for_connection trim_space parse_uint64
  admit r now w = do
    reject_if (str_eq r.conversation_id "") 400 "conversation_id is required"
    number ← checked_id (parse_uint64 r.conversation_id)
    last ← checked_last (trim_space r.last_message_id)
    c ← resolve_connection_context h r.access_token r.visitor_token number now w
    reject_if (not (is_origin_allowed_for_connection h r.origin c)) 403 "origin is not allowed"
    passes (number, last, c)

  -- The ReadLoop reports an error to the client; a report that is refused is dropped.
  abbrev pub report : Result (Unit {0}) → Line → Line
  report (ok x) l = l
  report (err e) l = (send_on (json.encode (client_error (error_text e))) l).1

  unfoldable pub on_event : String → ConnectionContext → Event → Line → W → Line × W
  unfolding handle_message error_text
  on_event conversation_id c (writes n) l w = (write_loop n l, w)
  on_event conversation_id c (broadcasts payload) l w =
      (record l { client = offer payload l.client }, w)
  on_event conversation_id c (receives raw) l w =
      let (result, (l', w')) = handle_message h json conversation_id raw c l w in
      (report result l', w')

  unfoldable pub read_loop : String → ConnectionContext → List Event → Line → W → Line × W
  unfolding on_event
  read_loop conversation_id c [] l w = (l, w)
  read_loop conversation_id c (e ∷ es) l w =
      let (l', w') = on_event conversation_id c e l w in read_loop conversation_id c es l' w'

  -- Serve after the replay; `p` is the client's pointer.
  unfoldable pub after_replay :
      String
      → ConnectionContext
      → ℕ
      → List Event
      → Hub
      → W
      → Result (Unit {0}) × Line
      → Ending × Hub × Line × W
  unfolding read_loop unregister
  after_replay conversation_id c p events joined w (err e, l) =
      (replay_fails, unregister conversation_id p joined, record l { client = close l.client }, w)
  after_replay conversation_id c p events joined w (ok x, l) =
      let (l', w') = read_loop conversation_id c events l w in
      (disconnects, unregister conversation_id p joined, l', w')

  -- Serve after the upgrade.
  unfoldable pub run_connection :
      String
      → ℕ × ℕ × ConnectionContext
      → ℕ
      → List ℕ
      → List Event
      → Hub
      → W
      → Ending × Hub × Line × W
  unfolding replay_messages after_replay register
  run_connection conversation_id (number, last, c) p pace events hub w =
      after_replay conversation_id c p events (register conversation_id p hub) w (
        replay_messages h.upstream json.encode number last w pace
          (record { client = new_client; wire = [] }))

  -- Serve with the time, whether the upgrade succeeds, and what happens on the connection.
  unfoldable pub serve :
      ServeRequest → ℕ → Bool → ℕ → List ℕ → List Event → Hub → W → Ending × Hub × Line × W
  unfolding admit run_connection
  serve r now upgraded p pace events hub w =
      let idle : Line = record { client = new_client; wire = [] } in
      elim (admit r now w) [
        | rejects code text ↦ (responds code text, hub, idle, w)
        | passes admitted ↦
            if not upgraded
            then (not_upgraded, hub, idle, w)
            else run_connection r.conversation_id admitted p pace events hub w
      ]
