-- ===== src/Realtime/Serve/Sessions.antt =====
-- What a connection does to the conversation.
use Prim.Native.Nat.{ℕ}
use inline_chat.Prelude.{
  refl, String, ◌≡◌, some, inl, arith, inr, Option, List, Bool-cases, ◌∷◌, str_eq, [], none, subst,
  sym, true, ◌∙◌, ap, Bool, ◌⊎◌, eq_iff, ◌&&◌, not, ◌==◌, false,
}
use inline_chat.Realtime.Connections.{
  Handler, ConnectionContext, is_origin_allowed_for_connection, resolve_connection_context,
}
use inline_chat.Realtime.Upstream.{Upstream, CreateMessageRequest, ChatMessage}
use inline_chat.Realtime.Sending.{
  Json, acknowledge, on_send_message, act, check_message, Envelope, handle_message, dispatch,
}
use inline_chat.Realtime.Sending.Senders.{IsOwn, Verdict-cases, check_message-IsOwn}
use inline_chat.Realtime.Client.{Line, new_client}
use inline_chat.Grpc.{Answer, failed_call, given}
use inline_chat.Prelude.Text.{parse_uint64, trim_space}
use inline_chat.Realtime.Serve.{
  on_event, read_loop, admit, ServeRequest, Event, passes, writes, broadcasts, Ending, receives,
  after_replay, checked_id, checked_last, serve, run_connection,
}
use inline_chat.Realtime.Hub.{Hub, unregister, register}
use inline_chat.Realtime.Connections.Access.{Granted, resolve_connection_context-Granted}
use inline_chat.Http.{Checked-cases}
use inline_chat.Errors.{Result, err, ok}
use inline_chat.Realtime.Replay.{replay_messages}
use inline_chat.Realtime.Hub.Subscriptions.{member, member-register, member-unregister}

-- The calls of CreateMessage that a connection may make, one after another.
pub data Forwards {W : Type 0} (up : Upstream W) (number : ℕ) (c : ConnectionContext)
    : W → W → Type 0 where
  idle : {w : W} → Forwards up number c w w
  forwards :
      {w w' : W} (r : CreateMessageRequest)
      → IsOwn c r
      → Forwards up number c (up.create_message number r w).1 w'
      → Forwards up number c w w'

same_number : {m n : ℕ} → some m ≡ some n → m ≡ n
same_number e = ground (arith, e)

Forwards-trans :
    {W : Type 0} (up : Upstream W) (number : ℕ) (c : ConnectionContext) {w₁ w₂ w₃ : W}
    → Forwards up number c w₁ w₂
    → Forwards up number c w₂ w₃
    → Forwards up number c w₁ w₃
Forwards-trans up number c idle g = g
Forwards-trans up number c (forwards r own f) g = forwards r own (Forwards-trans up number c f g)

-- Who is left when a client has joined and gone.
left-others :
    (v : String) (p : ℕ) (hub : Hub) (v' : String) (q : ℕ)
    → member v' q (unregister v p (register v p hub))
      ≡ (member v' q hub && not (str_eq v v' && p == q))
left-others v p hub v' q =
    member-unregister v v' p q (register v p hub)
    ∙ ap (λ b. b && not (str_eq v v' && p == q)) (member-register v v' p q hub)
    ∙ ground arith

left-member :
    (v : String) (p : ℕ) (hub : Hub) → member v p (unregister v p (register v p hub)) ≡ false
left-member v p hub = left-others v p hub v p ∙ ground (arith, (eq_iff v v).1 refl)

module _ {W : Type 0} (h : Handler W) (json : Json) where
  acknowledge-world :
      (id : String) (a : Answer ChatMessage × W) (l : Line) → (acknowledge h json id a l).1.1 ≡ a.1
  unfolding acknowledge
  acknowledge-world id (failed_call e, w) l = refl
  acknowledge-world id (given m, w) l = refl

  on_send_message-Forwards :
      (conversation_id raw : String) (number : ℕ) (c : ConnectionContext) (l : Line) (w : W)
      → parse_uint64 conversation_id ≡ some number
      → Forwards h.upstream number c w (on_send_message h json conversation_id raw c l w).1.1
  unfolding on_send_message act
  on_send_message-Forwards conversation_id raw number c l w parsed =
      elim (Verdict-cases (check_message h json conversation_id (json.send_message raw) c w)) [
        | inl ((n, r), a) ↦
            let (named, own) =
              check_message-IsOwn h json conversation_id (json.send_message raw) c w n r a in
            let same : n ≡ number = same_number (sym named ∙ parsed) in
            let made =
              (acknowledge h json r.client_msg_id (h.upstream.create_message n r w) l).1.1 in
            let world = acknowledge-world r.client_msg_id (h.upstream.create_message n r w) l in
            rw a (
              subst (λ k. Forwards h.upstream k c w made) same
                (subst (Forwards h.upstream n c w) (sym world) (forwards r own idle)))
        | inr (inl (e, a)) ↦ rw a idle
        | inr (inr (id, reason, a)) ↦ rw a idle
      ]

  dispatch-Forwards :
      (conversation_id : String) (sent : Option Envelope) (number : ℕ) (c : ConnectionContext)
      (l : Line) (w : W)
      → parse_uint64 conversation_id ≡ some number
      → Forwards h.upstream number c w (dispatch h json conversation_id sent c l w).1.1
  dispatch-Forwards conversation_id none number c l w parsed = idle
  dispatch-Forwards conversation_id (some e) number c l w parsed =
      elim (Bool-cases (str_eq e.kind "message.send")) [
        | inl a ↦ rw a (on_send_message-Forwards conversation_id e.payload number c l w parsed)
        | inr a ↦ rw a idle
      ]

  on_event-Forwards :
      (conversation_id : String) (number : ℕ) (c : ConnectionContext) (e : Event) (l : Line) (w : W)
      → parse_uint64 conversation_id ≡ some number
      → Forwards h.upstream number c w (on_event h json conversation_id c e l w).1
  unfolding on_event handle_message
  on_event-Forwards conversation_id number c (writes n) l w parsed = idle
  on_event-Forwards conversation_id number c (broadcasts payload) l w parsed = idle
  on_event-Forwards conversation_id number c (receives raw) l w parsed =
      dispatch-Forwards conversation_id (json.envelope raw) number c l w parsed

  read_loop-Forwards :
      (conversation_id : String) (number : ℕ) (c : ConnectionContext) (es : List Event) (l : Line)
      (w : W)
      → parse_uint64 conversation_id ≡ some number
      → Forwards h.upstream number c w (read_loop h json conversation_id c es l w).1
  unfolding read_loop
  read_loop-Forwards conversation_id number c [] l w parsed = idle
  read_loop-Forwards conversation_id number c (e ∷ es) l w parsed =
      let next = on_event h json conversation_id c e l w in
      Forwards-trans h.upstream number c (on_event-Forwards conversation_id number c e l w parsed)
        (read_loop-Forwards conversation_id number c es next.0 next.1 parsed)

  -- What is left of a connection when it ends: the client takes no part in the conversation, all others
  -- take part where they did, and the messages written are its own.
  abbrev pub HasEnded :
      String → ℕ → ConnectionContext → ℕ → Hub → W → Ending × Hub × Line × W → Type 0
  HasEnded conversation_id number c p hub w out =
      (member conversation_id p out.1 ≡ false)
      × ((v : String) (q : ℕ)
          → member v q out.1 ≡ (member v q hub && not (str_eq conversation_id v && p == q)))
      × Forwards h.upstream number c w out.3

  after_replay-HasEnded :
      (conversation_id : String) (number : ℕ) (c : ConnectionContext) (p : ℕ) (events : List Event)
      (hub : Hub) (w : W) (replayed : Result (Unit {0}) × Line)
      → parse_uint64 conversation_id ≡ some number
      → HasEnded conversation_id number c p hub w (
          after_replay h json conversation_id c p events
            (register conversation_id p hub)
            w
            replayed)
  unfolding after_replay
  after_replay-HasEnded conversation_id number c p events hub w (err e, l) parsed =
      (left-member conversation_id p hub, left-others conversation_id p hub, idle)
  after_replay-HasEnded conversation_id number c p events hub w (ok x, l) parsed = (
    left-member conversation_id p hub,
    left-others conversation_id p hub,
    read_loop-Forwards conversation_id number c events l w parsed,
  )

  checked_id-number : (o : Option ℕ) (n : ℕ) → checked_id o ≡ passes n → o ≡ some n
  checked_id-number none n e = absurd (ground (arith, e))
  checked_id-number (some m) n e = ground (arith, e)

  admit-Granted :
      (r : ServeRequest) (now : ℕ) (w : W) (number last : ℕ) (c : ConnectionContext)
      → admit h json r now w ≡ passes (number, last, c)
      → (parse_uint64 r.conversation_id ≡ some number)
        × Granted h r.access_token r.visitor_token number now w c
        × (is_origin_allowed_for_connection h r.origin c ≡ true)
  unfolding admit
  admit-Granted r now w number last c e =
      elim (Checked-cases (checked_id (parse_uint64 r.conversation_id))) [
        | inl (code, text, a) ↦ absurd (ground (arith, a, e))
        | inr (n, a) ↦ elim (Checked-cases (checked_last (trim_space r.last_message_id))) [
          | inl (code, text, b) ↦ absurd (ground (arith, a, b, e))
          | inr (m, b) ↦
              elim (Checked-cases
                (resolve_connection_context h r.access_token r.visitor_token n now w)) [
                  | inl (code, text, d) ↦ absurd (ground (arith, a, b, d, e))
                  | inr (k, d) ↦
                      let parsed = checked_id-number (parse_uint64 r.conversation_id) n a in
                      let same : n ≡ number = ground (arith, a, b, d, e) in
                      let who : k ≡ c = ground (arith, a, b, d, e) in
                      let granted =
                        resolve_connection_context-Granted h r.access_token r.visitor_token n now w
                          c (d ∙ ap (λ x. passes x) who) in
                      (
                        parsed ∙ ap (λ x. some x) same,
                        subst (λ x. Granted h r.access_token r.visitor_token x now w c) same
                            granted,
                        ground (arith, a, b, d, e),
                      )
                ]
        ]
      ]

  -- A request that does not open a connection leaves the hub and the chat service as they are, and sends
  -- nothing. One that does comes from an origin that its connection allows, and either an agent of the
  -- conversation's site or the visitor who has the conversation's token stands behind it. Whatever
  -- happens on it, chat-service is asked to write into that conversation only, as that agent or with that
  -- token, and when it ends, the client takes no part in the conversation, and everyone else takes part
  -- where they did.
  pub serve-HasEnded :
      (r : ServeRequest) (now : ℕ) (upgraded : Bool) (p : ℕ) (pace : List ℕ) (events : List Event)
      (hub : Hub) (w : W)
      → (((serve h json r now upgraded p pace events hub w).1 ≡ hub)
          × ((serve h json r now upgraded p pace events hub w).2.wire ≡ [])
          × ((serve h json r now upgraded p pace events hub w).3 ≡ w))
        ⊎ ((number : ℕ) × (c : ConnectionContext) × (parse_uint64 r.conversation_id ≡ some number)
            × Granted h r.access_token r.visitor_token number now w c
            × (is_origin_allowed_for_connection h r.origin c ≡ true)
            × HasEnded r.conversation_id number c p hub w
                (serve h json r now upgraded p pace events hub w))
  unfolding serve run_connection
  serve-HasEnded r now upgraded p pace events hub w = elim (Checked-cases (admit h json r now w)) [
    | inl (code, text, a) ↦ inl (rw (a, serve) (refl, refl, refl))
    | inr ((number, last, c), a) ↦ elim (Bool-cases upgraded) [
      | inr unable ↦ inl (rw (a, serve) (rw unable (refl, refl, refl)))
      | inl able ↦
          let (parsed, granted, allowed) = admit-Granted r now w number last c a in
          let ended =
            after_replay-HasEnded r.conversation_id number c p events hub w
              (replay_messages h.upstream json.encode number last w pace
                (record { client = new_client; wire = [] }))
              parsed in
          inr (number, c, parsed, granted, allowed, rw (a, serve) (rw able ended))
    ]
  ]
