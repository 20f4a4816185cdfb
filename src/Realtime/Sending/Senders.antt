-- ===== src/Realtime/Sending/Senders.antt =====
-- Who a message is from.
use Prim.Native.Nat.{ℕ}
use inline_chat.Realtime.Sending.{
  Verdict, visitor_request, agent_request, sender_request, lets, SendMessagePayload, Json,
  check_message, fails, nacks,
}
use inline_chat.Prelude.{
  Option, ◌≡◌, String, none, str_eq, ◌⊎◌, true, false, inr, inl, some, arith, ◌≤◌, ◌∙◌, ap, refl,
  Bool-cases, if◌then◌else◌, sym,
}
use inline_chat.Realtime.Connections.{ConnectionContext, Handler, validate_conversation_site}
use inline_chat.Realtime.Upstream.{CreateMessageRequest}
use inline_chat.Prelude.Text.{format_uint, trim_space, parse_uint64, rune_count, to_lower}
use inline_chat.Http.{Checked-cases}

pub Verdict-cases :
    {A : Type 0} (v : Verdict A)
    → ((x : A) × (v ≡ lets x))
      ⊎ ((e : String) × (v ≡ fails e))
      ⊎ ((id : String) × (reason : String) × (v ≡ nacks id reason))
Verdict-cases (lets x) = inl (x, refl)
Verdict-cases (fails e) = inr (inl (e, refl))
Verdict-cases (nacks id reason) = inr (inr (id, reason, refl))

pub Option-cases : {A : Type 0} (o : Option A) → (o ≡ none) ⊎ ((x : A) × (o ≡ some x))
Option-cases none = inl refl
Option-cases (some x) = inr (x, refl)

-- An agent's message names the agent of the connection, and a visitor's has the connection's token.
abbrev pub IsFrom : ConnectionContext → CreateMessageRequest → Type 0
IsFrom c r =
    ((str_eq c.role "agent" ≡ true)
      × (r.sender_type ≡ "agent")
      × (r.sender_id ≡ format_uint c.agent_id))
    ⊎ ((str_eq c.role "visitor" ≡ true)
        × (r.sender_type ≡ "visitor")
        × (str_eq r.visitor_token c.visitor_token ≡ true))

-- What the chat service is asked to write for a connection.
abbrev pub IsOwn : ConnectionContext → CreateMessageRequest → Type 0
IsOwn c r =
    IsFrom c r
    × (str_eq r.client_msg_id "" ≡ false)
    × (str_eq (trim_space r.content) "" ≡ false)
    × (rune_count r.content ≤ 2000)

visitor_request-IsFrom :
    (c : ConnectionContext) (id : String) (p : SendMessagePayload) (r : CreateMessageRequest)
    → visitor_request c id p ≡ lets r
    → IsFrom c r × (r.client_msg_id ≡ id) × (r.content ≡ p.content)
unfolding visitor_request
visitor_request-IsFrom c id p r e = (
  inr (ground (arith, e), ground (arith, e), ground (arith, e)),
  ground (arith, e),
  ground (arith, e),
)

agent_request-IsFrom :
    (c : ConnectionContext) (id : String) (p : SendMessagePayload) (r : CreateMessageRequest)
    → agent_request c id p ≡ lets r
    → IsFrom c r × (r.client_msg_id ≡ id) × (r.content ≡ p.content)
unfolding agent_request
agent_request-IsFrom c id p r e = (
  inl (ground (arith, e), ground (arith, e), ground (arith, e)),
  ground (arith, e),
  ground (arith, e),
)

sent_as : String → ConnectionContext → String → SendMessagePayload → Verdict CreateMessageRequest
sent_as sender_type c id p =
    if str_eq sender_type "visitor"
    then visitor_request c id p
    else if str_eq sender_type "agent"
    then agent_request c id p
    else nacks id "invalid sender_type"

sent_as-IsFrom :
    (sender_type : String) (c : ConnectionContext) (id : String) (p : SendMessagePayload)
    (r : CreateMessageRequest)
    → sent_as sender_type c id p ≡ lets r
    → IsFrom c r × (r.client_msg_id ≡ id) × (r.content ≡ p.content)
unfolding sent_as
sent_as-IsFrom sender_type c id p r e = elim (Bool-cases (str_eq sender_type "visitor")) [
  | inl v ↦ visitor_request-IsFrom c id p r (sym (rw v refl) ∙ e)
  | inr o ↦ elim (Bool-cases (str_eq sender_type "agent")) [
    | inl a ↦ agent_request-IsFrom c id p r (sym (rw o (rw a refl)) ∙ e)
    | inr b ↦ absurd (ground (arith, e, o, b))
  ]
]

sender_request-IsFrom :
    (c : ConnectionContext) (id : String) (p : SendMessagePayload) (r : CreateMessageRequest)
    → sender_request c id p ≡ lets r
    → IsFrom c r × (r.client_msg_id ≡ id) × (r.content ≡ p.content)
unfolding sender_request sent_as
sender_request-IsFrom c id p r e =
    let typed = to_lower (trim_space p.sender_type) in
    sent_as-IsFrom (if str_eq typed "" then "visitor" else typed) c id p r e

module _ {W : Type 0} (h : Handler W) (json : Json) where
  pub check_message-IsOwn :
      (conversation_id : String) (sent : Option SendMessagePayload) (c : ConnectionContext) (w : W)
      (number : ℕ) (r : CreateMessageRequest)
      → check_message h json conversation_id sent c w ≡ lets (number, r)
      → (parse_uint64 conversation_id ≡ some number) × IsOwn c r
  unfolding check_message
  check_message-IsOwn conversation_id none c w number r e = absurd (ground (arith, e))
  check_message-IsOwn conversation_id (some p) c w number r e =
      elim (Option-cases (parse_uint64 conversation_id)) [
        | inl a ↦ absurd (ground (arith, a, e))
        | inr (n, a) ↦ elim (Checked-cases (validate_conversation_site h c.site_id w)) [
          | inl (code, text, b) ↦ absurd (ground (arith, a, b, e))
          | inr (site, b) ↦ elim (Verdict-cases (sender_request c (trim_space p.client_msg_id) p)) [
            | inr (inl (x, d)) ↦ absurd (ground (arith, a, b, d, e))
            | inr (inr (x, y, d)) ↦ absurd (ground (arith, a, b, d, e))
            | inl (q, d) ↦
                let same : q ≡ r = ground (arith, a, b, d, e) in
                let (own, id, content) =
                  sender_request-IsFrom c (trim_space p.client_msg_id) p r
                    (d ∙ ap (λ x. lets x) same) in
                (
                  ground (arith, a, b, d, e),
                  (
                    own,
                    ground (arith, a, b, d, e, id),
                    ground (arith, a, b, d, e, content),
                    ground (arith, a, b, d, e, content),
                  ),
                )
          ]
        ]
      ]
