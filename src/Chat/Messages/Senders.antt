-- ===== src/Chat/Messages/Senders.antt =====
-- Who may post a message, and where.
use inline_chat.Prelude.{
  ℕ, String, ◌≡◌, arith, some, none, zero, suc, str_eq, true, false, Option, refl, eq_iff, ◌≤◌, inl,
  inr, sym, ◌∙◌,
}
use inline_chat.Prelude.Text.{trim_space, parse_uint64, rune_count}
use inline_chat.Errors.{ok, is_err, Result-cases}
use inline_chat.Chat.Model.{Conversation}
use inline_chat.Chat.Repository.Conversations
use inline_chat.Chat.Messages.{
  CreateMessageInput, check_sender, check_visitor, check_agent, check_owner, check_content,
  post_message, create_message,
}
use inline_chat.Chat.World.{Service, World}
use inline_chat.Chat.Events.Rules.{with_event_transaction_ran}
use inline_chat.Chat.Events.{with_event_transaction}

-- The conversation is not closed; a visitor shows its token; an agent is its owner.
pub record Allowed (input : CreateMessageInput) (c : Conversation) : Type 0 where
  pub not_closed : str_eq c.status "closed" ≡ false
  pub visitor_known :
      str_eq input.sender_type "visitor" ≡ true
      → str_eq c.visitor_token (trim_space input.visitor_token) ≡ true
  pub agent_owns :
      str_eq input.sender_type "agent" ≡ true
      → (n : ℕ) × (parse_uint64 (trim_space input.sender_id) ≡ some n)
        × (c.assigned_agent_id ≡ some n)

check_owner-owns :
    (sender assigned : Option ℕ)
    → check_owner sender assigned ≡ ok tt
    → (n : ℕ) × (sender ≡ some n) × (assigned ≡ some n)
unfolding check_owner
check_owner-owns none assigned h = ground arith
check_owner-owns (some zero) assigned h = ground arith
check_owner-owns (some (suc n)) none h = ground arith
check_owner-owns (some (suc n)) (some owner) h = (suc n, refl, ground arith)

check_agent-owns :
    (sender : String) (c : Conversation)
    → check_agent sender c ≡ ok tt
    → (n : ℕ) × (parse_uint64 sender ≡ some n) × (c.assigned_agent_id ≡ some n)
unfolding check_agent
check_agent-owns sender c h =
    check_owner-owns (parse_uint64 sender) c.assigned_agent_id (ground arith)

agent_not_visitor :
    (sender_type : String)
    → str_eq sender_type "agent" ≡ true
    → str_eq sender_type "visitor" ≡ false
agent_not_visitor sender_type a = rw ((eq_iff sender_type "agent").0 a)

check_sender-not_closed :
    (input : CreateMessageInput) (c : Conversation)
    → check_sender input c ≡ ok tt
    → str_eq c.status "closed" ≡ false
unfolding check_sender
check_sender-not_closed input c h = ground arith

check_sender-visitor :
    (input : CreateMessageInput) (c : Conversation)
    → check_sender input c ≡ ok tt
    → str_eq input.sender_type "visitor" ≡ true
    → str_eq c.visitor_token (trim_space input.visitor_token) ≡ true
unfolding check_sender check_visitor
check_sender-visitor input c h v = ground arith

check_sender-agent :
    (input : CreateMessageInput) (c : Conversation)
    → check_sender input c ≡ ok tt
    → str_eq input.sender_type "agent" ≡ true
    → check_agent (trim_space input.sender_id) c ≡ ok tt
unfolding check_sender
check_sender-agent input c h a = ground (arith, agent_not_visitor input.sender_type a)

check_sender-Allowed :
    (input : CreateMessageInput) (c : Conversation) → check_sender input c ≡ ok tt → Allowed input c
check_sender-Allowed input c h = record {
  not_closed = check_sender-not_closed input c h;
  visitor_known = check_sender-visitor input c h;
  agent_owns =
      λ a. check_agent-owns (trim_space input.sender_id) c (check_sender-agent input c h a);
}

check_content-fits :
    (input : CreateMessageInput)
    → check_content input ≡ ok tt
    → (str_eq (trim_space input.content) "" ≡ false) × (rune_count input.content ≤ 2000)
unfolding check_content
check_content-fits input h = ground arith

module _ {C M O : Type 0} (svc : Service C M O) where
  -- What a post that succeeded has met.
  abbrev pub Accepted : CreateMessageInput → World C M O → Type 0
  Accepted input w =
      (c : Conversation) × ((Conversations.get_by_id svc input.conversation_id w).0 ≡ ok c)
      × Allowed input c

  post_message-Accepted :
      (input : CreateMessageInput) (w : World C M O)
      → is_err (post_message svc input w).0 ≡ false
      → Accepted input w
  unfolding post_message
  post_message-Accepted input w h =
      elim (Result-cases (Conversations.get_by_id svc input.conversation_id w).0) [
        | inl (x, e) ↦ ground (arith, e)
        | inr (c, e) ↦ elim (Result-cases (check_sender input c)) [
          | inl (x, e') ↦ ground (arith, e, e')
          | inr (u, e') ↦ (c, e, check_sender-Allowed input c e')
        ]
      ]

  same_row :
      (id : ℕ) (v w : World C M O)
      → v.store ≡ w.store
      → (Conversations.get_by_id svc id v).0 ≡ (Conversations.get_by_id svc id w).0
  unfolding Conversations.get_by_id
  same_row id v w e = ground (arith, e)

  transaction_succeeds :
      (input : CreateMessageInput) (now : ℕ) (w : World C M O)
      → is_err (create_message svc input now w).0 ≡ false
      → is_err (with_event_transaction svc (post_message svc input) w).0 ≡ false
  unfolding create_message
  transaction_succeeds input now w h =
      elim (Result-cases (with_event_transaction svc (post_message svc input) w).0) [
        | inl (x, e) ↦ elim (Result-cases (check_content input)) [
          | inl (y, e') ↦ ground (arith, e, e')
          | inr (u, e') ↦ ground (arith, e, e')
        ]
        | inr (p, e) ↦ rw e refl
      ]

  -- A post succeeds only if the conversation is found and not closed, a visitor shows its token, an
  -- agent is its owner, and the text is neither blank nor longer than 2000 characters.
  pub create_message-Accepted :
      (input : CreateMessageInput) (now : ℕ) (w : World C M O)
      → is_err (create_message svc input now w).0 ≡ false
      → (str_eq (trim_space input.content) "" ≡ false)
        × (rune_count input.content ≤ 2000)
        × Accepted input w
  unfolding create_message
  create_message-Accepted input now w h = elim (Result-cases (check_content input)) [
    | inl (x, e) ↦ ground (arith, e)
    | inr (u, e) ↦
        let (blank, long) = check_content-fits input e in
        let (v, same, ran) =
          with_event_transaction_ran svc (post_message svc input) w
            (transaction_succeeds input now w h) in
        let (c, found, allowed) = post_message-Accepted input v ran in
        (blank, long, (c, sym (same_row input.conversation_id v w same) ∙ found, allowed))
  ]
