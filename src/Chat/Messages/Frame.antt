-- ===== src/Chat/Messages/Frame.antt =====
-- The requests on messages leave the conversations table alone.
use inline_chat.Chat.Repository.Messages as Rows
use inline_chat.Chat.Repository.Conversations
use inline_chat.Prelude.{
  ℕ, String, ◌≡◌, arith, refl, List, ◌∙◌, inl, ◌∷◌, inr, ◌+◌, [], if◌then◌else◌,
}
use inline_chat.Chat.World.{Service, Action, World, pure, ◌>>=◌}
use inline_chat.Chat.Messages.{
  insert_message, post_message, create_message, find_message, after_insert, CreateMessageInput,
  reuse_or_insert, on_message_created_for_auto_close, mark_one, mark_each, mark_in_transaction,
  mark_messages_read, message_of, target_sender_types, Posted,
}
use inline_chat.Chat.Events.{with_event_transaction}
use inline_chat.Chat.Model.{Message}
use inline_chat.Chat.Events.Rules.{Keeps-event_transaction}
use inline_chat.Errors.{Result, Result-cases, ok, err}
use inline_chat.Chat.Events.Conversations.{
  emit_message_status_range-conversations, emit_message_created-conversations,
}
use inline_chat.Chat.Format.{normalize_actor_type}

module _ {C M O : Type 0} (svc : Service C M O) where
  -- The conversations after an action are those before it.
  abbrev pub KeepsConversations : {A : Type 0} → Action C M O A → Type 0
  KeepsConversations m = (w : World C M O) → (m w).1.store.conversations ≡ w.store.conversations

  get_row-Reads : (id : ℕ) (w : World C M O) → (Conversations.get_by_id svc id w).1 ≡ w
  unfolding Conversations.get_by_id
  get_row-Reads id w = refl

  event_transaction-conversations :
      {A : Type 0} (m : Action C M O A)
      → KeepsConversations m
      → KeepsConversations (with_event_transaction svc m)
  event_transaction-conversations m k w =
      Keeps-event_transaction svc (λ s. s.conversations ≡ w.store.conversations) m (λ v h. k v ∙ h)
        w refl

  create_row-conversations : (m : Message) → KeepsConversations (Rows.create svc m)
  unfolding Rows.create
  create_row-conversations m w = ground arith

  find_message-Reads :
      (input : CreateMessageInput) (w : World C M O) → (find_message svc input w).1 ≡ w
  unfolding find_message
  find_message-Reads input w = refl

  after_insert-conversations :
      (input : CreateMessageInput) (r : Result Message)
      → KeepsConversations (after_insert svc input r)
  unfolding after_insert
  after_insert-conversations input (ok m) w =
      ground (arith, emit_message_created-conversations svc m w)
  after_insert-conversations input (err x) w = elim (Result-cases (find_message svc input w).0) [
    | inl (y, e) ↦ ground (arith, e, find_message-Reads input w)
    | inr (m, e) ↦ ground (arith, e, find_message-Reads input w)
  ]

  insert_message-conversations :
      (input : CreateMessageInput) → KeepsConversations (insert_message svc input)
  unfolding insert_message
  insert_message-conversations input w =
      let inserted = Rows.create svc (message_of input) w in
      after_insert-conversations input inserted.0 inserted.1
      ∙ create_row-conversations (message_of input) w

  reuse_or_insert-conversations :
      (input : CreateMessageInput) (r : Result Message)
      → KeepsConversations (reuse_or_insert svc input r)
  unfolding reuse_or_insert
  reuse_or_insert-conversations input (ok m) w = refl
  reuse_or_insert-conversations input (err x) w =
      ground (arith, insert_message-conversations input w)

  post_message-conversations :
      (input : CreateMessageInput) → KeepsConversations (post_message svc input)
  unfolding post_message
  post_message-conversations input w =
      elim (Result-cases (Conversations.get_by_id svc input.conversation_id w).0) [
        | inl (x, e) ↦ ground (arith, e, get_row-Reads input.conversation_id w)
        | inr (c, e) ↦ ground (
          arith,
          e,
          get_row-Reads input.conversation_id w,
          find_message-Reads input w,
          reuse_or_insert-conversations input (find_message svc input w).0 w,
        )
      ]

  on_message_created-conversations :
      (now : ℕ) (m : Message) → KeepsConversations (on_message_created_for_auto_close svc now m)
  unfolding on_message_created_for_auto_close
  on_message_created-conversations now m w = ground arith

  -- What follows the transaction of a post.
  abbrev settle : ℕ → Posted → Action C M O Message
  settle now p =
      (if p.created then on_message_created_for_auto_close svc now p.message else pure tt) >>= λ _.
      pure p.message

  settle-conversations : (now : ℕ) (p : Posted) → KeepsConversations (settle now p)
  settle-conversations now p w = ground (arith, on_message_created-conversations now p.message w)

  -- Posting a message.
  pub create_message-conversations :
      (input : CreateMessageInput) (now : ℕ) → KeepsConversations (create_message svc input now)
  unfolding create_message
  create_message-conversations input now w =
      let inside = with_event_transaction svc (post_message svc input) in
      let kept =
        event_transaction-conversations (post_message svc input) (post_message-conversations input)
          w in
      elim (Result-cases (inside w).0) [
        | inl (x, e) ↦ ground (arith, e, kept)
        | inr (p, e) ↦ ground (arith, e, kept, settle-conversations now p (inside w).1)
      ]

  mark_row-conversations :
      (id : ℕ) (sender : String) (last : ℕ)
      → KeepsConversations (Rows.mark_read_by_conversation_and_sender svc id sender last)
  unfolding Rows.mark_read_by_conversation_and_sender
  mark_row-conversations id sender last w = ground arith

  mark_one-conversations :
      (id last : ℕ) (sender : String) → KeepsConversations (mark_one svc id last sender)
  unfolding mark_one
  mark_one-conversations id last sender w =
      let marked = Rows.mark_read_by_conversation_and_sender svc id sender last w in
      ground (
        arith,
        mark_row-conversations id sender last w,
        emit_message_status_range-conversations svc id sender last "read" marked.1,
      )

  mark_each-conversations :
      (id last : ℕ) (senders : List String) (total : ℕ)
      → KeepsConversations (mark_each svc id last senders total)
  unfolding mark_each
  mark_each-conversations id last [] total w = refl
  mark_each-conversations id last (s ∷ ss) total w =
      elim (Result-cases (mark_one svc id last s w).0) [
        | inl (x, e) ↦ ground (arith, e, mark_one-conversations id last s w)
        | inr (n, e) ↦ ground (
          arith,
          e,
          mark_one-conversations id last s w,
          mark_each-conversations id last ss (total + n) (mark_one svc id last s w).1,
        )
      ]

  mark_in_transaction-conversations :
      (actor_type : String) (id last agent : ℕ) (token : String)
      → KeepsConversations (mark_in_transaction svc actor_type id last agent token)
  unfolding mark_in_transaction
  mark_in_transaction-conversations actor_type id last agent token w =
      elim (Result-cases (Conversations.get_by_id svc id w).0) [
        | inl (x, e) ↦ ground (arith, e, get_row-Reads id w)
        | inr (c, e) ↦ elim (Result-cases (target_sender_types svc actor_type agent token c)) [
          | inl (x, e') ↦ ground (arith, e, e', get_row-Reads id w)
          | inr (senders, e') ↦
              ground (arith, e, e', get_row-Reads id w, mark_each-conversations id last senders 0 w)
        ]
      ]

  -- Marking messages as read.
  pub mark_messages_read-conversations :
      (id last : ℕ) (raw : String) (agent : ℕ) (token : String)
      → KeepsConversations (mark_messages_read svc id last raw agent token)
  unfolding mark_messages_read
  mark_messages_read-conversations id last raw agent token w =
      elim (Result-cases (normalize_actor_type raw)) [
        | inl (x, e) ↦ ground (arith, e)
        | inr (actor_type, e) ↦ ground (
          arith,
          e,
          event_transaction-conversations (mark_in_transaction svc actor_type id last agent token)
              (mark_in_transaction-conversations actor_type id last agent token) w,
        )
      ]
