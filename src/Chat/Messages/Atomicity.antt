-- ===== src/Chat/Messages/Atomicity.antt =====
-- The requests on messages are all or nothing where the outbox is enabled.
use inline_chat.Prelude.{ℕ, String, ◌≡◌, true, arith, inl, inr}
use inline_chat.Chat.World.{Service, World}
use inline_chat.Chat.Messages.{
  on_message_created_for_auto_close, create_message, mark_messages_read, list_messages, Message,
  CreateMessageInput, ok, check_content, normalize_actor_type, with_event_transaction, post_message,
  mark_in_transaction,
}
use inline_chat.Chat.World.Rules.{Atomic}
use inline_chat.Errors.{Result-cases}
use inline_chat.Chat.Events.Rules.{with_event_transaction-Atomic}

module _ {C M O : Type 0} (svc : Service C M O) (on : svc.outbox_enabled ≡ true) where
  on_message_created-Succeeds :
      (now : ℕ) (m : Message) (w : World C M O)
      → (on_message_created_for_auto_close svc now m w).0 ≡ ok tt
  unfolding on_message_created_for_auto_close
  on_message_created-Succeeds now m w = ground arith

  pub create_message-Atomic :
      (input : CreateMessageInput) (now : ℕ) → Atomic (create_message svc input now)
  unfolding create_message
  create_message-Atomic input now w h = elim (Result-cases (check_content input)) [
    | inl (x, e) ↦ ground (arith, e)
    | inr (checked, e) ↦
        let inside = with_event_transaction svc (post_message svc input) in
        elim (Result-cases (inside w).0) [
          | inl (x, failed) ↦
              ground
                (arith, e, failed, with_event_transaction-Atomic svc (post_message svc input) on w)
          | inr (p, done) ↦
              ground (arith, e, done, on_message_created-Succeeds now p.message (inside w).1)
        ]
  ]

  pub mark_messages_read-Atomic :
      (id last : ℕ) (raw : String) (agent : ℕ) (token : String)
      → Atomic (mark_messages_read svc id last raw agent token)
  unfolding mark_messages_read
  mark_messages_read-Atomic id last raw agent token w h =
      elim (Result-cases (normalize_actor_type raw)) [
        | inl (x, e) ↦ ground (arith, e)
        | inr (actor_type, e) ↦ ground (
          arith,
          e,
          with_event_transaction-Atomic svc (mark_in_transaction svc actor_type id last agent token)
              on w,
        )
      ]

module _ {C M O : Type 0} (svc : Service C M O) where
  pub list_messages-Reads :
      (id limit before : ℕ) (w : World C M O) → (list_messages svc id limit before w).1 ≡ w
  unfolding list_messages
  list_messages-Reads id limit before w = ground arith
