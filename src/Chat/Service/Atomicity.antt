-- ===== src/Chat/Service/Atomicity.antt =====
-- Requests are all or nothing.
use inline_chat.Prelude.{◌≡◌, true, false, arith, inl, inr, ap}
use inline_chat.Chat.World.{Service, Action}
use inline_chat.Chat.Service.{
  serve, World, Request, ignoring, creates, create_conversation, gets, get_conversation, lists,
  claims, transfers, confirms, rejects, closes, posts, reads, lists_messages, times_out,
}
use inline_chat.Errors.{is_err, Result-cases}
use inline_chat.Chat.Conversations.Atomicity.{
  create_conversation-Atomic, get_conversation-Reads, list_conversations-Reads,
  claim_conversation-atomic, transfer_conversation-Atomic, confirm_transfer_conversation-Atomic,
  reject_transfer_conversation-Atomic, close_conversation-Atomic,
}
use inline_chat.Chat.Conversations.{
  list_conversations, claim_conversation, transfer_conversation, confirm_transfer_conversation,
  reject_transfer_conversation, close_conversation,
}
use inline_chat.Chat.Messages.{create_message, mark_messages_read, list_messages}
use inline_chat.Chat.Messages.Atomicity.{
  create_message-Atomic, mark_messages_read-Atomic, list_messages-Reads,
}
use inline_chat.Chat.AutoClose.Atomicity.{auto_close_by_timeout-Atomic}

module _ {C M O : Type 0} (svc : Service C M O) where
  ignoring-atomic :
      {A : Type 0} (m : Action C M O A) (w : World C M O)
      → (is_err (m w).0 ≡ true → (m w).1.store ≡ w.store)
      → is_err (ignoring m w).0 ≡ true
      → (ignoring m w).1.store ≡ w.store
  ignoring-atomic m w h e = elim (Result-cases (m w).0) [
    | inl (x, failed) ↦ ground (arith, failed)
    | inr (a, done) ↦ ground (arith, done)
  ]

  -- Where events go through the outbox, a request that ends in an error has left the database as it
  -- was, whatever it had written before it failed.
  pub serve-atomic :
      (r : Request) (w : World C M O)
      → svc.outbox_enabled ≡ true
      → w.in_transaction ≡ false
      → is_err (serve svc r w).0 ≡ true
      → (serve svc r w).1.store ≡ w.store
  unfolding serve
  serve-atomic (creates site token) w on outside =
      ignoring-atomic (create_conversation svc site token) w
        (create_conversation-Atomic svc site token w)
  serve-atomic (gets id) w on outside =
      ignoring-atomic (get_conversation svc id) w
        (λ e. ap (λ v. v.store) (get_conversation-Reads svc id w))
  serve-atomic (lists status site agent unassigned limit offset) w on outside =
      ignoring-atomic (list_conversations svc status site agent unassigned limit offset) w (λ e.
        ap (λ v. v.store)
          (list_conversations-Reads svc status site agent unassigned limit offset w))
  serve-atomic (claims id agent) w on outside =
      ignoring-atomic (claim_conversation svc id agent) w
        (claim_conversation-atomic svc id agent w outside)
  serve-atomic (transfers id actor role to now stamp) w on outside =
      ignoring-atomic (transfer_conversation svc id actor role to now stamp) w
        (transfer_conversation-Atomic svc on id actor role to now stamp w)
  serve-atomic (confirms id actor role stamp) w on outside =
      ignoring-atomic (confirm_transfer_conversation svc id actor role stamp) w
        (confirm_transfer_conversation-Atomic svc on id actor role stamp w)
  serve-atomic (rejects id actor role stamp) w on outside =
      ignoring-atomic (reject_transfer_conversation svc id actor role stamp) w
        (reject_transfer_conversation-Atomic svc on id actor role stamp w)
  serve-atomic (closes id actor role now) w on outside =
      ignoring-atomic (close_conversation svc id actor role now) w
        (close_conversation-Atomic svc on id actor role now w)
  serve-atomic (posts input now) w on outside =
      ignoring-atomic (create_message svc input now) w (create_message-Atomic svc on input now w)
  serve-atomic (reads id last actor_type agent token) w on outside =
      ignoring-atomic (mark_messages_read svc id last actor_type agent token) w
        (mark_messages_read-Atomic svc on id last actor_type agent token w)
  serve-atomic (lists_messages id limit before) w on outside =
      ignoring-atomic (list_messages svc id limit before) w
        (λ e. ap (λ v. v.store) (list_messages-Reads svc id limit before w))
  serve-atomic (times_out id now) w on outside = auto_close_by_timeout-Atomic svc on id now w
