-- ===== src/Chat/Conversations/Atomicity.antt =====
-- The requests on conversations are all or nothing where the outbox is enabled.
use inline_chat.Prelude.{ℕ, String, ◌≡◌, true, arith, inl, inr, false}
use inline_chat.Errors.{ok, is_err, Result-cases}
use inline_chat.Chat.World.{Service, World}
use inline_chat.Chat.Conversations.{
  transfer_conversation, normalize_actor_role, transfer_in_transaction,
  confirm_transfer_conversation, reject_transfer_conversation, cancel_timer, close_conversation,
  create_conversation, claim_conversation, get_conversation, list_conversations, Conversation,
  Option, Bool, confirm_in_transaction, reject_in_transaction, with_event_transaction, ℤ,
  close_in_transaction, return, claim_row,
}
use inline_chat.Chat.World.Rules.{Atomic}
use inline_chat.Chat.Events.Rules.{with_event_transaction-Atomic, with_transaction-Atomic}
use inline_chat.Chat.Repository.Conversations.{mutate_in_db}

module _ {C M O : Type 0} (svc : Service C M O) (on : svc.outbox_enabled ≡ true) where
  pub transfer_conversation-Atomic :
      (id actor : ℕ) (raw : String) (to now stamp : ℕ)
      → Atomic (transfer_conversation svc id actor raw to now stamp)
  unfolding transfer_conversation
  transfer_conversation-Atomic id actor raw to now stamp w h =
      elim (Result-cases (normalize_actor_role raw)) [
        | inl (x, e) ↦ ground (arith, e)
        | inr (role, e) ↦ ground (
          arith,
          e,
          with_event_transaction-Atomic svc (transfer_in_transaction svc role id actor to now stamp)
              on w,
        )
      ]

  pub confirm_transfer_conversation-Atomic :
      (id actor : ℕ) (raw : String) (stamp : ℕ)
      → Atomic (confirm_transfer_conversation svc id actor raw stamp)
  unfolding confirm_transfer_conversation
  confirm_transfer_conversation-Atomic id actor raw stamp w h =
      elim (Result-cases (normalize_actor_role raw)) [
        | inl (x, e) ↦ ground (arith, e)
        | inr (role, e) ↦ ground (
          arith,
          e,
          with_event_transaction-Atomic svc (confirm_in_transaction svc role id actor stamp) on w,
        )
      ]

  pub reject_transfer_conversation-Atomic :
      (id actor : ℕ) (raw : String) (stamp : ℕ)
      → Atomic (reject_transfer_conversation svc id actor raw stamp)
  unfolding reject_transfer_conversation
  reject_transfer_conversation-Atomic id actor raw stamp w h =
      elim (Result-cases (normalize_actor_role raw)) [
        | inl (x, e) ↦ ground (arith, e)
        | inr (role, e) ↦ ground (
          arith,
          e,
          with_event_transaction-Atomic svc (reject_in_transaction svc role id actor stamp) on w,
        )
      ]

  cancel_timer-Succeeds : (c : Conversation) (w : World C M O) → (cancel_timer svc c w).0 ≡ ok tt
  unfolding cancel_timer
  cancel_timer-Succeeds c w = ground arith

  pub close_conversation-Atomic :
      (id actor : ℕ) (raw : String) (now : ℕ) → Atomic (close_conversation svc id actor raw now)
  unfolding close_conversation
  close_conversation-Atomic id actor raw now w h = elim (Result-cases (normalize_actor_role raw)) [
    | inl (x, e) ↦ ground (arith, e)
    | inr (role, e) ↦
        let inside = with_event_transaction svc (close_in_transaction svc role id actor now) in
        elim (Result-cases (inside w).0) [
          | inl (x, failed) ↦ ground (
            arith,
            e,
            failed,
            with_event_transaction-Atomic svc (close_in_transaction svc role id actor now) on w,
          )
          | inr (c, done) ↦ ground (arith, e, done, cancel_timer-Succeeds c (inside w).1)
        ]
  ]

module _ {C M O : Type 0} (svc : Service C M O) where
  pub create_conversation-Atomic :
      (site token : String) → Atomic (create_conversation svc site token)
  unfolding create_conversation
  create_conversation-Atomic site token w h = ground arith

  pub claim_conversation-atomic :
      (id agent : ℕ) (w : World C M O)
      → w.in_transaction ≡ false
      → is_err (claim_conversation svc id agent w).0 ≡ true
      → (claim_conversation svc id agent w).1.store ≡ w.store
  unfolding claim_conversation
  claim_conversation-atomic id agent w outside h =
      ground (
        arith,
        with_transaction-Atomic svc (mutate_in_db svc id (λ c. return (claim_row agent c))) w,
      )

  pub get_conversation-Reads : (id : ℕ) (w : World C M O) → (get_conversation svc id w).1 ≡ w
  unfolding get_conversation
  get_conversation-Reads id w = ground arith

  pub list_conversations-Reads :
      (status site : String) (agent : Option ℕ) (unassigned : Bool) (limit offset : ℤ)
      (w : World C M O)
      → (list_conversations svc status site agent unassigned limit offset w).1 ≡ w
  unfolding list_conversations
  list_conversations-Reads status site agent unassigned limit offset w = ground arith
