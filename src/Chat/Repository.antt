-- ===== src/Chat/Repository.antt =====
-- services/chat-service/internal/repository/repository.go: the SQL of each method over the tables of
-- `Service`, and the transactions. Query timeouts are faults of the tables.
pub mod Conversations
pub mod Messages
pub mod Outbox
pub use inline_chat.Store.{or_not_found, first_where, latest_where}
use inline_chat.Prelude.{true, none, some}
use inline_chat.Errors.{Result, ok, err}
use inline_chat.Chat.World.{Service, Action, World}

module _ {C M O : Type 0} (svc : Service C M O) where
  pub on_conversations : {A : Type 0} → (C → Result (A × C)) → Action C M O A
  on_conversations f w = elim (f w.store.conversations) [
    | ok (a, s) ↦ (ok a, record w { store = record (w.store) { conversations = s } })
    | err e ↦ (err e, w)
  ]

  pub on_messages : {A : Type 0} → (M → Result (A × M)) → Action C M O A
  on_messages f w = elim (f w.store.messages) [
    | ok (a, s) ↦ (ok a, record w { store = record (w.store) { messages = s } })
    | err e ↦ (err e, w)
  ]

  pub on_outbox : {A : Type 0} → (O → Result (A × O)) → Action C M O A
  on_outbox f w = elim (f w.store.outbox) [
    | ok (a, s) ↦ (ok a, record w { store = record (w.store) { outbox = s } })
    | err e ↦ (err e, w)
  ]

  -- GormTransactionManager.WithTransaction: an error, also one of the commit, rolls the database back.
  finish : {A : Type 0} → World C M O → Result A → World C M O → Result A × World C M O
  finish before (err e) after =
      (err e, record after { store = before.store; in_transaction = before.in_transaction })
  finish before (ok a) after = elim (svc.commit_fault after.store) [
    | none ↦ (ok a, record after { in_transaction = before.in_transaction })
    | some e ↦
        (err e, record after { store = before.store; in_transaction = before.in_transaction })
  ]

  unfoldable pub with_transaction : {A : Type 0} → Action C M O A → Action C M O A
  unfolding finish
  with_transaction m w = elim (svc.begin_fault w.store) [
    | some e ↦ (err e, w)
    | none ↦ let (r, w') = m (record w { in_transaction = true }) in finish w r w'
  ]
