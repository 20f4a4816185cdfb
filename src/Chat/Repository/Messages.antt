-- ===== src/Chat/Repository/Messages.antt =====
-- GormMessageRepository of services/chat-service/internal/repository/repository.go.
use inline_chat.Prelude.{
  ℕ, String, Bool, true, not, ◌&&◌, ◌||◌, none, some, List, ◌==◌, leb, ltb, str_eq,
}
use inline_chat.Chat.Model.{Message}
use inline_chat.Store.{Query}
use inline_chat.Chat.World.{Service, Action}
use inline_chat.Chat.Repository.{or_not_found, first_where, latest_where, on_messages}

abbrev pub has_client_msg_id : ℕ → String → Message → Bool
has_client_msg_id conversation_id client_msg_id m =
    m.conversation_id == conversation_id && str_eq m.client_msg_id client_msg_id

abbrev pub in_conversation : ℕ → Message → Bool
in_conversation conversation_id m = m.conversation_id == conversation_id

abbrev pub not_system : ℕ → Message → Bool
not_system conversation_id m =
    m.conversation_id == conversation_id && not (str_eq m.sender_type "system")

-- `id < before`, under `before > 0`.
abbrev pub listed_before : ℕ → ℕ → Message → Bool
listed_before conversation_id before m =
    m.conversation_id == conversation_id && (before == 0 || ltb m.id before)

abbrev pub unread_up_to : ℕ → String → ℕ → Message → Bool
unread_up_to conversation_id sender_type last m =
    m.conversation_id == conversation_id
    && str_eq m.sender_type sender_type
    && leb m.id last
    && str_eq m.status "sent"

module _ {C M O : Type 0} (svc : Service C M O) where
  unfoldable pub create : Message → Action C M O Message
  unfolding on_messages
  create m = on_messages svc (λ s. svc.message_table.insert m s)

  unfoldable pub get_by_id : ℕ → ℕ → Action C M O Message
  get_by_id conversation_id message_id w = (
    or_not_found (
        svc.message_table.first
          (first_where (λ m. m.conversation_id == conversation_id && m.id == message_id))
          w.store.messages),
    w,
  )

  unfoldable pub get_by_client_msg_id : ℕ → String → Action C M O Message
  get_by_client_msg_id conversation_id client_msg_id w = (
    or_not_found (
        svc.message_table.first (first_where (has_client_msg_id conversation_id client_msg_id))
          w.store.messages),
    w,
  )

  unfoldable pub get_latest_by_conversation : ℕ → Action C M O Message
  get_latest_by_conversation conversation_id w = (
    or_not_found
        (svc.message_table.first (latest_where (in_conversation conversation_id)) w.store.messages),
    w,
  )

  unfoldable pub get_latest_excluding_system : ℕ → Action C M O Message
  get_latest_excluding_system conversation_id w = (
    or_not_found
        (svc.message_table.first (latest_where (not_system conversation_id)) w.store.messages),
    w,
  )

  unfoldable pub list_by_conversation : ℕ → ℕ → ℕ → Action C M O (List Message)
  list_by_conversation conversation_id limit before w =
      let q : Query Message = record {
        matches = listed_before conversation_id before;
        descending = true;
        limit = some limit;
        offset = 0;
      } in
      (svc.message_table.find q w.store.messages, w)

  -- The number is RowsAffected.
  unfoldable pub mark_read_by_conversation_and_sender : ℕ → String → ℕ → Action C M O ℕ
  unfolding on_messages
  mark_read_by_conversation_and_sender conversation_id sender_type last = on_messages svc (
      svc.message_table.update none (unread_up_to conversation_id sender_type last)
        (λ m. record m { status = "read" }))
