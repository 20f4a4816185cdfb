-- ===== src/Chat/Messages.antt =====
-- The methods of ChatService in services/chat-service/internal/service/chat_service.go that write and
-- read messages, and onMessageCreatedForAutoClose of auto_close_scheduler.go.
pub mod Atomicity
pub mod Frame
pub mod Senders
use inline_chat.Prelude.{
  ℕ, zero, suc, ◌+◌, String, Bool, true, false, not, ◌&&◌, Option, none, some, List, [], ◌∷◌, ◌==◌,
  ltb, str_eq, if◌then◌else◌,
}
use inline_chat.Prelude.Text.{trim_space, rune_count, parse_uint64}
use inline_chat.Errors.{
  Error, Result, ok, err, invalid, is_not_found, conversation_closed, conversation_unassigned,
  forbidden, is_duplicate_message_err,
}
use inline_chat.Chat.Model.{Conversation, Message}
use inline_chat.Chat.Scheduler.{schedule, cancel}
use inline_chat.Chat.Format.{normalize_actor_type}
use inline_chat.Chat.World.{
  Service, Action, pure, raise, raise_if, return, attempt, map_error, modify, ◌>>=◌, ◌>>◌,
  as_conversation_not_found,
}
use inline_chat.Chat.Repository.Conversations
use inline_chat.Chat.Repository.Messages as Rows
use inline_chat.Chat.Events.{
  with_event_transaction, emit_message_created, emit_message_status_range, new_message,
}
use inline_chat.Chat.Conversations.{get_conversation}

pub record CreateMessageInput : Type 0 where
  pub conversation_id : ℕ
  pub sender_type : String
  pub sender_id : String
  pub content : String
  pub client_msg_id : String
  pub visitor_token : String

pub record Posted : Type 0 where
  pub message : Message
  pub created : Bool

-- What is asked of a message before the database is read.
unfoldable pub check_content : CreateMessageInput → Result (Unit {0})
unfolding trim_space
check_content input =
    if not (str_eq input.sender_type "visitor")
      && not (str_eq input.sender_type "agent")
      && not (str_eq input.sender_type "system")
      && not (str_eq input.sender_type "ai")
    then err (invalid "invalid sender_type")
    else if str_eq (trim_space input.content) ""
    then err (invalid "content is required")
    else if ltb 2000 (rune_count input.content)
    then err (invalid "invalid content: too long (max 2000 characters)")
    else ok tt

check_visitor : String → Conversation → Result (Unit {0})
check_visitor token c =
    if str_eq token ""
    then err (invalid "visitor_token is required")
    else if not (str_eq c.visitor_token token)
    then err (invalid "visitor token does not match conversation")
    else ok tt

-- `parseErr != nil || senderAgentID == 0`, then the owner.
check_owner : Option ℕ → Option ℕ → Result (Unit {0})
check_owner none assigned = err (invalid "invalid sender_id")
check_owner (some zero) assigned = err (invalid "invalid sender_id")
check_owner (some (suc n)) none = err conversation_unassigned
check_owner (some (suc n)) (some owner) = if owner == suc n then ok tt else err forbidden

check_agent : String → Conversation → Result (Unit {0})
unfolding check_owner parse_uint64
check_agent sender_id c =
    if str_eq sender_id ""
    then err (invalid "sender_id is required for agent sender_type")
    else check_owner (parse_uint64 sender_id) c.assigned_agent_id

-- What is asked of the sender of a message to a conversation.
unfoldable pub check_sender : CreateMessageInput → Conversation → Result (Unit {0})
unfolding check_visitor check_agent trim_space
check_sender input c =
    if str_eq c.status "closed"
    then err conversation_closed
    else if str_eq input.sender_type "visitor"
    then check_visitor (trim_space input.visitor_token) c
    else if str_eq input.sender_type "agent"
    then check_agent (trim_space input.sender_id) c
    else ok tt

-- The row to insert: an agent's id is trimmed first.
abbrev pub message_of : CreateMessageInput → Message
message_of input =
    new_message input.conversation_id input.sender_type
      (if str_eq input.sender_type "agent" then trim_space input.sender_id else input.sender_id)
      input.content input.client_msg_id

module _ {C M O : Type 0} (svc : Service C M O) where
  find_message : CreateMessageInput → Action C M O Message
  unfolding Rows.get_by_client_msg_id
  find_message input = Rows.get_by_client_msg_id svc input.conversation_id input.client_msg_id

  emit_created : Message → Action C M O Posted
  unfolding emit_message_created
  emit_created m = do emit_message_created svc m; pure (record { message = m; created = true })

  -- The second look-up after a duplicate key, whose own ErrNotFound gives way to the first error.
  after_duplicate : Error → Result Message → Action C M O Posted
  after_duplicate e (ok m) = pure (record { message = m; created = false })
  after_duplicate e (err e') = if not (is_not_found e') then raise e' else raise e

  after_insert : CreateMessageInput → Result Message → Action C M O Posted
  unfolding emit_created after_duplicate find_message is_duplicate_message_err
  after_insert input (ok m) = emit_created m
  after_insert input (err e) =
      let again = attempt (find_message input) >>= after_duplicate e in
      if is_duplicate_message_err e then again else raise e

  insert_message : CreateMessageInput → Action C M O Posted
  unfolding Rows.create after_insert
  insert_message input = do r ← attempt (Rows.create svc (message_of input)); after_insert input r

  -- A client_msg_id that is there already gives the message that is there.
  reuse_or_insert : CreateMessageInput → Result Message → Action C M O Posted
  unfolding insert_message
  reuse_or_insert input (ok m) = pure (record { message = m; created = false })
  reuse_or_insert input (err e) = if not (is_not_found e) then raise e else insert_message input

  post_message : CreateMessageInput → Action C M O Posted
  unfolding Conversations.get_by_id check_sender find_message reuse_or_insert
  post_message input = do
    c ← map_error as_conversation_not_found (Conversations.get_by_id svc input.conversation_id)
    return (check_sender input c)
    existing ← attempt (find_message input)
    reuse_or_insert input existing

  unfoldable pub on_message_created_for_auto_close : ℕ → Message → Action C M O (Unit {0})
  unfolding schedule cancel
  on_message_created_for_auto_close now m =
      if not svc.has_scheduler
      then pure tt
      else if str_eq m.sender_type "agent"
      then modify (λ w. record w {
        timers = schedule m.conversation_id (m.created_at + svc.auto_close_after) now w.timers;
      })
      else if str_eq m.sender_type "visitor"
      then modify (λ w. record w { timers = cancel m.conversation_id w.timers })
      else pure tt

  unfoldable pub create_message : CreateMessageInput → ℕ → Action C M O Message
  unfolding check_content with_event_transaction post_message on_message_created_for_auto_close
  create_message input now = do
    return (check_content input)
    p ← with_event_transaction svc (post_message input)
    if p.created then on_message_created_for_auto_close now p.message else pure tt
    pure p.message

  mark_one : ℕ → ℕ → String → Action C M O ℕ
  unfolding Rows.mark_read_by_conversation_and_sender emit_message_status_range
  mark_one conversation_id last sender_type = do
    rows ← Rows.mark_read_by_conversation_and_sender svc conversation_id sender_type last
    if ltb 0 rows
        then emit_message_status_range svc conversation_id sender_type last "read"
        else pure tt
    pure rows

  mark_each : ℕ → ℕ → List String → ℕ → Action C M O ℕ
  unfolding mark_one
  mark_each conversation_id last [] total = pure total
  mark_each conversation_id last (s ∷ ss) total = do
    rows ← mark_one conversation_id last s
    mark_each conversation_id last ss (total + rows)

  -- Whose messages the actor has read. The visitor's token is trimmed for the first test only.
  target_sender_types : String → ℕ → String → Conversation → Result (List String)
  unfolding trim_space
  target_sender_types actor_type agent token c =
      if str_eq actor_type "visitor"
      then (if str_eq (trim_space token) ""
          then err (invalid "visitor_token is required")
          else if not (str_eq c.visitor_token token)
          then err (invalid "visitor token does not match conversation")
          else ok ("agent" ∷ "ai" ∷ []))
      else if agent == 0
      then err (invalid "actor_agent_id is required")
      else ok ("visitor" ∷ [])

  mark_in_transaction : String → ℕ → ℕ → ℕ → String → Action C M O ℕ
  unfolding Conversations.get_by_id mark_each target_sender_types
  mark_in_transaction actor_type conversation_id last agent token = do
    c ← map_error as_conversation_not_found (Conversations.get_by_id svc conversation_id)
    senders ← return (target_sender_types actor_type agent token c)
    mark_each conversation_id last senders 0

  unfoldable pub mark_messages_read : ℕ → ℕ → String → ℕ → String → Action C M O ℕ
  unfolding normalize_actor_type with_event_transaction mark_in_transaction
  mark_messages_read conversation_id last raw_type agent token = do
    raise_if (conversation_id == 0) (invalid "conversation_id is required")
    raise_if (last == 0) (invalid "last_read_message_id is required")
    actor_type ← return (normalize_actor_type raw_type)
    with_event_transaction svc (mark_in_transaction actor_type conversation_id last agent token)

  unfoldable pub list_messages : ℕ → ℕ → ℕ → Action C M O (List Message)
  unfolding get_conversation Rows.list_by_conversation
  list_messages conversation_id limit before = do
    get_conversation svc conversation_id
    Rows.list_by_conversation svc conversation_id limit before
