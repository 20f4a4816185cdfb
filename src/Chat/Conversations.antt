-- ===== src/Chat/Conversations.antt =====
-- The methods of ChatService in services/chat-service/internal/service/chat_service.go that create,
-- read, claim, hand over and close conversations. Each takes the clock as `now`, and `stamp` where it
-- reads it once more.
pub mod Atomicity
pub mod Validity
use Prim.Native.String.{◌++◌}
use inline_chat.Prelude.{
  ℕ, String, Bool, not, ◌&&◌, Option, none, some, List, ◌==◌, ltb, str_eq, if◌then◌else◌,
}
use inline_chat.Prelude.Int.{ℤ, positive_or, is_negative, to_nat}
use inline_chat.Prelude.Text.{trim_space}
use inline_chat.Errors.{Result, ok, err, invalid, is_not_found}
use inline_chat.Chat.Model.{Conversation}
use inline_chat.Chat.Lifecycle.{
  Mutated, claim_row, transfer_row, confirm_row, reject_row, close_row,
}
use inline_chat.Chat.Scheduler.{cancel}
use inline_chat.Chat.Format.{
  normalize_actor_role, format_agent_id4, build_conversation_create_lock_key,
}
use inline_chat.Chat.World.{
  Service, Action, pure, raise, raise_if, return, attempt, map_error, modify, ◌>>=◌, ◌>>◌,
  as_conversation_not_found,
}
use inline_chat.Chat.Repository.Conversations.{mutate}
use inline_chat.Chat.Repository.Conversations
use inline_chat.Chat.Events.{
  with_event_transaction, publish_transfer_system_message, publish_system_message,
  emit_conversation_closed,
}

abbrev pub new_conversation : String → String → Conversation
new_conversation site token = record {
  id = 0;
  site_id = site;
  visitor_token = token;
  status = "open";
  assigned_agent_id = none;
  pending_transfer_to_agent_id = none;
  pending_transfer_from_agent_id = none;
  pending_transfer_requested_at = none;
  closed_at = none;
  closed_by_agent_id = none;
}

-- The message that a rejection leaves.
unfoldable pub rejection_text : ℕ → ℕ → String
unfolding format_agent_id4
rejection_text target owner =
    if ltb 0 owner
    then "客服" ++ format_agent_id4 target ++ "拒绝转接，当前会话继续由客服" ++ format_agent_id4 owner ++ "接待"
    else "客服" ++ format_agent_id4 target ++ "拒绝转接"

module _ {C M O : Type 0} (svc : Service C M O) where
  -- `err == nil`: what was found; ErrNotFound: a new row; any other error: that error.
  existing_or_create : String → String → Result Conversation → Action C M O Conversation
  unfolding Conversations.create
  existing_or_create site token (ok c) = pure c
  existing_or_create site token (err e) =
      if is_not_found e then Conversations.create svc (new_conversation site token) else raise e

  open_conversation : String → String → Action C M O Conversation
  unfolding existing_or_create Conversations.get_latest_open_by_site_visitor
  open_conversation site token = do
    found ← attempt (Conversations.get_latest_open_by_site_visitor svc site token)
    existing_or_create site token found

  take_lock : String → Action C M O (Unit {0})
  take_lock key = elim (svc.lock key) [ none ↦ pure tt | some e ↦ raise e ]

  -- The lock is given back on every return; an error of that is only logged.
  unfoldable pub create_conversation : String → String → Action C M O Conversation
  unfolding open_conversation take_lock trim_space build_conversation_create_lock_key
  create_conversation raw_site raw_token = do
    let site = trim_space raw_site
    let token = trim_space raw_token
    raise_if (str_eq site "") (invalid "site_id is required")
    raise_if (str_eq token "") (invalid "visitor_token is required")
    take_lock (build_conversation_create_lock_key site token)
    open_conversation site token

  unfoldable pub get_conversation : ℕ → Action C M O Conversation
  unfolding Conversations.get_by_id
  get_conversation id = map_error as_conversation_not_found (Conversations.get_by_id svc id)

  unfoldable pub list_conversations :
      String → String → Option ℕ → Bool → ℤ → ℤ → Action C M O (List Conversation)
  unfolding Conversations.list
  list_conversations status site agent unassigned_only raw_limit offset = do
    let limit = positive_or 50 raw_limit
    raise_if (ltb 200 limit) (invalid "invalid limit")
    raise_if (is_negative offset) (invalid "invalid offset")
    raise_if (not (str_eq status "") && not (str_eq status "open") && not (str_eq status "closed"))
        (invalid "invalid status")
    Conversations.list svc (record {
      status = status;
      site_id = site;
      assigned_agent_id = agent;
      unassigned_only = unassigned_only;
      limit = limit;
      offset = to_nat offset;
    })

  -- `Mutate`, with the error for a missing row.
  mutate_conversation :
      {A : Type 0} → ℕ → (Conversation → Action C M O (Mutated A)) → Action C M O (Mutated A)
  unfolding mutate
  mutate_conversation id mutation = map_error as_conversation_not_found (mutate svc id mutation)

  unfoldable pub claim_conversation : ℕ → ℕ → Action C M O Conversation
  unfolding mutate_conversation
  claim_conversation id agent = do
    raise_if (id == 0) (invalid "conversation_id is required")
    raise_if (agent == 0) (invalid "agent_id is required")
    m ← mutate_conversation id (λ c. return (claim_row agent c))
    pure m.row

  -- What follows a mutation in its transaction, if the row has changed.
  if_changed : {A : Type 0} → Mutated A → Action C M O (Unit {0}) → Action C M O Conversation
  if_changed m then_do = if m.changed then (do then_do; pure m.row) else pure m.row

  transfer_in_transaction : String → ℕ → ℕ → ℕ → ℕ → ℕ → Action C M O Conversation
  unfolding mutate_conversation if_changed publish_transfer_system_message
  transfer_in_transaction role id actor to now stamp = do
    m ← mutate_conversation id (λ c. return (transfer_row role actor to now c))
    if_changed m
        (publish_transfer_system_message svc m.row.id ("正在转接客服", "，等待对方确认") m.captured stamp)

  unfoldable pub transfer_conversation : ℕ → ℕ → String → ℕ → ℕ → ℕ → Action C M O Conversation
  unfolding with_event_transaction transfer_in_transaction normalize_actor_role
  transfer_conversation id actor raw_role to now stamp = do
    raise_if (id == 0) (invalid "conversation_id is required")
    raise_if (actor == 0) (invalid "actor_agent_id is required")
    raise_if (to == 0) (invalid "to_agent_id is required")
    role ← return (normalize_actor_role raw_role)
    with_event_transaction svc (transfer_in_transaction role id actor to now stamp)

  confirm_in_transaction : String → ℕ → ℕ → ℕ → Action C M O Conversation
  unfolding mutate_conversation if_changed publish_transfer_system_message
  confirm_in_transaction role id actor stamp = do
    m ← mutate_conversation id (λ c. return (confirm_row role actor c))
    if_changed m (publish_transfer_system_message svc m.row.id ("成功转接客服", "") m.captured stamp)

  unfoldable pub confirm_transfer_conversation : ℕ → ℕ → String → ℕ → Action C M O Conversation
  unfolding with_event_transaction confirm_in_transaction normalize_actor_role
  confirm_transfer_conversation id actor raw_role stamp = do
    raise_if (id == 0) (invalid "conversation_id is required")
    raise_if (actor == 0) (invalid "actor_agent_id is required")
    role ← return (normalize_actor_role raw_role)
    with_event_transaction svc (confirm_in_transaction role id actor stamp)

  reject_in_transaction : String → ℕ → ℕ → ℕ → Action C M O Conversation
  unfolding mutate_conversation if_changed publish_system_message rejection_text
  reject_in_transaction role id actor stamp = do
    m ← mutate_conversation id (λ c. return (reject_row role actor c))
    if_changed m
        (publish_system_message svc m.row.id (rejection_text m.captured.0 m.captured.1) stamp)

  unfoldable pub reject_transfer_conversation : ℕ → ℕ → String → ℕ → Action C M O Conversation
  unfolding with_event_transaction reject_in_transaction normalize_actor_role
  reject_transfer_conversation id actor raw_role stamp = do
    raise_if (id == 0) (invalid "conversation_id is required")
    raise_if (actor == 0) (invalid "actor_agent_id is required")
    role ← return (normalize_actor_role raw_role)
    with_event_transaction svc (reject_in_transaction role id actor stamp)

  close_in_transaction : String → ℕ → ℕ → ℕ → Action C M O Conversation
  unfolding mutate_conversation if_changed emit_conversation_closed
  close_in_transaction role id actor now = do
    m ← mutate_conversation id (λ c. return (close_row role actor now c))
    if_changed m (emit_conversation_closed svc m.row.id)

  cancel_timer : Conversation → Action C M O (Unit {0})
  unfolding cancel
  cancel_timer c =
      if str_eq c.status "closed" && svc.has_scheduler
      then modify (λ w. record w { timers = cancel c.id w.timers })
      else pure tt

  unfoldable pub close_conversation : ℕ → ℕ → String → ℕ → Action C M O Conversation
  unfolding with_event_transaction close_in_transaction cancel_timer normalize_actor_role
  close_conversation id actor raw_role now = do
    raise_if (id == 0) (invalid "conversation_id is required")
    raise_if (actor == 0) (invalid "actor_agent_id is required")
    role ← return (normalize_actor_role raw_role)
    c ← with_event_transaction svc (close_in_transaction role id actor now)
    cancel_timer c
    pure c
