-- ===== src/Chat/AutoClose.antt =====
-- The methods of ChatService that close idle conversations: those of
-- services/chat-service/internal/service/auto_close_scheduler.go, and AutoCloseInactiveConversations of
-- chat_service.go. `fuel` bounds the pages that are read.
pub mod Atomicity
pub mod Validity
pub mod Paging
use inline_chat.Prelude.{
  ℕ, zero, suc, ◌+◌, Bool, true, false, not, ◌&&◌, ◌||◌, Option, none, some, List, [], ◌∷◌, ◌++◌,
  map, ◌==◌, ltb, str_eq, if◌then◌else◌, length,
}
use inline_chat.Prelude.Int.{ℤ, pos, negsuc}
use inline_chat.Errors.{Error, Result, ok, err, invalid, is_not_found}
use inline_chat.Chat.Model.{Conversation, Message}
use inline_chat.Chat.Lifecycle.{Mutated, time_out_row, inactive_row, is_recent}
use inline_chat.Chat.Scheduler.{schedule, cancel, stop, fire}
use inline_chat.Chat.World.{
  Service, World, Action, pure, raise, return, attempt, modify, ◌>>=◌, ◌>>◌,
}
use inline_chat.Chat.Repository.Conversations
use inline_chat.Chat.Repository.Conversations.{ListConversationsFilter}
use inline_chat.Chat.Repository.Messages
use inline_chat.Chat.Events.{with_event_transaction, emit_conversation_closed}

abbrev pub batch_size : ℕ
batch_size = 200

abbrev pub open_page : ℕ → ListConversationsFilter
open_page offset = record {
  status = "open";
  site_id = "";
  assigned_agent_id = none;
  unassigned_only = false;
  limit = batch_size;
  offset = offset;
}

-- What the closure of autoCloseConversationByTimeout leaves behind: closed and rescheduleAt.
pub record Timeout : Type 0 where
  pub closed : Bool
  pub reschedule_at : Option ℕ

abbrev pub nothing_closed : Timeout
nothing_closed = record { closed = false; reschedule_at = none }

-- The closed conversations so far, and the error that ended the run, if one did.
pub record Sweep : Type 0 where
  pub count : ℕ
  pub error : Option Error

module _ {C M O : Type 0} (svc : Service C M O) where
  -- The ids of the open conversations, page by page, until a page is not full.
  unfoldable pub open_conversation_ids : ℕ → ℕ → Action C M O (List ℕ)
  unfolding Conversations.list
  open_conversation_ids zero offset = pure []
  open_conversation_ids (suc fuel) offset = do
    page ← Conversations.list svc (open_page offset)
    let ids = map (λ c. c.id) page
    let next = open_conversation_ids fuel (offset + batch_size) >>= λ rest. pure (ids ++ rest)
    if ltb (length page) batch_size then pure ids else next

  -- The look-up of the last message writes nothing, and is made only for an open conversation.
  time_out_mutation : ℕ → Conversation → Action C M O (Mutated (Option ℕ))
  unfolding Messages.get_latest_excluding_system time_out_row
  time_out_mutation now c = do
    latest ← attempt (Messages.get_latest_excluding_system svc c.id)
    return (time_out_row svc.auto_close_after now latest c)

  announce_timeout : ℕ → Result (Mutated (Option ℕ)) → Action C M O Timeout
  unfolding emit_conversation_closed
  announce_timeout id (err e) = if is_not_found e then pure nothing_closed else raise e
  announce_timeout id (ok m) =
      let closed_now =
        emit_conversation_closed svc id
        >> pure (record { closed = true; reschedule_at = m.captured }) in
      if m.changed then closed_now else pure (record { closed = false; reschedule_at = m.captured })

  time_out_in_transaction : ℕ → ℕ → Action C M O Timeout
  unfolding Conversations.mutate time_out_mutation announce_timeout
  time_out_in_transaction id now = do
    r ← attempt (Conversations.mutate svc id (time_out_mutation now))
    announce_timeout id r

  schedule_timer : ℕ → ℕ → ℕ → Action C M O (Unit {0})
  unfolding schedule
  schedule_timer id due now = modify (λ w. record w { timers = schedule id due now w.timers })

  cancel_timer : ℕ → Action C M O (Unit {0})
  unfolding cancel
  cancel_timer id = modify (λ w. record w { timers = cancel id w.timers })

  settle_timer : ℕ → ℕ → Timeout → Action C M O (Unit {0})
  unfolding schedule_timer cancel_timer
  settle_timer id now t = elim t.reschedule_at [
    | some due ↦ if svc.has_scheduler then schedule_timer id due now else pure tt
    | none ↦ if t.closed && svc.has_scheduler then cancel_timer id else pure tt
  ]

  unfoldable pub auto_close_conversation_by_timeout : ℕ → ℕ → Action C M O (Unit {0})
  unfolding with_event_transaction time_out_in_transaction settle_timer
  auto_close_conversation_by_timeout id now =
      let close_it =
        with_event_transaction svc (time_out_in_transaction id now) >>= settle_timer id now in
      if id == 0 then pure tt else close_it

  -- An error is only logged.
  unfoldable pub on_auto_close_due : ℕ → ℕ → Action C M O (Unit {0})
  unfolding auto_close_conversation_by_timeout
  on_auto_close_due id now = do attempt (auto_close_conversation_by_timeout id now); pure tt

  -- A timer goes off.
  unfoldable pub fire_timer : ℕ → ℕ → ℕ → Action C M O (Unit {0})
  unfolding fire on_auto_close_due
  fire_timer id due now w =
      let (ts, called) = fire id due w.timers in
      if called
      then on_auto_close_due id now (record w { timers = ts })
      else (ok tt, record w { timers = ts })

  restore_one : ℕ → ℕ → Result Message → Action C M O (Unit {0})
  unfolding schedule_timer auto_close_conversation_by_timeout
  restore_one now id (err e) = if is_not_found e then pure tt else raise e
  restore_one now id (ok m) =
      if not (str_eq m.sender_type "agent")
      then pure tt
      else if ltb now (m.created_at + svc.auto_close_after)
      then schedule_timer id (m.created_at + svc.auto_close_after) now
      else auto_close_conversation_by_timeout id now

  restore_each : ℕ → List ℕ → Action C M O (Unit {0})
  unfolding restore_one Messages.get_latest_excluding_system
  restore_each now [] = pure tt
  restore_each now (id ∷ ids) = do
    latest ← attempt (Messages.get_latest_excluding_system svc id)
    restore_one now id latest
    restore_each now ids

  unfoldable pub start_auto_close_scheduler : ℕ → ℕ → Action C M O (Unit {0})
  unfolding open_conversation_ids restore_each
  start_auto_close_scheduler fuel now =
      let restore = open_conversation_ids fuel 0 >>= restore_each now in
      if not svc.has_scheduler then pure tt else restore

  unfoldable pub stop_auto_close_scheduler : Action C M O (Unit {0})
  unfolding stop
  stop_auto_close_scheduler =
      if svc.has_scheduler then modify (λ w. record w { timers = stop w.timers }) else pure tt

  inactive_mutation : ℕ → ℕ → ℕ → Conversation → Action C M O (Mutated (Unit {0}))
  unfolding Messages.get_latest_excluding_system inactive_row
  inactive_mutation started inactivity now c = do
    latest ← attempt (Messages.get_latest_excluding_system svc c.id)
    return (inactive_row started inactivity now latest c)

  announce_inactive : ℕ → Result (Mutated (Unit {0})) → Action C M O Bool
  unfolding emit_conversation_closed
  announce_inactive id (err e) = if is_not_found e then pure false else raise e
  announce_inactive id (ok m) =
      let closed_now = emit_conversation_closed svc id >> pure true in
      if m.changed then closed_now else pure false

  inactive_in_transaction : ℕ → ℕ → ℕ → ℕ → Action C M O Bool
  unfolding Conversations.mutate inactive_mutation announce_inactive
  inactive_in_transaction started inactivity now id = do
    r ← attempt (Conversations.mutate svc id (inactive_mutation started inactivity now))
    announce_inactive id r

  -- One turn of the second loop: whether the conversation was closed.
  sweep_one : ℕ → ℕ → ℕ → ℕ → Result Message → Action C M O Bool
  unfolding with_event_transaction inactive_in_transaction
  sweep_one started inactivity now id (err e) = if is_not_found e then pure false else raise e
  sweep_one started inactivity now id (ok m) =
      if not (str_eq m.sender_type "agent") || is_recent started inactivity m
      then pure false
      else with_event_transaction svc (inactive_in_transaction started inactivity now id)

  sweep_turn : ℕ → ℕ → ℕ → ℕ → Action C M O Bool
  unfolding sweep_one Messages.get_latest_excluding_system
  sweep_turn started inactivity now id = do
    latest ← attempt (Messages.get_latest_excluding_system svc id)
    sweep_one started inactivity now id latest

  sweep_each : ℕ → ℕ → ℕ → List ℕ → ℕ → World C M O → Sweep × World C M O
  unfolding sweep_turn
  sweep_each started inactivity now [] count w = (record { count = count; error = none }, w)
  sweep_each started inactivity now (id ∷ ids) count w =
      let (r, w') = sweep_turn started inactivity now id w in
      elim r [
        | err e ↦ (record { count = count; error = some e }, w')
        | ok closed ↦ sweep_each started inactivity now ids (if closed then suc count else count) w'
      ]

  -- `started` is the clock from which the cutoff is taken, `now` the clock of the closes.
  unfoldable pub auto_close_inactive_conversations :
      ℕ → ℤ → ℕ → ℕ → World C M O → Sweep × World C M O
  unfolding open_conversation_ids sweep_each
  auto_close_inactive_conversations fuel (negsuc n) started now w =
      (record { count = 0; error = some (invalid "inactivity must be greater than 0") }, w)
  auto_close_inactive_conversations fuel (pos zero) started now w =
      (record { count = 0; error = some (invalid "inactivity must be greater than 0") }, w)
  auto_close_inactive_conversations fuel (pos (suc n)) started now w =
      let (r, w') = open_conversation_ids fuel 0 w in
      elim r [
        | err e ↦ (record { count = 0; error = some e }, w')
        | ok ids ↦ sweep_each started (suc n) now ids 0 w'
      ]
