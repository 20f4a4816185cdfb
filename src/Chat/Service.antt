-- ===== src/Chat/Service.antt =====
-- The calls that reach ChatService and the outbox dispatcher, as one step function on the world: the
-- requests of services/chat-service/internal/grpcserver, and what timers and loops set off.
pub mod Atomicity
pub mod Validity
use inline_chat.Prelude.{ℕ, String, Bool, Option, List, [], ◌∷◌}
use inline_chat.Prelude.Int.{ℤ}
use inline_chat.Errors.{Error}
use inline_chat.Chat.Model.{EventOutbox}
use inline_chat.Chat.World.{Service, World, Action, pure, ◌>>=◌}
use inline_chat.Chat.Conversations.{
  create_conversation, get_conversation, list_conversations, claim_conversation,
  transfer_conversation, confirm_transfer_conversation, reject_transfer_conversation,
  close_conversation,
}
use inline_chat.Chat.Messages.{
  CreateMessageInput, create_message, mark_messages_read, list_messages,
}
use inline_chat.Chat.AutoClose.{
  auto_close_conversation_by_timeout, fire_timer, start_auto_close_scheduler,
  stop_auto_close_scheduler, auto_close_inactive_conversations,
}
use inline_chat.Chat.Dispatcher.{Config, dispatch_once, replay_dead}

-- The arguments stand in the order of the methods' own, the clock last.
pub data Request : Type 0 where
  creates : String → String → Request
  gets : ℕ → Request
  lists : String → String → Option ℕ → Bool → ℤ → ℤ → Request
  claims : ℕ → ℕ → Request
  transfers : ℕ → ℕ → String → ℕ → ℕ → ℕ → Request
  confirms : ℕ → ℕ → String → ℕ → Request
  rejects : ℕ → ℕ → String → ℕ → Request
  closes : ℕ → ℕ → String → ℕ → Request
  posts : CreateMessageInput → ℕ → Request
  reads : ℕ → ℕ → String → ℕ → String → Request
  lists_messages : ℕ → ℕ → ℕ → Request
  times_out : ℕ → ℕ → Request

pub data Step : Type 0 where
  requests : Request → Step
  fires : ℕ → ℕ → ℕ → Step
  starts : ℕ → ℕ → Step
  stops : Step
  sweeps : ℕ → ℤ → ℕ → ℕ → Step
  dispatches : (EventOutbox → Option Error) → Config → ℕ → (ℕ → Bool) → Step
  replays : ℤ → ℕ → Bool → Step

module _ {C M O : Type 0} where
  abbrev pub ignoring : {A : Type 0} → Action C M O A → Action C M O (Unit {0})
  ignoring m = m >>= λ a. pure tt

module _ {C M O : Type 0} (svc : Service C M O) where
  unfoldable pub serve : Request → Action C M O (Unit {0})
  serve (creates site token) = ignoring (create_conversation svc site token)
  serve (gets id) = ignoring (get_conversation svc id)
  serve (lists status site agent unassigned limit offset) =
      ignoring (list_conversations svc status site agent unassigned limit offset)
  serve (claims id agent) = ignoring (claim_conversation svc id agent)
  serve (transfers id actor role to now stamp) =
      ignoring (transfer_conversation svc id actor role to now stamp)
  serve (confirms id actor role stamp) =
      ignoring (confirm_transfer_conversation svc id actor role stamp)
  serve (rejects id actor role stamp) =
      ignoring (reject_transfer_conversation svc id actor role stamp)
  serve (closes id actor role now) = ignoring (close_conversation svc id actor role now)
  serve (posts input now) = ignoring (create_message svc input now)
  serve (reads id last actor_type agent token) =
      ignoring (mark_messages_read svc id last actor_type agent token)
  serve (lists_messages id limit before) = ignoring (list_messages svc id limit before)
  serve (times_out id now) = auto_close_conversation_by_timeout svc id now

  -- The world after a step, whether the step succeeded or not.
  unfoldable pub step : Step → World C M O → World C M O
  step (requests r) w = (serve r w).1
  step (fires id due now) w = (fire_timer svc id due now w).1
  step (starts fuel now) w = (start_auto_close_scheduler svc fuel now w).1
  step stops w = (stop_auto_close_scheduler svc w).1
  step (sweeps fuel inactivity started now) w =
      (auto_close_inactive_conversations svc fuel inactivity started now w).1
  step (dispatches transport cfg now locked) w = (dispatch_once svc transport cfg now locked w).1
  step (replays limit now signal) w = (replay_dead svc limit now signal w).1

  unfoldable pub run : World C M O → List Step → World C M O
  run w [] = w
  run w (s ∷ ss) = run (step s w) ss
