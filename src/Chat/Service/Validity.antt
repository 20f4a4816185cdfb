-- ===== src/Chat/Service/Validity.antt =====
-- The conversations table under every step of the service.
use inline_chat.Prelude.{◌≡◌, arith, [], ◌∷◌, sym, List, subst}
use inline_chat.Chat.World.{Service, Action, World}
use inline_chat.Chat.Service.{
  serve, Request, step, run, ignoring, Step, creates, requests, fires, gets, starts, sweeps, lists,
  dispatches, claims, replays, transfers, confirms, rejects, closes, posts, reads, lists_messages,
  times_out, stops,
}
use inline_chat.Chat.AutoClose.{stop_auto_close_scheduler}
use inline_chat.Chat.World.Rules.{Keeps}
use inline_chat.Chat.Repository.Conversations.Validity.{ValidRows}
use inline_chat.Chat.Conversations.{
  create_conversation, get_conversation, list_conversations, claim_conversation,
  transfer_conversation, confirm_transfer_conversation, reject_transfer_conversation,
  close_conversation,
}
use inline_chat.Chat.Conversations.Validity.{
  create_conversation-ValidRows, same_conversations, claim_conversation-ValidRows,
  transfer_conversation-ValidRows, confirm_transfer_conversation-ValidRows,
  reject_transfer_conversation-ValidRows, close_conversation-ValidRows,
}
use inline_chat.Chat.AutoClose.Validity.{
  fire_timer-ValidRows, start_auto_close-ValidRows, auto_close_inactive-ValidRows,
  auto_close_by_timeout-ValidRows,
}
use inline_chat.Chat.Conversations.Atomicity.{get_conversation-Reads, list_conversations-Reads}
use inline_chat.Chat.Dispatcher.Frame.{dispatch_once-SameChat, replay_dead-SameChat}
use inline_chat.Chat.Messages.{create_message, mark_messages_read, list_messages}
use inline_chat.Chat.Messages.Frame.{create_message-conversations, mark_messages_read-conversations}
use inline_chat.Chat.Messages.Atomicity.{list_messages-Reads}
use inline_chat.Chat.Dispatcher.{dispatch_once, replay_dead}

module _ {C M O : Type 0} (svc : Service C M O) where
  ignoring-store :
      {A : Type 0} (m : Action C M O A) (w : World C M O) → (ignoring m w).1.store ≡ (m w).1.store
  ignoring-store m w = ground arith

  ignoring-ValidRows :
      {A : Type 0} (m : Action C M O A)
      → Keeps (ValidRows svc) m
      → Keeps (ValidRows svc) (ignoring m)
  ignoring-ValidRows m k w h = subst (ValidRows svc) (sym (ignoring-store m w)) (k w h)

  reads-ValidRows :
      {A : Type 0} (m : Action C M O A)
      → ((w : World C M O) → (m w).1 ≡ w)
      → Keeps (ValidRows svc) m
  reads-ValidRows m same w h = subst (λ v. ValidRows svc v.store) (sym (same w)) h

  framed-ValidRows :
      {A : Type 0} (m : Action C M O A)
      → ((w : World C M O) → (m w).1.store.conversations ≡ w.store.conversations)
      → Keeps (ValidRows svc) m
  framed-ValidRows m same w h = same_conversations svc (m w).1.store w.store (same w) h

  serve-ValidRows : (r : Request) → Keeps (ValidRows svc) (serve svc r)
  unfolding serve
  serve-ValidRows (creates site token) =
      ignoring-ValidRows (create_conversation svc site token)
        (create_conversation-ValidRows svc site token)
  serve-ValidRows (gets id) =
      ignoring-ValidRows (get_conversation svc id)
        (reads-ValidRows (get_conversation svc id) (get_conversation-Reads svc id))
  serve-ValidRows (lists status site agent unassigned limit offset) =
      ignoring-ValidRows (list_conversations svc status site agent unassigned limit offset) (
        reads-ValidRows (list_conversations svc status site agent unassigned limit offset)
          (list_conversations-Reads svc status site agent unassigned limit offset))
  serve-ValidRows (claims id agent) =
      ignoring-ValidRows (claim_conversation svc id agent)
        (claim_conversation-ValidRows svc id agent)
  serve-ValidRows (transfers id actor role to now stamp) =
      ignoring-ValidRows (transfer_conversation svc id actor role to now stamp)
        (transfer_conversation-ValidRows svc id actor role to now stamp)
  serve-ValidRows (confirms id actor role stamp) =
      ignoring-ValidRows (confirm_transfer_conversation svc id actor role stamp)
        (confirm_transfer_conversation-ValidRows svc id actor role stamp)
  serve-ValidRows (rejects id actor role stamp) =
      ignoring-ValidRows (reject_transfer_conversation svc id actor role stamp)
        (reject_transfer_conversation-ValidRows svc id actor role stamp)
  serve-ValidRows (closes id actor role now) =
      ignoring-ValidRows (close_conversation svc id actor role now)
        (close_conversation-ValidRows svc id actor role now)
  serve-ValidRows (posts input now) =
      ignoring-ValidRows (create_message svc input now) (
        framed-ValidRows (create_message svc input now)
          (create_message-conversations svc input now))
  serve-ValidRows (reads id last actor_type agent token) =
      ignoring-ValidRows (mark_messages_read svc id last actor_type agent token) (
        framed-ValidRows (mark_messages_read svc id last actor_type agent token)
          (mark_messages_read-conversations svc id last actor_type agent token))
  serve-ValidRows (lists_messages id limit before) =
      ignoring-ValidRows (list_messages svc id limit before) (
        reads-ValidRows (list_messages svc id limit before)
          (list_messages-Reads svc id limit before))
  serve-ValidRows (times_out id now) = auto_close_by_timeout-ValidRows svc id now

  stop-Reads : (w : World C M O) → (stop_auto_close_scheduler svc w).1.store ≡ w.store
  unfolding stop_auto_close_scheduler
  stop-Reads w = ground arith

  step-ValidRows :
      (s : Step) (w : World C M O) → ValidRows svc w.store → ValidRows svc (step svc s w).store
  unfolding step
  step-ValidRows (requests r) w h = serve-ValidRows r w h
  step-ValidRows (fires id due now) w h = fire_timer-ValidRows svc id due now w h
  step-ValidRows (starts fuel now) w h = start_auto_close-ValidRows svc fuel now w h
  step-ValidRows stops w h = subst (ValidRows svc) (sym (stop-Reads w)) h
  step-ValidRows (sweeps fuel inactivity started now) w h =
      auto_close_inactive-ValidRows svc fuel inactivity started now w h
  step-ValidRows (dispatches transport cfg now locked) w h =
      same_conversations svc (dispatch_once svc transport cfg now locked w).1.store w.store
        (dispatch_once-SameChat svc transport cfg now locked w).same_conversations h
  step-ValidRows (replays limit now signal) w h =
      same_conversations svc (replay_dead svc limit now signal w).1.store w.store
        (replay_dead-SameChat svc limit now signal w).same_conversations h

  -- From a database with valid conversations, every history of requests, timers, sweeps and dispatches
  -- leads to one with valid conversations, with or without an outbox, whichever steps fail.
  pub run-ValidRows :
      (ss : List Step) (w : World C M O)
      → ValidRows svc w.store
      → ValidRows svc (run svc w ss).store
  unfolding run
  run-ValidRows [] w h = h
  run-ValidRows (s ∷ ss) w h = run-ValidRows ss (step svc s w) (step-ValidRows s w h)
