-- ===== src/Chat/Dispatcher/Frame.antt =====
-- The dispatcher writes the outbox table only.
use inline_chat.Chat.Repository.Outbox
use inline_chat.Prelude.{ℕ, ◌≡◌, arith, [], ◌∷◌, refl, inl, inr, ◌∙◌, Option, Bool, List, ◌-◌, none}
use inline_chat.Chat.World.{Store, Service, World}
use inline_chat.Chat.Model.{EventOutbox}
use inline_chat.Errors.{Error, Result-cases, Result, err, ok}
use inline_chat.Chat.Dispatcher.{
  Config, dispatch_item, dispatch_items, dispatch_once, dispatch_fetched, logged, replay_dead,
}
use inline_chat.Prelude.Int.{ℤ, positive_or, pos}
use inline_chat.Chat.Events.Rules.{Keeps-transaction}

-- The tables of conversations and of messages are as they were.
pub record SameChat {C M O : Type 0} (s t : Store C M O) : Type 0 where
  pub same_conversations : s.conversations ≡ t.conversations
  pub same_messages : s.messages ≡ t.messages

SameChat-refl : {C M O : Type 0} (s : Store C M O) → SameChat s s
SameChat-refl s = record { same_conversations = refl; same_messages = refl }

SameChat-trans : {C M O : Type 0} (s t u : Store C M O) → SameChat s t → SameChat t u → SameChat s u
SameChat-trans s t u p q = record {
  same_conversations = p.same_conversations ∙ q.same_conversations;
  same_messages = p.same_messages ∙ q.same_messages;
}

module _ {C M O : Type 0} (svc : Service C M O) (transport : EventOutbox → Option Error)
    (cfg : Config) where
  update-SameChat :
      (bound : Option ℕ) (p : EventOutbox → Bool) (f : EventOutbox → EventOutbox) (w : World C M O)
      → SameChat (Outbox.update_outbox svc bound p f w).1.store w.store
  unfolding Outbox.update_outbox
  update-SameChat bound p f w = ground arith

  dispatch_item-SameChat :
      (now : ℕ) (e : EventOutbox) (w : World C M O)
      → SameChat (dispatch_item svc transport cfg now e w).1.store w.store
  unfolding dispatch_item
  dispatch_item-SameChat now e w = ground arith

  dispatch_items-SameChat :
      (now : ℕ) (es : List EventOutbox) (w : World C M O)
      → SameChat (dispatch_items svc transport cfg now es w).1.store w.store
  unfolding dispatch_items
  dispatch_items-SameChat now [] w = SameChat-refl w.store
  dispatch_items-SameChat now (e ∷ es) w =
      let one = dispatch_item svc transport cfg now e w in
      let first = dispatch_item-SameChat now e w in
      elim (Result-cases one.0) [
        | inl (x, failed) ↦ ground (arith, failed, first)
        | inr (a, done) ↦ ground (arith, done, first, dispatch_items-SameChat now es one.1)
      ]

  take_up_all-SameChat :
      (now : ℕ) (es : List EventOutbox) (w : World C M O)
      → SameChat (Outbox.take_up_all svc now es w).1.store w.store
  unfolding Outbox.take_up_all
  take_up_all-SameChat now [] w = SameChat-refl w.store
  take_up_all-SameChat now (e ∷ es) w = ground arith

  fetch_in_transaction-SameChat :
      (limit : ℤ) (before now : ℕ) (locked : ℕ → Bool) (w : World C M O)
      → SameChat (Outbox.fetch_in_transaction svc limit before now locked w).1.store w.store
  unfolding Outbox.fetch_in_transaction
  fetch_in_transaction-SameChat limit before now locked w =
      elim (Result-cases (Outbox.find_due svc (positive_or 100 limit) before locked w).0) [
        | inl (x, e) ↦ ground (arith, e)
        | inr (es, e) ↦ ground (arith, e, take_up_all-SameChat now es w)
      ]

  fetch-SameChat :
      (limit : ℤ) (before now : ℕ) (locked : ℕ → Bool) (w : World C M O)
      → SameChat (Outbox.fetch_pending_for_update svc limit before now locked w).1.store w.store
  unfolding Outbox.fetch_pending_for_update
  fetch-SameChat limit before now locked w =
      Keeps-transaction svc (λ s. SameChat s w.store)
        (Outbox.fetch_in_transaction svc limit before now locked)
        (λ v h.
          SameChat-trans _ v.store w.store (fetch_in_transaction-SameChat limit before now locked v)
            h)
        w (SameChat-refl w.store)

  dispatch_fetched-SameChat :
      (now : ℕ) (r : Result (List EventOutbox)) (w : World C M O)
      → SameChat (dispatch_fetched svc transport cfg now r w).1.store w.store
  unfolding dispatch_fetched
  dispatch_fetched-SameChat now (err x) w = SameChat-refl w.store
  dispatch_fetched-SameChat now (ok es) w = dispatch_items-SameChat now es w

  requeue-SameChat :
      (before now : ℕ) (w : World C M O)
      → SameChat (Outbox.requeue_stale_processing svc before now w).1.store w.store
  unfolding Outbox.requeue_stale_processing
  requeue-SameChat before now w = update-SameChat none _ _ w

  -- One turn of the dispatcher.
  pub dispatch_once-SameChat :
      (now : ℕ) (locked : ℕ → Bool) (w : World C M O)
      → SameChat (dispatch_once svc transport cfg now locked w).1.store w.store
  unfolding dispatch_once logged
  dispatch_once-SameChat now locked w =
      let requeued = Outbox.requeue_stale_processing svc (now - cfg.processing_timeout) now w in
      let fetched =
        Outbox.fetch_pending_for_update svc (pos cfg.batch_size) now now locked requeued.1 in
      SameChat-trans _ fetched.1.store w.store (dispatch_fetched-SameChat now fetched.0 fetched.1) (
        SameChat-trans _ requeued.1.store w.store
          (fetch-SameChat (pos cfg.batch_size) now now locked requeued.1)
          (requeue-SameChat (now - cfg.processing_timeout) now w))

module _ {C M O : Type 0} (svc : Service C M O) where
  -- A replay of the dead letters.
  pub replay_dead-SameChat :
      (limit : ℤ) (now : ℕ) (signal : Bool) (w : World C M O)
      → SameChat (replay_dead svc limit now signal w).1.store w.store
  unfolding replay_dead
  replay_dead-SameChat limit now signal w = ground arith
