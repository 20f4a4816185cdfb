-- ===== src/Chat/AutoClose/Atomicity.antt =====
-- A close by the clock is all or nothing where the outbox is enabled.
use inline_chat.Prelude.{ℕ, ◌≡◌, true, arith, inl, inr}
use inline_chat.Chat.World.{Service}
use inline_chat.Chat.AutoClose.{
  auto_close_conversation_by_timeout, settle_timer, Timeout, with_event_transaction, World,
  time_out_in_transaction, ok,
}
use inline_chat.Chat.World.Rules.{Atomic}
use inline_chat.Errors.{Result-cases}
use inline_chat.Chat.Events.Rules.{with_event_transaction-Atomic}

module _ {C M O : Type 0} (svc : Service C M O) (on : svc.outbox_enabled ≡ true) where
  settle_timer-Succeeds :
      (id now : ℕ) (t : Timeout) (w : World C M O) → (settle_timer svc id now t w).0 ≡ ok tt
  unfolding settle_timer
  settle_timer-Succeeds id now t w = ground arith

  pub auto_close_by_timeout-Atomic :
      (id now : ℕ) → Atomic (auto_close_conversation_by_timeout svc id now)
  unfolding auto_close_conversation_by_timeout
  auto_close_by_timeout-Atomic id now w h =
      let inside = with_event_transaction svc (time_out_in_transaction svc id now) in
      elim (Result-cases (inside w).0) [
        | inl (x, failed) ↦ ground (
          arith,
          failed,
          with_event_transaction-Atomic svc (time_out_in_transaction svc id now) on w,
        )
        | inr (t, done) ↦ ground (arith, done, settle_timer-Succeeds id now t (inside w).1)
      ]
