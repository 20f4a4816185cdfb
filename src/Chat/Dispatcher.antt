-- ===== src/Chat/Dispatcher.antt =====
-- services/chat-service/internal/service/outbox_dispatcher.go. Start, Stop and the two goroutines are
-- left out: `dispatch_once` is what each turn of their loop runs, and `trigger` what wakes it.
pub mod Backoff
pub mod Frame
use Prim.Native.String.{len, slice}
use inline_chat.Prelude.{
  ℕ, zero, suc, ◌+◌, ◌-◌, ◌*◌, ◌%◌, String, Bool, true, Option, none, some, List, [], ◌∷◌, ◌++◌,
  ltb, leb, if◌then◌else◌,
}
use inline_chat.Prelude.Int.{ℤ, pos, positive_or}
use inline_chat.Prelude.Text.{trim_space}
use inline_chat.Errors.{Error, Result, ok, err, error_text}
use inline_chat.Chat.Model.{EventOutbox}
use inline_chat.Chat.World.{Service, Action, pure, attempt, modify, ◌>>=◌, ◌>>◌}
use inline_chat.Chat.Repository.Outbox

-- Durations are in nanoseconds.
pub record RawConfig : Type 0 where
  pub poll_interval : ℤ
  pub batch_size : ℤ
  pub max_attempts : ℤ
  pub retry_base_interval : ℤ
  pub retry_max_interval : ℤ
  pub processing_timeout : ℤ

pub record Config : Type 0 where
  pub poll_interval : ℕ
  pub batch_size : ℕ
  pub max_attempts : ℕ
  pub retry_base_interval : ℕ
  pub retry_max_interval : ℕ
  pub processing_timeout : ℕ

unfoldable pub normalized : RawConfig → Config
normalized c = record {
  poll_interval = positive_or 5_000_000_000 c.poll_interval;
  batch_size = positive_or 100 c.batch_size;
  max_attempts = positive_or 8 c.max_attempts;
  retry_base_interval = positive_or 500_000_000 c.retry_base_interval;
  retry_max_interval = positive_or 15_000_000_000 c.retry_max_interval;
  processing_timeout = positive_or 30_000_000_000 c.processing_timeout;
}

abbrev pub two63 : ℕ
two63 = 9223372036854775808

abbrev pub two64 : ℕ
two64 = 18446744073709551616

-- int64 in two's complement: `d *= 2`, and the signed comparison `a >= b`.
abbrev pub double64 : ℕ → ℕ
double64 d = (d * 2) % two64

abbrev pub ge64 : ℕ → ℕ → Bool
ge64 a b = leb ((b + two63) % two64) ((a + two63) % two64)

-- The loop of retryDelay over the turns left, and the test after it.
unfoldable pub double_until : ℕ → ℕ → ℕ → ℕ
double_until zero max delay = if ge64 max delay then delay else max
double_until (suc turns) max delay =
    let rest = double_until turns max (double64 delay) in
    if ge64 (double64 delay) max then max else rest

unfoldable pub retry_delay : Config → ℕ → ℕ
unfolding double_until
retry_delay cfg attempts =
    double_until (attempts - 1) cfg.retry_max_interval cfg.retry_base_interval

-- Go cuts after 1024 bytes; here a code point that this would split is dropped whole.
unfoldable pub trim_error : Error → String
unfolding error_text trim_space
trim_error e =
    let msg = trim_space (error_text e) in if leb (len msg) 1024 then msg else slice msg 0 1024

-- wakeCh holds one signal at most.
unfoldable pub trigger : Bool → Bool
trigger pending = true

module _ {C M O : Type 0} (svc : Service C M O) (transport : EventOutbox → Option Error)
    (cfg : Config) where
  -- An error is only logged.
  logged : {A : Type 0} → Action C M O A → Action C M O (Unit {0})
  logged m = attempt m >> pure tt

  -- A failed event: to the dead letters once its attempts are used up, or back with a later time.
  after_failure : ℕ → EventOutbox → Error → Action C M O (Unit {0})
  unfolding logged Outbox.mark_dead Outbox.mark_for_retry retry_delay trim_error
  after_failure now e error =
      if leb cfg.max_attempts e.attempts
      then logged (Outbox.mark_dead svc e.id (trim_error error))
      else logged
          (Outbox.mark_for_retry svc e.id (now + retry_delay cfg e.attempts) (trim_error error))

  unfoldable pub dispatch_item : ℕ → EventOutbox → Action C M O (Unit {0})
  unfolding after_failure logged Outbox.mark_published
  dispatch_item now e = elim (transport e) [
    | some error ↦ after_failure now e error
    | none ↦ do
      modify (λ w. record w { published = w.published ++ e.payload ∷ [] })
      logged (Outbox.mark_published svc e.id now)
  ]

  unfoldable pub dispatch_items : ℕ → List EventOutbox → Action C M O (Unit {0})
  unfolding dispatch_item
  dispatch_items now [] = pure tt
  dispatch_items now (e ∷ es) = do dispatch_item now e; dispatch_items now es

  dispatch_fetched : ℕ → Result (List EventOutbox) → Action C M O (Unit {0})
  unfolding dispatch_items
  dispatch_fetched now (err e) = pure tt
  dispatch_fetched now (ok es) = dispatch_items now es

  -- `staleBefore` is ProcessingTimeout before `now`.
  unfoldable pub dispatch_once : ℕ → (ℕ → Bool) → Action C M O (Unit {0})
  unfolding logged dispatch_fetched Outbox.requeue_stale_processing Outbox.fetch_pending_for_update
  dispatch_once now locked = do
    logged (Outbox.requeue_stale_processing svc (now - cfg.processing_timeout) now)
    es ← attempt (Outbox.fetch_pending_for_update svc (pos cfg.batch_size) now now locked)
    dispatch_fetched now es

module _ {C M O : Type 0} (svc : Service C M O) where
  -- The number of rows, and the signal.
  unfoldable pub replay_dead : ℤ → ℕ → Bool → Action C M O (ℕ × Bool)
  unfolding Outbox.replay_dead trigger
  replay_dead limit now signal = do
    rows ← Outbox.replay_dead svc limit now
    pure (rows, if ltb 0 rows then trigger signal else signal)
