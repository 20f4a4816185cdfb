-- ===== src/Chat/Tests/Timers.antt =====
-- The theorems on timers, on the reading of pages and on the dispatcher at concrete inputs.
use inline_chat.Prelude.{◌≡◌, true, [], ◌∷◌, arith, ◌≤◌, refl}
use inline_chat.Chat.Scheduler.Timers.{fire-schedule, call-others}
use inline_chat.Chat.Scheduler.{fire, lookup, schedule, cancel}
use inline_chat.Chat.Dispatcher.{RawConfig, normalized, retry_delay}
use inline_chat.Prelude.Int.{pos, negsuc}
use inline_chat.Chat.Dispatcher.Backoff.{retry_delay_lem, retry_delay_bounds}
use inline_chat.Errors.{ok}
use inline_chat.Chat.AutoClose.{open_conversation_ids}
use inline_chat.Chat.AutoClose.Paging.{open_conversation_ids-open_rows}
use inline_chat.Chat.Tests.{service, world_of, owned, offered}

fire-schedule_example : (fire 4 20 (schedule 4 20 1 (schedule 4 10 0 []))).1 ≡ true
fire-schedule_example = (fire-schedule 4 10 20 1 (schedule 4 10 0 []) (omega arith) (omega arith)).1

call-others_example : lookup 5 (cancel 4 (schedule 4 10 0 [])) ≡ lookup 5 (schedule 4 10 0 [])
call-others_example = (call-others 4 5 10 0 (schedule 4 10 0 []) (omega arith)).1

-- The durations of the defaults.
abbrev raw_config : RawConfig
raw_config = record {
  poll_interval = pos 0;
  batch_size = pos 0;
  max_attempts = negsuc 4;
  retry_base_interval = pos 0;
  retry_max_interval = pos 0;
  processing_timeout = pos 0;
}

retry_delay_lem_example : retry_delay (normalized raw_config) 4 ≡ 4_000_000_000
unfolding normalized
retry_delay_lem_example = retry_delay_lem (normalized raw_config) 4 (omega arith) (omega arith)

retry_delay_bounds_example :
    retry_delay (normalized raw_config) 9 ≤ (normalized raw_config).retry_max_interval
unfolding normalized
retry_delay_bounds_example = (retry_delay_bounds raw_config 9 (omega arith) (omega arith)).1

open_conversation_ids-open_rows_example :
    (open_conversation_ids service 1 0 (
      world_of
        (owned ∷ record offered { id = 2 } ∷ record owned { id = 3; status = "closed" } ∷ [])
        [])).0
    ≡ ok (2 ∷ 1 ∷ [])
open_conversation_ids-open_rows_example =
    open_conversation_ids-open_rows service 1
      (world_of
        (owned ∷ record offered { id = 2 } ∷ record owned { id = 3; status = "closed" } ∷ []) [])
      (λ q. refl) (omega arith)
