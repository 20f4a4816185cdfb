-- ===== src/Gateway/Tests.antt =====
-- A limiter with a token bucket that never refuses, and one with a distributed counter.
use inline_chat.Prelude.{ℕ, ◌≡◌, refl, [], ◌∷◌, arith, min, ltb, lt→ltb, ◌-◌, leb, List}
use inline_chat.Prelude.Int.{pos}
use inline_chat.Errors.{ok, failed}
use inline_chat.Gateway.Limiter.{
  Limiter, TokenBucket, Distributed, new, enable_distributed_counter, allow, closed,
}
use inline_chat.Gateway.Limiter.Size.{IsBounded, allow_all, allow_all-IsBounded}
use inline_chat.Gateway.Limiter.Breaker.{fails, allow-trips, allow-recovers}
use inline_chat.Gateway.Limiter.Window.{passed, passed-limit, asked, Request}
use inline_chat.Prelude.Text.{trim_space, to_lower}

-- A bucket is the number of events that it still lets pass.
abbrev tokens : TokenBucket ℕ
tokens = record {
  new_limiter = λ per_minute burst. burst;
  allow_at = λ now b. (ltb 0 b, b - 1);
  allow_fresh = λ per_minute burst now h. lt→ltb 0 burst h;
}

abbrev local : Limiter ℕ
unfolding new
local = new (pos 60) (pos 2) (pos 0) (pos 2)

-- Five per window of a minute; three failures open the circuit for 30 s.
abbrev settings : Distributed
settings = record {
  prefix = "gateway:ratelimit";
  window = 60000000000;
  limit = 62;
  fail_count = 3;
  open_window = 30000000000;
}

abbrev shared : Limiter ℕ
unfolding new enable_distributed_counter
shared = enable_distributed_counter "" (pos 0) (pos 0) (pos 0) local

allow_all-IsBounded_example : IsBounded tokens (
    allow_all tokens
      ((5, "a", (λ k t. ok 1)) ∷ (6, "b", (λ k t. ok 1)) ∷ (7, "c", (λ k t. ok 1)) ∷ [])
      local)
unfolding local new
allow_all-IsBounded_example =
    allow_all-IsBounded tokens
      ((5, "a", (λ k t. ok 1)) ∷ (6, "b", (λ k t. ok 1)) ∷ (7, "c", (λ k t. ok 1)) ∷ []) local
      (omega arith)

-- Two callers in one minute of 2024, and one of them in the next.
abbrev requests : List Request
requests =
    (63839793600000000000, " Key ")
    ∷ (63839793601000000000, "other")
    ∷ (63839793602000000000, "key")
    ∷ (63839793660000000000, "key")
    ∷ []

passed-limit_example :
    passed tokens settings "key" 1063996560 requests (λ k. 0) shared
    ≡ min (asked settings "key" 1063996560 requests) 62
unfolding shared
passed-limit_example =
    passed-limit tokens settings "key" 63839793600000000000 requests shared (omega arith) refl
      (omega arith) (omega arith, (omega arith, (omega arith, (omega arith, tt)))) refl refl

two_asked : asked settings "key" 1063996560 requests ≡ 2
unfolding trim_space to_lower
two_asked = refl

-- Three requests fail at 10, 11 and 12.
abbrev broken : Limiter ℕ
unfolding shared fails
broken = record shared { circuit = fails settings (failed "down") "k" (10 ∷ 11 ∷ 12 ∷ []) closed }

allow-trips_example :
    allow tokens 1000 (λ k t. ok 1) "k" broken ≡ allow tokens 1000 (λ k t. ok 99) "k" broken
unfolding broken
allow-trips_example =
    allow-trips tokens settings (failed "down") "k" "k" (10 ∷ 11 ∷ []) 12 1000 (λ k t. ok 1)
      (λ k t. ok 99) broken refl refl (omega arith)

allow-recovers_example :
    allow tokens 30000000013 (λ k t. ok 1) "k" broken
    ≡ (leb 1 62, record broken { circuit = closed })
unfolding broken shared
allow-recovers_example =
    allow-recovers tokens settings (failed "down") "k" "k" (10 ∷ 11 ∷ []) 12 30000000013 1 broken
      refl refl refl refl (omega arith)
