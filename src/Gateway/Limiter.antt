-- ===== src/Gateway/Limiter.antt =====
-- services/gateway-service/internal/ratelimit/limiter.go. Times and durations are nanoseconds, from the
-- zero time on. The token bucket of golang.org/x/time/rate and the answers of the distributed counter are
-- parameters. The mutexes make each method one step.
pub mod Size
pub mod Breaker
pub mod Keys
pub mod Window
use Prim.Native.Nat.{ℕ}
use Prim.Native.String.{◌++◌}
use inline_chat.Prelude.{
  String, Bool, true, false, not, Option, none, some, List, [], filter, length, ltb, leb, str_eq,
  if◌then◌else◌, ◌≡◌, ◌<◌, suc, ◌+◌, ◌-◌, ◌*◌, ◌/◌, ◌%◌,
}
use inline_chat.Prelude.Int.{ℤ, positive_or}
use inline_chat.Prelude.Keyed.{lookup, assign}
use inline_chat.Prelude.Text.{trim_space, to_lower, format_uint}
use inline_chat.Errors.{Result, ok, err}

-- rate.NewLimiter(rate.Limit(float64(perMinute) / 60.0), burst) and Allow at a time. A fresh limiter
-- that has a burst lets an event pass.
pub record TokenBucket (B : Type 0) : Type 0 where
  pub new_limiter : ℕ → ℕ → B
  pub allow_at : ℕ → B → Bool × B
  pub allow_fresh :
      (per_minute burst now : ℕ)
      → 0 < burst
      → (allow_at now (new_limiter per_minute burst)).0 ≡ true

pub record Entry (B : Type 0) : Type 0 where
  pub limiter : B
  pub last_seen : ℕ

-- The fields that EnableDistributedCounter sets.
pub record Distributed : Type 0 where
  pub prefix : String
  pub window : ℕ
  pub limit : ℕ
  pub fail_count : ℕ
  pub open_window : ℕ

-- circuitFailures, and circuitOpenUntil with `none` for the zero time.
pub record Circuit : Type 0 where
  pub failures : ℕ
  pub open_until : Option ℕ

pub record Limiter (B : Type 0) : Type 0 where
  pub entries : List (String × Entry B)
  pub per_minute : ℕ
  pub burst : ℕ
  pub ttl : ℕ
  pub max_entries : ℕ
  pub last_cleanup : Option ℕ
  pub distributed : Option Distributed
  pub circuit : Circuit

abbrev pub second : ℕ
second = 1000000000

abbrev pub minute : ℕ
minute = 60000000000

abbrev pub closed : Circuit
closed = record { failures = 0; open_until = none }

unfoldable pub new : {B : Type 0} → ℤ → ℤ → ℤ → ℤ → Limiter B
new per_minute burst ttl max_entries = record {
  entries = [];
  per_minute = positive_or 60 per_minute;
  burst = positive_or 20 burst;
  ttl = positive_or (30 * minute) ttl;
  max_entries = positive_or 100000 max_entries;
  last_cleanup = none;
  distributed = none;
  circuit = closed;
}

-- perMinute + burst in 64 bits: a sum that wraps around is negative.
abbrev pub distributed_limit : ℕ → ℕ → ℕ
distributed_limit per_minute burst =
    if ltb (per_minute + burst) 9223372036854775808 then per_minute + burst else per_minute

abbrev pub prefix_of : String → String
unfolding trim_space to_lower
prefix_of raw =
    let prefix = trim_space (to_lower raw) in
    if str_eq prefix "" then "gateway:ratelimit" else prefix

-- EnableDistributedCounterWithCircuit, with a counter.
unfoldable pub enable_distributed_counter :
    {B : Type 0} → String → ℤ → ℤ → ℤ → Limiter B → Limiter B
unfolding prefix_of
enable_distributed_counter prefix window fail_count open_window l = record l {
  distributed = some (record {
    prefix = prefix_of prefix;
    window = positive_or minute window;
    limit = distributed_limit l.per_minute l.burst;
    fail_count = positive_or 3 fail_count;
    open_window = positive_or (30 * second) open_window;
  });
  circuit = closed;
}

-- The circuit, at a time.
abbrev pub is_open_at : ℕ → Option ℕ → Bool
is_open_at now none = false
is_open_at now (some until) = ltb now until

-- isCircuitOpen, which forgets a time that has passed.
abbrev pub is_circuit_open : ℕ → Circuit → Bool × Circuit
is_circuit_open now c =
    if is_open_at now c.open_until then (true, c) else (false, record c { open_until = none })

unfoldable pub on_distributed_failure : Distributed → ℕ → Circuit → Circuit
on_distributed_failure d now c =
    if is_open_at now c.open_until
    then c
    else if leb d.fail_count (suc c.failures)
    then record { failures = 0; open_until = some (now + d.open_window) }
    else record c { failures = suc c.failures }

-- What the counter answers for a key and a time to live.
abbrev pub Counter : Type 0
Counter = String → ℕ → Result ℕ

-- now.UTC().Truncate(window).Unix(), of a time after 1970.
abbrev pub window_start : ℕ → ℕ → ℕ
window_start window now = (now - now % window) / second - 62135596800

abbrev pub distributed_key : Distributed → ℕ → String → String
unfolding format_uint
distributed_key d now key = d.prefix ++ ":" ++ format_uint (window_start d.window now) ++ ":" ++ key

-- The circuit is not open: the counter decides, unless it fails. `none` is "not decided".
abbrev pub ask : Distributed → ℕ → Result ℕ → Circuit → Option Bool × Circuit
unfolding on_distributed_failure
ask d now (err e) c = (none, on_distributed_failure d now c)
ask d now (ok count) c = (some (leb count d.limit), closed)

unfoldable pub allow_distributed :
    Distributed → ℕ → Counter → String → Circuit → Option Bool × Circuit
unfolding ask distributed_key
allow_distributed d now counter key c =
    let (refusing, c') = is_circuit_open now c in
    if refusing
    then (none, c')
    else ask d now (counter (distributed_key d now key) (d.window + minute)) c'

module _ {B : Type 0} (rate : TokenBucket B) where
  abbrev pub is_clean_at : ℕ → Option ℕ → Bool
  is_clean_at now none = false
  is_clean_at now (some last) = ltb now (last + minute)

  abbrev pub cleanup_if_needed : ℕ → Limiter B → Limiter B
  cleanup_if_needed now l = if is_clean_at now l.last_cleanup then l else record l {
    entries = filter (λ e. not (ltb (e.1.last_seen + l.ttl) now)) l.entries;
    last_cleanup = some now;
  }

  -- `item.limiter.Allow()`, on the item that is stored under the key.
  abbrev pub allow_entry : ℕ → String → B → Limiter B → Bool × Limiter B
  allow_entry now key b l =
      let (allowed, b') = rate.allow_at now b in
      (
        allowed,
        record l { entries = assign key (record { limiter = b'; last_seen = now }) l.entries },
      )

  -- With no room for a new key, the request passes.
  abbrev pub allow_item : ℕ → String → Option (Entry B) → Limiter B → Bool × Limiter B
  allow_item now key (some item) l = allow_entry now key item.limiter l
  allow_item now key none l =
      if leb l.max_entries (length l.entries)
      then (true, l)
      else allow_entry now key (rate.new_limiter l.per_minute l.burst) l

  unfoldable pub allow_local : ℕ → String → Limiter B → Bool × Limiter B
  allow_local now key l =
      let l' = cleanup_if_needed now l in allow_item now key (lookup key l'.entries) l'

  abbrev pub decide : ℕ → String → Option Bool × Circuit → Limiter B → Bool × Limiter B
  unfolding allow_local
  decide now key (some allowed, c) l = (allowed, record l { circuit = c })
  decide now key (none, c) l = allow_local now key (record l { circuit = c })

  abbrev pub allow_key : ℕ → Counter → String → Option Distributed → Limiter B → Bool × Limiter B
  unfolding allow_local decide allow_distributed
  allow_key now counter key none l = allow_local now key l
  allow_key now counter key (some d) l =
      decide now key (allow_distributed d now counter key l.circuit) l

  unfoldable pub allow : ℕ → Counter → String → Limiter B → Bool × Limiter B
  unfolding allow_key trim_space to_lower
  allow now counter raw l =
      let key = trim_space (to_lower raw) in
      if str_eq key "" then (true, l) else allow_key now counter key l.distributed l
