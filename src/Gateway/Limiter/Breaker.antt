-- ===== src/Gateway/Limiter/Breaker.antt =====
-- The circuit between a limiter and its distributed counter.
use Prim.Native.Nat.{ℕ}
use inline_chat.Prelude.{
  true, false, String, ◌≡◌, ◌+◌, suc, length, List, [], ◌∷◌, some, none, refl, ◌++◌, if◌then◌else◌,
  leb, ap, arith, Option, str_eq, ◌∙◌, sym, ltb, ◌<◌, ◌≤◌,
}
use inline_chat.Errors.{Error, err, ok}
use inline_chat.Gateway.Limiter.{
  Limiter, TokenBucket, Counter, Distributed, Circuit, allow, allow_distributed, ask, is_open_at,
  on_distributed_failure, distributed_key, minute, allow_key, closed, decide,
}
use inline_chat.Prelude.Text.{trim_space, to_lower}

allow_distributed-open :
    (d : Distributed) (now : ℕ) (counter : Counter) (key : String) (c : Circuit)
    → is_open_at now c.open_until ≡ true
    → allow_distributed d now counter key c ≡ (none, c)
unfolding allow_distributed
allow_distributed-open d now counter key c h = rw h refl

allow_distributed-closed :
    (d : Distributed) (now : ℕ) (counter : Counter) (key : String) (c : Circuit)
    → is_open_at now c.open_until ≡ false
    → allow_distributed d now counter key c
      ≡ ask d now
          (counter (distributed_key d now key) (d.window + minute))
          (record c { open_until = none })
unfolding allow_distributed
allow_distributed-closed d now counter key c h = rw h refl

-- The circuit after requests at these times, all of which the counter fails.
unfoldable pub fails : Distributed → Error → String → List ℕ → Circuit → Circuit
unfolding allow_distributed
fails d e key [] c = c
fails d e key (now ∷ times) c =
    fails d e key times (allow_distributed d now (λ k ttl. err e) key c).1

-- One more failure of a circuit that is not open.
failing :
    (d : Distributed) (e : Error) (key : String) (now n : ℕ)
    → (allow_distributed d now (λ k ttl. err e) key (record { failures = n; open_until = none })).1
      ≡ (if leb d.fail_count (suc n)
          then record { failures = 0; open_until = some (now + d.open_window) }
          else record { failures = suc n; open_until = none })
unfolding allow_distributed ask on_distributed_failure
failing d e key now n = refl

-- As many failures in a row as fail_count, with `n` of them counted before, open the circuit for the
-- open window from the last one on.
fails-opens :
    (d : Distributed) (e : Error) (key : String) (times : List ℕ) (n last : ℕ)
    → suc (n + length times) ≡ d.fail_count
    → fails d e key (times ++ (last ∷ [])) (record { failures = n; open_until = none })
      ≡ record { failures = 0; open_until = some (last + d.open_window) }
unfolding fails
fails-opens d e key [] n last h =
    let full : leb d.fail_count (suc n) ≡ true = ground (arith, h) in
    failing d e key last n ∙ rw full refl
fails-opens d e key (now ∷ times) n last h =
    let more : leb d.fail_count (suc n) ≡ false = ground (arith, h) in
    ap (fails d e key (times ++ (last ∷ []))) (failing d e key now n ∙ rw more refl)
    ∙ fails-opens d e key times (suc n) last (omega (arith, h))

module _ {B : Type 0} (rate : TokenBucket B) where
  allow-answered :
      (now count : ℕ) (raw : String) (d : Distributed) (l : Limiter B)
      → str_eq (trim_space (to_lower raw)) "" ≡ false
      → l.distributed ≡ some d
      → is_open_at now l.circuit.open_until ≡ false
      → allow rate now (λ key ttl. ok count) raw l
        ≡ (leb count d.limit, record l { circuit = closed })
  unfolding allow allow_key decide allow_distributed ask
  allow-answered now count raw d l named some_d late = rw (named, some_d, late) refl

  allow_key-unasked :
      (now : ℕ) (counter other : Counter) (key : String) (o : Option Distributed) (l : Limiter B)
      → is_open_at now l.circuit.open_until ≡ true
      → allow_key rate now counter key o l ≡ allow_key rate now other key o l
  unfolding allow_key
  allow_key-unasked now counter other key none l h = refl
  allow_key-unasked now counter other key (some d) l h =
      ap (λ r. decide rate now key r l)
        (allow_distributed-open d now counter key l.circuit h
          ∙ sym (allow_distributed-open d now other key l.circuit h))

  -- While the circuit is open, a request is answered without the counter, so that what the counter would
  -- say makes no difference.
  allow-unasked :
      (now : ℕ) (counter other : Counter) (raw : String) (l : Limiter B)
      → is_open_at now l.circuit.open_until ≡ true
      → allow rate now counter raw l ≡ allow rate now other raw l
  unfolding allow
  allow-unasked now counter other raw l h =
      ap (λ r. if str_eq (trim_space (to_lower raw)) "" then (true, l) else r)
        (allow_key-unasked now counter other (trim_space (to_lower raw)) l.distributed l h)

  -- The circuit after as many failed requests in a row as fail_count.
  tripped :
      (d : Distributed) (e : Error) (key : String) (times : List ℕ) (last now : ℕ) (c : Circuit)
      → suc (length times) ≡ d.fail_count
      → c ≡ fails d e key (times ++ (last ∷ [])) closed
      → is_open_at now c.open_until ≡ ltb now (last + d.open_window)
  tripped d e key times last now c full state =
      ap (λ x. is_open_at now x.open_until)
        (state ∙ fails-opens d e key times 0 last (omega (arith, full)))

  -- After as many failed requests in a row as fail_count, no request asks the counter until the open
  -- window after the last of them has passed: what the counter would say makes no difference.
  pub allow-trips :
      (d : Distributed) (e : Error) (key raw : String) (times : List ℕ) (last now : ℕ)
      (counter other : Counter) (l : Limiter B)
      → suc (length times) ≡ d.fail_count
      → l.circuit ≡ fails d e key (times ++ (last ∷ [])) closed
      → now < last + d.open_window
      → allow rate now counter raw l ≡ allow rate now other raw l
  allow-trips d e key raw times last now counter other l full state early =
      allow-unasked now counter other raw l
        (tripped d e key times last now l.circuit full state ∙ ground (arith, early))

  -- After as many failed requests in a row as fail_count, and once the open window after the last of
  -- them has passed, the first request that the counter answers is decided by the count and the limit,
  -- and closes the circuit with no failure counted.
  pub allow-recovers :
      (d : Distributed) (e : Error) (key raw : String) (times : List ℕ) (last now count : ℕ)
      (l : Limiter B)
      → l.distributed ≡ some d
      → suc (length times) ≡ d.fail_count
      → l.circuit ≡ fails d e key (times ++ (last ∷ [])) closed
      → str_eq (trim_space (to_lower raw)) "" ≡ false
      → last + d.open_window ≤ now
      → allow rate now (λ k ttl. ok count) raw l
        ≡ (leb count d.limit, record l { circuit = closed })
  allow-recovers d e key raw times last now count l some_d full state named late =
      allow-answered now count raw d l named some_d
        (tripped d e key times last now l.circuit full state ∙ ground (arith, late))
