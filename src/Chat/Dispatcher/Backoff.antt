-- ===== src/Chat/Dispatcher/Backoff.antt =====
-- The waiting time of a failed event.
use inline_chat.Prelude.{
  ℕ, zero, suc, ◌*◌, ◌^◌, ◌≤◌, ◌<◌, ◌≡◌, min, arith, Bool-cases, inl, inr, leb, leb→le, ◌∙◌, ◌-◌,
  subst,
}
use inline_chat.Chat.Dispatcher.{
  ge64, double_until, leb, double64, retry_delay, normalized, Config, RawConfig,
}
use inline_chat.Prelude.Int.{pos, negsuc, ℤ, positive_or}
use native.Mathlib.Nat.{pow-suc, pow-le-pow_right}

abbrev two62 : ℕ
two62 = 4611686018427387904

ge64_small : (a b : ℕ) → a < 9223372036854775808 → b < 9223372036854775808 → ge64 a b ≡ leb b a
ge64_small a b ha hb = ground arith

pow-suc_double : (d n : ℕ) → d * 2 ^ suc n ≡ d * 2 * 2 ^ n
pow-suc_double d n = rw pow-suc (grind arith)

le-mul-pow : (d n : ℕ) → d ≤ d * 2 ^ n
le-mul-pow d zero = omega arith
le-mul-pow d (suc n) = omega (arith, pow-suc_double d n, le-mul-pow (d * 2) n)

double_until-min :
    (turns max delay : ℕ)
    → delay < two62
    → max ≤ two62
    → double_until turns max delay ≡ min (delay * 2 ^ turns) max
unfolding double_until
double_until-min zero max delay hd hm = ground (arith, ge64_small max delay)
double_until-min (suc turns) max delay hd hm =
    let exact : double64 delay ≡ delay * 2 = omega arith in
    let test : ge64 (double64 delay) max ≡ leb max (delay * 2) =
      rw exact (ge64_small (delay * 2) max (omega arith) (omega arith)) in
    elim (Bool-cases (leb max (delay * 2))) [
      | inl over ↦
          rw (test, over)
            (omega (
              arith,
              pow-suc_double delay turns,
              le-mul-pow (delay * 2) turns,
              leb→le max (delay * 2) over,
            ))
      | inr under ↦
          rw (test, under)
            (double_until-min turns max (double64 delay) (ground arith) hm
              ∙ rw exact (omega (arith, pow-suc_double delay turns)))
    ]

-- The waiting time doubles with each attempt up to the maximum, in the 64-bit arithmetic of the code,
-- where both intervals are below 2 ^ 62 nanoseconds (146 years).
pub retry_delay_lem :
    (cfg : Config) (attempts : ℕ)
    → cfg.retry_base_interval < two62
    → cfg.retry_max_interval ≤ two62
    → retry_delay cfg attempts
      ≡ min (cfg.retry_base_interval * 2 ^ (attempts - 1)) cfg.retry_max_interval
unfolding retry_delay
retry_delay_lem cfg attempts hb hm =
    double_until-min (attempts - 1) cfg.retry_max_interval cfg.retry_base_interval hb hm

positive_or-pos : (d : ℕ) (z : ℤ) → 0 < d → 0 < positive_or d z
positive_or-pos d (pos zero) h = h
positive_or-pos d (pos (suc n)) h = omega arith
positive_or-pos d (negsuc n) h = h

le-pow-pred : (n : ℕ) → 2 ^ (n - 1) ≤ 2 ^ n
le-pow-pred n = pow-le-pow_right (omega arith) (omega arith)

mul_mono : (a b c : ℕ) → b ≤ c → a * b ≤ a * c
mul_mono a b c h = grind arith

-- Whatever the environment sets, a failed event waits a positive time that is at most the maximum and
-- never shorter than after the attempt before. Both intervals are below 2 ^ 62 nanoseconds.
pub retry_delay_bounds :
    (c : RawConfig) (attempts : ℕ)
    → (normalized c).retry_base_interval < two62
    → (normalized c).retry_max_interval ≤ two62
    → (0 < retry_delay (normalized c) attempts)
      × (retry_delay (normalized c) attempts ≤ (normalized c).retry_max_interval)
      × (retry_delay (normalized c) attempts ≤ retry_delay (normalized c) (suc attempts))
unfolding normalized
retry_delay_bounds c attempts hb hm =
    let base = (normalized c).retry_base_interval in
    let now = retry_delay_lem (normalized c) attempts hb hm in
    let top = (normalized c).retry_max_interval in
    let exponent : suc attempts - 1 ≡ attempts = omega arith in
    let later =
      subst (λ k. retry_delay (normalized c) (suc attempts) ≡ min (base * 2 ^ k) top) exponent
        (retry_delay_lem (normalized c) (suc attempts) hb hm) in
    let base_pos : 0 < base = positive_or-pos 500_000_000 c.retry_base_interval (omega arith) in
    let top_pos : 0 < (normalized c).retry_max_interval =
      positive_or-pos 15_000_000_000 c.retry_max_interval (omega arith) in
    let grows = mul_mono base _ _ (le-pow-pred attempts) in
    let least = le-mul-pow base (attempts - 1) in
    (
      omega (arith, now, base_pos, top_pos, least),
      omega (arith, now),
      omega (arith, now, later, grows),
    )
