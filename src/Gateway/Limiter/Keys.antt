-- ===== src/Gateway/Limiter/Keys.antt =====
-- The keys of the distributed counter tell windows and callers apart.
use Prim.Native.Nat.{ℕ}
use native.Mathlib.Nat.{div-add-mod, mul-le-mul_left, mul-suc}
use text.Mathlib.TextLemmas.{append_cancel_left}
use inline_chat.Prelude.Text.Digits.{colon-injective}
use inline_chat.Prelude.{
  ◌-◌, ◌%◌, ◌/◌, ◌*◌, ◌<◌, ◌≤◌, ◌+◌, sym, ap, ◌∙◌, ◌≡◌, arith, String, ltb, suc, Bool-cases, inl,
  inr,
}
use inline_chat.Gateway.Limiter.{second, distributed_key, window_start, Distributed}
use inline_chat.Prelude.Text.{format_uint}
use Prim.Native.String.{◌++◌}

-- 1970-01-01, from the zero time on.
abbrev pub epoch : ℕ
epoch = 62135596800000000000

-- Where the window of a time begins.
begin-product : (w now : ℕ) → now - now % w ≡ w * (now / w)
begin-product w now = omega (arith, div-add-mod now w)

later-product : (w m n : ℕ) → m < n → w * m + w ≤ w * n
later-product w m n h =
    let steps : suc m ≤ n = omega (arith, h) in
    let more : w * suc m ≤ w * n = mul-le-mul_left w steps in omega (arith, more, mul-suc w m)

later_window :
    (w s t : ℕ)
    → second ≤ w
    → epoch ≤ w * s
    → s < t
    → w * s / second - 62135596800 < w * t / second - 62135596800
later_window w s t wide old h = omega (arith, later-product w s t h, wide, old)

pub window_start-injective :
    (w now later : ℕ)
    → second ≤ w
    → epoch ≤ now - now % w
    → epoch ≤ later - later % w
    → window_start w now ≡ window_start w later
    → now / w ≡ later / w
window_start-injective w now later wide old old' e =
    let at = begin-product w now in
    let at' = begin-product w later in
    elim (Bool-cases (ltb (now / w) (later / w))) [
      | inl before ↦ absurd (
          omega (
            arith,
            at,
            at',
            e,
            later_window w (now / w) (later / w) wide (omega (arith, at, old))
                (ground (arith, before)),
          ))
      | inr not_before ↦ elim (Bool-cases (ltb (later / w) (now / w))) [
        | inl after ↦ absurd (
            omega (
              arith,
              at,
              at',
              e,
              later_window w (later / w) (now / w) wide (omega (arith, at', old'))
                  (ground (arith, after)),
            ))
        | inr not_after ↦ ground (arith, not_before, not_after)
      ]
    ]

pub window_start-same :
    (w now later : ℕ) → now / w ≡ later / w → window_start w now ≡ window_start w later
window_start-same w now later e =
    ap (λ x. x / second - 62135596800)
      (begin-product w now ∙ ap (λ q. w * q) e ∙ sym (begin-product w later))

pub distributed_key-injective :
    (d : Distributed) (now later : ℕ) (key other : String)
    → distributed_key d now key ≡ distributed_key d later other
    → (window_start d.window now ≡ window_start d.window later) × (key ≡ other)
unfolding distributed_key
distributed_key-injective d now later key other e =
    colon-injective (window_start d.window now) (window_start d.window later) key other
      (append_cancel_left ":" _ _ (append_cancel_left d.prefix _ _ e))

pub distributed_key-same :
    (d : Distributed) (now later : ℕ) (key other : String)
    → window_start d.window now ≡ window_start d.window later
    → key ≡ other
    → distributed_key d now key ≡ distributed_key d later other
unfolding distributed_key
distributed_key-same d now later key other start same =
    ap (λ n. d.prefix ++ ":" ++ format_uint n ++ ":" ++ key) start
    ∙ ap (λ t. d.prefix ++ ":" ++ format_uint (window_start d.window later) ++ ":" ++ t) same
