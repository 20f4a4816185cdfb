-- ===== src/Realtime/Replay/Missed.antt =====
-- The scan of a whole history, in closed form: the newer messages, up to the limit.
use Prim.Native.Nat.{ℕ, suc}
use inline_chat.Realtime.Upstream.{ChatMessage, Upstream}
use inline_chat.Realtime.Replay.{scan_page, max_replay_messages, Scan, fetch, replay_page_size}
use inline_chat.Prelude.{
  List, ◌∷◌, length, leb, ◌+◌, ◌≡◌, true, filter, ◌++◌, take, [], arith, All-mono, ap, false, Bool,
  Bool-cases, refl, inl, inr, length-append, if◌then◌else◌, zero, All, some, ◌∙◌,
}
use inline_chat.Realtime.Replay.Pages.{
  IsHistory, is_newer, All-drops, is_older, All-keeps, fetch-scan,
}
use mathlib.Core.List.{append_assoc}
use inline_chat.Grpc.{given}
use inline_chat.Errors.{ok}

All-true : (xs : List ChatMessage) → All (λ x. is_older 0 x ≡ true) xs
All-true [] = tt
All-true (x ∷ xs) = (refl, All-true xs)

pub append-nil : {A : Type 0} (xs : List A) → xs ++ [] ≡ xs
append-nil [] = refl
append-nil (x ∷ xs) = ap (λ ys. x ∷ ys) (append-nil xs)

module _ (last : ℕ) where
  newer-older :
      (item : ChatMessage) (items : List ChatMessage)
      → IsHistory (item ∷ items)
      → leb item.id last ≡ true
      → filter (is_newer last) (item ∷ items) ≡ []
  newer-older item items h old =
      All-drops (is_newer last) (item ∷ items)
        (ground (arith, old), All-mono (λ x b. ground (arith, b, old)) items h.1)

  scan_page-one :
      (item : ChatMessage) (items missed : List ChatMessage)
      → leb item.id last ≡ false
      → scan_page last (item ∷ items) missed ≡ (
          if leb max_replay_messages (length missed + 1)
          then record { missed = missed ++ (item ∷ []); stop = true; truncated = true }
          else scan_page last items (missed ++ (item ∷ [])))
  unfolding scan_page
  scan_page-one item items missed new = rw new (rw (length-append missed (item ∷ [])) refl)

  scan_page-old :
      (item : ChatMessage) (items missed : List ChatMessage)
      → leb item.id last ≡ true
      → scan_page last (item ∷ items) missed
        ≡ record { missed = missed; stop = true; truncated = false }
  unfolding scan_page
  scan_page-old item items missed old = rw old refl

  -- The missed messages, and whether more are left.
  abbrev missed_after : ℕ → List ChatMessage → List ChatMessage → List ChatMessage × Bool
  missed_after k items missed = (
    missed ++ take k (filter (is_newer last) items),
    leb k (length (filter (is_newer last) items)),
  )

  result : Scan → List ChatMessage × Bool
  result s = (s.missed, s.truncated)

  scan_page-missed :
      (k : ℕ) (items missed : List ChatMessage)
      → IsHistory items
      → length missed + suc k ≡ max_replay_messages
      → result (scan_page last items missed) ≡ missed_after (suc k) items missed
  unfolding result scan_page
  scan_page-missed k [] missed h room = rw (append-nil missed) (ground arith)
  scan_page-missed zero (item ∷ items) missed h room = elim (Bool-cases (leb item.id last)) [
    | inl old ↦
        rw (scan_page-old item items missed old)
          (rw (newer-older item items h old) (rw (append-nil missed) (ground arith)))
    | inr new ↦
        let kept : filter (is_newer last) (item ∷ items) ≡ item ∷ filter (is_newer last) items =
          ground (arith, new) in
        let full : leb max_replay_messages (length missed + 1) ≡ true = ground (arith, room) in
        rw (scan_page-one item items missed new) (rw kept (rw full (ground arith)))
  ]
  scan_page-missed (suc k) (item ∷ items) missed h room = elim (Bool-cases (leb item.id last)) [
    | inl old ↦
        rw (scan_page-old item items missed old)
          (rw (newer-older item items h old) (rw (append-nil missed) (ground arith)))
    | inr new ↦
        let kept : filter (is_newer last) (item ∷ items) ≡ item ∷ filter (is_newer last) items =
          ground (arith, new) in
        let fits : leb max_replay_messages (length missed + 1) ≡ false = ground (arith, room) in
        let more =
          scan_page-missed k items (missed ++ (item ∷ [])) h.2
            (omega (arith, room, length-append missed (item ∷ []))) in
        rw (scan_page-one item items missed new) (
          rw kept (
            rw fits (
              rw more (
                rw (append_assoc missed (item ∷ []) (take (suc k) (filter (is_newer last) items)))
                  (ground arith)))))
  ]

module _ {W : Type 0} (up : Upstream W) (conversation last : ℕ) (w : W) (history : List ChatMessage)
    (ordered : IsHistory history)
    (lists : (before : ℕ)
      → up.list_messages conversation replay_page_size before w
        ≡ given (take replay_page_size (filter (is_older before) history))) where
  pub fetch-missed :
      fetch up conversation last w (suc max_replay_messages) 0 []
      ≡ some (ok (missed_after last max_replay_messages history []))
  unfolding result
  fetch-missed =
      let all = All-keeps (is_older 0) history (All-true history) in
      let whole =
        fetch-scan up conversation last w history ordered lists (suc max_replay_messages) 0 [] []
          history (omega arith) (omega arith) refl all in
      whole ∙ ap (λ r. some (ok r)) (scan_page-missed last 499 history [] ordered refl)
