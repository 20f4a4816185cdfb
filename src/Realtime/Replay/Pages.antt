-- ===== src/Realtime/Replay/Pages.antt =====
-- The pages of a replay against the history of the conversation.
use Prim.Native.Nat.{ℕ, zero, suc}
use inline_chat.Prelude.{
  refl, if◌then◌else◌, false, ◌≡◌, ◌≢◌, ◌≤◌, ◌<◌, ◌+◌, none, List, [], ◌∷◌, ◌++◌, length,
  length-append, leb, arith, inl, inr, Bool-cases, All, Bool, filter, ◌==◌, ltb, true, All-mono,
  take, ◌||◌, ap, some, ◌∙◌, drop, sym, subst,
}
use inline_chat.Grpc.{Answer-cases, given}
use inline_chat.Realtime.Upstream.{Upstream, ChatMessage}
use inline_chat.Realtime.Replay.{scan_page, last_id, fetch, replay_page_size, max_replay_messages}
use inline_chat.Errors.{ok}
use mathlib.Core.List.{append_assoc}

scan_page-stop :
    (last : ℕ) (items missed : List ChatMessage)
    → (scan_page last items missed).stop ≡ false
    → length (scan_page last items missed).missed ≡ length missed + length items
unfolding scan_page
scan_page-stop last [] missed h = omega arith
scan_page-stop last (item ∷ items) missed h =
    ground
      (arith, scan_page-stop last items (missed ++ (item ∷ [])), length-append missed (item ∷ []))

scan_page-room :
    (last : ℕ) (items missed : List ChatMessage)
    → length missed < max_replay_messages
    → (scan_page last items missed).stop ≡ false
    → length (scan_page last items missed).missed < max_replay_messages
unfolding scan_page
scan_page-room last [] missed room h = room
scan_page-room last (item ∷ items) missed room h =
    ground (arith, scan_page-room last items (missed ++ (item ∷ [])))

module _ {W : Type 0} (up : Upstream W) (conversation last : ℕ) (w : W) where
  -- Whatever the chat service answers, the pages come to an end within the fuel: no more than 500
  -- messages are there already, and with them the fuel is more than 500.
  pub fetch-ends :
      (fuel before : ℕ) (missed : List ChatMessage)
      → length missed ≤ max_replay_messages
      → max_replay_messages < length missed + fuel
      → fetch up conversation last w fuel before missed ≢ none
  unfolding fetch
  fetch-ends zero before missed short enough e = absurd (omega arith)
  fetch-ends (suc fuel) before missed short enough e =
      elim (Answer-cases (up.list_messages conversation replay_page_size before w)) [
        | inl (x, a) ↦ ground (arith, a, e)
        | inr ([], a) ↦ ground (arith, a, e)
        | inr (item ∷ items, a) ↦
            let s = scan_page last (item ∷ items) missed in
            elim (Bool-cases (leb max_replay_messages (length missed))) [
              | inl full ↦ ground (arith, e, full)
              | inr room ↦ elim (Bool-cases s.stop) [
                | inl stop ↦ ground (arith, a, e, room, stop)
                | inr more ↦
                    let longer = scan_page-stop last (item ∷ items) missed more in
                    let fits =
                      scan_page-room last (item ∷ items) missed (ground (arith, room)) more in
                    ground (
                      arith,
                      a,
                      e,
                      room,
                      more,
                      fetch-ends fuel (last_id item items) s.missed (omega (arith, fits))
                          (omega (arith, longer, enough)),
                    )
              ]
            ]
      ]

-- The newest message comes first, and ids are positive.
abbrev pub IsHistory : List ChatMessage → Type 0
IsHistory [] = Unit
IsHistory (m ∷ ms) = (0 < m.id) × All (λ x. x.id < m.id) ms × IsHistory ms

-- The WHERE clause of the list: `before` is 0 for all messages.
abbrev pub is_older : ℕ → ChatMessage → Bool
is_older before m = before == 0 || ltb m.id before

abbrev pub is_newer : ℕ → ChatMessage → Bool
is_newer last m = ltb last m.id

pub All-keeps :
    {A : Type 0} (p : A → Bool) (xs : List A) → All (λ x. p x ≡ true) xs → filter p xs ≡ xs
All-keeps p [] h = refl
All-keeps p (x ∷ xs) h = rw h.0 (ap (λ ys. x ∷ ys) (All-keeps p xs h.1))

pub All-drops :
    {A : Type 0} (p : A → Bool) (xs : List A) → All (λ x. p x ≡ false) xs → filter p xs ≡ []
All-drops p [] h = refl
All-drops p (x ∷ xs) h = rw h.0 (All-drops p xs h.1)

IsHistory-drop : (xs ys : List ChatMessage) → IsHistory (xs ++ ys) → IsHistory ys
IsHistory-drop [] ys h = h
IsHistory-drop (x ∷ xs) ys h = IsHistory-drop xs ys h.2

All-drop : {A : Type 0} (P : A → Type 0) (xs ys : List A) → All P (xs ++ ys) → All P ys
All-drop P [] ys h = h
All-drop P (x ∷ xs) ys h = All-drop P xs ys h.1

last_id-le :
    (item : ChatMessage) (items ys : List ChatMessage)
    → IsHistory (item ∷ (items ++ ys))
    → (last_id item items ≤ item.id) × (0 < last_id item items)
last_id-le item [] ys h = (omega arith, h.0)
last_id-le item (next ∷ items) ys h =
    let (below, positive) = last_id-le next items ys h.2 in (omega (arith, below, h.1.0), positive)

-- The messages older than the last of a page are those after the page.
older-page :
    (item : ChatMessage) (items ys : List ChatMessage)
    → IsHistory (item ∷ (items ++ ys))
    → filter (is_older (last_id item items)) (item ∷ (items ++ ys)) ≡ ys
older-page item [] ys h =
    let kept : filter (is_older item.id) ys ≡ ys =
      All-keeps (is_older item.id) ys (All-mono (λ x b. ground (arith, b)) ys h.1) in
    ground (arith, kept, h.0)
older-page item (next ∷ items) ys h =
    let (below, positive) = last_id-le next items ys h.2 in
    ground (arith, below, positive, h.1.0, older-page next items ys h.2)

older-history :
    (pre : List ChatMessage) (item : ChatMessage) (items ys : List ChatMessage)
    → IsHistory (pre ++ item ∷ (items ++ ys))
    → filter (is_older (last_id item items)) (pre ++ item ∷ (items ++ ys)) ≡ ys
older-history [] item items ys h = older-page item items ys h
older-history (p ∷ pre) item items ys h =
    let rest = IsHistory-drop pre (item ∷ (items ++ ys)) h.2 in
    let (below, positive) = last_id-le item items ys rest in
    let above = (All-drop (λ x. x.id < p.id) pre (item ∷ (items ++ ys)) h.1).0 in
    ground (arith, below, positive, above, older-history pre item items ys h.2)

-- A page, and then the rest, is the whole.
scan_page-append :
    (last : ℕ) (xs ys missed : List ChatMessage)
    → scan_page last (xs ++ ys) missed ≡ (
        if (scan_page last xs missed).stop
        then scan_page last xs missed
        else scan_page last ys (scan_page last xs missed).missed)
unfolding scan_page
scan_page-append last [] ys missed = refl
scan_page-append last (x ∷ xs) ys missed =
    ground (arith, scan_page-append last xs ys (missed ++ (x ∷ [])))

pub take-append-drop : {A : Type 0} (n : ℕ) (xs : List A) → take n xs ++ drop n xs ≡ xs
take-append-drop zero xs = refl
take-append-drop (suc n) [] = refl
take-append-drop (suc n) (x ∷ xs) = ap (λ ys. x ∷ ys) (take-append-drop n xs)

module _ {W : Type 0} (up : Upstream W) (conversation last : ℕ) (w : W) where
  fetch-page :
      (fuel before : ℕ) (missed : List ChatMessage) (item : ChatMessage) (items : List ChatMessage)
      → length missed < max_replay_messages
      → up.list_messages conversation replay_page_size before w ≡ given (item ∷ items)
      → 0 < last_id item items
      → fetch up conversation last w (suc fuel) before missed ≡ (
          if (scan_page last (item ∷ items) missed).stop
          then some (
              ok (
                (scan_page last (item ∷ items) missed).missed,
                (scan_page last (item ∷ items) missed).truncated,
              ))
          else fetch up conversation last w fuel
              (last_id item items)
              (scan_page last (item ∷ items) missed).missed)
  unfolding fetch
  fetch-page fuel before missed item items room answer positive =
      ground (arith, room, answer, positive)

  fetch-empty :
      (fuel before : ℕ) (missed : List ChatMessage)
      → length missed < max_replay_messages
      → up.list_messages conversation replay_page_size before w ≡ given []
      → fetch up conversation last w (suc fuel) before missed ≡ some (ok (missed, false))
  unfolding fetch
  fetch-empty fuel before missed room answer = ground (arith, room, answer)

module _ {W : Type 0} (up : Upstream W) (conversation last : ℕ) (w : W) (history : List ChatMessage)
    (ordered : IsHistory history)
    (lists : (before : ℕ)
      → up.list_messages conversation replay_page_size before w
        ≡ given (take replay_page_size (filter (is_older before) history))) where
  pub fetch-scan :
      (fuel before : ℕ) (missed pre rest : List ChatMessage)
      → length missed < max_replay_messages
      → max_replay_messages < length missed + fuel
      → history ≡ pre ++ rest
      → filter (is_older before) history ≡ rest
      → fetch up conversation last w fuel before missed
        ≡ some (ok ((scan_page last rest missed).missed, (scan_page last rest missed).truncated))
  unfolding scan_page
  fetch-scan zero before missed pre rest room enough split older = absurd (omega arith)
  fetch-scan (suc fuel) before missed pre [] room enough split older =
      fetch-empty up conversation last w fuel before missed room
        (lists before ∙ ap (λ x. given (take replay_page_size x)) older)
  fetch-scan (suc fuel) before missed pre (item ∷ rest) room enough split older =
      let items = take 99 rest in
      let ys = drop 99 rest in
      let s = scan_page last (item ∷ items) missed in
      let page : item ∷ rest ≡ item ∷ (items ++ ys) =
        ap (λ xs. item ∷ xs) (sym (take-append-drop 99 rest)) in
      let answer : up.list_messages conversation replay_page_size before w ≡ given (item ∷ items) =
        lists before ∙ ap (λ x. given (take replay_page_size x)) older in
      let whole : scan_page last (item ∷ rest) missed
          ≡ (if s.stop then s else scan_page last ys s.missed) =
        ap (λ xs. scan_page last xs missed) page ∙ scan_page-append last (item ∷ items) ys missed in
      let parts : history ≡ pre ++ item ∷ (items ++ ys) = split ∙ ap (λ xs. pre ++ xs) page in
      let sorted : IsHistory (pre ++ item ∷ (items ++ ys)) = subst IsHistory parts ordered in
      let positive =
        (last_id-le item items ys (IsHistory-drop pre (item ∷ (items ++ ys)) sorted)).1 in
      let step =
        fetch-page up conversation last w fuel before missed item items room answer positive in
      elim (Bool-cases s.stop) [
        | inl stop ↦ rw step (rw stop (rw whole (rw stop refl)))
        | inr more ↦
            let fits = scan_page-room last (item ∷ items) missed room more in
            let longer = scan_page-stop last (item ∷ items) missed more in
            let later =
              fetch-scan fuel (last_id item items) s.missed (pre ++ item ∷ items) ys fits
                (omega (arith, longer, enough)) (parts ∙ sym (append_assoc pre (item ∷ items) ys))
                (ap (filter (is_older (last_id item items))) parts
                  ∙ older-history pre item items ys sorted) in
            rw step (rw more (rw whole (rw more later)))
      ]
