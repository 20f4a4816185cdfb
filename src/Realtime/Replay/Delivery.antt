-- ===== src/Realtime/Replay/Delivery.antt =====
-- What a replay puts on the connection.
use Prim.Native.Nat.{ℕ, zero, suc}
use inline_chat.Realtime.Upstream.{ChatMessage, Upstream}
use inline_chat.Prelude.{
  List, Bool, All, filter, take, ◌<◌, reverse, ◌≡◌, ◌∷◌, All-filter, [], ◌++◌, subst, ap,
  Bool-cases, arith, sym, ◌∙◌, inl, inr, refl, map, All-append, length, String, drop, false, ◌≤◌,
  ◌+◌, length-append, ltb, ◌⊎◌, leb, ◌==◌,
}
use inline_chat.Realtime.Replay.{
  sort_by_id, insert_message, send_frames, Encoding, Frame, max_replay_messages, events_of, end_of,
  replay_messages, send_missed, replay_page_size,
}
use inline_chat.Realtime.Replay.Pages.{IsHistory, take-append-drop, is_newer, is_older}
use mathlib.Core.List.{append_assoc, reverse-cons}
use inline_chat.Realtime.Client.{Line, write_loop, paced, capacity}
use inline_chat.Errors.{ok, err, Result, failed}
use inline_chat.Realtime.Replay.Missed.{append-nil, fetch-missed}
use inline_chat.Grpc.{given}

IsHistory-filter :
    (p : ChatMessage → Bool) (xs : List ChatMessage) → IsHistory xs → IsHistory (filter p xs)
IsHistory-filter p [] h = h
IsHistory-filter p (x ∷ xs) h =
    let rest : IsHistory (x ∷ filter p xs) =
      (h.0, All-filter (λ y. y.id < x.id) p xs h.1, IsHistory-filter p xs h.2) in
    elim (Bool-cases (p x)) [ inl e ↦ rw e rest | inr e ↦ rw e rest.2 ]

All-take : {A : Type 0} (P : A → Type 0) (n : ℕ) (xs : List A) → All P xs → All P (take n xs)
All-take P zero xs h = tt
All-take P (suc n) [] h = tt
All-take P (suc n) (x ∷ xs) h = (h.0, All-take P n xs h.1)

IsHistory-take : (n : ℕ) (xs : List ChatMessage) → IsHistory xs → IsHistory (take n xs)
IsHistory-take zero xs h = tt
IsHistory-take (suc n) [] h = tt
IsHistory-take (suc n) (x ∷ xs) h =
    (h.0, All-take (λ y. y.id < x.id) n xs h.1, IsHistory-take n xs h.2)

insert_message-last :
    (m : ChatMessage) (xs : List ChatMessage)
    → All (λ x. x.id < m.id) xs
    → insert_message m xs ≡ xs ++ (m ∷ [])
insert_message-last m [] h = refl
insert_message-last m (x ∷ xs) h = ground (arith, h.0, insert_message-last m xs h.1)

All-reverse : {A : Type 0} (P : A → Type 0) (xs : List A) → All P xs → All P (reverse xs)
All-reverse P [] h = tt
All-reverse P (x ∷ xs) h =
    subst (All P) (sym (reverse-cons x xs))
      (All-append P (reverse xs) (x ∷ []) (All-reverse P xs h.1) (h.0, tt))

-- Sorting a history turns it round.
sort_by_id-reverse : (xs : List ChatMessage) → IsHistory xs → sort_by_id xs ≡ reverse xs
unfolding sort_by_id
sort_by_id-reverse [] h = refl
sort_by_id-reverse (x ∷ xs) h =
    ap (insert_message x) (sort_by_id-reverse xs h.2)
    ∙ insert_message-last x (reverse xs) (All-reverse (λ y. y.id < x.id) xs h.1)
    ∙ sym (reverse-cons x xs)

-- What the connection has carried and what the channel still holds.
abbrev pub carried : Line → List String
carried l = l.wire ++ l.client.send

length-drop-le : {A : Type 0} (n : ℕ) (xs : List A) → length (drop n xs) ≤ length xs
length-drop-le zero xs = omega arith
length-drop-le (suc n) [] = omega arith
length-drop-le (suc n) (x ∷ xs) = omega (arith, length-drop-le n xs)

write_loop-carried : (n : ℕ) (l : Line) → carried (write_loop n l) ≡ carried l
write_loop-carried n l =
    append_assoc l.wire (take n l.client.send) (drop n l.client.send)
    ∙ ap (λ xs. l.wire ++ xs) (take-append-drop n l.client.send)

paced-carried : (pace : List ℕ) (l : Line) → carried (paced pace l).1 ≡ carried l
paced-carried [] l = refl
paced-carried (n ∷ ns) l = write_loop-carried n l

paced-length :
    (pace : List ℕ) (l : Line) → length (paced pace l).1.client.send ≤ length l.client.send
paced-length [] l = omega arith
paced-length (n ∷ ns) l = length-drop-le n l.client.send

paced-closed : (pace : List ℕ) (l : Line) → (paced pace l).1.client.closed ≡ l.client.closed
paced-closed [] l = refl
paced-closed (n ∷ ns) l = refl

abbrev with_payload : String → Line → Line
with_payload payload l = record l {
  client = record l.client { send = l.client.send ++ (payload ∷ []) };
}

send_frames-step :
    (encode : Encoding) (f : Frame) (fs : List Frame) (pace : List ℕ) (l : Line)
    → (paced pace l).1.client.closed ≡ false
    → length (paced pace l).1.client.send < capacity
    → send_frames encode (f ∷ fs) pace l
      ≡ send_frames encode fs (paced pace l).0 (with_payload (encode f) (paced pace l).1)
unfolding send_frames
send_frames-step encode f fs pace l alive room = ground (arith, alive, room)

send_frames-full :
    (encode : Encoding) (f : Frame) (fs : List Frame) (pace : List ℕ) (l : Line)
    → (paced pace l).1.client.closed ≡ false
    → capacity ≤ length (paced pace l).1.client.send
    → send_frames encode (f ∷ fs) pace l
      ≡ (err (failed "client replay queue is full"), (paced pace l).1)
unfolding send_frames
send_frames-full encode f fs pace l alive full = ground (arith, alive, full)

-- All frames in their order, or those before one that found the channel full.
abbrev pub IsSent : Encoding → List Frame → Line → Result (Unit {0}) × Line → Type 0
IsSent encode fs l out =
    ((out.0 ≡ ok tt) × (carried out.1 ≡ carried l ++ map encode fs))
    ⊎ ((out.0 ≡ err (failed "client replay queue is full"))
        × (capacity < length l.client.send + length fs)
        × (k : ℕ) × (k < length fs)
        × (carried out.1 ≡ carried l ++ map encode (take k fs)))

send_frames-IsSent :
    (encode : Encoding) (fs : List Frame) (pace : List ℕ) (l : Line)
    → l.client.closed ≡ false
    → IsSent encode fs l (send_frames encode fs pace l)
unfolding send_frames
send_frames-IsSent encode [] pace l alive = inl (refl, sym (append-nil (carried l)))
send_frames-IsSent encode (f ∷ fs) pace l alive =
    let ready = (paced pace l).1 in
    let shorter = paced-length pace l in
    let alive' = paced-closed pace l ∙ alive in
    let next = with_payload (encode f) ready in
    let added : carried next ≡ carried l ++ (encode f ∷ []) =
      sym (append_assoc ready.wire ready.client.send (encode f ∷ []))
      ∙ ap (λ xs. xs ++ (encode f ∷ [])) (paced-carried pace l) in
    let joined : (ys : List String) → carried next ++ ys ≡ carried l ++ encode f ∷ ys =
      λ ys. ap (λ xs. xs ++ ys) added ∙ append_assoc (carried l) (encode f ∷ []) ys in
    elim (Bool-cases (ltb (length ready.client.send) capacity)) [
      | inr full ↦ rw (send_frames-full encode f fs pace l alive' (ground (arith, full))) (
          inr (
            refl,
            ground (arith, full, shorter),
            0,
            omega arith,
            paced-carried pace l ∙ sym (append-nil (carried l)),
          ))
      | inl room ↦
          rw (send_frames-step encode f fs pace l alive' (ground (arith, room)))
            (elim (send_frames-IsSent encode fs (paced pace l).0 next alive') [
              | inl (all, order) ↦ inl (all, order ∙ joined (map encode fs))
              | inr (full, long, k, below, order) ↦ inr (
                full,
                omega (arith, long, shorter, length-append ready.client.send (encode f ∷ [])),
                suc k,
                omega (arith, below),
                order ∙ joined (map encode (take k fs)),
              )
            ])
    ]

-- The messages of a history that a client has missed, up to the limit, the oldest first, and the end of
-- the replay.
abbrev pub missed_frames : ℕ → ℕ → List ChatMessage → List Frame
missed_frames conversation last history =
    let newer = filter (is_newer last) history in
    let missed = reverse (take max_replay_messages newer) in
    events_of conversation missed
    ++ (end_of conversation last missed (leb max_replay_messages (length newer)) ∷ [])

module _ {W : Type 0} (up : Upstream W) (conversation last : ℕ) (w : W) (history : List ChatMessage)
    (ordered : IsHistory history)
    (lists : (before : ℕ)
      → up.list_messages conversation replay_page_size before w
        ≡ given (take replay_page_size (filter (is_older before) history))) where
  -- At any pace of the WriteLoop, a replay over an open connection puts on it the messages of the
  -- conversation that are newer than the last one the client names, the newest 500 at most, with the
  -- oldest of them first, and then the end of the replay; or the channel was too small for them, and it
  -- put on it the first ones and fails. Asked for the messages before an id, or for all, chat-service gives
  -- the first hundred of those it has, the newest first.
  pub replay_messages-IsSent :
      (encode : Encoding) (pace : List ℕ) (l : Line)
      → (last == 0) ≡ false
      → l.client.closed ≡ false
      → IsSent encode
          (missed_frames conversation last history)
          l
          (replay_messages up encode conversation last w pace l)
  unfolding replay_messages send_missed
  replay_messages-IsSent encode pace l named alive =
      let newer = filter (is_newer last) history in
      let missed = take max_replay_messages newer in
      let turned = sort_by_id-reverse missed (
        IsHistory-take max_replay_messages newer
          (IsHistory-filter (is_newer last) history ordered)) in
      rw named (
        rw (fetch-missed up conversation last w history ordered lists) (
          rw turned
            (send_frames-IsSent encode (missed_frames conversation last history) pace l alive)))
