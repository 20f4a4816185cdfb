-- ===== src/Realtime/Replay.antt =====
-- services/realtime-service/internal/ws/handler.go: what a client that connects again has missed.
pub mod Pages
pub mod Missed
pub mod Delivery
use Prim.Native.Nat.{ℕ, zero, suc}
use inline_chat.Prelude.{
  String, Bool, true, false, Option, none, some, List, [], ◌∷◌, ◌++◌, length, leb, ◌==◌,
  if◌then◌else◌,
}
use inline_chat.Errors.{Result, ok, err, failed}
use inline_chat.Grpc.{given, failed_call}
use inline_chat.Realtime.Client.{Line, paced, send_on}
use inline_chat.Realtime.Upstream.{Upstream, ChatMessage}

-- What the server sends over a connection, and the JSON text of it.
pub data Frame : Type 0 where
  message_new : ℕ → ChatMessage → Frame
  replay_end : ℕ → ℕ → ℕ → Bool → ℕ → Frame
  message_ack : String → ℕ → String → Frame
  message_nack : String → String → Frame
  client_error : String → Frame

abbrev pub Encoding : Type 0
Encoding = Frame → String

abbrev pub replay_page_size : ℕ
replay_page_size = 100

abbrev pub max_replay_messages : ℕ
max_replay_messages = 500

-- The messages missed so far, and the flags `stop` and `truncated`.
pub record Scan : Type 0 where
  pub missed : List ChatMessage
  pub stop : Bool
  pub truncated : Bool

-- The inner loop, over one page.
unfoldable pub scan_page : ℕ → List ChatMessage → List ChatMessage → Scan
scan_page last [] missed = record { missed = missed; stop = false; truncated = false }
scan_page last (item ∷ items) missed =
    let missed' = missed ++ (item ∷ []) in
    let rest = scan_page last items missed' in
    if leb item.id last
    then record { missed = missed; stop = true; truncated = false }
    else if leb max_replay_messages (length missed')
    then record { missed = missed'; stop = true; truncated = true }
    else rest

-- The id of the last of the items after `item`.
abbrev pub last_id : ChatMessage → List ChatMessage → ℕ
last_id item [] = item.id
last_id item (next ∷ items) = last_id next items

module _ {W : Type 0} (up : Upstream W) (conversation last : ℕ) (w : W) where
  -- The outer loop, where `none` is fuel that ran out.
  unfoldable pub fetch : ℕ → ℕ → List ChatMessage → Option (Result (List ChatMessage × Bool))
  unfolding scan_page
  fetch zero before missed = none
  fetch (suc fuel) before missed =
      let answer = up.list_messages conversation replay_page_size before w in
      let next : Option (Result (List ChatMessage × Bool)) = elim answer [
        | failed_call e ↦ some (err (failed e.text))
        | given [] ↦ some (ok (missed, false))
        | given (item ∷ items) ↦
            let s = scan_page last (item ∷ items) missed in
            let id = last_id item items in
            let more = fetch fuel id s.missed in
            if s.stop
            then some (ok (s.missed, s.truncated))
            else if id == 0
            then some (ok (s.missed, false))
            else more
      ] in
      if leb max_replay_messages (length missed) then some (ok (missed, false)) else next

-- sort.Slice by the id.
abbrev pub insert_message : ChatMessage → List ChatMessage → List ChatMessage
insert_message m [] = m ∷ []
insert_message m (x ∷ xs) =
    let rest = insert_message m xs in if leb m.id x.id then m ∷ x ∷ xs else x ∷ rest

unfoldable pub sort_by_id : List ChatMessage → List ChatMessage
sort_by_id [] = []
sort_by_id (m ∷ ms) = insert_message m (sort_by_id ms)

-- The conversation of an event, when the message does not name it.
abbrev pub event_of : ℕ → ChatMessage → Frame
event_of conversation m =
    message_new (if m.conversation_id == 0 then conversation else m.conversation_id) m

-- Each frame in turn, while the WriteLoop keeps its pace; the first that is refused ends the replay.
unfoldable pub send_frames : Encoding → List Frame → List ℕ → Line → Result (Unit {0}) × Line
send_frames encode [] pace l = (ok tt, l)
send_frames encode (f ∷ fs) pace l =
    let (pace', l') = paced pace l in
    let (sent, l'') = send_on (encode f) l' in
    let rest = send_frames encode fs pace' l'' in
    if sent then rest else (err (failed "client replay queue is full"), l'')

abbrev pub events_of : ℕ → List ChatMessage → List Frame
events_of conversation [] = []
events_of conversation (m ∷ ms) = event_of conversation m ∷ events_of conversation ms

abbrev pub newest_id : ℕ → List ChatMessage → ℕ
newest_id d [] = d
newest_id d (m ∷ ms) = last_id m ms

abbrev pub oldest_id : List ChatMessage → ℕ
oldest_id [] = 0
oldest_id (m ∷ ms) = m.id

unfoldable pub end_of : ℕ → ℕ → List ChatMessage → Bool → Frame
end_of conversation last sorted truncated =
    replay_end conversation (newest_id last sorted) (length sorted) truncated
      (if truncated then oldest_id sorted else 0)

unfoldable pub send_missed :
    Encoding → ℕ → ℕ → Result (List ChatMessage × Bool) → List ℕ → Line → Result (Unit {0}) × Line
unfolding sort_by_id send_frames end_of
send_missed encode conversation last (err e) pace l = (err e, l)
send_missed encode conversation last (ok (missed, truncated)) pace l =
    let sorted = sort_by_id missed in
    send_frames encode
      (events_of conversation sorted ++ (end_of conversation last sorted truncated ∷ [])) pace l

abbrev pub or_fuel : {A : Type 0} → Option (Result A) → Result A
or_fuel none = err (failed "fuel")
or_fuel (some r) = r

-- Each page that does not end the loop adds a message, so that one round more than the limit suffices.
unfoldable pub replay_messages :
    {W : Type 0} → Upstream W → Encoding → ℕ → ℕ → W → List ℕ → Line → Result (Unit {0}) × Line
unfolding fetch send_missed
replay_messages up encode conversation last w pace l =
    let replayed =
      send_missed encode conversation last
        (or_fuel (fetch up conversation last w (suc max_replay_messages) 0 [])) pace l in
    if last == 0 then (ok tt, l) else replayed
