-- ===== src/Realtime/Client.antt =====
-- services/realtime-service/internal/ws/client.go: the send queue of a connection, which its WriteLoop
-- empties. The connection itself is the list of what was written to it.
use Prim.Native.Nat.{ℕ}
use inline_chat.Prelude.{
  String, Bool, true, false, List, [], ◌∷◌, ◌++◌, length, ltb, if◌then◌else◌, drop, take,
}

-- The channel `send` and whether it is closed.
pub record Client : Type 0 where
  pub send : List String
  pub closed : Bool

abbrev pub capacity : ℕ
capacity = 64

abbrev pub new_client : Client
new_client = record { send = []; closed = false }

abbrev pub close : Client → Client
close c = record c { closed = true }

-- A send on a closed channel panics, which is recovered into a refusal; a full queue refuses too.
abbrev pub try_send : String → Client → Bool × Client
try_send payload c =
    if c.closed
    then (false, c)
    else if ltb (length c.send) capacity
    then (true, record c { send = c.send ++ (payload ∷ []) })
    else (false, c)

-- A client with what its connection has carried.
pub record Line : Type 0 where
  pub client : Client
  pub wire : List String

-- The WriteLoop, over the next `n` messages of the channel.
abbrev pub write_loop : ℕ → Line → Line
write_loop n l = record {
  client = record l.client { send = drop n l.client.send };
  wire = l.wire ++ take n l.client.send;
}

-- TrySend, before which the WriteLoop has taken some messages: the head of the pace, or none at its end.
abbrev pub paced : List ℕ → Line → List ℕ × Line
paced [] l = ([], l)
paced (n ∷ ns) l = (ns, write_loop n l)

abbrev pub send_on : String → Line → Bool × Line
send_on payload l = let (sent, c) = try_send payload l.client in (sent, record l { client = c })
