-- ===== src/Realtime/Hub.antt =====
-- services/realtime-service/internal/ws/hub.go: which clients take part in a conversation. A client's
-- pointer is a number; the clients themselves are a store indexed by it. The mutex makes each method
-- one step.
pub mod Subscriptions
pub mod Delivery
use Prim.Native.Nat.{ℕ}
use inline_chat.Prelude.{
  String, Bool, false, not, ◌||◌, Option, none, some, List, [], ◌∷◌, filter, ◌==◌, if◌then◌else◌,
}
use inline_chat.Prelude.Keyed.{lookup, assign, remove}
use inline_chat.Realtime.Client.{Client, try_send, close}

pub record Hub : Type 0 where
  pub clients : List (String × List ℕ)

abbrev pub new_hub : Hub
new_hub = record { clients = [] }

abbrev pub has_client : ℕ → List ℕ → Bool
has_client c [] = false
has_client c (d ∷ ds) = d == c || has_client c ds

abbrev pub add_client : ℕ → List ℕ → List ℕ
add_client c ds = if has_client c ds then ds else c ∷ ds

abbrev pub drop_client : ℕ → List ℕ → List ℕ
drop_client c = filter (λ d. not (d == c))

-- A missing key reads as an empty map.
abbrev pub bucket_or_empty : Option (List ℕ) → List ℕ
bucket_or_empty none = []
bucket_or_empty (some ds) = ds

abbrev pub bucket : String → Hub → List ℕ
bucket conversation h = bucket_or_empty (lookup conversation h.clients)

unfoldable pub register : String → ℕ → Hub → Hub
register conversation c h = record {
  clients = assign conversation (add_client c (bucket conversation h)) h.clients;
}

-- A bucket that becomes empty is deleted.
abbrev pub put_bucket : String → List ℕ → List (String × List ℕ) → List (String × List ℕ)
put_bucket conversation [] m = remove conversation m
put_bucket conversation (d ∷ ds) m = assign conversation (d ∷ ds) m

abbrev pub drop_from : String → ℕ → Option (List ℕ) → Hub → Hub
drop_from conversation c none h = h
drop_from conversation c (some ds) h = record {
  clients = put_bucket conversation (drop_client c ds) h.clients;
}

unfoldable pub unregister : String → ℕ → Hub → Hub
unregister conversation c h = drop_from conversation c (lookup conversation h.clients) h

-- The clients behind the pointers.
abbrev pub Clients : Type 0
Clients = ℕ → Client

abbrev pub put : ℕ → Client → Clients → Clients
put p c cs q = if p == q then c else cs q

-- TrySend, and Close of a client that refuses.
abbrev pub offer : String → Client → Client
offer payload c = let (sent, c') = try_send payload c in if sent then c' else close c'

abbrev pub send_each : String → List ℕ → Clients → Clients
send_each payload [] cs = cs
send_each payload (p ∷ ps) cs = send_each payload ps (put p (offer payload (cs p)) cs)

unfoldable pub broadcast : String → String → Hub → Clients → Clients
broadcast conversation payload h = send_each payload (bucket conversation h)
