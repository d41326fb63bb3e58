-- ===== src/Transport.antt =====
-- internal/transport/grpc/manager.go: the clients of gRPC mode, one stream for each backend address.
-- A client is a handle; what goroutines do to the shared map is one atomic access for each function
-- of this file, and `dial` is the outcome of each attempt to open a connection and its stream.
pub mod Clients
pub mod Closing
pub mod Reconnect
mod Examples
use game_gateway.Prelude.{
  ℕ, zero, suc, ◌*◌, ◌^◌, Bool, true, false, Option, none, some, List, [], ◌∷◌, ◌++◌, find, put,
  remove, String, String-discrete, ◌==◌, if◌then◌else◌, delete,
}

-- The map of clients; the connections not yet closed; those opened by a caller that has not yet
-- offered them to the map; the next handle; `reconnectAttempts` of each client; the addresses for
-- which a goroutine was started to reconnect.
pub record Manager : Type 0 where
  pub clients : List (String × ℕ)
  pub opened : List ℕ
  pub pending : List ℕ
  pub next_client : ℕ
  pub reconnect_attempts : List (ℕ × ℕ)
  pub reconnecting : List String

unfoldable pub new_manager : Manager
new_manager = record {
  clients = [];
  opened = [];
  pending = [];
  next_client = 0;
  reconnect_attempts = [];
  reconnecting = [];
}

pub data Dial : Type 0 where
  client_failed stream_failed connected : Dial

-- `100*(1<<uint(attempt-1))` milliseconds, before every attempt but the first.
abbrev pub retry_waits : ℕ → List ℕ
retry_waits zero = []
retry_waits (suc k) = 100 * 2 ^ k ∷ []

-- The rounds of `getClient` from `k` on, of which `n` are left: whether one connects, and the waits.
-- A stream that cannot be opened has its connection closed again.
unfoldable pub connect : (ℕ → Dial) → ℕ → ℕ → Bool × List ℕ
connect dial zero k = (false, [])
connect dial (suc n) k =
    let rest = connect dial n (suc k) in
    elim (dial k) [
      | connected ↦ (true, retry_waits k)
      | client_failed ↦ (rest.0, retry_waits k ++ rest.1)
      | stream_failed ↦ (rest.0, retry_waits k ++ rest.1)
    ]

abbrev pub max_retries : ℕ
max_retries = 3

-- A connection with its stream, and a receiver on it.
unfoldable pub dialled : Manager → Manager
dialled m = record m {
  opened = m.next_client ∷ m.opened;
  pending = m.next_client ∷ m.pending;
  next_client = suc m.next_client;
}

abbrev pub keep_or_close : String → ℕ → Option ℕ → Manager → ℕ × Manager
keep_or_close a c none m =
    (c, record m { clients = put String-discrete a c m.clients; pending = delete c m.pending })
keep_or_close a c (some d) m =
    (d, record m { opened = delete c m.opened; pending = delete c m.pending })

-- `LoadOrStore`: the first to offer a client for an address wins, the others close theirs.
unfoldable pub load_or_store : String → ℕ → Manager → ℕ × Manager
load_or_store a c m = keep_or_close a c (find String-discrete a m.clients) m

abbrev pub is_client : ℕ → Option ℕ → Bool
is_client c none = false
is_client c (some d) = d == c

-- `CompareAndDelete` with what follows it, after a failed send and at the end of a receiver.
unfoldable pub drop_client : String → ℕ → Manager → Manager
drop_client a c m =
    if is_client c (find String-discrete a m.clients)
    then record m {
      clients = remove String-discrete a m.clients;
      opened = delete c m.opened;
      reconnecting = a ∷ m.reconnecting;
    }
    else m

abbrev pub delete_all : List (String × ℕ) → List ℕ → List ℕ
delete_all [] xs = xs
delete_all ((a, c) ∷ cs) xs = delete c (delete_all cs xs)

-- Every client of the map is closed, and the map is cleared.
unfoldable pub close : Manager → Manager
close m = record m { clients = []; opened = delete_all m.clients m.opened }

abbrev pub offered_client : String → Bool → Manager → Option ℕ × Manager
offered_client a false m = (none, m)
offered_client a true m = let (c, m') = load_or_store a m.next_client (dialled m) in (some c, m')

abbrev pub client_or_new : String → Option ℕ → (ℕ → Dial) → Manager → Option ℕ × Manager
client_or_new a (some c) dial m = (some c, m)
client_or_new a none dial m = offered_client a (connect dial max_retries 0).0 m

-- `getClient`, if no other goroutine comes between.
unfoldable pub get_client : (ℕ → Dial) → String → Manager → Option ℕ × Manager
unfolding connect dialled load_or_store
get_client dial a m = client_or_new a (find String-discrete a m.clients) dial m

pub data Sent : Type 0 where
  sent connect_error send_error : Sent

abbrev pub sent_or_dropped : String → (ℕ → Bool) → Option ℕ × Manager → Sent × Manager
sent_or_dropped a sends (none, m) = (connect_error, m)
sent_or_dropped a sends (some c, m) = if sends c then (sent, m) else (send_error, drop_client a c m)

-- `Send`: `sends c` is whether the stream of client `c` takes the packet.
unfoldable pub send : (ℕ → Dial) → (ℕ → Bool) → String → Manager → Sent × Manager
unfolding get_client drop_client
send dial sends a m = sent_or_dropped a sends (get_client dial a m)
