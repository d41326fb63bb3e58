-- ===== src/Transport/Examples.antt =====
-- Runs of the clients of gRPC mode (internal/transport/grpc/manager.go).
use game_gateway.Prelude.{
  ℕ, ◌≡◌, refl, false, some, [], ◌∷◌, arith, find, String, String-discrete, pos, ltb, if◌then◌else◌,
  replicate,
}
use game_gateway.Transport.{
  Manager, new_manager, Dial, client_failed, connected, connect, dialled, load_or_store,
  drop_client, get_client, send,
}
use game_gateway.Transport.Clients.{
  Held, dials, offers, Reach, here, next, Reach-Held, new_manager-Held,
}
use game_gateway.Transport.Reconnect.{reconnect_delay, reconnect, reconnect-client}

abbrev server_a : String
server_a = "10.0.0.1:9000"

-- Two callers open a connection for one address: the first to offer its own wins.
abbrev raced : Manager
raced = record {
  clients = (server_a, 1) ∷ [];
  opened = 1 ∷ [];
  pending = [];
  next_client = 2;
  reconnect_attempts = [];
  reconnecting = [];
}

raced_lem :
    (load_or_store server_a 0 (load_or_store server_a 1 (dialled (dialled new_manager))).1).1
    ≡ raced
unfolding load_or_store dialled new_manager String-discrete
raced_lem = refl

race : Reach new_manager raced
unfolding load_or_store dialled new_manager String-discrete
race =
    next
      (next (next (next here (dials new_manager)) (dials (dialled new_manager)))
        (offers server_a 1 (dialled (dialled new_manager)) refl))
      (offers server_a 0 (load_or_store server_a 1 (dialled (dialled new_manager))).1 refl)

Reach-Held_example : Held raced
Reach-Held_example = Reach-Held race new_manager-Held

-- The stream of a client that does not take the packet loses the client and starts a reconnect.
lost : (send (λ k. connected) (λ c. false) server_a new_manager).1.reconnecting ≡ server_a ∷ []
unfolding send get_client connect load_or_store dialled drop_client new_manager String-discrete
lost = refl

abbrev late : ℕ → ℕ → Dial
late i k = if ltb i 2 then client_failed else connected

reconnect-client_example :
    (m' : Manager) × (c : ℕ) × (reconnect
        (λ a. 7)
        (pos 1000000000)
        (pos 1)
        (λ i. false)
        late
        3
        0
        server_a
        new_manager
      ≡ some (
        replicate 3
            (reconnect_delay (λ a. 7) (pos 1000000000) (pos 1) (λ i. false) late 0 server_a),
        m',
      ))
    × (find String-discrete server_a m'.clients ≡ some c)
unfolding connect new_manager
reconnect-client_example =
    reconnect-client (λ a. 7) (pos 1000000000) (pos 1) (λ i. false) late 2 3 0 server_a new_manager
      (omega arith) refl (refl, refl, (refl, refl, (refl, refl)))
