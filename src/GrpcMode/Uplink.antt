-- ===== src/GrpcMode/Uplink.antt =====
-- A client's packets on their way to the game server in gRPC mode (internal/gateway/gateway_grpc.go,
-- forwardGrpcConnection).
use game_gateway.Prelude.{
  ℕ, zero, suc, ◌-◌, ◌≤◌, ◌<◌, ◌≡◌, refl, Bool, true, false, Option, none, some, List, [], ◌∷◌,
  arith, ℤ, pos, if◌then◌else◌, length, All,
}
use game_gateway.Prelude.Bytes.{ReadError, Read, done, failed, panicked, read_full}
use game_gateway.Prelude.Leaves.{Leaves}
use game_gateway.Packet.{parse_client_message_header, Packet, read_full_packet}
use game_gateway.Packet.Client.{read_full_packet-frame}
use game_gateway.Forward.ToBackend.{Sent, Sendable, client_stream, total}
use game_gateway.Forward.Termination.{read_full_packet-Leaves}
use game_gateway.GrpcMode.{Metadata, GamePacket, Uploaded, with_packet, after_read, forward_grpc}

abbrev Ended : Option Uploaded → Type 0
Ended o = (u : Uploaded) × (o ≡ some u)

with_packet-Ended : (p : GamePacket) (o : Option Uploaded) → Ended o → Ended (with_packet p o)
with_packet-Ended p none h = cc (h.1)
with_packet-Ended p (some u) h = (_, refl)

if-Ended : (b : Bool) (o p : Option Uploaded) → Ended o → Ended p → Ended (if b then o else p)
if-Ended true o p h g = h
if-Ended false o p h g = g

abbrev pub always : ℕ → Bool
always i = true

module _ (max session_id : ℤ) (trace : Option Metadata) where
  abbrev pub upload : Sent → GamePacket
  upload p = record {
    session_id = session_id;
    msg_id = pos p.message_id;
    payload = p.body;
    target_session_ids = [];
    metadata = trace;
  }

  abbrev pub uploads : List Sent → List GamePacket
  uploads [] = []
  uploads (p ∷ ps) = upload p ∷ uploads ps

  -- If every `Send` succeeds, the packets of a client, each within the limit and with fields that
  -- fit, reach the game server one by one and in order, with the client's session and the trace of
  -- the connection; the bytes counted are those of the payloads, and the loop ends where the
  -- client's stream ends.
  pub forward_grpc-client_stream :
      (ps : List Sent) (i : ℕ) (rest : List ℕ) (e : ReadError)
      → All (Sendable max) ps
      → read_full_packet max rest ≡ failed e
      → forward_grpc max session_id trace always (suc (length ps)) i (client_stream ps rest)
        ≡ some (record { packets = uploads ps; bytes_in = total ps })
  unfolding forward_grpc
  forward_grpc-client_stream [] i rest e a h = rw h refl
  forward_grpc-client_stream (p ∷ ps) i rest e ((l, m, s, t), a) h =
      rw
        (read_full_packet-frame max p.message_id p.server_id p.body (client_stream ps rest) l m s t)
        (rw (forward_grpc-client_stream ps (suc i) rest e a h) refl)

  module _ (sends : ℕ → Bool) where
    after_read-Ended :
        (i n : ℕ) (r : Read Packet) (next : List ℕ → Option Uploaded)
        → Leaves n r
        → ((s : List ℕ) → length s ≤ n → Ended (next s))
        → Ended (after_read max session_id trace sends i r next)
    after_read-Ended i n (done p rest) next l h =
        if-Ended (sends i) _ _ (with_packet-Ended _ (next rest) (h rest l)) (_, refl)
    after_read-Ended i n (failed e) next l h = (_, refl)
    after_read-Ended i n panicked next l h = (_, refl)

    -- The loop ends, whatever the bytes are and whichever `Send` fails, when it is given more rounds
    -- than the stream has bytes.
    pub forward_grpc_ends :
        (fuel i : ℕ) (s : List ℕ)
        → length s < fuel
        → (u : Uploaded) × (forward_grpc max session_id trace sends fuel i s ≡ some u)
    unfolding forward_grpc read_full_packet parse_client_message_header read_full
    forward_grpc_ends zero i s h = absurd (omega arith)
    forward_grpc_ends (suc fuel) i [] h = (_, refl)
    forward_grpc_ends (suc fuel) i (b ∷ s) h =
        after_read-Ended i (length (b ∷ s) - 8) (read_full_packet max (b ∷ s))
          (forward_grpc max session_id trace sends fuel (suc i))
          (read_full_packet-Leaves max (b ∷ s))
          (λ t l. forward_grpc_ends fuel (suc i) t (omega arith))
