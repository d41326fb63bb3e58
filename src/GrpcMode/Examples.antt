-- ===== src/GrpcMode/Examples.antt =====
-- Runs of gRPC mode (internal/gateway/gateway_grpc.go).
use game_gateway.Prelude.{
  ℕ, ◌+◌, ◌≡◌, refl, Bool, true, false, none, some, List, [], ◌∷◌, ◌++◌, arith, ℕ_discrete, find,
  pos, negsuc,
}
use game_gateway.Prelude.Bytes.{eof, read_full}
use game_gateway.Packet.{read_full_packet}
use game_gateway.Session.{SessionState, Session, Manager, new_manager}
use game_gateway.Session.Table.{adds, apply_all}
use game_gateway.Forward.{client_packet}
use game_gateway.Forward.ToBackend.{Sent, client_stream}
use game_gateway.GrpcMode.{GamePacket, Conn, Clients, deliver, handle_grpc_packet, forward_grpc}
use game_gateway.GrpcMode.Dispatch.{hits, times_found, addressed, handle_grpc_packet-carries}
use game_gateway.GrpcMode.Wire.{joined, deliver-client_packet}
use game_gateway.GrpcMode.Uplink.{always, uploads, forward_grpc-client_stream}

abbrev player : Session
player = record {
  session_id = negsuc 41;
  client_conn = some 5;
  backend_conn = none;
  user_id = pos 0;
  realm_id = pos 0;
  service_type = "200";
  world_id = pos 7;
  inst_id = pos 1;
  created_at = 0;
  last_active_at = 0;
  state = SessionState.connected;
  bytes_out = some 5;
}

abbrev table : Manager
table = apply_all (adds player ∷ []) new_manager

abbrev line : Conn
line = record { websocket = true; written = []; bytes_out = 0; is_closed = false }

abbrev online : Clients
online = record { sessions = table; conns = (5, line) ∷ [] }

abbrev broadcast : GamePacket
broadcast = record {
  session_id = pos 0;
  msg_id = negsuc 0;
  payload = 1 ∷ 2 ∷ [];
  target_session_ids = negsuc 41 ∷ pos 3 ∷ [];
  metadata = none;
}

abbrev taken : Conn → List ℕ → Bool
taken c bytes = true

handle_grpc_packet-carries_example :
    (find ℕ_discrete 5 (handle_grpc_packet taken broadcast online).conns
      ≡ times_found
          (hits 5 (addressed broadcast.target_session_ids broadcast.session_id) table)
          (deliver taken broadcast)
          (some line))
    × ((handle_grpc_packet taken broadcast online).sessions ≡ table)
unfolding ℕ_discrete
handle_grpc_packet-carries_example = handle_grpc_packet-carries taken 5 broadcast online refl

deliver-client_packet_example :
    (joined (deliver taken broadcast line).written ≡ [] ++ client_packet (negsuc 0) (1 ∷ 2 ∷ []))
    × ((deliver taken broadcast line).bytes_out ≡ 0 + (8 + 2))
deliver-client_packet_example = deliver-client_packet taken (λ d bytes. refl) broadcast line

abbrev login : Sent
login = record { message_id = 1001; server_id = 3; body = 4 ∷ 5 ∷ [] }

forward_grpc-client_stream_example :
    forward_grpc (pos 1024) (pos 77) none always 2 0 (client_stream (login ∷ []) [])
    ≡ some (record { packets = uploads (pos 1024) (pos 77) none (login ∷ []); bytes_in = 2 })
unfolding read_full_packet read_full
forward_grpc-client_stream_example =
    forward_grpc-client_stream (pos 1024) (pos 77) none (login ∷ []) 0 [] eof
      ((omega arith, omega arith, omega arith, refl), tt) refl
