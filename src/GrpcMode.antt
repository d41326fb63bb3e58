-- ===== src/GrpcMode.antt =====
-- internal/gateway/gateway_grpc.go and connection_notify.go: packets between the clients and the game
-- servers in gRPC mode. A session points to its client's connection, which is kept in a store with
-- the counter of bytes out that the session points to.
pub mod Dispatch
pub mod Wire
pub mod Uplink
mod Examples
use game_gateway.Prelude.{
  ℕ, zero, suc, ◌+◌, ◌%◌, ◌^◌, ite, Bool, true, Option, none, some, List, [], ◌∷◌, ◌++◌, ℕ_discrete,
  find, put, String, String-discrete, ℤ, pos, eqb_ℤ, ◌==◌, if◌then◌else◌, length,
}
use game_gateway.Prelude.Bytes.{to_bits, Read, done, failed, panicked}
use game_gateway.Packet.{write_client_message_header, Packet, read_full_packet}
use game_gateway.Session.{Session, Manager, get, remove_session}

abbrev pub Metadata : Type 0
Metadata = List (String × String)

-- A nil map of metadata is none; reading a nil map finds nothing.
pub record GamePacket : Type 0 where
  pub session_id : ℤ
  pub msg_id : ℤ
  pub payload : List ℕ
  pub target_session_ids : List ℤ
  pub metadata : Option Metadata

-- The connection of a client: whether it is a WebSocket, what each successful write wrote, what the
-- counter of bytes out says, and whether it has been closed.
pub record Conn : Type 0 where
  pub websocket : Bool
  pub written : List (List ℕ)
  pub bytes_out : ℕ
  pub is_closed : Bool

pub record Clients : Type 0 where
  pub sessions : Manager
  pub conns : List (ℕ × Conn)

abbrev pub update_conn : ℕ → (Conn → Conn) → Option Conn → Clients → Clients
update_conn h f none g = g
update_conn h f (some c) g = record g { conns = put ℕ_discrete h (f c) g.conns }

abbrev pub at_conn : Option ℕ → (Conn → Conn) → Clients → Clients
at_conn none f g = g
at_conn (some h) f g = update_conn h f (find ℕ_discrete h g.conns) g

abbrev pub conn_of : Option Session → Option ℕ
conn_of none = none
conn_of (some s) = s.client_conn

abbrev pub add_write : List ℕ → Conn → Conn
add_write bytes c = record c { written = c.written ++ bytes ∷ [] }

abbrev pub add_bytes_out : ℕ → Conn → Conn
add_bytes_out n c = record c { bytes_out = c.bytes_out + n }

abbrev pub client_header : GamePacket → List ℕ
client_header p = write_client_message_header (record {
  length_field = length p.payload % 2 ^ 16;
  message_id = to_bits 16 p.msg_id;
  server_id = 0;
})

abbrev pub closed_conn : Conn → Conn
closed_conn c = record c { is_closed = true }

abbrev pub disconnected : ℤ → Option Session → Clients → Clients
disconnected session_id none g = g
disconnected session_id (some s) g =
    let g' = at_conn s.client_conn closed_conn g in
    record g' { sessions = remove_session session_id g.sessions }

unfoldable pub handle_server_disconnect : ℤ → Clients → Clients
handle_server_disconnect session_id g = disconnected session_id (get session_id g.sessions) g

abbrev pub packet_type : Option Metadata → Option String
packet_type none = none
packet_type (some md) = find String-discrete "packet_type" md

pub data Kind : Type 0 where
  ignored disconnects carries : Kind

abbrev pub kind_of : Option String → Kind
kind_of none = carries
kind_of (some t) = ite (String-discrete t "server_connect") ignored (
    ite (String-discrete t "server_disconnect") disconnects
      (ite (String-discrete t "pong") ignored carries))

-- The sessions that a packet is for: the targets, or else its own session if that is not 0.
abbrev pub recipients : GamePacket → List ℤ
recipients p =
    if length p.target_session_ids == 0
    then if eqb_ℤ p.session_id (pos 0) then [] else p.session_id ∷ []
    else p.target_session_ids

-- `writes c bytes` is whether a connection in state `c` takes the bytes; what a failed write may have
-- put on the wire is not kept. A session's counter of bytes is that of its client's connection, which
-- the gateway always sets.
module _ (writes : Conn → List ℕ → Bool) where
  -- One binary frame: what `Write` of the WebSocket is given.
  unfoldable pub deliver_websocket : GamePacket → Conn → Conn
  unfolding write_client_message_header
  deliver_websocket p c =
      let message = client_header p ++ p.payload in
      if writes c message then add_bytes_out (length message) (add_write message c) else c

  -- The header and, if there is one, the payload.
  unfoldable pub deliver_tcp : GamePacket → Conn → Conn
  unfolding write_client_message_header
  deliver_tcp p c =
      let headed = add_write (client_header p) c in
      if writes c (client_header p)
      then if length p.payload == 0
        then add_bytes_out 8 headed
        else if writes headed p.payload
        then add_bytes_out (8 + length p.payload) (add_write p.payload headed)
        else headed
      else c

  abbrev pub deliver : GamePacket → Conn → Conn
  deliver p c = if c.websocket then deliver_websocket p c else deliver_tcp p c

  unfoldable pub send_to_session : ℤ → GamePacket → Clients → Clients
  unfolding deliver_websocket deliver_tcp
  send_to_session session_id p g = at_conn (conn_of (get session_id g.sessions)) (deliver p) g

  unfoldable pub send_to_sessions : List ℤ → GamePacket → Clients → Clients
  unfolding send_to_session
  send_to_sessions [] p g = g
  send_to_sessions (i ∷ is) p g = send_to_sessions is p (send_to_session i p g)

  abbrev pub handle_kind : Kind → GamePacket → Clients → Clients
  handle_kind ignored p g = g
  handle_kind disconnects p g =
      if eqb_ℤ p.session_id (pos 0) then g else handle_server_disconnect p.session_id g
  handle_kind carries p g = send_to_sessions (recipients p) p g

  unfoldable pub handle_grpc_packet : GamePacket → Clients → Clients
  unfolding send_to_sessions handle_server_disconnect
  handle_grpc_packet p g = handle_kind (kind_of (packet_type p.metadata)) p g

-- What `forwardGrpcConnection` has sent, and the bytes it has counted.
pub record Uploaded : Type 0 where
  pub packets : List GamePacket
  pub bytes_in : ℕ

abbrev pub no_upload : Uploaded
no_upload = record { packets = []; bytes_in = 0 }

abbrev pub with_packet : GamePacket → Option Uploaded → Option Uploaded
with_packet p none = none
with_packet p (some u) =
    some (record { packets = p ∷ u.packets; bytes_in = length p.payload + u.bytes_in })

-- `sends i` is whether `Send` takes the packet of round `i`, `trace` the trace context, none if it is
-- not propagated.
module _ (max_message_size session_id : ℤ) (trace : Option Metadata) (sends : ℕ → Bool) where
  abbrev pub upload_packet : Packet → GamePacket
  upload_packet p = record {
    session_id = session_id;
    msg_id = pos p.header.message_id;
    payload = p.body;
    target_session_ids = [];
    metadata = trace;
  }

  abbrev pub after_read : ℕ → Read Packet → (List ℕ → Option Uploaded) → Option Uploaded
  after_read i (done p rest) next =
      if sends i then with_packet (upload_packet p) (next rest) else some no_upload
  after_read i (failed e) next = some no_upload
  after_read i panicked next = some no_upload

  -- The loop from round `i` on: none if the fuel is not enough.
  unfoldable pub forward_grpc : ℕ → ℕ → List ℕ → Option Uploaded
  unfolding read_full_packet
  forward_grpc zero i s = none
  forward_grpc (suc fuel) i s =
      after_read i (read_full_packet max_message_size s) (forward_grpc fuel (suc i))

-- The packets that tell a server of a client; the times are texts of the clock.
unfoldable pub connect_packet : ℤ → String → String → String → GamePacket
connect_packet session_id client_ip protocol now = record {
  session_id = session_id;
  msg_id = pos 0;
  payload = [];
  target_session_ids = [];
  metadata = some (
      ("packet_type", "connect")
      ∷ ("client_ip", client_ip)
      ∷ ("protocol", protocol)
      ∷ ("connect_time", now)
      ∷ []);
}

unfoldable pub disconnect_packet : ℤ → String → String → GamePacket
disconnect_packet session_id reason now = record {
  session_id = session_id;
  msg_id = pos 0;
  payload = [];
  target_session_ids = [];
  metadata =
      some (("packet_type", "disconnect") ∷ ("reason", reason) ∷ ("disconnect_time", now) ∷ []);
}
