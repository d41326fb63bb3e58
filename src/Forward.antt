-- ===== src/Forward.antt =====
-- internal/gateway/gateway.go, forwardConnection: the two loops that forward packets between a
-- client and its backend in TCP mode. Each direction is the bytes that come in and the bytes written.
-- What may end a loop from outside is a sequence of answers, one for each round: the end of the
-- context or a deadline that cannot be set, before the read and before the write; a write that is
-- made writes everything.
pub mod ToBackend
pub mod ToClient
pub mod Termination
pub mod Delivery
mod Examples
use game_gateway.Prelude.{
  ℕ, zero, suc, ◌+◌, ◌-◌, ◌%◌, ◌^◌, Bool, Option, none, some, List, [], ◌++◌, ℤ, pos, negsuc, ltb,
  if◌then◌else◌, length,
}
use game_gateway.Prelude.Bytes.{to_bits, Read, done, failed, panicked, read_full}
use game_gateway.Packet.{write_client_message_header, Packet, read_full_packet}
use game_gateway.Packet.Server.{
  gate_msg_header_size, ServerMessageHeader, read_server_message_header, GateMsgHeader,
  read_gate_msg_header, TraceContext, write_server_message,
}

-- What a loop has written and how many bytes of bodies it has counted.
pub record Forwarded : Type 0 where
  pub written : List ℕ
  pub counted : ℕ

abbrev pub nothing : Forwarded
nothing = record { written = []; counted = 0 }

-- The bytes of a round before those of the rounds after it.
abbrev pub with_round : List ℕ → ℕ → Option Forwarded → Option Forwarded
with_round bytes n none = none
with_round bytes n (some f) =
    some (record { written = bytes ++ f.written; counted = n + f.counted })

-- The client's packet for a message of the backend.
unfoldable pub client_packet : ℤ → List ℕ → List ℕ
unfolding write_client_message_header
client_packet message_type body =
    write_client_message_header (record {
      length_field = length body % 2 ^ 16;
      message_id = to_bits 16 message_type;
      server_id = 0;
    })
    ++ body

-- The bytes of a body of the length that is left of the message, if it is not negative.
unfoldable pub read_message_data : ℤ → List ℕ → Option (Read (List ℕ))
read_message_data (pos n) s =
    if ltb n gate_msg_header_size then none else some (read_full (n - gate_msg_header_size) s)
read_message_data (negsuc n) s = none

module _ (stops_before stops_writing : ℕ → Bool) where
  module _ (max_message_size session_id : ℤ) (trace : ℕ → Option TraceContext) where
    -- What the loop does with a packet of the client in round `i`: its bytes are counted before the
    -- write.
    abbrev pub send_packet : ℕ → Read Packet → (List ℕ → Option Forwarded) → Option Forwarded
    send_packet i (done p rest) next =
        if stops_writing i
        then some (record { written = []; counted = length p.body })
        else with_round (write_server_message (pos p.header.message_id) session_id p.body (trace i))
            (length p.body) (next rest)
    send_packet i (failed e) next = some nothing
    send_packet i panicked next = some nothing

    -- Client to backend, from round `i` on: none if the fuel is not enough.
    unfoldable pub to_backend : ℕ → ℕ → List ℕ → Option Forwarded
    unfolding read_full_packet write_server_message
    to_backend zero i s = none
    to_backend (suc fuel) i s =
        if stops_before i
        then some nothing
        else send_packet i (read_full_packet max_message_size s) (to_backend fuel (suc i))

  abbrev pub send_data :
      ℕ → ℤ → Option (Read (List ℕ)) → (List ℕ → Option Forwarded) → Option Forwarded
  send_data i message_type none next = some nothing
  send_data i message_type (some (done body rest)) next =
      if stops_writing i
      then some (record { written = []; counted = length body })
      else with_round (client_packet message_type body) (length body) (next rest)
  send_data i message_type (some (failed e)) next = some nothing
  send_data i message_type (some panicked) next = some nothing

  abbrev pub after_gate_header :
      ℕ → ServerMessageHeader → Read GateMsgHeader → (List ℕ → Option Forwarded) → Option Forwarded
  after_gate_header i h (done g rest) next =
      send_data i h.type_field (read_message_data h.length_field rest) next
  after_gate_header i h (failed e) next = some nothing
  after_gate_header i h panicked next = some nothing

  abbrev pub after_server_header :
      ℕ → Read ServerMessageHeader → (List ℕ → Option Forwarded) → Option Forwarded
  after_server_header i (done h rest) next = after_gate_header i h (read_gate_msg_header rest) next
  after_server_header i (failed e) next = some nothing
  after_server_header i panicked next = some nothing

  -- Backend to client, from round `i` on: none if the fuel is not enough.
  unfoldable pub to_client : ℕ → ℕ → List ℕ → Option Forwarded
  unfolding client_packet read_message_data read_server_message_header read_gate_msg_header
  to_client zero i s = none
  to_client (suc fuel) i s =
      if stops_before i
      then some nothing
      else after_server_header i (read_server_message_header s) (to_client fuel (suc i))
