-- ===== src/Packet/Examples.antt =====
-- Packets at concrete inputs.
use game_gateway.Prelude.{
  ℕ, ◌≡◌, refl, ◌≢◌, ◌↔◌, true, some, List, [], ◌∷◌, ◌++◌, arith, pos, negsuc, replicate,
}
use game_gateway.Prelude.Bytes.{put_le, message_too_large, wrapped, done, failed}
use game_gateway.Packet.{
  ClientMessageHeader, write_client_message_header, extract_server_id_info, read_full_packet,
}
use game_gateway.Packet.Client.{
  HeaderFits, frame, read_full_packet-frame, Over, read_full_packet-too_large,
}
use game_gateway.Packet.Server.{
  read_server_message_header, GateMsgHeader, some_nonzero, has_trace_context, write_gate_msg_header,
  hex_value, decode_hex, TraceContext, id_bytes, gate_header, write_server_message,
}
use game_gateway.Packet.ServerTrip.{read-write_server_message}

abbrev ping : List ℕ
ping = 7 ∷ 8 ∷ 9 ∷ []

-- A packet of three bytes, and another one behind it.
abbrev two_packets : List ℕ
two_packets = 3 ∷ 0 ∷ 2 ∷ 1 ∷ 200 ∷ 0 ∷ 0 ∷ 128 ∷ 7 ∷ 8 ∷ 9 ∷ 0 ∷ 0 ∷ 1 ∷ 0 ∷ 0 ∷ 0 ∷ 0 ∷ 0 ∷ []

abbrev ping_header : ClientMessageHeader
ping_header = record { length_field = 3; message_id = 258; server_id = 2147483848 }

ping_header-Fits : HeaderFits ping_header
ping_header-Fits = record {
  length_fits = omega arith;
  message_fits = omega arith;
  server_fits = omega arith;
}

frame-ping : frame 258 2147483848 ping ++ (0 ∷ 0 ∷ 1 ∷ 0 ∷ 0 ∷ 0 ∷ 0 ∷ 0 ∷ []) ≡ two_packets
unfolding write_client_message_header put_le
frame-ping = refl

server_of_ping :
    extract_server_id_info 2147483848
    ≡ record { is_zip = true; world_id = 0; server_type = 0; inst_id = 200 }
unfolding extract_server_id_info
server_of_ping = refl

read_full_packet-frame_example :
    read_full_packet (pos 1024) (frame 258 2147483848 ping ++ (0 ∷ 0 ∷ []))
    ≡ done (record { header = ping_header; body = ping; pooled = true }) (0 ∷ 0 ∷ [])
read_full_packet-frame_example =
    read_full_packet-frame (pos 1024) 258 2147483848 ping (0 ∷ 0 ∷ []) (omega arith) (omega arith)
      (omega arith) refl

read_full_packet-too_large_example :
    ((read_full_packet (pos 2) (write_client_message_header ping_header ++ ping)
        ≡ failed (wrapped message_too_large))
      ↔ Over (pos 2) ping_header.length_field)
    × (read_full_packet (pos 2) (write_client_message_header ping_header ++ ping)
        ≢ failed message_too_large)
read_full_packet-too_large_example =
    read_full_packet-too_large (pos 2) ping_header ping ping_header-Fits

-- The sixteen bytes of a trace, and a span that is no text of sixteen digits.
abbrev traced : TraceContext
traced = record {
  trace_id_text = some (
      b'0' ∷ b'a' ∷ b'1' ∷ b'B' ∷ b'0' ∷ b'0' ∷ b'0' ∷ b'0' ∷ b'0' ∷ b'0' ∷ b'0' ∷ b'0' ∷ b'0'
      ∷ b'0' ∷ b'0' ∷ b'0' ∷ b'0' ∷ b'0' ∷ b'0' ∷ b'0' ∷ b'0' ∷ b'0' ∷ b'0' ∷ b'0' ∷ b'0' ∷ b'0'
      ∷ b'0' ∷ b'0' ∷ b'0' ∷ b'0' ∷ b'0' ∷ b'0' ∷ []);
  span_id_text = some (b'0' ∷ []);
}

abbrev traced_header : GateMsgHeader
traced_header = record {
  op_code = 1;
  session_id = pos 77;
  trace_id = 10 ∷ 27 ∷ replicate 14 0;
  span_id = replicate 8 0;
}

traced_lem : gate_header (pos 77) (some traced) ≡ traced_header
unfolding gate_header id_bytes decode_hex hex_value
traced_lem = refl

abbrev untraced_header : GateMsgHeader
untraced_header = record {
  op_code = 1;
  session_id = negsuc 4;
  trace_id = replicate 16 0;
  span_id = 5 ∷ replicate 7 0;
}

read-write_server_message_example :
    read_server_message_header (write_server_message (pos 12) (pos 77) ping (some traced) ++ ping)
    ≡ done
        (record { length_field = pos 36; type_field = pos 12; server_id = 0; object_id = pos 77 })
        (write_gate_msg_header (gate_header (pos 77) (some traced)) ++ ping ++ ping)
unfolding gate_header id_bytes decode_hex hex_value write_gate_msg_header has_trace_context
    some_nonzero put_le
read-write_server_message_example =
    read-write_server_message (pos 12) (pos 77) ping (some traced) ping (omega arith) (omega arith)
      (omega arith)
