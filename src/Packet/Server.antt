-- ===== src/Packet/Server.antt =====
-- internal/protocol/packet.go and server_packet.go: the messages between gateway and backend.
use game_gateway.Prelude.{
  ℕ, ◌+◌, ◌-◌, ◌*◌, ◌%◌, ◌^◌, Bool, true, false, ◌&&◌, Option, none, some, List, [], ◌∷◌, ◌++◌, ℤ,
  leb, ◌==◌, if◌then◌else◌, length, get_or, take, drop, replicate,
}
use game_gateway.Prelude.Bytes.{put_le, get_le, to_bits, of_bits, Read, done, ◌>>=◌, read_full}

-- The source computes 4 + 4 + 4 + 8.
abbrev pub server_message_header_size : ℕ
server_message_header_size = 20

abbrev pub gate_msg_header_size : ℕ
gate_msg_header_size = 9

abbrev pub gate_msg_header_extended_size : ℕ
gate_msg_header_extended_size = 33

pub record ServerMessageHeader : Type 0 where
  pub length_field : ℤ  -- int32
  pub type_field : ℤ  -- int32
  pub server_id : ℕ  -- uint32
  pub object_id : ℤ  -- int64

unfoldable pub write_server_message_header : ServerMessageHeader → List ℕ
write_server_message_header h =
    put_le 4 (to_bits 32 h.length_field)
    ++ (put_le 4 (to_bits 32 h.type_field)
        ++ (put_le 4 h.server_id ++ put_le 8 (to_bits 64 h.object_id)))

unfoldable pub read_server_message_header : List ℕ → Read ServerMessageHeader
read_server_message_header s = read_full server_message_header_size s >>= λ buf rest.
    done
      (record {
        length_field = of_bits 32 (get_le (take 4 buf));
        type_field = of_bits 32 (get_le (take 4 (drop 4 buf)));
        server_id = get_le (take 4 (drop 8 buf));
        object_id = of_bits 64 (get_le (take 8 (drop 12 buf)));
      })
      rest

pub record GateMsgHeader : Type 0 where
  pub op_code : ℕ  -- uint8
  pub session_id : ℤ  -- int64
  pub trace_id : List ℕ  -- 16 bytes
  pub span_id : List ℕ  -- 8 bytes

unfoldable pub some_nonzero : List ℕ → Bool
some_nonzero [] = false
some_nonzero (b ∷ bs) = if b == 0 then some_nonzero bs else true

unfoldable pub has_trace_context : GateMsgHeader → Bool
unfolding some_nonzero
has_trace_context h = some_nonzero h.trace_id

unfoldable pub write_gate_msg_header : GateMsgHeader → List ℕ
write_gate_msg_header h =
    let short = h.op_code ∷ put_le 8 (to_bits 64 h.session_id) in
    if has_trace_context h then short ++ (h.trace_id ++ h.span_id) else short

unfoldable pub read_gate_msg_header : List ℕ → Read GateMsgHeader
read_gate_msg_header s = read_full gate_msg_header_size s >>= λ buf rest.
    done
      (record {
        op_code = get_or buf 0 0;
        session_id = of_bits 64 (get_le (take 8 (drop 1 buf)));
        trace_id = replicate 16 0;
        span_id = replicate 8 0;
      })
      rest

unfoldable pub read_gate_msg_header_extended : List ℕ → Read GateMsgHeader
read_gate_msg_header_extended s = read_full gate_msg_header_extended_size s >>= λ buf rest.
    done
      (record {
        op_code = get_or buf 0 0;
        session_id = of_bits 64 (get_le (take 8 (drop 1 buf)));
        trace_id = take 16 (drop 9 buf);
        span_id = take 8 (drop 25 buf);
      })
      rest

-- `encoding/hex`: the value of a digit, and of a text of an even number of digits.
unfoldable pub hex_value : ℕ → Option ℕ
hex_value c =
    if leb b'0' c && leb c b'9'
    then some (c - b'0')
    else if leb b'a' c && leb c b'f'
    then some (c - b'a' + 10)
    else if leb b'A' c && leb c b'F'
    then some (c - b'A' + 10)
    else none

abbrev pub hex_byte : Option ℕ → Option ℕ → Option (List ℕ) → Option (List ℕ)
hex_byte (some a) (some b) (some rest) = some ((16 * a + b) ∷ rest)
hex_byte _ _ _ = none

unfoldable pub decode_hex : List ℕ → Option (List ℕ)
unfolding hex_value
decode_hex [] = some []
decode_hex (c ∷ []) = none
decode_hex (c ∷ d ∷ cs) = hex_byte (hex_value c) (hex_value d) (decode_hex cs)

-- The map of a trace context: its two entries, if they are there, as texts.
pub record TraceContext : Type 0 where
  pub trace_id_text : Option (List ℕ)
  pub span_id_text : Option (List ℕ)

-- The bytes of a hexadecimal text of `n` bytes, or zeros if there is no such text.
abbrev pub decoded_or : List ℕ → Option (List ℕ) → List ℕ
decoded_or zeros none = zeros
decoded_or zeros (some bs) = bs

unfoldable pub id_bytes : ℕ → Option (List ℕ) → List ℕ
id_bytes n none = replicate n 0
id_bytes n (some text) =
    if length text == 2 * n then decoded_or (replicate n 0) (decode_hex text) else replicate n 0

abbrev pub trace_of : Option TraceContext → Option (List ℕ)
trace_of none = none
trace_of (some c) = c.trace_id_text

abbrev pub span_of : Option TraceContext → Option (List ℕ)
span_of none = none
span_of (some c) = c.span_id_text

unfoldable pub gate_header : ℤ → Option TraceContext → GateMsgHeader
gate_header session_id context = record {
  op_code = 1;
  session_id = session_id;
  trace_id = id_bytes 16 (trace_of context);
  span_id = id_bytes 8 (span_of context);
}

abbrev pub header_size : GateMsgHeader → ℕ
header_size h = if has_trace_context h then gate_msg_header_extended_size else gate_msg_header_size

-- `int32(totalLength)` keeps the low 32 bits.
unfoldable pub server_header : ℤ → ℤ → GateMsgHeader → List ℕ → ServerMessageHeader
server_header message_type session_id h body = record {
  length_field = of_bits 32 ((header_size h + length body) % 2 ^ 32);
  type_field = message_type;
  server_id = 0;
  object_id = session_id;
}

unfoldable pub write_server_message : ℤ → ℤ → List ℕ → Option TraceContext → List ℕ
unfolding gate_header server_header
write_server_message message_type session_id body context =
    let h = gate_header session_id context in
    write_server_message_header (server_header message_type session_id h body)
    ++ (write_gate_msg_header h ++ body)
