-- ===== src/Forward/ToClient.antt =====
-- A backend's messages on their way to the client (internal/gateway/gateway.go, forwardConnection).
use game_gateway.Prelude.{
  ℕ, suc, ◌+◌, ◌-◌, ◌^◌, ◌<◌, ◌≡◌, refl, false, some, List, [], ◌∷◌, ◌++◌, append_assoc, arith, ℤ,
  pos, ltb, length, replicate, All,
}
use game_gateway.Prelude.Bytes.{Fits, ReadError, done, failed, read_full-append}
use game_gateway.Packet.Server.{
  ServerMessageHeader, write_server_message_header, read_server_message_header, GateMsgHeader,
  some_nonzero, has_trace_context, write_gate_msg_header, read_gate_msg_header,
}
use game_gateway.Packet.ServerTrip.{ServerHeaderFits, server-read-write, gate-read-write_short}
use game_gateway.Forward.{client_packet, read_message_data, to_client}
use game_gateway.Forward.ToBackend.{never}

-- A message of a backend without a trace.
pub record Reply : Type 0 where
  pub message_type : ℤ
  pub server_id : ℕ
  pub session_id : ℤ
  pub op_code : ℕ
  pub body : List ℕ

abbrev pub server_header_of : Reply → ServerMessageHeader
server_header_of r = record {
  length_field = pos (9 + length r.body);
  type_field = r.message_type;
  server_id = r.server_id;
  object_id = r.session_id;
}

abbrev pub gate_header_of : Reply → GateMsgHeader
gate_header_of r = record {
  op_code = r.op_code;
  session_id = r.session_id;
  trace_id = replicate 16 0;
  span_id = replicate 8 0;
}

abbrev pub reply_bytes : Reply → List ℕ
reply_bytes r =
    write_server_message_header (server_header_of r)
    ++ (write_gate_msg_header (gate_header_of r) ++ r.body)

-- The fields fit, and the length with the gate header is below 2 ^ 31.
pub record ReplyFits (r : Reply) : Type 0 where
  pub length_fits : 9 + length r.body < 2 ^ 31
  pub type_fits : Fits 32 r.message_type
  pub server_fits : r.server_id < 2 ^ 32
  pub session_fits : Fits 64 r.session_id

abbrev pub reply_stream : List Reply → List ℕ → List ℕ
reply_stream [] rest = rest
reply_stream (r ∷ rs) rest = reply_bytes r ++ reply_stream rs rest

abbrev pub client_packets : List Reply → List ℕ
client_packets [] = []
client_packets (r ∷ rs) = client_packet r.message_type r.body ++ client_packets rs

abbrev pub reply_total : List Reply → ℕ
reply_total [] = 0
reply_total (r ∷ rs) = length r.body + reply_total rs

server_header-Fits : (r : Reply) → ReplyFits r → ServerHeaderFits (server_header_of r)
server_header-Fits r f = record {
  length_fits = f.length_fits;
  type_fits = f.type_fits;
  server_fits = f.server_fits;
  object_fits = f.session_fits;
}

read_gate-reply :
    (r : Reply) (rest : List ℕ)
    → ReplyFits r
    → read_gate_msg_header (write_gate_msg_header (gate_header_of r) ++ rest)
      ≡ done (gate_header_of r) rest
unfolding has_trace_context some_nonzero
read_gate-reply r rest f =
    gate-read-write_short (gate_header_of r) rest
      (record { session_fits = f.session_fits; trace_length = refl; span_length = refl }) refl

read_message_data-body :
    (body rest : List ℕ)
    → read_message_data (pos (9 + length body)) (body ++ rest) ≡ some (done body rest)
unfolding read_message_data
read_message_data-body body rest =
    let over : ltb (9 + length body) 9 ≡ false = ground arith in
    let left : 9 + length body - 9 ≡ length body = omega arith in
    rw over (rw left (rw (read_full-append body rest) refl))

-- While nothing stops the loop, neither the end of its context nor a deadline or a write that fails:
-- the messages of a backend, each with fields that fit and with the gate header of nine bytes that
-- the loop reads, which has no trace, are sent to the client in order, each as the header of a packet
-- with the low 16 bits of the body's length and behind it the whole body. The bytes counted are those
-- of the bodies, and the loop ends where the backend's stream ends.
pub to_client-reply_stream :
    (rs : List Reply) (i : ℕ) (rest : List ℕ) (e : ReadError)
    → All ReplyFits rs
    → read_server_message_header rest ≡ failed e
    → to_client never never (suc (length rs)) i (reply_stream rs rest)
      ≡ some (record { written = client_packets rs; counted = reply_total rs })
unfolding to_client
to_client-reply_stream [] i rest e a h = rw h refl
to_client-reply_stream (r ∷ rs) i rest e (f, a) h =
    let gate = write_gate_msg_header (gate_header_of r) in
    let more = reply_stream rs rest in
    rw
      (
        append_assoc (write_server_message_header (server_header_of r)) (gate ++ r.body) more,
        append_assoc gate r.body more,
      )
      (rw
        (server-read-write (server_header_of r) (gate ++ (r.body ++ more)) (server_header-Fits r f))
        (rw (read_gate-reply r (r.body ++ more) f) (
          rw (read_message_data-body r.body more)
            (rw (to_client-reply_stream rs (suc i) rest e a h) refl))))
