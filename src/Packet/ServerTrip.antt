-- ===== src/Packet/ServerTrip.antt =====
-- A server message, written and read back (internal/protocol/packet.go, server_packet.go).
use game_gateway.Prelude.{
  ℕ, suc, ◌+◌, ◌%◌, ◌^◌, ◌<◌, ◌≡◌, refl, ap, ◌∙◌, subst, true, false, Option, List, [], ◌∷◌, ◌++◌,
  append_assoc, arith, ℤ, pos, length, take, drop, replicate, length-append, take-append_of_length,
  drop-append_past, take-all,
}
use game_gateway.Prelude.Bytes.{
  put_le, length-put_le, get_le-put_le, to_bits, of_bits, Fits, of_bits-to_bits_32,
  of_bits-to_bits_64, to_bits-lt_32, to_bits-lt_64, done, read_full, read_full-append,
}
use game_gateway.Packet.TraceIds.{length-id_bytes}
use game_gateway.Packet.Server.{
  ServerMessageHeader, write_server_message_header, read_server_message_header, GateMsgHeader,
  some_nonzero, has_trace_context, write_gate_msg_header, read_gate_msg_header,
  read_gate_msg_header_extended, TraceContext, trace_of, span_of, gate_header, header_size,
  server_header, write_server_message,
}

pub record ServerHeaderFits (h : ServerMessageHeader) : Type 0 where
  pub length_fits : Fits 32 h.length_field
  pub type_fits : Fits 32 h.type_field
  pub server_fits : h.server_id < 2 ^ 32
  pub object_fits : Fits 64 h.object_id

-- The four fields, cut out of a buffer that holds them one behind another.
cut_fields :
    (a b c d : List ℕ)
    → length a ≡ 4
    → length b ≡ 4
    → length c ≡ 4
    → length d ≡ 8
    → let buf = a ++ (b ++ (c ++ d)) in
      (take 4 buf ≡ a)
      × (take 4 (drop 4 buf) ≡ b)
      × (take 4 (drop 8 buf) ≡ c)
      × (take 8 (drop 12 buf) ≡ d)
      × (length buf ≡ 20)
cut_fields a b c d p q r s =
    let past_a = λ (k : ℕ). drop-append_past 4 k a (b ++ (c ++ d)) p in
    let past_b = λ (k : ℕ). drop-append_past 4 k b (c ++ d) q in
    (
      take-append_of_length 4 a (b ++ (c ++ d)) p,
      ap (take 4) (past_a 0) ∙ take-append_of_length 4 b (c ++ d) q,
      ap (take 4) (past_a 4 ∙ past_b 0) ∙ take-append_of_length 4 c d r,
      ap (take 8) (past_a 8 ∙ past_b 4 ∙ drop-append_past 4 0 c d r) ∙ take-all 8 d s,
      omega (arith, length-append a (b ++ (c ++ d)), length-append b (c ++ d), length-append c d),
    )

pub server-read-write :
    (h : ServerMessageHeader) (rest : List ℕ)
    → ServerHeaderFits h
    → read_server_message_header (write_server_message_header h ++ rest) ≡ done h rest
unfolding read_server_message_header write_server_message_header
server-read-write h rest f =
    let a = put_le 4 (to_bits 32 h.length_field) in
    let b = put_le 4 (to_bits 32 h.type_field) in
    let c = put_le 4 h.server_id in
    let d = put_le 8 (to_bits 64 h.object_id) in
    let buf = a ++ (b ++ (c ++ d)) in
    let (ca, cb, cc', cd, len) =
      cut_fields a b c d (length-put_le 4 _) (length-put_le 4 _) (length-put_le 4 _)
        (length-put_le 8 _) in
    let whole =
      subst (λ n. read_full n (buf ++ rest) ≡ done buf rest) len (read_full-append buf rest) in
    rw whole (
      rw
        (
          ca,
          cb,
          cc',
          cd,
          get_le-put_le 4 (to_bits 32 h.length_field) (to_bits-lt_32 h.length_field),
          get_le-put_le 4 (to_bits 32 h.type_field) (to_bits-lt_32 h.type_field),
          get_le-put_le 4 h.server_id f.server_fits,
          get_le-put_le 8 (to_bits 64 h.object_id) (to_bits-lt_64 h.object_id),
          of_bits-to_bits_32 h.length_field f.length_fits,
          of_bits-to_bits_32 h.type_field f.type_fits,
          of_bits-to_bits_64 h.object_id f.object_fits,
        )
        refl)

zeros-some_nonzero : (bs : List ℕ) → some_nonzero bs ≡ false → bs ≡ replicate (length bs) 0
unfolding some_nonzero
zeros-some_nonzero [] e = refl
zeros-some_nonzero (b ∷ bs) e = ground (arith, zeros-some_nonzero bs)

-- A gate header, cut out of a buffer that holds its fields one behind another.
gate_fields :
    (op : ℕ) (s t p rest : List ℕ)
    → length s ≡ 8
    → length t ≡ 16
    → length p ≡ 8
    → let buf = op ∷ (s ++ (t ++ p)) in
      (take 8 (drop 1 buf) ≡ s)
      × (take 16 (drop 9 buf) ≡ t)
      × (take 8 (drop 25 buf) ≡ p)
      × (length buf ≡ 33)
gate_fields op s t p rest a b c = (
  take-append_of_length 8 s (t ++ p) a,
  ap (take 16) (drop-append_past 8 0 s (t ++ p) a) ∙ take-append_of_length 16 t p b,
  ap (take 8) (drop-append_past 8 16 s (t ++ p) a ∙ drop-append_past 16 0 t p b) ∙ take-all 8 p c,
  omega (arith, length-append s (t ++ p), length-append t p),
)

pub record GateHeaderFits (h : GateMsgHeader) : Type 0 where
  pub session_fits : Fits 64 h.session_id
  pub trace_length : length h.trace_id ≡ 16
  pub span_length : length h.span_id ≡ 8

-- A header with a trace id that is not all zeros, ids of 16 and 8 bytes and a session id of 64 bits
-- is written in 33 bytes, which the extended reader reads back as that header.
pub gate-read-write_extended :
    (h : GateMsgHeader) (rest : List ℕ)
    → GateHeaderFits h
    → has_trace_context h ≡ true
    → read_gate_msg_header_extended (write_gate_msg_header h ++ rest) ≡ done h rest
unfolding read_gate_msg_header_extended write_gate_msg_header
gate-read-write_extended h rest f t =
    let s = put_le 8 (to_bits 64 h.session_id) in
    let buf = h.op_code ∷ (s ++ (h.trace_id ++ h.span_id)) in
    let (cs, ct, cp, len) =
      gate_fields h.op_code s h.trace_id h.span_id rest (length-put_le 8 _) f.trace_length
        f.span_length in
    let whole =
      subst (λ n. read_full n (buf ++ rest) ≡ done buf rest) len (read_full-append buf rest) in
    rw t (
      rw whole (
        rw
          (
            cs,
            ct,
            cp,
            get_le-put_le 8 (to_bits 64 h.session_id) (to_bits-lt_64 h.session_id),
            of_bits-to_bits_64 h.session_id f.session_fits,
          )
          refl))

-- A header whose trace id is all zeros is written in nine bytes, and read back with the two ids
-- zero: the span id is not sent.
pub gate-read-write_short :
    (h : GateMsgHeader) (rest : List ℕ)
    → GateHeaderFits h
    → has_trace_context h ≡ false
    → read_gate_msg_header (write_gate_msg_header h ++ rest)
      ≡ done
          (record {
            op_code = h.op_code;
            session_id = h.session_id;
            trace_id = h.trace_id;
            span_id = replicate 8 0;
          })
          rest
unfolding read_gate_msg_header write_gate_msg_header has_trace_context
gate-read-write_short h rest f t =
    let s = put_le 8 (to_bits 64 h.session_id) in
    let buf = h.op_code ∷ s in
    let len : length buf ≡ 9 = ap suc (length-put_le 8 (to_bits 64 h.session_id)) in
    let whole =
      subst (λ n. read_full n (buf ++ rest) ≡ done buf rest) len (read_full-append buf rest) in
    let zeros : h.trace_id ≡ replicate 16 0 =
      subst (λ n. h.trace_id ≡ replicate n 0) f.trace_length (zeros-some_nonzero h.trace_id t) in
    rw t (
      rw whole (
        rw
          (
            take-all 8 s (length-put_le 8 _),
            get_le-put_le 8 (to_bits 64 h.session_id) (to_bits-lt_64 h.session_id),
            of_bits-to_bits_64 h.session_id f.session_fits,
            zeros,
          )
          refl))

gate_header-Fits :
    (session_id : ℤ) (c : Option TraceContext)
    → Fits 64 session_id
    → GateHeaderFits (gate_header session_id c)
unfolding gate_header
gate_header-Fits session_id c f = record {
  session_fits = f;
  trace_length = length-id_bytes 16 (trace_of c);
  span_length = length-id_bytes 8 (span_of c);
}

length-write_gate :
    (h : GateMsgHeader) → GateHeaderFits h → length (write_gate_msg_header h) ≡ header_size h
unfolding write_gate_msg_header put_le
length-write_gate h f =
    ground (arith, f.trace_length, f.span_length, length-append h.trace_id h.span_id)

-- A message to a backend, whose type and session id fit their fields and whose length is below 2 ^
-- 31, is read back as its server header, whose length is the number of bytes of the gate header and
-- the body, and those bytes are what is left.
pub read-write_server_message :
    (message_type session_id : ℤ) (body : List ℕ) (c : Option TraceContext) (rest : List ℕ)
    → Fits 32 message_type
    → Fits 64 session_id
    → 33 + length body < 2 ^ 31
    → let payload = write_gate_msg_header (gate_header session_id c) ++ body in
      read_server_message_header (write_server_message message_type session_id body c ++ rest)
      ≡ done
          (record {
            length_field = pos (length payload);
            type_field = message_type;
            server_id = 0;
            object_id = session_id;
          })
          (payload ++ rest)
unfolding write_server_message server_header
read-write_server_message message_type session_id body c rest ft fs small =
    let h = gate_header session_id c in
    let payload = write_gate_msg_header h ++ body in
    let size : length payload ≡ header_size h + length body = ground (
      arith,
      length-append (write_gate_msg_header h) body,
      length-write_gate h (gate_header-Fits session_id c fs),
    ) in
    let bound : header_size h + length body < 2 ^ 31 = ground arith in
    let whole : of_bits 32 ((header_size h + length body) % 2 ^ 32) ≡ pos (length payload) =
      ground arith in
    rw
      (append_assoc (write_server_message_header (server_header message_type session_id h body))
        payload rest)
      (rw whole (
        server-read-write
          (record {
            length_field = pos (length payload);
            type_field = message_type;
            server_id = 0;
            object_id = session_id;
          })
          (payload ++ rest)
          (record {
            length_fits = ground arith;
            type_fits = ft;
            server_fits = omega arith;
            object_fits = fs;
          })))
