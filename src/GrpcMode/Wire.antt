-- ===== src/GrpcMode/Wire.antt =====
-- What a client is written in gRPC mode (internal/gateway/gateway_grpc.go, sendToSession).
use game_gateway.Prelude.{
  ℕ, ◌+◌, ◌%◌, ◌^◌, ◌≡◌, refl, sym, ap, ◌∙◌, inl, inr, Bool, true, false, List, [], ◌∷◌, ◌++◌,
  append_assoc, append-nil, arith, ◌==◌, if◌then◌else◌, Bool-cases, length, length-append,
}
use game_gateway.Packet.Client.{length-write}
use game_gateway.Forward.{client_packet}
use game_gateway.Prelude.Bytes.{to_bits}
use game_gateway.GrpcMode.{
  GamePacket, Conn, add_write, client_header, deliver_websocket, deliver_tcp, deliver,
}

-- The writes of a connection one behind another.
abbrev pub joined : List (List ℕ) → List ℕ
joined [] = []
joined (w ∷ ws) = w ++ joined ws

joined-append : (ws : List (List ℕ)) (w : List ℕ) → joined (ws ++ w ∷ []) ≡ joined ws ++ w
joined-append [] w = append-nil w
joined-append (x ∷ ws) w = ap (◌++◌ x) (joined-append ws w) ∙ sym (append_assoc x (joined ws) w)

empty : (xs : List ℕ) → (length xs == 0) ≡ true → xs ≡ []
empty [] h = refl
empty (x ∷ xs) h = ground (arith, h)

-- What a packet adds to a connection.
abbrev pub Carries : GamePacket → Conn → Conn → Type 0
Carries p c d =
    (joined d.written ≡ joined c.written ++ client_packet p.msg_id p.payload)
    × (d.bytes_out ≡ c.bytes_out + (8 + length p.payload))

if-Carries :
    (b : Bool) (p : GamePacket) (c d e : Conn)
    → Carries p c d
    → Carries p c e
    → Carries p c (if b then d else e)
if-Carries true p c d e h k = h
if-Carries false p c d e h k = k

length-header : (p : GamePacket) → length (client_header p ++ p.payload) ≡ 8 + length p.payload
length-header p =
    length-append (client_header p) p.payload
    ∙ ap (λ n. n + length p.payload)
        (length-write (record {
          length_field = length p.payload % 2 ^ 16;
          message_id = to_bits 16 p.msg_id;
          server_id = 0;
        }))

module _ (writes : Conn → List ℕ → Bool)
    (takes : (d : Conn) (bytes : List ℕ) → writes d bytes ≡ true) where
  websocket-Carries : (p : GamePacket) (c : Conn) → Carries p c (deliver_websocket writes p c)
  unfolding deliver_websocket client_packet
  websocket-Carries p c = rw (takes c (client_header p ++ p.payload)) (
    joined-append c.written (client_header p ++ p.payload),
    ap (λ n. c.bytes_out + n) (length-header p),
  )

  tcp-Carries : (p : GamePacket) (c : Conn) → Carries p c (deliver_tcp writes p c)
  unfolding deliver_tcp client_packet
  tcp-Carries p c =
      let headed = add_write (client_header p) c in
      rw (takes c (client_header p)) (
        rw (takes headed p.payload) (elim (Bool-cases (length p.payload == 0)) [
          | inl e ↦
              let none_left = empty p.payload e in
              rw e (
                joined-append c.written (client_header p)
                    ∙ ap (◌++◌ (joined c.written)) (
                        sym (append-nil (client_header p))
                        ∙ ap (◌++◌ (client_header p)) (sym none_left)),
                ap (λ n. c.bytes_out + n) (sym (ap (λ xs. 8 + length xs) none_left)),
              )
          | inr e ↦ rw e (
            joined-append (c.written ++ client_header p ∷ []) p.payload
                ∙ ap (λ xs. xs ++ p.payload) (joined-append c.written (client_header p))
                ∙ append_assoc (joined c.written) (client_header p) p.payload,
            refl,
          )
        ]))

  -- A connection that takes every write gets the same bytes as in TCP mode, the header with the
  -- message's number and the payload behind it, whether it is a WebSocket or not, and all of them
  -- are counted.
  pub deliver-client_packet :
      (p : GamePacket) (c : Conn)
      → (joined (deliver writes p c).written ≡ joined c.written ++ client_packet p.msg_id p.payload)
        × ((deliver writes p c).bytes_out ≡ c.bytes_out + (8 + length p.payload))
  deliver-client_packet p c =
      if-Carries c.websocket p c (deliver_websocket writes p c) (deliver_tcp writes p c)
        (websocket-Carries p c) (tcp-Carries p c)
