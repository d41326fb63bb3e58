-- ===== src/Forward/Delivery.antt =====
-- What a client reads of the packets that the gateway writes to it (internal/gateway/gateway.go).
use game_gateway.Prelude.{
  ℕ, zero, suc, ◌%◌, ◌^◌, ◌≤◌, ◌<◌, ◌≡◌, refl, sym, ap, ◌∙◌, subst, ◌&&◌, List, [], ◌∷◌, ◌++◌, map,
  append_assoc, arith, ℤ, pos, negsuc, ltb, leb, length, take, drop, All,
}
use game_gateway.Prelude.Bytes.{to_bits, done}
use game_gateway.Packet.{ClientMessageHeader, write_client_message_header, read_full_packet}
use game_gateway.Packet.Client.{frame, read_full_packet-frame}
use game_gateway.Forward.{client_packet}
use game_gateway.Forward.ToBackend.{Sent, client_stream}
use game_gateway.Forward.ToClient.{Reply, client_packets}

-- The packet that a message stands for.
abbrev pub as_sent : Reply → Sent
as_sent r = record { message_id = to_bits 16 r.message_type; server_id = 0; body = r.body }

abbrev pub Short : Reply → Type 0
Short r = length r.body < 2 ^ 16

client_packet-frame :
    (t : ℤ) (body : List ℕ)
    → length body < 2 ^ 16
    → client_packet t body ≡ frame (to_bits 16 t) 0 body
unfolding client_packet
client_packet-frame t body h =
    let same : length body % 2 ^ 16 ≡ length body = omega arith in rw same refl

-- The packets written for messages with bodies of less than 65536 bytes are packets as a client
-- reads them, with the low 16 bits of the message's type as their id.
pub client_packets-Short :
    (rs : List Reply) → All Short rs → client_packets rs ≡ client_stream (map as_sent rs) []
client_packets-Short [] a = refl
client_packets-Short (r ∷ rs) (h, a) =
    rw (client_packet-frame r.message_type r.body h, client_packets-Short rs a) refl

take-drop : (k : ℕ) (xs : List ℕ) → take k xs ++ drop k xs ≡ xs
take-drop zero xs = refl
take-drop (suc k) [] = refl
take-drop (suc k) (x ∷ xs) = ap (λ zs. x ∷ zs) (take-drop k xs)

length-take_le : (k : ℕ) (xs : List ℕ) → k ≤ length xs → length (take k xs) ≡ k
length-take_le zero xs h = refl
length-take_le (suc k) [] h = absurd (omega arith)
length-take_le (suc k) (x ∷ xs) h = ap suc (length-take_le k xs (omega arith))

to_bits_16-lt : (z : ℤ) → to_bits 16 z < 2 ^ 16
to_bits_16-lt (pos n) = omega arith
to_bits_16-lt (negsuc n) = omega arith

-- The packet of any message is read as one whose body is the message's first bytes, as many as its
-- length is modulo 65536; the bytes behind them are left in the stream, where the next packet is
-- expected. For a body of 65536 bytes or more there are some.
pub read-client_packet :
    (t : ℤ) (body rest : List ℕ)
    → let n = length body % 2 ^ 16 in
      read_full_packet (pos 0) (client_packet t body ++ rest)
      ≡ done
          (record {
            header = record { length_field = n; message_id = to_bits 16 t; server_id = 0 };
            body = take n body;
            pooled = ltb 0 n && leb n 8192;
          })
          (drop n body ++ rest)
unfolding client_packet
read-client_packet t body rest =
    let n = length body % 2 ^ 16 in
    let len : length (take n body) ≡ n = length-take_le n body (omega arith) in
    let small : length (take n body) < 2 ^ 16 = omega arith in
    let whole =
      read_full_packet-frame (pos 0) (to_bits 16 t) 0 (take n body) (drop n body ++ rest) small
        (to_bits_16-lt t) (omega arith) refl in
    let head : ℕ → ClientMessageHeader =
      λ m. record { length_field = m; message_id = to_bits 16 t; server_id = 0 } in
    let read =
      subst
        (λ m.
          read_full_packet (pos 0)
            ((write_client_message_header (head m) ++ take n body) ++ (drop n body ++ rest))
          ≡ done (record { header = head m; body = take n body; pooled = ltb 0 m && leb m 8192 })
              (drop n body ++ rest))
        len whole in
    let w = write_client_message_header (head n) in
    let joined : (w ++ take n body) ++ (drop n body ++ rest) ≡ (w ++ body) ++ rest =
      append_assoc w (take n body) (drop n body ++ rest)
      ∙ ap (λ z. w ++ z)
          (sym (append_assoc (take n body) (drop n body) rest)
            ∙ ap (λ z. z ++ rest) (take-drop n body))
      ∙ sym (append_assoc w body rest) in
    subst
      (λ s.
        read_full_packet (pos 0) s
        ≡ done (record { header = head n; body = take n body; pooled = ltb 0 n && leb n 8192 })
            (drop n body ++ rest))
      joined read
