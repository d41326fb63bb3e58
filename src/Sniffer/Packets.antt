-- ===== src/Sniffer/Packets.antt =====
-- A game client's first packet and the sniffer (internal/protocol/sniffer.go, packet.go).
use game_gateway.Prelude.{ℕ, ◌/◌, ◌%◌, ◌<◌, ◌≡◌, Bool, false, List, [], ◌∷◌, ◌++◌, arith, length}
use game_gateway.Prelude.Bytes.{put_le}
use game_gateway.Packet.{write_client_message_header}
use game_gateway.Packet.Client.{frame}
use game_gateway.Sniffer.{protocol_tcp, is_http, sniff}

-- The first four bytes of a packet with a body of less than 17735 bytes spell no method: the
-- smallest pair of first letters, "GE", is a length of 17735.
is_http-lengths :
    (n message_id : ℕ)
    → n < 17735
    → is_http (n % 256 ∷ n / 256 % 256 ∷ message_id % 256 ∷ message_id / 256 % 256 ∷ []) ≡ false
unfolding is_http
is_http-lengths n message_id h = ground arith

sniff-other :
    (to_lower : List ℕ → List ℕ) (timed_out : Bool) (a b c d : ℕ) (s : List ℕ)
    → is_http (a ∷ b ∷ c ∷ d ∷ []) ≡ false
    → sniff to_lower timed_out (a ∷ b ∷ c ∷ d ∷ s)
      ≡ record { protocol = protocol_tcp; peeked = a ∷ b ∷ c ∷ d ∷ []; has_error = false }
unfolding sniff
sniff-other to_lower timed_out a b c d s h = rw h (ground arith)

-- A client that sends a packet with a body of less than 17735 bytes is taken for a game client,
-- whatever the packet's other fields are and whatever follows it, with the packet's first four
-- bytes peeked and no error.
pub sniff-frame :
    (to_lower : List ℕ → List ℕ) (timed_out : Bool) (message_id server_id : ℕ) (body rest : List ℕ)
    → length body < 17735
    → sniff to_lower timed_out (frame message_id server_id body ++ rest) ≡ record {
      protocol = protocol_tcp;
      peeked = put_le 2 (length body) ++ put_le 2 message_id;
      has_error = false;
    }
unfolding write_client_message_header put_le
sniff-frame to_lower timed_out message_id server_id body rest h =
    sniff-other to_lower timed_out _ _ _ _ _ (is_http-lengths (length body) message_id h)
