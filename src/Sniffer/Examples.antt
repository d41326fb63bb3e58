-- ===== src/Sniffer/Examples.antt =====
-- First bytes of connections; the capital letters of ASCII are the only ones there.
use game_gateway.Prelude.{
  ℕ, ◌+◌, ◌≡◌, refl, true, false, ◌&&◌, List, [], ◌∷◌, ◌++◌, map, arith, leb, if◌then◌else◌, take,
}
use game_gateway.Prelude.Bytes.{put_le}
use game_gateway.Packet.Client.{frame}
use game_gateway.Sniffer.{
  protocol_http, protocol_web_socket, protocol_tcp, contains, is_http, sniff,
}
use game_gateway.Sniffer.Packets.{sniff-frame}

abbrev lower : List ℕ → List ℕ
lower bs = map (λ b. if leb b'A' b && leb b b'Z' then b + 32 else b) bs

-- "GET / Upgrade: WebSocket"
abbrev handshake : List ℕ
handshake =
    b'G' ∷ b'E' ∷ b'T' ∷ b' ' ∷ b'/' ∷ b' ' ∷ b'U' ∷ b'p' ∷ b'g' ∷ b'r' ∷ b'a' ∷ b'd' ∷ b'e' ∷ b':'
    ∷ b' ' ∷ b'W' ∷ b'e' ∷ b'b' ∷ b'S' ∷ b'o' ∷ b'c' ∷ b'k' ∷ b'e' ∷ b't' ∷ []

web_socket_client : (sniff lower false handshake).protocol ≡ protocol_web_socket
unfolding sniff is_http contains
web_socket_client = refl

http_client : (sniff lower false (take 20 handshake)).protocol ≡ protocol_http
unfolding sniff is_http contains
http_client = refl

slow_client :
    sniff lower true (1 ∷ 2 ∷ [])
    ≡ record { protocol = protocol_tcp; peeked = []; has_error = false }
unfolding sniff
slow_client = refl

-- A packet with a body of 17735 bytes and the message id 0x2054 begins like "GET ".
method_packet : is_http (put_le 2 17735 ++ put_le 2 0x2054) ≡ true
unfolding is_http put_le
method_packet = refl

sniff-frame_example :
    sniff lower false (frame 258 1 (7 ∷ 8 ∷ []) ++ (9 ∷ []))
    ≡ record { protocol = protocol_tcp; peeked = put_le 2 2 ++ put_le 2 258; has_error = false }
sniff-frame_example = sniff-frame lower false 258 1 (7 ∷ 8 ∷ []) (9 ∷ []) (omega arith)
