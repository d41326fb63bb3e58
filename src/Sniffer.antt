-- ===== src/Sniffer.antt =====
-- internal/protocol/sniffer.go: which protocol a new connection speaks, by its first bytes. The
-- stream is the list of the bytes that arrive before the deadline, and `timed_out` says whether the
-- deadline or an error ended it; peeking takes nothing from it.
pub mod Packets
mod Examples
use game_gateway.Prelude.{
  ℕ, Bool, true, false, not, ◌&&◌, ◌||◌, List, [], ◌∷◌, ltb, ◌==◌, if◌then◌else◌, length, take,
}

pub data ProtocolType : Type 0 where
  protocol_http protocol_web_socket protocol_tcp : ProtocolType

abbrev pub starts_with : List ℕ → List ℕ → Bool
starts_with [] bs = true
starts_with (x ∷ xs) [] = false
starts_with (x ∷ xs) (b ∷ bs) = x == b && starts_with xs bs

-- `bytes.Contains`.
unfoldable pub contains : List ℕ → List ℕ → Bool
contains word [] = starts_with word []
contains word (b ∷ bs) = starts_with word (b ∷ bs) || contains word bs

-- "GET ", "POST", "PUT ", "HEAD" and "HTTP".
unfoldable pub is_http : List ℕ → Bool
is_http bs =
    starts_with (b'G' ∷ b'E' ∷ b'T' ∷ b' ' ∷ []) bs
    || (starts_with (b'P' ∷ b'O' ∷ b'S' ∷ b'T' ∷ []) bs
        || (starts_with (b'P' ∷ b'U' ∷ b'T' ∷ b' ' ∷ []) bs
            || (starts_with (b'H' ∷ b'E' ∷ b'A' ∷ b'D' ∷ []) bs
                || starts_with (b'H' ∷ b'T' ∷ b'T' ∷ b'P' ∷ []) bs)))

abbrev pub upgrade_word : List ℕ
upgrade_word = b'u' ∷ b'p' ∷ b'g' ∷ b'r' ∷ b'a' ∷ b'd' ∷ b'e' ∷ []

abbrev pub websocket_word : List ℕ
websocket_word = b'w' ∷ b'e' ∷ b'b' ∷ b's' ∷ b'o' ∷ b'c' ∷ b'k' ∷ b'e' ∷ b't' ∷ []

-- The protocol, the bytes peeked, and whether an error is reported.
pub record Sniffed : Type 0 where
  pub protocol : ProtocolType
  pub peeked : List ℕ
  pub has_error : Bool

-- `to_lower` is `bytes.ToLower`.
module _ (to_lower : List ℕ → List ℕ) where
  unfoldable pub sniff_http : List ℕ → Sniffed
  unfolding contains
  sniff_http s =
      let more = take 512 s in
      record {
        protocol =
            if contains upgrade_word (to_lower more) && contains websocket_word (to_lower more)
            then protocol_web_socket
            else protocol_http;
        peeked = more;
        has_error = false;
      }

  unfoldable pub sniff : Bool → List ℕ → Sniffed
  unfolding sniff_http is_http
  sniff timed_out s =
      if ltb (length s) 4
      then record { protocol = protocol_tcp; peeked = []; has_error = not timed_out }
      else if is_http (take 4 s)
      then sniff_http s
      else record { protocol = protocol_tcp; peeked = take 4 s; has_error = false }
