-- ===== src/WebSocket/Reader.antt =====
-- internal/protocol/websocket_conn.go: the connection as a stream of bytes, which is how the gateway
-- reads it (Read) and writes it (Write, Close).
use game_gateway.Prelude.{
  ℕ, zero, suc, Bool, true, Option, none, some, List, [], ◌∷◌, ◌++◌, if◌then◌else◌, length, take,
  drop,
}
use game_gateway.Prelude.Bytes.{Read, done, failed, panicked}
use game_gateway.WebSocket.{WebSocketConn, write_frame, write_control_frame, next_data_payload}

abbrev pub with_pending : List ℕ → WebSocketConn → WebSocketConn
with_pending bs w = record {
  max_payload = w.max_payload;
  pending = bs;
  fragment_buf = w.fragment_buf;
  sent = w.sent;
}

abbrev pub on_payload :
    Option (WebSocketConn × Read (List ℕ))
    → (WebSocketConn → List ℕ → Option (WebSocketConn × Read (List ℕ)))
    → Option (WebSocketConn × Read (List ℕ))
on_payload none next = none
on_payload (some (w, done payload rest)) next = next (with_pending payload w) rest
on_payload (some (w, failed e)) next = some (w, failed e)
on_payload (some (w, panicked)) next = some (w, panicked)

-- The bytes that are pending, or those that come up when there are none.
abbrev pub pending_or :
    ℕ
    → WebSocketConn
    → List ℕ
    → List ℕ
    → Option (WebSocketConn × Read (List ℕ))
    → Option (WebSocketConn × Read (List ℕ))
pending_or n w [] s next = next
pending_or n w (b ∷ bs) s next = some (with_pending (drop n (b ∷ bs)) w, done (take n (b ∷ bs)) s)

-- `Read` into a slice of `n` bytes, with as many rounds of its loop as the fuel: none if it is not
-- enough.
unfoldable pub read : ℕ → ℕ → WebSocketConn → List ℕ → Option (WebSocketConn × Read (List ℕ))
unfolding next_data_payload
read zero n w s = none
read (suc fuel) n w s =
    pending_or n w w.pending s (on_payload (next_data_payload (suc (length s)) w s) (read fuel n))

-- `Write`, whose writes to the connection do not fail.
unfoldable pub write : List ℕ → WebSocketConn → WebSocketConn
unfolding write_frame
write p w = record {
  max_payload = w.max_payload;
  pending = w.pending;
  fragment_buf = w.fragment_buf;
  sent = w.sent ++ write_frame 2 p true;
}

-- The first `Close` sends a close frame.
unfoldable pub close : Bool → WebSocketConn → WebSocketConn
unfolding write_control_frame
close closed_before w = if closed_before then w else write_control_frame 8 [] w
