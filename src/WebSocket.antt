-- ===== src/WebSocket.antt =====
-- internal/protocol/websocket_conn.go: the frames of a WebSocket client, read and written. The
-- client's stream is the list of the bytes to come, after which it ends; the writes do not fail,
-- and allocating a payload of a length that is not negative succeeds.
pub mod Masking
pub mod Frames
pub mod Messages
pub mod Fragments
pub mod Reader
pub mod Delivery
mod Examples
use game_gateway.Prelude.{
  ℕ, zero, suc, ◌+◌, ◌/◌, ◌%◌, Bool, true, not, ◌&&◌, Option, none, some, List, [], ◌∷◌, ◌++◌, ℤ,
  pos, negsuc, is_pos, leb_ℤ, leb, ◌==◌, if◌then◌else◌, length, get_or, take,
}
use game_gateway.Prelude.Bytes.{
  put_be, get_be, of_bits, eof, message_too_large, frame_not_masked, frame_type, Read, done, failed,
  panicked, ◌>>=◌, read_full,
}
use Prim.Native.Nat.{bit_xor}

pub record WebSocketConn : Type 0 where
  pub max_payload : ℤ
  pub pending : List ℕ
  pub fragment_buf : List ℕ
  pub sent : List ℕ  -- what has been written to the client

pub record WsFrame : Type 0 where
  pub fin : Bool
  pub opcode : ℕ
  pub payload : List ℕ

abbrev pub read_byte : List ℕ → Read ℕ
read_byte [] = failed eof
read_byte (b ∷ s) = done b s

-- `payload[i] ^= maskKey[i%4]`, from the byte of number `i` on.
unfoldable pub apply_mask : ℕ → List ℕ → List ℕ → List ℕ
apply_mask i mask_key [] = []
apply_mask i mask_key (b ∷ bs) =
    bit_xor b (get_or mask_key (i % 4) 0) ∷ apply_mask (suc i) mask_key bs

-- The payload's length as an `int`: eight bytes of it can be negative.
unfoldable pub read_length : ℕ → List ℕ → Read ℤ
read_length n s =
    if n == 126
    then (read_full 2 s >>= λ buf rest. done (pos (get_be buf)) rest)
    else if n == 127
    then (read_full 8 s >>= λ buf rest. done (of_bits 64 (get_be buf)) rest)
    else done (pos n) s

-- `make` panics at a negative length.
unfoldable pub read_payload : List ℕ → ℤ → List ℕ → Read (List ℕ)
unfolding apply_mask
read_payload mask_key (pos n) s =
    read_full n s >>= λ buf rest. done (apply_mask 0 mask_key buf) rest
read_payload mask_key (negsuc n) s = panicked

-- What stands behind the two first bytes of a masked frame.
unfoldable pub read_masked : ℤ → Bool → ℕ → ℕ → List ℕ → Read WsFrame
unfolding read_length read_payload
read_masked max_payload fin opcode n s = read_length n s >>= λ payload_len s.
    if is_pos max_payload && not (leb_ℤ payload_len max_payload)
    then failed message_too_large
    else (read_full 4 s >>= λ mask_key s. read_payload mask_key payload_len s >>= λ payload rest.
        done (record { fin = fin; opcode = opcode; payload = payload }) rest)

unfoldable pub read_frame : ℤ → List ℕ → Read WsFrame
unfolding read_masked
read_frame max_payload s = read_byte s >>= λ h1 s. read_byte s >>= λ h2 s.
    if h2 / 128 % 2 == 0
    then failed frame_not_masked
    else read_masked max_payload (not (h1 / 128 % 2 == 0)) (h1 % 16) (h2 % 128) s

unfoldable pub write_length : ℕ → List ℕ
write_length n =
    if leb n 125 then n ∷ [] else if leb n 65535 then 126 ∷ put_be 2 n else 127 ∷ put_be 8 n

unfoldable pub write_frame : ℕ → List ℕ → Bool → List ℕ
unfolding write_length
write_frame opcode payload fin =
    (if fin then 128 + opcode else opcode) ∷ (write_length (length payload) ++ payload)

-- A control frame carries at most 125 bytes.
unfoldable pub write_control_frame : ℕ → List ℕ → WebSocketConn → WebSocketConn
unfolding write_frame
write_control_frame opcode payload w = record {
  max_payload = w.max_payload;
  pending = w.pending;
  fragment_buf = w.fragment_buf;
  sent = w.sent ++ write_frame opcode (take 125 payload) true;
}

abbrev pub with_fragments : List ℕ → WebSocketConn → WebSocketConn
with_fragments bs w = record {
  max_payload = w.max_payload;
  pending = w.pending;
  fragment_buf = bs;
  sent = w.sent;
}

-- What the loop does with a frame, by its opcode: an end of the loop, or the next round.
abbrev pub on_binary : WebSocketConn → WsFrame → List ℕ → WebSocketConn × Option (Read (List ℕ))
on_binary w frame rest =
    if frame.fin
    then (w, some (done frame.payload rest))
    else (with_fragments (w.fragment_buf ++ frame.payload) w, none)

abbrev pub on_continuation :
    WebSocketConn → WsFrame → List ℕ → WebSocketConn × Option (Read (List ℕ))
on_continuation w frame rest =
    let buf = w.fragment_buf ++ frame.payload in
    if length w.fragment_buf == 0
    then (w, some (failed frame_type))
    else if frame.fin
    then (with_fragments [] w, some (done buf rest))
    else (with_fragments buf w, none)

unfoldable pub on_frame : WebSocketConn → WsFrame → List ℕ → WebSocketConn × Option (Read (List ℕ))
unfolding write_control_frame
on_frame w frame rest =
    if frame.opcode == 2
    then on_binary w frame rest
    else if frame.opcode == 0
    then on_continuation w frame rest
    else if frame.opcode == 9
    then (write_control_frame 10 frame.payload w, none)
    else if frame.opcode == 8
    then (write_control_frame 8 frame.payload w, some (failed eof))
    else if frame.opcode == 1
    then (w, some (failed frame_type))
    else (w, none)

-- The loop's end after a frame, or the rounds after it.
abbrev pub or_next :
    WebSocketConn × Option (Read (List ℕ))
    → (WebSocketConn → Option (WebSocketConn × Read (List ℕ)))
    → Option (WebSocketConn × Read (List ℕ))
or_next (w, some r) next = some (w, r)
or_next (w, none) next = next w

abbrev pub on_read :
    WebSocketConn
    → Read WsFrame
    → (WebSocketConn → List ℕ → Option (WebSocketConn × Read (List ℕ)))
    → Option (WebSocketConn × Read (List ℕ))
on_read w (done frame rest) next = or_next (on_frame w frame rest) (λ w. next w rest)
on_read w (failed e) next = some (w, failed e)
on_read w panicked next = some (w, panicked)

-- The loop, with as many rounds as the fuel: none if it is not enough.
unfoldable pub next_data_payload :
    ℕ → WebSocketConn → List ℕ → Option (WebSocketConn × Read (List ℕ))
unfolding read_frame on_frame
next_data_payload zero w s = none
next_data_payload (suc fuel) w s = on_read w (read_frame w.max_payload s) (next_data_payload fuel)
