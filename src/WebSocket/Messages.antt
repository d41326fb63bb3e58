-- ===== src/WebSocket/Messages.antt =====
-- The loop over the frames: it ends, and puts a fragmented message together
-- (internal/protocol/websocket_conn.go).
use game_gateway.Prelude.{
  ℕ, zero, suc, ◌-◌, ◌/◌, ◌%◌, ◌≤◌, ◌<◌, ◌≡◌, refl, Bool, not, Option, none, some, List, [], ◌∷◌,
  arith, ℤ, pos, negsuc, ◌==◌, length,
}
use game_gateway.Prelude.Leaves.{Leaves, bind-Leaves, if-Leaves, read_full-Leaves}
use game_gateway.Prelude.Bytes.{eof, Read, done, failed, panicked, read_full}
use game_gateway.WebSocket.{
  WebSocketConn, WsFrame, read_length, read_payload, read_masked, read_frame, on_frame, or_next,
  on_read, next_data_payload,
}
use game_gateway.WebSocket.Frames.{exceeds}

read_length-Leaves : (n k : ℕ) (s : List ℕ) → length s ≤ n → Leaves n (read_length k s)
unfolding read_length
read_length-Leaves n k s h =
    if-Leaves n (k == 126) _ _
      (bind-Leaves n (read_full 2 s) _ (read_full-Leaves n 2 s h) (λ a rest l. l))
      (if-Leaves n (k == 127) _ _
        (bind-Leaves n (read_full 8 s) _ (read_full-Leaves n 8 s h) (λ a rest l. l)) h)

read_payload-Leaves :
    (n : ℕ) (key : List ℕ) (z : ℤ) (s : List ℕ) → length s ≤ n → Leaves n (read_payload key z s)
unfolding read_payload
read_payload-Leaves n key (pos k) s h =
    bind-Leaves n (read_full k s) _ (read_full-Leaves n k s h) (λ a rest l. l)
read_payload-Leaves n key (negsuc k) s h = tt

read_masked-Leaves :
    (n : ℕ) (max : ℤ) (fin : Bool) (opcode k : ℕ) (s : List ℕ)
    → length s ≤ n
    → Leaves n (read_masked max fin opcode k s)
unfolding read_masked
read_masked-Leaves n max fin opcode k s h =
    bind-Leaves n (read_length k s) _ (read_length-Leaves n k s h) (λ z s l.
      if-Leaves n (exceeds max z) _ _ tt (
        bind-Leaves n (read_full 4 s) _ (read_full-Leaves n 4 s l) (λ key s m.
          bind-Leaves n (read_payload key z s) _ (read_payload-Leaves n key z s m)
            (λ a rest r. r))))

read_frame-Leaves : (max : ℤ) (s : List ℕ) → Leaves (length s - 2) (read_frame max s)
unfolding read_frame
read_frame-Leaves max [] = tt
read_frame-Leaves max (a ∷ []) = tt
read_frame-Leaves max (a ∷ b ∷ s) = if-Leaves (length (a ∷ b ∷ s) - 2) (b / 128 % 2 == 0) _ _ tt (
    read_masked-Leaves (length (a ∷ b ∷ s) - 2) max (not (a / 128 % 2 == 0)) (a % 16) (b % 128) s
      (omega arith))

or_next_ends :
    (p : WebSocketConn × Option (Read (List ℕ)))
    (next : WebSocketConn → Option (WebSocketConn × Read (List ℕ)))
    → ((w : WebSocketConn) → (r : WebSocketConn × Read (List ℕ)) × (next w ≡ some r))
    → (r : WebSocketConn × Read (List ℕ)) × (or_next p next ≡ some r)
or_next_ends (w, some r) next h = ((w, r), refl)
or_next_ends (w, none) next h = h w

on_read_ends :
    (w : WebSocketConn) (n : ℕ) (r : Read WsFrame)
    (next : WebSocketConn → List ℕ → Option (WebSocketConn × Read (List ℕ)))
    → Leaves n r
    → ((w : WebSocketConn) (s : List ℕ)
        → length s ≤ n
        → (r : WebSocketConn × Read (List ℕ)) × (next w s ≡ some r))
    → (q : WebSocketConn × Read (List ℕ)) × (on_read w r next ≡ some q)
on_read_ends w n (done f rest) next l h =
    or_next_ends (on_frame w f rest) (λ w. next w rest) (λ w. h w rest l)
on_read_ends w n (failed e) next l h = ((w, failed e), refl)
on_read_ends w n panicked next l h = ((w, panicked), refl)

-- The loop ends, with a payload, an error or a panic, when it is given more rounds than the stream
-- has bytes, whatever the bytes are.
pub next_data_payload_ends :
    (fuel : ℕ) (w : WebSocketConn) (s : List ℕ)
    → length s < fuel
    → (r : WebSocketConn × Read (List ℕ)) × (next_data_payload fuel w s ≡ some r)
unfolding next_data_payload read_frame
next_data_payload_ends zero w s h = absurd (omega arith)
next_data_payload_ends (suc fuel) w [] h = ((w, failed eof), refl)
next_data_payload_ends (suc fuel) w (b ∷ s) h =
    on_read_ends w (length (b ∷ s) - 2) (read_frame w.max_payload (b ∷ s)) (next_data_payload fuel)
      (read_frame-Leaves w.max_payload (b ∷ s))
      (λ w t l. next_data_payload_ends fuel w t (omega arith))
