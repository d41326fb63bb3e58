-- ===== src/WebSocket/Fragments.antt =====
-- A fragmented message with control frames between its fragments
-- (internal/protocol/websocket_conn.go).
use game_gateway.Prelude.{
  ℕ, suc, ◌+◌, ◌^◌, ◌<◌, ◌≡◌, refl, ◌∙◌, true, false, some, List, [], ◌∷◌, ◌++◌, append_assoc,
  append-nil, arith, ℤ, pos, ◌==◌, length, take, length-append,
}
use game_gateway.Prelude.Bytes.{done}
use game_gateway.WebSocket.{
  WebSocketConn, WsFrame, write_frame, write_control_frame, with_fragments, on_frame, or_next,
  next_data_payload,
}
use game_gateway.WebSocket.Frames.{client_frame, exceeds, read-client_frame}

-- What a client may send behind the first fragment.
pub data Piece : Type 0 where
  chunk ping pong : List ℕ → Piece

abbrev pub frame_of : Piece → WsFrame
frame_of (chunk bs) = record { fin = false; opcode = 0; payload = bs }
frame_of (ping bs) = record { fin = true; opcode = 9; payload = bs }
frame_of (pong bs) = record { fin = true; opcode = 10; payload = bs }

-- The bytes of the fragments among the pieces, and the bytes of the answers to the others.
unfoldable pub chunks : List Piece → List ℕ
chunks [] = []
chunks (chunk bs ∷ ps) = bs ++ chunks ps
chunks (ping bs ∷ ps) = chunks ps
chunks (pong bs ∷ ps) = chunks ps

unfoldable pub answers : List Piece → List ℕ
answers [] = []
answers (chunk bs ∷ ps) = answers ps
answers (ping bs ∷ ps) = write_frame 10 (take 125 bs) true ++ answers ps
answers (pong bs ∷ ps) = answers ps

-- The frames of the pieces, the first masked with the `i`-th key.
unfoldable pub stream : (ℕ → List ℕ) → ℕ → List Piece → List ℕ → List ℕ
stream keys i [] rest = rest
stream keys i (p ∷ ps) rest = client_frame (keys i) (frame_of p) ++ stream keys (suc i) ps rest

-- A payload that one frame may carry.
abbrev pub Carried : ℤ → List ℕ → Type 0
Carried max bs = (length bs < 2 ^ 63) × (exceeds max (pos (length bs)) ≡ false)

abbrev pub AllCarried : ℤ → List Piece → Type 0
AllCarried max [] = Unit
AllCarried max (p ∷ ps) = Carried max (frame_of p).payload × AllCarried max ps

-- The connection with other fragments and more bytes sent.
abbrev pub after : List ℕ → List ℕ → WebSocketConn → WebSocketConn
after fragments answered w = record {
  max_payload = w.max_payload;
  pending = w.pending;
  fragment_buf = fragments;
  sent = w.sent ++ answered;
}

module _ (key : List ℕ) (four : length key ≡ 4) where
  pub next-client_frame :
      (fuel : ℕ) (w : WebSocketConn) (f : WsFrame) (s : List ℕ)
      → f.opcode < 16
      → Carried w.max_payload f.payload
      → next_data_payload (suc fuel) w (client_frame key f ++ s)
        ≡ or_next (on_frame w f s) (λ w. next_data_payload fuel w s)
  unfolding next_data_payload
  next-client_frame fuel w f s o (b, e) =
      rw (read-client_frame w.max_payload key s f four o b e) refl

  some_fragments :
      (w : WebSocketConn) → 0 < length w.fragment_buf → (length w.fragment_buf == 0) ≡ false
  some_fragments w h = ground arith

  last_fragment :
      (w : WebSocketConn) (bs rest : List ℕ)
      → 0 < length w.fragment_buf
      → Carried w.max_payload bs
      → next_data_payload 1 w
          (client_frame key (record { fin = true; opcode = 0; payload = bs }) ++ rest)
        ≡ some (after [] [] w, done (w.fragment_buf ++ bs) rest)
  unfolding on_frame
  last_fragment w bs rest h c =
      next-client_frame 0 w (record { fin = true; opcode = 0; payload = bs }) rest (omega arith) c
      ∙ rw (append-nil w.sent) (simp (some_fragments w h) refl)

  next_piece :
      (n : ℕ) (p : Piece) (w : WebSocketConn) (s : List ℕ)
      → 0 < length w.fragment_buf
      → Carried w.max_payload (frame_of p).payload
      → next_data_payload (suc n) w (client_frame key (frame_of p) ++ s)
        ≡ next_data_payload n (after (w.fragment_buf ++ chunks (p ∷ [])) (answers (p ∷ [])) w) s
  unfolding on_frame chunks answers write_control_frame
  next_piece n (chunk x) w s h c =
      next-client_frame n w (frame_of (chunk x)) s (omega arith) c
      ∙ rw (append-nil w.sent, append-nil x) (simp (some_fragments w h) refl)
  next_piece n (ping x) w s h c =
      next-client_frame n w (frame_of (ping x)) s (omega arith) c
      ∙ rw (append-nil w.fragment_buf, append-nil (write_frame 10 (take 125 x) true)) refl
  next_piece n (pong x) w s h c =
      next-client_frame n w (frame_of (pong x)) s (omega arith) c
      ∙ rw (append-nil w.fragment_buf, append-nil w.sent) refl

  first_fragment :
      (n : ℕ) (w : WebSocketConn) (bs rest : List ℕ)
      → Carried w.max_payload bs
      → next_data_payload
          (suc n)
          w
          (client_frame key (record { fin = false; opcode = 2; payload = bs }) ++ rest)
        ≡ next_data_payload n (with_fragments (w.fragment_buf ++ bs) w) rest
  unfolding on_frame
  first_fragment n w bs rest c =
      next-client_frame n w (record { fin = false; opcode = 2; payload = bs }) rest (omega arith) c

chunks-next : (p : Piece) (ps : List Piece) → chunks (p ∷ ps) ≡ chunks (p ∷ []) ++ chunks ps
unfolding chunks
chunks-next (chunk x) ps = rw (append-nil x) refl
chunks-next (ping x) ps = refl
chunks-next (pong x) ps = refl

answers-next : (p : Piece) (ps : List Piece) → answers (p ∷ ps) ≡ answers (p ∷ []) ++ answers ps
unfolding answers
answers-next (chunk x) ps = refl
answers-next (ping x) ps = rw (append-nil (write_frame 10 (take 125 x) true)) refl
answers-next (pong x) ps = refl

module _ (keys : ℕ → List ℕ) (four : (i : ℕ) → length (keys i) ≡ 4) where
  fragments :
      (i : ℕ) (ps : List Piece) (w : WebSocketConn) (bs rest : List ℕ)
      → 0 < length w.fragment_buf
      → AllCarried w.max_payload ps
      → Carried w.max_payload bs
      → next_data_payload (suc (length ps)) w (
          stream keys i ps (
            client_frame (keys (i + length ps)) (record { fin = true; opcode = 0; payload = bs })
            ++ rest))
        ≡ some (after [] (answers ps) w, done (w.fragment_buf ++ (chunks ps ++ bs)) rest)
  unfolding stream chunks answers
  fragments i [] w bs rest h a c = last_fragment (keys (i + 0)) (four (i + 0)) w bs rest h c
  fragments i (p ∷ ps) w bs rest h a c =
      let v = after (w.fragment_buf ++ chunks (p ∷ [])) (answers (p ∷ [])) w in
      let more : 0 < length v.fragment_buf =
        omega (arith, length-append w.fragment_buf (chunks (p ∷ []))) in
      let place : i + suc (length ps) ≡ suc i + length ps = omega arith in
      rw place (
        next_piece (keys i) (four i) (suc (length ps)) p w _ h a.0
        ∙ fragments (suc i) ps v bs rest more a.1 c
        ∙ rw
            (
              chunks-next p ps,
              answers-next p ps,
              append_assoc w.fragment_buf (chunks (p ∷ [])) (chunks ps ++ bs),
              append_assoc (chunks (p ∷ [])) (chunks ps) bs,
              append_assoc w.sent (answers (p ∷ [])) (answers ps),
            )
            refl)

  -- A message in fragments, the first of them not empty, is put together whole, behind what the
  -- buffer of fragments holds, whatever pings and pongs come between the fragments; each ping is
  -- answered with its bytes, at most 125, the buffer is emptied, and what is behind the message is
  -- left. Every frame is masked with a key of its own. Each frame by itself is within the limit and
  -- shorter than 2 ^ 63, and no limit is set to the message.
  pub next_data_payload-fragments :
      (w : WebSocketConn) (first last rest : List ℕ) (ps : List Piece)
      → 0 < length first
      → Carried w.max_payload first
      → AllCarried w.max_payload ps
      → Carried w.max_payload last
      → next_data_payload (suc (suc (length ps))) w (
          client_frame (keys 0) (record { fin = false; opcode = 2; payload = first })
          ++ stream keys 1 ps (
              client_frame
                (keys (1 + length ps))
                (record { fin = true; opcode = 0; payload = last })
              ++ rest))
        ≡ some
            (after [] (answers ps) w, done ((w.fragment_buf ++ first) ++ (chunks ps ++ last)) rest)
  next_data_payload-fragments w first last rest ps h c a d =
      first_fragment (keys 0) (four 0) (suc (length ps)) w first _ c
      ∙ fragments 1 ps (with_fragments (w.fragment_buf ++ first) w) last rest
          (omega (arith, length-append w.fragment_buf first)) a d
