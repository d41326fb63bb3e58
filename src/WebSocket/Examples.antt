-- ===== src/WebSocket/Examples.antt =====
-- A WebSocket client's frames at concrete inputs, with a limit of two bytes.
use game_gateway.Prelude.{ℕ, ◌≡◌, refl, true, false, some, List, [], ◌∷◌, ◌++◌, arith, pos}
use game_gateway.Prelude.Bytes.{get_be, Read, done, panicked}
use game_gateway.WebSocket.{
  WebSocketConn, WsFrame, apply_mask, read_frame, write_length, write_frame, next_data_payload,
}
use game_gateway.WebSocket.Frames.{client_frame, read_frame-negative_length}
use game_gateway.WebSocket.Messages.{next_data_payload_ends}
use game_gateway.WebSocket.Reader.{with_pending}
use game_gateway.WebSocket.Delivery.{read_all, messages, read_all-messages}
use game_gateway.WebSocket.Fragments.{
  Piece, chunk, ping, pong, chunks, answers, stream, after, next_data_payload-fragments,
}

abbrev key : List ℕ
key = 10 ∷ 20 ∷ 30 ∷ 40 ∷ []

abbrev conn : WebSocketConn
conn = record { max_payload = pos 2; pending = []; fragment_buf = []; sent = [] }

abbrev hello : WsFrame
hello = record { fin = true; opcode = 2; payload = 7 ∷ 8 ∷ [] }

hello_bytes : client_frame key hello ≡ 130 ∷ 130 ∷ 10 ∷ 20 ∷ 30 ∷ 40 ∷ 13 ∷ 28 ∷ []
unfolding apply_mask
hello_bytes = refl

read_frame-negative_length_example :
    read_frame (pos 2) (130 ∷ 255 ∷ ((128 ∷ 0 ∷ 0 ∷ 0 ∷ 0 ∷ 0 ∷ 0 ∷ 0 ∷ []) ++ (key ++ [])))
    ≡ panicked
unfolding get_be
read_frame-negative_length_example =
    read_frame-negative_length (pos 2) 130 (128 ∷ 0 ∷ 0 ∷ 0 ∷ 0 ∷ 0 ∷ 0 ∷ 0 ∷ []) key [] refl
      (omega arith) refl

next_data_payload_ends_example :
    (r : WebSocketConn × Read (List ℕ)) × (next_data_payload 4 conn (137 ∷ 0 ∷ 5 ∷ []) ≡ some r)
next_data_payload_ends_example = next_data_payload_ends 4 conn (137 ∷ 0 ∷ 5 ∷ []) (omega arith)

-- Three fragments with a ping and a pong between them: five bytes, though the limit is two.
abbrev pieces : List Piece
pieces = ping (9 ∷ []) ∷ chunk (3 ∷ 4 ∷ []) ∷ pong [] ∷ []

-- A key for each frame.
abbrev keys : ℕ → List ℕ
keys i = i ∷ 2 ∷ i ∷ 4 ∷ []

next_data_payload-fragments_example :
    next_data_payload 5 conn (
      client_frame (keys 0) (record { fin = false; opcode = 2; payload = 1 ∷ 2 ∷ [] })
      ++ stream keys 1 pieces
          (client_frame (keys 4) (record { fin = true; opcode = 0; payload = 5 ∷ [] }) ++ (6 ∷ [])))
    ≡ some (after [] (138 ∷ 1 ∷ 9 ∷ []) conn, done (1 ∷ 2 ∷ 3 ∷ 4 ∷ 5 ∷ []) (6 ∷ []))
unfolding chunks answers write_frame write_length
next_data_payload-fragments_example =
    next_data_payload-fragments keys (λ i. refl) conn (1 ∷ 2 ∷ []) (5 ∷ []) (6 ∷ []) pieces
      (omega arith) (omega arith, refl)
      ((omega arith, refl), ((omega arith, refl), ((omega arith, refl), tt))) (omega arith, refl)

-- Two messages and a pending byte, read two bytes at a time.
read_all-messages_example :
    read_all 8 2 (with_pending (5 ∷ []) conn) (messages keys 0 ((1 ∷ 2 ∷ []) ∷ (3 ∷ []) ∷ []))
    ≡ some (5 ∷ 1 ∷ 2 ∷ 3 ∷ [])
read_all-messages_example =
    read_all-messages keys (λ i. refl) 2 (omega arith) 8 0 (with_pending (5 ∷ []) conn)
      ((1 ∷ 2 ∷ []) ∷ (3 ∷ []) ∷ []) (omega arith)
      (omega arith, ((omega arith, refl), (omega arith, ((omega arith, refl), tt))))
