-- ===== src/WebSocket/Delivery.antt =====
-- What a client sends in frames is read as one stream (internal/protocol/websocket_conn.go).
use game_gateway.Prelude.{
  ℕ, zero, suc, ◌+◌, ◌<◌, ◌≡◌, refl, ap, ◌⊎◌, inl, inr, true, Option, none, some, List, [], ◌∷◌,
  ◌++◌, arith, ℤ, length, take, drop, length-append, length-drop,
}
use game_gateway.Prelude.Bytes.{eof, Read, done, failed, panicked}
use game_gateway.WebSocket.{WebSocketConn, WsFrame, read_frame, on_frame, next_data_payload}
use game_gateway.WebSocket.Reader.{with_pending, read}
use game_gateway.WebSocket.Frames.{client_frame}
use game_gateway.WebSocket.Fragments.{Carried, next-client_frame}

abbrev pub prepend : List ℕ → Option (List ℕ) → Option (List ℕ)
prepend bs none = none
prepend bs (some cs) = some (bs ++ cs)

abbrev pub collect :
    Option (WebSocketConn × Read (List ℕ))
    → (WebSocketConn → List ℕ → Option (List ℕ))
    → Option (List ℕ)
collect none next = none
collect (some (w, done bs rest)) next = prepend bs (next w rest)
collect (some (w, failed e)) next = some []
collect (some (w, panicked)) next = none

-- All that calls of `Read` with `n` bytes yield until one of them fails.
unfoldable pub read_all : ℕ → ℕ → WebSocketConn → List ℕ → Option (List ℕ)
unfolding read
read_all zero n w s = none
read_all (suc fuel) n w s = collect (read 2 n w s) (read_all fuel n)

abbrev pub message : List ℕ → WsFrame
message bs = record { fin = true; opcode = 2; payload = bs }

-- The frames of messages, the first masked with the `i`-th key.
abbrev pub messages : (ℕ → List ℕ) → ℕ → List (List ℕ) → List ℕ
messages keys i [] = []
messages keys i (m ∷ ms) = client_frame (keys i) (message m) ++ messages keys (suc i) ms

abbrev pub joined : List (List ℕ) → List ℕ
joined [] = []
joined (m ∷ ms) = m ++ joined ms

-- Messages that are not empty, each within the limit.
abbrev pub AllMessages : ℤ → List (List ℕ) → Type 0
AllMessages max [] = Unit
AllMessages max (m ∷ ms) = (0 < length m) × (Carried max m × AllMessages max ms)

module _ (keys : ℕ → List ℕ) (four : (i : ℕ) → length (keys i) ≡ 4) (n : ℕ)
    (some_room : 0 < n) where
  read-pending :
      (w : WebSocketConn) (b : ℕ) (bs s : List ℕ)
      → w.pending ≡ b ∷ bs
      → read 2 n w s ≡ some (with_pending (drop n (b ∷ bs)) w, done (take n (b ∷ bs)) s)
  unfolding read
  read-pending w b bs s e = simp e refl

  next-message :
      (i : ℕ) (w : WebSocketConn) (m rest : List ℕ) (fuel : ℕ)
      → Carried w.max_payload m
      → next_data_payload (suc fuel) w (client_frame (keys i) (message m) ++ rest)
        ≡ some (w, done m rest)
  unfolding on_frame
  next-message i w m rest fuel c =
      next-client_frame (keys i) (four i) fuel w (message m) rest (omega arith) c

  read-message :
      (i : ℕ) (w : WebSocketConn) (b : ℕ) (m rest : List ℕ)
      → w.pending ≡ []
      → Carried w.max_payload (b ∷ m)
      → read 2 n w (client_frame (keys i) (message (b ∷ m)) ++ rest)
        ≡ some (with_pending (drop n (b ∷ m)) w, done (take n (b ∷ m)) rest)
  unfolding read
  read-message i w b m rest e c = simp e (simp (next-message i w (b ∷ m) rest _ c) refl)

  read-end : (w : WebSocketConn) → w.pending ≡ [] → read 2 n w [] ≡ some (w, failed eof)
  unfolding read next_data_payload read_frame
  read-end w e = simp e refl

  list_cases : (xs : List ℕ) → (xs ≡ []) ⊎ ((b : ℕ) × (bs : List ℕ) × (xs ≡ b ∷ bs))
  list_cases [] = inl refl
  list_cases (b ∷ bs) = inr (b, bs, refl)

  take-drop : (k : ℕ) (xs ys : List ℕ) → take k xs ++ (drop k xs ++ ys) ≡ xs ++ ys
  take-drop zero xs ys = refl
  take-drop (suc k) [] ys = refl
  take-drop (suc k) (x ∷ xs) ys = ap (λ zs. x ∷ zs) (take-drop k xs ys)

  drop_lt : (b : ℕ) (bs : List ℕ) → length (drop n (b ∷ bs)) < length (b ∷ bs)
  drop_lt b bs = omega (arith, length-drop n (b ∷ bs), some_room)

  read_all-empty :
      (fuel : ℕ)
      → ((i : ℕ) (w : WebSocketConn) (ms : List (List ℕ))
          → length w.pending + length (joined ms) < fuel
          → AllMessages w.max_payload ms
          → read_all fuel n w (messages keys i ms) ≡ some (w.pending ++ joined ms))
      → (i : ℕ) (w : WebSocketConn) (ms : List (List ℕ)) → w.pending ≡ []
      → length w.pending + length (joined ms) < suc fuel
      → AllMessages w.max_payload ms
      → read_all (suc fuel) n w (messages keys i ms) ≡ some (w.pending ++ joined ms)
  unfolding read_all
  read_all-empty fuel more i w [] e h a = simp (read-end w e) (simp e refl)
  read_all-empty fuel more i w ([] ∷ ms) e h a = absurd (omega (arith, a.0))
  read_all-empty fuel more i w ((b ∷ m) ∷ ms) e h a =
      let rest =
        more (suc i) (with_pending (drop n (b ∷ m)) w) ms
          (omega (arith, drop_lt b m, length-append (b ∷ m) (joined ms))) a.1.1 in
      simp (read-message i w b m (messages keys (suc i) ms) e a.1.0)
        (simp rest (simp e (ap some (take-drop n (b ∷ m) (joined ms)))))

  -- The messages of a client, none of them empty and each within the limit, are read as one stream:
  -- whatever the size of the slices is, as long as it is not 0, the calls of `Read` yield the
  -- pending bytes and then the bytes of all messages in order, up to the end of the stream, in at
  -- most as many calls as there are bytes and one more. Every frame is masked with a key of its own.
  pub read_all-messages :
      (fuel i : ℕ) (w : WebSocketConn) (ms : List (List ℕ))
      → length w.pending + length (joined ms) < fuel
      → AllMessages w.max_payload ms
      → read_all fuel n w (messages keys i ms) ≡ some (w.pending ++ joined ms)
  unfolding read_all
  read_all-messages zero i w ms h a = absurd (omega arith)
  read_all-messages (suc fuel) i w ms h a = elim (list_cases w.pending) [
    | inr (b, bs, e) ↦
        let rest =
          read_all-messages fuel i (with_pending (drop n (b ∷ bs)) w) ms
            (omega (arith, drop_lt b bs, ap length e)) a in
        simp (read-pending w b bs (messages keys i ms) e)
          (simp rest (simp e (ap some (take-drop n (b ∷ bs) (joined ms)))))
    | inl e ↦ read_all-empty fuel (λ i w ms. read_all-messages fuel i w ms) i w ms e h a
  ]
