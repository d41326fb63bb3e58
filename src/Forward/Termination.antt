-- ===== src/Forward/Termination.antt =====
-- The forwarding loops end with their streams (internal/gateway/gateway.go, forwardConnection).
use game_gateway.Prelude.{
  ℕ, zero, suc, ◌+◌, ◌-◌, ◌≤◌, ◌<◌, ◌≡◌, refl, inl, inr, Bool, true, false, Option, none, some,
  List, [], ◌∷◌, ◌++◌, arith, ℤ, pos, negsuc, ltb, ◌==◌, if◌then◌else◌, Bool-cases, length,
}
use game_gateway.Prelude.Leaves.{Leaves, bind-Leaves, if-Leaves, read_full-Leaves, read_full-takes}
use game_gateway.Prelude.Bytes.{Read, done, failed, panicked, read_full}
use game_gateway.Packet.{
  ClientMessageHeader, parse_client_message_header, Packet, too_large, read_body, read_full_packet,
}
use game_gateway.Packet.Server.{
  ServerMessageHeader, read_server_message_header, GateMsgHeader, read_gate_msg_header,
  TraceContext,
}
use game_gateway.Forward.{
  Forwarded, with_round, read_message_data, send_packet, to_backend, send_data, after_gate_header,
  after_server_header, to_client,
}

read_body-Leaves :
    (n : ℕ) (max : ℤ) (h : ClientMessageHeader) (s : List ℕ)
    → length s ≤ n
    → Leaves n (read_body max h s)
unfolding read_body
read_body-Leaves n max h s l = if-Leaves n (too_large max h.length_field) _ _ tt (
    if-Leaves n (h.length_field == 0) _ _ l (
      bind-Leaves n (read_full h.length_field s) _ (read_full-Leaves n h.length_field s l)
        (λ a rest r. r)))

pub read_full_packet-Leaves :
    (max : ℤ) (s : List ℕ) → Leaves (length s - 8) (read_full_packet max s)
unfolding read_full_packet parse_client_message_header
read_full_packet-Leaves max s =
    bind-Leaves (length s - 8) (parse_client_message_header s) (read_body max)
      (bind-Leaves (length s - 8) (read_full 8 s) _ (read_full-takes 8 s) (λ a rest r. r))
      (λ h rest l. read_body-Leaves (length s - 8) max h rest l)

abbrev Ended : Option Forwarded → Type 0
Ended o = (f : Forwarded) × (o ≡ some f)

with_round-Ended :
    (bytes : List ℕ) (n : ℕ) (o : Option Forwarded) → Ended o → Ended (with_round bytes n o)
with_round-Ended bytes n none h = cc (h.1)
with_round-Ended bytes n (some f) h =
    (record { written = bytes ++ f.written; counted = n + f.counted }, refl)

if-Ended : (b : Bool) (o p : Option Forwarded) → Ended o → Ended p → Ended (if b then o else p)
if-Ended true o p h g = h
if-Ended false o p h g = g

module _ (stops_before stops_writing : ℕ → Bool) where
  module _ (max session_id : ℤ) (trace : ℕ → Option TraceContext) where
    send_packet-Ended :
        (i n : ℕ) (r : Read Packet) (next : List ℕ → Option Forwarded)
        → Leaves n r
        → ((s : List ℕ) → length s ≤ n → Ended (next s))
        → Ended (send_packet stops_before stops_writing max session_id trace i r next)
    send_packet-Ended i n (done p rest) next l h =
        if-Ended (stops_writing i) _ _ (_, refl) (with_round-Ended _ _ (next rest) (h rest l))
    send_packet-Ended i n (failed e) next l h = (_, refl)
    send_packet-Ended i n panicked next l h = (_, refl)

    -- The loop from the client to the backend ends, whatever the bytes are and whatever stops it,
    -- when it is given more rounds than the stream has bytes.
    pub to_backend_ends :
        (fuel i : ℕ) (s : List ℕ)
        → length s < fuel
        → (f : Forwarded) × (to_backend stops_before stops_writing max session_id trace fuel i s
            ≡ some f)
    unfolding to_backend read_full_packet parse_client_message_header read_full
    to_backend_ends zero i s h = absurd (omega arith)
    to_backend_ends (suc fuel) i [] h = if-Ended (stops_before i) _ _ (_, refl) (_, refl)
    to_backend_ends (suc fuel) i (b ∷ s) h =
        if-Ended (stops_before i) _ _ (_, refl)
          (send_packet-Ended i (length (b ∷ s) - 8) (read_full_packet max (b ∷ s))
            (to_backend stops_before stops_writing max session_id trace fuel (suc i))
            (read_full_packet-Leaves max (b ∷ s))
            (λ t l. to_backend_ends fuel (suc i) t (omega arith)))

  send_data-Ended :
      (i n : ℕ) (type_field z : ℤ) (s : List ℕ) (next : List ℕ → Option Forwarded)
      → length s ≤ n
      → ((t : List ℕ) → length t ≤ n → Ended (next t))
      → Ended (send_data stops_before stops_writing i type_field (read_message_data z s) next)
  unfolding read_message_data
  send_data-Ended i n type_field (negsuc k) s next l h = (_, refl)
  send_data-Ended i n type_field (pos k) s next l h = elim (Bool-cases (ltb k 9)) [
    | inl e ↦ rw e (_, refl)
    | inr e ↦ rw e (sent (read_full (k - 9) s) (read_full-Leaves n (k - 9) s l))
  ]
    where
      sent :
          (r : Read (List ℕ))
          → Leaves n r
          → Ended (send_data stops_before stops_writing i type_field (some r) next)
      sent (done body rest) m =
          if-Ended (stops_writing i) _ _ (_, refl) (with_round-Ended _ _ (next rest) (h rest m))
      sent (failed e) m = (_, refl)
      sent panicked m = (_, refl)

  after_gate_header-Ended :
      (i n : ℕ) (h : ServerMessageHeader) (r : Read GateMsgHeader)
      (next : List ℕ → Option Forwarded)
      → Leaves n r
      → ((t : List ℕ) → length t ≤ n → Ended (next t))
      → Ended (after_gate_header stops_before stops_writing i h r next)
  after_gate_header-Ended i n h (done g rest) next l k =
      send_data-Ended i n h.type_field h.length_field rest next l k
  after_gate_header-Ended i n h (failed e) next l k = (_, refl)
  after_gate_header-Ended i n h panicked next l k = (_, refl)

  after_server_header-Ended :
      (i n : ℕ) (r : Read ServerMessageHeader) (next : List ℕ → Option Forwarded)
      → Leaves n r
      → ((t : List ℕ) → length t ≤ n → Ended (next t))
      → Ended (after_server_header stops_before stops_writing i r next)
  unfolding read_gate_msg_header
  after_server_header-Ended i n (done h rest) next l k =
      after_gate_header-Ended i n h (read_gate_msg_header rest) next (gate rest l) k
    where
      gate : (s : List ℕ) → length s ≤ n → Leaves n (read_gate_msg_header s)
      gate s m = bind-Leaves n (read_full 9 s) _ (read_full-Leaves n 9 s m) (λ a t r. r)
  after_server_header-Ended i n (failed e) next l k = (_, refl)
  after_server_header-Ended i n panicked next l k = (_, refl)

  -- The loop from the backend to the client ends, whatever the bytes are and whatever stops it, when
  -- it is given more rounds than the stream has bytes.
  pub to_client_ends :
      (fuel i : ℕ) (s : List ℕ)
      → length s < fuel
      → (f : Forwarded) × (to_client stops_before stops_writing fuel i s ≡ some f)
  unfolding to_client read_server_message_header read_full
  to_client_ends zero i s h = absurd (omega arith)
  to_client_ends (suc fuel) i [] h = if-Ended (stops_before i) _ _ (_, refl) (_, refl)
  to_client_ends (suc fuel) i (b ∷ s) h =
      if-Ended (stops_before i) _ _ (_, refl)
        (after_server_header-Ended i (length (b ∷ s) - 20) (read_server_message_header (b ∷ s))
          (to_client stops_before stops_writing fuel (suc i))
          (bind-Leaves (length (b ∷ s) - 20) (read_full 20 (b ∷ s)) _ (read_full-takes 20 (b ∷ s))
            (λ a t r. r))
          (λ t l. to_client_ends fuel (suc i) t (omega arith)))
