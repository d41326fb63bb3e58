-- ===== src/Forward/ToBackend.antt =====
-- A client's packets on their way to the backend (internal/gateway/gateway.go, forwardConnection).
use game_gateway.Prelude.{
  ℕ, suc, ◌+◌, ◌^◌, ◌<◌, ◌≡◌, refl, Bool, false, Option, some, List, [], ◌∷◌, ◌++◌, ℤ, pos, length,
  All,
}
use game_gateway.Prelude.Bytes.{ReadError, failed}
use game_gateway.Packet.{too_large, read_full_packet}
use game_gateway.Packet.Client.{frame, read_full_packet-frame}
use game_gateway.Packet.Server.{TraceContext, write_server_message}
use game_gateway.Forward.{to_backend}

-- A packet that a client sends.
pub record Sent : Type 0 where
  pub message_id : ℕ
  pub server_id : ℕ
  pub body : List ℕ

abbrev pub Sendable : ℤ → Sent → Type 0
Sendable max p =
    (length p.body < 2 ^ 16)
    × (p.message_id < 2 ^ 16)
    × (p.server_id < 2 ^ 32)
    × (too_large max (length p.body) ≡ false)

-- The packets one behind another, with what comes after them.
abbrev pub client_stream : List Sent → List ℕ → List ℕ
client_stream [] rest = rest
client_stream (p ∷ ps) rest = frame p.message_id p.server_id p.body ++ client_stream ps rest

abbrev pub total : List Sent → ℕ
total [] = 0
total (p ∷ ps) = length p.body + total ps

abbrev pub never : ℕ → Bool
never i = false

module _ (max session_id : ℤ) (trace : ℕ → Option TraceContext) where
  -- The messages to the backend, the first of them in round `i`.
  abbrev pub server_messages : ℕ → List Sent → List ℕ
  server_messages i [] = []
  server_messages i (p ∷ ps) =
      write_server_message (pos p.message_id) session_id p.body (trace i)
      ++ server_messages (suc i) ps

  -- While nothing stops the loop, neither the end of its context nor a deadline or a write that fails:
  -- the packets of a client, each within the limit and with fields that fit, are sent to the backend
  -- as one message each, in order, with the client's session id and each with the trace of its
  -- round; the bytes counted are those of the bodies, and the loop ends where the client's stream
  -- ends.
  pub to_backend-client_stream :
      (ps : List Sent) (i : ℕ) (rest : List ℕ) (e : ReadError)
      → All (Sendable max) ps
      → read_full_packet max rest ≡ failed e
      → to_backend never never max session_id trace (suc (length ps)) i (client_stream ps rest)
        ≡ some (record { written = server_messages i ps; counted = total ps })
  unfolding to_backend
  to_backend-client_stream [] i rest e a h = rw h refl
  to_backend-client_stream (p ∷ ps) i rest e ((l, m, s, t), a) h =
      rw
        (read_full_packet-frame max p.message_id p.server_id p.body (client_stream ps rest) l m s t)
        (rw (to_backend-client_stream ps (suc i) rest e a h) refl)
