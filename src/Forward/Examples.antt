-- ===== src/Forward/Examples.antt =====
-- Forwarding at concrete inputs.
use game_gateway.Prelude.{
  ℕ, ◌≡◌, refl, true, Option, none, some, List, [], ◌∷◌, ◌++◌, arith, pos, negsuc, ◌==◌,
}
use game_gateway.Prelude.Bytes.{eof, unexpected_eof, done, read_full}
use game_gateway.Packet.{read_full_packet}
use game_gateway.Packet.Server.{read_server_message_header, TraceContext}
use game_gateway.Forward.{Forwarded, client_packet, to_backend, to_client}
use game_gateway.Forward.ToBackend.{
  Sent, client_stream, never, server_messages, to_backend-client_stream,
}
use game_gateway.Forward.ToClient.{
  Reply, ReplyFits, reply_stream, client_packets, to_client-reply_stream,
}
use game_gateway.Forward.Termination.{to_client_ends}
use game_gateway.Forward.Delivery.{read-client_packet}

abbrev moves : List Sent
moves =
    record { message_id = 7; server_id = 1; body = 1 ∷ 2 ∷ [] }
    ∷ record { message_id = 8; server_id = 1; body = [] }
    ∷ []

abbrev untraced : ℕ → Option TraceContext
untraced i = none

to_backend-client_stream_example :
    to_backend never never (pos 1024) (pos 77) untraced 3 0 (client_stream moves (9 ∷ []))
    ≡ some (record { written = server_messages (pos 1024) (pos 77) untraced 0 moves; counted = 2 })
unfolding read_full_packet read_full
to_backend-client_stream_example =
    to_backend-client_stream (pos 1024) (pos 77) untraced moves 0 (9 ∷ []) unexpected_eof
      (
        ((omega arith), (omega arith), (omega arith), refl),
        (((omega arith), (omega arith), (omega arith), refl), tt),
      )
      refl

to_client_ends_example : (f : Forwarded) × (to_client never (λ i. i == 1) 3 0 (9 ∷ 9 ∷ []) ≡ some f)
to_client_ends_example = to_client_ends never (λ i. i == 1) 3 0 (9 ∷ 9 ∷ []) (omega arith)

abbrev reply : Reply
reply = record {
  message_type = negsuc 0;
  server_id = 3;
  session_id = pos 77;
  op_code = 1;
  body = 5 ∷ 6 ∷ [];
}

reply-Fits : ReplyFits reply
reply-Fits = record {
  length_fits = omega arith;
  type_fits = omega arith;
  server_fits = omega arith;
  session_fits = omega arith;
}

to_client-reply_stream_example :
    to_client never never 2 0 (reply_stream (reply ∷ []) [])
    ≡ some (record { written = client_packets (reply ∷ []); counted = 2 })
unfolding read_server_message_header read_full
to_client-reply_stream_example = to_client-reply_stream (reply ∷ []) 0 [] eof (reply-Fits, tt) refl

read-client_packet_example :
    read_full_packet (pos 0) (client_packet (pos 4) (5 ∷ 6 ∷ []) ++ (1 ∷ []))
    ≡ done
        (record {
          header = record { length_field = 2; message_id = 4; server_id = 0 };
          body = 5 ∷ 6 ∷ [];
          pooled = true;
        })
        (1 ∷ [])
read-client_packet_example = read-client_packet (pos 4) (5 ∷ 6 ∷ []) (1 ∷ [])
