-- ===== src/Handshake/Examples.antt =====
-- Answers to HTTP requests (internal/gateway/gateway.go). The hash and base64 are taken as functions
-- that show their argument.
use game_gateway.Prelude.{
  ◌≡◌, refl, ◌↔◌, none, some, [], ◌∷◌, ℕ_discrete, Bytes-discrete, digits, codes,
}
use game_gateway.Handshake.{
  Text, equal_fold, split, Request, values, header, is_web_socket_upgrade, header_contains_token,
  is_web_socket_request, select_web_socket_subprotocol, write_web_socket_handshake,
  write_http_response, refused, upgraded, bad_request, compute_web_socket_accept_key,
  handle_web_socket_connection, handle_http_connection,
}
use game_gateway.Handshake.Upgrade.{Opening, response, handle_http_connection-upgraded}

abbrev same : Text → Text
same t = t

abbrev client : Request
client = record {
  method = codes "GET";
  headers =
      (codes "upgrade", codes "WebSocket")
      ∷ (codes "Connection", codes "keep-alive, upgrade")
      ∷ (codes "Sec-WebSocket-Key", codes " k1 ")
      ∷ (codes "Sec-WebSocket-Protocol", codes " , game, chat")
      ∷ [];
}

abbrev written : Text
written =
    codes
      "HTTP/1.1 101 Switching Protocols\r\nUpgrade: websocket\r\nConnection: Upgrade\r\nSec-WebSocket-Accept: k1258EAFA5-E914-47DA-95CA-C5AB0DC85B11\r\nSec-WebSocket-Protocol: game\r\n\r\n"

client_upgraded : handle_http_connection same same (some client) ≡ upgraded written
unfolding handle_http_connection handle_web_socket_connection is_web_socket_upgrade
    is_web_socket_request header values equal_fold split header_contains_token
    select_web_socket_subprotocol write_web_socket_handshake compute_web_socket_accept_key codes
    Bytes-discrete ℕ_discrete
client_upgraded = refl

malformed :
    handle_http_connection same same none
    ≡ refused (
        codes
          "HTTP/1.1 400 Bad Request\r\nContent-Length: 23\r\nContent-Type: text/plain; charset=utf-8\r\nConnection: close\r\n\r\nMalformed HTTP request\n")
unfolding handle_http_connection bad_request write_http_response codes digits
malformed = refl

abbrev get_page : Request
get_page = record { method = codes "GET"; headers = [] }

page_refused :
    handle_http_connection same same (some get_page)
    ≡ refused (
        codes
          "HTTP/1.1 426 Upgrade Required\r\nContent-Length: 65\r\nContent-Type: text/plain; charset=utf-8\r\nConnection: close\r\n\r\nUnsupported protocol. Gateway expects WebSocket or TCP payloads.\n")
unfolding handle_http_connection is_web_socket_upgrade header values equal_fold write_http_response
    codes digits Bytes-discrete ℕ_discrete
page_refused = refl

handle_http_connection-upgraded_example :
    (handle_http_connection same same (some client) ≡ upgraded written)
    ↔ (Opening client × (written ≡ response same same client))
handle_http_connection-upgraded_example = handle_http_connection-upgraded same same client written
