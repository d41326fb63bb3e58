-- ===== src/Handshake.antt =====
-- internal/gateway/gateway.go, handleHTTPConnection and handleWebSocketConnection: the answer to an
-- HTTP request and the WebSocket handshake. Reading a request is the library's: none is a malformed
-- one. Texts are lists of bytes below 128, and the names of headers are compared without case, as
-- the library's canonical names are. A write succeeds.
pub mod Upgrade
mod Examples
use game_gateway.Prelude.{
  ℕ, ◌+◌, ite, Bool, true, false, not, ◌&&◌, ◌||◌, Option, none, some, List, [], ◌∷◌, ◌++◌, map,
  Bytes-discrete, digits, codes, leb, ◌==◌, if◌then◌else◌, length,
}

abbrev pub Text : Type 0
Text = List ℕ

abbrev pub is_space : ℕ → Bool
is_space c = c == 32 || (leb 9 c && leb c 13)

abbrev pub is_empty : Text → Bool
is_empty [] = true
is_empty (c ∷ cs) = false

abbrev pub trim_left : Text → Text
trim_left [] = []
trim_left (c ∷ cs) = let rest = trim_left cs in if is_space c then rest else c ∷ cs

abbrev pub trim_right : Text → Text
trim_right [] = []
trim_right (c ∷ cs) =
    let rest = trim_right cs in if is_space c && is_empty rest then [] else c ∷ rest

abbrev pub trim_space : Text → Text
trim_space s = trim_right (trim_left s)

abbrev pub to_lower : ℕ → ℕ
to_lower c = if leb b'A' c && leb c b'Z' then c + 32 else c

abbrev pub equal : Text → Text → Bool
equal s t = ite (Bytes-discrete s t) true false

unfoldable pub equal_fold : Text → Text → Bool
equal_fold s t = equal (map to_lower s) (map to_lower t)

abbrev pub before_first : ℕ → List Text → List Text
before_first c [] = (c ∷ []) ∷ []
before_first c (t ∷ ts) = (c ∷ t) ∷ ts

-- `strings.Split` at one byte.
unfoldable pub split : ℕ → Text → List Text
split sep [] = [] ∷ []
split sep (c ∷ cs) = let rest = split sep cs in if c == sep then [] ∷ rest else before_first c rest

pub record Request : Type 0 where
  pub method : Text
  pub headers : List (Text × Text)

abbrev pub values_in : List (Text × Text) → Text → List Text
values_in [] name = []
values_in ((n, v) ∷ hs) name =
    let rest = values_in hs name in if equal_fold n name then v ∷ rest else rest

abbrev pub first_or_empty : List Text → Text
first_or_empty [] = []
first_or_empty (v ∷ vs) = v

unfoldable pub values : Request → Text → List Text
unfolding equal_fold
values req name = values_in req.headers name

unfoldable pub header : Request → Text → Text
unfolding values
header req name = first_or_empty (values req name)

unfoldable pub is_web_socket_upgrade : Request → Bool
unfolding header codes
is_web_socket_upgrade req = equal_fold (header req (codes "Upgrade")) (codes "websocket")

abbrev pub some_token : Text → List Text → Bool
some_token token [] = false
some_token token (part ∷ parts) = equal_fold (trim_space part) token || some_token token parts

abbrev pub some_value : Text → List Text → Bool
some_value token [] = false
some_value token (v ∷ vs) = some_token token (split b',' v) || some_value token vs

unfoldable pub header_contains_token : Request → Text → Text → Bool
unfolding values split equal_fold
header_contains_token req name token = some_value token (values req name)

abbrev pub version_fits : Text → Bool
version_fits version = is_empty version || equal version (codes "13")

unfoldable pub is_web_socket_request : Request → Bool
unfolding header codes header_contains_token equal_fold
is_web_socket_request req =
    equal req.method (codes "GET")
    && (equal_fold (header req (codes "Upgrade")) (codes "websocket")
        && (header_contains_token req (codes "Connection") (codes "Upgrade")
            && (not (is_empty (trim_space (header req (codes "Sec-WebSocket-Key"))))
                && version_fits (trim_space (header req (codes "Sec-WebSocket-Version"))))))

abbrev pub first_token : List Text → Text → Text
first_token [] other = other
first_token (token ∷ tokens) other =
    let rest = first_token tokens other in
    if is_empty (trim_space token) then rest else trim_space token

-- The first protocol that the client offers.
unfoldable pub select_web_socket_subprotocol : List Text → Text
unfolding split
select_web_socket_subprotocol [] = []
select_web_socket_subprotocol (v ∷ vs) =
    let rest = select_web_socket_subprotocol vs in first_token (split b',' v) rest

abbrev pub crlf : Text
crlf = 13 ∷ 10 ∷ []

-- Lines, each with its end.
abbrev pub lines : List Text → Text
lines [] = []
lines (l ∷ ls) = l ++ (crlf ++ lines ls)

abbrev pub protocol_line : Text → List Text
protocol_line protocol =
    if is_empty protocol then [] else (codes "Sec-WebSocket-Protocol: " ++ protocol) ∷ []

abbrev pub handshake_lines : Text → Text → List Text
handshake_lines accept_key protocol =
    codes "HTTP/1.1 101 Switching Protocols"
    ∷ codes "Upgrade: websocket"
    ∷ codes "Connection: Upgrade"
    ∷ (codes "Sec-WebSocket-Accept: " ++ accept_key)
    ∷ (protocol_line protocol ++ ([] ∷ []))

unfoldable pub write_web_socket_handshake : Text → Text → Text
unfolding codes
write_web_socket_handshake accept_key protocol = lines (handshake_lines accept_key protocol)

-- The texts of the two statuses that are written.
abbrev pub status_text : ℕ → Text
status_text status = if status == 426 then codes "Upgrade Required" else codes "Bad Request"

abbrev pub connection_line : Bool → List Text
connection_line true = []
connection_line false = codes "Connection: close" ∷ []

abbrev pub extra_lines : List (Text × Text) → List Text
extra_lines [] = []
extra_lines ((k, v) ∷ hs) = (k ++ (codes ": " ++ v)) ∷ extra_lines hs

abbrev pub has_connection : List (Text × Text) → Bool
has_connection [] = false
has_connection ((k, v) ∷ hs) = equal_fold k (codes "Connection") || has_connection hs

unfoldable pub write_http_response : ℕ → Text → Text → List (Text × Text) → Text
unfolding codes digits equal_fold
write_http_response status content_type body extra_headers =
    lines (
      (codes "HTTP/1.1 " ++ (digits status ++ (codes " " ++ status_text status)))
      ∷ (codes "Content-Length: " ++ digits (length body))
      ∷ (codes "Content-Type: " ++ content_type)
      ∷ (extra_lines extra_headers
          ++ (connection_line (has_connection extra_headers) ++ ([] ∷ []))))
    ++ body

-- What the client is written, and whether the connection goes on as a WebSocket.
pub data Answer : Type 0 where
  refused upgraded : Text → Answer

abbrev pub plain : Text
plain = codes "text/plain; charset=utf-8"

unfoldable pub bad_request : Text → Answer
unfolding write_http_response
bad_request body = refused (write_http_response 400 plain (body ++ 10 ∷ []) [])

abbrev pub web_socket_guid : Text
web_socket_guid = codes "258EAFA5-E914-47DA-95CA-C5AB0DC85B11"

-- `sha1` and `encode` (base64) are the library's.
module _ (sha1 encode : Text → Text) where
  unfoldable pub compute_web_socket_accept_key : Text → Option Text
  unfolding codes
  compute_web_socket_accept_key client_key =
      let key = trim_space client_key in
      if is_empty key then none else some (encode (sha1 (key ++ web_socket_guid)))

  abbrev pub with_key : Request → Option Text → Answer
  with_key req none = bad_request (codes "Invalid WebSocket key")
  with_key req (some key) = upgraded (
      write_web_socket_handshake key
        (select_web_socket_subprotocol (values req (codes "Sec-WebSocket-Protocol"))))

  unfoldable pub handle_web_socket_connection : Option Request → Answer
  unfolding is_web_socket_request compute_web_socket_accept_key bad_request
      write_web_socket_handshake select_web_socket_subprotocol
  handle_web_socket_connection none = bad_request (codes "Malformed WebSocket handshake")
  handle_web_socket_connection (some req) =
      if is_web_socket_request req
      then with_key req (compute_web_socket_accept_key (header req (codes "Sec-WebSocket-Key")))
      else bad_request (codes "Invalid WebSocket upgrade request")

  unfoldable pub handle_http_connection : Option Request → Answer
  unfolding handle_web_socket_connection is_web_socket_upgrade
  handle_http_connection none = bad_request (codes "Malformed HTTP request")
  handle_http_connection (some req) =
      if is_web_socket_upgrade req
      then handle_web_socket_connection (some req)
      else refused (
          write_http_response 426 plain
            (codes "Unsupported protocol. Gateway expects WebSocket or TCP payloads." ++ 10 ∷ [])
            ((codes "Connection", codes "close") ∷ []))
