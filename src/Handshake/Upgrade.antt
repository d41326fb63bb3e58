-- ===== src/Handshake/Upgrade.antt =====
-- Which requests become WebSockets, and what they are answered (internal/gateway/gateway.go).
use game_gateway.Prelude.{
  ◌≡◌, refl, sym, ap, ◌∙◌, ◌≢◌, ◌↔◌, ◌⊎◌, inl, inr, ite, if_pos, Bool, true, false, not, ◌||◌, some,
  List, [], ◌∷◌, ◌++◌, arith, Bytes-discrete, codes, Bool-cases,
}
use game_gateway.Handshake.{
  Text, is_empty, trim_space, equal, equal_fold, split, Request, values, header,
  is_web_socket_upgrade, some_token, some_value, header_contains_token, version_fits,
  is_web_socket_request, select_web_socket_subprotocol, write_web_socket_handshake, upgraded,
  bad_request, web_socket_guid, compute_web_socket_accept_key, with_key,
  handle_web_socket_connection, handle_http_connection,
}

-- One of the parts is the token, but for case and space around it.
pub data HasPart (token : Text) : List Text → Type 0 where
  first_part :
      {part : Text} {parts : List Text}
      → equal_fold (trim_space part) token ≡ true
      → HasPart token (part ∷ parts)
  later_part :
      {part : Text} {parts : List Text} → HasPart token parts → HasPart token (part ∷ parts)

-- One of the values has the token between its commas.
pub data HasToken (token : Text) : List Text → Type 0 where
  first_value : {v : Text} {vs : List Text} → HasPart token (split b',' v) → HasToken token (v ∷ vs)
  later_value : {v : Text} {vs : List Text} → HasToken token vs → HasToken token (v ∷ vs)

pub record Opening (req : Request) : Type 0 where
  pub gets : req.method ≡ codes "GET"
  pub upgrades : equal_fold (header req (codes "Upgrade")) (codes "websocket") ≡ true
  pub connects : HasToken (codes "Upgrade") (values req (codes "Connection"))
  pub key : trim_space (header req (codes "Sec-WebSocket-Key")) ≢ []
  pub version :
      (trim_space (header req (codes "Sec-WebSocket-Version")) ≡ [])
      ⊎ (trim_space (header req (codes "Sec-WebSocket-Version")) ≡ codes "13")

ite_sound : {P : Type 0} (d : Dec P) → ite d true false ≡ true → P
ite_sound (yes p) h = p
ite_sound (no k) h = cc h

equal_sound : (s t : Text) → equal s t ≡ true → s ≡ t
equal_sound s t = ite_sound (Bytes-discrete s t)

equal_complete : (s t : Text) → s ≡ t → equal s t ≡ true
equal_complete s t p = if_pos (Bytes-discrete s t) p true false

or-true : (a b : Bool) → b ≡ true → (a || b) ≡ true
or-true a b h = ground arith

some_token-HasPart :
    (token : Text) (parts : List Text) → some_token token parts ≡ true → HasPart token parts
some_token-HasPart token [] h = ground arith
some_token-HasPart token (p ∷ parts) h = elim (Bool-cases (equal_fold (trim_space p) token)) [
  | inl e ↦ first_part e
  | inr e ↦ later_part (some_token-HasPart token parts (ground arith))
]

HasPart-some_token :
    (token : Text) (parts : List Text) → HasPart token parts → some_token token parts ≡ true
HasPart-some_token token [] q = elim q [ ]
HasPart-some_token token (p ∷ parts) (first_part e) = rw e refl
HasPart-some_token token (p ∷ parts) (later_part q) =
    or-true (equal_fold (trim_space p) token) (some_token token parts)
      (HasPart-some_token token parts q)

some_value-HasToken :
    (token : Text) (vs : List Text) → some_value token vs ≡ true → HasToken token vs
some_value-HasToken token [] h = ground arith
some_value-HasToken token (v ∷ vs) h = elim (Bool-cases (some_token token (split b',' v))) [
  | inl e ↦ first_value (some_token-HasPart token (split b',' v) e)
  | inr e ↦ later_value (some_value-HasToken token vs (ground arith))
]

HasToken-some_value :
    (token : Text) (vs : List Text) → HasToken token vs → some_value token vs ≡ true
HasToken-some_value token [] q = elim q [ ]
HasToken-some_value token (v ∷ vs) (first_value p) =
    rw (HasPart-some_token token (split b',' v) p) refl
HasToken-some_value token (v ∷ vs) (later_value q) =
    or-true (some_token token (split b',' v)) (some_value token vs) (HasToken-some_value token vs q)

nonempty : (t : Text) → not (is_empty t) ≡ true → t ≢ []
nonempty [] h = λ _. cc h
nonempty (c ∷ cs) h = λ e. cc e

not-is_empty : (t : Text) → t ≢ [] → is_empty t ≡ false
not-is_empty [] h = elim (h refl) [ ]
not-is_empty (c ∷ cs) h = refl

version_fits_sound : (v : Text) → version_fits v ≡ true → (v ≡ []) ⊎ (v ≡ codes "13")
version_fits_sound [] h = inl refl
version_fits_sound (c ∷ cs) h = inr (equal_sound (c ∷ cs) (codes "13") h)

version_fits_complete : (v : Text) → (v ≡ []) ⊎ (v ≡ codes "13") → version_fits v ≡ true
version_fits_complete [] h = refl
version_fits_complete (c ∷ cs) (inl e) = cc e
version_fits_complete (c ∷ cs) (inr e) = equal_complete (c ∷ cs) (codes "13") e

is_web_socket_request-Opening : (req : Request) → (is_web_socket_request req ≡ true) ↔ Opening req
unfolding is_web_socket_request header_contains_token
is_web_socket_request-Opening req = (
  λ h. record {
    gets = equal_sound req.method (codes "GET") (ground arith);
    upgrades = ground arith;
    connects =
        some_value-HasToken (codes "Upgrade") (values req (codes "Connection")) (ground arith);
    key = nonempty (trim_space (header req (codes "Sec-WebSocket-Key"))) (ground arith);
    version =
        version_fits_sound (trim_space (header req (codes "Sec-WebSocket-Version"))) (ground arith);
  },
  λ o.
      rw
        (
          equal_complete req.method (codes "GET") o.gets,
          o.upgrades,
          HasToken-some_value (codes "Upgrade") (values req (codes "Connection")) o.connects,
          not-is_empty (trim_space (header req (codes "Sec-WebSocket-Key"))) o.key,
          version_fits_complete (trim_space (header req (codes "Sec-WebSocket-Version"))) o.version,
        )
        refl,
)

compute_web_socket_accept_key-nonempty :
    (sha1 encode : Text → Text) (client_key : Text)
    → trim_space client_key ≢ []
    → compute_web_socket_accept_key sha1 encode client_key
      ≡ some (encode (sha1 (trim_space client_key ++ web_socket_guid)))
unfolding compute_web_socket_accept_key
compute_web_socket_accept_key-nonempty sha1 encode client_key h =
    rw (not-is_empty (trim_space client_key) h) refl

-- The handshake that answers a request.
abbrev pub response : (Text → Text) → (Text → Text) → Request → Text
response sha1 encode req =
    write_web_socket_handshake
      (encode (sha1 (trim_space (header req (codes "Sec-WebSocket-Key")) ++ web_socket_guid)))
      (select_web_socket_subprotocol (values req (codes "Sec-WebSocket-Protocol")))

upgraded_injective : {s t : Text} → upgraded s ≡ upgraded t → s ≡ t
upgraded_injective e = cc e

module _ (sha1 encode : Text → Text) (req : Request) where
  upgrade_handled :
      is_web_socket_upgrade req ≡ true
      → handle_http_connection sha1 encode (some req)
        ≡ handle_web_socket_connection sha1 encode (some req)
  unfolding handle_http_connection
  upgrade_handled e = rw e refl

  request_handled :
      is_web_socket_request req ≡ true
      → handle_web_socket_connection sha1 encode (some req)
        ≡ with_key sha1 encode req
            (compute_web_socket_accept_key sha1 encode (header req (codes "Sec-WebSocket-Key")))
  unfolding handle_web_socket_connection
  request_handled e = rw e refl

  other_request_handled :
      is_web_socket_request req ≡ false
      → handle_web_socket_connection sha1 encode (some req)
        ≡ bad_request (codes "Invalid WebSocket upgrade request")
  unfolding handle_web_socket_connection
  other_request_handled e = rw e refl

  Opening-upgrade : Opening req → is_web_socket_upgrade req ≡ true
  unfolding is_web_socket_upgrade
  Opening-upgrade o = o.upgrades

  Opening-upgraded :
      Opening req
      → handle_http_connection sha1 encode (some req) ≡ upgraded (response sha1 encode req)
  Opening-upgraded o =
      upgrade_handled (Opening-upgrade o)
      ∙ request_handled ((is_web_socket_request-Opening req).1 o)
      ∙ ap (with_key sha1 encode req) (
          compute_web_socket_accept_key-nonempty sha1 encode
            (header req (codes "Sec-WebSocket-Key")) o.key)

  bad_request-refused : (body text : Text) → bad_request body ≢ upgraded text
  unfolding bad_request
  bad_request-refused body text = λ e. cc e

  no_upgrade_refused :
      (text : Text)
      → is_web_socket_upgrade req ≡ false
      → handle_http_connection sha1 encode (some req) ≢ upgraded text
  unfolding handle_http_connection
  no_upgrade_refused text e = rw e (λ p. cc p)

  other_request_refused :
      (text : Text)
      → is_web_socket_request req ≡ false
      → handle_http_connection sha1 encode (some req) ≢ upgraded text
  other_request_refused text h = elim (Bool-cases (is_web_socket_upgrade req)) [
    | inl e ↦ λ p.
        bad_request-refused (codes "Invalid WebSocket upgrade request") text
          (sym (upgrade_handled e ∙ other_request_handled h) ∙ p)
    | inr e ↦ no_upgrade_refused text e
  ]

  upgraded-Opening :
      (text : Text) → handle_http_connection sha1 encode (some req) ≡ upgraded text → Opening req
  upgraded-Opening text p = elim (Bool-cases (is_web_socket_request req)) [
    | inl e ↦ (is_web_socket_request-Opening req).0 e
    | inr e ↦ elim (other_request_refused text e p) [ ]
  ]

  -- A request is answered by a text and becomes a WebSocket exactly if it is a GET that asks for the
  -- upgrade to "websocket", has the token "Upgrade" between the commas of some Connection header,
  -- has a key that is not blank and, if it gives a version, the version 13, all but the method and
  -- the version without regard to case; and the text is then the handshake with the key's hash and
  -- the protocol that is selected from the request's.
  pub handle_http_connection-upgraded :
      (text : Text)
      → (handle_http_connection sha1 encode (some req) ≡ upgraded text)
        ↔ (Opening req × (text ≡ response sha1 encode req))
  handle_http_connection-upgraded text = (
    λ p. let o = upgraded-Opening text p in (o, upgraded_injective (sym p ∙ Opening-upgraded o)),
    λ q. Opening-upgraded q.0 ∙ ap upgraded (sym q.1),
  )
