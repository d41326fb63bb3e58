-- ===== src/GrpcMode/Dispatch.antt =====
-- Which clients a packet of a game server reaches (internal/gateway/gateway_grpc.go).
use game_gateway.Prelude.{
  ℕ, zero, suc, ◌+◌, ◌≡◌, refl, sym, ap, ◌∙◌, inl, inr, ite, if_pos, if_neg, Bool, true, false,
  Option, none, some, List, [], ◌∷◌, arith, ℕ_discrete, find, find-put, ℤ-discrete, ℤ, pos, negsuc,
  eqb_ℤ, ◌==◌, if◌then◌else◌, Option-cases, length,
}
use game_gateway.Session.{Manager, get, remove_session}
use game_gateway.Session.Table.{Valid, get-remove}
use game_gateway.GrpcMode.{
  GamePacket, Conn, Clients, update_conn, at_conn, conn_of, closed_conn, handle_server_disconnect,
  packet_type, carries, kind_of, recipients, deliver, send_to_session, send_to_sessions,
  handle_grpc_packet,
}

abbrev pub is_handle : ℕ → Option ℕ → Bool
is_handle h none = false
is_handle h (some k) = ite (ℕ_discrete k h) true false

-- How many of the sessions point to a connection.
abbrev pub hits : ℕ → List ℤ → Manager → ℕ
hits h [] m = 0
hits h (i ∷ is) m = (if is_handle h (conn_of (get i m)) then 1 else 0) + hits h is m

abbrev pub times {ℓ} : {A : Type ℓ} → ℕ → (A → A) → A → A
times zero f a = a
times (suc n) f a = times n f (f a)

abbrev pub times_found : ℕ → (Conn → Conn) → Option Conn → Option Conn
times_found n f none = none
times_found n f (some c) = some (times n f c)

times_found_zero : (f : Conn → Conn) (o : Option Conn) → o ≡ times_found 0 f o
times_found_zero f none = refl
times_found_zero f (some c) = refl

times_found_suc :
    (n : ℕ) (f : Conn → Conn) (b : Bool) (o : Option Conn)
    → times_found n f (times_found (if b then 1 else 0) f o)
      ≡ times_found ((if b then 1 else 0) + n) f o
times_found_suc n f true none = refl
times_found_suc n f false none = refl
times_found_suc n f true (some c) =
    ap (λ m. some (times m f c)) {x = suc n} {y = 1 + n} (omega arith)
times_found_suc n f false (some c) = ap (λ m. some (times m f c)) {x = n} {y = 0 + n} (omega arith)

update_conn-find :
    (h k : ℕ) (f : Conn → Conn) (o : Option Conn) (g : Clients)
    → find ℕ_discrete k g.conns ≡ o
    → find ℕ_discrete h (update_conn k f o g).conns
      ≡ times_found (if is_handle h (some k) then 1 else 0) f (find ℕ_discrete h g.conns)
update_conn-find h k f none g e = elim (ℕ_discrete k h) [
  | yes p ↦ let there : find ℕ_discrete h g.conns ≡ none = rw (sym p) e in rw there refl
  | no p ↦
      rw (if_neg (ℕ_discrete k h) p true false) (times_found_zero f (find ℕ_discrete h g.conns))
]
update_conn-find h k f (some c) g e =
    find-put ℕ_discrete k h (f c) g.conns ∙ elim (ℕ_discrete k h) [
      | yes p ↦
          let there : find ℕ_discrete h g.conns ≡ some c = rw (sym p) e in
          rw
            (
              there,
              if_pos (ℕ_discrete k h) p true false,
              if_pos (ℕ_discrete k h) p (some (f c)) (some c),
            )
            refl
      | no p ↦
          rw
            (
              if_neg (ℕ_discrete k h) p true false,
              if_neg (ℕ_discrete k h) p (some (f c)) (find ℕ_discrete h g.conns),
            )
            (times_found_zero f (find ℕ_discrete h g.conns))
    ]

at_conn-find :
    (h : ℕ) (o : Option ℕ) (f : Conn → Conn) (g : Clients)
    → find ℕ_discrete h (at_conn o f g).conns
      ≡ times_found (if is_handle h o then 1 else 0) f (find ℕ_discrete h g.conns)
at_conn-find h none f g = times_found_zero f (find ℕ_discrete h g.conns)
at_conn-find h (some k) f g = update_conn-find h k f (find ℕ_discrete k g.conns) g refl

at_conn-sessions :
    (o : Option ℕ) (f : Conn → Conn) (g : Clients) → (at_conn o f g).sessions ≡ g.sessions
at_conn-sessions none f g = refl
at_conn-sessions (some k) f g = updated (find ℕ_discrete k g.conns)
  where
    updated : (o : Option Conn) → (update_conn k f o g).sessions ≡ g.sessions
    updated none = refl
    updated (some c) = refl

-- Whom a packet with these targets and this session id is for.
abbrev pub addressed : List ℤ → ℤ → List ℤ
addressed (t ∷ ts) id = t ∷ ts
addressed [] (pos zero) = []
addressed [] (pos (suc n)) = pos (suc n) ∷ []
addressed [] (negsuc n) = negsuc n ∷ []

recipients_of :
    (targets : List ℤ) (id : ℤ)
    → (if length targets == 0 then if eqb_ℤ id (pos 0) then [] else id ∷ [] else targets)
      ≡ addressed targets id
recipients_of (t ∷ ts) id = ground arith
recipients_of [] (pos zero) = refl
recipients_of [] (pos (suc n)) = ground arith
recipients_of [] (negsuc n) = refl

recipients-addressed : (p : GamePacket) → recipients p ≡ addressed p.target_session_ids p.session_id
recipients-addressed p = recipients_of p.target_session_ids p.session_id

module _ (writes : Conn → List ℕ → Bool) where
  send_to_sessions-effect :
      (h : ℕ) (is : List ℤ) (p : GamePacket) (g : Clients)
      → (find ℕ_discrete h (send_to_sessions writes is p g).conns
          ≡ times_found (hits h is g.sessions) (deliver writes p) (find ℕ_discrete h g.conns))
        × ((send_to_sessions writes is p g).sessions ≡ g.sessions)
  unfolding send_to_sessions send_to_session
  send_to_sessions-effect h [] p g =
      (times_found_zero (deliver writes p) (find ℕ_discrete h g.conns), refl)
  send_to_sessions-effect h (i ∷ is) p g =
      let o = conn_of (get i g.sessions) in
      let after = at_conn o (deliver writes p) g in
      let (conns, sessions) = send_to_sessions-effect h is p after in
      let same = at_conn-sessions o (deliver writes p) g in
      (
        conns
            ∙ rw (at_conn-find h o (deliver writes p) g) (
                rw same (
                  times_found_suc (hits h is g.sessions) (deliver writes p) (is_handle h o)
                    (find ℕ_discrete h g.conns))),
        sessions ∙ same,
      )

  -- A packet of a game server that is no life-cycle message is written to a client's connection once
  -- for each session among its recipients that points to the connection, and to no other connection;
  -- no session changes. The recipients are the targets, or else the packet's own session if not 0.
  pub handle_grpc_packet-carries :
      (h : ℕ) (p : GamePacket) (g : Clients)
      → kind_of (packet_type p.metadata) ≡ carries
      → (find ℕ_discrete h (handle_grpc_packet writes p g).conns
          ≡ times_found
              (hits h (addressed p.target_session_ids p.session_id) g.sessions)
              (deliver writes p)
              (find ℕ_discrete h g.conns))
        × ((handle_grpc_packet writes p g).sessions ≡ g.sessions)
  unfolding handle_grpc_packet
  handle_grpc_packet-carries h p g e =
      rw (e, sym (recipients-addressed p)) (send_to_sessions-effect h (recipients p) p g)

-- A server's message that ends a session closes the connection that the session points to, if there
-- is one, and no other, and takes exactly that session out of the table; a session that is not there
-- leaves all as it is.
pub handle_server_disconnect-effect :
    (session_id j : ℤ) (h : ℕ) (g : Clients)
    → Valid g.sessions
    → (get j (handle_server_disconnect session_id g).sessions
        ≡ ite (ℤ-discrete session_id j) none (get j g.sessions))
      × (find ℕ_discrete h (handle_server_disconnect session_id g).conns
          ≡ times_found
              (if is_handle h (conn_of (get session_id g.sessions)) then 1 else 0)
              closed_conn
              (find ℕ_discrete h g.conns))
unfolding handle_server_disconnect remove_session
handle_server_disconnect-effect session_id j h g v =
    elim (Option-cases (get session_id g.sessions)) [
      | inl e ↦ rw e (
        ground (arith, e, ap (λ k. get k g.sessions) {x = session_id} {y = j}),
        times_found_zero closed_conn (find ℕ_discrete h g.conns),
      )
      | inr (s, e) ↦
          rw e (
            get-remove g.sessions session_id j v.sixteen,
            at_conn-find h s.client_conn closed_conn g,
          )
    ]
