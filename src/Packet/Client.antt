-- ===== src/Packet/Client.antt =====
-- A client's packet, written and read back (internal/protocol/packet.go).
use game_gateway.Prelude.{
  ℕ, zero, suc, ◌+◌, ◌*◌, ◌^◌, ◌<◌, ◌≡◌, refl, sym, ap, ◌∙◌, subst, ◌≢◌, ◌↔◌, inl, inr, Bool, true,
  false, ◌&&◌, List, [], ◌∷◌, ◌++◌, append_assoc, arith, ℤ, pos, negsuc, ltb, leb, ◌==◌,
  if◌then◌else◌, Bool-cases, length, take, drop,
}
use game_gateway.Prelude.Bytes.{
  put_le, get_le, message_too_large, wrapped, Read, done, failed, ◌>>=◌, read_full,
  read_full-append, end_error, read_full-short,
}
use game_gateway.Packet.{
  ClientMessageHeader, parse_client_message_header, write_client_message_header, ServerIdInfo,
  extract_server_id_info, Packet, too_large, read_body, read_full_packet,
}

-- The fields of a header are machine words.
pub record HeaderFits (h : ClientMessageHeader) : Type 0 where
  pub length_fits : h.length_field < 2 ^ 16
  pub message_fits : h.message_id < 2 ^ 16
  pub server_fits : h.server_id < 2 ^ 32

pub length-write : (h : ClientMessageHeader) → length (write_client_message_header h) ≡ 8
unfolding write_client_message_header put_le
length-write h = refl

header_fields :
    (h : ClientMessageHeader)
    → HeaderFits h
    → let buf = write_client_message_header h in
      (get_le (take 2 buf) ≡ h.length_field)
      × (get_le (take 2 (drop 2 buf)) ≡ h.message_id)
      × (get_le (take 4 (drop 4 buf)) ≡ h.server_id)
unfolding write_client_message_header put_le get_le
header_fields h f = omega arith

-- The eight bytes of a header are read back as that header, and the rest of the stream is left.
pub parse-write :
    (h : ClientMessageHeader) (rest : List ℕ)
    → HeaderFits h
    → parse_client_message_header (write_client_message_header h ++ rest) ≡ done h rest
unfolding parse_client_message_header
parse-write h rest f =
    let buf = write_client_message_header h in
    let whole =
      subst (λ n. read_full n (buf ++ rest) ≡ done buf rest) (length-write h)
        (read_full-append buf rest) in
    rw whole (ground (arith, header_fields h f))

-- A packet as a client sends it.
abbrev pub frame : ℕ → ℕ → List ℕ → List ℕ
frame message_id server_id body =
    write_client_message_header
      (record { length_field = length body; message_id = message_id; server_id = server_id })
    ++ body

read_body-frame :
    (max : ℤ) (h : ClientMessageHeader) (body rest : List ℕ)
    → h.length_field ≡ length body
    → too_large max (length body) ≡ false
    → read_body max h (body ++ rest)
      ≡ done
          (record {
            header = h;
            body = body;
            pooled = ltb 0 (length body) && leb (length body) 8192;
          })
          rest
unfolding read_body
read_body-frame max h [] rest e t = rw (e, t) refl
read_body-frame max h (x ∷ body) rest e t =
    rw (e, t) (rw (read_full-append (x ∷ body) rest) (ground arith))

-- A packet within the limit whose fields fit is read back whole, and the next packet is what is
-- left; a buffer of the pool is used exactly for the bodies of 1 to 8192 bytes.
pub read_full_packet-frame :
    (max : ℤ) (message_id server_id : ℕ) (body rest : List ℕ)
    → length body < 2 ^ 16
    → message_id < 2 ^ 16
    → server_id < 2 ^ 32
    → too_large max (length body) ≡ false
    → read_full_packet max (frame message_id server_id body ++ rest)
      ≡ done
          (record {
            header = record {
              length_field = length body;
              message_id = message_id;
              server_id = server_id;
            };
            body = body;
            pooled = ltb 0 (length body) && leb (length body) 8192;
          })
          rest
unfolding read_full_packet
read_full_packet-frame max message_id server_id body rest a b c t =
    let h : ClientMessageHeader = record {
      length_field = length body;
      message_id = message_id;
      server_id = server_id;
    } in
    rw (append_assoc (write_client_message_header h) body rest) (
      rw
        (parse-write h (body ++ rest)
          (record { length_fits = a; message_fits = b; server_fits = c }))
        (read_body-frame max h body rest refl t))

-- A limit above 0 that a length is above.
abbrev pub Over : ℤ → ℕ → Type 0
Over max n = (m : ℕ) × (max ≡ pos m) × (0 < m) × (m < n)

too_large-Over : (max : ℤ) (n : ℕ) → too_large max n ≡ true → Over max n
too_large-Over (pos m) n t = (m, refl, ground arith, ground arith)
too_large-Over (negsuc m) n t = absurd (ground arith)

Over-too_large : (max : ℤ) (n : ℕ) → Over max n → too_large max n ≡ true
Over-too_large max n (m, e, p, q) = rw e (ground arith)

abbrev is_limit_error {ℓ} : {A : Type ℓ} → Read A → Bool
is_limit_error (failed message_too_large) = true
is_limit_error (failed (wrapped message_too_large)) = true
is_limit_error _ = false

read_full-no_limit :
    (n : ℕ) (s : List ℕ) (k : List ℕ → List ℕ → Read Packet)
    → ((a rest : List ℕ) → is_limit_error (k a rest) ≡ false)
    → is_limit_error (read_full n s >>= k) ≡ false
unfolding read_full
read_full-no_limit zero s k h = h [] s
read_full-no_limit (suc n) [] k h = refl
read_full-no_limit (suc n) (b ∷ s) k h = elim (Bool-cases (leb (suc n) (length (b ∷ s)))) [
  | inl e ↦ rw e (h (take (suc n) (b ∷ s)) (drop (suc n) (b ∷ s)))
  | inr e ↦ rw e refl
]

within_limit :
    (max : ℤ) (h : ClientMessageHeader) (s : List ℕ)
    → too_large max h.length_field ≡ false
    → is_limit_error (read_body max h s) ≡ false
unfolding read_body
within_limit max h s t = elim (Bool-cases (h.length_field == 0)) [
  | inl e ↦ rw (t, e) refl
  | inr e ↦ rw (t, e) (read_full-no_limit h.length_field s _ (λ a rest. refl))
]

over_limit :
    (max : ℤ) (h : ClientMessageHeader) (s : List ℕ)
    → too_large max h.length_field ≡ true
    → read_body max h s ≡ failed (wrapped message_too_large)
unfolding read_body
over_limit max h s t = rw t refl

-- A packet with a header that fits is refused for its length exactly if there is a limit above 0 and
-- the header claims more, whatever follows the header and however much of it has come; and no read
-- ends with `ErrMessageTooLarge` itself, which is always wrapped.
pub read_full_packet-too_large :
    (max : ℤ) (h : ClientMessageHeader) (rest : List ℕ)
    → HeaderFits h
    → ((read_full_packet max (write_client_message_header h ++ rest)
          ≡ failed (wrapped message_too_large))
        ↔ Over max h.length_field)
      × (read_full_packet max (write_client_message_header h ++ rest) ≢ failed message_too_large)
unfolding read_full_packet
read_full_packet-too_large max h rest f =
    rw (parse-write h rest f) (elim (Bool-cases (too_large max h.length_field)) [
      | inl t ↦
          rw (over_limit max h rest t)
            ((λ e. too_large-Over max h.length_field t, λ o. refl), λ e. cc e)
      | inr t ↦
          let fine = within_limit max h rest t in
          (
            (
              λ e. absurd (cc (sym fine ∙ ap is_limit_error e)),
              λ o. absurd (cc (sym t ∙ Over-too_large max h.length_field o)),
            ),
            λ e. cc (sym fine ∙ ap is_limit_error e),
          )
    ])

-- A stream that ends inside the body of a packet within the limit, behind a header that fits, is an
-- error: `EOF` if no byte of the body has come, and `ErrUnexpectedEOF` if some have.
pub read_full_packet-truncated :
    (max : ℤ) (h : ClientMessageHeader) (part : List ℕ)
    → HeaderFits h
    → too_large max h.length_field ≡ false
    → length part < h.length_field
    → read_full_packet max (write_client_message_header h ++ part)
      ≡ failed (end_error (length part))
unfolding read_full_packet read_body
read_full_packet-truncated max h part f t s =
    rw (parse-write h part f) (rw t (ground (arith, read_full-short h.length_field part s)))

-- The number that four fields stand for.
abbrev pub compose : ServerIdInfo → ℕ
compose i =
    (if i.is_zip then 2 ^ 31 else 0) + (2 ^ 16 * i.world_id + (2 ^ 8 * i.server_type + i.inst_id))

-- The four fields of a server id make it up again, so that two server ids with the same fields are
-- the same.
pub extract-compose :
    (server_id : ℕ) → server_id < 2 ^ 32 → compose (extract_server_id_info server_id) ≡ server_id
unfolding extract_server_id_info
extract-compose server_id h = ground arith
