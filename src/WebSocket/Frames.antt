-- ===== src/WebSocket/Frames.antt =====
-- One frame of a client, read back (internal/protocol/websocket_conn.go).
use game_gateway.Prelude.{
  ℕ, zero, suc, ◌+◌, ◌-◌, ◌/◌, ◌%◌, ◌^◌, ◌≤◌, ◌<◌, ◌≡◌, refl, ap, subst, inl, inr, Bool, true,
  false, not, ◌&&◌, List, [], ◌∷◌, ◌++◌, append_assoc, arith, ℤ, pos, negsuc, is_pos, leb_ℤ, leb,
  ◌==◌, if◌then◌else◌, Bool-cases, length,
}
use game_gateway.Prelude.Bytes.{
  put_be, get_be, get_be-put_be, length-put_be, of_bits, done, panicked, read_full,
  read_full-append,
}
use game_gateway.WebSocket.Masking.{apply_mask-twice, length-apply_mask}
use game_gateway.WebSocket.{WsFrame, apply_mask, read_length, read_payload, read_masked, read_frame}

-- The seven bits of a payload's length, and the bytes of a longer one behind them.
abbrev pub length_code : ℕ → ℕ
length_code n = if leb n 125 then n else if leb n 65535 then 126 else 127

abbrev pub length_bytes : ℕ → List ℕ
length_bytes n = if leb n 125 then [] else if leb n 65535 then put_be 2 n else put_be 8 n

-- A frame as a client sends it: the final bit and the opcode, the mask bit and the length, the key,
-- and the payload masked with it.
abbrev pub client_frame : List ℕ → WsFrame → List ℕ
client_frame key f =
    (if f.fin then 128 + f.opcode else f.opcode)
    ∷ (128 + length_code (length f.payload))
    ∷ (length_bytes (length f.payload) ++ (key ++ apply_mask 0 key f.payload))

-- Whether a payload is within the limit, if there is one.
abbrev pub exceeds : ℤ → ℤ → Bool
exceeds max payload_len = is_pos max && not (leb_ℤ payload_len max)

read_full-put_be :
    (k n : ℕ) (rest : List ℕ) → read_full k (put_be k n ++ rest) ≡ done (put_be k n) rest
read_full-put_be k n rest =
    subst (λ l. read_full l (put_be k n ++ rest) ≡ done (put_be k n) rest) (length-put_be k n)
      (read_full-append (put_be k n) rest)

read_length-client :
    (n : ℕ) (rest : List ℕ)
    → n < 2 ^ 63
    → read_length (length_code n) (length_bytes n ++ rest) ≡ done (pos n) rest
unfolding read_length
read_length-client n rest h = elim (Bool-cases (leb n 125)) [
  | inl e ↦ rw e (ground arith)
  | inr e ↦ rw e (elim (Bool-cases (leb n 65535)) [
    | inl d ↦ rw d (
        rw (read_full-put_be 2 n rest)
          (ap (λ m. done (pos m) rest) (get_be-put_be 2 n (ground arith))))
    | inr d ↦
        rw d (rw (read_full-put_be 8 n rest) (rw (get_be-put_be 8 n (omega arith)) (ground arith)))
  ])
]

read_masked-client :
    (max : ℤ) (fin : Bool) (opcode : ℕ) (key payload rest : List ℕ)
    → length key ≡ 4
    → length payload < 2 ^ 63
    → exceeds max (pos (length payload)) ≡ false
    → read_masked max fin opcode
        (length_code (length payload))
        (length_bytes (length payload) ++ (key ++ (apply_mask 0 key payload ++ rest)))
      ≡ done (record { fin = fin; opcode = opcode; payload = payload }) rest
unfolding read_masked read_payload
read_masked-client max fin opcode key payload rest k b e =
    let masked = apply_mask 0 key payload in
    let key_read =
      subst (λ l. read_full l (key ++ (masked ++ rest)) ≡ done key (masked ++ rest)) k
        (read_full-append key (masked ++ rest)) in
    let payload_read =
      subst (λ l. read_full l (masked ++ rest) ≡ done masked rest) (length-apply_mask 0 key payload)
        (read_full-append masked rest) in
    rw (read_length-client (length payload) (key ++ (masked ++ rest)) b)
      (rw e (rw key_read (rw payload_read (rw (apply_mask-twice 0 key payload) refl))))

code_lt : (n : ℕ) → length_code n < 128
code_lt n = ground arith

first_byte :
    (fin : Bool) (opcode : ℕ)
    → opcode < 16
    → let h1 = if fin then 128 + opcode else opcode in
      (not (h1 / 128 % 2 == 0) ≡ fin) × (h1 % 16 ≡ opcode)
first_byte true opcode o = ground arith
first_byte false opcode o = ground arith

second_byte : (c : ℕ) → c < 128 → (((128 + c) / 128 % 2 == 0) ≡ false) × ((128 + c) % 128 ≡ c)
second_byte c h = ground arith

read_frame-parts :
    (max : ℤ) (fin : Bool) (opcode : ℕ) (key payload rest : List ℕ)
    → length key ≡ 4
    → opcode < 16
    → length payload < 2 ^ 63
    → exceeds max (pos (length payload)) ≡ false
    → read_frame max
        (client_frame key (record { fin = fin; opcode = opcode; payload = payload }) ++ rest)
      ≡ done (record { fin = fin; opcode = opcode; payload = payload }) rest
unfolding read_frame
read_frame-parts max fin opcode key payload rest k o b e =
    let bytes = length_bytes (length payload) in
    let masked = apply_mask 0 key payload in
    let (f, op) = first_byte fin opcode o in
    let (m, code) = second_byte (length_code (length payload)) (code_lt (length payload)) in
    rw (append_assoc bytes (key ++ masked) rest, append_assoc key masked rest)
      (rw m (rw (code, f, op) (read_masked-client max fin opcode key payload rest k b e)))

exceeds-negsuc : (max : ℤ) (n : ℕ) → exceeds max (negsuc n) ≡ false
exceeds-negsuc (pos zero) n = refl
exceeds-negsuc (pos (suc m)) n = refl
exceeds-negsuc (negsuc m) n = refl

-- A masked frame within the limit, with a key of four bytes, an opcode of four bits and a payload
-- shorter than 2 ^ 63, is read back with its payload unmasked, and what is behind it is left.
pub read-client_frame :
    (max : ℤ) (key rest : List ℕ) (f : WsFrame)
    → length key ≡ 4
    → f.opcode < 16
    → length f.payload < 2 ^ 63
    → exceeds max (pos (length f.payload)) ≡ false
    → read_frame max (client_frame key f ++ rest) ≡ done f rest
unfolding read_frame
read-client_frame max key rest f k o b e =
    read_frame-parts max f.fin f.opcode key f.payload rest k o b e

-- A frame whose length is given in eight bytes as a number of 2 ^ 63 or more, with its key behind
-- it, makes the reader panic, whatever the limit is.
pub read_frame-negative_length :
    (max : ℤ) (h1 : ℕ) (len key rest : List ℕ)
    → length len ≡ 8
    → 2 ^ 63 ≤ get_be len
    → length key ≡ 4
    → read_frame max (h1 ∷ 255 ∷ (len ++ (key ++ rest))) ≡ panicked
unfolding read_frame read_masked read_length read_payload
read_frame-negative_length max h1 len key rest l b k =
    let len_read =
      subst (λ n. read_full n (len ++ (key ++ rest)) ≡ done len (key ++ rest)) l
        (read_full-append len (key ++ rest)) in
    let key_read =
      subst (λ n. read_full n (key ++ rest) ≡ done key rest) k (read_full-append key rest) in
    let negative : of_bits 64 (get_be len) ≡ negsuc (2 ^ 64 - 1 - get_be len) = ground arith in
    rw len_read (rw negative (rw (exceeds-negsuc max (2 ^ 64 - 1 - get_be len)) (rw key_read refl)))
