-- ===== src/Packet/TraceIds.antt =====
-- The ids of a trace, from texts to bytes of a fixed number (internal/protocol/packet.go).
use game_gateway.Prelude.{
  ℕ, ◌+◌, ◌*◌, ◌≡◌, refl, ap, inl, inr, Option, none, some, some-injective, List, [], ◌∷◌, arith,
  Option-cases, length, length-replicate,
}
use game_gateway.Packet.Server.{hex_value, hex_byte, decode_hex, id_bytes}

hex_byte-length :
    (a b : Option ℕ) (o : Option (List ℕ)) (cs bs : List ℕ)
    → ((rest : List ℕ) → o ≡ some rest → length cs ≡ 2 * length rest)
    → hex_byte a b o ≡ some bs
    → length cs + 2 ≡ 2 * length bs
hex_byte-length (some a) (some b) (some rest) cs bs h e =
    let same : (16 * a + b) ∷ rest ≡ bs = some-injective _ _ e in
    omega (arith, h rest refl, ap length same)
hex_byte-length _ _ _ cs bs h e = ground arith

length-decode_hex : (cs bs : List ℕ) → decode_hex cs ≡ some bs → length cs ≡ 2 * length bs
unfolding decode_hex
length-decode_hex [] bs e = ground arith
length-decode_hex (c ∷ []) bs e = cc
length-decode_hex (c ∷ d ∷ cs) bs e = omega (
  arith,
  hex_byte-length (hex_value c) (hex_value d) (decode_hex cs) cs bs
      (λ rest h. length-decode_hex cs rest h) e,
)

pub length-id_bytes : (n : ℕ) (text : Option (List ℕ)) → length (id_bytes n text) ≡ n
unfolding id_bytes
length-id_bytes n none = length-replicate {A = ℕ} n 0
length-id_bytes n (some text) = elim (Option-cases (decode_hex text)) [
  | inl e ↦ rw e (ground (arith, length-replicate {A = ℕ} n 0))
  | inr (bs, e) ↦ rw e (ground (arith, length-replicate {A = ℕ} n 0, length-decode_hex text bs e))
]
