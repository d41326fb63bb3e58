-- ===== src/WebSocket/Masking.antt =====
-- Masking twice with one key gives the bytes back (internal/protocol/websocket_conn.go).
use game_gateway.Prelude.{
  ℕ, zero, suc, ◌+◌, ◌*◌, ◌/◌, ◌%◌, ◌≤◌, ◌<◌, ◌≡◌, refl, ap, ◌∙◌, List, [], ◌∷◌, arith, length,
  get_or,
}
use game_gateway.WebSocket.{apply_mask}
use Prim.Native.Nat.{bit_xor, bitwise, bit_xor-bitwise, differ, digits}
use native.Mathlib.Nat.{le_refl}

module _ (z : ℕ → ℕ) (f : ℕ → ℕ → ℕ) where
  -- More digits than the number has change nothing.
  enough_digits : (n m a b : ℕ) → a ≤ n → a ≤ m → digits z f n a b ≡ digits z f m a b
  enough_digits zero zero a b p q = refl
  enough_digits zero (suc m) zero b p q = refl
  enough_digits zero (suc m) (suc a) b p q = absurd (omega arith)
  enough_digits (suc n) zero zero b p q = refl
  enough_digits (suc n) zero (suc a) b p q = absurd (omega arith)
  enough_digits (suc n) (suc m) zero b p q = refl
  enough_digits (suc n) (suc m) (suc a) b p q =
      rw (enough_digits n m (suc a / 2) (b / 2) (omega arith) (omega arith))

  lowest_digit :
      (a b : ℕ)
      → bitwise z f (suc a) b ≡ bitwise z f (suc a / 2) (b / 2) * 2 + f (suc a % 2) (b % 2)
  lowest_digit a b =
      omega (arith, enough_digits a (suc a / 2) (suc a / 2) (b / 2) (omega arith) (le_refl _))

bit_xor-digit : (a b : ℕ) → bit_xor a b ≡ bit_xor (a / 2) (b / 2) * 2 + differ (a % 2) (b % 2)
bit_xor-digit zero b = simp bit_xor-bitwise (omega arith)
bit_xor-digit (suc a) b = simp bit_xor-bitwise (lowest_digit (λ b. b) differ a b)

differ_bits : (a b : ℕ) → a < 2 → b < 2 → (differ a b < 2) × (differ (differ a b) b ≡ a)
differ_bits zero b p q = (q, differ-self b)
  where
    differ-self : (b : ℕ) → differ b b ≡ 0
    differ-self zero = refl
    differ-self (suc b) = differ-self b
differ_bits (suc zero) zero p q = (p, refl)
differ_bits (suc zero) (suc zero) p q = (omega arith, refl)
differ_bits (suc zero) (suc (suc b)) p q = absurd (omega arith)
differ_bits (suc (suc a)) b p q = absurd (omega arith)

xor-within : (n a k : ℕ) → a ≤ n → k ≤ n → bit_xor (bit_xor a k) k ≡ a
xor-within zero zero zero p q = refl
xor-within zero zero (suc k) p q = absurd (omega arith)
xor-within zero (suc a) k p q = absurd (omega arith)
xor-within (suc n) a k p q =
    let x = bit_xor a k in
    let rest = xor-within n (a / 2) (k / 2) (omega arith) (omega arith) in
    let (small, back) = differ_bits (a % 2) (k % 2) (omega arith) (omega arith) in
    let high : x / 2 ≡ bit_xor (a / 2) (k / 2) = omega (arith, bit_xor-digit a k) in
    let low : x % 2 ≡ differ (a % 2) (k % 2) = omega (arith, bit_xor-digit a k) in
    let last : bit_xor x k ≡ bit_xor (bit_xor (a / 2) (k / 2)) (k / 2) * 2 + a % 2 =
      bit_xor-digit x k
      ∙ ap (λ h. bit_xor h (k / 2) * 2 + differ (x % 2) (k % 2)) high
      ∙ ap (λ l. bit_xor (bit_xor (a / 2) (k / 2)) (k / 2) * 2 + differ l (k % 2)) low
      ∙ ap (λ d. bit_xor (bit_xor (a / 2) (k / 2)) (k / 2) * 2 + d) back in
    omega (arith, last, rest)

xor-twice : (a k : ℕ) → bit_xor (bit_xor a k) k ≡ a
xor-twice a k = xor-within (a + k) a k (omega arith) (omega arith)

pub apply_mask-twice : (i : ℕ) (key bs : List ℕ) → apply_mask i key (apply_mask i key bs) ≡ bs
unfolding apply_mask
apply_mask-twice i key [] = refl
apply_mask-twice i key (b ∷ bs) =
    rw (xor-twice b (get_or key (i % 4) 0), apply_mask-twice (suc i) key bs) refl

pub length-apply_mask : (i : ℕ) (key bs : List ℕ) → length (apply_mask i key bs) ≡ length bs
unfolding apply_mask
length-apply_mask i key [] = refl
length-apply_mask i key (b ∷ bs) = ap suc (length-apply_mask (suc i) key bs)
