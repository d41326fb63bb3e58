-- ===== src/Prelude/Bytes.antt =====
-- `encoding/binary` and `io.ReadFull` over lists of bytes, and the two's complement of Go's sized
-- integers.
use game_gateway.Prelude.Tests.{ltb, leb, if◌then◌else◌}
use game_gateway.Prelude.Lists.{length, take, drop, take-append, drop-append, length-append}
use game_gateway.Prelude.Int.{ℤ, pos, negsuc}
use Prim.Native.Nat.{ℕ, zero, suc, ◌+◌, ◌-◌, ◌*◌, ◌/◌, ◌%◌, ◌^◌, ◌<◌}
use mathlib.Core.Path.{◌≡◌, refl, ap}
use mathlib.Core.List.{List, [], ◌∷◌, ◌++◌}
use native.Mathlib.Nat.{pow-suc}
use native.Mathlib.Omega.{arith}

-- The `k` low bytes of a number, lowest first.
unfoldable pub put_le : ℕ → ℕ → List ℕ
put_le zero v = []
put_le (suc k) v = v % 256 ∷ put_le k (v / 256)

unfoldable pub get_le : List ℕ → ℕ
get_le [] = 0
get_le (b ∷ bs) = b + 256 * get_le bs

-- The `k` low bytes of a number, highest first.
unfoldable pub put_be : ℕ → ℕ → List ℕ
put_be zero v = []
put_be (suc k) v = put_be k (v / 256) ++ v % 256 ∷ []

be_from : ℕ → List ℕ → ℕ
be_from acc [] = acc
be_from acc (b ∷ bs) = be_from (256 * acc + b) bs

unfoldable pub get_be : List ℕ → ℕ
unfolding be_from
get_be bs = be_from 0 bs

pub length-put_le : (k v : ℕ) → length (put_le k v) ≡ k
unfolding put_le
length-put_le zero v = refl
length-put_le (suc k) v = ap suc (length-put_le k (v / 256))

pub get_le-put_le : (k v : ℕ) → v < 256 ^ k → get_le (put_le k v) ≡ v
unfolding put_le get_le
get_le-put_le zero v h = omega arith
get_le-put_le (suc k) v h =
    let below : v / 256 < 256 ^ k = omega (arith, h, pow-suc 256 k) in
    omega (arith, get_le-put_le k (v / 256) below)

be_from-append : (acc : ℕ) (bs cs : List ℕ) → be_from acc (bs ++ cs) ≡ be_from (be_from acc bs) cs
unfolding be_from
be_from-append acc [] cs = refl
be_from-append acc (b ∷ bs) cs = be_from-append (256 * acc + b) bs cs

pub get_be-put_be : (k v : ℕ) → v < 256 ^ k → get_be (put_be k v) ≡ v
unfolding put_be get_be be_from
get_be-put_be zero v h = omega arith
get_be-put_be (suc k) v h =
    let below : v / 256 < 256 ^ k = omega (arith, h, pow-suc 256 k) in
    omega
      (arith, be_from-append 0 (put_be k (v / 256)) (v % 256 ∷ []), get_be-put_be k (v / 256) below)

pub length-put_be : (k v : ℕ) → length (put_be k v) ≡ k
unfolding put_be
length-put_be zero v = refl
length-put_be (suc k) v =
    omega (arith, length-append (put_be k (v / 256)) (v % 256 ∷ []), length-put_be k (v / 256))

-- The bits of a signed integer of width `w`, and back.
abbrev pub to_bits : ℕ → ℤ → ℕ
to_bits w (pos n) = n % 2 ^ w
to_bits w (negsuc n) = 2 ^ w - 1 - n % 2 ^ w

abbrev pub of_bits : ℕ → ℕ → ℤ
of_bits w u = if ltb u (2 ^ (w - 1)) then pos u else negsuc (2 ^ w - 1 - u)

abbrev pub Fits : ℕ → ℤ → Type 0
Fits w (pos n) = n < 2 ^ (w - 1)
Fits w (negsuc n) = n < 2 ^ (w - 1)

pub of_bits-to_bits_32 : (z : ℤ) → Fits 32 z → of_bits 32 (to_bits 32 z) ≡ z
of_bits-to_bits_32 (pos n) h = ground arith
of_bits-to_bits_32 (negsuc n) h = ground arith

pub of_bits-to_bits_64 : (z : ℤ) → Fits 64 z → of_bits 64 (to_bits 64 z) ≡ z
of_bits-to_bits_64 (pos n) h = ground arith
of_bits-to_bits_64 (negsuc n) h = ground arith

pub to_bits-lt_32 : (z : ℤ) → to_bits 32 z < 256 ^ 4
to_bits-lt_32 (pos n) = omega arith
to_bits-lt_32 (negsuc n) = omega arith

pub to_bits-lt_64 : (z : ℤ) → to_bits 64 z < 256 ^ 8
to_bits-lt_64 (pos n) = omega arith
to_bits-lt_64 (negsuc n) = omega arith

-- A read from a stream that holds these bytes and then ends: the value and the rest, or an error,
-- or a panic of the goroutine.
pub data ReadError : Type 0 where
  eof unexpected_eof message_too_large : ReadError
  frame_not_masked frame_type : ReadError
  wrapped : ReadError → ReadError

pub data Read {ℓ} (A : Type ℓ) : Type ℓ where
  done : A → List ℕ → Read A
  failed : ReadError → Read A
  panicked : Read A

infixl 5 ◌>>=◌
abbrev pub ◌>>=◌ {ℓ κ} : {A : Type ℓ} {B : Type κ} → Read A → (A → List ℕ → Read B) → Read B
done a rest >>= f = f a rest
failed e >>= f = failed e
panicked >>= f = panicked

-- `io.ReadFull` into a buffer of `n` bytes: no byte at all is `EOF`, too few are `ErrUnexpectedEOF`.
unfoldable pub read_full : ℕ → List ℕ → Read (List ℕ)
read_full zero s = done [] s
read_full (suc n) [] = failed eof
read_full (suc n) (b ∷ s) =
    if leb (suc n) (length (b ∷ s))
    then done (take (suc n) (b ∷ s)) (drop (suc n) (b ∷ s))
    else failed unexpected_eof

pub read_full-append : (xs rest : List ℕ) → read_full (length xs) (xs ++ rest) ≡ done xs rest
unfolding read_full
read_full-append [] rest = refl
read_full-append (x ∷ xs) rest =
    ground (arith, length-append xs rest, take-append xs rest, drop-append xs rest)

-- What a read reports at the end of a stream that still has `k` bytes.
abbrev pub end_error : ℕ → ReadError
end_error zero = eof
end_error (suc k) = unexpected_eof

pub read_full-short :
    (n : ℕ) (s : List ℕ) → length s < n → read_full n s ≡ failed (end_error (length s))
unfolding read_full
read_full-short zero s h = elim h [ ]
read_full-short (suc n) [] h = refl
read_full-short (suc n) (b ∷ s) h = ground arith
