-- ===== src/Prelude/Decimal.antt =====
-- `fmt.Sprintf` with `%d`: the decimal text of a number, as a list of bytes, and how it is read back.
use game_gateway.Prelude.Tests.{ltb, ◌==◌, if◌then◌else◌, Bool-cases}
use game_gateway.Prelude.Lists.{All}
use game_gateway.Prelude.Int.{ℤ, pos, negsuc}
use Prim.Native.Nat.{ℕ, zero, suc, ◌+◌, ◌-◌, ◌*◌, ◌/◌, ◌%◌, ◌≤◌, ◌<◌}
use mathlib.Core.Path.{◌≡◌, refl, sym, ap, ◌∙◌}
use mathlib.Core.Logic.{inl, inr}
use mathlib.Core.List.{List, [], ◌∷◌, ◌++◌}
use native.Mathlib.Omega.{arith}

-- The digits of `n`, with fuel above `n`.
dec : ℕ → ℕ → List ℕ
dec zero n = []
dec (suc f) n =
    let front = dec f (n / 10) in if ltb n 10 then (48 + n) ∷ [] else front ++ (48 + n % 10) ∷ []

unfoldable pub digits : ℕ → List ℕ
unfolding dec
digits n = dec (suc n) n

unfoldable pub int_text : ℤ → List ℕ
unfolding digits
int_text (pos n) = digits n
int_text (negsuc n) = b'-' ∷ digits (suc n)

value : ℕ → List ℕ → ℕ
value acc [] = acc
value acc (c ∷ cs) = value (10 * acc + (c - 48)) cs

value-append : (acc : ℕ) (xs ys : List ℕ) → value acc (xs ++ ys) ≡ value (value acc xs) ys
unfolding value
value-append acc [] ys = refl
value-append acc (x ∷ xs) ys = value-append (10 * acc + (x - 48)) xs ys

value-dec : (f n : ℕ) → n < f → value 0 (dec f n) ≡ n
unfolding value dec
value-dec zero n h = elim h [ ]
value-dec (suc f) n h =
    ground (arith, value-append 0 (dec f (n / 10)) ((48 + n % 10) ∷ []), value-dec f (n / 10))

abbrev pub Digit : ℕ → Type 0
Digit c = (48 ≤ c) × (c ≤ 57)

All-append-Digit : (xs : List ℕ) (c : ℕ) → All Digit xs → Digit c → All Digit (xs ++ c ∷ [])
All-append-Digit [] c h d = (d, tt)
All-append-Digit (x ∷ xs) c h d = (h.0, All-append-Digit xs c h.1 d)

dec-Digit : (f n : ℕ) → All Digit (dec f n)
unfolding dec
dec-Digit zero n = tt
dec-Digit (suc f) n = elim (Bool-cases (ltb n 10)) [
  | inl e ↦ rw e (ground arith)
  | inr e ↦
      rw e (All-append-Digit (dec f (n / 10)) (48 + n % 10) (dec-Digit f (n / 10)) (omega arith))
]

read_int : List ℕ → ℤ
read_int [] = pos 0
read_int (c ∷ cs) = if c == b'-' then negsuc (value 0 cs - 1) else pos (value 0 (c ∷ cs))

read_int-digits : (xs : List ℕ) → All Digit xs → read_int xs ≡ pos (value 0 xs)
unfolding read_int value
read_int-digits [] h = refl
read_int-digits (x ∷ xs) h = ground (arith, h.0)

read_int-int_text : (z : ℤ) → read_int (int_text z) ≡ z
unfolding int_text
read_int-int_text (pos n) =
    read_int-digits (dec (suc n) n) (dec-Digit (suc n) n)
    ∙ ap pos (value-dec (suc n) n (omega arith))
read_int-int_text (negsuc n) =
    unfold read_int in
    ap (λ v. negsuc (v - 1)) (value-dec (suc (suc n)) (suc n) (omega arith))
    ∙ ap negsuc (omega arith)

-- Printing separates integers.
pub int_text-injective : (a b : ℤ) → int_text a ≡ int_text b → a ≡ b
int_text-injective a b e = sym (read_int-int_text a) ∙ ap read_int e ∙ read_int-int_text b

abbrev NoColon : ℕ → Type 0
NoColon c = c < 58

digits-NoColon : (xs : List ℕ) → All Digit xs → All NoColon xs
digits-NoColon [] h = tt
digits-NoColon (x ∷ xs) h = (omega (arith, h.0), digits-NoColon xs h.1)

int_text-NoColon : (z : ℤ) → All NoColon (int_text z)
unfolding int_text
int_text-NoColon (pos n) = digits-NoColon (dec (suc n) n) (dec-Digit (suc n) n)
int_text-NoColon (negsuc n) =
    (omega arith, digits-NoColon (dec (suc (suc n)) (suc n)) (dec-Digit (suc (suc n)) (suc n)))

colon_split :
    (xs xs' ys ys' : List ℕ)
    → All NoColon xs
    → All NoColon xs'
    → xs ++ b':' ∷ ys ≡ xs' ++ b':' ∷ ys'
    → (xs ≡ xs') × (ys ≡ ys')
colon_split [] [] ys ys' h h' e = (refl, cc)
colon_split [] (x ∷ xs') ys ys' h h' e = ground (arith, h'.0)
colon_split (x ∷ xs) [] ys ys' h h' e = ground (arith, h.0)
colon_split (x ∷ xs) (x' ∷ xs') ys ys' h h' e = ground (arith, colon_split xs xs' ys ys' h.1 h'.1)

-- The text of `Sprintf("%d:%d", a, b)`.
unfoldable pub pair_text : ℤ → ℤ → List ℕ
unfolding int_text
pair_text a b = int_text a ++ b':' ∷ int_text b

pub pair_text-injective : (a b c d : ℤ) → pair_text a b ≡ pair_text c d → (a ≡ c) × (b ≡ d)
unfolding pair_text
pair_text-injective a b c d e =
    let (p, q) =
      colon_split (int_text a) (int_text c) (int_text b) (int_text d) (int_text-NoColon a)
        (int_text-NoColon c) e in
    (int_text-injective a c p, int_text-injective b d q)

pair_text_example :
    pair_text (negsuc 4) (pos 1207) ≡ b'-' ∷ b'5' ∷ b':' ∷ b'1' ∷ b'2' ∷ b'0' ∷ b'7' ∷ []
unfolding pair_text
pair_text_example = refl
