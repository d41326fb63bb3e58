-- ===== src/Prelude/Atoi.antt =====
-- `strconv.Atoi` over the characters of a text, and `%d` as a text.
use game_gateway.Prelude.Tests.{ltb, leb, ◌==◌, if◌then◌else◌}
use game_gateway.Prelude.Int.{ℤ, pos, negsuc}
use Prim.Native.Nat.{ℕ, zero, suc, ◌+◌, ◌-◌, ◌*◌, ◌/◌, ◌%◌, ◌^◌}
use Prim.Native.Char.{code}
use Prim.Native.String.{String, ◌++◌}
use mathlib.Core.Path.{◌≡◌, refl}
use mathlib.Core.Bool.{Bool, ◌&&◌}
use mathlib.Core.Option.{Option, none, some}
use mathlib.Core.List.{List, [], ◌∷◌}

-- One text behind another.
abbrev pub text_append : String → String → String
text_append s t = s ++ t

-- The characters of a text, by their numbers.
unfoldable pub codes : String → List ℕ
codes String.[] = []
codes (String.◌∷◌ c s) = code c ∷ codes s

abbrev is_digit : ℕ → Bool
is_digit c = leb b'0' c && leb c b'9'

scan : ℕ → List ℕ → Option ℕ
scan acc [] = some acc
scan acc (c ∷ cs) = if is_digit c then scan (10 * acc + (c - 48)) cs else none

abbrev unsigned : List ℕ → Option ℕ
unsigned [] = none
unsigned (c ∷ cs) = scan 0 (c ∷ cs)

abbrev positive : Option ℕ → Option ℤ
positive none = none
positive (some n) = if ltb n (2 ^ 63) then some (pos n) else none

abbrev negative : Option ℕ → Option ℤ
negative none = none
negative (some zero) = some (pos 0)
negative (some (suc n)) = if ltb n (2 ^ 63) then some (negsuc n) else none

-- A sign or none, then one digit or more, in the range of an int64.
unfoldable pub atoi : List ℕ → Option ℤ
unfolding scan
atoi [] = none
atoi (c ∷ cs) =
    if c == b'-'
    then negative (unsigned cs)
    else if c == b'+'
    then positive (unsigned cs)
    else positive (unsigned (c ∷ cs))

-- `%d` as a text.
abbrev digit_text : ℕ → String
digit_text n =
    if n == 0
    then "0"
    else if n == 1
    then "1"
    else if n == 2
    then "2"
    else if n == 3
    then "3"
    else if n == 4
    then "4"
    else if n == 5
    then "5"
    else if n == 6
    then "6"
    else if n == 7
    then "7"
    else if n == 8
    then "8"
    else "9"

digits_text : ℕ → ℕ → String
digits_text zero n = ""
digits_text (suc f) n =
    let front = digits_text f (n / 10) in
    if ltb n 10 then digit_text n else front ++ digit_text (n % 10)

unfoldable pub int_string : ℤ → String
unfolding digits_text
int_string (pos n) = digits_text (suc n) n
int_string (negsuc n) = "-" ++ digits_text (suc (suc n)) (suc n)

atoi_reads : atoi (codes "-2003") ≡ some (negsuc 2002)
unfolding atoi codes
atoi_reads = refl

atoi_refuses : atoi (codes "9223372036854775808") ≡ none
unfolding atoi codes
atoi_refuses = refl

prints : int_string (negsuc 2002) ≡ "-2003"
unfolding int_string
prints = refl
