-- ===== src/Prelude/Sets.antt =====
-- Go's sets of handles, as lists of numbers with no repetition.
use game_gateway.Prelude.Tests.{◌==◌, if◌then◌else◌, Bool-cases}
use game_gateway.Prelude.Lists.{length}
use Prim.Native.Nat.{ℕ, ◌+◌}
use mathlib.Core.Path.{◌≡◌, refl}
use mathlib.Core.Logic.{inl, inr}
use mathlib.Core.Bool.{Bool, true, false}
use mathlib.Core.List.{List, [], ◌∷◌, ◌++◌}
use native.Mathlib.Omega.{arith}

abbrev pub member : ℕ → List ℕ → Bool
member h [] = false
member h (x ∷ xs) = if x == h then true else member h xs

abbrev pub delete : ℕ → List ℕ → List ℕ
delete h [] = []
delete h (x ∷ xs) = let rest = delete h xs in if x == h then rest else x ∷ rest

abbrev pub insert : ℕ → List ℕ → List ℕ
insert h xs = if member h xs then xs else h ∷ xs

abbrev pub Distinct : List ℕ → Type 0
Distinct [] = Unit {0}
Distinct (x ∷ xs) = (member x xs ≡ false) × Distinct xs

pub member-delete :
    (h j : ℕ) (xs : List ℕ) → member j (delete h xs) ≡ (if h == j then false else member j xs)
member-delete h j [] = ground arith
member-delete h j (x ∷ xs) = ground (arith, member-delete h j xs)

pub delete-Distinct : (h : ℕ) (xs : List ℕ) → Distinct xs → Distinct (delete h xs)
delete-Distinct h [] d = d
delete-Distinct h (x ∷ xs) d = ground (arith, delete-Distinct h xs d.1, member-delete h x xs, d.0)

pub delete-missing : (h : ℕ) (xs : List ℕ) → member h xs ≡ false → delete h xs ≡ xs
delete-missing h [] m = refl
delete-missing h (x ∷ xs) m = ground (arith, delete-missing h xs)

pub length-delete :
    (h : ℕ) (xs : List ℕ) → Distinct xs → member h xs ≡ true → length (delete h xs) + 1 ≡ length xs
length-delete h [] d m = cc
length-delete h (x ∷ xs) d m = elim (Bool-cases (x == h)) [
  | inl e ↦ ground (arith, e, d.0, delete-missing h xs, delete-missing x xs)
  | inr e ↦ ground (arith, e, length-delete h xs d.1)
]

pub member-append :
    (h : ℕ) (xs ys : List ℕ) → member h (xs ++ ys) ≡ (if member h xs then true else member h ys)
member-append h [] ys = refl
member-append h (x ∷ xs) ys = ground (arith, member-append h xs ys)

pub append-Distinct :
    (xs : List ℕ) (h : ℕ) → Distinct xs → member h xs ≡ false → Distinct (xs ++ h ∷ [])
append-Distinct [] h d m = (refl, tt)
append-Distinct (x ∷ xs) h d m =
    ground (arith, append-Distinct xs h d.1, member-append x xs (h ∷ []), d.0)
