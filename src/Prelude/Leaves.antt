-- ===== src/Prelude/Leaves.antt =====
-- How many bytes a successful read leaves in the stream.
use game_gateway.Prelude.Tests.{leb, if◌then◌else◌}
use game_gateway.Prelude.Lists.{length, length-drop}
use game_gateway.Prelude.Bytes.{Read, done, failed, panicked, ◌>>=◌, read_full}
use Prim.Native.Nat.{ℕ, zero, suc, ◌-◌, ◌≤◌}
use mathlib.Core.Bool.{Bool, true, false}
use mathlib.Core.List.{List, [], ◌∷◌}
use native.Mathlib.Omega.{arith}

-- A read that succeeds leaves at most `n` bytes.
abbrev pub Leaves {ℓ} : {A : Type ℓ} → ℕ → Read A → Type 0
Leaves n (done a rest) = length rest ≤ n
Leaves n (failed e) = Unit
Leaves n panicked = Unit

pub bind-Leaves {ℓ κ} :
    {A : Type ℓ} {B : Type κ} (n : ℕ) (r : Read A) (f : A → List ℕ → Read B)
    → Leaves n r
    → ((a : A) (rest : List ℕ) → length rest ≤ n → Leaves n (f a rest))
    → Leaves n (r >>= f)
bind-Leaves n (done a rest) f h g = g a rest h
bind-Leaves n (failed e) f h g = tt
bind-Leaves n panicked f h g = tt

pub if-Leaves {ℓ} :
    {A : Type ℓ} (n : ℕ) (b : Bool) (r t : Read A)
    → Leaves n r
    → Leaves n t
    → Leaves n (if b then r else t)
if-Leaves n true r t h g = h
if-Leaves n false r t h g = g

pub read_full-Leaves : (n k : ℕ) (s : List ℕ) → length s ≤ n → Leaves n (read_full k s)
unfolding read_full
read_full-Leaves n zero s h = h
read_full-Leaves n (suc k) [] h = tt
read_full-Leaves n (suc k) (b ∷ s) h =
    if-Leaves n (leb (suc k) (length (b ∷ s))) _ _ (ground (arith, length-drop k s)) tt

-- A read of `k` bytes takes them away.
pub read_full-takes : (k : ℕ) (s : List ℕ) → Leaves (length s - k) (read_full k s)
unfolding read_full
read_full-takes zero s = omega arith
read_full-takes (suc k) [] = tt
read_full-takes (suc k) (b ∷ s) =
    if-Leaves (length (b ∷ s) - suc k) (leb (suc k) (length (b ∷ s))) _ _
      (omega (arith, length-drop k s)) tt
