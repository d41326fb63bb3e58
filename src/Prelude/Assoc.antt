-- ===== src/Prelude/Assoc.antt =====
-- Go's maps, as association lists over keys with decidable equality. A write replaces the entry
-- of its key in place, a delete removes it, and a key that is missing reads as `none`.
use Prim.Native.Nat.{ℕ}
use native.Mathlib.Decide.{ℕ_discrete}
use mathlib.Core.Path.{◌≡◌, refl}
use mathlib.Core.Logic.{ite, if_pos, if_neg}
use mathlib.Core.List.{List, [], ◌∷◌}
use mathlib.Core.Option.{Option, none, some}
use native.Mathlib.Omega.{arith}

module _ {ℓ} {K V : Type ℓ} (eq : Discrete K) where
  abbrev pub find : K → List (K × V) → Option V
  find k [] = none
  find k ((j, v) ∷ m) = ite (eq j k) (some v) (find k m)

  abbrev pub put : K → V → List (K × V) → List (K × V)
  put k v [] = (k, v) ∷ []
  put k v ((j, w) ∷ m) = ite (eq j k) ((k, v) ∷ m) ((j, w) ∷ put k v m)

  abbrev pub remove : K → List (K × V) → List (K × V)
  remove k [] = []
  remove k ((j, w) ∷ m) = ite (eq j k) (remove k m) ((j, w) ∷ remove k m)

  pub find-put :
      (k j : K) (v : V) (m : List (K × V)) → find j (put k v m) ≡ ite (eq k j) (some v) (find j m)
  find-put k j v [] = refl
  find-put k j v ((i, w) ∷ m) = ground (arith, find-put k j v m)

  pub find-remove :
      (k j : K) (m : List (K × V)) → find j (remove k m) ≡ ite (eq k j) none (find j m)
  find-remove k j [] = ground arith
  find-remove k j ((i, w) ∷ m) = ground (arith, find-remove k j m)

  -- No key has two entries.
  abbrev pub Unique : List (K × V) → Type ℓ
  Unique [] = Unit
  Unique ((k, v) ∷ m) = (find k m ≡ none) × Unique m

  pub put-Unique : (k : K) (v : V) (m : List (K × V)) → Unique m → Unique (put k v m)
  put-Unique k v [] u = (refl, tt)
  put-Unique k v ((j, w) ∷ m) u = elim (eq j k) [
    | yes e ↦ rw (if_pos (eq j k) e) (ground (arith, e))
    | no h ↦ rw (if_neg (eq j k) h) (ground (arith, find-put k j v m, put-Unique k v m u.1))
  ]

  pub remove-Unique : (k : K) (m : List (K × V)) → Unique m → Unique (remove k m)
  remove-Unique k [] u = u
  remove-Unique k ((j, w) ∷ m) u = elim (eq j k) [
    | yes e ↦ rw (if_pos (eq j k) e) (remove-Unique k m u.1)
    | no h ↦ rw (if_neg (eq j k) h) (ground (arith, find-remove k j m, remove-Unique k m u.1))
  ]

-- Byte texts, compared as keys.
unfoldable pub Bytes-discrete : Discrete (List ℕ)
Bytes-discrete [] [] = yes refl
Bytes-discrete [] (y ∷ ys) = no (λ e. cc e)
Bytes-discrete (x ∷ xs) [] = no (λ e. cc e)
Bytes-discrete (x ∷ xs) (y ∷ ys) = elim (ℕ_discrete x y) [
  | yes p ↦ elim (Bytes-discrete xs ys) [ yes q ↦ yes (cc (p, q)) | no h ↦ no (λ e. h (cc e)) ]
  | no h ↦ no (λ e. h (cc e))
]
