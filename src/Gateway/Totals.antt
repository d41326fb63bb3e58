-- ===== src/Gateway/Totals.antt =====
-- Sums over the live connections of the gateway.
use game_gateway.Prelude.{
  ℕ, ◌+◌, ◌≡◌, refl, sym, none, some, List, [], ◌∷◌, arith, ℕ_discrete, find, put, remove, Unique,
}

module _ {A : Type 0} (f : A → ℕ) where
  abbrev pub total : List (ℕ × A) → ℕ
  total [] = 0
  total ((c, a) ∷ m) = f a + total m

  remove-missing :
      (c : ℕ) (m : List (ℕ × A)) → find ℕ_discrete c m ≡ none → remove ℕ_discrete c m ≡ m
  remove-missing c [] h = refl
  remove-missing c ((d, a) ∷ m) h = ground (arith, h, remove-missing c m)

  pub total-remove :
      (c : ℕ) (a : A) (m : List (ℕ × A))
      → Unique ℕ_discrete m
      → find ℕ_discrete c m ≡ some a
      → f a + total (remove ℕ_discrete c m) ≡ total m
  total-remove c a [] u h = cc
  total-remove c a ((d, b) ∷ m) u h = elim (ℕ_discrete d c) [
    | yes p ↦
        let gone : find ℕ_discrete c m ≡ none = rw (sym p) u.0 in
        ground (arith, p, h, gone, remove-missing c m gone)
    | no p ↦ ground (arith, p, h, total-remove c a m u.1)
  ]

  pub total-put :
      (c : ℕ) (a b : A) (m : List (ℕ × A))
      → find ℕ_discrete c m ≡ some a
      → f a + total (put ℕ_discrete c b m) ≡ f b + total m
  total-put c a b [] h = cc
  total-put c a b ((d, e) ∷ m) h = elim (ℕ_discrete d c) [
    | yes p ↦ ground (arith, p, h)
    | no p ↦ ground (arith, p, h, total-put c a b m)
  ]
