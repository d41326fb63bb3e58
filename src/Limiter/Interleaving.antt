-- ===== src/Limiter/Interleaving.antt =====
-- The limit holds however goroutines interleave (internal/ratelimit/limiter.go).
use game_gateway.Prelude.{
  ℕ, zero, suc, ◌+◌, ◌≤◌, ◌≡◌, refl, subst, inl, inr, Bool, true, false, some, List, [], ◌∷◌, arith,
  pos, leb_ℤ, eqb_ℤ-refl, Option-cases, get_elem?, set, replicate, All, All-set,
}
use game_gateway.Limiter.{
  Limiter, new_limiter, allow, Phase, outside, refused, holding, loaded, act, System, turn,
  run_schedule,
}

abbrev holds : Phase → ℕ
holds holding = 1
holds _ = 0

-- How many goroutines have been let in and have not released.
abbrev pub holders : List Phase → ℕ
holders [] = 0
holders (p ∷ ps) = holds p + holders ps

-- A loaded value passed the test of its round.
abbrev Passed : ℕ → Phase → Type 0
Passed m (loaded seen) = leb_ℤ (pos m) seen ≡ false
Passed m _ = Unit {0}

holders-set :
    (ps : List Phase) (i : ℕ) (p q : Phase)
    → get_elem? ps i ≡ some p
    → holders (set ps i q) + holds p ≡ holders ps + holds q
holders-set [] i p q h = cc
holders-set (x ∷ ps) zero p q h = ground arith
holders-set (x ∷ ps) (suc i) p q h = omega (arith, holders-set ps i p q h)

All-get_elem? {ℓ κ} :
    {A : Type ℓ} (P : A → Type κ) (xs : List A) (i : ℕ) (a : A)
    → All P xs
    → get_elem? xs i ≡ some a
    → P a
All-get_elem? P [] i a h e = cc
All-get_elem? P (x ∷ xs) zero a h e = subst P (cc e) h.0
All-get_elem? P (x ∷ xs) (suc i) a h e = All-get_elem? P xs i a h.1 e

-- The counter is the number of holders, within the limit `m`.
pub record Bounded (m : ℕ) (s : System) : Type 0 where
  pub limit : s.limiter.max_conns ≡ pos m
  pub counted : s.limiter.current ≡ pos (holders s.threads)
  pub within : holders s.threads ≤ m
  pub passed : All (Passed m) s.threads

act-Passed : (m : ℕ) (p : Phase) (l : Limiter) → l.max_conns ≡ pos m → Passed m (act p l).0
unfolding act
act-Passed m outside l h = ground arith
act-Passed m (loaded seen) l h = ground arith
act-Passed m holding l h = tt
act-Passed m refused l h = tt

holds-le-holders :
    (ps : List Phase) (i : ℕ) (p : Phase) → get_elem? ps i ≡ some p → holds p ≤ holders ps
holds-le-holders [] i p h = cc
holds-le-holders (x ∷ ps) zero p h = ground arith
holds-le-holders (x ∷ ps) (suc i) p h = omega (arith, holds-le-holders ps i p h)

-- `t` goroutines hold before the access and `t'` after it.
act-counted :
    (m t t' : ℕ) (p : Phase) (l : Limiter)
    → l.max_conns ≡ pos m
    → l.current ≡ pos t
    → t ≤ m
    → holds p ≤ t
    → t' + holds p ≡ t + holds (act p l).0
    → Passed m p
    → ((act p l).1.max_conns ≡ pos m) × ((act p l).1.current ≡ pos t') × (t' ≤ m)
unfolding act
act-counted m t t' outside l a b c d e f = ground arith
act-counted m t t' (loaded seen) l a b c d e f = ground arith
act-counted m zero t' holding l a b c d e f = absurd (omega arith)
act-counted m (suc t) t' holding l a b c d e f = ground arith
act-counted m t t' refused l a b c d e f = ground arith

turn-Bounded : (m : ℕ) (s : System) (i : ℕ) → Bounded m s → Bounded m (turn s i)
unfolding turn
turn-Bounded m s i v = elim (Option-cases (get_elem? s.threads i)) [
  | inl e ↦ rw (e, turn) v
  | inr (p, e) ↦
      let after = (act p s.limiter).0 in
      let (a, b, c) =
        act-counted m (holders s.threads) (holders (set s.threads i after)) p s.limiter v.limit
          v.counted v.within (holds-le-holders s.threads i p e) (holders-set s.threads i p after e)
          (All-get_elem? (Passed m) s.threads i p v.passed e) in
      rw (e, turn)
        (record {
          limit = a;
          counted = b;
          within = c;
          passed = All-set (Passed m) s.threads i after v.passed (act-Passed m p s.limiter v.limit);
        })
]

-- From any state in which the counter is the number of holders, at most the limit, every schedule
-- of the goroutines' atomic accesses leads to such a state: the compare-and-swap loses no update
-- and lets nobody in beyond the limit.
pub run_schedule-Bounded :
    (m : ℕ) (s : System) (is : List ℕ) → Bounded m s → Bounded m (run_schedule s is)
unfolding run_schedule
run_schedule-Bounded m s [] v = v
run_schedule-Bounded m s (i ∷ is) v = run_schedule-Bounded m (turn s i) is (turn-Bounded m s i v)

-- `n` goroutines outside, over a new limiter.
abbrev pub start : ℕ → ℕ → System
start m n = record { limiter = new_limiter (pos m); threads = replicate n outside }

holders-replicate : (n : ℕ) → holders (replicate n outside) ≡ 0
holders-replicate zero = refl
holders-replicate (suc n) = omega (arith, holders-replicate n)

Passed-replicate : (m n : ℕ) → All (Passed m) (replicate n outside)
Passed-replicate m zero = tt
Passed-replicate m (suc n) = (tt, Passed-replicate m n)

-- However many goroutines share a new limiter and however their atomic accesses interleave, never
-- more than the limit have been let in at once, and the counter says how many.
pub limit_never_exceeded :
    (m n : ℕ) (is : List ℕ)
    → (holders (run_schedule (start m n) is).threads ≤ m)
      × ((run_schedule (start m n) is).limiter.current
          ≡ pos (holders (run_schedule (start m n) is).threads))
unfolding new_limiter
limit_never_exceeded m n is =
    let v = run_schedule-Bounded m (start m n) is (record {
      limit = refl;
      counted = rw (holders-replicate n);
      within = omega (arith, holders-replicate n);
      passed = Passed-replicate m n;
    }) in
    (v.within, v.counted)

get_elem?-set_self {ℓ} :
    {A : Type ℓ} (xs : List A) (i : ℕ) (a b : A)
    → get_elem? xs i ≡ some a
    → get_elem? (set xs i b) i ≡ some b
get_elem?-set_self [] i a b h = cc
get_elem?-set_self (x ∷ xs) zero a b h = refl
get_elem?-set_self (x ∷ xs) (suc i) a b h = get_elem?-set_self xs i a b h

turn_lem :
    (s : System) (i : ℕ) (p : Phase)
    → get_elem? s.threads i ≡ some p
    → turn s i
      ≡ record { limiter = (act p s.limiter).1; threads = set s.threads i (act p s.limiter).0 }
unfolding turn
turn_lem s i p h = rw (h, turn) refl

-- What a goroutine is after two turns of its own, by the answer of `allow`.
abbrev pub phase_after : Bool → Phase
phase_after true = holding
phase_after false = outside

two_acts :
    (l : Limiter)
    → (act (act outside l).0 (act outside l).1 ≡ (phase_after (allow l).1, (allow l).0))
unfolding act allow
two_acts l = ground (arith, eqb_ℤ-refl l.current)

-- Two turns of one goroutine that nobody interrupts are a call of `allow`: the counter is the one
-- that `allow` leaves, and the goroutine holds a slot exactly if `allow` says yes.
pub uninterrupted-allow :
    (s : System) (i : ℕ)
    → get_elem? s.threads i ≡ some outside
    → ((run_schedule s (i ∷ i ∷ [])).limiter ≡ (allow s.limiter).0)
      × (get_elem? (run_schedule s (i ∷ i ∷ [])).threads i ≡ some (phase_after (allow s.limiter).1))
unfolding run_schedule
uninterrupted-allow s i h =
    let first = turn_lem s i outside h in
    let p = (act outside s.limiter).0 in
    let h' = get_elem?-set_self s.threads i outside p h in
    let h'' = get_elem?-set_self (set s.threads i p) i p (phase_after (allow s.limiter).1) h' in
    rw
      (
        first,
        turn_lem (record { limiter = (act outside s.limiter).1; threads = set s.threads i p }) i p
            h',
        two_acts s.limiter,
      )
      (refl, h'')
