-- ===== src/SessionId/Order.antt =====
-- The ids of one gateway, in the order they are given (internal/gateway/gateway.go).
use game_gateway.Prelude.{
  ℕ, zero, suc, ◌+◌, ◌*◌, ◌%◌, ◌^◌, ◌≤◌, ◌<◌, ◌≡◌, subst, inl, inr, false, Option, none, some, List,
  [], ◌∷◌, arith, ℤ, leb_ℤ, Option-cases,
}
use game_gateway.Prelude.Bytes.{of_bits}
use game_gateway.SessionId.{Generator, session_id, attempt}

abbrev pub given : Option ℤ → List ℤ → List ℤ
given none rest = rest
given (some id) rest = id ∷ rest

-- The ids that a sequence of rounds gives, of one goroutine or of several, each behind the other.
unfoldable pub ids : List ℕ → Generator → List ℤ
ids [] g = []
ids (now ∷ readings) g = given (attempt now g).1 (ids readings (attempt now g).0)

-- No round reads the millisecond whose 4095 ids are used up once more: who finds them used up
-- sleeps.
abbrev pub Rested : List ℕ → Generator → Type 0
Rested [] g = Unit
Rested (now ∷ readings) g =
    (now % 2 ^ 40 ≡ g.last_timestamp → g.session_seq < 2 ^ 12) × Rested readings (attempt now g).0

abbrev pub Above : ℤ → List ℤ → Type 0
Above x [] = Unit
Above x (y ∷ ys) = (leb_ℤ y x ≡ false) × Above x ys

abbrev pub Increasing : List ℤ → Type 0
Increasing [] = Unit
Increasing (x ∷ xs) = Above x xs × Increasing xs

-- The id of a pod at a place in time.
abbrev place : ℕ → ℕ → ℤ
place pod w = of_bits 64 (pod % 2 ^ 12 * 2 ^ 52 + w)

place_lt : (pod v w : ℕ) → v < w → w < 2 ^ 52 → leb_ℤ (place pod w) (place pod v) ≡ false
place_lt pod v w h b = ground arith

pub record Sane (g : Generator) : Type 0 where
  pub time_fits : g.last_timestamp < 2 ^ 40
  pub seq_fits : g.session_seq ≤ 2 ^ 12

attempt-Sane :
    (now : ℕ) (g : Generator)
    → (now % 2 ^ 40 ≡ g.last_timestamp → g.session_seq < 2 ^ 12)
    → Sane g
    → Sane (attempt now g).0
unfolding attempt
attempt-Sane now g r s = record {
  time_fits = ground (arith, s.time_fits);
  seq_fits = ground (arith, s.seq_fits, r);
}

abbrev mark : Generator → ℕ
mark g = g.last_timestamp * 2 ^ 12 + g.session_seq

attempt-mark :
    (now : ℕ) (g : Generator)
    → (now % 2 ^ 40 ≡ g.last_timestamp → g.session_seq < 2 ^ 12)
    → Sane g
    → (mark g ≤ mark (attempt now g).0) × ((attempt now g).0.pod_hash ≡ g.pod_hash)
unfolding attempt
attempt-mark now g r s = ground (arith, s.seq_fits, r)

attempt-id :
    (now : ℕ) (g : Generator) (id : ℤ)
    → (now % 2 ^ 40 ≡ g.last_timestamp → g.session_seq < 2 ^ 12)
    → Sane g
    → (attempt now g).1 ≡ some id
    → (id ≡ place g.pod_hash (mark (attempt now g).0))
      × (mark g < mark (attempt now g).0)
      × (mark (attempt now g).0 < 2 ^ 52)
unfolding attempt session_id
attempt-id now g id r s e = ground (arith, s.seq_fits, s.time_fits, r)

Above-mark :
    (readings : List ℕ) (g : Generator) (w : ℕ)
    → Rested readings g
    → Sane g
    → w ≤ mark g
    → Above (place g.pod_hash w) (ids readings g)
unfolding ids
Above-mark [] g w r s h = tt
Above-mark (now ∷ readings) g w r s h =
    let (up, pod) = attempt-mark now g r.0 s in
    let rest =
      subst (λ p. Above (place p w) (ids readings (attempt now g).0)) pod
        (Above-mark readings (attempt now g).0 w r.1 (attempt-Sane now g r.0 s) (omega arith)) in
    elim (Option-cases (attempt now g).1) [
      | inl e ↦ rw e rest
      | inr (id, e) ↦
          let (same, later, fits) = attempt-id now g id r.0 s e in
          rw (e, same) (place_lt g.pod_hash w (mark (attempt now g).0) (omega arith) fits, rest)
    ]

-- The ids of rounds that do not overlap, of one goroutine or of several in turn, increase strictly,
-- whatever the clock does, so that no two of them are the same, as long as no round reads a
-- millisecond whose ids are used up; the last timestamp has 40 bits and the sequence is at most 4096
-- at first.
pub ids-Increasing :
    (readings : List ℕ) (g : Generator) → Sane g → Rested readings g → Increasing (ids readings g)
unfolding ids
ids-Increasing [] g s r = tt
ids-Increasing (now ∷ readings) g s r =
    let rest = ids-Increasing readings (attempt now g).0 (attempt-Sane now g r.0 s) r.1 in
    elim (Option-cases (attempt now g).1) [
      | inl e ↦ rw e rest
      | inr (id, e) ↦
          let (same, _, _) = attempt-id now g id r.0 s e in
          let (_, pod) = attempt-mark now g r.0 s in
          let above =
            Above-mark readings (attempt now g).0 (mark (attempt now g).0) r.1
              (attempt-Sane now g r.0 s) (omega arith) in
          rw e (
            rw same (
                subst
                  (λ p. Above (place p (mark (attempt now g).0)) (ids readings (attempt now g).0))
                  pod above),
            rest,
          )
    ]

-- Rounds that all read the same millisecond.
unfoldable pub rounds : ℕ → ℕ → Generator → Generator
rounds zero now g = g
rounds (suc n) now g = rounds n now (attempt now g).0

pub rounds-seq :
    (n now : ℕ) (g : Generator)
    → now % 2 ^ 40 ≡ g.last_timestamp
    → g.session_seq + n < 2 ^ 64
    → rounds n now g ≡ record {
      pod_hash = g.pod_hash;
      last_timestamp = g.last_timestamp;
      session_seq = g.session_seq + n;
    }
unfolding rounds attempt
rounds-seq zero now g e b = ground arith
rounds-seq (suc n) now g e b = ground (arith, rounds-seq n now (attempt now g).0)

rounds-later :
    (n now : ℕ) (g : Generator)
    → n < 2 ^ 63
    → g.last_timestamp < now % 2 ^ 40
    → rounds (suc n) now g
      ≡ record { pod_hash = g.pod_hash; last_timestamp = now % 2 ^ 40; session_seq = 1 + n }
unfolding rounds attempt
rounds-later n now g b h = ground (arith, rounds-seq n now (attempt now g).0)

-- Of the rounds that read one millisecond, later than that of the last id, the 4096th gives no id,
-- and the 4097th gives the id of the first again.
pub repeated_id :
    (now : ℕ) (g : Generator)
    → g.last_timestamp < now % 2 ^ 40
    → ((attempt now (rounds 4095 now g)).1 ≡ none)
      × ((attempt now (rounds 4096 now g)).1 ≡ (attempt now g).1)
unfolding attempt
repeated_id now g h = (
  rw (rounds-later 4094 now g (omega arith) h) (ground arith),
  rw (rounds-later 4095 now g (omega arith) h) (ground arith),
)
