-- ===== src/SessionId/Fields.antt =====
-- The fields of a session id, and when an id is given (internal/gateway/gateway.go).
use game_gateway.Prelude.{
  ℕ, ◌%◌, ◌^◌, ◌<◌, ◌≡◌, refl, inl, inr, none, some, List, [], ◌∷◌, ◌++◌, arith, ℤ, Option-cases,
  All,
}
use game_gateway.SessionId.{Generator, session_id, attempt, generate_session_id, parse_session_id}

-- An id made of fields that fit is parsed into the same fields, also when it is negative; of the
-- pod's hash the low twelve bits are kept.
pub parse-session_id :
    (pod_hash timestamp seq : ℕ)
    → timestamp < 2 ^ 40
    → seq < 2 ^ 12
    → parse_session_id (session_id pod_hash timestamp seq)
      ≡ record { pod_hash = pod_hash % 2 ^ 12; timestamp = timestamp; sequence = seq }
unfolding parse_session_id session_id
parse-session_id pod_hash timestamp seq t s = ground arith

attempt_later :
    (now : ℕ) (g : Generator)
    → g.last_timestamp < now % 2 ^ 40
    → (attempt now g).1 ≡ some (session_id g.pod_hash (now % 2 ^ 40) 1)
unfolding attempt
attempt_later now g h = ground arith

attempt-timestamp :
    (now later : ℕ) (g : Generator)
    → g.last_timestamp < later
    → (attempt now g).1 ≡ none
    → (attempt now g).0.last_timestamp < later
unfolding attempt
attempt-timestamp now later g h e = ground arith

-- The loop ends with an id at the latest when the clock shows a later millisecond than that of the
-- last id, whatever it showed before.
pub generate_session_id_ends :
    (before after : List ℕ) (now : ℕ) (g : Generator)
    → g.last_timestamp < now % 2 ^ 40
    → (id : ℤ) × (left : Generator × List ℕ) × (generate_session_id (before ++ now ∷ after) g
        ≡ some (id, left))
unfolding generate_session_id
generate_session_id_ends [] after now g h = (
  session_id g.pod_hash (now % 2 ^ 40) 1,
  ((attempt now g).0, after),
  rw (attempt_later now g h) refl,
)
generate_session_id_ends (t ∷ before) after now g h = elim (Option-cases (attempt t g).1) [
  | inl e ↦
      let (id, left, more) =
        generate_session_id_ends before after now (attempt t g).0
          (attempt-timestamp t (now % 2 ^ 40) g h e) in
      (id, left, rw e more)
  | inr (id, e) ↦ (id, ((attempt t g).0, before ++ now ∷ after), rw e refl)
]

-- As long as the low forty bits of every reading of the clock are below the timestamp of the last
-- id, no id is given.
pub generate_session_id_stuck :
    (readings : List ℕ) (g : Generator)
    → All (λ now. now % 2 ^ 40 < g.last_timestamp) readings
    → generate_session_id readings g ≡ none
unfolding generate_session_id attempt
generate_session_id_stuck [] g h = refl
generate_session_id_stuck (now ∷ readings) g h =
    ground (arith, h.0, generate_session_id_stuck readings g h.1)
