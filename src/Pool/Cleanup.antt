-- ===== src/Pool/Cleanup.antt =====
-- What the loop of `Cleanup` does (internal/pool/pool.go).
use game_gateway.Prelude.{
  ℕ, zero, suc, ◌+◌, ◌-◌, ◌≤◌, ◌<◌, ◌≡◌, refl, ap, ◌∙◌, ◌⊎◌, inl, inr, true, false, none, some,
  List, [], ◌∷◌, ◌++◌, arith, ◌==◌, Bool-cases, length, length-append, All, member, delete,
  member-append,
}
use game_gateway.Pool.{
  Pool, is_expired, close_conn, on_conn, cleanup, stats, close_pool, cleanup_loop, close_all,
}

-- The pool after one round of the loop that has received `h` from the channel.
abbrev kept_round : ℕ → List ℕ → Pool → Pool
kept_round h rest p = record p { idle_conns = rest ++ h ∷ [] }

abbrev dropped_round : ℕ → List ℕ → Pool → Pool
dropped_round h rest p =
    on_conn h close_conn (record p { idle_conns = rest; active_conns = delete h p.active_conns })

loop_expired :
    (fuel : ℕ) (clock : ℕ → ℕ) (i h : ℕ) (rest : List ℕ) (p : Pool) (count : ℕ)
    → p.idle_conns ≡ h ∷ rest
    → is_expired p.idle_timeout (clock i) (p.conns h) ≡ true
    → cleanup_loop (suc fuel) clock i p count
      ≡ cleanup_loop fuel clock (suc i) (dropped_round h rest p) (count + 1)
unfolding cleanup_loop
loop_expired fuel clock i h rest p count e x = ground arith

loop_kept :
    (fuel : ℕ) (clock : ℕ → ℕ) (i h : ℕ) (rest : List ℕ) (p : Pool) (count : ℕ)
    → p.idle_conns ≡ h ∷ rest
    → length rest < p.max_per_service
    → is_expired p.idle_timeout (clock i) (p.conns h) ≡ false
    → cleanup_loop (suc fuel) clock i p count
      ≡ cleanup_loop fuel clock (suc i) (kept_round h rest p) count
unfolding cleanup_loop
loop_kept fuel clock i h rest p count e r x = ground arith

-- A connection that no test of the loop finds expired.
abbrev pub NeverExpires : (ℕ → ℕ) → ℕ → Pool → Type 0
NeverExpires clock h p = (i : ℕ) → is_expired p.idle_timeout (clock i) (p.conns h) ≡ false

loop_spins :
    (fuel : ℕ) (clock : ℕ → ℕ) (i : ℕ) (p : Pool) (count h : ℕ) (idle : List ℕ)
    → p.idle_conns ≡ idle
    → length idle ≤ p.max_per_service
    → member h idle ≡ true
    → NeverExpires clock h p
    → cleanup_loop fuel clock i p count ≡ none
loop_spins zero clock i p count h idle e r m n = unfold cleanup_loop in refl
loop_spins (suc fuel) clock i p count h [] e r m n = cc
loop_spins (suc fuel) clock i p count h (x ∷ rest) e r m n =
    elim (Bool-cases (is_expired p.idle_timeout (clock i) (p.conns x))) [
      | inl old ↦
          loop_expired fuel clock i x rest p count e old
          ∙ loop_spins fuel clock (suc i) (dropped_round x rest p) (count + 1) h rest refl
              (omega arith) (ground (arith, n i, old)) (λ j. ground (arith, n j, n i, old))
      | inr young ↦
          loop_kept fuel clock i x rest p count e (omega arith) young
          ∙ loop_spins fuel clock (suc i) (kept_round x rest p) count h (rest ++ x ∷ []) refl
              (omega (arith, length-append rest (x ∷ [])))
              (ground (arith, member-append h rest (x ∷ []))) n
    ]

-- As long as one idle connection of a pool does not expire, and no more are idle than the channel
-- holds, `Cleanup` does not return, however many rounds its loop makes.
pub cleanup_spins :
    (fuel : ℕ) (clock : ℕ → ℕ) (p : Pool) (h : ℕ)
    → length p.idle_conns ≤ p.max_per_service
    → member h p.idle_conns ≡ true
    → NeverExpires clock h p
    → cleanup fuel clock p ≡ none
unfolding cleanup
cleanup_spins fuel clock p h r m n = loop_spins fuel clock 0 p 0 h p.idle_conns refl r m n

-- From its `k`-th test on the loop finds every idle connection expired.
abbrev pub AllExpireAfter : ℕ → (ℕ → ℕ) → Pool → List ℕ → Type 0
AllExpireAfter k clock p hs =
    All (λ h. (i : ℕ) → k ≤ i → is_expired p.idle_timeout (clock i) (p.conns h) ≡ true) hs

AllExpireAfter-append :
    (k : ℕ) (clock : ℕ → ℕ) (p : Pool) (h : ℕ) (hs : List ℕ)
    → AllExpireAfter k clock p (h ∷ hs)
    → AllExpireAfter k clock p (hs ++ h ∷ [])
AllExpireAfter-append k clock p h [] a = a
AllExpireAfter-append k clock p h (x ∷ hs) a =
    (a.1.0, AllExpireAfter-append k clock p h hs (a.0, a.1.1))

-- Closing a connection changes neither its use nor its time.
AllExpireAfter-close :
    (k : ℕ) (clock : ℕ → ℕ) (p : Pool) (h : ℕ) (rest hs : List ℕ)
    → AllExpireAfter k clock p hs
    → AllExpireAfter k clock (dropped_round h rest p) hs
AllExpireAfter-close k clock p h rest [] a = tt
AllExpireAfter-close k clock p h rest (x ∷ hs) a =
    (λ i b. ground (arith, a.0 i b), AllExpireAfter-close k clock p h rest hs a.1)

loop_ends :
    (fuel : ℕ) (clock : ℕ → ℕ) (k i : ℕ) (p : Pool) (count : ℕ) (idle : List ℕ)
    → p.idle_conns ≡ idle
    → length idle ≤ p.max_per_service
    → AllExpireAfter k clock p idle
    → (k - i) + length idle < fuel
    → (q : Pool) × (cleanup_loop fuel clock i p count ≡ some (q, count + length idle))
      × (q.idle_conns ≡ [])
      × (q.active_count ≡ p.active_count)
loop_ends zero clock k i p count idle e r a f = elim f [ ]
loop_ends (suc fuel) clock k i p count [] e r a f =
    (p, unfold cleanup_loop in ground arith, e, refl)
loop_ends (suc fuel) clock k i p count (x ∷ rest) e r a f =
    elim (Bool-cases (is_expired p.idle_timeout (clock i) (p.conns x))) [
      | inl old ↦
          let (q, run, none_left, same) =
            loop_ends fuel clock k (suc i) (dropped_round x rest p) (count + 1) rest refl
              (omega arith) (AllExpireAfter-close k clock p x rest rest a.1) (omega arith) in
          (
            q,
            loop_expired fuel clock i x rest p count e old
                ∙ run
                ∙ ap (λ n. some (q, n)) (omega arith),
            none_left,
            same,
          )
      | inr young ↦
          let before : i < k = ground (arith, a.0 i, young) in
          let len = length-append rest (x ∷ []) in
          let (q, run, none_left, same) =
            loop_ends fuel clock k (suc i) (kept_round x rest p) count (rest ++ x ∷ []) refl
              (omega (arith, len)) (AllExpireAfter-append k clock p x rest a)
              (omega (arith, len, before)) in
          (
            q,
            loop_kept fuel clock i x rest p count e (omega arith) young
                ∙ run
                ∙ ap (λ n. some (q, n)) (omega (arith, len)),
            none_left,
            same,
          )
    ]

-- If every idle connection is expired from the `k`-th test on, and no more are idle than the
-- channel holds, `Cleanup` returns within `k` rounds and one for each idle connection and one more;
-- the channel is then empty, no active connection is counted out, and the result is the number of
-- all that were idle, also those that had not expired when it began.
pub cleanup_ends :
    (clock : ℕ → ℕ) (k : ℕ) (p : Pool)
    → length p.idle_conns ≤ p.max_per_service
    → AllExpireAfter k clock p p.idle_conns
    → (q : Pool) × (cleanup (suc (k + length p.idle_conns)) clock p ≡ some (q, length p.idle_conns))
      × (q.idle_conns ≡ [])
      × (q.active_count ≡ p.active_count)
unfolding cleanup
cleanup_ends clock k p r a =
    let (q, run, none_left, same) =
      loop_ends (suc (k + length p.idle_conns)) clock k 0 p 0 p.idle_conns refl r a (omega arith) in
    (q, run ∙ ap (λ n. some (q, n)) (omega arith), none_left, same)

close_all-stays :
    (hs : List ℕ) (p : Pool) (h : ℕ)
    → (p.conns h).is_open ≡ false
    → ((close_all hs p).conns h).is_open ≡ false
unfolding close_all
close_all-stays [] p h c = c
close_all-stays (x ∷ hs) p h c = close_all-stays hs (on_conn x close_conn p) h (ground (arith, c))

close_all-member :
    (hs : List ℕ) (p : Pool) (h : ℕ)
    → member h hs ≡ true
    → ((close_all hs p).conns h).is_open ≡ false
unfolding close_all
close_all-member [] p h m = cc
close_all-member (x ∷ hs) p h m = elim (Bool-cases (x == h)) [
  | inl e ↦ close_all-stays hs (on_conn x close_conn p) h (ground (arith, e))
  | inr e ↦ close_all-member hs (on_conn x close_conn p) h (ground (arith, e))
]

-- `Close` leaves a pool with no connections, and has closed every one that was active or idle.
pub close_pool_closes :
    (p : Pool) (h : ℕ)
    → (member h p.active_conns ≡ true) ⊎ (member h p.idle_conns ≡ true)
    → (((close_pool p).conns h).is_open ≡ false) × ((stats (close_pool p)).total ≡ 0)
unfolding close_pool stats
close_pool_closes p h (inl m) =
    (close_all-stays p.idle_conns _ h (close_all-member p.active_conns p h m), refl)
close_pool_closes p h (inr m) =
    (close_all-member p.idle_conns (close_all p.active_conns p) h m, refl)
