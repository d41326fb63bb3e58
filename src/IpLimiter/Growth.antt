-- ===== src/IpLimiter/Growth.antt =====
-- The table of rate trackers only grows (internal/ratelimit/ip_limiter.go).
use game_gateway.Prelude.{
  ℕ, ◌+◌, ◌-◌, ◌<◌, ◌≡◌, refl, ◌⊎◌, inl, inr, Bool, true, false, none, some, List, [], ◌∷◌, ◌++◌,
  arith, find, put, remove, find-put, String, String-discrete, All,
}
use game_gateway.IpLimiter.{
  IpLimiter, new_ip_limiter, conns_of, tracker_of, cleanup, periodic_cleanup, recent, admit, allow,
  release, Call, allows, releases, step, run, cleanup_from,
}

abbrev Positive : String × ℕ → Type 0
Positive (ip, n) = 0 < n

-- No entry of `ipConns` holds 0: `Release` deletes an entry rather than leave it at 0.
abbrev pub NoZero : IpLimiter → Type 0
NoZero l = All Positive l.ip_conns

put-Positive :
    (ip : String) (n : ℕ) (m : List (String × ℕ))
    → 0 < n
    → All Positive m
    → All Positive (put String-discrete ip n m)
put-Positive ip n [] p h = (p, tt)
put-Positive ip n ((j, k) ∷ m) p h = ground (arith, put-Positive ip n m p h.1)

remove-Positive :
    (ip : String) (m : List (String × ℕ))
    → All Positive m
    → All Positive (remove String-discrete ip m)
remove-Positive ip [] h = tt
remove-Positive ip ((j, k) ∷ m) h = ground (arith, remove-Positive ip m h.1)

cleanup_from-NoZero :
    (es : List (String × ℕ)) (l : IpLimiter) → All Positive es → cleanup_from es l ≡ l
unfolding cleanup_from
cleanup_from-NoZero [] l h = refl
cleanup_from-NoZero ((ip, n) ∷ es) l h = ground (arith, cleanup_from-NoZero es l h.1)

pub cleanup_lem : (l : IpLimiter) → NoZero l → cleanup l ≡ l
unfolding cleanup
cleanup_lem l h = cleanup_from-NoZero l.ip_conns l h

pub periodic_cleanup-NoZero :
    (now : ℕ) (l : IpLimiter)
    → NoZero l
    → (periodic_cleanup now l ≡ l) ⊎ (periodic_cleanup now l ≡ record l { last_cleanup = now })
unfolding periodic_cleanup
periodic_cleanup-NoZero now l h = ground (arith, cleanup_lem l h)

pub admit-NoZero : (ip : String) (now : ℕ) (l : IpLimiter) → NoZero l → NoZero (admit ip now l).0
unfolding admit
admit-NoZero ip now l h =
    ground (arith, put-Positive ip (conns_of ip l + 1) l.ip_conns (omega arith) h)

pub release-NoZero : (ip : String) (l : IpLimiter) → NoZero l → NoZero (release ip l)
unfolding release
release-NoZero ip l h =
    ground (arith, put-Positive ip (conns_of ip l - 1) l.ip_conns, remove-Positive ip l.ip_conns h)

pub step-NoZero : (l : IpLimiter) (c : Call) → NoZero l → NoZero (step l c).0
unfolding step allow
step-NoZero l (allows ip now) h = elim (periodic_cleanup-NoZero now l h) [
  | inl e ↦ rw e (admit-NoZero ip now l h)
  | inr e ↦ rw e (admit-NoZero ip now (record l { last_cleanup = now }) h)
]
step-NoZero l (releases ip now) h = release-NoZero ip l h

run-NoZero : (l : IpLimiter) (cs : List Call) → NoZero l → NoZero (run l cs)
unfolding run
run-NoZero l [] h = h
run-NoZero l (c ∷ cs) h = run-NoZero (step l c).0 cs (step-NoZero l c h)

-- After any history of a new limiter the periodic cleanup has nothing to do: it removes no
-- connection count and no rate tracker.
pub cleanup-run :
    (max rate now : ℕ) (cs : List Call)
    → let l = run (new_ip_limiter max rate now) cs in cleanup l ≡ l
unfolding new_ip_limiter
cleanup-run max rate now cs =
    cleanup_lem (run (new_ip_limiter max rate now) cs)
      (run-NoZero (new_ip_limiter max rate now) cs tt)

-- Whether an address has a tracker.
abbrev pub is_tracked : String → IpLimiter → Bool
is_tracked ip l = elim (find String-discrete ip l.ip_rates) [ none ↦ false | some r ↦ true ]

admit-tracked :
    (ip j : String) (now : ℕ) (l : IpLimiter)
    → is_tracked j l ≡ true
    → is_tracked j (admit ip now l).0 ≡ true
unfolding admit
admit-tracked ip j now l h =
    let rate = tracker_of ip l in
    let kept = recent now rate.connections in
    ground (
      arith,
      find-put String-discrete ip j (record rate { connections = kept }) l.ip_rates,
      find-put String-discrete ip j (record rate { connections = kept ++ now ∷ [] }) l.ip_rates,
    )

step-tracked :
    (j : String) (l : IpLimiter) (c : Call)
    → NoZero l
    → is_tracked j l ≡ true
    → is_tracked j (step l c).0 ≡ true
unfolding step allow release
step-tracked j l (allows ip now) h t = elim (periodic_cleanup-NoZero now l h) [
  | inl e ↦ rw e (admit-tracked ip j now l t)
  | inr e ↦ rw e (admit-tracked ip j now (record l { last_cleanup = now }) t)
]
step-tracked j l (releases ip now) h t = ground arith

run-tracked :
    (j : String) (l : IpLimiter) (cs : List Call)
    → NoZero l
    → is_tracked j l ≡ true
    → is_tracked j (run l cs) ≡ true
unfolding run
run-tracked j l [] h t = t
run-tracked j l (c ∷ cs) h t =
    run-tracked j (step l c).0 cs (step-NoZero l c h) (step-tracked j l c h t)

admit-tracks :
    (ip : String) (now : ℕ) (l : IpLimiter)
    → (admit ip now l).1 ≡ true
    → is_tracked ip (admit ip now l).0 ≡ true
unfolding admit
admit-tracks ip now l h =
    let rate = tracker_of ip l in
    ground (
      arith,
      find-put String-discrete ip ip
          (record rate { connections = recent now rate.connections ++ now ∷ [] }) l.ip_rates,
    )

allow-tracked :
    (ip : String) (now : ℕ) (l : IpLimiter)
    → NoZero l
    → (step l (allows ip now)).1 ≡ true
    → is_tracked ip (step l (allows ip now)).0 ≡ true
unfolding step allow
allow-tracked ip now l h a = admit-tracks ip now (periodic_cleanup now l) a

run-append : (l : IpLimiter) (cs ds : List Call) → run l (cs ++ ds) ≡ run (run l cs) ds
unfolding run
run-append l [] ds = refl
run-append l (c ∷ cs) ds = run-append (step l c).0 cs ds

-- An address that was let in once by a limiter with any history keeps its tracker for ever: no
-- later history of calls, whatever their times, releases or cleanups, removes it.
pub tracker_kept :
    (max rate start now : ℕ) (ip : String) (before after : List Call)
    → (step (run (new_ip_limiter max rate start) before) (allows ip now)).1 ≡ true
    → is_tracked ip (run (new_ip_limiter max rate start) (before ++ allows ip now ∷ after)) ≡ true
unfolding new_ip_limiter run
tracker_kept max rate start now ip before after a =
    let l = run (new_ip_limiter max rate start) before in
    let h = run-NoZero (new_ip_limiter max rate start) before tt in
    rw run-append (
      run-tracked ip (step l (allows ip now)).0 after (step-NoZero l (allows ip now) h)
        (allow-tracked ip now l h a))
