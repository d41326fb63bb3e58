-- ===== src/IpLimiter/Cap.antt =====
-- The limit on the open connections of one address (internal/ratelimit/ip_limiter.go).
use game_gateway.Prelude.{
  ℕ, ◌+◌, ◌≤◌, ◌≡◌, refl, ◌∙◌, inl, inr, List, [], ◌∷◌, arith, find-put, String, String-discrete,
}
use game_gateway.IpLimiter.Ideal.{admit-limits, release-limits, release-conns_of}
use game_gateway.IpLimiter.{
  IpLimiter, new_ip_limiter, conns_of, admit, allow, Call, allows, releases, step, run,
}
use game_gateway.IpLimiter.Growth.{NoZero, periodic_cleanup-NoZero, admit-NoZero, release-NoZero}

-- At most `max` open connections of every address, in a limiter that never holds a zero.
pub record Capped (max : ℕ) (l : IpLimiter) : Type 0 where
  pub limit : l.max_conns_per_ip ≡ max
  pub positive : NoZero l
  pub capped : (ip : String) → conns_of ip l ≤ max

admit-conns_of :
    (max now : ℕ) (ip j : String) (l : IpLimiter)
    → Capped max l
    → conns_of j (admit ip now l).0 ≤ max
unfolding admit
admit-conns_of max now ip j l v = ground (
  arith,
  v.limit,
  v.capped j,
  v.capped ip,
  find-put String-discrete ip j (conns_of ip l + 1) l.ip_conns,
)

admit-Capped :
    (max now : ℕ) (ip : String) (l : IpLimiter) → Capped max l → Capped max (admit ip now l).0
admit-Capped max now ip l v = record {
  limit = (admit-limits ip now l).0 ∙ v.limit;
  positive = admit-NoZero ip now l v.positive;
  capped = λ j. admit-conns_of max now ip j l v;
}

pub step-Capped : (max : ℕ) (l : IpLimiter) (c : Call) → Capped max l → Capped max (step l c).0
unfolding step allow
step-Capped max l (allows ip now) v = elim (periodic_cleanup-NoZero now l v.positive) [
  | inl e ↦ rw e (admit-Capped max now ip l v)
  | inr e ↦ rw e (
      admit-Capped max now ip (record l { last_cleanup = now })
        (record { limit = v.limit; positive = v.positive; capped = v.capped }))
]
step-Capped max l (releases ip now) v = record {
  limit = (release-limits ip l).0 ∙ v.limit;
  positive = release-NoZero ip l v.positive;
  capped = λ j. rw release-conns_of (ground (arith, v.capped ip, v.capped j));
}

run-Capped : (max : ℕ) (l : IpLimiter) (cs : List Call) → Capped max l → Capped max (run l cs)
unfolding run
run-Capped max l [] v = v
run-Capped max l (c ∷ cs) v = run-Capped max (step l c).0 cs (step-Capped max l c v)

-- After any history of calls of a new limiter, whatever their times, no address has more open
-- connections than the limit.
pub conns-le-max :
    (max rate start : ℕ) (cs : List Call) (ip : String)
    → conns_of ip (run (new_ip_limiter max rate start) cs) ≤ max
unfolding new_ip_limiter
conns-le-max max rate start cs ip =
    (run-Capped max (new_ip_limiter max rate start) cs
        (record { limit = refl; positive = tt; capped = λ j. omega arith })).capped
      ip
