-- ===== src/IpLimiter/Counts.antt =====
-- What one call changes of the open connections of an address (internal/ratelimit/ip_limiter.go).
use game_gateway.Prelude.{
  ℕ, ◌+◌, ◌≡◌, inl, inr, ite, arith, find-put, String, String-discrete, if◌then◌else◌,
}
use game_gateway.IpLimiter.{IpLimiter, conns_of, admit, allow}
use game_gateway.IpLimiter.Growth.{NoZero, periodic_cleanup-NoZero}

admit-counts :
    (ip j : String) (now : ℕ) (l : IpLimiter)
    → conns_of j (admit ip now l).0
      ≡ conns_of j l + (if (admit ip now l).1 then ite (String-discrete ip j) 1 0 else 0)
unfolding admit
admit-counts ip j now l =
    ground (arith, find-put String-discrete ip j (conns_of ip l + 1) l.ip_conns)

-- An address that is let in has one open connection more.
pub allow-counts :
    (ip j : String) (now : ℕ) (l : IpLimiter)
    → NoZero l
    → conns_of j (allow ip now l).0
      ≡ conns_of j l + (if (allow ip now l).1 then ite (String-discrete ip j) 1 0 else 0)
unfolding allow
allow-counts ip j now l z = elim (periodic_cleanup-NoZero now l z) [
  | inl e ↦ rw e (admit-counts ip j now l)
  | inr e ↦ rw e (admit-counts ip j now (record l { last_cleanup = now }))
]
