-- ===== src/Gateway/Counting.antt =====
-- The limiters count the connections that they have let in (internal/gateway/gateway.go,
-- handleConnection; config_reload.go, UpdateConfig).
use game_gateway.IpLimiter.Ideal.{release-limits, release-conns_of}
use game_gateway.IpLimiter.Cap.{step-Capped}
use game_gateway.IpLimiter.Counts.{allow-counts}
use game_gateway.Prelude.{
  ℕ, ◌+◌, ◌≤◌, ◌<◌, ◌≡◌, refl, ap, ◌⊎◌, inl, inr, ite, true, false, arith, String, String-discrete,
  pos, leb_ℤ, ◌==◌, if◌then◌else◌, Bool-cases,
}
use game_gateway.Limiter
use game_gateway.IpLimiter
use game_gateway.IpLimiter.{IpLimiter, conns_of}
use game_gateway.IpLimiter.Growth.{NoZero, release-NoZero, step-NoZero}

-- The counter of the gateway's limiter of all connections is the number of those that it let in,
-- `rates n` being that number for the `n`-th limiter, and is within its limit unless it is 0.
pub record RateCounted (rates : ℕ → ℕ) (generation : ℕ) (l : Limiter.Limiter) : Type 0 where
  pub current : l.current ≡ pos (rates generation)
  pub within : (rates generation ≡ 0) ⊎ (leb_ℤ (pos (rates generation)) l.max_conns ≡ true)
  pub later : (n : ℕ) → generation < n → rates n ≡ 0

-- The limiter by address has the number of each address that it let in, within its limit.
pub record IpCounted (ips : String → ℕ → ℕ) (generation : ℕ) (l : IpLimiter.IpLimiter)
    : Type 0 where
  pub counts : (j : String) → conns_of j l ≡ ips j generation
  pub within : (j : String) → ips j generation ≤ l.max_conns_per_ip
  pub later : (j : String) (n : ℕ) → generation < n → ips j n ≡ 0
  pub positive : NoZero l

abbrev pub one_at : ℕ → ℕ → ℕ
one_at generation n = if generation == n then 1 else 0

abbrev pub one_from : String → ℕ → String → ℕ → ℕ
one_from ip generation j n = if generation == n then ite (String-discrete ip j) 1 0 else 0

pub allow-RateCounted :
    (rates rates' : ℕ → ℕ) (g : ℕ) (l : Limiter.Limiter)
    → RateCounted rates g l
    → ((n : ℕ) → rates' n ≡ one_at g n + rates n)
    → (Limiter.allow l).1 ≡ true
    → RateCounted rates' g (Limiter.allow l).0
unfolding Limiter.allow
allow-RateCounted rates rates' g l h e t = elim (Bool-cases (leb_ℤ l.max_conns l.current)) [
  | inl r ↦ absurd (ground (arith, r, t))
  | inr r ↦ rw r (record {
    current = ground (arith, h.current, e g);
    within = inr (ground (arith, h.current, e g, r));
    later = λ n s. ground (arith, e n, h.later n s);
  })
]

pub refuse-RateCounted :
    (rates : ℕ → ℕ) (g : ℕ) (l : Limiter.Limiter)
    → RateCounted rates g l
    → (Limiter.allow l).1 ≡ false
    → RateCounted rates g (Limiter.allow l).0
unfolding Limiter.allow
refuse-RateCounted rates g l h t = elim (Bool-cases (leb_ℤ l.max_conns l.current)) [
  | inl r ↦ rw r h
  | inr r ↦ absurd (ground (arith, r, t))
]

-- A limiter that has been replaced is not touched.
abbrev rate_after : ℕ → ℕ → Limiter.Limiter → Limiter.Limiter
rate_after generation g l = if generation == g then Limiter.release l else l

pub release-RateCounted :
    (rates rates' : ℕ → ℕ) (generation g : ℕ) (l : Limiter.Limiter)
    → RateCounted rates g l
    → ((n : ℕ) → rates n ≡ one_at generation n + rates' n)
    → RateCounted rates' g (rate_after generation g l)
unfolding Limiter.release
release-RateCounted rates rates' generation g l h e = elim (Bool-cases (generation == g)) [
  | inl s ↦ rw s (record {
    current = ground (arith, h.current, e g, s);
    within = ground (arith, h.within, e g, s);
    later = λ n m. ground (arith, e n, h.later n m);
  })
  | inr s ↦ rw s (record {
    current = ground (arith, h.current, e g, s);
    within = ground (arith, h.within, e g, s);
    later = λ n m. ground (arith, e n, h.later n m);
  })
]

-- A call of the limiter keeps each address that it counts within the limit.
call-within :
    (ips : String → ℕ → ℕ) (g : ℕ) (l : IpLimiter.IpLimiter) (c : IpLimiter.Call) (j : String)
    → IpCounted ips g l
    → conns_of j (IpLimiter.step l c).0 ≤ (IpLimiter.step l c).0.max_conns_per_ip
call-within ips g l c j h =
    let v = step-Capped l.max_conns_per_ip l c (record {
      limit = refl;
      positive = h.positive;
      capped = λ k. omega (arith, h.counts k, h.within k);
    }) in
    omega (arith, v.capped j, v.limit)

pub allow-IpCounted :
    (ips ips' : String → ℕ → ℕ) (ip : String) (now g : ℕ) (l : IpLimiter.IpLimiter)
    → IpCounted ips g l
    → ((j : String) (n : ℕ) → ips' j n ≡ one_from ip g j n + ips j n)
    → (IpLimiter.allow ip now l).1 ≡ true
    → IpCounted ips' g (IpLimiter.allow ip now l).0
unfolding IpLimiter.step
allow-IpCounted ips ips' ip now g l h e t = record {
  counts = λ j. ground (arith, allow-counts ip j now l h.positive, h.counts j, e j g, t);
  within = λ j. ground (
    arith,
    allow-counts ip j now l h.positive,
    h.counts j,
    e j g,
    t,
    call-within ips g l (IpLimiter.allows ip now) j h,
  );
  later = λ j n s. ground (arith, e j n, h.later j n s);
  positive = step-NoZero l (IpLimiter.allows ip now) h.positive;
}

pub refuse-IpCounted :
    (ips : String → ℕ → ℕ) (ip : String) (now g : ℕ) (l : IpLimiter.IpLimiter)
    → IpCounted ips g l
    → (IpLimiter.allow ip now l).1 ≡ false
    → IpCounted ips g (IpLimiter.allow ip now l).0
unfolding IpLimiter.step
refuse-IpCounted ips ip now g l h t = record {
  counts = λ j. ground (arith, allow-counts ip j now l h.positive, h.counts j, t);
  within = λ j. ground (
    arith,
    allow-counts ip j now l h.positive,
    h.counts j,
    t,
    call-within ips g l (IpLimiter.allows ip now) j h,
  );
  later = h.later;
  positive = step-NoZero l (IpLimiter.allows ip now) h.positive;
}

pub release-IpCounted :
    (ips ips' : String → ℕ → ℕ) (ip : String) (generation g : ℕ) (l : IpLimiter.IpLimiter)
    → IpCounted ips g l
    → ((j : String) (n : ℕ) → ips j n ≡ one_from ip generation j n + ips' j n)
    → IpCounted ips' g (if generation == g then IpLimiter.release ip l else l)
release-IpCounted ips ips' ip generation g l h e = elim (Bool-cases (generation == g)) [
  | inl s ↦ rw s (record {
    counts = λ j. ground (
      arith,
      release-conns_of ip j l,
      h.counts j,
      h.counts ip,
      e j g,
      e ip g,
      s,
      ap (λ k. conns_of k l) {x = ip} {y = j},
    );
    within = λ j. ground (arith, release-limits ip l, h.within j, e j g);
    later = λ j n m. ground (arith, e j n, h.later j n m);
    positive = release-NoZero ip l h.positive;
  })
  | inr s ↦ rw s (record {
    counts = λ j. ground (arith, h.counts j, e j g, s);
    within = λ j. ground (arith, h.within j, e j g);
    later = λ j n m. ground (arith, e j n, h.later j n m);
    positive = h.positive;
  })
]
