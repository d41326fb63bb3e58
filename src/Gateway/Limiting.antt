-- ===== src/Gateway/Limiting.antt =====
-- Both limiters of the gateway count, through arrivals, ends and reloads (internal/gateway/gateway.go,
-- handleConnection; config_reload.go, UpdateConfig).
use game_gateway.Config.Schema.{Config}
use game_gateway.Config.{ConfigError, validate_config}
use game_gateway.Gateway.{
  Limits, Gateway, Admitted, admit_rate, admit_ip, admit, release_rate, release_ip, leave, new_rate,
  new_ip, reloaded_if, update_config,
}
use game_gateway.Prelude.{
  ℕ, suc, ◌+◌, ◌≡◌, refl, sym, ap, subst, ◌⊎◌, inl, inr, Bool, true, false, Option, none, some,
  arith, String, pos, eqb_ℤ, ◌==◌, if◌then◌else◌, Bool-cases,
}
use game_gateway.Limiter
use game_gateway.IpLimiter
use game_gateway.IpLimiter.{IpLimiter}
use game_gateway.Gateway.Counting.{
  RateCounted, IpCounted, one_at, one_from, allow-RateCounted, refuse-RateCounted,
  release-RateCounted, allow-IpCounted, refuse-IpCounted, release-IpCounted,
}

-- Both limiters of the gateway count.
pub record Counted (rates : ℕ → ℕ) (ips : String → ℕ → ℕ) (g : Limits) : Type 0 where
  pub rate : RateCounted rates g.rate_generation g.rate_limiter
  pub ip : IpCounted ips g.ip_generation g.ip_limiter

-- Counts with one connection more.
abbrev pub more_rates : Admitted → (ℕ → ℕ) → ℕ → ℕ
more_rates a rates n = one_at a.rate_generation n + rates n

abbrev pub more_ips : Admitted → (String → ℕ → ℕ) → String → ℕ → ℕ
more_ips a ips j n = one_from a.ip a.ip_generation j n + ips j n

abbrev pub WithAdmitted : (ℕ → ℕ) → (String → ℕ → ℕ) → Option Admitted × Limits → Type 0
WithAdmitted rates ips (none, g) = Counted rates ips g
WithAdmitted rates ips (some a, g) = Counted (more_rates a rates) (more_ips a ips) g

-- A connection that is let in is counted, by both; one that is refused leaves the counts.
pub admit-Counted :
    (rates : ℕ → ℕ) (ips : String → ℕ → ℕ) (ip : String) (now : ℕ) (g : Limits)
    → Counted rates ips g
    → WithAdmitted rates ips (admit ip now g)
unfolding admit
admit-Counted rates ips ip now g c = by_address (IpLimiter.allow ip now g.ip_limiter) refl
  where
    own_rates : ℕ → ℕ
    own_rates n = one_at g.rate_generation n + rates n

    own_ips : String → ℕ → ℕ
    own_ips j n = one_from ip g.ip_generation j n + ips j n

    same : (n : ℕ) → (n == n) ≡ true
    same n = ground arith

    back :
        (l : IpLimiter.IpLimiter)
        → IpCounted own_ips g.ip_generation l
        → IpCounted ips g.ip_generation (IpLimiter.release ip l)
    back l h =
        subst (λ k. IpCounted ips g.ip_generation k) (rw (same g.ip_generation) refl)
          (release-IpCounted own_ips ips ip g.ip_generation g.ip_generation l h (λ j n. refl))

    by_rate :
        (l : IpLimiter.IpLimiter) (r : Limiter.Limiter × Bool)
        → IpCounted own_ips g.ip_generation l
        → Limiter.allow g.rate_limiter ≡ r
        → WithAdmitted rates ips (admit_rate ip r (record g { ip_limiter = l }))
    by_rate l (r, true) h e = record {
      rate =
          subst (λ r. RateCounted own_rates g.rate_generation r.0) e
            (allow-RateCounted rates own_rates g.rate_generation g.rate_limiter c.rate (λ n. refl)
              (ap (λ r. r.1) e));
      ip = h;
    }
    by_rate l (r, false) h e = record {
      rate =
          subst (λ r. RateCounted rates g.rate_generation r.0) e
            (refuse-RateCounted rates g.rate_generation g.rate_limiter c.rate (ap (λ r. r.1) e));
      ip = back l h;
    }

    by_address :
        (r : IpLimiter.IpLimiter × Bool)
        → IpLimiter.allow ip now g.ip_limiter ≡ r
        → WithAdmitted rates ips (admit_ip ip r g)
    by_address (l, true) e =
        by_rate l (Limiter.allow g.rate_limiter)
          (subst (λ r. IpCounted own_ips g.ip_generation r.0) e
            (allow-IpCounted ips own_ips ip now g.ip_generation g.ip_limiter c.ip (λ j n. refl)
              (ap (λ r. r.1) e)))
          refl
    by_address (l, false) e = record {
      rate = c.rate;
      ip =
          subst (λ r. IpCounted ips g.ip_generation r.0) e
            (refuse-IpCounted ips ip now g.ip_generation g.ip_limiter c.ip (ap (λ r. r.1) e));
    }

-- The releases of a connection take it out of the counts.
pub leave-Counted :
    (rates rates' : ℕ → ℕ) (ips ips' : String → ℕ → ℕ) (a : Admitted) (g : Limits)
    → Counted rates ips g
    → ((n : ℕ) → rates n ≡ one_at a.rate_generation n + rates' n)
    → ((j : String) (n : ℕ) → ips j n ≡ one_from a.ip a.ip_generation j n + ips' j n)
    → Counted rates' ips' (leave a g)
unfolding leave
leave-Counted rates rates' ips ips' a g c e f =
    by_rate (Bool-cases (a.rate_generation == g.rate_generation))
  where
    ip_released :
        (b : Bool)
        → a.ip_generation == g.ip_generation ≡ b
        → IpCounted ips' g.ip_generation
            (if b then IpLimiter.release a.ip g.ip_limiter else g.ip_limiter)
    ip_released b s =
        subst
          (λ d.
            IpCounted ips' g.ip_generation
              (if d then IpLimiter.release a.ip g.ip_limiter else g.ip_limiter))
          s (release-IpCounted ips ips' a.ip a.ip_generation g.ip_generation g.ip_limiter c.ip f)

    rate_released :
        (b : Bool)
        → a.rate_generation == g.rate_generation ≡ b
        → RateCounted rates' g.rate_generation
            (if b then Limiter.release g.rate_limiter else g.rate_limiter)
    rate_released b s =
        subst
          (λ d.
            RateCounted rates' g.rate_generation
              (if d then Limiter.release g.rate_limiter else g.rate_limiter))
          s
          (release-RateCounted rates rates' a.rate_generation g.rate_generation g.rate_limiter
            c.rate e)

    by_ip :
        (l : Limiter.Limiter)
        → RateCounted rates' g.rate_generation l
        → Counted rates' ips' (release_ip a.ip a.ip_generation (record g { rate_limiter = l }))
    by_ip l h = elim (Bool-cases (a.ip_generation == g.ip_generation)) [
      | inl s ↦ rw s (record { rate = h; ip = ip_released true s })
      | inr s ↦ rw s (record { rate = h; ip = ip_released false s })
    ]

    by_rate :
        (a.rate_generation == g.rate_generation ≡ true)
          ⊎ (a.rate_generation == g.rate_generation ≡ false)
        → Counted rates' ips' (release_ip a.ip a.ip_generation (release_rate a.rate_generation g))
    by_rate (inl s) = rw s (by_ip (Limiter.release g.rate_limiter) (rate_released true s))
    by_rate (inr s) = rw s (by_ip g.rate_limiter (rate_released false s))

new_rate-Counted :
    (rates : ℕ → ℕ) (ips : String → ℕ → ℕ) (old new : Config) (g : Limits)
    → Counted rates ips g
    → Counted rates ips (new_rate old new g)
unfolding Limiter.new_limiter
new_rate-Counted rates ips old new g c =
    elim (Bool-cases
      (eqb_ℤ new.connection_pool.max_connections old.connection_pool.max_connections)) [
        | inl s ↦ rw s c
        | inr s ↦
            let none_yet : rates (suc g.rate_generation) ≡ 0 =
              c.rate.later (suc g.rate_generation) (omega arith) in
            rw s (record {
              rate = record {
                current = ap pos (sym none_yet);
                within = inl none_yet;
                later = λ n l. c.rate.later n (omega arith);
              };
              ip = c.ip;
            })
      ]

new_ip-Counted :
    (rates : ℕ → ℕ) (ips : String → ℕ → ℕ) (old new : Config) (now : ℕ) (g : Limits)
    → Counted rates ips g
    → Counted rates ips (new_ip old new now g)
unfolding IpLimiter.new_ip_limiter
new_ip-Counted rates ips old new now g c = if-Counted _ _ _ c (record {
  rate = c.rate;
  ip = record {
    counts = λ j. sym (c.ip.later j (suc g.ip_generation) (omega arith));
    within = λ j. omega (arith, c.ip.later j (suc g.ip_generation) (omega arith));
    later = λ j n l. c.ip.later j n (omega arith);
    positive = tt;
  };
})
  where
    if-Counted :
        (b : Bool) (x y : Limits)
        → Counted rates ips y
        → Counted rates ips x
        → Counted rates ips (if b then x else y)
    if-Counted true x y hy hx = hx
    if-Counted false x y hy hx = hy

-- A reload keeps the counts: a new limiter starts at 0, and has let nobody in.
pub update_config-Counted :
    (rates : ℕ → ℕ) (ips : String → ℕ → ℕ) (new : Config) (now : ℕ) (g : Gateway)
    → Counted rates ips g.limits
    → Counted rates ips (update_config new now g).1.limits
unfolding update_config
update_config-Counted rates ips new now g c = from (validate_config new)
  where
    from : (o : Option ConfigError) → Counted rates ips (reloaded_if o new now g).1.limits
    from (some e) = c
    from none =
        new_ip-Counted rates ips g.config new now (new_rate g.config new g.limits)
          (new_rate-Counted rates ips g.config new g.limits c)
