-- ===== src/IpLimiter/Ideal.antt =====
-- The limiter of internal/ratelimit/ip_limiter.go simulates the ideal one.
use game_gateway.IpLimiter.Window.{
  IdealState, nobody, in_last_second, ideal_step, ideal_answers, time_of, Ordered,
}
use game_gateway.Prelude.{
  ℕ, ◌+◌, ◌-◌, ◌≤◌, ◌≡◌, refl, ◌∙◌, inl, inr, ite, List, [], ◌∷◌, ◌++◌, arith, find-put,
  find-remove, String, String-discrete, length,
}
use game_gateway.IpLimiter.{
  IpLimiter, new_ip_limiter, conns_of, tracker_of, periodic_cleanup, recent, admit, allow, release,
  Call, allows, releases, step, answers,
}
use game_gateway.IpLimiter.Growth.{NoZero, periodic_cleanup-NoZero, admit-NoZero, release-NoZero}

recent-recent : (s t : ℕ) (xs : List ℕ) → s ≤ t → recent t (recent s xs) ≡ recent t xs
recent-recent s t [] h = refl
recent-recent s t (x ∷ xs) h = ground (arith, recent-recent s t xs h)

length-recent : (t : ℕ) (xs : List ℕ) → length (recent t xs) ≡ in_last_second t xs
unfolding in_last_second
length-recent t [] = refl
length-recent t (x ∷ xs) = ground (arith, length-recent t xs)

recent-append : (t : ℕ) (xs ys : List ℕ) → recent t (xs ++ ys) ≡ recent t xs ++ recent t ys
recent-append t [] ys = refl
recent-append t (x ∷ xs) ys = ground (arith, recent-append t xs ys)

-- The limiter `l` at time `clock` stands for the ideal state `s`.
record Sim (max rate clock : ℕ) (l : IpLimiter) (s : IdealState) : Type 0 where
  max_same : l.max_conns_per_ip ≡ max
  rate_same : l.rate_limit ≡ rate
  no_zero : NoZero l
  counts : (ip : String) → conns_of ip l ≡ (s ip).active
  logs :
      (ip : String) (t : ℕ)
      → clock ≤ t
      → recent t (tracker_of ip l).connections ≡ recent t (s ip).log

module _ (max rate clock now : ℕ) (ip : String) (l : IpLimiter) (s : IdealState) where
  admit-answer :
      clock ≤ now
      → Sim max rate clock l s
      → (admit ip now l).1 ≡ (ideal_step max rate s (allows ip now)).1
  unfolding admit ideal_step
  admit-answer h v =
      ground
        (arith, v.counts ip, v.logs ip now h, length-recent now (s ip).log, v.max_same, v.rate_same)

  admit-counts :
      clock ≤ now
      → Sim max rate clock l s
      → (j : String)
      → conns_of j (admit ip now l).0 ≡ ((ideal_step max rate s (allows ip now)).0 j).active
  unfolding admit ideal_step
  admit-counts h v j = ground (
    arith,
    v.counts ip,
    v.counts j,
    v.logs ip now h,
    length-recent now (s ip).log,
    v.max_same,
    v.rate_same,
    find-put String-discrete ip j (conns_of ip l + 1) l.ip_conns,
  )

  admit-logs :
      clock ≤ now
      → Sim max rate clock l s
      → (j : String) (t : ℕ) → now ≤ t
      → recent t (tracker_of j (admit ip now l).0).connections
        ≡ recent t ((ideal_step max rate s (allows ip now)).0 j).log
  unfolding admit ideal_step
  admit-logs h v j t ht =
      let rate' = tracker_of ip l in
      let kept = recent now rate'.connections in
      ground (
        arith,
        v.counts ip,
        v.logs ip now h,
        length-recent now (s ip).log,
        v.logs ip t (omega arith),
        v.logs j t (omega arith),
        v.max_same,
        v.rate_same,
        recent-recent now t rate'.connections ht,
        recent-append t kept (now ∷ []),
        recent-append t (s ip).log (now ∷ []),
        find-put String-discrete ip j (record rate' { connections = kept }) l.ip_rates,
        find-put String-discrete ip j (record rate' { connections = kept ++ now ∷ [] }) l.ip_rates,
      )

cleaned-Sim :
    (max rate clock now : ℕ) (l : IpLimiter) (s : IdealState)
    → Sim max rate clock l s
    → Sim max rate clock (periodic_cleanup now l) s
cleaned-Sim max rate clock now l s v = elim (periodic_cleanup-NoZero now l v.no_zero) [
  | inl e ↦ rw e v
  | inr e ↦ rw e (record {
    max_same = v.max_same;
    rate_same = v.rate_same;
    no_zero = v.no_zero;
    counts = v.counts;
    logs = v.logs;
  })
]

pub admit-limits :
    (ip : String) (now : ℕ) (l : IpLimiter)
    → ((admit ip now l).0.max_conns_per_ip ≡ l.max_conns_per_ip)
      × ((admit ip now l).0.rate_limit ≡ l.rate_limit)
unfolding admit
admit-limits ip now l = ground arith

pub release-limits :
    (ip : String) (l : IpLimiter)
    → ((release ip l).max_conns_per_ip ≡ l.max_conns_per_ip)
      × ((release ip l).rate_limit ≡ l.rate_limit)
      × ((release ip l).ip_rates ≡ l.ip_rates)
unfolding release
release-limits ip l = ground arith

pub release-conns_of :
    (ip j : String) (l : IpLimiter)
    → conns_of j (release ip l) ≡ ite (String-discrete ip j) (conns_of ip l - 1) (conns_of j l)
unfolding release
release-conns_of ip j l = ground (
  arith,
  find-put String-discrete ip j (conns_of ip l - 1) l.ip_conns,
  find-remove String-discrete ip j l.ip_conns,
)

admit-Sim :
    (max rate clock now : ℕ) (ip : String) (l : IpLimiter) (s : IdealState)
    → clock ≤ now
    → Sim max rate clock l s
    → Sim max rate now (admit ip now l).0 (ideal_step max rate s (allows ip now)).0
admit-Sim max rate clock now ip l s h v = record {
  max_same = (admit-limits ip now l).0 ∙ v.max_same;
  rate_same = (admit-limits ip now l).1 ∙ v.rate_same;
  no_zero = admit-NoZero ip now l v.no_zero;
  counts = admit-counts max rate clock now ip l s h v;
  logs = admit-logs max rate clock now ip l s h v;
}

release-Sim :
    (max rate clock now : ℕ) (ip : String) (l : IpLimiter) (s : IdealState)
    → clock ≤ now
    → Sim max rate clock l s
    → Sim max rate now (release ip l) (ideal_step max rate s (releases ip now)).0
unfolding ideal_step
release-Sim max rate clock now ip l s h v =
    let (a, b, c) = release-limits ip l in
    record {
      max_same = a ∙ v.max_same;
      rate_same = b ∙ v.rate_same;
      no_zero = release-NoZero ip l v.no_zero;
      counts = λ j. rw release-conns_of (ground (arith, v.counts ip, v.counts j));
      logs = λ j t ht. rw c (ground (arith, v.logs j t (omega arith)));
    }

step-Sim :
    (max rate clock : ℕ) (l : IpLimiter) (s : IdealState) (c : Call)
    → clock ≤ time_of c
    → Sim max rate clock l s
    → Sim max rate (time_of c) (step l c).0 (ideal_step max rate s c).0
      × ((step l c).1 ≡ (ideal_step max rate s c).1)
unfolding step allow
step-Sim max rate clock l s (allows ip now) h v =
    let l' = periodic_cleanup now l in
    let v' = cleaned-Sim max rate clock now l s v in
    (admit-Sim max rate clock now ip l' s h v', admit-answer max rate clock now ip l' s h v')
step-Sim max rate clock l s (releases ip now) h v =
    (release-Sim max rate clock now ip l s h v, unfold ideal_step in refl)

answers-Sim :
    (max rate clock : ℕ) (l : IpLimiter) (s : IdealState) (cs : List Call)
    → Ordered clock cs
    → Sim max rate clock l s
    → answers l cs ≡ ideal_answers max rate s cs
unfolding answers ideal_answers
answers-Sim max rate clock l s [] o v = refl
answers-Sim max rate clock l s (c ∷ cs) o v =
    let (v', e) = step-Sim max rate clock l s c o.0 v in
    ground (
      arith,
      e,
      answers-Sim max rate (time_of c) (step l c).0 (ideal_step max rate s c).0 cs o.1 v',
    )

-- A new limiter answers every history of calls, over any addresses and with a clock that does not
-- run backwards, as the ideal sliding-window limiter does that keeps the whole log: pruning old
-- timestamps, deleting counts at zero and the periodic cleanup never change an answer.
pub answers-eq-ideal :
    (max rate start : ℕ) (cs : List Call)
    → Ordered start cs
    → answers (new_ip_limiter max rate start) cs ≡ ideal_answers max rate nobody cs
unfolding new_ip_limiter
answers-eq-ideal max rate start cs o =
    answers-Sim max rate start (new_ip_limiter max rate start) nobody cs o (record {
      max_same = refl;
      rate_same = refl;
      no_zero = tt;
      counts = λ ip. refl;
      logs = λ ip t h. refl;
    })
