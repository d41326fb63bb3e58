-- ===== src/IpLimiter/Window.antt =====
-- The sliding-window limiter that internal/ratelimit/ip_limiter.go means to be: it forgets
-- nothing, and counts over the whole log of an address's admissions.
use game_gateway.Prelude.{
  ℕ, suc, ◌+◌, ◌-◌, ◌≤◌, ite, Bool, true, false, List, [], ◌∷◌, ◌++◌, String, String-discrete, leb,
  if◌then◌else◌,
}
use game_gateway.IpLimiter.{Call, allows, releases}

pub record Entry : Type 0 where
  pub active : ℕ
  pub log : List ℕ

abbrev pub IdealState : Type 0
IdealState = String → Entry

abbrev pub update : IdealState → String → Entry → IdealState
update s ip e j = ite (String-discrete ip j) e (s j)

abbrev pub nobody : IdealState
nobody ip = record { active = 0; log = [] }

-- How many of the times in a log are less than a second ago.
unfoldable pub in_last_second : ℕ → List ℕ → ℕ
in_last_second now [] = 0
in_last_second now (ts ∷ rest) =
    if leb (ts + 1000000000) now then in_last_second now rest else suc (in_last_second now rest)

-- An address is let in if it has fewer than `max` open connections and was let in fewer than
-- `rate` times in the last second.
unfoldable pub ideal_step : ℕ → ℕ → IdealState → Call → IdealState × Bool
ideal_step max rate s (allows ip now) =
    let e = s ip in
    if leb max e.active
    then (s, false)
    else if leb rate (in_last_second now e.log)
    then (s, false)
    else (update s ip (record { active = e.active + 1; log = e.log ++ now ∷ [] }), true)
ideal_step max rate s (releases ip now) =
    let e = s ip in (update s ip (record e { active = e.active - 1 }), true)

unfoldable pub ideal_answers : ℕ → ℕ → IdealState → List Call → List Bool
ideal_answers max rate s [] = []
ideal_answers max rate s (c ∷ cs) =
    (ideal_step max rate s c).1 ∷ ideal_answers max rate (ideal_step max rate s c).0 cs

abbrev pub time_of : Call → ℕ
time_of (allows ip now) = now
time_of (releases ip now) = now

-- The clock does not run backwards from one call to the next.
abbrev pub Ordered : ℕ → List Call → Type 0
Ordered clock [] = Unit {0}
Ordered clock (c ∷ cs) = (clock ≤ time_of c) × Ordered (time_of c) cs
