-- ===== src/IpLimiter.antt =====
-- internal/ratelimit/ip_limiter.go: the limits on the connections and on the connection rate of
-- each client address. Times are nanoseconds; `Allow` reads the clock once here, as `now`. The
-- limits are not negative, the lock is held during a whole call, and a missing key of a Go map
-- reads as 0.
pub mod Window
pub mod Ideal
pub mod Cap
pub mod Growth
pub mod Counts
mod Examples
use game_gateway.Prelude.{
  ℕ, ◌+◌, ◌-◌, Bool, true, false, Option, none, some, List, [], ◌∷◌, ◌++◌, find, put, remove,
  String, String-discrete, ltb, leb, ◌==◌, if◌then◌else◌, length,
}

abbrev pub second : ℕ
second = 1000000000

abbrev pub cleanup_interval : ℕ
cleanup_interval = 300000000000

pub record RateTracker : Type 0 where
  pub connections : List ℕ
  pub window : ℕ

pub record IpLimiter : Type 0 where
  pub max_conns_per_ip : ℕ
  pub rate_limit : ℕ
  pub ip_conns : List (String × ℕ)
  pub ip_rates : List (String × RateTracker)
  pub last_cleanup : ℕ

unfoldable pub new_ip_limiter : ℕ → ℕ → ℕ → IpLimiter
new_ip_limiter max_conns_per_ip rate_limit now = record {
  max_conns_per_ip = max_conns_per_ip;
  rate_limit = rate_limit;
  ip_conns = [];
  ip_rates = [];
  last_cleanup = now;
}

abbrev pub count_or_zero : Option ℕ → ℕ
count_or_zero none = 0
count_or_zero (some n) = n

abbrev pub conns_of : String → IpLimiter → ℕ
conns_of ip l = count_or_zero (find String-discrete ip l.ip_conns)

abbrev pub tracker_or_new : Option RateTracker → RateTracker
tracker_or_new none = record { connections = []; window = second }
tracker_or_new (some r) = r

-- `getOrCreateRateTracker`; the tracker is written back by its caller, under the same key.
abbrev pub tracker_of : String → IpLimiter → RateTracker
tracker_of ip l = tracker_or_new (find String-discrete ip l.ip_rates)

-- The loop of `cleanup` over the entries of `ipConns`.
cleanup_from : List (String × ℕ) → IpLimiter → IpLimiter
cleanup_from [] l = l
cleanup_from ((ip, count) ∷ rest) l = cleanup_from rest (
    if count == 0
    then record l {
      ip_conns = remove String-discrete ip l.ip_conns;
      ip_rates = remove String-discrete ip l.ip_rates;
    }
    else l)

unfoldable pub cleanup : IpLimiter → IpLimiter
unfolding cleanup_from
cleanup l = cleanup_from l.ip_conns l

unfoldable pub periodic_cleanup : ℕ → IpLimiter → IpLimiter
periodic_cleanup now l =
    if ltb (l.last_cleanup + cleanup_interval) now
    then record (cleanup l) { last_cleanup = now }
    else l

-- The entries after `now` minus one second.
abbrev pub recent : ℕ → List ℕ → List ℕ
recent now [] = []
recent now (ts ∷ rest) =
    let kept = recent now rest in if ltb now (ts + second) then ts ∷ kept else kept

-- The part of `Allow` behind the cleanup.
pub admit : String → ℕ → IpLimiter → IpLimiter × Bool
admit ip now l =
    let current = conns_of ip l in
    let rate = tracker_of ip l in
    let kept = recent now rate.connections in
    let pruned = record l {
      ip_rates = put String-discrete ip (record rate { connections = kept }) l.ip_rates;
    } in
    if leb l.max_conns_per_ip current
    then (l, false)
    else if leb l.rate_limit (length kept)
    then (pruned, false)
    else (
      record l {
        ip_rates =
            put String-discrete ip (record rate { connections = kept ++ now ∷ [] }) l.ip_rates;
        ip_conns = put String-discrete ip (current + 1) l.ip_conns;
      },
      true,
    )

unfoldable pub allow : String → ℕ → IpLimiter → IpLimiter × Bool
unfolding periodic_cleanup admit
allow ip now l = admit ip now (periodic_cleanup now l)

unfoldable pub release : String → IpLimiter → IpLimiter
release ip l =
    let count = conns_of ip l in
    if ltb 0 count
    then record l {
      ip_conns =
          if count - 1 == 0
          then remove String-discrete ip l.ip_conns
          else put String-discrete ip (count - 1) l.ip_conns;
    }
    else l

pub record Stats : Type 0 where
  pub conn_count : ℕ
  pub rate_count : ℕ

unfoldable pub get_stats : String → IpLimiter → Stats
get_stats ip l = record {
  conn_count = conns_of ip l;
  rate_count = length (tracker_of ip l).connections;
}

-- What the gateway calls, each at its time; `Release` reads no clock.
pub data Call : Type 0 where
  allows releases : String → ℕ → Call

unfoldable pub step : IpLimiter → Call → IpLimiter × Bool
unfolding allow release
step l (allows ip now) = allow ip now l
step l (releases ip now) = (release ip l, true)

unfoldable pub run : IpLimiter → List Call → IpLimiter
unfolding step
run l [] = l
run l (c ∷ cs) = run (step l c).0 cs

-- The answers of the calls, in order.
unfoldable pub answers : IpLimiter → List Call → List Bool
unfolding step
answers l [] = []
answers l (c ∷ cs) = (step l c).1 ∷ answers (step l c).0 cs
