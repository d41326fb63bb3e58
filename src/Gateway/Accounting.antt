-- ===== src/Gateway/Accounting.antt =====
-- Everything that a connection takes is given back, whatever happens to it and in whatever order
-- the connections' parts run (internal/gateway/gateway.go, handleConnection, handleTCPConnection).
use game_gateway.Gateway.Limiting.{Counted, WithAdmitted, leave-Counted}
use game_gateway.Prelude.{
  ℕ, ◌+◌, ◌≤◌, ◌≡◌, sym, ap, ◌∙◌, subst, ◌⊎◌, true, Option, none, some, arith, ℕ_discrete, find,
  remove, find-remove, Unique, remove-Unique, String, ℤ, pos, leb_ℤ,
}
use game_gateway.Session
use game_gateway.Session.Table.{Valid}
use game_gateway.Gateway.{Limits, Core, Admitted}
use game_gateway.Gateway.Establish.{Serving}
use game_gateway.Gateway.Resources.{in_use, holds, has_id}
use game_gateway.Gateway.Counting.{one_at, one_from}
use game_gateway.Gateway.Totals.{total, total-remove}
use game_gateway.Gateway.Lifecycle.{Live, System, set_core, arrived, gone}

-- What a live connection counts for: in the `n`-th limiter of all, in the `n`-th limiter by address,
-- at a backend, and under a session number.
abbrev pub rate_of : ℕ → Live → ℕ
rate_of n l = one_at l.admitted.rate_generation n

abbrev pub ip_of : String → ℕ → Live → ℕ
ip_of j n l = one_from l.admitted.ip l.admitted.ip_generation j n

abbrev pub held_by : (Serving → ℕ) → Option Serving → ℕ
held_by f none = 0
held_by f (some v) = f v

abbrev pub conn_of : String → Live → ℕ
conn_of a l = held_by (holds a) l.serving

abbrev pub id_of : ℤ → Live → ℕ
id_of id l = held_by (has_id id) l.serving

-- The limiters count the live connections that they let in, the pool of each backend has in use what
-- the live connections hold of it, and a session that no live connection has is not in the table.
pub record Accounted (s : System) : Type 0 where
  pub counted :
      Counted (λ n. total (rate_of n) s.live) (λ j n. total (ip_of j n) s.live) s.gateway.limits
  pub conns : (a : String) → in_use a s.gateway.core ≡ total (conn_of a) s.live
  pub absent :
      (id : ℤ) → total (id_of id) s.live ≡ 0 → Session.get id s.gateway.core.sessions ≡ none
  pub valid : Valid s.gateway.core.sessions
  pub unique : Unique ℕ_discrete s.live
  pub fresh : (c : ℕ) → s.next_conn ≤ c → find ℕ_discrete c s.live ≡ none

pub Counted-cong :
    (rates rates' : ℕ → ℕ) (ips ips' : String → ℕ → ℕ) (g : Limits)
    → ((n : ℕ) → rates n ≡ rates' n)
    → ((j : String) (n : ℕ) → ips j n ≡ ips' j n)
    → Counted rates ips g
    → Counted rates' ips' g
Counted-cong rates rates' ips ips' g e f c = record {
  rate = record {
    current = c.rate.current ∙ ap pos (e g.rate_generation);
    within =
        subst (λ n. (n ≡ 0) ⊎ (leb_ℤ (pos n) g.rate_limiter.max_conns ≡ true)) (e g.rate_generation)
          c.rate.within;
    later = λ n l. sym (e n) ∙ c.rate.later n l;
  };
  ip = record {
    counts = λ j. c.ip.counts j ∙ f j g.ip_generation;
    within = λ j. omega (arith, c.ip.within j, f j g.ip_generation);
    later = λ j n l. sym (f j n) ∙ c.ip.later j n l;
    positive = c.ip.positive;
  };
}

pub arrived-Accounted :
    (r : Option Admitted × Limits) (s : System)
    → WithAdmitted (λ n. total (rate_of n) s.live) (λ j n. total (ip_of j n) s.live) r
    → Accounted s
    → Accounted (arrived r s)
arrived-Accounted (none, l) s w h = record {
  counted = w;
  conns = h.conns;
  absent = h.absent;
  valid = h.valid;
  unique = h.unique;
  fresh = h.fresh;
}
arrived-Accounted (some a, l) s w h = record {
  counted = w;
  conns = λ j. h.conns j ∙ omega arith;
  absent = λ id e. h.absent id (omega (arith, e));
  valid = h.valid;
  unique = (h.fresh s.next_conn (omega arith), h.unique);
  fresh = λ c l. ground (arith, h.fresh c);
}

-- A connection that goes, with what it still held given back.
pub gone-Accounted :
    (c : ℕ) (l : Live) (k : Core) (s : System)
    → find ℕ_discrete c s.live ≡ some l
    → Accounted s
    → Valid k.sessions
    → ((a : String) → in_use a k + conn_of a l ≡ in_use a s.gateway.core)
    → ((id : ℤ)
        → total (id_of id) (remove ℕ_discrete c s.live) ≡ 0
        → Session.get id k.sessions ≡ none)
    → Accounted (gone c l (set_core k s))
gone-Accounted c l k s e h v u a = record {
  counted =
      leave-Counted (λ n. total (rate_of n) s.live)
        (λ n. total (rate_of n) (remove ℕ_discrete c s.live)) (λ j n. total (ip_of j n) s.live)
        (λ j n. total (ip_of j n) (remove ℕ_discrete c s.live)) l.admitted s.gateway.limits
        h.counted (λ n. sym (total-remove (rate_of n) c l s.live h.unique e))
        (λ j n. sym (total-remove (ip_of j n) c l s.live h.unique e));
  conns = λ j. omega (arith, u j, h.conns j, total-remove (conn_of j) c l s.live h.unique e);
  absent = a;
  valid = v;
  unique = remove-Unique ℕ_discrete c s.live h.unique;
  fresh = λ d m. ground (arith, find-remove ℕ_discrete c d s.live, h.fresh d m);
}
