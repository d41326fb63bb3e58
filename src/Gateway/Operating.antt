-- ===== src/Gateway/Operating.antt =====
-- The accounts of the whole gateway, from its start on (internal/gateway/gateway.go,
-- handleConnection, handleTCPConnection).
use game_gateway.Gateway.{Gateway, admit, reloaded_if, update_config, new_gateway}
use game_gateway.Prelude.{
  ℕ, ◌≡◌, refl, sym, ap, ◌∙◌, subst, inl, Option, none, some, List, [], arith, ℕ_discrete, find,
  String, ℤ, pos,
}
use game_gateway.Config.Schema.{Config}
use game_gateway.Config.{ConfigError, validate_config}
use game_gateway.Router.{RoutingRule}
use game_gateway.Limiter
use game_gateway.IpLimiter
use game_gateway.IpLimiter.{IpLimiter, conns_of}
use game_gateway.Pool
use game_gateway.Session
use game_gateway.Session.Table.{apply_all, Valid, run-Valid, new-get}
use game_gateway.Gateway.Resources.{in_use}
use game_gateway.Gateway.Limiting.{admit-Counted, update_config-Counted}
use game_gateway.Gateway.Totals.{total}
use game_gateway.Gateway.Accounting.{rate_of, ip_of, conn_of, id_of, Accounted, arrived-Accounted}
use game_gateway.Gateway.Lifecycle.{
  Live, System, new_system, arrive, start, stop, forget, reroute, reload, Step, arrives, starts,
  stops, forgets, reroutes, reloads, Reach, here, next,
}
use game_gateway.Gateway.Stages.{
  start_live-Accounted, remove_session-Valid, remove_session-get, stop_live-Accounted,
}

forget-Accounted : (id : ℤ) (s : System) → Accounted s → Accounted (forget id s)
unfolding forget
forget-Accounted id s h = record {
  counted = h.counted;
  conns = h.conns;
  absent =
      λ j z. remove_session-get id j s.gateway.core.sessions h.valid ∙ ground (arith, h.absent j z);
  valid = remove_session-Valid id s.gateway.core.sessions h.valid;
  unique = h.unique;
  fresh = h.fresh;
}

reroute-Accounted : (rule : RoutingRule) (s : System) → Accounted s → Accounted (reroute rule s)
unfolding reroute
reroute-Accounted rule s h = record {
  counted = h.counted;
  conns = h.conns;
  absent = h.absent;
  valid = h.valid;
  unique = h.unique;
  fresh = h.fresh;
}

update_config-core :
    (new : Config) (now : ℕ) (g : Gateway) → (update_config new now g).1.core ≡ g.core
unfolding update_config
update_config-core new now g = from (validate_config new)
  where
    from : (o : Option ConfigError) → (reloaded_if o new now g).1.core ≡ g.core
    from (some e) = refl
    from none = refl

reload-Accounted :
    (new : Config) (now : ℕ) (s : System) → Accounted s → Accounted (reload new now s)
unfolding reload
reload-Accounted new now s h =
    let same = update_config-core new now s.gateway in
    record {
      counted =
          update_config-Counted (λ n. total (rate_of n) s.live) (λ j n. total (ip_of j n) s.live)
            new now s.gateway h.counted;
      conns = λ a. ap (in_use a) same ∙ h.conns a;
      absent = λ id z. ap (λ k. Session.get id k.sessions) same ∙ h.absent id z;
      valid = subst (λ k. Valid k.sessions) (sym same) h.valid;
      unique = h.unique;
      fresh = h.fresh;
    }

Step-Accounted : {s t : System} → Step s t → Accounted s → Accounted t
unfolding arrive start stop
Step-Accounted (arrives ip now s) h =
    arrived-Accounted (admit ip now s.gateway.limits) s
      (admit-Counted (λ n. total (rate_of n) s.live) (λ j n. total (ip_of j n) s.live) ip now
        s.gateway.limits h.counted)
      h
Step-Accounted (starts env c bytes s) h =
    start_live-Accounted env c bytes (find ℕ_discrete c s.live) s refl h
Step-Accounted (stops now c s) h = stop_live-Accounted now c (find ℕ_discrete c s.live) s refl h
Step-Accounted (forgets id s) h = forget-Accounted id s h
Step-Accounted (reroutes rule s) h = reroute-Accounted rule s h
Step-Accounted (reloads new now s) h = reload-Accounted new now s h

Reach-Accounted : {s t : System} → Accounted s → Reach s t → Accounted t
Reach-Accounted h here = h
Reach-Accounted h (next r s) = Step-Accounted s (Reach-Accounted h r)

new_system-Accounted :
    (cfg : Config) (pod_name : List ℕ) (now : ℕ) → Accounted (new_system cfg pod_name now)
unfolding new_system new_gateway Limiter.new_limiter IpLimiter.new_ip_limiter
    Pool.Manager.new_manager Pool.new_pool apply_all
new_system-Accounted cfg pod_name now = record {
  counted = record {
    rate = record { current = refl; within = inl refl; later = λ n l. refl };
    ip = record {
      counts = λ j. refl;
      within = λ j. omega arith;
      later = λ j n l. refl;
      positive = tt;
    };
  };
  conns = λ a. refl;
  absent = λ id z. new-get id;
  valid = run-Valid [];
  unique = tt;
  fresh = λ c l. refl;
}

-- However connections arrive at a new gateway, start, fail and end, and sessions, rules and
-- configurations change in between, where a connection's passing of its limits with the set-up of its
-- releases, its way to a session, and its end are each one part: the count of the limiter of all is the number of the live connections that it let in,
-- and the count that the other limiter has of an address is the number of the live connections from
-- it that this limiter let in, both at most their limit; the pool of every backend counts as many
-- connections in use as live sessions hold of it; and a session that no live connection has is not
-- in the table.
pub connections-Accounted :
    (cfg : Config) (pod_name : List ℕ) (now : ℕ) (s : System)
    → Reach (new_system cfg pod_name now) s
    → Accounted s
connections-Accounted cfg pod_name now s r =
    Reach-Accounted (new_system-Accounted cfg pod_name now) r

-- After any such history of a new gateway, when no connection is live, everything has been given
-- back: both limiters count none, no backend connection is in use, and there is no session.
pub all_released :
    (cfg : Config) (pod_name : List ℕ) (now : ℕ) (s : System)
    → Reach (new_system cfg pod_name now) s
    → s.live ≡ []
    → (s.gateway.limits.rate_limiter.current ≡ pos 0)
      × ((ip : String) → conns_of ip s.gateway.limits.ip_limiter ≡ 0)
      × ((a : String) → in_use a s.gateway.core ≡ 0)
      × ((id : ℤ) → Session.get id s.gateway.core.sessions ≡ none)
all_released cfg pod_name now s r e =
    let h = connections-Accounted cfg pod_name now s r in
    let none_live = λ (f : Live → ℕ). ap (total f) e in
    (
      h.counted.rate.current ∙ ap pos (none_live (rate_of s.gateway.limits.rate_generation)),
      λ ip. h.counted.ip.counts ip ∙ none_live (ip_of ip s.gateway.limits.ip_generation),
      λ a. h.conns a ∙ none_live (conn_of a),
      λ id. h.absent id (none_live (id_of id)),
    )
