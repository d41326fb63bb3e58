-- ===== src/Pool.antt =====
-- internal/pool/pool.go: the connections to one backend address. A connection is a handle into
-- the heap `conns`, so that the caller, the channel and the set of active connections share it.
-- `Get` is told whether the dial succeeds, and every call is told the time. A call is written here as
-- its atomic parts one behind the other: an access of the channel, or what is done under the lock.
-- Pool.Parts and Pool.Interleaving have the parts of several callers in any order.
pub mod Invariant
pub mod Exclusive
pub mod Parts
pub mod Interleaving
pub mod Cleanup
pub mod Manager
pub mod Active
mod Examples
use game_gateway.Prelude.{
  ℕ, zero, suc, ◌+◌, ◌-◌, Bool, true, false, not, ◌&&◌, Option, none, some, List, [], ◌∷◌, ◌++◌,
  ltb, leb, ◌==◌, if◌then◌else◌, length, delete, insert,
}

pub record Connection : Type 0 where
  pub created_at : ℕ
  pub last_used_at : ℕ
  pub in_use : Bool
  pub is_open : Bool

pub record Pool : Type 0 where
  pub idle_timeout : ℕ
  pub max_per_service : ℕ
  pub idle_conns : List ℕ  -- a channel of capacity `max_per_service`, oldest first
  pub active_conns : List ℕ
  pub active_count : ℕ
  pub conns : ℕ → Connection
  pub next : ℕ  -- the handle that the next dial makes

abbrev pub no_connection : Connection
no_connection = record { created_at = 0; last_used_at = 0; in_use = false; is_open = false }

unfoldable pub new_pool : ℕ → ℕ → Pool
new_pool idle_timeout max_per_service = record {
  idle_timeout = idle_timeout;
  max_per_service = max_per_service;
  idle_conns = [];
  active_conns = [];
  active_count = 0;
  conns = λ h. no_connection;
  next = 0;
}

abbrev pub write : (ℕ → Connection) → ℕ → Connection → ℕ → Connection
write conns h c j = if h == j then c else conns j

abbrev pub mark_in_use : ℕ → Connection → Connection
mark_in_use now c = record c { in_use = true; last_used_at = now }

abbrev pub mark_idle : ℕ → Connection → Connection
mark_idle now c = record c { in_use = false; last_used_at = now }

abbrev pub is_expired : ℕ → ℕ → Connection → Bool
is_expired idle_timeout now c = not c.in_use && ltb (c.last_used_at + idle_timeout) now

abbrev pub close_conn : Connection → Connection
close_conn c = record c { is_open = false }

-- Applies a method of a connection.
abbrev pub on_conn : ℕ → (Connection → Connection) → Pool → Pool
on_conn h f p = record p { conns = write p.conns h (f (p.conns h)) }

pub data Got : Type 0 where
  got : ℕ → Got
  pool_full dial_failed : Got

-- The part of `Get` under the lock, with a connection received from the channel.
abbrev pub take_up : ℕ → ℕ → Pool → Pool
take_up now h p =
    on_conn h (mark_in_use now)
      (record p { active_conns = insert h p.active_conns; active_count = p.active_count + 1 })

-- What `Get` and `Cleanup` do with a connection that they have received and do not keep.
abbrev pub discard : ℕ → Pool → Pool
discard h p = on_conn h close_conn (record p { active_conns = delete h p.active_conns })

-- The part of `Get` under the lock, when no idle connection can be used.
unfoldable pub open_new : ℕ → Bool → Pool → Got × Pool
open_new now dialled p =
    if leb p.max_per_service p.active_count
    then (pool_full, p)
    else if dialled
    then (
      got p.next,
      record p {
        conns =
            write p.conns p.next
              (record { created_at = now; last_used_at = now; in_use = true; is_open = true });
        active_conns = insert p.next p.active_conns;
        active_count = p.active_count + 1;
        next = p.next + 1;
      },
    )
    else (dial_failed, p)

-- `Get` with the connection that it has received from the channel.
reuse : ℕ → Bool → ℕ → Pool → Got × Pool
unfolding open_new
reuse now dialled h p =
    let fresh = open_new now dialled (discard h p) in
    let used = take_up now h p in
    if is_expired p.idle_timeout now (p.conns h) then fresh else (got h, used)

receive : ℕ → Bool → List ℕ → Pool → Got × Pool
unfolding reuse
receive now dialled [] p = open_new now dialled p
receive now dialled (h ∷ rest) p = reuse now dialled h (record p { idle_conns = rest })

unfoldable pub get : ℕ → Bool → Pool → Got × Pool
unfolding receive
get now dialled p = receive now dialled p.idle_conns p

-- A send that does not block: it does nothing if the channel is full.
abbrev pub offer : ℕ → Pool → Pool
offer h p =
    if ltb (length p.idle_conns) p.max_per_service
    then record p { idle_conns = p.idle_conns ++ h ∷ [] }
    else p

-- The part of `Put` under the lock.
abbrev pub put_locked : ℕ → ℕ → Pool → Pool
put_locked now h p =
    on_conn h (mark_idle now)
      (record p { active_conns = delete h p.active_conns; active_count = p.active_count - 1 })

-- The lock is given up before the send.
unfoldable pub put_back : ℕ → ℕ → Pool → Pool
put_back now h p = offer h (put_locked now h p)

unfoldable pub remove_conn : ℕ → Pool → Pool
remove_conn h p =
    on_conn h close_conn
      (record p { active_conns = delete h p.active_conns; active_count = p.active_count - 1 })

-- The loop of `Cleanup`, on fuel: `none` means that the fuel ran out. Its `i`-th test of a
-- connection reads the clock as `clock i`.
cleanup_loop : ℕ → (ℕ → ℕ) → ℕ → Pool → ℕ → Option (Pool × ℕ)
cleanup_loop zero clock i p count = none
cleanup_loop (suc fuel) clock i p count = elim p.idle_conns [
  | [] ↦ some (p, count)
  | h ∷ rest ↦
      let q = record p { idle_conns = rest } in
      let dropped = discard h q in
      elim (is_expired p.idle_timeout (clock i) (p.conns h)) [
        | true ↦ cleanup_loop fuel clock (suc i) dropped (count + 1)
        | false ↦ elim (ltb (length rest) p.max_per_service) [
          | true ↦ cleanup_loop fuel clock (suc i) (record q { idle_conns = rest ++ h ∷ [] }) count
          | false ↦ cleanup_loop fuel clock (suc i) dropped (count + 1)
        ]
      ]
]

unfoldable pub cleanup : ℕ → (ℕ → ℕ) → Pool → Option (Pool × ℕ)
unfolding cleanup_loop
cleanup fuel clock p = cleanup_loop fuel clock 0 p 0

pub record Stats : Type 0 where
  pub total : ℕ
  pub active : ℕ
  pub idle : ℕ

unfoldable pub stats : Pool → Stats
stats p = record {
  total = p.active_count + length p.idle_conns;
  active = p.active_count;
  idle = length p.idle_conns;
}

close_all : List ℕ → Pool → Pool
close_all [] p = p
close_all (h ∷ hs) p = close_all hs (on_conn h close_conn p)

unfoldable pub close_pool : Pool → Pool
unfolding close_all
close_pool p = record (close_all p.idle_conns (close_all p.active_conns p)) {
  active_conns = [];
  idle_conns = [];
  active_count = 0;
}
