-- ===== src/Breaker/Table.antt =====
-- internal/gateway/breaker.go: the gateway's table of breakers, one for each backend address. A
-- breaker is shared through its pointer, so a call on the one that `get_or_create` returns is a
-- write to the table. The double check under the write lock finds what the first lookup found,
-- since one call runs at a time here; the gauge that is set beside it is not modelled.
use game_gateway.Prelude.{
  ◌≡◌, refl, ap, ◌∙◌, ite, if_pos, if_neg, Option, none, some, List, [], ◌∷◌, arith, find, put,
  find-put, String, String-discrete,
}
use game_gateway.Breaker.{Breaker, new_breaker, Call, step, run}

abbrev pub Table : Type 0
Table = List (String × Breaker)

-- Five failures, thirty seconds.
unfoldable pub default_breaker : Breaker
unfolding new_breaker
default_breaker = new_breaker 5 30000000000

unfoldable pub get_or_create : String → Table → Breaker × Table
get_or_create addr table = elim (find String-discrete addr table) [
  | some b ↦ (b, table)
  | none ↦ (default_breaker, put String-discrete addr default_breaker table)
]

-- The breaker that `get_or_create` finds or makes.
abbrev pub breaker_or_default : Option Breaker → Breaker
breaker_or_default none = default_breaker
breaker_or_default (some b) = b

abbrev pub breaker_at : String → Table → Breaker
breaker_at addr table = breaker_or_default (find String-discrete addr table)

-- What a call on a breaker leaves in the table: the entry that points to it, if there is one, shows
-- the breaker as updated.
abbrev pub write_breaker : String → Breaker → Table → Table
write_breaker addr b table = elim (find String-discrete addr table) [
  | some old ↦ put String-discrete addr b table
  | none ↦ table
]

-- A call on the breaker of an address.
unfoldable pub call : Table → String × Call → Table
unfolding get_or_create
call table (addr, c) =
    let (b, table') = get_or_create addr table in write_breaker addr (step b c) table'

unfoldable pub run_table : Table → List (String × Call) → Table
unfolding call
run_table table [] = table
run_table table (c ∷ cs) = run_table (call table c) cs

-- The calls made on one address, in order.
abbrev pub calls_of : String → List (String × Call) → List Call
calls_of addr [] = []
calls_of addr ((a, c) ∷ cs) = ite (String-discrete a addr) (c ∷ calls_of addr cs) (calls_of addr cs)

-- The breaker of an address behind calls on it: the first one makes it.
abbrev pub made_and_run : Option Breaker → List Call → Option Breaker
made_and_run (some b) cs = some (run b cs)
made_and_run none [] = none
made_and_run none (c ∷ cs) = some (run (new_breaker 5 30000000000) (c ∷ cs))

abbrev breaker_or_new : Option Breaker → Breaker
breaker_or_new none = new_breaker 5 30000000000
breaker_or_new (some b) = b

find-call :
    (addr a : String) (c : Call) (table : Table)
    → find String-discrete addr (call table (a, c))
      ≡ ite
          (String-discrete a addr)
          (some (step (breaker_or_new (find String-discrete a table)) c))
          (find String-discrete addr table)
unfolding call default_breaker
find-call addr a c table = ground (
  arith,
  find-put String-discrete a a (new_breaker 5 30000000000) table,
  find-put String-discrete a addr (new_breaker 5 30000000000) table,
  find-put String-discrete a addr (step (new_breaker 5 30000000000) c)
      (put String-discrete a (new_breaker 5 30000000000) table),
  find-put String-discrete a addr (step (breaker_or_new (find String-discrete a table)) c) table,
)

made-none : (o : Option Breaker) → o ≡ made_and_run o []
unfolding run
made-none none = refl
made-none (some b) = refl

made-one :
    (o : Option Breaker) (c : Call) (cs : List Call)
    → made_and_run (some (step (breaker_or_new o) c)) cs ≡ made_and_run o (c ∷ cs)
unfolding run
made-one none c cs = refl
made-one (some b) c cs = refl

find-run_from :
    (addr : String) (cs : List (String × Call)) (table : Table)
    → find String-discrete addr (run_table table cs)
      ≡ made_and_run (find String-discrete addr table) (calls_of addr cs)
unfolding run_table run
find-run_from addr [] table = made-none (find String-discrete addr table)
find-run_from addr ((a, c) ∷ cs) table =
    find-run_from addr cs (call table (a, c))
    ∙ rw (find-call addr a c table) (elim (String-discrete a addr) [
      | yes e ↦
          rw
            (
              if_pos (String-discrete a addr) e
                  (some (step (breaker_or_new (find String-discrete a table)) c))
                  (find String-discrete addr table),
              if_pos (String-discrete a addr) e (c ∷ calls_of addr cs) (calls_of addr cs),
            )
            (ap
                (λ k.
                  made_and_run (some (step (breaker_or_new (find String-discrete k table)) c))
                    (calls_of addr cs))
                e
              ∙ made-one (find String-discrete addr table) c (calls_of addr cs))
      | no n ↦
          rw
            (
              if_neg (String-discrete a addr) n
                  (some (step (breaker_or_new (find String-discrete a table)) c))
                  (find String-discrete addr table),
              if_neg (String-discrete a addr) n (c ∷ calls_of addr cs) (calls_of addr cs),
            )
            refl
    ])

-- Whatever calls the gateway makes one behind the other, over any addresses, on an empty table: an address
-- that was never called has no breaker, and any other has the one that its own calls alone lead to
-- from a breaker of five failures and thirty seconds. No backend's failures open another backend's
-- breaker, and each call finds the breaker as the earlier ones left it.
pub find-run_table :
    (addr : String) (cs : List (String × Call))
    → find String-discrete addr (run_table [] cs) ≡ made_and_run none (calls_of addr cs)
find-run_table addr cs = find-run_from addr cs []
