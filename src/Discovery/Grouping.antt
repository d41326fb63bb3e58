-- ===== src/Discovery/Grouping.antt =====
-- The services that discovery finds, by world (internal/consul/discovery.go, DiscoverServices).
use game_gateway.Prelude.{
  ◌≡◌, refl, ap, ◌∙◌, inl, inr, ite, if_pos, if_neg, Bool, true, false, ◌&&◌, Option, none, some,
  List, [], ◌∷◌, ◌++◌, append_assoc, append-nil, find, find-put, Unique, put-Unique, String,
  ℤ-discrete, ℤ, if◌then◌else◌, Bool-cases,
}
use game_gateway.Discovery.{
  ServiceEntry, in_namespace, world_of, entries_or_none, Services, entries_of, add_entry,
  group_services, answered, discover_services,
}

abbrev pub is_world : ℤ → Option ℤ → Bool
is_world w none = false
is_world w (some v) = ite (ℤ-discrete v w) true false

abbrev pub belongs_to : String → ℤ → ServiceEntry → Bool
belongs_to namespace w s = in_namespace namespace s && is_world w (world_of s)

-- The services of a world in a namespace, in the order of the answer.
abbrev pub selected : String → ℤ → List ServiceEntry → List ServiceEntry
selected namespace w [] = []
selected namespace w (s ∷ ss) =
    let rest = selected namespace w ss in if belongs_to namespace w s then s ∷ rest else rest

-- A world with no service has no entry in the map.
abbrev pub present : List ServiceEntry → Option (List ServiceEntry)
present [] = none
present (s ∷ ss) = some (s ∷ ss)

present-append :
    (ss : List ServiceEntry) (s : ServiceEntry) → some (ss ++ s ∷ []) ≡ present (ss ++ s ∷ [])
present-append [] s = refl
present-append (x ∷ ss) s = refl

entries-present : (ss : List ServiceEntry) → entries_or_none (present ss) ≡ ss
entries-present [] = refl
entries-present (s ∷ ss) = refl

-- Adding an entry appends it to the list of its own world.
add_entry-find :
    (o : Option ℤ) (s : ServiceEntry) (services : Services) (w : ℤ) (ss : List ServiceEntry)
    → find ℤ-discrete w services ≡ present ss
    → find ℤ-discrete w (add_entry o s services)
      ≡ present (ss ++ (if is_world w o then s ∷ [] else []))
add_entry-find none s services w ss h = rw (append-nil ss) h
add_entry-find (some v) s services w ss h = elim (ℤ-discrete v w) [
  | yes e ↦
      let own : find ℤ-discrete v services ≡ present ss = rw e h in
      find-put ℤ-discrete v w (entries_of v services ++ s ∷ []) services
      ∙ rw (if_pos (ℤ-discrete v w) e, if_pos (ℤ-discrete v w) e, own, entries-present ss)
          (present-append ss s)
  | no n ↦
      find-put ℤ-discrete v w (entries_of v services ++ s ∷ []) services
      ∙ rw (if_neg (ℤ-discrete v w) n, if_neg (ℤ-discrete v w) n, append-nil ss) h
]

pub group_services-find :
    (namespace : String) (found : List ServiceEntry) (services : Services) (w : ℤ)
    (ss : List ServiceEntry)
    → find ℤ-discrete w services ≡ present ss
    → find ℤ-discrete w (group_services namespace found services)
      ≡ present (ss ++ selected namespace w found)
unfolding group_services
group_services-find namespace [] services w ss h = rw (append-nil ss) h
group_services-find namespace (s ∷ found) services w ss h =
    elim (Bool-cases (in_namespace namespace s)) [
      | inl e ↦ rw e (
          group_services-find namespace found (add_entry (world_of s) s services) w
            (ss ++ (if is_world w (world_of s) then s ∷ [] else []))
            (add_entry-find (world_of s) s services w ss h)
          ∙ ap present (
              append_assoc ss (if is_world w (world_of s) then s ∷ [] else [])
                (selected namespace w found)
              ∙ ap (◌++◌ ss) (one (is_world w (world_of s)) s (selected namespace w found))))
      | inr e ↦ rw e (group_services-find namespace found services w ss h)
    ]
  where
    one :
        (b : Bool) (s : ServiceEntry) (rest : List ServiceEntry)
        → (if b then s ∷ [] else []) ++ rest ≡ (if b then s ∷ rest else rest)
    one true s rest = refl
    one false s rest = refl

add_entry-Unique :
    (o : Option ℤ) (s : ServiceEntry) (services : Services)
    → Unique ℤ-discrete services
    → Unique ℤ-discrete (add_entry o s services)
add_entry-Unique none s services u = u
add_entry-Unique (some v) s services u =
    put-Unique ℤ-discrete v (entries_of v services ++ s ∷ []) services u

pub group_services-Unique :
    (namespace : String) (found : List ServiceEntry) (services : Services)
    → Unique ℤ-discrete services
    → Unique ℤ-discrete (group_services namespace found services)
unfolding group_services
group_services-Unique namespace [] services u = u
group_services-Unique namespace (s ∷ found) services u =
    elim (Bool-cases (in_namespace namespace s)) [
      | inl e ↦ rw e (
          group_services-Unique namespace found (add_entry (world_of s) s services)
            (add_entry-Unique (world_of s) s services u))
      | inr e ↦ rw e (group_services-Unique namespace found services u)
    ]

-- Of an answer of Consul, discovery keeps for each world exactly the services that are in the
-- namespace and whose "world_id" reads as that world, all of them and in the order of the answer;
-- a world with no such service has no entry, and no world has two.
pub discover_services-selected :
    (namespace : String) (found : List ServiceEntry)
    → (services : Services) × (discover_services namespace (answered found) ≡ some services)
      × Unique ℤ-discrete services
      × ((w : ℤ) → find ℤ-discrete w services ≡ present (selected namespace w found))
unfolding discover_services
discover_services-selected namespace found = (
  group_services namespace found [],
  refl,
  group_services-Unique namespace found [] tt,
  λ w. group_services-find namespace found [] w [] refl,
)
