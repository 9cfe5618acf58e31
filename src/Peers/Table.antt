-- ===== src/Peers/Table.antt =====
-- The array of peers of core/peermanager.c. A `struct peer*` is an index into it. `none` is an
-- access outside the array or through NULL.
pub mod Find
pub mod Iterate
pub mod Remove
use tapi2p.Base.{
  ℕ, zero, suc, ◌+◌, ◌-◌, ◌*◌, ℤ, pos, negsuc, Option, none, some, List, [], ◌∷◌, ◌++◌, Bool, true,
  false, not, ◌&&◌, ltb, leb, ◌==◌, if◌then◌else◌, ite, get_elem?, set, length, take, strncmp_eq,
}
use tapi2p.Event.Types.{ipv4_max}
use tapi2p.Peer.Types.{Peer, peer_init, Peer-discrete}

-- `peers` are the m_peercount live elements; `size` is m_peersize, `capacity` the number of elements
-- that m_peers has room for (0 for NULL), `iterator` is m_iterator.
pub record Manager : Type 0 where
  pub peers : List Peer
  pub size : ℕ
  pub capacity : ℕ
  pub iterator : ℕ

-- The static initialisation.
abbrev pub initial : Manager
initial = record { peers = []; size = 5; capacity = 0; iterator = 0 }

abbrev pub count : Manager → ℕ
count m = length m.peers

-- The first calloc.
abbrev pub allocated : Manager → Manager
allocated m = if m.capacity == 0 then record m { capacity = m.size } else m

-- peer_init in the element behind the live ones.
abbrev pub appended : Peer → ℕ → Manager → Option (Option ℕ × Manager)
appended was bio m =
    if ltb (count m) m.capacity
    then some (some (count m), record m { peers = m.peers ++ (peer_init bio was ∷ []) })
    else none

-- `was` is what the memory of the element held, `bio` what its key allocates, `grows` whether the
-- realloc succeeds; where it fails NULL is returned, with m_peersize doubled all the same.
unfoldable pub peer_new : Peer → ℕ → Bool → Manager → Option (Option ℕ × Manager)
peer_new was bio grows m0 =
    let m = allocated m0 in
    if leb m.size (count m)
    then (if grows
        then appended was bio (record m { size = m.size * 2; capacity = m.size * 2 })
        else some (none, record m { size = m.size * 2 }))
    else appended was bio m

abbrev pub same_address : Peer → Peer → Bool
same_address a p = strncmp_eq ipv4_max a.addr p.addr && a.port == p.port

-- The loop of peer_exists, from element i on.
unfoldable pub exists_loop : Peer → ℕ → ℕ → List Peer → Option ℕ
exists_loop p k i [] = none
exists_loop p k i (q ∷ qs) =
    let rest = exists_loop p k (i + 1) qs in
    if same_address q p && not (i == k) then some i else rest

unfoldable pub peer_exists : Manager → ℕ → Option (Option ℕ)
unfolding exists_loop
peer_exists m k = elim (get_elem? m.peers k) [
  | none ↦ none
  | some p ↦ some (exists_loop p k 0 m.peers)
]

-- The first element with the same bytes.
unfoldable pub same_loop : Peer → ℕ → List Peer → Option ℕ
same_loop p i [] = none
same_loop p i (q ∷ qs) = let rest = same_loop p (i + 1) qs in ite (Peer-discrete p q) (some i) rest

unfoldable pub erase_at : ℕ → List Peer → List Peer
erase_at i [] = []
erase_at zero (q ∷ qs) = qs
erase_at (suc i) (q ∷ qs) = q ∷ erase_at i qs

-- memmove moves m_peercount - i + 1 elements from i + 1 on, two more than are live: all of them
-- have to lie inside the array.
unfoldable pub remove_at : Manager → ℕ → Option (ℤ × Manager)
unfolding erase_at
remove_at m i =
    if ltb (i + 1) (count m) && ltb m.capacity (count m + 2)
    then none
    else some (
      pos 0,
      record m {
        peers = erase_at i m.peers;
        iterator = if m.iterator == count m then m.iterator - 1 else m.iterator;
      },
    )

-- What peer_free does to the element is lost with it.
unfoldable pub peer_remove : Manager → ℕ → Option (ℤ × Manager)
unfolding same_loop remove_at
peer_remove m k = elim (get_elem? m.peers k) [
  | none ↦ none
  | some p ↦ elim (same_loop p 0 m.peers) [ none ↦ some (negsuc 0, m) | some i ↦ remove_at m i ]
]

abbrev pub addressed : List ℕ → ℕ → Peer → Peer
addressed addr port p = record p { addr = take ipv4_max addr; port = port }

-- strncpy of the address and the port into the new element.
abbrev pub with_address : List ℕ → ℕ → ℕ → Manager → Manager
with_address addr port k m = record m {
  peers = elim (get_elem? m.peers k) [
    | none ↦ m.peers
    | some p ↦ set m.peers k (addressed addr port p)
  ];
}

abbrev pub found_then : Option (Option ℕ) → Option (ℤ × Manager) → Option (Option ℕ × Manager)
found_then none removed = none
found_then (some found) none = none
found_then (some found) (some (r, m)) = some (found, m)

-- peer_exists, then peer_remove of the element that was searched for.
abbrev pub search_and_remove : Manager → ℕ → Option (Option ℕ × Manager)
search_and_remove m k = found_then (peer_exists m k) (peer_remove m k)

-- What follows peer_new; its NULL is written through.
abbrev pub search_new : List ℕ → ℕ → Option (Option ℕ × Manager) → Option (Option ℕ × Manager)
search_new addr port none = none
search_new addr port (some (none, m)) = none
search_new addr port (some (some k, m)) = search_and_remove (with_address addr port k m) k

unfoldable pub peer_exists_simple :
    Peer → ℕ → Bool → Manager → Option (List ℕ) → ℕ → Option (Option ℕ × Manager)
unfolding peer_new peer_exists peer_remove
peer_exists_simple was bio grows m none port = some (none, m)
peer_exists_simple was bio grows m (some addr) port =
    if port == 0 then some (none, m) else search_new addr port (peer_new was bio grows m)

unfoldable pub peer_next : Manager → Option ℕ × Manager
peer_next m =
    if ltb m.iterator (count m)
    then (some m.iterator, record m { iterator = m.iterator + 1 })
    else (none, record m { iterator = 0 })
