-- ===== src/Peers/Table/Find.antt =====
-- peer_exists_simple looks an address up through an element that it adds and removes again.
use tapi2p.Base.{
  ℕ, zero, suc, ◌+◌, ◌*◌, ◌<◌, ◌≤◌, ◌≡◌, ◌≢◌, refl, sym, ap, ap₂, ◌∙◌, pos, Option, none, some,
  List, [], ◌∷◌, ◌++◌, true, leb, ◌==◌, ◌&&◌, Bool-cases, if◌then◌else◌, arith, inl, inr, get_elem?,
  set, length, length-append, take, strncmp_eq, bytes_eq, ◌⊎◌, ==_iff,
}
use tapi2p.Event.Types.{ipv4_max}
use tapi2p.Peer.Types.{Peer, peer_init}
use tapi2p.Peers.Table.{
  Manager, count, peer_new, same_address, exists_loop, peer_exists, erase_at, remove_at,
  peer_remove, addressed, with_address, found_then, search_and_remove, search_new,
  peer_exists_simple,
}
use tapi2p.Peers.Table.Remove.{Fresh, Distinct, peer_remove-remove_at}

-- The table between calls: the array, once allocated, has m_peersize elements, which hold the live
-- ones; the iterator is at most at the end, and the key allocations differ.
pub record IsTable (m : Manager) : Type 0 where
  pub sized : 0 < m.size
  pub held : (m.capacity ≡ m.size) ⊎ ((m.capacity ≡ 0) × (count m ≡ 0))
  pub live : count m ≤ m.size
  pub iterating : m.iterator ≤ count m
  pub distinct : Distinct m.peers

-- The reference search: the first element with the address and the port.
abbrev pub find_peer : List ℕ → ℕ → ℕ → List Peer → Option ℕ
find_peer addr port i [] = none
find_peer addr port i (q ∷ qs) =
    let rest = find_peer addr port (i + 1) qs in
    if strncmp_eq ipv4_max q.addr addr && q.port == port then some i else rest

-- When the table can grow, peer_new puts a new element behind the live ones.
pub peer_new-append :
    (m : Manager) (was : Peer) (bio : ℕ)
    → IsTable m
    → (s : ℕ) × (peer_new was bio true m
        ≡ some (
          some (count m),
          record m { peers = m.peers ++ (peer_init bio was ∷ []); size = s; capacity = s },
        ))
      × (count m < s)
unfolding peer_new
peer_new-append m was bio v = elim (Bool-cases (leb m.size (count m))) [
  | inl full ↦ (m.size * 2, ground (arith, v.held), ground (arith, v.sized))
  | inr room ↦ (m.size, ground (arith, v.held), ground arith)
]

Fresh-append :
    (b : ℕ) (ps : List Peer) (p : Peer) → Fresh b ps → p.bio ≢ b → Fresh b (ps ++ (p ∷ []))
Fresh-append b [] p f n = (n, tt)
Fresh-append b (q ∷ qs) p f n = (f.0, Fresh-append b qs p f.1 n)

Distinct-append :
    (ps : List Peer) (p : Peer) → Distinct ps → Fresh p.bio ps → Distinct (ps ++ (p ∷ []))
Distinct-append [] p d f = (tt, tt)
Distinct-append (q ∷ qs) p d f =
    (Fresh-append q.bio qs p d.0 (λ e. f.0 (sym e)), Distinct-append qs p d.1 f.1)

pub get_elem?-last : (ps : List Peer) (p : Peer) → get_elem? (ps ++ (p ∷ [])) (length ps) ≡ some p
get_elem?-last [] p = refl
get_elem?-last (q ∷ qs) p = get_elem?-last qs p

pub set-last : (ps : List Peer) (p q : Peer) → set (ps ++ (p ∷ [])) (length ps) q ≡ ps ++ (q ∷ [])
set-last [] p q = refl
set-last (x ∷ xs) p q = ap (◌∷◌ x) (set-last xs p q)

pub erase_at-last : (ps : List Peer) (p : Peer) → erase_at (length ps) (ps ++ (p ∷ [])) ≡ ps
unfolding erase_at
erase_at-last [] p = refl
erase_at-last (q ∷ qs) p = ap (◌∷◌ q) (erase_at-last qs p)

pub take-take : (n : ℕ) (xs : List ℕ) → take n (take n xs) ≡ take n xs
take-take zero xs = refl
take-take (suc n) [] = refl
take-take (suc n) (x ∷ xs) = ap (◌∷◌ x) (take-take n xs)

same_address-addressed :
    (q sp : Peer) (addr : List ℕ) (port : ℕ)
    → same_address q (addressed addr port sp) ≡ (strncmp_eq ipv4_max q.addr addr && q.port == port)
same_address-addressed q sp addr port =
    ap (λ (t : List ℕ). bytes_eq (take ipv4_max q.addr) t && q.port == port)
      (take-take ipv4_max addr)

exists_loop-find_peer :
    (sp : Peer) (addr : List ℕ) (port k i : ℕ) (qs : List Peer)
    → i + length qs ≡ k
    → exists_loop (addressed addr port sp) k i (qs ++ (addressed addr port sp ∷ []))
      ≡ find_peer addr port i qs
unfolding exists_loop
exists_loop-find_peer sp addr port k i [] e = ground arith
exists_loop-find_peer sp addr port k i (q ∷ qs) e =
    ground (
      arith,
      same_address-addressed q sp addr port,
      exists_loop-find_peer sp addr port k (i + 1) qs,
    )

pub length-last : (ps : List Peer) (p : Peer) → length (ps ++ (p ∷ [])) ≡ suc (length ps)
length-last ps p = omega (arith, length-append ps (p ∷ []))

pub peer_exists-get :
    (m : Manager) (k : ℕ) (p : Peer)
    → get_elem? m.peers k ≡ some p
    → peer_exists m k ≡ some (exists_loop p k 0 m.peers)
unfolding peer_exists
peer_exists-get m k p e = rw (e, peer_exists)

peer_exists_simple-port :
    (was : Peer) (bio : ℕ) (m : Manager) (addr : List ℕ) (port : ℕ)
    → port ≢ 0
    → peer_exists_simple was bio true m (some addr) port
      ≡ search_new addr port (peer_new was bio true m)
unfolding peer_exists_simple
peer_exists_simple-port was bio m addr port n = elim (Bool-cases (port == 0)) [
  | inl y ↦ absurd (n ((==_iff port 0).0 y))
  | inr z ↦ rw z
]

with_address-last :
    (addr : List ℕ) (port : ℕ) (ps : List Peer) (q : Peer) (m : Manager)
    → with_address addr port (length ps) (record m { peers = ps ++ (q ∷ []) })
      ≡ record m { peers = ps ++ (addressed addr port q ∷ []) }
with_address-last addr port ps q m = rw (get_elem?-last ps q, set-last ps q (addressed addr port q))

-- Looking up and removing the element behind the live ones leaves the table as it was before.
module _ (ps : List Peer) (size capacity iterator : ℕ) where
  abbrev table : List Peer → Manager
  table qs = record { peers = qs; size = size; capacity = capacity; iterator = iterator }

  remove_at-last :
      (sp : Peer)
      → iterator ≤ length ps
      → remove_at (table (ps ++ (sp ∷ []))) (length ps) ≡ some (pos 0, table ps)
  unfolding remove_at
  remove_at-last sp h = ground (arith, length-last ps sp, erase_at-last ps sp)

  search_and_remove-last :
      (q : Peer) (addr : List ℕ) (port : ℕ)
      → Distinct ps
      → Fresh q.bio ps
      → iterator ≤ length ps
      → search_and_remove (table (ps ++ (addressed addr port q ∷ []))) (length ps)
        ≡ some (find_peer addr port 0 ps, table ps)
  search_and_remove-last q addr port d f h = ap₂ found_then found removed
    where
      sp : Peer
      sp = addressed addr port q

      found : peer_exists (table (ps ++ (sp ∷ []))) (length ps) ≡ some (find_peer addr port 0 ps)
      found =
          peer_exists-get (table (ps ++ (sp ∷ []))) (length ps) sp (get_elem?-last ps sp)
          ∙ ap some (exists_loop-find_peer q addr port (length ps) 0 ps (omega arith))

      removed : peer_remove (table (ps ++ (sp ∷ []))) (length ps) ≡ some (pos 0, table ps)
      removed =
          peer_remove-remove_at (table (ps ++ (sp ∷ []))) (length ps) sp (Distinct-append ps sp d f)
            (get_elem?-last ps sp)
          ∙ remove_at-last sp h

-- With a port, a table that can grow, peers whose key allocations all differ, and a key allocation for the
-- new element that none of them has, peer_exists_simple returns the first
-- element with the address and the port, or NULL, and leaves the peers and the iterator as they
-- were; only the array may have grown.
pub peer_exists_simple-find_peer :
    (m : Manager) (was : Peer) (bio port : ℕ) (addr : List ℕ)
    → IsTable m
    → Fresh bio m.peers
    → port ≢ 0
    → (s : ℕ) × (peer_exists_simple was bio true m (some addr) port
        ≡ some (find_peer addr port 0 m.peers, record m { size = s; capacity = s }))
      × IsTable (record m { size = s; capacity = s })
unfolding peer_init
peer_exists_simple-find_peer m was bio port addr v f n = finish (peer_new-append m was bio v)
  where
    finish :
        ((s : ℕ) × (peer_new was bio true m
            ≡ some (
              some (count m),
              record m { peers = m.peers ++ (peer_init bio was ∷ []); size = s; capacity = s },
            ))
          × (count m < s))
        → (s : ℕ) × (peer_exists_simple was bio true m (some addr) port
            ≡ some (find_peer addr port 0 m.peers, record m { size = s; capacity = s }))
          × IsTable (record m { size = s; capacity = s })
    finish (s, e, l) = (
      s,
      peer_exists_simple-port was bio m addr port n
          ∙ ap (search_new addr port) e
          ∙ ap (λ (m' : Manager). search_and_remove m' (count m))
              (with_address-last addr port m.peers (peer_init bio was)
                (record m { size = s; capacity = s }))
          ∙ search_and_remove-last m.peers s s m.iterator (peer_init bio was) addr port v.distinct f
              v.iterating,
      record {
        sized = omega arith;
        held = inl refl;
        live = omega arith;
        iterating = v.iterating;
        distinct = v.distinct;
      },
    )
