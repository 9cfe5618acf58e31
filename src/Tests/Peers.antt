-- ===== src/Tests/Peers.antt =====
-- The table of peers and the sets of sockets at concrete inputs.
use tapi2p.Base.{
  ℕ, pos, negsuc, ◌≡◌, refl, inl, inr, some, List, [], ◌∷◌, true, false, arith, codes,
}
use tapi2p.Peer.Types.{Peer}
use tapi2p.Peers.Table.{Manager, peer_remove, peer_exists_simple}
use tapi2p.Peers.Table.Remove.{Distinct, Removal, peer_remove-Removal}
use tapi2p.Peers.Table.Find.{IsTable, find_peer, peer_exists_simple-find_peer}
use tapi2p.Peers.Sockets.{Sets, socket_oneway, initial_sets, watch_in, watch_write, peer_addtoset}
use tapi2p.Peers.Sockets.Watching.{IsWatched, IsCovered, peer_addtoset-IsWatched}

abbrev peer_at : List ℕ → ℕ → Peer
peer_at addr bio = record {
  addr = addr;
  port = 5000;
  connectable = true;
  key_ok = false;
  isock = negsuc 0;
  osock = negsuc 0;
  thread = 0;
  bio = bio;
  file_transfers = [];
}

abbrev first : Peer
first = peer_at (codes "10.0.0.1") 1

abbrev second : Peer
second = peer_at (codes "10.0.0.2") 2

abbrev two_peers : Manager
two_peers = record { peers = first ∷ second ∷ []; size = 5; capacity = 5; iterator = 0 }

two-Distinct : Distinct (first ∷ second ∷ [])
two-Distinct = (((λ (e : 2 ≡ 1). omega arith), tt), (tt, tt))

peer_remove-Removal_example : Removal two_peers 0 first (peer_remove two_peers 0)
peer_remove-Removal_example = peer_remove-Removal two_peers 0 first two-Distinct refl

two-IsTable : IsTable two_peers
two-IsTable = record {
  sized = omega arith;
  held = inl refl;
  live = omega arith;
  iterating = omega arith;
  distinct = two-Distinct;
}

peer_exists_simple-find_peer_example :
    (s : ℕ) × (peer_exists_simple first 3 true two_peers (some (codes "10.0.0.2")) 5000
      ≡ some (
        find_peer (codes "10.0.0.2") 5000 0 two_peers.peers,
        record two_peers { size = s; capacity = s },
      ))
    × IsTable (record two_peers { size = s; capacity = s })
peer_exists_simple-find_peer_example =
    peer_exists_simple-find_peer two_peers first 3 5000 (codes "10.0.0.2") two-IsTable
      ((λ (e : 1 ≡ 3). omega arith), ((λ (e : 2 ≡ 3). omega arith), tt))
      (λ (e : 5000 ≡ 0). omega arith)

initial-IsCovered : IsCovered initial_sets
initial-IsCovered = record { reads = λ x e. cc; writes = λ x e. cc }

peer_addtoset-IsWatched_example :
    (s' : Sets) × (peer_addtoset socket_oneway (pos 6) initial_sets ≡ some (pos 0, s'))
    × IsWatched socket_oneway (pos 6) s'
peer_addtoset-IsWatched_example =
    peer_addtoset-IsWatched socket_oneway (pos 6) initial_sets initial-IsCovered
      (inr refl, inl refl, refl)

abbrev watched : Sets
watched = watch_in socket_oneway (pos 6) (watch_write (pos 6) initial_sets)
