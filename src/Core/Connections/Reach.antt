-- ===== src/Core/Connections/Reach.antt =====
-- The states that dialling, accepted connections and the table's other operations lead to, and the
-- marks of checked peers in them.
use tapi2p.Base.{
  arith, ℕ, ◌≡◌, sym, subst, ℤ, Option, some, List, get_elem?, Bool, true, take, [], ◌∷◌, zero, suc,
}
use tapi2p.Event.Types.{ipv4_max}
use tapi2p.Peer.Types.{Peer}
use tapi2p.Peers.Sockets.{initial_sets, peer_removefromset}
use tapi2p.Peers.Table.{Manager, initial, peer_remove, peer_exists_simple, peer_next}
use tapi2p.Peers.Table.Remove.{Fresh}
use tapi2p.Handlers.World.{Configs}
use tapi2p.Core.Connections.{Memory, Net, Outgoing, connect_to_peers, accept_connection}
use tapi2p.Core.Connections.Checked.{
  HasKey, AllChecked, AfterChecked, peer_remove-AfterChecked, peer_exists_simple-AfterChecked,
}
use tapi2p.Core.Connections.Dial.{Checked, Table, NetChecked, connect_to_peers-NetChecked}
use tapi2p.Core.Connections.Accept.{accept_connection-NetChecked}

abbrev pub initial_net : Net
initial_net = record { table = initial; sets = initial_sets; running = true; announced = [] }

module _ (c : Configs) (conf : c.Config) (keys : List ℕ) (item_maxlen : ℕ)
    (loads : List ℕ → Bool) where
  -- One call at a time, each of which returns. The key that peer_new allocates for an accepted
  -- connection is at an address of its own.
  pub data Step : Net → Net → Type 0 where
    dial :
        {s t : Net} (given : ℕ → Memory × Memory × ℤ)
        → connect_to_peers c conf keys item_maxlen loads given s ≡ some t
        → Step s t
    accept :
        {s t : Net} (new : Memory) (addr : List ℕ) (newconn : ℤ) (out : Outgoing)
        → Fresh new.bio s.table.peers
        → accept_connection c conf keys item_maxlen loads s new addr newconn out ≡ some t
        → Step s t
    look :
        {s : Net} {m : Manager} (looked : Memory) (addr : Option (List ℕ)) (port : ℕ)
        (found : Option ℕ)
        → peer_exists_simple looked.was looked.bio looked.grows s.table addr port ≡ some (found, m)
        → Step s (record s { table = m })
    remove :
        {s : Net} {m : Manager} (k : ℕ) (r : ℤ)
        → peer_remove s.table k ≡ some (r, m)
        → Step s (record s { table = m })
    unwatch :
        {s : Net} (isock osock : ℤ)
        → Step s (record s { sets = peer_removefromset isock osock s.sets })
    next : {s : Net} → Step s (record s { table = (peer_next s.table).1 })

  pub data Reach : Net → Type 0 where
    start : Reach initial_net
    step : {s t : Net} → Reach s → Step s t → Reach t

  abbrev TableOf : Net → Type 0
  TableOf s = Table c conf keys item_maxlen loads s.table.peers

  peer_next-same : (m : Manager) → (peer_next m).1.peers ≡ m.peers
  unfolding peer_next
  peer_next-same m = ground arith

  Step-AllChecked : {s t : Net} → Step s t → TableOf s → TableOf t
  Step-AllChecked {s} (dial given e) h =
      subst (NetChecked c conf keys item_maxlen loads) e
        (connect_to_peers-NetChecked c conf keys item_maxlen loads given s h)
  Step-AllChecked {s} (accept new addr newconn out f e) h =
      subst (NetChecked c conf keys item_maxlen loads) e
        (accept_connection-NetChecked c conf keys item_maxlen loads s new addr newconn out h f)
  Step-AllChecked {s} (look looked addr port found e) h =
      subst (AfterChecked c conf keys item_maxlen loads) e (
        peer_exists_simple-AfterChecked c conf keys item_maxlen loads looked.was looked.bio
          looked.grows s.table addr port h)
  Step-AllChecked {s} (remove k r e) h =
      subst (AfterChecked c conf keys item_maxlen loads) e
        (peer_remove-AfterChecked c conf keys item_maxlen loads s.table k h)
  Step-AllChecked (unwatch isock osock) h = h
  Step-AllChecked {s} next h =
      subst (Table c conf keys item_maxlen loads) (sym (peer_next-same s.table)) h

  Reach-AllChecked : {s : Net} → Reach s → TableOf s
  Reach-AllChecked start = tt
  Reach-AllChecked (step r x) = Step-AllChecked x (Reach-AllChecked r)

  get_elem?-Checked :
      (ps : List Peer) (k : ℕ) (p : Peer)
      → AllChecked c conf keys item_maxlen loads ps
      → get_elem? ps k ≡ some p
      → Checked c conf keys item_maxlen loads p
  get_elem?-Checked [] k p a e = cc
  get_elem?-Checked (q ∷ qs) zero p a e =
      let same : q ≡ p = cc in subst (Checked c conf keys item_maxlen loads) same a.0
  get_elem?-Checked (q ∷ qs) (suc k) p a e = get_elem?-Checked qs k p a.1 e

  -- In every state that is reached from the start of the daemon by calls that return, of dialling
  -- the configured peers, accepting connections (whose new key has an address of its own), looking
  -- peers up, removing them, taking them out of the sets and going through them: a peer of the table
  -- that is marked as checked has, in the IPV4_MAX bytes that are kept of its address, the address
  -- of an entry of the configuration whose key file loads.
  pub Reach-HasKey :
      {s : Net} (k : ℕ) (p : Peer)
      → Reach s
      → get_elem? s.table.peers k ≡ some p
      → p.key_ok ≡ true
      → (name : List ℕ) × (take ipv4_max name ≡ take ipv4_max p.addr)
        × HasKey c conf keys item_maxlen loads name
  Reach-HasKey {s} k p r e ok = get_elem?-Checked s.table.peers k p (Reach-AllChecked r) e ok
