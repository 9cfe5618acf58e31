-- ===== src/Core/Connections/Accept.antt =====
-- Accepting a connection keeps the marks of checked peers true.

use tapi2p.Base.{
  ℕ, ◌≡◌, refl, sym, ap, subst, ◌∙◌, ℤ, Option, none, some, List, [], ◌∷◌, ◌++◌, Bool, true, false,
  take, length, get_elem?, set, codes, arith, bytes_eq→eq, atoi_u16,
}
use tapi2p.Event.Types.{ipv4_max}
use tapi2p.Peer.Types.{Peer, peer_init}
use tapi2p.Peers.Table.{Manager, same_address, exists_loop, peer_exists, peer_remove}
use tapi2p.Peers.Table.Remove.{Fresh}
use tapi2p.Peers.Table.Find.{take-take, get_elem?-last, set-last, peer_exists-get}
use tapi2p.Handlers.World.{Configs}
use tapi2p.Core.Connections.{
  Memory, Net, Outgoing, with_peer, known_peer, accept_found, accept_new, accept_port,
  accept_connection,
}
use tapi2p.Core.Connections.Checked.{AllChecked-append, not_marked, NewOutcome, peer_new-NewOutcome}
use tapi2p.Core.Connections.Dial.{Table, check_peer_key-CheckOutcome, NetChecked}
use tapi2p.Core.Connections.Found.{FoundAt, exists_loop-found, get_elem?-front, peer_remove-last}
use tapi2p.Core.Connections.Known.{known_peer-NetChecked, new_checked-NetChecked}

module _ (c : Configs) (conf : c.Config) (keys : List ℕ) (item_maxlen : ℕ)
    (loads : List ℕ → Bool) where
  open c use {find_item, find_section}

  -- The steps of accepting a connection from `addr`, from the last to the first.
  module _ (addr : List ℕ) (newconn : ℤ) (out : Outgoing) where
    same_address-take :
        (p q : Peer)
        → same_address p q ≡ true
        → q.addr ≡ take ipv4_max addr
        → take ipv4_max p.addr ≡ take ipv4_max addr
    same_address-take p q s e =
        bytes_eq→eq (take ipv4_max p.addr) (take ipv4_max q.addr) (ground arith)
        ∙ ap (take ipv4_max) e
        ∙ take-take ipv4_max addr

    accept_found-NetChecked :
        (s : Net) (m : Manager) (ps : List Peer) (q : Peer)
        → m.peers ≡ ps ++ (q ∷ [])
        → Table c conf keys item_maxlen loads ps
        → q.key_ok ≡ false
        → q.addr ≡ take ipv4_max addr
        → Fresh q.bio ps
        → (o : Option (Option ℕ)) → some (exists_loop q (length ps) 0 m.peers) ≡ o
        → NetChecked c conf keys item_maxlen loads
            (accept_found c conf keys item_maxlen loads s m (length ps) q addr newconn out o)
    accept_found-NetChecked s m ps q e h new a f none g = tt
    accept_found-NetChecked s m ps q e h new a f (some none) g =
        new_checked-NetChecked c conf keys item_maxlen loads addr newconn out s m (length ps) q _
          (subst (Table c conf keys item_maxlen loads) (sym e) (
            AllChecked-append c conf keys item_maxlen loads ps q h
              (not_marked c conf keys item_maxlen loads q new)))
          a (check_peer_key-CheckOutcome c conf keys item_maxlen loads q addr newconn)
    accept_found-NetChecked s m ps q e h new a f (some (some j)) g =
        let loop : exists_loop q (length ps) 0 m.peers ≡ some j = cc in
        found (
          exists_loop-found q (length ps) 0 j (ps ++ (q ∷ []))
            (ap (exists_loop q (length ps) 0) (sym e) ∙ loop))
      where
        found :
            FoundAt q (length ps) 0 j (ps ++ (q ∷ []))
            → NetChecked c conf keys item_maxlen loads (
                known_peer c conf keys item_maxlen loads s j addr newconn
                  (peer_remove m (length ps)))
        found (n, p, at, there, same, other) =
            let index : j ≡ n = omega arith in
            known_peer-NetChecked c conf keys item_maxlen loads addr newconn out s ps j p _ h
              (get_elem?-front ps q p j
                (subst (λ (k : ℕ). get_elem? (ps ++ (q ∷ [])) k ≡ some p) (sym index) there) other)
              (same_address-take p q same a) (peer_remove-last m ps q e f)

    -- The element that peer_new has put behind the others, with its address and port.
    abbrev named : ℕ → Peer → Peer
    named port p = record p { addr = take ipv4_max addr; port = port }

    accept_new-NetChecked :
        (s : Net) (new : Memory) (port : ℕ) (o : Option (Option ℕ × Manager))
        → Table c conf keys item_maxlen loads s.table.peers
        → Fresh new.bio s.table.peers
        → NewOutcome s.table new.was new.bio o
        → NetChecked c conf keys item_maxlen loads
            (accept_new c conf keys item_maxlen loads s addr port newconn out o)
    unfolding peer_init
    accept_new-NetChecked s new port none h f x = tt
    accept_new-NetChecked s new port (some (none, m)) h f x = tt
    accept_new-NetChecked s new port (some (some k, m)) h f (at, e) =
        by_element (get_elem? m.peers k) there
      where
        fresh : Peer
        fresh = peer_init new.bio new.was

        there : get_elem? m.peers k ≡ some fresh
        there =
            ap (λ (xs : List Peer). get_elem? xs k) e
            ∙ ap (get_elem? (s.table.peers ++ (fresh ∷ []))) at
            ∙ get_elem?-last s.table.peers fresh

        placed : set m.peers k (named port fresh) ≡ s.table.peers ++ (named port fresh ∷ [])
        placed =
            ap (λ (xs : List Peer). set xs k (named port fresh)) e
            ∙ ap (λ (i : ℕ). set (s.table.peers ++ (fresh ∷ [])) i (named port fresh)) at
            ∙ set-last s.table.peers fresh (named port fresh)

        by_index :
            (i : ℕ)
            → i ≡ length s.table.peers
            → NetChecked c conf keys item_maxlen loads (
                accept_found c conf keys item_maxlen loads s
                  (with_peer k (named port fresh) m)
                  i
                  (named port fresh)
                  addr
                  newconn
                  out
                  (peer_exists (with_peer k (named port fresh) m) i))
        by_index i l =
            subst
              (λ (j : ℕ). NetChecked c conf keys item_maxlen loads (
                accept_found c conf keys item_maxlen loads s (with_peer k (named port fresh) m) j
                  (named port fresh) addr newconn out
                  (peer_exists (with_peer k (named port fresh) m) j)))
              (sym l)
              (accept_found-NetChecked s (with_peer k (named port fresh) m) s.table.peers
                (named port fresh) placed h refl refl f _
                (sym (
                  peer_exists-get (with_peer k (named port fresh) m) (length s.table.peers)
                    (named port fresh)
                    (ap (λ (xs : List Peer). get_elem? xs (length s.table.peers)) placed
                      ∙ get_elem?-last s.table.peers (named port fresh)))))

        by_element :
            (o : Option Peer)
            → o ≡ some fresh
            → NetChecked c conf keys item_maxlen loads (elim o [
              | none ↦ none
              | some p ↦
                  accept_found c conf keys item_maxlen loads s
                    (with_peer k (named port p) m)
                    k
                    (named port p)
                    addr
                    newconn
                    out
                    (peer_exists (with_peer k (named port p) m) k)
            ])
        by_element none q = tt
        by_element (some p) q =
            let same : p ≡ fresh = cc in
            subst
              (λ (x : Peer). NetChecked c conf keys item_maxlen loads (
                accept_found c conf keys item_maxlen loads s (with_peer k (named port x) m) k
                  (named port x) addr newconn out (peer_exists (with_peer k (named port x) m) k)))
              (sym same) (by_index k at)

  pub accept_connection-NetChecked :
      (s : Net) (new : Memory) (addr : List ℕ) (newconn : ℤ) (out : Outgoing)
      → Table c conf keys item_maxlen loads s.table.peers
      → Fresh new.bio s.table.peers
      → NetChecked c conf keys item_maxlen loads
          (accept_connection c conf keys item_maxlen loads s new addr newconn out)
  unfolding accept_connection
  accept_connection-NetChecked s new addr newconn out h f = by_section (find_section conf addr)
    where
      by_port :
          (o : Option (Option (List ℕ)))
          → NetChecked c conf keys item_maxlen loads
              (accept_port c conf keys item_maxlen loads s new addr newconn out o)
      by_port none = h
      by_port (some none) = tt
      by_port (some (some v)) =
          accept_new-NetChecked addr newconn out s new (atoi_u16 v) _ h f
            (peer_new-NewOutcome s.table new.was new.bio new.grows)

      by_section :
          (o : Option (List (List ℕ × Option (List ℕ))))
          → NetChecked c conf keys item_maxlen loads (elim o [
            | none ↦ some s
            | some items ↦
                accept_port c conf keys item_maxlen loads s new addr newconn out
                  (find_item conf (codes "Port") addr)
          ])
      by_section none = h
      by_section (some items) = by_port (find_item conf (codes "Port") addr)
