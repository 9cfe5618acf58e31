-- ===== src/Core/Connections/Known.antt =====
-- The last steps of accepting a connection, for a peer that is there and for a new one.
use tapi2p.Base.{
  ℕ, ◌≡◌, refl, sym, ap, subst, ◌∙◌, ℤ, Option, none, some, List, Bool, true, false, take,
  get_elem?,
}
use tapi2p.Event.Types.{ipv4_max}
use tapi2p.Peer.Types.{Peer}
use tapi2p.Peers.Sockets.{Sets, peer_addtoset, peer_updateset}
use tapi2p.Peers.Table.{Manager}
use tapi2p.Peers.Table.Find.{take-take}
use tapi2p.Handlers.World.{Configs}
use tapi2p.Core.Connections.{
  Net, Outgoing, connected, not_connectable, check_peer_key, update_sets, known_checked, known_peer,
  with_outgoing, watch_new, new_checked,
}
use tapi2p.Core.Connections.Checked.{AllChecked-set, not_marked}
use tapi2p.Core.Connections.Dial.{
  Checked, Table, CheckOutcome, check_peer_key-CheckOutcome, NetChecked,
}
use tapi2p.Core.Connections.Found.{LeavesPeers}

module _ (c : Configs) (conf : c.Config) (keys : List ℕ) (item_maxlen : ℕ)
    (loads : List ℕ → Bool) where
  open c use {find_item, find_section}

  -- The steps of accepting a connection from `addr`, from the last to the first.
  module _ (addr : List ℕ) (newconn : ℤ) (out : Outgoing) where
    known_checked-NetChecked :
        (s : Net) (m : Manager) (j : ℕ) (p : Peer) (o : Option (Bool × Peer))
        → Table c conf keys item_maxlen loads m.peers
        → take ipv4_max p.addr ≡ take ipv4_max addr
        → CheckOutcome c conf keys item_maxlen loads p addr o
        → NetChecked c conf keys item_maxlen loads
            (known_checked c conf keys item_maxlen loads s m j o)
    known_checked-NetChecked s m j p none h e x = tt
    known_checked-NetChecked s m j p (some (false, q)) h e x =
        AllChecked-set c conf keys item_maxlen loads m.peers j (record q { key_ok = false }) h
          (not_marked c conf keys item_maxlen loads (record q { key_ok = false }) refl)
    known_checked-NetChecked s m j p (some (true, q)) h e (same, key) =
        by_sets (peer_updateset q.isock q.osock s.sets)
      where
        by_sets :
            (o : Option (ℤ × Sets))
            → NetChecked c conf keys item_maxlen loads
                (update_sets c conf keys item_maxlen loads s m j (record q { key_ok = true }) o)
        by_sets none = tt
        by_sets (some (r, sets)) =
            AllChecked-set c conf keys item_maxlen loads m.peers j (record q { key_ok = true }) h
              (λ x. (addr, sym e ∙ ap (take ipv4_max) (sym same), key))

    pub known_peer-NetChecked :
        (s : Net) (ps : List Peer) (j : ℕ) (p : Peer) (o : Option (ℤ × Manager))
        → Table c conf keys item_maxlen loads ps
        → get_elem? ps j ≡ some p
        → take ipv4_max p.addr ≡ take ipv4_max addr
        → LeavesPeers ps o
        → NetChecked c conf keys item_maxlen loads
            (known_peer c conf keys item_maxlen loads s j addr newconn o)
    known_peer-NetChecked s ps j p none h g e x = tt
    known_peer-NetChecked s ps j p (some (r, m)) h g e x =
        by_element (get_elem? m.peers j) (sym g ∙ ap (λ (xs : List Peer). get_elem? xs j) (sym x))
      where
        by_element :
            (o : Option Peer)
            → some p ≡ o
            → NetChecked c conf keys item_maxlen loads (elim o [
              | none ↦ none
              | some q ↦
                  known_checked c conf keys item_maxlen loads s m j
                    (check_peer_key c conf keys item_maxlen loads q addr newconn)
            ])
        by_element none q = tt
        by_element (some q) same =
            let same' : p ≡ q = cc in
            known_checked-NetChecked s m j q _
              (subst (Table c conf keys item_maxlen loads) (sym x) h)
              (ap (λ (y : Peer). take ipv4_max y.addr) (sym same') ∙ e)
              (check_peer_key-CheckOutcome c conf keys item_maxlen loads q addr newconn)

    pub new_checked-NetChecked :
        (s : Net) (m : Manager) (k : ℕ) (p : Peer) (o : Option (Bool × Peer))
        → Table c conf keys item_maxlen loads m.peers
        → p.addr ≡ take ipv4_max addr
        → CheckOutcome c conf keys item_maxlen loads p addr o
        → NetChecked c conf keys item_maxlen loads
            (new_checked c conf keys item_maxlen loads s m k out o)
    new_checked-NetChecked s m k p none h e x = tt
    new_checked-NetChecked s m k p (some (false, q)) h e x =
        AllChecked-set c conf keys item_maxlen loads m.peers k (record q { key_ok = false }) h
          (not_marked c conf keys item_maxlen loads (record q { key_ok = false }) refl)
    new_checked-NetChecked s m k p (some (true, q)) h e (same, key) =
        by_sets (way_back) (marks out) (peer_addtoset way_back.isock way_back.osock s.sets)
      where
        way_back : Peer
        way_back = with_outgoing c conf keys item_maxlen loads out (record q { key_ok = true })

        marks :
            (w : Outgoing)
            → Checked c conf keys item_maxlen loads
                (with_outgoing c conf keys item_maxlen loads w (record q { key_ok = true }))
        marks (connected fd) x =
            (addr, sym (take-take ipv4_max addr) ∙ ap (take ipv4_max) (sym (same ∙ e)), key)
        marks not_connectable x =
            (addr, sym (take-take ipv4_max addr) ∙ ap (take ipv4_max) (sym (same ∙ e)), key)

        by_sets :
            (w : Peer)
            → Checked c conf keys item_maxlen loads w
            → (o : Option (ℤ × Sets))
            → NetChecked c conf keys item_maxlen loads
                (watch_new c conf keys item_maxlen loads s m k w o)
        by_sets w x none = tt
        by_sets w x (some (r, sets)) = AllChecked-set c conf keys item_maxlen loads m.peers k w h x
