-- ===== src/Core/Connections/Dial.antt =====
-- Dialling keeps the marks of checked peers true.
use tapi2p.Base.{
  ℕ, ◌+◌, ◌≡◌, refl, sym, ap, ◌∙◌, ℤ, negsuc, eq_ℤ, Option, none, some, List, [], ◌∷◌, Bool, true,
  false, ◌==◌, if◌then◌else◌, take, get_elem?, codes, atoi_u16,
}
use tapi2p.Event.Types.{ipv4_max}
use tapi2p.Peer.Types.{Peer}
use tapi2p.Peer.Transfers.{peer_free}
use tapi2p.Peers.Sockets.{Sets, socket_oneway, peer_addtoset}
use tapi2p.Peers.Table.{Manager, peer_new, peer_exists_simple}
use tapi2p.Peers.Table.Find.{take-take}
use tapi2p.Handlers.World.{Configs}
use tapi2p.Core.Connections.{
  Memory, Net, with_peer, key_file, load_key, check_item, check_peer_key, with_key_ok, dialled,
  finish_dial, dial_new, dial_found, dial_port, dial_item, dial_items, connect_to_peers,
}
use tapi2p.Core.Connections.Checked.{
  HasKey, IsChecked, AllChecked, AllChecked-set, AfterChecked, NewChecked, peer_new-NewChecked,
  peer_exists_simple-AfterChecked,
}

module _ (c : Configs) (conf : c.Config) (keys : List ℕ) (item_maxlen : ℕ)
    (loads : List ℕ → Bool) where
  open c use {find_item, find_section}

  abbrev pub Checked : Peer → Type 0
  Checked p = IsChecked c conf keys item_maxlen loads p

  abbrev pub Table : List Peer → Type 0
  Table ps = AllChecked c conf keys item_maxlen loads ps

  -- check_peer_key keeps the address, and returns 0 only for an address with a key that loads.
  abbrev pub CheckOutcome : Peer → List ℕ → Option (Bool × Peer) → Type 0
  CheckOutcome p addr none = Unit {0}
  CheckOutcome p addr (some (true, q)) =
      (q.addr ≡ p.addr) × HasKey c conf keys item_maxlen loads addr
  CheckOutcome p addr (some (false, q)) = q.addr ≡ p.addr

  pub check_peer_key-CheckOutcome :
      (p : Peer) (addr : List ℕ) (newconn : ℤ)
      → CheckOutcome p addr (check_peer_key c conf keys item_maxlen loads p addr newconn)
  unfolding check_peer_key
  check_peer_key-CheckOutcome p addr newconn = by_item (find_item conf (codes "Key") addr) refl
    where
      by_load :
          (v path : List ℕ) (b : Bool)
          → find_item conf (codes "Key") addr ≡ some (some v)
          → key_file c conf keys item_maxlen loads v ≡ some (some path)
          → loads path ≡ b
          → CheckOutcome p addr
              (if b then some (true, record p { isock = newconn }) else some (false, peer_free p))
      by_load v path true e f l = (refl, (v, path, e, f, l))
      by_load v path false e f l = refl

      by_file :
          (v : List ℕ) (o : Option (Option (List ℕ)))
          → find_item conf (codes "Key") addr ≡ some (some v)
          → key_file c conf keys item_maxlen loads v ≡ o
          → CheckOutcome p addr (load_key c conf keys item_maxlen loads p newconn o)
      by_file v none e f = tt
      by_file v (some none) e f = refl
      by_file v (some (some path)) e f = by_load v path (loads path) e f refl

      by_item :
          (o : Option (Option (List ℕ)))
          → find_item conf (codes "Key") addr ≡ o
          → CheckOutcome p addr (check_item c conf keys item_maxlen loads p newconn o)
      by_item none e = refl
      by_item (some none) e = tt
      by_item (some (some v)) e = by_file v (key_file c conf keys item_maxlen loads v) e refl

  abbrev pub NetChecked : Option Net → Type 0
  NetChecked none = Unit {0}
  NetChecked (some s) = Table s.table.peers

  pub marked :
      (name : List ℕ) (p : Peer)
      → take ipv4_max name ≡ take ipv4_max p.addr
      → HasKey c conf keys item_maxlen loads name
      → Checked p
  marked name p e k h = (name, e, k)

  -- The steps of dialling `addr`, from the last to the first.
  module _ (addr : List ℕ) (sock : ℤ) (new : Memory) where
    key-NetChecked :
        (t : Net) (m : Manager) (sets : Sets) (k : ℕ) (p : Peer) (o : Option (Bool × Peer))
        → Table m.peers
        → p.addr ≡ take ipv4_max addr
        → CheckOutcome p addr o
        → NetChecked (elim (with_key_ok c conf keys item_maxlen loads o) [
          | none ↦ none
          | some q ↦ some (record t { table = with_peer k q m; sets = sets })
        ])
    key-NetChecked t m sets k p none h e o = tt
    key-NetChecked t m sets k p (some (true, q)) h e (same, key) =
        AllChecked-set c conf keys item_maxlen loads m.peers k (record q { key_ok = true }) h
          (marked addr (record q { key_ok = true })
            (sym (take-take ipv4_max addr) ∙ ap (take ipv4_max) (sym (same ∙ e))) key)
    key-NetChecked t m sets k p (some (false, q)) h e o =
        AllChecked-set c conf keys item_maxlen loads m.peers k (record q { key_ok = false }) h
          (λ x. cc)

    finish_dial-NetChecked :
        (t : Net) (m : Manager) (k : ℕ) (p : Peer) (o : Option (ℤ × Sets))
        → Table m.peers
        → p.addr ≡ take ipv4_max addr
        → NetChecked (finish_dial c conf keys item_maxlen loads t m k addr o p)
    finish_dial-NetChecked t m k p none h e = tt
    finish_dial-NetChecked t m k p (some (r, sets)) h e =
        key-NetChecked t m sets k p
          (check_peer_key c conf keys item_maxlen loads p addr socket_oneway) h e
          (check_peer_key-CheckOutcome p addr socket_oneway)

    element-NetChecked :
        (t : Net) (m : Manager) (k port : ℕ) (o : Option Peer)
        → Table m.peers
        → NetChecked (elim o [
          | none ↦ none
          | some p ↦
              if port == 0
              then none
              else finish_dial c conf keys item_maxlen loads t m k addr
                  (peer_addtoset socket_oneway sock t.sets)
                  (dialled c conf keys item_maxlen loads addr sock port p)
        ])
    element-NetChecked t m k port none h = tt
    element-NetChecked t m k port (some p) h = by_zero (port == 0)
      where
        by_zero :
            (b : Bool)
            → NetChecked (
                if b
                then none
                else finish_dial c conf keys item_maxlen loads t m k addr
                    (peer_addtoset socket_oneway sock t.sets)
                    (dialled c conf keys item_maxlen loads addr sock port p))
        by_zero true = tt
        by_zero false =
            finish_dial-NetChecked t m k (dialled c conf keys item_maxlen loads addr sock port p)
              (peer_addtoset socket_oneway sock t.sets) h refl

    dial_new-NetChecked :
        (t : Net) (port : ℕ) (o : Option (Option ℕ × Manager))
        → NewChecked c conf keys item_maxlen loads o
        → NetChecked (dial_new c conf keys item_maxlen loads t addr sock port o)
    dial_new-NetChecked t port none h = tt
    dial_new-NetChecked t port (some (none, m)) h = tt
    dial_new-NetChecked t port (some (some k, m)) (h, new) =
        element-NetChecked t m k port (get_elem? m.peers k) h

    socket-NetChecked :
        (t : Net) (m : Manager) (port : ℕ) (b : Bool)
        → Table m.peers
        → NetChecked (
            if b
            then some (record t { table = m })
            else dial_new c conf keys item_maxlen loads t addr sock port
                (peer_new new.was new.bio new.grows m))
    socket-NetChecked t m port true h = h
    socket-NetChecked t m port false h =
        dial_new-NetChecked t port (peer_new new.was new.bio new.grows m)
          (peer_new-NewChecked c conf keys item_maxlen loads m new.was new.bio new.grows h)

    dial_found-NetChecked :
        (t : Net) (port : ℕ) (o : Option (Option ℕ × Manager))
        → AfterChecked c conf keys item_maxlen loads o
        → NetChecked (dial_found c conf keys item_maxlen loads t new addr sock port o)
    dial_found-NetChecked t port none h = tt
    dial_found-NetChecked t port (some (some k, m)) h = h
    dial_found-NetChecked t port (some (none, m)) h =
        socket-NetChecked t m port (eq_ℤ sock (negsuc 0)) h

  pub dial_item-NetChecked :
      (s : Net) (looked new : Memory) (addr : List ℕ) (sock : ℤ)
      → Table s.table.peers
      → NetChecked (dial_item c conf keys item_maxlen loads s looked new addr sock)
  unfolding dial_item
  dial_item-NetChecked s looked new addr sock a = by_port (find_item conf (codes "Port") addr)
    where
      by_port :
          (o : Option (Option (List ℕ)))
          → NetChecked (dial_port c conf keys item_maxlen loads s looked new addr sock o)
      by_port none = a
      by_port (some none) = tt
      by_port (some (some v)) =
          dial_found-NetChecked addr sock new
            (if atoi_u16 v == 0 then record s { running = false } else s) (atoi_u16 v)
            (peer_exists_simple looked.was looked.bio looked.grows s.table (some addr) (atoi_u16 v))
            (peer_exists_simple-AfterChecked c conf keys item_maxlen loads looked.was looked.bio
              looked.grows s.table (some addr) (atoi_u16 v) a)

  dial_items-NetChecked :
      (given : ℕ → Memory × Memory × ℤ) (i : ℕ) (items : List (List ℕ × Option (List ℕ))) (s : Net)
      → Table s.table.peers
      → NetChecked (dial_items c conf keys item_maxlen loads given i items s)
  unfolding dial_items
  dial_items-NetChecked given i [] s h = h
  dial_items-NetChecked given i ((addr, v) ∷ items) s h =
      rest (dial_item c conf keys item_maxlen loads s (given i).0 (given i).1 addr (given i).2)
        (dial_item-NetChecked s (given i).0 (given i).1 addr (given i).2 h)
        (λ t a. dial_items-NetChecked given (i + 1) items t a)
    where
      rest :
          (o : Option Net)
          → NetChecked o
          → ((t : Net)
              → Table t.table.peers
              → NetChecked (dial_items c conf keys item_maxlen loads given (i + 1) items t))
          → NetChecked (elim o [
            | none ↦ none
            | some t ↦ dial_items c conf keys item_maxlen loads given (i + 1) items t
          ])
      rest none a k = tt
      rest (some t) a k = k t a

  pub connect_to_peers-NetChecked :
      (given : ℕ → Memory × Memory × ℤ) (s : Net)
      → Table s.table.peers
      → NetChecked (connect_to_peers c conf keys item_maxlen loads given s)
  unfolding connect_to_peers
  connect_to_peers-NetChecked given s h = by_section (find_section conf (codes "Peers"))
    where
      by_section :
          (o : Option (List (List ℕ × Option (List ℕ))))
          → NetChecked (elim o [
            | none ↦ some s
            | some items ↦ dial_items c conf keys item_maxlen loads given 0 items s
          ])
      by_section none = h
      by_section (some items) = dial_items-NetChecked given 0 items s h
