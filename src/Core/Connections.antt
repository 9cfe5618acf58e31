-- ===== src/Core/Connections.antt =====
-- The peers that core/core.c connects to, and those that connect to it: check_peer_key,
-- connect_to_peers, and what connection_thread does with an accepted connection. `none` is a fault:
-- a NULL string or pointer that is read, a failed assert, or a write outside an array.
pub mod Checked
pub mod Dial
pub mod Found
pub mod Known
pub mod Accept
pub mod Reach
use tapi2p.Base.{
  ℕ, zero, suc, ◌+◌, ◌%◌, ◌^◌, min, ℤ, pos, negsuc, eq_ℤ, Option, none, some, List, [], ◌∷◌, ◌++◌,
  Bool, true, false, not, ◌&&◌, ltb, ◌==◌, if◌then◌else◌, take, length, get_elem?, set, codes,
  atoi_u16,
}
use tapi2p.Event.Types.{ipv4_max}
use tapi2p.Paths.{path_max}
use tapi2p.Peer.Types.{Peer}
use tapi2p.Peer.Transfers.{peer_free}
use tapi2p.Peers.Sockets.{Sets, socket_oneway, peer_addtoset, peer_updateset}
use tapi2p.Peers.Table.{Manager, peer_new, peer_exists, peer_exists_simple, peer_remove}
use tapi2p.Handlers.World.{Configs}

-- What a call of peer_new finds: the element's memory, the key's allocation, and whether realloc
-- succeeds.
pub record Memory : Type 0 where
  pub was : Peer
  pub bio : ℕ
  pub grows : Bool

-- `announced` are the addresses of the PeerConnected events for the pipes, the last one first.
pub record Net : Type 0 where
  pub table : Manager
  pub sets : Sets
  pub running : Bool
  pub announced : List (List ℕ)

-- What becomes of an outgoing connection to a peer that has connected to us: connect succeeds, or
-- the socket is writable in time, or it is not connectable.
pub data Outgoing : Type 0 where
  connected : ℤ → Outgoing
  not_connectable : Outgoing

abbrev pub with_peer : ℕ → Peer → Manager → Manager
with_peer k p m = record m { peers = set m.peers k p }

-- `conf` is the configuration, `keys` is keypath(), `item_maxlen` the ITEM_MAXLEN of dtgconf, and
-- `loads` says whether pubkey_load takes the file at a path.
module _ (c : Configs) (conf : c.Config) (keys : List ℕ) (item_maxlen : ℕ)
    (loads : List ℕ → Bool) where
  open c use {find_item, find_section}

  -- The path of a key; strncpy fills ITEM_MAXLEN bytes behind keypath(), `none` if they go past
  -- PATH_MAX.
  abbrev pub key_path : List ℕ → Option (List ℕ)
  key_path name =
      if ltb path_max (length keys + item_maxlen)
      then none
      else some (keys ++ take item_maxlen name)

  -- The file that the item names: NULL stands for a path that is too long.
  abbrev pub key_file : List ℕ → Option (Option (List ℕ))
  key_file name =
      if ltb (length keys + min (length name) item_maxlen) path_max
      then elim (key_path name) [ none ↦ none | some path ↦ some (some path) ]
      else some none

  abbrev pub load_key : Peer → ℤ → Option (Option (List ℕ)) → Option (Bool × Peer)
  load_key p newconn none = none
  load_key p newconn (some none) = some (false, peer_free p)
  load_key p newconn (some (some path)) =
      if loads path then some (true, record p { isock = newconn }) else some (false, peer_free p)

  abbrev pub check_item : Peer → ℤ → Option (Option (List ℕ)) → Option (Bool × Peer)
  check_item p newconn none = some (false, peer_free p)
  check_item p newconn (some none) = none
  check_item p newconn (some (some name)) = load_key p newconn (key_file name)

  -- check_peer_key: whether it returns 0, and the peer.
  unfoldable pub check_peer_key : Peer → List ℕ → ℤ → Option (Bool × Peer)
  unfolding peer_free
  check_peer_key p addr newconn = check_item p newconn (find_item conf (codes "Key") addr)

  -- The peer with its m_key_ok, as the caller sets it after check_peer_key.
  abbrev pub with_key_ok : Option (Bool × Peer) → Option Peer
  with_key_ok none = none
  with_key_ok (some (ok, p)) = some (record p { key_ok = ok })

  -- A peer that we dial, before its key is checked.
  abbrev pub dialled : List ℕ → ℤ → ℕ → Peer → Peer
  dialled addr sock port p = record p {
    addr = take ipv4_max addr;
    osock = sock;
    isock = socket_oneway;
    port = port;
  }

  -- What connect_to_peers does from peer_addtoset on with the new element `k`. check_peer_key leaves
  -- the m_key_ok of a new peer at 0 where it fails.
  abbrev pub finish_dial : Net → Manager → ℕ → List ℕ → Option (ℤ × Sets) → Peer → Option Net
  finish_dial s m k addr none p = none
  finish_dial s m k addr (some (r, sets)) p =
      elim (with_key_ok (check_peer_key p addr socket_oneway)) [
        | none ↦ none
        | some q ↦ some (record s { table = with_peer k q m; sets = sets })
      ]

  -- After peer_new: NULL is written through, and a port of 0 trips the assert.
  abbrev pub dial_new : Net → List ℕ → ℤ → ℕ → Option (Option ℕ × Manager) → Option Net
  dial_new s addr sock port none = none
  dial_new s addr sock port (some (none, m)) = none
  dial_new s addr sock port (some (some k, m)) = elim (get_elem? m.peers k) [
    | none ↦ none
    | some p ↦
        if port == 0
        then none
        else finish_dial s m k addr (peer_addtoset socket_oneway sock s.sets)
            (dialled addr sock port p)
  ]

  -- After peer_exists_simple: a peer that is there is left, and -1 is a socket that was not made.
  abbrev pub dial_found : Net → Memory → List ℕ → ℤ → ℕ → Option (Option ℕ × Manager) → Option Net
  dial_found s new addr sock port none = none
  dial_found s new addr sock port (some (some k, m)) = some (record s { table = m })
  dial_found s new addr sock port (some (none, m)) =
      if eq_ℤ sock (negsuc 0)
      then some (record s { table = m })
      else dial_new s addr sock port (peer_new new.was new.bio new.grows m)

  -- The body of connect_to_peers for the item with key `addr`: `sock` is what new_socket returns,
  -- `looked` and `new` are what peer_exists_simple and peer_new find.
  abbrev pub dial_port : Net → Memory → Memory → List ℕ → ℤ → Option (Option (List ℕ)) → Option Net
  dial_port s looked new addr sock none = some s
  dial_port s looked new addr sock (some none) = none
  dial_port s looked new addr sock (some (some v)) =
      let port = atoi_u16 v in
      dial_found (if port == 0 then record s { running = false } else s) new addr sock port
        (peer_exists_simple looked.was looked.bio looked.grows s.table (some addr) port)

  unfoldable pub dial_item : Net → Memory → Memory → List ℕ → ℤ → Option Net
  unfolding atoi_u16 peer_exists_simple peer_new peer_addtoset check_peer_key
  dial_item s looked new addr sock =
      dial_port s looked new addr sock (find_item conf (codes "Port") addr)

  -- The loop over the items of the section "Peers", the first of which has index `i`.
  unfoldable pub dial_items :
      (ℕ → Memory × Memory × ℤ) → ℕ → List (List ℕ × Option (List ℕ)) → Net → Option Net
  unfolding dial_item
  dial_items given i [] s = some s
  dial_items given i ((addr, v) ∷ items) s =
      elim (dial_item s (given i).0 (given i).1 addr (given i).2) [
        | none ↦ none
        | some t ↦ dial_items given (i + 1) items t
      ]

  -- connect_to_peers
  unfoldable pub connect_to_peers : (ℕ → Memory × Memory × ℤ) → Net → Option Net
  unfolding dial_items
  connect_to_peers given s = elim (find_section conf (codes "Peers")) [
    | none ↦ some s
    | some items ↦ dial_items given 0 items s
  ]

  -- connection_thread, with an accepted connection from `addr`.

  -- A peer that was there: its key is checked anew and, if it is good, the sets are updated.
  abbrev pub update_sets : Net → Manager → ℕ → Peer → Option (ℤ × Sets) → Option Net
  update_sets s m j p none = none
  update_sets s m j p (some (r, sets)) = some (record s { table = with_peer j p m; sets = sets })

  abbrev pub known_checked : Net → Manager → ℕ → Option (Bool × Peer) → Option Net
  known_checked s m j none = none
  known_checked s m j (some (true, p)) =
      update_sets s m j (record p { key_ok = true }) (peer_updateset p.isock p.osock s.sets)
  known_checked s m j (some (false, p)) =
      some (record s { table = with_peer j (record p { key_ok = false }) m })

  abbrev pub known_peer : Net → ℕ → List ℕ → ℤ → Option (ℤ × Manager) → Option Net
  known_peer s j addr newconn none = none
  known_peer s j addr newconn (some (r, m)) = elim (get_elem? m.peers j) [
    | none ↦ none
    | some p ↦ known_checked s m j (check_peer_key p addr newconn)
  ]

  -- The way back to a new peer.
  abbrev pub with_outgoing : Outgoing → Peer → Peer
  with_outgoing (connected fd) p = record p { osock = fd }
  with_outgoing not_connectable p = record p { connectable = false; osock = socket_oneway }

  abbrev pub watch_new : Net → Manager → ℕ → Peer → Option (ℤ × Sets) → Option Net
  watch_new s m k p none = none
  watch_new s m k p (some (r, sets)) =
      some (record s { table = with_peer k p m; sets = sets; announced = p.addr ∷ s.announced })

  abbrev pub new_checked : Net → Manager → ℕ → Outgoing → Option (Bool × Peer) → Option Net
  new_checked s m k out none = none
  new_checked s m k out (some (false, p)) =
      some (record s { table = with_peer k (record p { key_ok = false }) m })
  new_checked s m k out (some (true, p)) =
      let q = with_outgoing out (record p { key_ok = true }) in
      watch_new s m k q (peer_addtoset q.isock q.osock s.sets)

  -- After peer_exists of the new element `k`.
  abbrev pub accept_found :
      Net → Manager → ℕ → Peer → List ℕ → ℤ → Outgoing → Option (Option ℕ) → Option Net
  accept_found s m k p addr newconn out none = none
  accept_found s m k p addr newconn out (some (some j)) =
      known_peer s j addr newconn (peer_remove m k)
  accept_found s m k p addr newconn out (some none) =
      new_checked s m k out (check_peer_key p addr newconn)

  -- The new element with its address and port.
  abbrev pub accept_new : Net → List ℕ → ℕ → ℤ → Outgoing → Option (Option ℕ × Manager) → Option Net
  accept_new s addr port newconn out none = none
  accept_new s addr port newconn out (some (none, m)) = none
  accept_new s addr port newconn out (some (some k, m)) = elim (get_elem? m.peers k) [
    | none ↦ none
    | some p ↦
        let q = record p { addr = take ipv4_max addr; port = port } in
        let m' = with_peer k q m in accept_found s m' k q addr newconn out (peer_exists m' k)
  ]

  abbrev pub accept_port :
      Net → Memory → List ℕ → ℤ → Outgoing → Option (Option (List ℕ)) → Option Net
  accept_port s new addr newconn out none = some s
  accept_port s new addr newconn out (some none) = none
  accept_port s new addr newconn out (some (some v)) =
      accept_new s addr (atoi_u16 v) newconn out (peer_new new.was new.bio new.grows s.table)

  -- A connection from an address without a section of its own is not looked at.
  unfoldable pub accept_connection : Net → Memory → List ℕ → ℤ → Outgoing → Option Net
  unfolding atoi_u16 peer_new peer_exists peer_remove check_peer_key peer_addtoset peer_updateset
  accept_connection s new addr newconn out = elim (find_section conf addr) [
    | none ↦ some s
    | some items ↦ accept_port s new addr newconn out (find_item conf (codes "Port") addr)
  ]
