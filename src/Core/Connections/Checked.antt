-- ===== src/Core/Connections/Checked.antt =====
-- Peers whose key has been checked, and what the table's operations do to them.
use tapi2p.Base.{
  ℕ, zero, suc, ◌+◌, ◌-◌, ◌*◌, ◌≡◌, refl, sym, ap, subst, ◌∙◌, ℤ, pos, negsuc, Option, none, some,
  List, [], ◌∷◌, ◌++◌, Bool, true, false, ◌&&◌, ltb, leb, ◌==◌, if◌then◌else◌, take, length,
  get_elem?, set, codes,
}
use tapi2p.Event.Types.{ipv4_max}
use tapi2p.Peer.Types.{Peer, peer_init}
use tapi2p.Peers.Table.{
  Manager, count, allocated, peer_new, same_loop, erase_at, remove_at, peer_remove, appended,
  addressed, with_address, search_new, found_then, peer_exists, peer_exists_simple,
}
use tapi2p.Peers.Table.Find.{get_elem?-last}
use tapi2p.Handlers.World.{Configs}
use tapi2p.Core.Connections.{key_file}

module _ (c : Configs) (conf : c.Config) (keys : List ℕ) (item_maxlen : ℕ)
    (loads : List ℕ → Bool) where
  open c use {find_item}

  -- The configuration names a key file for `addr`, and the file loads.
  abbrev pub HasKey : List ℕ → Type 0
  HasKey addr =
      (v : List ℕ) × (path : List ℕ) × (find_item conf (codes "Key") addr ≡ some (some v))
      × (key_file c conf keys item_maxlen loads v ≡ some (some path))
      × (loads path ≡ true)

  -- A peer that is marked as checked has the address, in the IPV4_MAX bytes that are kept of it, of
  -- an entry with a key that loads.
  abbrev pub IsChecked : Peer → Type 0
  IsChecked p =
      p.key_ok ≡ true → (name : List ℕ) × (take ipv4_max name ≡ take ipv4_max p.addr) × HasKey name

  abbrev pub AllChecked : List Peer → Type 0
  AllChecked [] = Unit {0}
  AllChecked (p ∷ ps) = IsChecked p × AllChecked ps

  pub AllChecked-append :
      (ps : List Peer) (p : Peer) → AllChecked ps → IsChecked p → AllChecked (ps ++ (p ∷ []))
  AllChecked-append [] p a h = (h, tt)
  AllChecked-append (q ∷ qs) p a h = (a.0, AllChecked-append qs p a.1 h)

  pub AllChecked-set :
      (ps : List Peer) (k : ℕ) (p : Peer) → AllChecked ps → IsChecked p → AllChecked (set ps k p)
  AllChecked-set [] k p a h = tt
  AllChecked-set (q ∷ qs) zero p a h = (h, a.1)
  AllChecked-set (q ∷ qs) (suc k) p a h = (a.0, AllChecked-set qs k p a.1 h)

  AllChecked-erase_at : (ps : List Peer) (k : ℕ) → AllChecked ps → AllChecked (erase_at k ps)
  unfolding erase_at
  AllChecked-erase_at [] k a = tt
  AllChecked-erase_at (q ∷ qs) zero a = a.1
  AllChecked-erase_at (q ∷ qs) (suc k) a = (a.0, AllChecked-erase_at qs k a.1)

  -- The table that an operation leaves, if it does not fault.
  abbrev pub AfterChecked {ℓ} : {R : Type ℓ} → Option (R × Manager) → Type 0
  AfterChecked none = Unit {0}
  AfterChecked (some (r, m)) = AllChecked m.peers

  remove_at-AfterChecked : (m : Manager) (k : ℕ) → AllChecked m.peers → AfterChecked (remove_at m k)
  unfolding remove_at
  remove_at-AfterChecked m k a = by_room (ltb (k + 1) (count m) && ltb m.capacity (count m + 2))
    where
      by_room :
          (b : Bool)
          → AfterChecked (
              if b
              then none
              else some (
                pos 0,
                record m {
                  peers = erase_at k m.peers;
                  iterator = if m.iterator == count m then m.iterator - 1 else m.iterator;
                },
              ))
      by_room true = tt
      by_room false = AllChecked-erase_at m.peers k a

  pub peer_remove-AfterChecked :
      (m : Manager) (k : ℕ) → AllChecked m.peers → AfterChecked (peer_remove m k)
  unfolding peer_remove
  peer_remove-AfterChecked m k a = by_element (get_elem? m.peers k)
    where
      by_same :
          (o : Option ℕ)
          → AfterChecked (elim o [ none ↦ some (negsuc 0, m) | some i ↦ remove_at m i ])
      by_same none = a
      by_same (some i) = remove_at-AfterChecked m i a

      by_element :
          (o : Option Peer)
          → AfterChecked (elim o [
            | none ↦ none
            | some p ↦ elim (same_loop p 0 m.peers) [
              | none ↦ some (negsuc 0, m)
              | some i ↦ remove_at m i
            ]
          ])
      by_element none = tt
      by_element (some p) = by_same (same_loop p 0 m.peers)

-- What peer_new returns: NULL with the peers as they were, or a new element behind them.
abbrev pub NewOutcome : Manager → Peer → ℕ → Option (Option ℕ × Manager) → Type 0
NewOutcome m was bio none = Unit {0}
NewOutcome m was bio (some (none, m')) = m'.peers ≡ m.peers
NewOutcome m was bio (some (some k, m')) =
    (k ≡ count m) × (m'.peers ≡ m.peers ++ (peer_init bio was ∷ []))

pub peer_new-NewOutcome :
    (m : Manager) (was : Peer) (bio : ℕ) (grows : Bool)
    → NewOutcome m was bio (peer_new was bio grows m)
unfolding peer_new
peer_new-NewOutcome m was bio grows =
    by_size (allocated m) same (leb (allocated m).size (count (allocated m))) grows
  where
    by_start : (b : Bool) → (if b then record m { capacity = m.size } else m).peers ≡ m.peers
    by_start true = refl
    by_start false = refl

    same : (allocated m).peers ≡ m.peers
    same = by_start (m.capacity == 0)

    by_room :
        (m' : Manager)
        → m'.peers ≡ m.peers
        → (b : Bool)
        → NewOutcome m was bio (
            if b
            then some (some (count m'), record m' { peers = m'.peers ++ (peer_init bio was ∷ []) })
            else none)
    by_room m' e true = (
      ap (λ (ps : List Peer). length ps) e,
      ap (λ (ps : List Peer). ps ++ (peer_init bio was ∷ [])) e,
    )
    by_room m' e false = tt

    by_size :
        (m' : Manager)
        → m'.peers ≡ m.peers
        → (full grown : Bool)
        → NewOutcome m was bio (
            if full
            then (if grown
                then appended was bio (record m' { size = m'.size * 2; capacity = m'.size * 2 })
                else some (none, record m' { size = m'.size * 2 }))
            else appended was bio m')
    by_size m' e true true =
        by_room (record m' { size = m'.size * 2; capacity = m'.size * 2 }) e
          (ltb (count m') (m'.size * 2))
    by_size m' e true false = e
    by_size m' e false grown = by_room m' e (ltb (count m') m'.capacity)

module _ (c : Configs) (conf : c.Config) (keys : List ℕ) (item_maxlen : ℕ)
    (loads : List ℕ → Bool) where
  open c use {find_item}

  abbrev Checked : Peer → Type 0
  Checked p = IsChecked c conf keys item_maxlen loads p

  abbrev Table : List Peer → Type 0
  Table ps = AllChecked c conf keys item_maxlen loads ps

  -- A new element is not marked.
  abbrev pub NewChecked : Option (Option ℕ × Manager) → Type 0
  NewChecked none = Unit {0}
  NewChecked (some (none, m)) = Table m.peers
  NewChecked (some (some k, m)) =
      Table m.peers × ((p : Peer) → get_elem? m.peers k ≡ some p → p.key_ok ≡ false)

  pub not_marked : (p : Peer) → p.key_ok ≡ false → Checked p
  not_marked p e h = cc

  pub peer_new-NewChecked :
      (m : Manager) (was : Peer) (bio : ℕ) (grows : Bool)
      → Table m.peers
      → NewChecked (peer_new was bio grows m)
  unfolding peer_init
  peer_new-NewChecked m was bio grows a =
      by_outcome (peer_new was bio grows m) (peer_new-NewOutcome m was bio grows)
    where
      by_outcome : (o : Option (Option ℕ × Manager)) → NewOutcome m was bio o → NewChecked o
      by_outcome none h = tt
      by_outcome (some (none, m')) h = subst Table (sym h) a
      by_outcome (some (some k, m')) (at, e) = (
        subst Table (sym e) (
            AllChecked-append c conf keys item_maxlen loads m.peers (peer_init bio was) a
              (not_marked (peer_init bio was) refl)),
        λ p q.
            let there : get_elem? (m.peers ++ (peer_init bio was ∷ [])) (count m) ≡ some p =
              subst (λ (n : ℕ). get_elem? (m.peers ++ (peer_init bio was ∷ [])) n ≡ some p) at
                (subst (λ (ps : List Peer). get_elem? ps k ≡ some p) e q) in
            let same : some (peer_init bio was) ≡ some p =
              sym (get_elem?-last m.peers (peer_init bio was)) ∙ there in
            let same' : peer_init bio was ≡ p = cc in sym (ap (λ (x : Peer). x.key_ok) same'),
      )

  pub peer_exists_simple-AfterChecked :
      (was : Peer) (bio : ℕ) (grows : Bool) (m : Manager) (addr : Option (List ℕ)) (port : ℕ)
      → Table m.peers
      → AfterChecked c conf keys item_maxlen loads (peer_exists_simple was bio grows m addr port)
  unfolding peer_exists_simple
  peer_exists_simple-AfterChecked was bio grows m none port a = a
  peer_exists_simple-AfterChecked was bio grows m (some addr) port a = by_port (port == 0)
    where
      by_found :
          (f : Option (Option ℕ)) (r : Option (ℤ × Manager))
          → AfterChecked c conf keys item_maxlen loads r
          → AfterChecked c conf keys item_maxlen loads (found_then f r)
      by_found none r h = tt
      by_found (some f) none h = tt
      by_found (some f) (some (r, m')) h = h

      by_address :
          (k : ℕ) (ps : List Peer) (o : Option Peer)
          → Table ps
          → ((p : Peer) → o ≡ some p → p.key_ok ≡ false)
          → Table (elim o [ none ↦ ps | some p ↦ set ps k (addressed addr port p) ])
      by_address k ps none t new = t
      by_address k ps (some p) t new =
          AllChecked-set c conf keys item_maxlen loads ps k (addressed addr port p) t
            (not_marked (addressed addr port p) (new p refl))

      by_search :
          (o : Option (Option ℕ × Manager))
          → NewChecked o
          → AfterChecked c conf keys item_maxlen loads (search_new addr port o)
      by_search none h = tt
      by_search (some (none, m')) h = tt
      by_search (some (some k, m')) (t, new) =
          by_found (peer_exists (with_address addr port k m') k) _ (
            peer_remove-AfterChecked c conf keys item_maxlen loads (with_address addr port k m') k
              (by_address k m'.peers (get_elem? m'.peers k) t new))

      by_port :
          (b : Bool)
          → AfterChecked c conf keys item_maxlen loads
              (if b then some (none, m) else search_new addr port (peer_new was bio grows m))
      by_port true = a
      by_port false = by_search (peer_new was bio grows m) (peer_new-NewChecked m was bio grows a)
