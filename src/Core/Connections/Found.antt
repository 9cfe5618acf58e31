-- ===== src/Core/Connections/Found.antt =====
-- What peer_exists finds for a new element, and what its removal leaves.
use mathlib.Core.Logic.{if_pos, if_neg}
use tapi2p.Base.{
  ℕ, zero, suc, ◌+◌, ◌-◌, ◌≡◌, ◌≢◌, refl, sym, ap, subst, ◌∙◌, ℤ, pos, Option, none, some, List, [],
  ◌∷◌, ◌++◌, Bool, true, false, not, ◌&&◌, ◌==◌, ==_iff, if◌then◌else◌, length, get_elem?, arith,
}
use tapi2p.Peer.Types.{Peer, Peer-discrete}
use tapi2p.Peers.Table.{
  Manager, count, same_address, exists_loop, same_loop, erase_at, remove_at, peer_remove,
}
use tapi2p.Peers.Table.Remove.{Fresh}
use tapi2p.Peers.Table.Find.{get_elem?-last, erase_at-last}

-- What peer_exists finds is another element with the address and the port.
abbrev pub FoundAt : Peer → ℕ → ℕ → ℕ → List Peer → Type 0
FoundAt p k i j qs =
    (n : ℕ) × (q : Peer) × (j ≡ i + n)
    × (get_elem? qs n ≡ some q)
    × (same_address q p ≡ true)
    × (j ≢ k)

found_here :
    (p q : Peer) (k i j : ℕ) (qs : List Peer) (same this : Bool) (rest : Option ℕ)
    → same_address q p ≡ same
    → (i == k) ≡ this
    → (rest ≡ some j → FoundAt p k (i + 1) j qs)
    → (if same && not this then some i else rest) ≡ some j
    → FoundAt p k i j (q ∷ qs)
found_here p q k i j qs true false rest a b ih e =
    let here : i ≡ j = cc in
    (0, q, omega arith, refl, a, λ (h : j ≡ k). cc ((==_iff i k).1 (here ∙ h)))
found_here p q k i j qs true true rest a b ih e = later (ih e)
  where
    later : FoundAt p k (i + 1) j qs → FoundAt p k i j (q ∷ qs)
    later (n, x, at, g, s, ne) = (suc n, x, omega arith, g, s, ne)
found_here p q k i j qs false this rest a b ih e = later (ih e)
  where
    later : FoundAt p k (i + 1) j qs → FoundAt p k i j (q ∷ qs)
    later (n, x, at, g, s, ne) = (suc n, x, omega arith, g, s, ne)

pub exists_loop-found :
    (p : Peer) (k i j : ℕ) (qs : List Peer) → exists_loop p k i qs ≡ some j → FoundAt p k i j qs
unfolding exists_loop
exists_loop-found p k i j [] e = cc
exists_loop-found p k i j (q ∷ qs) e =
    found_here p q k i j qs (same_address q p) (i == k) (exists_loop p k (i + 1) qs) refl refl
      (λ h. exists_loop-found p k (i + 1) j qs h) e

pub get_elem?-front :
    (ps : List Peer) (p q : Peer) (n : ℕ)
    → get_elem? (ps ++ (p ∷ [])) n ≡ some q
    → n ≢ length ps
    → get_elem? ps n ≡ some q
get_elem?-front [] p q zero e h = absurd (h refl)
get_elem?-front [] p q (suc n) e h = cc
get_elem?-front (x ∷ ps) p q zero e h = e
get_elem?-front (x ∷ ps) p q (suc n) e h = get_elem?-front ps p q n e (λ l. h (ap suc l))

-- memcmp finds a new element behind elements with other keys, and there only.
same_loop-last :
    (p : Peer) (i : ℕ) (ps : List Peer)
    → Fresh p.bio ps
    → same_loop p i (ps ++ (p ∷ [])) ≡ some (i + length ps)
unfolding same_loop
same_loop-last p i [] f = rw (if_pos (Peer-discrete p p) refl) (ap some (omega arith))
same_loop-last p i (q ∷ qs) f =
    rw (if_neg (Peer-discrete p q) (λ e. f.0 (ap (λ (x : Peer). x.bio) (sym e))))
      (same_loop-last p (i + 1) qs f.1 ∙ ap some (omega arith))

-- The peers that a removal leaves.
abbrev pub LeavesPeers : List Peer → Option (ℤ × Manager) → Type 0
LeavesPeers ps none = Unit {0}
LeavesPeers ps (some (r, m)) = m.peers ≡ ps

pub peer_remove-last :
    (m : Manager) (ps : List Peer) (p : Peer)
    → m.peers ≡ ps ++ (p ∷ [])
    → Fresh p.bio ps
    → LeavesPeers ps (peer_remove m (length ps))
unfolding peer_remove remove_at
peer_remove-last m ps p e f = subst (LeavesPeers ps) (sym removed) (by_room _)
  where
    there : get_elem? m.peers (length ps) ≡ some p
    there = ap (λ (xs : List Peer). get_elem? xs (length ps)) e ∙ get_elem?-last ps p

    same : same_loop p 0 m.peers ≡ some (length ps)
    same = ap (same_loop p 0) e ∙ same_loop-last p 0 ps f ∙ ap some (omega arith)

    removed : peer_remove m (length ps) ≡ remove_at m (length ps)
    removed = rw (there, peer_remove) (rw same refl)

    by_room :
        (b : Bool)
        → LeavesPeers ps (
            if b
            then none
            else some (
              pos 0,
              record m {
                peers = erase_at (length ps) m.peers;
                iterator = if m.iterator == count m then m.iterator - 1 else m.iterator;
              },
            ))
    by_room true = tt
    by_room false = ap (erase_at (length ps)) e ∙ erase_at-last ps p
