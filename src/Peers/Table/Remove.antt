-- ===== src/Peers/Table/Remove.antt =====
-- peer_remove finds the element that it was given, and what its memmove needs.
use mathlib.Core.Logic.{if_pos, if_neg}
use tapi2p.Base.{
  ℕ, zero, suc, ◌+◌, ◌-◌, ◌<◌, ◌≤◌, ◌≡◌, ◌≢◌, refl, ap, ◌∙◌, ℤ, pos, Option, none, some, List, [],
  ◌∷◌, ◌++◌, ◌==◌, if◌then◌else◌, arith, inl, inr, get_elem?, ℕ_discrete, dec_lt, length,
  get_elem?-lt, ◌⊎◌,
}
use tapi2p.Peer.Types.{Peer, Peer-discrete}
use tapi2p.Peers.Table.{Manager, count, same_loop, erase_at, remove_at, peer_remove}

-- No element has the key allocation.
abbrev pub Fresh : ℕ → List Peer → Type 0
Fresh b [] = Unit {0}
Fresh b (q ∷ qs) = (q.bio ≢ b) × Fresh b qs

abbrev pub Distinct : List Peer → Type 0
Distinct [] = Unit {0}
Distinct (q ∷ qs) = Fresh q.bio qs × Distinct qs

Fresh-get :
    (b : ℕ) (qs : List Peer) (k : ℕ) (p : Peer) → Fresh b qs → get_elem? qs k ≡ some p → p.bio ≢ b
Fresh-get b [] k p f e = cc
Fresh-get b (q ∷ qs) zero p f e = ground (arith, f.0)
Fresh-get b (q ∷ qs) (suc k) p f e = Fresh-get b qs k p f.1 e

pub same_loop-get :
    (p : Peer) (i k : ℕ) (qs : List Peer)
    → Distinct qs
    → get_elem? qs k ≡ some p
    → same_loop p i qs ≡ some (i + k)
unfolding same_loop
same_loop-get p i k [] d e = cc
same_loop-get p i zero (q ∷ qs) d e = rw (if_pos (Peer-discrete p q) same) (ap some (omega arith))
  where
    same : p ≡ q
    same = cc
same_loop-get p i (suc k) (q ∷ qs) d e =
    rw (if_neg (Peer-discrete p q) other)
      (same_loop-get p (i + 1) k qs d.1 e ∙ ap some (omega arith))
  where
    other : p ≢ q
    other h = Fresh-get q.bio qs k p d.0 e (ap (λ (x : Peer). x.bio) h)

-- With the key allocations distinct, peer_remove of an element of the table removes that element.
pub peer_remove-remove_at :
    (m : Manager) (k : ℕ) (p : Peer)
    → Distinct m.peers
    → get_elem? m.peers k ≡ some p
    → peer_remove m k ≡ remove_at m k
unfolding peer_remove
peer_remove-remove_at m k p d e =
    rw (e, peer_remove) (rw (same_loop-get p 0 k m.peers d e) (ap (remove_at m) (omega arith)))

-- The elements before and behind index `k`.
abbrev pub Split : List Peer → ℕ → Peer → List Peer → Type 0
Split ps k p rest =
    (pre : List Peer) × (post : List Peer) × (ps ≡ pre ++ (p ∷ post))
    × (length pre ≡ k)
    × (rest ≡ pre ++ post)

pub erase_at-Split :
    (ps : List Peer) (k : ℕ) (p : Peer) → get_elem? ps k ≡ some p → Split ps k p (erase_at k ps)
unfolding erase_at
erase_at-Split [] k p e = cc
erase_at-Split (q ∷ qs) zero p e = ([], qs, ground arith, refl, refl)
erase_at-Split (q ∷ qs) (suc k) p e = push (erase_at-Split qs k p e)
  where
    push : Split qs k p (erase_at k qs) → Split (q ∷ qs) (suc k) p (q ∷ erase_at k qs)
    push (pre, post, a, l, b) = (q ∷ pre, post, ap (◌∷◌ q) a, ap suc l, ap (◌∷◌ q) b)

-- What peer_remove of element `k` comes to.
abbrev pub Removal : Manager → ℕ → Peer → Option (ℤ × Manager) → Type 0
Removal m k p r =
    (((k + 1 ≡ count m) ⊎ (count m + 2 ≤ m.capacity))
      × ((m' : Manager) × (r ≡ some (pos 0, m'))
          × Split m.peers k p m'.peers
          × (m'.capacity ≡ m.capacity)))
    ⊎ ((k + 1 ≢ count m) × (m.capacity < count m + 2) × (r ≡ none))

-- peer_remove of a live element, with the key allocations distinct. It takes out just that element
-- and returns 0, if the element is the last or the array has room for two elements more than are
-- live; otherwise its memmove goes outside the array.
pub peer_remove-Removal :
    (m : Manager) (k : ℕ) (p : Peer)
    → Distinct m.peers
    → get_elem? m.peers k ≡ some p
    → Removal m k p (peer_remove m k)
unfolding remove_at
peer_remove-Removal m k p d e = elim (ℕ_discrete (k + 1) (count m)) [
  | yes last ↦ inl (inl last, taken (inl last))
  | no inner ↦ elim (dec_lt m.capacity (count m + 2)) [
    | yes tight ↦
        inr
          (inner, tight, peer_remove-remove_at m k p d e ∙ ground (arith, get_elem?-lt m.peers k e))
    | no room ↦ inl (inr (omega arith), taken (inr (omega arith)))
  ]
]
  where
    fits :
        (k + 1 ≡ count m) ⊎ (count m + 2 ≤ m.capacity)
        → remove_at m k
          ≡ some (
            pos 0,
            record m {
              peers = erase_at k m.peers;
              iterator = if m.iterator == count m then m.iterator - 1 else m.iterator;
            },
          )
    fits (inl last) = ground arith
    fits (inr room) = ground arith

    taken :
        (k + 1 ≡ count m) ⊎ (count m + 2 ≤ m.capacity)
        → (m' : Manager) × (peer_remove m k ≡ some (pos 0, m'))
          × Split m.peers k p m'.peers
          × (m'.capacity ≡ m.capacity)
    taken room = (
      record m {
        peers = erase_at k m.peers;
        iterator = if m.iterator == count m then m.iterator - 1 else m.iterator;
      },
      peer_remove-remove_at m k p d e ∙ fits room,
      erase_at-Split m.peers k p e,
      refl,
    )
