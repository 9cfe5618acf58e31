-- ===== src/Peers/Table/Iterate.antt =====
-- peer_next visits every live peer once, in order.
use tapi2p.Base.{
  ℕ, zero, suc, ◌+◌, ◌<◌, ◌≤◌, ◌≡◌, ap, ◌∙◌, Option, none, some, List, [], ◌∷◌, lt→ltb, arith,
}
use tapi2p.Peers.Table.{Manager, count, peer_next}

abbrev prepend : ℕ → Option (List ℕ × Manager) → Option (List ℕ × Manager)
prepend p none = none
prepend p (some (ps, m)) = some (p ∷ ps, m)

abbrev after_next :
    (Manager → Option (List ℕ × Manager)) → Option ℕ × Manager → Option (List ℕ × Manager)
after_next rest (none, m) = some ([], m)
after_next rest (some p, m) = prepend p (rest m)

-- while((p=peer_next())): the pointers that the loop sees, in order, with fuel.
unfoldable pub walk : ℕ → Manager → Option (List ℕ × Manager)
walk zero m = none
walk (suc fuel) m = after_next (walk fuel) (peer_next m)

-- The indices from `i` on, `n` of them.
abbrev pub indices : ℕ → ℕ → List ℕ
indices i zero = []
indices i (suc n) = i ∷ indices (i + 1) n

pub peer_next-more :
    (m : Manager)
    → m.iterator < count m
    → peer_next m ≡ (some m.iterator, record m { iterator = m.iterator + 1 })
unfolding peer_next
peer_next-more m h = rw (lt→ltb m.iterator (count m) h)

pub peer_next-end :
    (m : Manager) → count m ≤ m.iterator → peer_next m ≡ (none, record m { iterator = 0 })
unfolding peer_next
peer_next-end m h = ground arith

-- From any position of the iterator, a loop over peer_next that has a round for each remaining
-- peer and one more ends: it sees every remaining peer once, in order, and leaves the iterator at
-- the start and the table as it was.
pub walk-indices :
    (n fuel : ℕ) (m : Manager)
    → m.iterator + n ≡ count m
    → n < fuel
    → walk fuel m ≡ some (indices m.iterator n, record m { iterator = 0 })
unfolding walk
walk-indices n zero m e h = absurd (omega arith)
walk-indices zero (suc fuel) m e h = ap (after_next (walk fuel)) (peer_next-end m (omega arith))
walk-indices (suc n) (suc fuel) m e h =
    ap (after_next (walk fuel)) (peer_next-more m (omega arith))
    ∙ ap (prepend m.iterator)
        (walk-indices n fuel (record m { iterator = m.iterator + 1 }) (omega arith) (omega arith))
