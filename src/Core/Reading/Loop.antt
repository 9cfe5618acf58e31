-- ===== src/Core/Reading/Loop.antt =====
-- The loop over the peers in a round of read_thread (core/core.c).
use tapi2p.Base.{
  ℕ, zero, suc, ◌+◌, ◌<◌, ◌≡◌, refl, ap, ◌∙◌, FdSet, Option, List, [], ◌∷◌, drop, length, arith,
}
use tapi2p.Crypto.{Openssl}
use tapi2p.Event.Callbacks.{Registry}
use tapi2p.Peer.Types.{Peer}
use tapi2p.Peers.ForEach.{drop-nil, drop-cons}
use tapi2p.Peers.Table.{Manager, count}
use tapi2p.Peers.Table.Iterate.{peer_next-more, peer_next-end}
use tapi2p.Core.Reading.{
  Outcome, ok, in_recv, fault, ◌>>=◌, or_fault, Thread, Incoming, read_peer, read_found, read_peers,
}

-- A step for each peer of a list, the first of which has index `i`.
abbrev pub each_peer :
    (ℕ → Peer → Thread → Outcome Thread) → ℕ → List Peer → Thread → Outcome Thread
each_peer f i [] t = ok t
each_peer f i (p ∷ ps) t = f i p t >>= each_peer f (i + 1) ps

-- The table is back at its start.
abbrev pub rewound : Manager → Outcome Thread → Outcome (Manager × Thread)
rewound m r = r >>= λ t. ok (record m { iterator = 0 }, t)

bind_rewound :
    (m : Manager) (r : Outcome Thread) (f : Thread → Outcome (Manager × Thread))
    (g : Thread → Outcome Thread)
    → ((t : Thread) → f t ≡ rewound m (g t))
    → (r >>= f) ≡ rewound m (r >>= g)
bind_rewound m (ok t) f g h = h t
bind_rewound m in_recv f g h = refl
bind_rewound m fault f g h = refl

module _ (o : Openssl) (deckey : o.PrivateKey) (reg : Registry) (ready : FdSet)
    (inc : ℕ → Incoming) where
  abbrev pub step : ℕ → Peer → Thread → Outcome Thread
  step i p t = read_peer o deckey reg ready (inc i) i p t

  read_peers-drop :
      (ps : List Peer) (fuel : ℕ) (m : Manager) (t : Thread)
      → drop m.iterator m.peers ≡ ps
      → length ps < fuel
      → read_peers o deckey reg fuel ready inc m t ≡ rewound m (each_peer step m.iterator ps t)
  unfolding read_peers
  read_peers-drop ps zero m t e h = absurd (omega arith)
  read_peers-drop [] (suc fuel) m t e h =
      ap (λ q. read_found o deckey reg (read_peers o deckey reg fuel ready inc) ready inc q t)
        (peer_next-end m (drop-nil m.iterator m.peers e))
  read_peers-drop (p ∷ ps) (suc fuel) m t e h =
      let (at, behind, inside) = drop-cons m.iterator m.peers p ps e in
      let m' : Manager = record m { iterator = m.iterator + 1 } in
      let rest : Manager → Thread → Outcome (Manager × Thread) =
        read_peers o deckey reg fuel ready inc in
      ap (λ q. read_found o deckey reg rest ready inc q t) (peer_next-more m inside)
      ∙ ap (λ (found : Option Peer). or_fault found >>= λ q. step m.iterator q t >>= rest m') at
      ∙ bind_rewound m (step m.iterator p t) (rest m') (each_peer step (m.iterator + 1) ps)
          (λ t'. read_peers-drop ps fuel m' t' behind (omega arith))

  -- From the start of the table, with a round for each peer and one more.
  pub read_peers-each_peer :
      (fuel : ℕ) (m : Manager) (t : Thread)
      → m.iterator ≡ 0
      → count m < fuel
      → read_peers o deckey reg fuel ready inc m t ≡ rewound m (each_peer step 0 m.peers t)
  read_peers-each_peer fuel m t e h =
      read_peers-drop m.peers fuel m t (ap (λ (k : ℕ). drop k m.peers) e) h
      ∙ ap (λ (k : ℕ). rewound m (each_peer step k m.peers t)) e
