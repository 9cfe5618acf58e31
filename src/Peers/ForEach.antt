-- ===== src/Peers/ForEach.antt =====
-- `while((p=peer_next()))` with a body that looks at the peer and leaves the table alone, as
-- core/core.c, core/file.c and core/handlers.c have it.
use tapi2p.Base.{
  ℕ, zero, suc, ◌+◌, ◌<◌, ◌≤◌, ◌≡◌, refl, ap, ◌∙◌, Option, none, some, List, [], ◌∷◌, ◌++◌, arith,
  get_elem?, length, drop,
}
use tapi2p.Peer.Types.{Peer}
use tapi2p.Peers.Table.{Manager, count, peer_next}
use tapi2p.Peers.Table.Iterate.{peer_next-more, peer_next-end}

pub drop-nil {ℓ} : {A : Type ℓ} (i : ℕ) (xs : List A) → drop i xs ≡ [] → length xs ≤ i
drop-nil zero [] e = omega arith
drop-nil zero (x ∷ xs) e = cc
drop-nil (suc i) [] e = omega arith
drop-nil (suc i) (x ∷ xs) e = let h = drop-nil i xs e in omega arith

pub drop-cons {ℓ} :
    {A : Type ℓ} (i : ℕ) (xs : List A) (y : A) (ys : List A)
    → drop i xs ≡ y ∷ ys
    → (get_elem? xs i ≡ some y) × (drop (i + 1) xs ≡ ys) × (i < length xs)
drop-cons zero [] y ys e = cc
drop-cons zero (x ∷ xs) y ys e = (cc, cc, omega arith)
drop-cons (suc i) [] y ys e = cc
drop-cons (suc i) (x ∷ xs) y ys e =
    let (a, b, c) = drop-cons i xs y ys e in
    let next : suc i + 1 ≡ suc (i + 1) = omega arith in
    (a, ap (λ (k : ℕ). drop k (x ∷ xs)) next ∙ b, omega arith)

module _ {ℓ} {A : Type ℓ} where
  -- What one round gives, in front of what the later ones give.
  abbrev pub gather : Option (List A) → Option (List A × Manager) → Option (List A × Manager)
  gather none later = none
  gather (some xs) none = none
  gather (some xs) (some (ys, m)) = some (xs ++ ys, m)

  abbrev pub after_peer :
      (ℕ → Peer → Option (List A))
      → (Manager → Option (List A × Manager))
      → Option ℕ × Manager
      → Option (List A × Manager)
  after_peer body rest (none, m) = some ([], m)
  after_peer body rest (some i, m) = elim (get_elem? m.peers i) [
    | none ↦ none
    | some p ↦ gather (body i p) (rest m)
  ]

  -- The loop, with fuel; `none` where the body faults or the fuel is used up.
  unfoldable pub for_each_peer :
      (ℕ → Peer → Option (List A)) → ℕ → Manager → Option (List A × Manager)
  unfolding peer_next
  for_each_peer body zero m = none
  for_each_peer body (suc fuel) m = after_peer body (for_each_peer body fuel) (peer_next m)

  abbrev pub both : Option (List A) → Option (List A) → Option (List A)
  both none ys = none
  both (some xs) none = none
  both (some xs) (some ys) = some (xs ++ ys)

  -- The body at each peer of a list, the first of which has index `i`.
  abbrev pub collected : (ℕ → Peer → Option (List A)) → ℕ → List Peer → Option (List A)
  collected body i [] = some []
  collected body i (p ∷ ps) = both (body i p) (collected body (i + 1) ps)

  abbrev pub finished : Manager → Option (List A) → Option (List A × Manager)
  finished m none = none
  finished m (some xs) = some (xs, record m { iterator = 0 })

  gather-finished :
      (m : Manager) (r : Option (List A)) (s : Option (List A))
      → gather r (finished m s) ≡ finished m (both r s)
  gather-finished m none s = refl
  gather-finished m (some xs) none = refl
  gather-finished m (some xs) (some ys) = refl

  for_each_peer-drop :
      (body : ℕ → Peer → Option (List A)) (ps : List Peer) (fuel : ℕ) (m : Manager)
      → drop m.iterator m.peers ≡ ps
      → length ps < fuel
      → for_each_peer body fuel m ≡ finished m (collected body m.iterator ps)
  unfolding for_each_peer
  for_each_peer-drop body ps zero m e h = absurd (omega arith)
  for_each_peer-drop body [] (suc fuel) m e h =
      ap (after_peer body (for_each_peer body fuel))
        (peer_next-end m (drop-nil m.iterator m.peers e))
  for_each_peer-drop body (p ∷ ps) (suc fuel) m e h =
      let (at, behind, inside) = drop-cons m.iterator m.peers p ps e in
      ap (after_peer body (for_each_peer body fuel)) (peer_next-more m inside)
      ∙ ap
          (λ (o : Option Peer). elim o [
            | none ↦ none
            | some q ↦
                gather (body m.iterator q)
                  (for_each_peer body fuel (record m { iterator = m.iterator + 1 }))
          ])
          at
      ∙ ap (gather (body m.iterator p)) (
          for_each_peer-drop body ps fuel (record m { iterator = m.iterator + 1 }) behind
            (omega arith))
      ∙ gather-finished m (body m.iterator p) (collected body (m.iterator + 1) ps)

  -- From the start of the table, with a round for each peer and one more.
  pub for_each_peer-collected :
      (body : ℕ → Peer → Option (List A)) (fuel : ℕ) (m : Manager)
      → m.iterator ≡ 0
      → count m < fuel
      → for_each_peer body fuel m ≡ finished m (collected body 0 m.peers)
  for_each_peer-collected body fuel m e h =
      for_each_peer-drop body m.peers fuel m (ap (λ (k : ℕ). drop k m.peers) e) h
      ∙ ap (λ (k : ℕ). finished m (collected body k m.peers)) e
