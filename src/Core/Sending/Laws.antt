-- ===== src/Core/Sending/Laws.antt =====
-- Who gets an event that is sent to all peers.
use tapi2p.Base.{
  ℕ, ◌+◌, ◌<◌, ◌≡◌, refl, ap, ap₂, ◌∙◌, ℤ, pos, ltb_ℤ, leb_ℤ, Option, some, List, [], ◌∷◌, ◌++◌,
  none, Bool, true, false, ◌&&◌, if◌then◌else◌, arith,
}
use tapi2p.Event.Types.{Evt, Alloc}
use tapi2p.Event.Wire.{wire}
use tapi2p.Peer.Types.{Peer}
use tapi2p.Peers.Sockets.{send_socket}
use tapi2p.Peers.Table.{Manager, count}
use tapi2p.Peers.ForEach.{collected, both, gather, finished, for_each_peer-collected}
use tapi2p.Core.Sending.{
  Selected, Sent, send_event_to_peer_internal, send_to_all, then_send_to_all, is_excluded,
  listing_request, request_file_part_listing_from_peers,
}

-- Each peer has a socket that events can be sent on.
abbrev pub HaveSockets : List Peer → Type 0
HaveSockets [] = Unit {0}
HaveSockets (p ∷ ps) = (leb_ℤ (pos 0) (send_socket p.isock p.osock) ≡ true) × HaveSockets ps

-- What is sent of an encrypted event.
abbrev pub sealed_on : ℤ → Option (List ℕ) → List Sent
sealed_on fd none = []
sealed_on fd (some b) = record { fd = fd; bytes = b } ∷ []

module _ (seal : Peer → List ℕ → Option (List ℕ)) where
  -- The event can be encrypted under the key of each peer.
  abbrev pub CanSeal : Evt → List Peer → Type 0
  CanSeal e [] = Unit {0}
  CanSeal e (p ∷ ps) = ((b : List ℕ) × (seal p (wire e) ≡ some b)) × CanSeal e ps

  -- What a peer is sent in a round: the event under its key, on its socket, if select has the
  -- socket ready.
  abbrev pub delivery : Selected → Evt → Peer → List Sent
  delivery sel e p =
      if ltb_ℤ (pos 0) sel.nfds && sel.ready (send_socket p.isock p.osock)
      then sealed_on (send_socket p.isock p.osock) (seal p (wire e))
      else []

  -- The deliveries to the peers of a list that are not skipped, in order.
  abbrev pub deliveries : (ℕ → Bool) → (ℕ → Selected) → Evt → ℕ → List Peer → List Sent
  deliveries skip sel e i [] = []
  deliveries skip sel e i (p ∷ ps) =
      (if skip i then [] else delivery (sel i) e p) ++ deliveries skip sel e (i + 1) ps

  send-delivery :
      (b : Bool) (sel : Selected) (p : Peer) (e : Evt)
      → leb_ℤ (pos 0) (send_socket p.isock p.osock) ≡ true
      → (c : List ℕ) × (seal p (wire e) ≡ some c)
      → (if b then some [] else send_event_to_peer_internal seal sel p e)
        ≡ some (if b then [] else delivery sel e p)
  unfolding send_event_to_peer_internal
  send-delivery true sel p e h k = refl
  send-delivery false sel p e h (c, k) = rw (h, k) (ground arith)

  collected-deliveries :
      (skip : ℕ → Bool) (sel : ℕ → Selected) (e : Evt) (i : ℕ) (ps : List Peer)
      → HaveSockets ps
      → CanSeal e ps
      → collected
          (λ j p. if skip j then some [] else send_event_to_peer_internal seal (sel j) p e)
          i
          ps
        ≡ some (deliveries skip sel e i ps)
  collected-deliveries skip sel e i [] h k = refl
  collected-deliveries skip sel e i (p ∷ ps) h k =
      ap₂ both (send-delivery (skip i) (sel i) p e h.0 k.0)
        (collected-deliveries skip sel e (i + 1) ps h.1 k.1)

  -- With the iterator at the start, a socket for each peer and a key of each peer that the event can be
  -- encrypted with, send_to_all ends and sends the event
  -- once to each peer whose socket select has ready, under the peer's key and in the table's order,
  -- and to no other; the table is as it was.
  pub send_to_all-deliveries :
      (sel : ℕ → Selected) (fuel : ℕ) (m : Manager) (e : Evt)
      → m.iterator ≡ 0
      → count m < fuel
      → HaveSockets m.peers
      → CanSeal e m.peers
      → send_to_all seal sel fuel m e
        ≡ some (deliveries (λ i. false) sel e 0 m.peers, record m { iterator = 0 })
  unfolding send_to_all
  send_to_all-deliveries sel fuel m e start enough h k =
      for_each_peer-collected (λ i p. send_event_to_peer_internal seal (sel i) p e) fuel m start
        enough
      ∙ ap (finished m) (collected-deliveries (λ i. false) sel e 0 m.peers h k)

  -- With the iterator at the start, a socket for each peer and a key of each peer that the request can
  -- be encrypted with, request_file_part_listing_from_peers sends the request to every ready peer but the excluded
  -- one, and then, by send_to_all, once more to every ready peer: the excluded one gets it too.
  pub listing-deliveries :
      (sel sel' : ℕ → Selected) (fuel : ℕ) (a : Alloc) (m : Manager) (sha : List ℕ)
      (exclude : Option ℕ)
      → m.iterator ≡ 0
      → count m < fuel
      → HaveSockets m.peers
      → CanSeal (listing_request a sha) m.peers
      → request_file_part_listing_from_peers seal sel sel' fuel a m sha exclude
        ≡ some (
          deliveries (is_excluded exclude) sel (listing_request a sha) 0 m.peers
              ++ deliveries (λ i. false) sel' (listing_request a sha) 0 m.peers,
          record m { iterator = 0 },
        )
  unfolding request_file_part_listing_from_peers
  listing-deliveries sel sel' fuel a m sha exclude start enough h k =
      ap (then_send_to_all seal sel' fuel (listing_request a sha)) (
        for_each_peer-collected
          (λ j p.
            if is_excluded exclude j
            then some []
            else send_event_to_peer_internal seal (sel j) p (listing_request a sha))
          fuel m start enough
        ∙ ap (finished m)
            (collected-deliveries (is_excluded exclude) sel (listing_request a sha) 0 m.peers h k))
      ∙ ap (gather (some (deliveries (is_excluded exclude) sel (listing_request a sha) 0 m.peers)))
          (send_to_all-deliveries sel' fuel (record m { iterator = 0 }) (listing_request a sha) refl
            enough h k)
