-- ===== src/Tests/Connections.antt =====
-- Connections and sending at concrete inputs, with a configuration of one peer and sealing that
-- puts the length of the key's name before the message.
use tapi2p.Base.{
  Option, ℕ, ◌≡◌, pos, refl, some, List, [], ◌∷◌, Bool, true, ◌==◌, ◌++◌, eq_ℤ, arith, false, codes,
  if◌then◌else◌, bytes_eq, take,
}
use tapi2p.Event.Types.{Evt, ipv4_max}
use tapi2p.Peer.Types.{Peer, peer_init}
use tapi2p.Event.Wire.{wire, event_new}
use tapi2p.Peers.Sockets.{Sets, send_socket, initial_sets, watch_in, watch_write}
use tapi2p.Handlers.World.{Configs}
use tapi2p.Core.Sending.{
  Selected, send_to_all, listing_request, request_file_part_listing_from_peers,
}
use tapi2p.Core.Sending.Laws.{
  CanSeal, HaveSockets, deliveries, send_to_all-deliveries, listing-deliveries,
}
use tapi2p.Event.Types.{Evt, Alloc, message}
use tapi2p.Core.Connections.{Memory, Net, connected, accept_connection}
use tapi2p.Core.Connections.Checked.{HasKey}
use tapi2p.Core.Connections.Reach.{initial_net, accept, start, step, Reach-HasKey}

abbrev one_peer : Configs
one_peer = record {
  Config = Unit {0};
  add = λ c s k v. tt;
  find_item = λ c k s.
      if bytes_eq k (codes "Port") then some (some (codes "5000")) else some (some (codes "a.pub"));
  find_section = λ c s. some ((codes "10.0.0.1", some (codes "5000")) ∷ []);
}

abbrev watched : Sets
watched = watch_write (pos 4) (watch_in (pos 3) (pos 4) initial_sets)

abbrev slot : Peer
slot = record {
  addr = [];
  port = 0;
  connectable = false;
  key_ok = false;
  isock = pos 0;
  osock = pos 0;
  thread = 0;
  bio = 0;
  file_transfers = [];
}

abbrev memory : ℕ → Memory
memory b = record { was = slot; bio = b; grows = true }

abbrev always : List ℕ → Bool
always path = true

abbrev accepted : Peer
accepted = record (peer_init 8 slot) {
  addr = codes "10.0.0.1";
  port = 5000;
  key_ok = true;
  isock = pos 3;
  osock = pos 4;
}

abbrev after_accept : Net
after_accept = record {
  table = record { peers = accepted ∷ []; size = 5; capacity = 5; iterator = 0 };
  sets = watched;
  running = true;
  announced = codes "10.0.0.1" ∷ [];
}

accepts :
    accept_connection one_peer tt
      (codes "k/")
      16
      always
      initial_net
      (memory 8)
      (codes "10.0.0.1")
      (pos 3)
      (connected (pos 4))
    ≡ some after_accept
unfolding accept_connection peer_init
accepts = refl

Reach-HasKey_example :
    (name : List ℕ) × (take ipv4_max name ≡ take ipv4_max accepted.addr)
    × HasKey one_peer tt (codes "k/") 16 always name
unfolding peer_init
Reach-HasKey_example =
    Reach-HasKey one_peer tt (codes "k/") 16 always {s = after_accept} 0 accepted
      (step start (accept (memory 8) (codes "10.0.0.1") (pos 3) (connected (pos 4)) tt accepts))
      refl refl

-- Sealing, and rounds of select in which socket 4 is ready.
abbrev sealed : Peer → List ℕ → Option (List ℕ)
sealed p bytes = some (p.bio ∷ bytes)

abbrev ready : ℕ → Selected
ready i = record { nfds = pos 1; ready = λ fd. eq_ℤ fd (pos 4) }

abbrev allocated_at : Alloc
allocated_at = record { address = 64; leftover = 0; garbage = [] }

abbrev greeting : Evt
greeting = event_new allocated_at message (some (codes "hi")) 2

has_socket : HaveSockets after_accept.table.peers
unfolding send_socket
has_socket = (refl, tt)

can_seal : (e : Evt) → CanSeal sealed e after_accept.table.peers
can_seal e = ((accepted.bio ∷ wire e, refl), tt)

send_to_all-deliveries_example :
    send_to_all sealed ready 3 after_accept.table greeting
    ≡ some (deliveries sealed (λ i. false) ready greeting 0 (accepted ∷ []), after_accept.table)
send_to_all-deliveries_example =
    send_to_all-deliveries sealed ready 3 after_accept.table greeting refl (omega arith) has_socket
      (can_seal greeting)

listing-deliveries_example :
    request_file_part_listing_from_peers sealed ready ready 3 allocated_at after_accept.table
      (codes "aa")
      (some 0)
    ≡ some (
      deliveries sealed
            (λ i. i == 0)
            ready
            (listing_request allocated_at (codes "aa"))
            0
            (accepted ∷ [])
          ++ deliveries sealed
              (λ i. false)
              ready
              (listing_request allocated_at (codes "aa"))
              0
              (accepted ∷ []),
      after_accept.table,
    )
listing-deliveries_example =
    listing-deliveries sealed ready ready 3 allocated_at after_accept.table (codes "aa") (some 0)
      refl (omega arith) has_socket (can_seal (listing_request allocated_at (codes "aa")))
