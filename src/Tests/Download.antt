-- ===== src/Tests/Download.antt =====
-- The start of a download at concrete inputs.
use tapi2p.Files.{sha_to_str}
use tapi2p.Base.{
  ℕ, ◌≡◌, refl, arith, inl, inr, pos, eq_ℤ, Option, none, some, List, [], ◌∷◌, true, false, codes,
  replicate,
}
use tapi2p.Event.Types.{Alloc}
use tapi2p.FileTransfers.{unused}
use tapi2p.Peer.Types.{Peer, FileTransfer, no_transfer, no_metadata}
use tapi2p.Peer.Transfers.{get_and_lock_new_filetransfer}
use tapi2p.Peers.Sockets.{send_socket}
use tapi2p.Core.Sending.{Selected}
use tapi2p.Handlers.World.{Configs}
use tapi2p.Handlers.Receiving.{Arrived, Disk, Receiving, handlemetadata}
use tapi2p.Handlers.Receiving.Laws.{first_request, Begun, handlemetadata-Begun}

-- A configuration of one value, the last that was added.
abbrev last_value : Configs
last_value = record {
  Config = Option (List ℕ);
  add = λ c s k v. v;
  find_item = λ c k s. some c;
  find_section = λ c s. none;
}

abbrev peer : Peer
peer = record {
  addr = codes "10.0.0.1";
  port = 5000;
  connectable = true;
  key_ok = true;
  isock = pos 3;
  osock = pos 4;
  thread = 0;
  bio = 1;
  file_transfers = no_transfer ∷ [];
}

abbrev sealed : Peer → List ℕ → Option (List ℕ)
sealed p bytes = some (p.bio ∷ bytes)

abbrev idle : Receiving last_value sealed
idle = record {
  config = none;
  saved = [];
  transfers = unused ∷ [];
  peer = peer;
  metadata_files = [];
  sent = [];
}

abbrev arrived : Arrived
arrived = record { metadata = no_metadata; filename = codes "f"; sha_data = replicate 40 0 }

abbrev disk : Disk
disk = record { found = false; opens = true; opened = λ path. some 7 }

abbrev ready : Selected
ready = record { nfds = pos 1; ready = λ fd. eq_ℤ fd (pos 4) }

abbrev memory : Alloc
memory = record { address = 64; leftover = 0; garbage = [] }

abbrev locked : List FileTransfer
locked = record no_transfer { locked = true } ∷ []

handlemetadata-Begun_example :
    (t : Receiving last_value sealed) × (handlemetadata last_value sealed disk ready memory [] idle
        arrived
      ≡ some t)
    × Begun last_value sealed disk memory [] idle arrived 0 locked 7 t
unfolding get_and_lock_new_filetransfer send_socket
handlemetadata-Begun_example =
    handlemetadata-Begun last_value sealed disk ready memory [] idle arrived 0 7
      (peer.bio ∷ first_request last_value sealed memory [] (sha_to_str arrived.sha_data)) locked
      (omega arith) (inr (refl, tt)) (inl refl) ((λ s e. cc), tt) refl refl refl refl refl refl refl
