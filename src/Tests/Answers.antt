-- ===== src/Tests/Answers.antt =====
-- The handlers that answer and serve files, and the making of sockets, at concrete inputs.
use tapi2p.Base.{
  ℕ, ◌≡◌, refl, arith, inl, inr, pos, negsuc, Option, none, some, List, [], ◌∷◌, true, false, codes,
  ◌+◌,
}
use tapi2p.Event.Types.{Evt}
use tapi2p.FileTransfers.{Transfers, unused}
use tapi2p.Peer.Types.{Peer, FileTransfer, no_transfer}
use tapi2p.Peer.Transfers.{get_and_lock_new_filetransfer}
use tapi2p.Peers.Table.{Manager}
use tapi2p.Handlers.World.{Jansson, Configs, set_new}
use tapi2p.Handlers.Listing.{
  answer, peer_object, peers_text, handlelistpeers, handlefiletransferstatus, array_of,
}
use tapi2p.Handlers.Listing.Laws.{
  handlelistpeers-peer_object, used_objects, handlefiletransferstatus-used_objects,
}
use tapi2p.Handlers.Sending.{part_message}
use tapi2p.Handlers.Serving.{Serving, handlefilepartrequest, send_file_part_thread}
use tapi2p.Handlers.Serving.Part.{ServedJob, handlefilepartrequest-Served}
use tapi2p.Util.{Os, Calls, new_socket}
use tapi2p.Util.Outcome.{SocketOutcome, new_socket-SocketOutcome}
use tapi2p.Tests.Web.{text, number, reader, writer, no_conf, event_of, memory}

abbrev peer : Peer
peer = record {
  addr = codes "10.0.0.1";
  port = 5000;
  connectable = true;
  key_ok = true;
  isock = pos 3;
  osock = pos 4;
  thread = 0;
  bio = 1;
  file_transfers = [];
}

abbrev table : Manager
table = record { peers = peer ∷ peer ∷ []; size = 5; capacity = 5; iterator = 0 }

handlelistpeers-peer_object_example :
    handlelistpeers no_conf reader writer tt memory 3 table (event_of [])
    ≡ elim (answer memory (event_of []) (
          peers_text no_conf reader writer tt (
            peer_object no_conf reader writer tt peer
            ∷ peer_object no_conf reader writer tt peer
            ∷ [])))
        as (λ x. Option (Evt × Manager)) [ none ↦ none | some reply ↦ some (reply, table) ]
handlelistpeers-peer_object_example =
    handlelistpeers-peer_object no_conf reader writer tt memory 3 table (event_of []) refl
      (omega arith)

abbrev statuses : Transfers
statuses = record unused { sha_str = some (codes "aa") } ∷ unused ∷ []

handlefiletransferstatus-used_objects_example :
    handlefiletransferstatus no_conf reader writer tt memory statuses (event_of [])
    ≡ answer memory (event_of []) (
        writer.dumps (
          set_new writer writer.object (codes "statuses") (
            some (
              array_of no_conf reader writer tt
                (used_objects no_conf reader writer tt statuses)
                writer.array))))
handlefiletransferstatus-used_objects_example =
    handlefiletransferstatus-used_objects no_conf reader writer tt memory statuses (event_of [])
      (inl ((codes "aa", refl), inr (refl, tt)))

-- Every text is an object, whose fields are an array of a string and a number.
abbrev arrays : Jansson
arrays = record reader {
  is_array = λ v. true;
  elements = λ v. text (codes "a") ∷ number (pos 3) ∷ [];
  object_get = λ v k. some v;
}

-- A configuration is how many items have been added.
abbrev counted : Configs
counted = record {
  Config = ℕ;
  add = λ n s k v. n + 1;
  find_item = λ c k s. none;
  find_section = λ c s. none;
}

-- One item: every hash has the file "f", which is FILE 7 of three bytes; its metadata is FILE 8.
abbrev one_file : Configs
one_file = record {
  Config = Unit {0};
  add = λ c s k v. c;
  find_item = λ c k s. some (some (codes "f"));
  find_section = λ c s. none;
}

abbrev opens : List ℕ → Option ℕ
opens path = some 7

abbrev opens_metadata : List ℕ → Option ℕ
opens_metadata sha = some 8

abbrev contents : ℕ → List ℕ
contents f = f ∷ 1 ∷ 2 ∷ []

abbrev idle : Serving
idle = record { slots = no_transfer ∷ no_transfer ∷ []; files = []; jobs = []; sent = [] }

abbrev locked : List FileTransfer
locked = record no_transfer { locked = true } ∷ no_transfer ∷ []

handlefilepartrequest-Served_example :
    ServedJob one_file tt opens opens_metadata contents
      (send_file_part_thread one_file tt opens opens_metadata contents (some true) [])
      idle
      (part_message (record { sha_str = codes "aa"; partnum = 0; payload = 7 ∷ 1 ∷ 2 ∷ [] }))
      (handlefilepartrequest one_file tt opens opens_metadata contents true idle 0 (codes "aa"))
unfolding get_and_lock_new_filetransfer
handlefilepartrequest-Served_example =
    handlefilepartrequest-Served one_file tt opens opens_metadata contents true [] idle (codes "aa")
      (codes "f") 7 0 locked refl refl refl (omega arith) (omega arith)

abbrev busy : Serving
busy = record idle { slots = record no_transfer { locked = true } ∷ [] }

abbrev calls : Calls
calls = record {
  getaddrinfo = λ a p. pos 0;
  socket = pos 3;
  connect = (negsuc 0, true);
  writability = record { nfds = pos 1; ready = true; sockopt = pos 0; err = pos 0 };
  bind = λ p. pos 0;
  listen = pos 0;
}

abbrev no_fds : Os
no_fds = record { opened = []; nonblocking = λ fd. false; addrinfos = 0 }

new_socket-SocketOutcome_example :
    SocketOutcome calls
      (some (codes "10.0.0.1"))
      (some (codes "5000"))
      no_fds
      (new_socket calls (some (codes "10.0.0.1")) (some (codes "5000")) no_fds)
new_socket-SocketOutcome_example =
    new_socket-SocketOutcome calls (some (codes "10.0.0.1")) (some (codes "5000")) no_fds
