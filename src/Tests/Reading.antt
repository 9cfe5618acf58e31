-- ===== src/Tests/Reading.antt =====
-- A round of read_thread at concrete inputs: a cipher that changes nothing, and two peers.
use tapi2p.Base.{
  ℕ, ◌≡◌, refl, arith, ℤ, pos, negsuc, FdSet, none, some, List, [], ◌∷◌, ◌++◌, true, replicate,
  eq_ℤ, codes,
}
use tapi2p.Event.Types.{Evt, file_transfer_status}
use tapi2p.Event.Callbacks.{initial}
use tapi2p.Event.Wire.{wire}
use tapi2p.Event.Wire.RoundTrip.{Fits}
use tapi2p.Crypto.{Openssl, Enc, sealed, aes_encrypt_with_pass}
use tapi2p.Crypto.Layout.{enc_header}
use tapi2p.Peer.Types.{Peer}
use tapi2p.Peers.Sockets.{initial_sets, recv_socket}
use tapi2p.Peers.Table.{Manager}
use tapi2p.PtrList.{list_new, Node}
use tapi2p.Core.Receive.{bytes, closed}
use tapi2p.Core.Routing.{core_listeners}
use tapi2p.Core.Reading.{Outcome, ok, Thread, Incoming, read_peer, read_round, ran, to_pipes}
use tapi2p.Core.Reading.Delivery.{read_peer-sealed}
use tapi2p.Core.Reading.Stages.{restamped}

abbrev plain_ssl : Openssl
plain_ssl = record {
  PublicKey = Unit {0};
  PrivateKey = Unit {0};
  public_encrypt = λ k x. some x;
  private_decrypt = λ k x. some x;
  pbkdf2 = λ pw salt. some pw;
  aes_256_cbc_encrypt = λ k iv x. x;
  aes_256_cbc_decrypt = λ k iv x. x;
}

abbrev peer_at : ℕ → ℤ → Peer
peer_at port isock = record {
  addr = codes "10.0.0.1" ++ replicate 8 0;
  port = port;
  connectable = true;
  key_ok = true;
  isock = isock;
  osock = negsuc 1;
  thread = 0;
  bio = port;
  file_transfers = [];
}

abbrev two_peers : Manager
two_peers = record {
  peers = peer_at 5000 (pos 3) ∷ peer_at 5001 (pos 4) ∷ [];
  size = 5;
  capacity = 5;
  iterator = 0;
}

abbrev hello : Evt
hello = record {
  type = 5;
  fd_from = 9;
  addr = replicate 16 7;
  port = 1;
  data_len = 2;
  data_ptr = 0;
  body = codes "hi";
}

abbrev salt : List ℕ
salt = replicate 8 1

hello-Fits : Fits hello
hello-Fits = record {
  type_fits = omega arith;
  fd_fits = omega arith;
  addr_full = refl;
  port_fits = omega arith;
  len_fits = omega arith;
  ptr_fits = omega arith;
}

abbrev sealed_hello : Enc
sealed_hello = sealed plain_ssl salt (5 ∷ []) (wire hello)

abbrev junk_node : Node
junk_node = record { item = 0; next = none }

abbrev from_first : ℕ → Incoming
from_first i = record {
  header = bytes (enc_header 0 0 0 sealed_hello);
  payload = bytes sealed_hello.payload ∷ [];
  buf_grows = true;
  buf_junk = [];
  indeterminate = [];
  dec_grows = true;
  dec_address = 100;
  node_junk = junk_node;
}

abbrev hung_up : ℕ → Incoming
hung_up i = record {
  header = closed;
  payload = [];
  buf_grows = true;
  buf_junk = [];
  indeterminate = [];
  dec_grows = true;
  dec_address = 100;
  node_junk = junk_node;
}

abbrev only : ℤ → FdSet
only fd x = eq_ℤ x fd

abbrev thread : Thread
thread = record {
  encdata = replicate 32 0;
  databuf = [];
  decdata = [];
  declen = 0;
  sets = initial_sets;
  delptrs = list_new;
  actions = [];
}

read_peer-sealed_example :
    (aes_encrypt_with_pass plain_ssl salt (wire hello) (5 ∷ []) tt ≡ some sealed_hello)
    × ((t' : Thread) × (stale : List ℕ) × (read_peer plain_ssl tt
            (core_listeners (λ h. 0) 0 0 initial)
            (only (pos 3))
            (from_first 0)
            0
            (peer_at 5000 (pos 3))
            thread
          ≡ ok t')
        × (t'.actions
            ≡ ran
                (restamped 100 (peer_at 5000 (pos 3)) hello stale)
                (record { cb = 1; cb_data = 0 } ∷ [])
              ∷ to_pipes (restamped 100 (peer_at 5000 (pos 3)) hello stale)
              ∷ [])
        × (t'.sets ≡ initial_sets)
        × (t'.delptrs ≡ list_new))
unfolding recv_socket
read_peer-sealed_example =
    read_peer-sealed plain_ssl tt salt (5 ∷ []) (5 ∷ []) (5 ∷ []) hello refl refl refl refl
      hello-Fits refl (omega arith) (omega arith) (omega arith) (omega arith) (from_first 0)
      (peer_at 5000 (pos 3)) 0 0 0 tt (λ h. 0) 0 0 file_transfer_status (only (pos 3)) 0 thread
      (sealed_hello.payload ∷ []) refl refl refl refl refl (omega arith, tt) refl refl refl refl

-- What a round that ends gives.
abbrev result : Outcome (Manager × Thread) → Manager × Thread
result (ok r) = r
result _ = (two_peers, thread)

after_hello : Manager × Thread
after_hello =
    result (read_round plain_ssl tt initial 3 (pos 1) (only (pos 3)) from_first two_peers thread)
