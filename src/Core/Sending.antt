-- ===== src/Core/Sending.antt =====
-- send_event_to_peer_internal and its callers in core/core.c, and the requests of core/file.c. A
-- round of select, the encryption and what the sockets do are arguments.
pub mod Laws
use tapi2p.Base.{
  ℕ, ◌+◌, ◌-◌, min, replicate, FdSet, ℤ, pos, negsuc, ltb_ℤ, leb_ℤ, Option, none, some, List, [],
  ◌∷◌, ◌++◌, Bool, true, false, ◌==◌, ltb, if◌then◌else◌, take, length, to_le,
}
use tapi2p.Event.Types.{Evt, EventType, Alloc, request_file_part, request_file_part_list}
use tapi2p.Event.Wire.{wire, event_new}
use tapi2p.Peer.Types.{Peer}
use tapi2p.FileTransfers.{sha_digest_str_max_length}
use tapi2p.Peers.Sockets.{send_socket}
use tapi2p.Peers.Table.{Manager}
use tapi2p.Peers.ForEach.{for_each_peer, gather}

-- What select leaves: its count, and the copy of the write set.
pub record Selected : Type 0 where
  pub nfds : ℤ
  pub ready : FdSet

-- The bytes that send is given, and the descriptor.
pub record Sent : Type 0 where
  pub fd : ℤ
  pub bytes : List ℕ

-- The struct fprequest_t: the part, the hash in its array, and the bytes that malloc left behind it.
abbrev pub fprequest_bytes : ℕ → List ℕ → List ℕ → List ℕ
fprequest_bytes part sha behind =
    to_le 4 part
    ++ (take sha_digest_str_max_length (sha ++ replicate sha_digest_str_max_length 0)
        ++ take 3 behind)

-- sizeof(fprequest_t)
abbrev pub fprequest_size : ℕ
fprequest_size = 48

abbrev pub is_excluded : Option ℕ → ℕ → Bool
is_excluded none i = false
is_excluded (some k) i = i == k

-- The hash with its NUL, if it has at most the 40 characters of a hash.
unfoldable pub listing_request : Alloc → List ℕ → Evt
unfolding event_new
listing_request m sha =
    event_new m request_file_part_list (some (sha ++ (0 ∷ [])))
      (min (length sha) (sha_digest_str_max_length - 1) + 1)

-- What send is given, once the event is encrypted.
abbrev pub sent_on : ℤ → Option (List ℕ) → Option (List Sent)
sent_on fd none = none
sent_on fd (some b) = some (record { fd = fd; bytes = b } ∷ [])

-- `seal` is aes_encrypt_random_pass under the peer's key, which Crypto models; `none` where it goes on
-- with a password that has not been encrypted, as for a peer whose key is not loaded.
module _ (seal : Peer → List ℕ → Option (List ℕ)) where
  -- send_event_to_peer_internal; `none` is the assert on the descriptor, or a `none` of `seal`. What send returns is only
  -- printed, and the two modes of the socket do not change what it is given.
  unfoldable pub send_event_to_peer_internal : Selected → Peer → Evt → Option (List Sent)
  unfolding send_socket
  send_event_to_peer_internal sel p e =
      let fd = send_socket p.isock p.osock in
      if ltb_ℤ (pos 0) sel.nfds
      then (if leb_ℤ (pos 0) fd
          then (if sel.ready fd then sent_on fd (seal p (wire e)) else some [])
          else none)
      else some []

  unfoldable pub send_event_to_peer_simple :
      Selected → Alloc → EventType → Option (List ℕ) → ℕ → Peer → Option (List Sent)
  unfolding event_new send_event_to_peer_internal
  send_event_to_peer_simple sel m t bytes n p =
      send_event_to_peer_internal sel p (event_new m t bytes n)

  -- `sel` has a round of select for each peer.
  unfoldable pub send_to_all : (ℕ → Selected) → ℕ → Manager → Evt → Option (List Sent × Manager)
  unfolding for_each_peer send_event_to_peer_internal
  send_to_all sel fuel m e = for_each_peer (λ i p. send_event_to_peer_internal (sel i) p e) fuel m

  -- handlemessage of core/handlers.c
  unfoldable pub handlemessage : (ℕ → Selected) → ℕ → Manager → Evt → Option (List Sent × Manager)
  unfolding send_to_all
  handlemessage sel fuel m e = send_to_all sel fuel m e

  -- request_file_part_from_peer; `m` and `behind` are what the two mallocs found.
  unfoldable pub request_file_part_from_peer :
      Selected → Alloc → List ℕ → ℕ → List ℕ → Peer → Option (List Sent)
  unfolding event_new send_event_to_peer_internal
  request_file_part_from_peer sel m behind part sha p =
      send_event_to_peer_internal sel p
        (event_new m request_file_part (some (fprequest_bytes part sha behind)) fprequest_size)

  abbrev pub then_send_to_all :
      (ℕ → Selected) → ℕ → Evt → Option (List Sent × Manager) → Option (List Sent × Manager)
  then_send_to_all sel fuel e none = none
  then_send_to_all sel fuel e (some (xs, m)) = gather (some xs) (send_to_all sel fuel m e)

  -- request_file_part_listing_from_peers: the loop over the others, and then send_to_all. Each has
  -- its rounds of select.
  unfoldable pub request_file_part_listing_from_peers :
      (ℕ → Selected)
      → (ℕ → Selected)
      → ℕ
      → Alloc
      → Manager
      → List ℕ
      → Option ℕ
      → Option (List Sent × Manager)
  unfolding for_each_peer send_event_to_peer_internal send_to_all listing_request
  request_file_part_listing_from_peers sel sel' fuel m table sha exclude =
      then_send_to_all sel' fuel (listing_request m sha) (
        for_each_peer
          (λ i p.
            if is_excluded exclude i
            then some []
            else send_event_to_peer_internal (sel i) p (listing_request m sha))
          fuel table)
