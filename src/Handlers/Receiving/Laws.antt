-- ===== src/Handlers/Receiving/Laws.antt =====
-- What the metadata of a file leads to.
use tapi2p.Base.{
  ℕ, ◌≤◌, ◌≡◌, refl, ap, ap₂, ◌∙◌, not_less, ltb_ℤ, leb_ℤ, pos, Option, some, List, [], ◌∷◌, ◌++◌,
  true, length, codes,
}
use tapi2p.Event.Types.{Alloc, request_file_part}
use tapi2p.Event.Wire.{event_new, wire}
use tapi2p.FileTransfers.{FtStatus, filetransfer_get_status}
use tapi2p.FileTransfers.Laws.{IsPacked}
use tapi2p.FileTransfers.Laws.Lookup.{HasFree, Unknown, filetransfer_get_status-filetransfer_add}
use tapi2p.Files.{sha_digest_length, sha_to_str}
use tapi2p.Peer.Types.{Peer, FileTransfer}
use tapi2p.Peer.Transfers.{
  get_and_lock_new_filetransfer, unlock_with, begun, after_lock, after_open, create_file_transfer,
}
use tapi2p.Peers.Sockets.{send_socket}
use tapi2p.Core.Sending.{
  Selected, Sent, fprequest_bytes, fprequest_size, send_event_to_peer_internal,
  request_file_part_from_peer,
}
use tapi2p.Handlers.World.{Configs}
use tapi2p.Handlers.Receiving.{
  Arrived, Disk, item_value, Receiving, with_request, with_slots, after_create, with_item, noted,
  create, handlemetadata,
}

module _ (c : Configs) (seal : Peer → List ℕ → Option (List ℕ)) where
  -- The request for part 0 of a hash, before it is encrypted.
  abbrev pub first_request : Alloc → List ℕ → List ℕ → List ℕ
  first_request m behind sha =
      wire (event_new m request_file_part (some (fprequest_bytes 0 sha behind)) fprequest_size)

  -- The message on the socket that events to a peer are sent on.
  abbrev pub on_socket : Peer → List ℕ → Sent
  on_socket p b = record { fd = send_socket p.isock p.osock; bytes = b }

  -- The peer with the new file transfer in its slot `i`.
  abbrev pub with_transfer : Receiving c seal → Arrived → ℕ → List FileTransfer → ℕ → Peer
  with_transfer s a i locked f = record (s.peer) {
    file_transfers = unlock_with (begun (sha_to_str a.sha_data) a.metadata (some f)) i locked;
  }

  -- The transfer has begun: the status of its hash, its slot, and the request of its first part.
  pub record Begun (d : Disk) (m : Alloc) (behind : List ℕ) (s : Receiving c seal) (a : Arrived)
      (i : ℕ) (locked : List FileTransfer) (f : ℕ) (t : Receiving c seal) : Type 0 where
    pub status :
        (st : FtStatus) × (filetransfer_get_status t.transfers (sha_to_str a.sha_data) ≡ some st)
        × (st.parts_ready ≡ 0)
        × (st.part_count ≡ a.metadata.part_count)
    pub slots : t.peer ≡ with_transfer s a i locked f
    pub saved : t.saved ≡ with_item c seal a.filename (sha_to_str a.sha_data) s.config ∷ s.saved
    pub requested :
        (b : List ℕ) × (seal t.peer (first_request m behind (sha_to_str a.sha_data)) ≡ some b)
        × (t.sent ≡ s.sent ++ (on_socket t.peer b ∷ []))

  request-first_request :
      (sel : Selected) (m : Alloc) (behind sha b : List ℕ) (p : Peer)
      → ltb_ℤ (pos 0) sel.nfds ≡ true
      → leb_ℤ (pos 0) (send_socket p.isock p.osock) ≡ true
      → sel.ready (send_socket p.isock p.osock) ≡ true
      → seal p (first_request m behind sha) ≡ some b
      → request_file_part_from_peer seal sel m behind 0 sha p ≡ some (on_socket p b ∷ [])
  unfolding request_file_part_from_peer send_event_to_peer_internal
  request-first_request sel m behind sha b p n l r k = rw (n, l, r) (rw k refl)

  -- Metadata with a whole hash, for a hash that is new to the file transfer manager, which has a
  -- free slot behind those in use, from a peer with a free slot, when the configuration keeps the
  -- item that is added to it, the file can be opened, select has the peer's socket ready and the
  -- request can be encrypted under the peer's key:
  -- handlemetadata returns, the hash has its status with no part ready, a slot of the peer has the
  -- file, the configuration with the file's items is saved once, and the first part has been
  -- requested from the peer, once.
  pub handlemetadata-Begun :
      (d : Disk) (sel : Selected) (m : Alloc) (behind : List ℕ) (s : Receiving c seal) (a : Arrived)
      (i f : ℕ) (b : List ℕ) (locked : List FileTransfer)
      → sha_digest_length ≤ length a.sha_data
      → IsPacked s.transfers
      → HasFree s.transfers
      → Unknown (sha_to_str a.sha_data) s.transfers
      → c.find_item
          (with_item c seal a.filename (sha_to_str a.sha_data) s.config)
          (codes "Filename")
          (sha_to_str a.sha_data)
        ≡ some (some a.filename)
      → d.opened a.filename ≡ some f
      → get_and_lock_new_filetransfer s.peer.file_transfers ≡ some (i, locked)
      → ltb_ℤ (pos 0) sel.nfds ≡ true
      → leb_ℤ (pos 0) (send_socket s.peer.isock s.peer.osock) ≡ true
      → sel.ready (send_socket s.peer.isock s.peer.osock) ≡ true
      → seal (with_transfer s a i locked f) (first_request m behind (sha_to_str a.sha_data))
        ≡ some b
      → (t : Receiving c seal) × (handlemetadata c seal d sel m behind s a ≡ some t)
        × Begun d m behind s a i locked f t
  unfolding handlemetadata create_file_transfer
  handlemetadata-Begun d sel m behind s a i f b locked whole packed room new item open_it slot n l r
        k =
      (
        record (with_slots c seal slots s1) {
          sent = s.sent ++ (on_socket (record (s.peer) { file_transfers = slots }) b ∷ []);
        },
        rw (not_less (length a.sha_data) sha_digest_length whole) (
            ap (after_create c seal sel m behind sha s1) created
            ∙ ap (with_request c seal (with_slots c seal slots s1)) (
                request-first_request sel m behind sha b
                  (record (s.peer) { file_transfers = slots }) n l r k)),
        record {
          status =
              filetransfer_get_status-filetransfer_add s.transfers sha a.metadata.part_count packed
                room new;
          slots = refl;
          saved = refl;
          requested = (b, k, refl);
        },
      )
    where
      sha : List ℕ
      sha = sha_to_str a.sha_data

      s1 : Receiving c seal
      s1 = noted c seal d s a sha

      slots : List FileTransfer
      slots = unlock_with (begun sha a.metadata (some f)) i locked

      created : create c seal d a sha s1 ≡ (pos 0, slots)
      created =
          ap₂ (λ x y. after_lock x d.opened s.peer.file_transfers sha a.metadata y)
            (ap item_value item) slot
          ∙ ap (λ (o : Option ℕ). after_open sha a.metadata i locked o) open_it
