-- ===== src/Handlers/Receiving.antt =====
-- handlemetadata of core/handlers.c: a peer has answered a request for a file with its metadata.
-- `none` is a fault: a read behind the event's data, a failed assert of the sending, or a peer whose key does not
-- encrypt.
pub mod Laws
use tapi2p.Base.{
  ℕ, ◌+◌, ℤ, pos, eq_ℤ, Option, none, some, List, [], ◌∷◌, ◌++◌, Bool, ltb, if◌then◌else◌, length,
  codes,
}
use tapi2p.Event.Types.{Alloc}
use tapi2p.FileTransfers.{Transfers, filetransfer_add}
use tapi2p.Files.{sha_digest_length, sha_to_str, check_or_create_metadata}
use tapi2p.Peer.Types.{Peer, FileTransfer, Metadata}
use tapi2p.Peer.Transfers.{create_file_transfer}
use tapi2p.Core.Sending.{Selected, Sent, request_file_part_from_peer}
use tapi2p.Handlers.World.{Configs}

-- The event's data: the struct, the name up to its NUL, and the bytes behind the NUL.
pub record Arrived : Type 0 where
  pub metadata : Metadata
  pub filename : List ℕ
  pub sha_data : List ℕ

-- What stat and fopen answer for the metadata file, and fopen for the path of the file.
pub record Disk : Type 0 where
  pub found : Bool
  pub opens : Bool
  pub opened : List ℕ → Option ℕ

abbrev pub item_value : Option (Option (List ℕ)) → Option (List ℕ)
item_value none = none
item_value (some v) = v

module _ (c : Configs) (seal : Peer → List ℕ → Option (List ℕ)) where
  -- The configuration, what has been saved, the last one first, the file transfer manager, the
  -- event's peer, the metadata files that have been written, with their names, and what has been
  -- sent, the first first.
  pub record Receiving : Type 0 where
    pub config : c.Config
    pub saved : List c.Config
    pub transfers : Transfers
    pub peer : Peer
    pub metadata_files : List (List ℕ × List ℕ)
    pub sent : List Sent

  abbrev pub with_request : Receiving → Option (List Sent) → Option Receiving
  with_request s none = none
  with_request s (some xs) = some (record s { sent = s.sent ++ xs })

  abbrev pub with_slots : List FileTransfer → Receiving → Receiving
  with_slots slots s = record s { peer = record (s.peer) { file_transfers = slots } }

  -- After create_file_transfer.
  abbrev pub after_create :
      Selected → Alloc → List ℕ → List ℕ → Receiving → ℤ × List FileTransfer → Option Receiving
  after_create sel m behind sha s (r, slots) =
      if eq_ℤ r (pos 0)
      then with_request (with_slots slots s) (
          request_file_part_from_peer seal sel m behind 0 sha
            (record (s.peer) { file_transfers = slots }))
      else some (with_slots slots s)

  abbrev pub with_item : List ℕ → List ℕ → c.Config → c.Config
  with_item filename sha conf =
      c.add (c.add conf (codes "Metadata") filename (some sha)) sha (codes "Filename")
        (some filename)

  abbrev pub with_metadata_file :
      List ℕ → Option (List ℕ) → List (List ℕ × List ℕ) → List (List ℕ × List ℕ)
  with_metadata_file sha none files = files
  with_metadata_file sha (some contents) files = (sha, contents) ∷ files

  -- filetransfer_add, check_or_create_metadata and the configuration.
  abbrev pub noted : Disk → Receiving → Arrived → List ℕ → Receiving
  noted d s a sha =
      let conf = with_item a.filename sha s.config in
      record s {
        config = conf;
        saved = conf ∷ s.saved;
        transfers = (filetransfer_add s.transfers sha a.metadata.part_count).1;
        metadata_files =
            with_metadata_file sha
              (check_or_create_metadata d.found d.opens a.sha_data (length a.sha_data)
                (a.filename ++ (0 ∷ [])) (length a.filename + 1))
              s.metadata_files;
      }

  abbrev pub create : Disk → Arrived → List ℕ → Receiving → ℤ × List FileTransfer
  create d a sha s =
      create_file_transfer (item_value (c.find_item s.config (codes "Filename") sha)) d.opened
        s.peer.file_transfers sha a.metadata

  -- handlemetadata of an event whose peer is in the table: sha_to_str reads a whole hash.
  unfoldable pub handlemetadata :
      Disk → Selected → Alloc → List ℕ → Receiving → Arrived → Option Receiving
  unfolding filetransfer_add check_or_create_metadata sha_to_str create_file_transfer
      request_file_part_from_peer
  handlemetadata d sel m behind s a =
      let sha = sha_to_str a.sha_data in
      let s1 = noted d s a sha in
      if ltb (length a.sha_data) sha_digest_length
      then none
      else after_create sel m behind sha s1 (create d a sha s1)
