-- ===== src/Handlers/FilePart.antt =====
-- handlefilepart of core/handlers.c: a part of a file has come from a peer. `none` is a fault, or a
-- wait for the slot's mutex that another thread holds.
pub mod Laws
use tapi2p.Base.{
  ℕ, zero, suc, Option, none, some, List, [], ◌∷◌, Bool, true, false, not, ◌&&◌, ltb, ◌==◌,
  if◌then◌else◌, length, get_elem?,
}
use tapi2p.FileTransfers.{Transfers, filetransfer_part_ready}
use tapi2p.Peer.Types.{FileTransfer}
use tapi2p.Peer.Transfers.{
  Locking, no_slot, slot, waits, get_and_lock_existing_filetransfer_for_sha, unlock_with,
  clear_file_transfer,
}
use tapi2p.Files.{file_part_bytes, part_offset}

-- fp_t: `sha_str` is the string in its array, `payload` the bytes behind the struct.
pub record FilePart : Type 0 where
  pub sha_str : List ℕ
  pub partnum : ℕ
  pub payload : List ℕ

-- A write to an open file.
pub record Write : Type 0 where
  pub file : ℕ
  pub offset : ℕ
  pub bytes : List ℕ

-- The file transfer manager, the slots of the peer, and what has been written, the last write first.
pub record State : Type 0 where
  pub transfers : Transfers
  pub slots : List FileTransfer
  pub writes : List Write

-- The change that the end of a transfer makes to its slot: the first part, shorter than the others.
abbrev pub after_part : FilePart → FileTransfer → FileTransfer
after_part fp t =
    if fp.partnum == 0 && not (length fp.payload == file_part_bytes)
    then clear_file_transfer t
    else t

abbrev pub written : ℕ → FilePart → State → ℕ → List FileTransfer → Option Transfers → Option State
written file fp s i locked none = none
written file fp s i locked (some ts) = some (record {
  transfers = ts;
  slots = unlock_with (after_part fp) i locked;
  writes = record { file = file; offset = part_offset fp.partnum; bytes = fp.payload } ∷ s.writes;
})

abbrev pub not_written : State → ℕ → List FileTransfer → State
not_written s i locked = record s { slots = unlock_with (λ t. t) i locked }

-- With the slot locked, by whether fwrite succeeds; it returns 0 for no bytes. fseek on a slot
-- without a file is a fault.
abbrev pub write_part : Bool → FilePart → State → ℕ → List FileTransfer → Option ℕ → Option State
write_part succeeds fp s i locked none = none
write_part succeeds fp s i locked (some file) =
    if succeeds && ltb 0 (length fp.payload)
    then written file fp s i locked (filetransfer_part_ready s.transfers fp.sha_str fp.partnum)
    else some (not_written s i locked)

abbrev pub file_at : ℕ → List FileTransfer → Option ℕ
file_at i ts = elim (get_elem? ts i) [ none ↦ none | some t ↦ t.file ]

abbrev pub with_slot : Bool → FilePart → State → Locking → Option State
with_slot succeeds fp s no_slot = some s
with_slot succeeds fp s (slot i locked) = write_part succeeds fp s i locked (file_at i locked)
with_slot succeeds fp s waits = none

-- handlefilepart, for an event of a peer that is in the table.
unfoldable pub handlefilepart : Bool → State → FilePart → Option State
unfolding get_and_lock_existing_filetransfer_for_sha filetransfer_part_ready unlock_with
handlefilepart succeeds s fp =
    with_slot succeeds fp s (get_and_lock_existing_filetransfer_for_sha s.slots fp.sha_str)
