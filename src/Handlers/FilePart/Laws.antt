-- ===== src/Handlers/FilePart/Laws.antt =====
-- What handlefilepart leaves behind.
use tapi2p.Base.{
  ℕ, ◌<◌, ◌≡◌, ◌⊎◌, Option, none, some, List, ◌∷◌, Bool, true, false, ◌&&◌, ltb, length,
}
use tapi2p.FileTransfers.{Transfers, filetransfer_part_ready}
use tapi2p.Peer.Types.{FileTransfer}
use tapi2p.Peer.Transfers.{
  Locking, no_slot, slot, waits, get_and_lock_existing_filetransfer_for_sha, unlock_with,
}
use tapi2p.Peer.Transfers.Laws.{locks}
use tapi2p.Files.{part_offset}
use tapi2p.Handlers.FilePart.{FilePart, State, file_at}

-- A slot that was got leaves all mutexes as they were when it is unlocked.
abbrev Regains : List FileTransfer → Locking → Type 0
Regains ts no_slot = Unit {0}
Regains ts waits = Unit {0}
Regains ts (slot i locked) =
    (f : FileTransfer → FileTransfer) → locks (unlock_with f i locked) ≡ locks ts

-- Where the part goes: the slot that has its hash is got, and has an open file.
pub record Place (s : State) (fp : FilePart) (file : ℕ) : Type 0 where
  pub index : ℕ
  pub locked : List FileTransfer
  pub found : get_and_lock_existing_filetransfer_for_sha s.slots fp.sha_str ≡ slot index locked
  pub open_file : file_at index locked ≡ some file

-- What was done with the part: nothing, as no slot has its hash, it has no data or fwrite did not
-- succeed; or it was written to the file of the slot with its hash and noted as ready.
abbrev pub PartOutcome : Bool → FilePart → State → State → Type 0
PartOutcome succeeds fp s s' =
    ((s'.transfers ≡ s.transfers)
      × (s'.writes ≡ s.writes)
      × ((get_and_lock_existing_filetransfer_for_sha s.slots fp.sha_str ≡ no_slot)
          ⊎ ((succeeds && ltb 0 (length fp.payload)) ≡ false)))
    ⊎ ((file : ℕ) × Place s fp file
        × (succeeds ≡ true)
        × (0 < length fp.payload)
        × (filetransfer_part_ready s.transfers fp.sha_str fp.partnum ≡ some s'.transfers)
        × (s'.writes
            ≡ record { file = file; offset = part_offset fp.partnum; bytes = fp.payload }
              ∷ s.writes))

abbrev Returned : Bool → FilePart → State → Option State → Type 0
Returned succeeds fp s none = Unit {0}
Returned succeeds fp s (some s') = (locks s'.slots ≡ locks s.slots) × PartOutcome succeeds fp s s'
