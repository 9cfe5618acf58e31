-- ===== src/Tests/Transfers.antt =====
-- The table of file transfers, a peer's transfer slots and the pointer list at concrete inputs.
use tapi2p.Base.{
  ℕ, subst, strncmp_eq, ◌≡◌, refl, inl, inr, Option, none, some, List, [], ◌∷◌, true, false, arith,
  codes, ◌%◌, ◌^◌, ◌+◌,
}
use tapi2p.FileTransfers.{
  sha_digest_str_max_length, FtHelper, Transfers, unused, started, filetransfer_part_ready,
  filetransfer_get_status, marked,
}
use tapi2p.FileTransfers.Laws.{IsPacked}
use tapi2p.FileTransfers.Laws.Lookup.{Unknown, Unknown-hash_faults}
use tapi2p.FileTransfers.Laws.Ready.{filetransfer_part_ready-statuses}
use tapi2p.Handlers.FilePart.{FilePart, State}
use tapi2p.Peer.Types.{FileTransfer, no_metadata, no_transfer}
use tapi2p.Peer.Transfers.{create_file_transfer}
use tapi2p.Peer.Transfers.Laws.{on_first_free, outcome, locks, create_file_transfer-on_first_free}

abbrev first_sha : List ℕ
first_sha = codes "aa"

abbrev second_sha : List ℕ
second_sha = codes "bb"

-- One transfer of three parts, and a free slot.
abbrev begun : FtHelper
begun = started unused first_sha 3

abbrev table : Transfers
table = begun ∷ unused ∷ []

table-IsPacked : IsPacked table
table-IsPacked = inl ((first_sha, refl), inr (refl, tt))

filetransfer_part_ready-statuses_example :
    (ts' : Transfers) × (filetransfer_part_ready table first_sha 1 ≡ some ts')
    × (filetransfer_get_status ts' first_sha ≡ some (marked begun 1).status)
    × ((marked begun 1).status.parts_ready ≡ (0 + 1) % 2 ^ 32)
    × (filetransfer_get_status ts' second_sha ≡ filetransfer_get_status table second_sha)
filetransfer_part_ready-statuses_example =
    filetransfer_part_ready-statuses table first_sha second_sha begun 1
      (first_sha, refl, inl (refl, refl)) (omega arith) refl

second-Unknown : Unknown second_sha table
second-Unknown = (
  λ s e.
      subst
        (λ o. elim o [
          | none ↦ Unit {0}
          | some x ↦ strncmp_eq sha_digest_str_max_length x second_sha ≡ false
        ])
        e refl,
  (λ s e. cc, tt),
)

Unknown-hash_faults_example :
    (filetransfer_part_ready table second_sha 0 ≡ none)
    × (filetransfer_get_status table second_sha ≡ none)
Unknown-hash_faults_example =
    Unknown-hash_faults table second_sha 0 table-IsPacked (inr (inl refl)) second-Unknown

abbrev slots : List FileTransfer
slots = record no_transfer { locked = true } ∷ no_transfer ∷ []

abbrev opened : List ℕ → Option ℕ
opened path = some 3

create_file_transfer-on_first_free_example :
    ((create_file_transfer (some (codes "f")) opened slots first_sha no_metadata).1
      ≡ on_first_free (outcome (some (codes "f")) opened first_sha no_metadata) slots)
    × (locks (create_file_transfer (some (codes "f")) opened slots first_sha no_metadata).1
        ≡ true ∷ false ∷ [])
create_file_transfer-on_first_free_example =
    create_file_transfer-on_first_free (some (codes "f")) opened slots first_sha no_metadata

-- A slot with the first hash and an open file.
abbrev receiving : List FileTransfer
receiving = record no_transfer { sha_str = first_sha; file = some 3 } ∷ no_transfer ∷ []

abbrev part : FilePart
part = record { sha_str = first_sha; partnum = 0; payload = 1 ∷ 2 ∷ [] }

abbrev before : State
before = record { transfers = table; slots = receiving; writes = [] }

abbrev after : State
after = record {
  transfers = marked begun 0 ∷ unused ∷ [];
  slots = no_transfer ∷ no_transfer ∷ [];
  writes = record { file = 3; offset = 0; bytes = 1 ∷ 2 ∷ [] } ∷ [];
}
