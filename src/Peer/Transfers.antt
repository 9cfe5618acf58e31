-- ===== src/Peer/Transfers.antt =====
-- The file transfers of a peer (core/peer.c): MAX_TRANSFERS slots, each with a mutex. Waiting for a
-- held mutex is `none`.
pub mod Laws
use tapi2p.Base.{
  ℕ, zero, suc, ◌+◌, ℤ, pos, negsuc, Option, none, some, List, [], ◌∷◌, Bool, true, false,
  if◌then◌else◌, get_elem?, set, take, strncmp_eq,
}
use tapi2p.FileTransfers.{sha_digest_str_max_length}
use tapi2p.Peer.Types.{Metadata, FileTransfer, Peer, no_metadata}

-- clear_file_transfer, for a transfer with an open file; `filename` is left.
abbrev pub clear_file_transfer : FileTransfer → FileTransfer
clear_file_transfer t = record t {
  sha_str = [];
  file = none;
  metadata = record (t.metadata) { part_count = 0; file_size = 0; data_ptr = 0 };
}

-- The slots of peer_free: those with an open file are cleared.
unfoldable pub free_transfers : List FileTransfer → List FileTransfer
free_transfers [] = []
free_transfers (t ∷ ts) =
    elim t.file [ none ↦ t | some f ↦ clear_file_transfer t ] ∷ free_transfers ts

-- peer_free: the thread has been joined, and the key is gone (its bytes are zero).
unfoldable pub peer_free : Peer → Peer
unfolding free_transfers
peer_free p = record p { thread = 0; bio = 0; file_transfers = free_transfers p.file_transfers }

-- get_file_transfer_internal: the first slot with the hash.
unfoldable pub get_file_transfer_internal : List FileTransfer → List ℕ → Option ℕ
get_file_transfer_internal [] sha = none
get_file_transfer_internal (t ∷ ts) sha =
    let rest = get_file_transfer_internal ts sha in
    if strncmp_eq sha_digest_str_max_length t.sha_str sha
    then some 0
    else elim rest [ none ↦ none | some i ↦ some (suc i) ]

abbrev pub prepend : FileTransfer → Option (ℕ × List FileTransfer) → Option (ℕ × List FileTransfer)
prepend t none = none
prepend t (some (i, ts)) = some (suc i, t ∷ ts)

-- get_and_lock_new_filetransfer: the first slot whose mutex pthread_mutex_trylock gets.
unfoldable pub get_and_lock_new_filetransfer : List FileTransfer → Option (ℕ × List FileTransfer)
get_and_lock_new_filetransfer [] = none
get_and_lock_new_filetransfer (t ∷ ts) =
    let rest = prepend t (get_and_lock_new_filetransfer ts) in
    if t.locked then rest else some (0, record t { locked = true } ∷ ts)

-- What get_and_lock_existing_filetransfer_for_sha returns: NULL, a locked slot, or no return.
pub data Locking : Type 0 where
  no_slot : Locking
  slot : ℕ → List FileTransfer → Locking
  waits : Locking

abbrev pub lock_slot : List FileTransfer → ℕ → Locking
lock_slot ts i = elim (get_elem? ts i) [
  | none ↦ no_slot
  | some t ↦ if t.locked then waits else slot i (set ts i (record t { locked = true }))
]

unfoldable pub get_and_lock_existing_filetransfer_for_sha : List FileTransfer → List ℕ → Locking
unfolding get_file_transfer_internal
get_and_lock_existing_filetransfer_for_sha ts sha = elim (get_file_transfer_internal ts sha) [
  | none ↦ no_slot
  | some i ↦ lock_slot ts i
]

-- Unlock slot `i`, after the change `f`.
unfoldable pub unlock_with :
    (FileTransfer → FileTransfer) → ℕ → List FileTransfer → List FileTransfer
unlock_with f i [] = []
unlock_with f zero (t ∷ ts) = record (f t) { locked = false } ∷ ts
unlock_with f (suc i) (t ∷ ts) = t ∷ unlock_with f i ts

abbrev pub begun : List ℕ → Metadata → Option ℕ → FileTransfer → FileTransfer
begun sha md file t = record t {
  sha_str = take sha_digest_str_max_length sha;
  metadata = md;
  file = file;
}

-- The end of create_file_transfer, by what fopen "r+" returned: the slot has been written already.
abbrev pub after_open : List ℕ → Metadata → ℕ → List FileTransfer → Option ℕ → ℤ × List FileTransfer
after_open sha md i ts none = (negsuc 0, unlock_with (begun sha md none) i ts)
after_open sha md i ts (some f) = (pos 0, unlock_with (begun sha md (some f)) i ts)

-- What follows get_and_lock_new_filetransfer.
abbrev pub after_lock :
    Option (List ℕ)
    → (List ℕ → Option ℕ)
    → List FileTransfer
    → List ℕ
    → Metadata
    → Option (ℕ × List FileTransfer)
    → ℤ × List FileTransfer
after_lock name opened ts sha md none = (negsuc 0, ts)
after_lock none opened ts sha md (some (i, ts')) = (negsuc 0, unlock_with (λ t. t) i ts')
after_lock (some path) opened ts sha md (some (i, ts')) = after_open sha md i ts' (opened path)

-- create_file_transfer. `name` is the value of the item "Filename" of section `sha` in the
-- configuration, if there is one; create_file has been run on it and has returned, so that the file can be
-- read or has been made; `opened` is what fopen "r+" then returns.
unfoldable pub create_file_transfer :
    Option (List ℕ)
    → (List ℕ → Option ℕ)
    → List FileTransfer
    → List ℕ
    → Metadata
    → ℤ × List FileTransfer
unfolding get_and_lock_new_filetransfer unlock_with
create_file_transfer name opened ts sha md =
    after_lock name opened ts sha md (get_and_lock_new_filetransfer ts)
