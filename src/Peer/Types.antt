-- ===== src/Peer/Types.antt =====
-- struct peer, file_t and metadata_t (core/peer.h, core/file.h), and peer_init.
use tapi2p.Base.{
  ℕ, ℤ, negsuc, Option, none, List, [], Bool, true, false, ℕ_discrete, ℤ-discrete, replicate,
}
use tapi2p.FileTransfers.{max_transfers}

-- metadata_t; `filename` and `data_ptr` are addresses.
pub record Metadata : Type 0 where
  pub filename : ℕ
  pub part_count : ℕ
  pub file_size : ℕ
  pub data_ptr : ℕ

-- file_t; `file` is the open FILE, `locked` the state of `file_lock`, and `sha_str` the string that
-- the char array holds.
pub record FileTransfer : Type 0 where
  pub sha_str : List ℕ
  pub file : Option ℕ
  pub locked : Bool
  pub metadata : Metadata

-- `bio` is the address that key_init allocates, new for every peer: it stands for `key`.
pub record Peer : Type 0 where
  pub addr : List ℕ
  pub port : ℕ
  pub connectable : Bool
  pub key_ok : Bool
  pub isock : ℤ
  pub osock : ℤ
  pub thread : ℕ
  pub bio : ℕ
  pub file_transfers : List FileTransfer

abbrev pub no_metadata : Metadata
no_metadata = record { filename = 0; part_count = 0; file_size = 0; data_ptr = 0 }

abbrev pub no_transfer : FileTransfer
no_transfer = record { sha_str = []; file = none; locked = false; metadata = no_metadata }

-- `was` is what the slot held: peer_init leaves the address as it finds it. pubkey_init allocates
-- `bio`.
unfoldable pub peer_init : ℕ → Peer → Peer
peer_init bio was = record {
  addr = was.addr;
  port = 0;
  connectable = true;
  key_ok = false;
  isock = negsuc 0;
  osock = negsuc 0;
  thread = 0;
  bio = bio;
  file_transfers = replicate max_transfers no_transfer;
}

pub Metadata-discrete : Discrete Metadata
Metadata-discrete = hlevel ℕ_discrete

pub FileTransfer-discrete : Discrete FileTransfer
FileTransfer-discrete = hlevel (ℕ_discrete, Metadata-discrete)

-- memcmp(a, b, sizeof(struct peer)) == 0
pub Peer-discrete : Discrete Peer
Peer-discrete = hlevel (ℕ_discrete, ℤ-discrete, FileTransfer-discrete)
