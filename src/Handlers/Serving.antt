-- ===== src/Handlers/Serving.antt =====
-- The side of core/handlers.c that sends files: handlefiletransfer and handlefilepartrequest, and the
-- threads that they start. The file system is an argument, and `none` is a fault: an access outside
-- the buffer of a part or the array of a hash, fclose of NULL, or a peer whose key does not encrypt.
-- sendmetadata unlocks a mutex that handlefiletransfer may have unlocked before; the second unlock is
-- taken to have no effect.
pub mod Short
pub mod Part
pub mod Description
use tapi2p.Base.{
  ℕ, zero, suc, ◌+◌, ◌-◌, ◌*◌, ◌/◌, ◌%◌, ◌^◌, ℤ, pos, negsuc, Option, none, some, List, [], ◌∷◌,
  ◌++◌, Bool, true, false, not, ◌&&◌, ltb, leb, ◌==◌, if◌then◌else◌, length, take, drop, get_elem?,
  set, codes,
}
use tapi2p.FileTransfers.{sha_digest_str_max_length}
use tapi2p.Files.{file_part_bytes, part_offset}
use tapi2p.Peer.Types.{FileTransfer, Metadata}
use tapi2p.Peer.Transfers.{get_and_lock_new_filetransfer, unlock_with, clear_file_transfer}
use tapi2p.Handlers.World.{Configs}
use tapi2p.Handlers.FilePart.{FilePart}
use tapi2p.Handlers.Sending.{
  Job, Reply, Message, message_of, last_sent, send_read, is_outside, send_file_part, add_sent,
  calculate_sizes_to_metadata, continue_loop, send_loop, metadata_message, part_message,
}

-- The slots of the peer, the FILEs that are open, the threads that run, and the messages for the peer
-- that send has been given, the last first; they count whether send has succeeded or not.
pub record Serving : Type 0 where
  pub slots : List FileTransfer
  pub files : List ℕ
  pub jobs : List Job
  pub sent : List Message

abbrev pub close_file : ℕ → List ℕ → List ℕ
close_file f [] = []
close_file f (g ∷ gs) = let rest = close_file f gs in if g == f then gs else g ∷ rest

-- clear_file_transfer closes the slot's file.
abbrev pub close_slot : Option FileTransfer → List ℕ → List ℕ
close_slot none fs = fs
close_slot (some t) fs = elim t.file [ none ↦ fs | some f ↦ close_file f fs ]

module _ (c : Configs) (conf : c.Config) (opens opens_metadata : List ℕ → Option ℕ)
    (contents : ℕ → List ℕ) where
  -- open_file_for_sha and open_metadata, of a peer that is there.
  abbrev pub open_item : (List ℕ → Option ℕ) → Option (Option (List ℕ)) → Option ℕ
  open_item f none = none
  open_item f (some none) = none
  open_item f (some (some path)) = f path

  abbrev pub open_file_for_sha : List ℕ → Option ℕ
  open_file_for_sha sha = open_item opens (c.find_item conf (codes "Filename") sha)

  abbrev pub open_metadata : List ℕ → Option ℕ
  open_metadata sha =
      open_item (λ path. opens_metadata sha) (c.find_item conf (codes "Filename") sha)

  abbrev pub if_peer : Bool → Option ℕ → Option ℕ
  if_peer there f = if there then f else none

  -- handlefiletransfer, with a slot: fclose of NULL if the file itself does not open.
  abbrev pub start_metadata : Serving → ℕ → ℕ → List FileTransfer → Option ℕ → Option Serving
  start_metadata s f i locked none = none
  start_metadata s f i locked (some g) = some (record s {
    slots = unlock_with (λ t. record t { file = some f }) i locked;
    files = f ∷ s.files;
    jobs =
        record {
          of_metadata = true;
          slot = i;
          file_size = length (contents g);
          part_count = (length (contents g) / file_part_bytes + 1) % 2 ^ 32;
          partnum = 0;
        }
        ∷ s.jobs;
  })

  abbrev pub with_metadata :
      Serving → List ℕ → Option ℕ → Option (ℕ × List FileTransfer) → Option Serving
  with_metadata s sha none lock = some s
  with_metadata s sha (some f) none = some (record s { files = f ∷ s.files })
  with_metadata s sha (some f) (some (i, locked)) =
      start_metadata s f i locked (open_file_for_sha sha)

  -- `there` is whether the event's peer is in the table.
  unfoldable pub handlefiletransfer : Bool → Serving → List ℕ → Option Serving
  unfolding get_and_lock_new_filetransfer unlock_with
  handlefiletransfer there s sha =
      with_metadata s sha (if_peer there (open_metadata sha))
        (get_and_lock_new_filetransfer s.slots)

  -- handlefilepartrequest. The slot stays locked. strcpy of a hash that does not fit its array with its
  -- NUL is a fault.
  abbrev pub requested : ℕ → List ℕ → FileTransfer → FileTransfer
  requested f sha t = record t {
    file = some f;
    sha_str = sha;
    metadata = calculate_sizes_to_metadata (length (contents f)) t.metadata;
  }

  abbrev pub at_slot : (FileTransfer → FileTransfer) → ℕ → List FileTransfer → List FileTransfer
  at_slot f i ts = elim (get_elem? ts i) [ none ↦ ts | some t ↦ set ts i (f t) ]

  abbrev pub with_file :
      Serving → ℕ → List ℕ → Option ℕ → Option (ℕ × List FileTransfer) → Option Serving
  with_file s part sha none lock = some s
  with_file s part sha (some f) none = some s
  with_file s part sha (some f) (some (i, locked)) =
      if leb sha_digest_str_max_length (length sha)
      then none
      else some (record s {
        slots = at_slot (requested f sha) i locked;
        files = f ∷ s.files;
        jobs =
            record { of_metadata = false; slot = i; file_size = 0; part_count = 0; partnum = part }
            ∷ s.jobs;
      })

  unfoldable pub handlefilepartrequest : Bool → Serving → ℕ → List ℕ → Option Serving
  unfolding get_and_lock_new_filetransfer
  handlefilepartrequest there s part sha =
      with_file s part sha (if_peer there (open_file_for_sha sha))
        (get_and_lock_new_filetransfer s.slots)

  -- The end of both threads; a FILE of the slot is closed.
  abbrev pub end_job : Serving → Job → List Job → List Message → Serving
  end_job s td jobs ms = record s {
    slots = unlock_with clear_file_transfer td.slot s.slots;
    files = close_slot (get_elem? s.slots td.slot) s.files;
    jobs = jobs;
    sent = ms ++ s.sent;
  }

  abbrev pub rest_of : FileTransfer → Option (List ℕ)
  rest_of t = elim t.file [ none ↦ none | some f ↦ some (contents f) ]

  abbrev pub part_sent : Serving → Job → List Job → Option (Message × ℤ × List ℕ) → Option Serving
  part_sent s td jobs none = none
  part_sent s td jobs (some (m, r, rest)) = some (end_job s td jobs (m ∷ []))

  abbrev pub part_of_file :
      Option Bool
      → List ℕ
      → Serving
      → Job
      → List Job
      → FileTransfer
      → Option (List ℕ)
      → Option Serving
  part_of_file sends behind s td jobs t none = none
  part_of_file sends behind s td jobs t (some rest) =
      part_sent s td jobs (send_file_part sends behind td t rest)

  -- send_file_part_thread, for the job that was started last.
  unfoldable pub send_file_part_thread :
      Option Bool → List ℕ → Serving → Job → List Job → Option Serving
  unfolding send_file_part unlock_with
  send_file_part_thread sends behind s td jobs = elim (get_elem? s.slots td.slot) [
    | none ↦ none
    | some t ↦ part_of_file sends behind s td jobs t (rest_of t)
  ]

  abbrev pub all_sent : Serving → Job → List Job → Option (List Message) → Option Serving
  all_sent s td jobs none = none
  all_sent s td jobs (some ms) = some (end_job s td jobs ms)

  abbrev pub metadata_of_file :
      (ℕ → Option Bool)
      → List ℕ
      → ℕ
      → Serving
      → Job
      → List Job
      → FileTransfer
      → Option (List ℕ)
      → Option Serving
  metadata_of_file sends behind fuel s td jobs t none = none
  metadata_of_file sends behind fuel s td jobs t (some rest) = all_sent s td jobs (
      send_loop sends behind td
        (record t { metadata = calculate_sizes_to_metadata (length rest) t.metadata }) fuel 0 rest)

  -- sendmetadata
  unfoldable pub sendmetadata :
      (ℕ → Option Bool) → List ℕ → ℕ → Serving → Job → List Job → Option Serving
  unfolding send_loop unlock_with
  sendmetadata sends behind fuel s td jobs = elim (get_elem? s.slots td.slot) [
    | none ↦ none
    | some t ↦ metadata_of_file sends behind fuel s td jobs t (rest_of t)
  ]
