-- ===== src/Handlers/Serving/Part.antt =====
-- What a request for a part leads to, from the handler to the end of the thread that it starts.
use tapi2p.Base.{
  arith, ◌<◌, leb, ℕ, ◌≡◌, refl, sym, ap, ap₂, subst, ◌∙◌, Option, none, some, List, [], ◌∷◌, Bool,
  true, false, length, get_elem?, set, codes,
}
use tapi2p.FileTransfers.{sha_digest_str_max_length}
use tapi2p.Files.{file_part_bytes}
use tapi2p.Peer.Types.{FileTransfer}
use tapi2p.Peer.Transfers.{get_and_lock_new_filetransfer, unlock_with, clear_file_transfer}
use tapi2p.Peer.Transfers.Laws.{locks, locks-unlock_with}
use tapi2p.Handlers.World.{Configs}
use tapi2p.Handlers.Sending.{Job, Message, part_message, message_of}
use tapi2p.Handlers.Serving.{
  Serving, close_slot, open_item, open_file_for_sha, with_file, requested, at_slot, rest_of,
  handlefilepartrequest, end_job, part_sent, part_of_file, send_file_part_thread,
}
use tapi2p.Handlers.Serving.Short.{
  Taken, get_and_lock_new_filetransfer-Taken, close_file_head, send_file_part-whole, at_slot-taken,
  Served,
}

module _ (c : Configs) (conf : c.Config) (opens opens_metadata : List ℕ → Option ℕ)
    (contents : ℕ → List ℕ) where
  -- The job of a request, and its thread from then on.
  abbrev pub ServedJob :
      (Serving → Job → List Job → Option Serving) → Serving → Message → Option Serving → Type 0
  ServedJob thread s m none = ⊥
  ServedJob thread s m (some s1) =
      (td : Job) × (t : Serving) × (s1.jobs ≡ td ∷ s.jobs)
      × (thread s1 td s.jobs ≡ some t)
      × Served s t m

  -- Request a part 0 of a file shorter than a part, with a free slot.
  with_file-Served :
      (sends : Bool) (behind : List ℕ) (s : Serving) (sha : List ℕ) (f i : ℕ)
      (locked : List FileTransfer)
      → length (contents f) < file_part_bytes
      → length sha < sha_digest_str_max_length
      → Taken s.slots (some (i, locked))
      → ServedJob
          (send_file_part_thread c conf opens opens_metadata contents (some sends) behind)
          s
          (part_message (record { sha_str = sha; partnum = 0; payload = contents f }))
          (with_file c conf opens opens_metadata contents s 0 sha (some f) (some (i, locked)))
  unfolding send_file_part_thread
  with_file-Served sends behind s sha f i locked short fits (t, at, free, l) = rw no_overflow (
    td,
    end_job c conf opens opens_metadata contents s1 td s.jobs (message_of td q (contents f) ∷ []),
    refl,
    ap
          (λ (o : Option FileTransfer). elim o as (λ x. Option Serving) [
            | none ↦ none
            | some x ↦
                part_of_file c conf opens opens_metadata contents (some sends) behind s1 td s.jobs x
                  (rest_of c conf opens opens_metadata contents x)
          ])
          taken.1
        ∙ ap (part_sent c conf opens opens_metadata contents s1 td s.jobs)
            (send_file_part-whole sends behind td q (contents f) refl refl short),
    record {
      delivered = refl;
      closed =
          ap (λ (o : Option FileTransfer). close_slot o (f ∷ s.files)) taken.1
          ∙ close_file_head f s.files;
      ended = refl;
      unlocked =
          ap (λ (xs : List FileTransfer). locks (unlock_with clear_file_transfer i xs)) taken.0
          ∙ locks-unlock_with clear_file_transfer s.slots i t q at free;
    },
  )
    where
      td : Job
      td = record { of_metadata = false; slot = i; file_size = 0; part_count = 0; partnum = 0 }

      s1 : Serving
      s1 = record s {
        slots =
            at_slot c conf opens opens_metadata contents
              (requested c conf opens opens_metadata contents f sha) i locked;
        files = f ∷ s.files;
        jobs = td ∷ s.jobs;
      }

      no_overflow : leb sha_digest_str_max_length (length sha) ≡ false
      no_overflow = ground arith

      q : FileTransfer
      q = requested c conf opens opens_metadata contents f sha (record t { locked = true })

      taken :
          (at_slot c conf opens opens_metadata contents
              (requested c conf opens opens_metadata contents f sha)
              i
              locked
            ≡ set s.slots i q)
          × (get_elem? s1.slots i ≡ some q)
      taken =
          at_slot-taken c conf opens opens_metadata contents
            (requested c conf opens opens_metadata contents f sha) s.slots locked i t at l

  -- A request for part 0 of a file that is shorter than a part, from a peer of the table with a
  -- free slot, for a hash of at most 40 characters whose file opens: the handler starts one thread. If
  -- the peer's key encrypts, the thread gives send the whole file with its hash, in one message,
  -- whether send succeeds or not, closes the file and releases the slot; no other file, thread or
  -- mutex has changed.
  pub handlefilepartrequest-Served :
      (sends : Bool) (behind : List ℕ) (s : Serving) (sha path : List ℕ) (f i : ℕ)
      (locked : List FileTransfer)
      → c.find_item conf (codes "Filename") sha ≡ some (some path)
      → opens path ≡ some f
      → get_and_lock_new_filetransfer s.slots ≡ some (i, locked)
      → length (contents f) < file_part_bytes
      → length sha < sha_digest_str_max_length
      → ServedJob
          (send_file_part_thread c conf opens opens_metadata contents (some sends) behind)
          s
          (part_message (record { sha_str = sha; partnum = 0; payload = contents f }))
          (handlefilepartrequest c conf opens opens_metadata contents true s 0 sha)
  unfolding handlefilepartrequest
  handlefilepartrequest-Served sends behind s sha path f i locked item opens_it slot short fits =
      subst
        (λ (o : Option Serving).
          ServedJob (send_file_part_thread c conf opens opens_metadata contents (some sends) behind)
            s (part_message (record { sha_str = sha; partnum = 0; payload = contents f })) o)
        (sym (ap₂ (λ x y. with_file c conf opens opens_metadata contents s 0 sha x y) file slot))
        (with_file-Served sends behind s sha f i locked short fits
          (subst (Taken s.slots) slot (get_and_lock_new_filetransfer-Taken s.slots)))
    where
      file : open_file_for_sha c conf opens opens_metadata contents sha ≡ some f
      file = ap (open_item c conf opens opens_metadata contents opens) item ∙ opens_it
