-- ===== src/Handlers/Sending.antt =====
-- send_file_part of core/handlers.c, and the loop of sendmetadata around it. `none` is an access outside the
-- buffer of a part, or the use of a password that was not encrypted.
use tapi2p.Base.{
  ℕ, zero, suc, ◌+◌, ◌-◌, ◌*◌, ◌/◌, ◌%◌, ◌^◌, ℤ, pos, negsuc, Option, none, some, List, [], ◌∷◌,
  ◌++◌, Bool, not, ◌&&◌, ltb, leb, ◌==◌, if◌then◌else◌, length, take, drop,
}
use tapi2p.Files.{file_part_bytes, part_offset}
use tapi2p.Peer.Types.{FileTransfer, Metadata}
use tapi2p.Handlers.FilePart.{FilePart}

-- struct file_part_thread_data: `of_metadata` is type==Metadata, `slot` the index of `transfer`.
pub record Job : Type 0 where
  pub of_metadata : Bool
  pub slot : ℕ
  pub file_size : ℕ
  pub part_count : ℕ
  pub partnum : ℕ

-- metadata_t as it is sent, and what stands behind it.
pub record Reply : Type 0 where
  pub file_size : ℕ
  pub part_count : ℕ
  pub contents : List ℕ

pub data Message : Type 0 where
  metadata_message : Reply → Message
  part_message : FilePart → Message

abbrev pub message_of : Job → FileTransfer → List ℕ → Message
message_of td t payload =
    if td.of_metadata
    then metadata_message
        (record { file_size = td.file_size; part_count = td.part_count; contents = payload })
    else part_message (record { sha_str = t.sha_str; partnum = td.partnum; payload = payload })

-- What send_file_part returns for a part that fread did not fill.
abbrev pub last_sent : Metadata → ℕ
last_sent m =
    let before = m.part_count * file_part_bytes % 2 ^ 32 in
    if ltb m.file_size before then m.file_size else m.file_size - before

-- send_file_part after fread: `outside` is whether it wrote behind the buffer, `whole` what it
-- returned.
abbrev pub send_read :
    Option Bool → List ℕ → Job → FileTransfer → List ℕ → Bool → Bool → Option (Message × ℤ × List ℕ)
send_read sends behind td t rest outside whole =
    let size = if whole then file_part_bytes else t.metadata.file_size in
    let count = if whole then pos file_part_bytes else pos (last_sent t.metadata) in
    let result : Option (Message × ℤ × List ℕ) = elim sends [
      | none ↦ none
      | some ok ↦ some (
        message_of td t (take size (rest ++ behind)),
        (if ok then count else negsuc 0),
        drop file_part_bytes rest,
      )
    ] in
    if outside then none else (if ltb file_part_bytes size then none else result)

-- fread goes to buf+(partnum*FILE_PART_BYTES).
abbrev pub is_outside : ℕ → List ℕ → Bool
is_outside partnum rest = not (part_offset partnum == 0) && ltb 0 (length rest)

-- send_file_part: `rest` is the file from its position on, `behind` what the buffer held. `sends` is
-- `none` where the peer's key does not encrypt, so that aes_encrypt_random_pass goes on with a
-- password that has not been encrypted, and else whether send succeeds. The message that is given to
-- send, what is returned, and the file's rest.
unfoldable pub send_file_part :
    Option Bool → List ℕ → Job → FileTransfer → List ℕ → Option (Message × ℤ × List ℕ)
send_file_part sends behind td t rest =
    send_read sends behind td t rest (is_outside td.partnum rest)
      (leb file_part_bytes (length rest))

-- sent += ..., in 64 bits.
abbrev pub add_sent : ℕ → ℤ → ℕ
add_sent sent (pos n) = (sent + n) % 2 ^ 64
add_sent sent (negsuc n) = (sent + (2 ^ 64 - 1 - n)) % 2 ^ 64

abbrev pub calculate_sizes_to_metadata : ℕ → Metadata → Metadata
calculate_sizes_to_metadata size m = record m {
  file_size = size;
  part_count = (size / file_part_bytes + 1) % 2 ^ 32;
}

-- The do loop of sendmetadata; `none` also for the fuel that is used up.
abbrev pub continue_loop :
    (ℕ → List ℕ → Option (List Message))
    → ℕ
    → ℕ
    → Option (Message × ℤ × List ℕ)
    → Option (List Message)
continue_loop loop size sent none = none
continue_loop loop size sent (some (m, r, rest)) =
    let more = loop (add_sent sent r) rest in
    if ltb (add_sent sent r) size
    then (elim more as (λ x. Option (List Message)) [ none ↦ none | some ms ↦ some (m ∷ ms) ])
    else some (m ∷ [])

unfoldable pub send_loop :
    (ℕ → Option Bool) → List ℕ → Job → FileTransfer → ℕ → ℕ → List ℕ → Option (List Message)
unfolding send_file_part
send_loop sends behind td t zero sent rest = none
send_loop sends behind td t (suc fuel) sent rest =
    continue_loop (send_loop sends behind td t fuel) t.metadata.file_size sent
      (send_file_part (sends fuel) behind td t rest)
